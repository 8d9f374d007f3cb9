-- ===== src/Delivery/Due/Writes.antt =====
-- The writes of the handler, under a relation on databases that they keep.
use send_flow_backend.Prelude.{
  ℕ, String, ◌≡◌, refl, Bool, true, false, not, List, Bool-cases, inl, inr, any,
}
use send_flow_backend.Prelude.Text.{str_eq}
use send_flow_backend.Effect.{call}
use send_flow_backend.Effect.Rules.{
  Preorder, Keeps, Keeps-return, Keeps-bind, Keeps-then, Keeps-ignore_error, Keeps-call, Keeps-lift,
  Keeps-id_gen, Keeps-within_tx,
}
use send_flow_backend.Delivery.Status.{MessageStatus}
use send_flow_backend.Delivery.Message.{Message, DeliveryAttempt, MessageEvent}
use send_flow_backend.Delivery.Contracts.{Payload}
use send_flow_backend.Delivery.Store.{
  Db, TransactionalRequest, OutboxEvent, write_messages, mark_failed, update_attempt,
  create_attempt, create_message_event, save_outbox, update_aggregates, affected,
}
use send_flow_backend.Delivery.Due.Data.{
  DuePorts, log_event, write_event, count_failure, fail_body, fail_message,
  fail_message_with_attempt, publish,
}

-- A change of a row that leaves its keys.
abbrev pub KeepsKeys : (Message → Message) → Type 0
KeepsKeys change =
    (row : Message) → ((change row).id ≡ row.id) × ((change row).workspace_id ≡ row.workspace_id)

-- The relation lets the row of one message be written, and the tables beside the messages and the
-- retry states.
pub record AllowsWrites (R : Preorder Db) (workspace_id id : String) : Type 0 where
  pub any_change :
      (change : Message → Message) (d : Db)
      → KeepsKeys change
      → R.Rel d (write_messages workspace_id id change d).1
  pub any_attempts : (d : Db) (xs : List DeliveryAttempt) → R.Rel d (record d { attempts = xs })
  pub any_requests :
      (d : Db) (xs : List TransactionalRequest) → R.Rel d (record d { requests = xs })
  pub any_events : (d : Db) (xs : List MessageEvent) → R.Rel d (record d { message_events = xs })
  pub any_outbox : (d : Db) (xs : List OutboxEvent) → R.Rel d (record d { outbox = xs })

module _ (R : Preorder Db) (p : DuePorts) (now : ℕ) (m : Message)
    (allows : AllowsWrites R m.workspace_id m.id) where
  affected_rel :
      (b : Bool) (missing : String) (d e : Db) → R.Rel d e → R.Rel d (affected b missing d e).1
  affected_rel true missing d e h = h
  affected_rel false missing d e h = R.same d

  pub update_attempt-Keeps : (a : DeliveryAttempt) → Keeps R (call p.env (update_attempt a))
  unfolding update_attempt
  update_attempt-Keeps a =
      Keeps-call R p.env _ (λ d. affected_rel (any _ d.attempts) _ d _ (allows.any_attempts d _))

  pub create_attempt-Keeps : (a : DeliveryAttempt) → Keeps R (call p.env (create_attempt a))
  unfolding create_attempt
  create_attempt-Keeps a = Keeps-call R p.env _ (λ d. allows.any_attempts d _)

  pub update_message-Keeps :
      (change : Message → Message)
      → KeepsKeys change
      → Keeps R (call p.env (write_messages m.workspace_id m.id change))
  update_message-Keeps change keys = Keeps-call R p.env _ (λ d. allows.any_change change d keys)

  log_event-Keeps : (b : Bool) (e : String → MessageEvent) → Keeps R (log_event p now b e)
  unfolding create_message_event
  log_event-Keeps false e = Keeps-return R tt
  log_event-Keeps true e = Keeps-ignore_error R (
      Keeps-bind R (Keeps-id_gen R p.env) (λ id. Keeps-call R p.env _ (λ d. allows.any_events d _)))

  pub write_event-Keeps :
      (n : Message) (event_type : String) (status : MessageStatus)
      (reason_code reason_message : String)
      → Keeps R (write_event p now n event_type status reason_code reason_message)
  unfolding write_event
  write_event-Keeps n event_type status reason_code reason_message =
      log_event-Keeps p.has_event_repo _

  count_failure-Keeps : Keeps R (count_failure p now m)
  unfolding count_failure update_aggregates
  count_failure-Keeps = elim (Bool-cases (not (str_eq m.transactional_request_id ""))) [
    | inl e ↦ rw e (
        Keeps-call R p.env _ (λ d. affected_rel (any _ d.requests) _ d _ (allows.any_requests d _)))
    | inr e ↦ rw e (Keeps-return R tt)
  ]

  fail_body-Keeps :
      (error_class error_message : String) → Keeps R (fail_body p now m error_class error_message)
  unfolding fail_body mark_failed
  fail_body-Keeps error_class error_message =
      Keeps-then R (update_message-Keeps _ (λ row. (refl, refl))) (
        Keeps-then R count_failure-Keeps
          (write_event-Keeps m "failed" MessageStatus.failed error_class error_message))

  pub fail_message-Keeps :
      (error_class error_message : String)
      → Keeps R (fail_message p now m error_class error_message)
  unfolding fail_message
  fail_message-Keeps error_class error_message =
      Keeps-ignore_error R (Keeps-within_tx R p.env (fail_body-Keeps error_class error_message))

  pub fail_message_with_attempt-Keeps :
      (a : DeliveryAttempt) (error_class error_message : String)
      → Keeps R (fail_message_with_attempt p now m a error_class error_message)
  unfolding fail_message_with_attempt
  fail_message_with_attempt-Keeps a error_class error_message = Keeps-ignore_error R (
      Keeps-within_tx R p.env
        (Keeps-then R (update_attempt-Keeps _) (fail_body-Keeps error_class error_message)))

  pub publish-Keeps :
      (id event_type : String) (n : Message) (payload : Payload)
      → Keeps R (publish p now id event_type n payload)
  unfolding publish save_outbox
  publish-Keeps id event_type n payload = Keeps-bind R (Keeps-lift R _) (λ envelope.
      Keeps-bind R (Keeps-lift R _) (λ bytes. Keeps-call R p.env _ (λ d. allows.any_outbox d _)))
