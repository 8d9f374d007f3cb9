-- ===== src/Delivery/Due/Paths.antt =====
-- The handler's paths after the provider's answer, under a relation on databases that its writes keep.
use send_flow_backend.Prelude.{
  ℕ, zero, suc, String, refl, Option, none, some, Bool-cases, inl, inr, find?,
}
use send_flow_backend.Prelude.Text.{str_eq}
use send_flow_backend.Effect.{Error, Result, ok, err, M, is_error}
use send_flow_backend.Effect.Rules.{
  Preorder, Keeps, Keeps-return, Keeps-throw, Keeps-bind, Keeps-then, Keeps-attempt,
  Keeps-ignore_error, Keeps-call, Keeps-id_gen, Keeps-within_tx,
}
use send_flow_backend.Delivery.Status.{MessageStatus, status_eq}
use send_flow_backend.Delivery.Message.{Message, DeliveryAttempt}
use send_flow_backend.Delivery.Sending.{ProviderSendResult}
use send_flow_backend.Delivery.Store.{Db, update_message, mark_accepted, find_by_id, found}
use send_flow_backend.Delivery.Due.Data.{DuePorts}
use send_flow_backend.Delivery.Due.Accepted.{
  save_accepted_event, accepted_body, or_again, tries, with_event_id, persist_accepted_state,
  accepted_attempt, accepted_message,
}
use send_flow_backend.Delivery.Due.Send.{
  give_up, give_up_attempt, dead_letter, on_current, on_persisted, on_answer, permanent_failure,
}
use send_flow_backend.Delivery.Due.Writes.{
  AllowsWrites, update_attempt-Keeps, update_message-Keeps, write_event-Keeps, fail_message-Keeps,
  fail_message_with_attempt-Keeps, publish-Keeps,
}
use send_flow_backend.Delivery.Due.Retrying.{AllowsRetries, handle_temporary_failure-Keeps}

module _ (R : Preorder Db) (p : DuePorts) (now : ℕ) (m : Message)
    (allows : AllowsWrites R m.workspace_id m.id) where
  module _ (res : ProviderSendResult) where
    accepted_body-Keeps :
        (a : DeliveryAttempt) (x : Message) (id : String)
        → AllowsWrites R x.workspace_id x.id
        → Keeps R (accepted_body p now x a res id)
    unfolding accepted_body save_accepted_event mark_accepted
    accepted_body-Keeps a x id here = Keeps-then R (update_attempt-Keeps R p now x here a) (
        Keeps-then R (update_message-Keeps R p now x here _ (λ row. (refl, refl))) (
          Keeps-then R (write_event-Keeps R p now x here x _ _ _ _)
            (publish-Keeps R p now x here id _ x _)))

    or_again-Keeps :
        (r : Result (Unit {0})) (again : Error → M Db (Unit {0}))
        → ((e : Error) → Keeps R (again e))
        → Keeps R (or_again p now r again)
    or_again-Keeps (ok _) again h = Keeps-return R tt
    or_again-Keeps (err e) again h = h e

    tries-Keeps :
        (n : ℕ) (last : Error) (a : DeliveryAttempt) (x : Message) (id : String)
        → AllowsWrites R x.workspace_id x.id
        → Keeps R (tries p now n last x a res id)
    unfolding tries
    tries-Keeps zero last a x id here = Keeps-throw R _
    tries-Keeps (suc n) last a x id here =
        Keeps-bind R (Keeps-attempt R (Keeps-within_tx R p.env (accepted_body-Keeps a x id here)))
          (λ r. or_again-Keeps r _ (λ e. tries-Keeps n e a x id here))

    with_event_id-Keeps :
        (a : DeliveryAttempt) (x : Message) (id : Result String)
        → AllowsWrites R x.workspace_id x.id
        → Keeps R (with_event_id p now x a res id)
    with_event_id-Keeps a x (err e) here = Keeps-throw R _
    with_event_id-Keeps a x (ok id) here = tries-Keeps 3 _ a x id here

    persist_accepted_state-Keeps :
        (a : DeliveryAttempt) (x : Message)
        → AllowsWrites R x.workspace_id x.id
        → Keeps R (persist_accepted_state p now x a res)
    unfolding persist_accepted_state
    persist_accepted_state-Keeps a x here =
        Keeps-bind R (Keeps-attempt R (Keeps-id_gen R p.env))
          (λ id. with_event_id-Keeps a x id here)

  pub give_up-Keeps :
      (error_class error_message : String) → Keeps R (give_up p now m error_class error_message)
  give_up-Keeps error_class error_message =
      Keeps-then R (fail_message-Keeps R p now m allows error_class error_message)
        (Keeps-return R _)

  give_up_attempt-Keeps :
      (a : DeliveryAttempt) (error_class error_message : String)
      → Keeps R (give_up_attempt p now m a error_class error_message)
  give_up_attempt-Keeps a error_class error_message =
      Keeps-then R (fail_message_with_attempt-Keeps R p now m allows a error_class error_message)
        (Keeps-return R _)

dead_letter-Keeps :
    (R : Preorder Db) (p : DuePorts) (now : ℕ) (m : Message)
    → AllowsWrites R m.workspace_id m.id
    → (e : Error) → Keeps R (dead_letter p now m e)
unfolding update_message
dead_letter-Keeps R p now m allows e = Keeps-then R (write_event-Keeps R p now m allows m _ _ _ _) (
    Keeps-then R
      (Keeps-ignore_error R (update_message-Keeps R p now m allows _ (λ row. (refl, refl))))
      (Keeps-return R _))

on_current-Keeps :
    (R : Preorder Db) (p : DuePorts) (now : ℕ) (m : Message)
    → AllowsWrites R m.workspace_id m.id
    → (e : Error) (c : Result Message) → Keeps R (on_current p now m e c)
on_current-Keeps R p now m allows e (err x) = dead_letter-Keeps R p now m allows e
on_current-Keeps R p now m allows e (ok c) =
    elim (Bool-cases (status_eq c.status MessageStatus.accepted)) [
      | inl h ↦ rw h (Keeps-return R _)
      | inr h ↦ rw h (dead_letter-Keeps R p now m allows e)
    ]

found_rel :
    (R : Preorder Db) {A : Type 0} (o : Option A) (missing : String) (d : Db)
    → R.Rel d (found o missing d).1
found_rel R none missing d = R.same d
found_rel R (some a) missing d = R.same d

on_persisted-Keeps :
    (R : Preorder Db) (p : DuePorts) (now : ℕ) (m : Message)
    → AllowsWrites R m.workspace_id m.id
    → (r : Result (Unit {0})) → Keeps R (on_persisted p now m r)
unfolding find_by_id
on_persisted-Keeps R p now m allows (ok _) = Keeps-return R _
on_persisted-Keeps R p now m allows (err e) =
    Keeps-bind R
      (Keeps-attempt R (Keeps-call R p.env _ (λ d. found_rel R (find? _ d.messages) _ d)))
      (on_current-Keeps R p now m allows e)

-- What the handler does with the provider's answer keeps the relation.
pub on_answer-Keeps :
    (R : Preorder Db) (p : DuePorts) (now : ℕ) (m : Message)
    → AllowsWrites R m.workspace_id m.id
    → AllowsRetries R
    → (a : DeliveryAttempt) (r : Result ProviderSendResult) → Keeps R (on_answer p now m a r)
on_answer-Keeps R p now m allows retries a (err e) =
    elim (Bool-cases (is_error e permanent_failure)) [
      | inl h ↦ rw h (give_up_attempt-Keeps R p now m allows a _ _)
      | inr h ↦ rw h (
          Keeps-then R (handle_temporary_failure-Keeps R p now m allows retries a _)
            (Keeps-return R _))
    ]
on_answer-Keeps R p now m allows retries a (ok res) =
    elim (Bool-cases (str_eq res.provider_message_id "")) [
      | inl h ↦ rw h (give_up_attempt-Keeps R p now m allows a _ _)
      | inr h ↦ rw h (
          Keeps-bind R
            (Keeps-attempt R (
              persist_accepted_state-Keeps R p now m allows res (accepted_attempt p now a res)
                (accepted_message p now m res) allows))
            (on_persisted-Keeps R p now (accepted_message p now m res) allows))
    ]
