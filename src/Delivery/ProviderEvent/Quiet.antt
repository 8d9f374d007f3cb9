-- ===== src/Delivery/ProviderEvent/Quiet.antt =====
-- The log of events, the parent request's counters and the suppression, between the write of the
-- message and the outbox: a relation that their tables do not matter to is kept.
use send_flow_backend.Prelude.{
  ℕ, String, Bool, true, false, ◌&&◌, List, Option, none, some, any, Bool-cases, inl, inr, not,
}
use send_flow_backend.Prelude.Text.{str_eq}
use send_flow_backend.Effect.{M}
use send_flow_backend.Effect.Rules.{
  Preorder, Keeps, Keeps-return, Keeps-bind, Keeps-attempt, Keeps-call, Keeps-id_gen,
}
use send_flow_backend.Delivery.Status.{MessageStatus, is_terminal}
use send_flow_backend.Delivery.Message.{Message, MessageEvent}
use send_flow_backend.Delivery.Store.{
  Db, SuppressionSignal, TransactionalRequest, affected, create_message_event, update_aggregates,
}
use send_flow_backend.Delivery.ProviderEvent.Data.{Ports, ProviderEventInput, SuppressionResult}
use send_flow_backend.Delivery.ProviderEvent.Writes.{
  write_message_event, update_parent, suppress, write_event_to, send_signal, signal_result,
  no_suppression, log_dropped,
}

pub record Quiet (R : Preorder Db) : Type 0 where
  pub any_events : (d : Db) (es : List MessageEvent) → R.Rel d (record d { message_events = es })
  pub any_requests :
      (d : Db) (rs : List TransactionalRequest) → R.Rel d (record d { requests = rs })
  pub any_signals : (d : Db) (ss : List SuppressionSignal) → R.Rel d (record d { signals = ss })

affected_keeps :
    (R : Preorder Db) (b : Bool) (missing : String) (d e : Db)
    → R.Rel d e
    → R.Rel d (affected b missing d e).1
affected_keeps R true missing d e h = h
affected_keeps R false missing d e h = R.same d

module _ (R : Preorder Db) (quiet : Quiet R) (p : Ports) (input : ProviderEventInput) where
  log_dropped-Keeps : {A : Type 0} {m : M Db A} → Keeps R m → Keeps R (log_dropped p input m)
  log_dropped-Keeps h = Keeps-bind R (Keeps-attempt R h) (λ _. Keeps-return R tt)

  write_event_to-Keeps :
      (b : Bool) (m : Message) (event_type reason : String) (now : ℕ)
      → Keeps R (write_event_to p input b m event_type reason now)
  unfolding create_message_event
  write_event_to-Keeps false m event_type reason now = Keeps-return R tt
  write_event_to-Keeps true m event_type reason now =
      log_dropped-Keeps (
        Keeps-bind R (Keeps-id_gen R p.env)
          (λ id. Keeps-call R p.env _ (λ d. quiet.any_events d _)))

  pub write_message_event-Keeps :
      (target : MessageStatus) (m : Message) (now : ℕ)
      → Keeps R (write_message_event p input target m now)
  unfolding write_message_event
  write_message_event-Keeps MessageStatus.delivered m now = write_event_to-Keeps _ _ _ _ _
  write_message_event-Keeps MessageStatus.bounced m now = write_event_to-Keeps _ _ _ _ _
  write_message_event-Keeps MessageStatus.complained m now = write_event_to-Keeps _ _ _ _ _
  write_message_event-Keeps MessageStatus.delayed m now = write_event_to-Keeps _ _ _ _ _
  write_message_event-Keeps MessageStatus.failed m now = write_event_to-Keeps _ _ _ _ _
  write_message_event-Keeps _ m now = Keeps-return R tt

  pub update_parent-Keeps : (m : Message) (now : ℕ) → Keeps R (update_parent p input m now)
  unfolding update_parent update_aggregates
  update_parent-Keeps m now =
      elim (Bool-cases (not (str_eq m.transactional_request_id "") && is_terminal m.status)) [
        | inl e ↦ rw e (
            log_dropped-Keeps (
              Keeps-call R p.env _
                (λ d. affected_keeps R (any _ d.requests) _ d _ (quiet.any_requests d _))))
        | inr e ↦ rw e (Keeps-return R tt)
      ]

  send_signal-Keeps :
      (answer : Option (List SuppressionSignal → SuppressionSignal → SuppressionResult))
      (signal : Option SuppressionSignal)
      → Keeps R (send_signal p input answer signal)
  send_signal-Keeps none none = Keeps-return R (no_suppression p input)
  send_signal-Keeps none (some signal) = Keeps-return R (no_suppression p input)
  send_signal-Keeps (some answer) none = Keeps-return R (no_suppression p input)
  send_signal-Keeps (some answer) (some signal) =
      Keeps-bind R (Keeps-attempt R (Keeps-call R p.env _ (λ d. quiet.any_signals d _)))
        λ r. Keeps-return R (signal_result p input r)

  pub suppress-Keeps : (signal : Option SuppressionSignal) → Keeps R (suppress p input signal)
  unfolding suppress
  suppress-Keeps signal = send_signal-Keeps p.suppressor signal
