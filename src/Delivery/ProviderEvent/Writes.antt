-- ===== src/Delivery/ProviderEvent/Writes.antt =====
-- internal/modules/delivery/app/process/provider_event.go: what the transaction of `Execute` writes.
use send_flow_backend.Prelude.{
  ℕ, String, Bool, true, false, ◌&&◌, not, List, Option, none, some, if◌then◌else◌,
}
use send_flow_backend.Prelude.Text.{str_eq}
use send_flow_backend.Effect.{Result, ok, err, M, ◌>>=◌, ◌>>◌, return, lift, attempt, call, id_gen}
use send_flow_backend.Events.{new_envelope, marshal}
use send_flow_backend.Delivery.Status.{MessageStatus, status_eq, is_terminal}
use send_flow_backend.Delivery.Message.{Message, MessageEvent}
use send_flow_backend.Delivery.Contracts.{
  Payload, recipient_suppressed, aggregate_message, aggregate_suppression_entry,
}
use send_flow_backend.Delivery.Store.{
  Db, SuppressionSignal, update_message, update_aggregates, create_message_event, save_outbox,
}
use send_flow_backend.Delivery.ProviderEvent.Data.{
  Ports, ProviderEventInput, SuppressionResult, Change,
}

module _ (p : Ports) (input : ProviderEventInput) where
  abbrev pub event_record : Message → String → String → ℕ → String → MessageEvent
  event_record m event_type reason_code now id = record {
    id = id;
    workspace_id = m.workspace_id;
    message_id = m.id;
    transactional_request_id = m.transactional_request_id;
    event_type = event_type;
    status = m.status;
    reason_code = reason_code;
    reason_message = "";
    occurred_at = now;
    created_at = now;
  }

  -- Errors of a log entry are logged and dropped.
  abbrev pub log_dropped : {A : Type 0} → M Db A → M Db (Unit {0})
  log_dropped m = do _ ← attempt m; return tt

  abbrev pub write_event_to : Bool → Message → String → String → ℕ → M Db (Unit {0})
  write_event_to false m event_type reason_code now = return tt
  write_event_to true m event_type reason_code now = log_dropped (do
    id ← id_gen p.env
    call p.env (create_message_event (event_record m event_type reason_code now id)))

  unfoldable pub write_event : Message → String → String → ℕ → M Db (Unit {0})
  write_event m event_type reason_code now =
      write_event_to p.has_event_repo m event_type reason_code now

  -- `writeMessageEvent`.
  unfoldable pub write_message_event : MessageStatus → Message → ℕ → M Db (Unit {0})
  unfolding write_event
  write_message_event MessageStatus.delivered m now = write_event m "delivered" "" now
  write_message_event MessageStatus.bounced m now = write_event m "bounced" "provider_bounce" now
  write_message_event MessageStatus.complained m now =
      write_event m "complained" "provider_complaint" now
  write_message_event MessageStatus.delayed m now = write_event m "delayed" "provider_delayed" now
  write_message_event MessageStatus.failed m now = write_event m "failed" "provider_rejected" now
  write_message_event _ m now = return tt

  -- The parent request counts a recipient that is in a terminal state.
  unfoldable pub update_parent : Message → ℕ → M Db (Unit {0})
  update_parent m now =
      if not (str_eq m.transactional_request_id "") && is_terminal m.status
      then log_dropped (
          call p.env (
            update_aggregates m.workspace_id m.transactional_request_id true
              (status_eq m.status MessageStatus.delivered) now))
      else return tt

  abbrev pub no_suppression : SuppressionResult
  no_suppression = record { entry_id = ""; created = false }

  abbrev pub signal_result : Result SuppressionResult → SuppressionResult
  signal_result (ok r) = r
  signal_result (err e) = no_suppression

  abbrev pub send_signal :
      Option (List SuppressionSignal → SuppressionSignal → SuppressionResult)
      → Option SuppressionSignal
      → M Db SuppressionResult
  send_signal (some answer) (some signal) = do
    r ← attempt (
        call p.env
          (λ d. (ok (answer d.signals signal), record d { signals = List.◌∷◌ signal d.signals })))
    return (signal_result r)
  send_signal _ none = return no_suppression
  send_signal none _ = return no_suppression

  unfoldable pub suppress : Option SuppressionSignal → M Db SuppressionResult
  suppress signal = send_signal p.suppressor signal

  -- An envelope of the event, encoded, into the outbox.
  unfoldable pub save_event : String → String → String → String → ℕ → Payload → M Db (Unit {0})
  save_event event_type aggregate_type aggregate_id workspace_id now payload = do
    id ← id_gen p.env
    envelope ← lift (
        new_envelope p.json now
          (record {
            event_id = id;
            event_type = event_type;
            event_version = 1;
            aggregate_type = aggregate_type;
            aggregate_id = aggregate_id;
            workspace_id = workspace_id;
            occurred_at = now;
            payload = "";
          })
          payload)
    bytes ← lift (marshal p.json envelope)
    call p.env (
        save_outbox (record {
          id = id;
          aggregate_type = aggregate_type;
          aggregate_id = aggregate_id;
          event_type = event_type;
          payload = bytes;
          workspace_id = workspace_id;
          occurred_at = now;
        }))

  unfoldable pub suppressed_payload : Message → SuppressionSignal → String → ℕ → Payload
  suppressed_payload m signal entry_id now = recipient_suppressed (record {
    suppression_id = entry_id;
    workspace_id = m.workspace_id;
    email_normalized = m.recipient_email_normalized;
    scope = "workspace";
    reason = signal.reason;
    source = signal.source;
    source_event_id = signal.source_event_id;
    created_at = now;
  })

  abbrev pub publish_suppression :
      Option SuppressionSignal → Message → ℕ → SuppressionResult → M Db (Unit {0})
  publish_suppression none m now r = return tt
  publish_suppression (some signal) m now r =
      if r.created
      then save_event "suppression.recipient_suppressed.v1" aggregate_suppression_entry r.entry_id
          m.workspace_id now (suppressed_payload m signal r.entry_id now)
      else return tt

  abbrev pub publish_change :
      Option (String × Payload)
      → Option SuppressionSignal
      → Message
      → ℕ
      → SuppressionResult
      → M Db (Unit {0})
  publish_change none signal m now r = return tt
  publish_change (some (event_type, payload)) signal m now r = do
    save_event event_type aggregate_message m.id m.workspace_id now payload
    publish_suppression signal m now r

  -- What follows the write of the message.
  unfoldable pub after_update : MessageStatus → ℕ → Change → M Db SuppressionResult
  unfolding write_message_event update_parent suppress save_event
  after_update target now c = do
    write_message_event target c.updated now
    update_parent c.updated now
    r ← suppress c.signal
    publish_change c.outbox c.signal c.updated now r
    return r

  unfoldable pub perform : MessageStatus → ℕ → Option Change → M Db SuppressionResult
  perform target now none = return no_suppression
  perform target now (some c) = do call p.env (update_message c.updated); after_update target now c
