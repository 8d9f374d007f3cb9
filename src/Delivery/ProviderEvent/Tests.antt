-- ===== src/Delivery/ProviderEvent/Tests.antt =====
-- Runs of the provider event handler.
use send_flow_backend.Prelude.{
  ℕ, String, ◌≡◌, refl, true, false, [], ◌∷◌, map, Option, none, some, ◌==◌, if◌then◌else◌, ◌⊎◌,
}
use send_flow_backend.Effect.{Error, failure, ok, err, Env, Sys, ◌>>=◌}
use send_flow_backend.Events.{new_envelope, marshal, is_blank}
use send_flow_backend.Delivery.Status.{
  MessageStatus, classify_provider_event, can_transition_to_status, status_eq, is_terminal,
}
use send_flow_backend.Delivery.Store.{
  Db, find_by_id, update_message, update_aggregates, create_message_event, save_outbox,
}
use send_flow_backend.Delivery.Store.Moves.{Moved, Moved-refl}
use send_flow_backend.Delivery.Fixtures.{
  no_faults, fault_at, plain_json, message_in, db_with, started,
}
use send_flow_backend.Delivery.ProviderEvent.Data.{
  Ports, ProviderEventInput, SuppressionResult, report,
}
use send_flow_backend.Delivery.ProviderEvent.Changes.{change_for}
use send_flow_backend.Delivery.ProviderEvent.Writes.{perform}
use send_flow_backend.Delivery.ProviderEvent.Handler.{execute, run_change}
use send_flow_backend.Delivery.ProviderEvent.Report.{skipped_change_reported}
use send_flow_backend.Delivery.ProviderEvent.Locked.{HonestFaults}
use send_flow_backend.Delivery.ProviderEvent.Status.{execute_moves}
use send_flow_backend.Delivery.ProviderEvent.Atomic.{SameButSignals, execute_atomic}

abbrev ports_with : Env → Ports
ports_with env = record {
  env = env;
  json = plain_json;
  suppressor = some (λ before signal. record { entry_id = "e1"; created = true });
  has_event_repo = true;
  others = λ d. d;
}

abbrev event_of : String → ProviderEventInput
event_of event_type = record {
  event_id = "ev";
  normalized_event_id = "n1";
  raw_event_id = "";
  workspace_id = "w1";
  message_id = "m1";
  provider = "ses";
  provider_event_id = "";
  provider_message_id = "p1";
  event_type = event_type;
  occurred_at = 7;
  received_at = 8;
}

abbrev accepted_state : Sys Db
accepted_state = started (db_with (message_in MessageStatus.accepted))

-- A bounce writes the message, its event and two outbox events, and suppresses the recipient.
bounce_run :
    let d = (execute (ports_with no_faults) (event_of "bounced") accepted_state).1.db in
    (map (λ m. m.status) d.messages ≡ MessageStatus.bounced ∷ [])
    × (map (λ e. e.event_type) d.outbox
        ≡ "delivery.message.bounced.v1" ∷ "suppression.recipient_suppressed.v1" ∷ [])
    × (map (λ r. r.recipient_failure_total) d.requests ≡ 1 ∷ [])
unfolding execute classify_provider_event can_transition_to_status status_eq is_terminal find_by_id
    update_message update_aggregates create_message_event save_outbox ◌>>=◌ new_envelope marshal
    is_blank
bounce_run = (refl, refl, refl)

no_faults-HonestFaults : HonestFaults no_faults
no_faults-HonestFaults = record { no_false_miss = λ n e h. cc }

execute_moves_example :
    Moved accepted_state.db.messages
      (execute (ports_with no_faults) (event_of "bounced") accepted_state).1.db.messages
execute_moves_example =
    execute_moves (ports_with no_faults) (event_of "bounced") no_faults-HonestFaults
      (λ d. Moved-refl d.messages) accepted_state

-- The commit, call 13 of this run, fails.
abbrev lost_commit : ℕ → Option Error
lost_commit n = if n == 13 then some (failure "commit") else none

execute_fails_run :
    (execute (ports_with (fault_at lost_commit)) (event_of "bounced") accepted_state).0
    ≡ err (failure "commit")
unfolding execute classify_provider_event can_transition_to_status status_eq is_terminal find_by_id
    update_message update_aggregates create_message_event save_outbox ◌>>=◌ new_envelope marshal
    is_blank
execute_fails_run = refl

execute_atomic_example :
    let d =
      (execute (ports_with (fault_at lost_commit)) (event_of "bounced") accepted_state).1.db in
    (d ≡ accepted_state.db)
    ⊎ SameButSignals (ports_with (fault_at lost_commit)) (event_of "bounced") accepted_state.db d
execute_atomic_example =
    execute_atomic (ports_with (fault_at lost_commit)) (event_of "bounced") accepted_state
      (λ n. refl) execute_fails_run

abbrev calm_ports : Ports
calm_ports = ports_with no_faults

-- Another worker marks the message as failed before the transaction starts.
abbrev overtaken : Ports
overtaken = record calm_ports { others = λ d. db_with (message_in MessageStatus.failed) }

skipped_change_reported_example :
    let run =
      run_change overtaken
        (event_of "bounced")
        MessageStatus.bounced
        (message_in MessageStatus.accepted)
        accepted_state in
    (run.0 ≡ ok (report (message_in MessageStatus.accepted) MessageStatus.bounced false ""))
    × (run.1.db ≡ db_with (message_in MessageStatus.failed))
unfolding can_transition_to_status
skipped_change_reported_example =
    skipped_change_reported overtaken (event_of "bounced") (λ n. refl) MessageStatus.bounced
      (message_in MessageStatus.accepted) (message_in MessageStatus.failed) accepted_state refl refl

abbrev suppressed : SuppressionResult
suppressed = record { entry_id = "e1"; created = true }

abbrev bounced_state : Sys Db
unfolding perform
bounced_state =
    (perform calm_ports (event_of "bounced") MessageStatus.bounced 100
      (change_for calm_ports (event_of "bounced") MessageStatus.bounced 100
        (message_in MessageStatus.accepted))
      accepted_state).1
