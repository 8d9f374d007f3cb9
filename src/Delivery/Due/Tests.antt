-- ===== src/Delivery/Due/Tests.antt =====
-- Runs of the worker.
use send_flow_backend.Prelude.{
  ℕ, zero, suc, String, ◌≡◌, refl, true, false, List, [], ◌∷◌, map, Option, none, some, All, arith,
  ◌≤◌, ◌*◌, ap,
}
use send_flow_backend.Effect.{
  Error, sentinel, failure, Result, ok, err, Sys, ◌>>=◌, ignore_error, is_error, error_text,
}
use send_flow_backend.Events.{new_envelope, marshal, is_blank}
use send_flow_backend.Delivery.Status.{MessageStatus, status_eq}
use send_flow_backend.Delivery.Message.{Message, DeliveryAttempt, RetryState, valid_message_type}
use send_flow_backend.Delivery.Sending.{ProviderSendRequest, ProviderSendResult}
use send_flow_backend.Delivery.Store.{Db, event_types}
use send_flow_backend.Delivery.Fixtures.{
  fault_at, no_faults, plain_json, message_in, db_with, started,
}
use send_flow_backend.Delivery.Store.{
  mark_accepted, update_message, update_attempt, create_attempt, next_attempt_number,
  find_retry_state, create_retry_state, create_message_event, save_outbox,
}
use send_flow_backend.Delivery.Due.Data.{
  DuePorts, status_accepted, status_retry_scheduled, base_retry_delay, max_retry_delay,
  capped_delay, compute_retry_delay, write_event, publish,
}
use send_flow_backend.Delivery.Due.Retry.{
  handle_temporary_failure, schedule_retry, retry_body, save_retry_scheduled_event,
}
use send_flow_backend.Delivery.Due.Accepted.{
  persist_accepted_state, tries, accepted_body, save_accepted_event,
}
use send_flow_backend.Delivery.Due.Send.{send_email, load_attachments}
use send_flow_backend.Delivery.Due.Process.{process_message, check_and_send}
use send_flow_backend.Delivery.Due.Claim.{
  process_due_messages, run_pipeline, claim_due_messages, ProcessDueMessagesResult,
}
use send_flow_backend.Delivery.Due.Delay.{compute_retry_delay-bounds}
use send_flow_backend.Delivery.Due.Guards.{SentOnce, process_message_sends}
use send_flow_backend.Delivery.Due.Once.{OneOrNone, persist_accepted_state_once}
use send_flow_backend.Delivery.Due.Exhausted.{exhausted_not_recorded}
use send_flow_backend.Delivery.Due.Claim.{has_id_of, claimed}
use send_flow_backend.Delivery.Due.Exclusive.{claim_due_messages_exclusive}
use send_flow_backend.Delivery.Due.Counts.{total, process_due_messages_counts}

abbrev asked_to_accept : ProviderSendRequest → Result ProviderSendResult
asked_to_accept r = ok (record { provider = "ses"; provider_message_id = "p9"; accepted_at = 9 })

abbrev asked_to_wait : ProviderSendRequest → Result ProviderSendResult
asked_to_wait r = err (sentinel "delivery provider temporary failure")

abbrev ports_with : (ProviderSendRequest → Result ProviderSendResult) → DuePorts
ports_with provider = record {
  env = no_faults;
  json = plain_json;
  encode_request = λ n id template domain. "request";
  encode_response = λ provider id. "response";
  random = λ n. 4503599627370496;
  lock_is_free = some (λ id. true);
  sender_ready = λ w d. true;
  check_suppression = λ w e scope. record { suppressed = false; reason = ""; scope = "" };
  render_for_message = λ w t v values. err (failure "no template");
  answer_to = λ before request. provider request;
  storage = none;
  has_event_repo = true;
}

abbrev queued_db : Db
queued_db = db_with (message_in MessageStatus.queued)

abbrev claimed_message : Message
claimed_message = message_in MessageStatus.processing

abbrev claimed_db : Db
claimed_db = db_with claimed_message

-- What a run answers, the statuses of the messages, and the events that are published.
abbrev seen : {A : Type 0} → Result A × Sys Db → Result A × List MessageStatus × List String
seen r = (r.0, map (λ (m : Message). m.status) r.1.db.messages, event_types r.1.db)

-- The provider takes the message, which is accepted, and the event is published.
accepting_run :
    seen (process_message (ports_with asked_to_accept) 1000 claimed_message (started claimed_db))
    ≡ (ok status_accepted, MessageStatus.accepted ∷ [], "delivery.message.accepted.v1" ∷ [])
unfolding process_message write_event check_and_send ◌>>=◌ ignore_error create_message_event
    next_attempt_number create_attempt load_attachments send_email persist_accepted_state tries
    accepted_body update_attempt mark_accepted save_accepted_event publish new_envelope marshal
    is_blank save_outbox
accepting_run = refl

-- The provider fails for now: the message is queued again.
retrying_run :
    seen (process_message (ports_with asked_to_wait) 1000 claimed_message (started claimed_db)) ≡ (
      ok status_retry_scheduled,
      MessageStatus.queued ∷ [],
      "delivery.message.retry_scheduled.v1" ∷ [],
    )
unfolding process_message write_event check_and_send ◌>>=◌ ignore_error create_message_event
    next_attempt_number create_attempt load_attachments send_email handle_temporary_failure
    find_retry_state schedule_retry compute_retry_delay capped_delay retry_body update_message
    update_attempt create_retry_state save_retry_scheduled_event publish new_envelope marshal
    is_blank save_outbox is_error error_text
retrying_run = refl

process_message_sends_example :
    SentOnce
      (ports_with asked_to_accept)
      1000
      claimed_message
      claimed_db.sent
      (process_message
        (ports_with asked_to_accept)
        1000
        claimed_message
        (started claimed_db)).1.db.sent
process_message_sends_example =
    process_message_sends (ports_with asked_to_accept) 1000 claimed_message (started claimed_db)

abbrev retry_state : ℕ → RetryState
retry_state n = record {
  id = "t1";
  workspace_id = "w1";
  message_id = "m1";
  retry_count = n;
  max_retries = 5;
  next_attempt_at = none;
  last_error_class = "";
  last_error_message = "";
  status = "scheduled";
  created_at = 1;
  updated_at = 1;
}

abbrev retried_db : ℕ → Db
retried_db n = record queued_db { retry_states = retry_state n ∷ [] }

compute_retry_delay-bounds_example :
    (base_retry_delay ≤ compute_retry_delay 3 4503599627370496)
    × (capped_delay 3 ≤ compute_retry_delay 3 4503599627370496)
    × (10 * compute_retry_delay 3 4503599627370496 ≤ 11 * capped_delay 3)
    × (10 * compute_retry_delay 3 4503599627370496 ≤ 11 * max_retry_delay)
    × (capped_delay 3 ≤ capped_delay 4)
compute_retry_delay-bounds_example = compute_retry_delay-bounds 3 4503599627370496 (omega arith)

abbrev attempt_row : DeliveryAttempt
attempt_row = record {
  id = "a1";
  workspace_id = "w1";
  message_id = "m1";
  attempt_no = 1;
  provider = "";
  status = "started";
  request_snapshot = "";
  response_snapshot = "";
  error_class = "";
  error_message = "";
  started_at = 1;
  finished_at = none;
}

abbrev answered : ProviderSendResult
answered = record { provider = "ses"; provider_message_id = "p9"; accepted_at = 9 }

-- The first two transactions fail.
abbrev failing_ports : DuePorts
failing_ports = record (ports_with asked_to_accept) { env = fault_at two_faults }
  where
    two_faults : ℕ → Option Error
    two_faults (suc zero) = some (failure "no connection")
    two_faults (suc (suc zero)) = some (failure "no connection")
    two_faults _ = none

abbrev attempted_db : Db
attempted_db = record claimed_db { attempts = attempt_row ∷ [] }

-- The third try publishes.
third_try :
    seen (
      persist_accepted_state failing_ports 1000 claimed_message attempt_row answered
        (started attempted_db))
    ≡ (ok tt, MessageStatus.accepted ∷ [], "delivery.message.accepted.v1" ∷ [])
unfolding persist_accepted_state tries ◌>>=◌ accepted_body update_attempt mark_accepted write_event
    ignore_error create_message_event save_accepted_event publish new_envelope marshal is_blank
    save_outbox
third_try = refl

persist_accepted_state_once_example :
    OneOrNone failing_ports 1000 claimed_message "delivery.message.accepted.v1" attempted_db (
      persist_accepted_state failing_ports 1000 claimed_message attempt_row answered
        (started attempted_db))
persist_accepted_state_once_example =
    persist_accepted_state_once failing_ports 1000 claimed_message attempt_row answered
      (started attempted_db) (λ n. refl)

exhausted_not_recorded_example :
    (handle_temporary_failure
      (ports_with asked_to_wait)
      1000
      claimed_message
      attempt_row
      "busy"
      (started (retried_db 5))).1.db.retry_states
    ≡ retry_state 5 ∷ []
unfolding find_retry_state
exhausted_not_recorded_example =
    exhausted_not_recorded (ports_with asked_to_wait) 1000 claimed_message attempt_row "busy"
      (started (retried_db 5)) (retry_state 5) refl (omega arith)

abbrev one_accepted : ProcessDueMessagesResult
one_accepted = record {
  selected_count = 1;
  accepted_count = 1;
  failed_count = 0;
  retry_scheduled_count = 0;
}

abbrev due_run : Result ProcessDueMessagesResult × Sys Db
due_run =
    process_due_messages (ports_with asked_to_accept) (λ m. false) "w1" "transactional" 0 1000
      (started queued_db)

due_run_result : due_run.0 ≡ ok one_accepted
unfolding process_due_messages valid_message_type claim_due_messages status_eq run_pipeline
    process_message write_event check_and_send ◌>>=◌ ignore_error create_message_event
    next_attempt_number create_attempt load_attachments send_email persist_accepted_state tries
    accepted_body update_attempt mark_accepted save_accepted_event publish new_envelope marshal
    is_blank save_outbox
due_run_result = refl

process_due_messages_counts_example : (total one_accepted ≤ 1) × (1 ≤ 100)
process_due_messages_counts_example =
    process_due_messages_counts (ports_with asked_to_accept) (λ m. false) "w1" "transactional" 0
      1000 (started queued_db) due_run.1 one_accepted (ap (λ r. (r, due_run.1)) due_run_result)

-- A second claim at the same time finds nothing.
claim_due_messages_exclusive_example :
    All (λ n. has_id_of (map (claimed 1000) queued_db.messages) n ≡ false) []
unfolding claim_due_messages status_eq
claim_due_messages_exclusive_example =
    claim_due_messages_exclusive (λ m. false) (λ m. false) "w1" "w1" "transactional" "transactional"
      10 10 1000 2000 queued_db (map (claimed 1000) queued_db.messages) [] refl refl
