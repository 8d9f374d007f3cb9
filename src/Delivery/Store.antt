-- ===== src/Delivery/Store.antt =====
-- The delivery tables and the statements that internal/modules/delivery/infrastructure/postgres
-- runs on them. `id` is a primary key, so a statement on one row is one on the first that matches.
pub mod Moves
pub mod Rows
use send_flow_backend.Prelude.{
  ℕ, ◌+◌, String, Bool, true, false, ◌&&◌, List, [], ◌∷◌, ◌++◌, map, Option, none, some,
  if◌then◌else◌, leb, find?, modify_first, any,
}
use Prim.Native.Nat.{max}
use send_flow_backend.Prelude.Text.{str_eq}
use send_flow_backend.Effect.{sentinel, Result, ok, err}
pub use send_flow_backend.Events.{OutboxEvent}
use send_flow_backend.Delivery.Status.{MessageStatus}
use send_flow_backend.Delivery.Message.{Message, DeliveryAttempt, RetryState, MessageEvent}
use send_flow_backend.Delivery.Sending.{
  ProviderSendRequest, AttachmentManifest, StoredObject, QuotaCall, IdempotencyEntry,
}

-- A row of `transactional_send_requests`.
pub record TransactionalRequest : Type 0 where
  pub id : String
  pub workspace_id : String
  pub idempotency_key : Option String
  pub status : String
  pub request_payload : String
  pub mode : String
  pub subject : String
  pub sender_name : String
  pub source_api_key_id : String
  pub request_hash : String
  pub total_recipients : ℕ
  pub recipient_terminal_total : ℕ
  pub recipient_success_total : ℕ
  pub recipient_failure_total : ℕ
  pub created_at : ℕ
  pub completed_at : Option ℕ
  pub failed_at : Option ℕ
  pub updated_at : ℕ

-- What is handed to the suppression module.
pub record SuppressionSignal : Type 0 where
  pub workspace_id : String
  pub email : String
  pub email_normalized : String
  pub scope : String
  pub reason : String
  pub source : String
  pub source_event_id : String
  pub note : String
  pub now : ℕ

-- The tables, what the suppression module was told, what the mail provider was asked to send, the
-- object storage, what the quota enforcer was asked for, and the idempotency cache.
pub record Db : Type 0 where
  pub messages : List Message
  pub attempts : List DeliveryAttempt
  pub retry_states : List RetryState
  pub requests : List TransactionalRequest
  pub message_events : List MessageEvent
  pub outbox : List OutboxEvent
  pub signals : List SuppressionSignal
  pub sent : List ProviderSendRequest
  pub attachments : List AttachmentManifest
  pub objects : List StoredObject
  pub quota_calls : List QuotaCall
  pub idempotency : List IdempotencyEntry

abbrev pub event_types : Db → List String
event_types d = map (λ (e : OutboxEvent). e.event_type) d.outbox

abbrev pub message_not_found : String
message_not_found = "delivery message not found"

abbrev pub attempt_not_found : String
attempt_not_found = "delivery attempt not found"

abbrev pub request_not_found : String
request_not_found = "delivery transactional request not found"

abbrev pub found : {A : Type 0} → Option A → String → Db → Result A × Db
found none missing d = (err (sentinel missing), d)
found (some a) missing d = (ok a, d)

-- `RowsAffected() == 0` is the error.
abbrev pub affected : Bool → String → Db → Db → Result (Unit {0}) × Db
affected true missing old new = (ok tt, new)
affected false missing old new = (err (sentinel missing), old)

abbrev pub is_message : String → String → Message → Bool
is_message workspace_id id m = str_eq m.id id && str_eq m.workspace_id workspace_id

unfoldable pub find_by_id : String → String → Db → Result Message × Db
find_by_id workspace_id id d =
    found (find? (is_message workspace_id id) d.messages) message_not_found d

unfoldable pub find_by_provider_message_id : String → String → Db → Result Message × Db
find_by_provider_message_id provider provider_message_id d =
    found
      (find? (λ m. str_eq m.provider provider && str_eq m.provider_message_id provider_message_id)
        d.messages)
      message_not_found d

abbrev pub write_messages : String → String → (Message → Message) → Db → Result (Unit {0}) × Db
write_messages workspace_id id change d =
    affected (any (is_message workspace_id id) d.messages) message_not_found d
      (record d { messages = modify_first (is_message workspace_id id) change d.messages })

-- `Update` sets every column but the keys and `created_at`.
abbrev pub set_columns : Message → Message → Message
set_columns m row = record m {
  id = row.id;
  workspace_id = row.workspace_id;
  created_at = row.created_at;
}

unfoldable pub update_message : Message → Db → Result (Unit {0}) × Db
update_message m = write_messages m.workspace_id m.id (set_columns m)

unfoldable pub mark_accepted : Message → Db → Result (Unit {0}) × Db
mark_accepted m = write_messages m.workspace_id m.id λ row. record row {
  status = MessageStatus.accepted;
  accepted_at = m.accepted_at;
  provider = m.provider;
  provider_message_id = m.provider_message_id;
  updated_at = m.updated_at;
}

unfoldable pub mark_failed : Message → Db → Result (Unit {0}) × Db
mark_failed m = write_messages m.workspace_id m.id λ row. record row {
  status = MessageStatus.failed;
  failed_at = m.failed_at;
  last_error_class = m.last_error_class;
  last_error_message = m.last_error_message;
  updated_at = m.updated_at;
}

-- The greatest attempt number of the message, or 0.
abbrev last_attempt_no : String → String → List DeliveryAttempt → ℕ
last_attempt_no workspace_id message_id [] = 0
last_attempt_no workspace_id message_id (a ∷ rest) =
    if str_eq a.workspace_id workspace_id && str_eq a.message_id message_id
    then max a.attempt_no (last_attempt_no workspace_id message_id rest)
    else last_attempt_no workspace_id message_id rest

unfoldable pub next_attempt_number : String → String → Db → Result ℕ × Db
next_attempt_number workspace_id message_id d =
    (ok (last_attempt_no workspace_id message_id d.attempts + 1), d)

unfoldable pub create_attempt : DeliveryAttempt → Db → Result (Unit {0}) × Db
create_attempt a d = (ok tt, record d { attempts = d.attempts ++ a ∷ [] })

abbrev pub is_attempt : DeliveryAttempt → DeliveryAttempt → Bool
is_attempt a row = str_eq row.id a.id && str_eq row.workspace_id a.workspace_id

unfoldable pub update_attempt : DeliveryAttempt → Db → Result (Unit {0}) × Db
update_attempt a d = affected (any (is_attempt a) d.attempts) attempt_not_found d (record d {
  attempts =
      modify_first (is_attempt a)
        (λ row. record row {
          provider = a.provider;
          status = a.status;
          request_snapshot = a.request_snapshot;
          response_snapshot = a.response_snapshot;
          error_class = a.error_class;
          error_message = a.error_message;
          finished_at = a.finished_at;
        })
        d.attempts;
})

-- No row is no error here.
unfoldable pub find_retry_state : String → String → Db → Result (Option RetryState) × Db
find_retry_state workspace_id message_id d = (
  ok (
      find? (λ r. str_eq r.workspace_id workspace_id && str_eq r.message_id message_id)
        d.retry_states),
  d,
)

unfoldable pub create_retry_state : RetryState → Db → Result (Unit {0}) × Db
create_retry_state r d = (ok tt, record d { retry_states = d.retry_states ++ r ∷ [] })

abbrev pub is_retry_state : RetryState → RetryState → Bool
is_retry_state r row = str_eq row.id r.id && str_eq row.workspace_id r.workspace_id

unfoldable pub update_retry_state : RetryState → Db → Result (Unit {0}) × Db
update_retry_state r d =
    affected (any (is_retry_state r) d.retry_states) attempt_not_found d (record d {
      retry_states =
          modify_first (is_retry_state r)
            (λ row. record row {
              retry_count = r.retry_count;
              max_retries = r.max_retries;
              next_attempt_at = r.next_attempt_at;
              last_error_class = r.last_error_class;
              last_error_message = r.last_error_message;
              status = r.status;
              updated_at = r.updated_at;
            })
            d.retry_states;
    })

-- The `SET` clause of `UpdateAggregates`.
abbrev pub count_outcome : Bool → ℕ → TransactionalRequest → TransactionalRequest
count_outcome is_success now r =
    let done = leb r.total_recipients (r.recipient_terminal_total + 1) in
    record r {
      recipient_terminal_total = r.recipient_terminal_total + 1;
      recipient_success_total = r.recipient_success_total + (if is_success then 1 else 0);
      recipient_failure_total = r.recipient_failure_total + (if is_success then 0 else 1);
      status = (if done then "completed" else r.status);
      completed_at = (if done then some now else r.completed_at);
      updated_at = now;
    }

abbrev pub is_request : String → String → TransactionalRequest → Bool
is_request workspace_id id r = str_eq r.id id && str_eq r.workspace_id workspace_id

unfoldable pub update_aggregates : String → String → Bool → Bool → ℕ → Db → Result (Unit {0}) × Db
update_aggregates workspace_id id false is_success now d = (ok tt, d)
update_aggregates workspace_id id true is_success now d =
    affected (any (is_request workspace_id id) d.requests) request_not_found d (record d {
      requests =
          modify_first (is_request workspace_id id) (count_outcome is_success now) d.requests;
    })

unfoldable pub create_message_event : MessageEvent → Db → Result (Unit {0}) × Db
create_message_event e d = (ok tt, record d { message_events = d.message_events ++ e ∷ [] })

unfoldable pub save_outbox : OutboxEvent → Db → Result (Unit {0}) × Db
save_outbox e d = (ok tt, record d { outbox = d.outbox ++ e ∷ [] })
