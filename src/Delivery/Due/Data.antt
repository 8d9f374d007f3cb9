-- ===== src/Delivery/Due/Data.antt =====
-- internal/modules/delivery/app/process/due.go: the handler's ports and constants, and the writes
-- that its paths share.
use send_flow_backend.Prelude.{
  ℕ, ◌*◌, ◌^◌, ◌+◌, ◌/◌, String, Bool, true, false, not, List, Option, some, if◌then◌else◌, ltb,
}
use send_flow_backend.Prelude.Text.{str_eq}
use send_flow_backend.Effect.{
  Result, Env, M, ◌>>=◌, ◌>>◌, return, lift, ignore_error, call, id_gen, within_tx, ok, tick,
}
use send_flow_backend.Events.{Json, new_envelope, marshal}
use send_flow_backend.Delivery.Status.{MessageStatus}
use send_flow_backend.Delivery.Message.{Message, DeliveryAttempt, MessageEvent}
use send_flow_backend.Delivery.Contracts.{Payload, aggregate_message}
use send_flow_backend.Delivery.Sending.{
  AttachmentManifest, ProviderSendRequest, ProviderSendResult, SuppressionDecision, RenderedMessage,
  RenderValue,
}
use send_flow_backend.Delivery.Store.{
  Db, OutboxEvent, mark_failed, update_aggregates, create_message_event, save_outbox,
  update_attempt,
}

-- `messageStatus`: what became of a message that was processed.
pub data Outcome : Type 0 where
  status_accepted status_failed status_retry_scheduled : Outcome

abbrev pub default_max_retries : ℕ
default_max_retries = 5

abbrev pub base_retry_delay : ℕ
base_retry_delay = 60000000000

abbrev pub max_retry_delay : ℕ
max_retry_delay = 3600000000000

-- The attachment repository and the object storage.
pub record AttachmentPorts : Type 0 where
  pub list_by_request : String → String → List AttachmentManifest
  pub get_object : String → Result String
  pub read_all : String → Result String

-- What the handler is built with. `none` is a port that is nil. The lock server answers whether the
-- lock of a message was free; the provider answers a request by what it was asked before.
-- `random n` stands for `rand.Float64()` at call `n`, as a numerator over 2 ^ 53.
pub record DuePorts : Type 0 where
  pub env : Env
  pub json : Json Payload
  pub encode_request : ℕ → String → String → String → String
  pub encode_response : String → String → String
  pub random : ℕ → ℕ
  pub lock_is_free : Option (String → Bool)
  pub sender_ready : String → String → Bool
  pub check_suppression : String → String → String → SuppressionDecision
  pub render_for_message :
      String → String → String → List (String × RenderValue) → Result RenderedMessage
  pub answer_to : List ProviderSendRequest → ProviderSendRequest → Result ProviderSendResult
  pub storage : Option AttachmentPorts
  pub has_event_repo : Bool

-- The capped part of `computeRetryDelay`, in nanoseconds.
unfoldable pub capped_delay : ℕ → ℕ
capped_delay retry_count =
    let delay = base_retry_delay * 2 ^ retry_count in
    if ltb max_retry_delay delay then max_retry_delay else delay

-- `computeRetryDelay` with the random number: up to a tenth is added.
unfoldable pub compute_retry_delay : ℕ → ℕ → ℕ
unfolding capped_delay
compute_retry_delay retry_count r =
    capped_delay retry_count + (r * capped_delay retry_count) / (10 * 2 ^ 53)

module _ (p : DuePorts) (now : ℕ) where
  -- A reading of the random source.
  abbrev pub random_number : M Db ℕ
  random_number s = (ok (p.random s.calls), tick s)

  abbrev pub event_record :
      Message → String → MessageStatus → String → String → String → MessageEvent
  event_record m event_type status reason_code reason_message id = record {
    id = id;
    workspace_id = m.workspace_id;
    message_id = m.id;
    transactional_request_id = m.transactional_request_id;
    event_type = event_type;
    status = status;
    reason_code = reason_code;
    reason_message = reason_message;
    occurred_at = now;
    created_at = now;
  }

  abbrev pub log_event : Bool → (String → MessageEvent) → M Db (Unit {0})
  log_event false e = return tt
  log_event true e = ignore_error (do id ← id_gen p.env; call p.env (create_message_event (e id)))

  -- `writeEvent`.
  unfoldable pub write_event : Message → String → MessageStatus → String → String → M Db (Unit {0})
  write_event m event_type status reason_code reason_message =
      log_event p.has_event_repo (event_record m event_type status reason_code reason_message)

  -- The message as `failMessage` passes it to `MarkFailed`.
  abbrev pub with_failure : Message → String → String → Message
  with_failure m error_class error_message = record m {
    failed_at = some now;
    last_error_class = error_class;
    last_error_message = error_message;
    updated_at = now;
  }

  unfoldable pub count_failure : Message → M Db (Unit {0})
  count_failure m =
      if not (str_eq m.transactional_request_id "")
      then call p.env (update_aggregates m.workspace_id m.transactional_request_id true false now)
      else return tt

  unfoldable pub fail_body : Message → String → String → M Db (Unit {0})
  unfolding count_failure write_event
  fail_body m error_class error_message = do
    call p.env (mark_failed (with_failure m error_class error_message))
    count_failure m
    write_event m "failed" MessageStatus.failed error_class error_message

  -- `failMessage`.
  unfoldable pub fail_message : Message → String → String → M Db (Unit {0})
  unfolding fail_body
  fail_message m error_class error_message =
      ignore_error (within_tx p.env (fail_body m error_class error_message))

  abbrev pub finished_attempt : DeliveryAttempt → String → String → String → DeliveryAttempt
  finished_attempt a status error_class error_message = record a {
    status = status;
    error_class = error_class;
    error_message = error_message;
    finished_at = some now;
  }

  -- `failMessageWithAttempt`.
  unfoldable pub fail_message_with_attempt :
      Message → DeliveryAttempt → String → String → M Db (Unit {0})
  unfolding fail_body
  fail_message_with_attempt m a error_class error_message = ignore_error (
      within_tx p.env (do
        call p.env
            (update_attempt (finished_attempt a "permanent_failed" error_class error_message))
        fail_body m error_class error_message))

  abbrev pub outbox_event : String → String → Message → String → OutboxEvent
  outbox_event id event_type m bytes = record {
    id = id;
    aggregate_type = aggregate_message;
    aggregate_id = m.id;
    event_type = event_type;
    payload = bytes;
    workspace_id = m.workspace_id;
    occurred_at = now;
  }

  -- The end of `saveAcceptedEvent` and of `saveRetryScheduledEvent`.
  unfoldable pub publish : String → String → Message → Payload → M Db (Unit {0})
  publish id event_type m payload = do
    envelope ← lift (
        new_envelope p.json now
          (record {
            event_id = id;
            event_type = event_type;
            event_version = 1;
            aggregate_type = aggregate_message;
            aggregate_id = m.id;
            workspace_id = m.workspace_id;
            occurred_at = now;
            payload = "";
          })
          payload)
    bytes ← lift (marshal p.json envelope)
    call p.env (save_outbox (outbox_event envelope.event_id event_type m bytes))
