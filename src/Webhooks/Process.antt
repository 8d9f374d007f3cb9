-- ===== src/Webhooks/Process.antt =====
-- internal/modules/webhooks/app/delivery/process.go: `Execute` is `process`, `recordDeliveryOutcome`
-- is `record_delivery_outcome` and `emitDeliveryOutcome` is `emit_delivery_outcome`. A time is in
-- nanoseconds. The answer is the status that has the outcome's name.
use send_flow_backend.Prelude.{ℕ, ◌+◌, ◌*◌, String, ◌&&◌, [], if◌then◌else◌, ltb}
use send_flow_backend.Effect.{
  wrapped, Result, ok, err, M, ◌>>=◌, ◌>>◌, return, throw, attempt, call, id_gen, clock, within_tx,
}
use send_flow_backend.Events.{OutboxEvent}
use send_flow_backend.Webhooks.{
  DeliveryStatus, WebhookConfig, WebhookDelivery, DeliveryResult, is_retryable_http_status,
}
use send_flow_backend.Webhooks.Store.{
  Db, shown, is_active, find_delivery, find_config, mark_succeeded, mark_failed, schedule_retry,
  create_attempt, save,
}
use send_flow_backend.Webhooks.Deliver.{
  WebhookPorts, WebhookPayload, delivery_succeeded, delivery_failed, delivery_retry_scheduled,
  DeliverCommand, DeliverResult, deliver, code_or_none,
}

abbrev pub max_webhook_retries : ℕ
max_webhook_retries = 5

abbrev pub aggregate_webhook_delivery : String
aggregate_webhook_delivery = "webhook_delivery"

abbrev pub event_delivery_succeeded_v1 : String
event_delivery_succeeded_v1 = "webhooks.delivery.succeeded.v1"

abbrev pub event_delivery_failed_v1 : String
event_delivery_failed_v1 = "webhooks.delivery.failed.v1"

abbrev pub event_delivery_retry_scheduled_v1 : String
event_delivery_retry_scheduled_v1 = "webhooks.delivery.retry_scheduled.v1"

-- What became of an attempt; a retry has its time.
pub data Outcome : Type 0 where
  has_succeeded : Outcome
  has_failed : Outcome
  retried_at : ℕ → Outcome

abbrev pub status_of : Outcome → DeliveryStatus
status_of has_succeeded = DeliveryStatus.succeeded
status_of has_failed = DeliveryStatus.failed
status_of (retried_at t) = DeliveryStatus.retry_scheduled

-- In nanoseconds.
abbrev pub backoff : ℕ → ℕ
backoff n = n * n * 30000000000

abbrev pub disabled_result : DeliveryResult
disabled_result = record {
  status_code = 0;
  duration_ms = 0;
  error = "webhook config disabled";
  request_headers = [];
  response_headers = [];
}

-- `%w` with a text before it.
abbrev pub wrap : {A : Type 0} → String → Result A → M Db A
wrap w (ok a) = return a
wrap w (err e) = throw (wrapped w e)

module _ (p : WebhookPorts) where
  -- An encoding that fails leaves no payload.
  abbrev pub encoded : WebhookPayload → String
  encoded payload = elim (p.encode_payload payload) [ ok s ↦ s | err e ↦ "" ]

  abbrev pub delivery_event : String → WebhookDelivery → String → WebhookPayload → ℕ → OutboxEvent
  delivery_event id d event_type payload now = record {
    id = id;
    aggregate_type = aggregate_webhook_delivery;
    aggregate_id = d.id;
    event_type = event_type;
    payload = encoded payload;
    workspace_id = d.workspace_id;
    occurred_at = now;
  }

  unfoldable pub mark : WebhookDelivery → DeliverResult → Outcome → M Db (Unit {0})
  mark d r has_succeeded = do
    now ← clock p.env
    call p.env (mark_succeeded p.net d.id r.delivery_result now)
  mark d r has_failed = do
    now ← clock p.env
    call p.env (mark_failed p.net d.id r.delivery_result now)
  mark d r (retried_at t) = do now ← clock p.env; call p.env (schedule_retry d.id t now)

  abbrev pub outcome_event :
      WebhookDelivery → WebhookConfig → DeliverResult → ℕ → Outcome → String → OutboxEvent
  outcome_event d cfg r now has_succeeded id =
      delivery_event id d event_delivery_succeeded_v1
        (delivery_succeeded d.id d cfg.id r.status_code r.attempt.duration_ms) now
  outcome_event d cfg r now has_failed id =
      delivery_event id d event_delivery_failed_v1
        (delivery_failed d.id d cfg.id r.attempt.status_code r.attempt.error r.attempt.duration_ms)
        now
  outcome_event d cfg r now (retried_at t) id =
      delivery_event id d event_delivery_retry_scheduled_v1
        (delivery_retry_scheduled d cfg.id (p.format_time t) (code_or_none r.status_code)
          r.attempt.error)
        now

  -- The event, if there is an outbox.
  unfoldable pub announce : (String → OutboxEvent) → M Db (Unit {0})
  announce event =
      if p.uses_outbox then (do id ← id_gen p.env; call p.env (save (event id))) else return tt

  unfoldable pub outcome_body :
      WebhookDelivery → WebhookConfig → DeliverResult → ℕ → Outcome → M Db (Unit {0})
  unfolding mark announce
  outcome_body d cfg r now o = do
    mark d r o
    call p.env (create_attempt p.refuses_attempt r.attempt)
    announce (outcome_event d cfg r now o)

  unfoldable pub emit_delivery_outcome :
      WebhookDelivery → WebhookConfig → DeliverResult → Outcome → M Db DeliveryStatus
  unfolding outcome_body
  emit_delivery_outcome d cfg r o = do
    now ← clock p.env
    within_tx p.env (outcome_body d cfg r now o)
    return (status_of o)

  unfoldable pub record_delivery_outcome :
      WebhookDelivery → WebhookConfig → ℕ → DeliverResult → M Db DeliveryStatus
  unfolding emit_delivery_outcome
  record_delivery_outcome d cfg n r =
      if r.success
      then emit_delivery_outcome d cfg r has_succeeded
      else if is_retryable_http_status r.status_code && ltb n max_webhook_retries
      then (do now ← clock p.env; emit_delivery_outcome d cfg r (retried_at (now + backoff n)))
      else emit_delivery_outcome d cfg r has_failed

  abbrev pub deliver_command : WebhookDelivery → WebhookConfig → String → ℕ → DeliverCommand
  deliver_command d cfg id n = record {
    delivery_id = id;
    target_url = cfg.target_url;
    secret_hash = cfg.secret_hash;
    event_payload = d.event_payload_json;
    source_event_id = d.source_event_id;
    attempt_number = n;
  }

  unfoldable pub fail_disabled : String → M Db DeliveryStatus
  fail_disabled id = do
    now ← clock p.env
    r ← attempt (call p.env (mark_failed p.net id disabled_result now))
    wrap "mark failed" r
    return DeliveryStatus.failed

  unfoldable pub send : WebhookDelivery → WebhookConfig → String → M Db DeliveryStatus
  unfolding record_delivery_outcome
  send d cfg id = do
    r ← attempt (deliver p (deliver_command d cfg id d.attempt_count))
    result ← wrap "deliver webhook" r
    record_delivery_outcome d cfg d.attempt_count result

  unfoldable pub process_read : String → WebhookDelivery → M Db DeliveryStatus
  unfolding send fail_disabled
  process_read id d = do
    r ← attempt (call p.env (shown p.read_pool (find_config d.workspace_id d.webhook_id)))
    cfg ← wrap "find webhook config" r
    (if is_active cfg.status then send d cfg id else fail_disabled id)

  unfoldable pub process : String → String → M Db DeliveryStatus
  unfolding process_read
  process workspace_id id = do
    r ← attempt (call p.env (shown p.read_pool (find_delivery workspace_id id)))
    d ← wrap "find delivery" r
    process_read id d
