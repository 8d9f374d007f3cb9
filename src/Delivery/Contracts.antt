-- ===== src/Delivery/Contracts.antt =====
-- internal/modules/delivery/contracts/events.go: the payloads of the events that delivery publishes.
-- Times stay numbers; their RFC 3339 form is the JSON encoder's.
use send_flow_backend.Prelude.{ℕ, String, Option}

pub record ProviderOutcomePayload : Type 0 where
  pub message_id : String
  pub workspace_id : String
  pub campaign_id : String
  pub transactional_request_id : String
  pub provider : String
  pub provider_message_id : String
  pub provider_event_id : String
  pub normalized_event_id : String
  pub occurred_at : ℕ
  pub received_at : ℕ

pub record MessageAcceptedPayload : Type 0 where
  pub message_id : String
  pub workspace_id : String
  pub campaign_id : String
  pub campaign_candidate_id : String
  pub transactional_request_id : String
  pub template_id : String
  pub template_version_id : String
  pub sender_domain_id : String
  pub message_type : String
  pub source_type : String
  pub provider : String
  pub provider_message_id : String
  pub accepted_at : ℕ

pub record RetryScheduledPayload : Type 0 where
  pub message_id : String
  pub workspace_id : String
  pub retry_count : ℕ
  pub max_retries : ℕ
  pub next_attempt_at : Option ℕ

pub record RecipientSuppressedPayload : Type 0 where
  pub suppression_id : String
  pub workspace_id : String
  pub email_normalized : String
  pub scope : String
  pub reason : String
  pub source : String
  pub source_event_id : String
  pub created_at : ℕ

pub record MessageQueuedPayload : Type 0 where
  pub message_id : String
  pub workspace_id : String
  pub campaign_id : String
  pub campaign_candidate_id : String
  pub transactional_request_id : String
  pub template_id : String
  pub template_version_id : String
  pub sender_domain_id : String
  pub message_type : String
  pub source_type : String
  pub scheduled_at : String

pub data Payload : Type 0 where
  message_delivered message_bounced message_complained : ProviderOutcomePayload → Payload
  message_accepted : MessageAcceptedPayload → Payload
  message_retry_scheduled : RetryScheduledPayload → Payload
  message_queued transactional_send_accepted : MessageQueuedPayload → Payload
  recipient_suppressed : RecipientSuppressedPayload → Payload

abbrev pub event_message_queued_v1 : String
event_message_queued_v1 = "delivery.message.queued.v1"

abbrev pub event_transactional_send_accepted_v1 : String
event_transactional_send_accepted_v1 = "delivery.transactional_send.accepted.v1"

abbrev pub event_message_accepted_v1 : String
event_message_accepted_v1 = "delivery.message.accepted.v1"

abbrev pub event_message_delivered_v1 : String
event_message_delivered_v1 = "delivery.message.delivered.v1"

abbrev pub event_message_bounced_v1 : String
event_message_bounced_v1 = "delivery.message.bounced.v1"

abbrev pub event_message_complained_v1 : String
event_message_complained_v1 = "delivery.message.complained.v1"

abbrev pub event_message_retry_scheduled_v1 : String
event_message_retry_scheduled_v1 = "delivery.message.retry_scheduled.v1"

abbrev pub aggregate_message : String
aggregate_message = "message"

abbrev pub aggregate_transactional_request : String
aggregate_transactional_request = "transactional_send_request"

abbrev pub aggregate_suppression_entry : String
aggregate_suppression_entry = "suppression_entry"
