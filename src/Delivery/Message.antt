-- ===== src/Delivery/Message.antt =====
-- internal/modules/delivery/domain/message.go: messages, attempts, retry states and the events of a
-- message. A time is a number of nanoseconds, and 0 is Go's zero time; a JSON value is its text.
use send_flow_backend.Prelude.{ℕ, String, Bool, ◌||◌, ◌&&◌, not, List, Option, none, if◌then◌else◌}
use send_flow_backend.Prelude.Text.{str_eq}
use send_flow_backend.Effect.{Error, sentinel, Result, ok, err}
use send_flow_backend.Delivery.Status.{MessageStatus}

pub record RecipientSnapshot : Type 0 where
  pub contact_id : String
  pub email : String
  pub email_normalized : String
  pub first_name : String
  pub last_name : String
  pub tags : List String
  pub attributes : Option (List (String × String))
  pub template_data : Option (List (String × String))

pub record Message : Type 0 where
  pub id : String
  pub workspace_id : String
  pub campaign_id : String
  pub campaign_candidate_id : String
  pub transactional_request_id : String
  pub contact_id : String
  pub recipient_email_normalized : String
  pub recipient_snapshot : RecipientSnapshot
  pub template_id : String
  pub template_version_id : String
  pub sender_domain_id : String
  pub subject : String
  pub sender_name : String
  pub text_body : String
  pub html_body : String
  pub reply_to : String
  pub headers : List (String × String)
  pub recipient_role : String
  pub source_api_key_id : String
  pub message_type : String
  pub source_type : String
  pub status : MessageStatus
  pub scheduled_at : Option ℕ
  pub queued_at : Option ℕ
  pub processing_started_at : Option ℕ
  pub accepted_at : Option ℕ
  pub delivered_at : Option ℕ
  pub bounced_at : Option ℕ
  pub complained_at : Option ℕ
  pub failed_at : Option ℕ
  pub last_error_class : String
  pub last_error_message : String
  pub provider : String
  pub provider_message_id : String
  pub created_at : ℕ
  pub updated_at : ℕ

pub record DeliveryAttempt : Type 0 where
  pub id : String
  pub workspace_id : String
  pub message_id : String
  pub attempt_no : ℕ
  pub provider : String
  pub status : String
  pub request_snapshot : String
  pub response_snapshot : String
  pub error_class : String
  pub error_message : String
  pub started_at : ℕ
  pub finished_at : Option ℕ

pub record RetryState : Type 0 where
  pub id : String
  pub workspace_id : String
  pub message_id : String
  pub retry_count : ℕ
  pub max_retries : ℕ
  pub next_attempt_at : Option ℕ
  pub last_error_class : String
  pub last_error_message : String
  pub status : String
  pub created_at : ℕ
  pub updated_at : ℕ

pub record MessageEvent : Type 0 where
  pub id : String
  pub workspace_id : String
  pub message_id : String
  pub transactional_request_id : String
  pub event_type : String
  pub status : MessageStatus
  pub reason_code : String
  pub reason_message : String
  pub occurred_at : ℕ
  pub created_at : ℕ

unfoldable pub valid_message_type : String → Bool
valid_message_type s = str_eq s "marketing" || str_eq s "transactional"

unfoldable pub valid_message_source_type : String → Bool
valid_message_source_type s = str_eq s "campaign" || str_eq s "transactional"

unfoldable pub valid_recipient_role : String → Bool
valid_recipient_role s = str_eq s "to" || str_eq s "cc" || str_eq s "bcc"

abbrev pub payload_invalid : Error
payload_invalid = sentinel "delivery payload invalid"

unfoldable pub validate_recipient_snapshot : RecipientSnapshot → Result (Unit {0})
validate_recipient_snapshot rs =
    if str_eq rs.email_normalized "" then err payload_invalid else ok tt

abbrev after_snapshot : Result (Unit {0}) → Result (Unit {0}) → Result (Unit {0})
after_snapshot (err e) rest = err e
after_snapshot (ok _) rest = rest

unfoldable pub validate_queued_message : Message → Result (Unit {0})
unfolding valid_message_type valid_message_source_type valid_recipient_role
    validate_recipient_snapshot
validate_queued_message msg =
    if str_eq msg.workspace_id ""
    then err payload_invalid
    else if str_eq msg.recipient_email_normalized ""
    then err payload_invalid
    else after_snapshot (validate_recipient_snapshot msg.recipient_snapshot) (
        if str_eq msg.sender_domain_id ""
        then err payload_invalid
        else if not (valid_message_type msg.message_type)
        then err payload_invalid
        else if not (valid_message_source_type msg.source_type)
        then err payload_invalid
        else if not (str_eq msg.recipient_role "") && not (valid_recipient_role msg.recipient_role)
        then err payload_invalid
        else ok tt)

abbrev empty_snapshot : RecipientSnapshot
empty_snapshot = record {
  contact_id = "";
  email = "";
  email_normalized = "";
  first_name = "";
  last_name = "";
  tags = List.[];
  attributes = none;
  template_data = none;
}

abbrev pub queued_message : String → String → String → String → String → ℕ → Message
queued_message id workspace_id recipient message_type source_type now = record {
  id = id;
  workspace_id = workspace_id;
  campaign_id = "";
  campaign_candidate_id = "";
  transactional_request_id = "";
  contact_id = "";
  recipient_email_normalized = recipient;
  recipient_snapshot = empty_snapshot;
  template_id = "";
  template_version_id = "";
  sender_domain_id = "";
  subject = "";
  sender_name = "";
  text_body = "";
  html_body = "";
  reply_to = "";
  headers = List.[];
  recipient_role = "";
  source_api_key_id = "";
  message_type = message_type;
  source_type = source_type;
  status = MessageStatus.queued;
  scheduled_at = none;
  queued_at = none;
  processing_started_at = none;
  accepted_at = none;
  delivered_at = none;
  bounced_at = none;
  complained_at = none;
  failed_at = none;
  last_error_class = "";
  last_error_message = "";
  provider = "";
  provider_message_id = "";
  created_at = now;
  updated_at = now;
}

-- `NewMessage`.
unfoldable pub new_message : String → String → String → String → String → ℕ → Result Message
unfolding valid_message_type valid_message_source_type
new_message id workspace_id recipient message_type source_type now =
    if str_eq id ""
    then err (sentinel "message id is required")
    else if str_eq workspace_id ""
    then err (sentinel "workspace id is required")
    else if str_eq recipient ""
    then err (sentinel "recipient email is required")
    else if not (valid_message_type message_type)
    then err (sentinel "valid message type is required")
    else if not (valid_message_source_type source_type)
    then err (sentinel "valid source type is required")
    else ok (queued_message id workspace_id recipient message_type source_type now)
