-- ===== src/Delivery/Sending.antt =====
-- internal/modules/delivery/ports: what the sending of one message asks of the sender, suppression
-- and content modules, of the attachments' storage and of the mail provider. A Go map is the list of
-- its entries; a reader is the text that it yields.
use send_flow_backend.Prelude.{ℕ, String, Bool, List, Option}

pub record AttachmentManifest : Type 0 where
  pub id : String
  pub workspace_id : String
  pub transactional_request_id : String
  pub storage_key : String
  pub original_filename : String
  pub content_type : String
  pub byte_size : ℕ
  pub sha256_digest : String
  pub disposition : String
  pub content_id : String
  pub created_at : ℕ

pub record AttachmentPart : Type 0 where
  pub filename : String
  pub content_type : String
  pub content_id : String
  pub disposition : String
  pub content : String

pub record ProviderSendRequest : Type 0 where
  pub to : List String
  pub cc : List String
  pub bcc : List String
  pub reply_to : List String
  pub subject : String
  pub html_body : String
  pub text_body : String
  pub sender_name : String
  pub headers : List (String × String)
  pub attachments : List AttachmentPart

pub record ProviderSendResult : Type 0 where
  pub provider : String
  pub provider_message_id : String
  pub accepted_at : ℕ

pub record SuppressionDecision : Type 0 where
  pub suppressed : Bool
  pub reason : String
  pub scope : String

pub record RenderedMessage : Type 0 where
  pub subject : String
  pub html_body : String
  pub text_body : String

-- A value that a template is rendered with.
pub data RenderValue : Type 0 where
  text : String → RenderValue
  tags : List String → RenderValue
  attributes : List (String × String) → RenderValue

-- An object in the storage, under its key.
pub record StoredObject : Type 0 where
  pub key : String
  pub content_type : String
  pub content : Option String

-- What the quota enforcer was asked for: so many units of a workspace's API key.
pub data QuotaCall : Type 0 where
  consume refund : String → String → ℕ → QuotaCall

-- An entry of the idempotency cache, under its workspace and key.
pub record IdempotencyEntry : Type 0 where
  pub workspace_id : String
  pub idempotency_key : String
  pub payload_hash : String
  pub request_id : String
  pub message_id : String
  pub status : String
  pub accepted_at : ℕ
