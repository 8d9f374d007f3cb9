-- ===== src/Delivery/Accept/Data.antt =====
-- internal/modules/delivery/app/send/accept.go: the input, the limits and the ports of `Execute`.
use send_flow_backend.Prelude.{ℕ, ◌*◌, String, Bool, List, Option}
use send_flow_backend.Effect.{Error, sentinel, Result, Env}
use send_flow_backend.Events.{Json}
use send_flow_backend.Delivery.Message.{Message}
use send_flow_backend.Delivery.Contracts.{Payload}
use send_flow_backend.Delivery.Sending.{QuotaCall}
use send_flow_backend.Delivery.Store.{Db}

abbrev pub max_idempotency_key_length : ℕ
max_idempotency_key_length = 255

abbrev pub max_metadata_size : ℕ
max_metadata_size = 16 * 1024

abbrev pub max_template_data_size : ℕ
max_template_data_size = 64 * 1024

abbrev pub max_tags_count : ℕ
max_tags_count = 20

abbrev pub max_tag_length : ℕ
max_tag_length = 64

abbrev pub max_recipients : ℕ
max_recipients = 50

abbrev pub max_body_length : ℕ
max_body_length = 512 * 1024

pub record RecipientTarget : Type 0 where
  pub email : String
  pub name : String

-- `data` is what the reader yields; `none` is a nil reader.
pub record AttachmentStream : Type 0 where
  pub filename : String
  pub content_type : String
  pub content : Option String
  pub size : ℕ
  pub sha256 : String
  pub disposition : String
  pub content_id : String

-- A map is the list of its entries, with the values as their JSON text; `none` is a nil map.
pub record Input : Type 0 where
  pub workspace_id : String
  pub api_key_id : String
  pub idempotency_key : String
  pub mode : String
  pub sender_domain_id : String
  pub sender_name : String
  pub subject : String
  pub template_id : String
  pub template_version_id : String
  pub template_data : Option (List (String × String))
  pub text_body : String
  pub html_body : String
  pub reply_to : String
  pub to : List RecipientTarget
  pub cc : List RecipientTarget
  pub bcc : List RecipientTarget
  pub metadata : Option (List (String × String))
  pub tags : List String
  pub headers : List (String × String)
  pub attachments : List AttachmentStream
  pub now : ℕ

-- `Result` of the package send.
pub record Accepted : Type 0 where
  pub request_id : String
  pub message_ids : List String
  pub status : String
  pub accepted_at : ℕ

-- `recipientTarget`: a recipient with its role.
pub record Target : Type 0 where
  pub recipient : RecipientTarget
  pub role : String

pub record FilePart : Type 0 where
  pub filename : String
  pub content_type : String
  pub size : ℕ
  pub sha256 : String
  pub disposition : String
  pub content_id : String

-- The fields that are encoded; the others stay empty.
pub record CanonicalSendRequest : Type 0 where
  pub mode : String
  pub sender_domain_id : String
  pub sender_name : String
  pub subject : String
  pub template_id : String
  pub template_version_id : String
  pub template_data : Option (List (String × String))
  pub text_body : String
  pub html_body : String
  pub reply_to : String
  pub to : List RecipientTarget
  pub cc : List RecipientTarget
  pub bcc : List RecipientTarget
  pub metadata : Option (List (String × String))
  pub tags : List String
  pub headers : List (String × String)
  pub attachments : List FilePart

-- What the handler is built with. `to_lower` is `strings.ToLower`, `parses_address` tells whether
-- `mail.ParseAddress` succeeds, `byte_length` is `len` and `first_bytes n` the slice `[:n]`, which may
-- end within a character; `quote` is what `%q` prints; the encoders are those of encoding/json, `sha256_hex` is the digest.
-- Where a readiness or a decision is nil, the answer is the one that the nil test gives.
-- The enforcer answers by what it was asked before. Messages are stored by `insert_messages`.
pub record AcceptPorts : Type 0 where
  pub env : Env
  pub json : Json Payload
  pub to_lower : String → String
  pub parses_address : String → Bool
  pub byte_length : String → ℕ
  pub quote : String → String
  pub first_bytes : ℕ → String → String
  pub encode_map : List (String × String) → Result String
  pub encode_canonical : CanonicalSendRequest → Result String
  pub sha256_hex : String → String
  pub sender_ready : String → String → Result Bool
  pub render_subject : String → String → String → Option (List (String × String)) → Result String
  pub is_suppressed : String → String → String → Result Bool
  pub quota : Option (List QuotaCall → String → String → ℕ → Result (Unit {0}))
  pub has_storage : Bool
  pub has_cache : Bool
  pub insert_messages : List Message → Db → Result (List String) × Db

abbrev pub temporarily_unavailable : Error
temporarily_unavailable = sentinel "delivery temporarily unavailable"

abbrev pub body_invalid : Error
body_invalid = sentinel "delivery request body invalid"

abbrev pub recipient_invalid : Error
recipient_invalid = sentinel "delivery recipient invalid"

abbrev pub key_conflict : Error
key_conflict = sentinel "delivery idempotency key conflict"
