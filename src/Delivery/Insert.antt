-- ===== src/Delivery/Insert.antt =====
-- `CreateMany` of the messages in delivery/infrastructure/postgres/repository.go: the columns that the
-- statement names and the arguments that are bound to them, place by place. The database server is a
-- parameter, as is the encoder of the JSON columns.
pub mod Nulls
use send_flow_backend.Prelude.{
  ℕ, String, Bool, true, false, ◌&&◌, List, [], ◌∷◌, Option, none, some, if◌then◌else◌, any,
}
use send_flow_backend.Prelude.Text.{str_eq}
use send_flow_backend.Effect.{Result, ok, err}
use send_flow_backend.Delivery.Status.{text}
use send_flow_backend.Delivery.Message.{Message, RecipientSnapshot}
use send_flow_backend.Delivery.Store.{Db}

-- A bound argument.
pub data SqlValue : Type 0 where
  null : SqlValue
  sql_text : String → SqlValue
  sql_time : ℕ → SqlValue

abbrev pub nullable : String → SqlValue
nullable s = if str_eq s "" then null else sql_text s

abbrev pub nullable_time : Option ℕ → SqlValue
nullable_time none = null
nullable_time (some t) = sql_time t

abbrev pub message_columns : List String
message_columns =
    "id" ∷ "workspace_id" ∷ "campaign_id" ∷ "campaign_candidate_id" ∷ "transactional_request_id"
    ∷ "contact_id" ∷ "recipient_email_normalized" ∷ "recipient_snapshot" ∷ "template_id"
    ∷ "template_version_id" ∷ "sender_domain_id" ∷ "subject" ∷ "sender_name" ∷ "recipient_role"
    ∷ "source_api_key_id" ∷ "text_body" ∷ "html_body" ∷ "reply_to" ∷ "headers" ∷ "message_type"
    ∷ "source_type" ∷ "status" ∷ "scheduled_at" ∷ "queued_at" ∷ "processing_started_at"
    ∷ "accepted_at" ∷ "delivered_at" ∷ "bounced_at" ∷ "complained_at" ∷ "failed_at"
    ∷ "last_error_class" ∷ "last_error_message" ∷ "provider" ∷ "provider_message_id" ∷ "created_at"
    ∷ "updated_at" ∷ []

-- The arguments of one message, in the order of the source.
unfoldable pub message_args : Message → String → String → List SqlValue
message_args m snapshot headers =
    sql_text m.id
    ∷ sql_text m.workspace_id
    ∷ nullable m.campaign_id
    ∷ nullable m.campaign_candidate_id
    ∷ nullable m.transactional_request_id
    ∷ nullable m.contact_id
    ∷ sql_text m.recipient_email_normalized
    ∷ sql_text snapshot
    ∷ nullable m.template_id
    ∷ nullable m.template_version_id
    ∷ nullable m.sender_domain_id
    ∷ sql_text m.message_type
    ∷ sql_text m.source_type
    ∷ sql_text (text m.status)
    ∷ nullable_time m.scheduled_at
    ∷ nullable_time m.queued_at
    ∷ nullable_time m.processing_started_at
    ∷ nullable_time m.accepted_at
    ∷ nullable_time m.delivered_at
    ∷ nullable_time m.bounced_at
    ∷ nullable_time m.complained_at
    ∷ nullable_time m.failed_at
    ∷ sql_text m.last_error_class
    ∷ sql_text m.last_error_message
    ∷ sql_text m.provider
    ∷ sql_text m.provider_message_id
    ∷ sql_text m.subject
    ∷ sql_text m.sender_name
    ∷ sql_text m.recipient_role
    ∷ sql_text m.source_api_key_id
    ∷ sql_text m.text_body
    ∷ sql_text m.html_body
    ∷ nullable m.reply_to
    ∷ sql_text headers
    ∷ sql_time m.created_at
    ∷ sql_time m.updated_at
    ∷ []

abbrev bind_columns : List String → List SqlValue → List (String × SqlValue)
bind_columns [] values = []
bind_columns (c ∷ cs) [] = []
bind_columns (c ∷ cs) (v ∷ vs) = (c, v) ∷ bind_columns cs vs

-- The row that a message becomes.
abbrev pub MessageRow : Type 0
MessageRow = List (String × SqlValue)

unfoldable pub message_row : Message → String → String → MessageRow
unfolding message_args
message_row m snapshot headers = bind_columns message_columns (message_args m snapshot headers)

-- The JSON encoder, and what the server answers to the statement with these rows.
pub record Server : Type 0 where
  pub encode_snapshot : RecipientSnapshot → Result String
  pub encode_headers : List (String × String) → Result String
  pub insert : List MessageRow → Db → Result (List String) × Db

abbrev pub and_row : Result MessageRow → Result (List MessageRow) → Result (List MessageRow)
and_row (err e) rows = err e
and_row (ok row) (err e) = err e
and_row (ok row) (ok rows) = ok (row ∷ rows)

abbrev pub encoded_row : Message → Result String → Result String → Result MessageRow
encoded_row m (err e) headers = err e
encoded_row m (ok snapshot) (err e) = err e
encoded_row m (ok snapshot) (ok headers) = ok (message_row m snapshot headers)

module _ (server : Server) where
  abbrev pub message_rows : List Message → Result (List MessageRow)
  message_rows [] = ok []
  message_rows (m ∷ rest) =
      and_row
        (encoded_row m (server.encode_snapshot m.recipient_snapshot)
          (server.encode_headers m.headers))
        (message_rows rest)

  abbrev pub send_rows : Result (List MessageRow) → Db → Result (List String) × Db
  send_rows (err e) d = (err e, d)
  send_rows (ok rows) d = server.insert rows d

  -- `CreateMany`.
  unfoldable pub create_many : List Message → Db → Result (List String) × Db
  unfolding message_row
  create_many [] d = (ok [], d)
  create_many (m ∷ rest) d = send_rows (message_rows (m ∷ rest)) d

-- The columns of `messages` that are declared NOT NULL (src/migrations).
abbrev pub not_null : String → Bool
not_null c = any (str_eq c) (
    "id" ∷ "workspace_id" ∷ "recipient_email_normalized" ∷ "recipient_snapshot" ∷ "sender_domain_id"
    ∷ "recipient_role" ∷ "message_type" ∷ "source_type" ∷ "status" ∷ "created_at" ∷ "updated_at"
    ∷ [])

abbrev pub is_null : SqlValue → Bool
is_null null = true
is_null (sql_text s) = false
is_null (sql_time t) = false

abbrev pub lacks_value : MessageRow → Bool
lacks_value row = any (λ (cell : String × SqlValue). not_null cell.0 && is_null cell.1) row
