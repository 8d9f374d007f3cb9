-- ===== src/Delivery/Accept/Write.antt =====
-- internal/modules/delivery/app/send/accept.go: the transaction of `Execute`.
use send_flow_backend.Prelude.{String, List, [], ◌∷◌, map, none, some, if◌then◌else◌, length}
use send_flow_backend.Prelude.Text.{str_eq}
use send_flow_backend.Strings.{trim_space}
use send_flow_backend.Effect.{
  sentinel, is_error, Result, ok, err, M, ◌>>=◌, ◌>>◌, return, throw, lift, attempt, call, id_gen,
}
use send_flow_backend.Events.{new_envelope, marshal}
use send_flow_backend.Delivery.Status.{MessageStatus}
use send_flow_backend.Delivery.Message.{Message, MessageEvent, RecipientSnapshot, queued_message}
use send_flow_backend.Delivery.Contracts.{
  Payload, MessageQueuedPayload, message_queued, transactional_send_accepted, aggregate_message,
  aggregate_transactional_request, event_message_queued_v1, event_transactional_send_accepted_v1,
}
use send_flow_backend.Delivery.Sending.{AttachmentManifest}
use send_flow_backend.Delivery.Store.{
  Db, OutboxEvent, TransactionalRequest, create_message_event, save_outbox,
}
use send_flow_backend.Delivery.Accept.Data.{
  Input, Accepted, Target, AcceptPorts, temporarily_unavailable,
}
use send_flow_backend.Delivery.Accept.Validate.{normalize_email}
use send_flow_backend.Delivery.Accept.Rows.{create_request, create_attachments}
use send_flow_backend.Delivery.Accept.Idempotency.{first_message_id}

-- `errUniqueViolation`.
abbrev pub unique_violation : String
unique_violation = "unique violation recovery needed"

-- What the transaction is about: the checked input, its recipients, its encoding and digest, and the
-- subject that the template gave.
pub record Draft : Type 0 where
  pub input : Input
  pub targets : List Target
  pub canonical_json : String
  pub request_hash : String
  pub rendered_subject : String
  pub key : String

module _ (p : AcceptPorts) (draft : Draft) where
  abbrev pub subject : String
  subject = if str_eq draft.rendered_subject "" then draft.input.subject else draft.rendered_subject

  unfoldable pub request_row : String → TransactionalRequest
  request_row id = record {
    id = id;
    workspace_id = draft.input.workspace_id;
    idempotency_key = (if str_eq draft.key "" then none else some draft.key);
    status = "accepted";
    request_payload = draft.canonical_json;
    mode = draft.input.mode;
    subject = subject;
    sender_name = draft.input.sender_name;
    source_api_key_id = draft.input.api_key_id;
    request_hash = draft.request_hash;
    total_recipients = length draft.targets;
    recipient_terminal_total = 0;
    recipient_success_total = 0;
    recipient_failure_total = 0;
    created_at = draft.input.now;
    completed_at = none;
    failed_at = none;
    updated_at = draft.input.now;
  }

  abbrev recipient_snapshot : Target → RecipientSnapshot
  unfolding normalize_email
  recipient_snapshot t = record {
    contact_id = "";
    email = t.recipient.email;
    email_normalized = normalize_email p t.recipient.email;
    first_name = trim_space t.recipient.name;
    last_name = "";
    tags = draft.input.tags;
    attributes = draft.input.metadata;
    template_data = draft.input.template_data;
  }

  -- The message of a recipient.
  unfoldable pub message_for : String → Target → String → Message
  unfolding normalize_email
  message_for request_id t id =
      record (queued_message id draft.input.workspace_id (normalize_email p t.recipient.email)
        "transactional" "transactional" draft.input.now) {
          transactional_request_id = request_id;
          recipient_snapshot = recipient_snapshot t;
          template_id = draft.input.template_id;
          template_version_id = draft.input.template_version_id;
          sender_domain_id = draft.input.sender_domain_id;
          subject = subject;
          sender_name = draft.input.sender_name;
          text_body = draft.input.text_body;
          html_body = draft.input.html_body;
          reply_to = draft.input.reply_to;
          headers = draft.input.headers;
          recipient_role = t.role;
          source_api_key_id = draft.input.api_key_id;
          queued_at = some draft.input.now;
        }

  abbrev pub queued_event : String → String → String → MessageEvent
  queued_event request_id message_id id = record {
    id = id;
    workspace_id = draft.input.workspace_id;
    message_id = message_id;
    transactional_request_id = request_id;
    event_type = "queued";
    status = MessageStatus.queued;
    reason_code = "";
    reason_message = "";
    occurred_at = draft.input.now;
    created_at = draft.input.now;
  }

  abbrev pub queued_payload : String → String → MessageQueuedPayload
  queued_payload request_id message_id = record {
    message_id = message_id;
    workspace_id = draft.input.workspace_id;
    campaign_id = "";
    campaign_candidate_id = "";
    transactional_request_id = request_id;
    template_id = draft.input.template_id;
    template_version_id = draft.input.template_version_id;
    sender_domain_id = draft.input.sender_domain_id;
    message_type = "transactional";
    source_type = "transactional";
    scheduled_at = "";
  }

  abbrev pub outbox_event : String → String → String → String → String → OutboxEvent
  outbox_event event_type aggregate_type aggregate_id id bytes = record {
    id = id;
    aggregate_type = aggregate_type;
    aggregate_id = aggregate_id;
    event_type = event_type;
    payload = bytes;
    workspace_id = draft.input.workspace_id;
    occurred_at = draft.input.now;
  }

  -- An envelope of the event, encoded, into the outbox.
  unfoldable pub emit : String → String → String → Payload → M Db (Unit {0})
  emit event_type aggregate_type aggregate_id payload = do
    id ← id_gen p.env
    envelope ← lift (
        new_envelope p.json draft.input.now
          (record {
            event_id = id;
            event_type = event_type;
            event_version = 1;
            aggregate_type = aggregate_type;
            aggregate_id = aggregate_id;
            workspace_id = draft.input.workspace_id;
            occurred_at = draft.input.now;
            payload = "";
          })
          payload)
    bytes ← lift (marshal p.json envelope)
    call p.env
        (save_outbox (outbox_event event_type aggregate_type aggregate_id envelope.event_id bytes))

  abbrev pub inserted : List String → M Db (Unit {0})
  inserted [] = throw temporarily_unavailable
  inserted (id ∷ rest) = return tt

  -- One recipient: the message, its event and the outbox event; answers the message's id.
  unfoldable pub write_target : String → Target → M Db String
  unfolding message_for emit
  write_target request_id t = do
    id ← id_gen p.env
    ids ← call p.env (p.insert_messages (message_for request_id t id ∷ []))
    inserted ids
    event_id ← id_gen p.env
    call p.env (create_message_event (queued_event request_id id event_id))
    emit event_message_queued_v1 aggregate_message id
        (message_queued (queued_payload request_id id))
    return id

  unfoldable pub write_targets : String → List Target → M Db (List String)
  unfolding write_target
  write_targets request_id [] = return []
  write_targets request_id (t ∷ ts) = do
    id ← write_target request_id t
    ids ← write_targets request_id ts
    return (id ∷ ids)

  abbrev pub created : Result (Unit {0}) → M Db (Unit {0})
  created (ok _) = return tt
  created (err e) =
      if is_error e "delivery idempotency key conflict"
      then throw (sentinel unique_violation)
      else throw e

  unfoldable pub store_request : String → M Db (Unit {0})
  unfolding request_row
  store_request id = do r ← attempt (call p.env (create_request (request_row id))); created r

  abbrev pub keyed : String → AttachmentManifest → AttachmentManifest
  keyed request_id a = record a { transactional_request_id = request_id }

  abbrev pub store_manifests : String → List AttachmentManifest → M Db (Unit {0})
  store_manifests request_id [] = return tt
  store_manifests request_id (a ∷ rest) =
      call p.env (create_attachments (map (keyed request_id) (a ∷ rest)))

  abbrev pub request_id_or_new : String → M Db String
  request_id_or_new request_id = if str_eq request_id "" then id_gen p.env else return request_id

  -- The body of the transaction; `request_id` is empty where there are no attachments.
  unfoldable pub accept_body : String → List AttachmentManifest → M Db Accepted
  unfolding store_request write_targets emit
  accept_body request_id manifests = do
    id ← request_id_or_new request_id
    store_request id
    store_manifests id manifests
    ids ← write_targets id draft.targets
    emit event_transactional_send_accepted_v1 aggregate_transactional_request id
        (transactional_send_accepted (queued_payload id (first_message_id ids)))
    return (record {
      request_id = id;
      message_ids = ids;
      status = "accepted";
      accepted_at = draft.input.now;
    })
