-- ===== src/Delivery/Due/Send.antt =====
-- internal/modules/delivery/app/process/due.go: `processMessage` from the loading of the attachments
-- on. Each function is the code from one call on; an early return is a branch.
use send_flow_backend.Prelude.{
  ℕ, String, not, List, [], ◌∷◌, ◌++◌, Option, none, some, if◌then◌else◌,
}
use send_flow_backend.Prelude.Text.{str_eq, joined}
use send_flow_backend.Effect.{
  Error, wrapped, is_error, error_text, Result, ok, err, M, ◌>>=◌, ◌>>◌, return, lift, attempt,
  ignore_error, call,
}
use send_flow_backend.Delivery.Status.{MessageStatus, status_eq}
use send_flow_backend.Delivery.Message.{Message, DeliveryAttempt, RecipientSnapshot}
use send_flow_backend.Delivery.Sending.{
  AttachmentManifest, AttachmentPart, ProviderSendRequest, ProviderSendResult, RenderedMessage,
  RenderValue, text, tags, attributes,
}
use send_flow_backend.Delivery.Store.{Db, find_by_id, update_message}
use send_flow_backend.Delivery.Due.Data.{
  Outcome, status_accepted, status_failed, status_retry_scheduled, AttachmentPorts, DuePorts,
  write_event, fail_message, fail_message_with_attempt,
}
use send_flow_backend.Delivery.Due.Retry.{handle_temporary_failure}
use send_flow_backend.Delivery.Due.Accepted.{
  persist_accepted_state, accepted_attempt, accepted_message,
}

abbrev pub permanent_failure : String
permanent_failure = "delivery provider permanent failure"

-- `m[key] = value` on a Go map.
abbrev pub set_entry :
    String → RenderValue → List (String × RenderValue) → List (String × RenderValue)
set_entry key value [] = (key, value) ∷ []
set_entry key value (x ∷ xs) =
    if str_eq x.0 key then (key, value) ∷ xs else x ∷ set_entry key value xs

abbrev set_texts :
    List (String × String) → List (String × RenderValue) → List (String × RenderValue)
set_texts [] d = d
set_texts (x ∷ xs) d = set_texts xs (set_entry x.0 (text x.1) d)

abbrev with_tags : List String → List (String × RenderValue) → List (String × RenderValue)
with_tags [] d = d
with_tags (t ∷ ts) d = set_entry "tags" (tags (t ∷ ts)) d

abbrev with_attributes :
    Option (List (String × String)) → List (String × RenderValue) → List (String × RenderValue)
with_attributes none d = d
with_attributes (some a) d = set_entry "attributes" (attributes a) d

abbrev with_template_data :
    Option (List (String × String)) → List (String × RenderValue) → List (String × RenderValue)
with_template_data none d = d
with_template_data (some xs) d = set_texts xs d

-- `buildRenderData`.
unfoldable pub build_render_data : RecipientSnapshot → List (String × RenderValue)
build_render_data s = with_template_data s.template_data (
    with_attributes s.attributes (
      with_tags s.tags (
        ("first_name", text s.first_name)
        ∷ ("last_name", text s.last_name)
        ∷ ("email", text s.email)
        ∷ [])))

module _ (p : DuePorts) (now : ℕ) where
  abbrev part_of : AttachmentManifest → String → AttachmentPart
  part_of f content = record {
    filename = f.original_filename;
    content_type = f.content_type;
    content_id = f.content_id;
    disposition = (if str_eq f.disposition "" then "attachment" else f.disposition);
    content = content;
  }

  abbrev pub wrap_error : {A : Type 0} → String → Result A → Result A
  wrap_error what (ok a) = ok a
  wrap_error what (err e) = err (wrapped what e)

  abbrev pub load_parts : AttachmentPorts → List AttachmentManifest → M Db (List AttachmentPart)
  load_parts s [] = return []
  load_parts s (f ∷ fs) = do
    got ← attempt (call p.env (λ d. (s.get_object f.storage_key, d)))
    key ← lift (
        wrap_error
          (joined "get attachment "
            (joined f.original_filename (joined " (key=" (joined f.storage_key ")"))))
          got)
    bytes ← attempt (call p.env (λ d. (s.read_all key, d)))
    content ← lift (wrap_error (joined "read attachment " f.original_filename) bytes)
    rest ← load_parts s fs
    return (part_of f content ∷ rest)

  abbrev pub load_from : Option AttachmentPorts → Message → M Db (List AttachmentPart)
  load_from none m = return []
  load_from (some s) m = if str_eq m.transactional_request_id "" then return [] else (do
    listed ←
        attempt
          (call p.env (λ d. (ok (s.list_by_request m.workspace_id m.transactional_request_id), d)))
    manifests ← lift (wrap_error "list attachment manifests" listed)
    load_parts s manifests)

  -- `loadAttachments`.
  unfoldable pub load_attachments : Message → M Db (List AttachmentPart)
  load_attachments m = load_from p.storage m

  abbrev pub give_up : Message → String → String → M Db Outcome
  give_up m error_class error_message = do
    fail_message p now m error_class error_message
    return status_failed

  abbrev pub give_up_attempt : Message → DeliveryAttempt → String → String → M Db Outcome
  give_up_attempt m a error_class error_message = do
    fail_message_with_attempt p now m a error_class error_message
    return status_failed

  abbrev pub dead_letter : Message → Error → M Db Outcome
  dead_letter m e = do
    write_event p now m "failed" MessageStatus.failed "accepted_state_persistence_failed"
        (error_text e)
    ignore_error (
        call p.env (
          update_message (record m {
            status = MessageStatus.dlq;
            last_error_class = "accepted_state_persistence_failed";
            last_error_message = error_text e;
            updated_at = now;
          })))
    return status_failed

  -- An earlier try may have been committed although its commit was answered by an error.
  abbrev pub on_current : Message → Error → Result Message → M Db Outcome
  on_current m e (ok c) =
      if status_eq c.status MessageStatus.accepted then return status_accepted else dead_letter m e
  on_current m e (err x) = dead_letter m e

  abbrev pub on_persisted : Message → Result (Unit {0}) → M Db Outcome
  on_persisted m (ok _) = return status_accepted
  on_persisted m (err e) = do
    c ← attempt (call p.env (find_by_id m.workspace_id m.id))
    on_current m e c

  abbrev pub on_answer : Message → DeliveryAttempt → Result ProviderSendResult → M Db Outcome
  on_answer m a (err e) =
      if is_error e permanent_failure
      then give_up_attempt m a "provider_permanent_failure" (error_text e)
      else (do handle_temporary_failure p now m a (error_text e); return status_retry_scheduled)
  on_answer m a (ok res) =
      if str_eq res.provider_message_id ""
      then give_up_attempt m a "provider_invalid_response" "empty provider_message_id"
      else (do
        r ← attempt (
            persist_accepted_state p now (accepted_message p now m res)
              (accepted_attempt p now a res) res)
        on_persisted (accepted_message p now m res) r)

  abbrev pub reply_to_list : String → List String
  reply_to_list s = if not (str_eq s "") then s ∷ [] else []

  abbrev pub send_request : Message → RenderedMessage → List AttachmentPart → ProviderSendRequest
  send_request m body parts = record {
    to = m.recipient_snapshot.email ∷ [];
    cc = [];
    bcc = [];
    reply_to = reply_to_list m.reply_to;
    subject = body.subject;
    html_body = body.html_body;
    text_body = body.text_body;
    sender_name = m.sender_name;
    headers = m.headers;
    attachments = parts;
  }

  -- `SendEmail`: the provider sees the request, whatever it answers.
  unfoldable pub send_email : ProviderSendRequest → Db → Result ProviderSendResult × Db
  send_email request d = (p.answer_to d.sent request, record d { sent = d.sent ++ request ∷ [] })

  abbrev pub on_attachments :
      Message → RenderedMessage → DeliveryAttempt → Result (List AttachmentPart) → M Db Outcome
  on_attachments m body a (err e) = give_up m "attachment_load_failed" (error_text e)
  on_attachments m body a (ok parts) = do
    r ← attempt (call p.env (send_email (send_request m body parts)))
    on_answer m a r
