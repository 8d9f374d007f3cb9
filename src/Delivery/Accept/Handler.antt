-- ===== src/Delivery/Accept/Handler.antt =====
-- internal/modules/delivery/app/send/accept.go: `Execute` is `execute`.
use send_flow_backend.Prelude.{
  ℕ, String, Bool, true, false, List, [], ◌∷◌, Option, none, some, if◌then◌else◌, length,
}
use send_flow_backend.Prelude.Text.{str_eq, joined}
use send_flow_backend.Strings.{trim_space}
use send_flow_backend.Effect.{
  sentinel, explained, is_error, Result, ok, err, M, ◌>>=◌, ◌>>◌, return, throw, lift, attempt,
  ignore_error, call, id_gen, clock, within_tx,
}
use send_flow_backend.Delivery.Sending.{AttachmentManifest, QuotaCall}
use send_flow_backend.Delivery.Store.{Db}
use send_flow_backend.Delivery.Accept.Data.{
  AttachmentStream, Input, Accepted, Target, AcceptPorts, body_invalid, temporarily_unavailable,
}
use send_flow_backend.Delivery.Accept.Validate.{
  validate_send_input, normalize_email, explode_recipients, build_canonical, compute_request_hash,
}
use send_flow_backend.Delivery.Accept.Rows.{
  put_object, delete_object, check_and_consume, ask_refund,
}
use send_flow_backend.Delivery.Accept.Idempotency.{
  handle_idempotency, load_existing_request_result, cache_answer,
}
use send_flow_backend.Delivery.Accept.Write.{Draft, accept_body, unique_violation}

module _ (p : AcceptPorts) where
  abbrev pub sender_answer : Result Bool → M Db (Unit {0})
  sender_answer (ok true) = return tt
  sender_answer (ok false) = throw (sentinel "delivery sender domain not verified")
  sender_answer (err e) =
      if is_error e "delivery sender domain not found"
      then throw e
      else throw temporarily_unavailable

  unfoldable pub check_sender_readiness : Input → M Db (Unit {0})
  check_sender_readiness input =
      sender_answer (p.sender_ready input.workspace_id input.sender_domain_id)

  abbrev pub subject_answer : Result String → M Db String
  subject_answer (ok s) = return s
  subject_answer (err e) =
      if is_error e "delivery template not found"
      then throw e
      else if is_error e "delivery template render payload invalid"
      then throw e
      else throw temporarily_unavailable

  unfoldable pub render_subject : Input → M Db String
  render_subject input =
      if str_eq input.mode "template"
      then subject_answer (
          p.render_subject input.workspace_id input.template_id input.template_version_id
            input.template_data)
      else return input.subject

  abbrev pub suppression_answer : Result Bool → M Db (Unit {0})
  suppression_answer (err e) = throw temporarily_unavailable
  suppression_answer (ok true) = throw (sentinel "delivery suppressed recipient")
  suppression_answer (ok false) = return tt

  unfoldable pub check_suppressions : String → List Target → M Db (Unit {0})
  unfolding normalize_email
  check_suppressions workspace_id [] = return tt
  check_suppressions workspace_id (t ∷ ts) = do
    suppression_answer
        (p.is_suppressed workspace_id (normalize_email p t.recipient.email) "workspace")
    check_suppressions workspace_id ts

  abbrev pub consume_with :
      Option (List QuotaCall → String → String → ℕ → Result (Unit {0}))
      → Input
      → ℕ
      → M Db (Unit {0})
  consume_with none input units = return tt
  consume_with (some enforcer) input units =
      call p.env (check_and_consume enforcer input.workspace_id input.api_key_id units)

  unfoldable pub consume_quota : Input → ℕ → M Db (Unit {0})
  consume_quota input units = consume_with p.quota input units

  abbrev pub record_refund : Input → ℕ → M Db (Unit {0})
  record_refund input units s =
      (ok tt, record s { db = (ask_refund input.workspace_id input.api_key_id units s.db).1 })

  abbrev pub refund_with :
      Option (List QuotaCall → String → String → ℕ → Result (Unit {0}))
      → Input
      → ℕ
      → M Db (Unit {0})
  refund_with none input units = return tt
  refund_with (some enforcer) input units = record_refund input units

  -- `refundQuota`, which runs once on each path that ends without an acceptance.
  unfoldable pub refund_quota : Input → ℕ → M Db (Unit {0})
  refund_quota input units = refund_with p.quota input units

  abbrev pub storage_key : String → String → AttachmentStream → String
  storage_key workspace_id request_id a = joined "attachments/" (
      joined workspace_id (
        joined "/" (
          joined request_id
            (joined "/" (joined (p.first_bytes 12 a.sha256) (joined "_" a.filename))))))

  abbrev pub put_answer : Result (Unit {0}) → M Db (Unit {0})
  put_answer (ok _) = return tt
  put_answer (err e) = throw (explained (sentinel "delivery attachment storage failed") e)

  abbrev pub seek_answer : Result (Unit {0}) → M Db (Unit {0})
  seek_answer (ok _) = return tt
  seek_answer (err e) = throw (sentinel "delivery attachment storage failed")

  -- `Seek` to the start of the attachment, where it has a reader.
  abbrev pub rewind : Option String → M Db (Unit {0})
  rewind none = return tt
  rewind (some content) = do r ← attempt (call p.env (λ d. (ok tt, d))); seek_answer r

  abbrev pub new_id_answer : Result String → M Db String
  new_id_answer (ok id) = return id
  new_id_answer (err e) = throw temporarily_unavailable

  abbrev pub manifest_of : String → AttachmentStream → String → String → ℕ → AttachmentManifest
  manifest_of workspace_id a key id now = record {
    id = id;
    workspace_id = workspace_id;
    transactional_request_id = "";
    storage_key = key;
    original_filename = a.filename;
    content_type = a.content_type;
    byte_size = a.size;
    sha256_digest = a.sha256;
    disposition = (if str_eq a.disposition "" then "attachment" else a.disposition);
    content_id = a.content_id;
    created_at = now;
  }

  unfoldable pub store_attachment : String → String → AttachmentStream → M Db AttachmentManifest
  store_attachment workspace_id request_id a = do
    rewind a.content
    r ← attempt (
        call p.env (
          put_object (record {
            key = storage_key workspace_id request_id a;
            content_type = a.content_type;
            content = a.content;
          })))
    put_answer r
    id ← attempt (id_gen p.env)
    id ← new_id_answer id
    now ← clock p.env
    return (manifest_of workspace_id a (storage_key workspace_id request_id a) id now)

  unfoldable pub store_attachments :
      String → String → List AttachmentStream → M Db (List AttachmentManifest)
  unfolding store_attachment
  store_attachments workspace_id request_id [] = return []
  store_attachments workspace_id request_id (a ∷ rest) = do
    manifest ← store_attachment workspace_id request_id a
    manifests ← store_attachments workspace_id request_id rest
    return (manifest ∷ manifests)

  abbrev pub clean_up_object : AttachmentManifest → M Db (Unit {0})
  clean_up_object a =
      if str_eq a.storage_key ""
      then return tt
      else ignore_error (call p.env (delete_object a.storage_key))

  -- `cleanupUploadedAttachments`; there are manifests only where there is a storage.
  unfoldable pub clean_up_attachments : List AttachmentManifest → M Db (Unit {0})
  clean_up_attachments [] = return tt
  clean_up_attachments (a ∷ rest) = do clean_up_object a; clean_up_attachments rest

  abbrev pub on_transaction : Draft → List AttachmentManifest → Result Accepted → M Db Accepted
  on_transaction draft manifests (ok a) = do
    (if str_eq draft.key ""
        then return tt
        else cache_answer p draft.input.workspace_id draft.key draft.request_hash a)
    return a
  on_transaction draft manifests (err e) = do
    clean_up_attachments manifests
    refund_quota draft.input (length draft.targets)
    (if is_error e unique_violation
        then load_existing_request_result p draft.input.workspace_id draft.key draft.request_hash 0
        else throw e)

  unfoldable pub commit_request : Draft → String → List AttachmentManifest → M Db Accepted
  unfolding accept_body
  commit_request draft request_id manifests = do
    r ← attempt (within_tx p.env (accept_body p draft request_id manifests))
    on_transaction draft manifests r

  abbrev pub on_manifests : Draft → String → Result (List AttachmentManifest) → M Db Accepted
  on_manifests draft request_id (ok manifests) = commit_request draft request_id manifests
  on_manifests draft request_id (err e) = do
    refund_quota draft.input (length draft.targets)
    throw e

  abbrev pub on_request_id : Draft → Result String → M Db Accepted
  on_request_id draft (err e) = do
    refund_quota draft.input (length draft.targets)
    throw temporarily_unavailable
  on_request_id draft (ok id) =
      if p.has_storage
      then (do
        r ← attempt (store_attachments draft.input.workspace_id id draft.input.attachments)
        on_manifests draft id r)
      else commit_request draft id []

  abbrev pub with_attachments : Draft → List AttachmentStream → M Db Accepted
  with_attachments draft [] = commit_request draft "" []
  with_attachments draft (a ∷ rest) = do id ← attempt (id_gen p.env); on_request_id draft id

  -- The part of `Execute` after the quota's units are consumed.
  unfoldable pub after_quota : Draft → M Db Accepted
  unfolding commit_request refund_quota store_attachments
  after_quota draft = with_attachments draft draft.input.attachments

  abbrev pub draft_of : Input → List Target → String → String → Draft
  draft_of input targets json subject = record {
    input = input;
    targets = targets;
    canonical_json = json;
    request_hash = compute_request_hash p (build_canonical p input) input.attachments;
    rendered_subject = subject;
    key = trim_space input.idempotency_key;
  }

  -- The part of `Execute` for a request that is new.
  unfoldable pub accept_new : Input → List Target → String → M Db Accepted
  unfolding after_quota
  accept_new input targets json = do
    check_sender_readiness input
    subject ← render_subject input
    check_suppressions input.workspace_id targets
    consume_quota input (length targets)
    after_quota (draft_of input targets json subject)

  abbrev pub on_replay : Input → List Target → String → Option Accepted → M Db Accepted
  on_replay input targets json (some a) = return a
  on_replay input targets json none = accept_new input targets json

  abbrev pub replay : Input → M Db (Option Accepted)
  replay input =
      if str_eq (trim_space input.idempotency_key) ""
      then return none
      else handle_idempotency p input.workspace_id (trim_space input.idempotency_key)
          (compute_request_hash p (build_canonical p input) input.attachments)

  abbrev pub encoded_canonical : Result String → M Db String
  encoded_canonical (ok json) = return json
  encoded_canonical (err e) = throw body_invalid

  unfoldable pub execute : Input → M Db Accepted
  unfolding accept_new check_sender_readiness render_subject check_suppressions consume_quota
  execute raw = do
    now ← clock p.env
    input ← lift (validate_send_input p now raw)
    targets ← lift (explode_recipients p input.to input.cc input.bcc)
    json ← encoded_canonical (p.encode_canonical (build_canonical p input))
    replayed ← replay input
    on_replay input targets json replayed
