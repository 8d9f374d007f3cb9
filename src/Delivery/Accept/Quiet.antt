-- ===== src/Delivery/Accept/Quiet.antt =====
-- The parts of the acceptance that write neither a table nor to the quota: the answers to a repeated
-- key, the storage of attachments and its undoing (delivery/app/send/accept.go).
use send_flow_backend.Prelude.{ℕ, String, ◌≡◌, refl, ◌∙◌, List, [], ◌∷◌, Option, none, some, ap}
use send_flow_backend.Prelude.Text.{str_eq}
use send_flow_backend.Effect.{is_error, Result, ok, err, Env, call}
use send_flow_backend.Effect.Rules.{
  Preorder, Keeps, Keeps-return, Keeps-throw, Keeps-if, Keeps-bind, Keeps-then, Keeps-attempt,
  Keeps-ignore_error, Keeps-call, Keeps-id_gen, Keeps-clock,
}
use send_flow_backend.Delivery.Message.{Message}
use send_flow_backend.Delivery.Sending.{AttachmentManifest, IdempotencyEntry}
use send_flow_backend.Delivery.Store.{Db, TransactionalRequest, found, request_not_found}
use send_flow_backend.Delivery.Listing.{list_messages}
use send_flow_backend.Delivery.Accept.Data.{AttachmentStream, Accepted, AcceptPorts}
use send_flow_backend.Delivery.Accept.Rows.{
  find_by_idempotency_key, get_idempotency, set_idempotency, put_object, delete_object,
}
use send_flow_backend.Delivery.Accept.Idempotency.{
  listed_ids, list_request_message_ids, with_ids, load_existing, load_existing_request_result,
  cache_answer, cached, on_existing, look_up, on_entry, handle_idempotency,
}
use send_flow_backend.Delivery.Accept.Handler.{
  put_answer, seek_answer, rewind, new_id_answer, store_attachment, store_attachments,
  clean_up_object, clean_up_attachments,
}

-- The database without the storage, the quota and the cache.
abbrev pub tables : Db → Db
tables d = record d { objects = []; quota_calls = []; idempotency = [] }

abbrev pub quiet : Preorder Db
quiet = record {
  Rel = λ d e. (tables e ≡ tables d) × (e.quota_calls ≡ d.quota_calls);
  same = λ d. (refl, refl);
  both = λ a b c h k. (k.0 ∙ h.0, k.1 ∙ h.1);
}

-- A statement that only reads.
Keeps-reads :
    {A : Type 0} (env : Env) (op : Db → Result A × Db)
    → ((d : Db) → (op d).1 ≡ d)
    → Keeps quiet (call env op)
Keeps-reads env op h =
    Keeps-call quiet env op (λ d. (ap tables (h d), ap (λ (x : Db). x.quota_calls) (h d)))

pub found_same : {A : Type 0} (o : Option A) (missing : String) (d : Db) → (found o missing d).1 ≡ d
found_same none missing d = refl
found_same (some a) missing d = refl

module _ (p : AcceptPorts) where
  find_by_idempotency_key-Keeps :
      (workspace_id key : String)
      → Keeps quiet (call p.env (find_by_idempotency_key workspace_id key))
  unfolding find_by_idempotency_key
  find_by_idempotency_key-Keeps workspace_id key =
      Keeps-reads p.env _ (λ d. found_same _ request_not_found d)

  listed_ids-Keeps : (ms : List Message) → Keeps quiet (listed_ids p ms)
  listed_ids-Keeps [] = Keeps-throw quiet _
  listed_ids-Keeps (m ∷ ms) = Keeps-return quiet _

  list_request_message_ids-Keeps :
      (workspace_id request_id : String)
      → Keeps quiet (list_request_message_ids p workspace_id request_id)
  unfolding list_request_message_ids list_messages
  list_request_message_ids-Keeps workspace_id request_id =
      Keeps-bind quiet (Keeps-reads p.env _ (λ d. refl)) (λ page. listed_ids-Keeps page.0)

  with_ids-Keeps :
      (r : TransactionalRequest) (n : ℕ) (ids : Result (List String))
      → Keeps quiet (with_ids p r n ids)
  with_ids-Keeps r n (err e) = Keeps-throw quiet _
  with_ids-Keeps r n (ok ids) = Keeps-return quiet _

  load_existing-Keeps :
      (workspace_id hash : String) (n : ℕ) (r : Result TransactionalRequest)
      → Keeps quiet (load_existing p workspace_id hash n r)
  load_existing-Keeps workspace_id hash n (err e) = Keeps-throw quiet _
  load_existing-Keeps workspace_id hash n (ok r) =
      Keeps-if quiet (str_eq r.request_hash hash)
        (Keeps-bind quiet (Keeps-attempt quiet (list_request_message_ids-Keeps workspace_id r.id))
          (with_ids-Keeps r _))
        (Keeps-throw quiet _)

  pub load_existing_request_result-Keeps :
      (workspace_id key hash : String) (n : ℕ)
      → Keeps quiet (load_existing_request_result p workspace_id key hash n)
  unfolding load_existing_request_result
  load_existing_request_result-Keeps workspace_id key hash n =
      Keeps-bind quiet (Keeps-attempt quiet (find_by_idempotency_key-Keeps workspace_id key))
        (load_existing-Keeps workspace_id hash n)

  pub cache_answer-Keeps :
      (workspace_id key hash : String) (a : Accepted)
      → Keeps quiet (cache_answer p workspace_id key hash a)
  unfolding set_idempotency
  cache_answer-Keeps workspace_id key hash a =
      Keeps-if quiet p.has_cache
        (Keeps-ignore_error quiet (Keeps-call quiet p.env _ (λ d. (refl, refl))))
        (Keeps-return quiet tt)

  cached-Keeps :
      (workspace_id key hash : String) (r : TransactionalRequest) (ids : Result (List String))
      → Keeps quiet (cached p workspace_id key hash r ids)
  cached-Keeps workspace_id key hash r (err e) = Keeps-throw quiet _
  cached-Keeps workspace_id key hash r (ok ids) =
      Keeps-then quiet (cache_answer-Keeps workspace_id key hash _) (Keeps-return quiet _)

  on_existing-Keeps :
      (workspace_id key hash : String) (r : Result TransactionalRequest)
      → Keeps quiet (on_existing p workspace_id key hash r)
  on_existing-Keeps workspace_id key hash (err e) =
      Keeps-if quiet (is_error e request_not_found) (Keeps-return quiet _) (Keeps-throw quiet _)
  on_existing-Keeps workspace_id key hash (ok r) =
      Keeps-if quiet (str_eq r.request_hash hash)
        (Keeps-bind quiet (Keeps-attempt quiet (list_request_message_ids-Keeps workspace_id r.id))
          (cached-Keeps workspace_id key hash r))
        (Keeps-throw quiet _)

  look_up-Keeps : (workspace_id key hash : String) → Keeps quiet (look_up p workspace_id key hash)
  unfolding look_up
  look_up-Keeps workspace_id key hash =
      Keeps-bind quiet (Keeps-attempt quiet (find_by_idempotency_key-Keeps workspace_id key))
        (on_existing-Keeps workspace_id key hash)

  on_entry-Keeps :
      (workspace_id key hash : String) (r : Result IdempotencyEntry)
      → Keeps quiet (on_entry p workspace_id key hash r)
  on_entry-Keeps workspace_id key hash (err e) = look_up-Keeps workspace_id key hash
  on_entry-Keeps workspace_id key hash (ok entry) =
      Keeps-if quiet (str_eq entry.payload_hash hash)
        (Keeps-bind quiet
          (load_existing_request_result-Keeps workspace_id key hash entry.accepted_at)
          (λ a. Keeps-return quiet _))
        (Keeps-throw quiet _)

  pub handle_idempotency-Keeps :
      (workspace_id key hash : String) → Keeps quiet (handle_idempotency p workspace_id key hash)
  unfolding handle_idempotency get_idempotency
  handle_idempotency-Keeps workspace_id key hash =
      Keeps-if quiet p.has_cache
        (Keeps-bind quiet
          (Keeps-attempt quiet (
            Keeps-reads p.env (get_idempotency workspace_id key)
              (λ d. found_same _ "cache miss" d)))
          (on_entry-Keeps workspace_id key hash))
        (look_up-Keeps workspace_id key hash)

  seek_answer-Keeps : (r : Result (Unit {0})) → Keeps quiet (seek_answer p r)
  seek_answer-Keeps (ok u) = Keeps-return quiet tt
  seek_answer-Keeps (err e) = Keeps-throw quiet _

  put_answer-Keeps : (r : Result (Unit {0})) → Keeps quiet (put_answer p r)
  put_answer-Keeps (ok u) = Keeps-return quiet tt
  put_answer-Keeps (err e) = Keeps-throw quiet _

  new_id_answer-Keeps : (r : Result String) → Keeps quiet (new_id_answer p r)
  new_id_answer-Keeps (ok id) = Keeps-return quiet id
  new_id_answer-Keeps (err e) = Keeps-throw quiet _

  rewind-Keeps : (content : Option String) → Keeps quiet (rewind p content)
  rewind-Keeps none = Keeps-return quiet tt
  rewind-Keeps (some text) =
      Keeps-bind quiet (Keeps-attempt quiet (Keeps-reads p.env _ (λ d. refl))) seek_answer-Keeps

  store_attachment-Keeps :
      (workspace_id request_id : String) (a : AttachmentStream)
      → Keeps quiet (store_attachment p workspace_id request_id a)
  unfolding store_attachment put_object
  store_attachment-Keeps workspace_id request_id a = Keeps-then quiet (rewind-Keeps a.content) (
      Keeps-bind quiet (Keeps-attempt quiet (Keeps-call quiet p.env _ (λ d. (refl, refl)))) λ r.
        Keeps-then quiet (put_answer-Keeps r) (
          Keeps-bind quiet (Keeps-attempt quiet (Keeps-id_gen quiet p.env)) λ i.
            Keeps-bind quiet (new_id_answer-Keeps i)
              λ id. Keeps-bind quiet (Keeps-clock quiet p.env) λ now. Keeps-return quiet _))

  pub store_attachments-Keeps :
      (workspace_id request_id : String) (l : List AttachmentStream)
      → Keeps quiet (store_attachments p workspace_id request_id l)
  unfolding store_attachments
  store_attachments-Keeps workspace_id request_id [] = Keeps-return quiet _
  store_attachments-Keeps workspace_id request_id (a ∷ rest) =
      Keeps-bind quiet (store_attachment-Keeps workspace_id request_id a) λ m.
        Keeps-bind quiet (store_attachments-Keeps workspace_id request_id rest)
          λ ms. Keeps-return quiet _

  clean_up_object-Keeps : (a : AttachmentManifest) → Keeps quiet (clean_up_object p a)
  unfolding delete_object
  clean_up_object-Keeps a =
      Keeps-if quiet (str_eq a.storage_key "") (Keeps-return quiet tt)
        (Keeps-ignore_error quiet (Keeps-call quiet p.env _ (λ d. (refl, refl))))

  pub clean_up_attachments-Keeps :
      (l : List AttachmentManifest) → Keeps quiet (clean_up_attachments p l)
  unfolding clean_up_attachments
  clean_up_attachments-Keeps [] = Keeps-return quiet tt
  clean_up_attachments-Keeps (a ∷ rest) =
      Keeps-then quiet (clean_up_object-Keeps a) (clean_up_attachments-Keeps rest)
