-- ===== src/Delivery/Accept/Idempotency.antt =====
-- internal/modules/delivery/app/send/accept.go: what a repeated idempotency key answers.
use send_flow_backend.Prelude.{
  ℕ, String, List, [], ◌∷◌, Option, none, some, map, if◌then◌else◌, ◌==◌,
}
use send_flow_backend.Prelude.Text.{str_eq}
use send_flow_backend.Effect.{
  sentinel, is_error, Result, ok, err, M, ◌>>=◌, ◌>>◌, return, throw, attempt, ignore_error, call,
}
use send_flow_backend.Delivery.Message.{Message}
use send_flow_backend.Delivery.Sending.{IdempotencyEntry}
use send_flow_backend.Delivery.Store.{
  Db, TransactionalRequest, message_not_found, request_not_found,
}
use send_flow_backend.Delivery.Listing.{MessageListQuery, list_messages}
use send_flow_backend.Delivery.Accept.Data.{
  max_recipients, Accepted, AcceptPorts, temporarily_unavailable, key_conflict,
}
use send_flow_backend.Delivery.Accept.Rows.{
  find_by_idempotency_key, get_idempotency, set_idempotency,
}

unfoldable pub first_message_id : List String → String
first_message_id [] = ""
first_message_id (id ∷ rest) = id

module _ (p : AcceptPorts) where
  abbrev request_query : String → String → MessageListQuery
  request_query workspace_id request_id = record {
    workspace_id = workspace_id;
    campaign_id = "";
    transactional_request_id = request_id;
    status = "";
    message_type = "";
    mode = "";
    provider = "";
    recipient_email_normalized = "";
    provider_message_id = "";
    recipient_role = "";
    source_api_key_id = "";
    from = none;
    to = none;
    limit = max_recipients;
    cursor = "";
  }

  abbrev pub listed_ids : List Message → M Db (List String)
  listed_ids [] = throw (sentinel message_not_found)
  listed_ids (m ∷ ms) = return (map (λ (x : Message). x.id) (m ∷ ms))

  unfoldable pub list_request_message_ids : String → String → M Db (List String)
  list_request_message_ids workspace_id request_id = do
    page ← call p.env (list_messages (request_query workspace_id request_id))
    listed_ids page.0

  abbrev pub answer_of : TransactionalRequest → List String → ℕ → Accepted
  answer_of r ids accepted_at = record {
    request_id = r.id;
    message_ids = ids;
    status = r.status;
    accepted_at = accepted_at;
  }

  abbrev pub with_ids : TransactionalRequest → ℕ → Result (List String) → M Db Accepted
  with_ids r accepted_at (err e) = throw temporarily_unavailable
  with_ids r accepted_at (ok ids) = return (answer_of r ids accepted_at)

  abbrev pub load_existing : String → String → ℕ → Result TransactionalRequest → M Db Accepted
  load_existing workspace_id hash fallback (err e) = throw temporarily_unavailable
  load_existing workspace_id hash fallback (ok r) =
      if str_eq r.request_hash hash
      then (do
        ids ← attempt (list_request_message_ids workspace_id r.id)
        with_ids r (if r.created_at == 0 then fallback else r.created_at) ids)
      else throw key_conflict

  -- `loadExistingRequestResult`.
  unfoldable pub load_existing_request_result : String → String → String → ℕ → M Db Accepted
  unfolding list_request_message_ids
  load_existing_request_result workspace_id key hash fallback = do
    r ← attempt (call p.env (find_by_idempotency_key workspace_id key))
    load_existing workspace_id hash fallback r

  abbrev pub cache_answer : String → String → String → Accepted → M Db (Unit {0})
  cache_answer workspace_id key hash a =
      if p.has_cache
      then ignore_error (
          call p.env (
            set_idempotency (record {
              workspace_id = workspace_id;
              idempotency_key = key;
              payload_hash = hash;
              request_id = a.request_id;
              message_id = first_message_id a.message_ids;
              status = a.status;
              accepted_at = a.accepted_at;
            })))
      else return tt

  abbrev pub cached :
      String
      → String
      → String
      → TransactionalRequest
      → Result (List String)
      → M Db (Option Accepted)
  cached workspace_id key hash r (err e) = throw temporarily_unavailable
  cached workspace_id key hash r (ok ids) = do
    cache_answer workspace_id key hash (answer_of r ids r.created_at)
    return (some (answer_of r ids r.created_at))

  abbrev pub on_existing :
      String → String → String → Result TransactionalRequest → M Db (Option Accepted)
  on_existing workspace_id key hash (err e) =
      if is_error e request_not_found then return none else throw temporarily_unavailable
  on_existing workspace_id key hash (ok r) =
      if str_eq r.request_hash hash
      then (do
        ids ← attempt (list_request_message_ids workspace_id r.id)
        cached workspace_id key hash r ids)
      else throw key_conflict

  unfoldable pub look_up : String → String → String → M Db (Option Accepted)
  unfolding list_request_message_ids
  look_up workspace_id key hash = do
    r ← attempt (call p.env (find_by_idempotency_key workspace_id key))
    on_existing workspace_id key hash r

  abbrev pub on_entry : String → String → String → Result IdempotencyEntry → M Db (Option Accepted)
  on_entry workspace_id key hash (err e) = look_up workspace_id key hash
  on_entry workspace_id key hash (ok entry) =
      if str_eq entry.payload_hash hash
      then (do
        a ← load_existing_request_result workspace_id key hash entry.accepted_at
        return (some a))
      else throw key_conflict

  -- `handleIdempotency`; `none` where the request is new.
  unfoldable pub handle_idempotency : String → String → String → M Db (Option Accepted)
  unfolding look_up load_existing_request_result
  handle_idempotency workspace_id key hash =
      if p.has_cache
      then (do
        entry ← attempt (call p.env (get_idempotency workspace_id key))
        on_entry workspace_id key hash entry)
      else look_up workspace_id key hash
