-- ===== src/Delivery/Accept/Rows.antt =====
-- The statements that the acceptance of a request runs (delivery/infrastructure/postgres): requests,
-- attachments and the insertion of messages; and its use of the object storage and of the cache
-- (delivery/infrastructure/redis/cache.go).
use send_flow_backend.Prelude.{
  ℕ, String, Bool, false, ◌&&◌, ◌||◌, List, [], ◌∷◌, ◌++◌, Option, none, some, if◌then◌else◌, find?,
  any,
}
use send_flow_backend.Prelude.Text.{str_eq}
use send_flow_backend.Effect.{Result, ok, err}
use send_flow_backend.Delivery.Sending.{
  AttachmentManifest, StoredObject, QuotaCall, IdempotencyEntry,
}
use send_flow_backend.Delivery.Store.{Db, TransactionalRequest, found, request_not_found}
use send_flow_backend.Delivery.Accept.Data.{key_conflict}

abbrev key_eq : Option String → String → Bool
key_eq none key = false
key_eq (some k) key = str_eq k key

abbrev pub has_key : String → String → TransactionalRequest → Bool
has_key workspace_id key r = str_eq r.workspace_id workspace_id && key_eq r.idempotency_key key

-- No row is taken for another with the same key by the partial unique index.
abbrev same_key : String → Option String → TransactionalRequest → Bool
same_key workspace_id none r = false
same_key workspace_id (some key) r = has_key workspace_id key r

-- A row that the primary key or the index of the idempotency keys refuses.
abbrev pub is_taken : TransactionalRequest → List TransactionalRequest → Bool
is_taken r rows =
    any (λ row. str_eq row.id r.id || same_key r.workspace_id r.idempotency_key row) rows

-- `Create` stores the columns but the three counters, which start at 0.
unfoldable pub create_request : TransactionalRequest → Db → Result (Unit {0}) × Db
create_request r d =
    if is_taken r d.requests
    then (err key_conflict, d)
    else (ok tt, record d { requests = d.requests ++ r ∷ [] })

-- `FindByIdempotencyKey` selects nine columns; the other fields keep Go's zero values.
abbrev pub selected : TransactionalRequest → TransactionalRequest
selected r = record {
  id = r.id;
  workspace_id = r.workspace_id;
  idempotency_key = r.idempotency_key;
  status = r.status;
  request_payload = r.request_payload;
  mode = "";
  subject = "";
  sender_name = "";
  source_api_key_id = "";
  request_hash = "";
  total_recipients = 0;
  recipient_terminal_total = 0;
  recipient_success_total = 0;
  recipient_failure_total = 0;
  created_at = r.created_at;
  completed_at = r.completed_at;
  failed_at = r.failed_at;
  updated_at = r.updated_at;
}

abbrev select : Option TransactionalRequest → Option TransactionalRequest
select none = none
select (some r) = some (selected r)

unfoldable pub find_by_idempotency_key : String → String → Db → Result TransactionalRequest × Db
find_by_idempotency_key workspace_id key d =
    found (select (find? (has_key workspace_id key) d.requests)) request_not_found d

unfoldable pub create_attachments : List AttachmentManifest → Db → Result (Unit {0}) × Db
create_attachments attachments d = (ok tt, record d { attachments = d.attachments ++ attachments })

unfoldable pub put_object : StoredObject → Db → Result (Unit {0}) × Db
put_object o d = (ok tt, record d { objects = d.objects ++ o ∷ [] })

abbrev without_key : String → List StoredObject → List StoredObject
without_key key [] = []
without_key key (o ∷ rest) =
    if str_eq o.key key then without_key key rest else o ∷ without_key key rest

unfoldable pub delete_object : String → Db → Result (Unit {0}) × Db
delete_object key d = (ok tt, record d { objects = without_key key d.objects })

abbrev is_entry : String → String → IdempotencyEntry → Bool
is_entry workspace_id key e = str_eq e.workspace_id workspace_id && str_eq e.idempotency_key key

-- A miss is an error; an entry that has expired is a fault of the call.
unfoldable pub get_idempotency : String → String → Db → Result IdempotencyEntry × Db
get_idempotency workspace_id key d =
    found (find? (is_entry workspace_id key) d.idempotency) "cache miss" d

-- The newest entry of a key is the one that is found.
unfoldable pub set_idempotency : IdempotencyEntry → Db → Result (Unit {0}) × Db
set_idempotency e d = (ok tt, record d { idempotency = e ∷ d.idempotency })

abbrev log_quota : QuotaCall → Db → Db
log_quota c d = record d { quota_calls = d.quota_calls ++ c ∷ [] }

-- The enforcer's answer to a request for units; it consumes them if it answers no error.
abbrev pub consumed : QuotaCall → Db → Result (Unit {0}) → Result (Unit {0}) × Db
consumed c d (ok _) = (ok tt, log_quota c d)
consumed c d (err e) = (err e, d)

unfoldable pub check_and_consume :
    (List QuotaCall → String → String → ℕ → Result (Unit {0}))
    → String
    → String
    → ℕ
    → Db
    → Result (Unit {0}) × Db
check_and_consume enforcer workspace_id api_key_id units d =
    consumed (QuotaCall.consume workspace_id api_key_id units) d
      (enforcer d.quota_calls workspace_id api_key_id units)

-- That the enforcer was asked to refund; what it answers is logged and dropped.
unfoldable pub ask_refund : String → String → ℕ → Db → Result (Unit {0}) × Db
ask_refund workspace_id api_key_id units d =
    (ok tt, log_quota (QuotaCall.refund workspace_id api_key_id units) d)
