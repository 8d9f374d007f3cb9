-- ===== src/Webhooks/Store.antt =====
-- The tables of webhooks and the statements of webhooks/infrastructure/postgres/repository.go. `id` is
-- a primary key, so a statement on one row is one on the first that matches. `NOW()` is an argument.
use send_flow_backend.Prelude.{
  ℕ, suc, ◌-◌, String, Bool, true, false, ◌&&◌, not, List, [], ◌∷◌, ◌++◌, map, Option, none, some,
  if◌then◌else◌, leb, ◌==◌, find?, modify_first, any, filter, take,
}
use send_flow_backend.Prelude.Text.{str_eq}
use send_flow_backend.Effect.{Error, sentinel, Result, ok, err}
use send_flow_backend.Events.{OutboxEvent}
use send_flow_backend.Webhooks.{
  ConfigStatus, DeliveryStatus, WebhookConfig, WebhookDelivery, WebhookDeliveryAttempt,
  DeliveryResult, Network, config_not_found, delivery_not_found, rotate_conflict, retry_conflict,
  sanitize_error, sanitize_headers,
}

-- What the deliverer is asked to post.
pub record DeliveryHttpRequest : Type 0 where
  pub url : String
  pub body : String
  pub signature_value : String
  pub timestamp_value : String
  pub event_id_value : String

-- The tables, and what was posted.
pub record Db : Type 0 where
  pub configs : List WebhookConfig
  pub deliveries : List WebhookDelivery
  pub attempts : List WebhookDeliveryAttempt
  pub outbox : List OutboxEvent
  pub posted : List DeliveryHttpRequest

abbrev pub is_active : ConfigStatus → Bool
is_active ConfigStatus.active = true
is_active _ = false

abbrev pub found_or : {A : Type 0} → Option A → String → Db → Result A × Db
found_or none missing d = (err (sentinel missing), d)
found_or (some a) missing d = (ok a, d)

abbrev pub is_config : String → String → WebhookConfig → Bool
is_config workspace_id id c = str_eq c.id id && str_eq c.workspace_id workspace_id

-- A query of the read pool, which shows the tables through the view.
abbrev pub shown : {A : Type 0} → (Db → Db) → (Db → Result A × Db) → Db → Result A × Db
shown view query d = ((query (view d)).0, d)

unfoldable pub find_config : String → String → Db → Result WebhookConfig × Db
find_config workspace_id id d =
    found_or (find? (is_config workspace_id id) d.configs) config_not_found d

-- `subscriptions_json @> event_type`, in the order of creation.
abbrev pub is_subscribed : String → String → WebhookConfig → Bool
is_subscribed workspace_id event_type c =
    str_eq c.workspace_id workspace_id
    && is_active c.status
    && any (str_eq event_type) c.subscriptions

abbrev pub insert_config : WebhookConfig → List WebhookConfig → List WebhookConfig
insert_config c [] = c ∷ []
insert_config c (e ∷ es) =
    if leb c.created_at e.created_at then c ∷ e ∷ es else e ∷ insert_config c es

abbrev pub oldest_first : List WebhookConfig → List WebhookConfig
oldest_first [] = []
oldest_first (c ∷ cs) = insert_config c (oldest_first cs)

unfoldable pub list_subscribed : String → String → Db → Result (List WebhookConfig) × Db
list_subscribed workspace_id event_type d =
    (ok (oldest_first (filter (is_subscribed workspace_id event_type) d.configs)), d)

-- `WHERE id = ... AND workspace_id = ... AND version = ...`; a version that is written is at least 1.
abbrev pub is_version : WebhookConfig → WebhookConfig → Bool
is_version c row = is_config c.workspace_id c.id row && row.version == c.version - 1

abbrev pub set_config : WebhookConfig → WebhookConfig → WebhookConfig
set_config c row = record row {
  name = c.name;
  target_url = c.target_url;
  status = c.status;
  subscriptions = c.subscriptions;
  secret_hash = c.secret_hash;
  secret_hint = c.secret_hint;
  version = c.version;
  updated_at = c.updated_at;
  disabled_at = c.disabled_at;
}

abbrev pub written : Option Error → Bool → String → Db → List WebhookConfig → Result (Unit {0}) × Db
written (some e) hit missing d rows = (err e, d)
written none false missing d rows = (err (sentinel missing), d)
written none true missing d rows = (ok tt, record d { configs = rows })

-- The server's refusal, as of a name that is taken, is an argument.
unfoldable pub create_config :
    (WebhookConfig → List WebhookConfig → Option Error)
    → WebhookConfig
    → Db
    → Result (Unit {0}) × Db
create_config refusal c d =
    written (refusal c d.configs) true config_not_found d (d.configs ++ c ∷ [])

unfoldable pub update_config :
    (WebhookConfig → List WebhookConfig → Option Error)
    → WebhookConfig
    → Db
    → Result (Unit {0}) × Db
update_config refusal c d =
    written (refusal c d.configs) (any (is_version c) d.configs) rotate_conflict d
      (modify_first (is_version c) (set_config c) d.configs)

abbrev pub is_active_config : String → String → WebhookConfig → Bool
is_active_config workspace_id id c = is_config workspace_id id c && is_active c.status

abbrev pub disabled_at_time : ℕ → WebhookConfig → WebhookConfig
disabled_at_time now c = record c {
  status = ConfigStatus.disabled;
  disabled_at = some now;
  updated_at = now;
  version = suc c.version;
}

unfoldable pub disable_config : String → String → ℕ → Db → Result (Unit {0}) × Db
disable_config workspace_id id now d =
    written none (any (is_active_config workspace_id id) d.configs) config_not_found d
      (modify_first (is_active_config workspace_id id) (disabled_at_time now) d.configs)

abbrev pub is_delivery : String → String → WebhookDelivery → Bool
is_delivery workspace_id id r = str_eq r.id id && str_eq r.workspace_id workspace_id

unfoldable pub find_delivery : String → String → Db → Result WebhookDelivery × Db
find_delivery workspace_id id d =
    found_or (find? (is_delivery workspace_id id) d.deliveries) delivery_not_found d

abbrev pub same_event : WebhookDelivery → WebhookDelivery → Bool
same_event x r = str_eq r.webhook_id x.webhook_id && str_eq r.source_event_id x.source_event_id

-- `ON CONFLICT (webhook_id, source_event_id) DO NOTHING`; another refusal is an argument.
abbrev pub inserted_once : Bool → Option Error → WebhookDelivery → Db → Result (Unit {0}) × Db
inserted_once true refusal x d = (ok tt, d)
inserted_once false (some e) x d = (err e, d)
inserted_once false none x d = (ok tt, record d { deliveries = d.deliveries ++ x ∷ [] })

unfoldable pub create_delivery :
    (WebhookDelivery → List WebhookDelivery → Option Error)
    → WebhookDelivery
    → Db
    → Result (Unit {0}) × Db
create_delivery refusal x d =
    inserted_once (any (same_event x) d.deliveries) (refusal x d.deliveries) x d

-- `WHERE id = ...` and a test of the row.
abbrev pub write_delivery :
    (WebhookDelivery → Bool)
    → String
    → (WebhookDelivery → WebhookDelivery)
    → Db
    → Result (Unit {0}) × Db
write_delivery test missing change d =
    if any test d.deliveries
    then (ok tt, record d { deliveries = modify_first test change d.deliveries })
    else (err (sentinel missing), d)

abbrev pub has_id : String → WebhookDelivery → Bool
has_id id r = str_eq r.id id

-- What `MarkDelivering` and `ClaimPendingDeliveries` set.
abbrev pub taken : ℕ → WebhookDelivery → WebhookDelivery
taken now r = record r {
  status = DeliveryStatus.delivering;
  attempt_count = suc r.attempt_count;
  last_attempt_at = some now;
  updated_at = now;
}

unfoldable pub mark_delivering : String → ℕ → Db → Result (Unit {0}) × Db
mark_delivering id now = write_delivery (has_id id) delivery_not_found (taken now)

abbrev pub with_result :
    Network → DeliveryStatus → String → DeliveryResult → ℕ → WebhookDelivery → WebhookDelivery
with_result net status e r now row = record row {
  status = status;
  last_status_code = some r.status_code;
  last_error = e;
  request_headers = [];
  response_headers = sanitize_headers net r.response_headers;
  updated_at = now;
}

unfoldable pub mark_succeeded : Network → String → DeliveryResult → ℕ → Db → Result (Unit {0}) × Db
mark_succeeded net id r now =
    write_delivery (has_id id) delivery_not_found
      (with_result net DeliveryStatus.succeeded "" r now)

unfoldable pub mark_failed : Network → String → DeliveryResult → ℕ → Db → Result (Unit {0}) × Db
mark_failed net id r now =
    write_delivery (has_id id) delivery_not_found
      (with_result net DeliveryStatus.failed (sanitize_error net r.error) r now)

abbrev pub can_be_scheduled : DeliveryStatus → Bool
can_be_scheduled DeliveryStatus.failed = true
can_be_scheduled DeliveryStatus.delivering = true
can_be_scheduled _ = false

abbrev pub rescheduled : ℕ → ℕ → WebhookDelivery → WebhookDelivery
rescheduled next now r = record r {
  status = DeliveryStatus.retry_scheduled;
  next_attempt_at = some next;
  updated_at = now;
}

unfoldable pub schedule_retry : String → ℕ → ℕ → Db → Result (Unit {0}) × Db
schedule_retry id next now =
    write_delivery (λ r. has_id id r && can_be_scheduled r.status) retry_conflict
      (rescheduled next now)

abbrev pub is_waiting : DeliveryStatus → Bool
is_waiting DeliveryStatus.pending = true
is_waiting DeliveryStatus.retry_scheduled = true
is_waiting _ = false

abbrev pub reached : Option ℕ → ℕ → Bool
reached none now = true
reached (some t) now = leb t now

abbrev pub is_due : ℕ → WebhookDelivery → Bool
is_due now r = is_waiting r.status && reached r.next_attempt_at now

abbrev pub insert_older : WebhookDelivery → List WebhookDelivery → List WebhookDelivery
insert_older r [] = r ∷ []
insert_older r (x ∷ xs) =
    if leb r.created_at x.created_at then r ∷ x ∷ xs else x ∷ insert_older r xs

-- The due rows by their age; `locked` are the rows that another transaction holds.
abbrev pub sorted_due : (WebhookDelivery → Bool) → ℕ → List WebhookDelivery → List WebhookDelivery
sorted_due locked now [] = []
sorted_due locked now (r ∷ rs) =
    if is_due now r && not (locked r)
    then insert_older r (sorted_due locked now rs)
    else sorted_due locked now rs

abbrev pub is_picked : List WebhookDelivery → WebhookDelivery → Bool
is_picked picked r = any (λ x. str_eq r.id x.id) picked

abbrev pub take_picked : ℕ → List WebhookDelivery → List WebhookDelivery → List WebhookDelivery
take_picked now picked rows = map (λ r. if is_picked picked r then taken now r else r) rows

-- `ClaimPendingDeliveries`; `RETURNING` gives the rows in the order of the table.
unfoldable pub claim_pending_deliveries :
    (WebhookDelivery → Bool) → ℕ → ℕ → Db → Result (List WebhookDelivery) × Db
claim_pending_deliveries locked limit now d =
    let picked = take limit (sorted_due locked now d.deliveries) in
    (
      ok (map (taken now) (filter (is_picked picked) d.deliveries)),
      record d { deliveries = take_picked now picked d.deliveries },
    )

abbrev pub attempted : Option Error → WebhookDeliveryAttempt → Db → Result (Unit {0}) × Db
attempted (some e) a d = (err e, d)
attempted none a d = (ok tt, record d { attempts = d.attempts ++ a ∷ [] })

unfoldable pub create_attempt :
    (WebhookDeliveryAttempt → List WebhookDeliveryAttempt → Option Error)
    → WebhookDeliveryAttempt
    → Db
    → Result (Unit {0}) × Db
create_attempt refusal a d = attempted (refusal a d.attempts) a d

unfoldable pub save : OutboxEvent → Db → Result (Unit {0}) × Db
save e d = (ok tt, record d { outbox = d.outbox ++ e ∷ [] })
