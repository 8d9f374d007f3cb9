-- ===== src/Webhooks/Reads.antt =====
-- The reads of webhooks: `Execute` of app/delivery/list.go, app/delivery/get.go and
-- app/config/list.go, and the queries of infrastructure/postgres/repository.go that they run. Rows
-- that the `ORDER BY` does not tell apart come in the table's order.
use send_flow_backend.Prelude.{
  ℕ, zero, suc, ◌+◌, String, Bool, true, false, ◌&&◌, List, [], ◌∷◌, Option, none, some,
  if◌then◌else◌, leb, ltb, find?, filter, length, take,
}
use send_flow_backend.Prelude.Text.{str_eq}
use send_flow_backend.Prelude.Order.{is_lt}
use send_flow_backend.Effect.{Result, ok, err, M, ◌>>=◌, ◌>>◌, return, lift, attempt, call}
use send_flow_backend.Webhooks.{
  DeliveryStatus, WebhookConfig, WebhookDelivery, WebhookDeliveryAttempt,
}
use send_flow_backend.Webhooks.Store.{Db, shown, find_delivery}
use send_flow_backend.Webhooks.Deliver.{WebhookPorts}
use send_flow_backend.Webhooks.Config.{may_manage}
use Prim.Native.Nat.{compare as compare_ℕ}
use Prim.Native.String.{compare, then as or_else_by}

-- The limit is a Go integer that is not negative.
pub record DeliveryFilter : Type 0 where
  pub webhook_id : String
  pub status : String
  pub event_type : String
  pub from : Option ℕ
  pub to : Option ℕ
  pub limit : ℕ
  pub cursor : String

abbrev status_text : DeliveryStatus → String
status_text DeliveryStatus.pending = "pending"
status_text DeliveryStatus.delivering = "delivering"
status_text DeliveryStatus.succeeded = "succeeded"
status_text DeliveryStatus.failed = "failed"
status_text DeliveryStatus.retry_scheduled = "retry_scheduled"

abbrev is_wanted : String → String → Bool
is_wanted wanted value = if str_eq wanted "" then true else str_eq value wanted

abbrev is_since : Option ℕ → ℕ → Bool
is_since none t = true
is_since (some from) t = leb from t

abbrev is_until : Option ℕ → ℕ → Bool
is_until none t = true
is_until (some to) t = leb t to

-- The conditions but the cursor's.
unfoldable pub meets_filter : String → DeliveryFilter → WebhookDelivery → Bool
meets_filter workspace_id f r =
    str_eq r.workspace_id workspace_id
    && is_wanted f.webhook_id r.webhook_id
    && is_wanted f.status (status_text r.status)
    && is_wanted f.event_type r.source_event_type
    && is_since f.from r.created_at
    && is_until f.to r.created_at

-- `(created_at, id) < (created_at, id)`.
unfoldable pub stands_before : WebhookDelivery → WebhookDelivery → Bool
stands_before r x = is_lt (or_else_by (compare_ℕ r.created_at x.created_at) (compare r.id x.id))

abbrev pub stands_after_cursor : Option WebhookDelivery → WebhookDelivery → Bool
unfolding stands_before
stands_after_cursor none r = false
stands_after_cursor (some c) r = stands_before r c

unfoldable pub passes_cursor : String → List WebhookDelivery → WebhookDelivery → Bool
unfolding stands_before
passes_cursor cursor rows r =
    if str_eq cursor "" then true else stands_after_cursor (find? (λ c. str_eq c.id cursor) rows) r

abbrev pub insert_latest : WebhookDelivery → List WebhookDelivery → List WebhookDelivery
insert_latest r [] = r ∷ []
insert_latest r (x ∷ xs) =
    if ltb r.created_at x.created_at then x ∷ insert_latest r xs else r ∷ x ∷ xs

-- The rows that pass the test, by `created_at DESC`.
abbrev pub latest : (WebhookDelivery → Bool) → List WebhookDelivery → List WebhookDelivery
latest test [] = []
latest test (r ∷ rs) = if test r then insert_latest r (latest test rs) else latest test rs

abbrev pub page_limit : ℕ → ℕ
page_limit limit = if ltb 0 limit && leb limit 100 then limit else 50

-- `deliveries[n].ID`, which is asked for where the list is longer than that.
abbrev pub id_at : ℕ → List WebhookDelivery → String
id_at n [] = ""
id_at zero (r ∷ rs) = r.id
id_at (suc n) (r ∷ rs) = id_at n rs

abbrev pub page_of : ℕ → List WebhookDelivery → List WebhookDelivery × String
page_of limit rows =
    if ltb limit (length rows) then (take limit rows, id_at limit rows) else (rows, "")

-- The rows of the query.
unfoldable pub selected : String → DeliveryFilter → Db → List WebhookDelivery
unfolding meets_filter passes_cursor
selected workspace_id f d =
    latest (λ r. meets_filter workspace_id f r && passes_cursor f.cursor d.deliveries r)
      d.deliveries

unfoldable pub list_deliveries_of :
    String → DeliveryFilter → Db → Result (List WebhookDelivery × String) × Db
unfolding selected
list_deliveries_of workspace_id f d = (
  ok (page_of (page_limit f.limit) (take (page_limit f.limit + 1) (selected workspace_id f d))),
  d,
)

abbrev pub insert_attempt :
    WebhookDeliveryAttempt → List WebhookDeliveryAttempt → List WebhookDeliveryAttempt
insert_attempt a [] = a ∷ []
insert_attempt a (b ∷ bs) =
    if leb a.attempt_number b.attempt_number then a ∷ b ∷ bs else b ∷ insert_attempt a bs

abbrev pub by_number : List WebhookDeliveryAttempt → List WebhookDeliveryAttempt
by_number [] = []
by_number (a ∷ as') = insert_attempt a (by_number as')

unfoldable pub list_by_delivery : String → Db → Result (List WebhookDeliveryAttempt) × Db
list_by_delivery id d = (ok (by_number (filter (λ a. str_eq a.delivery_id id) d.attempts)), d)

abbrev pub insert_latest_config : WebhookConfig → List WebhookConfig → List WebhookConfig
insert_latest_config c [] = c ∷ []
insert_latest_config c (x ∷ xs) =
    if ltb c.created_at x.created_at then x ∷ insert_latest_config c xs else c ∷ x ∷ xs

abbrev pub latest_configs : List WebhookConfig → List WebhookConfig
latest_configs [] = []
latest_configs (c ∷ cs) = insert_latest_config c (latest_configs cs)

unfoldable pub list_configs_of : String → Db → Result (List WebhookConfig) × Db
list_configs_of workspace_id d =
    (ok (latest_configs (filter (λ c. str_eq c.workspace_id workspace_id) d.configs)), d)

-- A list that is nil where its query failed.
abbrev pub read_or_empty : {A : Type 0} → Result (List A) → List A
read_or_empty (ok xs) = xs
read_or_empty (err e) = []

module _ (p : WebhookPorts) where
  unfoldable pub list_deliveries :
      String → String → DeliveryFilter → M Db (List WebhookDelivery × String)
  list_deliveries workspace_id user_id f = do
    lift (p.require_permission workspace_id user_id "webhook.delivery.read")
    call p.env (shown p.read_pool (list_deliveries_of workspace_id f))

  -- The delivery with its attempts.
  unfoldable pub get_delivery :
      String → String → String → M Db (WebhookDelivery × List WebhookDeliveryAttempt)
  get_delivery workspace_id user_id id = do
    lift (p.require_permission workspace_id user_id "webhook.delivery.read")
    r ← call p.env (shown p.read_pool (find_delivery workspace_id id))
    attempts ← attempt (call p.env (shown p.read_pool (list_by_delivery id)))
    return (r, read_or_empty attempts)

  unfoldable pub list_configs : String → String → M Db (List WebhookConfig)
  list_configs workspace_id user_id = do
    may_manage p workspace_id user_id
    call p.env (shown p.read_pool (list_configs_of workspace_id))
