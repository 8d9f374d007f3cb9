-- ===== src/Webhooks/Valid.antt =====
-- What the stored deliveries are like: distinct identifiers, and at most four attempts of a delivery
-- that waits for the next.
use send_flow_backend.Prelude.{◌+◌, ◌≤◌, String, ◌≡◌, refl, ◌∙◌, true, List, All}
use send_flow_backend.Prelude.Keys.{Distinct}
use send_flow_backend.Effect.Rules.{Preorder}
use send_flow_backend.Webhooks.{WebhookDelivery}
use send_flow_backend.Webhooks.Store.{Db, is_waiting}

abbrev pub id_of : WebhookDelivery → String
id_of r = r.id

-- A delivery that waits has been tried at most four times.
abbrev pub MayWait : WebhookDelivery → Type 0
MayWait r = is_waiting r.status ≡ true → r.attempt_count + 1 ≤ 5

pub record Valid (rows : List WebhookDelivery) : Type 0 where
  pub distinct : Distinct id_of rows
  pub may_wait : All MayWait rows

-- The deliveries are left as they are.
abbrev pub undelivered : Preorder Db
undelivered = record {
  Rel = λ d e. e.deliveries ≡ d.deliveries;
  same = λ d. refl;
  both = λ a b c h k. k ∙ h;
}
