-- ===== src/Webhooks/Tried.antt =====
-- Which deliveries a claim takes (`ClaimPendingDeliveries`).
use send_flow_backend.Prelude.{
  ℕ, ◌≡◌, sym, ap, ◌∙◌, subst, Bool, true, false, ◌&&◌, not, List, [], ◌∷◌, some, find?, All, take,
  Bool-cases, inl, inr, leb, and_true,
}
use send_flow_backend.Prelude.Text.{str_eq, eq_iff}
use send_flow_backend.Prelude.Keys.{All-map_impl, All-take, All-find?, each_alone}
use send_flow_backend.Webhooks.{DeliveryStatus, WebhookDelivery}
use send_flow_backend.Webhooks.Store.{is_waiting, is_due, insert_older, sorted_due, is_picked}
use send_flow_backend.Webhooks.Valid.{id_of, Valid}

-- What holds of all rows holds of those that are due.
abbrev IsTaken : ℕ → (WebhookDelivery → Type 0) → WebhookDelivery → Type 0
IsTaken now P x = (is_due now x ≡ true) × P x

insert_older-All :
    (P : WebhookDelivery → Type 0) (r : WebhookDelivery) (xs : List WebhookDelivery)
    → P r
    → All P xs
    → All P (insert_older r xs)
insert_older-All P r [] h k = (h, tt)
insert_older-All P r (x ∷ xs) h (k, ks) = elim (Bool-cases (leb r.created_at x.created_at)) [
  | inl e ↦ rw e (h, (k, ks))
  | inr e ↦ rw e (k, insert_older-All P r xs h ks)
]

sorted_due-All :
    (P : WebhookDelivery → Type 0) (locked : WebhookDelivery → Bool) (now : ℕ)
    (rows : List WebhookDelivery)
    → All P rows
    → All (IsTaken now P) (sorted_due locked now rows)
sorted_due-All P locked now [] h = tt
sorted_due-All P locked now (r ∷ rs) (h, hs) = elim (Bool-cases (is_due now r && not (locked r))) [
  | inl e ↦ rw e (
      insert_older-All (IsTaken now P) r (sorted_due locked now rs) ((and_true e).0, h)
        (sorted_due-All P locked now rs hs))
  | inr e ↦ rw e (sorted_due-All P locked now rs hs)
]

-- Rows of which one has the identifier of a row that is alone with it.
picked_waits :
    (now : ℕ) (r : WebhookDelivery) (picked : List WebhookDelivery)
    → All (IsTaken now (λ x. x.id ≡ r.id → x ≡ r)) picked
    → is_picked picked r ≡ true
    → is_waiting r.status ≡ true
picked_waits now r [] h e = cc
picked_waits now r (x ∷ xs) ((due, alone), hs) e = elim (Bool-cases (str_eq r.id x.id)) [
  | inl q ↦
      subst (λ (y : WebhookDelivery). is_waiting y.status ≡ true)
        (alone (sym ((eq_iff r.id x.id).0 q))) (and_true due).0
  | inr q ↦ picked_waits now r xs hs (rw q at e)
]

module _ (locked : WebhookDelivery → Bool) (limit now : ℕ) (rows : List WebhookDelivery) where
  abbrev pub chosen : List WebhookDelivery
  chosen = take limit (sorted_due locked now rows)

  chosen-waiting :
      Valid rows → All (λ r. is_picked chosen r ≡ true → is_waiting r.status ≡ true) rows
  chosen-waiting v =
      All-map_impl (λ r. All (λ x. x.id ≡ r.id → x ≡ r) rows)
        (λ r. is_picked chosen r ≡ true → is_waiting r.status ≡ true)
        (λ r alone. picked_waits now r chosen (
          All-take (IsTaken now (λ x. x.id ≡ r.id → x ≡ r)) limit (sorted_due locked now rows)
            (sorted_due-All (λ x. x.id ≡ r.id → x ≡ r) locked now rows alone)))
        rows (each_alone id_of rows v.distinct)

  -- A row that is being delivered is not chosen.
  pub delivering_not_chosen :
      Valid rows
      → (t : WebhookDelivery → Bool) {x : WebhookDelivery} → find? t rows ≡ some x
      → x.status ≡ DeliveryStatus.delivering
      → is_picked chosen x ≡ false
  delivering_not_chosen v t {x} h busy = elim (Bool-cases (is_picked chosen x)) [
    | inl e ↦ absurd (
        clash (
          sym (ap is_waiting busy)
          ∙ All-find? (λ r. is_picked chosen r ≡ true → is_waiting r.status ≡ true) t rows
              (chosen-waiting v) h e))
    | inr e ↦ e
  ]
    where
      clash : false ≡ true → ⊥
      clash k = cc
