-- ===== src/Webhooks/Skipped.antt =====
-- The cursor of a page of deliveries (`ListByWorkspace` of infrastructure/postgres/repository.go).
use send_flow_backend.Prelude.{
  ℕ, zero, suc, ◌+◌, String, ◌≡◌, ◌≢◌, refl, sym, ap, ◌∙◌, subst, Bool, true, false, ◌&&◌, List, [],
  ◌∷◌, Option, none, some, All, take, length, find?, ltb, Bool-cases, inl, inr, arith, and_true,
}
use send_flow_backend.Prelude.Text.{str_eq, eq_iff}
use send_flow_backend.Prelude.Keys.{
  All-of_each, All-map_impl, All-both, All-take, Distinct, only_one,
}
use send_flow_backend.Prelude.Order.{compare_self, number-Compares, text-Compares}
use send_flow_backend.Prelude.Search.{find?-test}
use send_flow_backend.Effect.{ok}
use send_flow_backend.Webhooks.{WebhookDelivery}
use send_flow_backend.Webhooks.Store.{Db}
use send_flow_backend.Webhooks.Reads.{
  DeliveryFilter, meets_filter, stands_before, stands_after_cursor, passes_cursor, insert_latest,
  latest, page_limit, id_at, page_of, selected, list_deliveries_of,
}
use send_flow_backend.Webhooks.Valid.{id_of}

stands_before_irrefl : (r : WebhookDelivery) → stands_before r r ≡ false
unfolding stands_before
stands_before_irrefl r =
    rw (compare_self number-Compares r.created_at, compare_self text-Compares r.id) refl

insert_latest-All :
    (P : WebhookDelivery → Type 0) (r : WebhookDelivery) (xs : List WebhookDelivery)
    → P r
    → All P xs
    → All P (insert_latest r xs)
insert_latest-All P r [] h k = (h, tt)
insert_latest-All P r (x ∷ xs) h (k, ks) = elim (Bool-cases (ltb r.created_at x.created_at)) [
  | inl e ↦ rw e (k, insert_latest-All P r xs h ks)
  | inr e ↦ rw e (h, (k, ks))
]

latest-All :
    (P : WebhookDelivery → Type 0) (test : WebhookDelivery → Bool) (rows : List WebhookDelivery)
    → All (λ r. test r ≡ true → P r) rows
    → All P (latest test rows)
latest-All P test [] h = tt
latest-All P test (r ∷ rs) (h, hs) = elim (Bool-cases (test r)) [
  | inl e ↦ rw e (insert_latest-All P r (latest test rs) (h e) (latest-All P test rs hs))
  | inr e ↦ rw e (latest-All P test rs hs)
]

insert_latest-Distinct :
    (r : WebhookDelivery) (xs : List WebhookDelivery)
    → All (λ x. x.id ≢ r.id) xs
    → Distinct id_of xs
    → Distinct id_of (insert_latest r xs)
insert_latest-Distinct r [] a d = (tt, tt)
insert_latest-Distinct r (x ∷ xs) (a, as') (d, ds) =
    elim (Bool-cases (ltb r.created_at x.created_at)) [
      | inl e ↦ rw e (
        insert_latest-All (λ y. y.id ≢ x.id) r xs (λ q. a (sym q)) d,
        insert_latest-Distinct r xs as' ds,
      )
      | inr e ↦ rw e ((a, as'), (d, ds))
    ]

latest-Distinct :
    (test : WebhookDelivery → Bool) (rows : List WebhookDelivery)
    → Distinct id_of rows
    → Distinct id_of (latest test rows)
latest-Distinct test [] d = tt
latest-Distinct test (r ∷ rs) (d, ds) = elim (Bool-cases (test r)) [
  | inl e ↦ rw e (
      insert_latest-Distinct r (latest test rs)
        (latest-All (λ x. x.id ≢ r.id) test rs
          (All-map_impl (λ x. x.id ≢ r.id) (λ x. test x ≡ true → x.id ≢ r.id) (λ x h _. h) rs d))
        (latest-Distinct test rs ds))
  | inr e ↦ rw e (latest-Distinct test rs ds)
]

-- The first row that a page has no room for.
record Left (P : WebhookDelivery → Type 0) (z : ℕ) (rows : List WebhookDelivery) : Type 0 where
  row : WebhookDelivery
  named : row.id ≡ id_at z (take (suc z) rows)
  holds : P row
  not_on_page : All (λ r. r.id ≢ row.id) (take z (take (suc z) rows))

left :
    (P : WebhookDelivery → Type 0) (z : ℕ) (rows : List WebhookDelivery)
    → All P rows
    → Distinct id_of rows
    → ltb z (length (take (suc z) rows)) ≡ true
    → Left P z rows
left P z [] h d l = absurd (ground arith)
left P zero (r ∷ rs) (h, hs) d l = record { row = r; named = refl; holds = h; not_on_page = tt }
left P (suc z) (r ∷ rs) (h, hs) (d, ds) l =
    let rest : Left (λ x. P x × (x.id ≢ r.id)) z rs =
      left (λ x. P x × (x.id ≢ r.id)) z rs (All-both P (λ x. x.id ≢ r.id) rs hs d) ds
        (ground arith) in
    record {
      row = rest.row;
      named = rest.named;
      holds = rest.holds.0;
      not_on_page = (λ q. rest.holds.1 (sym q), rest.not_on_page);
    }

module _ (workspace_id : String) (f : DeliveryFilter) (d : Db)
    (distinct : Distinct id_of d.deliveries) where
  -- No row that a cursor leads to is the cursor's.
  not_selected :
      (cursor : String)
      → str_eq cursor "" ≡ false
      → All (λ r. r.id ≢ cursor) (selected workspace_id (record f { cursor = cursor }) d)
  unfolding selected passes_cursor meets_filter stands_before
  not_selected cursor nonblank =
      latest-All (λ r. r.id ≢ cursor)
        (λ r. meets_filter workspace_id f r && passes_cursor cursor d.deliveries r) d.deliveries
        (go (find? (λ c. str_eq c.id cursor) d.deliveries) refl)
    where
      passed :
          (o : Option WebhookDelivery) (r : WebhookDelivery)
          → find? (λ c. str_eq c.id cursor) d.deliveries ≡ o
          → (meets_filter workspace_id f r && passes_cursor cursor d.deliveries r) ≡ true
          → stands_after_cursor o r ≡ true
      passed o r e h =
          let after : passes_cursor cursor d.deliveries r ≡ true =
            (and_true {a = meets_filter workspace_id f r} h).1 in
          rw (nonblank, e) at after

      clash : false ≡ true → ⊥
      clash h = cc

      go :
          (o : Option WebhookDelivery)
          → find? (λ c. str_eq c.id cursor) d.deliveries ≡ o
          → All
              (λ r.
                (meets_filter workspace_id f r && passes_cursor cursor d.deliveries r) ≡ true
                → r.id ≢ cursor)
              d.deliveries
      go none e = All-of_each _ (λ r h. absurd (clash (passed none r e h))) d.deliveries
      go (some c) e =
          All-map_impl (λ r. r.id ≡ c.id → r ≡ c)
            (λ r.
              (meets_filter workspace_id f r && passes_cursor cursor d.deliveries r) ≡ true
              → r.id ≢ cursor)
            (λ r u h q.
              let same : r ≡ c = u (
                q
                ∙ sym (
                    (eq_iff c.id cursor).0
                      (find?-test (λ x. str_eq x.id cursor) d.deliveries e))) in
              clash (
                sym (stands_before_irrefl c)
                ∙ ap (λ x. stands_before x c) (sym same)
                ∙ passed (some c) r e h))
            d.deliveries (only_one id_of (λ x. str_eq x.id cursor) d.deliveries distinct e)

  selected-meets : All (λ r. meets_filter workspace_id f r ≡ true) (selected workspace_id f d)
  unfolding selected
  selected-meets =
      latest-All (λ r. meets_filter workspace_id f r ≡ true)
        (λ r. meets_filter workspace_id f r && passes_cursor f.cursor d.deliveries r) d.deliveries
        (All-of_each _ (λ r h. (and_true h).0) d.deliveries)

page_of-All :
    (P : WebhookDelivery → Type 0) (z : ℕ) (rows : List WebhookDelivery)
    → All P rows
    → All P (page_of z rows).0
page_of-All P z rows h = elim (Bool-cases (ltb z (length rows))) [
  | inl e ↦ rw e (All-take P z rows h)
  | inr e ↦ rw e h
]

-- What a page that answers a cursor leaves.
cut_page :
    (P : WebhookDelivery → Type 0) (z : ℕ) (rows page : List WebhookDelivery) (cursor : String)
    → All P rows
    → Distinct id_of rows
    → page_of z (take (z + 1) rows) ≡ (page, cursor)
    → str_eq cursor "" ≡ false
    → (x : WebhookDelivery) × (x.id ≡ cursor) × P x × All (λ r. r.id ≢ cursor) page
cut_page P z rows page cursor h d e nonblank =
    let one : z + 1 ≡ suc z = omega arith in go (rw one at e)
  where
    go :
        page_of z (take (suc z) rows) ≡ (page, cursor)
        → (x : WebhookDelivery) × (x.id ≡ cursor) × P x × All (λ r. r.id ≢ cursor) page
    go e = elim (Bool-cases (ltb z (length (take (suc z) rows)))) [
      | inl l ↦
          let rest : Left P z rows = left P z rows h d l in
          let cut : (take z (take (suc z) rows), id_at z (take (suc z) rows)) ≡ (page, cursor) =
            rw l at e in
          let named : rest.row.id ≡ cursor =
            rest.named ∙ ap (λ (c : List WebhookDelivery × String). c.1) cut in
          (
            rest.row,
            named,
            rest.holds,
            subst (λ (c : List WebhookDelivery × String). All (λ r. r.id ≢ cursor) c.0) cut
                (subst (λ k. All (λ r. r.id ≢ k) (take z (take (suc z) rows))) named
                  rest.not_on_page),
          )
      | inr l ↦
          let whole : (take (suc z) rows, "") ≡ (page, cursor) = rw l at e in
          absurd (blank (ap (λ (c : List WebhookDelivery × String). c.1) whole))
    ]
      where
        blank : "" ≡ cursor → ⊥
        blank q = clash (sym nonblank ∙ (eq_iff cursor "").1 (sym q))
          where
            clash : false ≡ true → ⊥
            clash k = cc

-- If a page of deliveries answers a cursor, the cursor names a stored delivery that meets the
-- filters, and this delivery is neither on the page nor on the page that the cursor leads to. The
-- stored deliveries have distinct identifiers.
pub cursor_row_skipped :
    (workspace_id : String) (f : DeliveryFilter) (d : Db) (page after : List WebhookDelivery)
    (cursor next : String)
    → Distinct id_of d.deliveries
    → (list_deliveries_of workspace_id f d).0 ≡ ok (page, cursor)
    → str_eq cursor "" ≡ false
    → (list_deliveries_of workspace_id (record f { cursor = cursor }) d).0 ≡ ok (after, next)
    → (x : WebhookDelivery) × (x.id ≡ cursor)
      × (meets_filter workspace_id f x ≡ true)
      × All (λ r. r.id ≢ cursor) page
      × All (λ r. r.id ≢ cursor) after
unfolding list_deliveries_of
cursor_row_skipped workspace_id f d page after cursor next distinct h nonblank k =
    let (x, named, meets, off_page) =
      cut_page (λ r. meets_filter workspace_id f r ≡ true) (page_limit f.limit)
        (selected workspace_id f d) page cursor (selected-meets workspace_id f d distinct)
        (latest-Distinct _ d.deliveries distinct) (of_ok h) nonblank in
    (
      x,
      named,
      meets,
      off_page,
      subst (λ (c : List WebhookDelivery × String). All (λ r. r.id ≢ cursor) c.0) (of_ok k)
          (page_of-All (λ r. r.id ≢ cursor) (page_limit f.limit) _
            (All-take (λ r. r.id ≢ cursor) (page_limit f.limit + 1) _
              (not_selected workspace_id f d distinct cursor nonblank))),
    )
  where
    of_ok : {A : Type 0} {a b : A} → ok a ≡ ok b → a ≡ b
    of_ok e = cc
