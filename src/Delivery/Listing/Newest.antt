-- ===== src/Delivery/Listing/Newest.antt =====
-- The rows of a listing, newest first: the order of rows, and the sorting by insertion.
use send_flow_backend.Prelude.{
  suc, length, ◌≤◌, arith, String, ◌≡◌, ◌≢◌, refl, sym, ap, ◌∙◌, Bool, true, false, ◌&&◌, List, [],
  ◌∷◌, All, filter, Bool-cases, inl, inr, if◌then◌else◌,
}
use send_flow_backend.Prelude.Keys.{All-map_impl, Distinct}
use send_flow_backend.Prelude.Order.{
  is_lt, flip, compare_self, number-Compares, text-Compares, flip-then, then_trans,
}
use send_flow_backend.Delivery.Message.{Message}
use send_flow_backend.Delivery.Listing.{row_before, insert_newest, newest}
use mathlib.Core.List.Perm
use mathlib.Core.List.{Perm}
use Prim.Native.Nat.{Ordering, compare as compare_ℕ}
use Prim.Native.String.{compare, then as or_else_by}

abbrev pub id_of : Message → String
id_of m = m.id

is_lt-true : (o : Ordering) → is_lt o ≡ true → o ≡ Ordering.lt
is_lt-true Ordering.lt h = refl
is_lt-true Ordering.eq h = cc
is_lt-true Ordering.gt h = cc

abbrev row_compare : Message → Message → Ordering
row_compare m n = or_else_by (compare_ℕ m.created_at n.created_at) (compare m.id n.id)

row_flips : (m n : Message) → row_compare n m ≡ flip (row_compare m n)
row_flips m n =
    rw (number-Compares.flips m.created_at n.created_at, text-Compares.flips m.id n.id)
      (flip-then (compare_ℕ m.created_at n.created_at) (compare m.id n.id))

pub row_before_irrefl : (m : Message) → row_before m m ≡ false
unfolding row_before
row_before_irrefl m =
    rw (compare_self number-Compares m.created_at, compare_self text-Compares m.id) refl

pub row_before-asym : (m n : Message) → row_before m n ≡ true → row_before n m ≡ false
unfolding row_before
row_before-asym m n h = rw (row_flips m n, is_lt-true (row_compare m n) h) refl

pub row_before_trans :
    (k m n : Message) → row_before k m ≡ true → row_before m n ≡ true → row_before k n ≡ true
unfolding row_before
row_before_trans k m n h l = ap is_lt (
    then_trans number-Compares k.created_at m.created_at n.created_at (compare k.id m.id)
      (compare m.id n.id) (compare k.id n.id) (text-Compares.lt_trans k.id m.id n.id)
      (is_lt-true (row_compare k m) h) (is_lt-true (row_compare m n) l))

second_eq : (o p : Ordering) → or_else_by o p ≡ Ordering.eq → p ≡ Ordering.eq
second_eq Ordering.lt p h = cc
second_eq Ordering.eq p h = h
second_eq Ordering.gt p h = cc

-- Rows with distinct identifiers stand one before the other.
pub row_before-total :
    (m n : Message) → m.id ≢ n.id → row_before m n ≡ false → row_before n m ≡ true
unfolding row_before
row_before-total m n apart h = go (row_compare m n) refl (row_flips m n)
  where
    go :
        (o : Ordering)
        → row_compare m n ≡ o
        → row_compare n m ≡ flip (row_compare m n)
        → is_lt (row_compare n m) ≡ true
    go Ordering.lt e q = cc (sym h ∙ ap is_lt e)
    go Ordering.eq e q = absurd (
        apart (
          text-Compares.equal m.id n.id
            (second_eq (compare_ℕ m.created_at n.created_at) (compare m.id n.id) e)))
    go Ordering.gt e q = ap is_lt (q ∙ ap flip e)

-- Each row stands before those that follow it.
abbrev pub Descends : List Message → Type 0
Descends [] = Unit
Descends (m ∷ ms) = All (λ n. row_before n m ≡ true) ms × Descends ms

insert_newest-All :
    (P : Message → Type 0) (m : Message) (ns : List Message)
    → P m
    → All P ns
    → All P (insert_newest m ns)
insert_newest-All P m [] h k = (h, tt)
insert_newest-All P m (n ∷ ns) h (k, ks) = elim (Bool-cases (row_before n m)) [
  | inl e ↦ rw e (h, (k, ks))
  | inr e ↦ rw e (k, insert_newest-All P m ns h ks)
]

-- What holds of the rows that pass the test holds of the listing.
pub newest-All :
    (P : Message → Type 0) (test : Message → Bool) (rows : List Message)
    → All (λ r. test r ≡ true → P r) rows
    → All P (newest test rows)
newest-All P test [] h = tt
newest-All P test (r ∷ rs) (h, hs) = elim (Bool-cases (test r)) [
  | inl e ↦ rw e (insert_newest-All P r (newest test rs) (h e) (newest-All P test rs hs))
  | inr e ↦ rw e (newest-All P test rs hs)
]

-- What is older than a row is older than those before it.
older-All :
    (m n : Message) (ns : List Message)
    → row_before n m ≡ true
    → All (λ x. row_before x n ≡ true) ns
    → All (λ x. row_before x m ≡ true) ns
older-All m n ns e h =
    All-map_impl (λ x. row_before x n ≡ true) (λ x. row_before x m ≡ true)
      (λ x q. row_before_trans x n m q e) ns h

insert_newest-Descends :
    (m : Message) (ns : List Message)
    → All (λ n. n.id ≢ m.id) ns
    → Descends ns
    → Descends (insert_newest m ns)
insert_newest-Descends m [] a d = (tt, tt)
insert_newest-Descends m (n ∷ ns) (a, as') (d, ds) = elim (Bool-cases (row_before n m)) [
  | inl e ↦ rw e ((e, older-All m n ns e d), (d, ds))
  | inr e ↦ rw e (
    insert_newest-All (λ x. row_before x n ≡ true) m ns (row_before-total n m a e) d,
    insert_newest-Descends m ns as' ds,
  )
]

newest-apart :
    (test : Message → Bool) (m : Message) (rows : List Message)
    → All (λ n. n.id ≢ m.id) rows
    → All (λ n. n.id ≢ m.id) (newest test rows)
newest-apart test m rows a =
    newest-All (λ n. n.id ≢ m.id) test rows
      (All-map_impl (λ n. n.id ≢ m.id) (λ n. test n ≡ true → n.id ≢ m.id) (λ n h _. h) rows a)

pub newest-Descends :
    (test : Message → Bool) (rows : List Message)
    → Distinct id_of rows
    → Descends (newest test rows)
newest-Descends test [] d = tt
newest-Descends test (r ∷ rs) (d, ds) = elim (Bool-cases (test r)) [
  | inl e ↦ rw e (
      insert_newest-Descends r (newest test rs) (newest-apart test r rs d)
        (newest-Descends test rs ds))
  | inr e ↦ rw e (newest-Descends test rs ds)
]

length-insert_newest :
    (m : Message) (ns : List Message) → length (insert_newest m ns) ≡ suc (length ns)
length-insert_newest m [] = refl
length-insert_newest m (n ∷ ns) = elim (Bool-cases (row_before n m)) [
  | inl e ↦ rw e refl
  | inr e ↦ rw e (ap suc (length-insert_newest m ns))
]

pub newest-length :
    (test : Message → Bool) (rows : List Message) → length (newest test rows) ≤ length rows
newest-length test [] = omega arith
newest-length test (r ∷ rs) = elim (Bool-cases (test r)) [
  | inl e ↦
      let few = newest-length test rs in
      let grown = length-insert_newest r (newest test rs) in rw e (omega arith)
  | inr e ↦ let few = newest-length test rs in rw e (omega arith)
]

insert_newest-Perm : (m : Message) (ns : List Message) → Perm (insert_newest m ns) (m ∷ ns)
insert_newest-Perm m [] = Perm.rfl
insert_newest-Perm m (n ∷ ns) = elim (Bool-cases (row_before n m)) [
  | inl e ↦ rw e Perm.rfl
  | inr e ↦ rw e (Perm.trans (Perm.cons n (insert_newest-Perm m ns)) (Perm.swap m n ns))
]

-- The listing has the rows that pass the test.
pub newest-Perm :
    (test : Message → Bool) (rows : List Message) → Perm (newest test rows) (filter test rows)
newest-Perm test [] = Perm.rfl
newest-Perm test (r ∷ rs) = elim (Bool-cases (test r)) [
  | inl e ↦
      rw e (Perm.trans (insert_newest-Perm r (newest test rs)) (Perm.cons r (newest-Perm test rs)))
  | inr e ↦ rw e (newest-Perm test rs)
]

insert_newest-first :
    (m : Message) (ns : List Message)
    → All (λ n. row_before n m ≡ true) ns
    → insert_newest m ns ≡ m ∷ ns
insert_newest-first m [] h = refl
insert_newest-first m (n ∷ ns) (h, hs) = rw h refl

filter-All :
    (P : Message → Type 0) (t : Message → Bool) (ns : List Message) → All P ns → All P (filter t ns)
filter-All P t [] h = tt
filter-All P t (n ∷ ns) (h, hs) = elim (Bool-cases (t n)) [
  | inl e ↦ rw e (h, filter-All P t ns hs)
  | inr e ↦ rw e (filter-All P t ns hs)
]

filter-insert_newest :
    (t : Message → Bool) (m : Message) (ns : List Message)
    → Descends ns
    → filter t (insert_newest m ns) ≡ (if t m then insert_newest m (filter t ns) else filter t ns)
filter-insert_newest t m [] d = elim (Bool-cases (t m)) [ inl e ↦ rw e refl | inr e ↦ rw e refl ]
filter-insert_newest t m (n ∷ ns) (d, ds) = elim (Bool-cases (row_before n m)) [
  | inl e ↦ rw e (before e)
  | inr e ↦ elim (Bool-cases (t m)) [
    | inl k ↦
        let rest : filter t (insert_newest m ns) ≡ insert_newest m (filter t ns) =
          rw k at (filter-insert_newest t m ns ds) in
        elim (Bool-cases (t n)) [
          | inl l ↦ rw (l, k, e, l, rest) refl
          | inr l ↦ rw (l, k, e, l, rest) refl
        ]
    | inr k ↦
        let rest : filter t (insert_newest m ns) ≡ filter t ns =
          rw k at (filter-insert_newest t m ns ds) in
        elim (Bool-cases (t n)) [
          | inl l ↦ rw (l, k, e, l, rest) refl
          | inr l ↦ rw (l, k, e, l, rest) refl
        ]
  ]
]
  where
    before :
        row_before n m ≡ true
        → filter t (m ∷ n ∷ ns)
          ≡ (if t m then insert_newest m (filter t (n ∷ ns)) else filter t (n ∷ ns))
    before e = elim (Bool-cases (t m)) [
      | inl k ↦ rw k (
          sym (
            insert_newest-first m (filter t (n ∷ ns))
              (filter-All (λ x. row_before x m ≡ true) t (n ∷ ns) (e, older-All m n ns e d))))
      | inr k ↦ rw k refl
    ]

-- A listing with one more condition is the listing's rows that meet it.
pub newest-filter :
    (p t : Message → Bool) (rows : List Message)
    → Distinct id_of rows
    → newest (λ m. p m && t m) rows ≡ filter t (newest p rows)
newest-filter p t [] d = refl
newest-filter p t (r ∷ rs) (d, ds) = elim (Bool-cases (p r)) [
  | inl h ↦
      rw (h, newest-filter p t rs ds)
        (sym (filter-insert_newest t r (newest p rs) (newest-Descends p rs ds)))
  | inr h ↦ rw h (newest-filter p t rs ds)
]
