-- ===== src/Delivery/Listing/Pages.antt =====
-- The pages of a listing, read one after another by the cursor that each answers.
use send_flow_backend.Prelude.{
  ℕ, zero, suc, ◌+◌, ◌≤◌, ◌<◌, String, ◌≡◌, ◌≢◌, ◌↔◌, refl, sym, ap, ◌∙◌, subst, Bool, true, false,
  ◌&&◌, List, [], ◌∷◌, ◌++◌, append_assoc, All, filter, take, length, find?, some, ltb, Bool-cases,
  inl, inr, if◌then◌else◌, arith, length-append,
}
use send_flow_backend.Prelude.Text.{str_eq, eq_iff}
use send_flow_backend.Prelude.Keys.{All-map_impl, Distinct, found_by_key}
use mathlib.Core.List.{Perm}
use send_flow_backend.Effect.{Result, ok, err}
use send_flow_backend.Delivery.Message.{Message}
use send_flow_backend.Delivery.Store.{Db}
use send_flow_backend.Delivery.Listing.{
  MessageListQuery, row_before, after_cursor, is_listed, newest, page_size, last_id, page_of,
  list_messages,
}
use send_flow_backend.Delivery.Listing.Filters.{Meets, is_listed_iff}
use send_flow_backend.Delivery.Listing.Newest.{
  id_of, Descends, row_before_irrefl, row_before-asym, newest-All, newest-Descends, newest-filter,
  newest-length, newest-Perm,
}

-- A page, and what is read from its cursor on.
abbrev pub with_next : (String → List Message) → Result (List Message × String) → List Message
with_next more (err e) = []
with_next more (ok (rows, next)) = if str_eq next "" then rows else rows ++ more next

-- At most so many pages.
abbrev pub read_pages : ℕ → MessageListQuery → Db → List Message
read_pages zero q d = []
read_pages (suc n) q d =
    with_next (λ next. read_pages n (record q { cursor = next }) d) (list_messages q d).0

-- Where a page that is not the last one ends.
record Cut (z : ℕ) (rows : List Message) : Type 0 where
  before : List Message
  last : Message
  rest : List Message
  whole : rows ≡ before ++ last ∷ rest
  page : take z (take (suc z) rows) ≡ before ++ last ∷ []

cut : (z : ℕ) (rows : List Message) → 1 ≤ z → ltb z (length (take (suc z) rows)) ≡ true → Cut z rows
cut zero rows p h = absurd (omega arith)
cut (suc z) [] p h = absurd (ground arith)
cut (suc zero) (m ∷ ms) p h = record { before = []; last = m; rest = ms; whole = refl; page = refl }
cut (suc (suc z)) (m ∷ ms) p h =
    let c : Cut (suc z) ms = cut (suc z) ms (omega arith) (ground arith) in
    record {
      before = m ∷ c.before;
      last = c.last;
      rest = c.rest;
      whole = ap (λ xs. m ∷ xs) c.whole;
      page = ap (λ xs. m ∷ xs) c.page;
    }

take-whole :
    (z : ℕ) (rows : List Message)
    → ltb z (length (take (suc z) rows)) ≡ false
    → take (suc z) rows ≡ rows
take-whole z [] h = refl
take-whole zero (m ∷ ms) h = cc
take-whole (suc z) (m ∷ ms) h = ap (λ xs. m ∷ xs) (take-whole z ms (ground arith))

last_id-append : (xs : List Message) (m : Message) → last_id (xs ++ m ∷ []) ≡ m.id
last_id-append [] m = refl
last_id-append (x ∷ []) m = refl
last_id-append (x ∷ y ∷ xs) m = last_id-append (y ∷ xs) m

All-middle :
    (P : Message → Type 0) (xs : List Message) (m : Message) (ys : List Message)
    → All P (xs ++ m ∷ ys)
    → P m
All-middle P [] m ys (h, hs) = h
All-middle P (x ∷ xs) m ys (h, hs) = All-middle P xs m ys hs

filter-whole :
    (t : Message → Bool) (xs : List Message) → All (λ x. t x ≡ true) xs → filter t xs ≡ xs
filter-whole t [] h = refl
filter-whole t (x ∷ xs) (h, hs) = rw (h, filter-whole t xs hs) refl

-- The rows after a cursor are those that follow its row.
filter-after :
    (xs : List Message) (m : Message) (ys : List Message)
    → Descends (xs ++ m ∷ ys)
    → filter (λ r. row_before r m) (xs ++ m ∷ ys) ≡ ys
filter-after [] m ys (d, ds) = rw (row_before_irrefl m) (filter-whole (λ r. row_before r m) ys d)
filter-after (x ∷ xs) m ys (d, ds) =
    rw (row_before-asym m x (All-middle (λ r. row_before r x ≡ true) xs m ys d))
      (filter-after xs m ys ds)

page_size-positive : (limit : ℕ) → 1 ≤ page_size limit
page_size-positive limit = ground arith

-- A page, and what its cursor leads to, if that is the rest of the rows.
turn :
    (z : ℕ) (rows : List Message) (more : String → List Message)
    → 1 ≤ z
    → ((xs : List Message) (m : Message) (ys : List Message)
        → rows ≡ xs ++ m ∷ ys
        → (str_eq m.id "" ≡ false) × (more m.id ≡ ys))
    → with_next more (ok (page_of z (take (z + 1) rows))) ≡ rows
turn z rows more p leads =
    let one : z + 1 ≡ suc z = omega arith in
    rw one (elim (Bool-cases (ltb z (length (take (suc z) rows)))) [
      | inl e ↦ rw e (goes_on (cut z rows p e))
      | inr e ↦ rw e (take-whole z rows e)
    ])
  where
    goes_on :
        Cut z rows
        → with_next more (ok (take z (take (suc z) rows), last_id (take z (take (suc z) rows))))
          ≡ rows
    goes_on c =
        let (nonblank, on) = leads c.before c.last c.rest c.whole in
        rw (c.page, last_id-append c.before c.last, nonblank, on)
          (append_assoc c.before (c.last ∷ []) c.rest ∙ sym c.whole)

module _ (q : MessageListQuery) (d : Db) (distinct : Distinct id_of d.messages)
    (named : All (λ m. m.id ≢ "") d.messages) where
  abbrev listed : List Message
  listed = newest (is_listed q) d.messages

  -- What is listed after a cursor.
  abbrev after : String → List Message
  after cursor = newest (λ m. is_listed q m && after_cursor cursor d.messages m) d.messages

  after_row_of :
      (xs : List Message) (m : Message) (ys : List Message)
      → listed ≡ xs ++ m ∷ ys
      → (str_eq m.id "" ≡ false) × (after m.id ≡ ys)
  unfolding after_cursor row_before
  after_row_of xs m ys e = (
    nonblank,
    ap (λ f. newest f d.messages) (λ i r. is_listed q r && tests r i)
        ∙ newest-filter (is_listed q) (λ r. row_before r m) d.messages distinct
        ∙ ap (filter (λ r. row_before r m)) e
        ∙ filter-after xs m ys
            (subst Descends e (newest-Descends (is_listed q) d.messages distinct)),
  )
    where
      stored : (P : Message → Type 0) → All P d.messages → P m
      stored P h = All-middle P xs m ys (
          subst (All P) e (
            newest-All P (is_listed q) d.messages
              (All-map_impl P (λ r. is_listed q r ≡ true → P r) (λ r k _. k) d.messages h)))

      nonblank : str_eq m.id "" ≡ false
      nonblank = elim (Bool-cases (str_eq m.id "")) [
        | inl b ↦ absurd (stored (λ r. r.id ≢ "") named ((eq_iff m.id "").0 b))
        | inr b ↦ b
      ]

      found : find? (λ c. str_eq c.id m.id) d.messages ≡ some m
      found =
          stored (λ c. find? (λ x. str_eq x.id c.id) d.messages ≡ some c)
            (found_by_key id_of d.messages distinct)

      tests : (r : Message) → after_cursor m.id d.messages r ≡ row_before r m
      tests r = rw (nonblank, found) refl

  follow :
      (n : ℕ) (cursor : String) (xs rows : List Message)
      → listed ≡ xs ++ rows
      → after cursor ≡ rows
      → length rows < n
      → read_pages n (record q { cursor = cursor }) d ≡ rows
  unfolding list_messages is_listed
  follow zero cursor xs rows e h l = absurd (omega arith)
  follow (suc n) cursor xs rows e h l = rw h (
      turn (page_size q.limit) rows (λ next. read_pages n (record q { cursor = next }) d)
        (page_size-positive q.limit)
        (λ ys m zs split.
          let whole : listed ≡ (xs ++ ys) ++ m ∷ zs =
            e ∙ ap (λ r. xs ++ r) split ∙ sym (append_assoc xs ys (m ∷ zs)) in
          let (nonblank, rest) = after_row_of (xs ++ ys) m zs whole in
          (
            nonblank,
            follow n m.id ((xs ++ ys) ++ m ∷ []) zs
                (whole ∙ sym (append_assoc (xs ++ ys) (m ∷ []) zs)) rest (fewer ys m zs split l),
          )))
    where
      fewer :
          (ys : List Message) (m : Message) (zs : List Message)
          → rows ≡ ys ++ m ∷ zs
          → length rows < suc n
          → length zs < n
      fewer ys m zs split l =
          let grown : length rows ≡ length ys + suc (length zs) =
            ap (λ r. length r) split ∙ length-append ys (m ∷ zs) in
          omega arith

read_pages-newest :
    (q : MessageListQuery) (d : Db) (n : ℕ)
    → Distinct id_of d.messages
    → All (λ m. m.id ≢ "") d.messages
    → length d.messages < n
    → read_pages n (record q { cursor = "" }) d ≡ newest (is_listed q) d.messages
unfolding after_cursor
read_pages-newest q d n distinct named l =
    follow q d distinct named n "" [] (newest (is_listed q) d.messages) refl
      (ap (λ f. newest f d.messages) (λ i r. and_true_right (is_listed q r) i))
      (let few = newest-length (is_listed q) d.messages in omega arith)
  where
    and_true_right : (b : Bool) → (b && true) ≡ b
    and_true_right b = ground arith

-- If the stored messages have distinct identifiers, none of them empty, and pages are read from the
-- first one on, each from the cursor that the page before it answered, until a page answers no
-- cursor or as many pages have been read as there are messages and one more: then what was read is
-- a rearrangement of those stored messages that are in the workspace and meet each filter of the
-- query but the recipient's role and the API key, which are not looked at; and each message that was
-- read is newer than those read after it.
pub read_pages-Perm :
    (q : MessageListQuery) (d : Db) (n : ℕ)
    → Distinct id_of d.messages
    → All (λ m. m.id ≢ "") d.messages
    → length d.messages < n
    → Perm (read_pages n (record q { cursor = "" }) d) (filter (is_listed q) d.messages)
      × Descends (read_pages n (record q { cursor = "" }) d)
      × ((m : Message) → (is_listed q m ≡ true) ↔ Meets q m)
read_pages-Perm q d n distinct named l =
    let (perm, descends) =
      subst (λ rows. Perm rows (filter (is_listed q) d.messages) × Descends rows)
        (sym (read_pages-newest q d n distinct named l))
        (newest-Perm (is_listed q) d.messages, newest-Descends (is_listed q) d.messages distinct) in
    (perm, descends, is_listed_iff q)
