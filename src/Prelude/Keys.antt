-- ===== src/Prelude/Keys.antt =====
-- Lists in which no two elements have the same key, and what holds of every element.
use send_flow_backend.Prelude.{
  zero, suc, ℕ, String, ◌≡◌, ◌≢◌, refl, sym, ap, ◌∙◌, subst, Bool, true, List, [], ◌∷◌, ◌++◌, map,
  some, find?, modify_first, take, All, eq_of_some, Bool-cases, inl, inr,
}
use send_flow_backend.Prelude.Text.{str_eq, eq_iff, eq_refl}

module _ {A : Type 0} where
  pub All-of_each : (P : A → Type 0) → ((x : A) → P x) → (xs : List A) → All P xs
  All-of_each P h [] = tt
  All-of_each P h (x ∷ xs) = (h x, All-of_each P h xs)

  pub All-map_impl :
      (P Q : A → Type 0) → ((x : A) → P x → Q x) → (xs : List A) → All P xs → All Q xs
  All-map_impl P Q h [] k = tt
  All-map_impl P Q h (x ∷ xs) (k, ks) = (h x k, All-map_impl P Q h xs ks)

  pub All-both : (P Q : A → Type 0) (xs : List A) → All P xs → All Q xs → All (λ x. P x × Q x) xs
  All-both P Q [] h k = tt
  All-both P Q (x ∷ xs) (h, hs) (k, ks) = ((h, k), All-both P Q xs hs ks)

  pub All-append : (P : A → Type 0) (xs ys : List A) → All P xs → All P ys → All P (xs ++ ys)
  All-append P [] ys h k = k
  All-append P (x ∷ xs) ys (h, hs) k = (h, All-append P xs ys hs k)

  pub All-find? :
      (P : A → Type 0) (t : A → Bool) (xs : List A) {c : A} → All P xs → find? t xs ≡ some c → P c
  All-find? P t [] k h = cc
  All-find? P t (x ∷ xs) {c} (k, ks) h = elim (Bool-cases (t x)) [
    | inl e ↦ let same : x ≡ c = eq_of_some (rw e at h) in subst P same k
    | inr e ↦ All-find? P t xs ks (rw e at h)
  ]

  -- A search in a list whose elements are changed so that they pass the test as before.
  pub find?-map :
      (t : A → Bool) (f : A → A)
      → ((x : A) → t (f x) ≡ t x)
      → (xs : List A) {c : A} → find? t xs ≡ some c
      → find? t (map f xs) ≡ some (f c)
  find?-map t f h [] e = cc
  find?-map t f h (x ∷ xs) {c} e = elim (Bool-cases (t x)) [
    | inl q ↦ let same : x ≡ c = eq_of_some (rw q at e) in rw (h x, q, same) refl
    | inr q ↦ rw (h x, q) (find?-map t f h xs (rw q at e))
  ]

  pub All-take : (P : A → Type 0) (n : ℕ) (xs : List A) → All P xs → All P (take n xs)
  All-take P zero xs k = tt
  All-take P (suc n) [] k = tt
  All-take P (suc n) (x ∷ xs) (k, ks) = (k, All-take P n xs ks)

  -- A write of the first element that passes a test.
  pub All-modify_first :
      (P : A → Type 0) (t : A → Bool) (f : A → A) (xs : List A)
      → All P xs
      → All (λ x. t x ≡ true → P (f x)) xs
      → All P (modify_first t f xs)
  All-modify_first P t f [] h k = tt
  All-modify_first P t f (x ∷ xs) (h, hs) (k, ks) = elim (Bool-cases (t x)) [
    | inl e ↦ rw e (k e, hs)
    | inr e ↦ rw e (h, All-modify_first P t f xs hs ks)
  ]

  module _ (key : A → String) where
    abbrev pub Distinct : List A → Type 0
    Distinct [] = Unit
    Distinct (x ∷ xs) = All (λ y. key y ≢ key x) xs × Distinct xs

    -- No other element has the key of one that is found.
    pub only_one :
        (t : A → Bool) (xs : List A) {c : A}
        → Distinct xs
        → find? t xs ≡ some c
        → All (λ x. key x ≡ key c → x ≡ c) xs
    only_one t [] d h = tt
    only_one t (x ∷ xs) {c} (d, ds) h = elim (Bool-cases (t x)) [
      | inl e ↦
          let same : x ≡ c = eq_of_some (rw e at h) in
          (
            λ q. same,
            All-map_impl (λ y. key y ≢ key x) (λ y. key y ≡ key c → y ≡ c)
                (λ y n q. absurd (n (q ∙ ap key (sym same)))) xs d,
          )
      | inr e ↦
          let rest : find? t xs ≡ some c = rw e at h in
          (λ q. absurd (All-find? (λ y. key y ≢ key x) t xs d rest (sym q)), only_one t xs ds rest)
    ]

    -- No element has the key of another.
    pub each_alone : (xs : List A) → Distinct xs → All (λ c. All (λ x. key x ≡ key c → x ≡ c) xs) xs
    each_alone [] d = tt
    each_alone (x ∷ xs) (d, ds) = (
      (
        λ q. refl,
        All-map_impl (λ y. key y ≢ key x) (λ y. key y ≡ key x → y ≡ x) (λ y n q. absurd (n q)) xs d,
      ),
      All-map_impl (λ c. (key c ≢ key x) × All (λ y. key y ≡ key c → y ≡ c) xs)
          (λ c. All (λ y. key y ≡ key c → y ≡ c) (x ∷ xs)) (λ c h. (λ q. absurd (h.0 (sym q)), h.1))
          xs
          (All-both (λ c. key c ≢ key x) (λ c. All (λ y. key y ≡ key c → y ≡ c) xs) xs d
            (each_alone xs ds)),
    )

    -- A search by key finds the element of that key.
    pub found_by_key :
        (xs : List A) → Distinct xs → All (λ c. find? (λ x. str_eq (key x) (key c)) xs ≡ some c) xs
    found_by_key [] d = tt
    found_by_key (x ∷ xs) (d, ds) = (
      rw (eq_refl (key x)) refl,
      All-map_impl (λ c. (key c ≢ key x) × (find? (λ y. str_eq (key y) (key c)) xs ≡ some c))
          (λ c. find? (λ y. str_eq (key y) (key c)) (x ∷ xs) ≡ some c) (λ c h. passed c h.0 h.1) xs
          (All-both (λ c. key c ≢ key x) (λ c. find? (λ y. str_eq (key y) (key c)) xs ≡ some c) xs d
            (found_by_key xs ds)),
    )
      where
        passed :
            (c : A)
            → key c ≢ key x
            → find? (λ y. str_eq (key y) (key c)) xs ≡ some c
            → find? (λ y. str_eq (key y) (key c)) (x ∷ xs) ≡ some c
        passed c n h = elim (Bool-cases (str_eq (key x) (key c))) [
          | inl e ↦ absurd (n (sym ((eq_iff (key x) (key c)).0 e)))
          | inr e ↦ rw e h
        ]

    apart-modify_first :
        (k : String) (t : A → Bool) (f : A → A)
        → ((x : A) → key (f x) ≡ key x)
        → (xs : List A) → All (λ y. key y ≢ k) xs
        → All (λ y. key y ≢ k) (modify_first t f xs)
    apart-modify_first k t f h xs a =
        All-modify_first (λ y. key y ≢ k) t f xs a
          (All-map_impl (λ y. key y ≢ k) (λ y. t y ≡ true → key (f y) ≢ k)
            (λ y n q same. n (sym (h y) ∙ same)) xs a)

    pub Distinct-modify_first :
        (t : A → Bool) (f : A → A)
        → ((x : A) → key (f x) ≡ key x)
        → (xs : List A) → Distinct xs
        → Distinct (modify_first t f xs)
    Distinct-modify_first t f h [] d = tt
    Distinct-modify_first t f h (x ∷ xs) (d, ds) = elim (Bool-cases (t x)) [
      | inl e ↦ rw e (subst (λ k. All (λ y. key y ≢ k) xs) (sym (h x)) d, ds)
      | inr e ↦ rw e (apart-modify_first (key x) t f h xs d, Distinct-modify_first t f h xs ds)
    ]

    pub Distinct-append :
        (xs : List A) (y : A) → Distinct xs → All (λ x. key x ≢ key y) xs → Distinct (xs ++ y ∷ [])
    Distinct-append [] y d k = (tt, tt)
    Distinct-append (x ∷ xs) y (d, ds) (k, ks) = (
      All-append (λ z. key z ≢ key x) xs (y ∷ []) d (λ q. k (sym q), tt),
      Distinct-append xs y ds ks,
    )

    pub Distinct-map :
        (f : A → A)
        → ((x : A) → key (f x) ≡ key x)
        → (xs : List A) → Distinct xs
        → Distinct (map f xs)
    Distinct-map f h [] d = tt
    Distinct-map f h (x ∷ xs) (d, ds) = (mapped xs d, Distinct-map f h xs ds)
      where
        mapped :
            (ys : List A) → All (λ y. key y ≢ key x) ys → All (λ y. key y ≢ key (f x)) (map f ys)
        mapped [] a = tt
        mapped (y ∷ ys) (a, as') = (λ q. a (sym (h y) ∙ q ∙ h x), mapped ys as')
