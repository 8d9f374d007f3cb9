-- ===== src/Prelude/Search.antt =====
-- Laws of the first element that passes a test.
use send_flow_backend.Prelude.{
  ◌≡◌, refl, Bool, true, false, List, [], ◌∷◌, none, some, Bool-cases, inl, inr, find?, any,
  modify_first, eq_of_some,
}

module _ {ℓ} {A : Type ℓ} (p : A → Bool) where
  -- The element that a search finds passes the test.
  pub find?-test : (xs : List A) {c : A} → find? p xs ≡ some c → p c ≡ true
  find?-test [] h = cc
  find?-test (x ∷ xs) h = elim (Bool-cases (p x)) [
    | inl e ↦ let same : x ≡ _ = eq_of_some (rw e at h) in rw (← same) e
    | inr e ↦ find?-test xs (rw e at h)
  ]

  -- A search that finds nothing passes over every element.
  pub any_of_find?-none : (xs : List A) → find? p xs ≡ none → any p xs ≡ false
  any_of_find?-none [] h = refl
  any_of_find?-none (x ∷ xs) h = elim (Bool-cases (p x)) [
    | inl e ↦ cc (rw e at h)
    | inr e ↦ rw e (any_of_find?-none xs (rw e at h))
  ]

  pub any_of_find?-some : (xs : List A) {c : A} → find? p xs ≡ some c → any p xs ≡ true
  any_of_find?-some [] h = cc
  any_of_find?-some (x ∷ xs) h = elim (Bool-cases (p x)) [
    | inl e ↦ rw e
    | inr e ↦ rw e (any_of_find?-some xs (rw e at h))
  ]

  -- The element that is written is found again, if it still passes the test.
  pub find?-modify_first :
      (f : A → A) (xs : List A) {c : A}
      → find? p xs ≡ some c
      → p (f c) ≡ true
      → find? p (modify_first p f xs) ≡ some (f c)
  find?-modify_first f [] h k = cc
  find?-modify_first f (x ∷ xs) {c} h k = elim (Bool-cases (p x)) [
    | inl e ↦ let same : x ≡ c = eq_of_some (rw e at h) in rw e (rw same (rw k))
    | inr e ↦ rw e (rw e (find?-modify_first f xs (rw e at h) k))
  ]
