-- ===== src/Identity/RoundTrip.antt =====
-- Names to a mask and back (internal/modules/identity/domain/access.go).
use send_flow_backend.Prelude.{
  ℕ, String, ◌≡◌, ◌≢◌, refl, sym, ap, ◌∙◌, ◌⊎◌, subst, inl, inr, Bool, true, false, ◌||◌, List, [],
  ◌∷◌, Option, none, some, map, Bool-cases, if◌then◌else◌, find?, All, eq_of_some,
}
use send_flow_backend.Prelude.Text.{str_eq, eq_iff}
use send_flow_backend.Prelude.Search.{find?-test}
use send_flow_backend.Effect.{Result, ok}
use send_flow_backend.Identity.Access.{
  Permission, permission_registry, has_bit, names_of, permission_names_from_mask, has_permission,
  bit_named, normal_name, add_found, add_names, permissions_mask_from_names,
}
use send_flow_backend.Identity.Masks.{held, held-union, held-zero, names_from_mask_held, or_assoc}
use Prim.Native.Nat.{bit_or}

found_in_all :
    {A : Type 0} (P : A → Type 0) (test : A → Bool) (xs : List A) {x : A}
    → All P xs
    → find? test xs ≡ some x
    → P x
found_in_all P test [] all h = absurd cc
found_in_all P test (y ∷ ys) all h = elim (Bool-cases (test y)) [
  | inl e ↦ subst P (eq_of_some (rw e at h)) all.0
  | inr e ↦ found_in_all P test ys all.1 (rw e at h)
]

-- The bit of a permission of the registry is that permission's alone.
abbrev IsAlone : Permission → Type 0
IsAlone x = names_of x.bit permission_registry ≡ x.name ∷ []

each-IsAlone : All IsAlone permission_registry
unfolding has_bit
each-IsAlone = (
  refl,
  (
    refl,
    (
      refl,
      (
        refl,
        (
          refl,
          (
            refl,
            (
              refl,
              (
                refl,
                (
                  refl,
                  (
                    refl,
                    (
                      refl,
                      (
                        refl,
                        (
                          refl,
                          (
                            refl,
                            (
                              refl,
                              (
                                refl,
                                (
                                  refl,
                                  (
                                    refl,
                                    (
                                      refl,
                                      (
                                        refl,
                                        (refl, (refl, (refl, (refl, (refl, (refl, (refl, tt))))))),
                                      ),
                                    ),
                                  ),
                                ),
                              ),
                            ),
                          ),
                        ),
                      ),
                    ),
                  ),
                ),
              ),
            ),
          ),
        ),
      ),
    ),
  ),
)

abbrev holds : ℕ → String → Bool
holds mask n = held mask permission_registry n

or_false : (b : Bool) → (b || false) ≡ b
or_false true = refl
or_false false = refl

holds_found :
    (mask : ℕ) (name n : String) {x : Permission}
    → bit_named name ≡ some x
    → holds (bit_or mask x.bit) n ≡ (holds mask n || str_eq name n)
holds_found mask name n {x} h =
    held-union mask x.bit permission_registry n
    ∙ ap (λ l. holds mask n || has_permission l n)
        (found_in_all IsAlone (λ y. str_eq y.name name) permission_registry each-IsAlone h)
    ∙ ap (λ s. holds mask n || (str_eq s n || false))
        ((eq_iff x.name name).0 (find?-test (λ y. str_eq y.name name) permission_registry h))
    ∙ ap (λ b. holds mask n || b) (or_false (str_eq name n))

absorbed : (a b c : Bool) → (b ≡ true → a ≡ true) → (a || c) ≡ (a || (b || c))
absorbed true b c h = refl
absorbed false false c h = refl
absorbed false true c h = absurd (cc (h refl))

is_false : {b : Bool} → (b ≡ true → ⊥) → b ≡ false
is_false {b = true} h = absurd (h refl)
is_false {b = false} h = refl

same_mask : {a b : ℕ} → ok a ≡ ok b → a ≡ b
same_mask h = cc

-- The three ways of a step of the loop.
steps :
    (to_lower : String → String) (b c : Bool) (o : Option Permission) (again : Result ℕ) (mask : ℕ)
    (next : ℕ → Result ℕ) {m : ℕ}
    → (if b then again else if c then again else add_found to_lower mask o next) ≡ ok m
    → ((b ≡ true) × (again ≡ ok m))
      ⊎ (((c ≡ true) × (again ≡ ok m))
          ⊎ ((x : Permission) × (o ≡ some x) × (next (bit_or mask x.bit) ≡ ok m)))
steps to_lower true c o again mask next h = inl (refl, h)
steps to_lower false true o again mask next h = inr (inl (refl, h))
steps to_lower false false none again mask next h = absurd cc
steps to_lower false false (some x) again mask next h = inr (inr (x, refl, h))

module _ (to_lower : String → String) where
  -- The names that were met are held.
  abbrev Met : ℕ → List String → Type 0
  Met mask seen = (n : String) → has_permission seen n ≡ true → holds mask n ≡ true

  Met-more :
      (mask : ℕ) (seen : List String) (name : String) (x : Permission)
      → bit_named name ≡ some x
      → Met mask seen
      → Met (bit_or mask x.bit) (name ∷ seen)
  Met-more mask seen name x known met n h =
      holds_found mask name n known ∙ one (holds mask n) (str_eq name n) _ (met n) h
    where
      one : (a b c : Bool) → (c ≡ true → a ≡ true) → (b || c) ≡ true → (a || b) ≡ true
      one true b c k l = refl
      one false true c k l = refl
      one false false c k l = k l

  add_names_hold :
      (names : List String) (mask : ℕ) (seen : List String) (m : ℕ)
      → Met mask seen
      → add_names to_lower mask seen names ≡ ok m
      → (n : String) → n ≢ ""
      → holds m n ≡ (holds mask n || has_permission (map (normal_name to_lower) names) n)
  unfolding add_names
  add_names_hold [] mask seen m met h n named =
      ap (λ k. holds k n) (sym (same_mask h)) ∙ sym (or_false _)
  add_names_hold (raw ∷ rest) mask seen m met h n named =
      elim (steps to_lower (str_eq (normal_name to_lower raw) "")
        (has_permission seen (normal_name to_lower raw)) (bit_named (normal_name to_lower raw))
        (add_names to_lower mask seen rest) mask
        (λ k. add_names to_lower k (normal_name to_lower raw ∷ seen) rest) h) [
          | inl (blank, again) ↦
              add_names_hold rest mask seen m met again n named
              ∙ ap (λ b. holds mask n || (b || has_permission (map (normal_name to_lower) rest) n))
                  (sym (
                    is_false (λ k. named (
                      sym ((eq_iff (normal_name to_lower raw) n).0 k)
                      ∙ (eq_iff (normal_name to_lower raw) "").0 blank))))
          | inr (inl (old, again)) ↦
              add_names_hold rest mask seen m met again n named
              ∙ absorbed (holds mask n) (str_eq (normal_name to_lower raw) n) _ (λ k.
                subst (λ x. holds mask x ≡ true) ((eq_iff (normal_name to_lower raw) n).0 k)
                  (met (normal_name to_lower raw) old))
          | inr (inr (x, known, next)) ↦
              add_names_hold rest (bit_or mask x.bit) (normal_name to_lower raw ∷ seen) m
                (Met-more mask seen (normal_name to_lower raw) x known met) next n named
              ∙ ap (λ b. b || has_permission (map (normal_name to_lower) rest) n)
                  (holds_found mask (normal_name to_lower raw) n known)
              ∙ or_assoc (holds mask n) (str_eq (normal_name to_lower raw) n) _
        ]

  -- The mask that `PermissionsMaskFromNames` makes of some names holds, as `PermissionNamesFromMask`
  -- lists it, a name that is not blank exactly when it is one of them, trimmed and in lower case.
  pub permissions_mask_from_names-names :
      (names : List String) (m : ℕ)
      → permissions_mask_from_names to_lower names ≡ ok m
      → (n : String) → n ≢ ""
      → has_permission (permission_names_from_mask m) n
        ≡ has_permission (map (normal_name to_lower) names) n
  unfolding permissions_mask_from_names
  permissions_mask_from_names-names names m h n named =
      names_from_mask_held m n
      ∙ add_names_hold names 0 [] m (λ s k. absurd cc) h n named
      ∙ ap (λ b. b || has_permission (map (normal_name to_lower) names) n)
          (held-zero permission_registry n)
