-- ===== src/Identity/Masks.antt =====
-- Permission masks (internal/modules/identity/domain/access.go) as sets of names.
use send_flow_backend.Prelude.{
  ℕ, ◌+◌, ◌≤◌, String, ◌≡◌, refl, sym, ap, ◌∙◌, Bool, true, false, ◌||◌, ◌&&◌, not, List, [], ◌∷◌,
  if◌then◌else◌, any, ◌==◌, arith,
}
use send_flow_backend.Prelude.Text.{str_eq}
use send_flow_backend.Prelude.Bits.{union_meets, nothing_common}
use send_flow_backend.Identity.Access.{
  Permission, Role, permission_registry, has_bit, insert_text, sort_texts, names_of,
  permission_names_from_mask, union_of, effective_permissions, has_permission,
}
use Prim.Native.Nat.{bit_and, bit_or}

or_swap : (a b c : Bool) → (a || (b || c)) ≡ (b || (a || c))
or_swap true true c = refl
or_swap true false c = refl
or_swap false b c = refl

pub or_assoc : (a b c : Bool) → ((a || b) || c) ≡ (a || (b || c))
or_assoc true b c = refl
or_assoc false b c = refl

has_permission-insert :
    (s : String) (l : List String) (n : String)
    → has_permission (insert_text s l) n ≡ (str_eq s n || has_permission l n)
has_permission-insert s [] n = refl
has_permission-insert s (t ∷ ts) n = placed _ (has_permission-insert s ts n)
  where
    placed :
        (b : Bool)
        → has_permission (insert_text s ts) n ≡ (str_eq s n || has_permission ts n)
        → has_permission (if b then t ∷ insert_text s ts else s ∷ t ∷ ts) n
          ≡ (str_eq s n || (str_eq t n || has_permission ts n))
    placed true h = ap (λ c. str_eq t n || c) h ∙ or_swap (str_eq t n) (str_eq s n) _
    placed false h = refl

has_permission-sort :
    (l : List String) (n : String) → has_permission (sort_texts l) n ≡ has_permission l n
has_permission-sort [] n = refl
has_permission-sort (s ∷ ss) n =
    has_permission-insert s (sort_texts ss) n ∙ ap (λ b. str_eq s n || b) (has_permission-sort ss n)

-- Whether a mask holds the permission of that name.
abbrev pub held : ℕ → List Permission → String → Bool
held mask registry n = has_permission (names_of mask registry) n

pub names_from_mask_held :
    (mask : ℕ) (n : String)
    → has_permission (permission_names_from_mask mask) n ≡ held mask permission_registry n
unfolding permission_names_from_mask
names_from_mask_held mask n = has_permission-sort (names_of mask permission_registry) n

has_bit-union : (a b : ℕ) (x : Permission) → has_bit (bit_or a b) x ≡ (has_bit a x || has_bit b x)
unfolding has_bit
has_bit-union a b x =
    let m = union_meets a b x.bit in
    count (bit_and (bit_or a b) x.bit) (bit_and a x.bit) (bit_and b x.bit) m.left m.right m.no_more
  where
    count : (u v w : ℕ) → v ≤ u → w ≤ u → u ≤ v + w → not (u == 0) ≡ (not (v == 0) || not (w == 0))
    count u v w h k l = ground arith

held-if :
    (b : Bool) (x : Permission) (l : List String) (n : String)
    → has_permission (if b then x.name ∷ l else l) n
      ≡ ((b && str_eq x.name n) || has_permission l n)
held-if true x l n = refl
held-if false x l n = refl

both_or : (a b s l m : Bool) → (((a || b) && s) || (l || m)) ≡ (((a && s) || l) || ((b && s) || m))
both_or true b true l m = refl
both_or true true false l m = refl
both_or true false false l m = refl
both_or false true true true m = refl
both_or false true true false m = refl
both_or false true false l m = refl
both_or false false s l m = refl

-- The names of a union of masks are those of either.
pub held-union :
    (a b : ℕ) (registry : List Permission) (n : String)
    → held (bit_or a b) registry n ≡ (held a registry n || held b registry n)
held-union a b [] n = refl
held-union a b (x ∷ xs) n =
    held-if (has_bit (bit_or a b) x) x _ n
    ∙ ap (λ c. (c && str_eq x.name n) || held (bit_or a b) xs n) (has_bit-union a b x)
    ∙ ap (λ c. ((has_bit a x || has_bit b x) && str_eq x.name n) || c) (held-union a b xs n)
    ∙ both_or (has_bit a x) (has_bit b x) (str_eq x.name n) (held a xs n) (held b xs n)
    ∙ ap (λ c. c || ((has_bit b x && str_eq x.name n) || held b xs n))
        (sym (held-if (has_bit a x) x _ n))
    ∙ ap (λ c. held a (x ∷ xs) n || c) (sym (held-if (has_bit b x) x _ n))

pub held-zero : (registry : List Permission) (n : String) → held 0 registry n ≡ false
unfolding has_bit
held-zero [] n = refl
held-zero (x ∷ xs) n =
    held-if (has_bit 0 x) x _ n
    ∙ ap (λ c. (c && str_eq x.name n) || held 0 xs n) (no_bit x)
    ∙ held-zero xs n
  where
    nothing : {k : ℕ} → k ≡ 0 → not (k == 0) ≡ false
    nothing h = ground arith

    no_bit : (y : Permission) → has_bit 0 y ≡ false
    no_bit y = nothing (nothing_common y.bit)

held-union_of :
    (mask : ℕ) (roles : List Role) (n : String)
    → held (union_of mask roles) permission_registry n ≡ (
        held mask permission_registry n
        || any
            (λ (r : Role). has_permission (permission_names_from_mask r.permissions_mask) n)
            roles)
held-union_of mask [] n = sym (or_false _)
  where
    or_false : (b : Bool) → (b || false) ≡ b
    or_false true = refl
    or_false false = refl
held-union_of mask (r ∷ rs) n =
    held-union_of (bit_or mask r.permissions_mask) rs n
    ∙ ap
        (λ c.
          c
          || any (λ (r : Role). has_permission (permission_names_from_mask r.permissions_mask) n)
              rs)
        (held-union mask r.permissions_mask permission_registry n)
    ∙ or_assoc (held mask permission_registry n) (held r.permissions_mask permission_registry n) _
    ∙ ap
        (λ c.
          held mask permission_registry n
          || (c
              || any
                  (λ (r : Role). has_permission (permission_names_from_mask r.permissions_mask) n)
                  rs))
        (sym (names_from_mask_held r.permissions_mask n))

-- A name is among the effective permissions of some roles exactly when it is among the permissions of
-- one of them.
pub effective_permissions-union :
    (roles : List Role) (n : String)
    → has_permission (effective_permissions roles) n
      ≡ any (λ (r : Role). has_permission (permission_names_from_mask r.permissions_mask) n) roles
unfolding effective_permissions
effective_permissions-union roles n =
    names_from_mask_held (union_of 0 roles) n
    ∙ held-union_of 0 roles n
    ∙ ap
        (λ c.
          c
          || any (λ (r : Role). has_permission (permission_names_from_mask r.permissions_mask) n)
              roles)
        (held-zero permission_registry n)
