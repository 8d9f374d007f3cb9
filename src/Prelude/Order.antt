-- ===== src/Prelude/Order.antt =====
-- Comparisons of numbers and of texts, and of pairs by their first parts and then by their second.
use Prim.Native.Nat.compare as compare_ℕ
use Prim.Native.Nat.{ℕ, zero, suc, Ordering, compare as compare_ℕ}
use Prim.Native.Char.{code}
use Prim.Native.String.compare
use Prim.Native.String.{String, [], ◌∷◌, compare, then}
use mathlib.Core.Path.{◌≡◌, refl, sym, ap, ◌∙◌}
use mathlib.Core.Bool.{Bool, true, false}
use text.Mathlib.TextEquality.{path_by_compare}

abbrev pub is_lt : Ordering → Bool
is_lt Ordering.lt = true
is_lt Ordering.eq = false
is_lt Ordering.gt = false

abbrev pub flip : Ordering → Ordering
flip Ordering.lt = Ordering.gt
flip Ordering.eq = Ordering.eq
flip Ordering.gt = Ordering.lt

pub record Compares {A : Type 0} (cmp : A → A → Ordering) : Type 0 where
  pub flips : (x y : A) → cmp y x ≡ flip (cmp x y)
  pub equal : (x y : A) → cmp x y ≡ Ordering.eq → x ≡ y
  pub lt_trans : (x y z : A) → cmp x y ≡ Ordering.lt → cmp y z ≡ Ordering.lt → cmp x z ≡ Ordering.lt

pub compare_self :
    {A : Type 0} {cmp : A → A → Ordering} → Compares cmp → (x : A) → cmp x x ≡ Ordering.eq
compare_self {A} {cmp} c x = go (cmp x x) (c.flips x x)
  where
    go : (o : Ordering) → o ≡ flip o → o ≡ Ordering.eq
    go Ordering.lt h = cc
    go Ordering.eq h = refl
    go Ordering.gt h = cc

number_flips : (m n : ℕ) → compare_ℕ n m ≡ flip (compare_ℕ m n)
number_flips zero zero = compare_ℕ.zero-zero ∙ ap flip (sym compare_ℕ.zero-zero)
number_flips zero (suc n) = compare_ℕ.suc-zero n ∙ ap flip (sym (compare_ℕ.zero-suc n))
number_flips (suc m) zero = compare_ℕ.zero-suc m ∙ ap flip (sym (compare_ℕ.suc-zero m))
number_flips (suc m) (suc n) =
    compare_ℕ.suc-suc n m ∙ number_flips m n ∙ ap flip (sym (compare_ℕ.suc-suc m n))

number_equal : (m n : ℕ) → compare_ℕ m n ≡ Ordering.eq → m ≡ n
number_equal zero zero h = refl
number_equal zero (suc n) h = cc (sym (compare_ℕ.zero-suc n) ∙ h)
number_equal (suc m) zero h = cc (sym (compare_ℕ.suc-zero m) ∙ h)
number_equal (suc m) (suc n) h = ap suc (number_equal m n (sym (compare_ℕ.suc-suc m n) ∙ h))

number_trans :
    (k m n : ℕ)
    → compare_ℕ k m ≡ Ordering.lt
    → compare_ℕ m n ≡ Ordering.lt
    → compare_ℕ k n ≡ Ordering.lt
number_trans zero zero n h l = cc
number_trans zero (suc m) zero h l = cc (sym (compare_ℕ.suc-zero m) ∙ l)
number_trans zero (suc m) (suc n) h l = compare_ℕ.zero-suc n
number_trans (suc k) zero n h l = cc (sym (compare_ℕ.suc-zero k) ∙ h)
number_trans (suc k) (suc m) zero h l = cc (sym (compare_ℕ.suc-zero m) ∙ l)
number_trans (suc k) (suc m) (suc n) h l =
    compare_ℕ.suc-suc k n
    ∙ number_trans k m n (sym (compare_ℕ.suc-suc k m) ∙ h) (sym (compare_ℕ.suc-suc m n) ∙ l)

pub number-Compares : Compares compare_ℕ
number-Compares = record { flips = number_flips; equal = number_equal; lt_trans = number_trans }

pub flip-then : (o p : Ordering) → then (flip o) (flip p) ≡ flip (then o p)
flip-then Ordering.lt p = refl
flip-then Ordering.eq p = refl
flip-then Ordering.gt p = refl

-- First by `cmp`, then by other answers.
pub then_trans :
    {A : Type 0} {cmp : A → A → Ordering}
    → Compares cmp
    → (x y z : A) (o p q : Ordering) → (o ≡ Ordering.lt → p ≡ Ordering.lt → q ≡ Ordering.lt)
    → then (cmp x y) o ≡ Ordering.lt
    → then (cmp y z) p ≡ Ordering.lt
    → then (cmp x z) q ≡ Ordering.lt
then_trans {A} {cmp} c x y z o p q k h l = go (cmp x y) (cmp y z) refl refl h l
  where
    go :
        (a b : Ordering)
        → cmp x y ≡ a
        → cmp y z ≡ b
        → then a o ≡ Ordering.lt
        → then b p ≡ Ordering.lt
        → then (cmp x z) q ≡ Ordering.lt
    go Ordering.lt Ordering.lt d e h l = rw (c.lt_trans x y z d e) refl
    go Ordering.lt Ordering.eq d e h l = rw (← c.equal y z e, d) refl
    go Ordering.lt Ordering.gt d e h l = cc
    go Ordering.eq Ordering.lt d e h l = rw (c.equal x y d, e) refl
    go Ordering.eq Ordering.eq d e h l = rw (c.equal x y d, e) (k h l)
    go Ordering.eq Ordering.gt d e h l = cc
    go Ordering.gt b d e h l = cc

text_flips : (s t : String) → compare t s ≡ flip (compare s t)
text_flips [] [] = compare.nil-nil ∙ ap flip (sym compare.nil-nil)
text_flips [] (d ∷ t) = compare.cons-nil d t ∙ ap flip (sym (compare.nil-cons d t))
text_flips (c ∷ s) [] = compare.nil-cons c s ∙ ap flip (sym (compare.cons-nil c s))
text_flips (c ∷ s) (d ∷ t) =
    compare.cons-cons d c t s
    ∙ rw (number_flips (code c) (code d), text_flips s t)
        (flip-then (compare_ℕ (code c) (code d)) (compare s t))
    ∙ ap flip (sym (compare.cons-cons c d s t))

text_trans :
    (r s t : String)
    → compare r s ≡ Ordering.lt
    → compare s t ≡ Ordering.lt
    → compare r t ≡ Ordering.lt
text_trans [] [] t h l = cc
text_trans [] (d ∷ s) [] h l = cc (sym (compare.cons-nil d s) ∙ l)
text_trans [] (d ∷ s) (e ∷ t) h l = compare.nil-cons e t
text_trans (c ∷ r) [] t h l = cc (sym (compare.cons-nil c r) ∙ h)
text_trans (c ∷ r) (d ∷ s) [] h l = cc (sym (compare.cons-nil d s) ∙ l)
text_trans (c ∷ r) (d ∷ s) (e ∷ t) h l =
    compare.cons-cons c e r t
    ∙ then_trans number-Compares (code c) (code d) (code e) (compare r s) (compare s t)
        (compare r t) (text_trans r s t) (sym (compare.cons-cons c d r s) ∙ h)
        (sym (compare.cons-cons d e s t) ∙ l)

pub text-Compares : Compares compare
text-Compares = record { flips = text_flips; equal = path_by_compare; lt_trans = text_trans }
