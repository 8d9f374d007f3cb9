-- ===== src/Prelude/Bits.antt =====
-- The digits of `bit_and` and `bit_or`, one step at a time, and what a union of masks has in common
-- with a third.
use Prim.Native.Nat.{
  ℕ, zero, suc, ◌+◌, ◌*◌, ◌/◌, ◌%◌, ◌≤◌, min, max, bit_and, bit_or, digits, bit_and-bitwise,
  bit_or-bitwise,
}
use mathlib.Core.Path.{◌≡◌, refl, ap, ◌∙◌}
use native.Mathlib.Omega.{arith}

module _ (z : ℕ → ℕ) (f : ℕ → ℕ → ℕ) where
  -- Two counts of steps that both reach the last digit of `a` give the same digits.
  either_count : (a b m k : ℕ) → a ≤ m → a ≤ k → digits z f m a b ≡ digits z f k a b
  either_count zero b zero zero p q = refl
  either_count zero b zero (suc k) p q = refl
  either_count zero b (suc m) zero p q = refl
  either_count zero b (suc m) (suc k) p q = refl
  either_count (suc a) b zero k p q = absurd (omega arith)
  either_count (suc a) b (suc m) zero p q = absurd (omega arith)
  either_count (suc a) b (suc m) (suc k) p q =
      ap (λ rest. rest * 2 + f (suc a % 2) (b % 2))
        (either_count (suc a / 2) (b / 2) m k (omega arith) (omega arith))

  upper_digits :
      (a b : ℕ) → digits z f a (suc a / 2) (b / 2) ≡ digits z f (suc a / 2) (suc a / 2) (b / 2)
  upper_digits a b = either_count (suc a / 2) (b / 2) a (suc a / 2) (omega arith) (omega arith)

pub nothing_common : (c : ℕ) → bit_and 0 c ≡ 0
nothing_common c = bit_and-bitwise 0 c

join_nothing : (c : ℕ) → bit_or 0 c ≡ c
join_nothing c = bit_or-bitwise 0 c

common_digit : (x c : ℕ) → bit_and x c ≡ bit_and (x / 2) (c / 2) * 2 + min (x % 2) (c % 2)
common_digit (suc x) c =
    let upper = upper_digits (λ d. zero) min x c in
    let rest = bit_and-bitwise (suc x / 2) (c / 2) in
    omega (arith, bit_and-bitwise (suc x) c, rest, upper)
common_digit zero c = omega (arith, nothing_common (c / 2), nothing_common c)

joined_digit : (x c : ℕ) → bit_or x c ≡ bit_or (x / 2) (c / 2) * 2 + max (x % 2) (c % 2)
joined_digit (suc x) c =
    let upper = upper_digits (λ d. d) max x c in
    let rest = bit_or-bitwise (suc x / 2) (c / 2) in
    omega (arith, bit_or-bitwise (suc x) c, rest, upper)
joined_digit zero c = omega (arith, join_nothing (c / 2), join_nothing c)

bit_or-half : (a b : ℕ) → bit_or a b / 2 ≡ bit_or (a / 2) (b / 2)
bit_or-half a b = omega (arith, joined_digit a b)

bit_or-parity : (a b : ℕ) → bit_or a b % 2 ≡ max (a % 2) (b % 2)
bit_or-parity a b = omega (arith, joined_digit a b)

common_with_zero : (fuel x : ℕ) → x ≤ fuel → bit_and x 0 ≡ 0
common_with_zero zero zero le = nothing_common 0
common_with_zero (suc fuel) zero le = nothing_common 0
common_with_zero zero (suc x) le = absurd (omega arith)
common_with_zero (suc fuel) (suc x) le =
    let upper = common_with_zero fuel (suc x / 2) (omega arith) in
    omega (arith, upper, common_digit (suc x) 0)

meets_step :
    (a b c : ℕ)
    → bit_and (bit_or a b) c
      ≡ bit_and (bit_or (a / 2) (b / 2)) (c / 2) * 2 + min (max (a % 2) (b % 2)) (c % 2)
meets_step a b c =
    common_digit (bit_or a b) c
    ∙ ap (λ x. bit_and x (c / 2) * 2 + min (bit_or a b % 2) (c % 2)) (bit_or-half a b)
    ∙ ap (λ x. bit_and (bit_or (a / 2) (b / 2)) (c / 2) * 2 + min x (c % 2)) (bit_or-parity a b)

-- A union has what either has, and no more.
pub record UnionMeets (a b c : ℕ) : Type 0 where
  pub left : bit_and a c ≤ bit_and (bit_or a b) c
  pub right : bit_and b c ≤ bit_and (bit_or a b) c
  pub no_more : bit_and (bit_or a b) c ≤ bit_and a c + bit_and b c

UnionMeets-from : (n a b c : ℕ) → c ≤ n → UnionMeets a b c
UnionMeets-from n a b zero h =
    let z = common_with_zero a a (omega arith) in
    let w = common_with_zero b b (omega arith) in
    let u = common_with_zero (bit_or a b) (bit_or a b) (omega arith) in
    record {
      left = omega (arith, z, u);
      right = omega (arith, w, u);
      no_more = omega (arith, z, w, u);
    }
UnionMeets-from zero a b (suc c) h = absurd (omega arith)
UnionMeets-from (suc n) a b (suc c) h =
    let rest = UnionMeets-from n (a / 2) (b / 2) (suc c / 2) (omega arith) in
    let first = common_digit a (suc c) in
    let second = common_digit b (suc c) in
    let joint = meets_step a b (suc c) in
    record {
      left = omega (arith, rest.left, first, joint);
      right = omega (arith, rest.right, second, joint);
      no_more = omega (arith, rest.no_more, first, second, joint);
    }

pub union_meets : (a b c : ℕ) → UnionMeets a b c
union_meets a b c = UnionMeets-from c a b c (omega arith)
