-- ===== src/Number/Natural.antt =====
-- Natural numbers among the safe integers.
use native.Mathlib.Nat.{mul-div_cancel, mul-mod_left, div-add-mod}
use newtondb.Number.{
  Number, finite, negative_zero, nan, infinity, negative_infinity, one, units, is_finite,
  is_safe_integer, is_negative, to_natural, from_natural, same, max_safe_integer,
}
use newtondb.Prelude.Int.{pos, negsuc}
use newtondb.Prelude.{ℕ, ◌*◌, ◌/◌, ◌%◌, ◌≡◌, ◌≤◌, ◌<◌, true, some, arith}

one_positive : 0 < one
unfolding one
one_positive = omega arith

div_one : (n : ℕ) → n * one / one ≡ n
div_one n = mul-div_cancel n one_positive

mod_one : (n : ℕ) → n * one % one ≡ 0
mod_one n = mul-mod_left n one

pub to_natural-from_natural : (n : ℕ) → n ≤ max_safe_integer → to_natural (from_natural n) ≡ some n
unfolding to_natural from_natural is_safe_integer is_finite units is_negative
to_natural-from_natural n h = ground (arith, div_one n, mod_one n, h)

exact : (n : ℕ) → n % one ≡ 0 → n / one * one ≡ n
exact n h = omega (arith, div-add-mod n one, h)

pub same-from_natural :
    (x : Number) (n : ℕ)
    → to_natural x ≡ some n
    → (n ≤ max_safe_integer) × (same x (from_natural n) ≡ true)
unfolding to_natural from_natural is_safe_integer is_finite units is_negative same
same-from_natural (finite (pos m)) n h = (ground (arith, h), ground (arith, h, exact m))
same-from_natural (finite (negsuc m)) n h = absurd (ground (arith, h))
same-from_natural negative_zero n h = (ground (arith, h), ground (arith, h))
same-from_natural nan n h = absurd (ground (arith, h))
same-from_natural infinity n h = absurd (ground (arith, h))
same-from_natural negative_infinity n h = absurd (ground (arith, h))
