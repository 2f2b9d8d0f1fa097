-- ===== src/Number.antt =====
-- JavaScript numbers. A finite double is a whole multiple of 2 ^ -1074, so `finite n` is n units of
-- that size, exactly; -0 is a value of its own. The model has every double, and no rounding occurs
-- in the code that is modelled.
pub mod Natural
use newtondb.Prelude.Int.{ℤ, pos, pos_part, neg_part, ltb_ℤ, beq_ℤ, beq_ℤ_iff}
use newtondb.Prelude.{
  ap, sym, ◌∙◌, ℕ, ◌+◌, ◌*◌, ◌/◌, ◌%◌, ◌^◌, ◌≡◌, refl, Bool, true, false, ◌&&◌, Option, none, some,
  arith, leb, nat_beq, if◌then◌else◌, ◌↔◌,
}

pub data Number : Type 0 where
  finite : ℤ → Number
  negative_zero nan infinity negative_infinity : Number

-- 1, in units
unfoldable pub one : ℕ
one = 2 ^ 1074

-- Number.MAX_SAFE_INTEGER
abbrev pub max_safe_integer : ℕ
max_safe_integer = 9007199254740991

unfoldable pub units : Number → ℤ
units (finite n) = n
units _ = pos 0

unfoldable pub is_finite : Number → Bool
is_finite (finite n) = true
is_finite negative_zero = true
is_finite _ = false

-- The numerator of a finite number as an integer, if it is a safe integer: its sign and magnitude.
unfoldable pub is_safe_integer : Number → Bool
unfolding units is_finite
is_safe_integer x =
    let n = pos_part (units x) + neg_part (units x) in
    is_finite x && nat_beq (n % one) 0 && leb (n / one) max_safe_integer

pub is_negative : Number → Bool
is_negative (finite n) = ltb_ℤ n (pos 0)
is_negative negative_infinity = true
is_negative _ = false

-- A non-negative safe integer, as an array index or a limit.
unfoldable pub to_natural : Number → Option ℕ
unfolding is_safe_integer is_negative
to_natural x =
    if is_safe_integer x
    then (if is_negative x then none else some (pos_part (units x) / one))
    else none

unfoldable pub from_natural : ℕ → Number
from_natural n = finite (pos (n * one))

-- `a === b`: NaN differs from itself, and 0 is -0
unfoldable pub same : Number → Number → Bool
same (finite a) (finite b) = beq_ℤ a b
same (finite a) negative_zero = beq_ℤ a (pos 0)
same negative_zero (finite b) = beq_ℤ (pos 0) b
same negative_zero negative_zero = true
same infinity infinity = true
same negative_infinity negative_infinity = true
same _ _ = false

-- `a < b`
unfoldable pub less : Number → Number → Bool
unfolding units
less nan b = false
less a nan = false
less infinity b = false
less a negative_infinity = false
less negative_infinity b = true
less a infinity = true
less a b = ltb_ℤ (units a) (units b)

-- `a <= b`
unfoldable pub at_most : Number → Number → Bool
unfolding less same
at_most a b = if less a b then true else same a b

-- `value === 0 ? 0 : value`
unfoldable pub normalized : Number → Number
normalized negative_zero = finite (pos 0)
normalized x = x

pub same_refl : (a : Number) → is_finite a ≡ true → same a a ≡ true
unfolding same is_finite
same_refl (finite a) h = (beq_ℤ_iff a a).1 refl
same_refl negative_zero h = refl
same_refl nan h = h
same_refl infinity h = refl
same_refl negative_infinity h = refl

-- `===` on finite numbers is equality up to the sign of zero.
pub same_iff-normalized :
    (a b : Number) → is_finite a ≡ true → (same a b ≡ true) ↔ (normalized a ≡ normalized b)
unfolding same normalized is_finite
same_iff-normalized a b h = ground arith

pub is_finite-normalized : (a : Number) → is_finite (normalized a) ≡ is_finite a
unfolding normalized is_finite
is_finite-normalized (finite a) = refl
is_finite-normalized negative_zero = refl
is_finite-normalized nan = refl
is_finite-normalized infinity = refl
is_finite-normalized negative_infinity = refl

-- Among finite numbers `<` is total up to `===`.
pub less_total :
    (a b : Number)
    → is_finite a ≡ true
    → is_finite b ≡ true
    → same a b ≡ false
    → less a b ≡ false
    → less b a ≡ true
unfolding same less is_finite
less_total a b ha hb d l = ground arith

pub safe-finite : (n : Number) → is_safe_integer n ≡ true → is_finite n ≡ true
unfolding is_safe_integer
safe-finite n h = ground arith

pub safe-normalized : (n : Number) → is_safe_integer (normalized n) ≡ is_safe_integer n
unfolding is_safe_integer normalized
safe-normalized (finite n) = refl
safe-normalized negative_zero = refl
safe-normalized nan = refl
safe-normalized infinity = refl
safe-normalized negative_infinity = refl

pub same-normalized : (a b : Number) → same (normalized a) (normalized b) ≡ same a b
unfolding same normalized
same-normalized a b = ground arith

same→normalized : (a b : Number) → same a b ≡ true → normalized a ≡ normalized b
unfolding same normalized
same→normalized a b h = ground arith

to_natural-normalized : (a : Number) → to_natural (normalized a) ≡ to_natural a
unfolding to_natural normalized units is_negative is_finite is_safe_integer
to_natural-normalized (finite n) = refl
to_natural-normalized negative_zero = refl
to_natural-normalized nan = refl
to_natural-normalized infinity = refl
to_natural-normalized negative_infinity = refl

-- An index is read by the number's value alone.
pub to_natural-same : (a b : Number) → same a b ≡ true → to_natural a ≡ to_natural b
to_natural-same a b h =
    sym (to_natural-normalized a) ∙ ap to_natural (same→normalized a b h) ∙ to_natural-normalized b

-- Numbers that are `===` are safe integers together.
pub is_safe_integer-same : (a b : Number) → same a b ≡ true → is_safe_integer a ≡ is_safe_integer b
is_safe_integer-same a b h =
    sym (safe-normalized a) ∙ ap is_safe_integer (same→normalized a b h) ∙ safe-normalized b
