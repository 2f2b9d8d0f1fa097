-- ===== src/Scanner/Lengths.antt =====
-- How much of a text each step of the scanner leaves.
use newtondb.Prelude.{
  ℕ, ◌≡◌, ◌≤◌, ◌<◌, refl, Bool, true, false, Option, none, some, [], ◌∷◌, length, nat_beq, nat_eq,
  list_eq, Bool-cases, Option-cases, inl, inr, arith,
}
use newtondb.Scanner.{
  ScanError, exhausted, Scan, found, failed, ◌>>=◌, skip_whitespace, expect, is_digit, StringMode,
  next_mode, closes, push, string_body, skip_digits, integer_part, digits_after, fraction,
  skip_sign, exponent, skip_minus, scan_number, after_literal, or_else, scan_word,
}
use newtondb.Text.{Text, codes}

abbrev pub is_exhausted : ScanError → Bool
is_exhausted exhausted = true
is_exhausted e = false

-- A value of less than this size, or a throw of the program's own.
abbrev pub IsBelow : {A : Type 0} → (A → ℕ) → ℕ → Scan A → Type 0
IsBelow size n (found a) = size a < n
IsBelow size n (failed e) = is_exhausted e ≡ false

pub IsBelow-bind :
    {A B : Type 0} (size : A → ℕ) (n : ℕ) (size' : B → ℕ) (k : ℕ) (m : Scan A) (f : A → Scan B)
    → IsBelow size n m
    → ((a : A) → size a < n → IsBelow size' k (f a))
    → IsBelow size' k (m >>= f)
IsBelow-bind size n size' k (found a) f h g = g a h
IsBelow-bind size n size' k (failed e) f h g = h

pub skip_whitespace-length : (s : Text) → length (skip_whitespace s) ≤ length s
unfolding skip_whitespace
skip_whitespace-length [] = omega arith
skip_whitespace-length (c ∷ s) = ground (arith, skip_whitespace-length s)

pub expect-IsBelow : (c : ℕ) (s : Text) → IsBelow length (length s) (expect c s)
unfolding expect
expect-IsBelow c [] = refl
expect-IsBelow c (d ∷ s) = elim (Bool-cases (nat_beq d c)) [
  | inl e ↦ rw e (omega arith)
  | inr e ↦ rw e refl
]

abbrev pub after : {A : Type 0} → A × Text → ℕ
after p = length p.1

pub string_body-IsBelow :
    (mode : StringMode) (s : Text) → IsBelow after (length s) (string_body mode s)
unfolding string_body
string_body-IsBelow mode [] = refl
string_body-IsBelow mode (c ∷ s) = elim (Bool-cases (closes mode c)) [
  | inl e ↦ rw e (omega arith)
  | inr e ↦ elim (Option-cases (next_mode mode c)) [
    | inl f ↦ rw (e, f) refl
    | inr (mode', f) ↦
        rw (e, f)
          (IsBelow-bind after (length s) after (length (c ∷ s)) (string_body mode' s) (push c)
            (string_body-IsBelow mode' s) (λ p h. omega (arith, h)))
  ]
]

skip_digits-length : (s : Text) → length (skip_digits s) ≤ length s
unfolding skip_digits
skip_digits-length [] = omega arith
skip_digits-length (c ∷ s) = ground (arith, skip_digits-length s)

digits_after-length :
    (text s : Text) → length s ≤ length text → length (digits_after text s) ≤ length text
unfolding digits_after
digits_after-length text [] h = omega arith
digits_after-length text (c ∷ s) h = ground (arith, h, skip_digits-length s)

fraction-length : (s : Text) → length (fraction s) ≤ length s
unfolding fraction
fraction-length [] = omega arith
fraction-length (c ∷ s) = ground (arith, digits_after-length (c ∷ s) s (omega arith))

skip_sign-length : (s : Text) → length (skip_sign s) ≤ length s
unfolding skip_sign
skip_sign-length [] = omega arith
skip_sign-length (c ∷ s) = ground arith

exponent-length : (s : Text) → length (exponent s) ≤ length s
unfolding exponent
exponent-length [] = omega arith
exponent-length (c ∷ s) =
    ground (arith, digits_after-length (c ∷ s) (skip_sign s) (omega (arith, skip_sign-length s)))

skip_minus-length : (s : Text) → length (skip_minus s) ≤ length s
unfolding skip_minus
skip_minus-length [] = omega arith
skip_minus-length (c ∷ s) = ground arith

-- What is left of a text, if anything matched.
abbrev pub IsShorter : Option Text → ℕ → Type 0
IsShorter none n = Unit
IsShorter (some s) n = length s ≤ n

integer_part-IsShorter : (s : Text) → IsShorter (integer_part s) (length s)
unfolding integer_part
integer_part-IsShorter [] = tt
integer_part-IsShorter (c ∷ s) = elim (Bool-cases (nat_beq c 48)) [
  | inl e ↦ rw e (omega arith)
  | inr e ↦ elim (Bool-cases (is_digit c)) [
    | inl f ↦ rw (e, f) (omega (arith, skip_digits-length s))
    | inr f ↦ rw (e, f) tt
  ]
]

scan_number-IsShorter : (s : Text) → IsShorter (scan_number s) (length s)
unfolding scan_number
scan_number-IsShorter s = at (integer_part (skip_minus s)) (integer_part-IsShorter (skip_minus s))
  where
    at :
        (r : Option Text)
        → IsShorter r (length (skip_minus s))
        → IsShorter
            (elim r [ none ↦ none | some rest ↦ some (exponent (fraction rest)) ])
            (length s)
    at none h = tt
    at (some rest) h =
        omega (arith, h, skip_minus-length s, fraction-length rest, exponent-length (fraction rest))

after_literal-IsShorter : (l s : Text) → IsShorter (after_literal l s) (length s)
unfolding after_literal
after_literal-IsShorter [] s = omega arith
after_literal-IsShorter (c ∷ l) [] = tt
after_literal-IsShorter (c ∷ l) (d ∷ s) = elim (Bool-cases (nat_beq c d)) [
  | inl e ↦ rw e (wider (after_literal l s) (after_literal-IsShorter l s))
  | inr e ↦ rw e tt
]
  where
    wider : (r : Option Text) → IsShorter r (length s) → IsShorter r (length (d ∷ s))
    wider none h = tt
    wider (some x) h = omega (arith, h)

or_else-IsShorter :
    (x y : Option Text) (n : ℕ) → IsShorter x n → IsShorter y n → IsShorter (or_else x y) n
or_else-IsShorter none y n h g = g
or_else-IsShorter (some x) y n h g = h

pub scan_word-IsShorter : (s : Text) → IsShorter (scan_word s) (length s)
unfolding scan_word
scan_word-IsShorter s =
    or_else-IsShorter _ _ (length s) (after_literal-IsShorter (codes "true") s) (
      or_else-IsShorter _ _ (length s) (after_literal-IsShorter (codes "false") s) (
        or_else-IsShorter _ _ (length s) (after_literal-IsShorter (codes "null") s)
          (scan_number-IsShorter s)))
