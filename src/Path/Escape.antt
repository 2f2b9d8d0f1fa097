-- ===== src/Path/Escape.antt =====
-- The escapes of a pointer, and the digits of a numeric token.
use newtondb.Path.Pointer.{
  replace_char, replace_pair, are_digits, is_numeral, is_digit, digits_value, has_invalid_escape,
  numeral_of,
}
use newtondb.Prelude.{
  ℕ, zero, suc, ◌+◌, ◌/◌, ◌%◌, ◌≡◌, ◌≤◌, ◌<◌, refl, ap, ◌∙◌, true, false, none, [], ◌∷◌, nat_beq,
  if◌then◌else◌, Bool-cases, inl, inr, arith,
}
use newtondb.Runtime.{decimal, decimal_from}
use newtondb.Text.{Text}

-- Both escapes at once.
abbrev pub escaped : Text → Text
escaped [] = []
escaped (c ∷ s) =
    let rest = escaped s in
    if nat_beq c 126 then 126 ∷ 48 ∷ rest else if nat_beq c 47 then 126 ∷ 49 ∷ rest else c ∷ rest

pub escaped_eq :
    (s : Text) → replace_char 47 (126 ∷ 49 ∷ []) (replace_char 126 (126 ∷ 48 ∷ []) s) ≡ escaped s
unfolding replace_char
escaped_eq [] = refl
escaped_eq (c ∷ s) = ground (arith, escaped_eq s)

pub slashes_back :
    (s : Text) → replace_pair 126 49 47 false (escaped s) ≡ replace_char 126 (126 ∷ 48 ∷ []) s
unfolding replace_pair replace_char
slashes_back [] = refl
slashes_back (c ∷ s) = ground (arith, slashes_back s)

pub tildes_back :
    (s : Text) → replace_pair 126 48 126 false (replace_char 126 (126 ∷ 48 ∷ []) s) ≡ s
unfolding replace_pair replace_char
tildes_back [] = refl
tildes_back (c ∷ s) = ground (arith, tildes_back s)

escape_later :
    (c : ℕ) (s : Text) → nat_beq c 126 ≡ false → has_invalid_escape (c ∷ s) ≡ has_invalid_escape s
unfolding has_invalid_escape
escape_later c [] h = ground (arith, h)
escape_later c (d ∷ s) h = ground (arith, h)

pub escaped_valid : (s : Text) → has_invalid_escape (escaped s) ≡ false
unfolding has_invalid_escape
escaped_valid [] = refl
escaped_valid (c ∷ s) = ground (
  arith,
  escaped_valid s,
  escape_later c (escaped s),
  escape_later 48 (escaped s),
  escape_later 49 (escaped s),
)

pub escaped_no_numeral : (s : Text) → numeral_of (escaped s) ≡ none
unfolding numeral_of
escaped_no_numeral [] = refl
escaped_no_numeral (c ∷ s) = at (escaped s)
  where
    at :
        (t : Text)
        → numeral_of
            (if nat_beq c 126 then 126 ∷ 48 ∷ t else if nat_beq c 47 then 126 ∷ 49 ∷ t else c ∷ t)
          ≡ none
    at [] = ground arith
    at (d ∷ t) = ground arith

-- No character is a slash.
abbrev pub IsWhole : Text → Type 0
IsWhole [] = Unit
IsWhole (c ∷ s) = (nat_beq c 47 ≡ false) × IsWhole s

pub escaped-IsWhole : (s : Text) → IsWhole (escaped s)
escaped-IsWhole [] = tt
escaped-IsWhole (c ∷ s) = elim (Bool-cases (nat_beq c 126)) [
  | inl e ↦ rw e (refl, (refl, escaped-IsWhole s))
  | inr e ↦ elim (Bool-cases (nat_beq c 47)) [
    | inl f ↦ rw (e, f) (refl, (refl, escaped-IsWhole s))
    | inr f ↦ rw (e, f) (f, escaped-IsWhole s)
  ]
]

pub digits-IsWhole : (s : Text) → are_digits s ≡ true → IsWhole s
unfolding are_digits
digits-IsWhole [] h = tt
digits-IsWhole (c ∷ s) h = (ground (arith, h), digits-IsWhole s (ground (arith, h)))

decimal_from_value :
    (f n : ℕ) (rest : Text) → n < f → digits_value 0 (decimal_from f n rest) ≡ digits_value n rest
unfolding digits_value decimal_from
decimal_from_value zero n rest h = absurd (omega (arith, h))
decimal_from_value (suc f) n rest h = elim (Bool-cases (nat_beq (n / 10) 0)) [
  | inl e ↦ rw e (ap (λ x. digits_value x rest) (ground (arith, e)))
  | inr e ↦ rw e (
      decimal_from_value f (n / 10) ((48 + n % 10) ∷ rest) (ground (arith, e, h))
      ∙ ap (λ x. digits_value x rest) (ground arith))
]

-- The digits of a number: the first is no 0 unless the number is 0.
abbrev IsLed : ℕ → Text → Type 0
IsLed n [] = ⊥
IsLed n (c ∷ s) = (is_digit c ≡ true) × (are_digits s ≡ true) × (0 < n → 49 ≤ c)

decimal_from-IsLed :
    (f n : ℕ) (rest : Text) → n < f → are_digits rest ≡ true → IsLed n (decimal_from f n rest)
unfolding are_digits decimal_from
decimal_from-IsLed zero n rest h d = absurd (omega (arith, h))
decimal_from-IsLed (suc f) n rest h d = elim (Bool-cases (nat_beq (n / 10) 0)) [
  | inl e ↦ rw e (ground arith, d, λ p. ground (arith, e, p))
  | inr e ↦ rw e (
      led (decimal_from f (n / 10) ((48 + n % 10) ∷ rest)) (ground (arith, e)) (
        decimal_from-IsLed f (n / 10) ((48 + n % 10) ∷ rest) (ground (arith, e, h))
          (ground (arith, d))))
]
  where
    led : (s : Text) → 0 < n / 10 → IsLed (n / 10) s → IsLed n s
    led [] q l = l
    led (c ∷ s) q l = (l.0, l.1, λ p. l.2 q)

pub decimal_value : (n : ℕ) → digits_value 0 (decimal n) ≡ n
unfolding decimal digits_value
decimal_value n = decimal_from_value (suc n) n [] (omega arith)

pub decimal_numeral : (n : ℕ) → (is_numeral (decimal n) ≡ true) × (are_digits (decimal n) ≡ true)
unfolding decimal is_numeral are_digits
decimal_numeral zero = (refl, refl)
decimal_numeral (suc n) =
    led (decimal_from (suc (suc n)) (suc n) [])
      (decimal_from-IsLed (suc (suc n)) (suc n) [] (omega arith) refl)
  where
    led : (s : Text) → IsLed (suc n) s → (is_numeral s ≡ true) × (are_digits s ≡ true)
    led [] l = absurd l
    led (c ∷ []) l = (l.0, ground (arith, l.0))
    led (c ∷ d ∷ s) l =
        let first = l.2 (omega arith) in (ground (arith, l.0, l.1, first), ground (arith, l.0, l.1))
