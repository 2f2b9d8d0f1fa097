-- ===== src/Scanner/Words.antt =====
-- What the scanner skips and consumes are tokens of the grammar.
use newtondb.Prelude.{
  ℕ, ◌≡◌, refl, sym, ap, ◌∙◌, true, some, [], ◌∷◌, ◌++◌, ◌||◌, contains, nat_beq, nat_eq, list_eq,
  Bool-cases, Option-cases, inl, inr, ◌⊎◌, arith,
}
use newtondb.Scanner.{
  is_whitespace, is_digit, skip_whitespace, skip_digits, integer_part, digits_after, fraction,
  skip_sign, exponent, skip_minus, scan_number, after_literal, scan_word,
}
use newtondb.Scanner.Tokens.{
  After, IsDigit, AreDigits, IsNumeral, IsInteger, IsFraction, IsSigned, IsExponent, IsMinus,
  Numeric, Word,
}
use newtondb.Text.{Text, codes}

pub skip_whitespace-After : (s : Text) → After s (skip_whitespace s)
unfolding skip_whitespace contains
skip_whitespace-After [] = ([], tt, refl)
skip_whitespace-After (c ∷ s) = elim (Bool-cases (is_whitespace c)) [
  | inl e ↦
      let (spaces, blank, same) = skip_whitespace-After s in
      rw e (c ∷ spaces, (space c e, blank), ap (λ x. c ∷ x) same)
  | inr e ↦ rw e ([], tt, refl)
]
  where
    space : (c : ℕ) → is_whitespace c ≡ true → contains (32 ∷ 10 ∷ 13 ∷ 9 ∷ []) c ≡ true
    space c e = ground (arith, e)

digit : (c : ℕ) → is_digit c ≡ true → IsDigit c
digit c e = (ground (arith, e), ground (arith, e))

skip_digits-AreDigits : (s : Text) → (ds : Text) × AreDigits ds × (s ≡ ds ++ skip_digits s)
unfolding skip_digits
skip_digits-AreDigits [] = ([], tt, refl)
skip_digits-AreDigits (c ∷ s) = elim (Bool-cases (is_digit c)) [
  | inl e ↦
      let (ds, all, same) = skip_digits-AreDigits s in
      rw e (c ∷ ds, (digit c e, all), ap (λ x. c ∷ x) same)
  | inr e ↦ rw e ([], tt, refl)
]

-- Where digits follow, what is left comes after them; else the text itself is left.
digits_after-IsNumeral :
    (text s : Text)
    → ((ds : Text) × IsNumeral ds × (s ≡ ds ++ digits_after text s)) ⊎ (digits_after text s ≡ text)
unfolding digits_after
digits_after-IsNumeral text [] = inr refl
digits_after-IsNumeral text (c ∷ s) = elim (Bool-cases (is_digit c)) [
  | inl e ↦
      let (ds, all, same) = skip_digits-AreDigits s in
      rw e (inl (c ∷ ds, (digit c e, all), ap (λ x. c ∷ x) same))
  | inr e ↦ rw e (inr refl)
]

fraction-IsFraction : (s : Text) → (f : Text) × IsFraction f × (s ≡ f ++ fraction s)
unfolding fraction
fraction-IsFraction [] = ([], tt, refl)
fraction-IsFraction (c ∷ s) = elim (Bool-cases (nat_beq c 46)) [
  | inr e ↦ rw e ([], tt, refl)
  | inl e ↦ rw e (elim (digits_after-IsNumeral (c ∷ s) s) [
    | inl (ds, all, same) ↦ (c ∷ ds, (ground (arith, e), all), ap (λ x. c ∷ x) same)
    | inr same ↦ ([], tt, sym same)
  ])
]

skip_sign-IsSigned :
    (s ds rest : Text)
    → IsNumeral ds
    → skip_sign s ≡ ds ++ rest
    → (p : Text) × IsSigned p × (s ≡ p ++ rest)
unfolding skip_sign
skip_sign-IsSigned [] [] rest n same = absurd n
skip_sign-IsSigned [] (d ∷ ds) rest n same = absurd (ground (arith, same))
skip_sign-IsSigned (c ∷ s) [] rest n same = absurd n
skip_sign-IsSigned (c ∷ s) (d ∷ ds) rest n same = elim (Bool-cases (nat_beq c 43 || nat_beq c 45)) [
  | inl e ↦ (c ∷ d ∷ ds, inl (sign c e, n), ap (λ x. c ∷ x) (rw e at same))
  | inr e ↦ (d ∷ ds, inr n, rw e at same)
]
  where
    sign : (c : ℕ) → nat_beq c 43 || nat_beq c 45 ≡ true → (c ≡ 43) ⊎ (c ≡ 45)
    sign c e = elim (Bool-cases (nat_beq c 43)) [
      | inl f ↦ inl (ground (arith, f))
      | inr f ↦ inr (ground (arith, e, f))
    ]

exponent-IsExponent : (s : Text) → (p : Text) × IsExponent p × (s ≡ p ++ exponent s)
unfolding exponent
exponent-IsExponent [] = ([], tt, refl)
exponent-IsExponent (c ∷ s) = elim (Bool-cases (nat_beq c 101 || nat_beq c 69)) [
  | inr e ↦ rw e ([], tt, refl)
  | inl e ↦ rw e (elim (digits_after-IsNumeral (c ∷ s) (skip_sign s)) [
    | inl (ds, all, same) ↦
        let (p, signed, split) = skip_sign-IsSigned s ds _ all same in
        (c ∷ p, (power c e, signed), ap (λ x. c ∷ x) split)
    | inr same ↦ ([], tt, sym same)
  ])
]
  where
    power : (c : ℕ) → nat_beq c 101 || nat_beq c 69 ≡ true → (c ≡ 101) ⊎ (c ≡ 69)
    power c e = elim (Bool-cases (nat_beq c 101)) [
      | inl f ↦ inl (ground (arith, f))
      | inr f ↦ inr (ground (arith, e, f))
    ]

skip_minus-IsMinus : (s : Text) → (sign : Text) × IsMinus sign × (s ≡ sign ++ skip_minus s)
unfolding skip_minus
skip_minus-IsMinus [] = ([], inl refl, refl)
skip_minus-IsMinus (c ∷ s) = elim (Bool-cases (nat_beq c 45)) [
  | inl e ↦ rw e (45 ∷ [], inr refl, ap (λ x. x ∷ s) (ground (arith, e)))
  | inr e ↦ rw e ([], inl refl, refl)
]

integer_part-IsInteger :
    (s rest : Text)
    → integer_part s ≡ some rest
    → (whole : Text) × IsInteger whole × (s ≡ whole ++ rest)
unfolding integer_part
integer_part-IsInteger [] rest h = absurd (ground (arith, h))
integer_part-IsInteger (c ∷ s) rest h = elim (Bool-cases (nat_beq c 48)) [
  | inl e ↦ (c ∷ [], inl (ground (arith, e), refl), ap (λ x. c ∷ x) (ground (arith, h, e)))
  | inr e ↦ elim (Bool-cases (is_digit c)) [
    | inl f ↦
        let (ds, all, same) = skip_digits-AreDigits s in
        (
          c ∷ ds,
          inr ((ground (arith, e, f), ground (arith, f)), all),
          ap (λ x. c ∷ x) (same ∙ ap (λ x. ds ++ x) (ground (arith, h, e, f))),
        )
    | inr f ↦ absurd (ground (arith, h, e, f))
  ]
]

scan_number-Numeric : (s rest : Text) → scan_number s ≡ some rest → Numeric s rest
unfolding scan_number
scan_number-Numeric s rest h = elim (Option-cases (integer_part (skip_minus s))) [
  | inl e ↦ absurd (ground (arith, h, e))
  | inr (r, e) ↦
      let (sign, minus, same) = skip_minus-IsMinus s in
      let (whole, integer, same1) = integer_part-IsInteger (skip_minus s) r e in
      let (part, fractional, same2) = fraction-IsFraction r in
      let (power, exponential, same3) = exponent-IsExponent (fraction r) in
      let last : exponent (fraction r) ≡ rest = ground (arith, h, e) in
      (
        sign,
        whole,
        part,
        power,
        minus,
        integer,
        fractional,
        exponential,
        same
            ∙ ap (λ x. sign ++ x)
                (same1
                  ∙ ap (λ x. whole ++ x)
                      (same2 ∙ ap (λ x. part ++ x) (same3 ∙ ap (λ x. power ++ x) last))),
      )
]

after_literal-eq : (word s rest : Text) → after_literal word s ≡ some rest → s ≡ word ++ rest
unfolding after_literal
after_literal-eq [] s rest h = ground (arith, h)
after_literal-eq (c ∷ word) [] rest h = absurd (ground (arith, h))
after_literal-eq (c ∷ word) (d ∷ s) rest h = elim (Bool-cases (nat_beq c d)) [
  | inl e ↦
      ap (λ x. x ∷ s) (ground (arith, e))
      ∙ ap (λ x. c ∷ x) (after_literal-eq word s rest (rw e at h))
  | inr e ↦ absurd (ground (arith, h, e))
]

pub scan_word-Word : (s rest : Text) → scan_word s ≡ some rest → Word s rest
unfolding scan_word
scan_word-Word s rest h = elim (Option-cases (after_literal (codes "true") s)) [
  | inr (r, e) ↦ inl (after_literal-eq (codes "true") s rest (e ∙ (rw e at h)))
  | inl e ↦ elim (Option-cases (after_literal (codes "false") s)) [
    | inr (r, f) ↦ inr (inl (after_literal-eq (codes "false") s rest (f ∙ (rw (e, f) at h))))
    | inl f ↦ elim (Option-cases (after_literal (codes "null") s)) [
      | inr (r, g) ↦
          inr (inr (inl (after_literal-eq (codes "null") s rest (g ∙ (rw (e, f, g) at h)))))
      | inl g ↦ inr (inr (inr (scan_number-Numeric s rest (rw (e, f, g) at h))))
    ]
  ]
]
