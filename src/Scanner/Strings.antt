-- ===== src/Scanner/Strings.antt =====
-- What the scanner reads as a string is a literal of the grammar.
use mathlib.Core.Path.{subst}
use newtondb.Prelude.{
  ℕ, zero, suc, ◌≡◌, sym, ap, ◌∙◌, true, false, Option, none, some, [], ◌∷◌, ◌++◌, ◌&&◌, leb, ltb,
  contains, nat_beq, nat_eq, list_eq, Bool-cases, Option-cases, inl, inr, ◌⊎◌, arith, some-eq,
}
use newtondb.Scanner.{
  found, is_digit, is_hex, is_escape, expect, StringMode, plain, escaped, digits, next_mode, closes,
  push, string_body, parse_string, decoded,
}
use newtondb.Scanner.Inversion.{found-injective, bind-inv}
use newtondb.Scanner.Tokens.{IsHex, Body, empty, character, escape, unicode, Literal}
use newtondb.Text.{Text}

-- This many hexadecimal digits, and then the rest of a string.
abbrev Hexes : ℕ → Text → Type 0
Hexes zero s = Body s
Hexes (suc n) [] = ⊥
Hexes (suc n) (c ∷ s) = IsHex c × Hexes n s

-- The rest of a string in this mode.
abbrev Pending : StringMode → Text → Type 0
Pending plain s = Body s
Pending escaped [] = ⊥
Pending escaped (c ∷ s) =
    ((contains (34 ∷ 92 ∷ 47 ∷ 98 ∷ 102 ∷ 110 ∷ 114 ∷ 116 ∷ []) c ≡ true) × Body s)
    ⊎ ((c ≡ 117) × Hexes 4 s)
Pending (digits n) s = Hexes (suc n) s

hex : (c : ℕ) → is_hex c ≡ true → IsHex c
hex c e = elim (Bool-cases (is_digit c)) [
  | inl f ↦ inl (ground (arith, f), ground (arith, f))
  | inr f ↦ elim (Bool-cases (leb 65 c && leb c 70)) [
    | inl g ↦ inr (inl (ground (arith, g), ground (arith, g)))
    | inr g ↦ inr (inr (ground (arith, e, f, g), ground (arith, e, f, g)))
  ]
]

escapes :
    (c : ℕ)
    → is_escape c ≡ true
    → contains (34 ∷ 92 ∷ 47 ∷ 98 ∷ 102 ∷ 110 ∷ 114 ∷ 116 ∷ []) c ≡ true
unfolding contains
escapes c e = ground (arith, e)

after_backslash : (s : Text) → Pending escaped s → Body (92 ∷ s)
after_backslash [] p = absurd p
after_backslash (c ∷ s) (inl (e, b)) = escape c s e b
after_backslash (c ∷ s) (inr (e, h)) = subst (λ x. Body (92 ∷ x ∷ s)) (sym e) (four s h)
  where
    four : (s : Text) → Hexes 4 s → Body (92 ∷ 117 ∷ s)
    four [] h = absurd h
    four (a ∷ []) h = absurd h.1
    four (a ∷ b ∷ []) h = absurd h.1.1
    four (a ∷ b ∷ c ∷ []) h = absurd h.1.1.1
    four (a ∷ b ∷ c ∷ d ∷ s) (p, (q, (r, (t, body)))) = unicode a b c d s p q r t body

Pending-next :
    (mode mode' : StringMode) (c : ℕ) (s : Text)
    → closes mode c ≡ false
    → next_mode mode c ≡ some mode'
    → Pending mode' s
    → Pending mode (c ∷ s)
unfolding next_mode
Pending-next plain mode' c s unclosed h p = elim (Bool-cases (nat_beq c 92)) [
  | inl e ↦
      subst (λ x. Body (x ∷ s)) (ground (arith, e))
        (after_backslash s (subst (λ m. Pending m s) (sym (some-eq (rw e at h))) p))
  | inr e ↦ elim (Bool-cases (ltb c 32)) [
    | inl f ↦ absurd (ground (arith, h, e, f))
    | inr f ↦
        character c s (ground (arith, f)) unclosed e
          (subst (λ m. Pending m s) (sym (some-eq (rw (e, f) at h))) p)
  ]
]
Pending-next escaped mode' c s unclosed h p = elim (Bool-cases (nat_beq c 117)) [
  | inl e ↦ inr (ground (arith, e), subst (λ m. Pending m s) (sym (some-eq (rw e at h))) p)
  | inr e ↦ elim (Bool-cases (is_escape c)) [
    | inl f ↦ inl (escapes c f, subst (λ m. Pending m s) (sym (some-eq (rw (e, f) at h))) p)
    | inr f ↦ absurd (ground (arith, h, e, f))
  ]
]
Pending-next (digits zero) mode' c s unclosed h p = elim (Bool-cases (is_hex c)) [
  | inl e ↦ (hex c e, subst (λ m. Pending m s) (sym (some-eq (rw e at h))) p)
  | inr e ↦ absurd (ground (arith, h, e))
]
Pending-next (digits (suc n)) mode' c s unclosed h p = elim (Bool-cases (is_hex c)) [
  | inl e ↦ (hex c e, subst (λ m. Pending m s) (sym (some-eq (rw e at h))) p)
  | inr e ↦ absurd (ground (arith, h, e))
]

-- Only the mode outside of an escape is closed by a quote.
Pending-closed : (mode : StringMode) (c : ℕ) → closes mode c ≡ true → Pending mode [] × (c ≡ 34)
Pending-closed plain c h = (empty, ground (arith, h))
Pending-closed escaped c h = absurd (ground (arith, h))
Pending-closed (digits n) c h = absurd (ground (arith, h))

string_body-Pending :
    (mode : StringMode) (s : Text) (p : Text × Text)
    → string_body mode s ≡ found p
    → Pending mode p.0 × (s ≡ p.0 ++ 34 ∷ p.1)
unfolding string_body
string_body-Pending mode [] p h = absurd (ground (arith, h))
string_body-Pending mode (c ∷ s) p h = elim (Bool-cases (closes mode c)) [
  | inl e ↦
      let same = found-injective (rw e at h) in
      let (rest, quote) = Pending-closed mode c e in
      subst (λ x. Pending mode x.0 × (c ∷ s ≡ x.0 ++ 34 ∷ x.1)) same (rest, ap (λ x. x ∷ s) quote)
  | inr e ↦ elim (Option-cases (next_mode mode c)) [
    | inl f ↦ absurd (ground (arith, h, e, f))
    | inr (mode', f) ↦
        let (q, read, last) = bind-inv (string_body mode' s) (push c) (rw (e, f) at h) in
        let (rest, same) = string_body-Pending mode' s q read in
        subst (λ x. Pending mode x.0 × (c ∷ s ≡ x.0 ++ 34 ∷ x.1)) (found-injective last)
          (Pending-next mode mode' c q.0 e f rest, ap (λ x. c ∷ x) same)
  ]
]

pub expect-eq : (c : ℕ) (s rest : Text) → expect c s ≡ found rest → s ≡ c ∷ rest
unfolding expect
expect-eq c [] rest h = absurd (ground (arith, h))
expect-eq c (d ∷ s) rest h = elim (Bool-cases (nat_beq d c)) [
  | inl e ↦ ap (λ x. x ∷ s) (ground (arith, e)) ∙ ap (λ x. c ∷ x) (found-injective (rw e at h))
  | inr e ↦ absurd (ground (arith, h, e))
]

module _ (decode : Text → Option Text) where
  decoded-eq :
      (raw rest key left : Text) (o : Option Text)
      → decoded decode (raw, rest) o ≡ found (key, left)
      → (o ≡ some key) × (rest ≡ left)
  decoded-eq raw rest key left none h = absurd (ground (arith, h))
  decoded-eq raw rest key left (some k) h =
      let same = found-injective h in (ap (λ x. some x.0) same, ap (λ x. x.1) same)

  pub parse_string-Literal :
      (s key rest : Text) → parse_string decode s ≡ found (key, rest) → Literal decode key s rest
  unfolding parse_string
  parse_string-Literal s key rest h =
      let (t, opened, h1) = bind-inv (expect 34 s) _ h in
      let (p, read, h2) = bind-inv (string_body plain t) _ h1 in
      let (body, same) = string_body-Pending plain t p read in
      let (known, left) = decoded-eq p.0 p.1 key rest (decode (34 ∷ p.0 ++ 34 ∷ [])) h2 in
      (
        p.0,
        body,
        expect-eq 34 s t opened ∙ ap (λ x. 34 ∷ x) (same ∙ ap (λ x. p.0 ++ 34 ∷ x) left),
        known,
      )
