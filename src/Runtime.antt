-- ===== src/Runtime.antt =====
-- What the program uses of the JavaScript runtime and is no code of its own: the text of a number.
-- A natural number in a template literal is written in decimal.
use newtondb.Number.{Number, is_finite, same}
use newtondb.Prelude.{
  ℕ, zero, suc, ◌+◌, ◌/◌, ◌%◌, ◌<◌, ◌≡◌, ◌↔◌, true, [], ◌∷◌, nat_beq, if◌then◌else◌, arith,
}
use newtondb.Text.{Text}

pub record Runtime : Type 0 where
  -- `String(number)`
  pub number_text : Number → Text
  -- Two finite numbers have one text exactly when they are `===`: both zeros are written "0".
  pub number_text_iff :
      (a b : Number)
      → is_finite a ≡ true
      → is_finite b ≡ true
      → (number_text a ≡ number_text b) ↔ (same a b ≡ true)

-- The digits of `n` before `rest`; the fuel `n + 1` is enough, since each round divides by ten.
unfoldable pub decimal_from : ℕ → ℕ → Text → Text
decimal_from zero n rest = rest
decimal_from (suc f) n rest =
    let digit = 48 + n % 10 in
    let more = decimal_from f (n / 10) (digit ∷ rest) in
    if nat_beq (n / 10) 0 then digit ∷ rest else more

unfoldable pub decimal : ℕ → Text
unfolding decimal_from
decimal n = decimal_from (suc n) n []

-- No character of the list passes the digit 9.
abbrev pub IsDigits : Text → Type 0
IsDigits [] = Unit
IsDigits (c ∷ s) = (c < 58) × IsDigits s

decimal_from-IsDigits : (f n : ℕ) (rest : Text) → IsDigits rest → IsDigits (decimal_from f n rest)
unfolding decimal_from
decimal_from-IsDigits zero n rest h = h
decimal_from-IsDigits (suc f) n rest h =
    ground (arith, decimal_from-IsDigits f (n / 10) ((48 + n % 10) ∷ rest))

pub decimal-IsDigits : (n : ℕ) → IsDigits (decimal n)
unfolding decimal
decimal-IsDigits n = decimal_from-IsDigits (suc n) n [] tt
