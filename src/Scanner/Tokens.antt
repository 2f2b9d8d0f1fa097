-- ===== src/Scanner/Tokens.antt =====
-- The tokens of RFC 8259: white space, string literals and words, each as a predicate on texts.
use newtondb.Prelude.{
  ℕ, ◌≡◌, ◌≤◌, false, true, Option, some, [], ◌∷◌, ◌++◌, contains, nat_beq, nat_eq, list_eq, ◌⊎◌,
}
use newtondb.Text.{Text, codes}

-- Space, line feed, carriage return and tab, in any number.
abbrev pub AreSpaces : Text → Type 0
AreSpaces [] = Unit
AreSpaces (c ∷ s) = (contains (32 ∷ 10 ∷ 13 ∷ 9 ∷ []) c ≡ true) × AreSpaces s

-- White space, and then this.
abbrev pub After : Text → Text → Type 0
After text rest = (spaces : Text) × AreSpaces spaces × (text ≡ spaces ++ rest)

abbrev pub IsDigit : ℕ → Type 0
IsDigit c = (48 ≤ c) × (c ≤ 57)

-- A hexadecimal digit.
abbrev pub IsHex : ℕ → Type 0
IsHex c = IsDigit c ⊎ (((65 ≤ c) × (c ≤ 70)) ⊎ ((97 ≤ c) × (c ≤ 102)))

-- What is between the quotes of a string literal.
pub data Body : Text → Type 0 where
  empty : Body []
  character :
      (c : ℕ) (s : Text)
      → 32 ≤ c
      → nat_beq c 34 ≡ false
      → nat_beq c 92 ≡ false
      → Body s
      → Body (c ∷ s)
  escape :
      (c : ℕ) (s : Text)
      → contains (34 ∷ 92 ∷ 47 ∷ 98 ∷ 102 ∷ 110 ∷ 114 ∷ 116 ∷ []) c ≡ true
      → Body s
      → Body (92 ∷ c ∷ s)
  unicode :
      (a b c d : ℕ) (s : Text)
      → IsHex a
      → IsHex b
      → IsHex c
      → IsHex d
      → Body s
      → Body (92 ∷ 117 ∷ a ∷ b ∷ c ∷ d ∷ s)

-- A string literal that is decoded to this key, and then the rest.
abbrev pub Literal : (Text → Option Text) → Text → Text → Text → Type 0
Literal decode key text rest =
    (raw : Text) × Body raw
    × (text ≡ 34 ∷ raw ++ 34 ∷ rest)
    × (decode (34 ∷ raw ++ 34 ∷ []) ≡ some key)

abbrev pub AreDigits : Text → Type 0
AreDigits [] = Unit
AreDigits (c ∷ s) = IsDigit c × AreDigits s

-- One digit or more.
abbrev pub IsNumeral : Text → Type 0
IsNumeral [] = ⊥
IsNumeral (c ∷ s) = IsDigit c × AreDigits s

-- 0, or digits of which the first is another.
abbrev pub IsInteger : Text → Type 0
IsInteger [] = ⊥
IsInteger (c ∷ s) = ((c ≡ 48) × (s ≡ [])) ⊎ (((49 ≤ c) × (c ≤ 57)) × AreDigits s)

abbrev pub IsFraction : Text → Type 0
IsFraction [] = Unit
IsFraction (c ∷ s) = (c ≡ 46) × IsNumeral s

-- A numeral, with a sign or without.
abbrev pub IsSigned : Text → Type 0
IsSigned [] = ⊥
IsSigned (c ∷ s) = (((c ≡ 43) ⊎ (c ≡ 45)) × IsNumeral s) ⊎ IsNumeral (c ∷ s)

abbrev pub IsExponent : Text → Type 0
IsExponent [] = Unit
IsExponent (c ∷ s) = ((c ≡ 101) ⊎ (c ≡ 69)) × IsSigned s

-- A minus or nothing.
abbrev pub IsMinus : Text → Type 0
IsMinus sign = (sign ≡ []) ⊎ (sign ≡ 45 ∷ [])

-- A number, and then the rest.
abbrev pub Numeric : Text → Text → Type 0
Numeric text rest =
    (sign : Text) × (whole : Text) × (part : Text) × (power : Text) × IsMinus sign
    × IsInteger whole
    × IsFraction part
    × IsExponent power
    × (text ≡ sign ++ (whole ++ (part ++ (power ++ rest))))

-- `true`, `false`, `null` or a number, and then the rest.
abbrev pub Word : Text → Text → Type 0
Word text rest =
    (text ≡ codes "true" ++ rest)
    ⊎ ((text ≡ codes "false" ++ rest) ⊎ ((text ≡ codes "null" ++ rest) ⊎ Numeric text rest))
