-- ===== src/Text.antt =====
-- JavaScript strings: lists of UTF-16 code units, with the operations that the program uses.
use newtondb.Prelude.{
  ℕ, ◌+◌, Bool, true, false, ◌&&◌, ◌||◌, List, [], ◌∷◌, ltb, leb, nat_beq, nat_eq, ◌==◌, list_eq,
  list_beq, if◌then◌else◌, contains,
}
use Prim.Native.Char.{code}
use Prim.Native.String.{String}

abbrev pub Text : Type 0
Text = List ℕ

-- A literal of ASCII characters.
abbrev pub codes : String → Text
codes String.[] = []
codes (String.◌∷◌ c s) = code c ∷ codes s

-- `left < right`, by code units
unfoldable pub less : Text → Text → Bool
less [] [] = false
less [] (y ∷ ys) = true
less (x ∷ xs) [] = false
less (x ∷ xs) (y ∷ ys) = if nat_beq x y then less xs ys else ltb x y

-- `text.startsWith(prefix)`
unfoldable pub starts_with : Text → Text → Bool
starts_with xs [] = true
starts_with [] (y ∷ ys) = false
starts_with (x ∷ xs) (y ∷ ys) = nat_beq x y && starts_with xs ys

-- `text.endsWith(suffix)`
unfoldable pub ends_with : Text → Text → Bool
unfolding list_beq
ends_with [] ys = [] == ys
ends_with (x ∷ xs) ys = (x ∷ xs) == ys || ends_with xs ys

-- `text.includes(part)`
unfoldable pub includes : Text → Text → Bool
unfolding starts_with
includes [] ys = starts_with [] ys
includes (x ∷ xs) ys = starts_with (x ∷ xs) ys || includes xs ys

abbrev is_high : ℕ → Bool
is_high c = leb 0xd800 c && leb c 0xdbff

abbrev is_low : ℕ → Bool
is_low c = leb 0xdc00 c && leb c 0xdfff

-- The bytes of one code unit outside a surrogate pair (a lone surrogate is encoded as U+FFFD).
unit_bytes : ℕ → ℕ
unit_bytes c = if ltb c 0x80 then 1 else if ltb c 0x800 then 2 else 3

-- `new TextEncoder().encode(text).byteLength`
unfoldable pub byte_length : Text → ℕ
unfolding unit_bytes
byte_length [] = 0
byte_length (c ∷ []) = unit_bytes c
byte_length (c ∷ d ∷ s) =
    let pair = 4 + byte_length s in
    let single = unit_bytes c + byte_length (d ∷ s) in
    if is_high c && is_low d then pair else single

-- The bytes of one code unit outside a surrogate pair in the output of `JSON.stringify`: a lone
-- surrogate and most control characters are written `\\uXXXX`.
escaped_bytes : ℕ → ℕ
unfolding unit_bytes
escaped_bytes c =
    if contains (8 ∷ 9 ∷ 10 ∷ 12 ∷ 13 ∷ 34 ∷ 92 ∷ []) c
    then 2
    else if ltb c 0x20 || is_high c || is_low c
    then 6
    else unit_bytes c

inner_bytes : Text → ℕ
unfolding escaped_bytes
inner_bytes [] = 0
inner_bytes (c ∷ []) = escaped_bytes c
inner_bytes (c ∷ d ∷ s) =
    let pair = 4 + inner_bytes s in
    let single = escaped_bytes c + inner_bytes (d ∷ s) in
    if is_high c && is_low d then pair else single

-- The bytes of `JSON.stringify(text)`, the quotes included.
unfoldable pub quoted_bytes : Text → ℕ
unfolding inner_bytes
quoted_bytes s = 2 + inner_bytes s
