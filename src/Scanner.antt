-- ===== src/Scanner.antt =====
-- src/node/json-duplicates.ts: the scanner that finds repeated object keys. A text is what is left
-- of it from the index on; `decode` is JSON.parse of a string literal, `none` for what is no string.
-- A throw of a SyntaxError is `syntax`, and the two limits and the repeated key are the three ways
-- to throw a CorruptStorageError.
pub mod Lengths
pub mod Total
pub mod Grammar
pub mod Inversion
pub mod Value
pub mod Sound
pub mod Tokens
pub mod Words
pub mod Strings
pub mod Written
use newtondb.Prelude.{
  ℕ, zero, suc, ◌+◌, ◌*◌, Bool, true, false, ◌&&◌, ◌||◌, Option, none, some, List, [], ◌∷◌, ◌++◌,
  length, ltb, leb, nat_beq, nat_eq, list_eq, contains, if◌then◌else◌,
}
use newtondb.Text.{Text, codes}

-- `exhausted` stands for fuel that has run out.
pub data ScanError : Type 0 where
  syntax duplicate_key node_limit nesting_limit exhausted : ScanError

pub data Scan (A : Type 0) : Type 0 where
  found : A → Scan A
  failed : ScanError → Scan A

infixl 10 ◌>>=◌
abbrev pub ◌>>=◌ : {A B : Type 0} → Scan A → (A → Scan B) → Scan B
found a >>= f = f a
failed e >>= f = failed e

abbrev pub is_whitespace : ℕ → Bool
is_whitespace c = nat_beq c 32 || nat_beq c 10 || nat_beq c 13 || nat_beq c 9

unfoldable pub skip_whitespace : Text → Text
skip_whitespace [] = []
skip_whitespace (c ∷ s) = let rest = skip_whitespace s in if is_whitespace c then rest else c ∷ s

-- `text[index++] === c`
unfoldable pub expect : ℕ → Text → Scan Text
expect c [] = failed syntax
expect c (d ∷ s) = if nat_beq d c then found s else failed syntax

abbrev pub is_digit : ℕ → Bool
is_digit c = leb 48 c && leb c 57

abbrev pub is_hex : ℕ → Bool
is_hex c = is_digit c || (leb 65 c && leb c 70) || (leb 97 c && leb c 102)

-- One of "\/bfnrt
abbrev pub is_escape : ℕ → Bool
is_escape c =
    nat_beq c 34
    || nat_beq c 92
    || nat_beq c 47
    || nat_beq c 98
    || nat_beq c 102
    || nat_beq c 110
    || nat_beq c 114
    || nat_beq c 116

-- Inside of a string: a character, the character after a backslash, or this many digits of \u.
pub data StringMode : Type 0 where
  plain : StringMode
  escaped : StringMode
  digits : ℕ → StringMode

-- The mode after a character, for one that may stand there.
unfoldable pub next_mode : StringMode → ℕ → Option StringMode
next_mode plain c = if nat_beq c 92 then some escaped else if ltb c 32 then none else some plain
next_mode escaped c =
    if nat_beq c 117 then some (digits 3) else if is_escape c then some plain else none
next_mode (digits zero) c = if is_hex c then some plain else none
next_mode (digits (suc n)) c = if is_hex c then some (digits n) else none

abbrev pub closes : StringMode → ℕ → Bool
closes plain c = nat_beq c 34
closes mode c = false

abbrev pub push : ℕ → Text × Text → Scan (Text × Text)
push c (raw, rest) = found (c ∷ raw, rest)

-- The rest of a string up to its closing quote, and what follows.
unfoldable pub string_body : StringMode → Text → Scan (Text × Text)
unfolding next_mode
string_body mode [] = failed syntax
string_body mode (c ∷ s) = if closes mode c then found ([], s) else elim (next_mode mode c) [
  | none ↦ failed syntax
  | some mode' ↦ string_body mode' s >>= push c
]

unfoldable pub skip_digits : Text → Text
skip_digits [] = []
skip_digits (c ∷ s) = let rest = skip_digits s in if is_digit c then rest else c ∷ s

-- `(?:0|[1-9]\d*)`
unfoldable pub integer_part : Text → Option Text
unfolding skip_digits
integer_part [] = none
integer_part (c ∷ s) =
    if nat_beq c 48 then some s else if is_digit c then some (skip_digits s) else none

-- `\d+`, or the text itself
unfoldable pub digits_after : Text → Text → Text
unfolding skip_digits
digits_after text [] = text
digits_after text (c ∷ s) = if is_digit c then skip_digits s else text

-- `(?:\.\d+)?`
unfoldable pub fraction : Text → Text
unfolding digits_after
fraction [] = []
fraction (c ∷ s) = if nat_beq c 46 then digits_after (c ∷ s) s else c ∷ s

-- `[+-]?`
unfoldable pub skip_sign : Text → Text
skip_sign [] = []
skip_sign (c ∷ s) = if nat_beq c 43 || nat_beq c 45 then s else c ∷ s

-- `(?:[eE][+-]?\d+)?`
unfoldable pub exponent : Text → Text
unfolding digits_after skip_sign
exponent [] = []
exponent (c ∷ s) =
    if nat_beq c 101 || nat_beq c 69 then digits_after (c ∷ s) (skip_sign s) else c ∷ s

unfoldable pub skip_minus : Text → Text
skip_minus [] = []
skip_minus (c ∷ s) = if nat_beq c 45 then s else c ∷ s

-- What `numberPattern` leaves of the text, where it matches.
unfoldable pub scan_number : Text → Option Text
unfolding integer_part fraction exponent skip_minus
scan_number text = elim (integer_part (skip_minus text)) [
  | none ↦ none
  | some rest ↦ some (exponent (fraction rest))
]

-- `text.startsWith(literal, index)`
unfoldable pub after_literal : Text → Text → Option Text
after_literal [] s = some s
after_literal (c ∷ cs) [] = none
after_literal (c ∷ cs) (d ∷ s) = if nat_beq c d then after_literal cs s else none

abbrev pub or_else : {A : Type 0} → Option A → Option A → Option A
or_else none y = y
or_else (some a) y = some a

-- `true`, `false`, `null` or a number
unfoldable pub scan_word : Text → Option Text
unfolding after_literal scan_number
scan_word text = or_else (after_literal (codes "true") text) (
    or_else (after_literal (codes "false") text)
      (or_else (after_literal (codes "null") text) (scan_number text)))

abbrev pub max_nodes : ℕ
max_nodes = 1000000

abbrev pub max_depth : ℕ
max_depth = 128

-- What is parsed: a value, or the entries of an object after some keys, or of an array.
pub data Goal : Type 0 where
  value : Goal
  members : List Text → Goal
  items : Goal

module _ (decode : Text → Option Text) where
  abbrev pub decoded : Text × Text → Option Text → Scan (Text × Text)
  decoded (raw, rest) none = failed syntax
  decoded (raw, rest) (some key) = found (key, rest)

  -- parseString()
  unfoldable pub parse_string : Text → Scan (Text × Text)
  unfolding expect string_body
  parse_string text =
      expect 34 text >>= λ s. string_body plain s >>= λ p. decoded p (decode (34 ∷ p.0 ++ 34 ∷ []))

  -- The node count and the text after a goal.
  abbrev pub Parser : Type 0
  Parser = Goal → ℕ → ℕ → Text → Scan (ℕ × Text)

  module _ (parse : Parser) where
    -- After `{` or `[`: the closing character, or the first entry.
    unfoldable pub open_group : ℕ → Goal → ℕ → ℕ → Text → Scan (ℕ × Text)
    open_group close goal depth nodes [] = failed syntax
    open_group close goal depth nodes (c ∷ s) =
        let entries = parse goal depth nodes (c ∷ s) in
        if nat_beq c close then found (nodes, s) else entries

    -- The character after an entry.
    unfoldable pub close_entry : ℕ → Goal → ℕ → ℕ → Text → Scan (ℕ × Text)
    close_entry close goal depth nodes [] = failed syntax
    close_entry close goal depth nodes (c ∷ s) =
        let entries = parse goal depth nodes s in
        if nat_beq c close
        then found (nodes, s)
        else if nat_beq c 44
        then entries
        else failed syntax

    abbrev pub word_at : ℕ → Option Text → Scan (ℕ × Text)
    word_at nodes none = failed syntax
    word_at nodes (some rest) = found (nodes, rest)

    -- A value, from its first character on.
    unfoldable pub parse_start : ℕ → ℕ → Text → Scan (ℕ × Text)
    unfolding open_group parse_string scan_word
    parse_start depth nodes [] = failed syntax
    parse_start depth nodes (c ∷ s) =
        if nat_beq c 123
        then open_group 125 (members []) depth nodes (skip_whitespace s)
        else if nat_beq c 91
        then open_group 93 items depth nodes (skip_whitespace s)
        else if nat_beq c 34
        then (parse_string (c ∷ s) >>= λ p. found (nodes, p.1))
        else word_at nodes (scan_word (c ∷ s))

    -- parseValue(depth)
    unfoldable pub parse_value : ℕ → ℕ → Text → Scan (ℕ × Text)
    unfolding parse_start skip_whitespace
    parse_value depth nodes text =
        if ltb max_nodes (nodes + 1)
        then failed node_limit
        else if ltb max_depth depth
        then failed nesting_limit
        else parse_start depth (nodes + 1) (skip_whitespace text)

    abbrev pub refuse_repeated : List Text → Text × Text → Scan (Text × Text)
    refuse_repeated keys (key, rest) =
        if contains keys key then failed duplicate_key else found (key, rest)

    -- One round of the loop of an object; at the end of the text it is not entered.
    unfoldable pub parse_member : List Text → ℕ → ℕ → Text → Scan (ℕ × Text)
    unfolding parse_string expect skip_whitespace close_entry
    parse_member keys depth nodes text =
        parse_string (skip_whitespace text) >>= refuse_repeated keys >>= λ p.
        expect 58 (skip_whitespace p.1) >>= λ s. parse value (depth + 1) nodes s >>= λ v.
        close_entry 125 (members (p.0 ∷ keys)) depth v.0 (skip_whitespace v.1)

    -- One round of the loop of an array; at the end of the text it is not entered.
    unfoldable pub parse_item : ℕ → ℕ → Text → Scan (ℕ × Text)
    unfolding close_entry skip_whitespace
    parse_item depth nodes [] = failed syntax
    parse_item depth nodes (c ∷ s) = parse value (depth + 1) nodes (c ∷ s) >>= λ v.
        close_entry 93 items depth v.0 (skip_whitespace v.1)

  -- The three loops, on fuel.
  unfoldable pub parse : ℕ → Parser
  unfolding parse_value parse_member parse_item
  parse zero goal depth nodes text = failed exhausted
  parse (suc fuel) value depth nodes text = parse_value (parse fuel) depth nodes text
  parse (suc fuel) (members keys) depth nodes text = parse_member (parse fuel) keys depth nodes text
  parse (suc fuel) items depth nodes text = parse_item (parse fuel) depth nodes text

  abbrev pub at_end : Text → Scan (Unit {0})
  at_end [] = found tt
  at_end (c ∷ s) = failed syntax

  -- assertNoDuplicateJsonKeys(text)
  unfoldable pub assert_no_duplicate_json_keys : Text → Scan (Unit {0})
  unfolding parse skip_whitespace
  assert_no_duplicate_json_keys text =
      parse (2 * length text + 2) value 0 0 text >>= λ v. at_end (skip_whitespace v.1)
