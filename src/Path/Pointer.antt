-- ===== src/Path/Pointer.antt =====
-- `formatPath` and `parsePath` of src/path.ts: a property path as a pointer.
use newtondb.Errors.{Result, ok, err, invalid_argument, ◌>>=◌}
use newtondb.Input.{Input, Elements}
use newtondb.Number
use newtondb.Number.{Number, from_natural, max_safe_integer}
use newtondb.Path.{PathToken, index, name, PropertyPath, validate_path}
use newtondb.Prelude.{
  ℕ, ◌+◌, ◌*◌, ◌-◌, Bool, true, false, ◌&&◌, ◌||◌, Option, none, some, List, [], ◌∷◌, ◌++◌, ltb,
  leb, nat_beq, map, if◌then◌else◌,
}
use newtondb.Runtime.{decimal}
use newtondb.Text.{Text}

-- `text.replaceAll(c, by)` for a character
unfoldable pub replace_char : ℕ → Text → Text → Text
replace_char c by [] = []
replace_char c by (d ∷ s) =
    let rest = replace_char c by s in if nat_beq d c then by ++ rest else d ∷ rest

-- `text.replaceAll(ab, c)` for two different characters a and b; `held` says that an `a` was read
-- last.
unfoldable pub replace_pair : ℕ → ℕ → ℕ → Bool → Text → Text
replace_pair a b c false [] = []
replace_pair a b c true [] = a ∷ []
replace_pair a b c false (d ∷ s) =
    let held = replace_pair a b c true s in
    let free = replace_pair a b c false s in if nat_beq d a then held else d ∷ free
replace_pair a b c true (d ∷ s) =
    let held = replace_pair a b c true s in
    let free = replace_pair a b c false s in
    if nat_beq d b then c ∷ free else if nat_beq d a then a ∷ held else a ∷ d ∷ free

abbrev digits_of : Option ℕ → Text
digits_of none = []
digits_of (some n) = decimal n

-- encodePointerToken(token), for a token that `validatePath` accepts
unfoldable pub encode_pointer_token : PathToken → Text
unfolding replace_char decimal
encode_pointer_token (index n) = 126 ∷ 110 ∷ digits_of (Number.to_natural n)
encode_pointer_token (name s) = replace_char 47 (126 ∷ 49 ∷ []) (replace_char 126 (126 ∷ 48 ∷ []) s)

-- A path as the array that `validatePath` is given.
abbrev pub token_input : PathToken → Input
token_input (index n) = Input.number n
token_input (name s) = Input.string s

unfoldable pub path_elements : List PathToken → Elements
path_elements [] = Elements.nil
path_elements (t ∷ ts) = Elements.item (token_input t) (path_elements ts)

-- `/` before every token
unfoldable pub join_tokens : List Text → Text
join_tokens [] = []
join_tokens (t ∷ ts) = 47 ∷ t ++ join_tokens ts

-- formatPath(path)
unfoldable pub format_path : PropertyPath → Result Text
unfolding validate_path path_elements join_tokens encode_pointer_token
format_path path = do
  tokens ← validate_path (Input.array (path_elements path)) 32
  ok (join_tokens (map encode_pointer_token tokens))

abbrev pub is_digit : ℕ → Bool
is_digit c = leb 48 c && leb c 57

unfoldable pub are_digits : Text → Bool
are_digits [] = true
are_digits (c ∷ s) = is_digit c && are_digits s

-- `^(0|[1-9]\d*)$`
unfoldable pub is_numeral : Text → Bool
unfolding are_digits
is_numeral [] = false
is_numeral (c ∷ []) = is_digit c
is_numeral (c ∷ d ∷ s) = leb 49 c && leb c 57 && are_digits (d ∷ s)

-- The value of the digits after a number that has been read.
unfoldable pub digits_value : ℕ → Text → ℕ
digits_value n [] = n
digits_value n (c ∷ s) = digits_value (n * 10 + (c - 48)) s

-- `/~(?![01])/`: a tilde that no 0 or 1 follows
unfoldable pub has_invalid_escape : Text → Bool
has_invalid_escape [] = false
has_invalid_escape (c ∷ []) = nat_beq c 126
has_invalid_escape (c ∷ d ∷ s) =
    (nat_beq c 126 && (if nat_beq d 48 || nat_beq d 49 then false else true))
    || has_invalid_escape (d ∷ s)

-- The digits after `~n`, if the token is of that form.
unfoldable pub numeral_of : Text → Option Text
unfolding is_numeral
numeral_of [] = none
numeral_of (c ∷ []) = none
numeral_of (c ∷ d ∷ s) = if nat_beq c 126 && nat_beq d 110 && is_numeral s then some s else none

unfoldable pub decode_name : Text → Result PathToken
unfolding has_invalid_escape replace_pair
decode_name s =
    if has_invalid_escape s
    then err invalid_argument
    else ok (name (replace_pair 126 48 126 false (replace_pair 126 49 47 false s)))

-- decodePointerToken(token); digits whose number is not safe have a value that is not
unfoldable pub decode_pointer_token : Text → Result PathToken
unfolding numeral_of digits_value decode_name
decode_pointer_token s = elim (numeral_of s) [
  | none ↦ decode_name s
  | some digits ↦
      if ltb max_safe_integer (digits_value 0 digits)
      then err invalid_argument
      else ok (index (from_natural (digits_value 0 digits)))
]

-- `text.split("/")`, after the characters of a token
unfoldable pub split_tokens : Text → Text → List Text
split_tokens token [] = token ∷ []
split_tokens token (c ∷ s) =
    let next = split_tokens [] s in
    let longer = split_tokens (token ++ c ∷ []) s in if nat_beq c 47 then token ∷ next else longer

unfoldable pub decode_tokens : List Text → Result (List PathToken)
unfolding decode_pointer_token
decode_tokens [] = ok []
decode_tokens (s ∷ ss) = do
  token ← decode_pointer_token s
  tokens ← decode_tokens ss
  ok (token ∷ tokens)

-- parsePath(pointer, maxTokens)
unfoldable pub parse_path : Text → ℕ → Result PropertyPath
unfolding split_tokens decode_tokens validate_path path_elements
parse_path [] max_tokens = err invalid_argument
parse_path (c ∷ s) max_tokens =
    if nat_beq c 47
    then (do
      tokens ← decode_tokens (split_tokens [] s)
      validate_path (Input.array (path_elements tokens)) max_tokens)
    else err invalid_argument
