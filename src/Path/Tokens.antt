-- ===== src/Path/Tokens.antt =====
-- The tokens of a pointer, one by one and joined: what is written is what is read.
use newtondb.Errors.{ok}
use newtondb.Number
use newtondb.Number.{Number, from_natural, max_safe_integer}
use newtondb.Number.Natural.{same-from_natural}
use newtondb.Path.{PathToken, index, name}
use newtondb.Path.Escape.{
  escaped, escaped_eq, slashes_back, tildes_back, escaped_valid, escaped_no_numeral, IsWhole,
  escaped-IsWhole, digits-IsWhole, decimal_value, decimal_numeral,
}
use newtondb.Path.Pointer.{
  replace_pair, encode_pointer_token, join_tokens, digits_value, has_invalid_escape, numeral_of,
  is_numeral, decode_name, decode_pointer_token, split_tokens, decode_tokens,
}
use newtondb.Prelude.{
  ℕ, ◌≡◌, ◌≤◌, refl, sym, ap, ◌∙◌, true, false, none, some, List, [], ◌∷◌, ◌++◌, map, nat_eq,
  list_eq, arith,
}
use newtondb.Runtime.{decimal}
use newtondb.Text.{Text}

-- A token that a pointer can hold: a text, or a safe natural number.
abbrev pub IsNatural : PathToken → Type 0
IsNatural (name s) = Unit
IsNatural (index n) = (i : ℕ) × (Number.to_natural n ≡ some i)

-- What a token is read back as: the same, but -0 is 0.
abbrev pub plain_token : (t : PathToken) → IsNatural t → PathToken
plain_token (name s) v = name s
plain_token (index n) v = index (from_natural v.0)

encoded_number :
    (n : Number) (i : ℕ)
    → Number.to_natural n ≡ some i
    → encode_pointer_token (index n) ≡ 126 ∷ 110 ∷ decimal i
unfolding encode_pointer_token
encoded_number n i h = rw h refl

encoded_name : (s : Text) → encode_pointer_token (name s) ≡ escaped s
unfolding encode_pointer_token
encoded_name s = escaped_eq s

pub encode-IsWhole : (t : PathToken) → IsNatural t → IsWhole (encode_pointer_token t)
encode-IsWhole (name s) v = rw (encoded_name s) (escaped-IsWhole s)
encode-IsWhole (index n) (i, h) =
    rw (encoded_number n i h) (refl, (refl, digits-IsWhole (decimal i) (decimal_numeral i).1))

numeral_of_digits : (s : Text) → is_numeral s ≡ true → numeral_of (126 ∷ 110 ∷ s) ≡ some s
unfolding numeral_of
numeral_of_digits s h = rw h refl

decode_numeral :
    (s digits : Text) (n : ℕ)
    → numeral_of s ≡ some digits
    → digits_value 0 digits ≡ n
    → n ≤ max_safe_integer
    → decode_pointer_token s ≡ ok (index (from_natural n))
unfolding decode_pointer_token
decode_numeral s digits n h e small = ground (arith, h, e, small)

decode_plain :
    (s t : Text)
    → numeral_of s ≡ none
    → has_invalid_escape s ≡ false
    → replace_pair 126 48 126 false (replace_pair 126 49 47 false s) ≡ t
    → decode_pointer_token s ≡ ok (name t)
unfolding decode_pointer_token decode_name
decode_plain s t h valid e = ground (arith, h, valid, e)

decode_pointer_token-encode :
    (t : PathToken) (v : IsNatural t)
    → decode_pointer_token (encode_pointer_token t) ≡ ok (plain_token t v)
decode_pointer_token-encode (name s) v =
    ap decode_pointer_token (encoded_name s)
    ∙ decode_plain (escaped s) s (escaped_no_numeral s) (escaped_valid s)
        (ap (replace_pair 126 48 126 false) (slashes_back s) ∙ tildes_back s)
decode_pointer_token-encode (index n) (i, h) =
    ap decode_pointer_token (encoded_number n i h)
    ∙ decode_numeral (126 ∷ 110 ∷ decimal i) (decimal i) i
        (numeral_of_digits (decimal i) (decimal_numeral i).0) (decimal_value i)
        (same-from_natural n i h).0

append_nil : (s : Text) → s ++ [] ≡ s
append_nil [] = refl
append_nil (c ∷ s) = ap (λ x. c ∷ x) (append_nil s)

append_one : (s t : Text) (c : ℕ) → (s ++ c ∷ []) ++ t ≡ s ++ c ∷ t
append_one [] t c = refl
append_one (d ∷ s) t c = ap (λ x. d ∷ x) (append_one s t c)

abbrev pub AreWhole : List Text → Type 0
AreWhole [] = Unit
AreWhole (t ∷ ts) = IsWhole t × AreWhole ts

pub split-join :
    (ts : List Text) (t token : Text)
    → IsWhole t
    → AreWhole ts
    → split_tokens token (t ++ join_tokens ts) ≡ (token ++ t) ∷ ts
unfolding split_tokens join_tokens
split-join [] [] token w a = ap (λ x. x ∷ []) (sym (append_nil token))
split-join (u ∷ ts) [] token w a =
    ap (λ x. token ∷ x) (split-join ts u [] a.0 a.1) ∙ ap (λ x. x ∷ u ∷ ts) (sym (append_nil token))
split-join ts (c ∷ t) token w a =
    rw w.0 (split-join ts t (token ++ c ∷ []) w.1 a ∙ ap (λ x. x ∷ ts) (append_one token t c))

abbrev pub AllNatural : List PathToken → Type 0
AllNatural [] = Unit
AllNatural (t ∷ ts) = IsNatural t × AllNatural ts

abbrev pub plain : (ts : List PathToken) → AllNatural ts → List PathToken
plain [] v = []
plain (t ∷ ts) v = plain_token t v.0 ∷ plain ts v.1

pub decode_tokens-encode :
    (ts : List PathToken) (v : AllNatural ts)
    → decode_tokens (map encode_pointer_token ts) ≡ ok (plain ts v)
unfolding decode_tokens
decode_tokens-encode [] v = refl
decode_tokens-encode (t ∷ ts) v =
    rw (decode_pointer_token-encode t v.0, decode_tokens-encode ts v.1) refl

pub encode-AreWhole : (ts : List PathToken) → AllNatural ts → AreWhole (map encode_pointer_token ts)
encode-AreWhole [] v = tt
encode-AreWhole (t ∷ ts) v = (encode-IsWhole t v.0, encode-AreWhole ts v.1)
