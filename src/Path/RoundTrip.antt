-- ===== src/Path/RoundTrip.antt =====
-- A path that is formatted as a pointer and parsed again.
use mathlib.Core.Path.{subst}
use newtondb.Errors.{ok, >>=-eq-ok, ok-injective}
use newtondb.Input
use newtondb.Input.{Input, Elements}
use newtondb.Number
use newtondb.Number.{Number, from_natural, max_safe_integer}
use newtondb.Number.Natural.{to_natural-from_natural, same-from_natural}
use newtondb.Path.{
  PathToken, index, name, PropertyPath, validate_path, validate_token, validate_tokens, same_token,
  same_path,
}
use newtondb.Path.Pointer.{
  token_input, encode_pointer_token, path_elements, join_tokens, format_path, parse_path,
}
use newtondb.Prelude.{
  ℕ, zero, suc, ◌≡◌, ◌≤◌, refl, sym, ap, ◌∙◌, Bool, true, ◌||◌, List, [], ◌∷◌, map, nat_beq, ltb,
  nat_eq, list_eq, ==_refl, Bool-cases, Option-cases, inl, inr, arith,
}
use newtondb.Text.{Text}
use newtondb.Path.Tokens.{
  IsNatural, plain_token, AllNatural, plain, encode-IsWhole, encode-AreWhole, split-join,
  decode_tokens-encode,
}

natural_again :
    (position i : ℕ)
    → i ≤ max_safe_integer
    → validate_token (suc position) (Input.number (from_natural i)) ≡ ok (index (from_natural i))
unfolding validate_token
natural_again position i small = rw (validate_token, to_natural-from_natural i small) refl

name_again : (position : ℕ) (s : Text) → validate_token position (Input.string s) ≡ ok (name s)
unfolding validate_token
name_again zero s = refl
name_again (suc position) s = refl

-- An accepted token is the token itself, and its plain form is accepted in the same place.
validate_token-inv :
    (position : ℕ) (t t' : PathToken)
    → validate_token position (token_input t) ≡ ok t'
    → (t' ≡ t)
      × ((v : IsNatural t) × (validate_token position (token_input (plain_token t v))
            ≡ ok (plain_token t v))
          × (same_token t (plain_token t v) ≡ true))
unfolding validate_token same_token
validate_token-inv position (name s) t' h =
    (ground (arith, h), (tt, name_again position s, ==_refl s))
validate_token-inv zero (index n) t' h = absurd (ground arith)
validate_token-inv (suc position) (index n) t' h = elim (Option-cases (Number.to_natural n)) [
  | inl e ↦ absurd (ground (arith, h, e))
  | inr (i, e) ↦
      let (small, same) = same-from_natural n i e in
      (ground (arith, h, e), ((i, e), natural_again position i small, same))
]

validate_tokens-inv :
    (position : ℕ) (ts ts' : List PathToken)
    → validate_tokens position (path_elements ts) ≡ ok ts'
    → (ts' ≡ ts)
      × ((v : AllNatural ts) × (validate_tokens position (path_elements (plain ts v))
            ≡ ok (plain ts v))
          × (same_path ts (plain ts v) ≡ true)
          × (Input.count (path_elements (plain ts v)) ≡ Input.count (path_elements ts)))
unfolding validate_tokens path_elements same_path
validate_tokens-inv position [] ts' h = (sym (ok-injective h), (tt, refl, refl, refl))
validate_tokens-inv position (t ∷ ts) ts' h =
    let (t', e1, h1) = >>=-eq-ok (validate_token position (token_input t)) _ h in
    let (us, e2, h2) = >>=-eq-ok (validate_tokens (suc position) (path_elements ts)) _ h1 in
    let (same, (v, again, alike)) = validate_token-inv position t t' e1 in
    let (same', (vs, again', alike', counted)) = validate_tokens-inv (suc position) ts us e2 in
    (
      sym (ok-injective h2) ∙ ap (λ x. x ∷ us) same ∙ ap (λ x. t ∷ x) same',
      ((v, vs), rw (again, again') refl, rw (alike, alike') refl, ap suc counted),
    )

abbrev is_refused : ℕ → ℕ → Bool
is_refused max_tokens n = nat_beq n 0 || ltb max_tokens n

validate_path-inv :
    (ts ts' : List PathToken) (max_tokens : ℕ)
    → validate_path (Input.array (path_elements ts)) max_tokens ≡ ok ts'
    → (ts' ≡ ts)
      × ((v : AllNatural ts) × (validate_path (Input.array (path_elements (plain ts v))) max_tokens
            ≡ ok (plain ts v))
          × (same_path ts (plain ts v) ≡ true))
unfolding validate_path
validate_path-inv ts ts' max_tokens h =
    elim (Bool-cases (is_refused max_tokens (Input.count (path_elements ts)))) [
      | inl e ↦ absurd (ground (arith, h, e))
      | inr e ↦
          let (same, (v, again, alike, counted)) = validate_tokens-inv 0 ts ts' (rw e at h) in
          (same, (v, rw (counted, e) again, alike))
    ]

parsed :
    (ts : List PathToken) (v : AllNatural ts)
    → validate_path (Input.array (path_elements (plain ts v))) 32 ≡ ok (plain ts v)
    → parse_path (join_tokens (map encode_pointer_token ts)) 32 ≡ ok (plain ts v)
unfolding parse_path join_tokens
parsed [] v h = absurd (unfold validate_path path_elements in ground arith)
parsed (t ∷ ts) v h =
    rw
      (
        split-join (map encode_pointer_token ts) (encode_pointer_token t) [] (encode-IsWhole t v.0)
            (encode-AreWhole ts v.1),
        decode_tokens-encode (t ∷ ts) v,
      )
      h

-- The pointer that formatPath makes of a path is parsed, with the default limit, to a path
-- whose tokens are === to those of the path, one by one.
pub parse_path-format_path :
    (path : PropertyPath) (text : Text)
    → format_path path ≡ ok text
    → (path' : PropertyPath) × (parse_path text 32 ≡ ok path') × (same_path path path' ≡ true)
unfolding format_path
parse_path-format_path path text h =
    let (ts, e, last) = >>=-eq-ok (validate_path (Input.array (path_elements path)) 32) _ h in
    let (same, (v, again, alike)) = validate_path-inv path ts 32 e in
    (
      plain path v,
      subst (λ x. parse_path x 32 ≡ ok (plain path v))
          (ap (λ x. join_tokens (map encode_pointer_token x)) (sym same) ∙ ok-injective last)
          (parsed path v again),
      alike,
    )
