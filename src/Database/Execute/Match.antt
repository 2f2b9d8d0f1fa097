-- ===== src/Database/Execute/Match.antt =====
-- What `eq` says of the path, of an index value and of a primary key, and the candidates that may be
-- left out.
use newtondb.Database.Execute.{encode_any, select}
use newtondb.Errors.{PrimaryKey, number, ok, ok-injective, Result-cases}
use newtondb.Index.{encode_read}
use newtondb.Index.Agrees.{has_value, IsOk}
use newtondb.Json
use newtondb.Json.{Json, primitive, array, object, Primitive, Document, own}
use newtondb.Key.{encode_key, encode_index_value, key_of_value}
use newtondb.Key.Injective.{encode_index_value_iff}
use newtondb.Number
use newtondb.OverlayMap
use newtondb.OverlayMap.{MapLike}
use newtondb.Path.{
  PropertyPath, PathToken, name, index, read_path, read_token, same_path, same_token,
}
use newtondb.Prelude.{
  ◌≡◌, refl, Bool, true, false, Option, none, some, List, [], ◌∷◌, ==_iff, ==_refl, nat_eq, list_eq,
  contains, keep, arith, inl, inr, Bool-cases, Option-cases, ◌∙◌,
}
use newtondb.Query.Compile.{same_primitive}
use newtondb.Runtime.{Runtime}
use newtondb.Text.{Text}

-- Candidates that no matching document is filed under may be left out.
pub select-keep :
    (records : MapLike Text Document) (matches : Document → Bool) (q : Text → Bool) (l : List Text)
    → ((k : Text) (d : Document)
        → OverlayMap.get records k ≡ some d
        → matches d ≡ true
        → q k ≡ true)
    → select records matches (keep q l) ≡ select records matches l
unfolding select keep
select-keep records matches q [] h = refl
select-keep records matches q (k ∷ l) h = elim (Option-cases (OverlayMap.get records k)) [
  | inl missing ↦ ground (arith, select-keep records matches q l h)
  | inr (d, found) ↦ ground (arith, select-keep records matches q l h, h k d found)
]

pub keep_none :
    (q : Text → Bool) (l : List Text)
    → ((k : Text) → contains l k ≡ true → q k ≡ false)
    → keep q l ≡ []
unfolding keep contains
keep_none q [] h = refl
keep_none q (k ∷ l) h =
    rw (h k (ground (arith, ==_refl k)), keep) (keep_none q l (λ j g. h j (ground arith)))

-- Paths that are the same read the same value.
same_token-read :
    (v : Option Json) (s t : PathToken) → same_token s t ≡ true → read_token v s ≡ read_token v t
unfolding same_token read_token
same_token-read (some (array items)) (index a) (index b) h =
    rw (Number.to_natural-same a b h, read_token) refl
same_token-read none s t h = refl
same_token-read (some (primitive p)) s t h = refl
same_token-read (some (object fields)) (name s) (name t) h = rw ((==_iff s t).0 h) refl
same_token-read v (index a) (name t) h = cc
same_token-read v (name s) (index b) h = cc
same_token-read (some (object fields)) (index a) (index b) h = refl
same_token-read (some (array items)) (name s) (name t) h = refl

pub same_path-read :
    (v : Option Json) (p q : PropertyPath) → same_path p q ≡ true → read_path v p ≡ read_path v q
unfolding same_path read_path
same_path-read v [] [] h = refl
same_path-read v [] (t ∷ q) h = cc
same_path-read v (s ∷ p) [] h = cc
same_path-read v (s ∷ p) (t ∷ q) h =
    rw (same_token-read v s t (ground arith)) (same_path-read (read_token v t) p q (ground arith))

module _ (rt : Runtime) where
  -- A value that passes `eq` has the encoding of the operand.
  pub match-encode_read :
      (x : Option Json) (value : Primitive) (encoded : Text)
      → IsOk (encode_read rt x)
      → encode_index_value rt value ≡ ok encoded
      → same_primitive x value ≡ true
      → has_value rt (encode_read rt x) encoded ≡ true
  unfolding encode_read same_primitive
  match-encode_read none value encoded good encodes h = cc
  match-encode_read (some (array items)) value encoded good encodes h = cc
  match-encode_read (some (object fields)) value encoded good encodes h = cc
  match-encode_read (some (primitive p)) value encoded good encodes h =
      elim (Result-cases (encode_index_value rt p)) [
        | inl (t, mine) ↦
            rw mine ((==_iff t encoded).1 ((encode_index_value_iff rt p value mine encodes).1 h))
        | inr (e, failed) ↦ absurd (rw failed at good)
      ]

  encode_key-same :
      (m n : Number.Number) (key : Text)
      → Number.same m n ≡ true
      → encode_key rt (number m) ≡ ok key
      → encode_key rt (number n) ≡ ok key
  unfolding encode_key
  encode_key-same m n key h p = elim (Bool-cases (Number.is_safe_integer n)) [
    | inl safe ↦
        let safe_m = Number.is_safe_integer-same m n h ∙ safe in
        let text =
          (rt.number_text_iff m n (Number.safe-finite m safe_m) (Number.safe-finite n safe)).1 h in
        rw (safe, ← text) (rw safe_m at p)
    | inr unsafe ↦ absurd (ground (arith, Number.is_safe_integer-same m n h))
  ]

  -- A primary key that passes `eq` is encoded as the operand is.
  pub match-encode_any :
      (x : Option Json) (value : Primitive) (k : PrimaryKey) (key : Text)
      → key_of_value rt x ≡ ok k
      → encode_key rt k ≡ ok key
      → same_primitive x value ≡ true
      → encode_any rt value ≡ ok key
  unfolding same_primitive key_of_value encode_any Json.same encode_key
  match-encode_any (some (primitive (Primitive.string s))) (Primitive.string t) k key p q h =
      rw (← (==_iff s t).0 h) (rw (← ok-injective p) at q)
  match-encode_any (some (primitive (Primitive.number m))) (Primitive.number n) k key p q h =
      encode_key-same m n key h (rw (← ok-injective p) at q)
  match-encode_any none value k key p q h = cc
  match-encode_any (some (array items)) value k key p q h = cc
  match-encode_any (some (object fields)) value k key p q h = cc
  match-encode_any (some (primitive Primitive.null)) value k key p q h = cc
  match-encode_any (some (primitive (Primitive.boolean b))) value k key p q h = cc
  match-encode_any (some (primitive (Primitive.string s))) Primitive.null k key p q h = cc
  match-encode_any (some (primitive (Primitive.string s))) (Primitive.boolean b) k key p q h = cc
  match-encode_any (some (primitive (Primitive.string s))) (Primitive.number b) k key p q h = cc
  match-encode_any (some (primitive (Primitive.number s))) Primitive.null k key p q h = cc
  match-encode_any (some (primitive (Primitive.number s))) (Primitive.boolean b) k key p q h = cc
  match-encode_any (some (primitive (Primitive.number s))) (Primitive.string b) k key p q h = cc
