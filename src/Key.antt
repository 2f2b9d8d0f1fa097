-- ===== src/Key.antt =====
-- src/key.ts: the text under which a primary key or an indexed value is filed.
pub mod Injective
use newtondb.Errors.{PrimaryKey, number, string, Result, ok, err, invalid_argument, ◌>>=◌}
use newtondb.Json.{Json, primitive, Primitive, Document, own}
use newtondb.Number
use newtondb.Prelude.{
  Bool, true, false, ◌==◌, nat_eq, list_eq, Option, none, some, List, [], ◌∷◌, ◌++◌, length,
  if◌then◌else◌,
}
use newtondb.Runtime.{Runtime, decimal}
use newtondb.Text.{Text, codes}

-- `s:${text.length}:${text}`
unfoldable pub sized : Text → Text
sized s = codes "s:" ++ (decimal (length s) ++ (b':' ∷ s))

-- `===` on keys.
unfoldable pub same_key : PrimaryKey → PrimaryKey → Bool
same_key (string s) (string t) = s == t
same_key (number a) (number b) = Number.same a b
same_key _ _ = false

module _ (rt : Runtime) where
  open rt use {number_text}

  unfoldable pub encode_key : PrimaryKey → Result Text
  unfolding sized
  encode_key (string []) = err invalid_argument
  encode_key (string (c ∷ s)) = ok (sized (c ∷ s))
  encode_key (number n) =
      if Number.is_safe_integer n then ok (codes "n:" ++ number_text n) else err invalid_argument

  unfoldable pub encode_index_value : Primitive → Result Text
  unfolding sized
  encode_index_value Primitive.null = ok (codes "z:")
  encode_index_value (Primitive.boolean true) = ok (codes "b:1")
  encode_index_value (Primitive.boolean false) = ok (codes "b:0")
  encode_index_value (Primitive.string s) = ok (sized s)
  encode_index_value (Primitive.number n) =
      if Number.is_finite n
      then ok (codes "n:" ++ number_text (Number.normalized n))
      else err invalid_argument

  -- The value of the primary-key property as a key, if it is a string or a number.
  unfoldable pub key_of_value : Option Json → Result PrimaryKey
  key_of_value (some (primitive (Primitive.string s))) = ok (string s)
  key_of_value (some (primitive (Primitive.number n))) = ok (number n)
  key_of_value _ = err invalid_argument

  -- documentKey(document, schema), by the schema's primary-key field
  unfoldable pub document_key : Document → Text → Result PrimaryKey
  unfolding key_of_value
  document_key document primary_key = do
    value ← key_of_value (own document primary_key)
    _ ← encode_key value
    ok value
