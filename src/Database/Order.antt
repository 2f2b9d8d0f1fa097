-- ===== src/Database/Order.antt =====
-- The order of query results: `compareJson`, the comparator of `orderBy`, and sorting. The sign of a
-- comparison is all that `sort` reads. `Array.prototype.sort` is stable, and so is this insertion.
use newtondb.Json.{Json, primitive, object, Primitive, Document, own}
use newtondb.Number
use newtondb.Path.{PropertyPath, read_path}
use newtondb.Prelude.{
  ℕ, Bool, true, false, Option, none, some, List, [], ◌∷◌, ltb, nat_beq, if◌then◌else◌,
}
use newtondb.Query.Compile.{same_primitive}
use newtondb.Text
use newtondb.Text.{Text}

pub data Sign : Type 0 where
  negative equal positive : Sign

abbrev pub is_positive : Sign → Bool
is_positive positive = true
is_positive _ = false

-- `-compared`
abbrev pub opposite : Sign → Sign
opposite negative = positive
opposite equal = equal
opposite positive = negative

-- typeOrder.indexOf(typeof value)
type_order : Json → ℕ
type_order (primitive (Primitive.boolean b)) = 0
type_order (primitive (Primitive.number n)) = 1
type_order (primitive (Primitive.string s)) = 2
type_order _ = 3

by_type : Json → Json → Sign
unfolding type_order
by_type left right =
    if nat_beq (type_order left) (type_order right)
    then equal
    else if ltb (type_order left) (type_order right)
    then negative
    else positive

-- Two values that are defined, not null and not `===`.
compare_defined : Json → Json → Sign
unfolding by_type
compare_defined (primitive (Primitive.number a)) (primitive (Primitive.number b)) =
    if Number.less a b then negative else positive
compare_defined (primitive (Primitive.string s)) (primitive (Primitive.string t)) =
    if Text.less s t then negative else positive
compare_defined (primitive (Primitive.boolean a)) (primitive (Primitive.boolean b)) =
    if a then positive else negative
compare_defined left right = by_type left right

compare_not_null : Json → Json → Sign
unfolding compare_defined
compare_not_null (primitive Primitive.null) right = positive
compare_not_null left (primitive Primitive.null) = negative
compare_not_null left right = compare_defined left right

-- `left === right`; two arrays or two objects that are one object compare as equal below too
identical : Json → Json → Bool
unfolding same_primitive
identical left (primitive p) = same_primitive (some left) p
identical left right = false

unfoldable pub compare_json : Option Json → Option Json → Sign
unfolding compare_not_null identical
compare_json none none = equal
compare_json none (some right) = positive
compare_json (some left) none = negative
compare_json (some left) (some right) =
    if identical left right then equal else compare_not_null left right

pub record OrderField : Type 0 where
  pub descending : Bool
  pub path : PropertyPath

-- The comparator of an ordered query, before the tie on the position that a stable sort keeps. The
-- primary keys of stored documents are there, so `documentKey` does not throw.
unfoldable pub compare_documents : Text → List OrderField → Document → Document → Sign
unfolding compare_json
compare_documents primary_key [] left right =
    compare_json (own left primary_key) (own right primary_key)
compare_documents primary_key (field ∷ fields) left right =
    let compared =
      compare_json (read_path (some (object left)) field.path)
        (read_path (some (object right)) field.path) in
    let rest = compare_documents primary_key fields left right in
    elim compared [ equal ↦ rest | other ↦ (if field.descending then opposite other else other) ]

module _ {ℓ} {A : Type ℓ} (after : A → A → Bool) where
  -- `x` goes before the first element that it does not come after.
  unfoldable pub place : A → List A → List A
  place x [] = x ∷ []
  place x (y ∷ ys) = if after x y then y ∷ place x ys else x ∷ y ∷ ys

  unfoldable pub sort : List A → List A
  unfolding place
  sort [] = []
  sort (x ∷ xs) = place x (sort xs)
