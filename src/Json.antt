-- ===== src/Json.antt =====
-- The JSON values of src/json.ts: what a stored document is made of, after validation.
pub mod Clone
pub mod Embed
use newtondb.Number
use newtondb.Number.{Number}
use newtondb.Prelude.{
  ℕ, suc, ◌+◌, ◌≡◌, refl, Bool, true, false, Option, none, some, List, [], ◌∷◌, ◌==◌, nat_eq,
  list_eq, if◌then◌else◌, zero,
}
use newtondb.Text.{Text}

-- JsonPrimitive
pub data Primitive : Type 0 where
  null : Primitive
  boolean : Bool → Primitive
  number : Number → Primitive
  string : Text → Primitive

-- JsonValue; an object keeps its own properties in the order of their definition
mutual
  pub data Json : Type 0 where
    primitive : Primitive → Json
    array : Items → Json
    object : Fields → Json

  pub data Items : Type 0 where
    nil : Items
    cons : Json → Items → Items

  pub data Fields : Type 0 where
    end : Fields
    field : Text → Json → Fields → Fields

abbrev pub Document : Type 0
Document = Fields

-- `value[index]` of an array
unfoldable pub item : Items → ℕ → Option Json
item nil i = none
item (cons v vs) zero = some v
item (cons v vs) (suc i) = item vs i

-- The value of an own property.
unfoldable pub own : Fields → Text → Option Json
own end k = none
own (field j v fs) k = if j == k then some v else own fs k

-- `left === right` on primitives
unfoldable pub same : Primitive → Primitive → Bool
unfolding Number.same
same null null = true
same (boolean true) (boolean true) = true
same (boolean false) (boolean false) = true
same (number a) (number b) = Number.same a b
same (string s) (string t) = s == t
same _ _ = false

-- A primitive with a finite number, as all primitives of validated documents and queries are.
unfoldable pub is_finite : Primitive → Bool
is_finite (number n) = Number.is_finite n
is_finite _ = true

pub same_refl : (p : Primitive) → is_finite p ≡ true → same p p ≡ true
unfolding same is_finite
same_refl null h = refl
same_refl (boolean true) h = refl
same_refl (boolean false) h = refl
same_refl (number n) h = Number.same_refl n h
same_refl (string s) h = newtondb.Prelude.==_refl s
