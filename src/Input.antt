-- ===== src/Input.antt =====
-- The JavaScript values that callers hand to the program (`unknown` in the source): trees of own
-- properties, with what validation has to reject. `ancestor` is a reference back to an array or an
-- object that encloses it; `opaque` is a function, a symbol or a bigint.
use newtondb.Number.{Number}
use newtondb.Prelude.{
  ℕ, suc, Bool, Option, none, some, List, [], ◌∷◌, ◌==◌, nat_eq, list_eq, if◌then◌else◌,
}
use newtondb.Text.{Text}

mutual
  pub data Input : Type 0 where
    undefined null opaque ancestor : Input
    boolean : Bool → Input
    number : Number → Input
    string : Text → Input
    array : Elements → Input
    -- whether the prototype is a plain one, and whether there are symbol properties
    object : Bool → Bool → Properties → Input

  -- The elements of an array; a hole is an index with no own property, and `getter` one with an
  -- accessor that returns this. An array that ends in `others` has more own properties, named or
  -- symbols, which no code of the program looks at.
  pub data Elements : Type 0 where
    nil others : Elements
    hole : Elements → Elements
    item getter : Input → Elements → Elements

  -- The own string-keyed properties of an object, in order.
  pub data Properties : Type 0 where
    end : Properties
    value : Text → Input → Properties → Properties
    accessor : Text → Properties → Properties

-- `array.length`
abbrev pub count : Elements → ℕ
count Elements.nil = 0
count Elements.others = 0
count (Elements.hole es) = suc (count es)
count (Elements.item x es) = suc (count es)
count (Elements.getter x es) = suc (count es)

-- Object.getOwnPropertyDescriptor(object, key)?.value
unfoldable pub own_value : Properties → Text → Option Input
own_value Properties.end k = none
own_value (Properties.value j x ps) k = if j == k then some x else own_value ps k
own_value (Properties.accessor j ps) k = if j == k then none else own_value ps k

-- Object.keys(Object.getOwnPropertyDescriptors(object))
unfoldable pub own_keys : Properties → List Text
own_keys Properties.end = []
own_keys (Properties.value j x ps) = j ∷ own_keys ps
own_keys (Properties.accessor j ps) = j ∷ own_keys ps
