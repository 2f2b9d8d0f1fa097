-- ===== src/Json/Embed.antt =====
-- A stored document handed back to the validation: plain objects and arrays of the same values.
use mathlib.Core.Path.{ap₂}
use newtondb.Input.{Input, Elements, Properties}
use newtondb.Prelude.{true, false, ◌≡◌, refl, sym, ap, ◌∙◌}
use newtondb.Json.{Json, primitive, array, object, Primitive, Items, Fields}

-- A JSON value as the caller's value that it came from.
unfoldable mutual
  pub to_input : Json → Input
  to_input (primitive Primitive.null) = Input.null
  to_input (primitive (Primitive.boolean b)) = Input.boolean b
  to_input (primitive (Primitive.number n)) = Input.number n
  to_input (primitive (Primitive.string s)) = Input.string s
  to_input (array items) = Input.array (to_elements items)
  to_input (object fields) = Input.object true false (to_properties fields)

  pub to_elements : Items → Elements
  to_elements Items.nil = Elements.nil
  to_elements (Items.cons v vs) = Elements.item (to_input v) (to_elements vs)

  pub to_properties : Fields → Properties
  to_properties Fields.end = Properties.end
  to_properties (Fields.field k v fs) = Properties.value k (to_input v) (to_properties fs)

-- A caller's value as it is read: an element with an accessor is what the accessor returns, and the
-- properties of an array that are no elements are not there.
unfoldable mutual
  pub as_read : Input → Input
  as_read (Input.array es) = Input.array (elements_as_read es)
  as_read (Input.object plain symbols ps) = Input.object plain symbols (properties_as_read ps)
  as_read Input.undefined = Input.undefined
  as_read Input.null = Input.null
  as_read Input.opaque = Input.opaque
  as_read Input.ancestor = Input.ancestor
  as_read (Input.boolean b) = Input.boolean b
  as_read (Input.number n) = Input.number n
  as_read (Input.string s) = Input.string s

  pub elements_as_read : Elements → Elements
  elements_as_read Elements.nil = Elements.nil
  elements_as_read Elements.others = Elements.nil
  elements_as_read (Elements.hole es) = Elements.hole (elements_as_read es)
  elements_as_read (Elements.item x es) = Elements.item (as_read x) (elements_as_read es)
  elements_as_read (Elements.getter x es) = Elements.item (as_read x) (elements_as_read es)

  pub properties_as_read : Properties → Properties
  properties_as_read Properties.end = Properties.end
  properties_as_read (Properties.accessor k ps) = Properties.accessor k (properties_as_read ps)
  properties_as_read (Properties.value k x ps) =
      Properties.value k (as_read x) (properties_as_read ps)

-- A JSON value has nothing that reading leaves out.
mutual
  unfolding as_read to_input

  pub as_read-to_input : (v : Json) → as_read (to_input v) ≡ to_input v
  as_read-to_input (primitive Primitive.null) = refl
  as_read-to_input (primitive (Primitive.boolean b)) = refl
  as_read-to_input (primitive (Primitive.number n)) = refl
  as_read-to_input (primitive (Primitive.string s)) = refl
  as_read-to_input (array items) = ap Input.array (as_read-to_elements items)
  as_read-to_input (object fields) = ap (Input.object true false) (as_read-to_properties fields)

  as_read-to_elements : (vs : Items) → elements_as_read (to_elements vs) ≡ to_elements vs
  as_read-to_elements Items.nil = refl
  as_read-to_elements (Items.cons v vs) =
      ap₂ Elements.item (as_read-to_input v) (as_read-to_elements vs)

  as_read-to_properties : (fs : Fields) → properties_as_read (to_properties fs) ≡ to_properties fs
  as_read-to_properties Fields.end = refl
  as_read-to_properties (Fields.field k v fs) =
      ap₂ (Properties.value k) (as_read-to_input v) (as_read-to_properties fs)

mutual
  from_input : Input → Json
  from_input (Input.boolean b) = primitive (Primitive.boolean b)
  from_input (Input.number n) = primitive (Primitive.number n)
  from_input (Input.string s) = primitive (Primitive.string s)
  from_input (Input.array es) = array (from_elements es)
  from_input (Input.object plain symbols ps) = object (from_properties ps)
  from_input x = primitive Primitive.null

  from_elements : Elements → Items
  from_elements (Elements.item x es) = Items.cons (from_input x) (from_elements es)
  from_elements es = Items.nil

  from_properties : Properties → Fields
  from_properties (Properties.value k x ps) = Fields.field k (from_input x) (from_properties ps)
  from_properties ps = Fields.end

mutual
  unfolding to_input from_input

  from-to_input : (v : Json) → from_input (to_input v) ≡ v
  from-to_input (primitive Primitive.null) = refl
  from-to_input (primitive (Primitive.boolean b)) = refl
  from-to_input (primitive (Primitive.number n)) = refl
  from-to_input (primitive (Primitive.string s)) = refl
  from-to_input (array items) = ap array (from-to_elements items)
  from-to_input (object fields) = ap object (from-to_properties fields)

  from-to_elements : (vs : Items) → from_elements (to_elements vs) ≡ vs
  from-to_elements Items.nil = refl
  from-to_elements (Items.cons v vs) = cc (from-to_input v, from-to_elements vs)

  from-to_properties : (fs : Fields) → from_properties (to_properties fs) ≡ fs
  from-to_properties Fields.end = refl
  from-to_properties (Fields.field k v fs) = cc (from-to_input v, from-to_properties fs)

-- A value is determined by what the caller sees of it.
pub to_input-injective : (v w : Json) → to_input v ≡ to_input w → v ≡ w
to_input-injective v w h = sym (from-to_input v) ∙ ap from_input h ∙ from-to_input w
