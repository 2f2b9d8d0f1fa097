-- ===== src/Json/Clone.antt =====
-- `cloneAndFreezeJsonObject`: a caller's value as a JSON document, within the limits. The state is
-- the closure's `nodes` and `bytes`; `seen` is the chain of enclosing objects, so that a value that
-- is seen is an `ancestor` of the input. The result shares nothing with the input and is immutable.
pub mod Faithful
use newtondb.Errors.{
  Result, ok, err, json_validation, JsonIssue, accessor, cycle, document_size_limit,
  invalid_argument, invalid_number, invalid_prototype, not_object, sparse_array, string_size_limit,
  unsupported_value, ◌>>=◌,
}
use newtondb.Input
use newtondb.Input.{Input, Elements, Properties}
use newtondb.Json.{Json, primitive, array, object, Primitive, Items, Fields, Document}
use newtondb.Number
use newtondb.Number.{Number}
use newtondb.Prelude.{
  ℕ, zero, suc, ◌+◌, Bool, true, false, ◌||◌, Option, none, some, List, [], ◌∷◌, length, ltb,
  nat_beq, if◌then◌else◌,
}
use newtondb.Runtime.{Runtime}
use newtondb.Text.{Text, byte_length, quoted_bytes}

-- JsonLimits
pub record JsonLimits : Type 0 where
  pub max_depth : ℕ
  pub max_document_bytes : ℕ
  pub max_nodes : ℕ
  pub max_string_bytes : ℕ

-- defaultJsonLimits
abbrev pub default_json_limits : JsonLimits
default_json_limits = record {
  max_depth = 64;
  max_document_bytes = 1048576;
  max_nodes = 100000;
  max_string_bytes = 262144;
}

pub record Tally : Type 0 where
  pub nodes : ℕ
  pub bytes : ℕ

abbrev fail {ℓ} : {A : Type ℓ} → JsonIssue → Result A
fail issue = err (json_validation issue)

abbrev add_bytes : ℕ → Tally → Tally
add_bytes n t = record t { bytes = t.bytes + n }

module _ (rt : Runtime) where
  open rt use {number_text}

  unfoldable pub primitive_size : Primitive → ℕ
  primitive_size Primitive.null = 4
  primitive_size (Primitive.boolean true) = 4
  primitive_size (Primitive.boolean false) = 5
  primitive_size (Primitive.number n) = length (number_text n)
  primitive_size (Primitive.string s) = quoted_bytes s

  -- The bytes of `JSON.stringify(output)`: commas between members, a colon after each name.
  unfoldable mutual
    unfolding primitive_size

    pub json_size : Json → ℕ
    json_size (primitive p) = primitive_size p
    json_size (array items) = 2 + items_size items
    json_size (object fields) = 2 + fields_size fields

    pub items_size : Items → ℕ
    items_size Items.nil = 0
    items_size (Items.cons v Items.nil) = json_size v
    items_size (Items.cons v (Items.cons w vs)) = json_size v + 1 + items_size (Items.cons w vs)

    pub fields_size : Fields → ℕ
    fields_size Fields.end = 0
    fields_size (Fields.field k v Fields.end) = quoted_bytes k + 1 + json_size v
    fields_size (Fields.field k v (Fields.field j w fs)) =
        quoted_bytes k + 1 + json_size v + 1 + fields_size (Fields.field j w fs)

  module _ (limits : JsonLimits) where
    open limits use {max_depth, max_document_bytes, max_nodes, max_string_bytes}

    -- The start of `visit`: the value is counted, and the two limits are tested.
    unfoldable pub enter : ℕ → Tally → Result Tally
    enter depth t =
        if ltb max_nodes (t.nodes + 1)
        then fail JsonIssue.node_limit
        else if ltb max_depth depth
        then fail JsonIssue.depth_limit
        else ok (record t { nodes = t.nodes + 1 })

    -- The test at the end of an array or an object.
    unfoldable pub leave : Json → Tally → Result (Json × Tally)
    leave output t =
        if ltb max_document_bytes t.bytes then fail document_size_limit else ok (output, t)

    unfoldable pub visit_string : Text → Tally → Result (Json × Tally)
    visit_string s t =
        if ltb max_string_bytes (byte_length s)
        then fail string_size_limit
        else ok (primitive (Primitive.string s), add_bytes (byte_length s + 2) t)

    unfoldable pub visit_number : Number → Tally → Result (Json × Tally)
    visit_number n t =
        if Number.is_finite n
        then ok (primitive (Primitive.number n), add_bytes (length (number_text n)) t)
        else fail invalid_number

    unfoldable mutual
      unfolding enter leave visit_string visit_number

      pub visit : Input → ℕ → Tally → Result (Json × Tally)
      visit Input.null depth t = do
        t' ← enter depth t
        ok (primitive Primitive.null, add_bytes 4 t')
      visit (Input.boolean b) depth t = do
        t' ← enter depth t
        ok (primitive (Primitive.boolean b), add_bytes (if b then 4 else 5) t')
      visit (Input.number n) depth t = do t' ← enter depth t; visit_number n t'
      visit (Input.string s) depth t = do t' ← enter depth t; visit_string s t'
      visit Input.undefined depth t = do t' ← enter depth t; fail unsupported_value
      visit Input.opaque depth t = do t' ← enter depth t; fail unsupported_value
      visit Input.ancestor depth t = do t' ← enter depth t; fail cycle
      visit (Input.array es) depth t = do
        t' ← enter depth t
        (items, t'') ← visit_elements es (suc depth) t'
        leave (array items) t''
      visit (Input.object false symbols ps) depth t = do t' ← enter depth t; fail invalid_prototype
      visit (Input.object true true ps) depth t = do t' ← enter depth t; fail unsupported_value
      visit (Input.object true false ps) depth t = do
        t' ← enter depth t
        (fields, t'') ← visit_properties ps (suc depth) t'
        leave (object fields) t''

      pub visit_elements : Elements → ℕ → Tally → Result (Items × Tally)
      visit_elements Elements.nil depth t = ok (Items.nil, t)
      visit_elements Elements.others depth t = ok (Items.nil, t)
      visit_elements (Elements.hole es) depth t = fail sparse_array
      visit_elements (Elements.item x es) depth t = do
        (v, t') ← visit x depth t
        (vs, t'') ← visit_elements es depth (add_bytes 1 t')
        ok (Items.cons v vs, t'')
      visit_elements (Elements.getter x es) depth t = do
        (v, t') ← visit x depth t
        (vs, t'') ← visit_elements es depth (add_bytes 1 t')
        ok (Items.cons v vs, t'')

      pub visit_properties : Properties → ℕ → Tally → Result (Fields × Tally)
      visit_properties Properties.end depth t = ok (Fields.end, t)
      visit_properties (Properties.accessor k ps) depth t = fail accessor
      visit_properties (Properties.value k x ps) depth t =
          if ltb max_string_bytes (byte_length k) then fail string_size_limit else (do
            (v, t') ← visit x depth t
            (fs, t'') ← visit_properties ps depth (add_bytes (byte_length k + 3) t')
            ok (Fields.field k v fs, t''))

    -- The document, once its serialized size is tested too.
    unfoldable pub finish : Json × Tally → Result Document
    finish (object fields, t) =
        if ltb max_document_bytes (json_size (object fields))
        then fail document_size_limit
        else ok fields
    finish (output, t) = fail not_object

    -- The limits are tested by `resolve_json_limits`.
    unfoldable pub clone_and_freeze : Input → Result Document
    unfolding visit finish
    clone_and_freeze (Input.object plain symbols ps) = do
      visited ← visit (Input.object plain symbols ps) 0 (record { nodes = 0; bytes = 2 })
      finish visited
    clone_and_freeze candidate = fail not_object

-- One entry of `resolveLimits`: the override must be a positive safe integer up to the default.
unfoldable pub resolve_limit : ℕ → Option Number → Result ℕ
resolve_limit ceiling none = ok ceiling
resolve_limit ceiling (some x) = elim (Number.to_natural x) [
  | none ↦ err invalid_argument
  | some n ↦ if nat_beq n 0 || ltb ceiling n then err invalid_argument else ok n
]

-- Partial<JsonLimits>
pub record JsonLimitOverrides : Type 0 where
  pub depth : Option Number
  pub document_bytes : Option Number
  pub nodes : Option Number
  pub string_bytes : Option Number

-- resolvedLimits(schema)
unfoldable pub resolve_json_limits : JsonLimitOverrides → Result JsonLimits
unfolding resolve_limit
resolve_json_limits o = do
  depth ← resolve_limit default_json_limits.max_depth o.depth
  bytes ← resolve_limit default_json_limits.max_document_bytes o.document_bytes
  nodes ← resolve_limit default_json_limits.max_nodes o.nodes
  string_bytes ← resolve_limit default_json_limits.max_string_bytes o.string_bytes
  ok (record {
    max_depth = depth;
    max_document_bytes = bytes;
    max_nodes = nodes;
    max_string_bytes = string_bytes;
  })
