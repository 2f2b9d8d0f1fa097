-- ===== src/Validation.antt =====
-- How src/database.ts turns callers' values into documents of a collection.
pub mod Inserted
use newtondb.Errors.{
  PrimaryKey, string, Result, ok, err, invalid_argument, schema_validation, immutable_primary_key,
  ◌>>=◌, >>=-eq-ok, ok-injective,
}
use newtondb.Input.{Input, Properties}
use newtondb.Json.{primitive, object, Primitive, Fields, Document, own}
use newtondb.Json.Clone.{clone_and_freeze, resolve_json_limits}
use newtondb.Json.Embed.{to_input, to_properties}
use newtondb.Key.{encode_key, document_key, same_key}
use newtondb.NativeMap.{present}
use newtondb.Prelude.{
  ◌≡◌, arith, Bool, true, false, ◌||◌, not, Option, none, some, [], ◌∷◌, ◌==◌, nat_eq, list_eq,
  if◌then◌else◌,
}
use newtondb.Runtime.{Runtime}
use newtondb.Schema.{CollectionSchema}
use newtondb.Text.{Text}

-- The caller's `validate`, if there is one.
unfoldable pub run_validate : Text → CollectionSchema → Document → Result (Unit {0})
run_validate collection schema document = elim schema.validate [
  | none ↦ ok tt
  | some accepts ↦ if accepts document then ok tt else err (schema_validation collection)
]

-- A property of a document that has none of that name goes behind the others.
unfoldable pub append_field : Fields → Text → Text → Fields
append_field Fields.end k v = Fields.field k (primitive (Primitive.string v)) Fields.end
append_field (Fields.field j w fs) k v = Fields.field j w (append_field fs k v)

-- Object.defineProperty(output, key, { value, … })
unfoldable pub define : Text → Input → Properties → Properties
define k x Properties.end = Properties.value k x Properties.end
define k x (Properties.value j y ps) =
    if j == k then Properties.value j x ps else Properties.value j y (define k x ps)
define k x (Properties.accessor j ps) =
    if j == k then Properties.value j x ps else Properties.accessor j (define k x ps)

-- The second loop of `mergeDocument`.
unfoldable pub merge_properties : Properties → Properties → Result Properties
unfolding define
merge_properties output Properties.end = ok output
merge_properties output (Properties.value k x ps) = merge_properties (define k x output) ps
merge_properties output (Properties.accessor k ps) = err invalid_argument

unfoldable pub merge_document : Document → Input → Result Input
unfolding merge_properties
merge_document before (Input.object true symbols ps) = do
  merged ← merge_properties (to_properties before) ps
  ok (Input.object true false merged)
merge_document before patch = err invalid_argument

-- A validated document with its key.
pub record Prepared : Type 0 where
  pub document : Document
  pub generated_key : Option Text
  pub primary_key : PrimaryKey
  pub encoded : Text

module _ (rt : Runtime) (collection : Text) (schema : CollectionSchema) where
  unfoldable pub validate_document : Input → Result Document
  unfolding run_validate
  validate_document document = do
    limits ← resolve_json_limits schema.limits
    cloned ← clone_and_freeze rt limits document
    _ ← run_validate collection schema cloned
    _ ← document_key rt cloned schema.primary_key
    ok cloned

  -- A generated key: `fresh` is what `randomId` or the caller's generator returns.
  unfoldable pub generate_key : Document → Text → Result (Document × Option Text)
  unfolding append_field
  generate_key cloned [] = err invalid_argument
  generate_key cloned (c ∷ s) = do
    _ ← encode_key rt (string (c ∷ s))
    ok (append_field cloned schema.primary_key (c ∷ s), some (c ∷ s))

  unfoldable pub materialize_primary_key : Input → Text → Result (Document × Option Text)
  unfolding generate_key
  materialize_primary_key input fresh = do
    limits ← resolve_json_limits schema.limits
    cloned ← clone_and_freeze rt limits input
    if present (own cloned schema.primary_key) || not schema.generate_primary_key
        then ok (cloned, none)
        else generate_key cloned fresh

  -- What `_insert` has before it reads the records.
  unfoldable pub prepare_insert : Input → Text → Result Prepared
  unfolding materialize_primary_key validate_document
  prepare_insert input fresh = do
    (materialized, generated) ← materialize_primary_key input fresh
    document ← validate_document (to_input (object materialized))
    primary_key ← document_key rt document schema.primary_key
    encoded ← encode_key rt primary_key
    ok (record {
      document = document;
      generated_key = generated;
      primary_key = primary_key;
      encoded = encoded;
    })

  -- `documentKey(after, schema) !== primaryKey`
  unfoldable pub require_same_key : PrimaryKey → PrimaryKey → Result (Unit {0})
  require_same_key after_key primary_key =
      if same_key after_key primary_key then ok tt else err (immutable_primary_key collection)

  -- The document that `_update` writes.
  unfoldable pub prepare_update : Document → Input → PrimaryKey → Result Document
  unfolding validate_document require_same_key
  prepare_update before patch primary_key = do
    candidate ← merge_document before patch
    after ← validate_document candidate
    after_key ← document_key rt after schema.primary_key
    _ ← require_same_key after_key primary_key
    ok after

  -- What `validateDocument` accepts has a primary key that can be encoded.
  pub validate_document-document_key :
      (input : Input) (d : Document)
      → validate_document input ≡ ok d
      → (k : PrimaryKey) × (document_key rt d schema.primary_key ≡ ok k)
  unfolding validate_document
  validate_document-document_key input d h =
      let (limits, e1, h1) = >>=-eq-ok (resolve_json_limits schema.limits) _ h in
      let (cloned, e2, h2) = >>=-eq-ok (clone_and_freeze rt limits input) _ h1 in
      let (u, e3, h3) = >>=-eq-ok (run_validate collection schema cloned) _ h2 in
      let (k, e4, h4) = >>=-eq-ok (document_key rt cloned schema.primary_key) _ h3 in
      (k, rw (← ok-injective h4) e4)

  -- A document that is prepared for an insertion has the primary key that it is filed under,
  -- and the filing key is that key's encoding.
  pub prepare_insert-key :
      (input : Input) (fresh : Text) (p : Prepared)
      → prepare_insert input fresh ≡ ok p
      → (document_key rt p.document schema.primary_key ≡ ok p.primary_key)
        × (encode_key rt p.primary_key ≡ ok p.encoded)
  unfolding prepare_insert
  prepare_insert-key input fresh p h =
      let (m, e1, h1) = >>=-eq-ok (materialize_primary_key input fresh) _ h in
      let (d, e2, h2) = >>=-eq-ok (validate_document (to_input (object m.0))) _ h1 in
      let (k, e3, h3) = >>=-eq-ok (document_key rt d schema.primary_key) _ h2 in
      let (s, e4, h4) = >>=-eq-ok (encode_key rt k) _ h3 in rw (← ok-injective h4) (e3, e4)

  -- A document that is prepared for an update has a primary key that is === to the one that
  -- the caller named.
  pub prepare_update-key :
      (before : Document) (patch : Input) (primary_key : PrimaryKey) (d : Document)
      → prepare_update before patch primary_key ≡ ok d
      → (k : PrimaryKey) × (document_key rt d schema.primary_key ≡ ok k)
        × (same_key k primary_key ≡ true)
  unfolding prepare_update require_same_key
  prepare_update-key before patch primary_key d h =
      let (c, e1, h1) = >>=-eq-ok (merge_document before patch) _ h in
      let (a, e2, h2) = >>=-eq-ok (validate_document c) _ h1 in
      let (k, e3, h3) = >>=-eq-ok (document_key rt a schema.primary_key) _ h2 in
      (k, rw (← same_document a d (same_key k primary_key) h3) e3, ground arith)
    where
      same_document :
          (a d : Document) (b : Bool)
          → (do _ ← (if b then ok (tt {0}) else err (immutable_primary_key collection)); ok a)
            ≡ ok d
          → a ≡ d
      same_document a d true h = ok-injective h
      same_document a d false h = cc
