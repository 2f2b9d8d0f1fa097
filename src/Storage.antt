-- ===== src/Storage.antt =====
-- src/storage.ts: the catalog of a schema, the test of a loaded snapshot, and the documents of a
-- snapshot. A loaded value is data, as JSON.parse returns it: it has no accessors.
pub mod Envelope
pub mod Reopen
use newtondb.Database.Order.{Sign, is_positive, sort}
use newtondb.Errors.{Result, ok, err, raised, ◌>>=◌}
use newtondb.Input.{Input, Elements, Properties, own_value}
use newtondb.NativeMap
use newtondb.NativeMap.{Entries, present}
use newtondb.Number
use newtondb.Number.{Number, from_natural}
use newtondb.Prelude.{
  ℕ, Bool, true, false, ◌&&◌, Option, none, some, List, [], ◌∷◌, ◌==◌, map, nat_eq, list_eq,
}
use newtondb.Schema.{SecondaryIndex, CollectionSchema}
use newtondb.Text.{Text, codes, less}

-- Array.prototype.sort() of texts: by code units
unfoldable pub sorted : List Text → List Text
unfolding sort
sorted = sort (λ left right. less right left)

-- `[...path]`: a hole becomes undefined
unfoldable pub spread : Elements → Elements
spread Elements.nil = Elements.nil
spread Elements.others = Elements.nil
spread (Elements.hole es) = Elements.item Input.undefined (spread es)
spread (Elements.item x es) = Elements.item x (spread es)
spread (Elements.getter x es) = Elements.item x (spread es)

unfoldable pub spread_path : Input → Result Input
unfolding spread
spread_path (Input.array es) = ok (Input.array (spread es))
spread_path x = err raised

-- The entry of one index.
unfoldable pub catalog_index : SecondaryIndex → Result (Text × Input)
unfolding spread_path
catalog_index index = do
  path ← spread_path index.path
  ok (
    index.name,
    Input.object true false (
        Properties.value (codes "name") (Input.string index.name) (
          Properties.value (codes "path") path
            (Properties.value (codes "unique") (Input.boolean index.unique) Properties.end))),
  )

unfoldable pub catalog_indexes : List SecondaryIndex → Result (List (Text × Input))
unfolding catalog_index
catalog_indexes [] = ok []
catalog_indexes (index ∷ indexes) = do
  entry ← catalog_index index
  entries ← catalog_indexes indexes
  ok (entry ∷ entries)

abbrev to_elements : List (Text × Input) → Elements
to_elements [] = Elements.nil
to_elements ((name, x) ∷ entries) = Elements.item x (to_elements entries)

-- `locale_compare` is String.prototype.localeCompare.
module _ (locale_compare : Text → Text → Sign) where
  unfoldable pub catalog_collection : CollectionSchema → Result Input
  unfolding catalog_indexes sort
  catalog_collection collection = do
    entries ← catalog_indexes collection.indexes
    let ordered =
        sort
          (λ (left : Text × Input) (right : Text × Input).
            is_positive (locale_compare left.0 right.0))
          entries
    ok (
        Input.object true false (
          Properties.value (codes "generatedPrimaryKey")
            (Input.boolean collection.generate_primary_key)
            (Properties.value (codes "indexes") (Input.array (to_elements ordered)) (
              Properties.value (codes "primaryKey") (Input.string collection.primary_key)
                Properties.end))))

  unfoldable pub catalog_of : List Text → Entries Text CollectionSchema → Result Properties
  unfolding catalog_collection
  catalog_of [] schema = ok Properties.end
  catalog_of (name ∷ names) schema = elim (NativeMap.get schema name) [
    | none ↦ catalog_of names schema
    | some collection ↦ (do
      entry ← catalog_collection collection
      rest ← catalog_of names schema
      ok (Properties.value name entry rest))
  ]

  -- createCatalog(schema)
  unfoldable pub create_catalog : Entries Text CollectionSchema → Result Input
  unfolding catalog_of sorted
  create_catalog schema = do
    entries ← catalog_of (sorted (map (λ (p : Text × CollectionSchema). p.0) schema)) schema
    ok (Input.object true false entries)

-- catalogsEqual(left, right), where `stringify` is JSON.stringify
unfoldable pub catalogs_equal : (Input → Text) → Input → Input → Bool
catalogs_equal stringify left right = stringify left == stringify right

-- The own properties of a value that `isRecord` accepts.
unfoldable pub record_of : Input → Option Properties
record_of (Input.object true symbols ps) = some ps
record_of x = none

-- Number.isSafeInteger(value) && value >= 0
unfoldable pub natural_of : Option Input → Option ℕ
natural_of (some (Input.number n)) = Number.to_natural n
natural_of x = none

unfoldable pub string_of : Option Input → Option Text
string_of (some (Input.string s)) = some s
string_of x = none

abbrev is_named : Option Text → Bool
is_named (some (c ∷ s)) = true
is_named x = false

abbrev is_boolean : Option Input → Bool
is_boolean (some (Input.boolean b)) = true
is_boolean x = false

abbrev is_token : Input → Bool
is_token (Input.string s) = true
is_token (Input.number n) = present (Number.to_natural n)
is_token x = false

-- `!index.path.some(…)` behind the first token; `some` skips holes
unfoldable pub are_tokens : Elements → Bool
are_tokens Elements.nil = true
are_tokens Elements.others = true
are_tokens (Elements.hole es) = are_tokens es
are_tokens (Elements.item x es) = is_token x && are_tokens es
are_tokens (Elements.getter x es) = is_token x && are_tokens es

unfoldable pub is_index_path : Option Input → Bool
unfolding are_tokens
is_index_path (some (Input.array (Elements.item (Input.string s) es))) = are_tokens es
is_index_path (some (Input.array (Elements.getter (Input.string s) es))) = are_tokens es
is_index_path x = false

unfoldable pub is_catalog_index : Input → Bool
unfolding record_of string_of is_index_path
is_catalog_index x = elim (record_of x) [
  | none ↦ false
  | some ps ↦
      is_named (string_of (own_value ps (codes "name")))
      && is_boolean (own_value ps (codes "unique"))
      && is_index_path (own_value ps (codes "path"))
]

-- The loop over `catalog.indexes`, which yields undefined for a hole.
unfoldable pub are_catalog_indexes : Elements → Bool
unfolding is_catalog_index
are_catalog_indexes Elements.nil = true
are_catalog_indexes Elements.others = true
are_catalog_indexes (Elements.hole es) = false
are_catalog_indexes (Elements.item x es) = is_catalog_index x && are_catalog_indexes es
are_catalog_indexes (Elements.getter x es) = is_catalog_index x && are_catalog_indexes es

-- `!collection.some((document) => !isRecord(document))`
unfoldable pub are_records : Elements → Bool
unfolding record_of
are_records Elements.nil = true
are_records Elements.others = true
are_records (Elements.hole es) = are_records es
are_records (Elements.item x es) = present (record_of x) && are_records es
are_records (Elements.getter x es) = present (record_of x) && are_records es

abbrev is_record_array : Option Input → Bool
unfolding are_records
is_record_array (some (Input.array es)) = are_records es
is_record_array x = false

abbrev is_index_array : Option Input → Bool
unfolding are_catalog_indexes
is_index_array (some (Input.array es)) = are_catalog_indexes es
is_index_array x = false

-- One round of the loop over the names of the catalog.
unfoldable pub is_catalog_entry : Properties → Properties → Text → Bool
unfolding record_of string_of is_record_array is_index_array
is_catalog_entry catalogs collections name =
    is_named (some name) && elim (own_value catalogs name) [
      | none ↦ false
      | some x ↦ elim (record_of x) [
        | none ↦ false
        | some catalog ↦
            is_boolean (own_value catalog (codes "generatedPrimaryKey"))
            && is_named (string_of (own_value catalog (codes "primaryKey")))
            && is_index_array (own_value catalog (codes "indexes"))
            && is_record_array (own_value collections name)
      ]
    ]

unfoldable pub are_catalog_entries : Properties → Properties → List Text → Bool
unfolding is_catalog_entry
are_catalog_entries catalogs collections [] = true
are_catalog_entries catalogs collections (name ∷ names) =
    is_catalog_entry catalogs collections name && are_catalog_entries catalogs collections names

-- SnapshotEnvelope; `format` and `formatVersion` are constants
pub record Snapshot : Type 0 where
  pub catalog : Input
  pub collections : Properties
  pub database_id : Text
  pub generation : ℕ
  pub revision : ℕ
