-- ===== src/Index.antt =====
-- The secondary indexes of src/database.ts. A bucket is the set of the encoded primary keys that are
-- filed under one encoded value; sets are values here, so a copied set and one that is changed in
-- place read the same.
pub mod Buckets
pub mod Agrees
pub mod Maintain
pub mod Created
pub mod Total
pub mod Restore
use newtondb.Errors.{Result, ok, err, duplicate_unique_index, invalid_argument, ◌>>=◌}
use newtondb.Json.{Json, primitive, object, Document}
use newtondb.Key.{encode_index_value}
use newtondb.NativeMap
use newtondb.NativeMap.{Entries}
use newtondb.OverlayMap
use newtondb.OverlayMap.{MapLike, native, overlay}
use newtondb.Path.{PropertyPath, read_path, validate_path}
use newtondb.Prelude.{
  ℕ, Bool, true, false, ◌&&◌, ◌||◌, not, Option, none, some, List, [], ◌∷◌, map, ◌==◌, nat_eq,
  list_eq, contains, insert, discard, length, nat_beq, if◌then◌else◌,
}
use newtondb.Runtime.{Runtime}
use newtondb.Schema.{SecondaryIndex, CollectionSchema}
use newtondb.Text.{Text}

abbrev pub Buckets : Type 0
Buckets = MapLike Text (List Text)

pub record SecondaryIndexState : Type 0 where
  pub buckets : Buckets
  pub copy_on_write : Bool
  pub name : Text
  pub path : PropertyPath
  pub unique : Bool

abbrev pub Indexes : Type 0
Indexes = Entries Text SecondaryIndexState

-- The loop of `createIndexes` over the declarations that are left.
create_from : List SecondaryIndex → Indexes → Result Indexes
create_from [] indexes = ok indexes
create_from (definition ∷ rest) indexes =
    if nat_beq (length definition.name) 0 || NativeMap.has indexes definition.name
    then err invalid_argument
    else (do
      path ← validate_path definition.path 32
      create_from rest (
          NativeMap.set definition.name
            (record {
              buckets = native [];
              copy_on_write = false;
              name = definition.name;
              path = path;
              unique = definition.unique;
            })
            indexes))

unfoldable pub create_indexes : CollectionSchema → Result Indexes
unfolding create_from
create_indexes schema = create_from schema.indexes []

-- `bucket ?? new Set()`
abbrev pub members : Option (List Text) → List Text
members none = []
members (some b) = b

unfoldable pub check_unique : Text → SecondaryIndexState → Text → Option Text → Result (Option Text)
check_unique collection index primary_key none = ok none
check_unique collection index primary_key (some encoded) =
    let bucket = OverlayMap.get index.buckets encoded in
    if index.unique && (NativeMap.present bucket && not (contains (members bucket) primary_key))
    then err (duplicate_unique_index collection index.name)
    else ok (some encoded)

-- The second loop, for one index.
unfoldable pub apply_addition :
    SecondaryIndexState → Text → Option Text → Result SecondaryIndexState
apply_addition index primary_key none = ok index
apply_addition index primary_key (some encoded) = do
  buckets ←
      OverlayMap.set encoded (insert primary_key (members (OverlayMap.get index.buckets encoded)))
        index.buckets
  ok (record index { buckets = buckets })

unfoldable pub apply_additions : Indexes → Text → List (Option Text) → Result Indexes
unfolding apply_addition
apply_additions ((n, index) ∷ indexes) primary_key (addition ∷ additions) = do
  index' ← apply_addition index primary_key addition
  indexes' ← apply_additions indexes primary_key additions
  ok ((n, index') ∷ indexes')
apply_additions indexes primary_key additions = ok indexes

-- An emptied bucket is dropped.
unfoldable pub shrink_bucket :
    SecondaryIndexState → Text → Text → List Text → Result SecondaryIndexState
shrink_bucket index primary_key encoded current =
    let bucket = discard primary_key current in
    let emptied = OverlayMap.delete encoded index.buckets in
    let kept = OverlayMap.set encoded bucket index.buckets in
    do
      buckets ← (if nat_beq (length bucket) 0 then emptied else kept)
      ok (record index { buckets = buckets })

unfoldable pub remove_entry : SecondaryIndexState → Text → Option Text → Result SecondaryIndexState
unfolding shrink_bucket
remove_entry index primary_key none = ok index
remove_entry index primary_key (some encoded) = elim (OverlayMap.get index.buckets encoded) [
  | none ↦ ok index
  | some current ↦ shrink_bucket index primary_key encoded current
]

module _ (rt : Runtime) where
  unfoldable pub encode_read : Option Json → Result (Option Text)
  encode_read none = ok none
  encode_read (some (primitive p)) = do encoded ← encode_index_value rt p; ok (some encoded)
  encode_read (some _) = err invalid_argument

  -- indexValue(collection, index, document), by the index's path
  unfoldable pub index_value : PropertyPath → Document → Result (Option Text)
  unfolding encode_read
  index_value path document = encode_read (read_path (some (object document)) path)

  module _ (collection : Text) where
    -- The first loop of `addToIndexes`, for one index: the entry to add, `none` for `continue`.
    unfoldable pub plan_addition : SecondaryIndexState → Text → Document → Result (Option Text)
    unfolding check_unique index_value
    plan_addition index primary_key document = do
      encoded ← index_value index.path document
      check_unique collection index primary_key encoded

    unfoldable pub plan_additions : Indexes → Text → Document → Result (List (Option Text))
    unfolding plan_addition
    plan_additions [] primary_key document = ok []
    plan_additions ((n, index) ∷ indexes) primary_key document = do
      addition ← plan_addition index primary_key document
      additions ← plan_additions indexes primary_key document
      ok (addition ∷ additions)

  unfoldable pub add_to_indexes : Text → Indexes → Text → Document → Result Indexes
  unfolding plan_additions apply_additions
  add_to_indexes collection indexes primary_key document = do
    additions ← plan_additions collection indexes primary_key document
    apply_additions indexes primary_key additions

  unfoldable pub remove_from_indexes : Indexes → Text → Document → Result Indexes
  unfolding remove_entry index_value
  remove_from_indexes [] primary_key document = ok []
  remove_from_indexes ((n, index) ∷ indexes) primary_key document = do
    encoded ← index_value index.path document
    index' ← remove_entry index primary_key encoded
    indexes' ← remove_from_indexes indexes primary_key document
    ok ((n, index') ∷ indexes')

-- cloneIndexes
unfoldable pub clone_indexes : Indexes → Indexes
clone_indexes =
    map (λ p. (p.0, record (p.1) { buckets = OverlayMap.create p.1.buckets; copy_on_write = true }))

-- sealIndexes; a bucket map that is no overlay is kept, as `seal` does
unfoldable pub seal_indexes : Indexes → Indexes
seal_indexes =
    map (λ p. (p.0, record (p.1) { buckets = OverlayMap.seal p.1.buckets; copy_on_write = false }))
