-- ===== src/Collection/Create.antt =====
-- `createStoredCollection`: a collection of the seed's documents.
use newtondb.Collection.{Contents, StoredCollection}
use newtondb.Errors.{Result, ok, err, duplicate_key, ◌>>=◌}
use newtondb.Index.{add_to_indexes, create_indexes}
use newtondb.Input.{Input}
use newtondb.Key.{document_key, encode_key}
use newtondb.OverlayMap
use newtondb.OverlayMap.{native}
use newtondb.Prelude.{ℕ, ◌+◌, List, [], ◌∷◌, ◌++◌, length, if◌then◌else◌, nat_eq, list_eq}
use newtondb.Runtime.{Runtime}
use newtondb.Schema.{CollectionSchema}
use newtondb.Text.{Text}
use newtondb.Validation.{validate_document}

module _ (rt : Runtime) (name : Text) where
  -- One round of the loop.
  unfoldable pub add_seed : Contents → Input → Result Contents
  add_seed c input = do
    document ← validate_document rt name c.schema input
    key ← document_key rt document c.schema.primary_key
    encoded ← encode_key rt key
    _ ← (if OverlayMap.has c.records encoded then err (duplicate_key name key) else ok (tt {0}))
    records ← OverlayMap.set encoded document c.records
    positions ← OverlayMap.set encoded (length c.order) c.positions
    indexes ← add_to_indexes rt name c.indexes encoded document
    ok (record c {
      indexes = indexes;
      next_position = length c.order + 1;
      order = c.order ++ encoded ∷ [];
      positions = positions;
      records = records;
    })

  unfoldable pub add_seeds : Contents → List Input → Result Contents
  unfolding add_seed
  add_seeds c [] = ok c
  add_seeds c (input ∷ inputs) = do c' ← add_seed c input; add_seeds c' inputs

  unfoldable pub create_stored_collection :
      List Input → CollectionSchema → ℕ → Result StoredCollection
  unfolding add_seeds
  create_stored_collection inputs schema revision = do
    indexes ← create_indexes schema
    contents ←
        add_seeds
          (record {
            indexes = indexes;
            next_position = 0;
            order = [];
            positions = native [];
            records = native [];
            schema = schema;
          })
          inputs
    ok (record { contents = contents; revision = revision })
