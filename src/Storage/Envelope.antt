-- ===== src/Storage/Envelope.antt =====
-- `isSnapshotEnvelope` and `cloneSnapshotCollections` of src/storage.ts: a loaded value read as a
-- snapshot, and the documents that a snapshot takes of the collections.
use newtondb.Errors.{Result, ok, err, order_violated, ◌>>=◌}
use newtondb.Input.{Input, Elements, Properties, own_value, own_keys}
use newtondb.Json.{object, Document}
use newtondb.Json.Embed.{to_input}
use newtondb.NativeMap.{Entries}
use newtondb.Number
use newtondb.Number.{Number, from_natural}
use newtondb.OverlayMap
use newtondb.OverlayMap.{MapLike}
use newtondb.Prelude.{
  Bool, false, ◌&&◌, Option, none, some, List, [], ◌∷◌, ◌==◌, ltb, length, nat_eq, list_eq,
  if◌then◌else◌,
}
use newtondb.Storage.{Snapshot, sorted, record_of, natural_of, are_catalog_entries}
use newtondb.Text.{Text, codes}
use newtondb.Transaction.{Collections}

abbrev is_text : Option Input → Text → Bool
is_text (some (Input.string s)) t = s == t
is_text x t = false

abbrev is_number : Option Input → Number → Bool
is_number (some (Input.number a)) b = Number.same a b
is_number x b = false

-- `databaseId`, of 1 to 256 characters
unfoldable pub database_id_of : Option Input → Option Text
database_id_of (some (Input.string [])) = none
database_id_of (some (Input.string (c ∷ s))) =
    if ltb 256 (length (c ∷ s)) then none else some (c ∷ s)
database_id_of x = none

-- The names and the entries of the two tables, once both are records.
unfoldable pub are_tables : Properties → Properties → Bool
unfolding sorted are_catalog_entries
are_tables catalogs collections =
    (sorted (own_keys catalogs) == sorted (own_keys collections))
    && are_catalog_entries catalogs collections (sorted (own_keys catalogs))

-- The envelope of the properties, if `isSnapshotEnvelope` accepts them.
unfoldable pub envelope_of : Properties → Option Snapshot
unfolding are_tables database_id_of natural_of record_of Number.same
envelope_of ps =
    if is_text (own_value ps (codes "format")) (codes "newtondb")
      && is_number (own_value ps (codes "formatVersion")) (from_natural 1)
    then elim (database_id_of (own_value ps (codes "databaseId"))) [
      | none ↦ none
      | some id ↦ elim (natural_of (own_value ps (codes "generation"))) [
        | none ↦ none
        | some generation ↦ elim (natural_of (own_value ps (codes "revision"))) [
          | none ↦ none
          | some revision ↦ elim (own_value ps (codes "catalog")) [
            | none ↦ none
            | some catalog ↦ elim (record_of catalog) [
              | none ↦ none
              | some catalogs ↦ elim (own_value ps (codes "collections")) [
                | none ↦ none
                | some tables ↦ elim (record_of tables) [
                  | none ↦ none
                  | some collections ↦
                      if are_tables catalogs collections
                      then some (record {
                        catalog = catalog;
                        collections = collections;
                        database_id = id;
                        generation = generation;
                        revision = revision;
                      })
                      else none
                ]
              ]
            ]
          ]
        ]
      ]
    ]
    else none

-- isSnapshotEnvelope(value), with what it then is read as
unfoldable pub read_envelope : Input → Option Snapshot
unfolding record_of envelope_of
read_envelope x = elim (record_of x) [ none ↦ none | some ps ↦ envelope_of ps ]

-- The documents of one collection, in its order.
unfoldable pub ordered_documents : MapLike Text Document → List Text → Result (List Document)
ordered_documents records [] = ok []
ordered_documents records (key ∷ order) = elim (OverlayMap.get records key) [
  | none ↦ err order_violated
  | some document ↦ (do documents ← ordered_documents records order; ok (document ∷ documents))
]

-- cloneSnapshotCollections(collections)
unfoldable pub clone_snapshot_collections : Collections → Result (Entries Text (List Document))
unfolding ordered_documents
clone_snapshot_collections [] = ok []
clone_snapshot_collections ((name, collection) ∷ collections) = do
  documents ← ordered_documents collection.contents.records collection.contents.order
  rest ← clone_snapshot_collections collections
  ok ((name, documents) ∷ rest)

-- The input of a stored document.
abbrev pub as_input : Document → Input
as_input d = to_input (object d)

abbrev pub documents_of : List Document → Elements
documents_of [] = Elements.nil
documents_of (d ∷ ds) = Elements.item (as_input d) (documents_of ds)

-- The object that `cloneSnapshotCollections` builds.
abbrev pub tables_of : Entries Text (List Document) → Properties
tables_of [] = Properties.end
tables_of ((name, documents) ∷ tables) =
    Properties.value name (Input.array (documents_of documents)) (tables_of tables)
