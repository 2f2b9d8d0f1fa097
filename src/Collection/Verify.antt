-- ===== src/Collection/Verify.antt =====
-- `assertCollectionInvariant`: the program's own check of a collection, as it is run.
use newtondb.Collection.{Contents}
use newtondb.Errors.{Result, ok, err, invariant_violation, ◌>>=◌, ◌>>◌}
use newtondb.Index.{SecondaryIndexState, Indexes, members, index_value}
use newtondb.Json.{Document}
use newtondb.Key.{encode_key, document_key}
use newtondb.NativeMap
use newtondb.NativeMap.{Entries}
use newtondb.OverlayMap
use newtondb.OverlayMap.{MapLike}
use newtondb.Prelude.{
  ℕ, Bool, true, false, ◌&&◌, not, Option, none, some, List, [], ◌∷◌, ◌==◌, nat_eq, list_eq,
  contains, insert, includes_all, length, nat_beq, leb,
}
use newtondb.Runtime.{Runtime}
use newtondb.Text.{Text}

-- `if (!test) throw new InvariantViolationError(…)`
abbrev require : Bool → Result (Unit {0})
require true = ok tt
require false = err invariant_violation

-- `new Set(keys)`
unfoldable pub to_set : List Text → List Text → List Text
to_set seen [] = seen
to_set seen (k ∷ keys) = to_set (insert k seen) keys

-- `previous !== undefined && previous >= rank`
unfoldable pub out_of_order : Option ℕ → ℕ → Bool
out_of_order none rank = false
out_of_order (some previous) rank = leb rank previous

-- The loop over the order; `previous` is the rank of the key before.
unfoldable pub check_order : MapLike Text ℕ → Option ℕ → List Text → Result (Unit {0})
unfolding out_of_order
check_order positions previous [] = ok tt
check_order positions previous (key ∷ order) = elim (OverlayMap.get positions key) [
  | none ↦ err invariant_violation
  | some rank ↦ do
    require (not (out_of_order previous rank))
    check_order positions (some rank) order
]

module _ (rt : Runtime) where
  unfoldable pub check_records : Text → List Text → Entries Text Document → Result (Unit {0})
  check_records primary_key ordered [] = ok tt
  check_records primary_key ordered ((key, document) ∷ records) = do
    require (contains ordered key)
    k ← document_key rt document primary_key
    encoded ← encode_key rt k
    require (encoded == key)
    check_records primary_key ordered records

  -- The buckets that the records call for.
  unfoldable pub expected_buckets :
      SecondaryIndexState
      → Entries Text Document
      → Entries Text (List Text)
      → Result (Entries Text (List Text))
  expected_buckets index [] expected = ok expected
  expected_buckets index ((key, document) ∷ records) expected = do
    encoded ← index_value rt index.path document
    elim encoded [
      | none ↦ expected_buckets index records expected
      | some e ↦
          expected_buckets index records
            (NativeMap.set e (insert key (members (NativeMap.get expected e))) expected)
    ]

  unfoldable pub same_bucket : Option (List Text) → List Text → Bool
  same_bucket none keys = false
  same_bucket (some actual) keys = nat_beq (length actual) (length keys) && includes_all actual keys

  unfoldable pub check_buckets : SecondaryIndexState → Entries Text (List Text) → Result (Unit {0})
  unfolding same_bucket
  check_buckets index [] = ok tt
  check_buckets index ((value, keys) ∷ expected) = do
    require (same_bucket (OverlayMap.get index.buckets value) keys)
    check_buckets index expected

  unfoldable pub check_indexes : Indexes → Entries Text Document → Result (Unit {0})
  unfolding expected_buckets check_buckets
  check_indexes [] records = ok tt
  check_indexes ((n, index) ∷ indexes) records = do
    expected ← expected_buckets index records []
    require (nat_beq (length expected) (OverlayMap.size index.buckets))
    check_buckets index expected
    check_indexes indexes records

  unfoldable pub assert_collection_invariant : Contents → Result (Unit {0})
  unfolding to_set check_order check_records check_indexes
  assert_collection_invariant c = do
    require (nat_beq (length c.order) (OverlayMap.size c.records))
    require (nat_beq (OverlayMap.size c.positions) (OverlayMap.size c.records))
    require (nat_beq (length (to_set [] c.order)) (length c.order))
    check_order c.positions none c.order
    check_records c.schema.primary_key (to_set [] c.order) (OverlayMap.entries c.records)
    check_indexes c.indexes (OverlayMap.entries c.records)
