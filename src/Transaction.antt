-- ===== src/Transaction.antt =====
-- The class Transaction of src/database.ts. A method is an action on the transaction; the database's
-- stored collections, the clock and a generated key are arguments. The age test reads
-- `now - createdAt > maxAgeMs` with no subtraction.
pub mod Sound
pub mod Operations
pub mod Find
pub mod Notes
use newtondb.Collection.{
  Contents, StoredCollection, WorkingCollection, working_copy, put_document, remove_document,
}
use newtondb.Errors.{
  PrimaryKey, Error, Result, ok, err, duplicate_key, not_found, invalid_argument,
  immutable_primary_key, transaction_state,
}
use newtondb.Events.{Change, ChangeOperation}
use newtondb.Exec.{Exec, pure, raise, lift, gets, modify, ◌>>=◌, ◌>>◌}
use newtondb.Input.{Input}
use newtondb.Json.{Document}
use newtondb.Key.{encode_key, document_key, same_key}
use newtondb.NativeMap
use newtondb.NativeMap.{Entries, present}
use newtondb.OverlayMap
use newtondb.Prelude.{
  ℕ, ◌+◌, Bool, true, false, ◌&&◌, not, Option, none, some, List, [], ◌∷◌, ◌++◌, length, ltb, leb,
  nat_eq, list_eq, if◌then◌else◌,
}
use newtondb.Runtime.{Runtime}
use newtondb.Text.{Text}
use newtondb.Validation.{Prepared, prepare_insert, prepare_update}

pub record TransactionLimits : Type 0 where
  pub max_age_ms : ℕ
  pub max_operations : ℕ
  pub max_read_collections : ℕ

-- TransactionStatus
pub data Status : Type 0 where
  active committed rolled_back : Status

pub record Transaction : Type 0 where
  pub base_revisions : Entries Text ℕ
  pub changes : List Change
  pub generated_keys : List (Text × Text)
  pub created_at : ℕ
  pub operations : ℕ
  pub status : Status
  pub working : Entries Text WorkingCollection
  pub limits : TransactionLimits

abbrev pub Collections : Type 0
Collections = Entries Text StoredCollection

-- beginTransaction, by the clock
unfoldable pub begin : TransactionLimits → ℕ → Transaction
begin limits now = record {
  base_revisions = [];
  changes = [];
  generated_keys = [];
  created_at = now;
  operations = 0;
  status = Status.active;
  working = [];
  limits = limits;
}

abbrev pub Act : Type 0 → Type 0
Act A = Exec Transaction A

unfoldable pub require_status : Status → Result (Unit {0})
require_status Status.active = ok tt
require_status _ = err transaction_state

unfoldable pub assert_active : Act (Unit {0})
unfolding require_status
assert_active t = (require_status t.status, t)

unfoldable pub assert_within_limits : ℕ → Act (Unit {0})
assert_within_limits now t =
    (if ltb (t.created_at + t.limits.max_age_ms) now then err transaction_state else ok tt, t)

-- The count is raised before it is tested.
unfoldable pub count_operation : Act (Unit {0})
count_operation t = (
  if ltb t.limits.max_operations (t.operations + 1) then err transaction_state else ok tt,
  record t { operations = t.operations + 1 },
)

unfoldable pub record_operation : ℕ → Act (Unit {0})
unfolding assert_active assert_within_limits count_operation
record_operation now = do assert_active; assert_within_limits now; count_operation

-- `#status !== "active"` leaves the transaction as it is.
unfoldable pub rollback : Transaction → Transaction
rollback t = elim t.status [
  | Status.active ↦ record t {
    status = Status.rolled_back;
    working = [];
    changes = [];
    generated_keys = [];
  }
  | _ ↦ t
]

-- #stored(name) of the database
unfoldable pub stored : Collections → Text → Result StoredCollection
stored collections name = elim (NativeMap.get collections name) [
  | none ↦ err invalid_argument
  | some c ↦ ok c
]

unfoldable pub note_revision : Text → StoredCollection → Act (Unit {0})
note_revision name collection t =
    if NativeMap.has t.base_revisions name
    then (ok tt, t)
    else if leb t.limits.max_read_collections (length t.base_revisions)
    then (err transaction_state, t)
    else (
      ok tt,
      record t { base_revisions = NativeMap.set name collection.revision t.base_revisions },
    )

-- this.#working.set(name, working)
unfoldable pub set_working : Text → WorkingCollection → Act (Unit {0})
set_working name working t = (ok tt, record t { working = NativeMap.set name working t.working })

module _ (collections : Collections) (now : ℕ) where
  unfoldable pub touch_collection : Text → Act StoredCollection
  unfolding assert_active assert_within_limits stored note_revision
  touch_collection name = do
    assert_active
    assert_within_limits now
    collection ← lift (stored collections name)
    note_revision name collection
    pure collection

  unfoldable pub open_working : Text → Act WorkingCollection
  unfolding touch_collection set_working
  open_working name = do
    collection ← touch_collection name
    let working = working_copy collection
    set_working name working
    pure working

  -- #writable
  unfoldable pub writable : Text → Act WorkingCollection
  unfolding assert_active open_working
  writable name = do
    assert_active
    existing ← gets (λ t. NativeMap.get t.working name)
    elim existing [ some working ↦ pure working | none ↦ open_working name ]

-- A change of a working collection's contents, which the transaction's map refers to.
unfoldable pub in_working : Text → WorkingCollection → Exec Contents (Unit {0}) → Act (Unit {0})
in_working name working m t =
    let (r, contents) = m working.contents in
    (
      r,
      record t { working = NativeMap.set name (record working { contents = contents }) t.working },
    )

unfoldable pub push_change : Change → Act (Unit {0})
push_change change t = (ok tt, record t { changes = t.changes ++ change ∷ [] })

unfoldable pub push_generated : Text → Option Text → Act (Unit {0})
push_generated name none t = (ok tt, t)
push_generated name (some key) t =
    (ok tt, record t { generated_keys = t.generated_keys ++ (name, key) ∷ [] })

-- `before !== undefined && !upsert`
unfoldable pub refuse_duplicate : Text → PrimaryKey → Option Document → Bool → Result (Unit {0})
refuse_duplicate name primary_key before upsert =
    if present before && not upsert then err (duplicate_key name primary_key) else ok tt

abbrev pub written_as : Option Document → ChangeOperation
written_as none = ChangeOperation.insert
written_as (some before) = ChangeOperation.update

-- The record of a key, or NotFoundError.
unfoldable pub require_record : Text → PrimaryKey → Option Document → Result Document
require_record name primary_key none = err (not_found name primary_key)
require_record name primary_key (some before) = ok before

module _ (rt : Runtime) (collections : Collections) (now : ℕ) where
  -- _read(name, primaryKey)
  unfoldable pub read : Text → PrimaryKey → Act (Option Document)
  unfolding assert_active touch_collection
  read name primary_key = do
    assert_active
    collection ← touch_collection collections now name
    working ← gets (λ t. NativeMap.get t.working name)
    encoded ← lift (encode_key rt primary_key)
    pure (elim working [
      | some w ↦ OverlayMap.get w.contents.records encoded
      | none ↦ OverlayMap.get collection.contents.records encoded
    ])

  -- _insert(name, input, upsert)
  unfoldable pub insert : Text → Input → Bool → Text → Act PrimaryKey
  unfolding record_operation writable refuse_duplicate in_working push_change push_generated
  insert name input upsert fresh = do
    record_operation now
    working ← writable collections now name
    prepared ← lift (prepare_insert rt name working.contents.schema input fresh)
    let before = OverlayMap.get working.contents.records prepared.encoded
    lift (refuse_duplicate name prepared.primary_key before upsert)
    in_working name working (put_document rt name prepared.encoded before prepared.document)
    push_change (record {
      after = some prepared.document;
      before = before;
      collection = name;
      operation = written_as before;
      primary_key = prepared.primary_key;
    })
    push_generated name prepared.generated_key
    pure prepared.primary_key

  -- _update(name, primaryKey, patch)
  unfoldable pub update : Text → PrimaryKey → Input → Act (Unit {0})
  unfolding record_operation writable require_record in_working push_change
  update name primary_key patch = do
    record_operation now
    working ← writable collections now name
    encoded ← lift (encode_key rt primary_key)
    before ←
        lift (require_record name primary_key (OverlayMap.get working.contents.records encoded))
    after ← lift (prepare_update rt name working.contents.schema before patch primary_key)
    in_working name working (put_document rt name encoded (some before) after)
    push_change (record {
      after = some after;
      before = some before;
      collection = name;
      operation = ChangeOperation.update;
      primary_key = primary_key;
    })

  -- _delete(name, primaryKey)
  unfoldable pub delete : Text → PrimaryKey → Act (Unit {0})
  unfolding record_operation writable require_record in_working push_change
  delete name primary_key = do
    record_operation now
    working ← writable collections now name
    encoded ← lift (encode_key rt primary_key)
    before ←
        lift (require_record name primary_key (OverlayMap.get working.contents.records encoded))
    in_working name working (remove_document rt encoded before)
    push_change (record {
      after = none;
      before = some before;
      collection = name;
      operation = ChangeOperation.delete;
      primary_key = primary_key;
    })
