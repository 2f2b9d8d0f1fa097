-- ===== src/Collection.antt =====
-- The collections of src/database.ts: what a stored and a working collection share, and the writes
-- that `_insert`, `_update` and `_delete` of a transaction make to a working collection.
pub mod Valid
pub mod Reindex
pub mod Steps
pub mod Write
pub mod Create
pub mod Seeded
pub mod Verify
pub mod Copies
pub mod Ranked
use newtondb.Errors.{Result, ok, err}
use newtondb.Exec.{Exec, pure, raise, lift, gets, modify, write, try_catch, ◌>>=◌, ◌>>◌}
use newtondb.Index.{Indexes, add_to_indexes, remove_from_indexes, clone_indexes, seal_indexes}
use newtondb.Json.{Document}
use newtondb.OverlayMap
use newtondb.OverlayMap.{MapLike}
use newtondb.Prelude.{
  ℕ, ◌+◌, ◌≡◌, Bool, Option, none, some, List, [], ◌∷◌, ◌++◌, ◌==◌, nat_eq, list_eq, if◌then◌else◌,
}
use newtondb.Runtime.{Runtime}
use newtondb.Schema.{CollectionSchema}
use newtondb.Text.{Text}

-- The fields that StoredCollection and WorkingCollection have in common.
pub record Contents : Type 0 where
  pub indexes : Indexes
  pub next_position : ℕ
  pub order : List Text
  pub positions : MapLike Text ℕ
  pub records : MapLike Text Document
  pub schema : CollectionSchema

pub record StoredCollection : Type 0 where
  pub contents : Contents
  pub revision : ℕ

pub record WorkingCollection : Type 0 where
  pub base_revision : ℕ
  pub contents : Contents

-- The working copy that `#writable` makes of a stored collection.
unfoldable pub working_copy : StoredCollection → WorkingCollection
working_copy stored = record {
  base_revision = stored.revision;
  contents = record (stored.contents) {
    indexes = clone_indexes stored.contents.indexes;
    positions = OverlayMap.create stored.contents.positions;
    records = OverlayMap.create stored.contents.records;
  };
}

-- The stored collection that `_commit` makes of a working one.
unfoldable pub publish : ℕ → WorkingCollection → StoredCollection
publish revision working = record {
  contents = record (working.contents) {
    indexes = seal_indexes working.contents.indexes;
    positions = OverlayMap.seal working.contents.positions;
    records = OverlayMap.seal working.contents.records;
  };
  revision = revision;
}

-- `order.splice(order.indexOf(key), 1)` where the key is there
unfoldable pub splice_out : Text → List Text → List Text
splice_out key [] = []
splice_out key (k ∷ order) = if k == key then order else k ∷ splice_out key order

module _ (rt : Runtime) where
  unfoldable pub detach : Text → Document → Exec Contents (Unit {0})
  detach key document = do
    c ← gets (λ c. c)
    indexes ← lift (remove_from_indexes rt c.indexes key document)
    modify (λ c. record c { indexes = indexes })

  unfoldable pub attach : Text → Text → Document → Exec Contents (Unit {0})
  attach name key document = do
    c ← gets (λ c. c)
    indexes ← lift (add_to_indexes rt name c.indexes key document)
    modify (λ c. record c { indexes = indexes })

  -- Between the validation and the write of a record: the old entries go, the new ones come, and if
  -- those are refused the old ones come back before the error goes on.
  unfoldable pub reindex : Text → Text → Option Document → Document → Exec Contents (Unit {0})
  unfolding detach attach
  reindex name key none document = attach name key document
  reindex name key (some before) document = do
    detach key before
    try_catch (attach name key document) (λ e. do attach name key before; raise e)

unfoldable pub write_record : Text → Document → Exec Contents (Unit {0})
write_record key document c = elim (OverlayMap.set key document c.records) [
  | ok records ↦ (ok tt, record c { records = records })
  | err e ↦ (err e, c)
]

unfoldable pub append_key : Text → Exec Contents (Unit {0})
append_key key c = elim (OverlayMap.set key c.next_position c.positions) [
  | ok positions ↦ (
    ok tt,
    record c {
      order = c.order ++ key ∷ [];
      positions = positions;
      next_position = c.next_position + 1;
    },
  )
  | err e ↦ (err e, record c { order = c.order ++ key ∷ []; next_position = c.next_position + 1 })
]

unfoldable pub drop_record : Text → Exec Contents (Unit {0})
drop_record key c = elim (OverlayMap.delete key c.records) [
  | ok records ↦ (ok tt, record c { records = records })
  | err e ↦ (err e, c)
]

unfoldable pub drop_position : Text → Exec Contents (Unit {0})
drop_position key c = elim (OverlayMap.delete key c.positions) [
  | ok positions ↦ (ok tt, record c { positions = positions; order = splice_out key c.order })
  | err e ↦ (err e, c)
]

module _ (rt : Runtime) where
  -- The writes of `_insert`; `before` is the record that the key has so far.
  unfoldable pub put_document : Text → Text → Option Document → Document → Exec Contents (Unit {0})
  unfolding reindex write_record append_key
  put_document name key none document = do
    reindex rt name key none document
    write_record key document
    append_key key
  put_document name key (some before) document = do
    reindex rt name key (some before) document
    write_record key document

  -- The writes of `_delete`.
  unfoldable pub remove_document : Text → Document → Exec Contents (Unit {0})
  unfolding detach drop_record drop_position
  remove_document key before = do detach rt key before; drop_record key; drop_position key
