-- ===== src/Persistence/Operations.antt =====
-- The callbacks of the methods of the class Collection, which run one operation of a transaction.
use newtondb.Errors.{Error, ok, err, Result-cases}
use newtondb.Collection.{StoredCollection}
use newtondb.Input.{Input}
use newtondb.Persistence.{Persistent}
use newtondb.Persistence.Transact.{Callback, on_collection, operation_of}
use newtondb.Prelude.{ℕ, ◌≡◌, Bool, arith, inl, inr}
use newtondb.Runtime.{Runtime}
use newtondb.Text.{Text}
use newtondb.Transaction.{
  Transaction, Collections, Act, assert_active, require_status, stored, insert,
}
use newtondb.Transaction.Operations.{insert-IsSound}
use newtondb.Transaction.Sound.{AllStored, IsSound}

module _ {A : Type 0} (name : Text) (operation : Collections → Act A) (collections : Collections)
    (t : Transaction) where
  on_collection_inactive :
      (e : Error)
      → require_status t.status ≡ err e
      → (on_collection name operation collections t).1 ≡ t
  unfolding on_collection assert_active
  on_collection_inactive e h = ground arith

  on_collection_unknown :
      (u : Unit {0}) (e : Error)
      → require_status t.status ≡ ok u
      → stored collections name ≡ err e
      → (on_collection name operation collections t).1 ≡ t
  unfolding on_collection assert_active
  on_collection_unknown u e h g = ground arith

  on_collection_found :
      (u : Unit {0}) (c : StoredCollection)
      → require_status t.status ≡ ok u
      → stored collections name ≡ ok c
      → on_collection name operation collections t ≡ operation collections t
  unfolding on_collection assert_active
  on_collection_found u c h g = ground arith

module _ (rt : Runtime) {A : Type 0} (name : Text) (operation : Collections → Act A) where
  -- The callback keeps a transaction sound if the operation does.
  operation_of-IsSound :
      ((collections : Collections) (t : Transaction)
        → AllStored rt collections
        → IsSound rt t
        → IsSound rt (operation collections t).1)
      → (t : Transaction) (p : Persistent) → AllStored rt p.database.collections
      → IsSound rt t
      → IsSound rt (operation_of name operation t p).1
  operation_of-IsSound sound t p a s = elim (Result-cases (require_status t.status)) [
    | inr (e, h) ↦ rw (on_collection_inactive name operation p.database.collections t e h) s
    | inl (u, h) ↦ elim (Result-cases (stored p.database.collections name)) [
      | inr (e, g) ↦ rw (on_collection_unknown name operation p.database.collections t u e h g) s
      | inl (c, g) ↦
          rw (on_collection_found name operation p.database.collections t u c h g)
            (sound p.database.collections t a s)
    ]
  ]

module _ (rt : Runtime) (now : ℕ) (name : Text) (document : Input) (upsert : Bool)
    (fresh : Text) where
  -- The callback of `insert` and `upsert`.
  abbrev pub inserting : Callback
  inserting = operation_of name λ collections. insert rt collections now name document upsert fresh

  pub inserting-IsSound :
      (t : Transaction) (p : Persistent)
      → AllStored rt p.database.collections
      → IsSound rt t
      → IsSound rt (inserting t p).1
  inserting-IsSound =
      operation_of-IsSound rt name
        (λ collections. insert rt collections now name document upsert fresh)
        (λ collections t a s. insert-IsSound rt collections a now name document upsert fresh t s)
