-- ===== src/Database.antt =====
-- The class Database of src/database.ts: its state, and the methods that a transaction and the event
-- queue use. `include_documents` and `verify_invariants` are options; a failpoint handler and the
-- caller's overflow and error callbacks run outside of the state and are left out.
pub mod Commit
pub mod Order
pub mod Execute
pub mod Install
pub mod Isolation
pub mod Facade
pub mod Queue
use newtondb.Collection.{StoredCollection}
use newtondb.Collection.Verify.{assert_collection_invariant}
use newtondb.Database.Commit.{CommitReceipt, find_conflicts, publish_all, event_change}
use newtondb.Errors.{Error, Result, ok, err, conflict}
use newtondb.Events.{Change, ChangeBatch}
use newtondb.Exec.{Exec, pure, lift, gets, modify, ◌>>=◌, ◌>>◌}
use newtondb.NativeMap
use newtondb.NativeMap.{Entries}
use newtondb.Prelude.{
  ℕ, ◌+◌, ◌-◌, Bool, true, false, ◌||◌, Option, none, some, List, [], ◌∷◌, ◌++◌, map, length, ltb,
  leb, nat_eq, discard, if◌then◌else◌,
}
use newtondb.Runtime.{Runtime}
use newtondb.Text.{Text}
use newtondb.Transaction.{
  Collections, Transaction, Status, TransactionLimits, begin, require_status, stored,
}

pub data DatabaseState : Type 0 where
  closed closing corrupt degraded opened opening : DatabaseState

pub record EventLimits : Type 0 where
  pub max_queued_batches : ℕ
  pub max_queued_changes : ℕ

pub record Database : Type 0 where
  pub id : Text
  pub collections : Collections
  pub event_queue : List ChangeBatch
  pub event_queue_changes : ℕ
  pub event_limits : EventLimits
  pub dispatch_scheduled : Bool
  pub listener_id : ℕ
  pub listeners : List ℕ
  pub revision : ℕ
  pub state : DatabaseState
  pub include_documents : Bool
  pub verify_invariants : Bool
  pub transaction_limits : TransactionLimits

-- #assertOpen
unfoldable pub require_open : DatabaseState → Result (Unit {0})
require_open DatabaseState.opened = ok tt
require_open DatabaseState.degraded = ok tt
require_open _ = err Error.closed

-- subscribe(listener): the identity of the new listener
unfoldable pub subscribe : Exec Database ℕ
unfolding require_open
subscribe = do
  state ← gets (λ db. db.state)
  lift (require_open state)
  modify (λ db. record db {
    listener_id = db.listener_id + 1;
    listeners = db.listeners ++ (db.listener_id + 1) ∷ [];
  })
  gets (λ db. db.listener_id)

-- The function that `subscribe` returns.
unfoldable pub unsubscribe : ℕ → Database → Database
unsubscribe id db = record db { listeners = discard id db.listeners }

-- #enqueue: a batch over the limits is dropped, whole
unfoldable pub enqueue : ChangeBatch → Database → Database
enqueue batch db =
    if leb db.event_limits.max_queued_batches (length db.event_queue)
      || ltb db.event_limits.max_queued_changes (db.event_queue_changes + length batch.changes)
    then db
    else record db {
      event_queue = db.event_queue ++ batch ∷ [];
      event_queue_changes = db.event_queue_changes + length batch.changes;
      dispatch_scheduled = true;
    }

-- One round of the microtask: the batch that is delivered, and the listeners that it is delivered
-- to; with an empty queue the task ends.
unfoldable pub dispatch : Database → Option (ChangeBatch × List ℕ) × Database
dispatch db = elim db.event_queue [
  | [] ↦ (none, record db { dispatch_scheduled = false })
  | current ∷ rest ↦ (
    some (current, db.listeners),
    record db {
      event_queue = rest;
      event_queue_changes = db.event_queue_changes - length current.changes;
    },
  )
]

-- The loop of `verify` and of `_commit` over all collections.
unfoldable pub verify_all : Runtime → Collections → Result (Unit {0})
verify_all rt [] = ok tt
verify_all rt ((name, collection) ∷ rest) =
    newtondb.Errors.◌>>=◌ (assert_collection_invariant rt collection.contents)
      λ _. verify_all rt rest

unfoldable pub verify : Runtime → Database → Result (Unit {0})
unfolding require_open verify_all
verify rt db = newtondb.Errors.◌>>=◌ (require_open db.state) λ _. verify_all rt db.collections

-- beginTransaction
unfoldable pub begin_transaction : ℕ → Database → Result Transaction
unfolding require_open begin
begin_transaction now db =
    newtondb.Errors.◌>>=◌ (require_open db.state) λ _. ok (begin db.transaction_limits now)

module _ (rt : Runtime) (transaction_id : Text) where
  unfoldable pub refuse_conflicts : List Text → Result (Unit {0})
  refuse_conflicts [] = ok tt
  refuse_conflicts (name ∷ names) = err (conflict (name ∷ names))

  -- The publication of a transaction with changes.
  unfoldable pub publish_transaction : Transaction → Exec Database CommitReceipt
  unfolding verify_all publish_all enqueue event_change
  publish_transaction t = do
    db ← gets (λ db. db)
    let revision = db.revision + 1
    let next = publish_all revision t.working db.collections
    lift (if db.verify_invariants then verify_all rt next else ok tt)
    modify (λ db. record db { collections = next; revision = revision })
    modify (
        enqueue (record {
          changes = map (event_change db.include_documents) t.changes;
          database_id = db.id;
          revision = revision;
          transaction_id = transaction_id;
        }))
    pure (record {
      affected = length t.changes;
      generated_keys = t.generated_keys;
      revision = revision;
    })

  -- `if (changes.length === 0)`
  unfoldable pub publish_changes : List Change → Transaction → Exec Database CommitReceipt
  unfolding publish_transaction
  publish_changes [] t db =
      (ok (record { affected = 0; generated_keys = t.generated_keys; revision = db.revision }), db)
  publish_changes (change ∷ changes) t db = publish_transaction t db

  -- _commit(working, baseRevisions, changes, generatedKeys, transactionId)
  unfoldable pub commit_working : Transaction → Exec Database CommitReceipt
  unfolding require_open find_conflicts refuse_conflicts publish_changes
  commit_working t = do
    db ← gets (λ db. db)
    lift (require_open db.state)
    names ← lift (find_conflicts db.collections t.base_revisions)
    lift (refuse_conflicts names)
    publish_changes t.changes t

  -- How the attempt to commit ends the transaction.
  unfoldable pub settle : Result CommitReceipt → Status
  settle (ok receipt) = Status.committed
  settle (err e) = Status.rolled_back

  -- Transaction.commit(): the receipt, the transaction and the database after it
  unfoldable pub commit : ℕ → Transaction → Database → Result CommitReceipt × Transaction × Database
  unfolding require_status commit_working settle
  commit now t db = elim (require_status t.status) [
    | err e ↦ (err e, t, db)
    | ok _ ↦
        if ltb (t.created_at + t.limits.max_age_ms) now
        then (err newtondb.Errors.transaction_state, t, db)
        else (let (r, db') = commit_working t db in (r, record t { status = settle r }, db'))
  ]
