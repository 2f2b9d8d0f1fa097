-- ===== src/Persistence/Atomic.antt =====
-- How `Database.transaction` ends.
use mathlib.Core.Path.{subst}
use newtondb.Database.{Database, DatabaseState, commit}
use newtondb.Database.Commit.{CommitReceipt}
use newtondb.Database.Isolation.{Committed, commit_working-AllStored}
use newtondb.Errors.{Error, Result, ok, err, Result-cases}
use newtondb.Exec.{Ends}
use newtondb.Persistence.{Persistent}
use newtondb.Persistence.Queue.{IsQueued, database-IsQueued}
use newtondb.Persistence.Steps.{commit_moves}
use newtondb.Persistence.Transact.{
  Durability, memory, persisted, TransactionOptions, Receipt, Callback, chosen_durability, admit,
  after_callback, transaction, after_commit,
}
use newtondb.Prelude.{
  ℕ, ◌≡◌, ◌≤◌, refl, sym, ap, Bool, true, false, Option, none, some, inl, inr, ◌⊎◌, arith,
}
use newtondb.Runtime.{Runtime}
use newtondb.Text.{Text}
use newtondb.Transaction.{Transaction, begin}
use newtondb.Transaction.Sound.{AllStored, IsSound}
use newtondb.Persistence.Covered.{
  Committing, commit-Ends, IsCovered, Durable, granted, make_durable-Ends,
}

module _ (rt : Runtime) (id : Text) (now : ℕ) where
  -- The durability that a receipt has to name: storage, where there is an adapter and the caller has
  -- not asked for memory.
  abbrev pub promised : Option Durability → Bool → Durability
  promised (some memory) has_adapter = memory
  promised (some persisted) true = persisted
  promised (some persisted) false = memory
  promised none true = persisted
  promised none false = memory

  promised-granted :
      (asked : Option Durability) (b : Bool)
      → granted rt id now (chosen_durability asked b) b ≡ promised asked b
  promised-granted (some memory) b = refl
  promised-granted (some persisted) true = refl
  promised-granted (some persisted) false = refl
  promised-granted none true = refl
  promised-granted none false = refl

  -- The transaction that the callback leaves has been committed on the database of before, and its
  -- receipt waits for storage; or the database is as before; or the commit stands, and the queue was
  -- full.
  abbrev pub Transacting :
      Durability → Transaction → Persistent → Result Receipt → Persistent → Type 0
  Transacting promise t p =
      Ends
        (λ r p'.
          Committed rt id t p.database r.receipt p'.database
          × (r.durability ≡ promise)
          × IsCovered rt id now r p')
        (λ e p'.
          (p'.database ≡ p.database)
          ⊎ ((receipt : CommitReceipt) × (db : Database) × Committed rt id t p.database receipt db
              × (e ≡ Error.persistence)
              × (promise ≡ persisted)
              × (p.max_pending_snapshots ≤ p.pending_persistence)
              × (p'.database ≡ record db { state = DatabaseState.degraded })))

  after_callback-Ends :
      (started : ℕ) (d : Durability) (r : Result Bool) (t : Transaction) (p : Persistent)
      → AllStored rt p.database.collections
      → IsSound rt t
      → IsQueued p
      → Transacting
          (granted rt id now d p.has_adapter)
          t
          p
          (after_callback rt id started now d r t p).0
          (after_callback rt id started now d r t p).1
  unfolding after_callback
  after_callback-Ends started d (err e) t p a s q = inl refl
  after_callback-Ends started d (ok true) t p a s q = inl refl
  after_callback-Ends started d (ok false) t p a s q =
      committed (commit rt id now t p.database).0 (commit rt id now t p.database).2
        (commit-Ends rt id now t p.database s)
    where
      settled :
          (receipt : CommitReceipt) (db : Database)
          → Committed rt id t p.database receipt db
          → (r : Result Receipt) (p' : Persistent)
          → Durable rt id now d receipt (record p { database = db }) r p'
          → Transacting (granted rt id now d p.has_adapter) t p r p'
      settled receipt db c (ok r) p' (same, kept, named, covered) = (
        subst (λ x. Committed rt id t p.database x p'.database) (sym same)
            (subst (Committed rt id t p.database receipt) (sym kept) c),
        named,
        covered,
      )
      settled receipt db c (err e) p' (w, named, full, left) =
          inr (receipt, db, c, w, named, full, ap (λ x. x.database) left)

      committed :
          (r : Result CommitReceipt) (db : Database)
          → Committing rt id now t p.database r db
          → Transacting
              (granted rt id now d p.has_adapter)
              t
              p
              (after_commit d r (record p { database = db })).0
              (after_commit d r (record p { database = db })).1
      committed (err e) db h = inl h
      committed (ok receipt) db (c, same) = settled receipt db c _ _ (
          make_durable-Ends rt id now d receipt (record p { database = db }) c.revision
            (rw same (commit_working-AllStored rt id t p.database a s))
            (database-IsQueued p db (rw same (commit_moves rt id t p.database)) q))

  -- The transaction that the callback leaves.
  abbrev pub left_by : Callback → ℕ → Persistent → Transaction
  left_by callback started p =
      (callback (begin p.database.transaction_limits started)
        (record p { callback_active = true })).1

  module _ (started : ℕ) (callback : Callback) (options : TransactionOptions) (p : Persistent) where
    transaction_refused :
        (e : Error)
        → admit options p ≡ err e
        → transaction rt id started now callback options p ≡ (err e, p)
    unfolding transaction
    transaction_refused e h = ground arith

    transaction_admitted :
        (u : Unit {0})
        → admit options p ≡ ok u
        → transaction rt id started now callback options p
          ≡ after_callback rt id started now
              (chosen_durability options.durability p.has_adapter)
              (callback
                (begin p.database.transaction_limits started)
                (record p { callback_active = true })).0
              (left_by callback started p)
              (record (callback
                (begin p.database.transaction_limits started)
                (record p { callback_active = true })).2 { callback_active = false })
    unfolding transaction
    transaction_admitted u h = ground arith

  -- Over valid collections and a queue that satisfies its invariant, a transaction() whose
  -- callback works on its transaction alone and keeps it sound either gives the receipt of a
  -- commit that was published whole, which names storage exactly if there is an adapter and
  -- the caller has not asked for memory, and then waits for a queued snapshot of the
  -- published collections unless storage already covers it; or throws and leaves the
  -- database as it was; or, where the receipt has to name storage and the queue is full,
  -- throws a PersistenceError after the commit, which stands in a degraded database.
  pub transaction-Ends :
      (started : ℕ) (callback : Callback) (options : TransactionOptions) (p : Persistent)
      → ((t : Transaction) (q : Persistent) → (callback t q).2 ≡ q)
      → ((t : Transaction) (q : Persistent)
          → AllStored rt q.database.collections
          → IsSound rt t
          → IsSound rt (callback t q).1)
      → AllStored rt p.database.collections
      → IsQueued p
      → Transacting
          (promised options.durability p.has_adapter)
          (left_by callback started p)
          p
          (transaction rt id started now callback options p).0
          (transaction rt id started now callback options p).1
  transaction-Ends started callback options p kept sound a q =
      elim (Result-cases (admit options p)) [
        | inr (e, h) ↦ rw (transaction_refused started callback options p e h) (inl refl)
        | inl (u, h) ↦
            let t = begin p.database.transaction_limits started in
            let p1 = record p { callback_active = true } in
            rw
              (
                transaction_admitted started callback options p u h,
                kept t p1,
                ← promised-granted options.durability p.has_adapter,
              )
              (after_callback-Ends started (chosen_durability options.durability p.has_adapter)
                (callback t p1).0 (callback t p1).1 (record p1 { callback_active = false }) a
                (sound t p1 a (unfold begin in tt))
                (record {
                  counted = q.counted;
                  bounded = q.bounded;
                  ascending = q.ascending;
                  current = q.current;
                  listed = q.listed;
                  running = q.running;
                }))
      ]
