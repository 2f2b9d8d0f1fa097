-- ===== src/Persistence/Covered.antt =====
-- The commit inside of `Database.transaction`, and what its receipt waits for.
use mathlib.Core.Path.{subst}
use newtondb.Database.{Database, DatabaseState, commit, commit_working, settle}
use newtondb.Database.Commit.{CommitReceipt}
use newtondb.Database.Isolation.{Committed, commit_working-Ends}
use newtondb.Errors.{Error, Result, ok, err, Result-cases}
use newtondb.Exec.{Ends}
use newtondb.Persistence.{Persistent, Awaited, resolved, task, persist, is_behind, with_state}
use newtondb.Persistence.Durable.{HasTask, Persisting, persist-Ends}
use newtondb.Persistence.Queue.{IsQueued}
use newtondb.Persistence.Transact.{
  Durability, memory, persisted, Receipt, make_durable, after_persist,
}
use newtondb.Prelude.{
  ℕ, ◌≡◌, ◌≤◌, refl, sym, ap, Bool, true, false, ltb, ◌+◌, inl, inr, ◌⊎◌, Bool-cases, arith,
}
use newtondb.Runtime.{Runtime}
use newtondb.Text.{Text}
use newtondb.Transaction.{Transaction, require_status}
use newtondb.Transaction.Sound.{AllStored, IsSound}

module _ (rt : Runtime) (id : Text) (now : ℕ) where
  module _ (t : Transaction) (db : Database) where
    commit_refused :
        (e : Error) → require_status t.status ≡ err e → commit rt id now t db ≡ (err e, t, db)
    unfolding commit
    commit_refused e h = ground arith

    commit_late :
        (u : Unit {0})
        → require_status t.status ≡ ok u
        → ltb (t.created_at + t.limits.max_age_ms) now ≡ true
        → commit rt id now t db ≡ (err Error.transaction_state, t, db)
    unfolding commit
    commit_late u h old = ground arith

    commit_runs :
        (u : Unit {0})
        → require_status t.status ≡ ok u
        → ltb (t.created_at + t.limits.max_age_ms) now ≡ false
        → commit rt id now t db ≡ (
          (commit_working rt id t db).0,
          record t { status = settle rt id (commit_working rt id t db).0 },
          (commit_working rt id t db).1,
        )
    unfolding commit
    commit_runs u h young = ground arith

  -- A commit of the transaction, by its status and its age.
  abbrev pub Committing : Transaction → Database → Result CommitReceipt → Database → Type 0
  Committing t db =
      Ends (λ receipt db'. Committed rt id t db receipt db' × (db' ≡ (commit_working rt id t db).1))
        (λ e db'. db' ≡ db)

  pub commit-Ends :
      (t : Transaction) (db : Database)
      → IsSound rt t
      → Committing t db (commit rt id now t db).0 (commit rt id now t db).2
  commit-Ends t db s = elim (Result-cases (require_status t.status)) [
    | inr (e, h) ↦ rw (commit_refused t db e h) refl
    | inl (u, h) ↦ elim (Bool-cases (ltb (t.created_at + t.limits.max_age_ms) now)) [
      | inl old ↦ rw (commit_late t db u h old) refl
      | inr young ↦
          rw (commit_runs t db u h young)
            (given (commit_working rt id t db).0 (commit_working-Ends rt id t db s))
    ]
  ]
    where
      given :
          (r : Result CommitReceipt)
          → Ends
              (λ receipt x. Committed rt id t db receipt x)
              (λ e x. x ≡ db)
              r
              (commit_working rt id t db).1
          → Committing t db r (commit_working rt id t db).1
      given (ok receipt) h = (h, refl)
      given (err e) h = h

  -- The receipt of memory is given at once, and the one of storage once storage covers its revision.
  abbrev pub IsCovered : Receipt → Persistent → Type 0
  IsCovered r p = elim r.durability [
    | memory ↦ r.awaited ≡ resolved
    | persisted ↦
        ((r.awaited ≡ resolved) × (is_behind p.persisted_revision r.receipt.revision ≡ false))
        ⊎ ((ticket : ℕ) × (r.awaited ≡ task ticket) × HasTask ticket p.database p.tasks)
  ]

  -- Storage is what a receipt names exactly if it was asked for and there is an adapter.
  abbrev pub granted : Durability → Bool → Durability
  granted persisted true = persisted
  granted persisted false = memory
  granted memory has_adapter = memory

  -- After the commit: a receipt, or a full queue that degrades the database.
  abbrev pub Durable :
      Durability → CommitReceipt → Persistent → Result Receipt → Persistent → Type 0
  Durable d receipt p =
      Ends
        (λ r p'.
          (r.receipt ≡ receipt)
          × (p'.database ≡ p.database)
          × (r.durability ≡ granted d p.has_adapter)
          × IsCovered r p')
        (λ e p'.
          (e ≡ Error.persistence)
          × (granted d p.has_adapter ≡ persisted)
          × (p.max_pending_snapshots ≤ p.pending_persistence)
          × (p' ≡ with_state DatabaseState.degraded p))

  module _ (receipt : CommitReceipt) (p : Persistent) where
    make_durable_alone :
        p.has_adapter ≡ false
        → make_durable persisted receipt p
          ≡ (ok (record { receipt = receipt; durability = memory; awaited = resolved }), p)
    unfolding make_durable
    make_durable_alone h = ground arith

    make_durable_stored :
        p.has_adapter ≡ true
        → is_behind p.persisted_revision receipt.revision ≡ false
        → make_durable persisted receipt p
          ≡ (ok (record { receipt = receipt; durability = persisted; awaited = resolved }), p)
    unfolding make_durable
    make_durable_stored h b = ground arith

    make_durable_behind :
        p.has_adapter ≡ true
        → is_behind p.persisted_revision receipt.revision ≡ true
        → make_durable persisted receipt p
          ≡ after_persist receipt (persist receipt.revision p).0 (persist receipt.revision p).1
    unfolding make_durable
    make_durable_behind h b = ground arith

    after_persist-Durable :
        p.has_adapter ≡ true
        → (r : Result Awaited) (p' : Persistent) → Persisting p r p'
        → Durable persisted receipt p (after_persist receipt r p').0 (after_persist receipt r p').1
    after_persist-Durable h (err e) p' (w, full, left) = (w, ap (granted persisted) h, full, left)
    after_persist-Durable h (ok awaited) p' (same, phase, inl (alone, w)) =
        absurd (ground (arith, h, alone))
    after_persist-Durable h (ok awaited) p' (same, phase, inr (ticket, w, has)) = (
      refl,
      same,
      ap (λ b. granted persisted b) (sym h),
      inr (ticket, w, subst (λ db. HasTask ticket db p'.tasks) (sym same) has),
    )

  pub make_durable-Ends :
      (d : Durability) (receipt : CommitReceipt) (p : Persistent)
      → p.database.revision ≡ receipt.revision
      → AllStored rt p.database.collections
      → IsQueued p
      → Durable d receipt p (make_durable d receipt p).0 (make_durable d receipt p).1
  unfolding make_durable
  make_durable-Ends memory receipt p e a q = (refl, refl, refl, refl)
  make_durable-Ends persisted receipt p e a q = elim (Bool-cases p.has_adapter) [
    | inr h ↦
        rw (make_durable_alone receipt p h)
          (refl, refl, ap (λ b. granted persisted b) (sym h), refl)
    | inl h ↦ elim (Bool-cases (is_behind p.persisted_revision receipt.revision)) [
      | inr b ↦
          rw (make_durable_stored receipt p h b)
            (refl, refl, ap (λ b. granted persisted b) (sym h), inl (refl, b))
      | inl b ↦ rw (make_durable_behind receipt p h b) (
          after_persist-Durable receipt p h _ _
            (subst (λ n. Persisting p (persist n p).0 (persist n p).1) e (persist-Ends rt p a q)))
    ]
  ]
