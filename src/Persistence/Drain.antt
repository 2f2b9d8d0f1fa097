-- ===== src/Persistence/Drain.antt =====
-- The queue of snapshots with an adapter that acknowledges all of them.
use mathlib.Core.Path.{subst}
use newtondb.Database.{Database, DatabaseState, require_open}
use newtondb.Errors.{Error, Result, ok, err}
use newtondb.Exec.{continue, pure}
use newtondb.Persistence.{
  Task, Phase, idle, storing, Persistent, Awaited, StoreAcknowledgement, persist, persist_behind,
  flush, start_task, finish_task, accept, release_task, snapshot_of, is_acknowledged, is_behind,
  recovered,
}
use newtondb.Persistence.Branches.{
  finish_task_accepted, start_task_first, release_task_first, persist_behind_new,
}
use newtondb.Persistence.Durable.{HasTask, Persisting, persist-Ends}
use newtondb.Persistence.Queue.{IsQueued}
use newtondb.Prelude.{
  ℕ, ◌≡◌, ◌≤◌, ◌<◌, refl, sym, ap, ◌∙◌, Bool, true, false, Option, List, [], ◌∷◌, nat_eq, list_eq,
  inl, inr, ◌⊎◌, arith, ==_refl,
}
use newtondb.Runtime.{Runtime}
use newtondb.Storage.{Snapshot}
use newtondb.Text.{Text}
use newtondb.Transaction.Sound.{AllStored}

abbrev pub IsUsable : DatabaseState → Type 0
IsUsable state = (state ≡ DatabaseState.opened) ⊎ (state ≡ DatabaseState.degraded)

-- What the turns of a task leave, of the revision that is persisted and of the database.
pub record Turned (persisted_revision : Option ℕ) (db : Database) (t : Task) (ts : List Task)
    (p' : Persistent) : Type 0 where
  pub phase : p'.phase ≡ idle
  pub tasks : p'.tasks ≡ ts
  pub revision : p'.database.revision ≡ db.revision
  pub persisted : is_behind p'.persisted_revision t.revision ≡ false
  pub kept :
      (n : ℕ) → is_behind persisted_revision n ≡ false → is_behind p'.persisted_revision n ≡ false
  pub usable : IsUsable db.state → IsUsable p'.database.state
  pub opened :
      IsUsable db.state
      → is_behind p'.persisted_revision db.revision ≡ false
      → p'.database.state ≡ DatabaseState.opened

-- All is stored, and the database is open.
pub record Drained (revision : ℕ) (p' : Persistent) : Type 0 where
  pub tasks : p'.tasks ≡ []
  pub persisted : is_behind p'.persisted_revision revision ≡ false
  pub state : p'.database.state ≡ DatabaseState.opened

module _ (store : Snapshot → Result StoreAcknowledgement) where
  -- The answer to what the adapter has.
  abbrev pub answer_of : Phase → Result StoreAcknowledgement
  answer_of (storing s) = store s
  answer_of phase = err Error.storage

  abbrev pub run_started : Persistent → Persistent
  run_started p = release_task (finish_task (answer_of p.phase) p).1

  -- The turns of the first task.
  abbrev pub run_task : Persistent → Persistent
  run_task p = run_started (start_task p)

  -- The turns of a task for each of these.
  abbrev pub drain : List Task → Persistent → Persistent
  drain [] p = p
  drain (t ∷ ts) p = drain ts (run_task p)

-- An adapter, and what the documentation asks of its acknowledgements.
module _ (store : Snapshot → Result StoreAcknowledgement)
    (covers : (s : Snapshot)
      → (a : StoreAcknowledgement) × (store s ≡ ok a)
        × (a.database_id ≡ s.database_id)
        × (a.generation ≡ s.generation)
        × (s.revision ≤ a.revision)) where
  accepted_of :
      (s : Snapshot) (id : Text)
      → s.database_id ≡ id
      → (a : StoreAcknowledgement) × (store s ≡ ok a)
        × (is_acknowledged id s a ≡ true)
        × (s.revision ≤ a.revision)
  accepted_of s id e =
      let (a, h, same, generation, covered) = covers s in
      (a, h, rw (same, e) (ground (arith, ==_refl id, generation, covered)), covered)

  accept-Turned :
      (p : Persistent) (t : Task) (ts : List Task) (a : StoreAcknowledgement)
      → t.revision ≤ a.revision
      → p.tasks ≡ t ∷ ts
      → Turned (p.persisted_revision) (p.database) t ts (release_task (accept a p))
  accept-Turned p t ts a c e = rw (release_task_first (accept a p) t ts refl e) (record {
    phase = refl;
    tasks = refl;
    revision = refl;
    persisted = ground (arith, c);
    kept = λ n h. ground (arith, h);
    usable = recovered_usable p.database.state _;
    opened = λ u h. recovered_opened p.database.state _ u (ground (arith, h));
  })
    where
      recovered_usable :
          (state : DatabaseState) (b : Bool) → IsUsable state → IsUsable (recovered state b)
      recovered_usable state b (inl e) = inl (rw e refl)
      recovered_usable state true (inr e) = inl (rw e refl)
      recovered_usable state false (inr e) = inr (rw e refl)

      recovered_opened :
          (state : DatabaseState) (b : Bool)
          → IsUsable state
          → b ≡ true
          → recovered state b ≡ DatabaseState.opened
      recovered_opened state b (inl e) h = rw e refl
      recovered_opened state b (inr e) h = rw (e, h) refl

  run_task-Turned :
      (p : Persistent) (t : Task) (ts : List Task)
      → p.phase ≡ idle
      → p.tasks ≡ t ∷ ts
      → Turned (p.persisted_revision) (p.database) t ts (run_task store p)
  run_task-Turned p t ts i e =
      let (a, h, covered, c) = accepted_of (snapshot_of p t) p.database.id refl in
      rw (start_task_first p t ts i e) (
        rw (h) (
          rw
            (finish_task_accepted (record p { phase = storing (snapshot_of p t) }) (snapshot_of p t)
              refl a covered)
            (accept-Turned (record p { phase = storing (snapshot_of p t) }) t ts a c e)))

  -- All stays stored while the other tasks run.
  drain_current :
      (ts : List Task) (p : Persistent) (revision : ℕ)
      → p.phase ≡ idle
      → p.tasks ≡ ts
      → p.database.revision ≡ revision
      → p.database.state ≡ DatabaseState.opened
      → is_behind p.persisted_revision revision ≡ false
      → Drained revision (drain store ts p)
  drain_current [] p revision i e r o b = record { tasks = e; persisted = b; state = o }
  drain_current (t ∷ ts) p revision i e r o b =
      let turned = run_task-Turned p t ts i e in
      let stored = turned.kept revision b in
      drain_current ts (run_task store p) revision turned.phase turned.tasks (turned.revision ∙ r)
        (turned.opened (inl o) (ap (is_behind (run_task store p).persisted_revision) r ∙ stored))
        stored

  -- One of the tasks has the revision of the database.
  drain-HasTask :
      (ts : List Task) (p : Persistent) (ticket : ℕ) (db : Database)
      → p.phase ≡ idle
      → p.tasks ≡ ts
      → p.database.revision ≡ db.revision
      → IsUsable p.database.state
      → HasTask ticket db ts
      → Drained db.revision (drain store ts p)
  drain-HasTask [] p ticket db i e r u h = absurd h
  drain-HasTask (t ∷ ts) p ticket db i e r u (inl (a, same, c)) =
      let turned = run_task-Turned p t ts i e in
      let stored =
        ap (is_behind (run_task store p).persisted_revision) (sym same) ∙ turned.persisted in
      drain_current ts (run_task store p) db.revision turned.phase turned.tasks
        (turned.revision ∙ r)
        (turned.opened u (ap (is_behind (run_task store p).persisted_revision) r ∙ stored)) stored
  drain-HasTask (t ∷ ts) p ticket db i e r u (inr h) =
      let turned = run_task-Turned p t ts i e in
      drain-HasTask ts (run_task store p) ticket db turned.phase turned.tasks (turned.revision ∙ r)
        (turned.usable u) h

  -- What `flush` leaves of a database that is behind.
  flush_eq :
      (p : Persistent)
      → p.has_adapter ≡ true
      → IsUsable p.database.state
      → is_behind p.persisted_revision p.database.revision ≡ true
      → (flush p).1 ≡ (persist p.database.revision p).1
  unfolding flush require_open
  flush_eq p adapter u b =
      usable u ∙ ap (λ x. x.1) (persist_behind_new p (ground (arith, adapter, b)))
    where
      kept :
          (r : Result Awaited) (p' : Persistent)
          → (continue {B = ℕ × Awaited} (λ awaited. pure (p.database.revision, awaited)) r p').1
            ≡ p'
      kept (ok awaited) p' = refl
      kept (err x) p' = refl

      usable : IsUsable p.database.state → (flush p).1 ≡ (persist_behind p).1
      usable (inl e) = rw (ap require_open e) (kept (persist_behind p).0 (persist_behind p).1)
      usable (inr e) = rw (ap require_open e) (kept (persist_behind p).0 (persist_behind p).1)

  persist-drain :
      (p : Persistent) (r : Result Awaited) (p' : Persistent)
      → p.has_adapter ≡ true
      → p.phase ≡ idle
      → IsUsable p.database.state
      → p.pending_persistence < p.max_pending_snapshots
      → Persisting p r p'
      → Drained p.database.revision (drain store p'.tasks p')
  persist-drain p (ok awaited) p' adapter i u room (same, phase, inl (alone, w)) =
      absurd (ground (arith, adapter, alone))
  persist-drain p (ok awaited) p' adapter i u room (same, phase, inr (ticket, w, has)) =
      drain-HasTask p'.tasks p' ticket p.database (phase ∙ i) refl (ap (λ db. db.revision) same)
        (subst (λ db. IsUsable db.state) (sym same) u) has
  persist-drain p (err e) p' adapter i u room (x, full, same) = absurd (omega (arith, full, room))

  -- With an adapter whose acknowledgements have the snapshot's identity and generation and
  -- cover its revision, a flush of an open or degraded database over valid collections,
  -- whose queue satisfies its invariant, is idle and not full, and whose storage is behind,
  -- is completed by the turns of the waiting tasks: none is left, storage covers the
  -- database's revision, and the database is open.
  pub flush-drain :
      (rt : Runtime) (p : Persistent)
      → p.has_adapter ≡ true
      → AllStored rt p.database.collections
      → IsQueued p
      → p.phase ≡ idle
      → IsUsable p.database.state
      → is_behind p.persisted_revision p.database.revision ≡ true
      → p.pending_persistence < p.max_pending_snapshots
      → Drained p.database.revision (drain store (flush p).1.tasks (flush p).1)
  flush-drain rt p adapter stored q i u b room = rw (flush_eq p adapter u b) (
      persist-drain p (persist p.database.revision p).0 (persist p.database.revision p).1 adapter i
        u room (persist-Ends rt p stored q))
