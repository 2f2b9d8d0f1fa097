-- ===== src/Persistence/Durable.antt =====
-- What a call of `#persist` waits for, and what the queue does with an adapter that acknowledges.
use newtondb.Database.{Database, DatabaseState}
use newtondb.Errors.{Error, Result, ok, err}
use newtondb.Exec.{Ends}
use newtondb.NativeMap
use newtondb.NativeMap.{Entries}
use newtondb.Persistence.{
  Task, storing, Persistent, Awaited, resolved, task, StoreAcknowledgement, persist, with_state,
  finish_task, is_acknowledged, is_behind,
}
use newtondb.Persistence.Branches.{
  queue_snapshot_taken, persist_alone, persist_joined, persist_full, persist_new,
  finish_task_failed, finish_task_refused, finish_task_accepted,
}
use newtondb.Persistence.Queue.{IsQueued, AreCurrent, filed}
use newtondb.Prelude.{
  ℕ, ◌≡◌, ◌≤◌, refl, sym, ap, ◌∙◌, false, some, List, [], ◌∷◌, ◌++◌, map, leb, nat_eq, nat_beq, inl,
  inr, ◌⊎◌, Bool-cases, Option-cases, arith, some-eq,
}
use newtondb.Runtime.{Runtime}
use newtondb.Storage.{Snapshot}
use newtondb.Storage.Envelope.{clone_snapshot_collections}
use newtondb.Storage.Reopen.{clone_snapshot_collections_total}
use newtondb.Transaction.Sound.{AllStored}

-- One of the tasks has this ticket, this revision, and the documents of these collections.
abbrev pub HasTask : ℕ → Database → List Task → Type 0
HasTask ticket db [] = ⊥
HasTask ticket db (t ∷ ts) =
    ((t.ticket ≡ ticket)
      × (t.revision ≡ db.revision)
      × (clone_snapshot_collections db.collections ≡ ok t.collections))
    ⊎ HasTask ticket db ts

get-HasTask :
    (ticket : ℕ) (db : Database) (ts : List Task)
    → AreCurrent ts db
    → NativeMap.get (map filed ts) db.revision ≡ some ticket
    → HasTask ticket db ts
unfolding NativeMap.get
get-HasTask ticket db [] a h = ground arith
get-HasTask ticket db (t ∷ ts) a h = elim (Bool-cases (nat_beq t.revision db.revision)) [
  | inl e ↦ inl (some-eq (rw e at h), ground arith, a.0 (ground arith))
  | inr e ↦ inr (get-HasTask ticket db ts a.1 (rw e at h))
]

last-HasTask :
    (ticket : ℕ) (db : Database) (ts : List Task) (t : Task)
    → t.ticket ≡ ticket
    → t.revision ≡ db.revision
    → clone_snapshot_collections db.collections ≡ ok t.collections
    → HasTask ticket db (ts ++ t ∷ [])
last-HasTask ticket db [] t a b c = inl (a, b, c)
last-HasTask ticket db (u ∷ ts) t a b c = inr (last-HasTask ticket db ts t a b c)

-- How a call for the current revision ends.
abbrev pub Persisting : Persistent → Result Awaited → Persistent → Type 0
Persisting p =
    Ends
      (λ awaited p'.
        (p'.database ≡ p.database)
        × (p'.phase ≡ p.phase)
        × (((p.has_adapter ≡ false) × (awaited ≡ resolved))
            ⊎ ((ticket : ℕ) × (awaited ≡ task ticket) × HasTask ticket p.database p'.tasks)))
      (λ e p'.
        (e ≡ Error.persistence)
        × (p.max_pending_snapshots ≤ p.pending_persistence)
        × (p' ≡ with_state DatabaseState.degraded p))

-- Over valid collections and a queue that satisfies its invariant, #persist for the current
-- revision leaves the database as it is, and either there is no adapter and nothing is
-- awaited, or a waiting task of that revision with the documents of the current collections is
-- awaited, whether it is new or joined; it throws, with a PersistenceError, only when the
-- pending snapshots have reached the limit, and then changes nothing but the state, to
-- degraded.
pub persist-Ends :
    (rt : Runtime) (p : Persistent)
    → AllStored rt p.database.collections
    → IsQueued p
    → Persisting p (persist p.database.revision p).0 (persist p.database.revision p).1
persist-Ends rt p stored q = elim (Bool-cases p.has_adapter) [
  | inr e ↦ rw (persist_alone p.database.revision p e) (refl, refl, inl (e, refl))
  | inl e ↦ elim (Option-cases (NativeMap.get p.by_revision p.database.revision)) [
    | inr (ticket, found) ↦ rw (persist_joined p.database.revision p ticket e found) (
      refl,
      refl,
      inr (
        ticket,
        refl,
        get-HasTask ticket p.database p.tasks q.current
            (ap (λ m. NativeMap.get m p.database.revision) (sym q.listed) ∙ found),
      ),
    )
    | inl h ↦ elim (Bool-cases (leb p.max_pending_snapshots p.pending_persistence)) [
      | inl full ↦
          rw (persist_full p.database.revision p e h full) (refl, ground (arith, full), refl)
      | inr room ↦
          let (collections, taken, names) =
            clone_snapshot_collections_total rt p.database.collections stored in
          rw
            (
              persist_new p.database.revision p e h room,
              queue_snapshot_taken p.database.revision p collections taken,
            )
            (
              refl,
              refl,
              inr (p.tickets, refl, last-HasTask p.tickets p.database p.tasks _ refl refl taken),
            )
    ]
  ]
]

-- How the task ends after the answer to its snapshot.
abbrev pub Finishing : Persistent → Snapshot → Result (Unit {0}) → Persistent → Type 0
Finishing p s =
    Ends
      (λ u p'.
        (is_behind p'.persisted_revision s.revision ≡ false)
        × (p'.generation ≡ s.generation)
        × ((n : ℕ)
            → is_behind p.persisted_revision n ≡ false
            → is_behind p'.persisted_revision n ≡ false))
      (λ e p'.
        (p'.persisted_revision ≡ p.persisted_revision)
        × (p'.generation ≡ p.generation)
        × (p'.database.state ≡ DatabaseState.degraded))

-- Once the adapter has answered to a snapshot, a task that returns has raised the generation
-- to the snapshot's and the persisted revision to cover the snapshot's, without lowering it; a
-- task that throws leaves both as they were and the database degraded.
pub finish_task-Ends :
    (answer : Result StoreAcknowledgement) (p : Persistent) (s : Snapshot)
    → p.phase ≡ storing s
    → Finishing p s (finish_task answer p).0 (finish_task answer p).1
finish_task-Ends (err x) p s e = rw (finish_task_failed p s e x) (refl, refl, refl)
finish_task-Ends (ok a) p s e = elim (Bool-cases (is_acknowledged p.database.id s a)) [
  | inl h ↦
      rw (finish_task_accepted p s e a h)
        (ground (arith, h), ground (arith, h), λ n kept. ground (arith, kept))
  | inr h ↦ rw (finish_task_refused p s e a h) (refl, refl, refl)
]
