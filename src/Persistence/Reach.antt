-- ===== src/Persistence/Reach.antt =====
-- The invariant of the queue under each storage method up to the acknowledgement.
use newtondb.Database.{DatabaseState}
use newtondb.Errors.{Result, ok, err, Result-cases}
use newtondb.NativeMap
use newtondb.NativeMap.{Entries}
use newtondb.Persistence.{
  Task, Phase, idle, storing, settled, Persistent, StoreAcknowledgement, persist, persist_behind,
  queue_snapshot, with_state, start_task, snapshot_of, finish_task, accept, reject, is_acknowledged,
  is_behind,
}
use newtondb.Persistence.Branches.{
  queue_snapshot_taken, queue_snapshot_failed, persist_alone, persist_joined, persist_full,
  persist_new, persist_behind_new, persist_behind_stored, start_task_first, start_task_none,
  start_task_storing, start_task_settled, finish_task_failed, finish_task_refused,
  finish_task_accepted, finish_task_idle, finish_task_settled,
}
use newtondb.Persistence.Queue.{
  current_same, IsQueued, IsRunning, database-IsQueued, queue_task-IsQueued,
}
use newtondb.Prelude.{
  ℕ, ◌≡◌, ◌<◌, refl, none, List, [], ◌∷◌, leb, nat_eq, inl, inr, Bool-cases, Option-cases, arith,
  ◌&&◌,
}
use newtondb.Storage.{Snapshot}
use newtondb.Storage.Envelope.{clone_snapshot_collections}

pub state-IsQueued :
    (state : DatabaseState) (p : Persistent) → IsQueued p → IsQueued (with_state state p)
state-IsQueued state p q =
    database-IsQueued p (record p.database { state = state }) (inl (refl, refl)) q

queue_snapshot-IsQueued :
    (p : Persistent)
    → NativeMap.get p.by_revision p.database.revision ≡ none
    → p.pending_persistence < p.max_pending_snapshots
    → IsQueued p
    → IsQueued (queue_snapshot p.database.revision p).1
queue_snapshot-IsQueued p h room q =
    elim (Result-cases (clone_snapshot_collections p.database.collections)) [
      | inl (collections, taken) ↦
          rw (queue_snapshot_taken p.database.revision p collections taken)
            (queue_task-IsQueued p collections h room taken q)
      | inr (e, failed) ↦ rw (queue_snapshot_failed p.database.revision p e failed) (record {
        counted = omega (arith, q.counted);
        bounded = omega (arith, room);
        ascending = q.ascending;
        current = q.current;
        listed = q.listed;
        running = q.running;
      })
    ]

pub persist-IsQueued : (p : Persistent) → IsQueued p → IsQueued (persist p.database.revision p).1
persist-IsQueued p q = elim (Bool-cases p.has_adapter) [
  | inr e ↦ rw (persist_alone p.database.revision p e) q
  | inl e ↦ elim (Option-cases (NativeMap.get p.by_revision p.database.revision)) [
    | inr (ticket, found) ↦ rw (persist_joined p.database.revision p ticket e found) q
    | inl h ↦ elim (Bool-cases (leb p.max_pending_snapshots p.pending_persistence)) [
      | inl full ↦
          rw (persist_full p.database.revision p e h full)
            (state-IsQueued DatabaseState.degraded p q)
      | inr room ↦
          rw (persist_new p.database.revision p e h room)
            (queue_snapshot-IsQueued p h (ground arith) q)
    ]
  ]
]

pub persist_behind-IsQueued : (p : Persistent) → IsQueued p → IsQueued (persist_behind p).1
persist_behind-IsQueued p q =
    elim (Bool-cases (p.has_adapter && is_behind p.persisted_revision p.database.revision)) [
      | inl e ↦ rw (persist_behind_new p e) (persist-IsQueued p q)
      | inr e ↦ rw (persist_behind_stored p e) q
    ]

-- A step that changes only what the first task does.
phase-IsQueued :
    (p : Persistent) (phase : Phase)
    → IsRunning phase p.generation p.tasks
    → IsQueued p
    → IsQueued (record p { phase = phase })
phase-IsQueued p phase r q = record {
  counted = q.counted;
  bounded = q.bounded;
  ascending = q.ascending;
  current = q.current;
  listed = q.listed;
  running = r;
}

pub start_task-IsQueued : (p : Persistent) → IsQueued p → IsQueued (start_task p)
start_task-IsQueued p q = at p.phase p.tasks refl refl
  where
    at : (f : Phase) (ts : List Task) → p.phase ≡ f → p.tasks ≡ ts → IsQueued (start_task p)
    at (storing s) ts e g = rw (start_task_storing p s e) q
    at settled ts e g = rw (start_task_settled p e) q
    at idle [] e g = rw (start_task_none p g) q
    at idle (t ∷ ts) e g =
        rw (start_task_first p t ts e g)
          (phase-IsQueued p (storing (snapshot_of p t)) (rw g (refl, refl, refl)) q)

-- A started task has a first task.
settled_running :
    (s : Snapshot) (g g' : ℕ) (ts : List Task)
    → IsRunning (storing s) g ts
    → IsRunning settled g' ts
settled_running s g g' [] r = r
settled_running s g g' (t ∷ ts) r = tt

pub finish_task-IsQueued :
    (answer : Result StoreAcknowledgement) (p : Persistent)
    → IsQueued p
    → IsQueued (finish_task answer p).1
finish_task-IsQueued answer p q = at p.phase refl
  where
    rejected : (s : Snapshot) → p.phase ≡ storing s → IsQueued (reject p).1
    rejected s e =
        phase-IsQueued (with_state DatabaseState.degraded p) settled
          (settled_running s p.generation p.generation p.tasks (rw e at q.running))
          (state-IsQueued DatabaseState.degraded p q)

    accepted :
        (a : StoreAcknowledgement) (s : Snapshot) → p.phase ≡ storing s → IsQueued (accept a p)
    accepted a s e = record {
      counted = q.counted;
      bounded = q.bounded;
      ascending = q.ascending;
      current = current_same p.tasks p.database (accept a p).database refl refl q.current;
      listed = q.listed;
      running = settled_running s p.generation a.generation p.tasks (rw e at q.running);
    }

    answered :
        (r : Result StoreAcknowledgement) (s : Snapshot)
        → p.phase ≡ storing s
        → IsQueued (finish_task r p).1
    answered (err x) s e = rw (finish_task_failed p s e x) (rejected s e)
    answered (ok a) s e = elim (Bool-cases (is_acknowledged p.database.id s a)) [
      | inl h ↦ rw (finish_task_accepted p s e a h) (accepted a s e)
      | inr h ↦ rw (finish_task_refused p s e a h) (rejected s e)
    ]

    at : (f : Phase) → p.phase ≡ f → IsQueued (finish_task answer p).1
    at (storing s) e = answered answer s e
    at idle e = rw (finish_task_idle p e answer) q
    at settled e = rw (finish_task_settled p e answer) q
