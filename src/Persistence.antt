-- ===== src/Persistence.antt =====
-- The storage side of the class Database of src/database.ts: the queue of snapshots, flush and
-- close. A promise is the ticket of the task that settles it; the tasks of the chain
-- `#persistenceTail` run one after the other, each in three turns: it hands its snapshot to the
-- adapter, it reads the acknowledgement, and `finally` releases it.
pub mod Queue
pub mod Branches
pub mod Reach
pub mod Steps
pub mod Durable
pub mod Drain
pub mod Open
pub mod Transact
pub mod Covered
pub mod Atomic
pub mod Operations
pub mod Opened
use newtondb.Database.{Database, DatabaseState, require_open}
use newtondb.Errors.{Error, Result, ok, err}
use newtondb.Exec.{Exec, pure, raise, lift, gets, ◌>>=◌, ◌>>◌}
use newtondb.Input.{Input}
use newtondb.Json.{Document}
use newtondb.NativeMap
use newtondb.NativeMap.{Entries}
use newtondb.Prelude.{
  ℕ, ◌+◌, ◌-◌, Bool, true, false, ◌&&◌, ◌||◌, Option, none, some, List, [], ◌∷◌, ◌++◌, ◌==◌, ltb,
  leb, nat_eq, list_eq, nat_beq, if◌then◌else◌,
}
use newtondb.Storage.{Snapshot}
use newtondb.Storage.Envelope.{tables_of, clone_snapshot_collections}
use newtondb.Text.{Text}

pub record StoreAcknowledgement : Type 0 where
  pub database_id : Text
  pub generation : ℕ
  pub revision : ℕ

-- A task of the chain, by its ticket: the revision of its receipt and the documents of its snapshot.
pub record Task : Type 0 where
  pub ticket : ℕ
  pub revision : ℕ
  pub collections : Entries Text (List Document)

-- The first task of the chain: not started, in `adapter.store`, or settled.
pub data Phase : Type 0 where
  idle : Phase
  storing : Snapshot → Phase
  settled : Phase

-- The fields of the class for storage; no `persisted_revision` is -1.
pub record Persistent : Type 0 where
  pub database : Database
  pub has_adapter : Bool
  pub catalog : Input
  pub callback_active : Bool
  pub close_started : Bool
  pub generation : ℕ
  pub persisted_revision : Option ℕ
  pub tasks : List Task
  pub phase : Phase
  pub tickets : ℕ
  pub by_revision : Entries ℕ ℕ
  pub pending_persistence : ℕ
  pub max_pending_snapshots : ℕ

-- The fields for storage as the constructor sets them, and then `open` for what the adapter loaded.
unfoldable pub with_storage : Database → Input → Option Snapshot → ℕ → Persistent
with_storage db catalog loaded limit = record {
  database = db;
  has_adapter = true;
  catalog = catalog;
  callback_active = false;
  close_started = false;
  generation = elim loaded [ none ↦ 0 | some s ↦ s.generation ];
  persisted_revision = elim loaded [ none ↦ none | some s ↦ some s.revision ];
  tasks = [];
  phase = idle;
  tickets = 0;
  by_revision = [];
  pending_persistence = 0;
  max_pending_snapshots = limit;
}

-- What an awaited promise waits for: nothing, one task, or the tail of the chain.
pub data Awaited : Type 0 where
  resolved : Awaited
  task : ℕ → Awaited
  tail : Awaited

abbrev pub with_state : DatabaseState → Persistent → Persistent
with_state state p = record p { database = record p.database { state = state } }

-- `#persistedRevision < revision`
abbrev pub is_behind : Option ℕ → ℕ → Bool
is_behind none revision = true
is_behind (some persisted) revision = ltb persisted revision

-- The task of a new snapshot, once its documents are cloned.
abbrev pub queue_task : ℕ → Persistent → Entries Text (List Document) → Persistent
queue_task revision p collections = record p {
  tasks =
      p.tasks ++ record { ticket = p.tickets; revision = revision; collections = collections } ∷ [];
  tickets = p.tickets + 1;
  by_revision = NativeMap.set revision p.tickets p.by_revision;
}

-- #persist from `this.#pendingPersistence += 1` on
unfoldable pub queue_snapshot : ℕ → Exec Persistent Awaited
unfolding clone_snapshot_collections
queue_snapshot revision p = elim (clone_snapshot_collections p.database.collections) [
  | err e ↦ (err e, record p { pending_persistence = p.pending_persistence + 1 })
  | ok collections ↦ (
    ok (task p.tickets),
    queue_task revision (record p { pending_persistence = p.pending_persistence + 1 }) collections,
  )
]

-- #persist(receipt), by the revision of the receipt
unfoldable pub persist : ℕ → Exec Persistent Awaited
unfolding queue_snapshot NativeMap.get
persist revision p =
    if p.has_adapter
    then elim (NativeMap.get p.by_revision revision) [
      | some ticket ↦ (ok (task ticket), p)
      | none ↦
          if leb p.max_pending_snapshots p.pending_persistence
          then (err Error.persistence, with_state DatabaseState.degraded p)
          else queue_snapshot revision p
    ]
    else (ok resolved, p)

-- The snapshot of a task, under the next generation.
abbrev pub snapshot_of : Persistent → Task → Snapshot
snapshot_of p t = record {
  catalog = p.catalog;
  collections = tables_of t.collections;
  database_id = p.database.id;
  generation = p.generation + 1;
  revision = t.revision;
}

-- The task up to `adapter.store(snapshot, …)`
unfoldable pub start_task : Persistent → Persistent
start_task p = elim p.phase [
  | idle ↦ elim p.tasks [ [] ↦ p | t ∷ ts ↦ record p { phase = storing (snapshot_of p t) } ]
  | _ ↦ p
]

-- The test of the acknowledgement.
abbrev pub is_acknowledged : Text → Snapshot → StoreAcknowledgement → Bool
is_acknowledged id snapshot a =
    (a.database_id == id)
    && (nat_beq a.generation snapshot.generation)
    && leb snapshot.revision a.revision

-- Math.max(this.#persistedRevision, revision)
abbrev pub max_revision : Option ℕ → ℕ → ℕ
max_revision none revision = revision
max_revision (some persisted) revision = if leb persisted revision then revision else persisted

abbrev pub recovered : DatabaseState → Bool → DatabaseState
recovered DatabaseState.degraded true = DatabaseState.opened
recovered state caught_up = state

-- The assignments after a valid acknowledgement.
abbrev pub accept : StoreAcknowledgement → Persistent → Persistent
accept a p = record p {
  generation = a.generation;
  persisted_revision = some (max_revision p.persisted_revision a.revision);
  database = record p.database {
    state =
        recovered p.database.state
          (leb p.database.revision (max_revision p.persisted_revision a.revision));
  };
  phase = settled;
}

abbrev pub reject : Persistent → Result (Unit {0}) × Persistent
reject p = (err Error.persistence, record (with_state DatabaseState.degraded p) { phase = settled })

-- The task from the adapter's answer on; without a snapshot in the adapter nothing happens.
unfoldable pub finish_task : Result StoreAcknowledgement → Exec Persistent (Unit {0})
finish_task answer p = elim p.phase [
  | storing snapshot ↦ elim answer [
    | err e ↦ reject p
    | ok a ↦ if is_acknowledged p.database.id snapshot a then (ok tt, accept a p) else reject p
  ]
  | _ ↦ (ok tt, p)
]

-- `get(receipt.revision) === counted`
abbrev pub is_ticket : Option ℕ → ℕ → Bool
is_ticket none ticket = false
is_ticket (some t) ticket = nat_beq t ticket

-- The callback of `finally`
unfoldable pub release_task : Persistent → Persistent
unfolding NativeMap.get NativeMap.delete
release_task p = elim p.phase [
  | settled ↦ elim p.tasks [
    | [] ↦ p
    | t ∷ ts ↦ record p {
      pending_persistence = p.pending_persistence - 1;
      by_revision =
          if is_ticket (NativeMap.get p.by_revision t.revision) t.ticket
          then NativeMap.delete t.revision p.by_revision
          else p.by_revision;
      tasks = ts;
      phase = idle;
    }
  ]
  | _ ↦ p
]

-- The decision that `flush` and `#flushDuringClose` share.
unfoldable pub persist_behind : Exec Persistent Awaited
unfolding persist
persist_behind p =
    if p.has_adapter && is_behind p.persisted_revision p.database.revision
    then persist p.database.revision p
    else (ok tail, p)

-- flush(): the revision that is returned, and what is awaited before
unfoldable pub flush : Exec Persistent (ℕ × Awaited)
unfolding require_open persist_behind
flush = do
  p ← gets (λ p. p)
  lift (require_open p.database.state)
  awaited ← persist_behind
  pure (p.database.revision, awaited)

-- #flushDuringClose
unfoldable pub flush_during_close : Exec Persistent Awaited
unfolding persist_behind
flush_during_close p = if p.has_adapter then persist_behind p else (ok resolved, p)

-- #performClose up to its first await
unfoldable pub begin_close : Exec Persistent Awaited
unfolding flush_during_close
begin_close p =
    flush_during_close (with_state DatabaseState.closing (record p { close_started = true }))

abbrev pub is_closed : DatabaseState → Bool
is_closed DatabaseState.closed = true
is_closed state = false

-- close() up to the first await; `none` when it returns a promise of before
unfoldable pub close : Persistent → Option (Result Awaited) × Persistent
unfolding begin_close
close p =
    if is_closed p.database.state || p.close_started
    then (none, p)
    else (let (r, p') = begin_close p in (some r, p'))

-- #performClose after its awaits
unfoldable pub finish_close : Persistent → Persistent
finish_close p = record p {
  database = record p.database { listeners = []; event_queue = []; state = DatabaseState.closed };
}
