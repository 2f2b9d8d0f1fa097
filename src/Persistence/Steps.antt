-- ===== src/Persistence/Steps.antt =====
-- The steps of a database with storage, in any order that its callers and the adapter choose, and
-- what holds in every state that they reach.
use newtondb.Database.{Database, DatabaseState, require_open, commit_working}
use newtondb.Database.Install.{commit_working_installs, Installed, Written}
use newtondb.Database.Commit.{CommitReceipt}
use newtondb.Errors.{Result, ok, err, Result-cases}
use newtondb.Events.{Change}
use newtondb.Exec.{Ends, continue, pure}
use newtondb.Input.{Input}
use newtondb.Storage.{Snapshot}
use newtondb.Persistence.{
  Task, Phase, idle, storing, settled, Persistent, StoreAcknowledgement, persist, persist_behind,
  start_task, with_storage, finish_task, release_task, close, finish_close, flush, Awaited,
  begin_close, is_closed, flush_during_close,
}
use newtondb.Persistence.Branches.{
  flush_during_close_alone, flush_during_close_stored, close_again, close_first, release_task_first,
  release_task_idle, release_task_storing,
}
use newtondb.Persistence.Queue.{
  IsQueued, AreAscending, database-IsQueued, ascending_below, release-filed,
}
use newtondb.Persistence.Reach.{
  state-IsQueued, persist-IsQueued, persist_behind-IsQueued, start_task-IsQueued,
  finish_task-IsQueued,
}
use newtondb.Prelude.{
  ℕ, ◌+◌, ◌≡◌, ◌<◌, refl, ap, true, Option, List, [], ◌∷◌, nat_eq, inl, inr, ◌⊎◌, Bool-cases, arith,
  ◌||◌,
}
use newtondb.Runtime.{Runtime}
use newtondb.Text.{Text}
use newtondb.Transaction.{Transaction}

release_task-IsQueued : (p : Persistent) → IsQueued p → IsQueued (release_task p)
release_task-IsQueued p q = at p.phase p.tasks refl refl
  where
    at : (f : Phase) (ts : List Task) → p.phase ≡ f → p.tasks ≡ ts → IsQueued (release_task p)
    at idle ts e g = rw (release_task_idle p e) q
    at (storing s) ts e g = rw (release_task_storing p s e) q
    at settled [] e g = absurd (rw (e, g) at q.running)
    at settled (t ∷ ts) e g =
        let ascending : AreAscending 0 (t ∷ ts) p.database.revision = rw g at q.ascending in
        rw (release_task_first p t ts e g) (record {
          counted = omega (arith, rw g at q.counted);
          bounded = omega (arith, q.bounded);
          ascending =
              ascending_below 0 (t.revision + 1) ts p.database.revision (omega arith) ascending.2;
          current = (rw g at q.current).1;
          listed = rw (rw g at q.listed) (release-filed t ts 0 p.database.revision ascending);
          running = tt;
        })

flush_during_close-IsQueued : (p : Persistent) → IsQueued p → IsQueued (flush_during_close p).1
flush_during_close-IsQueued p q = elim (Bool-cases p.has_adapter) [
  | inl e ↦ rw (flush_during_close_stored p e) (persist_behind-IsQueued p q)
  | inr e ↦ rw (flush_during_close_alone p e) q
]

close-IsQueued : (p : Persistent) → IsQueued p → IsQueued (close p).1
unfolding begin_close
close-IsQueued p q = elim (Bool-cases (is_closed p.database.state || p.close_started)) [
  | inl e ↦ rw (close_again p e) q
  | inr e ↦ rw (close_first p e) (
      flush_during_close-IsQueued _ (
        state-IsQueued DatabaseState.closing (record p { close_started = true })
          (record {
            counted = q.counted;
            bounded = q.bounded;
            ascending = q.ascending;
            current = q.current;
            listed = q.listed;
            running = q.running;
          })))
]

flush-IsQueued : (p : Persistent) → IsQueued p → IsQueued (flush p).1
unfolding flush
flush-IsQueued p q = elim (Result-cases (require_open p.database.state)) [
  | inl (u, e) ↦
      rw e (ended (persist_behind p).0 (persist_behind p).1 (persist_behind-IsQueued p q))
  | inr (x, e) ↦ rw e q
]
  where
    ended :
        (r : Result Awaited) (p' : Persistent)
        → IsQueued p'
        → IsQueued
            (continue {B = ℕ × Awaited} (λ awaited. pure (p.database.revision, awaited)) r p').1
    ended (ok awaited) p' i = i
    ended (err x) p' i = i

-- A commit keeps the database, or gives it the next revision.
pub commit_moves :
    (rt : Runtime) (id : Text) (t : Transaction) (db : Database)
    → let db' = (commit_working rt id t db).1 in
      ((db'.revision ≡ db.revision) × (db'.collections ≡ db.collections))
      ⊎ (db.revision < db'.revision)
commit_moves rt id t db = after _ _ (commit_working_installs rt id t db)
  where
    written :
        (changes : List Change) (db' : Database)
        → t.changes ≡ changes
        → Written rt changes t db db'
        → ((db'.revision ≡ db.revision) × (db'.collections ≡ db.collections))
          ⊎ (db.revision < db'.revision)
    written [] db' h w = inl (ap (λ x. x.revision) w, ap (λ x. x.collections) w)
    written (c ∷ cs) db' h w = inr (omega (arith, w.1))

    after :
        (r : Result CommitReceipt) (db' : Database)
        → Ends (λ receipt x. Installed rt id t db receipt x) (λ e x. x ≡ db) r db'
        → ((db'.revision ≡ db.revision) × (db'.collections ≡ db.collections))
          ⊎ (db.revision < db'.revision)
    after (ok receipt) db' c = written t.changes db' refl c.written
    after (err e) db' same = inl (ap (λ x. x.revision) same, ap (λ x. x.collections) same)

-- A step of the program: a commit, a call of flush or close, a turn of the first task, the end of a
-- close, or a change of the database that leaves its collections and its revision.
pub data Step : Persistent → Persistent → Type 0 where
  commits :
      (p : Persistent) (rt : Runtime) (id : Text) (t : Transaction)
      → Step p (record p { database = (commit_working rt id t p.database).1 })
  persists : (p : Persistent) → Step p (persist p.database.revision p).1
  flushes : (p : Persistent) → Step p (flush p).1
  starts : (p : Persistent) → Step p (start_task p)
  finishes :
      (p : Persistent) (answer : Result StoreAcknowledgement) → Step p (finish_task answer p).1
  releases : (p : Persistent) → Step p (release_task p)
  closes : (p : Persistent) → Step p (close p).1
  ends : (p : Persistent) → Step p (finish_close p)
  notifies :
      (p : Persistent) (db : Database)
      → db.revision ≡ p.database.revision
      → db.collections ≡ p.database.collections
      → Step p (record p { database = db })

pub data Reach (p : Persistent) : Persistent → Type 0 where
  here : Reach p p
  next : {q r : Persistent} → Reach p q → Step q r → Reach p r

pub Step-IsQueued : {p p' : Persistent} → Step p p' → IsQueued p → IsQueued p'
unfolding finish_close
Step-IsQueued (commits p rt id t) q =
    database-IsQueued p (commit_working rt id t p.database).1 (commit_moves rt id t p.database) q
Step-IsQueued (persists p) q = persist-IsQueued p q
Step-IsQueued (flushes p) q = flush-IsQueued p q
Step-IsQueued (starts p) q = start_task-IsQueued p q
Step-IsQueued (finishes p answer) q = finish_task-IsQueued answer p q
Step-IsQueued (releases p) q = release_task-IsQueued p q
Step-IsQueued (closes p) q = close-IsQueued p q
Step-IsQueued (ends p) q = database-IsQueued p (finish_close p).database (inl (refl, refl)) q
Step-IsQueued (notifies p db r c) q = database-IsQueued p db (inl (r, c)) q

Reach-from : {p p' : Persistent} → Reach p p' → IsQueued p → IsQueued p'
Reach-from here q = q
Reach-from (next r s) q = Step-IsQueued s (Reach-from r q)

-- In every state that commits, calls of flush and close, turns of the running task and
-- notifications reach from a database just opened, in any order and with any answers of the
-- adapter: the waiting snapshots are no more than the count of pending ones, and that is at
-- most the limit; their revisions increase, up to the database's; a snapshot of the current
-- revision has the current documents; the map by revision lists exactly the waiting tasks; and
-- what the adapter has is the first snapshot, under the next generation.
pub Reach-IsQueued :
    {p : Persistent} (db : Database) (catalog : Input) (loaded : Option Snapshot) (limit : ℕ)
    → Reach (with_storage db catalog loaded limit) p
    → IsQueued p
unfolding with_storage
Reach-IsQueued db catalog loaded limit r = Reach-from r (record {
  counted = omega arith;
  bounded = omega arith;
  ascending = tt;
  current = tt;
  listed = refl;
  running = tt;
})
