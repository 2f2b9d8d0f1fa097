-- ===== src/Persistence/Branches.antt =====
-- The branches of the storage methods, each as an equation.
use newtondb.Database.{DatabaseState}
use newtondb.Errors.{Error, Result, ok, err}
use newtondb.Json.{Document}
use newtondb.NativeMap
use newtondb.NativeMap.{Entries}
use newtondb.Persistence.{
  Task, idle, storing, settled, Persistent, resolved, task, tail, StoreAcknowledgement, persist,
  persist_behind, queue_snapshot, queue_task, with_state, start_task, snapshot_of, is_ticket,
  finish_task, accept, reject, release_task, is_acknowledged, is_behind, flush_during_close, close,
  begin_close, is_closed,
}
use newtondb.Prelude.{
  ℕ, ◌+◌, ◌-◌, ◌≡◌, refl, true, false, none, some, List, [], ◌∷◌, leb, nat_eq, arith, if◌then◌else◌,
  ◌&&◌, ◌||◌,
}
use newtondb.Storage.{Snapshot}
use newtondb.Storage.Envelope.{clone_snapshot_collections}
use newtondb.Text.{Text}

module _ (revision : ℕ) (p : Persistent) where
  pub queue_snapshot_taken :
      (collections : Entries Text (List Document))
      → clone_snapshot_collections p.database.collections ≡ ok collections
      → queue_snapshot revision p ≡ (
        ok (task p.tickets),
        queue_task revision
            (record p { pending_persistence = p.pending_persistence + 1 })
            collections,
      )
  unfolding queue_snapshot
  queue_snapshot_taken collections h = rw (h, queue_snapshot) refl

  pub queue_snapshot_failed :
      (e : Error)
      → clone_snapshot_collections p.database.collections ≡ err e
      → queue_snapshot revision p
        ≡ (err e, record p { pending_persistence = p.pending_persistence + 1 })
  unfolding queue_snapshot
  queue_snapshot_failed e h = rw (h, queue_snapshot) refl

  pub persist_alone : p.has_adapter ≡ false → persist revision p ≡ (ok resolved, p)
  unfolding persist
  persist_alone h = ground arith

  pub persist_joined :
      (ticket : ℕ)
      → p.has_adapter ≡ true
      → NativeMap.get p.by_revision revision ≡ some ticket
      → persist revision p ≡ (ok (task ticket), p)
  unfolding persist
  persist_joined ticket h found = ground arith

  pub persist_full :
      p.has_adapter ≡ true
      → NativeMap.get p.by_revision revision ≡ none
      → leb p.max_pending_snapshots p.pending_persistence ≡ true
      → persist revision p ≡ (err Error.persistence, with_state DatabaseState.degraded p)
  unfolding persist
  persist_full h new full = ground arith

  pub persist_new :
      p.has_adapter ≡ true
      → NativeMap.get p.by_revision revision ≡ none
      → leb p.max_pending_snapshots p.pending_persistence ≡ false
      → persist revision p ≡ queue_snapshot revision p
  unfolding persist
  persist_new h new room = ground arith

module _ (p : Persistent) where
  pub persist_behind_new :
      (p.has_adapter && is_behind p.persisted_revision p.database.revision) ≡ true
      → persist_behind p ≡ persist p.database.revision p
  unfolding persist_behind
  persist_behind_new h = ground arith

  pub persist_behind_stored :
      (p.has_adapter && is_behind p.persisted_revision p.database.revision) ≡ false
      → persist_behind p ≡ (ok tail, p)
  unfolding persist_behind
  persist_behind_stored h = ground arith

  pub start_task_first :
      (t : Task) (ts : List Task)
      → p.phase ≡ idle
      → p.tasks ≡ t ∷ ts
      → start_task p ≡ record p { phase = storing (snapshot_of p t) }
  unfolding start_task
  start_task_first t ts e g = ground arith

  pub start_task_none : p.tasks ≡ [] → start_task p ≡ p
  unfolding start_task
  start_task_none g = at p.phase refl
    where
      at : (f : _) → p.phase ≡ f → start_task p ≡ p
      at idle e = ground arith
      at (storing s) e = ground arith
      at settled e = ground arith

  pub start_task_storing : (s : Snapshot) → p.phase ≡ storing s → start_task p ≡ p
  unfolding start_task
  start_task_storing s e = ground arith

  pub start_task_settled : p.phase ≡ settled → start_task p ≡ p
  unfolding start_task
  start_task_settled e = ground arith

  module _ (s : Snapshot) (e : p.phase ≡ storing s) where
    pub finish_task_failed : (x : Error) → finish_task (err x) p ≡ reject p
    unfolding finish_task
    finish_task_failed x = ground arith

    pub finish_task_refused :
        (a : StoreAcknowledgement)
        → is_acknowledged p.database.id s a ≡ false
        → finish_task (ok a) p ≡ reject p
    unfolding finish_task
    finish_task_refused a h = ground arith

    pub finish_task_accepted :
        (a : StoreAcknowledgement)
        → is_acknowledged p.database.id s a ≡ true
        → finish_task (ok a) p ≡ (ok tt, accept a p)
    unfolding finish_task
    finish_task_accepted a h = ground arith

  pub release_task_first :
      (t : Task) (ts : List Task)
      → p.phase ≡ settled
      → p.tasks ≡ t ∷ ts
      → release_task p ≡ record p {
        pending_persistence = p.pending_persistence - 1;
        by_revision =
            if is_ticket (NativeMap.get p.by_revision t.revision) t.ticket
            then NativeMap.delete t.revision p.by_revision
            else p.by_revision;
        tasks = ts;
        phase = idle;
      }
  unfolding release_task
  release_task_first t ts e g = ground arith

  pub finish_task_idle :
      p.phase ≡ idle → (answer : Result StoreAcknowledgement) → finish_task answer p ≡ (ok tt, p)
  unfolding finish_task
  finish_task_idle e answer = ground arith

  pub finish_task_settled :
      p.phase ≡ settled → (answer : Result StoreAcknowledgement) → finish_task answer p ≡ (ok tt, p)
  unfolding finish_task
  finish_task_settled e answer = ground arith

  pub release_task_idle : p.phase ≡ idle → release_task p ≡ p
  unfolding release_task
  release_task_idle e = ground arith

  pub release_task_storing : (s : Snapshot) → p.phase ≡ storing s → release_task p ≡ p
  unfolding release_task
  release_task_storing s e = ground arith

  pub flush_during_close_alone : p.has_adapter ≡ false → flush_during_close p ≡ (ok resolved, p)
  unfolding flush_during_close
  flush_during_close_alone h = ground arith

  pub flush_during_close_stored : p.has_adapter ≡ true → flush_during_close p ≡ persist_behind p
  unfolding flush_during_close
  flush_during_close_stored h = ground arith

  pub close_again : (is_closed p.database.state || p.close_started) ≡ true → close p ≡ (none, p)
  unfolding close
  close_again h = ground arith

  pub close_first :
      (is_closed p.database.state || p.close_started) ≡ false
      → close p ≡ (some (begin_close p).0, (begin_close p).1)
  unfolding close
  close_first h = ground arith
