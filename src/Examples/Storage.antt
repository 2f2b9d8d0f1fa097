-- ===== src/Examples/Storage.antt =====
-- The theorems on snapshots, the queue of snapshots and transactions at concrete data.
use newtondb.Collection.Seeded.{create_stored_collection-IsValid}
use newtondb.Database.{commit_working}
use newtondb.Database.Order.{Sign, equal}
use newtondb.Database.Queue.{IsBounded, Turns-IsBounded, here, next, commits}
use newtondb.Errors.{Result, ok}
use newtondb.Input.{Input, Properties}
use newtondb.NativeMap
use newtondb.OverlayMap
use newtondb.Persistence.{
  Persistent, StoreAcknowledgement, storing, with_storage, persist, flush, start_task, finish_task,
}
use newtondb.Persistence.Atomic.{Transacting, transaction-Ends, left_by}
use newtondb.Persistence.Drain.{Drained, drain, flush-drain}
use newtondb.Persistence.Durable.{Persisting, persist-Ends, Finishing, finish_task-Ends}
use newtondb.Persistence.Open.{DatabaseOptions, open_database}
use newtondb.Persistence.Opened.{Opening, open_database-Opening}
use newtondb.Persistence.Operations.{inserting, inserting-IsSound}
use newtondb.Persistence.Queue.{IsQueued}
use newtondb.Persistence.Steps.{Reach, Reach-IsQueued, persists, starts}
use newtondb.Persistence.Transact.{Durability, default_options, transaction}
use newtondb.Prelude.{
  ◌≡◌, refl, ℕ, ◌≤◌, true, false, none, some, [], ◌∷◌, inl, arith, nat_eq, list_eq,
}
use newtondb.Samples.{
  runtime, people_name, schema, ann, database, collections-valid, insertion, ann_input,
}
use newtondb.Samples.Prepared.{seeded, ann_created}
use newtondb.Storage.{Snapshot}
use newtondb.Storage.Envelope.{ordered_documents}
use newtondb.Storage.Reopen.{reopen}
use newtondb.Text.{Text}

seeded_documents : ordered_documents seeded.contents.records seeded.contents.order ≡ ok (ann ∷ [])
unfolding ordered_documents OverlayMap.get NativeMap.get newtondb.Prelude.list_beq
seeded_documents = refl

reopen_example :
    (seeded.contents.order ≡ seeded.contents.order)
    × ((j : Text)
        → OverlayMap.get seeded.contents.records j ≡ OverlayMap.get seeded.contents.records j)
reopen_example =
    reopen runtime people_name seeded.contents (ann ∷ []) 2 seeded
      (create_stored_collection-IsValid runtime people_name (ann_input ∷ []) schema 2 seeded
        ann_created).0
      seeded_documents ann_created

abbrev catalog : Input
catalog = Input.object true false Properties.end

-- A database that has just been opened on empty storage.
abbrev opened : Persistent
unfolding with_storage
opened = with_storage database catalog none 4

opened-IsQueued : IsQueued opened
unfolding with_storage
opened-IsQueued = Reach-IsQueued database catalog none 4 newtondb.Persistence.Steps.here

Reach-IsQueued_example : IsQueued (start_task (persist 0 opened).1)
unfolding with_storage
Reach-IsQueued_example = Reach-IsQueued database catalog none 4 (
    newtondb.Persistence.Steps.next
      (newtondb.Persistence.Steps.next newtondb.Persistence.Steps.here (persists opened))
      (starts (persist 0 opened).1))

persist-Ends_example : Persisting opened (persist 0 opened).0 (persist 0 opened).1
unfolding opened
persist-Ends_example = persist-Ends runtime opened collections-valid opened-IsQueued

abbrev snapshot : Snapshot
snapshot = record {
  catalog = catalog;
  collections = Properties.end;
  database_id = [];
  generation = 1;
  revision = 0;
}

abbrev refused : Result StoreAcknowledgement
refused = ok (record { database_id = []; generation = 2; revision = 0 })

abbrev running : Persistent
running = record opened { phase = storing snapshot }

finish_task-Ends_example :
    Finishing running snapshot (finish_task refused running).0 (finish_task refused running).1
finish_task-Ends_example = finish_task-Ends refused running snapshot refl

abbrev acknowledged : Snapshot → Result StoreAcknowledgement
acknowledged s =
    ok (record { database_id = s.database_id; generation = s.generation; revision = s.revision })

flush-drain_example : Drained 0 (drain acknowledged (flush opened).1.tasks (flush opened).1)
unfolding with_storage opened
flush-drain_example =
    flush-drain acknowledged (λ s. (_, refl, refl, refl, omega arith)) runtime opened refl
      collections-valid opened-IsQueued refl (inl refl) refl (omega arith)

transaction-Ends_example :
    Transacting runtime [] 1 Durability.persisted
      (left_by runtime [] 1 (inserting runtime 1 people_name ann_input false []) 0 opened)
      opened
      (transaction runtime [] 0 1
        (inserting runtime 1 people_name ann_input false [])
        default_options
        opened).0
      (transaction runtime [] 0 1
        (inserting runtime 1 people_name ann_input false [])
        default_options
        opened).1
unfolding opened
transaction-Ends_example =
    transaction-Ends runtime [] 1 0 (inserting runtime 1 people_name ann_input false [])
      default_options opened (λ t q. refl)
      (inserting-IsSound runtime 1 people_name ann_input false []) collections-valid opened-IsQueued

abbrev same_order : Text → Text → Sign
same_order left right = equal

abbrev options : DatabaseOptions
options = record {
  include_documents = true;
  verify_invariants = true;
  schema = (people_name, schema) ∷ [];
  max_queued_batches = none;
  max_queued_changes = none;
  max_pending_snapshots = none;
  max_age_ms = none;
  max_operations = none;
  max_read_collections = none;
}

open_database-Opening_example :
    Opening runtime same_order []
      (λ x. [])
      options
      (some ((people_name, some []) ∷ []))
      (ok none)
      (ok tt)
      (open_database runtime same_order []
        (λ x. [])
        options
        (some ((people_name, some []) ∷ []))
        (ok none)
        (ok tt))
open_database-Opening_example =
    open_database-Opening runtime same_order [] (λ x. []) options
      (some ((people_name, some []) ∷ [])) (ok none) (ok tt)

Turns-IsBounded_example : IsBounded (commit_working runtime [] insertion database).1
Turns-IsBounded_example =
    Turns-IsBounded (next here (commits database runtime [] insertion)) refl refl
