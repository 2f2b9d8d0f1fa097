-- ===== src/Persistence/Opened.antt =====
-- The state of a database that has just been opened or constructed.
use mathlib.Core.Path.{subst}
use newtondb.Collection.Create.{create_stored_collection}
use newtondb.Collection.Seeded.{create_stored_collection-IsValid}
use newtondb.Database.{DatabaseState, verify}
use newtondb.Database.Isolation.{set-AllStored}
use newtondb.Database.Order.{Sign}
use newtondb.Errors.{Error, Result, ok, err, >>=-eq-ok, Result-cases, ok-injective}
use newtondb.Input.{Input}
use newtondb.Json.Clone.{resolve_json_limits}
use newtondb.NativeMap
use newtondb.NativeMap.{Entries}
use newtondb.Persistence.{Persistent, idle, with_storage}
use newtondb.Persistence.Open.{
  Seed, DatabaseOptions, Stored, Constructed, stored_at, revision_of, resolve_event_limits,
  resolve_persistence_limits, resolve_transaction_limits, require_data, require_known,
  build_collections, new_database, read_loaded, open_snapshot, open_database, choose_seed,
  require_catalog, settle_open,
}
use newtondb.Persistence.Queue.{IsQueued}
use newtondb.Persistence.Steps.{here, Reach-IsQueued}
use newtondb.Prelude.{
  ℕ, ◌≡◌, refl, true, Option, none, some, [], ◌∷◌, nat_eq, list_eq, inl, inr, ◌⊎◌,
}
use newtondb.Runtime.{Runtime}
use newtondb.Schema.{CollectionSchema}
use newtondb.Storage.{Snapshot, create_catalog}
use newtondb.Text.{Text}
use newtondb.Transaction.{Collections}
use newtondb.Transaction.Sound.{AllStored}

module _ (rt : Runtime) where
  build_collections-AllStored :
      (schema : Entries Text CollectionSchema) (revision : ℕ) (seed : Seed)
      (collections built : Collections)
      → AllStored rt collections
      → build_collections rt schema revision seed collections ≡ ok built
      → AllStored rt built
  unfolding build_collections
  build_collections-AllStored schema revision [] collections built a h = rw (← ok-injective h) a
  build_collections-AllStored schema revision ((name, documents) ∷ seed) collections built a h =
      let (given, e1, h1) = >>=-eq-ok (require_data documents (NativeMap.get schema name)) _ h in
      let (limits, e2, h2) = >>=-eq-ok (resolve_json_limits given.1.limits) _ h1 in
      let (c, e3, h3) =
        >>=-eq-ok (create_stored_collection rt name given.0 given.1 revision) _ h2 in
      build_collections-AllStored schema revision seed _ built
        (set-AllStored rt collections name c a
          (create_stored_collection-IsValid rt name given.0 given.1 revision c e3).0)
        h3

module _ (rt : Runtime) (locale_compare : Text → Text → Sign) (random_id : Text) where
  -- What the constructor makes.
  pub record IsFresh (stored : Option Stored) (c : Constructed) : Type 0 where
    pub valid : AllStored rt c.database.collections
    pub revision : c.database.revision ≡ revision_of stored
    pub state : c.database.state ≡ DatabaseState.opened
    pub verified : verify rt c.database ≡ ok tt
    pub quiet : c.database.event_queue ≡ []

  pub new_database-IsFresh :
      (seed : Seed) (options : DatabaseOptions) (stored : Option Stored) (c : Constructed)
      → new_database rt locale_compare random_id seed options stored ≡ ok c
      → IsFresh stored c
  unfolding new_database
  new_database-IsFresh seed options stored c h =
      let (events, e1, h1) = >>=-eq-ok (resolve_event_limits options) _ h in
      let (limit, e2, h2) = >>=-eq-ok (resolve_persistence_limits options) _ h1 in
      let (transactions, e3, h3) = >>=-eq-ok (resolve_transaction_limits options) _ h2 in
      let (catalog, e4, h4) = >>=-eq-ok (create_catalog locale_compare options.schema) _ h3 in
      let (collections, e5, h5) =
        >>=-eq-ok (build_collections rt options.schema (revision_of stored) seed []) _ h4 in
      let (u, e6, h6) = >>=-eq-ok (require_known seed options.schema) _ h5 in
      let (v, e7, h7) = >>=-eq-ok (verify rt _) _ h6 in
      rw (← ok-injective h7) (record {
        valid =
            build_collections-AllStored rt options.schema (revision_of stored) seed [] collections
              tt e5;
        revision = refl;
        state = refl;
        verified = e7;
        quiet = refl;
      })

  -- A database that `open` gives: ready for calls, with nothing queued, and up to date with what was
  -- loaded, if anything was.
  pub record IsReady (p : Persistent) : Type 0 where
    pub valid : AllStored rt p.database.collections
    pub queued : IsQueued p
    pub phase : p.phase ≡ idle
    pub adapter : p.has_adapter ≡ true
    pub state : p.database.state ≡ DatabaseState.opened
    pub verified : verify rt p.database ≡ ok tt
    pub idle_queue : p.tasks ≡ []
    pub none_pending : p.pending_persistence ≡ 0
    pub quiet : p.database.event_queue ≡ []

  -- The revision of what was loaded.
  abbrev pub IsLoaded : Option Snapshot → Persistent → Type 0
  IsLoaded none p = (p.persisted_revision ≡ none) × (p.database.revision ≡ 0)
  IsLoaded (some s) p =
      (p.persisted_revision ≡ some s.revision)
      × (p.database.revision ≡ s.revision)
      × (p.generation ≡ s.generation)

  module _ (stringify : Input → Text) (options : DatabaseOptions) (initial : Option Seed) where
    open_snapshot-IsReady :
        (loaded : Option Snapshot) (p : Persistent)
        → open_snapshot rt locale_compare random_id stringify options initial loaded ≡ ok p
        → IsReady p × IsLoaded loaded p
    unfolding open_snapshot with_storage
    open_snapshot-IsReady loaded p h =
        let (expected, e1, h1) = >>=-eq-ok (create_catalog locale_compare options.schema) _ h in
        let (u, e2, h2) =
          >>=-eq-ok
            (require_catalog rt locale_compare random_id stringify options initial loaded expected)
            _ h1 in
        let (seed, e3, h3) = >>=-eq-ok (choose_seed initial loaded) _ h2 in
        let (c, e4, h4) =
          >>=-eq-ok (new_database rt locale_compare random_id seed options (stored_at loaded)) _
            h3 in
        let fresh = new_database-IsFresh seed options (stored_at loaded) c e4 in
        subst (λ x. IsReady x × IsLoaded loaded x) (ok-injective h4)
          (ready loaded c fresh, at_loaded loaded c fresh)
      where
        ready :
            (loaded : Option Snapshot) (c : Constructed)
            → IsFresh (stored_at loaded) c
            → IsReady (with_storage c.database c.catalog loaded c.max_pending_snapshots)
        ready loaded c fresh = record {
          valid = fresh.valid;
          queued = Reach-IsQueued c.database c.catalog loaded c.max_pending_snapshots here;
          phase = refl;
          adapter = refl;
          state = fresh.state;
          verified = fresh.verified;
          idle_queue = refl;
          none_pending = refl;
          quiet = fresh.quiet;
        }

        at_loaded :
            (loaded : Option Snapshot) (c : Constructed)
            → IsFresh (stored_at loaded) c
            → IsLoaded loaded (with_storage c.database c.catalog loaded c.max_pending_snapshots)
        at_loaded none c fresh = (refl, fresh.revision)
        at_loaded (some s) c fresh = (refl, fresh.revision, refl)

    -- What refuses the answer of storage: it is no envelope, or no database can be made of it.
    abbrev pub IsRefused : Option Input → Error → Type 0
    IsRefused loaded e =
        (read_loaded loaded ≡ err e)
        ⊎ ((snapshot : Option Snapshot) × (read_loaded loaded ≡ ok snapshot)
            × (open_snapshot rt locale_compare random_id stringify options initial snapshot
                ≡ err e))

    -- How the opening of a database ends, by the adapter's answer and how its close would end.
    abbrev pub Opening : Result (Option Input) → Result (Unit {0}) → Result Persistent → Type 0
    Opening answer closed (ok p) =
        (loaded : Option Input) × (snapshot : Option Snapshot) × (answer ≡ ok loaded)
        × (read_loaded loaded ≡ ok snapshot)
        × IsReady p
        × IsLoaded snapshot p
    Opening (err cause) (ok u) (err e) = e ≡ cause
    Opening (err cause) (err x) (err e) = e ≡ Error.storage
    Opening (ok none) (ok u) (err e) = IsRefused none e
    Opening (ok (some x)) (ok u) (err e) =
        (e ≡ Error.corrupt_storage) × ((cause : Error) × IsRefused (some x) cause)
    Opening (ok loaded) (err x) (err e) =
        (e ≡ Error.storage) × ((cause : Error) × IsRefused loaded cause)

    -- A database that open() gives has valid collections that verify() accepts, no task,
    -- no pending snapshot and no event queued, and the state open, at the revision and
    -- generation of the loaded snapshot, or at revision 0 with nothing persisted if
    -- storage was empty; an open() that fails ends in a StorageError if the adapter's
    -- close fails, and else in the adapter's own error where the load failed, in a
    -- CorruptStorageError where a loaded value is no envelope or no database can be made
    -- of it, and in the error that refused the database where storage was empty.
    pub open_database-Opening :
        (answer : Result (Option Input)) (closed : Result (Unit {0}))
        → Opening answer closed
            (open_database rt locale_compare random_id stringify options initial answer closed)
    unfolding open_database
    open_database-Opening (err e) (ok u) = refl
    open_database-Opening (err e) (err x) = refl
    open_database-Opening (ok loaded) closed = elim (Result-cases (read_loaded loaded)) [
      | inr (e, h) ↦ rw h (failed loaded closed e (inl h))
      | inl (snapshot, h) ↦
          elim (Result-cases
            (open_snapshot rt locale_compare random_id stringify options initial snapshot)) [
              | inr (e, g) ↦ rw (h, g) (failed loaded closed e (inr (snapshot, h, g)))
              | inl (p, g) ↦
                  rw (h, g)
                    (let (ready, at) = open_snapshot-IsReady snapshot p g in
                      (loaded, snapshot, refl, h, ready, at))
            ]
    ]
      where
        failed :
            (loaded : Option Input) (closed : Result (Unit {0})) (e : Error)
            → IsRefused loaded e
            → Opening (ok loaded) closed (
                settle_open rt locale_compare random_id stringify options initial closed loaded
                  (err e))
        failed none (ok u) e r = r
        failed none (err x) e r = (refl, (e, r))
        failed (some y) (ok u) e r = (refl, (e, r))
        failed (some y) (err x) e r = (refl, (e, r))
