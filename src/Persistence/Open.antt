-- ===== src/Persistence/Open.antt =====
-- The constructor and `open` of the class Database of src/database.ts. A generated identity, what
-- the adapter loads and how its `close` ends are arguments.
use newtondb.Collection.Create.{create_stored_collection}
use newtondb.Database.{Database, DatabaseState, EventLimits, verify}
use newtondb.Database.Order.{Sign}
use newtondb.Errors.{Error, Result, ok, err, invalid_argument, ◌>>=◌}
use newtondb.Input.{Input, Elements, Properties, own_keys, own_value}
use newtondb.Json.Clone.{resolve_limit, resolve_json_limits}
use newtondb.NativeMap
use newtondb.NativeMap.{Entries, present}
use newtondb.Number.{Number}
use newtondb.Persistence.{Persistent, with_storage}
use newtondb.Prelude.{
  ℕ, Bool, false, Option, none, some, List, [], ◌∷◌, nat_eq, list_eq, map, if◌then◌else◌,
}
use newtondb.Runtime.{Runtime}
use newtondb.Schema.{CollectionSchema}
use newtondb.Storage.{Snapshot, create_catalog, catalogs_equal}
use newtondb.Storage.Envelope.{read_envelope}
use newtondb.Text.{Text}
use newtondb.Transaction.{Collections, TransactionLimits}

-- The documents of each collection; `none` is undefined.
abbrev pub Seed : Type 0
Seed = Entries Text (Option (List Input))

-- DatabaseOptions, with the overrides of each group of limits
pub record DatabaseOptions : Type 0 where
  pub include_documents : Bool
  pub verify_invariants : Bool
  pub schema : Entries Text CollectionSchema
  pub max_queued_batches : Option Number
  pub max_queued_changes : Option Number
  pub max_pending_snapshots : Option Number
  pub max_age_ms : Option Number
  pub max_operations : Option Number
  pub max_read_collections : Option Number

unfoldable pub resolve_event_limits : DatabaseOptions → Result EventLimits
unfolding resolve_limit
resolve_event_limits o = do
  batches ← resolve_limit 1024 o.max_queued_batches
  changes ← resolve_limit 100000 o.max_queued_changes
  ok (record { max_queued_batches = batches; max_queued_changes = changes })

unfoldable pub resolve_persistence_limits : DatabaseOptions → Result ℕ
unfolding resolve_limit
resolve_persistence_limits o = resolve_limit 256 o.max_pending_snapshots

unfoldable pub resolve_transaction_limits : DatabaseOptions → Result TransactionLimits
unfolding resolve_limit
resolve_transaction_limits o = do
  age ← resolve_limit 30000 o.max_age_ms
  operations ← resolve_limit 10000 o.max_operations
  collections ← resolve_limit 1000 o.max_read_collections
  ok (record { max_age_ms = age; max_operations = operations; max_read_collections = collections })

-- `if (documents === undefined || schema === undefined)`
unfoldable pub require_data :
    Option (List Input) → Option CollectionSchema → Result (List Input × CollectionSchema)
require_data (some documents) (some schema) = ok (documents, schema)
require_data documents schema = err invalid_argument

-- The loop over the names of the schema.
unfoldable pub require_known : Seed → Entries Text CollectionSchema → Result (Unit {0})
unfolding NativeMap.has
require_known seed [] = ok tt
require_known seed ((name, schema) ∷ rest) =
    if NativeMap.has seed name then require_known seed rest else err invalid_argument

-- What the constructor takes of a stored database.
pub record Stored : Type 0 where
  pub database_id : Text
  pub generation : ℕ
  pub revision : ℕ

abbrev pub stored_of : Snapshot → Stored
stored_of s = record {
  database_id = s.database_id;
  generation = s.generation;
  revision = s.revision;
}

-- `loaded ?? undefined`
abbrev pub stored_at : Option Snapshot → Option Stored
stored_at none = none
stored_at (some s) = some (stored_of s)

abbrev pub revision_of : Option Stored → ℕ
revision_of none = 0
revision_of (some s) = s.revision

abbrev pub id_of : Text → Option Stored → Text
id_of random_id none = random_id
id_of random_id (some s) = s.database_id

-- The database that the constructor makes, its catalog and its limit of pending snapshots.
pub record Constructed : Type 0 where
  pub database : Database
  pub catalog : Input
  pub max_pending_snapshots : ℕ

-- A loaded value must be an envelope.
unfoldable pub read_loaded : Option Input → Result (Option Snapshot)
unfolding read_envelope
read_loaded none = ok none
read_loaded (some x) = elim (read_envelope x) [
  | none ↦ err Error.corrupt_storage
  | some snapshot ↦ ok (some snapshot)
]

abbrev pub elements_list : Elements → List Input
elements_list Elements.nil = []
elements_list Elements.others = []
elements_list (Elements.hole es) = Input.undefined ∷ elements_list es
elements_list (Elements.item x es) = x ∷ elements_list es
elements_list (Elements.getter x es) = x ∷ elements_list es

abbrev pub documents_at : Option Input → Option (List Input)
documents_at (some (Input.array es)) = some (elements_list es)
documents_at x = none

-- The collections of a snapshot as the constructor reads them.
unfoldable pub seed_of : Properties → Seed
seed_of ps = map (λ name. (name, documents_at (own_value ps name))) (own_keys ps)

-- `loaded?.collections ?? options.initialData`
unfoldable pub choose_seed : Option Seed → Option Snapshot → Result Seed
unfolding seed_of
choose_seed initial (some snapshot) = ok (seed_of snapshot.collections)
choose_seed none none = err invalid_argument
choose_seed (some seed) none = ok seed

module _ (rt : Runtime) where
  -- The loop over the names of the seed.
  unfoldable pub build_collections :
      Entries Text CollectionSchema → ℕ → Seed → Collections → Result Collections
  unfolding require_data
  build_collections schema revision [] collections = ok collections
  build_collections schema revision ((name, documents) ∷ seed) collections = do
    given ← require_data documents (NativeMap.get schema name)
    _ ← resolve_json_limits given.1.limits
    collection ← create_stored_collection rt name given.0 given.1 revision
    build_collections schema revision seed (NativeMap.set name collection collections)

module _ (rt : Runtime) (locale_compare : Text → Text → Sign) (random_id : Text) where
  -- new Database(seed, options, stored)
  unfoldable pub new_database : Seed → DatabaseOptions → Option Stored → Result Constructed
  unfolding resolve_event_limits resolve_persistence_limits resolve_transaction_limits
      build_collections require_known
  new_database seed options stored = do
    event_limits ← resolve_event_limits options
    persistence_limit ← resolve_persistence_limits options
    transaction_limits ← resolve_transaction_limits options
    catalog ← create_catalog locale_compare options.schema
    collections ← build_collections rt options.schema (revision_of stored) seed []
    _ ← require_known seed options.schema
    let db : Database = record {
      id = id_of random_id stored;
      collections = collections;
      event_queue = [];
      event_queue_changes = 0;
      event_limits = event_limits;
      dispatch_scheduled = false;
      listener_id = 0;
      listeners = [];
      revision = revision_of stored;
      state = DatabaseState.opened;
      include_documents = options.include_documents;
      verify_invariants = options.verify_invariants;
      transaction_limits = transaction_limits;
    }
    _ ← verify rt db
    ok (record { database = db; catalog = catalog; max_pending_snapshots = persistence_limit })

  -- Database.memory(seed, options)
  unfoldable pub memory_database : Seed → DatabaseOptions → Result Persistent
  unfolding new_database with_storage
  memory_database seed options = do
    c ← new_database seed options none
    ok (record (with_storage c.database c.catalog none c.max_pending_snapshots) {
      has_adapter = false;
      persisted_revision = some 0;
    })

  -- `stringify` is JSON.stringify.
  module _ (stringify : Input → Text) (options : DatabaseOptions) (initial : Option Seed) where
    abbrev pub require_catalog : Option Snapshot → Input → Result (Unit {0})
    require_catalog none expected = ok tt
    require_catalog (some snapshot) expected =
        if catalogs_equal stringify snapshot.catalog expected
        then ok tt
        else err Error.corrupt_storage

    -- The try block after the load.
    unfoldable pub open_snapshot : Option Snapshot → Result Persistent
    unfolding catalogs_equal choose_seed new_database with_storage
    open_snapshot loaded = do
      expected ← create_catalog locale_compare options.schema
      _ ← require_catalog loaded expected
      seed ← choose_seed initial loaded
      c ← new_database seed options (stored_at loaded)
      ok (with_storage c.database c.catalog loaded c.max_pending_snapshots)

    -- `primary` of the catch block, for a loaded value that is not null
    abbrev pub primary_error : Option Input → Error → Error
    primary_error none e = e
    primary_error (some x) e = Error.corrupt_storage

    -- The catch block, by how the adapter's `close` ends.
    abbrev pub clean_up : Result (Unit {0}) → Error → Result Persistent
    clean_up (ok u) e = err e
    clean_up (err x) e = err Error.storage

    abbrev pub settle_open :
        Result (Unit {0}) → Option Input → Result Persistent → Result Persistent
    settle_open closed loaded (ok p) = ok p
    settle_open closed loaded (err e) = clean_up closed (primary_error loaded e)

    -- Database.open(options), by what the adapter's `load` gives and how its `close` ends
    unfoldable pub open_database : Result (Option Input) → Result (Unit {0}) → Result Persistent
    unfolding read_loaded open_snapshot
    open_database (err e) closed = clean_up closed e
    open_database (ok loaded) closed =
        settle_open closed loaded (do snapshot ← read_loaded loaded; open_snapshot snapshot)
