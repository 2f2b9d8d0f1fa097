-- ===== src/Persistence/Transact.antt =====
-- `Database.transaction` of src/database.ts, and the methods of the class Collection that call it.
-- The caller's callback is an argument, and so are the clock at the start and at the commit.
use newtondb.Database.{DatabaseState, require_open, commit}
use newtondb.Database.Commit.{CommitReceipt}
use newtondb.Errors.{Error, PrimaryKey, Result, ok, err, ◌>>=◌}
use newtondb.Exec.{Exec, lift}
use newtondb.Input.{Input}
use newtondb.Persistence.{Persistent, Awaited, resolved, persist, is_behind}
use newtondb.Prelude.{Bool, true, false, ℕ, Option, none, some, if◌then◌else◌}
use newtondb.Runtime.{Runtime}
use newtondb.Text.{Text}
use newtondb.Transaction.{
  Transaction, Act, begin, Collections, insert, update, delete, assert_active, stored,
}

pub data Durability : Type 0 where
  memory persisted : Durability

pub record TransactionOptions : Type 0 where
  pub allow_volatile_when_degraded : Bool
  pub durability : Option Durability

-- A receipt, the durability that it names, and what is awaited before it is given.
pub record Receipt : Type 0 where
  pub receipt : CommitReceipt
  pub durability : Durability
  pub awaited : Awaited

-- `options.durability ?? (this.#adapter === undefined ? "memory" : "persisted")`
abbrev pub chosen_durability : Option Durability → Bool → Durability
chosen_durability (some durability) has_adapter = durability
chosen_durability none true = Durability.persisted
chosen_durability none false = Durability.memory

unfoldable pub refuse_degraded : DatabaseState → Durability → Bool → Result (Unit {0})
refuse_degraded DatabaseState.degraded Durability.persisted allowed = err Error.persistence
refuse_degraded DatabaseState.degraded Durability.memory false = err Error.persistence
refuse_degraded state durability allowed = ok tt

-- The tests before the callback.
unfoldable pub admit : TransactionOptions → Persistent → Result (Unit {0})
unfolding require_open refuse_degraded
admit options p = do
  _ ← require_open p.database.state
  _ ←
      refuse_degraded p.database.state (chosen_durability options.durability p.has_adapter)
        options.allow_volatile_when_degraded
  if p.callback_active then err Error.transaction_state else ok tt

abbrev pub after_persist : CommitReceipt → Result Awaited → Persistent → Result Receipt × Persistent
after_persist receipt (ok awaited) p =
    (ok (record { receipt = receipt; durability = Durability.persisted; awaited = awaited }), p)
after_persist receipt (err e) p = (err e, p)

-- The method after the commit.
unfoldable pub make_durable : Durability → CommitReceipt → Exec Persistent Receipt
unfolding persist
make_durable Durability.memory receipt p =
    (ok (record { receipt = receipt; durability = Durability.memory; awaited = resolved }), p)
make_durable Durability.persisted receipt p =
    if p.has_adapter
    then (if is_behind p.persisted_revision receipt.revision
        then after_persist receipt (persist receipt.revision p).0 (persist receipt.revision p).1
        else (
          ok (record { receipt = receipt; durability = Durability.persisted; awaited = resolved }),
          p,
        ))
    else (ok (record { receipt = receipt; durability = Durability.memory; awaited = resolved }), p)

abbrev pub after_commit :
    Durability → Result CommitReceipt → Persistent → Result Receipt × Persistent
unfolding make_durable
after_commit durability (ok receipt) p = make_durable durability receipt p
after_commit durability (err e) p = (err e, p)

abbrev pub default_options : TransactionOptions
default_options = record { allow_volatile_when_degraded = false; durability = none }

-- An operation behind transaction.collection(name).
unfoldable pub on_collection : {A : Type 0} → Text → (Collections → Act A) → Collections → Act A
unfolding assert_active stored
on_collection name operation collections =
    newtondb.Exec.◌>>=◌ assert_active
      λ u. newtondb.Exec.◌>>=◌ (lift (stored collections name)) λ c. operation collections

-- The caller's callback: what it returns or throws (`true` for a promise), the transaction and the
-- database after it.
abbrev pub Callback : Type 0
Callback = Transaction → Persistent → Result Bool × Transaction × Persistent

module _ (rt : Runtime) (id : Text) (started now : ℕ) where
  -- What follows the callback; a rollback leaves the database as it is.
  unfoldable pub after_callback :
      Durability → Result Bool → Transaction → Persistent → Result Receipt × Persistent
  unfolding commit make_durable
  after_callback durability (err e) t p = (err e, p)
  after_callback durability (ok true) t p = (err Error.transaction_callback, p)
  after_callback durability (ok false) t p =
      let (r, t', db) = commit rt id now t p.database in
      after_commit durability r (record p { database = db })

  -- transaction(callback, options)
  unfoldable pub transaction : Callback → TransactionOptions → Exec Persistent Receipt
  unfolding admit after_callback begin
  transaction callback options p = elim (admit options p) [
    | err e ↦ (err e, p)
    | ok u ↦
        let (r, t, p') =
          callback (begin p.database.transaction_limits started)
            (record p { callback_active = true }) in
        after_callback (chosen_durability options.durability p.has_adapter) r t
          (record p' { callback_active = false })
  ]

abbrev returned : {A : Type 0} → Result A → Result Bool
returned (ok a) = ok false
returned (err e) = err e

-- A callback of one operation on a collection of the transaction, without a promise.
abbrev pub operation_of : {A : Type 0} → Text → (Collections → Act A) → Callback
operation_of name operation t p =
    let (r, t') = on_collection name operation p.database.collections t in (returned r, t', p)

module _ (rt : Runtime) (id : Text) (started now : ℕ) (name : Text) where
  -- insert(document) and upsert(document) of a collection
  unfoldable pub collection_insert : Input → Bool → Text → Exec Persistent Receipt
  unfolding transaction insert
  collection_insert document upsert fresh =
      transaction rt id started now
        (operation_of name λ collections. insert rt collections now name document upsert fresh)
        default_options

  -- update(primaryKey, patch) of a collection
  unfoldable pub collection_update : PrimaryKey → Input → Exec Persistent Receipt
  unfolding transaction update
  collection_update primary_key patch =
      transaction rt id started now
        (operation_of name λ collections. update rt collections now name primary_key patch)
        default_options

  -- delete(primaryKey) of a collection
  unfoldable pub collection_delete : PrimaryKey → Exec Persistent Receipt
  unfolding transaction delete
  collection_delete primary_key =
      transaction rt id started now
        (operation_of name λ collections. delete rt collections now name primary_key)
        default_options
