-- ===== src/Database/Install.antt =====
-- How a commit computes the database: every branch of `_commit`.
use newtondb.Collection.{StoredCollection}
use newtondb.Database.{
  Database, require_open, enqueue, verify_all, refuse_conflicts, publish_transaction,
  publish_changes, commit_working,
}
use newtondb.Database.Commit.{CommitReceipt, find_conflicts, publish_all, event_change}
use newtondb.Errors.{Result, ok, err, >>=-eq-ok, Result-cases}
use newtondb.Events.{ChangeBatch, Change}
use newtondb.Exec.{Ends}
use newtondb.NativeMap
use newtondb.NativeMap.{Entries}
use newtondb.Prelude.{
  ℕ, ◌+◌, ◌≡◌, refl, some, List, [], ◌∷◌, length, nat_eq, list_eq, if◌then◌else◌, arith, inl, inr,
  map, ◌∙◌, ap,
}
use newtondb.Runtime.{Runtime}
use newtondb.Text.{Text}
use newtondb.Transaction.{Collections, Transaction, stored}

-- Every collection that was read still has the revision that was noted.
abbrev pub IsCurrent : Collections → Entries Text ℕ → Type 0
IsCurrent collections [] = Unit
IsCurrent collections ((name, base) ∷ rest) =
    ((c : StoredCollection) × (NativeMap.get collections name ≡ some c) × (c.revision ≡ base))
    × IsCurrent collections rest

pub no_conflicts→current :
    (collections : Collections) (read : Entries Text ℕ)
    → find_conflicts collections read ≡ ok []
    → IsCurrent collections read
unfolding find_conflicts
no_conflicts→current collections [] h = tt
no_conflicts→current collections ((name, base) ∷ rest) h =
    let (c, found, p) = >>=-eq-ok (stored collections name) _ h in
    let (names, others, q) = >>=-eq-ok (find_conflicts collections rest) _ p in
    (
      (c, unfold stored in ground arith, ground arith),
      no_conflicts→current collections rest (ground arith),
    )

module _ (rt : Runtime) where
  -- What a commit of these changes computes.
  abbrev pub Written : List Change → Transaction → Database → Database → Type 0
  Written [] t db db' = db' ≡ db
  Written (c ∷ cs) t db db' =
      (db'.collections ≡ publish_all (db.revision + 1) t.working db.collections)
      × (db'.revision ≡ db.revision + 1)

  Written-some :
      (t : Transaction) (db db' : Database) (changes : List Change) (c : Change) (cs : List Change)
      → changes ≡ c ∷ cs
      → Written (c ∷ cs) t db db'
      → Written changes t db db'
  Written-some t db db' changes c cs h w = rw h w

  module _ (id : Text) where
    -- How a successful commit has computed the database.
    pub record Installed (t : Transaction) (db : Database) (receipt : CommitReceipt)
        (db' : Database) : Type 0 where
      pub current : IsCurrent db.collections t.base_revisions
      pub affected : receipt.affected ≡ length t.changes
      pub revision : db'.revision ≡ receipt.revision
      pub written : Written t.changes t db db'

    enqueue_keeps :
        (b : ChangeBatch) (db : Database)
        → ((enqueue b db).collections ≡ db.collections) × ((enqueue b db).revision ≡ db.revision)
    unfolding enqueue
    enqueue_keeps b db = ground arith

    abbrev pub Outcome : Transaction → Database → Result CommitReceipt → Database → Type 0
    Outcome t db = Ends (λ receipt db'. Installed t db receipt db') (λ e db'. db' ≡ db)

    publish_transaction_ends :
        (t : Transaction) (db : Database) (c : Change) (cs : List Change)
        → t.changes ≡ c ∷ cs
        → IsCurrent db.collections t.base_revisions
        → Outcome t db (publish_transaction rt id t db).0 (publish_transaction rt id t db).1
    unfolding publish_transaction
    publish_transaction_ends t db c cs h current =
        after
          (if db.verify_invariants
            then verify_all rt (publish_all (db.revision + 1) t.working db.collections)
            else ok tt)
          refl
      where
        after :
            (r : Result (Unit {0}))
            → (if db.verify_invariants
                then verify_all rt (publish_all (db.revision + 1) t.working db.collections)
                else ok tt)
              ≡ r
            → Outcome t db (publish_transaction rt id t db).0 (publish_transaction rt id t db).1
        after (err e) r = rw r refl
        after (ok u) r = rw r (
            let (same, next) =
              enqueue_keeps
                (record {
                  changes = map (event_change db.include_documents) t.changes;
                  database_id = db.id;
                  revision = db.revision + 1;
                  transaction_id = id;
                })
                (record db {
                  collections = publish_all (db.revision + 1) t.working db.collections;
                  revision = db.revision + 1;
                }) in
            record {
              current = current;
              affected = refl;
              revision = next;
              written = Written-some t db _ t.changes c cs h (same, next);
            })

    publish_changes_ends :
        (t : Transaction) (db : Database) (changes : List Change)
        → t.changes ≡ changes
        → IsCurrent db.collections t.base_revisions
        → Outcome t db (publish_changes rt id changes t db).0 (publish_changes rt id changes t db).1
    unfolding publish_changes
    publish_changes_ends t db [] h current = record {
      current = current;
      affected = rw h refl;
      revision = refl;
      written = rw h refl;
    }
    publish_changes_ends t db (c ∷ cs) h current = publish_transaction_ends t db c cs h current

    refuse_conflicts-eq : (names : List Text) → refuse_conflicts rt id names ≡ ok tt → names ≡ []
    unfolding refuse_conflicts
    refuse_conflicts-eq [] h = refl
    refuse_conflicts-eq (n ∷ ns) h = cc

    pub commit_working_installs :
        (t : Transaction) (db : Database)
        → Outcome t db (commit_working rt id t db).0 (commit_working rt id t db).1
    unfolding commit_working
    commit_working_installs t db = elim (Result-cases (require_open db.state)) [
      | inr (e, shut) ↦ rw shut refl
      | inl (u, usable) ↦ elim (Result-cases (find_conflicts db.collections t.base_revisions)) [
        | inr (e, unknown) ↦ rw (usable, unknown) refl
        | inl (names, found) ↦ elim (Result-cases (refuse_conflicts rt id names)) [
          | inr (e, refused) ↦ rw (usable, found, refused) refl
          | inl (v, passed) ↦
              rw (usable, found, passed)
                (publish_changes_ends t db t.changes refl (
                  no_conflicts→current db.collections t.base_revisions
                    (found ∙ ap ok (refuse_conflicts-eq names passed))))
        ]
      ]
    ]
