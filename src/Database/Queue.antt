-- ===== src/Database/Queue.antt =====
-- The event queue of a database under commits and the rounds of its microtask.
use newtondb.Database.{
  Database, require_open, enqueue, dispatch, verify_all, refuse_conflicts, publish_transaction,
  publish_changes, commit_working,
}
use newtondb.Database.Commit.{find_conflicts, publish_all}
use newtondb.Errors.{Result, ok, err, Result-cases}
use newtondb.Events.{ChangeBatch, Change}
use newtondb.Prelude.{
  ℕ, ◌+◌, ◌-◌, ◌≡◌, ◌≤◌, ◌<◌, refl, Bool, true, false, List, [], ◌∷◌, ◌++◌, length, length-append,
  ltb, leb, ◌||◌, if◌then◌else◌, Bool-cases, inl, inr, ◌⊎◌, arith, ap, sym, ◌∙◌,
}
use newtondb.Runtime.{Runtime}
use newtondb.Text.{Text}
use newtondb.Transaction.{Transaction, Collections}

abbrev pub changes_of : List ChangeBatch → ℕ
changes_of [] = 0
changes_of (b ∷ bs) = length b.changes + changes_of bs

-- The revisions of the batches increase, between two bounds.
abbrev pub AreAscending : ℕ → List ChangeBatch → ℕ → Type 0
AreAscending low [] high = Unit
AreAscending low (b ∷ bs) high =
    (low ≤ b.revision) × (b.revision ≤ high) × AreAscending (b.revision + 1) bs high

pub record IsBounded (db : Database) : Type 0 where
  pub batches : length db.event_queue ≤ db.event_limits.max_queued_batches
  pub counted : db.event_queue_changes ≡ changes_of db.event_queue
  pub changes : db.event_queue_changes ≤ db.event_limits.max_queued_changes
  pub scheduled : (db.event_queue ≡ []) ⊎ (db.dispatch_scheduled ≡ true)
  pub ascending : AreAscending 0 db.event_queue db.revision

changes_append :
    (bs : List ChangeBatch) (b : ChangeBatch)
    → changes_of (bs ++ b ∷ []) ≡ changes_of bs + length b.changes
changes_append [] b = omega arith
changes_append (x ∷ bs) b = omega (arith, changes_append bs b)

ascending_append :
    (low : ℕ) (bs : List ChangeBatch) (b : ChangeBatch) (high : ℕ)
    → low ≤ b.revision
    → high < b.revision
    → AreAscending low bs high
    → AreAscending low (bs ++ b ∷ []) b.revision
ascending_append low [] b high l h a = (l, omega arith, tt)
ascending_append low (x ∷ bs) b high l h a = (
  a.0,
  omega (arith, a.1, h),
  ascending_append (x.revision + 1) bs b high (omega (arith, a.1, h)) h a.2,
)

ascending_wider :
    (low : ℕ) (bs : List ChangeBatch) (high higher : ℕ)
    → high ≤ higher
    → AreAscending low bs high
    → AreAscending low bs higher
ascending_wider low [] high higher w a = tt
ascending_wider low (b ∷ bs) high higher w a =
    (a.0, omega (arith, w, a.1), ascending_wider (b.revision + 1) bs high higher w a.2)

ascending_below :
    (lower low : ℕ) (bs : List ChangeBatch) (high : ℕ)
    → lower ≤ low
    → AreAscending low bs high
    → AreAscending lower bs high
ascending_below lower low [] high w a = tt
ascending_below lower low (b ∷ bs) high w a = (omega (arith, w, a.0), a.1, a.2)

-- A database at the next revision, with other collections.
advanced-IsBounded :
    (db : Database) (collections : Collections)
    → IsBounded db
    → IsBounded (record db { collections = collections; revision = db.revision + 1 })
advanced-IsBounded db collections i = record {
  batches = i.batches;
  counted = i.counted;
  changes = i.changes;
  scheduled = i.scheduled;
  ascending =
      ascending_wider 0 db.event_queue db.revision (db.revision + 1) (omega arith) i.ascending;
}

abbrev is_over : Database → ChangeBatch → Bool
is_over db b =
    leb db.event_limits.max_queued_batches (length db.event_queue)
    || ltb db.event_limits.max_queued_changes (db.event_queue_changes + length b.changes)

enqueue_dropped : (b : ChangeBatch) (db : Database) → is_over db b ≡ true → enqueue b db ≡ db
unfolding enqueue
enqueue_dropped b db h = ground arith

enqueue_kept :
    (b : ChangeBatch) (db : Database)
    → is_over db b ≡ false
    → enqueue b db ≡ record db {
      event_queue = db.event_queue ++ b ∷ [];
      event_queue_changes = db.event_queue_changes + length b.changes;
      dispatch_scheduled = true;
    }
unfolding enqueue
enqueue_kept b db h = ground arith

-- A batch of the revision that the database has reached after all others.
enqueue-IsBounded :
    (b : ChangeBatch) (db : Database) (before : ℕ)
    → before < db.revision
    → b.revision ≡ db.revision
    → AreAscending 0 db.event_queue before
    → IsBounded db
    → IsBounded (enqueue b db)
enqueue-IsBounded b db before later same a i = elim (Bool-cases (is_over db b)) [
  | inl h ↦ rw (enqueue_dropped b db h) i
  | inr h ↦ rw (enqueue_kept b db h) (record {
    batches = rw (length-append db.event_queue (b ∷ [])) (ground (arith, h));
    counted = omega (arith, i.counted, changes_append db.event_queue b);
    changes = ground (arith, h);
    scheduled = inr refl;
    ascending =
        ascending_wider 0 (db.event_queue ++ b ∷ []) b.revision db.revision (omega (arith, same))
          (ascending_append 0 db.event_queue b before (omega arith) (omega (arith, later, same)) a);
  })
]

dispatch_last :
    (db : Database)
    → db.event_queue ≡ []
    → (dispatch db).1 ≡ record db { dispatch_scheduled = false }
unfolding dispatch
dispatch_last db h = ground arith

dispatch_first :
    (db : Database) (b : ChangeBatch) (bs : List ChangeBatch)
    → db.event_queue ≡ b ∷ bs
    → (dispatch db).1 ≡ record db {
      event_queue = bs;
      event_queue_changes = db.event_queue_changes - length b.changes;
    }
unfolding dispatch
dispatch_first db b bs h = ground arith

dispatch-IsBounded : (db : Database) → IsBounded db → IsBounded (dispatch db).1
dispatch-IsBounded db i = at db.event_queue refl
  where
    at : (q : List ChangeBatch) → db.event_queue ≡ q → IsBounded (dispatch db).1
    at [] e = rw (dispatch_last db e) (record {
      batches = i.batches;
      counted = i.counted;
      changes = i.changes;
      scheduled = inl e;
      ascending = i.ascending;
    })
    at (b ∷ bs) e =
        let counted : db.event_queue_changes ≡ length b.changes + changes_of bs =
          i.counted ∙ ap changes_of e in
        let ascending : AreAscending 0 (b ∷ bs) db.revision = rw e at i.ascending in
        rw (dispatch_first db b bs e) (record {
          batches = omega (arith, i.batches, ap length e);
          counted = omega (arith, counted);
          changes = omega (arith, i.changes);
          scheduled = remaining i.scheduled;
          ascending = ascending_below 0 (b.revision + 1) bs db.revision (omega arith) ascending.2;
        })
      where
        remaining :
            (db.event_queue ≡ []) ⊎ (db.dispatch_scheduled ≡ true)
            → (bs ≡ []) ⊎ (db.dispatch_scheduled ≡ true)
        remaining (inl f) = absurd (ground (arith, e, f))
        remaining (inr f) = inr f

module _ (rt : Runtime) (id : Text) where
  publish_transaction-IsBounded :
      (t : Transaction) (db : Database)
      → IsBounded db
      → IsBounded (publish_transaction rt id t db).1
  unfolding publish_transaction
  publish_transaction-IsBounded t db i =
      after
        (if db.verify_invariants
          then verify_all rt (publish_all (db.revision + 1) t.working db.collections)
          else ok tt)
        refl
    where
      after :
          (r : Result (Unit {0}))
          → (if db.verify_invariants
              then verify_all rt (publish_all (db.revision + 1) t.working db.collections)
              else ok tt)
            ≡ r
          → IsBounded (publish_transaction rt id t db).1
      after (err e) r = rw r i
      after (ok u) r = rw r (
          enqueue-IsBounded _ _ db.revision (omega arith) refl i.ascending
            (advanced-IsBounded db (publish_all (db.revision + 1) t.working db.collections) i))

  publish_changes-IsBounded :
      (changes : List Change) (t : Transaction) (db : Database)
      → IsBounded db
      → IsBounded (publish_changes rt id changes t db).1
  unfolding publish_changes
  publish_changes-IsBounded [] t db i = i
  publish_changes-IsBounded (c ∷ cs) t db i = publish_transaction-IsBounded t db i

  commit_working-IsBounded :
      (t : Transaction) (db : Database) → IsBounded db → IsBounded (commit_working rt id t db).1
  unfolding commit_working
  commit_working-IsBounded t db i = elim (Result-cases (require_open db.state)) [
    | inr (e, shut) ↦ rw shut i
    | inl (u, usable) ↦ elim (Result-cases (find_conflicts db.collections t.base_revisions)) [
      | inr (e, unknown) ↦ rw (usable, unknown) i
      | inl (names, found) ↦ elim (Result-cases (refuse_conflicts rt id names)) [
        | inr (e, refused) ↦ rw (usable, found, refused) i
        | inl (v, passed) ↦ rw (usable, found, passed) (publish_changes-IsBounded t.changes t db i)
      ]
    ]
  ]

-- What moves the queue: a commit, with whatever outcome, or a round of the microtask.
pub data Turn : Database → Database → Type 0 where
  commits :
      (db : Database) (rt : Runtime) (id : Text) (t : Transaction)
      → Turn db (commit_working rt id t db).1
  dispatches : (db : Database) → Turn db (dispatch db).1

pub data Turns (db : Database) : Database → Type 0 where
  here : Turns db db
  next : {b c : Database} → Turns db b → Turn b c → Turns db c

Turn-IsBounded : {db db' : Database} → Turn db db' → IsBounded db → IsBounded db'
Turn-IsBounded (commits db rt id t) i = commit_working-IsBounded rt id t db i
Turn-IsBounded (dispatches db) i = dispatch-IsBounded db i

-- From a database with an empty event queue, commits with any outcome and rounds of the
-- microtask keep the queued batches and their changes within the limits, the count of changes
-- exact, the dispatch scheduled while a batch is queued, and the revisions of the batches
-- increasing in the order of delivery.
pub Turns-IsBounded :
    {db db' : Database}
    → Turns db db'
    → db.event_queue ≡ []
    → db.event_queue_changes ≡ 0
    → IsBounded db'
Turns-IsBounded {db} here e z = record {
  batches = omega (arith, ap length e);
  counted = z ∙ sym (ap changes_of e);
  changes = omega (arith, z);
  scheduled = inl e;
  ascending = rw e tt;
}
Turns-IsBounded (next ts t) e z = Turn-IsBounded t (Turns-IsBounded ts e z)
