-- ===== src/Persistence/Queue.antt =====
-- The queue of snapshots under every step of the database.
use newtondb.Database.{Database}
use newtondb.Errors.{ok}
use newtondb.Json.{Document}
use newtondb.NativeMap
use newtondb.NativeMap.{Entries, present}
use newtondb.Persistence.{Task, Phase, idle, storing, settled, Persistent, queue_task, is_ticket}
use newtondb.Prelude.{
  ℕ, ◌+◌, ◌≡◌, ◌≤◌, ◌<◌, refl, sym, ap, ◌∙◌, none, List, [], ◌∷◌, ◌++◌, map, length, length-append,
  nat_eq, if◌then◌else◌, inl, inr, ◌⊎◌, arith,
}
use newtondb.Storage.Envelope.{clone_snapshot_collections, tables_of}
use newtondb.Text.{Text}

-- The revisions of the tasks increase, between two bounds.
abbrev pub AreAscending : ℕ → List Task → ℕ → Type 0
AreAscending low [] high = Unit
AreAscending low (t ∷ ts) high =
    (low ≤ t.revision) × (t.revision ≤ high) × AreAscending (t.revision + 1) ts high

-- A task of the current revision has the documents of the current collections.
abbrev pub AreCurrent : List Task → Database → Type 0
AreCurrent [] db = Unit
AreCurrent (t ∷ ts) db =
    (t.revision ≡ db.revision → clone_snapshot_collections db.collections ≡ ok t.collections)
    × AreCurrent ts db

-- What the adapter has is the snapshot of the first task, under the next generation.
abbrev pub IsRunning : Phase → ℕ → List Task → Type 0
IsRunning idle generation ts = Unit
IsRunning (storing s) generation [] = ⊥
IsRunning (storing s) generation (t ∷ ts) =
    (s.revision ≡ t.revision)
    × (s.collections ≡ tables_of t.collections)
    × (s.generation ≡ generation + 1)
IsRunning settled generation [] = ⊥
IsRunning settled generation (t ∷ ts) = Unit

abbrev pub filed : Task → ℕ × ℕ
filed t = (t.revision, t.ticket)

pub record IsQueued (p : Persistent) : Type 0 where
  pub counted : length p.tasks ≤ p.pending_persistence
  pub bounded : p.pending_persistence ≤ p.max_pending_snapshots
  pub ascending : AreAscending 0 p.tasks p.database.revision
  pub current : AreCurrent p.tasks p.database
  pub listed : p.by_revision ≡ map filed p.tasks
  pub running : IsRunning p.phase p.generation p.tasks

ascending_wider :
    (low : ℕ) (ts : List Task) (high higher : ℕ)
    → high ≤ higher
    → AreAscending low ts high
    → AreAscending low ts higher
ascending_wider low [] high higher w a = tt
ascending_wider low (t ∷ ts) high higher w a =
    (a.0, omega (arith, w, a.1), ascending_wider (t.revision + 1) ts high higher w a.2)

pub ascending_below :
    (lower low : ℕ) (ts : List Task) (high : ℕ)
    → lower ≤ low
    → AreAscending low ts high
    → AreAscending lower ts high
ascending_below lower low [] high w a = tt
ascending_below lower low (t ∷ ts) high w a = (omega (arith, w, a.0), a.1, a.2)

-- No task has a revision that the database has yet to reach.
current_later :
    (low : ℕ) (ts : List Task) (db db' : Database)
    → AreAscending low ts db.revision
    → db.revision < db'.revision
    → AreCurrent ts db'
current_later low [] db db' a w = tt
current_later low (t ∷ ts) db db' a w =
    (λ e. absurd (omega (arith, e, w, a.1)), current_later (t.revision + 1) ts db db' a.2 w)

pub current_same :
    (ts : List Task) (db db' : Database)
    → db'.revision ≡ db.revision
    → db'.collections ≡ db.collections
    → AreCurrent ts db
    → AreCurrent ts db'
current_same [] db db' r c a = tt
current_same (t ∷ ts) db db' r c a =
    (λ e. ap clone_snapshot_collections c ∙ a.0 (e ∙ r), current_same ts db db' r c a.1)

pub get-filed_absent :
    (n low : ℕ) (ts : List Task) (high : ℕ)
    → n < low
    → AreAscending low ts high
    → NativeMap.get (map filed ts) n ≡ none
unfolding NativeMap.get
get-filed_absent n low [] high w a = refl
get-filed_absent n low (t ∷ ts) high w a =
    ground (arith, w, a.0, get-filed_absent n (t.revision + 1) ts high (omega (arith, w, a.0)) a.2)

ascending_append :
    (low : ℕ) (ts : List Task) (t : Task)
    → low ≤ t.revision
    → AreAscending low ts t.revision
    → NativeMap.get (map filed ts) t.revision ≡ none
    → AreAscending low (ts ++ t ∷ []) t.revision
unfolding NativeMap.get
ascending_append low [] t b a h = (b, omega arith, tt)
ascending_append low (u ∷ ts) t b a h =
    let other : u.revision < t.revision = ground (arith, a.1, h) in
    (
      a.0,
      a.1,
      ascending_append (u.revision + 1) ts t (omega (arith, other)) a.2 (ground (arith, other, h)),
    )

set-filed :
    (ts : List Task) (t : Task)
    → NativeMap.get (map filed ts) t.revision ≡ none
    → NativeMap.set t.revision t.ticket (map filed ts) ≡ map filed (ts ++ t ∷ [])
unfolding NativeMap.get NativeMap.set
set-filed [] t h = refl
set-filed (u ∷ ts) t h = ground (arith, h, set-filed ts t)

pub delete-filed :
    (n : ℕ) (ts : List Task)
    → NativeMap.get (map filed ts) n ≡ none
    → NativeMap.delete n (map filed ts) ≡ map filed ts
unfolding NativeMap.get NativeMap.delete
delete-filed n [] h = refl
delete-filed n (u ∷ ts) h = ground (arith, h, delete-filed n ts)

-- A change of the database alone that keeps the queue: the same collections at the same revision,
-- or a later revision.
pub database-IsQueued :
    (p : Persistent) (db : Database)
    → ((db.revision ≡ p.database.revision) × (db.collections ≡ p.database.collections))
      ⊎ (p.database.revision < db.revision)
    → IsQueued p
    → IsQueued (record p { database = db })
database-IsQueued p db moved q = record {
  counted = q.counted;
  bounded = q.bounded;
  ascending = elim moved [
    | inl (r, c) ↦ rw r q.ascending
    | inr w ↦
        ascending_wider 0 p.tasks p.database.revision db.revision (omega (arith, w)) q.ascending
  ];
  current = elim moved [
    | inl (r, c) ↦ current_same p.tasks p.database db r c q.current
    | inr w ↦ current_later 0 p.tasks p.database db q.ascending w
  ];
  listed = q.listed;
  running = q.running;
}

pub queue_task-IsQueued :
    (p : Persistent) (collections : Entries Text (List Document))
    → NativeMap.get p.by_revision p.database.revision ≡ none
    → p.pending_persistence < p.max_pending_snapshots
    → clone_snapshot_collections p.database.collections ≡ ok collections
    → IsQueued p
    → IsQueued (
        queue_task p.database.revision
          (record p { pending_persistence = p.pending_persistence + 1 })
          collections)
queue_task-IsQueued p collections h room taken q =
    let t : Task = record {
      ticket = p.tickets;
      revision = p.database.revision;
      collections = collections;
    } in
    record {
      counted = rw (length-append p.tasks (t ∷ [])) (omega (arith, q.counted));
      bounded = omega (arith, room);
      ascending =
          ascending_append 0 p.tasks t (omega arith) q.ascending
            (ap (λ m. NativeMap.get m p.database.revision) (sym q.listed) ∙ h);
      current = current_append p.tasks t p.database q.current taken;
      listed =
          ap (NativeMap.set p.database.revision p.tickets) q.listed
          ∙ set-filed p.tasks t (ap (λ m. NativeMap.get m p.database.revision) (sym q.listed) ∙ h);
      running = running_append p.phase p.generation p.tasks t q.running;
    }
  where
    current_append :
        (ts : List Task) (t : Task) (db : Database)
        → AreCurrent ts db
        → clone_snapshot_collections db.collections ≡ ok t.collections
        → AreCurrent (ts ++ t ∷ []) db
    current_append [] t db a h = (λ e. h, tt)
    current_append (u ∷ ts) t db a h = (a.0, current_append ts t db a.1 h)

    running_append :
        (f : Phase) (g : ℕ) (ts : List Task) (t : Task)
        → IsRunning f g ts
        → IsRunning f g (ts ++ t ∷ [])
    running_append idle g ts t r = tt
    running_append (storing s) g [] t r = absurd r
    running_append (storing s) g (u ∷ ts) t r = r
    running_append settled g [] t r = absurd r
    running_append settled g (u ∷ ts) t r = tt

-- The first task is filed under its own ticket, and is taken out.
pub release-filed :
    (t : Task) (ts : List Task) (low high : ℕ)
    → AreAscending low (t ∷ ts) high
    → (if is_ticket (NativeMap.get (map filed (t ∷ ts)) t.revision) t.ticket
        then NativeMap.delete t.revision (map filed (t ∷ ts))
        else map filed (t ∷ ts))
      ≡ map filed ts
unfolding NativeMap.get NativeMap.delete
release-filed t ts low high a =
    let absent = get-filed_absent t.revision (t.revision + 1) ts high (omega arith) a.2 in
    ground (arith, delete-filed t.revision ts absent)
