-- ===== src/Database/Isolation.antt =====
-- What a commit does to the database: isolation, atomicity and the invariant.
use newtondb.Database.Install.{
  IsCurrent, no_conflicts→current, Written, Installed, Outcome, commit_working_installs,
}
use newtondb.Collection.{StoredCollection, WorkingCollection, publish}
use newtondb.Collection.Copies.{publish-IsValid, IsPublished, publish-IsPublished}
use mathlib.Core.Path.{subst}
use newtondb.Collection.Valid.{IsValid}
use newtondb.Database.{Database, commit_working}
use newtondb.Database.Commit.{CommitReceipt, find_conflicts, publish_all}
use newtondb.Errors.{Result, ok, err}
use newtondb.Events.{Change}
use newtondb.Exec.{Ends}
use newtondb.NativeMap
use newtondb.NativeMap.{Entries}
use newtondb.Prelude.{
  ℕ, ◌+◌, ◌≡◌, refl, sym, true, false, some, ◌⊎◌, List, [], ◌∷◌, length, nat_eq, list_eq,
  if◌then◌else◌, arith, Bool-cases, inl, inr, ◌==◌, ◌↔◌, ◌∙◌, ap,
}
use newtondb.Runtime.{Runtime}
use newtondb.Text.{Text}
use newtondb.Transaction.{Collections, Transaction, stored}
use newtondb.Transaction.Sound.{AllStored, AllUsable, IsSound}

-- The collection is among the working ones, under this name.
abbrev pub IsWorking : Text → WorkingCollection → Entries Text WorkingCollection → Type 0
IsWorking name w [] = ⊥
IsWorking name w ((n, v) ∷ working) = ((n == name ≡ true) × (v ≡ w)) ⊎ IsWorking name w working

current→no_conflicts :
    (collections : Collections) (read : Entries Text ℕ)
    → IsCurrent collections read
    → find_conflicts collections read ≡ ok []
unfolding find_conflicts stored
current→no_conflicts collections [] h = refl
current→no_conflicts collections ((name, base) ∷ rest) ((c, found, same), others) =
    rw (found, stored, current→no_conflicts collections rest others) (ground arith)

-- The conflict check of a commit finds nothing exactly when every collection that was read is
-- there with the revision that was noted.
pub find_conflicts_iff :
    (collections : Collections) (read : Entries Text ℕ)
    → (find_conflicts collections read ≡ ok []) ↔ IsCurrent collections read
find_conflicts_iff collections read =
    (no_conflicts→current collections read, current→no_conflicts collections read)

-- A publication leaves every collection alone that the transaction has not written.
pub get-publish_all :
    (revision : ℕ) (working : Entries Text WorkingCollection) (collections : Collections)
    (name : Text)
    → NativeMap.has working name ≡ false
    → NativeMap.get (publish_all revision working collections) name ≡ NativeMap.get collections name
unfolding publish_all NativeMap.has
get-publish_all revision [] collections name h = refl
get-publish_all revision ((n, w) ∷ working) collections name h = elim (Bool-cases (n == name)) [
  | inl e ↦ ground arith
  | inr d ↦
      rw
        (
          get-publish_all revision working (NativeMap.set n (publish revision w) collections) name
              (rw d at h),
          NativeMap.get-set n name (publish revision w) collections,
          d,
        )
        refl
]

module _ (rt : Runtime) where
  pub set-AllStored :
      (collections : Collections) (name : Text) (c : StoredCollection)
      → AllStored rt collections
      → IsValid rt c.contents
      → AllStored rt (NativeMap.set name c collections)
  unfolding NativeMap.set
  set-AllStored [] name c a u = (u, tt)
  set-AllStored ((n, v) ∷ collections) name c a u = elim (Bool-cases (n == name)) [
    | inl e ↦ rw (e, NativeMap.set) (u, a.1)
    | inr d ↦ rw (d, NativeMap.set) (a.0, set-AllStored collections name c a.1 u)
  ]

  publish_all-AllStored :
      (revision : ℕ) (working : Entries Text WorkingCollection) (collections : Collections)
      → AllUsable rt working
      → AllStored rt collections
      → AllStored rt (publish_all revision working collections)
  unfolding publish_all
  publish_all-AllStored revision [] collections u a = a
  publish_all-AllStored revision ((n, w) ∷ working) collections u a =
      publish_all-AllStored revision working _ u.1
        (set-AllStored collections n (publish revision w) a (publish-IsValid rt revision w u.0.0))

  -- A working collection of this name is stored, with this number as its revision.
  abbrev pub IsStored : ℕ → Entries Text WorkingCollection → Text → Collections → Type 0
  IsStored revision working name collections =
      (w : WorkingCollection) × (c : StoredCollection) × IsWorking name w working
      × (NativeMap.get collections name ≡ some c)
      × IsPublished rt revision w c

  -- A collection that was written is stored as the transaction left it, and every other is as before.
  abbrev pub IsPublishedAt :
      ℕ → Entries Text WorkingCollection → Collections → Collections → Text → Type 0
  IsPublishedAt revision working before after name =
      ((NativeMap.has working name ≡ false)
        × (NativeMap.get after name ≡ NativeMap.get before name))
      ⊎ IsStored revision working name after

  publish_all-IsStored :
      (revision : ℕ) (working : Entries Text WorkingCollection) (collections : Collections)
      (name : Text)
      → AllUsable rt working
      → NativeMap.has working name ≡ true
      → IsStored revision working name (publish_all revision working collections)
  unfolding publish_all NativeMap.has
  publish_all-IsStored revision [] collections name u h = absurd (ground arith)
  publish_all-IsStored revision ((n, w) ∷ working) collections name u h =
      elim (Bool-cases (NativeMap.has working name)) [
        | inl later ↦
            let (w', c, among, found, shows) =
              publish_all-IsStored revision working
                (NativeMap.set n (publish revision w) collections) name u.1 later in
            (w', c, inr among, found, shows)
        | inr last ↦ elim (Bool-cases (n == name)) [
          | inl e ↦ (
            w,
            publish revision w,
            inl (e, refl),
            get-publish_all revision working (NativeMap.set n (publish revision w) collections) name
                  last
                ∙ (NativeMap.get-set n name (publish revision w) collections
                    ∙ ap
                        (λ b.
                          if b then some (publish revision w) else NativeMap.get collections name)
                        e),
            publish-IsPublished rt revision w u.0.0,
          )
          | inr d ↦ absurd (ground (arith, h, last, d))
        ]
      ]

  publish_all-IsPublishedAt :
      (revision : ℕ) (working : Entries Text WorkingCollection) (collections : Collections)
      → AllUsable rt working
      → (name : Text)
      → IsPublishedAt revision working collections (publish_all revision working collections) name
  publish_all-IsPublishedAt revision working collections u name =
      elim (Bool-cases (NativeMap.has working name)) [
        | inl h ↦ inr (publish_all-IsStored revision working collections name u h)
        | inr h ↦ inl (h, get-publish_all revision working collections name h)
      ]

  -- What a commit of these changes leaves of the database.
  abbrev pub Published : List Change → Transaction → Database → Database → Type 0
  Published [] t db db' = db' ≡ db
  Published (c ∷ cs) t db db' =
      (db'.revision ≡ db.revision + 1)
      × ((name : Text)
          → IsPublishedAt (db.revision + 1) t.working db.collections db'.collections name)

  Written-Published :
      (t : Transaction) (db db' : Database)
      → IsSound rt t
      → (changes : List Change) → Written rt changes t db db'
      → Published changes t db db'
  Written-Published t db db' s [] w = w
  Written-Published t db db' s (c ∷ cs) (same, next) = (
    next,
    λ name.
        subst (λ x. IsPublishedAt (db.revision + 1) t.working db.collections x name) (sym same)
          (publish_all-IsPublishedAt (db.revision + 1) t.working db.collections s name),
  )

  module _ (id : Text) where
    -- What a successful commit has done.
    pub record Committed (t : Transaction) (db : Database) (receipt : CommitReceipt)
        (db' : Database) : Type 0 where
      pub current : IsCurrent db.collections t.base_revisions
      pub affected : receipt.affected ≡ length t.changes
      pub revision : db'.revision ≡ receipt.revision
      pub published : Published t.changes t db db'

    Installed-Committed :
        (t : Transaction) (db db' : Database) (receipt : CommitReceipt)
        → IsSound rt t
        → Installed rt id t db receipt db'
        → Committed t db receipt db'
    Installed-Committed t db db' receipt s c = record {
      current = c.current;
      affected = c.affected;
      revision = c.revision;
      published = Written-Published t db db' s t.changes c.written;
    }

    -- A commit of a sound transaction that throws leaves the database as it was; one that
    -- returns has found the revision of every collection that the transaction read
    -- unchanged, reports the number of changes, and leaves the database alone if there are
    -- none; otherwise the database has the next revision, a collection that the
    -- transaction has written is stored with that revision, valid, and reads as the
    -- working one did in its records, positions, order and indexes, and every other
    -- collection is as before.
    pub commit_working-Ends :
        (t : Transaction) (db : Database)
        → IsSound rt t
        → Ends
            (λ receipt db'. Committed t db receipt db')
            (λ e db'. db' ≡ db)
            (commit_working rt id t db).0
            (commit_working rt id t db).1
    commit_working-Ends t db s = after _ _ (commit_working_installs rt id t db)
      where
        after :
            (r : Result CommitReceipt) (db' : Database)
            → Outcome rt id t db r db'
            → Ends (λ receipt x. Committed t db receipt x) (λ e x. x ≡ db) r db'
        after (ok receipt) db' c = Installed-Committed t db db' receipt s c
        after (err e) db' same = same

    Installed-AllStored :
        (t : Transaction) (db db' : Database) (receipt : CommitReceipt) (changes : List Change)
        → t.changes ≡ changes
        → AllStored rt db.collections
        → IsSound rt t
        → Installed rt id t db receipt db'
        → AllStored rt db'.collections
    Installed-AllStored t db db' receipt [] h a s c = rw (rw h at c.written) a
    Installed-AllStored t db db' receipt (x ∷ xs) h a s c =
        rw (rw h at c.written).0
          (publish_all-AllStored (db.revision + 1) t.working db.collections s a)

    -- If every stored collection is valid and the transaction is sound, every stored
    -- collection is valid after the commit, whether it returns or throws.
    pub commit_working-AllStored :
        (t : Transaction) (db : Database)
        → AllStored rt db.collections
        → IsSound rt t
        → AllStored rt (commit_working rt id t db).1.collections
    commit_working-AllStored t db a s = after _ _ (commit_working_installs rt id t db)
      where
        after :
            (r : Result CommitReceipt) (db' : Database)
            → Outcome rt id t db r db'
            → AllStored rt db'.collections
        after (ok receipt) db' c = Installed-AllStored t db db' receipt t.changes refl a s c
        after (err e) db' same = rw same a
