-- ===== src/Transaction/Sound.antt =====
-- The invariant of a transaction and of the database's collections, and the steps that all
-- operations share.
use newtondb.Collection.{Contents, StoredCollection, WorkingCollection, working_copy}
use newtondb.Collection.Copies.{working_copy-IsValid}
use newtondb.Collection.Valid.{IsValid, IsOpen}
use newtondb.Errors.{Result, ok, err}
use newtondb.Events.{Change}
use newtondb.Exec.{Exec, Ends, Keeps, Keeps-lift, Keeps-gets, Keeps-bind, lift, gets, pure}
use newtondb.NativeMap
use newtondb.NativeMap.{Entries}
use newtondb.Prelude.{
  ℕ, ◌≡◌, refl, Bool, true, false, Option, none, some, List, [], ◌∷◌, ◌==◌, nat_eq, list_eq, arith,
  if◌then◌else◌, Bool-cases, Option-cases, inl, inr, ◌∙◌, ap,
}
use newtondb.Runtime.{Runtime}
use newtondb.Text.{Text}
use newtondb.Transaction.{
  Transaction, Collections, Act, assert_active, assert_within_limits, count_operation,
  record_operation, stored, note_revision, touch_collection, set_working, open_working, writable,
  in_working, push_change, push_generated,
}

module _ (rt : Runtime) where
  abbrev pub IsUsable : WorkingCollection → Type 0
  IsUsable w = IsValid rt w.contents × IsOpen w.contents

  abbrev pub AllUsable : Entries Text WorkingCollection → Type 0
  AllUsable [] = Unit
  AllUsable ((n, w) ∷ working) = IsUsable w × AllUsable working

  -- The invariant of a transaction.
  abbrev pub IsSound : Transaction → Type 0
  IsSound t = AllUsable t.working

  -- The invariant of the database's collections.
  abbrev pub AllStored : Collections → Type 0
  AllStored [] = Unit
  AllStored ((n, c) ∷ collections) = IsValid rt c.contents × AllStored collections

  get-AllUsable :
      (working : Entries Text WorkingCollection) (name : Text) (w : WorkingCollection)
      → AllUsable working
      → NativeMap.get working name ≡ some w
      → IsUsable w
  unfolding NativeMap.get
  get-AllUsable [] name w a h = cc
  get-AllUsable ((n, v) ∷ working) name w a h = elim (Bool-cases (n == name)) [
    | inl e ↦ rw (← newtondb.Prelude.some-eq (rw e at h)) a.0
    | inr d ↦ get-AllUsable working name w a.1 (rw d at h)
  ]

  set-AllUsable :
      (working : Entries Text WorkingCollection) (name : Text) (w : WorkingCollection)
      → AllUsable working
      → IsUsable w
      → AllUsable (NativeMap.set name w working)
  unfolding NativeMap.set
  set-AllUsable [] name w a u = (u, tt)
  set-AllUsable ((n, v) ∷ working) name w a u = elim (Bool-cases (n == name)) [
    | inl e ↦ rw (e, NativeMap.set) (u, a.1)
    | inr d ↦ rw (d, NativeMap.set) (a.0, set-AllUsable working name w a.1 u)
  ]

  pub get-AllStored :
      (collections : Collections) (name : Text) (c : StoredCollection)
      → AllStored collections
      → NativeMap.get collections name ≡ some c
      → IsValid rt c.contents
  unfolding NativeMap.get
  get-AllStored [] name c a h = cc
  get-AllStored ((n, v) ∷ collections) name c a h = elim (Bool-cases (n == name)) [
    | inl e ↦ rw (← newtondb.Prelude.some-eq (rw e at h)) a.0
    | inr d ↦ get-AllStored collections name c a.1 (rw d at h)
  ]

  abbrev pub Any : {A : Type 0} → A → Type 0
  Any a = Unit

  -- An action that leaves the working collections alone.
  still :
      {A : Type 0} (m : Act A)
      → ((t : Transaction) → (m t).1.working ≡ t.working)
      → Keeps IsSound Any m
  still {A} m h = record { at = λ t s. ends (m t).0 (m t).1 (rw (h t) s) }
    where
      ends :
          (r : Result A) (t' : Transaction)
          → IsSound t'
          → Ends (λ a t''. Any a × IsSound t'') (λ e t''. IsSound t'') r t'
      ends (ok a) t' s = (tt, s)
      ends (err e) t' s = s

  assert_active-Keeps : Keeps IsSound Any assert_active
  unfolding assert_active
  assert_active-Keeps = still assert_active (λ t. refl)

  pub record_operation-Keeps : (now : ℕ) → Keeps IsSound Any (record_operation now)
  unfolding record_operation assert_active assert_within_limits count_operation
  record_operation-Keeps now = still (record_operation now) (λ t. ground arith)

  note_revision-Keeps :
      (name : Text) (c : StoredCollection) → Keeps IsSound Any (note_revision name c)
  unfolding note_revision
  note_revision-Keeps name c = still (note_revision name c) (λ t. ground arith)

  pub push_change-Keeps : (c : Change) → Keeps IsSound Any (push_change c)
  unfolding push_change
  push_change-Keeps c = still (push_change c) (λ t. refl)

  pub push_generated-Keeps :
      (name : Text) (k : Option Text) → Keeps IsSound Any (push_generated name k)
  unfolding push_generated
  push_generated-Keeps name k = still (push_generated name k) (λ t. ground arith)

  assert_within_limits-Keeps : (now : ℕ) → Keeps IsSound Any (assert_within_limits now)
  unfolding assert_within_limits
  assert_within_limits-Keeps now = still (assert_within_limits now) (λ t. refl)

  pub pure-Keeps : {A : Type 0} (Q : A → Type 0) (a : A) → Q a → Keeps IsSound Q (pure a)
  pure-Keeps Q a q = record { at = λ t s. (q, s) }

  -- A change of the contents of a usable collection that leaves it usable at both ends.
  pub in_working-Keeps :
      (name : Text) (w : WorkingCollection) (m : Exec Contents (Unit {0}))
      → IsValid rt (m w.contents).1 × IsOpen (m w.contents).1
      → Keeps IsSound Any (in_working name w m)
  unfolding in_working
  in_working-Keeps name w m u = record {
    at = λ t s.
        ends (m w.contents).0 _
          (set-AllUsable t.working name (record w { contents = (m w.contents).1 }) s u);
  }
    where
      ends :
          (r : Result (Unit {0})) (t' : Transaction)
          → IsSound t'
          → Ends (λ a t''. Any a × IsSound t'') (λ e t''. IsSound t'') r t'
      ends (ok a) t' s = (tt, s)
      ends (err e) t' s = s

  module _ (collections : Collections) (valid : AllStored collections) (now : ℕ) where
    stored-IsValid :
        (name : Text) (c : StoredCollection)
        → stored collections name ≡ ok c
        → IsValid rt c.contents
    unfolding stored
    stored-IsValid name c h = get-AllStored collections name c valid (ground arith)

    touch_collection-Keeps :
        (name : Text)
        → Keeps IsSound (λ c. IsValid rt c.contents) (touch_collection collections now name)
    unfolding touch_collection
    touch_collection-Keeps name = Keeps-bind Any _ assert_active _ assert_active-Keeps λ _ _.
        Keeps-bind Any _ (assert_within_limits now) _ (assert_within_limits-Keeps now) λ _ _.
          Keeps-bind (λ c. stored collections name ≡ ok c) _ (lift (stored collections name)) _
            (Keeps-lift (stored collections name))
            λ c found.
              Keeps-bind Any _ (note_revision name c) _ (note_revision-Keeps name c)
                λ _ _. pure-Keeps _ c (stored-IsValid name c found)

    open_working-Keeps : (name : Text) → Keeps IsSound IsUsable (open_working collections now name)
    unfolding open_working
    open_working-Keeps name =
        Keeps-bind (λ c. IsValid rt c.contents) _ (touch_collection collections now name) _
          (touch_collection-Keeps name)
          λ c v.
            let usable = working_copy-IsValid rt c v in
            Keeps-bind Any _ (set_working name (working_copy c)) _
              (record { at = λ t s. (tt, set-AllUsable t.working name (working_copy c) s usable) })
              λ _ _. pure-Keeps IsUsable (working_copy c) usable

    abbrev UsableIf : Option WorkingCollection → Type 0
    UsableIf none = Unit
    UsableIf (some w) = IsUsable w

    get-UsableIf :
        (t : Transaction) (name : Text)
        → IsSound t
        → (o : Option WorkingCollection) → NativeMap.get t.working name ≡ o
        → UsableIf o
    get-UsableIf t name s none h = tt
    get-UsableIf t name s (some w) h = get-AllUsable t.working name w s h

    pub writable-Keeps : (name : Text) → Keeps IsSound IsUsable (writable collections now name)
    unfolding writable
    writable-Keeps name = Keeps-bind Any _ assert_active _ assert_active-Keeps λ _ _.
        Keeps-bind UsableIf _ (gets (λ t. NativeMap.get t.working name)) _
          (Keeps-gets (λ t. NativeMap.get t.working name) UsableIf
            (λ t s. get-UsableIf t name s (NativeMap.get t.working name) refl))
          choose
      where
        choose :
            (existing : Option WorkingCollection)
            → UsableIf existing
            → Keeps IsSound IsUsable (elim existing [
              | some working ↦ pure working
              | none ↦ open_working collections now name
            ])
        choose none u = open_working-Keeps name
        choose (some w) u = pure-Keeps IsUsable w u
