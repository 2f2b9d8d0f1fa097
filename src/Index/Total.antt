-- ===== src/Index/Total.antt =====
-- When `addToIndexes` and `removeFromIndexes` return.
use newtondb.Errors.{Result, ok, err, ok-injective, >>=-eq-ok}
use newtondb.Index.{
  SecondaryIndexState, Indexes, members, index_value, check_unique, plan_addition, plan_additions,
  apply_addition, apply_additions, add_to_indexes, remove_entry, shrink_bucket, remove_from_indexes,
}
use newtondb.Index.Agrees.{Records, filed, IsOk, Agrees, AllAgree}
use newtondb.Index.Buckets.{files}
use newtondb.Json.{Document}
use newtondb.OverlayMap
use newtondb.OverlayMap.Writable.{IsWritable, set_total, delete_total}
use newtondb.Prelude.{
  ◌≡◌, refl, sym, ◌∙◌, true, Option, none, some, List, [], ◌∷◌, ==_refl, ==_iff, nat_eq, list_eq,
  contains, insert, discard, length, nat_beq, arith, Option-cases, Bool-cases, inl, inr,
}
use newtondb.Runtime.{Runtime}
use newtondb.Text.{Text}

abbrev pub AllWritable : Indexes → Type 0
AllWritable [] = Unit
AllWritable ((n, index) ∷ indexes) = IsWritable index.buckets × AllWritable indexes

apply_addition_total :
    (index : SecondaryIndexState) (key : Text) (x : Option Text)
    → IsWritable index.buckets
    → (index' : SecondaryIndexState) × (apply_addition index key x ≡ ok index')
      × IsWritable index'.buckets
unfolding apply_addition
apply_addition_total index key none w = (index, refl, w)
apply_addition_total index key (some e) w =
    let (m, done, w') =
      set_total index.buckets e (insert key (members (OverlayMap.get index.buckets e))) w in
    (record index { buckets = m }, rw done, w')

shrink_bucket_total :
    (index : SecondaryIndexState) (key e : Text) (current : List Text)
    → IsWritable index.buckets
    → (index' : SecondaryIndexState) × (shrink_bucket index key e current ≡ ok index')
      × IsWritable index'.buckets
unfolding shrink_bucket
shrink_bucket_total index key e current w =
    elim (Bool-cases (nat_beq (length (discard key current)) 0)) [
      | inl empty ↦
          let (m, done, w') = delete_total index.buckets e w in
          (record index { buckets = m }, rw (empty, done), w')
      | inr full ↦
          let (m, done, w') = set_total index.buckets e (discard key current) w in
          (record index { buckets = m }, rw (full, done), w')
    ]

remove_entry_total :
    (index : SecondaryIndexState) (key : Text) (x : Option Text)
    → IsWritable index.buckets
    → (index' : SecondaryIndexState) × (remove_entry index key x ≡ ok index')
      × IsWritable index'.buckets
unfolding remove_entry
remove_entry_total index key none w = (index, refl, w)
remove_entry_total index key (some e) w = elim (Option-cases (OverlayMap.get index.buckets e)) [
  | inl missing ↦ (index, rw (missing, remove_entry), w)
  | inr (current, bucket) ↦ rw (bucket, remove_entry) (shrink_bucket_total index key e current w)
]

of_IsOk : (r : Result (Option Text)) → IsOk r → (x : Option Text) × (r ≡ ok x)
of_IsOk (ok x) h = (x, refl)
of_IsOk (err e) h = absurd h

module _ (rt : Runtime) (key : Text) (document : Document) (records : Records) where
  -- The removal of a stored document from writable indexes that agree with the records
  -- returns, and leaves them writable.
  pub remove_from_indexes_total :
      (indexes : Indexes)
      → AllAgree rt records indexes
      → AllWritable indexes
      → records key ≡ some document
      → (indexes' : Indexes) × (remove_from_indexes rt indexes key document ≡ ok indexes')
        × AllWritable indexes'
  unfolding remove_from_indexes
  remove_from_indexes_total [] a w old = ([], refl, tt)
  remove_from_indexes_total ((n, index) ∷ indexes) a w old =
      let (x, value) =
        of_IsOk (index_value rt index.path document) (rw old at (a.0.indexable key)) in
      let (i, done, wi) = remove_entry_total index key x w.0 in
      let (is, rest, ws) = remove_from_indexes_total indexes a.1 w.1 old in
      ((n, i) ∷ is, rw (value, done, rest), (wi, ws))

-- A unique index has no other key than `key` under the document's value.
abbrev pub HasRoom : Runtime → Records → SecondaryIndexState → Text → Document → Type 0
HasRoom rt records index key document =
    (e k : Text)
    → index_value rt index.path document ≡ ok (some e)
    → index.unique ≡ true
    → filed rt index.path (records k) e ≡ true
    → k ≡ key

abbrev pub Fits : Runtime → Records → Indexes → Text → Document → Type 0
Fits rt records [] key document = Unit
Fits rt records ((n, index) ∷ indexes) key document =
    (IsOk (index_value rt index.path document) × HasRoom rt records index key document)
    × Fits rt records indexes key document

module _ (rt : Runtime) (collection key : Text) (document : Document) (records : Records) where
  room_in_bucket :
      (index : SecondaryIndexState) (e : Text) (b : List Text)
      → Agrees rt records index
      → OverlayMap.get index.buckets e ≡ some b
      → ((k : Text) → filed rt index.path (records k) e ≡ true → k ≡ key)
      → contains b key ≡ true
  unfolding contains files
  room_in_bucket index e [] a bucket only = absurd (a.non_empty_buckets e bucket)
  room_in_bucket index e (k ∷ b) a bucket only =
      ground (arith, a.agrees e k, only k, ==_refl k, ==_iff k key)

  plan_addition_total :
      (index : SecondaryIndexState)
      → Agrees rt records index
      → IsOk (index_value rt index.path document)
      → HasRoom rt records index key document
      → (x : Option Text) × (plan_addition rt collection index key document ≡ ok x)
  unfolding plan_addition check_unique
  plan_addition_total index a good room = go (of_IsOk (index_value rt index.path document) good)
    where
      go :
          (x : Option Text) × (index_value rt index.path document ≡ ok x)
          → (x : Option Text) × (plan_addition rt collection index key document ≡ ok x)
      go (none, value) = (none, rw value)
      go (some e, value) = elim (Option-cases (OverlayMap.get index.buckets e)) [
        | inl missing ↦ (some e, ground arith)
        | inr (b, bucket) ↦ elim (Bool-cases index.unique) [
          | inl unique ↦ (
            some e,
            rw value (
                ground (arith, room_in_bucket index e b a bucket (λ k f. room e k value unique f))),
          )
          | inr shared ↦ (some e, ground arith)
        ]
      ]

  plan_additions_total :
      (indexes : Indexes)
      → AllAgree rt records indexes
      → Fits rt records indexes key document
      → (xs : List (Option Text)) × (plan_additions rt collection indexes key document ≡ ok xs)
  unfolding plan_additions
  plan_additions_total [] a f = ([], refl)
  plan_additions_total ((n, index) ∷ indexes) a f =
      let (x, planned) = plan_addition_total index a.0 f.0.0 f.0.1 in
      let (xs, rest) = plan_additions_total indexes a.1 f.1 in (x ∷ xs, rw (planned, rest))

  apply_additions_total :
      (indexes : Indexes) (xs : List (Option Text))
      → AllWritable indexes
      → (indexes' : Indexes) × (apply_additions indexes key xs ≡ ok indexes') × AllWritable indexes'
  unfolding apply_additions
  apply_additions_total [] xs w = ([], refl, tt)
  apply_additions_total ((n, index) ∷ indexes) [] w = ((n, index) ∷ indexes, refl, w)
  apply_additions_total ((n, index) ∷ indexes) (x ∷ xs) w =
      let (i, done, wi) = apply_addition_total index key x w.0 in
      let (is, rest, ws) = apply_additions_total indexes xs w.1 in
      ((n, i) ∷ is, rw (done, rest), (wi, ws))

  -- An addition to writable indexes that agree with the records returns, and leaves them
  -- writable, if the document can be indexed and no other key has its value in a unique
  -- index.
  pub add_to_indexes_total :
      (indexes : Indexes)
      → AllAgree rt records indexes
      → AllWritable indexes
      → Fits rt records indexes key document
      → (indexes' : Indexes) × (add_to_indexes rt collection indexes key document ≡ ok indexes')
        × AllWritable indexes'
  unfolding add_to_indexes
  add_to_indexes_total indexes a w f =
      let (xs, planned) = plan_additions_total indexes a f in
      rw planned (apply_additions_total indexes xs w)

  -- What an addition writes stays writable.
  pub add_to_indexes-AllWritable :
      (indexes indexes' : Indexes)
      → AllWritable indexes
      → add_to_indexes rt collection indexes key document ≡ ok indexes'
      → AllWritable indexes'
  unfolding add_to_indexes
  add_to_indexes-AllWritable indexes indexes' w h =
      let (xs, planned, applied) =
        >>=-eq-ok (plan_additions rt collection indexes key document) _ h in
      let (is, done, ws) = apply_additions_total indexes xs w in
      rw (ok-injective (sym applied ∙ done)) ws
