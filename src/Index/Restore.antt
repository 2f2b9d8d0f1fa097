-- ===== src/Index/Restore.antt =====
-- The addition of a document that has been removed, for the error path of `_insert` and
-- `_update`.
use newtondb.Errors.{ok, ok-injective, >>=-eq-ok}
use newtondb.Index.{SecondaryIndexState, Indexes, index_value, remove_entry, remove_from_indexes}
use newtondb.Index.Agrees.{Records, with_record, Agrees, AllAgree}
use newtondb.Index.Buckets.{shrink_bucket-Edited}
use newtondb.Index.Total.{HasRoom, Fits}
use newtondb.Json.{Document}
use newtondb.OverlayMap
use newtondb.Prelude.{
  ◌≡◌, refl, Option, none, some, [], ◌∷◌, ==_refl, ==_iff, nat_eq, list_eq, arith, Option-cases,
  inl, inr,
}
use newtondb.Runtime.{Runtime}
use newtondb.Text.{Text}

remove_entry_keeps :
    (index index' : SecondaryIndexState) (key : Text) (x : Option Text)
    → remove_entry index key x ≡ ok index'
    → (index'.path ≡ index.path) × (index'.unique ≡ index.unique)
unfolding remove_entry
remove_entry_keeps index index' key none h = rw (← ok-injective h) (refl, refl)
remove_entry_keeps index index' key (some e) h =
    elim (Option-cases (OverlayMap.get index.buckets e)) [
      | inl missing ↦ rw (← ok-injective (rw (missing, remove_entry) at h)) (refl, refl)
      | inr (current, bucket) ↦
          let edited = shrink_bucket-Edited index key e current (rw (bucket, remove_entry) at h) in
          (edited.path, edited.unique)
    ]

module _ (rt : Runtime) (key : Text) (document : Document) (records : Records) where
  removed-HasRoom :
      (index : SecondaryIndexState)
      → Agrees rt records index
      → records key ≡ some document
      → HasRoom rt (with_record key none records) index key document
  removed-HasRoom index a old e k value unique f =
      ground
        (arith, a.distinct e k key unique, a.agrees e k, a.agrees e key, ==_iff key k, ==_refl e)

  pub remove_from_indexes-Fits :
      (indexes indexes' : Indexes)
      → AllAgree rt records indexes
      → records key ≡ some document
      → remove_from_indexes rt indexes key document ≡ ok indexes'
      → Fits rt (with_record key none records) indexes' key document
  unfolding remove_from_indexes
  remove_from_indexes-Fits [] indexes' a old h = rw (← ok-injective h) tt
  remove_from_indexes-Fits ((n, index) ∷ indexes) indexes' a old h =
      let (x, value, p) = >>=-eq-ok (index_value rt index.path document) _ h in
      let (i, removed, q) = >>=-eq-ok (remove_entry index key x) _ p in
      let (is, rest, done) = >>=-eq-ok (remove_from_indexes rt indexes key document) _ q in
      let (path, unique) = remove_entry_keeps index i key x removed in
      rw (← ok-injective done) (
        (
          rw path (rw old at (a.0.indexable key)),
          λ e k v u f.
              removed-HasRoom index a.0 old e k (rw path at v) (rw unique at u) (rw path at f),
        ),
        remove_from_indexes-Fits indexes is a.1 old rest,
      )
