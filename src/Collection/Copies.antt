-- ===== src/Collection/Copies.antt =====
-- The working copy of `#writable` and the publication of `_commit`, and the invariant of a
-- collection.
use mathlib.Core.Path.{fun_ext}
use newtondb.Collection.{Contents, StoredCollection, WorkingCollection, working_copy, publish}
use newtondb.Collection.Valid.{IsValid, IsOpen}
use newtondb.Index.{SecondaryIndexState, Indexes, clone_indexes, seal_indexes}
use newtondb.Index.Agrees.{Records, Agrees, AllAgree}
use newtondb.Index.Buckets.{files}
use newtondb.Index.Total.{AllWritable}
use newtondb.OverlayMap
use newtondb.OverlayMap.{MapLike}
use newtondb.OverlayMap.Laws.{IsCoherent, get-create, get-seal, create-IsCoherent, seal-IsCoherent}
use newtondb.Prelude.{nat_eq, list_eq, ◌≡◌, refl, sym, List, [], ◌∷◌, map, true}
use newtondb.Runtime.{Runtime}
use newtondb.Text.{Text}

-- The same indexes under the same names, whose buckets read the same.
abbrev pub AreAlike : Indexes → Indexes → Type 0
AreAlike [] [] = Unit
AreAlike [] (entry ∷ after) = ⊥
AreAlike (entry ∷ before) [] = ⊥
AreAlike ((n, index) ∷ before) ((m, index') ∷ after) =
    (m ≡ n)
    × ((index'.path ≡ index.path)
        × (index'.unique ≡ index.unique)
        × ((e : Text) → OverlayMap.get index'.buckets e ≡ OverlayMap.get index.buckets e))
    × AreAlike before after

module _ (rt : Runtime) where
  -- An index whose buckets read the same agrees with the same records.
  same_buckets-Agrees :
      (records : Records) (index index' : SecondaryIndexState)
      → index'.path ≡ index.path
      → index'.unique ≡ index.unique
      → ((e : Text) → OverlayMap.get index'.buckets e ≡ OverlayMap.get index.buckets e)
      → IsCoherent index'.buckets
      → Agrees rt records index
      → Agrees rt records index'
  unfolding files
  same_buckets-Agrees records index index' path unique get coherent a = record {
    agrees = λ e k. rw (get, path) (a.agrees e k);
    non_empty_buckets = λ e. rw get (a.non_empty_buckets e);
    sets = λ e. rw get (a.sets e);
    distinct = λ e k j u p q. a.distinct e k j (rw unique at u) (rw get at p) (rw get at q);
    coherent = coherent;
    indexable = λ k. rw path (a.indexable k);
  }

  clone_indexes-AllAgree :
      (records : Records) (indexes : Indexes)
      → AllAgree rt records indexes
      → AllAgree rt records (clone_indexes indexes)
  unfolding clone_indexes
  clone_indexes-AllAgree records [] a = tt
  clone_indexes-AllAgree records ((n, index) ∷ indexes) a = (
    same_buckets-Agrees records index _ refl refl (get-create index.buckets)
        (create-IsCoherent index.buckets a.0.coherent) a.0,
    clone_indexes-AllAgree records indexes a.1,
  )

  seal_indexes-AllAgree :
      (records : Records) (indexes : Indexes)
      → AllAgree rt records indexes
      → AllAgree rt records (seal_indexes indexes)
  unfolding seal_indexes
  seal_indexes-AllAgree records [] a = tt
  seal_indexes-AllAgree records ((n, index) ∷ indexes) a = (
    same_buckets-Agrees records index _ refl refl (λ e. get-seal index.buckets e a.0.coherent)
        (seal-IsCoherent index.buckets a.0.coherent) a.0,
    seal_indexes-AllAgree records indexes a.1,
  )

  clone_indexes-AllWritable : (indexes : Indexes) → AllWritable (clone_indexes indexes)
  unfolding clone_indexes OverlayMap.create
  clone_indexes-AllWritable [] = tt
  clone_indexes-AllWritable ((n, index) ∷ indexes) = (tt, clone_indexes-AllWritable indexes)

  -- Maps that read the same, and indexes that agree, make a valid collection of a valid one.
  same_maps-IsValid :
      (c c' : Contents)
      → c'.order ≡ c.order
      → c'.next_position ≡ c.next_position
      → c'.schema ≡ c.schema
      → OverlayMap.get c'.positions ≡ OverlayMap.get c.positions
      → OverlayMap.get c'.records ≡ OverlayMap.get c.records
      → AllAgree rt (OverlayMap.get c.records) c'.indexes
      → IsCoherent c'.positions
      → IsCoherent c'.records
      → IsValid rt c
      → IsValid rt c'
  same_maps-IsValid c c' order next schema positions records agree pc rc v = record {
    indexed = rw records agree;
    ranked = rw (positions, order, next) v.ranked;
    ordered = λ k. rw (order, records) (v.ordered k);
    positioned = λ k. rw (order, positions) (v.positioned k);
    keyed = λ k. rw (records, schema) (v.keyed k);
    records_coherent = rc;
    positions_coherent = pc;
  }

  -- The working copy of a valid stored collection is valid, and none of its maps is sealed.
  pub working_copy-IsValid :
      (stored : StoredCollection)
      → IsValid rt stored.contents
      → IsValid rt (working_copy stored).contents × IsOpen (working_copy stored).contents
  unfolding working_copy OverlayMap.create
  working_copy-IsValid stored v =
      let c = stored.contents in
      (
        same_maps-IsValid c _ refl refl refl (fun_ext (get-create c.positions))
            (fun_ext (get-create c.records))
            (clone_indexes-AllAgree (OverlayMap.get c.records) c.indexes v.indexed)
            (create-IsCoherent c.positions v.positions_coherent)
            (create-IsCoherent c.records v.records_coherent) v,
        record { indexes = clone_indexes-AllWritable c.indexes; positions = tt; records = tt },
      )

  -- The publication of a valid working collection is valid, whether its overlays are
  -- compacted or kept.
  pub publish-IsValid :
      (revision : newtondb.Prelude.ℕ) (working : WorkingCollection)
      → IsValid rt working.contents
      → IsValid rt (publish revision working).contents
  unfolding publish
  publish-IsValid revision working v =
      let c = working.contents in
      same_maps-IsValid c _ refl refl refl
        (fun_ext λ k. get-seal c.positions k v.positions_coherent)
        (fun_ext λ k. get-seal c.records k v.records_coherent)
        (seal_indexes-AllAgree (OverlayMap.get c.records) c.indexes v.indexed)
        (seal-IsCoherent c.positions v.positions_coherent)
        (seal-IsCoherent c.records v.records_coherent) v

  -- The stored collection is valid and shows what the working one does, under this revision.
  pub record IsPublished (number : newtondb.Prelude.ℕ) (w : WorkingCollection)
      (c : StoredCollection) : Type 0 where
    pub revision : c.revision ≡ number
    pub records :
        (k : Text) → OverlayMap.get c.contents.records k ≡ OverlayMap.get w.contents.records k
    pub positions :
        (k : Text) → OverlayMap.get c.contents.positions k ≡ OverlayMap.get w.contents.positions k
    pub order : c.contents.order ≡ w.contents.order
    pub next_position : c.contents.next_position ≡ w.contents.next_position
    pub schema : c.contents.schema ≡ w.contents.schema
    pub indexes : AreAlike w.contents.indexes c.contents.indexes
    pub valid : IsValid rt c.contents

  seal_indexes-AreAlike :
      (records : Records) (indexes : Indexes)
      → AllAgree rt records indexes
      → AreAlike indexes (seal_indexes indexes)
  unfolding seal_indexes
  seal_indexes-AreAlike records [] a = tt
  seal_indexes-AreAlike records ((n, index) ∷ indexes) a = (
    refl,
    (refl, refl, λ e. get-seal index.buckets e a.0.coherent),
    seal_indexes-AreAlike records indexes a.1,
  )

  pub publish-IsPublished :
      (revision : newtondb.Prelude.ℕ) (w : WorkingCollection)
      → IsValid rt w.contents
      → IsPublished revision w (publish revision w)
  unfolding publish
  publish-IsPublished revision w v = record {
    revision = refl;
    records = λ k. get-seal w.contents.records k v.records_coherent;
    positions = λ k. get-seal w.contents.positions k v.positions_coherent;
    order = refl;
    next_position = refl;
    schema = refl;
    indexes =
        seal_indexes-AreAlike (OverlayMap.get w.contents.records) w.contents.indexes v.indexed;
    valid = publish-IsValid revision w v;
  }
