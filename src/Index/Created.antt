-- ===== src/Index/Created.antt =====
-- The indexes that `createIndexes` declares, before any document is added.
use newtondb.Errors.{ok, ok-injective, >>=-eq-ok}
use newtondb.Index.{SecondaryIndexState, Indexes, create_from, create_indexes}
use newtondb.Index.Agrees.{Agrees, AllAgree, Records}
use newtondb.Index.Buckets.{files}
use newtondb.Index.Total.{AllWritable}
use newtondb.NativeMap
use newtondb.OverlayMap
use newtondb.OverlayMap.{native}
use newtondb.Path.{PropertyPath, validate_path}
use newtondb.Prelude.{
  ◌≡◌, refl, Bool, false, none, List, [], ◌∷◌, ◌||◌, ◌==◌, contains, length, nat_beq, nat_eq,
  list_eq, inl, inr, Bool-cases,
}
use newtondb.Runtime.{Runtime}
use newtondb.Schema.{SecondaryIndex, CollectionSchema}
use newtondb.Text.{Text}

abbrev pub no_records : Records
no_records k = none

module _ (rt : Runtime) where
  empty-Agrees :
      (n : Text) (path : PropertyPath) (unique : Bool)
      → Agrees rt no_records (record {
        buckets = native [];
        copy_on_write = false;
        name = n;
        path = path;
        unique = unique;
      })
  unfolding files OverlayMap.get NativeMap.get contains
  empty-Agrees n path unique = record {
    agrees = λ e k. refl;
    non_empty_buckets = λ e p. cc;
    sets = λ e. tt;
    distinct = λ e k j u f g. cc;
    coherent = tt;
    indexable = λ k. tt;
  }

  set-AllAgree :
      (indexes : Indexes) (n : Text) (i : SecondaryIndexState)
      → AllAgree rt no_records indexes × AllWritable indexes
      → Agrees rt no_records i
      → newtondb.OverlayMap.Writable.IsWritable i.buckets
      → AllAgree rt no_records (NativeMap.set n i indexes) × AllWritable (NativeMap.set n i indexes)
  unfolding NativeMap.set
  set-AllAgree [] n i a b w = ((b, tt), (w, tt))
  set-AllAgree ((m, j) ∷ indexes) n i (a, u) b w = elim (Bool-cases (m == n)) [
    | inl e ↦ rw (e, NativeMap.set) ((b, a.1), (w, u.1))
    | inr d ↦
        let rest = set-AllAgree indexes n i (a.1, u.1) b w in
        rw (d, NativeMap.set) ((a.0, rest.0), (u.0, rest.1))
  ]

  create_from-AllAgree :
      (definitions : List SecondaryIndex) (indexes indexes' : Indexes)
      → AllAgree rt no_records indexes × AllWritable indexes
      → create_from definitions indexes ≡ ok indexes'
      → AllAgree rt no_records indexes' × AllWritable indexes'
  unfolding create_from
  create_from-AllAgree [] indexes indexes' a h = rw (← ok-injective h) a
  create_from-AllAgree (x ∷ rest) indexes indexes' a h =
      elim (Bool-cases (nat_beq (length x.name) 0 || NativeMap.has indexes x.name)) [
        | inl refused ↦ cc (rw refused at h)
        | inr fresh ↦
            let (path, e, h1) = >>=-eq-ok (validate_path x.path 32) _ (rw fresh at h) in
            create_from-AllAgree rest _ indexes'
              (set-AllAgree indexes x.name _ a (empty-Agrees x.name path x.unique) tt) h1
      ]

  -- Declared.
  pub create_indexes-AllAgree :
      (schema : CollectionSchema) (indexes : Indexes)
      → create_indexes schema ≡ ok indexes
      → AllAgree rt no_records indexes × AllWritable indexes
  unfolding create_indexes
  create_indexes-AllAgree schema indexes h =
      create_from-AllAgree schema.indexes [] indexes (tt, tt) h
