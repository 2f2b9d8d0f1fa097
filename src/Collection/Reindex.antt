-- ===== src/Collection/Reindex.antt =====
-- The change of the indexes before the write of a record, with its error path.
use mathlib.Core.Path.{fun_ext, subst}
use newtondb.Collection.{Contents, reindex}
use newtondb.Collection.Valid.{IsOpen}
use newtondb.Errors.{Result-cases}
use newtondb.Exec.{Ends}
use newtondb.Index.{Indexes, add_to_indexes}
use newtondb.Index.Agrees.{Records, with_record, AllAgree}
use newtondb.Index.Maintain.{add_to_indexes-AllAgree, remove_from_indexes-AllAgree}
use newtondb.Index.Restore.{remove_from_indexes-Fits}
use newtondb.Index.Total.{
  AllWritable, remove_from_indexes_total, add_to_indexes_total, add_to_indexes-AllWritable,
}
use newtondb.Json.{Document}
use newtondb.OverlayMap
use newtondb.Prelude.{
  ◌≡◌, refl, ◌∙◌, Option, none, some, ==_iff, ==_refl, nat_eq, list_eq, arith, inl, inr,
}
use newtondb.Runtime.{Runtime}
use newtondb.Text.{Text}

overwrite :
    (key : Text) (x y : Option Document) (records : Records)
    → with_record key x (with_record key y records) ≡ with_record key x records
overwrite key x y records = fun_ext λ j. ground arith

pub unchanged :
    (key : Text) (x : Option Document) (records : Records)
    → records key ≡ x
    → with_record key x records ≡ records
unchanged key x records h = fun_ext λ j. ground (arith, ==_iff key j)

-- The collection with other indexes, which agree with these records.
pub record Reindexed (rt : Runtime) (records : Records) (c c' : Contents) : Type 0 where
  pub indexes : Indexes
  pub same : c' ≡ record c { indexes = indexes }
  pub agree : AllAgree rt records indexes
  pub writable : AllWritable indexes

module _ (rt : Runtime) (name key : Text) (document : Document) (c : Contents)
    (open_c : IsOpen c) where
  abbrev stored : Records
  stored = OverlayMap.get c.records

  -- Reindexing a document either files it in every index in place of the old document, or
  -- throws and leaves indexes that agree with the old records; nothing but the indexes
  -- changes.
  pub reindex-Ends :
      (before : Option Document)
      → AllAgree rt stored c.indexes
      → stored key ≡ before
      → Ends
          (λ _ c'. Reindexed rt (with_record key (some document) stored) c c')
          (λ e c'. Reindexed rt stored c c')
          (reindex rt name key before document c).0
          (reindex rt name key before document c).1
  unfolding reindex
  reindex-Ends none agree old =
      elim (Result-cases (add_to_indexes rt name c.indexes key document)) [
        | inl (is, done) ↦ rw done (record {
          indexes = is;
          same = refl;
          agree = add_to_indexes-AllAgree rt name key document stored c.indexes is agree old done;
          writable =
              add_to_indexes-AllWritable rt name key document stored c.indexes is open_c.indexes
                done;
        })
        | inr (e, failed) ↦
            rw failed (record {
              indexes = c.indexes;
              same = refl;
              agree = agree;
              writable = open_c.indexes;
            })
      ]
  reindex-Ends (some before) agree old =
      let (removed, done, w) =
        remove_from_indexes_total rt key before stored c.indexes agree open_c.indexes old in
      let without =
        remove_from_indexes-AllAgree rt key before stored c.indexes removed agree old done in
      let gone : with_record key none stored key ≡ none = ground (arith, ==_refl key) in
      elim (Result-cases (add_to_indexes rt name removed key document)) [
        | inl (is, added) ↦
            rw (done, added)
              (record {
                indexes = is;
                same = refl;
                agree =
                    subst (λ r. AllAgree rt r is) (overwrite key (some document) none stored)
                      (add_to_indexes-AllAgree rt name key document (with_record key none stored)
                        removed is without gone added);
                writable =
                    add_to_indexes-AllWritable rt name key document stored removed is w added;
              })
        | inr (e, failed) ↦
            let (back, restored, wb) =
              add_to_indexes_total rt name key before (with_record key none stored) removed without
                w
                (remove_from_indexes-Fits rt key before stored c.indexes removed agree old done) in
            rw (done, failed, restored)
              (record {
                indexes = back;
                same = refl;
                agree =
                    subst (λ r. AllAgree rt r back)
                      (overwrite key (some before) none stored
                        ∙ unchanged key (some before) stored old)
                      (add_to_indexes-AllAgree rt name key before (with_record key none stored)
                        removed back without gone restored);
                writable = wb;
              })
      ]
