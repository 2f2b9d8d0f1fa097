-- ===== src/Index/Maintain.antt =====
-- `addToIndexes` and `removeFromIndexes` and the agreement of the indexes with the records.
use newtondb.Errors.{ok, ok-injective, >>=-eq-ok}
use newtondb.Index.{
  SecondaryIndexState, Indexes, index_value, check_unique, plan_addition, plan_additions,
  apply_addition, apply_additions, add_to_indexes, remove_entry, remove_from_indexes,
}
use newtondb.Index.Agrees.{
  Records, with_record, Agrees, AllAgree, unfiled-Agrees, filed-Agrees, unfiled_removed-Agrees,
  removed-Agrees,
}
use newtondb.Index.Buckets.{files, apply_addition-Edited, shrink_bucket-Edited}
use newtondb.Json.{Document}
use newtondb.OverlayMap
use newtondb.Prelude.{
  ◌≡◌, Option, none, some, List, [], ◌∷◌, ==_refl, nat_eq, list_eq, contains, arith, Option-cases,
  inl, inr,
}
use newtondb.Runtime.{Runtime}
use newtondb.Text.{Text}

module _ (rt : Runtime) (collection key : Text) (document : Document) (records : Records) where
  apply_addition-Agrees :
      (index index' : SecondaryIndexState) (addition : Option Text)
      → Agrees rt records index
      → records key ≡ none
      → plan_addition rt collection index key document ≡ ok addition
      → apply_addition index key addition ≡ ok index'
      → Agrees rt (with_record key (some document) records) index'
  unfolding plan_addition check_unique apply_addition
  apply_addition-Agrees index index' none a fresh planned applied =
      rw (← ok-injective applied)
        (unfiled-Agrees rt key document records index a fresh (ground arith))
  apply_addition-Agrees index index' (some e) a fresh planned applied =
      filed-Agrees rt key document records index e index' a fresh (ground arith)
        (λ u. unfold files in ground (arith, a.agrees e key))
        (apply_addition-Edited index key e applied)

  apply_additions-AllAgree :
      (indexes indexes' : Indexes) (additions : List (Option Text))
      → AllAgree rt records indexes
      → records key ≡ none
      → plan_additions rt collection indexes key document ≡ ok additions
      → apply_additions indexes key additions ≡ ok indexes'
      → AllAgree rt (with_record key (some document) records) indexes'
  unfolding plan_additions apply_additions
  apply_additions-AllAgree [] indexes' additions a fresh planned applied =
      rw (← ok-injective applied) tt
  apply_additions-AllAgree ((n, index) ∷ indexes) indexes' additions a fresh planned applied =
      let (x, planned1, p) = >>=-eq-ok (plan_addition rt collection index key document) _ planned in
      let (xs, planned2, q) = >>=-eq-ok (plan_additions rt collection indexes key document) _ p in
      let applied' = rw (← ok-injective q) at applied in
      let (i, applied1, r) = >>=-eq-ok (apply_addition index key x) _ applied' in
      let (is, applied2, done) = >>=-eq-ok (apply_additions indexes key xs) _ r in
      rw (← ok-injective done) (
        apply_addition-Agrees index i x a.0 fresh planned1 applied1,
        apply_additions-AllAgree indexes is xs a.1 fresh planned2 applied2,
      )

  -- A successful addition of a new key to indexes that agree with the records leaves indexes
  -- that agree with the records with the document added; unique indexes stay unique.
  pub add_to_indexes-AllAgree :
      (indexes indexes' : Indexes)
      → AllAgree rt records indexes
      → records key ≡ none
      → add_to_indexes rt collection indexes key document ≡ ok indexes'
      → AllAgree rt (with_record key (some document) records) indexes'
  unfolding add_to_indexes
  add_to_indexes-AllAgree indexes indexes' a fresh h =
      let (xs, planned, applied) =
        >>=-eq-ok (plan_additions rt collection indexes key document) _ h in
      apply_additions-AllAgree indexes indexes' xs a fresh planned applied

module _ (rt : Runtime) (key : Text) (document : Document) (records : Records) where
  remove_entry-Agrees :
      (index index' : SecondaryIndexState) (encoded : Option Text)
      → Agrees rt records index
      → records key ≡ some document
      → index_value rt index.path document ≡ ok encoded
      → remove_entry index key encoded ≡ ok index'
      → Agrees rt (with_record key none records) index'
  unfolding remove_entry
  remove_entry-Agrees index index' none a old value h =
      rw (← ok-injective h) (unfiled_removed-Agrees rt key document records index a old value)
  remove_entry-Agrees index index' (some e) a old value h =
      elim (Option-cases (OverlayMap.get index.buckets e)) [
        | inl missing ↦ absurd (unfold files contains in ground (arith, a.agrees e key, ==_refl e))
        | inr (current, bucket) ↦
            removed-Agrees rt key document records index e current index' a old value bucket
              (shrink_bucket-Edited index key e current (rw (bucket, remove_entry) at h))
      ]

  -- A successful removal of a stored document from indexes that agree with the records
  -- leaves indexes that agree with the records without it.
  pub remove_from_indexes-AllAgree :
      (indexes indexes' : Indexes)
      → AllAgree rt records indexes
      → records key ≡ some document
      → remove_from_indexes rt indexes key document ≡ ok indexes'
      → AllAgree rt (with_record key none records) indexes'
  unfolding remove_from_indexes
  remove_from_indexes-AllAgree [] indexes' a old h = rw (← ok-injective h) tt
  remove_from_indexes-AllAgree ((n, index) ∷ indexes) indexes' a old h =
      let (x, value, p) = >>=-eq-ok (index_value rt index.path document) _ h in
      let (i, removed, q) = >>=-eq-ok (remove_entry index key x) _ p in
      let (is, rest, done) = >>=-eq-ok (remove_from_indexes rt indexes key document) _ q in
      rw (← ok-injective done) (
        remove_entry-Agrees index i x a.0 old value removed,
        remove_from_indexes-AllAgree indexes is a.1 old rest,
      )
