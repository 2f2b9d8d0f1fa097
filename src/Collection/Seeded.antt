-- ===== src/Collection/Seeded.antt =====
-- The collection that `createStoredCollection` makes of a seed, and the invariant of a collection.
use newtondb.Collection.{Contents, StoredCollection, put_document, reindex, attach}
use newtondb.Collection.Create.{add_seed, add_seeds, create_stored_collection}
use newtondb.Collection.Valid.{IsValid, IsOpen}
use newtondb.Collection.Write.{put_document-Ends}
use newtondb.Collection.Steps.{write_record_eq, append_key_eq}
use newtondb.Errors.{Result, ok, err, duplicate_key, ok-injective, >>=-eq-ok}
use newtondb.Index.{add_to_indexes, create_indexes, Indexes}
use newtondb.Index.Created.{create_indexes-AllAgree}
use newtondb.Input.{Input}
use newtondb.Json.{Document}
use newtondb.Key.{document_key, encode_key}
use newtondb.NativeMap
use newtondb.OverlayMap
use newtondb.OverlayMap.{MapLike, native}
use newtondb.OverlayMap.Laws
use newtondb.Prelude.{
  ℕ, ◌+◌, ◌≡◌, refl, sym, none, List, [], ◌∷◌, ◌++◌, length, length-append, contains, if◌then◌else◌,
  nat_eq, list_eq, arith,
}
use newtondb.Runtime.{Runtime}
use newtondb.Schema.{CollectionSchema}
use newtondb.Text.{Text}
use newtondb.Validation.{validate_document}

module _ (rt : Runtime) (name : Text) where
  -- A valid collection whose positions have no gap.
  record Seeded (c : Contents) : Type 0 where
    pub valid : IsValid rt c
    pub is_open : IsOpen c
    pub counted : c.next_position ≡ length c.order

  put_seed :
      (c : Contents) (key : Text) (d : Document) (records : MapLike Text Document)
      (positions : MapLike Text ℕ) (indexes : Indexes)
      → c.next_position ≡ length c.order
      → OverlayMap.set key d c.records ≡ ok records
      → OverlayMap.set key (length c.order) c.positions ≡ ok positions
      → add_to_indexes rt name c.indexes key d ≡ ok indexes
      → put_document rt name key none d c ≡ (
        ok tt,
        record c {
          indexes = indexes;
          next_position = length c.order + 1;
          order = c.order ++ key ∷ [];
          positions = positions;
          records = records;
        },
      )
  unfolding put_document reindex attach
  put_seed c key d records positions indexes n r p i =
      let c1 = record c { indexes = indexes } in
      let c2 = record c1 { records = records } in
      rw (i, write_record_eq key d c1 records r, append_key_eq key c2 positions (rw (← n) at p), n)
        refl

  absent :
      (c : Contents) (key : Text) (e : newtondb.Errors.Error) (u : Unit {0})
      → (if OverlayMap.has c.records key then err e else ok (tt {0})) ≡ ok u
      → OverlayMap.get c.records key ≡ none
  absent c key e u h = ground (arith, newtondb.OverlayMap.Laws.has-get c.records key)

  add_seed-Seeded :
      (c c' : Contents) (input : Input) → Seeded c → add_seed rt name c input ≡ ok c' → Seeded c'
  unfolding add_seed
  add_seed-Seeded c c' input s h =
      let (d, e1, h1) = >>=-eq-ok (validate_document rt name c.schema input) _ h in
      let (k, e2, h2) = >>=-eq-ok (document_key rt d c.schema.primary_key) _ h1 in
      let (key, e3, h3) = >>=-eq-ok (encode_key rt k) _ h2 in
      let (u, e4, h4) = >>=-eq-ok _ _ h3 in
      let (records, e5, h5) = >>=-eq-ok (OverlayMap.set key d c.records) _ h4 in
      let (positions, e6, h6) = >>=-eq-ok (OverlayMap.set key (length c.order) c.positions) _ h5 in
      let (indexes, e7, h7) = >>=-eq-ok (add_to_indexes rt name c.indexes key d) _ h6 in
      let held = rw (put_seed c key d records positions indexes s.counted e5 e6 e7) at (
        put_document-Ends rt name key d c s.valid s.is_open none
          (absent c key (duplicate_key name k) u e4) (rw e2 e3)) in
      rw (← ok-injective h7) (record {
        valid = held.valid;
        is_open = held.is_open;
        counted = sym (length-append c.order (key ∷ []));
      })

  add_seeds-Seeded :
      (inputs : List Input) (c c' : Contents)
      → Seeded c
      → add_seeds rt name c inputs ≡ ok c'
      → Seeded c'
  unfolding add_seeds
  add_seeds-Seeded [] c c' s h = rw (← ok-injective h) s
  add_seeds-Seeded (input ∷ inputs) c c' s h =
      let (c1, e1, h1) = >>=-eq-ok (add_seed rt name c input) _ h in
      add_seeds-Seeded inputs c1 c' (add_seed-Seeded c c1 input s e1) h1

  empty-Seeded :
      (schema : CollectionSchema) (indexes : Indexes)
      → create_indexes schema ≡ ok indexes
      → Seeded (record {
        indexes = indexes;
        next_position = 0;
        order = [];
        positions = native [];
        records = native [];
        schema = schema;
      })
  unfolding OverlayMap.get NativeMap.get contains
  empty-Seeded schema indexes h =
      let (agree, writable) = create_indexes-AllAgree rt schema indexes h in
      record {
        valid = record {
          indexed = agree;
          ranked = omega arith;
          ordered = λ k. refl;
          positioned = λ k. refl;
          keyed = λ k. tt;
          records_coherent = tt;
          positions_coherent = tt;
        };
        is_open = record { indexes = writable; positions = tt; records = tt };
        counted = refl;
      }

  -- Every collection that is created from a seed is valid, and has the given revision.
  pub create_stored_collection-IsValid :
      (inputs : List Input) (schema : CollectionSchema) (revision : ℕ) (c : StoredCollection)
      → create_stored_collection rt name inputs schema revision ≡ ok c
      → IsValid rt c.contents × (c.revision ≡ revision)
  unfolding create_stored_collection
  create_stored_collection-IsValid inputs schema revision c h =
      let (indexes, e1, h1) = >>=-eq-ok (create_indexes schema) _ h in
      let (contents, e2, h2) = >>=-eq-ok (add_seeds rt name _ inputs) _ h1 in
      rw (← ok-injective h2)
        ((add_seeds-Seeded inputs _ contents (empty-Seeded schema indexes e1) e2).valid, refl)
