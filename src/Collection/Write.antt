-- ===== src/Collection/Write.antt =====
-- The writes of a transaction's operations and the invariant of a collection.
use newtondb.Collection.{Contents, put_document, remove_document, splice_out}
use newtondb.Collection.Reindex.{Reindexed, reindex-Ends}
use newtondb.Collection.Valid.{
  IsValid, IsOpen, IsKeyed, Ranked-append, Ranked-splice_out, contains-splice_out,
}
use newtondb.Errors.{ok}
use newtondb.Exec.{Ends, Ends-cases}
use newtondb.Index.{Indexes}
use newtondb.Index.Agrees.{Records, with_record, AllAgree}
use newtondb.Index.Maintain.{remove_from_indexes-AllAgree}
use newtondb.Index.Total.{AllWritable, remove_from_indexes_total}
use newtondb.Json.{Document}
use newtondb.OverlayMap
use newtondb.OverlayMap.{MapLike}
use newtondb.OverlayMap.Laws
use newtondb.OverlayMap.Writable.{IsWritable, set_total, delete_total}
use mathlib.Core.Path.{fun_ext, subst}
use newtondb.Prelude.{
  ℕ, ◌+◌, ◌≡◌, refl, sym, Option, none, some, List, [], ◌∷◌, ◌++◌, ◌==◌, ==_iff, nat_eq, list_eq,
  if◌then◌else◌, arith, inl, inr,
}
use newtondb.Runtime.{Runtime}
use newtondb.Text.{Text}
use newtondb.Collection.Steps.{
  contains-append, write_record_eq, append_key_eq, drop_record_eq, drop_position_eq,
}

-- A valid working collection with these records and this order.
pub record Holds (rt : Runtime) (expected : Records) (keys : List Text) (c : Contents)
    : Type 0 where
  pub valid : IsValid rt c
  pub is_open : IsOpen c
  pub records : (k : Text) → OverlayMap.get c.records k ≡ expected k
  pub order : c.order ≡ keys

module _ (rt : Runtime) (name key : Text) (document : Document) (c : Contents) (v : IsValid rt c)
    (o : IsOpen c) where
  abbrev stored : Records
  stored = OverlayMap.get c.records

  -- Other indexes that agree with the same records.
  Reindexed-Holds : (c' : Contents) → Reindexed rt stored c c' → Holds rt stored c.order c'
  Reindexed-Holds c' r = rw r.same (record {
    valid = record {
      indexed = r.agree;
      ranked = v.ranked;
      ordered = v.ordered;
      positioned = v.positioned;
      keyed = v.keyed;
      records_coherent = v.records_coherent;
      positions_coherent = v.positions_coherent;
    };
    is_open = record { indexes = r.writable; positions = o.positions; records = o.records };
    records = λ k. refl;
    order = refl;
  })

  module _ (keyed : IsKeyed rt c.schema.primary_key (some document) key) (indexes : Indexes)
      (agree : AllAgree rt (with_record key (some document) stored) indexes)
      (writable : AllWritable indexes) (records : MapLike Text Document)
      (written : OverlayMap.set key document c.records ≡ ok records) (wr : IsWritable records) where
    abbrev get_written :
        (k : Text) → OverlayMap.get records k ≡ with_record key (some document) stored k
    get_written k = Laws.get-set c.records key k document written

    -- The record of a key that is there is replaced.
    replaced-Holds :
        (before : Document)
        → stored key ≡ some before
        → Holds rt
            (with_record key (some document) stored)
            c.order
            (record c { indexes = indexes; records = records })
    replaced-Holds before old = record {
      valid = record {
        indexed = subst (λ r. AllAgree rt r indexes) (sym (fun_ext get_written)) agree;
        ranked = v.ranked;
        ordered = λ k. ground (arith, get_written k, v.ordered k, ==_iff key k);
        positioned = v.positioned;
        keyed = λ k. rw (get_written k) (ground (arith, keyed, v.keyed k, ==_iff key k));
        records_coherent = Laws.set-IsCoherent c.records key document v.records_coherent written;
        positions_coherent = v.positions_coherent;
      };
      is_open = record { indexes = writable; positions = o.positions; records = wr };
      records = get_written;
      order = refl;
    }

    -- A new key goes to the end of the order, with the next position.
    appended-Holds :
        (positions : MapLike Text ℕ)
        → stored key ≡ none
        → OverlayMap.set key c.next_position c.positions ≡ ok positions
        → IsWritable positions
        → Holds rt (with_record key (some document) stored) (c.order ++ key ∷ []) (record c {
          indexes = indexes;
          records = records;
          order = c.order ++ key ∷ [];
          positions = positions;
          next_position = c.next_position + 1;
        })
    appended-Holds positions fresh placed wp = record {
      valid = record {
        indexed = subst (λ r. AllAgree rt r indexes) (sym (fun_ext get_written)) agree;
        ranked =
            Ranked-append (OverlayMap.get c.positions) (OverlayMap.get positions) 0 c.next_position
              c.order key v.ranked (ground (arith, v.ordered key))
              (λ k. Laws.get-set c.positions key k c.next_position placed);
        ordered = λ k. ground (arith, contains-append c.order key k, get_written k, v.ordered k);
        positioned = λ k. ground (
          arith,
          contains-append c.order key k,
          Laws.get-set c.positions key k c.next_position placed,
          v.positioned k,
        );
        keyed = λ k. rw (get_written k) (ground (arith, keyed, v.keyed k, ==_iff key k));
        records_coherent = Laws.set-IsCoherent c.records key document v.records_coherent written;
        positions_coherent =
            Laws.set-IsCoherent c.positions key c.next_position v.positions_coherent placed;
      };
      is_open = record { indexes = writable; positions = wp; records = wr };
      records = get_written;
      order = refl;
    }

  abbrev pub order_after : Option Document → List Text
  order_after none = c.order ++ key ∷ []
  order_after (some before) = c.order

  -- The writes of an insertion or update into a valid, open collection end in one of two
  -- ways: a return with the document under its key and all else kept, or a throw with the
  -- records and the order of before; the collection is valid and open both times.
  pub put_document-Ends :
      (before : Option Document)
      → stored key ≡ before
      → IsKeyed rt c.schema.primary_key (some document) key
      → Ends
          (λ _ c'. Holds rt (with_record key (some document) stored) (order_after before) c')
          (λ e c'. Holds rt stored c.order c')
          (put_document rt name key before document c).0
          (put_document rt name key before document c).1
  unfolding put_document
  put_document-Ends none old keyed =
      elim (Ends-cases (λ _ c'. Reindexed rt (with_record key (some document) stored) c c')
        (λ e c'. Reindexed rt stored c c') _ _
        (reindex-Ends rt name key document c o none v.indexed old)) [
          | inl (u, done, r) ↦
              let (records, written, wr) = set_total c.records key document o.records in
              let (positions, placed, wp) = set_total c.positions key c.next_position o.positions in
              let c1 = record c { indexes = r.indexes } in
              let c2 = record c1 { records = records } in
              rw
                (
                  done,
                  r.same,
                  write_record_eq key document c1 records written,
                  append_key_eq key c2 positions placed,
                )
                (appended-Holds keyed r.indexes r.agree r.writable records written wr positions old
                  placed wp)
          | inr (e, failed, r) ↦ rw failed (Reindexed-Holds _ r)
        ]
  put_document-Ends (some before) old keyed =
      elim (Ends-cases (λ _ c'. Reindexed rt (with_record key (some document) stored) c c')
        (λ e c'. Reindexed rt stored c c') _ _
        (reindex-Ends rt name key document c o (some before) v.indexed old)) [
          | inl (u, done, r) ↦
              let (records, written, wr) = set_total c.records key document o.records in
              rw
                (
                  done,
                  r.same,
                  write_record_eq key document (record c { indexes = r.indexes }) records written,
                )
                (replaced-Holds keyed r.indexes r.agree r.writable records written wr before old)
          | inr (e, failed, r) ↦ rw failed (Reindexed-Holds _ r)
        ]

  -- The deletion of a stored record from a valid, open collection always returns, and leaves
  -- a valid, open collection that has lost exactly that record, in the records, the order,
  -- the positions and the indexes.
  pub remove_document_ends :
      stored key ≡ some document
      → (c' : Contents) × (remove_document rt key document c ≡ (ok tt, c'))
        × Holds rt (with_record key none stored) (splice_out key c.order) c'
  unfolding remove_document
  remove_document_ends old =
      let (indexes, detached, wi) =
        remove_from_indexes_total rt key document stored c.indexes v.indexed o.indexes old in
      let (records, deleted, wr) = delete_total c.records key o.records in
      let (positions, displaced, wp) = delete_total c.positions key o.positions in
      let c1 = record c { indexes = indexes } in
      let c2 = record c1 { records = records } in
      let get_records : (k : Text) → OverlayMap.get records k ≡ with_record key none stored k =
        λ k. Laws.get-delete c.records key k deleted in
      let get_positions : (k : Text)
          → OverlayMap.get positions k ≡ (if key == k then none else OverlayMap.get c.positions k) =
        λ k. Laws.get-delete c.positions key k displaced in
      (
        record c2 { positions = positions; order = splice_out key c.order },
        rw (
          detached,
          drop_record_eq key c1 records deleted,
          drop_position_eq key c2 positions displaced,
        ),
        record {
          valid = record {
            indexed =
                subst (λ r. AllAgree rt r indexes) (sym (fun_ext get_records))
                  (remove_from_indexes-AllAgree rt key document stored c.indexes indexes v.indexed
                    old detached);
            ranked =
                Ranked-splice_out (OverlayMap.get c.positions) (OverlayMap.get positions) 0
                  c.next_position c.order key v.ranked get_positions;
            ordered = λ k.
                rw
                  (contains-splice_out (OverlayMap.get c.positions) 0 c.next_position c.order key k
                    v.ranked)
                  (ground (arith, get_records k, v.ordered k));
            positioned = λ k.
                rw
                  (contains-splice_out (OverlayMap.get c.positions) 0 c.next_position c.order key k
                    v.ranked)
                  (ground (arith, get_positions k, v.positioned k));
            keyed = λ k. rw (get_records k) (ground (arith, v.keyed k));
            records_coherent = Laws.delete-IsCoherent c.records key v.records_coherent deleted;
            positions_coherent =
                Laws.delete-IsCoherent c.positions key v.positions_coherent displaced;
          };
          is_open = record { indexes = wi; positions = wp; records = wr };
          records = get_records;
          order = refl;
        },
      )
