-- ===== src/Database/Execute/Select.antt =====
-- The documents that the candidates of a plan select, against those of the whole order.
use newtondb.Collection.{Contents}
use newtondb.Collection.Ranked.{
  Ranked-bound, Ranked-unique, keep-Ranked, contains-keep, sort-eq-keep,
}
use newtondb.Collection.Valid.{IsValid}
use newtondb.Database.Execute.{
  primary, secondary, index_plan, choose_plan, ranks_after, encode_any, candidate_keys, select,
}
use newtondb.Errors.{ok, ok-injective, >>=-eq-ok, Result-cases}
use newtondb.Index.{SecondaryIndexState, Indexes, members, index_value}
use newtondb.Index.Agrees.{Agrees, AllAgree}
use newtondb.Index.Buckets.{files}
use newtondb.Json.{object, Primitive, Document, own}
use newtondb.Key.{encode_key, encode_index_value, document_key, key_of_value}
use newtondb.NativeMap.{present}
use newtondb.OverlayMap
use newtondb.OverlayMap.{MapLike}
use newtondb.Path.{PropertyPath, name, read_path, read_token, same_path}
use newtondb.Prelude.{
  ◌≡◌, refl, sym, ap, Bool, true, false, some, List, [], ◌∷◌, ◌==◌, ==_iff, nat_eq, list_eq,
  contains, keep, arith, inl, inr, Bool-cases, Option-cases, ◌∙◌,
}
use newtondb.Query.{Where, comparison, eq}
use newtondb.Query.Compile.{test, compare_value, same_primitive}
use newtondb.Runtime.{Runtime}
use newtondb.Text.{Text}
use newtondb.Database.Execute.Match.{
  select-keep, keep_none, same_path-read, match-encode_read, match-encode_any,
}

module _ (rt : Runtime) where
  module _ (c : Contents) (valid : IsValid rt c) (path : PropertyPath) (value : Primitive) where
    abbrev matches : Document → Bool
    matches = test rt (comparison eq path value)

    -- The keys that a plan may leave out.
    left_out :
        (q : Text → Bool)
        → ((k : Text) (d : Document)
            → OverlayMap.get c.records k ≡ some d
            → same_primitive (read_path (some (object d)) path) value ≡ true
            → q k ≡ true)
        → select c.records matches (keep q c.order) ≡ select c.records matches c.order
    unfolding test compare_value
    left_out q h = select-keep c.records matches q c.order h

    -- A key of a bucket is a key of the collection.
    in_order :
        (i : SecondaryIndexState) (k encoded : Text)
        → Agrees rt (OverlayMap.get c.records) i
        → contains (members (OverlayMap.get i.buckets encoded)) k ≡ true
        → contains c.order k ≡ true
    unfolding files
    in_order i k encoded a g = elim (Option-cases (OverlayMap.get c.records k)) [
      | inl missing ↦ absurd (ground (arith, a.agrees encoded k))
      | inr (d, stored) ↦ rw stored at (valid.ordered k)
    ]

    -- The key of a stored document with the value is in the value's bucket.
    in_bucket :
        (i : SecondaryIndexState) (k encoded : Text) (d : Document)
        → Agrees rt (OverlayMap.get c.records) i
        → same_path path i.path ≡ true
        → encode_index_value rt value ≡ ok encoded
        → OverlayMap.get c.records k ≡ some d
        → same_primitive (read_path (some (object d)) path) value ≡ true
        → contains (members (OverlayMap.get i.buckets encoded)) k ≡ true
    unfolding files index_value
    in_bucket i k encoded d a same encodes stored m =
        rw stored at (a.agrees encoded k)
        ∙ match-encode_read rt (read_path (some (object d)) i.path) value encoded
            (rw stored at (a.indexable k)) encodes
            (rw (same_path-read (some (object d)) path i.path same) at m)

    secondary_finds :
        (i : SecondaryIndexState) (keys : List Text)
        → Agrees rt (OverlayMap.get c.records) i
        → same_path path i.path ≡ true
        → candidate_keys rt c (secondary i value) ≡ ok keys
        → select c.records matches keys ≡ select c.records matches c.order
    unfolding candidate_keys ranks_after
    secondary_finds i keys a same h =
        let (encoded, encodes, found) = >>=-eq-ok (encode_index_value rt value) _ h in
        let bucket = members (OverlayMap.get i.buckets encoded) in
        rw
          (
            ← ok-injective found,
            sort-eq-keep (OverlayMap.get c.positions) (ranks_after c.positions) c.next_position
                (λ x y n m p q. rw (p, q) refl) c.order bucket valid.ranked (a.sets encoded)
                (λ k g. in_order i k encoded a g),
          )
          (left_out (contains bucket)
            λ k d stored m. in_bucket i k encoded d a same encodes stored m)

    keyed_document :
        (k : Text) (d : Document)
        → same_path path (name c.schema.primary_key ∷ []) ≡ true
        → OverlayMap.get c.records k ≡ some d
        → same_primitive (read_path (some (object d)) path) value ≡ true
        → encode_any rt value ≡ ok k
    unfolding document_key read_path read_token
    keyed_document k d same stored m =
        let keyed = rw stored at (valid.keyed k) in
        let (p, e1, h1) = >>=-eq-ok (document_key rt d c.schema.primary_key) _ keyed in
        let (q, e2, h2) = >>=-eq-ok (key_of_value rt (own d c.schema.primary_key)) _ e1 in
        let (s, e3, h3) = >>=-eq-ok (encode_key rt q) _ h2 in
        match-encode_any rt (own d c.schema.primary_key) value p k (rw (← ok-injective h3) e2) h1
          (rw (same_path-read (some (object d)) path (name c.schema.primary_key ∷ []) same) at m)

    missing :
        (key : Text)
        → contains c.order key ≡ present (OverlayMap.get c.records key)
        → contains c.order key ≡ false
        → select c.records matches (key ∷ []) ≡ []
    unfolding select
    missing key o absent = ground arith

    -- The keys that are `key`.
    select-single :
        (key : Text)
        → select c.records matches (key ∷ [])
          ≡ select c.records matches (keep (λ k. key == k) c.order)
    unfolding contains select
    select-single key = elim (Bool-cases (contains c.order key)) [
      | inl there ↦
          let (n, p, h) =
            Ranked-bound (OverlayMap.get c.positions) 0 c.next_position c.order key valid.ranked
              there in
          ap (select c.records matches) (
            Ranked-unique (OverlayMap.get c.positions) 0 0 c.next_position c.next_position
              (key ∷ []) (keep (λ k. key == k) c.order) (n, p, omega arith, h)
              (keep-Ranked (OverlayMap.get c.positions) 0 c.next_position (λ k. key == k) c.order
                valid.ranked)
              (λ k. rw contains-keep (ground (arith, ==_iff key k))))
      | inr absent ↦
          rw (keep_none (λ k. key == k) c.order (λ k g. ground (arith, ==_iff key k)))
            (missing key (valid.ordered key) absent)
    ]

    primary_finds :
        (keys : List Text)
        → same_path path (name c.schema.primary_key ∷ []) ≡ true
        → candidate_keys rt c (primary value) ≡ ok keys
        → select c.records matches keys ≡ select c.records matches c.order
    unfolding candidate_keys
    primary_finds keys same h = elim (Result-cases (encode_any rt value)) [
      | inl (key, encodes) ↦ rw (← ok-injective (rw (encodes, candidate_keys) at h)) (
          select-single key
          ∙ left_out (λ k. key == k)
              λ k d stored m.
                (==_iff key k).1 (ok-injective (sym encodes ∙ keyed_document k d same stored m)))
      | inr (e, fails) ↦ rw (← ok-injective (rw (fails, candidate_keys) at h)) (
          ap (select c.records matches) (sym (keep_none (λ k. false) c.order (λ k g. refl)))
          ∙ left_out (λ k. false)
              (λ k d stored m. absurd (ground (arith, keyed_document k d same stored m))))
    ]

-- All plans of a condition.
module _ (rt : Runtime) (c : Contents) (valid : IsValid rt c) where
  index_plan_finds :
      (indexes : Indexes) (path : PropertyPath) (value : Primitive) (keys : List Text)
      → AllAgree rt (OverlayMap.get c.records) indexes
      → candidate_keys rt c (index_plan indexes path value) ≡ ok keys
      → select c.records (test rt (comparison eq path value)) keys
        ≡ select c.records (test rt (comparison eq path value)) c.order
  unfolding index_plan candidate_keys
  index_plan_finds [] path value keys a h = rw (← ok-injective h) refl
  index_plan_finds ((n, i) ∷ indexes) path value keys a h =
      elim (Bool-cases (same_path path i.path)) [
        | inl same ↦ secondary_finds rt c valid path value i keys a.0 same (rw same at h)
        | inr other ↦ index_plan_finds indexes path value keys a.1 (rw other at h)
      ]

  -- On a valid collection, the candidates that the chosen plan finds, by primary key, by a
  -- secondary index or by a scan, hold the same matching documents, in the same order, as
  -- the whole collection.
  pub choose_plan-select :
      (condition : Where) (keys : List Text)
      → candidate_keys rt c (choose_plan c condition) ≡ ok keys
      → select c.records (test rt condition) keys ≡ select c.records (test rt condition) c.order
  unfolding choose_plan candidate_keys
  choose_plan-select (comparison eq path value) keys h =
      elim (Bool-cases (same_path path (name c.schema.primary_key ∷ []))) [
        | inl same ↦ primary_finds rt c valid path value keys same (rw same at h)
        | inr other ↦ index_plan_finds c.indexes path value keys valid.indexed (rw other at h)
      ]
  choose_plan-select condition keys h = rw (← ok-injective h) refl
