-- ===== src/Storage/Reopen.antt =====
-- A snapshot of a collection, and the collection that is created from it.
use mathlib.Core.Path.{subst}
use newtondb.Collection.{Contents, StoredCollection}
use newtondb.Collection.Create.{add_seed, add_seeds, create_stored_collection}
use newtondb.Collection.Valid.{IsValid, IsKeyed}
use newtondb.Errors.{PrimaryKey, ok, err, duplicate_key, ok-injective, >>=-eq-ok}
use newtondb.Index.{Indexes, add_to_indexes, create_indexes}
use newtondb.Json.{Document}
use newtondb.Key.{document_key, encode_key}
use newtondb.NativeMap
use newtondb.NativeMap.{present}
use newtondb.OverlayMap
use newtondb.OverlayMap.{MapLike, native}
use newtondb.OverlayMap.Laws
use newtondb.Prelude.{
  ℕ, ◌+◌, ◌≡◌, refl, sym, ap, ◌∙◌, true, some, List, [], ◌∷◌, ◌++◌, ◌==◌, map, length, contains,
  if◌then◌else◌, nat_eq, list_eq, inl, inr, Bool-cases, Option-cases, arith, ==_iff, ==_refl,
}
use newtondb.Runtime.{Runtime}
use newtondb.Storage.Envelope.{as_input, ordered_documents, clone_snapshot_collections}
use newtondb.NativeMap.{Entries}
use newtondb.Transaction.{Collections}
use newtondb.Transaction.Sound.{AllStored}
use newtondb.Text.{Text}
use newtondb.Validation.{validate_document}
use newtondb.Validation.Inserted.{validated-eq}

ordered_documents_cons :
    (records : MapLike Text Document) (key : Text) (order : List Text) (d : Document)
    (documents : List Document)
    → OverlayMap.get records key ≡ some d
    → ordered_documents records order ≡ ok documents
    → ordered_documents records (key ∷ order) ≡ ok (d ∷ documents)
unfolding ordered_documents
ordered_documents_cons records key order d documents found rest =
    rw (found, ordered_documents, rest) refl

-- Every key of the order has a record, so the snapshot is taken.
ordered_documents_total :
    (records : MapLike Text Document) (order : List Text)
    → ((k : Text) → contains order k ≡ true → present (OverlayMap.get records k) ≡ true)
    → (documents : List Document) × (ordered_documents records order ≡ ok documents)
unfolding contains
ordered_documents_total records [] h = ([], unfold ordered_documents in refl)
ordered_documents_total records (key ∷ order) h =
    let (documents, rest) = ordered_documents_total records order (λ k g. h k (ground arith)) in
    elim (Option-cases (OverlayMap.get records key)) [
      | inl missing ↦ absurd (ground (arith, h key, ==_refl key))
      | inr (d, found) ↦
          (d ∷ documents, ordered_documents_cons records key order d documents found rest)
    ]

ordered_documents-inv :
    (records : MapLike Text Document) (key : Text) (order : List Text) (documents : List Document)
    → ordered_documents records (key ∷ order) ≡ ok documents
    → (d : Document) × (ds : List Document) × (OverlayMap.get records key ≡ some d)
      × (ordered_documents records order ≡ ok ds)
      × (documents ≡ d ∷ ds)
unfolding ordered_documents
ordered_documents-inv records key order documents h =
    elim (Option-cases (OverlayMap.get records key)) [
      | inl missing ↦ absurd (ground arith)
      | inr (d, found) ↦
          let (ds, rest, last) =
            >>=-eq-ok (ordered_documents records order) _ (rw (found, ordered_documents) at h) in
          (d, ds, found, rest, sym (ok-injective last))
    ]

module _ (rt : Runtime) (name : Text) where
  own_key :
      (primary_key key encoded : Text) (d : Document) (k : PrimaryKey)
      → IsKeyed rt primary_key (some d) key
      → document_key rt d primary_key ≡ ok k
      → encode_key rt k ≡ ok encoded
      → encoded ≡ key
  own_key primary_key key encoded d k keyed e2 e3 = ok-injective (sym e3 ∙ (rw e2 at keyed))

  -- One document of the snapshot.
  record Again (c : Contents) (key : Text) (d : Document) (c' : Contents) : Type 0 where
    schema : c'.schema ≡ c.schema
    order : c'.order ≡ c.order ++ key ∷ []
    records :
        (j : Text)
        → OverlayMap.get c'.records j ≡ (if key == j then some d else OverlayMap.get c.records j)

  add_seed-Again :
      (c c' : Contents) (key : Text) (d : Document)
      → IsKeyed rt c.schema.primary_key (some d) key
      → add_seed rt name c (as_input d) ≡ ok c'
      → Again c key d c'
  unfolding add_seed
  add_seed-Again c c' key d keyed h =
      let (d1, e1, h1) = >>=-eq-ok (validate_document rt name c.schema (as_input d)) _ h in
      let (k, e2, h2) = >>=-eq-ok (document_key rt d1 c.schema.primary_key) _ h1 in
      let (encoded, e3, h3) = >>=-eq-ok (encode_key rt k) _ h2 in
      let (u, e4, h4) =
        >>=-eq-ok
          (if OverlayMap.has c.records encoded then err (duplicate_key name k) else ok (tt {0})) _
          h3 in
      let (records, e5, h5) = >>=-eq-ok (OverlayMap.set encoded d1 c.records) _ h4 in
      let (positions, e6, h6) =
        >>=-eq-ok (OverlayMap.set encoded (length c.order) c.positions) _ h5 in
      let (indexes, e7, h7) = >>=-eq-ok (add_to_indexes rt name c.indexes encoded d1) _ h6 in
      stored c c' key encoded d d1 records positions indexes (validated-eq rt name c.schema d d1 e1)
        (own_key c.schema.primary_key key encoded d1 k
          (subst (λ x. IsKeyed rt c.schema.primary_key (some x) key)
            (sym (validated-eq rt name c.schema d d1 e1)) keyed)
          e2 e3)
        e5 (ok-injective h7)
    where
      stored :
          (c c' : Contents) (key encoded : Text) (d d1 : Document) (records : MapLike Text Document)
          (positions : MapLike Text ℕ) (indexes : Indexes)
          → d1 ≡ d
          → encoded ≡ key
          → OverlayMap.set encoded d1 c.records ≡ ok records
          → record c {
            indexes = indexes;
            next_position = length c.order + 1;
            order = c.order ++ encoded ∷ [];
            positions = positions;
            records = records;
          }
            ≡ c'
          → Again c key d c'
      stored c c' key encoded d d1 records positions indexes same own e5 final =
          subst (Again c key d) final (record {
            schema = refl;
            order = ap (λ x. c.order ++ x ∷ []) own;
            records = λ j. newtondb.OverlayMap.Laws.get-set c.records key j d (
                subst (λ x. OverlayMap.set x d c.records ≡ ok records) own
                  (subst (λ x. OverlayMap.set encoded x c.records ≡ ok records) same e5));
          })

  append_nil : (xs : List Text) → xs ++ [] ≡ xs
  append_nil [] = refl
  append_nil (x ∷ xs) = ap (λ l. x ∷ l) (append_nil xs)

  append_assoc : (xs ys : List Text) (y : Text) → (xs ++ y ∷ []) ++ ys ≡ xs ++ y ∷ ys
  append_assoc [] ys y = refl
  append_assoc (x ∷ xs) ys y = ap (λ l. x ∷ l) (append_assoc xs ys y)

  merged :
      (records : MapLike Text Document) (key : Text) (order : List Text)
      (base : MapLike Text Document) (d : Document)
      → OverlayMap.get records key ≡ some d
      → (j : Text)
      → (if contains order j
          then OverlayMap.get records j
          else if key == j
          then some d
          else OverlayMap.get base j)
        ≡ (if contains (key ∷ order) j then OverlayMap.get records j else OverlayMap.get base j)
  unfolding contains
  merged records key order base d found j = elim (Bool-cases (key == j)) [
    | inl e ↦ rw (e, contains) (rw (← (==_iff key j).0 e) (ground (arith, found)))
    | inr e ↦ rw (e, contains) refl
  ]

  all_found :
      (records : MapLike Text Document) (order : List Text) (j : Text)
      → contains order j ≡ present (OverlayMap.get records j)
      → (if contains order j then OverlayMap.get records j else OverlayMap.get (native []) j)
        ≡ OverlayMap.get records j
  unfolding OverlayMap.get NativeMap.get
  all_found records order j h = elim (Option-cases (OverlayMap.get records j)) [
    | inl e ↦ rw (h, e) refl
    | inr (d, e) ↦ rw (h, e) refl
  ]

  -- The documents of the keys, one after the other.
  add_seeds-again :
      (records : MapLike Text Document) (order : List Text) (documents : List Document)
      (c c' : Contents)
      → ordered_documents records order ≡ ok documents
      → ((k : Text) → IsKeyed rt c.schema.primary_key (OverlayMap.get records k) k)
      → add_seeds rt name c (map as_input documents) ≡ ok c'
      → (c'.order ≡ c.order ++ order)
        × ((j : Text)
            → OverlayMap.get c'.records j
              ≡ (if contains order j then OverlayMap.get records j else OverlayMap.get c.records j))
  unfolding ordered_documents add_seeds contains
  add_seeds-again records [] documents c c' taken keyed h =
      let none_left = ok-injective taken in
      let same = ok-injective (rw (← none_left) at h) in
      rw (← same) (sym (append_nil c.order), λ j. refl)
  add_seeds-again records (key ∷ order) documents c c' taken keyed h =
      let (d, ds, found, others, all) = ordered_documents-inv records key order documents taken in
      let (c1, first, rest) = >>=-eq-ok (add_seed rt name c (as_input d)) _ (rw all at h) in
      let step = add_seed-Again c c1 key d (rw found at (keyed key)) first in
      let (ordered, recorded) =
        add_seeds-again records order ds c1 c' others (λ k. rw step.schema (keyed k)) rest in
      (
        ordered ∙ ap (λ l. l ++ order) step.order ∙ append_assoc c.order order key,
        λ j. rw (recorded j, step.records j) (merged records key order c.records d found j),
      )

  -- A collection that is created from the documents that a snapshot takes of a valid
  -- collection, with its schema, has its order and its records.
  pub reopen :
      (c : Contents) (documents : List Document) (revision : ℕ) (c' : StoredCollection)
      → IsValid rt c
      → ordered_documents c.records c.order ≡ ok documents
      → create_stored_collection rt name (map as_input documents) c.schema revision ≡ ok c'
      → (c'.contents.order ≡ c.order)
        × ((j : Text) → OverlayMap.get c'.contents.records j ≡ OverlayMap.get c.records j)
  unfolding create_stored_collection
  reopen c documents revision c' valid taken h =
      let (indexes, e1, h1) = >>=-eq-ok (create_indexes c.schema) _ h in
      let (contents, e2, h2) = >>=-eq-ok (add_seeds rt name _ (map as_input documents)) _ h1 in
      let (order, records) =
        add_seeds-again c.records c.order documents _ contents taken valid.keyed e2 in
      rw (← ok-injective h2)
        (order, λ j. rw (records j) (all_found c.records c.order j (valid.ordered j)))

-- If every stored collection is valid, the documents of a snapshot are taken of all of them, and
-- the check that a key of an order has a record never throws.
pub clone_snapshot_collections_total :
    (rt : Runtime) (collections : Collections)
    → AllStored rt collections
    → (entries : Entries Text (List Document)) × (clone_snapshot_collections collections
        ≡ ok entries)
      × (map (λ (p : Text × List Document). p.0) entries
          ≡ map (λ (p : Text × StoredCollection). p.0) collections)
unfolding clone_snapshot_collections
clone_snapshot_collections_total rt [] a = ([], refl, refl)
clone_snapshot_collections_total rt ((name, c) ∷ collections) a =
    let (entries, rest, names) = clone_snapshot_collections_total rt collections a.1 in
    let (documents, first) =
      ordered_documents_total c.contents.records c.contents.order
        (λ k h. sym (a.0.ordered k) ∙ h) in
    ((name, documents) ∷ entries, rw (first, rest) refl, ap (λ l. name ∷ l) names)
