-- ===== src/Index/Agrees.antt =====
-- The invariant of an index: it files a key under a value exactly when the key's document has that
-- value at the index's path.
use newtondb.Errors.{Result, ok, err}
use newtondb.Index.{SecondaryIndexState, Indexes, members, index_value}
use newtondb.Index.Buckets.{files, Edited, non_empty}
use newtondb.Json.{Document}
use newtondb.OverlayMap
use newtondb.OverlayMap.Laws.{IsCoherent}
use newtondb.Path.{PropertyPath}
use newtondb.Prelude.{
  ◌≡◌, ◌≢◌, refl, Bool, true, false, Option, none, some, List, [], ◌∷◌, ◌==◌, ==_iff, ==_refl,
  nat_eq, list_eq, contains, insert, discard, contains-insert, contains-discard, IsDistinct,
  insert-IsDistinct, discard-IsDistinct, if◌then◌else◌, arith,
}
use newtondb.Runtime.{Runtime}
use newtondb.Text.{Text}

insert-ne : (k : Text) (b : List Text) → insert k b ≢ []
unfolding insert
insert-ne k [] h = cc
insert-ne k (x ∷ b) h = ground arith

members-non_empty : (b : List Text) → members (non_empty b) ≡ b
members-non_empty [] = refl
members-non_empty (x ∷ b) = ground arith

written-IsDistinct :
    (t : Bool) (b : List Text) (o : Option (List Text))
    → IsDistinct (members o)
    → IsDistinct b
    → IsDistinct (members (if t then some b else o))
written-IsDistinct true b o h g = g
written-IsDistinct false b o h g = h

kept-IsDistinct :
    (t : Bool) (b : List Text) (o : Option (List Text))
    → IsDistinct (members o)
    → IsDistinct b
    → IsDistinct (members (if t then non_empty b else o))
kept-IsDistinct true [] o h g = tt
kept-IsDistinct true (x ∷ b) o h g = ground (arith, g)
kept-IsDistinct false b o h g = h

-- The documents of a collection by encoded key.
abbrev pub Records : Type 0
Records = Text → Option Document

abbrev pub with_record : Text → Option Document → Records → Records
with_record k d records j = if k == j then d else records j

abbrev pub IsOk : Result (Option Text) → Type 0
IsOk (ok x) = Unit
IsOk (err x) = ⊥

module _ (rt : Runtime) where
  abbrev pub has_value : Result (Option Text) → Text → Bool
  has_value (ok (some t)) e = t == e
  has_value _ e = false

  abbrev pub filed : PropertyPath → Option Document → Text → Bool
  filed path none e = false
  filed path (some d) e = has_value (index_value rt path d) e

  abbrev pub IsIndexable : PropertyPath → Option Document → Type 0
  IsIndexable path none = Unit
  IsIndexable path (some d) = IsOk (index_value rt path d)

  pub record Agrees (records : Records) (index : SecondaryIndexState) : Type 0 where
    pub agrees : (e k : Text) → files index e k ≡ filed index.path (records k) e
    pub non_empty_buckets : (e : Text) → OverlayMap.get index.buckets e ≢ some []
    pub sets : (e : Text) → IsDistinct (members (OverlayMap.get index.buckets e))
    pub distinct :
        (e k j : Text)
        → index.unique ≡ true
        → files index e k ≡ true
        → files index e j ≡ true
        → k ≡ j
    pub coherent : IsCoherent index.buckets
    pub indexable : (k : Text) → IsIndexable index.path (records k)

  abbrev pub AllAgree : Records → Indexes → Type 0
  AllAgree records [] = Unit
  AllAgree records ((n, index) ∷ indexes) = Agrees records index × AllAgree records indexes

  module _ (key : Text) (document : Document) (records : Records)
      (index : SecondaryIndexState) where
    -- A document that has no value at the path.
    pub unfiled-Agrees :
        Agrees records index
        → records key ≡ none
        → index_value rt index.path document ≡ ok none
        → Agrees (with_record key (some document) records) index
    unfiled-Agrees a fresh value = record {
      agrees = λ e k. ground (arith, ==_iff key k, a.agrees e k);
      non_empty_buckets = a.non_empty_buckets;
      sets = a.sets;
      distinct = a.distinct;
      coherent = a.coherent;
      indexable = λ k. ground (arith, a.indexable k);
    }

    -- A document that is filed under `e`, where no other key stands in the way.
    pub filed-Agrees :
        (e : Text) (index' : SecondaryIndexState)
        → Agrees records index
        → records key ≡ none
        → index_value rt index.path document ≡ ok (some e)
        → (index.unique ≡ true → OverlayMap.get index.buckets e ≡ none)
        → Edited index e (some (insert key (members (OverlayMap.get index.buckets e)))) index'
        → Agrees (with_record key (some document) records) index'
    unfolding files contains insert
    filed-Agrees e index' a fresh value room edited = record {
      agrees = λ e' k.
          rw (edited.get, edited.path)
            (ground (
              arith,
              ==_iff key k,
              ==_iff e e',
              a.agrees e' k,
              contains-insert key k (members (OverlayMap.get index.buckets e)),
            ));
      non_empty_buckets = λ e' h. ground (
        arith,
        edited.get e',
        a.non_empty_buckets e',
        insert-ne key (members (OverlayMap.get index.buckets e)),
      );
      sets = λ e'. rw edited.get (
          written-IsDistinct (e == e') _ (OverlayMap.get index.buckets e') (a.sets e')
            (insert-IsDistinct key (members (OverlayMap.get index.buckets e)) (a.sets e)));
      distinct = λ e' k j u fk fj. ground (
        arith,
        edited.get e',
        room (rw (← edited.unique) u),
        ==_iff e e',
        ==_iff key k,
        ==_iff key j,
        a.distinct e' k j (rw (← edited.unique) u),
        contains-insert key k (members (OverlayMap.get index.buckets e)),
        contains-insert key j (members (OverlayMap.get index.buckets e)),
      );
      coherent = edited.coherent a.coherent;
      indexable = λ k. rw edited.path (ground (arith, a.indexable k));
    }

  module _ (key : Text) (document : Document) (records : Records)
      (index : SecondaryIndexState) where
    -- Removing a document that has no value at the path.
    pub unfiled_removed-Agrees :
        Agrees records index
        → records key ≡ some document
        → index_value rt index.path document ≡ ok none
        → Agrees (with_record key none records) index
    unfiled_removed-Agrees a old value = record {
      agrees = λ e k. ground (arith, ==_iff key k, a.agrees e k);
      non_empty_buckets = a.non_empty_buckets;
      sets = a.sets;
      distinct = a.distinct;
      coherent = a.coherent;
      indexable = λ k. ground (arith, a.indexable k);
    }

    -- Removing a document that is filed under `e`.
    pub removed-Agrees :
        (e : Text) (current : List Text) (index' : SecondaryIndexState)
        → Agrees records index
        → records key ≡ some document
        → index_value rt index.path document ≡ ok (some e)
        → OverlayMap.get index.buckets e ≡ some current
        → Edited index e (non_empty (discard key current)) index'
        → Agrees (with_record key none records) index'
    unfolding files contains
    removed-Agrees e current index' a old value bucket edited = record {
      agrees = λ e' k.
          rw (edited.get, edited.path)
            (ground (
              arith,
              ==_iff key k,
              ==_iff e e',
              ==_refl e,
              a.agrees e' k,
              a.agrees e k,
              contains-discard key k current,
              members-non_empty (discard key current),
            ));
      non_empty_buckets = λ e' h.
          ground
            (arith, edited.get e', a.non_empty_buckets e', members-non_empty (discard key current));
      sets = λ e'. rw edited.get (
          kept-IsDistinct (e == e') (discard key current) (OverlayMap.get index.buckets e')
            (a.sets e') (discard-IsDistinct key current (rw bucket at (a.sets e))));
      distinct = λ e' k j u fk fj. ground (
        arith,
        edited.get e',
        ==_iff e e',
        ==_iff key k,
        ==_iff key j,
        a.distinct e' k j (rw (← edited.unique) u),
        contains-discard key k current,
        contains-discard key j current,
        members-non_empty (discard key current),
      );
      coherent = edited.coherent a.coherent;
      indexable = λ k. rw edited.path (ground (arith, a.indexable k));
    }
