-- ===== src/Transaction/Notes.antt =====
-- The revisions that a transaction notes of the collections that it touches.
use newtondb.Collection.{StoredCollection}
use newtondb.Errors.{Result, ok, err, Result-cases}
use newtondb.Exec.{Ends, continue, pure}
use newtondb.NativeMap
use newtondb.Prelude.{
  ℕ, ◌≡◌, ◌==◌, ==_iff, refl, sym, ◌∙◌, ◌+◌, ltb, true, Option, none, some, length, leb,
  if◌then◌else◌, inl, inr, Bool-cases, nat_eq, list_eq,
}
use newtondb.Text.{Text}
use newtondb.Transaction.{
  Transaction, Collections, touch_collection, assert_active, assert_within_limits, require_status,
  note_revision, stored,
}

-- The revision of the first touch.
abbrev pub first_noted : Option ℕ → ℕ → ℕ
first_noted none revision = revision
first_noted (some base) revision = base

-- The transaction with the note, and nothing else changed.
pub record Noted (name : Text) (t : Transaction) (c : StoredCollection) (t' : Transaction)
    : Type 0 where
  pub same : t' ≡ record t { base_revisions = t'.base_revisions }
  pub notes :
      (n : Text)
      → NativeMap.get t'.base_revisions n ≡ (
          if name == n
          then some (first_noted (NativeMap.get t.base_revisions name) c.revision)
          else NativeMap.get t.base_revisions n)

noted_already :
    (o : Option ℕ) (revision : ℕ) → NativeMap.present o ≡ true → o ≡ some (first_noted o revision)
noted_already none revision h = cc
noted_already (some b) revision h = refl

note_revision-Ends :
    (name : Text) (c : StoredCollection) (t : Transaction)
    → Ends
        (λ _ t'. Noted name t c t')
        (λ e t'. t' ≡ t)
        (note_revision name c t).0
        (note_revision name c t).1
unfolding note_revision
note_revision-Ends name c t = elim (Bool-cases (NativeMap.has t.base_revisions name)) [
  | inl old ↦
      rw (old, note_revision)
        (record {
          same = refl;
          notes = λ n. elim (Bool-cases (name == n)) [
            | inl e ↦
                rw (e, ← (==_iff name n).0 e)
                  (noted_already (NativeMap.get t.base_revisions name) c.revision
                    (sym (NativeMap.has-get t.base_revisions name) ∙ old))
            | inr d ↦ rw d refl
          ];
        })
  | inr new ↦ elim (Bool-cases (leb t.limits.max_read_collections (length t.base_revisions))) [
    | inl full ↦ rw (new, full, note_revision) refl
    | inr room ↦
        rw (new, room, note_revision)
          (record {
            same = refl;
            notes = λ n.
                rw
                  (
                    NativeMap.get-set name n c.revision t.base_revisions,
                    NativeMap.get_of_absent t.base_revisions name new,
                  )
                  refl;
          })
  ]
]

-- A touch of a collection that throws leaves the transaction as it was; one that returns gives
-- the stored collection and changes nothing but the note of its revision, which is kept if
-- there is one, and is the stored revision otherwise.
pub touch_collection-Ends :
    (collections : Collections) (now : ℕ) (name : Text) (t : Transaction)
    → Ends
        (λ c t'. (stored collections name ≡ ok c) × Noted name t c t')
        (λ e t'. t' ≡ t)
        (touch_collection collections now name t).0
        (touch_collection collections now name t).1
unfolding touch_collection assert_active assert_within_limits
touch_collection-Ends collections now name t = elim (Result-cases (require_status t.status)) [
  | inr (e, inactive) ↦ rw inactive refl
  | inl (u, is_active) ↦ elim (Bool-cases (ltb (t.created_at + t.limits.max_age_ms) now)) [
    | inl old ↦ rw (is_active, old) refl
    | inr young ↦ elim (Result-cases (stored collections name)) [
      | inr (e, unknown) ↦ rw (is_active, young, unknown) refl
      | inl (c, found) ↦
          rw (is_active, young, found)
            (with_collection c (note_revision name c t).0 (note_revision name c t).1
              (note_revision-Ends name c t))
    ]
  ]
]
  where
    with_collection :
        (c : StoredCollection) (r : Result (Unit {0})) (t' : Transaction)
        → Ends (λ _ t''. Noted name t c t'') (λ e t''. t'' ≡ t) r t'
        → Ends
            (λ d t''. (ok c ≡ ok d) × Noted name t d t'')
            (λ e t''. t'' ≡ t)
            (continue (λ _. pure c) r t').0
            (continue (λ _. pure c) r t').1
    with_collection c (ok u) t' h = (refl, h)
    with_collection c (err e) t' h = h
