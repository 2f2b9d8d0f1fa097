-- ===== src/Index/Buckets.antt =====
-- Which keys an index files under which value, after one entry is added or removed.
use newtondb.Errors.{ok, ◌>>=◌, ok-injective, >>=-eq-ok}
use newtondb.Index.{SecondaryIndexState, members, apply_addition, shrink_bucket}
use newtondb.OverlayMap
use newtondb.OverlayMap.Laws
use newtondb.OverlayMap.Laws.{IsCoherent}
use newtondb.Prelude.{
  ◌≡◌, refl, Bool, Option, none, some, List, ◌==◌, nat_eq, list_eq, contains, insert, discard,
  if◌then◌else◌, inl, inr, length, nat_beq, Bool-cases,
}
use newtondb.Text.{Text}

-- Whether the index files the key under the value.
unfoldable pub files : SecondaryIndexState → Text → Text → Bool
files index encoded key = contains (members (OverlayMap.get index.buckets encoded)) key

-- An index in which the bucket of one value is replaced, or dropped, and nothing else.
pub record Edited (index : SecondaryIndexState) (encoded : Text) (bucket : Option (List Text))
    (index' : SecondaryIndexState) : Type 0 where
  pub path : index'.path ≡ index.path
  pub unique : index'.unique ≡ index.unique
  pub coherent : IsCoherent index.buckets → IsCoherent index'.buckets
  pub get :
      (e : Text)
      → OverlayMap.get index'.buckets e
        ≡ (if encoded == e then bucket else OverlayMap.get index.buckets e)

abbrev pub non_empty : List Text → Option (List Text)
non_empty b = if nat_beq (length b) 0 then none else some b

module _ (index : SecondaryIndexState) (primary_key encoded : Text)
    {index' : SecondaryIndexState} where
  written :
      (b : List Text)
      → (do m ← OverlayMap.set encoded b index.buckets; ok (record index { buckets = m }))
        ≡ ok index'
      → Edited index encoded (some b) index'
  written b h =
      let (m, done, same) = >>=-eq-ok (OverlayMap.set encoded b index.buckets) _ h in
      rw (← ok-injective same) (record {
        path = refl;
        unique = refl;
        coherent = λ c. Laws.set-IsCoherent index.buckets encoded b c done;
        get = λ e. Laws.get-set index.buckets encoded e b done;
      })

  dropped :
      (do m ← OverlayMap.delete encoded index.buckets; ok (record index { buckets = m }))
        ≡ ok index'
      → Edited index encoded none index'
  dropped h =
      let (m, done, same) = >>=-eq-ok (OverlayMap.delete encoded index.buckets) _ h in
      rw (← ok-injective same) (record {
        path = refl;
        unique = refl;
        coherent = λ c. Laws.delete-IsCoherent index.buckets encoded c done;
        get = λ e. Laws.get-delete index.buckets encoded e done;
      })

  pub apply_addition-Edited :
      apply_addition index primary_key (some encoded) ≡ ok index'
      → Edited index encoded
          (some (insert primary_key (members (OverlayMap.get index.buckets encoded))))
          index'
  unfolding apply_addition
  apply_addition-Edited h = written _ h

  pub shrink_bucket-Edited :
      (current : List Text)
      → shrink_bucket index primary_key encoded current ≡ ok index'
      → Edited index encoded (non_empty (discard primary_key current)) index'
  unfolding shrink_bucket
  shrink_bucket-Edited current h =
      elim (Bool-cases (nat_beq (length (discard primary_key current)) 0)) [
        | inl empty ↦ rw empty (dropped (rw empty at h))
        | inr full ↦ rw full (written _ (rw full at h))
      ]
