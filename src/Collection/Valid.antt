-- ===== src/Collection/Valid.antt =====
-- The invariant of a collection: records, order, positions and indexes tell the same story.
use newtondb.Collection.{Contents, splice_out}
use newtondb.Errors.{ok, ◌>>=◌}
use newtondb.Index.Agrees.{AllAgree}
use newtondb.Index.Total.{AllWritable}
use newtondb.Json.{Document}
use newtondb.Key.{document_key, encode_key}
use newtondb.NativeMap.{present}
use newtondb.OverlayMap
use newtondb.OverlayMap.Laws.{IsCoherent}
use newtondb.OverlayMap.Writable.{IsWritable}
use newtondb.Prelude.{
  ℕ, suc, ◌+◌, ◌≤◌, ◌≡◌, true, false, Option, none, some, List, [], ◌∷◌, ◌++◌, ◌==◌, ==_iff,
  ==_refl, nat_eq, list_eq, contains, if◌then◌else◌, arith, inl, inr, Bool-cases,
}
use newtondb.Runtime.{Runtime}
use newtondb.Text.{Text}

-- The positions of the keys rise strictly along the order, from `low` up to `high`.
abbrev pub Ranked : (Text → Option ℕ) → ℕ → List Text → ℕ → Type 0
Ranked position low [] high = low ≤ high
Ranked position low (k ∷ order) high =
    (n : ℕ) × (position k ≡ some n) × (low ≤ n) × Ranked position (suc n) order high

-- A record stands under the encoding of its own primary key.
abbrev pub IsKeyed : Runtime → Text → Option Document → Text → Type 0
IsKeyed rt primary_key none key = Unit
IsKeyed rt primary_key (some d) key =
    (do k ← document_key rt d primary_key; encode_key rt k) ≡ ok key

pub record IsValid (rt : Runtime) (c : Contents) : Type 0 where
  pub indexed : AllAgree rt (OverlayMap.get c.records) c.indexes
  pub ranked : Ranked (OverlayMap.get c.positions) 0 c.order c.next_position
  pub ordered : (k : Text) → contains c.order k ≡ present (OverlayMap.get c.records k)
  pub positioned : (k : Text) → contains c.order k ≡ present (OverlayMap.get c.positions k)
  pub keyed : (k : Text) → IsKeyed rt c.schema.primary_key (OverlayMap.get c.records k) k
  pub records_coherent : IsCoherent c.records
  pub positions_coherent : IsCoherent c.positions

-- No map of a working collection is sealed.
pub record IsOpen (c : Contents) : Type 0 where
  pub indexes : AllWritable c.indexes
  pub positions : IsWritable c.positions
  pub records : IsWritable c.records

pub Ranked-above :
    (position : Text → Option ℕ) (low high : ℕ) (order : List Text) (k : Text)
    → Ranked position low order high
    → contains order k ≡ true
    → (n : ℕ) × (position k ≡ some n) × (low ≤ n)
unfolding contains
Ranked-above position low high [] k r h = cc
Ranked-above position low high (j ∷ order) k (n, p, l, rest) h = elim (Bool-cases (j == k)) [
  | inl e ↦ (n, rw (← (==_iff j k).0 e) p, l)
  | inr d ↦
      let (m, q, g) = Ranked-above position (suc n) high order k rest (ground arith) in
      (m, q, omega arith)
]

-- A key that is appended with the next position keeps the order ranked.
pub Ranked-append :
    (position position' : Text → Option ℕ) (low high : ℕ) (order : List Text) (k : Text)
    → Ranked position low order high
    → contains order k ≡ false
    → ((j : Text) → position' j ≡ (if k == j then some high else position j))
    → Ranked position' low (order ++ k ∷ []) (high + 1)
unfolding contains
Ranked-append position position' low high [] k r h p =
    (high, ground (arith, p k, ==_refl k), r, omega arith)
Ranked-append position position' low high (j ∷ order) k (n, q, l, rest) h p = (
  n,
  ground (arith, p j, ==_iff k j, ==_refl j),
  l,
  Ranked-append position position' (suc n) high order k rest (ground arith) p,
)

Ranked-ignore :
    (position position' : Text → Option ℕ) (low high : ℕ) (order : List Text) (k : Text)
    → Ranked position low order high
    → contains order k ≡ false
    → ((j : Text) → position' j ≡ (if k == j then none else position j))
    → Ranked position' low order high
unfolding contains
Ranked-ignore position position' low high [] k r h p = r
Ranked-ignore position position' low high (j ∷ order) k (n, q, l, rest) h p = (
  n,
  ground (arith, p j, ==_iff k j, ==_refl j),
  l,
  Ranked-ignore position position' (suc n) high order k rest (ground arith) p,
)

pub Ranked-lower :
    (position : Text → Option ℕ) (low low' high : ℕ) (order : List Text)
    → low' ≤ low
    → Ranked position low order high
    → Ranked position low' order high
Ranked-lower position low low' high [] h r = omega arith
Ranked-lower position low low' high (k ∷ order) h (n, q, l, rest) = (n, q, omega arith, rest)

-- In a ranked order a key stands once.
pub Ranked-fresh :
    (position : Text → Option ℕ) (n high : ℕ) (order : List Text) (k : Text)
    → position k ≡ some n
    → Ranked position (suc n) order high
    → contains order k ≡ false
Ranked-fresh position n high order k q r = elim (Bool-cases (contains order k)) [
  | inl there ↦
      let (m, p, l) = Ranked-above position (suc n) high order k r there in absurd (ground arith)
  | inr out ↦ out
]

-- Splicing a key out of a ranked order keeps it ranked.
pub Ranked-splice_out :
    (position position' : Text → Option ℕ) (low high : ℕ) (order : List Text) (k : Text)
    → Ranked position low order high
    → ((j : Text) → position' j ≡ (if k == j then none else position j))
    → Ranked position' low (splice_out k order) high
unfolding splice_out
Ranked-splice_out position position' low high [] k r p = r
Ranked-splice_out position position' low high (j ∷ order) k (n, q, l, rest) p =
    elim (Bool-cases (j == k)) [
      | inl e ↦
          rw (e, splice_out)
            (Ranked-lower position' (suc n) low high order (omega arith) (
              Ranked-ignore position position' (suc n) high order k rest
                (rw (← (==_iff j k).0 e) (Ranked-fresh position n high order j q rest)) p))
      | inr d ↦
          rw (d, splice_out)
            (
              n,
              ground (arith, p j, ==_iff k j, ==_iff j k),
              l,
              Ranked-splice_out position position' (suc n) high order k rest p,
            )
    ]

-- And removes it, and no other key.
pub contains-splice_out :
    (position : Text → Option ℕ) (low high : ℕ) (order : List Text) (k j : Text)
    → Ranked position low order high
    → contains (splice_out k order) j ≡ (if k == j then false else contains order j)
unfolding splice_out contains
contains-splice_out position low high [] k j r = ground arith
contains-splice_out position low high (i ∷ order) k j (n, q, l, rest) = ground (
  arith,
  contains-splice_out position (suc n) high order k j rest,
  Ranked-fresh position n high order i q rest,
  ==_iff i k,
  ==_iff i j,
  ==_iff k j,
)
