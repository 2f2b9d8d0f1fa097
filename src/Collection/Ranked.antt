-- ===== src/Collection/Ranked.antt =====
-- Lists of keys in the order of their positions.
use newtondb.Collection.Valid.{Ranked, Ranked-lower, Ranked-above, Ranked-fresh}
use newtondb.Database.Order.{place, sort}
use newtondb.Prelude.{
  ℕ, suc, ◌≤◌, ◌<◌, ◌≡◌, ◌≢◌, refl, sym, ap, Bool, true, ◌&&◌, Option, some, List, [], ◌∷◌, ◌==◌,
  ==_iff, ==_refl, nat_eq, list_eq, contains, keep, IsDistinct, if◌then◌else◌, arith, inl, inr,
  Bool-cases, ltb, ◌∙◌,
}
use newtondb.Text.{Text}

pub contains-keep :
    (q : Text → Bool) (l : List Text) (k : Text) → contains (keep q l) k ≡ (contains l k && q k)
unfolding contains keep
contains-keep q [] k = refl
contains-keep q (j ∷ l) k = ground (arith, contains-keep q l k, ==_iff j k)

module _ (position : Text → Option ℕ) where
  Ranked-below : (low high : ℕ) (l : List Text) → Ranked position low l high → low ≤ high
  Ranked-below low high [] r = r
  Ranked-below low high (k ∷ l) (n, p, h, rest) = omega (arith, Ranked-below (suc n) high l rest)

  -- A key of the list has a position below the upper end.
  pub Ranked-bound :
      (low high : ℕ) (l : List Text) (k : Text)
      → Ranked position low l high
      → contains l k ≡ true
      → (n : ℕ) × (position k ≡ some n) × (n < high)
  unfolding contains
  Ranked-bound low high [] k r h = cc
  Ranked-bound low high (j ∷ l) k (n, p, b, rest) h = elim (Bool-cases (j == k)) [
    | inl e ↦ (n, rw (← (==_iff j k).0 e) p, Ranked-below (suc n) high l rest)
    | inr d ↦ Ranked-bound (suc n) high l k rest (ground arith)
  ]

  -- Two keys of the list with one position are one key.
  pub Ranked-injective :
      (low high : ℕ) (l : List Text) (k j : Text)
      → Ranked position low l high
      → contains l k ≡ true
      → contains l j ≡ true
      → position k ≡ position j
      → k ≡ j
  unfolding contains
  Ranked-injective low high [] k j r hk hj p = cc
  Ranked-injective low high (i ∷ l) k j (n, q, b, rest) hk hj p = elim (Bool-cases (i == k)) [
    | inl ek ↦ elim (Bool-cases (i == j)) [
      | inl ej ↦ sym ((==_iff i k).0 ek) ∙ (==_iff i j).0 ej
      | inr dj ↦
          let (m, pm, g) = Ranked-above position (suc n) high l j rest (ground arith) in
          absurd (ground (arith, ==_iff i k))
    ]
    | inr dk ↦ elim (Bool-cases (i == j)) [
      | inl ej ↦
          let (m, pm, g) = Ranked-above position (suc n) high l k rest (ground arith) in
          absurd (ground (arith, ==_iff i j))
      | inr dj ↦ Ranked-injective (suc n) high l k j rest (ground arith) (ground arith) p
    ]
  ]

  pub keep-Ranked :
      (low high : ℕ) (q : Text → Bool) (l : List Text)
      → Ranked position low l high
      → Ranked position low (keep q l) high
  unfolding keep
  keep-Ranked low high q [] r = r
  keep-Ranked low high q (k ∷ l) (n, p, b, rest) = elim (Bool-cases (q k)) [
    | inl yes_k ↦ rw (yes_k, keep) (n, p, b, keep-Ranked (suc n) high q l rest)
    | inr no_k ↦
        rw (no_k, keep)
          (Ranked-lower position (suc n) low high (keep q l) (omega arith)
            (keep-Ranked (suc n) high q l rest))
  ]

  -- A ranked list is determined by its keys.
  pub Ranked-unique :
      (low low' high high' : ℕ) (l l' : List Text)
      → Ranked position low l high
      → Ranked position low' l' high'
      → ((k : Text) → contains l k ≡ contains l' k)
      → l ≡ l'
  unfolding contains
  Ranked-unique low low' high high' [] [] r r' same = refl
  Ranked-unique low low' high high' [] (y ∷ l') r r' same =
      absurd (ground (arith, same y, ==_refl y))
  Ranked-unique low low' high high' (x ∷ l) [] r r' same =
      absurd (ground (arith, same x, ==_refl x))
  Ranked-unique low low' high high' (x ∷ l) (y ∷ l') (n, p, b, rest) (m, q, c, rest') same =
      elim (Bool-cases (x == y)) [
        | inl e ↦
            let eq = (==_iff x y).0 e in
            rw eq (
              ap (◌∷◌ y) (
                Ranked-unique (suc n) (suc m) high high' l l' rest rest' (λ k. ground (
                  arith,
                  same k,
                  eq,
                  ==_iff x k,
                  ==_iff y k,
                  Ranked-fresh position n high l x p rest,
                  Ranked-fresh position m high' l' y q rest',
                ))))
        | inr d ↦
            let (i, pi, gi) =
              Ranked-above position (suc n) high l y rest (ground (arith, same y, ==_refl y)) in
            let (j, pj, gj) =
              Ranked-above position (suc m) high' l' x rest'
                (ground (arith, same x, ==_refl x, ==_iff x y, ==_iff y x)) in
            absurd (ground arith)
      ]

  module _ (after : Text → Text → Bool) (high : ℕ)
      (ranks : (x y : Text) (n m : ℕ)
        → position x ≡ some n
        → position y ≡ some m
        → after x y ≡ ltb m n) where
    place-Ranked :
        (low n : ℕ) (x : Text) (l : List Text)
        → position x ≡ some n
        → low ≤ n
        → n < high
        → ((y : Text) → contains l y ≡ true → position y ≢ some n)
        → Ranked position low l high
        → Ranked position low (place after x l) high
    unfolding place contains
    place-Ranked low n x [] p b h other r = (n, p, b, h)
    place-Ranked low n x (y ∷ l) p b h other (m, q, c, rest) = elim (Bool-cases (after x y)) [
      | inl later ↦
          rw (later, place)
            (
              m,
              q,
              c,
              place-Ranked (suc m) n x l p (ground (arith, ranks x y n m p q)) h
                  (λ z g. other z (ground arith)) rest,
            )
      | inr before ↦
          rw (before, place)
            (n, p, b, (m, q, ground (arith, ranks x y n m p q, other y, ==_refl y), rest))
    ]

    contains-place :
        (x : Text) (l : List Text) (j : Text)
        → contains (place after x l) j ≡ (if x == j then true else contains l j)
    unfolding place contains
    contains-place x [] j = ground arith
    contains-place x (y ∷ l) j = ground (arith, contains-place x l j)

    contains-sort : (l : List Text) (j : Text) → contains (sort after l) j ≡ contains l j
    unfolding sort contains
    contains-sort [] j = refl
    contains-sort (x ∷ l) j = rw contains-place (ground (arith, contains-sort l j))

    sort-Ranked :
        (l : List Text)
        → IsDistinct l
        → ((k : Text) → contains l k ≡ true → (n : ℕ) × (position k ≡ some n) × (n < high))
        → ((k j : Text)
            → contains l k ≡ true
            → contains l j ≡ true
            → position k ≡ position j
            → k ≡ j)
        → Ranked position 0 (sort after l) high
    unfolding sort contains
    sort-Ranked [] d bound inj = omega arith
    sort-Ranked (x ∷ l) d bound inj =
        let (n, p, h) = bound x (ground (arith, ==_refl x)) in
        place-Ranked 0 n x (sort after l) p (omega arith) h
          (λ y g q. ground (arith, contains-sort l y, inj x y, ==_refl x, d.0))
          (sort-Ranked l d.1 (λ k g. bound k (ground arith))
            (λ k j g f. inj k j (ground arith) (ground arith)))

    -- Sorting some keys of a ranked list by their positions gives the list without the others.
    pub sort-eq-keep :
        (order keys : List Text)
        → Ranked position 0 order high
        → IsDistinct keys
        → ((k : Text) → contains keys k ≡ true → contains order k ≡ true)
        → sort after keys ≡ keep (contains keys) order
    sort-eq-keep order keys r d sub =
        Ranked-unique 0 0 high high (sort after keys) (keep (contains keys) order)
          (sort-Ranked keys d (λ k g. Ranked-bound 0 high order k r (sub k g))
            (λ k j g f. Ranked-injective 0 high order k j r (sub k g) (sub j f)))
          (keep-Ranked 0 high (contains keys) order r)
          (λ k. rw (contains-sort, contains-keep) (ground (arith, sub k)))
