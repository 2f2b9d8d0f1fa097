-- ===== src/Prelude/Equality.antt =====
-- Boolean equality as an interface: the keys of the program's maps are strings or numbers.
use Prim.Native.Nat.{ℕ}
use mathlib.Core.Path.{◌≡◌, refl}
use mathlib.Core.Logic.{◌↔◌}
use mathlib.Core.Bool.{Bool, true, false, ◌&&◌, ◌||◌}
use mathlib.Core.List.{List, [], ◌∷◌}
use native.Mathlib.Omega.{arith}
use newtondb.Prelude.Tests.{nat_beq, nat_beq_iff, if◌then◌else◌}

pub record Eq {ℓ} (A : Type ℓ) : Type ℓ where
  pub equal : A → A → Bool
  pub equal_iff : (a b : A) → (equal a b ≡ true) ↔ (a ≡ b)

infix 50 ◌==◌
abbrev pub ◌==◌ {ℓ} : {A : Type ℓ} ⦃e : Eq A⦄ → A → A → Bool
◌==◌ ⦃e⦄ = e.equal

instance abbrev pub nat_eq : Eq ℕ
nat_eq = record { equal = nat_beq; equal_iff = nat_beq_iff }

module _ {ℓ} {A : Type ℓ} ⦃e : Eq A⦄ where
  pub ==_iff : (a b : A) → ((a == b) ≡ true) ↔ (a ≡ b)
  ==_iff = e.equal_iff

  pub ==_refl : (a : A) → (a == a) ≡ true
  ==_refl a = (e.equal_iff a a).1 refl

  unfoldable pub list_beq : List A → List A → Bool
  list_beq [] [] = true
  list_beq (x ∷ xs) (y ∷ ys) = x == y && list_beq xs ys
  list_beq _ _ = false

  list_beq_sound : (xs ys : List A) → list_beq xs ys ≡ true → xs ≡ ys
  unfolding list_beq
  list_beq_sound [] [] h = refl
  list_beq_sound [] (y ∷ ys) h = ground arith
  list_beq_sound (x ∷ xs) [] h = ground arith
  list_beq_sound (x ∷ xs) (y ∷ ys) h = ground (arith, e.equal_iff x y, list_beq_sound xs ys)

  list_beq_refl : (xs : List A) → list_beq xs xs ≡ true
  unfolding list_beq
  list_beq_refl [] = refl
  list_beq_refl (x ∷ xs) = ground (arith, ==_refl x, list_beq_refl xs)

  pub list_beq_iff : (xs ys : List A) → (list_beq xs ys ≡ true) ↔ (xs ≡ ys)
  list_beq_iff xs ys = (list_beq_sound xs ys, λ p. rw p (list_beq_refl ys))

  -- `Array.prototype.includes`, and `Set.prototype.has` on the set's elements.
  unfoldable pub contains : List A → A → Bool
  contains [] a = false
  contains (x ∷ xs) a = x == a || contains xs a

  -- Whether the list includes every one of the others.
  unfoldable pub includes_all : List A → List A → Bool
  unfolding contains
  includes_all xs [] = true
  includes_all xs (a ∷ more) = contains xs a && includes_all xs more

  -- `Set.prototype.add`: an element that is there keeps its place.
  unfoldable pub insert : A → List A → List A
  insert a [] = a ∷ []
  insert a (x ∷ xs) = if x == a then x ∷ xs else x ∷ insert a xs

  -- `Set.prototype.delete`: the elements of a set are distinct, so at most one goes.
  unfoldable pub discard : A → List A → List A
  discard a [] = []
  discard a (x ∷ xs) = let rest = discard a xs in if x == a then rest else x ∷ rest

  pub contains-insert :
      (a b : A) (xs : List A) → contains (insert a xs) b ≡ (if a == b then true else contains xs b)
  unfolding contains insert
  contains-insert a b [] = ground arith
  contains-insert a b (x ∷ xs) =
      ground (arith, contains-insert a b xs, e.equal_iff a b, e.equal_iff x a, e.equal_iff x b)

  pub contains-discard :
      (a b : A) (xs : List A)
      → contains (discard a xs) b ≡ (if a == b then false else contains xs b)
  unfolding contains discard
  contains-discard a b [] = ground arith
  contains-discard a b (x ∷ xs) =
      ground (arith, contains-discard a b xs, e.equal_iff a b, e.equal_iff x a, e.equal_iff x b)

  -- No element stands twice.
  abbrev pub IsDistinct : List A → Type 0
  IsDistinct [] = Unit
  IsDistinct (x ∷ xs) = (contains xs x ≡ false) × IsDistinct xs

  pub insert-IsDistinct : (a : A) (xs : List A) → IsDistinct xs → IsDistinct (insert a xs)
  unfolding insert contains
  insert-IsDistinct a [] h = (refl, tt)
  insert-IsDistinct a (x ∷ xs) h = ground (
    arith,
    h,
    insert-IsDistinct a xs h.1,
    contains-insert a x xs,
    e.equal_iff x a,
    e.equal_iff a x,
  )

  pub discard-IsDistinct : (a : A) (xs : List A) → IsDistinct xs → IsDistinct (discard a xs)
  unfolding discard
  discard-IsDistinct a [] h = tt
  discard-IsDistinct a (x ∷ xs) h =
      ground (arith, h, discard-IsDistinct a xs h.1, contains-discard a x xs)

instance abbrev pub list_eq {ℓ} : {A : Type ℓ} ⦃e : Eq A⦄ → Eq (List A)
list_eq = record { equal = list_beq; equal_iff = list_beq_iff }

pub ruleset set_laws = (contains-insert, contains-discard)
