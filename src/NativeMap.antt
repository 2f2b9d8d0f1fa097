-- ===== src/NativeMap.antt =====
-- The JavaScript `Map` that the program's state is built on: entries in insertion order, distinct
-- keys. (`Set` is a list with `contains`, `insert` and `discard` of the prelude.)
use newtondb.Prelude.{
  ◌≡◌, refl, Bool, true, false, Option, none, some, List, [], ◌∷◌, ◌++◌, arith, Eq, ◌==◌,
  if◌then◌else◌,
}

abbrev pub Entries {ℓ} : Type ℓ → Type ℓ → Type ℓ
Entries K V = List (K × V)

-- `value !== undefined`
abbrev pub present {ℓ} : {V : Type ℓ} → Option V → Bool
present none = false
present (some v) = true

module _ {ℓ} {K V : Type ℓ} ⦃e : Eq K⦄ where
  -- `map.get(key)`; `none` is `undefined`
  unfoldable pub get : Entries K V → K → Option V
  get [] k = none
  get ((j, v) ∷ m) k = if j == k then some v else get m k

  -- `map.has(key)`
  unfoldable pub has : Entries K V → K → Bool
  has [] k = false
  has ((j, v) ∷ m) k = if j == k then true else has m k

  -- `map.set(key, value)`: an existing key keeps its place
  unfoldable pub set : K → V → Entries K V → Entries K V
  set k v [] = (k, v) ∷ []
  set k v ((j, w) ∷ m) = if j == k then (j, v) ∷ m else (j, w) ∷ set k v m

  -- `map.delete(key)`
  unfoldable pub delete : K → Entries K V → Entries K V
  delete k [] = []
  delete k ((j, v) ∷ m) = let rest = delete k m in if j == k then rest else (j, v) ∷ rest

  pub get-set :
      (k j : K) (v : V) (m : Entries K V) → get (set k v m) j ≡ (if k == j then some v else get m j)
  unfolding get set
  get-set k j v [] = refl
  get-set k j v ((i, w) ∷ m) =
      ground (arith, get-set k j v m, e.equal_iff k j, e.equal_iff i k, e.equal_iff i j)

  pub get-delete :
      (k j : K) (m : Entries K V) → get (delete k m) j ≡ (if k == j then none else get m j)
  unfolding get delete
  get-delete k j [] = ground arith
  get-delete k j ((i, w) ∷ m) =
      ground (arith, get-delete k j m, e.equal_iff k j, e.equal_iff i k, e.equal_iff i j)

  pub get-append :
      (m n : Entries K V) (j : K) → get (m ++ n) j ≡ (if has m j then get m j else get n j)
  unfolding get has
  get-append [] n j = refl
  get-append ((i, w) ∷ m) n j = ground (arith, get-append m n j)

  pub has-get : (m : Entries K V) (j : K) → has m j ≡ present (get m j)
  unfolding get has
  has-get [] j = refl
  has-get ((i, w) ∷ m) j = ground (arith, has-get m j)

  pub get_of_absent : (m : Entries K V) (j : K) → has m j ≡ false → get m j ≡ none
  unfolding get has
  get_of_absent [] j h = refl
  get_of_absent ((i, w) ∷ m) j h = ground (arith, get_of_absent m j)

pub ruleset map_laws = (get-set, get-delete, has-get)
