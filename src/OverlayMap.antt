-- ===== src/OverlayMap.antt =====
-- src/overlay-map.ts: the copy-on-write map that a transaction writes to, over a native map or over
-- another overlay. A write returns the map after it; a write to a sealed overlay throws and changes
-- nothing. Iterators are the list of what they yield.
pub mod Laws
pub mod Writable
use newtondb.Errors.{Result, ok, err, immutable_map}
use mathlib.Core.Option
use newtondb.NativeMap
use newtondb.NativeMap.{Entries}
use newtondb.Prelude.{
  ℕ, suc, ◌+◌, ◌-◌, ◌/◌, Bool, true, false, ◌&&◌, ◌||◌, not, Option, none, some, List, [], ◌∷◌,
  ◌++◌, map, Eq, contains, insert, discard, length, keep, leb, ltb, if◌then◌else◌,
}

-- A `ReadonlyMap` of the program: `overlay base deletions updates depth sealed size`.
pub data MapLike {ℓ} (K V : Type ℓ) : Type ℓ where
  native : Entries K V → MapLike K V
  overlay : MapLike K V → List K → Entries K V → ℕ → Bool → ℕ → MapLike K V

module _ {ℓ} {K V : Type ℓ} where
  unfoldable pub size : MapLike K V → ℕ
  size (native m) = length m
  size (overlay base deletions updates depth sealed n) = n

  -- `base instanceof OverlayMap ? base.depth + 1 : 1`, with 0 for a native map
  unfoldable pub depth : MapLike K V → ℕ
  depth (native m) = 0
  depth (overlay base deletions updates d sealed n) = d

  -- new OverlayMap(base)
  unfoldable pub create : MapLike K V → MapLike K V
  unfolding size depth
  create base = overlay base [] [] (depth base + 1) false (size base)

  unfoldable pub changed_count : MapLike K V → ℕ
  changed_count (native m) = 0
  changed_count (overlay base deletions updates d sealed n) = length deletions + length updates

-- Math.max(256, Math.ceil(size / 4))
unfoldable pub compact_threshold : ℕ → ℕ
compact_threshold n = let quarter = (n + 3) / 4 in if leb quarter 256 then 256 else quarter

module _ {ℓ} {K V : Type ℓ} ⦃e : Eq K⦄ where
  unfoldable pub get : MapLike K V → K → Option V
  get (native m) k = NativeMap.get m k
  get (overlay base deletions updates d sealed n) k =
      if NativeMap.has updates k
      then NativeMap.get updates k
      else if contains deletions k
      then none
      else get base k

  unfoldable pub has : MapLike K V → K → Bool
  has (native m) k = NativeMap.has m k
  has (overlay base deletions updates d sealed n) k =
      NativeMap.has updates k || (not (contains deletions k) && has base k)

  -- `map.set(key, value)`
  unfoldable pub set : K → V → MapLike K V → Result (MapLike K V)
  unfolding has
  set k v (native m) = ok (native (NativeMap.set k v m))
  set k v (overlay base deletions updates d true n) = err immutable_map
  set k v (overlay base deletions updates d false n) =
      let existed = has (overlay base deletions updates d false n) k in
      ok (
        overlay base (discard k deletions) (NativeMap.set k v updates) d false
          (if existed then n else n + 1))

  -- `map.delete(key)`
  unfoldable pub delete : K → MapLike K V → Result (MapLike K V)
  unfolding has
  delete k (native m) = ok (native (NativeMap.delete k m))
  delete k (overlay base deletions updates d true n) = err immutable_map
  delete k (overlay base deletions updates d false n) =
      let present = has (overlay base deletions updates d false n) k in
      ok (
        if present
        then overlay base (insert k deletions) (NativeMap.delete k updates) d false (n - 1)
        else overlay base deletions updates d false n)

  -- One base entry as the iterator yields it.
  unfoldable pub refreshed : Entries K V → K × V → K × V
  refreshed updates (k, v) =
      if NativeMap.has updates k then (k, Option.get_or (NativeMap.get updates k) v) else (k, v)

  -- #iterateEntries
  unfoldable pub entries : MapLike K V → Entries K V
  unfolding refreshed has
  entries (native m) = m
  entries (overlay base deletions updates d sealed n) =
      map (refreshed updates) (keep (λ p. not (contains deletions p.0)) (entries base))
      ++ keep (λ p. not (has base p.0)) updates

  unfoldable pub keys : MapLike K V → List K
  unfolding entries
  keys m = map (λ p. p.0) (entries m)

  unfoldable pub values : MapLike K V → List V
  unfolding entries
  values m = map (λ p. p.1) (entries m)

  unfoldable pub seal : MapLike K V → MapLike K V
  unfolding entries compact_threshold changed_count size
  seal (native m) = native m
  seal (overlay base deletions updates d sealed n) =
      if leb 32 d || leb (compact_threshold (size base)) (length deletions + length updates)
      then native (entries (overlay base deletions updates d true n))
      else overlay base deletions updates d true n
