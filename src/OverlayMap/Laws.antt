-- ===== src/OverlayMap/Laws.antt =====
-- What a reader of an overlay sees after each write, and after the seal of a commit.
use mathlib.Core.Path.{subst}
use newtondb.Errors.{ok, ok-injective}
use newtondb.NativeMap
use newtondb.NativeMap.{Entries, map_laws, present, get-append, get_of_absent}
use newtondb.OverlayMap.{
  MapLike, native, overlay, create, get, has, set, delete, entries, refreshed, seal,
  compact_threshold, size,
}
use newtondb.Prelude.{
  ◌+◌, ◌||◌, leb, length, ◌≡◌, refl, Bool, true, false, not, none, some, [], ◌∷◌, map, arith, Eq,
  ◌==◌, contains, contains-insert, contains-discard, keep, if◌then◌else◌, Bool-cases, inl, inr,
}

module _ {ℓ} {K V : Type ℓ} ⦃e : Eq K⦄ where
  pub has-get : (m : MapLike K V) (k : K) → has m k ≡ present (get m k)
  unfolding has get
  has-get (native m) k = NativeMap.has-get m k
  has-get (overlay base d u n s z) k = ground (arith, NativeMap.has-get u k, has-get base k)

  pub get-create : (m : MapLike K V) (k : K) → get (create m) k ≡ get m k
  unfolding create get NativeMap.has contains
  get-create m k = refl

  -- A successful write to an overlay map is read back, and changes the value of no other
  -- key.
  pub get-set :
      (m : MapLike K V) (k j : K) (v : V) {m' : MapLike K V}
      → set k v m ≡ ok m'
      → get m' j ≡ (if k == j then some v else get m j)
  unfolding set get
  get-set (native m) k j v h = ground (arith, NativeMap.get-set k j v m)
  get-set (overlay base d u n true z) k j v h = cc
  get-set (overlay base d u n false z) k j v h = ground (
    arith,
    NativeMap.get-set k j v u,
    NativeMap.has-get (NativeMap.set k v u) j,
    NativeMap.has-get u j,
    contains-discard k j d,
  )

  -- A successful deletion from an overlay map removes its key and changes the value of no
  -- other.
  pub get-delete :
      (m : MapLike K V) (k j : K) {m' : MapLike K V}
      → delete k m ≡ ok m'
      → get m' j ≡ (if k == j then none else get m j)
  unfolding delete get
  get-delete (native m) k j h = ground (arith, NativeMap.get-delete k j m)
  get-delete (overlay base d u n true z) k j h = cc
  get-delete (overlay base d u n false z) k j h = ground (
    arith,
    NativeMap.get-delete k j u,
    NativeMap.has-get (NativeMap.delete k u) j,
    NativeMap.has-get u j,
    contains-insert k j d,
    has-get base k,
    e.equal_iff k j,
  )

  get-keep :
      (p : K → Bool) (m : Entries K V) (k : K)
      → NativeMap.get (keep (λ q. p q.0) m) k ≡ (if p k then NativeMap.get m k else none)
  unfolding keep NativeMap.get
  get-keep p [] k = ground arith
  get-keep p ((j, v) ∷ m) k = ground (arith, get-keep p m k, e.equal_iff j k)

  get-refreshed :
      (u m : Entries K V) (k : K)
      → NativeMap.get (map (refreshed u) m) k ≡ (
          if NativeMap.has m k
          then (if NativeMap.has u k then NativeMap.get u k else NativeMap.get m k)
          else none)
  unfolding refreshed NativeMap.get NativeMap.has
  get-refreshed u [] k = refl
  get-refreshed u ((j, v) ∷ m) k =
      ground (arith, get-refreshed u m k, e.equal_iff j k, NativeMap.has-get u j)

  -- No key is both updated and deleted, at any depth.
  abbrev pub IsCoherent : MapLike K V → Type ℓ
  IsCoherent (native m) = Unit
  IsCoherent (overlay base d u n s z) =
      ((k : K) → NativeMap.has u k ≡ true → contains d k ≡ false) × IsCoherent base

  pub create-IsCoherent : (m : MapLike K V) → IsCoherent m → IsCoherent (create m)
  unfolding create NativeMap.has contains
  create-IsCoherent m h = (λ k p. refl, h)

  pub set-IsCoherent :
      (m : MapLike K V) (k : K) (v : V) {m' : MapLike K V}
      → IsCoherent m
      → set k v m ≡ ok m'
      → IsCoherent m'
  unfolding set
  set-IsCoherent (native m) k v c h = subst IsCoherent (ok-injective h) tt
  set-IsCoherent (overlay base d u n true z) k v c h = cc
  set-IsCoherent (overlay base d u n false z) k v c h = subst IsCoherent (ok-injective h) (
    λ j p. ground (
      arith,
      c.0 j,
      NativeMap.get-set k j v u,
      NativeMap.has-get (NativeMap.set k v u) j,
      NativeMap.has-get u j,
      contains-discard k j d,
    ),
    c.1,
  )

  pub delete-IsCoherent :
      (m : MapLike K V) (k : K) {m' : MapLike K V}
      → IsCoherent m
      → delete k m ≡ ok m'
      → IsCoherent m'
  unfolding delete
  delete-IsCoherent (native m) k c h = subst IsCoherent (ok-injective h) tt
  delete-IsCoherent (overlay base d u n true z) k c h = cc
  delete-IsCoherent (overlay base d u n false z) k c h =
      elim (Bool-cases (has (overlay base d u n false z) k)) [
        | inl p ↦ subst IsCoherent (ok-injective (rw p at h)) (
          λ j q. ground (
            arith,
            c.0 j,
            NativeMap.get-delete k j u,
            NativeMap.has-get (NativeMap.delete k u) j,
            NativeMap.has-get u j,
            contains-insert k j d,
          ),
          c.1,
        )
        | inr p ↦ subst IsCoherent (ok-injective (rw p at h)) c
      ]

  -- Where no key is both updated and deleted, a look-up in the entries that an overlay map
  -- iterates over gives what the map gives.
  pub get-entries : (m : MapLike K V) (k : K) → IsCoherent m → NativeMap.get (entries m) k ≡ get m k
  unfolding entries get has
  get-entries (native m) k c = refl
  get-entries (overlay base d u n s z) k c =
      let kept = keep (λ (p : K × V). not (contains d p.0)) (entries base) in
      let fresh = keep (λ (p : K × V). not (has base p.0)) u in
      ground (
        arith,
        get-append (map (refreshed u) kept) fresh k,
        NativeMap.has-get (map (refreshed u) kept) k,
        get-refreshed u kept k,
        NativeMap.has-get kept k,
        get-keep (λ j. not (contains d j)) (entries base) k,
        get-keep (λ j. not (has base j)) u k,
        get-entries base k c.1,
        c.0 k,
        has-get base k,
        NativeMap.has-get u k,
      )

  -- Where no key is both updated and deleted, sealing changes no value, whether it compacts
  -- the map or not.
  pub get-seal : (m : MapLike K V) (k : K) → IsCoherent m → get (seal m) k ≡ get m k
  unfolding seal get
  get-seal (native m) k c = refl
  get-seal (overlay base d u n s z) k c =
      ground (arith, get-entries (overlay base d u n true z) k c)

  pub seal-IsCoherent : (m : MapLike K V) → IsCoherent m → IsCoherent (seal m)
  unfolding seal
  seal-IsCoherent (native m) c = tt
  seal-IsCoherent (overlay base d u n s z) c =
      elim (Bool-cases (leb 32 n || leb (compact_threshold (size base)) (length d + length u))) [
        | inl compact ↦ rw compact tt
        | inr keep_it ↦ rw keep_it c
      ]
