-- ===== src/OverlayMap/Writable.antt =====
-- Maps that are not sealed overlays, and the writes to them.
use newtondb.Errors.{ok}
use newtondb.OverlayMap.{MapLike, native, overlay, create, has, set, delete}
use newtondb.Prelude.{◌≡◌, refl, true, false, Eq, Bool-cases, inl, inr}

module _ {ℓ} {K V : Type ℓ} where
  abbrev pub IsWritable : MapLike K V → Type 0
  IsWritable (native m) = Unit
  IsWritable (overlay base d u n true z) = ⊥
  IsWritable (overlay base d u n false z) = Unit

  pub create-IsWritable : (m : MapLike K V) → IsWritable (create m)
  unfolding create
  create-IsWritable m = tt

module _ {ℓ} {K V : Type ℓ} ⦃e : Eq K⦄ where
  pub set_total :
      (m : MapLike K V) (k : K) (v : V)
      → IsWritable m
      → (m' : MapLike K V) × (set k v m ≡ ok m') × IsWritable m'
  unfolding set
  set_total (native m) k v w = (_, refl, tt)
  set_total (overlay base d u n true z) k v w = absurd w
  set_total (overlay base d u n false z) k v w = (_, refl, tt)

  pub delete_total :
      (m : MapLike K V) (k : K)
      → IsWritable m
      → (m' : MapLike K V) × (delete k m ≡ ok m') × IsWritable m'
  unfolding delete
  delete_total (native m) k w = (_, refl, tt)
  delete_total (overlay base d u n true z) k w = absurd w
  delete_total (overlay base d u n false z) k w =
      elim (Bool-cases (has (overlay base d u n false z) k)) [
        | inl there ↦ rw there (_, refl, tt)
        | inr not_there ↦ rw not_there (_, refl, tt)
      ]
