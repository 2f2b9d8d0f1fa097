-- ===== src/Scanner/Value.antt =====
-- The shape of a parsed value, by its first character.
use newtondb.Prelude.{
  ℕ, ◌+◌, ◌≡◌, ◌≤◌, Option, [], ◌∷◌, ltb, nat_eq, list_eq, Bool-cases, inl, inr, ◌⊎◌, arith,
}
use newtondb.Scanner.{
  found, skip_whitespace, max_nodes, max_depth, Goal, value, members, items, Parser, parse_value,
}
use newtondb.Text.{Text}
use newtondb.Scanner.Grammar.{
  Shape, leaf, array, object, Parts, end, part, keys_of, AreFresh, IsDistinct, AreDistinct, size,
  sizes, IsShallow, AreShallow, Reads, ReadsItems, ReadsMembers,
}
use newtondb.Scanner.Inversion.{open_group-inv, Starts, parse_start-inv}

module _ (decode : Text → Option Text) where
  module _ (p : Parser decode) where
    -- What is read by a goal of this kind.
    abbrev pub IsSound : Goal → ℕ → ℕ → Text → ℕ × Text → Type 0
    IsSound value depth nodes s v =
        (shape : Shape) × Reads decode shape s v.1
        × IsDistinct shape
        × IsShallow depth shape
        × (v.0 ≡ nodes + size shape)
        × (v.0 ≤ max_nodes)
    IsSound (members keys) depth nodes s v =
        (k : Text) × (shape : Shape) × (ps : Parts) × ReadsMembers decode (part k shape ps) s v.1
        × AreFresh keys (keys_of (part k shape ps))
        × AreDistinct (part k shape ps)
        × AreShallow (depth + 1) (part k shape ps)
        × (v.0 ≡ nodes + sizes (part k shape ps))
        × (v.0 ≤ max_nodes)
    IsSound items depth nodes s v =
        (k : Text) × (shape : Shape) × (ps : Parts) × ReadsItems decode (part k shape ps) s v.1
        × AreDistinct (part k shape ps)
        × AreShallow (depth + 1) (part k shape ps)
        × (v.0 ≡ nodes + sizes (part k shape ps))
        × (v.0 ≤ max_nodes)

    abbrev pub AllSound : Type 0
    AllSound =
        (goal : Goal) (depth nodes : ℕ) (s : Text) (v : ℕ × Text)
        → p goal depth nodes s ≡ found v
        → IsSound goal depth nodes s v

    module _ (sound : AllSound) where
      pub parse_value-sound :
          (depth nodes : ℕ) (s : Text) (v : ℕ × Text)
          → parse_value decode p depth nodes s ≡ found v
          → IsSound value depth nodes s v
      unfolding parse_value
      parse_value-sound depth nodes s v h = elim (Bool-cases (ltb max_nodes (nodes + 1))) [
        | inl e ↦ absurd (ground (arith, h, e))
        | inr e ↦ elim (Bool-cases (ltb max_depth depth)) [
          | inl f ↦ absurd (ground (arith, h, e, f))
          | inr f ↦
              started (ground (arith, e)) (ground (arith, f))
                (parse_start-inv decode p depth (nodes + 1) (skip_whitespace s) v (rw (e, f) at h))
        ]
      ]
        where
          grouped :
              nodes + 1 ≤ max_nodes
              → depth ≤ max_depth
              → (r : Text) → skip_whitespace s ≡ 123 ∷ r
              → ((skip_whitespace r ≡ 125 ∷ v.1) × (v.0 ≡ nodes + 1))
                ⊎ (p (members []) depth (nodes + 1) (skip_whitespace r) ≡ found v)
              → IsSound value depth nodes s v
          grouped few low r e (inl (closed, n)) = (
            object end,
            (r, e, closed),
            (tt, tt),
            (low, tt),
            omega (arith, n),
            omega (arith, n, few),
          )
          grouped few low r e (inr g) =
              let (k, shape, ps, reads, fresh, distinct, shallow, n, few') =
                sound (members []) depth (nodes + 1) (skip_whitespace r) v g in
              (
                object (part k shape ps),
                (r, e, reads),
                (fresh, distinct),
                (low, shallow),
                omega (arith, n),
                few',
              )

          listed :
              nodes + 1 ≤ max_nodes
              → depth ≤ max_depth
              → (r : Text) → skip_whitespace s ≡ 91 ∷ r
              → ((skip_whitespace r ≡ 93 ∷ v.1) × (v.0 ≡ nodes + 1))
                ⊎ (p items depth (nodes + 1) (skip_whitespace r) ≡ found v)
              → IsSound value depth nodes s v
          listed few low r e (inl (closed, n)) =
              (array end, (r, e, closed), tt, (low, tt), omega (arith, n), omega (arith, n, few))
          listed few low r e (inr g) =
              let (k, shape, ps, reads, distinct, shallow, n, few') =
                sound items depth (nodes + 1) (skip_whitespace r) v g in
              (
                array (part k shape ps),
                (r, e, reads),
                distinct,
                (low, shallow),
                omega (arith, n),
                few',
              )

          started :
              nodes + 1 ≤ max_nodes
              → depth ≤ max_depth
              → Starts decode p depth (nodes + 1) (skip_whitespace s) v
              → IsSound value depth nodes s v
          started few low (inl (r, e, g)) =
              grouped few low r e
                (open_group-inv decode p 125 (members []) depth (nodes + 1) (skip_whitespace r) v g)
          started few low (inr (inl (r, e, g))) =
              listed few low r e
                (open_group-inv decode p 93 items depth (nodes + 1) (skip_whitespace r) v g)
          started few low (inr (inr (w, n))) =
              (leaf, w, tt, low, omega (arith, n), omega (arith, n, few))
