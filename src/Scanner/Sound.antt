-- ===== src/Scanner/Sound.antt =====
-- The shape of an accepted text.
use newtondb.Prelude.{
  ℕ, zero, suc, ◌+◌, ◌*◌, ◌≡◌, ◌≤◌, refl, sym, ap, ◌∙◌, false, Option, List, [], ◌∷◌, length,
  contains, nat_eq, list_eq, Bool-cases, inl, inr, ◌⊎◌, arith,
}
use newtondb.Scanner.{
  found, ◌>>=◌, skip_whitespace, expect, max_nodes, value, members, items, parse_string, Parser,
  refuse_repeated, parse_member, parse_item, parse, at_end, assert_no_duplicate_json_keys,
}
use newtondb.Text.{Text}
use newtondb.Scanner.Grammar.{Shape, end, part, IsDistinct, size, IsShallow, KeyAt, Reads}
use newtondb.Scanner.Inversion.{close_entry-inv, found-injective, bind-inv}
use newtondb.Scanner.Value.{IsSound, AllSound, parse_value-sound}

module _ (decode : Text → Option Text) where
  module _ (p : Parser decode) where
    module _ (sound : AllSound decode p) where
      -- The entry before a closing character or a comma.
      parse_member-sound :
          (keys : List Text) (depth nodes : ℕ) (s : Text) (v : ℕ × Text)
          → parse_member decode p keys depth nodes s ≡ found v
          → IsSound decode p (members keys) depth nodes s v
      unfolding parse_member
      parse_member-sound keys depth nodes s v h =
          let (q, fresh, h1) =
            bind-inv (parse_string decode (skip_whitespace s) >>= refuse_repeated decode p keys) _
              h in
          let (q', e1, kept) =
            bind-inv (parse_string decode (skip_whitespace s)) (refuse_repeated decode p keys)
              fresh in
          let (new, same) = refused q' q kept in
          let (t, e2, h2) = bind-inv (expect 58 (skip_whitespace q.1)) _ h1 in
          let (w, e3, h3) = bind-inv (p value (depth + 1) nodes t) _ h2 in
          let (shape, reads, distinct, shallow, n, few) = sound value (depth + 1) nodes t w e3 in
          let key : KeyAt decode q.0 s t = (q.1, e1 ∙ ap found same, e2) in
          ended q t w shape key new reads distinct shallow n few (
            close_entry-inv decode p 125 (members (q.0 ∷ keys)) depth w.0 (skip_whitespace w.1) v
              h3)
        where
          refused :
              (q' q : Text × Text)
              → refuse_repeated decode p keys q' ≡ found q
              → (contains keys q.0 ≡ false) × (q' ≡ q)
          refused (key, rest) q g = elim (Bool-cases (contains keys key)) [
            | inl e ↦ absurd (ground (arith, g, e))
            | inr e ↦
                let same = found-injective (rw e at g) in
                (ap (λ x. contains keys x.0) (sym same) ∙ e, same)
          ]

          ended :
              (q : Text × Text) (t : Text) (w : ℕ × Text) (shape : Shape)
              → KeyAt decode q.0 s t
              → contains keys q.0 ≡ false
              → Reads decode shape t w.1
              → IsDistinct shape
              → IsShallow (depth + 1) shape
              → w.0 ≡ nodes + size shape
              → w.0 ≤ max_nodes
              → ((skip_whitespace w.1 ≡ 125 ∷ v.1) × (v.0 ≡ w.0))
                ⊎ ((r : Text) × (skip_whitespace w.1 ≡ 44 ∷ r)
                    × (p (members (q.0 ∷ keys)) depth w.0 r ≡ found v))
              → IsSound decode p (members keys) depth nodes s v
          ended q t w shape key new reads distinct shallow n few (inl (closed, m)) = (
            q.0,
            shape,
            end,
            (t, w.1, key, reads, closed),
            (new, tt),
            (distinct, tt),
            (shallow, tt),
            omega (arith, m, n),
            omega (arith, m, few),
          )
          ended q t w shape key new reads distinct shallow n few (inr (r, comma, g)) =
              let (k, shape', ps, more, fresh, others, low, m, few') =
                sound (members (q.0 ∷ keys)) depth w.0 r v g in
              (
                q.0,
                shape,
                part k shape' ps,
                (t, w.1, r, key, reads, comma, more),
                (new, fresh),
                (distinct, others),
                (shallow, low),
                omega (arith, m, n),
                few',
              )

      parse_item-sound :
          (depth nodes : ℕ) (s : Text) (v : ℕ × Text)
          → parse_item decode p depth nodes s ≡ found v
          → IsSound decode p items depth nodes s v
      unfolding parse_item
      parse_item-sound depth nodes [] v h = absurd (ground arith)
      parse_item-sound depth nodes (c ∷ s) v h =
          let (w, e3, h3) = bind-inv (p value (depth + 1) nodes (c ∷ s)) _ h in
          let (shape, reads, distinct, shallow, n, few) =
            sound value (depth + 1) nodes (c ∷ s) w e3 in
          ended w shape reads distinct shallow n few
            (close_entry-inv decode p 93 items depth w.0 (skip_whitespace w.1) v h3)
        where
          ended :
              (w : ℕ × Text) (shape : Shape)
              → Reads decode shape (c ∷ s) w.1
              → IsDistinct shape
              → IsShallow (depth + 1) shape
              → w.0 ≡ nodes + size shape
              → w.0 ≤ max_nodes
              → ((skip_whitespace w.1 ≡ 93 ∷ v.1) × (v.0 ≡ w.0))
                ⊎ ((r : Text) × (skip_whitespace w.1 ≡ 44 ∷ r) × (p items depth w.0 r ≡ found v))
              → IsSound decode p items depth nodes (c ∷ s) v
          ended w shape reads distinct shallow n few (inl (closed, m)) = (
            [],
            shape,
            end,
            (w.1, reads, closed),
            (distinct, tt),
            (shallow, tt),
            omega (arith, m, n),
            omega (arith, m, few),
          )
          ended w shape reads distinct shallow n few (inr (r, comma, g)) =
              let (k, shape', ps, more, others, low, m, few') = sound items depth w.0 r v g in
              (
                [],
                shape,
                part k shape' ps,
                (w.1, r, reads, comma, more),
                (distinct, others),
                (shallow, low),
                omega (arith, m, n),
                few',
              )

  parse-sound : (fuel : ℕ) → AllSound decode (parse decode fuel)
  unfolding parse
  parse-sound zero value depth nodes s v h = absurd (ground arith)
  parse-sound zero (members keys) depth nodes s v h = absurd (ground arith)
  parse-sound zero items depth nodes s v h = absurd (ground arith)
  parse-sound (suc fuel) value depth nodes s v h =
      parse_value-sound decode (parse decode fuel) (parse-sound fuel) depth nodes s v h
  parse-sound (suc fuel) (members keys) depth nodes s v h =
      parse_member-sound (parse decode fuel) (parse-sound fuel) keys depth nodes s v h
  parse-sound (suc fuel) items depth nodes s v h =
      parse_item-sound (parse decode fuel) (parse-sound fuel) depth nodes s v h

  pub assert_no_duplicate_json_keys-Reads :
      (text : Text)
      → assert_no_duplicate_json_keys decode text ≡ found tt
      → (shape : Shape) × (rest : Text) × Reads decode shape text rest
        × (skip_whitespace rest ≡ [])
        × IsDistinct shape
        × IsShallow 0 shape
        × (size shape ≤ max_nodes)
  unfolding assert_no_duplicate_json_keys
  assert_no_duplicate_json_keys-Reads text h =
      let (v, e, last) = bind-inv (parse decode (2 * length text + 2) value 0 0 text) _ h in
      let (shape, reads, distinct, shallow, n, few) =
        parse-sound (2 * length text + 2) value 0 0 text v e in
      (
        shape,
        v.1,
        reads,
        ended (skip_whitespace v.1) last,
        distinct,
        shallow,
        omega (arith, n, few),
      )
    where
      ended : (s : Text) → at_end decode s ≡ found tt → s ≡ []
      ended [] g = refl
      ended (c ∷ s) g = absurd (ground arith)
