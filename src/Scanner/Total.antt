-- ===== src/Scanner/Total.antt =====
-- The fuel of the scanner.
use newtondb.Prelude.{
  ℕ, zero, suc, ◌+◌, ◌*◌, ◌≡◌, ◌≤◌, ◌<◌, refl, Bool, true, false, Option, none, some, List, [], ◌∷◌,
  ◌++◌, length, ltb, nat_beq, contains, if◌then◌else◌, nat_eq, list_eq, Bool-cases, inl, inr, ◌⊎◌,
  arith,
}
use newtondb.Scanner.{
  ScanError, syntax, Scan, found, failed, ◌>>=◌, skip_whitespace, expect, plain, string_body,
  scan_word, max_nodes, max_depth, Goal, value, members, items, decoded, parse_string, Parser,
  open_group, close_entry, word_at, parse_start, parse_value, refuse_repeated, parse_member,
  parse_item, parse, at_end, assert_no_duplicate_json_keys,
}
use newtondb.Scanner.Lengths.{
  is_exhausted, IsBelow, IsShorter, after, IsBelow-bind, skip_whitespace-length, expect-IsBelow,
  string_body-IsBelow, scan_word-IsShorter,
}
use newtondb.Text.{Text}

-- The fuel that a goal needs.
abbrev measure : Goal → Text → ℕ
measure value s = 2 * length s + 1
measure (members keys) s = 2 * length s + 2
measure items s = 2 * length s + 2

module _ (decode : Text → Option Text) where
  parse_string-IsBelow : (s : Text) → IsBelow after (length s) (parse_string decode s)
  unfolding parse_string
  parse_string-IsBelow s =
      IsBelow-bind length (length s) after (length s) (expect 34 s) _ (expect-IsBelow 34 s) λ r h.
        IsBelow-bind after (length r) after (length s) (string_body plain r) _
          (string_body-IsBelow plain r)
          λ p g. at p (decode (34 ∷ p.0 ++ 34 ∷ [])) (omega (arith, g, h))
    where
      at :
          (p : Text × Text) (d : Option Text)
          → after p < length s
          → IsBelow after (length s) (decoded decode p d)
      at p none h = refl
      at p (some key) h = h

  -- A parser that needs no more fuel than this.
  abbrev IsEnough : ℕ → Parser decode → Type 0
  IsEnough fuel p =
      (goal : Goal) (depth nodes : ℕ) (s : Text)
      → measure goal s ≤ fuel
      → IsBelow after (length s + 1) (p goal depth nodes s)

  module _ (fuel : ℕ) (p : Parser decode) (enough : IsEnough fuel p) where
    close_entry-IsBelow :
        (close : ℕ) (goal : Goal) (depth nodes : ℕ) (s : Text)
        → measure goal s ≤ fuel + 2
        → IsBelow after (length s + 1) (close_entry decode p close goal depth nodes s)
    unfolding close_entry
    close_entry-IsBelow close goal depth nodes [] m = refl
    close_entry-IsBelow close goal depth nodes (c ∷ s) m = elim (Bool-cases (nat_beq c close)) [
      | inl e ↦ rw e (omega arith)
      | inr e ↦ elim (Bool-cases (nat_beq c 44)) [
        | inr f ↦ rw (e, f) refl
        | inl f ↦
            rw (e, f) (wider (p goal depth nodes s) (enough goal depth nodes s (smaller goal m)))
      ]
    ]
      where
        smaller : (goal : Goal) → measure goal (c ∷ s) ≤ fuel + 2 → measure goal s ≤ fuel
        smaller value m = omega (arith, m)
        smaller (members keys) m = omega (arith, m)
        smaller items m = omega (arith, m)

        wider :
            (r : Scan (ℕ × Text))
            → IsBelow after (length s + 1) r
            → IsBelow after (length (c ∷ s) + 1) r
        wider (found v) h = omega (arith, h)
        wider (failed e) h = h

    open_group-IsBelow :
        (close : ℕ) (goal : Goal) (depth nodes : ℕ) (s : Text)
        → measure goal s ≤ fuel
        → IsBelow after (length s + 1) (open_group decode p close goal depth nodes s)
    unfolding open_group
    open_group-IsBelow close goal depth nodes [] m = refl
    open_group-IsBelow close goal depth nodes (c ∷ s) m = elim (Bool-cases (nat_beq c close)) [
      | inl e ↦ rw e (omega arith)
      | inr e ↦ rw e (enough goal depth nodes (c ∷ s) m)
    ]

    wider : (n k : ℕ) (r : Scan (ℕ × Text)) → n ≤ k → IsBelow after n r → IsBelow after k r
    wider n k (found v) w h = omega (arith, w, h)
    wider n k (failed e) w h = h

    parse_start-IsBelow :
        (depth nodes : ℕ) (s : Text)
        → 2 * length s ≤ fuel
        → IsBelow after (length s + 1) (parse_start decode p depth nodes s)
    unfolding parse_start
    parse_start-IsBelow depth nodes [] m = refl
    parse_start-IsBelow depth nodes (c ∷ s) m = elim (Bool-cases (nat_beq c 123)) [
      | inl e ↦ rw e (
          wider _ _ _ (omega (arith, skip_whitespace-length s)) (
            open_group-IsBelow 125 (members []) depth nodes (skip_whitespace s)
              (omega (arith, m, skip_whitespace-length s))))
      | inr e ↦ elim (Bool-cases (nat_beq c 91)) [
        | inl f ↦
            rw (e, f)
              (wider _ _ _ (omega (arith, skip_whitespace-length s)) (
                open_group-IsBelow 93 items depth nodes (skip_whitespace s)
                  (omega (arith, m, skip_whitespace-length s))))
        | inr f ↦ rw (e, f) (last (nat_beq c 34))
      ]
    ]
      where
        word :
            (r : Option Text)
            → IsShorter r (length (c ∷ s))
            → IsBelow after (length (c ∷ s) + 1) (word_at decode p nodes r)
        word none h = refl
        word (some rest) h = omega (arith, h)

        last :
            (b : Bool)
            → IsBelow after (length (c ∷ s) + 1) (
                if b
                then (parse_string decode (c ∷ s) >>= λ q. found (nodes, q.1))
                else word_at decode p nodes (scan_word (c ∷ s)))
        last true =
            IsBelow-bind after (length (c ∷ s)) after (length (c ∷ s) + 1)
              (parse_string decode (c ∷ s)) _ (parse_string-IsBelow (c ∷ s))
              (λ q h. omega (arith, h))
        last false = word (scan_word (c ∷ s)) (scan_word-IsShorter (c ∷ s))

    parse_value-IsBelow :
        (depth nodes : ℕ) (s : Text)
        → 2 * length s ≤ fuel
        → IsBelow after (length s + 1) (parse_value decode p depth nodes s)
    unfolding parse_value
    parse_value-IsBelow depth nodes s m = elim (Bool-cases (ltb max_nodes (nodes + 1))) [
      | inl e ↦ rw e refl
      | inr e ↦ elim (Bool-cases (ltb max_depth depth)) [
        | inl f ↦ rw (e, f) refl
        | inr f ↦
            rw (e, f)
              (wider _ _ _ (omega (arith, skip_whitespace-length s)) (
                parse_start-IsBelow depth (nodes + 1) (skip_whitespace s)
                  (omega (arith, m, skip_whitespace-length s))))
      ]
    ]

    parse_member-IsBelow :
        (keys : List Text) (depth nodes : ℕ) (s : Text)
        → 2 * length s ≤ fuel + 1
        → IsBelow after (length s + 1) (parse_member decode p keys depth nodes s)
    unfolding parse_member
    parse_member-IsBelow keys depth nodes s m =
        IsBelow-bind after (length s) after (length s + 1)
          (parse_string decode (skip_whitespace s) >>= refuse_repeated decode p keys) _
          (IsBelow-bind after (length (skip_whitespace s)) after (length s)
            (parse_string decode (skip_whitespace s)) (refuse_repeated decode p keys)
            (parse_string-IsBelow (skip_whitespace s))
            (λ q h. fresh q (omega (arith, h, skip_whitespace-length s))))
          λ q h.
            IsBelow-bind length (length (skip_whitespace q.1)) after (length s + 1)
              (expect 58 (skip_whitespace q.1)) _ (expect-IsBelow 58 (skip_whitespace q.1))
              λ r g.
                IsBelow-bind after (length r + 1) after (length s + 1) (p value (depth + 1) nodes r)
                  _
                  (enough value (depth + 1) nodes r
                    (omega (arith, m, h, g, skip_whitespace-length q.1)))
                  λ v k.
                    wider _ _ _
                      (omega
                        (arith, h, g, k, skip_whitespace-length q.1, skip_whitespace-length v.1))
                      (close_entry-IsBelow 125 (members (q.0 ∷ keys)) depth v.0
                        (skip_whitespace v.1)
                        (omega (
                          arith,
                          m,
                          h,
                          g,
                          k,
                          skip_whitespace-length q.1,
                          skip_whitespace-length v.1,
                        )))
      where
        fresh :
            (q : Text × Text)
            → after q < length s
            → IsBelow after (length s) (refuse_repeated decode p keys q)
        fresh (key, rest) h = elim (Bool-cases (contains keys key)) [
          | inl e ↦ rw e refl
          | inr e ↦ rw e h
        ]

    parse_item-IsBelow :
        (depth nodes : ℕ) (s : Text)
        → 2 * length s + 1 ≤ fuel
        → IsBelow after (length s + 1) (parse_item decode p depth nodes s)
    unfolding parse_item
    parse_item-IsBelow depth nodes [] m = refl
    parse_item-IsBelow depth nodes (c ∷ s) m =
        IsBelow-bind after (length (c ∷ s) + 1) after (length (c ∷ s) + 1)
          (p value (depth + 1) nodes (c ∷ s)) _
          (enough value (depth + 1) nodes (c ∷ s) (omega (arith, m)))
          λ v k. wider _ _ _ (omega (arith, k, skip_whitespace-length v.1)) (
            close_entry-IsBelow 93 items depth v.0 (skip_whitespace v.1)
              (omega (arith, m, k, skip_whitespace-length v.1)))

  parse-IsEnough : (fuel : ℕ) → IsEnough fuel (parse decode fuel)
  unfolding parse
  parse-IsEnough zero value depth nodes s m = absurd (omega (arith, m))
  parse-IsEnough zero (members keys) depth nodes s m = absurd (omega (arith, m))
  parse-IsEnough zero items depth nodes s m = absurd (omega (arith, m))
  parse-IsEnough (suc fuel) value depth nodes s m =
      parse_value-IsBelow fuel (parse decode fuel) (parse-IsEnough fuel) depth nodes s
        (omega (arith, m))
  parse-IsEnough (suc fuel) (members keys) depth nodes s m =
      parse_member-IsBelow fuel (parse decode fuel) (parse-IsEnough fuel) keys depth nodes s
        (omega (arith, m))
  parse-IsEnough (suc fuel) items depth nodes s m =
      parse_item-IsBelow fuel (parse decode fuel) (parse-IsEnough fuel) depth nodes s
        (omega (arith, m))

  -- The scanner ends on every text: it accepts it, or throws a SyntaxError or one of its
  -- CorruptStorageErrors; the fuel never runs out.
  pub assert_no_duplicate_json_keys_total :
      (text : Text)
      → (assert_no_duplicate_json_keys decode text ≡ found tt)
        ⊎ ((e : ScanError) × (assert_no_duplicate_json_keys decode text ≡ failed e)
            × (is_exhausted e ≡ false))
  unfolding assert_no_duplicate_json_keys
  assert_no_duplicate_json_keys_total text =
      at (parse decode (2 * length text + 2) value 0 0 text)
        (parse-IsEnough (2 * length text + 2) value 0 0 text (omega arith))
    where
      at :
          (r : Scan (ℕ × Text))
          → IsBelow after (length text + 1) r
          → ((r >>= λ v. at_end decode (skip_whitespace v.1)) ≡ found tt)
            ⊎ ((e : ScanError) × ((r >>= λ v. at_end decode (skip_whitespace v.1)) ≡ failed e)
                × (is_exhausted e ≡ false))
      at (failed e) h = inr (e, refl, h)
      at (found v) h = ended (skip_whitespace v.1)
        where
          ended :
              (s : Text)
              → (at_end decode s ≡ found tt)
                ⊎ ((e : ScanError) × (at_end decode s ≡ failed e) × (is_exhausted e ≡ false))
          ended [] = inl refl
          ended (c ∷ s) = inr (syntax, refl, refl)
