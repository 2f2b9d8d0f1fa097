-- ===== src/Scanner/Inversion.antt =====
-- What follows from a parse that returns: which branch it took.
use newtondb.Prelude.{
  ℕ, ◌≡◌, refl, ap, ◌∙◌, Bool, true, false, Option, none, some, [], ◌∷◌, nat_beq, if◌then◌else◌,
  nat_eq, list_eq, Bool-cases, inl, inr, ◌⊎◌, arith,
}
use newtondb.Scanner.{
  Scan, found, failed, ◌>>=◌, skip_whitespace, scan_word, Goal, members, items, parse_string,
  Parser, open_group, close_entry, word_at, parse_start,
}
use newtondb.Text.{Text}

pub found-injective : {A : Type 0} {a b : A} → found a ≡ found b → a ≡ b
found-injective h = cc

pub bind-inv :
    {A B : Type 0} (m : Scan A) (f : A → Scan B) {b : B}
    → (m >>= f) ≡ found b
    → (a : A) × (m ≡ found a) × (f a ≡ found b)
bind-inv (found a) f h = (a, refl, h)
bind-inv (failed e) f h = absurd (ground arith)

module _ (decode : Text → Option Text) where
  module _ (p : Parser decode) where
    pub close_entry-inv :
        (close : ℕ) (goal : Goal) (depth nodes : ℕ) (s : Text) (v : ℕ × Text)
        → close_entry decode p close goal depth nodes s ≡ found v
        → ((s ≡ close ∷ v.1) × (v.0 ≡ nodes))
          ⊎ ((r : Text) × (s ≡ 44 ∷ r) × (p goal depth nodes r ≡ found v))
    unfolding close_entry
    close_entry-inv close goal depth nodes [] v h = absurd (ground arith)
    close_entry-inv close goal depth nodes (c ∷ s) v h = elim (Bool-cases (nat_beq c close)) [
      | inl e ↦ inl (ground (arith, h, e), ground (arith, h, e))
      | inr e ↦ elim (Bool-cases (nat_beq c 44)) [
        | inl f ↦ inr (s, ground (arith, f), rw (e, f) at h)
        | inr f ↦ absurd (ground (arith, h, e, f))
      ]
    ]

    pub open_group-inv :
        (close : ℕ) (goal : Goal) (depth nodes : ℕ) (s : Text) (v : ℕ × Text)
        → open_group decode p close goal depth nodes s ≡ found v
        → ((s ≡ close ∷ v.1) × (v.0 ≡ nodes)) ⊎ (p goal depth nodes s ≡ found v)
    unfolding open_group
    open_group-inv close goal depth nodes [] v h = absurd (ground arith)
    open_group-inv close goal depth nodes (c ∷ s) v h = elim (Bool-cases (nat_beq c close)) [
      | inl e ↦ inl (ground (arith, h, e), ground (arith, h, e))
      | inr e ↦ inr (rw e at h)
    ]

    -- A value, by its first character.
    abbrev pub Starts : ℕ → ℕ → Text → ℕ × Text → Type 0
    Starts depth nodes s v =
        ((r : Text) × (s ≡ 123 ∷ r)
          × (open_group decode p 125 (members []) depth nodes (skip_whitespace r) ≡ found v))
        ⊎ (((r : Text) × (s ≡ 91 ∷ r)
              × (open_group decode p 93 items depth nodes (skip_whitespace r) ≡ found v))
            ⊎ ((((key : Text) × (parse_string decode s ≡ found (key, v.1)))
                  ⊎ (scan_word s ≡ some v.1))
                × (v.0 ≡ nodes)))

    pub parse_start-inv :
        (depth nodes : ℕ) (s : Text) (v : ℕ × Text)
        → parse_start decode p depth nodes s ≡ found v
        → Starts depth nodes s v
    unfolding parse_start
    parse_start-inv depth nodes [] v h = absurd (ground arith)
    parse_start-inv depth nodes (c ∷ s) v h = elim (Bool-cases (nat_beq c 123)) [
      | inl e ↦ inl (s, ground (arith, e), rw e at h)
      | inr e ↦ elim (Bool-cases (nat_beq c 91)) [
        | inl f ↦ inr (inl (s, ground (arith, f), rw (e, f) at h))
        | inr f ↦ inr (inr (last (nat_beq c 34) (rw (e, f) at h)))
      ]
    ]
      where
        word :
            (r : Option Text) → word_at decode p nodes r ≡ found v → (r ≡ some v.1) × (v.0 ≡ nodes)
        word none g = absurd (ground arith)
        word (some rest) g = (ground (arith, g), ground (arith, g))

        last :
            (b : Bool)
            → (if b
                then (parse_string decode (c ∷ s) >>= λ q. found (nodes, q.1))
                else word_at decode p nodes (scan_word (c ∷ s)))
              ≡ found v
            → ((((key : Text) × (parse_string decode (c ∷ s) ≡ found (key, v.1)))
                  ⊎ (scan_word (c ∷ s) ≡ some v.1))
                × (v.0 ≡ nodes))
        last true g =
            let (q, found_string, same) = bind-inv (parse_string decode (c ∷ s)) _ g in
            (
              inl (q.0, found_string ∙ ap (λ x. found (q.0, x)) (ground (arith, same))),
              ground (arith, same),
            )
        last false g = let (w, n) = word (scan_word (c ∷ s)) g in (inr w, n)
