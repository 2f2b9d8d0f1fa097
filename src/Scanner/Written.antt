-- ===== src/Scanner/Written.antt =====
-- The texts that the grammar of RFC 8259 writes for a shape, and what an accepted text is.
use newtondb.Prelude.{
  ◌≡◌, ◌≤◌, refl, sym, ap, ◌∙◌, Option, [], ◌∷◌, ◌++◌, nat_eq, list_eq, inl, inr, ◌⊎◌,
}
use mathlib.Core.Path.{subst}
use newtondb.Scanner.{found, skip_whitespace, assert_no_duplicate_json_keys}
use newtondb.Scanner.Grammar.{
  Shape, leaf, array, object, Parts, end, part, IsDistinct, size, IsShallow, KeyAt, Reads,
  ReadsItems, ReadsMembers,
}
use newtondb.Scanner.Sound.{assert_no_duplicate_json_keys-Reads}
use newtondb.Scanner.Strings.{expect-eq, parse_string-Literal}
use newtondb.Scanner.Tokens.{AreSpaces, After, Literal, Word}
use newtondb.Scanner.Words.{skip_whitespace-After, scan_word-Word}
use newtondb.Text.{Text}

append_nil : (s : Text) → s ++ [] ≡ s
append_nil [] = refl
append_nil (c ∷ s) = ap (λ x. c ∷ x) (append_nil s)

module _ (decode : Text → Option Text) where
  -- A key and its colon, up to the value.
  abbrev pub Key : Text → Text → Text → Type 0
  Key key text rest =
      (s : Text) × (r : Text) × After text s × Literal decode key s r × After r (58 ∷ rest)

  abbrev mutual
    -- The text begins with a value of this shape, white space before it, and goes on with the rest.
    pub Writes : Shape → Text → Text → Type 0
    Writes leaf text rest =
        (s : Text) × After text s × (((key : Text) × Literal decode key s rest) ⊎ Word s rest)
    Writes (array ps) text rest =
        (s : Text) × (r : Text) × After text (91 ∷ s) × After s r × WritesItems ps r rest
    Writes (object ps) text rest =
        (s : Text) × (r : Text) × After text (123 ∷ s) × After s r × WritesMembers ps r rest

    -- No entry, and the closing bracket; or entries with commas between them.
    pub WritesItems : Parts → Text → Text → Type 0
    WritesItems end text rest = text ≡ 93 ∷ rest
    WritesItems (part key shape end) text rest =
        (r : Text) × Writes shape text r × After r (93 ∷ rest)
    WritesItems (part key shape (part k s ps)) text rest =
        (r : Text) × (r' : Text) × Writes shape text r
        × After r (44 ∷ r')
        × WritesItems (part k s ps) r' rest

    pub WritesMembers : Parts → Text → Text → Type 0
    WritesMembers end text rest = text ≡ 125 ∷ rest
    WritesMembers (part key shape end) text rest =
        (v : Text) × (r : Text) × Key key text v × Writes shape v r × After r (125 ∷ rest)
    WritesMembers (part key shape (part k s ps)) text rest =
        (v : Text) × (r : Text) × (r' : Text) × Key key text v
        × Writes shape v r
        × After r (44 ∷ r')
        × WritesMembers (part k s ps) r' rest

  skipped : (text s : Text) → skip_whitespace text ≡ s → After text s
  skipped text s e = subst (After text) e (skip_whitespace-After text)

  KeyAt-Key : (key text rest : Text) → KeyAt decode key text rest → Key key text rest
  KeyAt-Key key text rest (r, read, colon) = (
    skip_whitespace text,
    r,
    skip_whitespace-After text,
    parse_string-Literal decode (skip_whitespace text) key r read,
    skipped r (58 ∷ rest) (expect-eq 58 (skip_whitespace r) rest colon),
  )

  mutual
    Reads-Writes :
        (shape : Shape) (text rest : Text) → Reads decode shape text rest → Writes shape text rest
    Reads-Writes leaf text rest (inl (key, read)) = (
      skip_whitespace text,
      skip_whitespace-After text,
      inl (key, parse_string-Literal decode (skip_whitespace text) key rest read),
    )
    Reads-Writes leaf text rest (inr read) = (
      skip_whitespace text,
      skip_whitespace-After text,
      inr (scan_word-Word (skip_whitespace text) rest read),
    )
    Reads-Writes (array ps) text rest (r, e, read) = (
      r,
      skip_whitespace r,
      skipped text (91 ∷ r) e,
      skip_whitespace-After r,
      ReadsItems-Writes ps (skip_whitespace r) rest read,
    )
    Reads-Writes (object ps) text rest (r, e, read) = (
      r,
      skip_whitespace r,
      skipped text (123 ∷ r) e,
      skip_whitespace-After r,
      ReadsMembers-Writes ps (skip_whitespace r) rest read,
    )

    ReadsItems-Writes :
        (ps : Parts) (text rest : Text) → ReadsItems decode ps text rest → WritesItems ps text rest
    ReadsItems-Writes end text rest e = e
    ReadsItems-Writes (part key shape end) text rest (r, read, e) =
        (r, Reads-Writes shape text r read, skipped r (93 ∷ rest) e)
    ReadsItems-Writes (part key shape (part k s ps)) text rest (r, r', read, e, more) = (
      r,
      r',
      Reads-Writes shape text r read,
      skipped r (44 ∷ r') e,
      ReadsItems-Writes (part k s ps) r' rest more,
    )

    ReadsMembers-Writes :
        (ps : Parts) (text rest : Text)
        → ReadsMembers decode ps text rest
        → WritesMembers ps text rest
    ReadsMembers-Writes end text rest e = e
    ReadsMembers-Writes (part key shape end) text rest (v, r, at, read, e) =
        (v, r, KeyAt-Key key text v at, Reads-Writes shape v r read, skipped r (125 ∷ rest) e)
    ReadsMembers-Writes (part key shape (part k s ps)) text rest (v, r, r', at, read, e, more) = (
      v,
      r,
      r',
      KeyAt-Key key text v at,
      Reads-Writes shape v r read,
      skipped r (44 ∷ r') e,
      ReadsMembers-Writes (part k s ps) r' rest more,
    )

  -- A text that the scanner accepts is, up to white space at its end, one that the grammar
  -- of RFC 8259 writes, given by its tokens, for a value in which the keys of every object,
  -- as decoded, are distinct, which has at most 1,000,000 values and is nested at most 128
  -- deep.
  pub assert_no_duplicate_json_keys-IsDistinct :
      (text : Text)
      → assert_no_duplicate_json_keys decode text ≡ found tt
      → (shape : Shape) × (rest : Text) × Writes shape text rest
        × AreSpaces rest
        × IsDistinct shape
        × IsShallow 0 shape
        × (size shape ≤ 1000000)
  assert_no_duplicate_json_keys-IsDistinct text h =
      let (shape, rest, reads, blank, distinct, shallow, few) =
        assert_no_duplicate_json_keys-Reads decode text h in
      (
        shape,
        rest,
        Reads-Writes shape text rest reads,
        only_spaces rest (skipped rest [] blank),
        distinct,
        shallow,
        few,
      )
    where
      only_spaces : (rest : Text) → After rest [] → AreSpaces rest
      only_spaces rest (spaces, blanks, same) =
          subst AreSpaces (sym (same ∙ append_nil spaces)) blanks
