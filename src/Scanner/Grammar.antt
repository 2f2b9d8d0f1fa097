-- ===== src/Scanner/Grammar.antt =====
-- The shapes of JSON values, and how the scanner reads a text as one; `Written` is about the texts
-- that the grammar allows.
use newtondb.Prelude.{
  ℕ, ◌+◌, ◌≡◌, ◌≤◌, false, Option, some, List, [], ◌∷◌, contains, nat_eq, list_eq, ◌⊎◌,
}
use newtondb.Scanner.{found, skip_whitespace, expect, scan_word, parse_string}
use newtondb.Text.{Text}

-- The shape of a JSON value; an entry of an array has the empty key.
mutual
  pub data Shape : Type 0 where
    leaf : Shape
    array : Parts → Shape
    object : Parts → Shape

  pub data Parts : Type 0 where
    end : Parts
    part : Text → Shape → Parts → Parts

abbrev pub keys_of : Parts → List Text
keys_of end = []
keys_of (part key shape ps) = key ∷ keys_of ps

-- No key of the list is among these or comes twice.
abbrev pub AreFresh : List Text → List Text → Type 0
AreFresh seen [] = Unit
AreFresh seen (key ∷ keys) = (contains seen key ≡ false) × AreFresh (key ∷ seen) keys

abbrev mutual
  -- Every object, at any depth, has distinct keys.
  pub IsDistinct : Shape → Type 0
  IsDistinct leaf = Unit
  IsDistinct (array ps) = AreDistinct ps
  IsDistinct (object ps) = AreFresh [] (keys_of ps) × AreDistinct ps

  pub AreDistinct : Parts → Type 0
  AreDistinct end = Unit
  AreDistinct (part key shape ps) = IsDistinct shape × AreDistinct ps

abbrev mutual
  -- The number of values.
  pub size : Shape → ℕ
  size leaf = 1
  size (array ps) = 1 + sizes ps
  size (object ps) = 1 + sizes ps

  pub sizes : Parts → ℕ
  sizes end = 0
  sizes (part key shape ps) = size shape + sizes ps

abbrev mutual
  -- No value is nested deeper than the limit, from this depth on.
  pub IsShallow : ℕ → Shape → Type 0
  IsShallow depth leaf = depth ≤ 128
  IsShallow depth (array ps) = (depth ≤ 128) × AreShallow (depth + 1) ps
  IsShallow depth (object ps) = (depth ≤ 128) × AreShallow (depth + 1) ps

  pub AreShallow : ℕ → Parts → Type 0
  AreShallow depth end = Unit
  AreShallow depth (part key shape ps) = IsShallow depth shape × AreShallow depth ps

module _ (decode : Text → Option Text) where
  -- A key and its colon, up to the value.
  abbrev pub KeyAt : Text → Text → Text → Type 0
  KeyAt key text rest =
      (r : Text) × (parse_string decode (skip_whitespace text) ≡ found (key, r))
      × (expect 58 (skip_whitespace r) ≡ found rest)

  abbrev mutual
    -- The text is written as this shape, up to the rest.
    pub Reads : Shape → Text → Text → Type 0
    Reads leaf text rest =
        ((key : Text) × (parse_string decode (skip_whitespace text) ≡ found (key, rest)))
        ⊎ (scan_word (skip_whitespace text) ≡ some rest)
    Reads (array ps) text rest =
        (r : Text) × (skip_whitespace text ≡ 91 ∷ r) × ReadsItems ps (skip_whitespace r) rest
    Reads (object ps) text rest =
        (r : Text) × (skip_whitespace text ≡ 123 ∷ r) × ReadsMembers ps (skip_whitespace r) rest

    -- No entry, and the closing bracket; or entries with commas between them.
    pub ReadsItems : Parts → Text → Text → Type 0
    ReadsItems end text rest = text ≡ 93 ∷ rest
    ReadsItems (part key shape end) text rest =
        (r : Text) × Reads shape text r × (skip_whitespace r ≡ 93 ∷ rest)
    ReadsItems (part key shape (part k s ps)) text rest =
        (r : Text) × (r' : Text) × Reads shape text r
        × (skip_whitespace r ≡ 44 ∷ r')
        × ReadsItems (part k s ps) r' rest

    pub ReadsMembers : Parts → Text → Text → Type 0
    ReadsMembers end text rest = text ≡ 125 ∷ rest
    ReadsMembers (part key shape end) text rest =
        (v : Text) × (r : Text) × KeyAt key text v
        × Reads shape v r
        × (skip_whitespace r ≡ 125 ∷ rest)
    ReadsMembers (part key shape (part k s ps)) text rest =
        (v : Text) × (r : Text) × (r' : Text) × KeyAt key text v
        × Reads shape v r
        × (skip_whitespace r ≡ 44 ∷ r')
        × ReadsMembers (part k s ps) r' rest
