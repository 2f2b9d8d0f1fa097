-- ===== src/Examples/Scanner.antt =====
-- The theorems on the duplicate-key scanner at concrete texts.
use newtondb.Prelude.{◌≡◌, ◌≤◌, ◌⊎◌, refl, some, [], ◌∷◌, Option, false, contains, list_beq}
use newtondb.Scanner.{ScanError, found, failed, assert_no_duplicate_json_keys}
use newtondb.Scanner.Grammar.{Shape, IsDistinct, IsShallow, size}
use newtondb.Scanner.Lengths.{is_exhausted}
use newtondb.Scanner.Tokens.{AreSpaces}
use newtondb.Scanner.Written.{Writes, assert_no_duplicate_json_keys-IsDistinct}
use newtondb.Scanner.Total.{assert_no_duplicate_json_keys_total}
use newtondb.Text.{Text}

-- The characters between the quotes, for strings without escapes.
abbrev decode : Text → Option Text
decode raw = some raw

-- {"a":1,"b":[]}
abbrev distinct : Text
distinct = 123 ∷ 34 ∷ 97 ∷ 34 ∷ 58 ∷ 49 ∷ 44 ∷ 34 ∷ 98 ∷ 34 ∷ 58 ∷ 91 ∷ 93 ∷ 125 ∷ []

-- {"a":1,"a":2}
abbrev repeated : Text
repeated = 123 ∷ 34 ∷ 97 ∷ 34 ∷ 58 ∷ 49 ∷ 44 ∷ 34 ∷ 97 ∷ 34 ∷ 58 ∷ 50 ∷ 125 ∷ []

distinct_accepted : assert_no_duplicate_json_keys decode distinct ≡ found tt
unfolding assert_no_duplicate_json_keys contains list_beq
distinct_accepted = refl

repeated_refused : assert_no_duplicate_json_keys decode repeated ≡ failed ScanError.duplicate_key
unfolding assert_no_duplicate_json_keys contains list_beq
repeated_refused = refl

assert_no_duplicate_json_keys_total_example :
    (assert_no_duplicate_json_keys decode repeated ≡ found tt)
    ⊎ ((e : ScanError) × (assert_no_duplicate_json_keys decode repeated ≡ failed e)
        × (is_exhausted e ≡ false))
assert_no_duplicate_json_keys_total_example = assert_no_duplicate_json_keys_total decode repeated

assert_no_duplicate_json_keys-IsDistinct_example :
    (shape : Shape) × (rest : Text) × Writes decode shape distinct rest
    × AreSpaces rest
    × IsDistinct shape
    × IsShallow 0 shape
    × (size shape ≤ 1000000)
assert_no_duplicate_json_keys-IsDistinct_example =
    assert_no_duplicate_json_keys-IsDistinct decode distinct distinct_accepted
