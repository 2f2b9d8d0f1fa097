-- ===== src/Examples/Paths.antt =====
-- The theorem on pointers at a concrete path.
use newtondb.Errors.{ok}
use newtondb.Number
use newtondb.Number.{Number, from_natural}
use newtondb.Path.{PropertyPath, index, name, validate_path, same_path}
use newtondb.Path.Pointer.{format_path, parse_path}
use newtondb.Path.RoundTrip.{parse_path-format_path}
use newtondb.Prelude.{◌≡◌, refl, true, [], ◌∷◌}
use newtondb.Runtime.{decimal, decimal_from}
use newtondb.Text.{Text}

-- `["a/~", 10]`
abbrev escaped_path : PropertyPath
escaped_path = name (97 ∷ 47 ∷ 126 ∷ []) ∷ index (from_natural 10) ∷ []

-- `/a~1~0/~n10`
abbrev escaped_pointer : Text
escaped_pointer = 47 ∷ 97 ∷ 126 ∷ 49 ∷ 126 ∷ 48 ∷ 47 ∷ 126 ∷ 110 ∷ 49 ∷ 48 ∷ []

parse_path-format_path_example :
    (path : PropertyPath) × (parse_path escaped_pointer 32 ≡ ok path)
    × (same_path escaped_path path ≡ true)
unfolding from_natural format_path validate_path decimal decimal_from Number.to_natural
    Number.is_safe_integer Number.is_finite Number.units Number.one
parse_path-format_path_example = parse_path-format_path escaped_path escaped_pointer refl
