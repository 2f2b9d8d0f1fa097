-- ===== src/Path.antt =====
-- src/path.ts: property paths, their validation and their reading.
pub mod Pointer
pub mod Escape
pub mod Tokens
pub mod RoundTrip
use newtondb.Input
use newtondb.Input.{Input, Elements}
use newtondb.Errors.{Result, ok, err, invalid_argument, ◌>>=◌}
use newtondb.Json.{Json, array, object, item, own}
use newtondb.Number
use newtondb.Number.{Number}
use newtondb.Prelude.{
  ℕ, suc, ltb, ◌||◌, nat_beq, if◌then◌else◌, Bool, true, false, ◌&&◌, Option, none, some, List, [],
  ◌∷◌, ◌==◌, nat_eq, list_eq,
}
use newtondb.Text.{Text}

pub data PathToken : Type 0 where
  index : Number → PathToken
  name : Text → PathToken

-- One token of a path at its position; a hole of the array is read as `undefined`.
validate_token : ℕ → Input → Result PathToken
validate_token position (Input.string s) = ok (name s)
validate_token (suc position) (Input.number n) = elim (Number.to_natural n) [
  | none ↦ err invalid_argument
  | some i ↦ ok (index n)
]
validate_token position token = err invalid_argument

validate_tokens : ℕ → Elements → Result (List PathToken)
unfolding validate_token
validate_tokens position Elements.nil = ok []
validate_tokens position Elements.others = ok []
validate_tokens position (Elements.hole rest) = err invalid_argument
validate_tokens position (Elements.item token rest) = do
  output ← validate_token position token
  more ← validate_tokens (suc position) rest
  ok (output ∷ more)
validate_tokens position (Elements.getter token rest) = do
  output ← validate_token position token
  more ← validate_tokens (suc position) rest
  ok (output ∷ more)

-- validatePath(path, maxTokens)
unfoldable pub validate_path : Input → ℕ → Result (List PathToken)
unfolding validate_tokens
validate_path (Input.array elements) max_tokens =
    let n = Input.count elements in
    if nat_beq n 0 || ltb max_tokens n then err invalid_argument else validate_tokens 0 elements
validate_path path max_tokens = err invalid_argument

abbrev pub PropertyPath : Type 0
PropertyPath = List PathToken

-- One round of the loop of `readPath`; `none` is `undefined`, which no token reads further.
unfoldable pub read_token : Option Json → PathToken → Option Json
read_token (some (array items)) (index n) = elim (Number.to_natural n) [
  | none ↦ none
  | some i ↦ item items i
]
read_token (some (object fields)) (name k) = own fields k
read_token _ _ = none

unfoldable pub read_path : Option Json → PropertyPath → Option Json
unfolding read_token
read_path current [] = current
read_path current (token ∷ path) = read_path (read_token current token) path

unfoldable pub same_token : PathToken → PathToken → Bool
same_token (index a) (index b) = Number.same a b
same_token (name s) (name t) = s == t
same_token _ _ = false

unfoldable pub same_path : PropertyPath → PropertyPath → Bool
unfolding same_token
same_path [] [] = true
same_path (x ∷ xs) (y ∷ ys) = same_token x y && same_path xs ys
same_path _ _ = false
