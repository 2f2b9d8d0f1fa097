-- ===== src/Errors.antt =====
-- The errors that the program throws (src/errors.ts) and the results of code that may throw.
-- Messages, locations, causes and the receipt of a PersistenceError are left out.
use newtondb.Number.{Number}
use newtondb.Prelude.{◌≡◌, refl, List, ◌⊎◌, inl, inr}
use newtondb.Text.{Text}

-- src/schema.ts
pub data PrimaryKey : Type 0 where
  number : Number → PrimaryKey
  string : Text → PrimaryKey

pub data QueryValidationIssue : Type 0 where
  candidate_limit depth_limit invalid_boolean invalid_node invalid_operator : QueryValidationIssue
  invalid_path invalid_value node_limit result_limit scalar_size_limit : QueryValidationIssue
  sort_limit : QueryValidationIssue

-- The `code` of a `JsonValidationIssue` of src/json.ts.
pub data JsonIssue : Type 0 where
  accessor cycle depth_limit document_size_limit invalid_number invalid_prototype : JsonIssue
  node_limit not_object sparse_array string_size_limit unsupported_value : JsonIssue

-- `raised` is an error that a caller's own function threw, `immutable_map` and `order_violated` are
-- the plain errors of src/overlay-map.ts and src/storage.ts.
pub data Error : Type 0 where
  closed corrupt_storage invariant_violation invalid_argument persistence storage : Error
  storage_conflict transaction_callback transaction_state raised immutable_map : Error
  order_violated : Error
  conflict : List Text → Error
  duplicate_key not_found : Text → PrimaryKey → Error
  duplicate_unique_index : Text → Text → Error
  immutable_primary_key schema_validation : Text → Error
  query_validation : QueryValidationIssue → Error
  json_validation : JsonIssue → Error

pub data Result {ℓ} (A : Type ℓ) : Type ℓ where
  ok : A → Result A
  err : Error → Result A

module _ {ℓ κ} {A : Type ℓ} {B : Type κ} where
  infixl 5 ◌>>=◌
  abbrev pub ◌>>=◌ : Result A → (A → Result B) → Result B
  ◌>>=◌ (ok value) next = next value
  ◌>>=◌ (err error) next = err error

  -- What a run that did not throw went through.
  pub >>=-eq-ok :
      (first : Result A) (next : A → Result B) {b : B}
      → (first >>= next) ≡ ok b
      → (a : A) × (first ≡ ok a) × (next a ≡ ok b)
  >>=-eq-ok (ok value) next h = (value, refl, h)
  >>=-eq-ok (err error) next h = cc

infixl 5 ◌>>◌
abbrev pub ◌>>◌ {ℓ} : {B : Type ℓ} → Result (Unit {0}) → Result B → Result B
check >> rest = check >>= λ _. rest

pub ok-injective {ℓ} : {A : Type ℓ} {a b : A} → ok a ≡ ok b → a ≡ b
ok-injective h = cc

pub Result-cases {ℓ} :
    {A : Type ℓ} (r : Result A) → ((a : A) × (r ≡ ok a)) ⊎ ((e : Error) × (r ≡ err e))
Result-cases (ok a) = inl (a, refl)
Result-cases (err e) = inr (e, refl)
