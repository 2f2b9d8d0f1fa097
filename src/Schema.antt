-- ===== src/Schema.antt =====
-- src/schema.ts: what the caller declares of a collection. The paths of the declared indexes are
-- validated when the indexes are created.
use newtondb.Input.{Input}
use newtondb.Json.{Document}
use newtondb.Json.Clone.{JsonLimitOverrides}
use newtondb.Prelude.{Bool, Option, List}
use newtondb.Text.{Text}

pub record SecondaryIndex : Type 0 where
  pub name : Text
  pub path : Input
  pub unique : Bool

-- `validate` says whether the caller's function returns, and `generate_primary_key` whether keys
-- are generated: a generated key is an argument of the operation that takes it.
pub record CollectionSchema : Type 0 where
  pub generate_primary_key : Bool
  pub indexes : List SecondaryIndex
  pub primary_key : Text
  pub validate : Option (Document → Bool)
  pub limits : JsonLimitOverrides
