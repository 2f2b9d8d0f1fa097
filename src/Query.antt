-- ===== src/Query.antt =====
-- src/query.ts: the grammar of conditions. `Query/Parse` reads one from a caller's value and
-- `Query/Compile` turns it into a test of documents.
pub mod Parse
pub mod Compile
use newtondb.Json.{Primitive}
use newtondb.Path.{PropertyPath}
use newtondb.Prelude.{ℕ, Option, List}

-- ComparisonOperator, without `in`
pub data ComparisonOperator : Type 0 where
  contains ends_with eq gt gte lt lte ne starts_with : ComparisonOperator

-- Where. The list of `in` may hold `none`, an `undefined` that a hole of the caller's array left.
mutual
  pub data Where : Type 0 where
    comparison : ComparisonOperator → PropertyPath → Primitive → Where
    member : PropertyPath → List (Option Primitive) → Where
    and or : Conditions → Where
    negation : Where → Where

  pub data Conditions : Type 0 where
    nil : Conditions
    cons : Where → Conditions → Conditions

pub record QueryLimits : Type 0 where
  pub max_depth : ℕ
  pub max_nodes : ℕ
  pub max_path_tokens : ℕ
  pub max_scalar_bytes : ℕ
  pub max_set_values : ℕ
  pub max_total_scalar_bytes : ℕ

-- defaultQueryLimits
abbrev pub default_query_limits : QueryLimits
default_query_limits = record {
  max_depth = 32;
  max_nodes = 1000;
  max_path_tokens = 32;
  max_scalar_bytes = 262144;
  max_set_values = 10000;
  max_total_scalar_bytes = 1048576;
}
