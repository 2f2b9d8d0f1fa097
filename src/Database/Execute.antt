-- ===== src/Database/Execute.antt =====
-- `choosePlan` and `_query` of src/database.ts: the plan, its candidates, and the two ways in which
-- the documents are collected.
pub mod Answers
pub mod Collect
pub mod Match
pub mod Select
use newtondb.Collection.{Contents}
use newtondb.Database.{Database, require_open}
use newtondb.Database.Order.{OrderField, sort, compare_documents, is_positive}
use newtondb.Errors.{
  number, string, Result, ok, err, query_validation, QueryValidationIssue, invalid_argument, ◌>>=◌,
}
use newtondb.Index.{SecondaryIndexState, Indexes, members}
use newtondb.Input.{Input}
use newtondb.Json.{Primitive, Document}
use newtondb.Key.{encode_key, encode_index_value}
use newtondb.Number.{max_safe_integer}
use newtondb.OverlayMap
use newtondb.OverlayMap.{MapLike}
use newtondb.Path.{PropertyPath, name, same_path}
use newtondb.Prelude.{
  ℕ, ◌+◌, Bool, false, Option, none, some, List, [], ◌∷◌, ◌++◌, length, take, drop, ltb, leb,
  nat_eq, list_eq, if◌then◌else◌,
}
use newtondb.Query.{Where, comparison, eq, default_query_limits}
use newtondb.Query.Compile.{test}
use newtondb.Query.Parse.{parse_where}
use newtondb.Runtime.{Runtime}
use newtondb.Text.{Text}
use newtondb.Transaction.{stored}

abbrev pub max_query_candidates : ℕ
max_query_candidates = 100000

abbrev pub max_query_results : ℕ
max_query_results = 100000

abbrev pub max_sort_candidates : ℕ
max_sort_candidates = 100000

-- QueryPlan; a secondary plan carries the index that its name stands for, and both plans by a key
-- the value that is looked up
pub data QueryPlan : Type 0 where
  primary : Primitive → QueryPlan
  secondary : SecondaryIndexState → Primitive → QueryPlan
  scan : QueryPlan

pub record QueryOptions : Type 0 where
  pub limit : Option ℕ
  pub offset : ℕ
  pub order : Option (List OrderField)

-- The loop of `choosePlan` over the indexes.
unfoldable pub index_plan : Indexes → PropertyPath → Primitive → QueryPlan
index_plan [] path value = scan
index_plan ((n, index) ∷ indexes) path value =
    if same_path path index.path then secondary index value else index_plan indexes path value

unfoldable pub choose_plan : Contents → Where → QueryPlan
unfolding index_plan
choose_plan c (comparison eq path value) =
    if same_path path (name c.schema.primary_key ∷ [])
    then primary value
    else index_plan c.indexes path value
choose_plan c condition = scan

-- `positions.get(key) ?? Number.MAX_SAFE_INTEGER`
abbrev pub rank_or_last : Option ℕ → ℕ
rank_or_last none = max_safe_integer
rank_or_last (some n) = n

unfoldable pub ranks_after : MapLike Text ℕ → Text → Text → Bool
ranks_after positions left right =
    ltb (rank_or_last (OverlayMap.get positions right))
      (rank_or_last (OverlayMap.get positions left))

module _ (rt : Runtime) where
  -- `encodeKey(value)`, where a value that is no key throws
  unfoldable pub encode_any : Primitive → Result Text
  encode_any (Primitive.string s) = encode_key rt (string s)
  encode_any (Primitive.number n) = encode_key rt (number n)
  encode_any value = err invalid_argument

  unfoldable pub candidate_keys : Contents → QueryPlan → Result (List Text)
  unfolding encode_any ranks_after
  candidate_keys c (primary value) = elim (encode_any value) [
    | ok key ↦ ok (key ∷ [])
    | err e ↦ ok []
  ]
  candidate_keys c (secondary index value) = do
    encoded ← encode_index_value rt value
    ok (sort (ranks_after c.positions) (members (OverlayMap.get index.buckets encoded)))
  candidate_keys c scan = ok c.order

-- `documents.length >= limit`
abbrev pub is_full : Option ℕ → ℕ → Bool
is_full none n = false
is_full (some limit) n = leb limit n

module _ (records : MapLike Text Document) (matches : Document → Bool) where
  -- The documents of the candidates that pass the test.
  unfoldable pub select : List Text → List Document
  select [] = []
  select (key ∷ keys) =
      let rest = select keys in
      elim (OverlayMap.get records key) [
        | none ↦ rest
        | some document ↦ if matches document then document ∷ rest else rest
      ]

module _ (records : MapLike Text Document) (matches : Document → Bool)
    (options : QueryOptions) where
  -- One candidate of the loop without an order: the documents after it and the count of matches, and
  -- whether the loop goes on.
  unfoldable pub collect : List Text → ℕ → List Document → Result (List Document)
  collect [] matched documents = ok documents
  collect (key ∷ keys) matched documents =
      let skip = collect keys matched documents in
      let pass = collect keys (matched + 1) documents in
      elim (OverlayMap.get records key) [
        | none ↦ skip
        | some document ↦
            let documents' = documents ++ document ∷ [] in
            let more = collect keys (matched + 1) documents' in
            if matches document
            then (if ltb matched options.offset
                then pass
                else if leb max_query_results (length documents)
                then err (query_validation QueryValidationIssue.result_limit)
                else if is_full options.limit (length documents')
                then ok documents'
                else more)
            else skip
      ]

  -- `documents.slice(offset, offset + limit)`
  abbrev pub slice : List Document → List Document
  slice documents = elim options.limit [
    | none ↦ drop options.offset documents
    | some limit ↦ take limit (drop options.offset documents)
  ]

  -- The branch of a query with an order.
  unfoldable pub collect_ordered : (Document → Document → Bool) → List Text → Result (List Document)
  unfolding select sort
  collect_ordered after keys =
      if ltb max_sort_candidates (length (select records matches keys))
      then err (query_validation QueryValidationIssue.sort_limit)
      else if ltb max_query_results (length (slice (select records matches keys)))
      then err (query_validation QueryValidationIssue.result_limit)
      else ok (slice (sort after (select records matches keys)))

module _ (rt : Runtime) where
  unfoldable pub run_plan :
      Contents → Where → QueryOptions → QueryPlan → List Text → Result (List Document)
  unfolding collect collect_ordered
  run_plan c condition options plan keys =
      if is_full options.limit 0
      then ok []
      else if ltb max_query_candidates (length keys)
      then err (query_validation QueryValidationIssue.candidate_limit)
      else elim options.order [
        | none ↦ collect c.records (test rt condition) options keys 0 []
        | some fields ↦
            collect_ordered c.records (test rt condition) options
              (λ left right. is_positive (compare_documents c.schema.primary_key fields left right))
              keys
      ]

  -- _query(name, condition, options)
  unfoldable pub query : Database → Text → Input → QueryOptions → Result (List Document × QueryPlan)
  unfolding require_open stored choose_plan candidate_keys run_plan
  query db collection_name condition options = do
    _ ← require_open db.state
    collection ← stored db.collections collection_name
    ast ← parse_where rt default_query_limits condition
    let c = collection.contents
    let plan = choose_plan c ast
    keys ← candidate_keys rt c plan
    documents ← run_plan c ast options plan keys
    ok (documents, plan)
