-- ===== src/Database/Execute/Answers.antt =====
-- What a query without an order answers, whichever plan is chosen.
use newtondb.Collection.{Contents}
use newtondb.Collection.Valid.{IsValid}
use newtondb.Database.Execute.{
  QueryOptions, choose_plan, candidate_keys, select, slice, is_full, run_plan, max_query_candidates,
  max_query_results,
}
use newtondb.Database.Execute.Collect.{collect-slice}
use newtondb.Database.Execute.Select.{choose_plan-select}
use newtondb.Errors.{ok}
use newtondb.Prelude.{◌≡◌, ◌≤◌, ◌∙◌, ap, false, none, List, length, ltb, arith}
use newtondb.Query.{Where}
use newtondb.Query.Compile.{test}
use newtondb.Runtime.{Runtime}
use newtondb.Text.{Text}

module _ (rt : Runtime) (c : Contents) (valid : IsValid rt c) where
  within :
      (keys : List Text)
      → length keys ≤ max_query_candidates
      → ltb max_query_candidates (length keys) ≡ false
  within keys b = ground arith

  -- On a valid collection, a query without an order, whose limit is not 0, answers,
  -- whichever plan is chosen, the slice by offset and limit of the documents that pass the
  -- condition, in the order of the collection; the plan's candidates are found, are at most
  -- the candidate limit, and the matches are at most the result limit.
  pub run_plan-slice :
      (condition : Where) (options : QueryOptions) (keys : List Text)
      → candidate_keys rt c (choose_plan c condition) ≡ ok keys
      → options.order ≡ none
      → is_full options.limit 0 ≡ false
      → length keys ≤ max_query_candidates
      → length (select c.records (test rt condition) c.order) ≤ max_query_results
      → run_plan rt c condition options (choose_plan c condition) keys
        ≡ ok (
            slice c.records
              (test rt condition)
              options
              (select c.records (test rt condition) c.order))
  unfolding run_plan
  run_plan-slice condition options keys found unordered some_limit candidates results =
      let same = choose_plan-select rt c valid condition keys found in
      rw (some_limit, within keys candidates, unordered, run_plan)
        (collect-slice c.records (test rt condition) options keys some_limit
            (rw (← same) at results)
          ∙ ap (λ l. ok (slice c.records (test rt condition) options l)) same)
