-- ===== src/Transaction/Find.antt =====
-- `_query` of a transaction: the scan of the working collection, or of the stored one.
use newtondb.Collection.{Contents, StoredCollection, WorkingCollection}
use newtondb.Database.Execute.{max_query_candidates, max_query_results, select}
use newtondb.Errors.{Result, ok, err, query_validation, QueryValidationIssue, ◌>>=◌}
use newtondb.Exec.{lift, gets}
use newtondb.Input.{Input}
use newtondb.Json.{Document}
use newtondb.NativeMap
use newtondb.Prelude.{ℕ, Option, some, none, List, length, ltb, if◌then◌else◌, nat_eq, list_eq}
use newtondb.Query.{default_query_limits}
use newtondb.Query.Compile.{test}
use newtondb.Query.Parse.{parse_where}
use newtondb.Runtime.{Runtime}
use newtondb.Text.{Text}
use newtondb.Transaction.{Act, Collections, touch_collection}

-- `documents`, if they are not too many.
bounded : List Document → Result (List Document)
bounded documents =
    if ltb max_query_results (length documents)
    then err (query_validation QueryValidationIssue.result_limit)
    else ok documents

-- The documents of the contents that pass the condition.
unfoldable pub scan_contents : Runtime → Input → Contents → Result (List Document)
unfolding bounded
scan_contents rt condition c =
    if ltb max_query_candidates (length c.order)
    then err (query_validation QueryValidationIssue.candidate_limit)
    else parse_where rt default_query_limits condition >>= λ ast.
        bounded (select c.records (test rt ast) c.order)

-- `this.#working.get(name) ?? this.database._stored(name)`
abbrev pub seen_contents : Option WorkingCollection → StoredCollection → Contents
seen_contents none collection = collection.contents
seen_contents (some working) collection = working.contents

-- _query(name, condition)
unfoldable pub find : Runtime → Collections → ℕ → Text → Input → Act (List Document)
unfolding touch_collection scan_contents
find rt collections now name condition =
    newtondb.Exec.◌>>=◌ (touch_collection collections now name) λ collection.
      newtondb.Exec.◌>>=◌ (gets (λ t. NativeMap.get t.working name))
        λ working. lift (scan_contents rt condition (seen_contents working collection))
