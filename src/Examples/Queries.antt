-- ===== src/Examples/Queries.antt =====
-- The theorems on query plans and their answers at concrete inputs.
use newtondb.Database.Execute.{
  choose_plan, index_plan, candidate_keys, select, ranks_after, collect, slice, run_plan,
  QueryOptions, max_query_results,
}
use newtondb.Database.Execute.Collect.{collect-slice}
use newtondb.Database.Execute.Answers.{run_plan-slice}
use newtondb.Prelude.{length}
use newtondb.Database.Execute.Select.{choose_plan-select}
use newtondb.Database.Order.{sort, place}
use newtondb.Query.{Where, comparison, eq}
use newtondb.Query.Compile.{test}
use newtondb.Samples.{mail_field}
use newtondb.Path.{name, same_path, same_token}
use newtondb.Errors.{ok}
use newtondb.Json.{Primitive}
use newtondb.NativeMap
use newtondb.OverlayMap
use newtondb.OverlayMap.{MapLike, native, overlay, entries, seal}
use newtondb.Key.{sized, encode_index_value}
use newtondb.Runtime.{decimal, decimal_from}
use newtondb.Prelude.{◌≡◌, refl, none, some, [], ◌∷◌, list_beq, nat_eq, list_eq, arith}
use newtondb.Samples.{runtime, ann_key, with_ann, with_ann-Holds}
use newtondb.Prelude.{◌≤◌}

-- { op: "eq", path: ["m"], value: "@" }
abbrev by_mail : Where
by_mail = comparison eq (name mail_field ∷ []) (Primitive.string (64 ∷ []))

ann_planned : candidate_keys runtime with_ann (choose_plan with_ann by_mail) ≡ ok (ann_key ∷ [])
unfolding choose_plan index_plan candidate_keys same_path same_token encode_index_value list_beq
    sized decimal decimal_from sort place ranks_after OverlayMap.get NativeMap.get
ann_planned = refl

choose_plan-select_example :
    select with_ann.records (test runtime by_mail) (ann_key ∷ [])
    ≡ select with_ann.records (test runtime by_mail) with_ann.order
choose_plan-select_example =
    choose_plan-select runtime with_ann with_ann-Holds.valid by_mail (ann_key ∷ []) ann_planned

ann_selected :
    length (select with_ann.records (test runtime by_mail) (ann_key ∷ [])) ≤ max_query_results
unfolding select
ann_selected = ground arith

abbrev first_page : QueryOptions
first_page = record { limit = some 10; offset = 0; order = none }

collect-slice_example :
    collect with_ann.records (test runtime by_mail) first_page (ann_key ∷ []) 0 []
    ≡ ok (
        slice with_ann.records
          (test runtime by_mail)
          first_page
          (select with_ann.records (test runtime by_mail) (ann_key ∷ [])))
collect-slice_example =
    collect-slice with_ann.records (test runtime by_mail) first_page (ann_key ∷ []) refl
      ann_selected

run_plan-slice_example :
    run_plan runtime with_ann by_mail first_page (choose_plan with_ann by_mail) (ann_key ∷ [])
    ≡ ok (
        slice with_ann.records
          (test runtime by_mail)
          first_page
          (select with_ann.records (test runtime by_mail) (ann_key ∷ [])))
run_plan-slice_example =
    run_plan-slice runtime with_ann with_ann-Holds.valid by_mail first_page (ann_key ∷ [])
      ann_planned refl refl (omega arith) ann_selected
