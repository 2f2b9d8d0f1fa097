-- ===== src/Examples.antt =====
-- The theorems on indexes, collections, transactions and commits at concrete inputs.
pub mod Data
pub mod Paths
pub mod Queries
pub mod Storage
pub mod Scanner
use newtondb.Collection.{
  Contents, StoredCollection, put_document, remove_document, reindex, working_copy, publish,
  splice_out,
}
use newtondb.Collection.Copies.{working_copy-IsValid, publish-IsValid}
use newtondb.Collection.Reindex.{Reindexed, reindex-Ends}
use newtondb.Collection.Valid.{IsValid, IsOpen}
use newtondb.Collection.Write.{Holds, put_document-Ends, remove_document_ends}
use newtondb.Database.{commit_working}
use newtondb.Database.Commit.{find_conflicts, publish_all}
use newtondb.Database.Install.{IsCurrent}
use newtondb.Database.Isolation.{
  Committed, commit_working-Ends, commit_working-AllStored, find_conflicts_iff, get-publish_all,
}
use newtondb.Database.Execute.{
  choose_plan, index_plan, candidate_keys, select, ranks_after, collect, slice, run_plan,
  QueryOptions, max_query_results,
}
use newtondb.Database.Execute.Collect.{collect-slice}
use newtondb.Database.Execute.Answers.{run_plan-slice}
use newtondb.Prelude.{length}
use newtondb.Database.Execute.Select.{choose_plan-select}
use newtondb.Database.Order.{sort, place}
use newtondb.Query.{Where, comparison, eq}
use newtondb.Query.Compile.{test}
use newtondb.Samples.{ann_input, mail_field}
use newtondb.Path.{name, same_path, same_token}
use newtondb.Errors.{PrimaryKey, ok, string, number}
use newtondb.Exec.{Ends}
use newtondb.Index.{
  add_to_indexes, remove_from_indexes, Indexes, index_value, encode_read, remove_entry,
  shrink_bucket,
}
use newtondb.Index.Agrees.{AllAgree, with_record}
use newtondb.Index.Maintain.{add_to_indexes-AllAgree, remove_from_indexes-AllAgree}
use newtondb.Index.Total.{AllWritable, remove_from_indexes_total, add_to_indexes_total}
use newtondb.Input.{Input}
use newtondb.Json.{Primitive, object, own}
use newtondb.Json.Embed.{to_input}
use newtondb.NativeMap
use newtondb.Number
use newtondb.OverlayMap
use newtondb.OverlayMap.{MapLike, native, overlay, entries, seal}
use newtondb.OverlayMap.Laws.{IsCoherent, get-set, get-delete, get-entries, get-seal}
use newtondb.Key.{sized, same_key, encode_key, encode_index_value}
use newtondb.Key.Injective.{encode_key_iff, encode_index_value_iff}
use newtondb.Number.{negative_zero, finite}
use newtondb.Runtime.{decimal, decimal_from}
use newtondb.Json
use newtondb.Path.{read_path, read_token}
use newtondb.Prelude.{
  ℕ, ◌≡◌, ◌↔◌, refl, true, false, none, some, [], ◌∷◌, contains, insert, discard, list_beq, nat_eq,
  list_eq, arith,
}
use newtondb.Prelude.Int.{pos}
use newtondb.Samples.{
  runtime, people, people_name, ann, ann_key, ann-IsKeyed, ann_missing, ann_stored, add_ann,
  with_ann, with_ann_indexes, with_ann-Holds, people-IsValid, people-IsOpen, collections,
  collections-valid, insertion, insertion-IsSound, database, id_field,
}
use newtondb.Collection.Seeded.{create_stored_collection-IsValid}
use newtondb.Samples.{schema}
use newtondb.Samples.Prepared.{seeded, ann_created}
use newtondb.Transaction
use newtondb.Transaction.{stored, touch_collection}
use newtondb.Transaction.Notes.{Noted, touch_collection-Ends}
use newtondb.Transaction.Operations.{insert-IsSound, update-IsSound, delete-IsSound}
use newtondb.Transaction.Sound.{AllStored, IsSound}
use newtondb.Json.Clone.{json_size, default_json_limits}
use newtondb.Json.Clone.Faithful.{clone_and_freeze-faithful}
use newtondb.Key.{document_key}
use newtondb.Number.{less_total}
use newtondb.Prelude.{◌≤◌}
use newtondb.Samples.{schema}
use newtondb.Samples.Prepared.{ann_accepted, ann_prepared, ann_updated}
use newtondb.Text.{Text}
use newtondb.Validation.{prepare_insert-key, prepare_update-key}

commit_working-Ends_example :
    Ends
      (λ receipt db'. Committed runtime [] insertion database receipt db')
      (λ e db'. db' ≡ database)
      (commit_working runtime [] insertion database).0
      (commit_working runtime [] insertion database).1
commit_working-Ends_example = commit_working-Ends runtime [] insertion database insertion-IsSound

commit_working-AllStored_example :
    AllStored runtime (commit_working runtime [] insertion database).1.collections
commit_working-AllStored_example =
    commit_working-AllStored runtime [] insertion database collections-valid insertion-IsSound

put_document-Ends_example :
    Ends
      (λ _ c'.
        Holds runtime
          (with_record ann_key (some ann) (OverlayMap.get people.records))
          (ann_key ∷ [])
          c')
      (λ e c'. Holds runtime (OverlayMap.get people.records) [] c')
      (put_document runtime people_name ann_key none ann people).0
      (put_document runtime people_name ann_key none ann people).1
put_document-Ends_example =
    put_document-Ends runtime people_name ann_key ann people people-IsValid people-IsOpen none
      ann_missing ann-IsKeyed

remove_document_ends_example :
    (c' : Contents) × (remove_document runtime ann_key ann with_ann ≡ (ok tt, c'))
    × Holds runtime
        (with_record ann_key none (OverlayMap.get with_ann.records))
        (splice_out ann_key (ann_key ∷ []))
        c'
remove_document_ends_example =
    remove_document_ends runtime people_name ann_key ann with_ann with_ann-Holds.valid
      with_ann-Holds.is_open ann_stored

reindex-Ends_example :
    Ends
      (λ _ c'.
        Reindexed runtime
          (with_record ann_key (some ann) (OverlayMap.get people.records))
          people
          c')
      (λ e c'. Reindexed runtime (OverlayMap.get people.records) people c')
      (reindex runtime people_name ann_key none ann people).0
      (reindex runtime people_name ann_key none ann people).1
reindex-Ends_example =
    reindex-Ends runtime people_name ann_key ann people people-IsOpen none people-IsValid.indexed
      ann_missing

insert-IsSound_example :
    IsSound runtime
      (Transaction.insert runtime collections 1 people_name ann_input true [] insertion).1
insert-IsSound_example =
    insert-IsSound runtime collections collections-valid 1 people_name ann_input true [] insertion
      insertion-IsSound

update-IsSound_example :
    IsSound runtime
      (Transaction.update runtime collections 1 people_name
        (string (97 ∷ []))
        ann_input
        insertion).1
update-IsSound_example =
    update-IsSound runtime collections collections-valid 1 people_name (string (97 ∷ [])) ann_input
      insertion insertion-IsSound

delete-IsSound_example :
    IsSound runtime
      (Transaction.delete runtime collections 1 people_name (string (97 ∷ [])) insertion).1
delete-IsSound_example =
    delete-IsSound runtime collections collections-valid 1 people_name (string (97 ∷ [])) insertion
      insertion-IsSound

find_conflicts_iff_example :
    (find_conflicts collections ((people_name, 0) ∷ []) ≡ ok [])
    ↔ IsCurrent collections ((people_name, 0) ∷ [])
find_conflicts_iff_example = find_conflicts_iff collections ((people_name, 0) ∷ [])

get-publish_all_example :
    NativeMap.get (publish_all 1 insertion.working collections) (113 ∷ [])
    ≡ NativeMap.get collections (113 ∷ [])
unfolding NativeMap.has list_beq
get-publish_all_example = get-publish_all 1 insertion.working collections (113 ∷ []) refl

add_to_indexes-AllAgree_example :
    AllAgree runtime
      (with_record ann_key (some ann) (OverlayMap.get people.records))
      with_ann_indexes
add_to_indexes-AllAgree_example =
    add_to_indexes-AllAgree runtime people_name ann_key ann (OverlayMap.get people.records)
      people.indexes with_ann_indexes people-IsValid.indexed ann_missing add_ann

remove_from_indexes_total_example :
    (indexes' : Indexes) × (remove_from_indexes runtime with_ann_indexes ann_key ann ≡ ok indexes')
    × AllWritable indexes'
remove_from_indexes_total_example =
    remove_from_indexes_total runtime ann_key ann (OverlayMap.get with_ann.records) with_ann_indexes
      with_ann-Holds.valid.indexed with_ann-Holds.is_open.indexes ann_stored

remove_from_indexes-AllAgree_example :
    AllAgree runtime (with_record ann_key none (OverlayMap.get with_ann.records)) people.indexes
unfolding remove_from_indexes remove_entry shrink_bucket index_value encode_read read_path
    read_token own encode_index_value list_beq sized decimal decimal_from discard contains
    OverlayMap.get OverlayMap.delete NativeMap.get NativeMap.delete
remove_from_indexes-AllAgree_example =
    remove_from_indexes-AllAgree runtime ann_key ann (OverlayMap.get with_ann.records)
      with_ann_indexes people.indexes with_ann-Holds.valid.indexed ann_stored refl

add_to_indexes_total_example :
    (indexes' : Indexes) × (add_to_indexes runtime people_name people.indexes ann_key ann
      ≡ ok indexes')
    × AllWritable indexes'
unfolding index_value encode_read read_path read_token own encode_index_value list_beq sized decimal
    decimal_from OverlayMap.get NativeMap.get
add_to_indexes_total_example =
    add_to_indexes_total runtime people_name ann_key ann (OverlayMap.get people.records)
      people.indexes people-IsValid.indexed people-IsOpen.indexes ((tt, λ e k i u f. cc), tt)

abbrev stored_ann : StoredCollection
stored_ann = record { contents = with_ann; revision = 4 }

working_copy-IsValid_example :
    IsValid runtime (working_copy stored_ann).contents × IsOpen (working_copy stored_ann).contents
working_copy-IsValid_example = working_copy-IsValid runtime stored_ann with_ann-Holds.valid

publish-IsValid_example : IsValid runtime (publish 5 (working_copy stored_ann)).contents
publish-IsValid_example =
    publish-IsValid runtime 5 (working_copy stored_ann)
      (working_copy-IsValid runtime stored_ann with_ann-Holds.valid).0

touch_collection-Ends_example :
    Ends
      (λ c t'. (stored collections people_name ≡ ok c) × Noted people_name insertion c t')
      (λ e t'. t' ≡ insertion)
      (touch_collection collections 1 people_name insertion).0
      (touch_collection collections 1 people_name insertion).1
touch_collection-Ends_example = touch_collection-Ends collections 1 people_name insertion

create_stored_collection-IsValid_example : IsValid runtime seeded.contents × (seeded.revision ≡ 2)
create_stored_collection-IsValid_example =
    create_stored_collection-IsValid runtime people_name (ann_input ∷ []) schema 2 seeded
      ann_created
