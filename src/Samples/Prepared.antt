-- ===== src/Samples/Prepared.antt =====
-- The preparation of the sample document for an insertion and an update.
use newtondb.Collection.{StoredCollection}
use newtondb.Collection.Create.{create_stored_collection, add_seeds, add_seed}
use newtondb.Index.{create_indexes, add_to_indexes, plan_additions, apply_additions}
use newtondb.NativeMap
use newtondb.OverlayMap
use newtondb.OverlayMap.{native}
use newtondb.Samples.{people}
use newtondb.Errors.{ok, string}
use newtondb.Key.{document_key, key_of_value, encode_key, sized}
use newtondb.Runtime.{decimal, decimal_from}
use newtondb.Json.{own}
use newtondb.Prelude.{◌≡◌, none, [], ◌∷◌, refl, contains, list_beq, nat_eq, list_eq}
use newtondb.Json.{object}
use newtondb.Json.Clone.{
  clone_and_freeze, default_json_limits, visit, visit_properties, visit_string, enter, leave,
  finish, json_size, fields_size, primitive_size, resolve_json_limits, resolve_limit,
}
use newtondb.Json.Embed.{to_input}
use newtondb.Key.{same_key}
use newtondb.Text.{quoted_bytes, byte_length}
use newtondb.Validation.{
  validate_document, run_validate, prepare_insert, materialize_primary_key, prepare_update,
  merge_document, merge_properties, define, require_same_key,
}
use newtondb.Samples.{runtime, people_name, schema, ann, ann_key}

pub ann_accepted : clone_and_freeze runtime default_json_limits (to_input (object ann)) ≡ ok ann
unfolding clone_and_freeze visit visit_properties visit_string enter leave finish json_size
    fields_size primitive_size quoted_bytes byte_length to_input contains
ann_accepted = refl

pub ann_valid : validate_document runtime people_name schema (to_input (object ann)) ≡ ok ann
unfolding validate_document resolve_json_limits resolve_limit run_validate document_key key_of_value
    encode_key own list_beq
ann_valid = rw ann_accepted refl

pub ann_prepared :
    prepare_insert runtime people_name schema (to_input (object ann)) []
    ≡ ok (record {
      document = ann;
      generated_key = none;
      primary_key = string (97 ∷ []);
      encoded = ann_key;
    })
unfolding prepare_insert materialize_primary_key resolve_json_limits resolve_limit document_key
    key_of_value encode_key own list_beq sized decimal decimal_from
ann_prepared = rw (ann_accepted, ann_valid) refl

pub ann_updated :
    prepare_update runtime people_name schema ann (to_input (object ann)) (string (97 ∷ []))
    ≡ ok ann
unfolding prepare_update merge_document merge_properties define require_same_key same_key
    document_key key_of_value encode_key own list_beq to_input
ann_updated = rw ann_valid refl

abbrev pub seeded : StoredCollection
seeded = record {
  contents = record people {
    indexes = [];
    next_position = 1;
    order = ann_key ∷ [];
    positions = native ((ann_key, 0) ∷ []);
    records = native ((ann_key, ann) ∷ []);
  };
  revision = 2;
}

pub ann_created :
    create_stored_collection runtime people_name (to_input (object ann) ∷ []) schema 2 ≡ ok seeded
unfolding create_stored_collection create_indexes add_seeds add_seed document_key key_of_value
    encode_key own list_beq sized decimal decimal_from OverlayMap.has OverlayMap.set NativeMap.has
    NativeMap.set add_to_indexes plan_additions apply_additions
ann_created = rw ann_valid refl
