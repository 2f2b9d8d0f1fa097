-- ===== src/Examples/Data.antt =====
-- The theorems on keys, overlay maps, documents and their preparation at concrete inputs.
use newtondb.Samples.{ann_input}
use newtondb.Errors.{PrimaryKey, ok, string, number}
use newtondb.Json.{Primitive, Document, Items, Fields, primitive, array, object, own}
use newtondb.Json.Embed.{to_input, as_read}
use newtondb.Input.{Input, Elements, Properties}
use newtondb.NativeMap
use newtondb.Number
use newtondb.OverlayMap
use newtondb.OverlayMap.{MapLike, native, overlay, entries, seal}
use newtondb.OverlayMap.Laws.{IsCoherent, get-set, get-entries, get-seal}
use newtondb.Key.{sized, same_key, encode_key, encode_index_value}
use newtondb.Key.Injective.{encode_key_iff, encode_index_value_iff}
use newtondb.Number.{negative_zero, finite}
use newtondb.Runtime.{decimal, decimal_from}
use newtondb.Json
use newtondb.Prelude.{
  ℕ, ◌≡◌, ◌↔◌, refl, true, false, none, some, [], ◌∷◌, contains, discard, nat_eq, list_eq, arith,
}
use newtondb.Prelude.Int.{pos}
use newtondb.Samples.{runtime, people_name, ann, ann_key, id_field}
use newtondb.Json.Clone.{
  json_size, default_json_limits, clone_and_freeze, visit, visit_properties, visit_string, enter,
  leave, finish, fields_size, primitive_size,
}
use newtondb.Json.Clone.Faithful.{clone_and_freeze-faithful}
use newtondb.Key.{document_key}
use newtondb.Number.{less_total}
use newtondb.Prelude.{◌≤◌}
use newtondb.Samples.{schema}
use newtondb.Samples.Prepared.{ann_prepared, ann_updated}
use newtondb.Text.{Text, quoted_bytes, byte_length}
use newtondb.Validation.{prepare_update-key}
use newtondb.Validation.Inserted.{IsPrepared, prepare_insert-IsPrepared}

encode_key_iff_example :
    (ann_key ≡ 110 ∷ 58 ∷ 0 ∷ []) ↔ (same_key (string (97 ∷ [])) (number negative_zero) ≡ true)
unfolding encode_key sized decimal decimal_from Number.is_safe_integer Number.is_finite Number.units
    Number.one
encode_key_iff_example = encode_key_iff runtime (string (97 ∷ [])) (number negative_zero) refl refl

abbrev zero_text : Text
zero_text = 110 ∷ 58 ∷ 0 ∷ []

encode_index_value_iff_example :
    (zero_text ≡ zero_text)
    ↔ (Json.same (Primitive.number negative_zero) (Primitive.number (finite (pos 0))) ≡ true)
unfolding encode_index_value Number.normalized Number.is_finite
encode_index_value_iff_example =
    encode_index_value_iff runtime (Primitive.number negative_zero)
      (Primitive.number (finite (pos 0))) refl refl

-- An overlay on a map from 1 to 10, in which 1 is deleted and 2 is 20.
abbrev layered : MapLike ℕ ℕ
layered = overlay (native ((1, 10) ∷ [])) (1 ∷ []) ((2, 20) ∷ []) 1 false 1

layered-IsCoherent : IsCoherent layered
unfolding NativeMap.has contains
layered-IsCoherent = (λ k h. ground arith, tt)

abbrev rewritten : MapLike ℕ ℕ
rewritten = overlay (native ((1, 10) ∷ [])) [] ((2, 20) ∷ (1, 30) ∷ []) 1 false 2

get-set_example : OverlayMap.get rewritten 1 ≡ some 30
unfolding OverlayMap.set OverlayMap.has OverlayMap.get NativeMap.set NativeMap.has NativeMap.get
    contains discard
get-set_example = get-set layered 1 1 30 refl

get-entries_example : NativeMap.get (entries layered) 2 ≡ OverlayMap.get layered 2
get-entries_example = get-entries layered 2 layered-IsCoherent

get-seal_example : OverlayMap.get (seal layered) 2 ≡ OverlayMap.get layered 2
get-seal_example = get-seal layered 2 layered-IsCoherent

-- `{ a: [true] }`, whose array has a getter and another own property.
abbrev tagged_input : Input
tagged_input = Input.object true false (
    Properties.value (97 ∷ []) (Input.array (Elements.getter (Input.boolean true) Elements.others))
      Properties.end)

abbrev tagged : Document
tagged =
    Fields.field (97 ∷ []) (array (Items.cons (primitive (Primitive.boolean true)) Items.nil))
      Fields.end

tagged_accepted : clone_and_freeze runtime default_json_limits tagged_input ≡ ok tagged
unfolding clone_and_freeze visit visit_properties visit_string enter leave finish json_size
    fields_size primitive_size quoted_bytes byte_length contains
tagged_accepted = refl

clone_and_freeze-faithful_example :
    (to_input (object tagged) ≡ as_read tagged_input)
    × (json_size runtime (object tagged) ≤ default_json_limits.max_document_bytes)
clone_and_freeze-faithful_example =
    clone_and_freeze-faithful runtime default_json_limits tagged_input tagged tagged_accepted

prepare_insert-IsPrepared_example : IsPrepared runtime people_name schema ann_input [] (record {
  document = ann;
  generated_key = none;
  primary_key = string (97 ∷ []);
  encoded = ann_key;
})
prepare_insert-IsPrepared_example =
    prepare_insert-IsPrepared runtime people_name schema ann_input [] _ ann_prepared

prepare_update-key_example :
    (k : PrimaryKey) × (document_key runtime ann id_field ≡ ok k)
    × (same_key k (string (97 ∷ [])) ≡ true)
prepare_update-key_example =
    prepare_update-key runtime people_name schema ann ann_input (string (97 ∷ [])) ann ann_updated

less_total_example : Number.less negative_zero (finite (pos 1)) ≡ true
unfolding Number.less Number.same Number.is_finite Number.units
less_total_example = less_total (finite (pos 1)) negative_zero refl refl refl refl
