-- ===== src/Samples.antt =====
-- Concrete data for the tests: a runtime, a schema, and a collection with a unique index.
pub mod Prepared
use newtondb.Collection.{Contents, put_document, reindex, attach, write_record, append_key}
use newtondb.Collection.Valid.{IsValid, IsKeyed, IsOpen}
use newtondb.Index.{
  SecondaryIndexState, Indexes, add_to_indexes, plan_additions, plan_addition, check_unique,
  index_value, encode_read, apply_additions, apply_addition,
}
use newtondb.Errors.{ok, string}
use newtondb.Events.{ChangeOperation}
use newtondb.Database.{Database, DatabaseState}
use newtondb.Transaction.{Transaction, TransactionLimits, Status, Collections}
use newtondb.Transaction.Sound.{AllStored, IsSound}
use newtondb.Index.Agrees.{with_record}
use newtondb.Collection.Write.{Holds, put_document-Ends}
use newtondb.Path.{read_path, read_token}
use newtondb.Key.{document_key, key_of_value, encode_key, encode_index_value, sized}
use newtondb.Runtime.{decimal, decimal_from}
use newtondb.Index.Agrees.{Agrees}
use newtondb.Index.Buckets.{files}
use newtondb.NativeMap
use newtondb.Json.Embed.{to_input}
use newtondb.Input.{Input}
use newtondb.Json.{object, Primitive, Document, primitive, field, end, own}
use newtondb.Number.{
  Number, finite, negative_zero, nan, infinity, negative_infinity, is_finite, same,
}
use newtondb.OverlayMap
use newtondb.OverlayMap.{MapLike, native}
use newtondb.Path.{name}
use newtondb.Prelude.{
  ◌≡◌, ◌↔◌, true, false, none, some, [], ◌∷◌, refl, contains, insert, list_beq, nat_eq, list_eq,
  arith,
}
use newtondb.Prelude.Int.{pos, negsuc}
use newtondb.Runtime.{Runtime}
use newtondb.Schema.{CollectionSchema}
use newtondb.Json.{object}
use newtondb.Json.Clone.{
  clone_and_freeze, default_json_limits, visit, visit_properties, visit_string, enter, leave,
  finish, json_size, fields_size, primitive_size, resolve_json_limits, resolve_limit,
}
use newtondb.Json.Embed.{to_input}
use newtondb.Key.{same_key}
use newtondb.Text.{Text, quoted_bytes, byte_length}
use newtondb.Validation.{
  validate_document, run_validate, prepare_insert, materialize_primary_key, prepare_update,
  merge_document, merge_properties, define, require_same_key,
}

abbrev number_text : Number → Text
number_text (finite (pos n)) = n ∷ []
number_text (finite (negsuc n)) = 45 ∷ n ∷ []
number_text negative_zero = 0 ∷ []
number_text nan = []
number_text infinity = 73 ∷ 73 ∷ 73 ∷ []
number_text negative_infinity = 45 ∷ 73 ∷ 73 ∷ []

pub number_text_iff :
    (a b : Number)
    → is_finite a ≡ true
    → is_finite b ≡ true
    → (number_text a ≡ number_text b) ↔ (same a b ≡ true)
unfolding same is_finite
number_text_iff a b ha hb = ground arith

abbrev pub runtime : Runtime
runtime = record { number_text = number_text; number_text_iff = number_text_iff }

-- "id" and "mail"
abbrev pub id_field : Text
id_field = 105 ∷ 100 ∷ []

abbrev pub mail_field : Text
mail_field = 109 ∷ []

abbrev pub schema : CollectionSchema
schema = record {
  generate_primary_key = false;
  indexes = [];
  primary_key = id_field;
  validate = none;
  limits = record { depth = none; document_bytes = none; nodes = none; string_bytes = none };
}

abbrev pub person : Text → Text → Document
person id mail =
    field id_field (primitive (Primitive.string id))
      (field mail_field (primitive (Primitive.string mail)) end)

abbrev pub mail_index : SecondaryIndexState
mail_index = record {
  buckets = native [];
  copy_on_write = false;
  name = mail_field;
  path = name mail_field ∷ [];
  unique = true;
}

abbrev pub people : Contents
people = record {
  indexes = (mail_field, mail_index) ∷ [];
  next_position = 0;
  order = [];
  positions = native [];
  records = native [];
  schema = schema;
}

people-IsValid_index : Agrees runtime (OverlayMap.get people.records) mail_index
unfolding files OverlayMap.get NativeMap.get contains
people-IsValid_index = record {
  agrees = λ e k. refl;
  non_empty_buckets = λ e p. cc;
  sets = λ e. tt;
  distinct = λ e k j u f g. cc;
  coherent = tt;
  indexable = λ k. tt;
}

pub people-IsValid : IsValid runtime people
unfolding OverlayMap.get NativeMap.get contains
people-IsValid = record {
  indexed = (people-IsValid_index, tt);
  ranked = omega arith;
  ordered = λ k. refl;
  positioned = λ k. refl;
  keyed = λ k. tt;
  records_coherent = tt;
  positions_coherent = tt;
}

pub people-IsOpen : IsOpen people
people-IsOpen = record { indexes = (tt, tt); positions = tt; records = tt }

-- "a", "@" and the name of the collection
abbrev pub ann : Document
ann = person (97 ∷ []) (64 ∷ [])

-- "s:1:a"
abbrev pub ann_key : Text
ann_key = 115 ∷ 58 ∷ 49 ∷ 58 ∷ 97 ∷ []

-- "s:1:@"
abbrev pub ann_mail : Text
ann_mail = 115 ∷ 58 ∷ 49 ∷ 58 ∷ 64 ∷ []

abbrev pub people_name : Text
people_name = 112 ∷ []

abbrev pub with_ann_indexes : Indexes
with_ann_indexes =
    (mail_field, record mail_index { buckets = native ((ann_mail, ann_key ∷ []) ∷ []) }) ∷ []

abbrev pub with_ann : Contents
with_ann = record people {
  indexes = with_ann_indexes;
  next_position = 1;
  order = ann_key ∷ [];
  positions = native ((ann_key, 0) ∷ []);
  records = native ((ann_key, ann) ∷ []);
}

pub ann-IsKeyed : IsKeyed runtime id_field (some ann) ann_key
unfolding document_key key_of_value encode_key own list_beq sized decimal decimal_from
ann-IsKeyed = refl

pub add_ann : add_to_indexes runtime people_name people.indexes ann_key ann ≡ ok with_ann_indexes
unfolding add_to_indexes plan_additions plan_addition check_unique index_value encode_read read_path
    read_token own encode_index_value list_beq sized decimal decimal_from apply_additions
    apply_addition insert OverlayMap.get OverlayMap.set NativeMap.get NativeMap.set
add_ann = refl

pub put_ann : put_document runtime people_name ann_key none ann people ≡ (ok tt, with_ann)
unfolding put_document reindex attach write_record append_key OverlayMap.set NativeMap.set
put_ann = rw add_ann refl

pub ann_missing : OverlayMap.get people.records ann_key ≡ none
unfolding OverlayMap.get NativeMap.get
ann_missing = refl

pub ann_stored : OverlayMap.get with_ann.records ann_key ≡ some ann
unfolding OverlayMap.get NativeMap.get list_beq
ann_stored = refl

pub with_ann-Holds :
    Holds runtime
      (with_record ann_key (some ann) (OverlayMap.get people.records))
      (ann_key ∷ [])
      with_ann
with_ann-Holds = rw put_ann at (
    put_document-Ends runtime people_name ann_key ann people people-IsValid people-IsOpen none
      ann_missing ann-IsKeyed)

-- A transaction that has inserted the document, and the database that it began on.
abbrev pub collections : Collections
collections = (people_name, record { contents = people; revision = 0 }) ∷ []

abbrev pub collections-valid : AllStored runtime collections
collections-valid = (people-IsValid, tt)

abbrev pub limits : TransactionLimits
limits = record { max_age_ms = 30; max_operations = 5; max_read_collections = 5 }

abbrev pub insertion : Transaction
insertion = record {
  base_revisions = (people_name, 0) ∷ [];
  changes =
      record {
        after = some ann;
        before = none;
        collection = people_name;
        operation = ChangeOperation.insert;
        primary_key = string (97 ∷ []);
      }
      ∷ [];
  generated_keys = [];
  created_at = 0;
  operations = 1;
  status = Status.active;
  working = (people_name, record { base_revision = 0; contents = with_ann }) ∷ [];
  limits = limits;
}

abbrev pub insertion-IsSound : IsSound runtime insertion
insertion-IsSound = ((with_ann-Holds.valid, with_ann-Holds.is_open), tt)

abbrev pub database : Database
database = record {
  id = [];
  collections = collections;
  event_queue = [];
  event_queue_changes = 0;
  event_limits = record { max_queued_batches = 8; max_queued_changes = 8 };
  dispatch_scheduled = false;
  listener_id = 0;
  listeners = [];
  revision = 0;
  state = DatabaseState.opened;
  include_documents = true;
  verify_invariants = true;
  transaction_limits = limits;
}

-- { id: "a", m: "@" }
abbrev pub ann_input : Input
ann_input = to_input (object ann)
