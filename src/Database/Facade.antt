-- ===== src/Database/Facade.antt =====
-- The classes Collection and Query of src/database.ts: reads of a stored collection, and the query
-- that a caller builds step by step.
use newtondb.Database.{Database}
use newtondb.Database.Execute.{QueryOptions, QueryPlan, query}
use newtondb.Database.Order.{OrderField}
use newtondb.Errors.{PrimaryKey, Result, ok, err, not_found, invalid_argument, ◌>>=◌}
use newtondb.Input.{Input}
use newtondb.Json.{Document}
use newtondb.Key.{encode_key}
use newtondb.NativeMap.{present}
use newtondb.Number
use newtondb.Number.{Number}
use newtondb.OverlayMap
use newtondb.OverlayMap.{MapLike}
use newtondb.Path.{name}
use newtondb.Prelude.{
  ℕ, Bool, Option, none, some, List, [], ◌∷◌, ◌++◌, length, leb, map, nat_eq, list_eq,
  if◌then◌else◌,
}
use newtondb.Runtime.{Runtime}
use newtondb.Text.{Text}
use newtondb.Transaction.{stored}

module _ (db : Database) (collection_name : Text) where
  -- The getter `count`
  unfoldable pub count : Result ℕ
  unfolding stored OverlayMap.size
  count = do
    collection ← stored db.collections collection_name
    ok (OverlayMap.size collection.contents.records)

  -- get(primaryKey)
  unfoldable pub get : Runtime → PrimaryKey → Result (Option Document)
  unfolding stored
  get rt primary_key = do
    collection ← stored db.collections collection_name
    encoded ← encode_key rt primary_key
    ok (OverlayMap.get collection.contents.records encoded)

  abbrev require_document : PrimaryKey → Option Document → Result Document
  require_document primary_key none = err (not_found collection_name primary_key)
  require_document primary_key (some document) = ok document

  -- getOrThrow(primaryKey)
  unfoldable pub get_or_throw : Runtime → PrimaryKey → Result Document
  unfolding get
  get_or_throw rt primary_key = do
    document ← get rt primary_key
    require_document primary_key document

  -- has(primaryKey)
  unfoldable pub has : Runtime → PrimaryKey → Result Bool
  unfolding get
  has rt primary_key = do document ← get rt primary_key; ok (present document)

  -- toArray(); a key without a record is undefined
  unfoldable pub to_array : Result (List (Option Document))
  unfolding stored
  to_array = do
    collection ← stored db.collections collection_name
    ok (map (OverlayMap.get collection.contents.records) collection.contents.order)

abbrev passing : {A : Type 0} → (A → Bool) → List A → List A
passing test [] = []
passing test (x ∷ xs) = let rest = passing test xs in if test x then x ∷ rest else rest

-- filter(predicate), by the caller's function
unfoldable pub filter : Database → Text → (Option Document → Bool) → Result (List (Option Document))
unfolding to_array
filter db collection_name predicate = do
  documents ← to_array db collection_name
  ok (passing predicate documents)

abbrev pub max_order_fields : ℕ
max_order_fields = 8

-- The class Query
pub record Query : Type 0 where
  pub collection_name : Text
  pub condition : Input
  pub options : QueryOptions

-- assertNonNegativeInteger(value, label)
unfoldable pub assert_non_negative_integer : Number → Result ℕ
assert_non_negative_integer value = elim (Number.to_natural value) [
  | none ↦ err invalid_argument
  | some n ↦ ok n
]

-- query(condition)
unfoldable pub new_query : Text → Input → Query
new_query collection_name condition = record {
  collection_name = collection_name;
  condition = condition;
  options = record { limit = none; offset = 0; order = none };
}

-- limit(amount)
unfoldable pub limit : Number → Query → Result Query
unfolding assert_non_negative_integer
limit amount q = do
  n ← assert_non_negative_integer amount
  ok (record q { options = record q.options { limit = some n } })

-- offset(amount)
unfoldable pub offset : Number → Query → Result Query
unfolding assert_non_negative_integer
offset amount q = do
  n ← assert_non_negative_integer amount
  ok (record q { options = record q.options { offset = n } })

-- One field of an order; `validatePath` accepts a path of one text.
abbrev order_field : Text → Bool → OrderField
order_field field descending = record { descending = descending; path = name field ∷ [] }

-- orderBy(field, direction)
unfoldable pub order_by : Text → Bool → Query → Query
order_by field descending q = record q {
  options = record q.options { order = some (order_field field descending ∷ []) };
}

-- thenBy(field, direction)
unfoldable pub then_by : Text → Bool → Query → Result Query
then_by field descending q = elim q.options.order [
  | none ↦ err invalid_argument
  | some fields ↦
      if leb max_order_fields (length fields)
      then err invalid_argument
      else ok (record q {
        options = record q.options { order = some (fields ++ order_field field descending ∷ []) };
      })
]

-- explain()
unfoldable pub explain : Runtime → Database → Query → Result QueryPlan
unfolding query
explain rt db q = do
  execution ← query rt db q.collection_name q.condition (record q.options { limit = some 0 })
  ok execution.1

-- toArray() of a query
unfoldable pub run : Runtime → Database → Query → Result (List Document)
unfolding query
run rt db q = do execution ← query rt db q.collection_name q.condition q.options; ok execution.0

-- findMany(condition)
unfoldable pub find_many : Runtime → Database → Text → Input → Result (List Document)
unfolding run new_query
find_many rt db collection_name condition = run rt db (new_query collection_name condition)
