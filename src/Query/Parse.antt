-- ===== src/Query/Parse.antt =====
-- `parseWhere`: a caller's value as a condition, within the query limits. `room` is
-- `maxDepth + 1 - depth`, so the test of the depth is the pattern `zero`, and the recursion ends.
-- A hole in `conditions` is skipped by `map`, and a later `every` or `some` skips it again.
use newtondb.Errors.{
  Result, ok, err, query_validation, QueryValidationIssue, invalid_boolean, invalid_node,
  invalid_operator, invalid_path, invalid_value, node_limit, scalar_size_limit, depth_limit, ◌>>=◌,
}
use newtondb.Input.{Input, Elements, Properties, own_value, own_keys, count}
use newtondb.Json.{Primitive}
use newtondb.Number
use newtondb.Path.{PropertyPath, index, name, validate_path}
use newtondb.Prelude.{
  ℕ, zero, suc, ◌+◌, Bool, true, false, ◌&&◌, ◌||◌, not, Option, none, some, List, [], ◌∷◌, ◌==◌,
  nat_eq, list_eq, nat_beq, ltb, if◌then◌else◌, includes_all,
}
use newtondb.Query.{
  Where, comparison, member, and, or, negation, Conditions, ComparisonOperator, contains, ends_with,
  eq, gt, gte, lt, lte, ne, starts_with, QueryLimits,
}
use newtondb.Runtime.{Runtime}
use newtondb.Text.{Text, codes, quoted_bytes}

-- What `parseWhere` has used up of its limits so far.
pub record Budget : Type 0 where
  pub nodes : ℕ
  pub scalar_bytes : ℕ

abbrev pub Parser {ℓ} : Type ℓ → Type ℓ
Parser A = Budget → Result (A × Budget)

abbrev invalid {ℓ} : {A : Type ℓ} → QueryValidationIssue → Result A
invalid issue = err (query_validation issue)

-- isPrimitive(value)
unfoldable pub to_primitive : Input → Option Primitive
to_primitive Input.null = some Primitive.null
to_primitive (Input.boolean b) = some (Primitive.boolean b)
to_primitive (Input.string s) = some (Primitive.string s)
to_primitive (Input.number n) = if Number.is_finite n then some (Primitive.number n) else none
to_primitive _ = none

-- The set of comparison operators, less `in`.
unfoldable pub comparison_operator : Text → Option ComparisonOperator
comparison_operator op =
    if op == codes "contains"
    then some contains
    else if op == codes "endsWith"
    then some ends_with
    else if op == codes "eq"
    then some eq
    else if op == codes "gt"
    then some gt
    else if op == codes "gte"
    then some gte
    else if op == codes "lt"
    then some lt
    else if op == codes "lte"
    then some lte
    else if op == codes "ne"
    then some ne
    else if op == codes "startsWith"
    then some starts_with
    else none

allowed_keys : Text → List Text
allowed_keys op =
    if op == codes "and" || op == codes "or"
    then codes "conditions" ∷ codes "op" ∷ []
    else if op == codes "not"
    then codes "condition" ∷ codes "op" ∷ []
    else codes "op" ∷ codes "path" ∷ codes "value" ∷ []

-- `value.every(isPrimitive)` skips holes, and the copy of the array reads them as `undefined`.
unfoldable pub set_values : Elements → Option (List (Option Primitive))
unfolding to_primitive
set_values Elements.nil = some []
set_values Elements.others = some []
set_values (Elements.hole es) = elim (set_values es) [ none ↦ none | some ps ↦ some (none ∷ ps) ]
set_values (Elements.item x es) = elim (to_primitive x) [
  | none ↦ none
  | some p ↦ elim (set_values es) [ none ↦ none | some ps ↦ some (some p ∷ ps) ]
]
set_values (Elements.getter x es) = elim (to_primitive x) [
  | none ↦ none
  | some p ↦ elim (set_values es) [ none ↦ none | some ps ↦ some (some p ∷ ps) ]
]

module _ (rt : Runtime) where
  open rt use {number_text}

  -- The bytes of `JSON.stringify(value)`; those of `undefined` are none.
  unfoldable pub scalar_size : Option Primitive → ℕ
  scalar_size none = 0
  scalar_size (some Primitive.null) = 4
  scalar_size (some (Primitive.boolean true)) = 4
  scalar_size (some (Primitive.boolean false)) = 5
  scalar_size (some (Primitive.number n)) = newtondb.Prelude.length (number_text n)
  scalar_size (some (Primitive.string s)) = quoted_bytes s

  module _ (limits : QueryLimits) where
    open limits use {
      max_depth, max_nodes, max_path_tokens, max_scalar_bytes, max_set_values,
      max_total_scalar_bytes,
    }

    unfoldable pub consume_scalar : Option Primitive → Budget → Result Budget
    consume_scalar value budget =
        let bytes = scalar_size value in
        let total = budget.scalar_bytes + bytes in
        if ltb max_scalar_bytes bytes
        then invalid scalar_size_limit
        else if ltb max_total_scalar_bytes total
        then invalid scalar_size_limit
        else ok (record budget { scalar_bytes = total })

    unfoldable pub consume_scalars : List (Option Primitive) → Budget → Result Budget
    unfolding consume_scalar
    consume_scalars [] budget = ok budget
    consume_scalars (v ∷ vs) budget = do
      budget' ← consume_scalar v budget
      consume_scalars vs budget'

    -- The names of the path are charged, its indices are not.
    unfoldable pub consume_names : PropertyPath → Budget → Result Budget
    unfolding consume_scalar
    consume_names [] budget = ok budget
    consume_names (index n ∷ path) budget = consume_names path budget
    consume_names (name s ∷ path) budget = do
      budget' ← consume_scalar (some (Primitive.string s)) budget
      consume_names path budget'

    required_path : Properties → Result PropertyPath
    required_path properties = elim (own_value properties (codes "path")) [
      | none ↦ invalid invalid_path
      | some path ↦ elim (validate_path path max_path_tokens) [
        | ok p ↦ ok p
        | err _ ↦ invalid invalid_path
      ]
    ]

    -- The list of `in`.
    set_value : Option Input → Result (List (Option Primitive))
    unfolding set_values
    set_value (some (Input.array es)) =
        if ltb max_set_values (count es)
        then invalid invalid_value
        else elim (set_values es) [ none ↦ invalid invalid_value | some ps ↦ ok ps ]
    set_value _ = invalid invalid_value

    scalar_value : Option Input → Result Primitive
    unfolding to_primitive
    scalar_value none = invalid invalid_value
    scalar_value (some x) = elim (to_primitive x) [ none ↦ invalid invalid_value | some p ↦ ok p ]

    -- `startsWith` and `endsWith` want a string.
    text_operand : ComparisonOperator → Primitive → Result Primitive
    text_operand op (Primitive.string s) = ok (Primitive.string s)
    text_operand starts_with value = invalid invalid_value
    text_operand ends_with value = invalid invalid_value
    text_operand op value = ok value

    unfoldable pub parse_comparison : Text → Properties → Parser Where
    unfolding comparison_operator required_path consume_names consume_scalars consume_scalar
        set_value scalar_value text_operand
    parse_comparison op properties budget =
        if op == codes "in"
        then (do
          path ← required_path properties
          budget' ← consume_names path budget
          values ← set_value (own_value properties (codes "value"))
          budget'' ← consume_scalars values budget'
          ok (member path values, budget''))
        else elim (comparison_operator op) [
          | none ↦ invalid invalid_operator
          | some operator ↦ do
            path ← required_path properties
            budget' ← consume_names path budget
            value ← scalar_value (own_value properties (codes "value"))
            budget'' ← consume_scalar (some value) budget'
            operand ← text_operand operator value
            ok (comparison operator path operand, budget'')
        ]

    -- `conditions.map(visit)`
    visit_all : (Input → Parser Where) → Elements → Parser Conditions
    visit_all visit Elements.nil budget = ok (Conditions.nil, budget)
    visit_all visit Elements.others budget = ok (Conditions.nil, budget)
    visit_all visit (Elements.hole es) budget = visit_all visit es budget
    visit_all visit (Elements.item x es) budget = do
      (c, budget') ← visit x budget
      (cs, budget'') ← visit_all visit es budget'
      ok (Conditions.cons c cs, budget'')
    visit_all visit (Elements.getter x es) budget = do
      (c, budget') ← visit x budget
      (cs, budget'') ← visit_all visit es budget'
      ok (Conditions.cons c cs, budget'')

    -- The list of `and` and `or`.
    condition_list : Option Input → Result Elements
    condition_list (some (Input.array es)) =
        if nat_beq (count es) 0 then invalid invalid_boolean else ok es
    condition_list _ = invalid invalid_boolean

    -- A node with the operator `op`; `visit` reads the nodes below it.
    unfoldable pub visit_node : (Input → Parser Where) → Text → Properties → Parser Where
    unfolding parse_comparison visit_all condition_list allowed_keys
    visit_node visit op properties budget =
        if not (includes_all (allowed_keys op) (own_keys properties))
        then invalid invalid_node
        else if op == codes "and"
        then (do
          es ← condition_list (own_value properties (codes "conditions"))
          (cs, budget') ← visit_all visit es budget
          ok (and cs, budget'))
        else if op == codes "or"
        then (do
          es ← condition_list (own_value properties (codes "conditions"))
          (cs, budget') ← visit_all visit es budget
          ok (or cs, budget'))
        else if op == codes "not"
        then elim (own_value properties (codes "condition")) [
          | none ↦ do (c, budget') ← visit Input.undefined budget; ok (negation c, budget')
          | some x ↦ do (c, budget') ← visit x budget; ok (negation c, budget')
        ]
        else parse_comparison op properties budget

    unfoldable pub visit_object : (Input → Parser Where) → Input → Parser Where
    unfolding visit_node
    visit_object visit (Input.object plain symbols properties) budget =
        elim (own_value properties (codes "op")) [
          | some (Input.string op) ↦ visit_node visit op properties budget
          | _ ↦ invalid invalid_operator
        ]
    visit_object visit candidate budget = invalid invalid_node

    unfoldable pub visit : ℕ → Input → Parser Where
    unfolding visit_object
    visit zero candidate budget =
        if ltb max_nodes (budget.nodes + 1) then invalid node_limit else invalid depth_limit
    visit (suc room) candidate budget =
        let spent = record budget { nodes = budget.nodes + 1 } in
        if ltb max_nodes (budget.nodes + 1)
        then invalid node_limit
        else visit_object (visit room) candidate spent

    -- parseWhere(input, limits), with limits that are positive
    unfoldable pub parse_where : Input → Result Where
    unfolding visit
    parse_where input = do
      (ast, budget) ← visit (max_depth + 1) input (record { nodes = 0; scalar_bytes = 0 })
      ok ast
