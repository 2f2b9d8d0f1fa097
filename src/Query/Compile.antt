-- ===== src/Query/Compile.antt =====
-- `compileWhere` after parsing: the test of a document, and `readPath` under it.
use newtondb.Json
use newtondb.Json.{Json, primitive, array, object, Primitive, Items, Document}
use newtondb.Number
use newtondb.Path.{read_path}
use newtondb.Prelude.{Bool, true, false, ◌&&◌, ◌||◌, not, Option, none, some, List, [], ◌∷◌}
use newtondb.Query.{
  Where, comparison, member, and, or, negation, Conditions, ComparisonOperator, contains, ends_with,
  eq, gt, gte, lt, lte, ne, starts_with,
}
use newtondb.Runtime.{Runtime}
use newtondb.Text
use newtondb.Text.{Text, codes}

-- `left === right` where the right side is a primitive; `none` is `undefined`
unfoldable pub same_primitive : Option Json → Primitive → Bool
unfolding Json.same
same_primitive (some (primitive p)) q = Json.same p q
same_primitive _ q = false

-- orderedCompare, by the two comparisons that the operator stands for
unfoldable pub ordered_compare :
    (Number.Number → Number.Number → Bool) → (Text → Text → Bool) → Option Json → Primitive → Bool
ordered_compare on_numbers on_texts (some (primitive (Primitive.number a))) (Primitive.number b) =
    on_numbers a b
ordered_compare on_numbers on_texts (some (primitive (Primitive.string s))) (Primitive.string t) =
    on_texts s t
ordered_compare on_numbers on_texts source value = false

-- `left <= right` on strings
abbrev text_at_most : Text → Text → Bool
text_at_most s t = not (Text.less t s)

-- `array.includes(value)`
unfoldable pub items_include : Items → Primitive → Bool
unfolding same_primitive
items_include Items.nil p = false
items_include (Items.cons v vs) p = same_primitive (some v) p || items_include vs p

-- `new Set(values).has(source)`; `undefined` is a value too
unfoldable pub set_has : List (Option Primitive) → Option Json → Bool
unfolding same_primitive
set_has [] source = false
set_has (some p ∷ ps) source = same_primitive source p || set_has ps source
set_has (none ∷ ps) none = true
set_has (none ∷ ps) (some v) = set_has ps (some v)

module _ (rt : Runtime) where
  open rt use {number_text}

  -- The string that `startsWith` and `endsWith` make of their argument.
  unfoldable pub coerced : Primitive → Text
  coerced Primitive.null = codes "null"
  coerced (Primitive.boolean true) = codes "true"
  coerced (Primitive.boolean false) = codes "false"
  coerced (Primitive.number n) = number_text n
  coerced (Primitive.string s) = s

  unfoldable pub contains_value : Option Json → Primitive → Bool
  unfolding items_include
  contains_value (some (primitive (Primitive.string s))) (Primitive.string t) = Text.includes s t
  contains_value (some (array items)) p = items_include items p
  contains_value _ p = false

  -- `test` is Text.starts_with or Text.ends_with
  unfoldable pub text_test : (Text → Text → Bool) → Option Json → Primitive → Bool
  unfolding coerced
  text_test test (some (primitive (Primitive.string s))) p = test s (coerced p)
  text_test test _ p = false

  -- The `switch` of `compileWhere`.
  unfoldable pub compare_value : ComparisonOperator → Option Json → Primitive → Bool
  unfolding same_primitive ordered_compare contains_value text_test
  compare_value eq source p = same_primitive source p
  compare_value ne source p = not (same_primitive source p)
  compare_value lt source p = ordered_compare Number.less Text.less source p
  compare_value lte source p = ordered_compare Number.at_most text_at_most source p
  compare_value gt source p =
      ordered_compare (λ a b. Number.less b a) (λ s t. Text.less t s) source p
  compare_value gte source p =
      ordered_compare (λ a b. Number.at_most b a) (λ s t. text_at_most t s) source p
  compare_value contains source p = contains_value source p
  compare_value starts_with source p = text_test Text.starts_with source p
  compare_value ends_with source p = text_test Text.ends_with source p

  unfoldable mutual
    unfolding compare_value set_has

    pub test : Where → Document → Bool
    test (comparison op path p) document =
        compare_value op (read_path (some (object document)) path) p
    test (member path ps) document = set_has ps (read_path (some (object document)) path)
    test (and conditions) document = every conditions document
    test (or conditions) document = some_of conditions document
    test (negation condition) document = not (test condition document)

    pub every : Conditions → Document → Bool
    every Conditions.nil document = true
    every (Conditions.cons c cs) document = test c document && every cs document

    pub some_of : Conditions → Document → Bool
    some_of Conditions.nil document = false
    some_of (Conditions.cons c cs) document = test c document || some_of cs document
