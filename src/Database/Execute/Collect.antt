-- ===== src/Database/Execute/Collect.antt =====
-- The loop of `_query` without an order, against filtering and slicing.
use newtondb.Database.Execute.{QueryOptions, collect, select, slice, is_full, max_query_results}
use newtondb.Errors.{Result, ok}
use newtondb.Json.{Document}
use newtondb.OverlayMap
use newtondb.OverlayMap.{MapLike}
use newtondb.Prelude.{
  ℕ, zero, suc, ◌+◌, ◌-◌, ◌≤◌, ◌<◌, ◌≡◌, refl, sym, ap, Bool, true, false, Option, none, some, List,
  [], ◌∷◌, ◌++◌, ◌∙◌, length, length-append, take, drop, ltb, leb, Bool-cases, Option-cases,
  if◌then◌else◌, arith, inl, inr, nat_eq, list_eq,
}
use newtondb.Text.{Text}

append_nil : (l : List Document) → l ++ [] ≡ l
append_nil [] = refl
append_nil (x ∷ l) = ap (◌∷◌ x) (append_nil l)

append_one : (l m : List Document) (d : Document) → (l ++ d ∷ []) ++ m ≡ l ++ d ∷ m
append_one [] m d = refl
append_one (x ∷ l) m d = ap (◌∷◌ x) (append_one l m d)

-- What is still to come when `have` documents are collected and `skip` matches are to be skipped.
abbrev window : Option ℕ → ℕ → ℕ → List Document → List Document
window none skip have l = drop skip l
window (some n) skip have l = take (n - have) (drop skip l)

drop_nil : (n : ℕ) → drop {A = Document} n [] ≡ []
drop_nil zero = refl
drop_nil (suc n) = refl

take_nil : (n : ℕ) → take {A = Document} n [] ≡ []
take_nil zero = refl
take_nil (suc n) = refl

window_nil : (limit : Option ℕ) (skip have : ℕ) → window limit skip have [] ≡ []
window_nil none skip have = drop_nil skip
window_nil (some n) skip have = rw (drop_nil skip) (take_nil (n - have))

skip_step :
    (offset matched : ℕ) → matched < offset → offset - matched ≡ suc (offset - (matched + 1))
skip_step offset matched h = omega arith

window_skip :
    (limit : Option ℕ) (offset matched have : ℕ) (d : Document) (l : List Document)
    → matched < offset
    → window limit (offset - matched) have (d ∷ l) ≡ window limit (offset - (matched + 1)) have l
window_skip none offset matched have d l h = rw (skip_step offset matched h) refl
window_skip (some n) offset matched have d l h = rw (skip_step offset matched h) refl

no_skip : (offset matched : ℕ) → offset ≤ matched → offset - matched ≡ 0
no_skip offset matched h = omega arith

no_skip_after : (offset matched : ℕ) → offset ≤ matched → offset - (matched + 1) ≡ 0
no_skip_after offset matched h = omega arith

take_step : (n have : ℕ) → leb n have ≡ false → n - have ≡ suc (n - (have + 1))
take_step n have h = ground arith

-- The document is taken, and the rest follows it.
window_take :
    (limit : Option ℕ) (offset matched have : ℕ) (d : Document) (l : List Document)
    → offset ≤ matched
    → is_full limit have ≡ false
    → window limit (offset - matched) have (d ∷ l)
      ≡ d ∷ window limit (offset - (matched + 1)) (have + 1) l
window_take none offset matched have d l h f =
    rw (no_skip offset matched h, no_skip_after offset matched h) refl
window_take (some n) offset matched have d l h f =
    rw (no_skip offset matched h, no_skip_after offset matched h, take_step n have f) refl

none_left : (n have : ℕ) → leb n have ≡ true → n - have ≡ 0
none_left n have h = ground arith

window_full :
    (limit : Option ℕ) (skip have : ℕ) (l : List Document)
    → is_full limit have ≡ true
    → window limit skip have l ≡ []
window_full none skip have l f = cc
window_full (some n) skip have l f = rw (none_left n have f) refl

in_results :
    (documents rest : List Document)
    → length documents + suc (length rest) ≤ max_query_results
    → leb max_query_results (length documents) ≡ false
in_results documents rest b = ground arith

length_one :
    (documents : List Document) (d : Document) → length (documents ++ d ∷ []) ≡ length documents + 1
length_one documents d = length-append documents (d ∷ [])

-- The document is the last one, or the others follow it.
taken_window :
    (limit : Option ℕ) (offset matched : ℕ) (documents : List Document) (d : Document)
    (l : List Document) (more : Result (List Document))
    → is_full limit (length documents) ≡ false
    → offset ≤ matched
    → (is_full limit (length (documents ++ d ∷ [])) ≡ false
        → more
          ≡ ok (
              (documents ++ d ∷ [])
              ++ window limit (offset - (matched + 1)) (length (documents ++ d ∷ [])) l))
    → (if is_full limit (length (documents ++ d ∷ [])) then ok (documents ++ d ∷ []) else more)
      ≡ ok (documents ++ window limit (offset - matched) (length documents) (d ∷ l))
taken_window limit offset matched documents d l more f h next =
    rw (window_take limit offset matched (length documents) d l h f)
      (elim (Bool-cases (is_full limit (length (documents ++ d ∷ [])))) [
        | inl full ↦
            rw
              (
                full,
                window_full limit (offset - (matched + 1)) (length documents + 1) l
                    (rw (length_one documents d) at full),
              )
              refl
        | inr open_end ↦ rw open_end (
            next open_end
            ∙ ap ok (
                rw (length_one documents d) (
                  append_one documents
                    (window limit (offset - (matched + 1)) (length documents + 1) l) d)))
      ])

minus_zero : (n : ℕ) → n - 0 ≡ n
minus_zero n = omega arith

module _ (records : MapLike Text Document) (matches : Document → Bool)
    (options : QueryOptions) where
  collect-window :
      (keys : List Text) (matched : ℕ) (documents : List Document)
      → is_full options.limit (length documents) ≡ false
      → length documents + length (select records matches keys) ≤ max_query_results
      → collect records matches options keys matched documents
        ≡ ok (
            documents
            ++ window options.limit
                (options.offset - matched)
                (length documents)
                (select records matches keys))
  unfolding collect select
  collect-window [] matched documents f b = ap ok (
      sym (
        ap (◌++◌ documents) (window_nil options.limit (options.offset - matched) (length documents))
        ∙ append_nil documents))
  collect-window (key ∷ keys) matched documents f b =
      elim (Option-cases (OverlayMap.get records key)) [
        | inl missing ↦
            rw (missing, collect, select)
              (collect-window keys matched documents f (rw (missing, select) at b))
        | inr (d, found) ↦ elim (Bool-cases (matches d)) [
          | inr fails ↦
              rw (found, fails, collect, select)
                (collect-window keys matched documents f (rw (found, fails, select) at b))
          | inl passes ↦
              let bound : length documents + suc (length (select records matches keys))
                  ≤ max_query_results =
                rw (found, passes, select) at b in
              elim (Bool-cases (ltb matched options.offset)) [
                | inl below ↦
                    rw (found, passes, below, collect, select)
                      (collect-window keys (matched + 1) documents f (omega arith)
                        ∙ ap (λ w. ok (documents ++ w))
                            (sym (
                              window_skip options.limit options.offset matched (length documents) d
                                (select records matches keys) (ground arith))))
                | inr above ↦
                    rw
                      (
                        found,
                        passes,
                        above,
                        in_results documents (select records matches keys) bound,
                        collect,
                        select,
                      )
                      (taken_window options.limit options.offset matched documents d
                        (select records matches keys)
                        (collect records matches options keys (matched + 1) (documents ++ d ∷ [])) f
                        (ground arith)
                        λ g.
                          collect-window keys (matched + 1) (documents ++ d ∷ []) g
                            (rw (length_one documents d) (omega arith)))
              ]
        ]
      ]

  window_all :
      (l : List Document)
      → window options.limit (options.offset - 0) 0 l ≡ slice records matches options l
  window_all l = elim (Option-cases options.limit) [
    | inl unlimited ↦ rw (unlimited, minus_zero options.offset) refl
    | inr (n, limited) ↦ rw (limited, minus_zero options.offset, minus_zero n) refl
  ]

  -- The loop of a query without an order, for a limit that is not 0, gives the slice by
  -- offset and limit of the documents that pass the test, if they are at most the result
  -- limit.
  pub collect-slice :
      (keys : List Text)
      → is_full options.limit 0 ≡ false
      → length (select records matches keys) ≤ max_query_results
      → collect records matches options keys 0 []
        ≡ ok (slice records matches options (select records matches keys))
  collect-slice keys f b =
      collect-window keys 0 [] f (omega arith) ∙ ap ok (window_all (select records matches keys))
