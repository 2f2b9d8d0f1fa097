-- ===== src/Json/Clone/Faithful.antt =====
-- `cloneAndFreezeJsonObject`: its result and the value that it was given.
use mathlib.Core.Path.{ap₂}
use newtondb.Errors.{ok, ok-injective, >>=-eq-ok}
use newtondb.Input.{Input, Elements, Properties}
use newtondb.Json.{Json, array, object, Items, Fields}
use newtondb.Json.Embed.{
  to_input, to_elements, to_properties, as_read, elements_as_read, properties_as_read,
}
use newtondb.Json.Clone.{
  JsonLimits, Tally, enter, leave, visit_number, visit_string, visit, visit_elements,
  visit_properties, finish, json_size, clone_and_freeze,
}
use newtondb.Prelude.{ℕ, suc, ◌≡◌, ◌≤◌, true, false, arith, ap, Bool-cases, ltb, ◌+◌, inl, inr}
use newtondb.Text.{byte_length}
use newtondb.Runtime.{Runtime}

module _ (rt : Runtime) (limits : JsonLimits) where
  leave-eq : (w v : Json) (t t' : Tally) → leave rt limits w t ≡ ok (v, t') → w ≡ v
  unfolding leave
  leave-eq w v t t' h = ground arith

  mutual
    unfolding visit to_input as_read enter visit_string visit_number

    visit-to_input :
        (x : Input) (d : ℕ) (t : Tally) (v : Json) (t' : Tally)
        → visit rt limits x d t ≡ ok (v, t')
        → to_input v ≡ as_read x
    visit-to_input (Input.array es) d t v t' h =
        let (t1, e1, h1) = >>=-eq-ok (enter rt limits d t) _ h in
        let (r, e2, h2) = >>=-eq-ok (visit_elements rt limits es (suc d) t1) _ h1 in
        rw (← leave-eq (array r.0) v r.1 t' h2)
          (ap Input.array (visit_elements-to_elements es (suc d) t1 r.0 r.1 e2))
    visit-to_input (Input.object true false ps) d t v t' h =
        let (t1, e1, h1) = >>=-eq-ok (enter rt limits d t) _ h in
        let (r, e2, h2) = >>=-eq-ok (visit_properties rt limits ps (suc d) t1) _ h1 in
        rw (← leave-eq (object r.0) v r.1 t' h2)
          (ap (Input.object true false) (visit_properties-to_properties ps (suc d) t1 r.0 r.1 e2))
    visit-to_input x d t v t' h = ground arith

    visit_elements-to_elements :
        (x : Elements) (d : ℕ) (t : Tally) (v : Items) (t' : Tally)
        → visit_elements rt limits x d t ≡ ok (v, t')
        → to_elements v ≡ elements_as_read x
    visit_elements-to_elements Elements.nil d t v t' h = ground arith
    visit_elements-to_elements Elements.others d t v t' h = ground arith
    visit_elements-to_elements (Elements.hole es) d t v t' h = cc
    visit_elements-to_elements (Elements.item x es) d t v t' h =
        let (r, e1, h1) = >>=-eq-ok (visit rt limits x d t) _ h in
        let (q, e2, h2) =
          >>=-eq-ok (visit_elements rt limits es d (record (r.1) { bytes = r.1.bytes + 1 })) _ h1 in
        rw (← ap (λ (p : Items × Tally). p.0) (ok-injective h2)) (
          ap₂ Elements.item (visit-to_input x d t r.0 r.1 e1)
            (visit_elements-to_elements es d _ q.0 q.1 e2))
    visit_elements-to_elements (Elements.getter x es) d t v t' h =
        let (r, e1, h1) = >>=-eq-ok (visit rt limits x d t) _ h in
        let (q, e2, h2) =
          >>=-eq-ok (visit_elements rt limits es d (record (r.1) { bytes = r.1.bytes + 1 })) _ h1 in
        rw (← ap (λ (p : Items × Tally). p.0) (ok-injective h2)) (
          ap₂ Elements.item (visit-to_input x d t r.0 r.1 e1)
            (visit_elements-to_elements es d _ q.0 q.1 e2))

    visit_properties-to_properties :
        (x : Properties) (d : ℕ) (t : Tally) (v : Fields) (t' : Tally)
        → visit_properties rt limits x d t ≡ ok (v, t')
        → to_properties v ≡ properties_as_read x
    visit_properties-to_properties Properties.end d t v t' h = ground arith
    visit_properties-to_properties (Properties.accessor k ps) d t v t' h = cc
    visit_properties-to_properties (Properties.value k x ps) d t v t' h =
        elim (Bool-cases (ltb limits.max_string_bytes (byte_length k))) [
          | inl long ↦ cc (rw long at h)
          | inr fits ↦
              let (r, e1, h1) = >>=-eq-ok (visit rt limits x d t) _ (rw fits at h) in
              let (q, e2, h2) =
                >>=-eq-ok
                  (visit_properties rt limits ps d
                    (record (r.1) { bytes = r.1.bytes + (byte_length k + 3) }))
                  _ h1 in
              rw (← ap (λ (p : Fields × Tally). p.0) (ok-injective h2)) (
                ap₂ (Properties.value k) (visit-to_input x d t r.0 r.1 e1)
                  (visit_properties-to_properties ps d _ q.0 q.1 e2))
        ]

  finish-eq :
      (v : Json) (t : Tally) (f : Fields)
      → finish rt limits (v, t) ≡ ok f
      → (v ≡ object f) × (json_size rt (object f) ≤ limits.max_document_bytes)
  unfolding finish
  finish-eq (object fields) t f h =
      elim (Bool-cases (ltb limits.max_document_bytes (json_size rt (object fields)))) [
        | inl long ↦ cc (rw long at h)
        | inr fits ↦ let e = ok-injective (rw fits at h) in (ap object e, rw (← e) (ground arith))
      ]
  finish-eq v t f h = ground arith

  -- A document that validation accepts is the caller's object as it is read, property by
  -- property, where an array is read as its elements alone, by their getters if they have
  -- any, and without its other properties; its serialized size is within the byte limit.
  pub clone_and_freeze-faithful :
      (x : Input) (f : Fields)
      → clone_and_freeze rt limits x ≡ ok f
      → (to_input (object f) ≡ as_read x) × (json_size rt (object f) ≤ limits.max_document_bytes)
  unfolding clone_and_freeze
  clone_and_freeze-faithful (Input.object plain symbols ps) f h =
      let (r, e1, h1) =
        >>=-eq-ok
          (visit rt limits (Input.object plain symbols ps) 0 (record { nodes = 0; bytes = 2 })) _
          h in
      let (e2, size) = finish-eq r.0 r.1 f h1 in
      (rw (← e2) (visit-to_input (Input.object plain symbols ps) 0 _ r.0 r.1 e1), size)
  clone_and_freeze-faithful x f h = ground arith
