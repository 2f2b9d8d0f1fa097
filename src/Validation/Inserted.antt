-- ===== src/Validation/Inserted.antt =====
-- The document that `_insert` files, and the caller's object that it was made of.
use mathlib.Core.Path.{subst}
use newtondb.Errors.{PrimaryKey, ok, >>=-eq-ok, ok-injective}
use newtondb.Input.{Input}
use newtondb.Json.{Document, Json, Primitive, primitive, object, own, Fields}
use newtondb.Json.Clone.{clone_and_freeze, resolve_json_limits}
use newtondb.Json.Clone.Faithful.{clone_and_freeze-faithful}
use newtondb.Json.Embed.{as_read, as_read-to_input, to_input, to_input-injective}
use newtondb.Key.{document_key, encode_key}
use newtondb.NativeMap.{present}
use newtondb.Prelude.{
  ◌≡◌, refl, sym, ◌∙◌, true, false, ◌||◌, Option, none, some, [], ◌∷◌, ◌==◌, nat_eq, list_eq,
  Bool-cases, ==_iff, inl, inr, if◌then◌else◌, arith, not,
}
use newtondb.Runtime.{Runtime}
use newtondb.Schema.{CollectionSchema}
use newtondb.Text.{Text}
use newtondb.Validation.{
  Prepared, append_field, validate_document, run_validate, generate_key, materialize_primary_key,
  prepare_insert,
}

own-append_field :
    (fs : Document) (k s name : Text)
    → own fs k ≡ none
    → own (append_field fs k s) name
      ≡ (if k == name then some (primitive (Primitive.string s)) else own fs name)
unfolding own append_field
own-append_field Fields.end k s name h = refl
own-append_field (Fields.field j v fs) k s name h = elim (Bool-cases (j == k)) [
  | inl e ↦ absurd (ground (arith, h, e))
  | inr d ↦ ground (
    arith,
    own-append_field fs k s name (ground (arith, h, d)),
    ==_iff j name,
    ==_iff k name,
    ==_iff j k,
    d,
  )
]

module _ (rt : Runtime) (collection : Text) (schema : CollectionSchema) where
  -- A stored document that is validated again is as it was.
  pub validated-eq :
      (d d' : Document)
      → validate_document rt collection schema (to_input (object d)) ≡ ok d'
      → d' ≡ d
  unfolding validate_document
  validated-eq d d' h =
      let (limits, e1, h1) = >>=-eq-ok (resolve_json_limits schema.limits) _ h in
      let (cloned, e2, h2) = >>=-eq-ok (clone_and_freeze rt limits (to_input (object d))) _ h1 in
      let (u, e3, h3) = >>=-eq-ok (run_validate collection schema cloned) _ h2 in
      let (k, e4, h4) = >>=-eq-ok (document_key rt cloned schema.primary_key) _ h3 in
      let same =
        (clone_and_freeze-faithful rt limits (to_input (object d)) cloned e2).0
        ∙ as_read-to_input (object d) in
      sym (ok-injective h4)
      ∙ object-injective cloned d (to_input-injective (object cloned) (object d) same)
    where
      object-injective : (f g : Document) → object f ≡ object g → f ≡ g
      object-injective f g p = cc

  -- The document is the caller's object as it is read; or that object had no primary key, and
  -- has got this one, all other properties as they were.
  abbrev pub IsMade : Input → Text → Document → Option Text → Type 0
  IsMade input fresh d none = to_input (object d) ≡ as_read input
  IsMade input fresh d (some key) =
      (key ≡ fresh)
      × (schema.generate_primary_key ≡ true)
      × ((given : Document) × (to_input (object given) ≡ as_read input)
          × (own given schema.primary_key ≡ none)
          × ((name : Text)
              → own d name ≡ (
                  if schema.primary_key == name
                  then some (primitive (Primitive.string key))
                  else own given name)))

  materialize_primary_key-IsMade :
      (input : Input) (fresh : Text) (m : Document × Option Text)
      → materialize_primary_key rt collection schema input fresh ≡ ok m
      → IsMade input fresh m.0 m.1
  unfolding materialize_primary_key generate_key
  materialize_primary_key-IsMade input fresh m h =
      let (limits, e1, h1) = >>=-eq-ok (resolve_json_limits schema.limits) _ h in
      let (cloned, e2, h2) = >>=-eq-ok (clone_and_freeze rt limits input) _ h1 in
      let read = clone_and_freeze-faithful rt limits input cloned e2 in
      elim (Bool-cases
        (present (own cloned schema.primary_key) || not schema.generate_primary_key)) [
          | inl e ↦ subst (λ x. IsMade input fresh x.0 x.1) (ok-injective (rw e at h2)) read.0
          | inr e ↦
              generated cloned read.0 (absent (own cloned schema.primary_key) (ground (arith, e)))
                (ground (arith, e)) fresh refl (rw e at h2)
        ]
    where
      absent : (o : Option Json) → present o ≡ false → o ≡ none
      absent none g = refl
      absent (some v) g = absurd (ground (arith, g))

      generated :
          (cloned : Document)
          → to_input (object cloned) ≡ as_read input
          → own cloned schema.primary_key ≡ none
          → schema.generate_primary_key ≡ true
          → (s : Text) → s ≡ fresh
          → generate_key rt collection schema cloned s ≡ ok m
          → IsMade input fresh m.0 m.1
      generated cloned read gone allowed [] same g = absurd (ground (arith, g))
      generated cloned read gone allowed (c ∷ s) same g =
          let (encoded, e1, g1) = >>=-eq-ok (encode_key rt (PrimaryKey.string (c ∷ s))) _ g in
          subst (λ x. IsMade input fresh x.0 x.1) (ok-injective g1)
            (
              same,
              allowed,
              (
                cloned,
                read,
                gone,
                λ name. own-append_field cloned schema.primary_key (c ∷ s) name gone,
              ),
            )

  -- What an insertion of the caller's object files.
  pub record IsPrepared (input : Input) (fresh : Text) (p : Prepared) : Type 0 where
    pub made : IsMade input fresh p.document p.generated_key
    pub key : document_key rt p.document schema.primary_key ≡ ok p.primary_key
    pub filed : encode_key rt p.primary_key ≡ ok p.encoded

  -- The document that an insertion files is the caller's object as it is read; or that
  -- object has no primary key, the schema generates one, and the document differs from it in
  -- that property alone, which is the generated key; it has the primary key that it is filed
  -- under, and the filing key is that key's encoding.
  pub prepare_insert-IsPrepared :
      (input : Input) (fresh : Text) (p : Prepared)
      → prepare_insert rt collection schema input fresh ≡ ok p
      → IsPrepared input fresh p
  unfolding prepare_insert
  prepare_insert-IsPrepared input fresh p h =
      let (m, e1, h1) = >>=-eq-ok (materialize_primary_key rt collection schema input fresh) _ h in
      let (d, e2, h2) =
        >>=-eq-ok (validate_document rt collection schema (to_input (object m.0))) _ h1 in
      let (k, e3, h3) = >>=-eq-ok (document_key rt d schema.primary_key) _ h2 in
      let (s, e4, h4) = >>=-eq-ok (encode_key rt k) _ h3 in
      subst (IsPrepared input fresh) (ok-injective h4) (record {
        made =
            subst (λ x. IsMade input fresh x m.1) (sym (validated-eq m.0 d e2))
              (materialize_primary_key-IsMade input fresh m e1);
        key = e3;
        filed = e4;
      })
