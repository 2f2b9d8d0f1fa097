-- ===== src/Key/Injective.antt =====
-- What the encodings of keys and of index values say of each other.
use mathlib.Core.Path.{subst₂}
use newtondb.Errors.{PrimaryKey, number, string, ok, ok-injective}
use newtondb.Json
use newtondb.Json.{Primitive}
use newtondb.Key.{same_key, sized, encode_key, encode_index_value}
use newtondb.Number
use newtondb.Prelude.{
  ◌≡◌, ◌↔◌, true, [], ◌∷◌, ◌++◌, length, arith, ap, ◌==◌, ==_iff, nat_eq, list_eq,
}
use newtondb.Runtime.{Runtime, decimal, decimal-IsDigits, IsDigits}
use newtondb.Text.{Text, codes}

-- Digits end at the first colon.
split_at_colon :
    (d e s t : Text) → IsDigits d → IsDigits e → d ++ (b':' ∷ s) ≡ e ++ (b':' ∷ t) → s ≡ t
split_at_colon [] [] s t hd he p = cc
split_at_colon [] (c ∷ e) s t hd he p = ground arith
split_at_colon (c ∷ d) [] s t hd he p = ground arith
split_at_colon (c ∷ d) (c' ∷ e) s t hd he p = split_at_colon d e s t hd.1 he.1 (cc)

pub sized-injective : (s t : Text) → sized s ≡ sized t → s ≡ t
unfolding sized
sized-injective s t p =
    split_at_colon (decimal (length s)) (decimal (length t)) s t (decimal-IsDigits (length s))
      (decimal-IsDigits (length t)) (cc)

module _ (rt : Runtime) where
  open rt use {number_text, number_text_iff}

  -- A number's encoding, by the test that the encoder makes.
  prefixed_iff :
      (a b : Number.Number)
      → Number.is_finite a ≡ true
      → Number.is_finite b ≡ true
      → (codes "n:" ++ number_text a ≡ codes "n:" ++ number_text b) ↔ (Number.same a b ≡ true)
  prefixed_iff a b ha hb = (
    λ p. (number_text_iff a b ha hb).0 (cc),
    λ p. ap (λ t. codes "n:" ++ t) ((number_text_iff a b ha hb).1 p),
  )

  sized_iff : (s t : Text) → (sized s ≡ sized t) ↔ ((s == t) ≡ true)
  sized_iff s t = (λ p. (==_iff s t).1 (sized-injective s t p), λ p. ap sized ((==_iff s t).0 p))

  encode_key-number :
      (n : Number.Number) {t : Text}
      → encode_key rt (number n) ≡ ok t
      → (Number.is_finite n ≡ true) × (codes "n:" ++ number_text n ≡ t)
  unfolding encode_key
  encode_key-number n h = ground (arith, Number.safe-finite n)

  encode_index_value-number :
      (n : Number.Number) {t : Text}
      → encode_index_value rt (Primitive.number n) ≡ ok t
      → (Number.is_finite n ≡ true) × (codes "n:" ++ number_text (Number.normalized n) ≡ t)
  unfolding encode_index_value
  encode_index_value-number n h = ground arith

  -- Two primary keys that can be encoded have the same encoding exactly when they are ===.
  pub encode_key_iff :
      (a b : PrimaryKey) {s t : Text}
      → encode_key rt a ≡ ok s
      → encode_key rt b ≡ ok t
      → (s ≡ t) ↔ (same_key a b ≡ true)
  unfolding encode_key same_key
  encode_key_iff (string []) b p q = cc
  encode_key_iff a (string []) p q = cc
  encode_key_iff (string (c ∷ x)) (string (d ∷ y)) p q =
      subst₂ (λ u v. (u ≡ v) ↔ (((c ∷ x) == (d ∷ y)) ≡ true)) (ok-injective p) (ok-injective q)
        (sized_iff (c ∷ x) (d ∷ y))
  encode_key_iff (string (c ∷ x)) (number n) p q =
      unfold sized in (λ e. ground (arith, encode_key-number n q), λ e. cc)
  encode_key_iff (number n) (string (d ∷ y)) p q =
      unfold sized in (λ e. ground (arith, encode_key-number n p), λ e. cc)
  encode_key_iff (number m) (number n) p q =
      let (fm, em) = encode_key-number m p in
      let (fn, en) = encode_key-number n q in
      subst₂ (λ u v. (u ≡ v) ↔ (Number.same m n ≡ true)) em en (prefixed_iff m n fm fn)

  -- Two primitives that can be indexed have the same encoding exactly when they are ===.
  pub encode_index_value_iff :
      (a b : Primitive) {s t : Text}
      → encode_index_value rt a ≡ ok s
      → encode_index_value rt b ≡ ok t
      → (s ≡ t) ↔ (Json.same a b ≡ true)
  unfolding encode_index_value Json.same sized
  encode_index_value_iff (Primitive.string x) (Primitive.string y) p q =
      subst₂ (λ u v. (u ≡ v) ↔ ((x == y) ≡ true)) (ok-injective p) (ok-injective q) (sized_iff x y)
  encode_index_value_iff (Primitive.number m) (Primitive.number n) p q =
      let (fm, em) = encode_index_value-number m p in
      let (fn, en) = encode_index_value-number n q in
      subst₂ (λ u v. (u ≡ v) ↔ (Number.same m n ≡ true)) em en
        (rw (← Number.same-normalized m n) (
          prefixed_iff (Number.normalized m) (Number.normalized n)
            (rw Number.is_finite-normalized fm) (rw Number.is_finite-normalized fn)))
  encode_index_value_iff (Primitive.number m) b p q =
      (λ e. ground (arith, encode_index_value-number m p), λ e. cc)
  encode_index_value_iff a (Primitive.number n) p q =
      (λ e. ground (arith, encode_index_value-number n q), λ e. ground arith)
  encode_index_value_iff a b p q = (λ e. ground arith, λ e. ground arith)
