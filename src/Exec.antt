-- ===== src/Exec.antt =====
-- Code that changes an object and may throw: what was written before a throw stays written, so the
-- object comes back beside the error too.
use newtondb.Errors.{Error, Result, ok, err}
use newtondb.Prelude.{◌≡◌, refl, ◌⊎◌, inl, inr}

abbrev pub Exec {ℓ} : Type ℓ → Type ℓ → Type ℓ
Exec S A = S → Result A × S

module _ {ℓ} {S A : Type ℓ} where
  abbrev pub pure : A → Exec S A
  pure a s = (ok a, s)

  abbrev pub raise : Error → Exec S A
  raise e s = (err e, s)

  abbrev pub lift : Result A → Exec S A
  lift r s = (r, s)

  abbrev pub gets : (S → A) → Exec S A
  gets f s = (ok (f s), s)

  abbrev rescue : (Error → Exec S A) → Result A → S → Result A × S
  rescue handler (ok a) s = (ok a, s)
  rescue handler (err e) s = handler e s

  -- try … catch (error) …
  abbrev pub try_catch : Exec S A → (Error → Exec S A) → Exec S A
  try_catch m handler s = rescue handler (m s).0 (m s).1

abbrev pub modify : {S : Type 0} → (S → S) → Exec S (Unit {0})
modify f s = (ok tt, f s)

-- A computation of the new state that may throw before anything is written.
abbrev written : {S : Type 0} → Result S → S → Result (Unit {0}) × S
written (ok s') s = (ok tt, s')
written (err e) s = (err e, s)

abbrev pub write : {S : Type 0} → (S → Result S) → Exec S (Unit {0})
write f s = written (f s) s

module _ {ℓ} {S A B : Type ℓ} where
  abbrev pub continue : (A → Exec S B) → Result A → S → Result B × S
  continue f (ok a) s = f a s
  continue f (err e) s = (err e, s)

  infixl 10 ◌>>=◌
  abbrev pub ◌>>=◌ : Exec S A → (A → Exec S B) → Exec S B
  ◌>>=◌ m f s = continue f (m s).0 (m s).1

infixl 10 ◌>>◌
abbrev pub ◌>>◌ {ℓ} : {S A B : Type ℓ} → Exec S A → Exec S B → Exec S B
m >> n = m >>= λ _. n

-- What holds at the end: `Q` of the value and the state after a return, `E` of the state after a
-- throw.
abbrev pub Ends {ℓ κ} :
    {S A : Type ℓ} → (A → S → Type κ) → (Error → S → Type κ) → Result A → S → Type κ
Ends Q E (ok a) s = Q a s
Ends Q E (err e) s = E e s

-- An end is a return or a throw.
pub Ends-cases {ℓ κ} :
    {S A : Type ℓ} (Q : A → S → Type κ) (E : Error → S → Type κ) (r : Result A) (s : S)
    → Ends Q E r s
    → ((a : A) × (r ≡ ok a) × Q a s) ⊎ ((e : Error) × (r ≡ err e) × E e s)
Ends-cases Q E (ok a) s h = inl (a, refl, h)
Ends-cases Q E (err e) s h = inr (e, refl, h)

-- An action that keeps `P` at both ends, and whose value has `Q`.
pub record Keeps {ℓ} {S A : Type ℓ} (P : S → Type ℓ) (Q : A → Type ℓ) (m : Exec S A) : Type ℓ where
  pub at : (s : S) → P s → Ends (λ a s'. Q a × P s') (λ e s'. P s') (m s).0 (m s).1

module _ {ℓ} {S A : Type ℓ} {P : S → Type ℓ} where
  pub Keeps-lift : (r : Result A) → Keeps P (λ a. r ≡ ok a) (lift r)
  Keeps-lift r = record { at = λ s p. at_end r s p }
    where
      at_end : (r : Result A) (s : S) → P s → Ends (λ a s'. (r ≡ ok a) × P s') (λ e s'. P s') r s
      at_end (ok a) s p = (refl, p)
      at_end (err e) s p = p

  pub Keeps-gets : (f : S → A) (Q : A → Type ℓ) → ((s : S) → P s → Q (f s)) → Keeps P Q (gets f)
  Keeps-gets f Q h = record { at = λ s p. (h s p, p) }

module _ {ℓ} {S A B : Type ℓ} {P : S → Type ℓ} (Q : A → Type ℓ) (R : B → Type ℓ) where
  Ends-continue :
      (f : A → Exec S B) (r : Result A) (s : S)
      → Ends (λ a s'. Q a × P s') (λ e s'. P s') r s
      → ((a : A) → Q a → Keeps P R (f a))
      → Ends (λ b s'. R b × P s') (λ e s'. P s') (continue f r s).0 (continue f r s).1
  Ends-continue f (ok a) s (q, p) next = (next a q).at s p
  Ends-continue f (err e) s p next = p

  -- The rule of a sequence.
  pub Keeps-bind :
      (m : Exec S A) (f : A → Exec S B)
      → Keeps P Q m
      → ((a : A) → Q a → Keeps P R (f a))
      → Keeps P R (m >>= f)
  Keeps-bind m f km kf = record { at = λ s p. Ends-continue f (m s).0 (m s).1 (km.at s p) kf }

-- What is kept at both ends holds of the state at the end.
pub Keeps-state {ℓ} :
    {S A : Type ℓ} {P : S → Type ℓ} {Q : A → Type ℓ} {m : Exec S A}
    → Keeps P Q m
    → (s : S) → P s
    → P (m s).1
Keeps-state {P = P} {Q = Q} {m = m} k s p = state (m s).0 (m s).1 (k.at s p)
  where
    state : (r : Result _) (s' : _) → Ends (λ a s'. Q a × P s') (λ e s'. P s') r s' → P s'
    state (ok a) s' h = h.1
    state (err e) s' h = h
