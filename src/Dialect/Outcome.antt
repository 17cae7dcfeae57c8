-- ===== src/Dialect/Outcome.antt =====
-- How a run of the tokenizer or of the parser ends, and what is shown of it.
use symposium.Prelude.{◌≡◌, ◌≢◌, refl, subst, Bool, true, false, Option, none, some, if◌then◌else◌}
use symposium.Dialect.Syntax.{ParseError}

-- `panicked` is a panic of the program; `out_of_fuel` has no counterpart in it.
pub data Outcome {ℓ} (A : Type ℓ) : Type ℓ where
  done : A → Outcome A
  failed : ParseError → Outcome A
  panicked out_of_fuel : Outcome A

infixl 5 ◌>>=◌
abbrev pub ◌>>=◌ {ℓ κ} : {A : Type ℓ} {B : Type κ} → Outcome A → (A → Outcome B) → Outcome B
done a >>= f = f a
failed e >>= f = failed e
panicked >>= f = panicked
out_of_fuel >>= f = out_of_fuel

-- The run ends by a value that satisfies `P`, or by an error.
pub data Meets {ℓ κ} {A : Type ℓ} (P : A → Type κ) : Outcome A → Type (ℓ ⊔ κ) where
  met : {a : A} → P a → Meets P (done a)
  error : {e : ParseError} → Meets P (failed e)

module _ {ℓ κ} {A : Type ℓ} {P : A → Type κ} where
  pub Meets-done : {r : Outcome A} {a : A} → Meets P r → r ≡ done a → P a
  Meets-done (met h) e = subst P (cc) h
  Meets-done error e = cc

  pub Meets-ne-out_of_fuel : {r : Outcome A} → Meets P r → r ≢ out_of_fuel
  Meets-ne-out_of_fuel (met h) = λ e. cc
  Meets-ne-out_of_fuel error = λ e. cc

  pub Meets-ne-panicked : {r : Outcome A} → Meets P r → r ≢ panicked
  Meets-ne-panicked (met h) = λ e. cc
  Meets-ne-panicked error = λ e. cc

  pub Meets-bind {ℓ' κ'} :
      {B : Type ℓ'} {Q : B → Type κ'} {r : Outcome A} {f : A → Outcome B}
      → Meets P r
      → ((a : A) → P a → Meets Q (f a))
      → Meets Q (r >>= f)
  Meets-bind (met {a} h) next = next a h
  Meets-bind error next = error

  pub Meets-mono {κ'} :
      {Q : A → Type κ'} {r : Outcome A} → Meets P r → ((a : A) → P a → Q a) → Meets Q r
  Meets-mono (met {a} h) f = met (f a h)
  Meets-mono error f = error

-- The same, or the program panics.
pub data MayPanic {ℓ κ} {A : Type ℓ} (P : A → Type κ) : Outcome A → Type (ℓ ⊔ κ) where
  returns : {a : A} → P a → MayPanic P (done a)
  fails : {e : ParseError} → MayPanic P (failed e)
  panics : MayPanic P panicked

module _ {ℓ κ} {A : Type ℓ} {P : A → Type κ} where
  pub MayPanic-done : {r : Outcome A} {a : A} → MayPanic P r → r ≡ done a → P a
  MayPanic-done (returns h) e = subst P (cc) h
  MayPanic-done fails e = cc
  MayPanic-done panics e = cc

  pub MayPanic-ne-out_of_fuel : {r : Outcome A} → MayPanic P r → r ≢ out_of_fuel
  MayPanic-ne-out_of_fuel (returns h) = λ e. cc
  MayPanic-ne-out_of_fuel fails = λ e. cc
  MayPanic-ne-out_of_fuel panics = λ e. cc

  pub MayPanic-bind {ℓ' κ'} :
      {B : Type ℓ'} {Q : B → Type κ'} {r : Outcome A} {f : A → Outcome B}
      → MayPanic P r
      → ((a : A) → P a → MayPanic Q (f a))
      → MayPanic Q (r >>= f)
  MayPanic-bind (returns {a} h) next = next a h
  MayPanic-bind fails next = fails
  MayPanic-bind panics next = panics

  pub MayPanic-if :
      (b : Bool) {x y : Outcome A}
      → (b ≡ true → MayPanic P x)
      → (b ≡ false → MayPanic P y)
      → MayPanic P (if b then x else y)
  MayPanic-if true hx hy = hx refl
  MayPanic-if false hx hy = hy refl

  pub MayPanic-elim {ℓ'} :
      {B : Type ℓ'} (o : Option B) {f : B → Outcome A} {x : Outcome A}
      → ((b : B) → o ≡ some b → MayPanic P (f b))
      → MayPanic P x
      → MayPanic P (elim o [ some b ↦ f b | none ↦ x ])
  MayPanic-elim none hf hx = hx
  MayPanic-elim (some b) hf hx = hf b refl
