-- ===== src/Prelude/Results.antt =====
-- Rust's `Result`, with its `?` operator as `>>=`.
use mathlib.Core.Path.{◌≡◌, refl}
use mathlib.Core.Logic.{◌⊎◌, inl, inr}
use mathlib.Core.Option.{Option, none, some}

pub data Result {ℓ} (E : Type 0) (A : Type ℓ) : Type ℓ where
  ok : A → Result E A
  err : E → Result E A

-- `?`: the error is handed on.
infixl 5 ◌>>=◌ ◌>>◌
abbrev pub ◌>>=◌ {ℓ κ} :
    {Error : Type 0} {Value : Type ℓ} {Next : Type κ}
    → Result Error Value
    → (Value → Result Error Next)
    → Result Error Next
err e >>= next = err e
ok value >>= next = next value

abbrev pub ◌>>◌ {κ} :
    {Error : Type 0} {Next : Type κ}
    → Result Error (Unit {0})
    → Result Error Next
    → Result Error Next
checked >> next = checked >>= λ _. next

pub >>=-eq-ok {ℓ κ} :
    {Error : Type 0} {Value : Type ℓ} {Next : Type κ} (r : Result Error Value)
    (next : Value → Result Error Next) {result : Next}
    → (r >>= next) ≡ ok result
    → (value : Value) × (r ≡ ok value) × (next value ≡ ok result)
>>=-eq-ok (err e) next h = cc
>>=-eq-ok (ok value) next h = (value, refl, h)

-- `map_err`, `map`, `Option::ok_or`, and `if let Ok(a) = r { Ok(a) } else { other }`
abbrev pub map_err {ℓ} : {E F : Type 0} {A : Type ℓ} → (E → F) → Result E A → Result F A
map_err f (ok a) = ok a
map_err f (err e) = err (f e)

abbrev pub map_ok {ℓ κ} : {E : Type 0} {A : Type ℓ} {B : Type κ} → (A → B) → Result E A → Result E B
map_ok f (ok a) = ok (f a)
map_ok f (err e) = err e

abbrev pub ok_or {ℓ} : {E : Type 0} {A : Type ℓ} → E → Option A → Result E A
ok_or e (some a) = ok a
ok_or e none = err e

abbrev pub or_else {ℓ} : {E : Type 0} {A : Type ℓ} → Result E A → Result E A → Result E A
or_else (ok a) r = ok a
or_else (err e) r = r

pub Result-cases {ℓ} :
    {E : Type 0} {A : Type ℓ} (r : Result E A) → ((a : A) × (r ≡ ok a)) ⊎ ((e : E) × (r ≡ err e))
Result-cases (ok a) = inl (a, refl)
Result-cases (err e) = inr (e, refl)

-- `?` on the result of a call that may change the state.
abbrev pub and_then :
    {E S A B : Type 0} → Result E A × S → (A → S → Result E B × S) → Result E B × S
and_then (ok a, s) f = f a s
and_then (err e, s) f = (err e, s)

pub and_then-eq-ok :
    {E S A B : Type 0} (r : Result E A × S) (f : A → S → Result E B × S) {b : B} {u : S}
    → and_then r f ≡ (ok b, u)
    → (a : A) × (t : S) × (r ≡ (ok a, t)) × (f a t ≡ (ok b, u))
and_then-eq-ok (ok a, s) f h = (a, s, refl, h)
and_then-eq-ok (err e, s) f h = cc
