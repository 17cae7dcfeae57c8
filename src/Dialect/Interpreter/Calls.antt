-- ===== src/Dialect/Interpreter/Calls.antt =====
-- What a call passes to its function.
use symposium.Prelude.{
  ℕ, ◌+◌, ◌≤◌, ◌<◌, List, [], ◌∷◌, none, some, ok, err, length, ◌≡◌, refl, ◌⊎◌, inl, inr, arith,
  Option-cases, ap,
}
use symposium.Prelude.Text.{Text}
use symposium.Prelude.Assoc
use symposium.Prelude.Assoc.{text_key}
use symposium.Dialect.Interpreter.{
  Json, unknown_function, too_many_arguments, DialectFunction, to_ascii_lowercase, name_arguments,
  call_function_positional,
}

-- The arguments with the names of the first parameters.
abbrev pub named {ℓ} : {Value : Type ℓ} → List Text → List Value → List (Text × Value)
named order [] = []
named [] (v ∷ vs) = []
named (p ∷ order) (v ∷ vs) = (p, v) ∷ named order vs

module _ {Value : Type 0} (name : Text) (expected : ℕ) where
  name_arguments-cases :
      (i : ℕ) (order : List Text) (args : List Value)
      → ((length args ≤ length order)
          × (name_arguments name expected i order args ≡ ok (named order args)))
        ⊎ ((length order < length args)
            × (name_arguments name expected i order args
                ≡ err (too_many_arguments name expected (i + length order + 1))))
  unfolding name_arguments
  name_arguments-cases i order [] = inl (omega arith, refl)
  name_arguments-cases i [] (v ∷ vs) =
      inr (omega arith, ap (λ got. err (too_many_arguments name expected got)) (omega arith))
  name_arguments-cases i (p ∷ order) (v ∷ vs) = elim (name_arguments-cases (i + 1) order vs) [
    | inl (l, e) ↦ inl (omega (arith, l), rw (e, name_arguments) refl)
    | inr (l, e) ↦ inr (
      omega (arith, l),
      rw (e, name_arguments) (ap (λ got. err (too_many_arguments name expected got)) (omega arith)),
    )
  ]

module _ (json : Json) {S : Type 0}
    (functions : S → List (Text × DialectFunction S json.Value)) where
  -- A call by position either names a function that is not there, in any case of its letters, or
  -- has more arguments than the function has parameters, and then is an error that changes
  -- nothing; or it runs the function on the object that gives each argument the name of the
  -- parameter at its place.
  pub call_function_positional-cases :
      (name : Text) (args : List json.Value) (s : S)
      → let result = call_function_positional json functions name args s in
        let found = Assoc.get (to_ascii_lowercase name) (functions s) in
        ((found ≡ none) × (result ≡ (err (unknown_function name), s)))
        ⊎ ((f : DialectFunction S json.Value) × (found ≡ some f)
            × (length f.parameter_order < length args)
            × (result ≡ (
              err (
                  too_many_arguments name
                    (length f.parameter_order)
                    (length f.parameter_order + 1)),
              s,
            )))
        ⊎ ((f : DialectFunction S json.Value) × (found ≡ some f)
            × (length args ≤ length f.parameter_order)
            × (result ≡ f.execute (json.object_value (named f.parameter_order args)) s))
  unfolding call_function_positional
  call_function_positional-cases name args s =
      elim (Option-cases (Assoc.get (to_ascii_lowercase name) (functions s))) [
        | inl e ↦ inl (e, rw (e, call_function_positional) refl)
        | inr (f, e) ↦
            elim (name_arguments-cases name (length f.parameter_order) 0 f.parameter_order args) [
              | inl (l, h) ↦ inr (inr (f, e, l, rw (e, h, call_function_positional) refl))
              | inr (l, h) ↦ inr (
                  inl (
                    f,
                    e,
                    l,
                    rw (e, h, call_function_positional)
                        (ap
                          (λ got. (err (too_many_arguments name (length f.parameter_order) got), s))
                          (omega arith)),
                  ))
            ]
      ]
