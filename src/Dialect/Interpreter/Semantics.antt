-- ===== src/Dialect/Interpreter/Semantics.antt =====
-- What it means for a tree to have a value, and that the interpreter finds it.
use symposium.Prelude.{
  ℕ, Bool, ◌≤◌, ◌<◌, List, [], ◌∷◌, some, Result, ok, err, and_then, and_then-eq-ok, length, ◌≡◌,
  ◌↔◌, refl, ap, sym, subst, ◌∙◌, inl, inr, arith,
}
use symposium.Prelude.Text.{Text}
use symposium.Prelude.Assoc
use symposium.Prelude.Assoc.{text_key}
use symposium.Dialect.Syntax.{
  Ast, Args, Fields, call, int, string, boolean, array, object, nil, cons, empty, field,
}
use symposium.Dialect.Interpreter.{
  Json, EvalError, DialectFunction, to_ascii_lowercase, call_function_positional, evaluate_ast,
  evaluate_args, evaluate_fields,
}
use symposium.Dialect.Interpreter.Calls.{named, call_function_positional-cases}

module _ (json : Json) {S : Type 0}
    (functions : S → List (Text × DialectFunction S json.Value)) where
  mutual
    -- `v` has the value `x`, and its calls change the interpreter from `s` to `t`.
    pub data Runs : Ast → S → json.Value → S → Type 0 where
      runs_int : {n : ℕ} {s : S} → Runs (int n) s (json.number n) s
      runs_string : {text : Text} {s : S} → Runs (string text) s (json.string_value text) s
      runs_boolean : {b : Bool} {s : S} → Runs (boolean b) s (json.bool_value b) s
      runs_call :
          {name : Text} {args : Args} {s t u : S} {xs : List json.Value} {x : json.Value}
          {f : DialectFunction S json.Value}
          → RunsArgs args s xs t
          → Assoc.get (to_ascii_lowercase name) (functions t) ≡ some f
          → length xs ≤ length f.parameter_order
          → f.execute (json.object_value (named f.parameter_order xs)) t ≡ (ok x, u)
          → Runs (call name args) s x u
      runs_array :
          {elements : Args} {s t : S} {xs : List json.Value}
          → RunsArgs elements s xs t
          → Runs (array elements) s (json.array_value xs) t
      runs_object :
          {fields : Fields} {s t : S} {xs : List (Text × json.Value)}
          → RunsFields fields s xs t
          → Runs (object fields) s (json.object_value xs) t

    -- From left to right.
    pub data RunsArgs : Args → S → List json.Value → S → Type 0 where
      runs_nil : {s : S} → RunsArgs nil s [] s
      runs_cons :
          {v : Ast} {vs : Args} {s t u : S} {x : json.Value} {xs : List json.Value}
          → Runs v s x t
          → RunsArgs vs t xs u
          → RunsArgs (cons v vs) s (x ∷ xs) u

    -- In the order of the keys.
    pub data RunsFields : Fields → S → List (Text × json.Value) → S → Type 0 where
      runs_empty : {s : S} → RunsFields empty s [] s
      runs_field :
          {k : Text} {v : Ast} {fs : Fields} {s t u : S} {x : json.Value}
          {xs : List (Text × json.Value)}
          → Runs v s x t
          → RunsFields fs t xs u
          → RunsFields (field k v fs) s ((k, x) ∷ xs) u

  call-Runs :
      (name : Text) (args : Args) (xs : List json.Value) (s t u : S) (x : json.Value)
      → RunsArgs args s xs t
      → call_function_positional json functions name xs t ≡ (ok x, u)
      → Runs (call name args) s x u
  call-Runs name args xs s t u x d h =
      elim (call_function_positional-cases json functions name xs t) [
        | inl (e, r) ↦ cc
        | inr (inl (f, e, l, r)) ↦ cc
        | inr (inr (f, e, l, r)) ↦ runs_call d e l (sym r ∙ h)
      ]

  Runs-call :
      (name : Text) (xs : List json.Value) (t : S) (f : DialectFunction S json.Value)
      → Assoc.get (to_ascii_lowercase name) (functions t) ≡ some f
      → length xs ≤ length f.parameter_order
      → call_function_positional json functions name xs t
        ≡ f.execute (json.object_value (named f.parameter_order xs)) t
  Runs-call name xs t f e l = elim (call_function_positional-cases json functions name xs t) [
    | inl (n, r) ↦ cc
    | inr (inl (g, e', l', r)) ↦
        let same : g ≡ f = cc in
        absurd (omega (arith, l, subst (λ h. length h.parameter_order < length xs) same l'))
    | inr (inr (g, e', l', r)) ↦
        let same : g ≡ f = cc in
        r ∙ ap (λ h. h.execute (json.object_value (named h.parameter_order xs)) t) same
  ]

  mutual
    unfolding evaluate_ast evaluate_args evaluate_fields

    evaluate_ast_complete :
        {v : Ast} {s t : S} {x : json.Value}
        → Runs v s x t
        → evaluate_ast json functions v s ≡ (ok x, t)
    evaluate_ast_complete runs_int = refl
    evaluate_ast_complete runs_string = refl
    evaluate_ast_complete runs_boolean = refl
    evaluate_ast_complete (runs_call {name} {t = t} {xs = xs} {f = f} d e l h) =
        ap (λ r. and_then r (call_function_positional json functions name))
          (evaluate_args_complete d)
        ∙ Runs-call name xs t f e l
        ∙ h
    evaluate_ast_complete (runs_array d) =
        ap (λ r. and_then r (λ vs t. (ok (json.array_value vs), t))) (evaluate_args_complete d)
    evaluate_ast_complete (runs_object d) =
        ap (λ r. and_then r (λ xs t. (ok (json.object_value xs), t))) (evaluate_fields_complete d)

    evaluate_args_complete :
        {vs : Args} {s t : S} {xs : List json.Value}
        → RunsArgs vs s xs t
        → evaluate_args json functions vs s ≡ (ok xs, t)
    evaluate_args_complete runs_nil = refl
    evaluate_args_complete (runs_cons {vs = vs} {x = x} d ds) =
        ap
          (λ r.
            and_then r
              (λ y t. and_then (evaluate_args json functions vs t) (λ ys u. (ok (y ∷ ys), u))))
          (evaluate_ast_complete d)
        ∙ ap (λ r. and_then r (λ ys u. (ok (x ∷ ys), u))) (evaluate_args_complete ds)

    evaluate_fields_complete :
        {fs : Fields} {s t : S} {xs : List (Text × json.Value)}
        → RunsFields fs s xs t
        → evaluate_fields json functions fs s ≡ (ok xs, t)
    evaluate_fields_complete runs_empty = refl
    evaluate_fields_complete (runs_field {k} {fs = fs} {x = x} d ds) =
        ap
          (λ r.
            and_then r (λ y t.
              and_then (evaluate_fields json functions fs t) (λ ys u. (ok ((k, y) ∷ ys), u))))
          (evaluate_ast_complete d)
        ∙ ap (λ r. and_then r (λ ys u. (ok ((k, x) ∷ ys), u))) (evaluate_fields_complete ds)

  -- What holds of a returned value and state holds of the ones they are equal to.
  returned :
      {A : Type 0} (P : A → S → Type 0) (a x : A) (s t : S)
      → ◌≡◌ {A = Result EvalError A × S} (ok a, s) (ok x, t)
      → P a s
      → P x t
  returned P a x s t h p =
      subst (λ y. P y t) (ap (λ r. elim r.0 [ ok y ↦ y | err e ↦ a ]) h)
        (subst (λ u. P a u) (ap (λ r. r.1) h) p)

  mutual
    unfolding evaluate_ast evaluate_args evaluate_fields

    evaluate_ast-Runs :
        (v : Ast) (s : S) (x : json.Value) (t : S)
        → evaluate_ast json functions v s ≡ (ok x, t)
        → Runs v s x t
    evaluate_ast-Runs (int n) s x t h = returned (Runs (int n) s) (json.number n) x s t h runs_int
    evaluate_ast-Runs (string text) s x t h =
        returned (Runs (string text) s) (json.string_value text) x s t h runs_string
    evaluate_ast-Runs (boolean b) s x t h =
        returned (Runs (boolean b) s) (json.bool_value b) x s t h runs_boolean
    evaluate_ast-Runs (array vs) s x t h =
        let (xs, u, e, e') = and_then-eq-ok (evaluate_args json functions vs s) _ h in
        returned (Runs (array vs) s) (json.array_value xs) x u t e'
          (runs_array (evaluate_args-Runs vs s xs u e))
    evaluate_ast-Runs (object fs) s x t h =
        let (xs, u, e, e') = and_then-eq-ok (evaluate_fields json functions fs s) _ h in
        returned (Runs (object fs) s) (json.object_value xs) x u t e'
          (runs_object (evaluate_fields-Runs fs s xs u e))
    evaluate_ast-Runs (call name args) s x t h =
        let (xs, u, e, e') = and_then-eq-ok (evaluate_args json functions args s) _ h in
        call-Runs name args xs s u t x (evaluate_args-Runs args s xs u e) e'

    evaluate_args-Runs :
        (vs : Args) (s : S) (xs : List json.Value) (t : S)
        → evaluate_args json functions vs s ≡ (ok xs, t)
        → RunsArgs vs s xs t
    evaluate_args-Runs nil s xs t h = returned (RunsArgs nil s) [] xs s t h runs_nil
    evaluate_args-Runs (cons v vs) s xs t h =
        let (y, u, e, e') = and_then-eq-ok (evaluate_ast json functions v s) _ h in
        let (ys, w, g, g') = and_then-eq-ok (evaluate_args json functions vs u) _ e' in
        returned (RunsArgs (cons v vs) s) (y ∷ ys) xs w t g'
          (runs_cons (evaluate_ast-Runs v s y u e) (evaluate_args-Runs vs u ys w g))

    evaluate_fields-Runs :
        (fs : Fields) (s : S) (xs : List (Text × json.Value)) (t : S)
        → evaluate_fields json functions fs s ≡ (ok xs, t)
        → RunsFields fs s xs t
    evaluate_fields-Runs empty s xs t h = returned (RunsFields empty s) [] xs s t h runs_empty
    evaluate_fields-Runs (field k v fs) s xs t h =
        let (y, u, e, e') = and_then-eq-ok (evaluate_ast json functions v s) _ h in
        let (ys, w, g, g') = and_then-eq-ok (evaluate_fields json functions fs u) _ e' in
        returned (RunsFields (field k v fs) s) ((k, y) ∷ ys) xs w t g'
          (runs_field (evaluate_ast-Runs v s y u e) (evaluate_fields-Runs fs u ys w g))

  -- The interpreter returns the value `x` and leaves the state `t` exactly if the tree has that
  -- value: elements and arguments are evaluated once each, from left to right, fields in the order
  -- of their keys, and a call runs the function of its name, in lower case, on the object that
  -- gives each argument the name of the parameter at its place.
  pub evaluate_ast_iff :
      (v : Ast) (s : S) (x : json.Value) (t : S)
      → (evaluate_ast json functions v s ≡ (ok x, t)) ↔ Runs v s x t
  evaluate_ast_iff v s x t = (evaluate_ast-Runs v s x t, evaluate_ast_complete)
