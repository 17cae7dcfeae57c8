-- ===== src/Dialect/Interpreter.antt =====
-- outdated/mcp-server/src/dialect.rs: the interpreter. The functions that it calls are arguments:
-- they get the whole interpreter and may change it.
pub mod Semantics
pub mod Calls
mod Examples
use symposium.Prelude.{
  ℕ, suc, ◌+◌, Bool, List, [], ◌∷◌, Option, none, some, Result, ok, err, and_then, length, leb,
  ◌&&◌, if◌then◌else◌, map,
}
use symposium.Prelude.Text.{Text}
use symposium.Prelude.Assoc
use symposium.Prelude.Assoc.{text_key}
use symposium.Dialect.Outcome.{Outcome, done, ◌>>=◌}
use symposium.Dialect.Syntax.{
  Ast, Args, Fields, call, int, string, boolean, array, object, nil, cons, empty, field,
}
use symposium.Dialect.Lexer.{Unicode}
use symposium.Dialect.Parser.{parse}

-- serde_json: how values are made. An object is made from an empty map by the given insertions.
pub record Json : Type 1 where
  pub Value : Type 0
  pub number : ℕ → Value
  pub string_value : Text → Value
  pub bool_value : Bool → Value
  pub array_value : List Value → Value
  pub object_value : List (Text × Value) → Value

-- What is an `anyhow::Error` in the source.
pub data EvalError : Type 0 where
  unknown_function : (name : Text) → EvalError
  too_many_arguments : (name : Text) (expected got : ℕ) → EvalError
  function_error : Text → EvalError

-- A function, with its `PARAMETER_ORDER`. `S` is the interpreter.
pub record DialectFunction (S Value : Type 0) : Type 0 where
  pub execute : Value → S → Result EvalError Value × S
  pub parameter_order : List Text

unfoldable pub to_ascii_lowercase : Text → Text
to_ascii_lowercase = map (λ c. if leb b'A' c && leb c b'Z' then c + 32 else c)

module _ {Value : Type 0} where
  -- The loop over the arguments: each gets the name of its parameter. `i` arguments are through.
  unfoldable pub name_arguments :
      (name : Text) (expected i : ℕ) (parameter_order : List Text)
      → List Value
      → Result EvalError (List (Text × Value))
  name_arguments name expected i order [] = ok []
  name_arguments name expected i [] (v ∷ vs) = err (too_many_arguments name expected (i + 1))
  name_arguments name expected i (p ∷ order) (v ∷ vs) =
      elim (name_arguments name expected (i + 1) order vs) [
        | ok rest ↦ ok ((p, v) ∷ rest)
        | err e ↦ err e
      ]

-- `functions` is the field of `DialectInterpreter`.
module _ (json : Json) {S : Type 0}
    (functions : S → List (Text × DialectFunction S json.Value)) where
  unfoldable pub call_function_positional :
      (name : Text) → List json.Value → S → Result EvalError json.Value × S
  unfolding name_arguments
  call_function_positional name args s = elim (Assoc.get (to_ascii_lowercase name) (functions s)) [
    | none ↦ (err (unknown_function name), s)
    | some f ↦ elim (name_arguments name (length f.parameter_order) 0 f.parameter_order args) [
      | err e ↦ (err e, s)
      | ok named ↦ f.execute (json.object_value named) s
    ]
  ]

  unfoldable mutual
    pub evaluate_ast : Ast → S → Result EvalError json.Value × S
    evaluate_ast (call name args) s =
        and_then (evaluate_args args s) (call_function_positional name)
    evaluate_ast (int n) s = (ok (json.number n), s)
    evaluate_ast (string text) s = (ok (json.string_value text), s)
    evaluate_ast (boolean b) s = (ok (json.bool_value b), s)
    evaluate_ast (array elements) s =
        and_then (evaluate_args elements s) (λ vs t. (ok (json.array_value vs), t))
    evaluate_ast (object fields) s =
        and_then (evaluate_fields fields s) (λ members t. (ok (json.object_value members), t))

    pub evaluate_args : Args → S → Result EvalError (List json.Value) × S
    evaluate_args nil s = (ok [], s)
    evaluate_args (cons v vs) s =
        and_then (evaluate_ast v s) λ x t. and_then (evaluate_args vs t) λ xs u. (ok (x ∷ xs), u)

    pub evaluate_fields : Fields → S → Result EvalError (List (Text × json.Value)) × S
    evaluate_fields empty s = (ok [], s)
    evaluate_fields (field k v fs) s =
        and_then (evaluate_ast v s)
          λ x t. and_then (evaluate_fields fs t) λ xs u. (ok ((k, x) ∷ xs), u)

  -- A parse error is `failed`.
  unfoldable pub evaluate :
      Unicode → (program : Text) → S → Outcome (Result EvalError json.Value × S)
  evaluate unicode program s = parse unicode program >>= λ ast. done (evaluate_ast ast s)
