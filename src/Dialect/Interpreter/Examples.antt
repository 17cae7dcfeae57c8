-- ===== src/Dialect/Interpreter/Examples.antt =====
-- The theorems about the interpreter at a concrete function and call.
use symposium.Prelude.{ℕ, ◌+◌, List, [], ◌∷◌, ◌++◌, ok, ◌≡◌, ◌↔◌, refl, if◌then◌else◌}
use symposium.Prelude.Text.{Text, codes, text_eq}
use symposium.Prelude.Assoc
use symposium.Prelude.Assoc.{text_key}
use symposium.Prelude.Decimal.{to_string}
use symposium.Dialect.Syntax.{Ast, call, string, nil, cons}
use symposium.Dialect.Interpreter.{
  Json, DialectFunction, to_ascii_lowercase, call_function_positional, evaluate_ast,
}
use symposium.Dialect.Interpreter.Semantics.{Runs, evaluate_ast_iff}

-- A value is its text.
abbrev concat : List Text → Text
concat [] = []
concat (t ∷ ts) = t ++ b',' ∷ concat ts

abbrev concat_members : List (Text × Text) → Text
concat_members [] = []
concat_members ((k, t) ∷ ts) = k ++ b':' ∷ t ++ b',' ∷ concat_members ts

abbrev texts : Json
texts = record {
  Value = Text;
  number = to_string;
  string_value = λ t. t;
  bool_value = λ b. if b then codes "true" else codes "false";
  array_value = concat;
  object_value = concat_members;
}

-- The interpreter counts its calls, and has one function, which returns its arguments.
abbrev table : ℕ → List (Text × DialectFunction ℕ Text)
table s =
    (
      codes "search",
      record {
        execute = λ v n. (ok v, n + 1);
        parameter_order = codes "path" ∷ codes "regex" ∷ [];
      },
    )
    ∷ []

abbrev search_call : Ast
search_call = call (codes "Search") (cons (string (codes "src")) (cons (string (codes "x")) nil))

evaluate_ast_iff_example :
    (evaluate_ast texts table search_call 0 ≡ (ok (codes "path:src,regex:x,"), 1))
    ↔ Runs texts table search_call 0 (codes "path:src,regex:x,") 1
evaluate_ast_iff_example = evaluate_ast_iff texts table search_call 0 (codes "path:src,regex:x,") 1

search-evaluate_ast : evaluate_ast texts table search_call 0 ≡ (ok (codes "path:src,regex:x,"), 1)
unfolding evaluate_ast call_function_positional Assoc.get text_eq to_ascii_lowercase
search-evaluate_ast = refl
