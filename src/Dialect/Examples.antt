-- ===== src/Dialect/Examples.antt =====
-- The theorems about the dialect at concrete texts and tokens.
use symposium.Prelude.{List, [], ◌∷◌, ◌≡◌, ◌≢◌, ◌↔◌, refl, leb, ◌&&◌, ◌==◌, arith}
use symposium.Prelude.Text.{Text, codes}
use symposium.Dialect.Outcome.{done, panicked, out_of_fuel}
use symposium.Dialect.Syntax.{
  Token, token, ident, integer, sym, lparen, rparen, comma, Ast, call, int, string, cons, nil,
}
use symposium.Dialect.Lexer.{Unicode, byte_len, tokenize}
use symposium.Dialect.Lexer.Spans.{Spans, tokenize-Spans}
use symposium.Dialect.Lexer.Strings.{quoted, tokenize-quoted}
use symposium.Dialect.Lexer.Numbers.{AllDigits, integer_of, tokenize_digits}
use symposium.Dialect.Parser.{parse, parse_tokens, parse_ast, parse_args, peeks, close}
use symposium.Dialect.Grammar.{Reads}
use symposium.Dialect.Grammar.Complete.{parse_tokens_iff}
use symposium.Dialect.Grammar.Texts.{parse-ne-out_of_fuel}

-- Lower case letters, and the space.
abbrev ascii : Unicode
ascii = record { is_alphabetic = λ c. leb b'a' c && leb c b'z'; is_whitespace = λ c. c == 32 }

abbrev call_text : Text
call_text = codes "f(1, 2,)"

abbrev call_tokens : List Token
call_tokens =
    token (ident (codes "f")) 0 1
    ∷ token (sym lparen) 1 2
    ∷ token (integer 1) 2 3
    ∷ token (sym comma) 3 4
    ∷ token (integer 2) 5 6
    ∷ token (sym comma) 6 7
    ∷ token (sym rparen) 7 8
    ∷ []

abbrev call_tree : Ast
call_tree = call (codes "f") (cons (int 1) (cons (int 2) nil))

call_lexed : tokenize ascii call_text ≡ done call_tokens
unfolding tokenize
call_lexed = refl

call_parsed : parse_tokens 8 call_tokens ≡ done call_tree
unfolding parse_tokens parse_ast parse_args peeks close
call_parsed = refl

parse_tokens_iff_example :
    (parse_tokens 8 call_tokens ≡ done call_tree) ↔ Reads call_tree call_tokens []
parse_tokens_iff_example = parse_tokens_iff 8 call_tokens call_tree

tokenize-Spans_example : Spans 0 (byte_len call_text) call_tokens
tokenize-Spans_example = tokenize-Spans ascii call_text call_lexed

-- A text with a quote and a backslash in it.
abbrev content : Text
content = b'a' ∷ 34 ∷ 92 ∷ b'b' ∷ []

tokenize-quoted_example :
    tokenize ascii (34 ∷ quoted 34 content)
    ≡ done (token (string content) 0 (byte_len (34 ∷ quoted 34 content)) ∷ [])
tokenize-quoted_example = tokenize-quoted ascii 34 content refl refl refl

abbrev two_to_the_64 : Text
two_to_the_64 = codes "18446744073709551616"

two_to_the_64-AllDigits : AllDigits two_to_the_64
unfolding AllDigits
two_to_the_64-AllDigits = ground arith

tokenize_digits_example : tokenize ascii two_to_the_64 ≡ integer_of two_to_the_64
tokenize_digits_example =
    tokenize_digits ascii b'1' (codes "8446744073709551616") two_to_the_64-AllDigits

-- 2 ^ 64 is too large for a `u64`.
tokenize-two_to_the_64 : tokenize ascii two_to_the_64 ≡ panicked
unfolding tokenize
tokenize-two_to_the_64 = refl

parse-ne-out_of_fuel_example : parse ascii call_text ≢ out_of_fuel
parse-ne-out_of_fuel_example = parse-ne-out_of_fuel ascii call_text
