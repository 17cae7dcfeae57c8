-- ===== src/Dialect/Parser.antt =====
-- outdated/mcp-server/src/dialect/parser.rs, `parse_ast` and `parse`. What a call leaves
-- of the tokens is no structural part of them, so each call costs a unit of fuel. `len` is
-- `input.len()`.
use symposium.Prelude.{ℕ, zero, suc, ◌+◌, ◌*◌, Bool, false, List, [], ◌∷◌, length, if◌then◌else◌}
use symposium.Prelude.Text.{Text}
use symposium.Dialect.Outcome.{Outcome, done, failed, out_of_fuel, ◌>>=◌}
use symposium.Dialect.Lexer.{Unicode, byte_len, tokenize}
use symposium.Dialect.Syntax.{
  Symbol, lbracket, rbracket, lbrace, rbrace, lparen, rparen, comma, colon, ◌is◌, ident, integer,
  boolean, string, sym, Token, token, ParseError, unexpected_eof, unexpected_token,
  unexpected_ident, expected_close_paren, expected_close_bracket, expected_close_brace,
  expected_colon, expected_string_or_ident, Ast, Args, Fields, nil, cons, empty, field, call, int,
  array, object, insert,
}

-- `tokens.peek().map(|t| &t.kind) == Some(&TokenKind::Sym(c))`
unfoldable pub peeks : Symbol → List Token → Bool
peeks c (token (sym d) start stop ∷ ts) = d is c
peeks c ts = false

abbrev pub tail : List Token → List Token
tail [] = []
tail (t ∷ ts) = ts

-- `tokens.next().ok_or(e)?` behind a loop
unfoldable pub close : ParseError → List Token → Outcome (List Token)
close e [] = failed e
close e (t ∷ ts) = done ts

-- The key of a field: a string or an identifier.
unfoldable pub key_of : Token → Outcome Text
key_of (token (string s) start stop) = done s
key_of (token (ident s) start stop) = done s
key_of (token kind start stop) = failed (expected_string_or_ident start)

unfoldable pub expect_colon : ℕ → List Token → Outcome (List Token)
expect_colon len [] = failed (expected_colon len)
expect_colon len (token (sym colon) start stop ∷ ts) = done ts
expect_colon len (token kind start stop ∷ ts) = failed (expected_colon start)

-- A key and the colon behind it; `missing` is where the error for no token points.
unfoldable pub parse_key : (missing len : ℕ) → List Token → Outcome (Text × List Token)
unfolding key_of expect_colon
parse_key missing len [] = failed (expected_close_brace missing)
parse_key missing len (t ∷ ts) = key_of t >>= λ k. expect_colon len ts >>= λ us. done (k, us)

-- `if map.is_empty() { token.end } else { input.len() }`
unfoldable pub missing_at : (stop len : ℕ) → Fields → ℕ
missing_at stop len empty = stop
missing_at stop len (field k v fs) = len

unfoldable mutual
  pub parse_ast : ℕ → (len : ℕ) → List Token → Outcome (Ast × List Token)
  parse_ast zero len ts = out_of_fuel
  parse_ast (suc f) len [] = failed (unexpected_eof len)
  parse_ast (suc f) len (token (integer n) start stop ∷ ts) = done (int n, ts)
  parse_ast (suc f) len (token (boolean b) start stop ∷ ts) = done (boolean b, ts)
  parse_ast (suc f) len (token (string s) start stop ∷ ts) = done (string s, ts)
  parse_ast (suc f) len (token (ident name) start stop ∷ ts) =
      let rest = parse_args f rparen len (tail ts) >>= λ (args, us).
      close (expected_close_paren len) us >>= λ vs. done (call name args, vs) in
      if peeks lparen ts then rest else failed (unexpected_ident start)
  parse_ast (suc f) len (token (sym lbracket) start stop ∷ ts) =
      parse_args f rbracket len ts >>= λ (args, us).
      close (expected_close_bracket len) us >>= λ vs. done (array args, vs)
  parse_ast (suc f) len (token (sym lbrace) start stop ∷ ts) =
      parse_fields f stop len empty ts >>= λ (map, us).
      close (expected_close_brace len) us >>= λ vs. done (object map, vs)
  parse_ast (suc f) len (token kind start stop ∷ ts) = failed (unexpected_token kind start)

  -- The loops of a call and of an array, up to the closing symbol, which stays.
  pub parse_args : ℕ → Symbol → (len : ℕ) → List Token → Outcome (Args × List Token)
  parse_args zero c len ts = out_of_fuel
  parse_args (suc f) c len ts =
      let rest = parse_ast f len ts >>= λ (v, us).
      let more = parse_args f c len (tail us) >>= λ (vs, ws). done (cons v vs, ws) in
      let next = parse_args f c len us >>= λ (vs, ws). done (cons v vs, ws) in
      if peeks comma us
      then (if peeks c (tail us) then done (cons v nil, tail us) else more)
      else next in
      if peeks c ts then done (nil, ts) else rest

  -- The loop of an object, with the map that it has built.
  pub parse_fields : ℕ → (stop len : ℕ) → Fields → List Token → Outcome (Fields × List Token)
  parse_fields zero stop len map ts = out_of_fuel
  parse_fields (suc f) stop len map ts =
      let rest = parse_key (missing_at stop len map) len ts >>= λ (k, us).
      parse_ast f len us >>= λ (v, vs).
      let map' = insert k v map in
      let more = parse_fields f stop len map' (tail vs) in
      let next = parse_fields f stop len map' vs in
      if peeks comma vs
      then (if peeks rbrace (tail vs) then done (map', tail vs) else more)
      else next in
      if peeks rbrace ts then done (map, ts) else rest

unfoldable pub finish : Ast → List Token → Outcome Ast
finish ast [] = done ast
finish ast (token kind start stop ∷ ts) = failed (unexpected_token kind start)

-- `parse` behind `tokenize`
unfoldable pub parse_tokens : (len : ℕ) → List Token → Outcome Ast
unfolding finish
parse_tokens len ts = parse_ast (2 * length ts + 1) len ts >>= λ (ast, rest). finish ast rest

unfoldable pub parse : Unicode → Text → Outcome Ast
unfolding parse_tokens
parse unicode input = tokenize unicode input >>= parse_tokens (byte_len input)
