-- ===== src/Dialect/Lexer.antt =====
-- outdated/mcp-server/src/dialect/parser.rs, `tokenize` and `take_chars`. A character is its code
-- point, and positions count bytes of UTF-8, as `char_indices` gives them. What Unicode says of a
-- character is a parameter.
pub mod Spans
pub mod Strings
pub mod Numbers
use symposium.Prelude.{
  ℕ, zero, suc, ◌+◌, ◌*◌, ◌-◌, ◌^◌, Bool, true, false, ◌||◌, List, [], ◌∷◌, Option, none, some,
  length, take, ltb, ◌==◌, if◌then◌else◌,
}
use symposium.Prelude.Text.{Text, codes, text_eq}
use symposium.Prelude.Decimal.{is_digit}
use symposium.Dialect.Outcome.{Outcome, done, failed, panicked, out_of_fuel, ◌>>=◌}
use symposium.Dialect.Syntax.{
  Symbol, lbracket, rbracket, lbrace, rbrace, lparen, rparen, comma, colon, TokenKind, ident,
  integer, boolean, string, sym, Token, token, ParseError, unterminated_string, invalid_escape,
  unterminated_escape, unexpected_char,
}

-- `char::is_alphabetic` and `char::is_whitespace`
pub record Unicode : Type 0 where
  pub is_alphabetic : ℕ → Bool
  pub is_whitespace : ℕ → Bool

-- `char::len_utf8`
unfoldable pub utf8_len : ℕ → ℕ
utf8_len c = if ltb c 128 then 1 else if ltb c 2048 then 2 else if ltb c 65536 then 3 else 4

-- `str::len`, in bytes
abbrev pub byte_len : Text → ℕ
byte_len [] = 0
byte_len (c ∷ cs) = utf8_len c + byte_len cs

-- The characters for which `op` holds, from byte `pos` on: where they end, and what follows.
unfoldable pub take_chars : (ℕ → Bool) → ℕ → Text → ℕ × Text × Text
take_chars op pos [] = (pos, [], [])
take_chars op pos (c ∷ cs) =
    let (stop, taken, rest) = take_chars op (pos + utf8_len c) cs in
    if op c then (stop, c ∷ taken, rest) else (pos, [], c ∷ cs)

-- `str::parse::<u64>` of digits, without its bound
unfoldable pub value_onto : ℕ → Text → ℕ
value_onto n [] = n
value_onto n (c ∷ cs) = value_onto (n * 10 + (c - b'0')) cs

unfoldable pub unescape : ℕ → Option ℕ
unescape c =
    if c == b'n'
    then some 10
    else if c == b't'
    then some 9
    else if c == b'r'
    then some 13
    else if c == 34 || (c == 39 || (c == 96 || c == 92))
    then some c
    else none

unfoldable pub push : ℕ → ℕ × Text × Text → Outcome (ℕ × Text × Text)
push c (stop, s, rest) = done (stop, c ∷ s, rest)

-- The loop over a string that began with `quote` at `start`: where its closing quote stands, its
-- content, and what follows.
unfoldable pub lex_string : (quote start pos : ℕ) → Text → Outcome (ℕ × Text × Text)
unfolding push unescape
lex_string quote start pos [] = failed (unterminated_string start)
lex_string quote start pos (c ∷ []) =
    if c == quote
    then done (pos, [], [])
    else if c == 92
    then failed (unterminated_escape pos)
    else failed (unterminated_string start)
lex_string quote start pos (c ∷ d ∷ cs) =
    let plain = lex_string quote start (pos + utf8_len c) (d ∷ cs) >>= push c in
    let escaped = lex_string quote start (pos + utf8_len c + utf8_len d) cs in
    if c == quote
    then done (pos, [], d ∷ cs)
    else if c == 92
    then elim (unescape d) [ some e ↦ escaped >>= push e | none ↦ failed (invalid_escape d pos) ]
    else plain

abbrev pub is_quote : ℕ → Bool
is_quote c = c == 34 || (c == 39 || c == 96)

unfoldable pub symbol_of : ℕ → Option Symbol
symbol_of c =
    if c == b'['
    then some lbracket
    else if c == b']'
    then some rbracket
    else if c == b'{'
    then some lbrace
    else if c == b'}'
    then some rbrace
    else if c == b'('
    then some lparen
    else if c == b')'
    then some rparen
    else if c == b','
    then some comma
    else if c == b':'
    then some colon
    else none

unfoldable pub word_kind : Text → TokenKind
unfolding text_eq
word_kind text =
    if text_eq text (codes "true")
    then boolean true
    else if text_eq text (codes "false")
    then boolean false
    else ident text

-- A token, if the round made one, and where and with what the loop goes on.
abbrev pub Round : Type 0
Round = Option Token × ℕ × Text

-- `num.parse().unwrap()` panics on a number that is no `u64`.
unfoldable pub number_round : (start c : ℕ) → ℕ × Text × Text → Outcome Round
unfolding value_onto
number_round start c (stop, taken, rest) =
    let n = value_onto 0 (c ∷ taken) in
    if ltb n (2 ^ 64) then done (some (token (integer n) start stop), stop, rest) else panicked

unfoldable pub word_round : (start c : ℕ) → ℕ × Text × Text → Outcome Round
unfolding word_kind
word_round start c (stop, taken, rest) =
    done (some (token (word_kind (c ∷ taken)) start stop), stop, rest)

unfoldable pub string_round : (start : ℕ) → ℕ × Text × Text → Outcome Round
string_round start (stop, s, rest) = done (some (token (string s) start (stop + 1)), stop + 1, rest)

-- A symbol, or the end of the ladder.
unfoldable pub symbol_round : (preceding : Text) (start c : ℕ) → Text → Outcome Round
unfolding symbol_of
symbol_round preceding start c cs = elim (symbol_of c) [
  | some s ↦ done (some (token (sym s) start (start + 1)), start + 1, cs)
  | none ↦ failed (unexpected_char c preceding start)
]

module _ (unicode : Unicode) where
  -- One round of the loop of `tokenize`, at the character `c` at byte `start`.
  unfoldable pub next_token : (preceding : Text) (start c : ℕ) → Text → Outcome Round
  unfolding number_round word_round string_round symbol_round take_chars lex_string utf8_len
  next_token preceding start c cs =
      if is_digit c
      then number_round start c (take_chars is_digit (start + utf8_len c) cs)
      else if unicode.is_alphabetic c
      then word_round start c (take_chars unicode.is_alphabetic (start + utf8_len c) cs)
      else if unicode.is_whitespace c
      then done (none, start + utf8_len c, cs)
      else if is_quote c
      then lex_string c start (start + utf8_len c) cs >>= string_round start
      else symbol_round preceding start c cs

  abbrev put : Option Token → List Token → List Token
  put none ts = ts
  put (some t) ts = t ∷ ts

  -- The loop: each round costs a unit of fuel, and takes at least a character.
  unfoldable pub tokenize_from : ℕ → (input : Text) (pos : ℕ) → Text → Outcome (List Token)
  unfolding next_token
  tokenize_from zero input pos cs = out_of_fuel
  tokenize_from (suc f) input pos [] = done []
  tokenize_from (suc f) input pos (c ∷ cs) =
      next_token (take (length input - length (c ∷ cs)) input) pos c cs >>= λ (t, pos', rest).
      tokenize_from f input pos' rest >>= λ ts. done (put t ts)

  unfoldable pub tokenize : Text → Outcome (List Token)
  unfolding tokenize_from
  tokenize input = tokenize_from (suc (length input)) input 0 input
