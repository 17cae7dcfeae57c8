-- ===== src/Dialect/Lexer/Spans.antt =====
-- Where the tokens of a text stand, and that the tokenizer ends.
use symposium.Prelude.{
  ℕ, zero, suc, ◌+◌, ◌^◌, ◌≤◌, ◌<◌, Bool, true, List, [], ◌∷◌, Option, none, some, length, take,
  ltb, ◌==◌, ==_iff, ◌≡◌, refl, ◌≢◌, subst, sym, arith, Bool-cases, inl, inr, ◌-◌,
}
use symposium.Prelude.Text.{Text}
use symposium.Prelude.Decimal.{is_digit}
use symposium.Dialect.Outcome.{
  done, out_of_fuel, MayPanic, returns, fails, panics, MayPanic-bind, MayPanic-if, MayPanic-elim,
  MayPanic-done, MayPanic-ne-out_of_fuel,
}
use symposium.Dialect.Syntax.{Symbol, Token, token}
use symposium.Dialect.Lexer.{
  Unicode, utf8_len, byte_len, take_chars, lex_string, push, unescape, is_quote, number_round,
  symbol_of, Round, value_onto, next_token, put, tokenize_from, tokenize,
}

utf8_len_pos : (c : ℕ) → 0 < utf8_len c
unfolding utf8_len
utf8_len_pos c = ground arith

pub utf8_len_ascii : (c : ℕ) → c < 128 → utf8_len c ≡ 1
unfolding utf8_len
utf8_len_ascii c h = ground arith

-- From byte `pos` on, with `cs` ahead, one has come to byte `stop`, with `rest` ahead.
pub record Came (pos : ℕ) (cs : Text) (stop : ℕ) (rest : Text) : Type 0 where
  pub bytes : stop + byte_len rest ≡ pos + byte_len cs
  pub shorter : length rest ≤ length cs
  pub forward : pos ≤ stop

take_chars-Came :
    (op : ℕ → Bool) (pos : ℕ) (cs : Text)
    → let (stop, taken, rest) = take_chars op pos cs in Came pos cs stop rest
unfolding take_chars
take_chars-Came op pos [] = omega arith
take_chars-Came op pos (c ∷ cs) = elim (Bool-cases (op c)) [
  | inl t ↦ rw (t, take_chars) (omega (arith, take_chars-Came op (pos + utf8_len c) cs))
  | inr f ↦ rw (f, take_chars) (omega arith)
]

-- The closing quote stands at `stop`, one byte long, and `rest` follows it.
abbrev Quoted : ℕ → Text → ℕ × Text × Text → Type 0
Quoted pos cs (stop, s, rest) = Came pos cs (stop + 1) rest × (pos ≤ stop)

closes :
    (quote pos c : ℕ) (cs : Text)
    → utf8_len quote ≡ 1
    → (c == quote) ≡ true
    → Quoted pos (c ∷ cs) (pos, [], cs)
closes quote pos c cs q t =
    let one : utf8_len c ≡ 1 = rw ((==_iff c quote).0 t) q in (omega (arith, one), omega arith)

-- A character, plain or escaped, before the rest of the string.
push-Quoted :
    (e pos pos' : ℕ) (cs cs' : Text) (r : ℕ × Text × Text)
    → pos' + byte_len cs' ≡ pos + byte_len cs
    → length cs' ≤ length cs
    → pos ≤ pos'
    → Quoted pos' cs' r
    → MayPanic (Quoted pos cs) (push e r)
unfolding push
push-Quoted e pos pos' cs cs' (stop, s, rest) b l p (came, le) = returns (
  record {
    bytes = omega (arith, came.bytes);
    shorter = omega (arith, came.shorter);
    forward = omega (arith, came.forward);
  },
  omega arith,
)

lex_string-Quoted :
    (quote start pos : ℕ) (cs : Text)
    → utf8_len quote ≡ 1
    → MayPanic (Quoted pos cs) (lex_string quote start pos cs)
unfolding lex_string
lex_string-Quoted quote start pos [] q = fails
lex_string-Quoted quote start pos (c ∷ []) q =
    MayPanic-if (c == quote) (λ t. returns (closes quote pos c [] q t))
      λ _. MayPanic-if (c == 92) (λ _. fails) (λ _. fails)
lex_string-Quoted quote start pos (c ∷ d ∷ cs) q =
    let plain = lex_string-Quoted quote start (pos + utf8_len c) (d ∷ cs) q in
    let escaped = lex_string-Quoted quote start (pos + utf8_len c + utf8_len d) cs q in
    MayPanic-if (c == quote) (λ t. returns (closes quote pos c (d ∷ cs) q t))
      λ _.
        MayPanic-if (c == 92)
          (λ _.
            MayPanic-elim (unescape d)
              (λ e _. MayPanic-bind escaped λ r h.
                push-Quoted e pos _ (c ∷ d ∷ cs) cs r (omega arith) (omega arith) (omega arith) h)
              fails)
          λ _. MayPanic-bind plain λ r h.
            push-Quoted c pos _ (c ∷ d ∷ cs) (d ∷ cs) r (omega arith) (omega arith) (omega arith) h

-- A round at byte `start`: it ends behind `start`, and its token, if any, stands from `start` to
-- where it ends.
abbrev Spanned : ℕ → ℕ → Option Token → Type 0
Spanned start stop none = Unit
Spanned start stop (some (token kind a b)) = (a ≡ start) × (b ≡ stop)

abbrev RoundOf : ℕ → ℕ → Text → Round → Type 0
RoundOf start c cs (t, stop, rest) = Came (start + utf8_len c) cs stop rest × Spanned start stop t

symbol_of-lt : (c : ℕ) (s : Symbol) → symbol_of c ≡ some s → c < 128
unfolding symbol_of
symbol_of-lt c s h = ground arith

symbol-Came :
    (start c : ℕ) (cs : Text) → utf8_len c ≡ 1 → Came (start + utf8_len c) cs (start + 1) cs
symbol-Came start c cs h = omega (arith, h)

number_round-RoundOf :
    (start c : ℕ) (cs : Text) (r : ℕ × Text × Text)
    → Came (start + utf8_len c) cs r.0 r.2
    → MayPanic (RoundOf start c cs) (number_round start c r)
unfolding number_round
number_round-RoundOf start c cs (stop, taken, rest) h =
    MayPanic-if (ltb (value_onto 0 (c ∷ taken)) (2 ^ 64)) (λ _. returns (h, (refl, refl)))
      (λ _. panics)

next_token-RoundOf :
    (unicode : Unicode) (preceding : Text) (start c : ℕ) (cs : Text)
    → MayPanic (RoundOf start c cs) (next_token unicode preceding start c cs)
unfolding next_token
next_token-RoundOf unicode preceding start c cs =
    MayPanic-if (is_digit c)
      (λ _.
        number_round-RoundOf start c cs (take_chars is_digit (start + utf8_len c) cs)
          (take_chars-Came is_digit (start + utf8_len c) cs))
      λ _.
        MayPanic-if (unicode.is_alphabetic c)
          (λ _.
            returns (take_chars-Came unicode.is_alphabetic (start + utf8_len c) cs, (refl, refl)))
          λ _.
            MayPanic-if (unicode.is_whitespace c) (λ _. returns (omega arith, tt))
              λ _.
                MayPanic-if (is_quote c)
                  (λ quote.
                    MayPanic-bind
                      (lex_string-Quoted c start (start + utf8_len c) cs
                        (utf8_len_ascii c (ground arith)))
                      λ r h. returns (h.0, (refl, refl)))
                  (λ _.
                    MayPanic-elim (symbol_of c)
                      (λ s h. returns (
                        symbol-Came start c cs (utf8_len_ascii c (symbol_of-lt c s h)),
                        (refl, refl),
                      ))
                      fails)

-- The tokens stand in order, none empty, none over another, between bytes `p` and `e`.
unfoldable pub Spans : ℕ → ℕ → List Token → Type 0
Spans p e [] = p ≤ e
Spans p e (token kind a b ∷ ts) = (p ≤ a) × (a < b) × Spans b e ts

Spans-earlier : (p p' e : ℕ) (ts : List Token) → p ≤ p' → Spans p' e ts → Spans p e ts
unfolding Spans
Spans-earlier p p' e [] l h = omega arith
Spans-earlier p p' e (token kind a b ∷ ts) l (h, lt, more) = (omega arith, lt, more)

module _ (unicode : Unicode) where
  put-Spans :
      (start stop e : ℕ) (t : Option Token) (ts : List Token)
      → start < stop
      → Spanned start stop t
      → Spans stop e ts
      → Spans start e (put unicode t ts)
  unfolding Spans
  put-Spans start stop e none ts l h s = Spans-earlier start stop e ts (omega arith) s
  put-Spans start stop e (some (token kind a b)) ts l (ha, hb) s =
      (omega arith, omega arith, subst (λ b. Spans b e ts) (sym hb) s)

  tokenize_from-Spans :
      (f : ℕ) (input : Text) (pos : ℕ) (cs : Text)
      → length cs < f
      → MayPanic (Spans pos (pos + byte_len cs)) (tokenize_from unicode f input pos cs)
  unfolding tokenize_from Spans
  tokenize_from-Spans zero input pos cs l = grind arith
  tokenize_from-Spans (suc f) input pos [] l = returns (omega arith)
  tokenize_from-Spans (suc f) input pos (c ∷ cs) l =
      MayPanic-bind
        (next_token-RoundOf unicode (take (length input - length (c ∷ cs)) input) pos c cs)
        λ (t, stop, rest) (came, span).
          MayPanic-bind (tokenize_from-Spans f input stop rest (omega (arith, came.shorter)))
            λ ts h.
              let ends : stop + byte_len rest ≡ pos + byte_len (c ∷ cs) =
                omega (arith, came.bytes) in
              let here : Spans stop (pos + byte_len (c ∷ cs)) ts =
                subst (λ e. Spans stop e ts) ends h in
              returns
                (put-Spans pos stop _ t ts (omega (arith, came.forward, utf8_len_pos c)) span here)

-- The tokenizer comes to an end on every text, whatever Unicode says of the characters: it returns
-- tokens, an error, or panics.
pub tokenize-ne-out_of_fuel :
    (unicode : Unicode) (input : Text) → tokenize unicode input ≢ out_of_fuel
unfolding tokenize
tokenize-ne-out_of_fuel unicode input =
    MayPanic-ne-out_of_fuel
      (tokenize_from-Spans unicode (suc (length input)) input 0 input (omega arith))

-- The tokens that the tokenizer returns stand in order, each from a byte to a later one, no two
-- over the same byte, and none past the last byte of the text.
pub tokenize-Spans :
    (unicode : Unicode) (input : Text) {ts : List Token}
    → tokenize unicode input ≡ done ts
    → Spans 0 (byte_len input) ts
unfolding tokenize
tokenize-Spans unicode input {ts} h =
    subst (λ e. Spans 0 e ts) (omega arith)
      (MayPanic-done (tokenize_from-Spans unicode (suc (length input)) input 0 input (omega arith))
        h)
