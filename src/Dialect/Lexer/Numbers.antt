-- ===== src/Dialect/Lexer/Numbers.antt =====
-- What the tokenizer makes of a text of digits.
use symposium.Prelude.{
  ℕ, suc, ◌+◌, ◌^◌, true, List, [], ◌∷◌, length, ltb, if◌then◌else◌, ◌≡◌, refl, Bool-cases, inl,
  inr, arith, ap, take, ◌-◌,
}
use symposium.Prelude.Text.{Text}
use symposium.Prelude.Decimal.{is_digit}
use symposium.Dialect.Outcome.{Outcome, done, panicked, ◌>>=◌}
use symposium.Dialect.Syntax.{Token, token, integer}
use symposium.Dialect.Lexer.{
  Unicode, utf8_len, byte_len, take_chars, value_onto, number_round, next_token, tokenize_from,
  tokenize, put,
}

unfoldable pub AllDigits : Text → Type 0
AllDigits [] = Unit
AllDigits (c ∷ cs) = (is_digit c ≡ true) × AllDigits cs

take_chars-digits :
    (pos : ℕ) (cs : Text) → AllDigits cs → take_chars is_digit pos cs ≡ (pos + byte_len cs, cs, [])
unfolding take_chars AllDigits
take_chars-digits pos [] h = ap (λ p. (p, [], [])) (omega arith)
take_chars-digits pos (c ∷ cs) (d, ds) =
    rw (d, take_chars, take_chars-digits (pos + utf8_len c) cs ds)
      (ap (λ p. (p, c ∷ cs, [])) (omega arith))

-- The one integer token of a number that fits a `u64`, and a panic for one that does not.
abbrev pub integer_of : Text → Outcome (List Token)
integer_of text =
    if ltb (value_onto 0 text) (2 ^ 64)
    then done (token (integer (value_onto 0 text)) 0 (byte_len text) ∷ [])
    else panicked

next_token-digits :
    (unicode : Unicode) (preceding : Text) (c : ℕ) (cs : Text)
    → AllDigits (c ∷ cs)
    → next_token unicode preceding 0 c cs ≡ number_round 0 c (byte_len (c ∷ cs), cs, [])
unfolding AllDigits next_token
next_token-digits unicode preceding c cs (d, ds) =
    rw (d, next_token, take_chars-digits (0 + utf8_len c) cs ds)
      (ap (λ p. number_round 0 c (p, cs, [])) (omega arith))

number_round-tokens :
    (unicode : Unicode) (f : ℕ) (input : Text) (c : ℕ) (cs : Text)
    → (number_round 0 c (byte_len (c ∷ cs), cs, []) >>= λ (t, pos, rest).
        tokenize_from unicode (suc f) input pos rest >>= λ ts. done (put unicode t ts))
      ≡ integer_of (c ∷ cs)
unfolding number_round tokenize_from
number_round-tokens unicode f input c cs =
    elim (Bool-cases (ltb (value_onto 0 (c ∷ cs)) (2 ^ 64))) [
      | inl t ↦ rw (t, number_round) refl
      | inr n ↦ rw (n, number_round) refl
    ]

-- A text of decimal digits, not empty, becomes the one integer token that spans it if its value is
-- below 2 ^ 64; if it is not, the tokenizer panics.
pub tokenize_digits :
    (unicode : Unicode) (c : ℕ) (cs : Text)
    → AllDigits (c ∷ cs)
    → tokenize unicode (c ∷ cs) ≡ integer_of (c ∷ cs)
unfolding AllDigits tokenize
tokenize_digits unicode c cs (d, ds) =
    rw (next_token-digits unicode (take (length (c ∷ cs) - length (c ∷ cs)) (c ∷ cs)) c cs (d, ds))
      (number_round-tokens unicode (length cs) (c ∷ cs) c cs)
