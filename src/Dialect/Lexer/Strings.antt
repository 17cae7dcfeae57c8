-- ===== src/Dialect/Lexer/Strings.antt =====
-- What the tokenizer makes of a text between quotes.
use symposium.Prelude.{
  ℕ, ◌+◌, true, false, ◌||◌, [], ◌∷◌, some, ==_iff, ◌==◌, if◌then◌else◌, ◌≡◌, ◌≢◌, refl, sym, subst,
  arith, ap, Bool-cases, inl, inr,
}
use symposium.Prelude.Text.{Text}
use symposium.Prelude.Decimal.{is_digit}
use symposium.Dialect.Outcome.{done, ◌>>=◌}
use symposium.Dialect.Syntax.{token, string}
use symposium.Dialect.Lexer.{
  Unicode, utf8_len, byte_len, lex_string, push, unescape, is_quote, string_round, next_token,
  tokenize_from, tokenize,
}
use symposium.Dialect.Lexer.Spans.{utf8_len_ascii}

-- What follows the opening quote of `s`: its characters, the quote and the backslash after a
-- backslash each, and the closing quote.
unfoldable pub quoted : ℕ → Text → Text
quoted quote [] = quote ∷ []
quoted quote (c ∷ s) = if c == quote || c == 92 then 92 ∷ c ∷ quoted quote s else c ∷ quoted quote s

quoted-ne-[] : (quote : ℕ) (s : Text) → quoted quote s ≢ []
unfolding quoted
quoted-ne-[] quote [] = λ e. cc
quoted-ne-[] quote (c ∷ s) = elim (Bool-cases (c == quote || c == 92)) [
  | inl t ↦ rw (t, quoted) (λ e. cc)
  | inr n ↦ rw (n, quoted) (λ e. cc)
]

quoted-special :
    (quote c : ℕ) (s : Text)
    → (c == quote || c == 92) ≡ true
    → quoted quote (c ∷ s) ≡ 92 ∷ c ∷ quoted quote s
unfolding quoted
quoted-special quote c s t = rw (t, quoted) refl

quoted-plain :
    (quote c : ℕ) (s : Text)
    → (c == quote || c == 92) ≡ false
    → quoted quote (c ∷ s) ≡ c ∷ quoted quote s
unfolding quoted
quoted-plain quote c s n = rw (n, quoted) refl

unescape-special :
    (quote c : ℕ) → is_quote quote ≡ true → (c == quote || c == 92) ≡ true → unescape c ≡ some c
unfolding unescape
unescape-special quote c q t = ground arith

module _ (quote start : ℕ) where
  lex_string-plain :
      (pos c : ℕ) (cs : Text)
      → cs ≢ []
      → (c == quote) ≡ false
      → (c == 92) ≡ false
      → lex_string quote start pos (c ∷ cs)
        ≡ (lex_string quote start (pos + utf8_len c) cs >>= push c)
  unfolding lex_string
  lex_string-plain pos c [] ne h h' = absurd (ne refl)
  lex_string-plain pos c (d ∷ cs) ne h h' = rw (h, h', lex_string) refl

  lex_string-escaped :
      (pos c : ℕ) (cs : Text)
      → (92 == quote) ≡ false
      → unescape c ≡ some c
      → lex_string quote start pos (92 ∷ c ∷ cs)
        ≡ (lex_string quote start (pos + utf8_len 92 + utf8_len c) cs >>= push c)
  unfolding lex_string
  lex_string-escaped pos c cs h h' = rw (h, h', lex_string) refl

  -- The loop reads `s` and stops at its closing quote.
  Reads : ℕ → Text → Text → Type 0
  Reads pos cs s =
      (stop : ℕ) × (lex_string quote start pos cs ≡ done (stop, s, []))
      × (stop + 1 ≡ pos + byte_len cs)

  push-Reads :
      (pos pos' c : ℕ) (cs cs' s : Text)
      → Reads pos' cs' s
      → lex_string quote start pos cs ≡ (lex_string quote start pos' cs' >>= push c)
      → pos + byte_len cs ≡ pos' + byte_len cs'
      → Reads pos cs (c ∷ s)
  unfolding Reads push
  push-Reads pos pos' c cs cs' s (stop, h, e) step b = (stop, rw (step, h, push) refl, omega arith)

  closes-Reads : (pos : ℕ) → is_quote quote ≡ true → Reads pos (quote ∷ []) []
  unfolding Reads lex_string
  closes-Reads pos q =
      let same : (quote == quote) ≡ true = (==_iff quote quote).1 refl in
      (pos, rw (same, lex_string) refl, omega (arith, utf8_len_ascii quote (ground arith)))

  quoted-Reads : (s : Text) (pos : ℕ) → is_quote quote ≡ true → Reads pos (quoted quote s) s
  unfolding quoted
  quoted-Reads [] pos q = closes-Reads pos q
  quoted-Reads (c ∷ s) pos q = elim (Bool-cases (c == quote || c == 92)) [
    | inl t ↦
        subst (λ cs. Reads pos cs (c ∷ s)) (sym (quoted-special quote c s t))
          (push-Reads pos (pos + utf8_len 92 + utf8_len c) c (92 ∷ c ∷ quoted quote s)
            (quoted quote s) s (quoted-Reads s _ q)
            (lex_string-escaped pos c (quoted quote s) (ground arith)
              (unescape-special quote c q t))
            (omega arith))
    | inr n ↦
        subst (λ cs. Reads pos cs (c ∷ s)) (sym (quoted-plain quote c s n))
          (push-Reads pos (pos + utf8_len c) c (c ∷ quoted quote s) (quoted quote s) s
            (quoted-Reads s _ q)
            (lex_string-plain pos c (quoted quote s) (quoted-ne-[] quote s) (ground arith)
              (ground arith))
            (omega arith))
  ]

next_token-quoted :
    (unicode : Unicode) (preceding : Text) (quote : ℕ) (s : Text)
    → is_quote quote ≡ true
    → unicode.is_alphabetic quote ≡ false
    → unicode.is_whitespace quote ≡ false
    → next_token unicode preceding 0 quote (quoted quote s)
      ≡ done (
        some (token (string s) 0 (byte_len (quote ∷ quoted quote s))),
        byte_len (quote ∷ quoted quote s),
        [],
      )
unfolding next_token string_round Reads
next_token-quoted unicode preceding quote s q a w =
    let (stop, reads, ends) = quoted-Reads quote 0 s (0 + utf8_len quote) q in
    let d : is_digit quote ≡ false = ground arith in
    rw (d, a, w, q, next_token, reads)
      (ap (λ e. done (some (token (string s) 0 e), e, [])) (omega (arith, ends)))

-- A text between quotes, in which every quote of that kind and every backslash is escaped, becomes
-- the one string token that spans it, with that text for content, if Unicode takes the quote for
-- neither a letter nor a space.
pub tokenize-quoted :
    (unicode : Unicode) (quote : ℕ) (s : Text)
    → is_quote quote ≡ true
    → unicode.is_alphabetic quote ≡ false
    → unicode.is_whitespace quote ≡ false
    → tokenize unicode (quote ∷ quoted quote s)
      ≡ done (token (string s) 0 (byte_len (quote ∷ quoted quote s)) ∷ [])
unfolding tokenize tokenize_from
tokenize-quoted unicode quote s q a w = rw (next_token-quoted unicode _ quote s q a w) refl
