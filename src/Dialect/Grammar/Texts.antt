-- ===== src/Dialect/Grammar/Texts.antt =====
-- What `parse` makes of a text, from the tokenizer and the parser together.
use symposium.Prelude.{ℕ, true, false, List, [], ◌∷◌, ◌≡◌, ◌≢◌, ◌↔◌, refl}
use symposium.Prelude.Text.{Text}
use symposium.Dialect.Outcome.{Outcome, done, failed, panicked, out_of_fuel, ◌>>=◌}
use symposium.Dialect.Syntax.{Token, Ast, string}
use symposium.Dialect.Lexer.{Unicode, is_quote, byte_len, tokenize}
use symposium.Dialect.Lexer.Spans.{tokenize-ne-out_of_fuel}
use symposium.Dialect.Lexer.Strings.{quoted, tokenize-quoted}
use symposium.Dialect.Parser.{parse, parse_tokens}
use symposium.Dialect.Grammar.{Reads, r_string}
use symposium.Dialect.Grammar.Complete.{parse_tokens_iff, parse_tokens_total}

Outcome-bind-done {ℓ κ} :
    {A : Type ℓ} {B : Type κ} (r : Outcome A) (f : A → Outcome B) {b : B}
    → (r >>= f) ≡ done b
    → (a : A) × (r ≡ done a) × (f a ≡ done b)
Outcome-bind-done (done a) f h = (a, refl, h)
Outcome-bind-done (failed e) f h = cc
Outcome-bind-done panicked f h = cc
Outcome-bind-done out_of_fuel f h = cc

Outcome-bind-ne-out_of_fuel {ℓ κ} :
    {A : Type ℓ} {B : Type κ} (r : Outcome A) (f : A → Outcome B)
    → r ≢ out_of_fuel
    → ((a : A) → f a ≢ out_of_fuel)
    → (r >>= f) ≢ out_of_fuel
Outcome-bind-ne-out_of_fuel (done a) f h next = next a
Outcome-bind-ne-out_of_fuel (failed e) f h next = λ e. cc
Outcome-bind-ne-out_of_fuel panicked f h next = λ e. cc
Outcome-bind-ne-out_of_fuel out_of_fuel f h next = absurd (h refl)

module _ (unicode : Unicode) (input : Text) where
  -- `parse` returns the tree `v` exactly if the tokenizer returns tokens that the grammar reads, all
  -- of them, as `v`.
  pub parse_iff :
      (v : Ast)
      → (parse unicode input ≡ done v)
        ↔ ((ts : List Token) × (tokenize unicode input ≡ done ts) × Reads v ts [])
  unfolding parse
  parse_iff v = (
    λ h.
        let (ts, e, e') = Outcome-bind-done (tokenize unicode input) _ h in
        (ts, e, (parse_tokens_iff (byte_len input) ts v).0 e'),
    λ (ts, e, d). rw (e) ((parse_tokens_iff (byte_len input) ts v).1 d),
  )

  -- `parse` comes to an end on every text: with a tree, an error or a panic.
  pub parse-ne-out_of_fuel : parse unicode input ≢ out_of_fuel
  unfolding parse
  parse-ne-out_of_fuel =
      Outcome-bind-ne-out_of_fuel (tokenize unicode input) (parse_tokens (byte_len input))
        (tokenize-ne-out_of_fuel unicode input) (λ ts. (parse_tokens_total (byte_len input) ts).0)

-- A text between quotes, in which every quote of that kind and every backslash is escaped, parses
-- to the string literal of that text, if Unicode takes the quote for neither a letter nor a space.
pub parse-quoted :
    (unicode : Unicode) (quote : ℕ) (s : Text)
    → is_quote quote ≡ true
    → unicode.is_alphabetic quote ≡ false
    → unicode.is_whitespace quote ≡ false
    → parse unicode (quote ∷ quoted quote s) ≡ done (string s)
parse-quoted unicode quote s q a w =
    (parse_iff unicode (quote ∷ quoted quote s) (string s)).1
      (_, tokenize-quoted unicode quote s q a w, r_string)
