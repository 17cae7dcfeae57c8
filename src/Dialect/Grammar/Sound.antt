-- ===== src/Dialect/Grammar/Sound.antt =====
-- The parser accepts only what the grammar has, and its fuel is enough.
use symposium.Prelude.{
  ℕ, zero, suc, ◌+◌, ◌*◌, ◌<◌, Bool, true, false, List, [], ◌∷◌, ◌≡◌, refl, ap, subst,
  sym as sym_path, length, arith, if◌then◌else◌,
}
use symposium.Prelude.Text.{Text}
use symposium.Dialect.Outcome.{Outcome, Meets, met, error, Meets-bind, Meets-mono}
use symposium.Dialect.Syntax.{
  Symbol, lbracket, rbracket, lbrace, rbrace, lparen, rparen, comma, colon, ◌is◌, ident, integer,
  boolean, string, sym, Token, token, ParseError, Ast, Fields, empty, insert, call,
}
use symposium.Dialect.Parser.{
  peeks, tail, close, parse_key, parse_ast, parse_args, parse_fields, finish, parse_tokens, key_of,
  expect_colon, missing_at,
}
use symposium.Dialect.Grammar.{
  Key, key_string, key_ident, Reads, r_int, r_boolean, r_string, r_call, r_array, r_object,
  ReadsArgs, args_end, args_next, args_comma, ReadsFields, fields_end, fields_next, fields_comma,
  Reads-shorter,
}

is→eq : (d c : Symbol) → d is c ≡ true → d ≡ c
is→eq d c h = ground arith

-- A peek that succeeds shows the token.
peeks→eq :
    (c : Symbol) (ts : List Token)
    → peeks c ts ≡ true
    → (start : ℕ) × (stop : ℕ) × (ts ≡ token (sym c) start stop ∷ tail ts)
unfolding peeks
peeks→eq c [] h = cc
peeks→eq c (token (sym d) start stop ∷ ts) h = (start, stop, rw (is→eq d c h))
peeks→eq c (token kind start stop ∷ ts) h = cc

close-Meets :
    (e : ParseError) (ts : List Token) → Meets (λ us. (t : Token) × (ts ≡ t ∷ us)) (close e ts)
unfolding close
close-Meets e [] = error
close-Meets e (t ∷ ts) = met (t, refl)

key_of-Meets : (t : Token) → Meets (Key t) (key_of t)
unfolding key_of
key_of-Meets (token (string s) start stop) = met key_string
key_of-Meets (token (ident s) start stop) = met key_ident
key_of-Meets (token kind start stop) = error

expect_colon-Meets :
    (len : ℕ) (ts : List Token)
    → Meets
        (λ us. (start : ℕ) × (stop : ℕ) × (ts ≡ token (sym colon) start stop ∷ us))
        (expect_colon len ts)
unfolding expect_colon
expect_colon-Meets len [] = error
expect_colon-Meets len (token (sym colon) start stop ∷ ts) = met (start, stop, refl)
expect_colon-Meets len (token (sym lbracket) start stop ∷ ts) = error
expect_colon-Meets len (token kind start stop ∷ ts) = error

abbrev KeyRead : List Token → Text × List Token → Type 0
KeyRead ts (k, us) =
    (t : Token) × (start : ℕ) × (stop : ℕ) × (ts ≡ t ∷ token (sym colon) start stop ∷ us) × Key t k

parse_key-Meets :
    (missing len : ℕ) (ts : List Token) → Meets (KeyRead ts) (parse_key missing len ts)
unfolding parse_key
parse_key-Meets missing len [] = error
parse_key-Meets missing len (t ∷ ts) = Meets-bind (key_of-Meets t) λ k key.
    Meets-bind (expect_colon-Meets len ts) λ us (start, stop, e). met (t, start, stop, rw e, key)

Meets-if {ℓ κ} :
    {A : Type ℓ} {P : A → Type κ} (b : Bool) {x y : Outcome A}
    → (b ≡ true → Meets P x)
    → (b ≡ false → Meets P y)
    → Meets P (if b then x else y)
Meets-if true hx hy = hx refl
Meets-if false hx hy = hy refl

comma_read :
    {v : Ast} {ts : List Token} (us : List Token)
    → Reads v ts us
    → peeks comma us ≡ true
    → (start : ℕ) × (stop : ℕ) × Reads v ts (token (sym comma) start stop ∷ tail us)
comma_read {v} {ts} us d h =
    let (start, stop, e) = peeks→eq comma us h in (start, stop, subst (Reads v ts) e d)

mutual
  unfolding parse_ast

  parse_ast-Meets :
      (f len : ℕ) (ts : List Token)
      → 2 * length ts < f
      → Meets (λ (v, us). Reads v ts us) (parse_ast f len ts)
  parse_ast-Meets zero len ts h = absurd (omega arith)
  parse_ast-Meets (suc f) len [] h = error
  parse_ast-Meets (suc f) len (token (integer n) start stop ∷ ts) h = met r_int
  parse_ast-Meets (suc f) len (token (boolean b) start stop ∷ ts) h = met r_boolean
  parse_ast-Meets (suc f) len (token (string s) start stop ∷ ts) h = met r_string
  parse_ast-Meets (suc f) len (token (ident name) start stop ∷ ts) h =
      Meets-if (peeks lparen ts)
        (λ open_paren.
          let (start', stop', e) = peeks→eq lparen ts open_paren in
          Meets-bind (parse_args-Meets f rparen len (tail ts) (omega (arith, ap length e)))
            λ (args, us) d. Meets-bind (close-Meets _ us) λ vs (t, e'). met (
              subst (λ l. Reads (call name args) (token (ident name) start stop ∷ l) vs)
                (sym_path e) (r_call (subst (ReadsArgs rparen args (tail ts)) e' d))))
        (λ other. error)
  parse_ast-Meets (suc f) len (token (sym lbracket) start stop ∷ ts) h =
      Meets-bind (parse_args-Meets f rbracket len ts (omega arith)) λ (args, us) d.
        Meets-bind (close-Meets _ us)
          λ vs (t, e'). met (r_array (subst (ReadsArgs rbracket args ts) e' d))
  parse_ast-Meets (suc f) len (token (sym lbrace) start stop ∷ ts) h =
      Meets-bind (parse_fields-Meets f stop len empty ts (omega arith)) λ (map, us) d.
        Meets-bind (close-Meets _ us)
          λ vs (t, e'). met (r_object (subst (ReadsFields empty map ts) e' d))
  parse_ast-Meets (suc f) len (token kind start stop ∷ ts) h = error

  parse_args-Meets :
      (f : ℕ) (c : Symbol) (len : ℕ) (ts : List Token)
      → suc (2 * length ts) < f
      → Meets (λ (vs, us). ReadsArgs c vs ts us) (parse_args f c len ts)
  parse_args-Meets zero c len ts h = absurd (omega arith)
  parse_args-Meets (suc f) c len ts h =
      Meets-if (peeks c ts) (λ ends. met (args_end ends))
        λ goes_on. Meets-bind (parse_ast-Meets f len ts (omega arith)) λ (v, us) d.
          Meets-if (peeks comma us)
            (λ is_comma.
              let (start, stop, d') = comma_read us d is_comma in
              Meets-if (peeks c (tail us)) (λ ends. met (args_comma d' (args_end ends)))
                λ goes_on'.
                  Meets-bind (parse_args-Meets f c len (tail us) (omega (arith, Reads-shorter d')))
                    λ (vs, ws) ds. met (args_comma d' ds))
            (λ no_comma.
              Meets-bind (parse_args-Meets f c len us (omega (arith, Reads-shorter d)))
                λ (vs, ws) ds. met (args_next d ds))

  parse_fields-Meets :
      (f stop len : ℕ) (map : Fields) (ts : List Token)
      → suc (2 * length ts) < f
      → Meets (λ (map', us). ReadsFields map map' ts us) (parse_fields f stop len map ts)
  parse_fields-Meets zero stop len map ts h = absurd (omega arith)
  parse_fields-Meets (suc f) stop len map ts h =
      Meets-if (peeks rbrace ts) (λ ends. met (fields_end ends))
        λ goes_on.
          Meets-bind (parse_key-Meets (missing_at stop len map) len ts)
            λ (k, us) (t, start, stop', e, key).
              Meets-bind (parse_ast-Meets f len us (omega (arith, ap length e))) λ (v, vs) d.
                Meets-if (peeks comma vs)
                  (λ is_comma.
                    let (start₁, stop₁, d') = comma_read vs d is_comma in
                    let put =
                      λ (map' : Fields) (ws : List Token)
                          (ds : ReadsFields (insert k v map) map' (tail vs) ws).
                        subst (λ l. ReadsFields map map' l ws) (sym_path e)
                          (fields_comma key d' ds) in
                    Meets-if (peeks rbrace (tail vs)) (λ ends. met (put _ _ (fields_end ends)))
                      λ goes_on'.
                        Meets-mono
                          (parse_fields-Meets f stop len (insert k v map) (tail vs)
                            (omega (arith, ap length e, Reads-shorter d')))
                          λ (map', ws) ds. put map' ws ds)
                  (λ no_comma.
                    Meets-mono
                      (parse_fields-Meets f stop len (insert k v map) vs
                        (omega (arith, ap length e, Reads-shorter d)))
                      λ (map', ws) ds.
                        subst (λ l. ReadsFields map map' l ws) (sym_path e) (fields_next key d ds))

finish-Meets :
    (v : Ast) (ts us : List Token) → Reads v ts us → Meets (λ w. Reads w ts []) (finish v us)
unfolding finish
finish-Meets v ts [] d = met d
finish-Meets v ts (token kind start stop ∷ us) d = error

pub parse_tokens-Meets :
    (len : ℕ) (ts : List Token) → Meets (λ v. Reads v ts []) (parse_tokens len ts)
unfolding parse_tokens
parse_tokens-Meets len ts =
    Meets-bind (parse_ast-Meets (2 * length ts + 1) len ts (omega arith))
      λ (v, us) d. finish-Meets v ts us d
