-- ===== src/Dialect/Grammar/Complete.antt =====
-- The parser accepts all that the grammar has.
use symposium.Prelude.{
  ℕ, zero, suc, ◌+◌, ◌*◌, ◌<◌, true, false, List, [], ◌∷◌, ◌≡◌, refl, ◌↔◌, ◌≢◌, length, arith,
  Bool-cases, inl, inr, ◌⊎◌,
}
use symposium.Prelude.Text.{Text}
use symposium.Dialect.Outcome.{
  done, out_of_fuel, panicked, Meets-done, Meets-ne-out_of_fuel, Meets-ne-panicked,
}
use symposium.Dialect.Syntax.{
  Symbol, rbracket, rbrace, rparen, comma, colon, sym, Token, token, Ast, Args, Fields, nil,
}
use symposium.Dialect.Parser.{
  peeks, close, parse_key, parse_ast, parse_args, parse_fields, parse_tokens, missing_at,
}
use symposium.Dialect.Grammar.{
  Key, key_string, key_ident, Reads, r_int, r_boolean, r_string, r_call, r_array, r_object,
  ReadsArgs, args_end, args_next, args_comma, ReadsFields, fields_end, fields_next, fields_comma,
  Reads-shorter,
}
use symposium.Dialect.Grammar.Sound.{parse_tokens-Meets}

-- A symbol with which no value begins.
abbrev Ends : Symbol → Type 0
Ends c = (c ≡ rparen) ⊎ (c ≡ rbracket) ⊎ (c ≡ rbrace) ⊎ (c ≡ comma)

peeks-Reads :
    {v : Ast} {ts us : List Token} (c : Symbol) → Ends c → Reads v ts us → peeks c ts ≡ false
unfolding peeks
peeks-Reads c h r_int = refl
peeks-Reads c h r_boolean = refl
peeks-Reads c h r_string = refl
peeks-Reads c h (r_call d) = refl
peeks-Reads c h (r_array d) = ground arith
peeks-Reads c h (r_object d) = ground arith

-- Behind a value there is a comma only where a comma stands.
peeks-one : (c : Symbol) (ts : List Token) → peeks c ts ≡ true → c ≢ comma → peeks comma ts ≡ false
unfolding peeks
peeks-one c [] h n = refl
peeks-one c (token (sym d) start stop ∷ ts) h n = ground arith
peeks-one c (token kind start stop ∷ ts) h n = refl

peeks_comma-ReadsArgs :
    {vs : Args} {ts us : List Token} (c : Symbol)
    → Ends c
    → c ≢ comma
    → ReadsArgs c vs ts us
    → peeks comma ts ≡ false
peeks_comma-ReadsArgs c h n (args_end e) = peeks-one c _ e n
peeks_comma-ReadsArgs c h n (args_next d ds) = peeks-Reads comma (inr (inr (inr refl))) d
peeks_comma-ReadsArgs c h n (args_comma d ds) = peeks-Reads comma (inr (inr (inr refl))) d

peeks_comma-ReadsFields :
    {acc map : Fields} {ts us : List Token} → ReadsFields acc map ts us → peeks comma ts ≡ false
unfolding peeks
peeks_comma-ReadsFields (fields_end e) = peeks-one rbrace _ e (λ x. cc)
peeks_comma-ReadsFields (fields_next key_string d ds) = refl
peeks_comma-ReadsFields (fields_next key_ident d ds) = refl
peeks_comma-ReadsFields (fields_comma key_string d ds) = refl
peeks_comma-ReadsFields (fields_comma key_ident d ds) = refl

-- At the closing symbol the loop is over.
args_over :
    {c : Symbol} {vs : Args} {ts us : List Token}
    → Ends c
    → ReadsArgs c vs ts us
    → peeks c ts ≡ true
    → (vs ≡ nil) × (us ≡ ts)
args_over h (args_end e) p = (refl, refl)
args_over h (args_next d ds) p = cc (peeks-Reads _ h d)
args_over h (args_comma d ds) p = cc (peeks-Reads _ h d)

peeks_brace-Key : {t : Token} {k : Text} (ts : List Token) → Key t k → peeks rbrace (t ∷ ts) ≡ false
unfolding peeks
peeks_brace-Key ts key_string = refl
peeks_brace-Key ts key_ident = refl

fields_over :
    {acc map : Fields} {ts us : List Token}
    → ReadsFields acc map ts us
    → peeks rbrace ts ≡ true
    → (map ≡ acc) × (us ≡ ts)
fields_over (fields_end e) p = (refl, refl)
fields_over (fields_next k d ds) p = cc (peeks_brace-Key _ k)
fields_over (fields_comma k d ds) p = cc (peeks_brace-Key _ k)

parse_key-Key :
    {t : Token} {k : Text} (missing len start stop : ℕ) (us : List Token)
    → Key t k
    → parse_key missing len (t ∷ token (sym colon) start stop ∷ us) ≡ done (k, us)
unfolding parse_key
parse_key-Key missing len start stop us key_string = refl
parse_key-Key missing len start stop us key_ident = refl

mutual
  unfolding parse_ast close peeks

  parse_ast_complete :
      {v : Ast} {ts us : List Token} (f len : ℕ)
      → Reads v ts us
      → 2 * length ts < f
      → parse_ast f len ts ≡ done (v, us)
  parse_ast_complete zero len d h = absurd (omega arith)
  parse_ast_complete (suc f) len r_int h = refl
  parse_ast_complete (suc f) len r_boolean h = refl
  parse_ast_complete (suc f) len r_string h = refl
  parse_ast_complete (suc f) len (r_call d) h =
      rw (parse_args_complete f rparen len (inl refl) (λ e. cc) d (omega arith))
  parse_ast_complete (suc f) len (r_array d) h =
      rw (parse_args_complete f rbracket len (inr (inl refl)) (λ e. cc) d (omega arith))
  parse_ast_complete (suc f) len (r_object {stop = stop} d) h =
      rw (parse_fields_complete f stop len d (omega arith))

  parse_args_complete :
      {vs : Args} {ts us : List Token} (f : ℕ) (c : Symbol) (len : ℕ)
      → Ends c
      → c ≢ comma
      → ReadsArgs c vs ts us
      → suc (2 * length ts) < f
      → parse_args f c len ts ≡ done (vs, us)
  parse_args_complete zero c len ends n d h = absurd (omega arith)
  parse_args_complete (suc f) c len ends n (args_end e) h = rw e
  parse_args_complete (suc f) c len ends n (args_next d ds) h = rw (
    peeks-Reads c ends d,
    parse_ast_complete f len d (omega arith),
    peeks_comma-ReadsArgs c ends n ds,
    parse_args_complete f c len ends n ds (omega (arith, Reads-shorter d)),
  )
  parse_args_complete (suc f) c len ends n (args_comma {us = us} d ds) h =
      rw (peeks-Reads c ends d, parse_ast_complete f len d (omega arith))
        (elim (Bool-cases (peeks c us)) [
          | inl over ↦ let (e, e') = args_over ends ds over in rw (over, e, e')
          | inr more ↦
              rw (more, parse_args_complete f c len ends n ds (omega (arith, Reads-shorter d)))
        ])

  parse_fields_complete :
      {acc map : Fields} {ts us : List Token} (f stop len : ℕ)
      → ReadsFields acc map ts us
      → suc (2 * length ts) < f
      → parse_fields f stop len acc ts ≡ done (map, us)
  parse_fields_complete zero stop len d h = absurd (omega arith)
  parse_fields_complete (suc f) stop len (fields_end e) h = rw e
  parse_fields_complete (suc f) stop len
        (fields_next {acc = acc} {start = a} {stop = b} {ts = ts} key d ds) h =
      rw (
        peeks_brace-Key (token (sym colon) a b ∷ ts) key,
        parse_key-Key (missing_at stop len acc) len a b ts key,
        parse_ast_complete f len d (omega arith),
        peeks_comma-ReadsFields ds,
        parse_fields_complete f stop len ds (omega (arith, Reads-shorter d)),
      )
  parse_fields_complete (suc f) stop len
        (fields_comma {acc = acc} {start = a} {stop = b} {ts = ts} {us = us} key d ds) h =
      rw
        (
          peeks_brace-Key (token (sym colon) a b ∷ ts) key,
          parse_key-Key (missing_at stop len acc) len a b ts key,
          parse_ast_complete f len d (omega arith),
        )
        (elim (Bool-cases (peeks rbrace us)) [
          | inl over ↦ let (e, e') = fields_over ds over in rw (over, e, e')
          | inr more ↦
              rw (more, parse_fields_complete f stop len ds (omega (arith, Reads-shorter d)))
        ])

-- On any list of tokens the parser returns the tree `v` exactly if the relation `Reads` reads the whole
-- list as `v`. In it a comma between elements is optional, also where the documented grammar demands
-- one, and there is no null and no undefined.
pub parse_tokens_iff :
    (len : ℕ) (ts : List Token) (v : Ast) → (parse_tokens len ts ≡ done v) ↔ Reads v ts []
unfolding parse_tokens
parse_tokens_iff len ts v = (
  Meets-done (parse_tokens-Meets len ts),
  λ d. rw (parse_ast_complete (2 * length ts + 1) len d (omega arith)),
)

-- On every list of tokens the fuel of the parser is enough, and the parser does not panic: it
-- returns a tree or an error.
pub parse_tokens_total :
    (len : ℕ) (ts : List Token)
    → (parse_tokens len ts ≢ out_of_fuel) × (parse_tokens len ts ≢ panicked)
parse_tokens_total len ts = (
  Meets-ne-out_of_fuel (parse_tokens-Meets len ts),
  Meets-ne-panicked (parse_tokens-Meets len ts),
)
