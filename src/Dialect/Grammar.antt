-- ===== src/Dialect/Grammar.antt =====
-- A grammar of the dialect on tokens, as the code has it, independent of the parser: commas between
-- elements are optional, and one may stand behind the last element. The documented grammar,
-- outdated/md/design/dialect-language.md, differs: it demands the commas, and has null and undefined.
pub mod Sound
pub mod Complete
pub mod Texts
use symposium.Prelude.{
  ℕ, suc, ◌+◌, ◌≤◌, ◌<◌, Bool, true, false, List, [], ◌∷◌, ◌≡◌, ◌⊎◌, length, arith,
}
use symposium.Prelude.Text.{Text}
use symposium.Dialect.Syntax.{
  Symbol, rbracket, rbrace, lparen, rparen, comma, colon, lbracket, lbrace, TokenKind, ident,
  integer, boolean, string, sym, Token, token, Ast, Args, Fields, nil, cons, empty, call, int,
  array, object, insert,
}
use symposium.Dialect.Parser.{peeks}

pub data Key : Token → Text → Type 0 where
  key_string : {s : Text} {start stop : ℕ} → Key (token (string s) start stop) s
  key_ident : {s : Text} {start stop : ℕ} → Key (token (ident s) start stop) s

mutual
  -- `ts` begins with `v`, and goes on with `us`.
  pub data Reads : Ast → List Token → List Token → Type 0 where
    r_int :
        {n start stop : ℕ} {ts : List Token} → Reads (int n) (token (integer n) start stop ∷ ts) ts
    r_boolean :
        {b : Bool} {start stop : ℕ} {ts : List Token}
        → Reads (boolean b) (token (boolean b) start stop ∷ ts) ts
    r_string :
        {s : Text} {start stop : ℕ} {ts : List Token}
        → Reads (string s) (token (string s) start stop ∷ ts) ts
    r_call :
        {name : Text} {start stop start' stop' : ℕ} {args : Args} {t : Token} {ts us : List Token}
        → ReadsArgs rparen args ts (t ∷ us)
        → Reads
            (call name args)
            (token (ident name) start stop ∷ token (sym lparen) start' stop' ∷ ts)
            us
    r_array :
        {start stop : ℕ} {args : Args} {t : Token} {ts us : List Token}
        → ReadsArgs rbracket args ts (t ∷ us)
        → Reads (array args) (token (sym lbracket) start stop ∷ ts) us
    r_object :
        {start stop : ℕ} {map : Fields} {t : Token} {ts us : List Token}
        → ReadsFields empty map ts (t ∷ us)
        → Reads (object map) (token (sym lbrace) start stop ∷ ts) us

  -- `ts` begins with elements up to the closing symbol `c`, with which `us` begins.
  pub data ReadsArgs : Symbol → Args → List Token → List Token → Type 0 where
    args_end : {c : Symbol} {us : List Token} → peeks c us ≡ true → ReadsArgs c nil us us
    args_next :
        {c : Symbol} {v : Ast} {vs : Args} {ts us ws : List Token}
        → Reads v ts us
        → ReadsArgs c vs us ws
        → ReadsArgs c (cons v vs) ts ws
    args_comma :
        {c : Symbol} {v : Ast} {vs : Args} {start stop : ℕ} {ts us ws : List Token}
        → Reads v ts (token (sym comma) start stop ∷ us)
        → ReadsArgs c vs us ws
        → ReadsArgs c (cons v vs) ts ws

  -- `ts` begins with fields up to a closing brace, with which `us` begins. Put into the map `acc`
  -- one after the other they give `map`: the last field of a key counts.
  pub data ReadsFields : Fields → Fields → List Token → List Token → Type 0 where
    fields_end :
        {map : Fields} {us : List Token} → peeks rbrace us ≡ true → ReadsFields map map us us
    fields_next :
        {acc map : Fields} {t : Token} {k : Text} {v : Ast} {start stop : ℕ} {ts us ws : List Token}
        → Key t k
        → Reads v ts us
        → ReadsFields (insert k v acc) map us ws
        → ReadsFields acc map (t ∷ token (sym colon) start stop ∷ ts) ws
    fields_comma :
        {acc map : Fields} {t : Token} {k : Text} {v : Ast} {start stop start' stop' : ℕ}
        {ts us ws : List Token}
        → Key t k
        → Reads v ts (token (sym comma) start' stop' ∷ us)
        → ReadsFields (insert k v acc) map us ws
        → ReadsFields acc map (t ∷ token (sym colon) start stop ∷ ts) ws

-- What a derivation leaves is no longer than what it is given, and shorter for one value.
mutual
  pub Reads-shorter : {v : Ast} {ts us : List Token} → Reads v ts us → length us < length ts
  Reads-shorter r_int = omega arith
  Reads-shorter r_boolean = omega arith
  Reads-shorter r_string = omega arith
  Reads-shorter (r_call d) = omega (arith, ReadsArgs-shorter d)
  Reads-shorter (r_array d) = omega (arith, ReadsArgs-shorter d)
  Reads-shorter (r_object d) = omega (arith, ReadsFields-shorter d)

  pub ReadsArgs-shorter :
      {c : Symbol} {vs : Args} {ts us : List Token} → ReadsArgs c vs ts us → length us ≤ length ts
  ReadsArgs-shorter (args_end h) = omega arith
  ReadsArgs-shorter (args_next d ds) = omega (arith, Reads-shorter d, ReadsArgs-shorter ds)
  ReadsArgs-shorter (args_comma d ds) = omega (arith, Reads-shorter d, ReadsArgs-shorter ds)

  pub ReadsFields-shorter :
      {acc map : Fields} {ts us : List Token} → ReadsFields acc map ts us → length us ≤ length ts
  ReadsFields-shorter (fields_end h) = omega arith
  ReadsFields-shorter (fields_next k d ds) = omega (arith, Reads-shorter d, ReadsFields-shorter ds)
  ReadsFields-shorter (fields_comma k d ds) = omega (arith, Reads-shorter d, ReadsFields-shorter ds)
