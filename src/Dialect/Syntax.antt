-- ===== src/Dialect/Syntax.antt =====
-- outdated/mcp-server/src/dialect/parser.rs: errors, syntax trees and tokens.
use symposium.Prelude.{ℕ, Bool, true, false, [], ◌∷◌, if◌then◌else◌, ltb, ◌==◌}
use symposium.Prelude.Text.{Text, text_eq}

-- The characters that the tokenizer makes into `TokenKind::Sym`.
pub data Symbol : Type 0 where
  lbracket rbracket lbrace rbrace lparen rparen comma colon : Symbol

infix 50 ◌is◌
abbrev pub ◌is◌ : Symbol → Symbol → Bool
lbracket is lbracket = true
rbracket is rbracket = true
lbrace is lbrace = true
rbrace is rbrace = true
lparen is lparen = true
rparen is rparen = true
comma is comma = true
colon is colon = true
_ is _ = false

pub data TokenKind : Type 0 where
  ident : Text → TokenKind
  integer : ℕ → TokenKind
  boolean : Bool → TokenKind
  string : Text → TokenKind
  sym : Symbol → TokenKind
  eof : TokenKind

-- `Token { kind, start, end }`, with positions in bytes.
pub data Token : Type 0 where
  token : (kind : TokenKind) (start stop : ℕ) → Token

pub data ParseError : Type 0 where
  unexpected_eof : (position : ℕ) → ParseError
  unexpected_token : (kind : TokenKind) (position : ℕ) → ParseError
  unexpected_ident : (position : ℕ) → ParseError
  expected_close_paren : (position : ℕ) → ParseError
  expected_close_bracket : (position : ℕ) → ParseError
  expected_close_brace : (position : ℕ) → ParseError
  expected_colon : (position : ℕ) → ParseError
  expected_string_or_ident : (position : ℕ) → ParseError
  unterminated_string : (position : ℕ) → ParseError
  invalid_escape : (char position : ℕ) → ParseError
  unterminated_escape : (position : ℕ) → ParseError
  unexpected_char : (char : ℕ) (preceding : Text) (position : ℕ) → ParseError

-- `Args` is `Vec<Ast>`, and `Fields` is `BTreeMap<String, Ast>`, its keys in increasing order.
mutual
  pub data Ast : Type 0 where
    call : Text → Args → Ast
    int : ℕ → Ast
    string : Text → Ast
    boolean : Bool → Ast
    array : Args → Ast
    object : Fields → Ast

  pub data Args : Type 0 where
    nil : Args
    cons : Ast → Args → Args

  pub data Fields : Type 0 where
    empty : Fields
    field : Text → Ast → Fields → Fields

-- `<` on texts
unfoldable pub text_lt : Text → Text → Bool
text_lt [] [] = false
text_lt [] (d ∷ t) = true
text_lt (c ∷ s) [] = false
text_lt (c ∷ s) (d ∷ t) = if c == d then text_lt s t else ltb c d

-- `BTreeMap::insert`
unfoldable pub insert : Text → Ast → Fields → Fields
unfolding text_lt
insert k v empty = field k v empty
insert k v (field j w fs) =
    if text_eq k j
    then field k v fs
    else if text_lt k j
    then field k v (field j w fs)
    else field j w (insert k v fs)
