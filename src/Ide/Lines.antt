-- ===== src/Ide/Lines.antt =====
-- outdated/mcp-server/src/ide.rs, `Lines::execute`: a range of a file's lines. The file is read by
-- `read_to_string`. Where a subtraction of `usize` overflows, a build with `overflow_checks` panics, and
-- another wraps at 2 ^ 64.
pub mod Adjacent
use symposium.Prelude.{
  ℕ, ◌+◌, ◌-◌, ◌%◌, ◌^◌, Bool, ltb, ◌==◌, Option, some, none, List, [], ◌∷◌, ◌++◌, Result, ok, err,
  last, take, drop, length, if◌then◌else◌, ◌≡◌, refl, ap, ◌∙◌, sym, ◌↔◌, ◌⊎◌, arith, append_assoc,
}
use symposium.Prelude.Text.{Text, lines, join_with}
use symposium.Dialect.Lexer.{byte_len}
use symposium.Ide.Ranges.{FileLocation, FileRange}

pub record Lines : Type 0 where
  pub path : Text
  pub start : ℕ
  pub stop : ℕ  -- `end`

pub data Execution : Type 0 where
  returned : FileRange → Execution
  failed : Text → Execution
  panicked : Execution

-- `lines.last()` and its length
unfoldable pub last_column : List Text → ℕ
last_column ls = elim (last ls) [ some l ↦ byte_len l | none ↦ 0 ]

unfoldable pub range_of : Text → ℕ → ℕ → List Text → FileRange
unfolding last_column
range_of path start stop ls = record {
  path = path;
  start = record { line = start % 2 ^ 32; column = 1 };
  stop = record { line = stop % 2 ^ 32; column = last_column ls % 2 ^ 32 };
  content = some (join_with (10 ∷ []) ls);
}

-- `a - b + c` on `usize`
unfoldable pub sub_add : (overflow_checks : Bool) (a b c : ℕ) → Option ℕ
sub_add overflow_checks a b c =
    if overflow_checks
    then (if ltb a b then none else if ltb (a - b + c) (2 ^ 64) then some (a - b + c) else none)
    else some ((2 ^ 64 + a - b + c) % 2 ^ 64)

unfoldable pub execute :
    (overflow_checks : Bool) (read_to_string : Text → Result Text Text) → Lines → Execution
unfolding range_of sub_add
execute overflow_checks read_to_string l = elim (read_to_string l.path) [
  | err e ↦ failed e
  | ok content ↦ elim (sub_add overflow_checks l.start 1 0) [
    | none ↦ panicked
    | some skipped ↦ elim (sub_add overflow_checks l.stop l.start 1) [
      | none ↦ panicked
      | some count ↦
          returned (range_of l.path l.start l.stop (take count (drop skipped (lines content))))
    ]
  ]
]
