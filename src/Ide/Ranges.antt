-- ===== src/Ide/Ranges.antt =====
-- outdated/mcp-server/src/ide.rs: places in files, and symbols. Numbers are `u32`.
use symposium.Prelude.{ℕ, Option}
use symposium.Prelude.Text.{Text}

pub record FileLocation : Type 0 where
  pub line : ℕ
  pub column : ℕ

pub record FileRange : Type 0 where
  pub path : Text
  pub start : FileLocation
  pub stop : FileLocation  -- `end`
  pub content : Option Text

pub record SymbolDef : Type 0 where
  pub name : Text
  pub kind : Option Text
  pub defined_at : FileRange

pub record SymbolRef : Type 0 where
  pub definition : SymbolDef
  pub referenced_at : FileRange
