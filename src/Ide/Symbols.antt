-- ===== src/Ide/Symbols.antt =====
-- outdated/mcp-server/src/ide.rs, `Symbols::resolve`, `FindDefinitions` and `FindReferences`. The
-- interpreter is `U`, with the calls of its user data.
pub mod References
use symposium.Prelude.{List, [], ◌∷◌, ◌++◌, Result, ok, err, and_then, map}
use symposium.Prelude.Text.{Text}
use symposium.Ide.Ranges.{FileRange, SymbolDef, SymbolRef}

-- `Vec<Symbols>` is `SymbolsList`.
mutual
  pub data Symbols : Type 0 where
    name : Text → Symbols
    array : SymbolsList → Symbols
    symbol_def : SymbolDef → Symbols

  pub data SymbolsList : Type 0 where
    nil : SymbolsList
    cons : Symbols → SymbolsList → SymbolsList

pub record IpcClient (U : Type 0) : Type 0 where
  pub resolve_symbol_by_name : Text → U → Result Text (List SymbolDef) × U
  pub find_all_references : SymbolDef → U → Result Text (List FileRange) × U

module _ {U : Type 0} (ipc : IpcClient U) where
  unfoldable mutual
    pub resolve : Symbols → U → Result Text (List SymbolDef) × U
    resolve (name n) u = ipc.resolve_symbol_by_name n u
    resolve (array symbols) u = resolve_list symbols u
    resolve (symbol_def d) u = (ok (d ∷ []), u)

    pub resolve_list : SymbolsList → U → Result Text (List SymbolDef) × U
    resolve_list nil u = (ok [], u)
    resolve_list (cons s ss) u =
        and_then (resolve s u)
          λ found v. and_then (resolve_list ss v) λ more w. (ok (found ++ more), w)

  -- The loop of `FindReferences`.
  unfoldable pub references_to : List SymbolDef → U → Result Text (List SymbolRef) × U
  references_to [] u = (ok [], u)
  references_to (d ∷ ds) u = and_then (ipc.find_all_references d u) λ locations v.
      and_then (references_to ds v) λ more w.
        (ok (map (λ loc. record { definition = d; referenced_at = loc }) locations ++ more), w)

  unfoldable pub find_definitions : Symbols → U → Result Text (List SymbolDef) × U
  unfolding resolve
  find_definitions of u = resolve of u

  unfoldable pub find_references : Symbols → U → Result Text (List SymbolRef) × U
  unfolding resolve references_to
  find_references to u = and_then (resolve to u) references_to
