-- ===== src/Acp/Proxy/Modes.antt =====
-- What `serve` runs, and that its two copies, for proxies and for agents, agree.
use symposium.Prelude.{
  List, [], ◌∷◌, ◌++◌, Option, none, some, Result, ok, err, ◌≡◌, ◌⊎◌, if◌then◌else◌,
}
use symposium.Prelude.Text.{Text, codes, join}
use symposium.Ferris.Tools.{Ferris}
use symposium.Acp.Proxy.{
  SymposiumConfig, DynComponent, ferris_component, cargo_proxy, sparkle_component, Mode, Conductor,
  Act, create_dir_all, trace_to_path, run, Outside,
}

module _ {A : Type 0} where
  -- The conductors that were run.
  abbrev pub runs : List (Act A) → List (Conductor A)
  runs [] = []
  runs (create_dir_all dir ∷ acts) = runs acts
  runs (trace_to_path path ∷ acts) = runs acts
  runs (run c ∷ acts) = c ∷ runs acts

-- The entries that there are.
abbrev pub chosen : List (Option DynComponent) → List DynComponent
chosen [] = []
chosen (none ∷ os) = chosen os
chosen (some c ∷ os) = c ∷ chosen os

abbrev pub map_option : (Ferris → DynComponent) → Option Ferris → Option DynComponent
map_option f none = none
map_option f (some x) = some (f x)

-- Ferris, cargo and Sparkle, in this order, each if it is configured.
abbrev pub chain : SymposiumConfig → List DynComponent
chain config = chosen (
    map_option ferris_component config.ferris
    ∷ (if config.cargo then some cargo_proxy else none)
    ∷ (if config.sparkle then some sparkle_component else none)
    ∷ [])

module _ {A : Type 0} (out : Outside A) where
  -- Where the traces of a run go: `<timestamp>.jsons` in the configured directory.
  abbrev pub trace_path_of : Option Text → Option Text
  trace_path_of none = none
  trace_path_of (some dir) = some (join dir (out.timestamp ++ codes ".jsons"))

  abbrev pub trace_file : Text → Text
  trace_file dir = join dir (out.timestamp ++ codes ".jsons")

  -- The conductor in mode `m`, with the configured chain and traces.
  abbrev pub conductor_of : Mode A → SymposiumConfig → Conductor A
  conductor_of m config = record {
    mode = m;
    proxies = chain config;
    trace_path = trace_path_of config.trace_dir;
  }

  -- What is done before a conductor runs, and has succeeded.
  abbrev pub Prepared : Option Text → List (Act A) → Type 0
  Prepared none acts = acts ≡ []
  Prepared (some dir) acts =
      (acts ≡ create_dir_all dir ∷ trace_to_path (trace_file dir) ∷ [])
      × (out.create_dir_all dir ≡ ok tt)
      × (out.trace_to_path (trace_file dir) ≡ ok tt)

  -- A `serve` in mode `m` makes the directory for traces and fails, or opens the file for traces and
  -- fails, or it runs the conductor, with everything for the configured traces prepared.
  abbrev pub Outcome : Mode A → SymposiumConfig → Result Text (Unit {0}) × List (Act A) → Type 0
  Outcome m config (result, acts) =
      ((dir : Text) × (e : Text) × (config.trace_dir ≡ some dir)
        × (out.create_dir_all dir ≡ err e)
        × (result ≡ err e)
        × (acts ≡ create_dir_all dir ∷ []))
      ⊎ ((dir : Text) × (e : Text) × (config.trace_dir ≡ some dir)
          × (out.create_dir_all dir ≡ ok tt)
          × (out.trace_to_path (trace_file dir) ≡ err e)
          × (result ≡ err e)
          × (acts ≡ create_dir_all dir ∷ trace_to_path (trace_file dir) ∷ []))
      ⊎ ((prepared : List (Act A)) × Prepared config.trace_dir prepared
          × (acts ≡ prepared ++ run (conductor_of m config) ∷ [])
          × (result ≡ out.run (conductor_of m config)))
