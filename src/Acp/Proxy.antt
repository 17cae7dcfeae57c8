-- ===== src/Acp/Proxy.antt =====
-- src/symposium-acp-proxy/src/lib.rs: the configuration, and how `serve` builds the chain and runs
-- the conductor. sacp-conductor, the file system and the clock are parameters.
pub mod Modes
use symposium.Prelude.{
  Bool, true, List, [], ◌∷◌, ◌++◌, Option, none, some, Result, ok, err, if◌then◌else◌,
}
use symposium.Prelude.Text.{Text, codes, join}
use symposium.Ferris.Tools
use symposium.Ferris.Tools.{Ferris}

pub record SymposiumConfig : Type 0 where
  pub ferris : Option Ferris
  pub cargo : Bool
  pub sparkle : Bool
  pub trace_dir : Option Text

-- `Symposium::new`
unfoldable pub new : SymposiumConfig
unfolding Tools.new
new = record { sparkle = true; ferris = some Tools.new; cargo = true; trace_dir = none }

unfoldable pub sparkle : Bool → SymposiumConfig → SymposiumConfig
sparkle enable c = record c { sparkle = enable }

unfoldable pub ferris : Option Ferris → SymposiumConfig → SymposiumConfig
ferris config c = record c { ferris = config }

unfoldable pub cargo : Bool → SymposiumConfig → SymposiumConfig
cargo enable c = record c { cargo = enable }

unfoldable pub trace_dir : Text → SymposiumConfig → SymposiumConfig
trace_dir dir c = record c { trace_dir = some dir }

-- The proxies that the closures push.
pub data DynComponent : Type 0 where
  ferris_component : Ferris → DynComponent
  cargo_proxy sparkle_component : DynComponent

-- A conductor before `run`: in which mode it was made, with which chain, and where it traces.
-- `A` is the downstream agent.
pub data Mode (A : Type 0) : Type 0 where
  proxy_mode : Mode A
  agent_mode : A → Mode A

pub record Conductor (A : Type 0) : Type 0 where
  pub mode : Mode A
  pub proxies : List DynComponent
  pub trace_path : Option Text

-- What `serve` does outside, in order.
pub data Act (A : Type 0) : Type 0 where
  create_dir_all : Text → Act A
  trace_to_path : Text → Act A
  run : Conductor A → Act A

-- What those calls return, and the time stamp.
pub record Outside (A : Type 0) : Type 0 where
  pub create_dir_all : Text → Result Text (Unit {0})
  pub trace_to_path : Text → Result Text (Unit {0})
  pub run : Conductor A → Result Text (Unit {0})
  pub timestamp : Text

module _ {A : Type 0} (out : Outside A) where
  -- `impl Component for Symposium`
  unfoldable pub serve_proxy : SymposiumConfig → Result Text (Unit {0}) × List (Act A)
  serve_proxy config =
      let with_ferris : List DynComponent = elim config.ferris [
        | some f ↦ ferris_component f ∷ []
        | none ↦ []
      ] in
      let with_cargo = with_ferris ++ (if config.cargo then cargo_proxy ∷ [] else []) in
      let proxies = with_cargo ++ (if config.sparkle then sparkle_component ∷ [] else []) in
      let conductor : Conductor A = record {
        mode = proxy_mode;
        proxies = proxies;
        trace_path = none;
      } in
      elim config.trace_dir [
        | none ↦ (out.run conductor, run conductor ∷ [])
        | some dir ↦ elim (out.create_dir_all dir) [
          | err e ↦ (err e, create_dir_all dir ∷ [])
          | ok done ↦
              let path = join dir (out.timestamp ++ codes ".jsons") in
              elim (out.trace_to_path path) [
                | err e ↦ (err e, create_dir_all dir ∷ trace_to_path path ∷ [])
                | ok done ↦
                    let traced = record conductor { trace_path = some path } in
                    (out.run traced, create_dir_all dir ∷ trace_to_path path ∷ run traced ∷ [])
              ]
        ]
      ]

  -- `impl Component for SymposiumAgent`
  unfoldable pub serve_agent : SymposiumConfig → A → Result Text (Unit {0}) × List (Act A)
  serve_agent config agent =
      let with_ferris : List DynComponent = elim config.ferris [
        | some f ↦ ferris_component f ∷ []
        | none ↦ []
      ] in
      let with_cargo = with_ferris ++ (if config.cargo then cargo_proxy ∷ [] else []) in
      let proxies = with_cargo ++ (if config.sparkle then sparkle_component ∷ [] else []) in
      let conductor : Conductor A = record {
        mode = agent_mode agent;
        proxies = proxies;
        trace_path = none;
      } in
      elim config.trace_dir [
        | none ↦ (out.run conductor, run conductor ∷ [])
        | some dir ↦ elim (out.create_dir_all dir) [
          | err e ↦ (err e, create_dir_all dir ∷ [])
          | ok done ↦
              let path = join dir (out.timestamp ++ codes ".jsons") in
              elim (out.trace_to_path path) [
                | err e ↦ (err e, create_dir_all dir ∷ trace_to_path path ∷ [])
                | ok done ↦
                    let traced = record conductor { trace_path = some path } in
                    (out.run traced, create_dir_all dir ∷ trace_to_path path ∷ run traced ∷ [])
              ]
        ]
      ]
