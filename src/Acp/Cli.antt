-- ===== src/Acp/Cli.antt =====
-- src/symposium-acp-proxy/src/main.rs and src/symposium-acp-agent/src/main.rs: the command lines.
-- clap has parsed them; elizacp and `AcpAgent::from_args` are parameters.
pub mod Chain
use symposium.Prelude.{
  Bool, true, false, List, [], ◌∷◌, ◌++◌, Option, none, some, Result, ok, err, any, if◌then◌else◌,
  ◌||◌,
}
use symposium.Prelude.Text.{Text, codes, text_eq}
use symposium.Ferris.Tools
use symposium.Ferris.Tools.{Ferris}
use symposium.Acp.Proxy
use symposium.Acp.Proxy.{SymposiumConfig, Outside, Act, serve_proxy, serve_agent}

-- `lower` is `to_lowercase`.
unfoldable pub parse_yes_no : (lower : Text → Text) → Text → Result Text Bool
parse_yes_no lower s =
    let t = lower s in
    if text_eq t (codes "yes") || text_eq t (codes "true") || text_eq t (codes "1")
    then ok true
    else if text_eq t (codes "no") || text_eq t (codes "false") || text_eq t (codes "0")
    then ok false
    else err (codes "expected 'yes' or 'no', got '" ++ s ++ codes "'")

unfoldable pub build_ferris_config : Bool → List Text → Option Ferris
unfolding Tools.new Tools.crate_sources Tools.rust_researcher
build_ferris_config enabled tools =
    let sources = any (λ t. text_eq t (codes "crate_source")) tools in
    let researcher = any (λ t. text_eq t (codes "rust_researcher")) tools in
    if enabled
    then some (Tools.rust_researcher researcher (Tools.crate_sources sources Tools.new))
    else none

-- The options that both programs have.
pub record Cli : Type 0 where
  pub sparkle : Bool
  pub ferris : Bool
  pub ferris_tools : List Text
  pub cargo : Bool
  pub trace_dir : Option Text

-- The `Symposium` that both `main`s build.
unfoldable pub configure : Cli → SymposiumConfig
unfolding Proxy.new Proxy.sparkle Proxy.ferris Proxy.cargo Proxy.trace_dir build_ferris_config
configure cli =
    let symposium = Proxy.cargo cli.cargo (
      Proxy.ferris (build_ferris_config cli.ferris cli.ferris_tools)
        (Proxy.sparkle cli.sparkle Proxy.new)) in
    elim cli.trace_dir [ some dir ↦ Proxy.trace_dir dir symposium | none ↦ symposium ]

-- `main` of symposium-acp-proxy
module _ {A : Type 0} (out : Outside A) where
  -- `main` of symposium-acp-proxy
  unfoldable pub proxy_main : Cli → Result Text (Unit {0}) × List (Act A)
  proxy_main cli = serve_proxy out (configure cli)

  -- `main` of symposium-acp-agent, with the subcommand `eliza` or without: `eliza` is what the
  -- Eliza agent's `serve` returns, and `from_args` makes the downstream agent of a command.
  unfoldable pub agent_main :
      (eliza : Result Text (Unit {0})) (from_args : List Text → Result Text A)
      → (is_eliza : Bool) (agent : List Text) → Cli
      → Result Text (Unit {0}) × List (Act A)
  agent_main eliza from_args true agent cli = (eliza, [])
  agent_main eliza from_args false [] cli =
      (err (codes "No agent command provided. Use -- <agent-command> or 'eliza' subcommand."), [])
  agent_main eliza from_args false (arg ∷ args) cli = elim (from_args (arg ∷ args)) [
    | err e ↦ (err e, [])
    | ok agent ↦ serve_agent out (configure cli) agent
  ]
