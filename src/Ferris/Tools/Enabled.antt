-- ===== src/Ferris/Tools/Enabled.antt =====
-- The tools that the Ferris server enables.
use symposium.Prelude.{Bool, true, false, Option, some, ◌≡◌, if◌then◌else◌, ◌∙◌}
use symposium.Prelude.Text.{Text, codes, text_eq}
use symposium.Ferris.Tools.{
  Ferris, McpServerBuilder, crate_sources_tool, rust_researcher_tool, register_crate_sources,
  register_rust_researcher, into_mcp_server,
}

-- What sacp's builder promises: `is_on` is whether it offers a tool of a name. A tool that was
-- just added can be enabled or disabled, and that leaves the other tools as they were.
pub record Switches {B : Type 0} (m : McpServerBuilder B) (is_on : B → Text → Bool) : Type 0 where
  pub enabled :
      (name : Text) (b : B)
      → (b' : B) × (m.enable_tool name (m.tool_fn name b) ≡ some b')
        × ((k : Text) → is_on b' k ≡ (if text_eq name k then true else is_on b k))
  pub disabled :
      (name : Text) (b : B)
      → (b' : B) × (m.disable_tool name (m.tool_fn name b) ≡ some b')
        × ((k : Text) → is_on b' k ≡ (if text_eq name k then false else is_on b k))

module _ {B : Type 0} (m : McpServerBuilder B) (is_on : B → Text → Bool)
    (laws : Switches m is_on) where
  Registered : Text → Bool → B → Option B → Type 0
  Registered name enabled b result =
      (b' : B) × (result ≡ some b')
      × ((k : Text) → is_on b' k ≡ (if text_eq name k then enabled else is_on b k))

  register_crate_sources-Registered :
      (enabled : Bool) (b : B)
      → Registered crate_sources_tool enabled b (register_crate_sources m enabled b)
  unfolding register_crate_sources Registered
  register_crate_sources-Registered true b = laws.enabled crate_sources_tool b
  register_crate_sources-Registered false b = laws.disabled crate_sources_tool b

  register_rust_researcher-Registered :
      (enabled : Bool) (b : B)
      → Registered rust_researcher_tool enabled b (register_rust_researcher m enabled b)
  unfolding register_rust_researcher Registered
  register_rust_researcher-Registered true b = laws.enabled rust_researcher_tool b
  register_rust_researcher-Registered false b = laws.disabled rust_researcher_tool b

  -- If sacp's builder keeps its promises, then building the Ferris server never panics, and the
  -- server offers each of the tools `crate_sources` and `rust_researcher` exactly if the
  -- configuration's field for it is set.
  pub into_mcp_server_tools :
      (instructions : Text) (config : Ferris)
      → (b : B) × (into_mcp_server m instructions config ≡ some b)
        × (is_on b crate_sources_tool ≡ config.crate_sources)
        × (is_on b rust_researcher_tool ≡ config.rust_researcher)
  unfolding into_mcp_server Registered text_eq
  into_mcp_server_tools instructions config =
      let (b₁, made₁, on₁) =
        register_crate_sources-Registered config.crate_sources
          (m.instructions instructions (m.builder (codes "ferris"))) in
      let (b₂, made₂, on₂) = register_rust_researcher-Registered config.rust_researcher b₁ in
      (
        b₂,
        rw made₁ made₂,
        on₂ crate_sources_tool ∙ on₁ crate_sources_tool,
        on₂ rust_researcher_tool,
      )
