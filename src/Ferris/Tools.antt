-- ===== src/Ferris/Tools.antt =====
-- src/symposium-ferris/src/lib.rs, and `register` of its crate_sources/mcp.rs and
-- rust_researcher/mod.rs: which tools the Ferris server offers. sacp's server builder is a parameter.
pub mod Enabled
use symposium.Prelude.{Bool, true, false, Option, none, some, if◌then◌else◌}
use symposium.Prelude.Text.{Text, codes}

pub record Ferris : Type 0 where
  pub crate_sources : Bool
  pub rust_researcher : Bool

-- `Ferris::default` and `Ferris::new`
unfoldable pub new : Ferris
new = record { crate_sources = true; rust_researcher = false }

unfoldable pub crate_sources : Bool → Ferris → Ferris
crate_sources enabled self = record self { crate_sources = enabled }

unfoldable pub rust_researcher : Bool → Ferris → Ferris
rust_researcher enabled self = record self { rust_researcher = enabled }

-- sacp's `McpServerBuilder`. `enable_tool` and `disable_tool` are `none` for a bad tool name.
pub record McpServerBuilder (B : Type 0) : Type 0 where
  pub builder : (name : Text) → B
  pub instructions : Text → B → B
  pub tool_fn : (name : Text) → B → B
  pub enable_tool : (name : Text) → B → Option B
  pub disable_tool : (name : Text) → B → Option B

abbrev pub bind {ℓ κ} : {A : Type ℓ} {B : Type κ} → Option A → (A → Option B) → Option B
bind none f = none
bind (some a) f = f a

abbrev pub crate_sources_tool : Text
crate_sources_tool = codes "crate_sources"

abbrev pub rust_researcher_tool : Text
rust_researcher_tool = codes "rust_researcher"

module _ {B : Type 0} (m : McpServerBuilder B) where
  -- `none` where `expect("valid tool name")` panics.
  unfoldable pub register_crate_sources : Bool → B → Option B
  register_crate_sources enabled b =
      let b' = m.tool_fn crate_sources_tool b in
      if enabled then m.enable_tool crate_sources_tool b' else m.disable_tool crate_sources_tool b'

  unfoldable pub register_rust_researcher : Bool → B → Option B
  register_rust_researcher enabled b =
      let b' = m.tool_fn rust_researcher_tool b in
      if enabled
      then m.enable_tool rust_researcher_tool b'
      else m.disable_tool rust_researcher_tool b'

  -- The builder that `build` is called on.
  unfoldable pub into_mcp_server : (instructions : Text) → Ferris → Option B
  unfolding register_crate_sources register_rust_researcher
  into_mcp_server instructions self =
      let b = m.instructions instructions (m.builder (codes "ferris")) in
      bind (register_crate_sources self.crate_sources b)
        (register_rust_researcher self.rust_researcher)
