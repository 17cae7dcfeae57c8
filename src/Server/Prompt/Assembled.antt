-- ===== src/Server/Prompt/Assembled.antt =====
-- outdated/mcp-server/src/server.rs, `assemble_yiasou_prompt`: what the prompt says.
use symposium.Prelude.{ℕ, Option, some, none, List, [], ◌++◌, if◌then◌else◌, ◌≡◌}
use symposium.Prelude.Text.{Text, codes, text_eq}
use symposium.Prelude.Assoc
use symposium.Prelude.Assoc.{text_key}
use symposium.Ipc.Payloads.{TaskspaceStateResponse}
use symposium.Server.Guidance.{Strings, GuidanceFiles}
use symposium.Server.Prompt.{or_default}

-- The collaborator: the one that is asked for, or the taskspace's, or Sparkle.
abbrev pub collaborator_of : Option Text → Option TaskspaceStateResponse → Text
collaborator_of (some c) taskspace = c
collaborator_of none none = codes "sparkle"
collaborator_of none (some t) = or_default t.collaborator (codes "sparkle")

-- What an element says of something that may not be set.
abbrev pub name_or_not_yet : Option Text → Text
name_or_not_yet (some t) = t
name_or_not_yet none = codes "(not yet set)"

-- The task: a request to read the user's description, and then that description; or a request to ask
-- for one.
abbrev pub task_of : Option Text → Text
task_of (some description) =
    codes "The user gave the following high-level task description for this taskspace.\n"
    ++ codes
        "Please read it and then ask clarifying questions to ensure you understand their intent.\n"
    ++ codes "When ready, use the `update_taskspace` tool to update the taskspace name\n"
    ++ codes "and description.\n\n---\n\n"
    ++ description
task_of none =
    codes "Please ask the user what they would like to achieve in this taskspace\n"
    ++ codes "and, when ready, use the `update_taskspace` tool to update the taskspace name\n"
    ++ codes "and description.\n"

-- The element for the taskspace.
abbrev pub about_taskspace : Option TaskspaceStateResponse → Text
about_taskspace (some t) =
    codes "<taskspace_context>\n    This is a taskspace, a separate copy of the project's files "
    ++ codes "meant to achieve a particular task.\n\n    <name>"
    ++ name_or_not_yet t.name
    ++ codes "</name>\n    <description>"
    ++ name_or_not_yet t.description
    ++ codes "</description>\n    <initial_task>"
    ++ task_of t.initial_prompt
    ++ codes "</initial_task>\n</taskspace_context>\n"
about_taskspace none = []

-- The guidance files that a prompt uses are there, with these contents.
pub record Guides (files : GuidanceFiles) : Type 0 where
  pub walkthrough_format : List ℕ
  pub coding_guidelines : List ℕ
  pub mcp_tool_usage_suggestions : List ℕ
  pub socrates : List ℕ
  pub has_format : Assoc.get (codes "walkthrough-format.md") files ≡ some walkthrough_format
  pub has_guidelines : Assoc.get (codes "coding-guidelines.md") files ≡ some coding_guidelines
  pub has_suggestions :
      Assoc.get (codes "mcp-tool-usage-suggestions.md") files ≡ some mcp_tool_usage_suggestions
  pub has_socrates : Assoc.get (codes "socrates.md") files ≡ some socrates

module _ (strings : Strings) (files : GuidanceFiles) (guides : Guides files) where
  -- A guidance file in the prompt.
  abbrev pub context : List ℕ → Text
  context content = codes "<context>" ++ (strings.from_utf8_lossy content ++ codes "</context>")

  -- What the prompt says of a collaborator.
  abbrev pub pattern_of : Text → Text
  pattern_of name =
      if text_eq name (codes "sparkle")
      then codes "<important>\n    Before doing anything else, you MUST use the\n"
        ++ codes "    `embody_sparkle` tool to load Sparkle identity.\n</important>\n"
      else if text_eq name (codes "socrates")
      then context guides.socrates
      else []

  -- The texts of the three guides, behind the welcome.
  abbrev pub introduction : Text
  introduction =
      codes "Hi, welcome! The following material will help you get acquainted \n"
      ++ context guides.walkthrough_format
      ++ context guides.coding_guidelines
      ++ context guides.mcp_tool_usage_suggestions
