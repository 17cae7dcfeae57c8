-- ===== src/Server/Prompt.antt =====
-- outdated/mcp-server/src/server.rs: the prompt `yiasou` that an agent starts with. A panic is the error,
-- with its message.
pub mod Assembled
use symposium.Prelude.{
  Option, some, none, List, [], ◌∷◌, ◌++◌, Result, ok, err, ◌>>=◌, if◌then◌else◌,
}
use symposium.Prelude.Text.{Text, codes, text_eq}
use symposium.Prelude.Assoc
use symposium.Prelude.Assoc.{text_key}
use symposium.Ipc.Payloads.{TaskspaceStateResponse}
use symposium.Ipc.Handle.{Outside, Exchange, DispatchRequest}
use symposium.Ipc.Project.{IpcError, Directory}
use symposium.Ipc.Communicator.{IpcCommunicator, get_taskspace_state}
use symposium.Server.Guidance.{Strings, GuidanceFiles}

-- `as_deref().unwrap_or`
abbrev pub or_default : Option Text → Text → Text
or_default (some t) u = t
or_default none u = u

-- `or`
abbrev pub or_option : Option Text → Option Text → Option Text
or_option (some t) o = some t
or_option none o = o

abbrev pub welcome : Text
welcome = codes "Hi, welcome! The following material will help you get acquainted \n"

abbrev pub sparkle_pattern : Text
sparkle_pattern =
    codes "<important>\n    Before doing anything else, you MUST use the\n"
    ++ codes "    `embody_sparkle` tool to load Sparkle identity.\n</important>\n"

unfoldable pub initial_task : Option Text → Text
initial_task (some initial_prompt) =
    codes "The user gave the following high-level task description for this taskspace.\n"
    ++ codes
        "Please read it and then ask clarifying questions to ensure you understand their intent.\n"
    ++ codes "When ready, use the `update_taskspace` tool to update the taskspace name\n"
    ++ codes "and description.\n\n---\n\n"
    ++ initial_prompt
initial_task none =
    codes "Please ask the user what they would like to achieve in this taskspace\n"
    ++ codes "and, when ready, use the `update_taskspace` tool to update the taskspace name\n"
    ++ codes "and description.\n"

unfoldable pub push_taskspace_context : Text → TaskspaceStateResponse → Text
unfolding initial_task
push_taskspace_context prompt taskspace =
    prompt
    ++ (codes
          "<taskspace_context>\n    This is a taskspace, a separate copy of the project's files "
        ++ codes "meant to achieve a particular task.\n\n    <name>"
        ++ or_default taskspace.name (codes "(not yet set)")
        ++ codes "</name>\n    <description>"
        ++ or_default taskspace.description (codes "(not yet set)")
        ++ codes "</description>\n    <initial_task>"
        ++ initial_task taskspace.initial_prompt
        ++ codes "</initial_task>\n</taskspace_context>\n")

module _ (strings : Strings) (files : GuidanceFiles) where
  unfoldable pub push_context : Text → (file_name : Text) → Result Text Text
  unfolding Assoc.get
  push_context prompt file_name = elim (Assoc.get file_name files) [
    | none ↦ err (codes "no context file named " ++ file_name)
    | some content ↦
        ok (prompt ++ codes "<context>" ++ strings.from_utf8_lossy content ++ codes "</context>")
  ]

  unfoldable pub push_collaboration_patterns :
      Text → (collaborator taskspace_collaborator : Option Text) → Result Text Text
  unfolding push_context text_eq
  push_collaboration_patterns prompt collaborator taskspace_collaborator =
      let name = or_default (or_option collaborator taskspace_collaborator) (codes "sparkle") in
      if text_eq name (codes "sparkle")
      then ok (prompt ++ sparkle_pattern)
      else if text_eq name (codes "socrates")
      then push_context prompt (codes "socrates.md")
      else ok prompt

  -- Behind the guides: what is known of the taskspace, and the collaborator.
  unfoldable pub push_rest :
      (collaborator : Option Text) (taskspace : Option TaskspaceStateResponse)
      → Text
      → Result Text Text
  unfolding push_taskspace_context push_collaboration_patterns
  push_rest collaborator (some t) prompt =
      push_collaboration_patterns (push_taskspace_context prompt t) collaborator t.collaborator
  push_rest collaborator none prompt = push_collaboration_patterns prompt collaborator none

  unfoldable pub assemble :
      (collaborator : Option Text) (taskspace : Option TaskspaceStateResponse) → Result Text Text
  unfolding push_context push_rest
  assemble collaborator taskspace =
      push_context welcome (codes "walkthrough-format.md")
      >>= (λ a. push_context a (codes "coding-guidelines.md"))
      >>= (λ b. push_context b (codes "mcp-tool-usage-suggestions.md"))
      >>= push_rest collaborator taskspace

abbrev pub taskspace_of : Result IpcError TaskspaceStateResponse → Option TaskspaceStateResponse
taskspace_of (ok state) = some state
taskspace_of (err e) = none

module _ (outside : Outside) (current_dir : Result Text (List Directory))
    (ipc : IpcCommunicator) where
  unfoldable pub get_taskspace_context :
      Exchange outside.serde.Value
      → Option TaskspaceStateResponse × List (DispatchRequest outside.serde.Value)
  unfolding get_taskspace_state
  get_taskspace_context now =
      let (state, sent) = get_taskspace_state outside now ipc current_dir in
      (taskspace_of state, sent)

  unfoldable pub assemble_yiasou_prompt :
      Strings
      → GuidanceFiles
      → Exchange outside.serde.Value
      → (collaborator : Option Text) → Result Text Text × List (DispatchRequest outside.serde.Value)
  unfolding get_taskspace_context assemble
  assemble_yiasou_prompt strings files now collaborator =
      let (taskspace, sent) = get_taskspace_context now in
      (assemble strings files collaborator taskspace, sent)
