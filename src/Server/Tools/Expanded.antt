-- ===== src/Server/Tools/Expanded.antt =====
-- outdated/mcp-server/src/server.rs, `expand_reference`: which references it expands.
use symposium.Prelude.{
  ℕ, Bool, List, [], ◌∷◌, ◌++◌, Option, some, none, Result, ok, err, map_ok, ◌≡◌, ◌⊎◌, ◌↔◌,
  if◌then◌else◌,
}
use symposium.Prelude.Text.{Text, codes}
use symposium.Prelude.Assoc
use symposium.Prelude.Assoc.{text_key}
use symposium.Ipc.Handle.{Outside, Exchange, DispatchRequest}
use symposium.Ipc.Project.{Directory}
use symposium.Ipc.Communicator.{IpcCommunicator, get_taskspace_state}
use symposium.Server.Errors.{ToolResult, mcp_error, invalid_params}
use symposium.Server.Guidance.{Strings, GuidanceFiles}
use symposium.Server.Prompt.{taskspace_of, assemble_yiasou_prompt}
use symposium.Server.Prompt.Assembled.{
  Guides, introduction, about_taskspace, pattern_of, collaborator_of,
}
use symposium.Server.Tools.{expand_other, expand_reference}

-- An answer that does not panic, and is a text exactly where that text is what is asked for.
abbrev pub AnswersBy : (Text → Type 0) → Result Text ToolResult → Type 0
AnswersBy Says r =
    (answer : ToolResult) × (r ≡ ok answer) × ((t : Text) → (answer ≡ ok (t ∷ [])) ↔ Says t)

module _ (outside : Outside) (current_dir : Result Text (List Directory)) (ipc : IpcCommunicator)
    (now : Exchange outside.serde.Value) {Value : Type 0}
    (to_string_pretty : Value → Result Text Text) (strings : Strings) (files : GuidanceFiles)
    (guides : Guides files) where
  abbrev expanded : Option Value → (id : Text) → Result Text ToolResult
  expanded found id =
      (expand_reference outside current_dir ipc now to_string_pretty strings files found id).0

  -- The prompt for no collaborator in particular.
  abbrev prompt : Text
  prompt =
      let taskspace = taskspace_of (get_taskspace_state outside now ipc current_dir).0 in
      introduction strings files guides
      ++ about_taskspace taskspace
      ++ pattern_of strings files guides (collaborator_of none taskspace)

  abbrev expanded_other : (id : Text) (content : Option (List ℕ)) → Result Text ToolResult
  expanded_other id content = (expand_other outside current_dir ipc now strings files id content).0

  -- The answer by whether the prompt is asked for.
  abbrev branch :
      (id : Text) → Bool → Result Text ToolResult × List (DispatchRequest outside.serde.Value)
  branch id is_asked =
      if is_asked
      then (let (text, sent) =
            assemble_yiasou_prompt outside current_dir ipc strings files now none in
          (map_ok (λ t. ok (t ∷ [])) text, sent))
      else (
        ok (
            err (
              mcp_error invalid_params (codes "Reference not found")
                ((codes "reference_id", id) ∷ []))),
        [],
      )

  -- What a reference is expanded to: what is stored, printed; or the guidance file of that name; or,
  -- for the two names of the prompt, the prompt.
  abbrev pub SaysOf : Option Value → (id : Text) → Text → Type 0
  SaysOf (some context) id t = to_string_pretty context ≡ ok t
  SaysOf none id t =
      ((content : List ℕ) × (Assoc.get id files ≡ some content)
        × (t ≡ strings.from_utf8_lossy content))
      ⊎ ((Assoc.get id files ≡ none) × ((id ≡ codes "yiasou") ⊎ (id ≡ codes "hi")) × (t ≡ prompt))
