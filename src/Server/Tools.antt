-- ===== src/Server/Tools.antt =====
-- outdated/mcp-server/src/server.rs: the tools on the editor, and `expand_reference`.
pub mod Expanded
use symposium.Prelude.{
  ℕ, Bool, ◌||◌, List, [], ◌∷◌, ◌++◌, Option, some, none, Result, ok, err, map_ok, if◌then◌else◌,
}
use symposium.Prelude.Text.{Text, codes, text_eq}
use symposium.Prelude.Assoc
use symposium.Prelude.Assoc.{text_key}
use symposium.Dialect.Outcome.{Outcome, done, failed, panicked, out_of_fuel}
use symposium.Dialect.Syntax.{ParseError}
use symposium.Dialect.Lexer.{Unicode}
use symposium.Dialect.Interpreter.{Json, EvalError, DialectFunction, evaluate}
use symposium.Walkthrough.Blocks.{WalkthroughParser, Pulldown, parse_and_normalize}
use symposium.Ipc.Payloads.{GetSelectionResult}
use symposium.Ipc.Project.{IpcError, Directory}
use symposium.Ipc.Handle.{Outside, Exchange, DispatchRequest}
use symposium.Ipc.Communicator
use symposium.Ipc.Communicator.{IpcCommunicator}
use symposium.Server.Errors.{
  McpError, mcp_error, internal_error, invalid_params, ToolResult, to_string,
}
use symposium.Server.Guidance.{Strings, GuidanceFiles}
use symposium.Server.Prompt.{assemble_yiasou_prompt}

-- The path of `base_uri`: `canonicalize`, or the current directory, or the text itself.
abbrev pub absolute : Option Text → Result Text (List Directory) → Text → Text
absolute (some path) current_dir base_uri = path
absolute none (ok (d ∷ parents)) base_uri = d.path
absolute none (ok []) base_uri = base_uri
absolute none (err e) base_uri = base_uri

-- `Content::json(...)?` of a value that `to_json` prints.
abbrev pub json_content :
    {A : Type 0} → (to_json : A → Result Text Text) (what : Text) → A → ToolResult
json_content to_json what a = elim (to_json a) [
  | ok t ↦ ok (t ∷ [])
  | err e ↦ err (
      mcp_error internal_error (codes "Serialization failed")
        ((codes "error", codes "Failed to serialize " ++ what ++ codes " result: " ++ e) ∷ []))
]

-- What the task that evaluates a program ends in. A panic of the task is an error of the wait for it.
module _ (json : Json) {S : Type 0} (functions : S → List (Text × DialectFunction S json.Value))
    (unicode : Unicode) (to_json : json.Value → Result Text Text) (join_error : Text)
    (error_text : EvalError → Text) (parse_error_text : ParseError → Text) where
  abbrev pub failed_with : (message error : Text) → ToolResult
  failed_with message error = err (mcp_error internal_error message ((codes "error", error) ∷ []))

  unfoldable pub evaluated : Outcome (Result EvalError json.Value × S) → ToolResult
  evaluated (done (ok value, s)) = json_content to_json (codes "Dialect") value
  evaluated (done (err e, s)) = failed_with (codes "Dialect execution failed") (error_text e)
  evaluated (failed e) = failed_with (codes "Dialect execution failed") (parse_error_text e)
  evaluated panicked = failed_with (codes "Task execution failed") join_error
  evaluated out_of_fuel = failed_with (codes "Task execution failed") join_error

  -- The interpreter is a copy of the server's, and is dropped.
  unfoldable pub ide_operation : (program : Text) → S → ToolResult
  unfolding evaluated evaluate
  ide_operation program s = evaluated (evaluate json functions unicode program s)

module _ (outside : Outside) (current_dir : Result Text (List Directory)) (ipc : IpcCommunicator)
    (now : Exchange outside.serde.Value) where
  unfoldable pub get_selection :
      (to_json : GetSelectionResult → Result Text Text)
      → ToolResult × List (DispatchRequest outside.serde.Value)
  unfolding Communicator.get_selection to_string
  get_selection to_json =
      let (result, sent) = Communicator.get_selection outside now ipc in
      (
        elim result [
          | ok selection ↦ json_content to_json (codes "selection") selection
          | err e ↦ err (
              mcp_error internal_error (codes "IPC communication failed")
                ((codes "error", to_string e) ∷ []))
        ],
        sent,
      )

  -- `parser` is that of a copy of the interpreter, with `base_uri`.
  unfoldable pub present_walkthrough :
      {V U Other : Type 0}
      → WalkthroughParser V U
      → Pulldown Other
      → (canonicalize : Text → Option Text) (content base_uri : Text) → U
      → ToolResult × List (DispatchRequest outside.serde.Value)
  unfolding parse_and_normalize Communicator.present_walkthrough to_string
  present_walkthrough parser pulldown canonicalize content base_uri u =
      let (parsed, v) =
        parse_and_normalize (record parser { base_uri = some base_uri }) pulldown content u in
      elim parsed [
        | err e ↦ (
          err (
              mcp_error internal_error (codes "Failed to parse walkthrough markdown")
                ((codes "error", e) ∷ [])),
          [],
        )
        | ok resolved_html ↦
            let (result, sent) =
              Communicator.present_walkthrough outside now ipc resolved_html
                (absolute (canonicalize base_uri) current_dir base_uri) in
            (
              elim result [
                | ok _ ↦
                    ok (codes "Walkthrough successfully processed and presented in VSCode" ∷ [])
                | err e ↦ err (
                    mcp_error internal_error (codes "Failed to present walkthrough")
                      ((codes "error", to_string e) ∷ []))
              ],
              sent,
            )
      ]

  -- A reference that is not stored, with the guidance file of that name. A panic is the error, with its
  -- message.
  unfoldable pub expand_other :
      Strings
      → GuidanceFiles
      → (id : Text) → Option (List ℕ)
      → Result Text ToolResult × List (DispatchRequest outside.serde.Value)
  unfolding text_eq assemble_yiasou_prompt
  expand_other strings files id (some content) =
      (ok (ok (strings.from_utf8_lossy content ∷ [])), [])
  expand_other strings files id none =
      if text_eq id (codes "yiasou") || text_eq id (codes "hi")
      then (let (prompt, sent) =
            assemble_yiasou_prompt outside current_dir ipc strings files now none in
          (map_ok (λ t. ok (t ∷ [])) prompt, sent))
      else (
        ok (
            err (
              mcp_error invalid_params (codes "Reference not found")
                ((codes "reference_id", id) ∷ []))),
        [],
      )

  -- `found` is what the reference actor answers.
  unfoldable pub expand_reference :
      {Value : Type 0}
      → (to_string_pretty : Value → Result Text Text) → Strings
      → GuidanceFiles
      → (found : Option Value) (id : Text)
      → Result Text ToolResult × List (DispatchRequest outside.serde.Value)
  unfolding Assoc.get expand_other
  expand_reference to_string_pretty strings files (some context) id = (
    ok (elim (to_string_pretty context) [
      | ok t ↦ ok (t ∷ [])
      | err e ↦ err (
          mcp_error internal_error (codes "Failed to serialize reference context")
            ((codes "error", e) ∷ []))
    ]),
    [],
  )
  expand_reference to_string_pretty strings files none id =
      expand_other strings files id (Assoc.get id files)
