-- ===== src/Server/Taskspaces.antt =====
-- outdated/mcp-server/src/server.rs: the tools on taskspaces. Each returns what the agent is answered, and
-- the requests that the dispatch actor has taken.
use symposium.Prelude.{
  ◌||◌, List, [], ◌∷◌, ◌++◌, Option, some, none, Result, ok, err, if◌then◌else◌,
}
use symposium.Prelude.Text.{Text, codes, text_eq}
use symposium.Ipc.Payloads.{
  ProgressCategory, info, warn, error, milestone, question, TaskspaceStateResponse,
}
use symposium.Ipc.Project.{IpcError, Directory}
use symposium.Ipc.Handle.{Outside, Exchange, DispatchRequest}
use symposium.Ipc.Communicator
use symposium.Ipc.Communicator.{IpcCommunicator, Call}
use symposium.Server.Errors.{mcp_error, internal_error, ToolResult, to_string}
use symposium.Server.Prompt.{get_taskspace_context}

pub record SpawnTaskspaceParams : Type 0 where
  pub name : Text
  pub task_description : Text
  pub initial_prompt : Text
  pub collaborator : Option Text

pub record UpdateTaskspaceParams : Type 0 where
  pub name : Text
  pub description : Text
  pub collaborator : Option Text

-- `None` and the texts of the emoji, some with a variation selector.
abbrev pub info_emoji : Text
info_emoji = 8505 ∷ 65039 ∷ []

abbrev pub warn_emoji : Text
warn_emoji = 9888 ∷ 65039 ∷ []

abbrev pub error_emoji : Text
error_emoji = 10060 ∷ []

abbrev pub milestone_emoji : Text
milestone_emoji = 9989 ∷ []

abbrev pub question_emoji : Text
question_emoji = 10067 ∷ []

-- The category of a text in lower case.
unfoldable pub category_of : Text → ProgressCategory
unfolding text_eq
category_of t =
    if text_eq t (codes "info") || text_eq t info_emoji
    then info
    else if text_eq t (codes "warn") || text_eq t warn_emoji
    then warn
    else if text_eq t (codes "error") || text_eq t error_emoji
    then error
    else if text_eq t (codes "milestone") || text_eq t milestone_emoji
    then milestone
    else if text_eq t (codes "question") || text_eq t question_emoji
    then question
    else info

-- `match` on the result of a call: the text of a success, or the message and the details of an error.
abbrev pub answer :
    {A : Type 0}
    → (A → Text)
    → (failure : Text) → List (Text × Text)
    → Result IpcError A
    → ToolResult
answer success failure details (ok a) = ok (success a ∷ [])
answer success failure details (err e) =
    err (mcp_error internal_error failure ((codes "error", to_string e) ∷ details))

module _ (outside : Outside) (current_dir : Result Text (List Directory))
    (ipc : IpcCommunicator) where
  -- The result for the agent, with the requests of the call.
  abbrev pub reported :
      {A : Type 0}
      → (A → Text)
      → (failure : Text) → List (Text × Text)
      → Call outside IpcError A
      → ToolResult × List (DispatchRequest outside.serde.Value)
  reported success failure details (result, sent) = (answer success failure details result, sent)

  -- Which collaborator the new taskspace gets, and the requests that this takes.
  unfoldable pub collaborator_for :
      Exchange outside.serde.Value
      → Option Text
      → Option Text × List (DispatchRequest outside.serde.Value)
  unfolding get_taskspace_context
  collaborator_for asked (some collaborator) = (some collaborator, [])
  collaborator_for asked none =
      let (taskspace, sent) = get_taskspace_context outside current_dir ipc asked in
      (elim taskspace [ some ts ↦ ts.collaborator | none ↦ none ], sent)

  -- `asked` is the exchange of the request for the state, if there is one.
  unfoldable pub spawn_taskspace :
      (asked now : Exchange outside.serde.Value)
      → SpawnTaskspaceParams
      → ToolResult × List (DispatchRequest outside.serde.Value)
  unfolding collaborator_for Communicator.spawn_taskspace to_string
  spawn_taskspace asked now params =
      let (collaborator, before) = collaborator_for asked params.collaborator in
      let (result, sent) =
        reported (λ _. codes "Taskspace '" ++ params.name ++ codes "' created successfully")
          (codes "Failed to create taskspace") ((codes "taskspace_name", params.name) ∷ [])
          (Communicator.spawn_taskspace outside now ipc current_dir params.name
            params.task_description params.initial_prompt collaborator) in
      (result, before ++ sent)

  module _ (now : Exchange outside.serde.Value) where
    -- `to_lowercase` is that of Unicode.
    unfoldable pub log_progress :
        (to_lowercase : Text → Text) (message category : Text)
        → ToolResult × List (DispatchRequest outside.serde.Value)
    unfolding category_of Communicator.log_progress to_string
    log_progress to_lowercase message category =
        reported (λ _. codes "Progress logged: " ++ message) (codes "Failed to log progress")
          ((codes "message", message) ∷ [])
          (Communicator.log_progress outside now ipc current_dir message
            (category_of (to_lowercase category)))

    unfoldable pub signal_user :
        (message : Text) → ToolResult × List (DispatchRequest outside.serde.Value)
    unfolding Communicator.signal_user to_string
    signal_user message =
        reported (λ _. codes "User attention requested: " ++ message)
          (codes "Failed to request user attention") ((codes "message", message) ∷ [])
          (Communicator.signal_user outside now ipc current_dir message)

    -- Whether the answer still has a first task.
    abbrev pub status_msg : UpdateTaskspaceParams → TaskspaceStateResponse → Text
    status_msg params state =
        let start =
          codes "Taskspace updated: " ++ params.name ++ codes " - " ++ params.description in
        elim state.initial_prompt [
          | none ↦ start ++ codes " (initial prompt cleared)"
          | some prompt ↦ start
        ]

    unfoldable pub update_taskspace :
        UpdateTaskspaceParams → ToolResult × List (DispatchRequest outside.serde.Value)
    unfolding Communicator.update_taskspace to_string
    update_taskspace params =
        reported (status_msg params) (codes "Failed to update taskspace")
          ((codes "name", params.name) ∷ (codes "description", params.description) ∷ [])
          (Communicator.update_taskspace outside now ipc current_dir params.name params.description
            params.collaborator)

    unfoldable pub delete_taskspace : ToolResult × List (DispatchRequest outside.serde.Value)
    unfolding Communicator.delete_taskspace to_string
    delete_taskspace =
        reported (λ _. codes "Taskspace deletion initiated successfully")
          (codes "Failed to delete taskspace") []
          (Communicator.delete_taskspace outside now ipc current_dir)
