-- ===== src/Ipc/Communicator.antt =====
-- outdated/mcp-server/src/ipc.rs, `IPCCommunicator`: one operation for each message. A call returns its
-- result and the requests that the dispatch actor has taken. Logging is left out.
pub mod Sent
use symposium.Prelude.{
  ℕ, Bool, true, false, List, [], ◌∷◌, ◌++◌, Option, some, none, Result, ok, err, map_err,
  if◌then◌else◌,
}
use symposium.Prelude.Text.{Text, codes}
use symposium.Actor.Dispatch.{DispatchActor}
use symposium.Ide.Ranges.{FileRange, SymbolDef}
use symposium.Ipc.Payloads.{
  LogLevel, ProgressCategory, GetSelectionResult, TaskspaceStateResponse, IpcPayload, Reply,
  polo_message, goodbye_payload, get_selection_message, log_message, present_walkthrough_message,
  resolve_symbol_by_name_payload, find_all_references_payload, spawn_taskspace_payload,
  log_progress_payload, signal_user_payload, taskspace_state_request, delete_taskspace_payload,
}
use symposium.Ipc.Project.{IpcError, send_error, Directory, extract_project_info}
use symposium.Ipc.Handle
use symposium.Ipc.Handle.{Outside, Exchange, DispatchHandle, DispatchRequest, send}

pub record IpcCommunicator : Type 0 where
  pub dispatch_handle : DispatchHandle
  pub terminal_shell_pid : Option ℕ
  pub test_mode : Bool

-- What `get_selection` answers in test mode.
abbrev pub no_selection : GetSelectionResult
no_selection = record {
  selected_text = none;
  file_path = none;
  start_line = none;
  start_column = none;
  end_line = none;
  end_column = none;
  line_number = none;
  document_language = none;
  is_untitled = none;
  message = some (codes "No selection available (test mode)");
}

module _ (outside : Outside) where
  abbrev pub Call : Type 0 → Type 0 → Type 0
  Call E A = Result E A × List (DispatchRequest outside.serde.Value)

  unfoldable pub new :
      (shell_pid : Option ℕ) (current_dir : Result Text (List Directory))
      → IpcCommunicator × DispatchActor outside.serde
  unfolding Handle.new
  new shell_pid current_dir =
      let (handle, actor) = Handle.new outside shell_pid current_dir in
      (
        record { dispatch_handle = handle; terminal_shell_pid = shell_pid; test_mode = false },
        actor,
      )

  unfoldable pub new_test :
      (current_dir : Result Text (List Directory)) → IpcCommunicator × DispatchActor outside.serde
  unfolding Handle.spawn_with_mock
  new_test current_dir =
      let (handle, actor) = Handle.spawn_with_mock outside current_dir in
      (record { dispatch_handle = handle; terminal_shell_pid = none; test_mode = true }, actor)

  module _ (now : Exchange outside.serde.Value) (ipc : IpcCommunicator) where
    -- `send(...).map_err(|e| IPCError::SendError(format!("{what} via actors: {e}")))`
    unfoldable pub send_as : (what : Text) (message : IpcPayload) → Call IpcError (Reply message)
    unfolding send
    send_as what message =
        let (result, sent) = send outside now ipc.dispatch_handle message in
        (map_err (λ e. send_error (what ++ codes " via actors: " ++ e)) result, sent)

    unfoldable pub present_walkthrough : (content base_uri : Text) → Call IpcError (Unit {0})
    unfolding send_as
    present_walkthrough content base_uri =
        if ipc.test_mode
        then (ok tt, [])
        else send_as (codes "Failed to send present_walkthrough")
            (present_walkthrough_message content base_uri)

    unfoldable pub get_selection : Call IpcError GetSelectionResult
    unfolding send_as
    get_selection =
        if ipc.test_mode
        then (ok no_selection, [])
        else send_as (codes "Failed to send get_selection") get_selection_message

    unfoldable pub send_log_message : LogLevel → Text → List (DispatchRequest outside.serde.Value)
    unfolding send
    send_log_message level message =
        if ipc.test_mode
        then []
        else (send outside now ipc.dispatch_handle (log_message level message)).1

    unfoldable pub send_polo : Call IpcError (Unit {0})
    unfolding send_as
    send_polo =
        if ipc.test_mode then (ok tt, []) else send_as (codes "Failed to send Polo") polo_message

    unfoldable pub send_goodbye : Call IpcError (Unit {0})
    unfolding send_as
    send_goodbye =
        if ipc.test_mode
        then (ok tt, [])
        else send_as (codes "Failed to send Goodbye") goodbye_payload

    -- `send_goodbye`, which tests for test mode again
    unfoldable pub shutdown : Call IpcError (Unit {0})
    unfolding send_goodbye
    shutdown = if ipc.test_mode then (ok tt, []) else send_goodbye

    unfoldable pub resolve_symbol_by_name : (name : Text) → Call Text (List SymbolDef)
    unfolding send
    resolve_symbol_by_name name =
        if ipc.test_mode
        then (ok [], [])
        else (let (result, sent) =
              send outside now ipc.dispatch_handle (resolve_symbol_by_name_payload name) in
            (map_err (λ e. codes "failed to resolve symbol '" ++ name ++ codes "'") result, sent))

    unfoldable pub find_all_references : SymbolDef → Call Text (List FileRange)
    unfolding send
    find_all_references symbol =
        if ipc.test_mode
        then (ok [], [])
        else (let (result, sent) =
              send outside now ipc.dispatch_handle (find_all_references_payload symbol) in
            (
              map_err
                  (λ e.
                    codes "VSCode extension failed to find references for symbol '"
                    ++ symbol.name
                    ++ codes "'")
                  result,
              sent,
            ))

    -- `let (project_path, taskspace_uuid) = extract_project_info()?;`
    unfoldable pub in_project :
        {A : Type 0}
        → (current_dir : Result Text (List Directory)) (operation : Text → Text → Call IpcError A)
        → Call IpcError A
    unfolding extract_project_info
    in_project current_dir operation = elim (extract_project_info outside.parse_str current_dir) [
      | err e ↦ (err e, [])
      | ok (project_path, taskspace_uuid) ↦ operation project_path taskspace_uuid
    ]

    module _ (current_dir : Result Text (List Directory)) where
      unfoldable pub spawn_taskspace :
          (name task_description initial_prompt : Text) (collaborator : Option Text)
          → Call IpcError (Unit {0})
      unfolding in_project send_as
      spawn_taskspace name task_description initial_prompt collaborator =
          if ipc.test_mode
          then (ok tt, [])
          else in_project current_dir λ path uuid.
            send_as (codes "Failed to send spawn_taskspace")
              (spawn_taskspace_payload path uuid name task_description initial_prompt collaborator)

      unfoldable pub log_progress : Text → ProgressCategory → Call IpcError (Unit {0})
      unfolding in_project send_as
      log_progress message category =
          if ipc.test_mode
          then (ok tt, [])
          else in_project current_dir λ path uuid.
            send_as (codes "Failed to send log_progress")
              (log_progress_payload path uuid message category)

      unfoldable pub signal_user : (message : Text) → Call IpcError (Unit {0})
      unfolding in_project send_as
      signal_user message =
          if ipc.test_mode
          then (ok tt, [])
          else in_project current_dir λ path uuid.
            send_as (codes "Failed to send signal_user") (signal_user_payload path uuid message)

      unfoldable pub update_taskspace :
          (name description : Text) (collaborator : Option Text)
          → Call IpcError TaskspaceStateResponse
      unfolding in_project send_as
      update_taskspace name description collaborator = in_project current_dir λ path uuid.
          send_as (codes "Failed to update taskspace")
            (taskspace_state_request path uuid (some name) (some description) collaborator)

      unfoldable pub get_taskspace_state : Call IpcError TaskspaceStateResponse
      unfolding in_project send_as
      get_taskspace_state = in_project current_dir λ path uuid.
          send_as (codes "Failed to get taskspace state")
            (taskspace_state_request path uuid none none none)

      unfoldable pub delete_taskspace : Call IpcError (Unit {0})
      unfolding in_project send_as
      delete_taskspace =
          if ipc.test_mode
          then (ok tt, [])
          else in_project current_dir λ path uuid.
            send_as (codes "Failed to send delete_taskspace") (delete_taskspace_payload path uuid)
