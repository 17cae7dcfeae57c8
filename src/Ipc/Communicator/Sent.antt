-- ===== src/Ipc/Communicator/Sent.antt =====
-- outdated/mcp-server/src/ipc.rs: which requests the operations of `IPCCommunicator` send.
use symposium.Prelude.{Bool, true, false, List, Option, some, none, Result, ok, ◌≡◌}
use symposium.Prelude.Text.{Text}
use symposium.Ide.Ranges.{SymbolDef}
use symposium.Actor.Messages
use symposium.Actor.Messages.{IpcMessageType}
use symposium.Ipc.Payloads.{
  message_type, LogLevel, ProgressCategory, IpcPayload, polo_message, goodbye_payload,
  get_selection_message, log_message, present_walkthrough_message, resolve_symbol_by_name_payload,
  find_all_references_payload, spawn_taskspace_payload, log_progress_payload, signal_user_payload,
  taskspace_state_request, delete_taskspace_payload,
}
use symposium.Ipc.Project.{Directory, extract_project_info}
use symposium.Ipc.Handle.{Outside, Exchange, DispatchRequest}
use symposium.Ipc.Communicator
use symposium.Ipc.Communicator.{IpcCommunicator}

-- The calls of an `IPCCommunicator`.
pub data Operation : Type 0 where
  present_walkthrough : (content base_uri : Text) → Operation
  get_selection send_polo send_goodbye shutdown get_taskspace_state delete_taskspace : Operation
  send_log_message : LogLevel → Text → Operation
  resolve_symbol_by_name : Text → Operation
  find_all_references : SymbolDef → Operation
  spawn_taskspace : (name task_description initial_prompt : Text) → Option Text → Operation
  log_progress : Text → ProgressCategory → Operation
  signal_user : Text → Operation
  update_taskspace : (name description : Text) → Option Text → Operation

-- What an operation tells the editor, for a project and a taskspace.
abbrev pub told : Operation → (path uuid : Text) → IpcPayload
told (present_walkthrough content base_uri) path uuid = present_walkthrough_message content base_uri
told get_selection path uuid = get_selection_message
told send_polo path uuid = polo_message
told send_goodbye path uuid = goodbye_payload
told shutdown path uuid = goodbye_payload
told get_taskspace_state path uuid = taskspace_state_request path uuid none none none
told delete_taskspace path uuid = delete_taskspace_payload path uuid
told (send_log_message level message) path uuid = log_message level message
told (resolve_symbol_by_name name) path uuid = resolve_symbol_by_name_payload name
told (find_all_references symbol) path uuid = find_all_references_payload symbol
told (spawn_taskspace name task prompt collaborator) path uuid =
    spawn_taskspace_payload path uuid name task prompt collaborator
told (log_progress message category) path uuid = log_progress_payload path uuid message category
told (signal_user message) path uuid = signal_user_payload path uuid message
told (update_taskspace name description collaborator) path uuid =
    taskspace_state_request path uuid (some name) (some description) collaborator

-- The type under which the editor gets the message of an operation.
abbrev pub type_of : Operation → IpcMessageType
type_of (present_walkthrough content base_uri) = Messages.present_walkthrough
type_of get_selection = Messages.get_selection
type_of send_polo = Messages.polo
type_of send_goodbye = Messages.goodbye
type_of shutdown = Messages.goodbye
type_of get_taskspace_state = Messages.taskspace_state
type_of delete_taskspace = Messages.delete_taskspace
type_of (send_log_message level message) = Messages.log
type_of (resolve_symbol_by_name name) = Messages.resolve_symbol_by_name
type_of (find_all_references symbol) = Messages.find_all_references
type_of (spawn_taskspace name task prompt collaborator) = Messages.spawn_taskspace
type_of (log_progress message category) = Messages.log_progress
type_of (signal_user message) = Messages.signal_user
type_of (update_taskspace name description collaborator) = Messages.taskspace_state

-- The operations that wait for an answer of the editor.
abbrev pub waits : Operation → Bool
waits (present_walkthrough content base_uri) = true
waits get_selection = true
waits get_taskspace_state = true
waits (resolve_symbol_by_name name) = true
waits (find_all_references symbol) = true
waits (update_taskspace name description collaborator) = true
waits other = false

-- The operations that are about the taskspace of the current directory.
abbrev pub asks_project : Operation → Bool
asks_project get_taskspace_state = true
asks_project delete_taskspace = true
asks_project (spawn_taskspace name task prompt collaborator) = true
asks_project (log_progress message category) = true
asks_project (signal_user message) = true
asks_project (update_taskspace name description collaborator) = true
asks_project other = false

-- The operations that do not look for test mode.
abbrev pub ignores_test_mode : Operation → Bool
ignores_test_mode get_taskspace_state = true
ignores_test_mode (update_taskspace name description collaborator) = true
ignores_test_mode other = false

module _ (outside : Outside) (now : Exchange outside.serde.Value) (ipc : IpcCommunicator)
    (current_dir : Result Text (List Directory)) where
  abbrev pub sent : Operation → List (DispatchRequest outside.serde.Value)
  sent (present_walkthrough content base_uri) =
      (Communicator.present_walkthrough outside now ipc content base_uri).1
  sent get_selection = (Communicator.get_selection outside now ipc).1
  sent send_polo = (Communicator.send_polo outside now ipc).1
  sent send_goodbye = (Communicator.send_goodbye outside now ipc).1
  sent shutdown = (Communicator.shutdown outside now ipc).1
  sent get_taskspace_state = (Communicator.get_taskspace_state outside now ipc current_dir).1
  sent delete_taskspace = (Communicator.delete_taskspace outside now ipc current_dir).1
  sent (send_log_message level message) =
      Communicator.send_log_message outside now ipc level message
  sent (resolve_symbol_by_name name) = (Communicator.resolve_symbol_by_name outside now ipc name).1
  sent (find_all_references symbol) = (Communicator.find_all_references outside now ipc symbol).1
  sent (spawn_taskspace name task prompt collaborator) =
      (Communicator.spawn_taskspace outside now ipc current_dir name task prompt collaborator).1
  sent (log_progress message category) =
      (Communicator.log_progress outside now ipc current_dir message category).1
  sent (signal_user message) = (Communicator.signal_user outside now ipc current_dir message).1
  sent (update_taskspace name description collaborator) =
      (Communicator.update_taskspace outside now ipc current_dir name description collaborator).1

  -- The request by which a message is sent for an operation.
  abbrev pub own_request : Operation → outside.serde.Value → DispatchRequest outside.serde.Value
  own_request op value = record {
    message = record {
      message_type = type_of op;
      id = now.fresh_message_id;
      sender = ipc.dispatch_handle.sender;
      payload = value;
    };
    has_reply_tx = waits op;
  }

  -- The request is what the operation tells the editor, of the right type, with a fresh id and the
  -- identity that this server was made with, and it asks for a reply exactly if the operation waits.
  abbrev pub IsOwn : Operation → DispatchRequest outside.serde.Value → Type 0
  IsOwn op req =
      (path uuid : Text) × (value : outside.serde.Value) × (ipc.test_mode ≡ true
        → ignores_test_mode op ≡ true)
      × (asks_project op ≡ true
          → extract_project_info outside.parse_str current_dir ≡ ok (path, uuid))
      × (outside.to_value (told op path uuid) ≡ ok value)
      × (req ≡ own_request op value)
