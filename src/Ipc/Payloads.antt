-- ===== src/Ipc/Payloads.antt =====
-- outdated/mcp-server/src/types.rs: the payloads that the MCP server sends, with the trait `IpcPayload`.
use symposium.Prelude.{ℕ, Bool, true, false, List, Option}
use symposium.Prelude.Text.{Text}
use symposium.Ide.Ranges.{FileRange, SymbolDef}
use symposium.Actor.Messages.{IpcMessageType}
use symposium.Actor.Messages

pub data LogLevel : Type 0 where
  info error debug : LogLevel

pub data ProgressCategory : Type 0 where
  info warn error milestone question : ProgressCategory

pub record GetSelectionResult : Type 0 where
  pub selected_text : Option Text
  pub file_path : Option Text
  pub start_line : Option ℕ
  pub start_column : Option ℕ
  pub end_line : Option ℕ
  pub end_column : Option ℕ
  pub line_number : Option ℕ
  pub document_language : Option Text
  pub is_untitled : Option Bool
  pub message : Option Text

pub record TaskspaceStateResponse : Type 0 where
  pub name : Option Text
  pub description : Option Text
  pub initial_prompt : Option Text
  pub collaborator : Option Text

pub data IpcPayload : Type 0 where
  marco_message polo_message polo_payload goodbye_payload get_selection_message : IpcPayload
  log_message : (level : LogLevel) (message : Text) → IpcPayload
  present_walkthrough_message : (content base_uri : Text) → IpcPayload
  resolve_symbol_by_name_payload : (name : Text) → IpcPayload
  find_all_references_payload : (symbol : SymbolDef) → IpcPayload
  spawn_taskspace_payload :
      (project_path taskspace_uuid name task_description initial_prompt : Text)
      (collaborator : Option Text)
      → IpcPayload
  log_progress_payload :
      (project_path taskspace_uuid message : Text) (category : ProgressCategory) → IpcPayload
  signal_user_payload : (project_path taskspace_uuid message : Text) → IpcPayload
  taskspace_state_request :
      (project_path taskspace_uuid : Text) (name description collaborator : Option Text)
      → IpcPayload
  get_taskspace_state_payload : (project_path taskspace_uuid : Text) → IpcPayload
  delete_taskspace_payload : (project_path taskspace_uuid : Text) → IpcPayload

-- `IpcPayload::EXPECTS_REPLY`
unfoldable pub expects_reply : IpcPayload → Bool
expects_reply marco_message = false
expects_reply polo_message = false
expects_reply polo_payload = false
expects_reply goodbye_payload = false
expects_reply get_selection_message = true
expects_reply (log_message level message) = false
expects_reply (present_walkthrough_message content base_uri) = true
expects_reply (resolve_symbol_by_name_payload name) = true
expects_reply (find_all_references_payload symbol) = true
expects_reply (spawn_taskspace_payload path uuid name task prompt collaborator) = false
expects_reply (log_progress_payload path uuid message category) = false
expects_reply (signal_user_payload path uuid message) = false
expects_reply (taskspace_state_request path uuid name description collaborator) = true
expects_reply (get_taskspace_state_payload path uuid) = true
expects_reply (delete_taskspace_payload path uuid) = false

-- `IpcPayload::Reply`
abbrev pub Reply : IpcPayload → Type 0
Reply marco_message = Unit
Reply polo_message = Unit
Reply polo_payload = Unit
Reply goodbye_payload = Unit
Reply get_selection_message = GetSelectionResult
Reply (log_message level message) = Unit
Reply (present_walkthrough_message content base_uri) = Unit
Reply (resolve_symbol_by_name_payload name) = List SymbolDef
Reply (find_all_references_payload symbol) = List FileRange
Reply (spawn_taskspace_payload path uuid name task prompt collaborator) = Unit
Reply (log_progress_payload path uuid message category) = Unit
Reply (signal_user_payload path uuid message) = Unit
Reply (taskspace_state_request path uuid name description collaborator) = TaskspaceStateResponse
Reply (get_taskspace_state_payload path uuid) = TaskspaceStateResponse
Reply (delete_taskspace_payload path uuid) = Unit

-- `IpcPayload::message_type`
unfoldable pub message_type : IpcPayload → IpcMessageType
message_type marco_message = Messages.marco
message_type polo_message = Messages.polo
message_type polo_payload = Messages.polo
message_type goodbye_payload = Messages.goodbye
message_type get_selection_message = Messages.get_selection
message_type (log_message level message) = Messages.log
message_type (present_walkthrough_message content base_uri) = Messages.present_walkthrough
message_type (resolve_symbol_by_name_payload name) = Messages.resolve_symbol_by_name
message_type (find_all_references_payload symbol) = Messages.find_all_references
message_type (spawn_taskspace_payload path uuid name task prompt collaborator) =
    Messages.spawn_taskspace
message_type (log_progress_payload path uuid message category) = Messages.log_progress
message_type (signal_user_payload path uuid message) = Messages.signal_user
message_type (taskspace_state_request path uuid name description collaborator) =
    Messages.taskspace_state
message_type (get_taskspace_state_payload path uuid) = Messages.taskspace_state
message_type (delete_taskspace_payload path uuid) = Messages.delete_taskspace
