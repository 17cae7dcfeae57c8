-- ===== src/Actor/Messages.antt =====
-- outdated/mcp-server/src/types.rs: the messages between the MCP server and the editor. A payload
-- is a JSON value.
use symposium.Prelude.{ℕ, Bool, Option}
use symposium.Prelude.Text.{Text}

pub data IpcMessageType : Type 0 where
  present_review present_walkthrough log get_selection marco polo goodbye : IpcMessageType
  response resolve_symbol_by_name find_all_references user_feedback : IpcMessageType
  store_reference reload_window spawn_taskspace log_progress signal_user : IpcMessageType
  update_taskspace taskspace_state taskspace_roll_call : IpcMessageType
  register_taskspace_window delete_taskspace : IpcMessageType

pub record MessageSender : Type 0 where
  pub working_directory : Text
  pub taskspace_uuid : Option Text
  pub shell_pid : Option ℕ

pub record IpcMessage (Value : Type 0) : Type 0 where
  pub message_type : IpcMessageType
  pub id : Text
  pub sender : MessageSender
  pub payload : Value

pub record ResponsePayload (T : Type 0) : Type 0 where
  pub success : Bool
  pub error : Option Text
  pub data_payload : Option T
