-- ===== src/Server/Errors.antt =====
-- outdated/mcp-server/src/server.rs: what a tool answers, with the errors of rmcp; and how an `IPCError` of
-- ipc.rs prints.
use symposium.Prelude.{List, ◌++◌, Result}
use symposium.Prelude.Text.{Text, codes}
use symposium.Ipc.Project.{
  IpcError, missing_environment_variable, not_connected, timeout, channel_closed, connection_failed,
  serialization_error, write_error, send_error, other,
}

pub data ErrorCode : Type 0 where
  invalid_params internal_error resource_not_found : ErrorCode

-- The members of the JSON object `data` are `details`.
pub record McpError : Type 0 where
  pub code : ErrorCode
  pub message : Text
  pub details : List (Text × Text)

abbrev pub mcp_error : ErrorCode → Text → List (Text × Text) → McpError
mcp_error code message details = record { code = code; message = message; details = details }

-- The texts of a `CallToolResult::success`, or the error.
abbrev pub ToolResult : Type 0
ToolResult = Result McpError (List Text)

unfoldable pub to_string : IpcError → Text
to_string missing_environment_variable = codes "Environment variable DIALECTIC_IPC_PATH not set"
to_string not_connected = codes "IPC connection not established"
to_string timeout = codes "Request timeout after 5 seconds"
to_string channel_closed = codes "Response channel closed"
to_string (connection_failed path source) =
    codes "Failed to connect to socket/pipe at " ++ path ++ codes ": " ++ source
to_string (serialization_error e) = codes "Failed to serialize message: " ++ e
to_string (write_error e) = codes "Failed to write to IPC connection: " ++ e
to_string (send_error e) = codes "Failed to send message: " ++ e
to_string (other e) = codes "Other error: " ++ e
