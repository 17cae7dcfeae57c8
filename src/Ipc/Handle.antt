-- ===== src/Ipc/Handle.antt =====
-- outdated/mcp-server/src/actor/dispatch.rs, `DispatchHandle`: a message to the dispatch actor, and the
-- reply that it waits for.
pub mod Outcome
use symposium.Prelude.{
  ℕ, Bool, true, false, List, [], ◌∷◌, ◌++◌, Option, some, none, Result, ok, err, if◌then◌else◌,
}
use symposium.Prelude.Text.{Text, codes}
use symposium.Actor.Messages.{MessageSender, IpcMessage, ResponsePayload}
use symposium.Actor.Dispatch
use symposium.Actor.Dispatch.{Serde, DispatchActor}
use symposium.Ipc.Payloads.{IpcPayload, Reply, expects_reply, message_type}
use symposium.Ipc.Project.{Directory, extract_project_info}

-- serde_json and uuid, as far as the handle calls them, and how the errors of the channels print.
pub record Outside : Type 1 where
  pub serde : Serde
  pub null : serde.Value
  pub to_value : IpcPayload → Result Text serde.Value
  pub deserialize : (message : IpcPayload) → serde.Value → Result Text (Reply message)
  pub parse_str : Text → Option Text
  pub send_error : Text
  pub recv_error : Text

-- What comes first: the reply, the end of its channel, or the end of 30 seconds.
pub data Awaited (Value : Type 0) : Type 0 where
  answered : ResponsePayload Value → Awaited Value
  dropped timed_out : Awaited Value

-- What a call of `send` meets: a fresh id, whether the actor takes requests, and what it waits for.
pub record Exchange (Value : Type 0) : Type 0 where
  pub fresh_message_id : Text
  pub actor_open : Bool
  pub awaited : Awaited Value

pub record DispatchHandle : Type 0 where
  pub sender : MessageSender

pub record DispatchRequest (Value : Type 0) : Type 0 where
  pub message : IpcMessage Value
  pub has_reply_tx : Bool

-- `unwrap_or_default` of the error of a response
abbrev pub error_text : Option Text → Text
error_text (some e) = e
error_text none = []

-- A directory's path, or `/`.
abbrev pub working_directory : Result Text (List Directory) → Text
working_directory (ok (d ∷ parents)) = d.path
working_directory (ok []) = codes "/"
working_directory (err e) = codes "/"

module _ (outside : Outside) where
  unfoldable pub create_sender :
      (shell_pid : Option ℕ) (current_dir : Result Text (List Directory)) → MessageSender
  unfolding extract_project_info
  create_sender shell_pid current_dir = record {
    working_directory = working_directory current_dir;
    taskspace_uuid = elim (extract_project_info outside.parse_str current_dir) [
      | ok (path, uuid) ↦ some uuid
      | err e ↦ none
    ];
    shell_pid = shell_pid;
  }

  -- The handle, and the actor that it spawns.
  unfoldable pub new :
      (shell_pid : Option ℕ) (current_dir : Result Text (List Directory))
      → DispatchHandle × DispatchActor outside.serde
  unfolding create_sender Dispatch.new
  new shell_pid current_dir =
      let sender = create_sender shell_pid current_dir in
      (record { sender = sender }, Dispatch.new outside.serde sender true)

  -- With a mock in place of the editor.
  unfoldable pub spawn_with_mock :
      (current_dir : Result Text (List Directory)) → DispatchHandle × DispatchActor outside.serde
  unfolding Dispatch.new
  spawn_with_mock current_dir =
      let sender : MessageSender = record {
        working_directory = working_directory current_dir;
        taskspace_uuid = none;
        shell_pid = none;
      } in
      (record { sender = sender }, Dispatch.new outside.serde sender false)

  -- The `data` of a response, or null.
  abbrev pub data_or_null : Option outside.serde.Value → outside.serde.Value
  data_or_null (some value) = value
  data_or_null none = outside.null

  unfoldable pub receive :
      (message : IpcPayload) → Awaited outside.serde.Value → Result Text (Reply message)
  receive message (answered response) =
      if response.success
      then outside.deserialize message (data_or_null response.data_payload)
      else err (codes "Request failed: " ++ error_text response.error)
  receive message dropped = err outside.recv_error
  receive message timed_out = err (codes "Request timed out after 30 seconds")

  abbrev pub request_of :
      Exchange outside.serde.Value
      → DispatchHandle
      → IpcPayload
      → outside.serde.Value
      → DispatchRequest outside.serde.Value
  request_of now handle message payload = record {
    message = record {
      message_type = message_type message;
      id = now.fresh_message_id;
      sender = handle.sender;
      payload = payload;
    };
    has_reply_tx = expects_reply message;
  }

  -- The result, and the requests that the actor has taken.
  unfoldable pub send :
      Exchange outside.serde.Value
      → DispatchHandle
      → (message : IpcPayload)
      → Result Text (Reply message) × List (DispatchRequest outside.serde.Value)
  unfolding receive
  send now handle message = elim (outside.to_value message) [
    | err e ↦ (err e, [])
    | ok payload ↦
        if now.actor_open
        then (
          (if expects_reply message
              then receive message now.awaited
              else outside.deserialize message outside.null),
          request_of now handle message payload ∷ [],
        )
        else (err outside.send_error, [])
  ]
