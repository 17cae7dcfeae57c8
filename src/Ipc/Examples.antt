-- ===== src/Ipc/Examples.antt =====
-- The theorems about the messages of the MCP server at concrete calls.
use symposium.Prelude.{
  true, false, List, [], ◌∷◌, ◌++◌, none, some, All, Result, ok, err, ◌≡◌, refl, ◌↔◌,
}
use symposium.Prelude.Text.{Text, codes, text_eq}
use symposium.Prelude.Assoc.{text_key}
use symposium.Actor.Messages.{
  IpcMessageType, IpcMessage, ResponsePayload, get_selection, log, response,
}
use symposium.Actor.Dispatch
use symposium.Actor.Dispatch.{Serde, DispatchActor, Event, request, client_message}
use symposium.Ipc.Payloads.{IpcPayload, Reply, present_walkthrough_message, expects_reply}
use symposium.Ipc.Project.{Directory, extract_project_info}
use symposium.Ipc.Project.Found.{is_project, outermost, extract_project_info_iff}
use symposium.Ipc.Handle.{Outside, Exchange, timed_out, DispatchHandle, send}
use symposium.Ipc.Handle.Outcome.{awaited_on, conversation, send-conversation}
use symposium.Ipc.Communicator.{IpcCommunicator}
use symposium.Ipc.Communicator.Sent.{Operation, spawn_taskspace}

abbrev answer : Text → ResponsePayload Text
answer t = record { success = true; error = none; data_payload = some t }

-- A stand-in for JSON: a text is the response that has it for data.
abbrev serde : Serde
serde = record {
  Value = Text;
  response_from = λ t. some (answer t);
  store_reference_from = λ t. none;
  response_to = λ p. some (codes "{}");
  polo_to = some (codes "{}");
}

abbrev read_reply : (message : IpcPayload) → Text → Result Text (Reply message)
read_reply (present_walkthrough_message content base_uri) t = ok tt
read_reply other t = err (codes "not read")

abbrev outside : Outside
outside = record {
  serde = serde;
  null = codes "null";
  to_value = λ message. ok (codes "{}");
  deserialize = read_reply;
  parse_str = λ t. some t;
  send_error = codes "channel closed";
  recv_error = codes "channel closed";
}

abbrev directory : (path name : Text) → Directory
directory path name = record { path = path; file_name = some name }

-- `/p.symposium/task-b/task-a/src`
abbrev dirs : List Directory
dirs =
    directory (codes "/p.symposium/task-b/task-a/src") (codes "src")
    ∷ directory (codes "/p.symposium/task-b/task-a") (codes "task-a")
    ∷ directory (codes "/p.symposium/task-b") (codes "task-b")
    ∷ directory (codes "/p.symposium") (codes "p.symposium")
    ∷ record { path = codes "/"; file_name = none }
    ∷ []

extract_project_info_iff_example :
    (extract_project_info (λ t. some t) (ok dirs) ≡ ok (codes "/p.symposium", codes "b")) ↔ (
      (below : List Directory) × (d : Directory) × (above : List Directory) × (dirs
        ≡ below ++ d ∷ above)
      × All (λ e. is_project e ≡ false) below
      × (is_project d ≡ true)
      × (d.path ≡ codes "/p.symposium")
      × (outermost (λ t. some t) (below ++ d ∷ []) ≡ some (codes "b")))
extract_project_info_iff_example =
    extract_project_info_iff (λ t. some t) dirs (codes "/p.symposium") (codes "b")

abbrev handle : DispatchHandle
handle = record {
  sender = record { working_directory = codes "/w"; taskspace_uuid = none; shell_pid = some 42 };
}

abbrev silence : Exchange Text
silence = record { fresh_message_id = codes "a"; actor_open = true; awaited = timed_out }

abbrev showing : IpcPayload
showing = present_walkthrough_message (codes "<p>") (codes "/w")

abbrev message_of : IpcMessageType → Text → Text → IpcMessage Text
message_of kind id payload = record {
  message_type = kind;
  id = id;
  sender = handle.sender;
  payload = payload;
}

abbrev calm : Dispatch.Moment
calm = record {
  client_open = true;
  listens = λ c. true;
  is_closed = λ c. false;
  stored = ok tt;
  fresh_message_id = codes "f";
}

-- Another request and a log message come in between.
abbrev between : List (Dispatch.Moment × Event serde)
between =
    (calm, request (message_of get_selection (codes "b") []) (some 4))
    ∷ (calm, client_message (message_of log (codes "a") (codes "x")))
    ∷ []

abbrev response_message : IpcMessage Text
response_message = message_of response (codes "a") (codes "shown")

abbrev exchange : Exchange Text
exchange = record silence {
  awaited =
      awaited_on 3
        (Dispatch.run serde
          (conversation outside handle silence showing (codes "{}") 3 calm between calm
            response_message)
          (Dispatch.new serde handle.sender true)).1;
}

send-conversation_example :
    (send outside exchange handle showing).0 ≡ read_reply showing (codes "shown")
unfolding text_eq Dispatch.new expects_reply
send-conversation_example =
    send-conversation outside handle exchange showing (codes "{}")
      (Dispatch.new serde handle.sender true) 3 calm calm between response_message
      (answer (codes "shown")) refl refl refl refl refl refl refl refl
      ((refl, refl, refl), ((refl, λ e. cc), tt)) refl refl refl refl

abbrev communicator : IpcCommunicator
communicator = record { dispatch_handle = handle; terminal_shell_pid = some 42; test_mode = false }

abbrev spawning : Operation
spawning = spawn_taskspace (codes "n") (codes "t") (codes "p") none
