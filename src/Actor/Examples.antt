-- ===== src/Actor/Examples.antt =====
-- The theorems about the actors at concrete messages.
use symposium.Prelude.{
  ℕ, true, false, List, [], ◌∷◌, ◌++◌, none, some, ok, ◌≡◌, refl, ◌↔◌, ◌≤◌, ◌==◌, if◌then◌else◌,
  not,
}
use symposium.Prelude.Text.{Text, codes, text_eq, starts_with}
use symposium.Actor.Repeater
use symposium.Actor.Repeater.{
  SerdeJson, RepeaterActor, RepeaterMessage, subscribe, incoming_message, debug_set_identifier,
  Moment, max_message_history,
}
use symposium.Actor.Repeater.History.{last_n, incoming, view, run-eq-last_n}
use symposium.Actor.Repeater.Broadcast.{IsLog, received, expected, run-received}
use symposium.Actor.Messages.{
  IpcMessage, MessageSender, ResponsePayload, IpcMessageType, get_selection, log, response,
}
use symposium.Actor.Dispatch
use symposium.Actor.Dispatch.{
  Serde, DispatchActor, Event, request, client_message, to_client, reply, round,
}
use symposium.Actor.Dispatch.Replies.{replies, requests, replies-run}
use symposium.Actor.Reference
use symposium.Actor.Reference.{ReferenceMessage, store_reference, get_reference, found}
use symposium.Actor.Reference.Latest.{run-latest}
use symposium.Actor.Dispatch.Matching.{run-request_reply}

-- A stand-in for JSON: a text is a value, and its type is `log` if it begins so.
abbrev json : SerdeJson
json = record {
  Value = Text;
  from_str = λ t. some t;
  get_str = λ key t. if starts_with t (codes "log") then some (codes "log") else none;
}

-- The receiver 8 is gone from the second moment on.
abbrev session : List (Moment × RepeaterMessage)
session =
    (record { millis = 1; is_open = λ c. true }, subscribe 7)
    ∷ (record { millis = 2; is_open = λ c. true }, subscribe 8)
    ∷ (record { millis = 3; is_open = λ c. true }, debug_set_identifier 1 (codes "vscode"))
    ∷ (record { millis = 4; is_open = λ c. not (c == 8) }, incoming_message 1 (codes "hello"))
    ∷ (record { millis = 5; is_open = λ c. not (c == 8) }, incoming_message 2 (codes "log line"))
    ∷ []

run-eq-last_n_example :
    view (Repeater.run json session Repeater.new).0 ≡ last_n 1024 (incoming session)
run-eq-last_n_example = run-eq-last_n json session

run-received_example :
    (received 7 (Repeater.run json session Repeater.new).1 ≡ expected json 7 0 session)
    × ((t : Text) → (Repeater.is_log json t ≡ true) ↔ IsLog json t)
unfolding Repeater.new
run-received_example = run-received json 7 session Repeater.new

abbrev editor : MessageSender
editor = record { working_directory = codes "/w"; taskspace_uuid = none; shell_pid = some 42 }

abbrev answer : Text → ResponsePayload Text
answer t = record { success = true; error = none; data_payload = some t }

-- A stand-in for JSON again: a text is the response that has it for data.
abbrev serde : Serde
serde = record {
  Value = Text;
  response_from = λ t. some (answer t);
  store_reference_from = λ t. none;
  response_to = λ p. some (codes "{}");
  polo_to = some (codes "{}");
}

abbrev message_of : IpcMessageType → Text → Text → IpcMessage Text
message_of kind id payload = record {
  message_type = kind;
  id = id;
  sender = editor;
  payload = payload;
}

abbrev calm : Dispatch.Moment
calm = record {
  client_open = true;
  listens = λ c. true;
  is_closed = λ c. false;
  stored = ok tt;
  fresh_message_id = codes "f";
}

-- Another request and a log message come in between.
abbrev between : List (Dispatch.Moment × Event serde)
between =
    (calm, request (message_of get_selection (codes "b") []) (some 4))
    ∷ (calm, client_message (message_of log (codes "a") (codes "x")))
    ∷ []

abbrev asking : IpcMessage Text
asking = message_of get_selection (codes "a") []

abbrev answering : IpcMessage Text
answering = message_of response (codes "a") (codes "selected")

abbrev exchange : List (Dispatch.Moment × Event serde)
exchange = (calm, request asking (some 3)) ∷ between ++ (calm, client_message answering) ∷ []

replies-run_example :
    replies serde 3 (Dispatch.run serde exchange (Dispatch.new serde editor false)).1
    ≤ requests serde 3 exchange
replies-run_example = replies-run serde editor false 3 exchange

run-request_reply_example :
    (Dispatch.run serde exchange (Dispatch.new serde editor false)).1
    ≡ to_client asking
        ∷ (Dispatch.run serde between
            (round serde calm (request asking (some 3)) (Dispatch.new serde editor false)).1).1
      ++ reply 3 (answer (codes "selected")) ∷ []
unfolding text_eq
run-request_reply_example =
    run-request_reply serde (Dispatch.new serde editor false) asking answering 3 calm calm between
      (answer (codes "selected")) refl refl ((refl, refl, refl), ((refl, λ h. cc), tt)) refl refl
      refl refl

abbrev stores : List (ReferenceMessage ℕ)
stores =
    store_reference (codes "k") 1 5
    ∷ get_reference (codes "k") 6
    ∷ store_reference (codes "k") 2 7
    ∷ store_reference (codes "j") 3 8
    ∷ []

run-latest_example :
    (Reference.run (λ c. true) (stores ++ get_reference (codes "k") 9 ∷ []) Reference.new).1
    ≡ (Reference.run (λ c. true) stores Reference.new).1 ++ found 9 (some 2) ∷ []
unfolding text_eq
run-latest_example = run-latest (λ c. true) stores (codes "k") 9 refl
