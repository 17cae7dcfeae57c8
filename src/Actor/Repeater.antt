-- ===== src/Actor/Repeater.antt =====
-- outdated/mcp-server/src/actor/repeater.rs: the actor that logs and broadcasts messages.
-- A channel is its number. `is_open` says which receivers are still there when a message is
-- handled: `send` on an unbounded channel fails exactly when the receiver is gone.
pub mod History
pub mod Broadcast
use symposium.Prelude.{
  ℕ, ◌+◌, ◌%◌, ◌^◌, Bool, true, false, List, [], ◌∷◌, ◌++◌, Option, none, some, leb, length, drop,
  keep, map, not, if◌then◌else◌,
}
use symposium.Prelude.Text.{Text, codes, text_eq}
use symposium.Prelude.Assoc
use symposium.Prelude.Assoc.{nat_eq}
use symposium.Prelude.Decimal.{to_string}

abbrev pub max_message_history : ℕ
max_message_history = 1024

-- serde_json, as far as the actor calls it.
pub record SerdeJson : Type 1 where
  pub Value : Type 0
  pub from_str : Text → Option Value
  -- `parsed.get("type").and_then(|t| t.as_str())`
  pub get_str : Text → Value → Option Text

pub record LoggedMessage : Type 0 where
  pub timestamp : ℕ  -- u64
  pub from_client_id : ℕ
  pub from_identifier : Text
  pub content : Text

pub data RepeaterMessage : Type 0 where
  subscribe : (sender : ℕ) → RepeaterMessage
  incoming_message : (from_client_id : ℕ) (content : Text) → RepeaterMessage
  debug_dump : (response_sender : ℕ) → RepeaterMessage
  debug_set_identifier : (client_id : ℕ) (identifier : Text) → RepeaterMessage

pub record RepeaterActor : Type 0 where
  pub subscribers : List ℕ
  pub message_history : List LoggedMessage
  pub client_identifiers : List (ℕ × Text)

-- What the actor puts on channels.
pub data Sent : Type 0 where
  broadcast : (receiver : ℕ) (content : Text) → Sent
  dumped : (receiver : ℕ) (history : List LoggedMessage) → Sent

-- What the actor meets when it handles a message: the clock in milliseconds, and the receivers
-- that are still open.
pub record Moment : Type 0 where
  pub millis : ℕ
  pub is_open : ℕ → Bool

unfoldable pub new : RepeaterActor
new = record { subscribers = []; message_history = []; client_identifiers = [] }

unfoldable pub identifier_of : List (ℕ × Text) → ℕ → Text
identifier_of ids client = elim (Assoc.get client ids) [
  | some name ↦ name
  | none ↦ to_string client
]

-- `pop_front` when full, then `push_back`
unfoldable pub push_history {ℓ} : {A : Type ℓ} → List A → A → List A
push_history history m =
    (if leb max_message_history (length history) then drop 1 history else history) ++ m ∷ []

unfoldable pub logged_message : Moment → ℕ → Text → RepeaterActor → LoggedMessage
unfolding identifier_of
logged_message now client content s = record {
  timestamp = now.millis % 2 ^ 64;
  from_client_id = client;
  from_identifier = identifier_of s.client_identifiers client;
  content = content;
}

module _ (json : SerdeJson) where
  unfoldable pub is_log : Text → Bool
  is_log content = elim (json.from_str content) [
    | none ↦ false
    | some parsed ↦ elim (json.get_str (codes "type") parsed) [
      | none ↦ false
      | some msg_type ↦ text_eq msg_type (codes "log")
    ]
  ]

  unfoldable pub handle_incoming_message :
      Moment → ℕ → Text → RepeaterActor → RepeaterActor × List Sent
  unfolding is_log logged_message push_history
  handle_incoming_message now client content s =
      let t = record s {
        message_history = push_history s.message_history (logged_message now client content s);
      } in
      let kept = keep now.is_open s.subscribers in
      if not (is_log content)
      then (record t { subscribers = kept }, map (λ c. broadcast c content) kept)
      else (t, [])

  -- One round of the loop in `run`.
  unfoldable pub handle : Moment → RepeaterMessage → RepeaterActor → RepeaterActor × List Sent
  unfolding handle_incoming_message
  handle now (subscribe sender) s = (record s { subscribers = s.subscribers ++ sender ∷ [] }, [])
  handle now (incoming_message client content) s = handle_incoming_message now client content s
  handle now (debug_dump receiver) s =
      (s, (if now.is_open receiver then dumped receiver s.message_history ∷ [] else []))
  handle now (debug_set_identifier client name) s =
      (record s { client_identifiers = Assoc.insert client name s.client_identifiers }, [])

  -- `run`: the messages that `recv` gives, each with the moment at which it is handled.
  unfoldable pub run : List (Moment × RepeaterMessage) → RepeaterActor → RepeaterActor × List Sent
  unfolding handle
  run [] s = (s, [])
  run ((now, m) ∷ ms) s =
      let (s', out) = handle now m s in let (s'', more) = run ms s' in (s'', out ++ more)
