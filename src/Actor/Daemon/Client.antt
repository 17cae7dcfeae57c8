-- ===== src/Actor/Daemon/Client.antt =====
-- outdated/mcp-server/src/daemon.rs, `handle_client` and `handle_debug_command`: the task of one
-- connection. What its two sources give it are the events of a run. `read_line` takes a line in parts:
-- what it has taken is lost when `select!` drops it for a message of the repeater.
pub mod Forwards
use symposium.Prelude.{ℕ, Bool, true, false, List, [], ◌∷◌, ◌++◌, Option, none, some, if◌then◌else◌}
use symposium.Prelude.Text.{Text, codes, text_eq, starts_with, strip_prefix, trim, is_empty}
use symposium.Actor.Repeater.{
  LoggedMessage, RepeaterMessage, subscribe, incoming_message, debug_dump, debug_set_identifier,
}

pub data ClientEvent : Type 0 where
  -- from the connection: `read_line` returns 0 or fails, takes a part of a line and waits, or takes
  -- the rest of a line and returns
  eof read_failed : ClientEvent
  part_read line_read : Text → ClientEvent
  -- from the repeater
  received : (message : Text) → ClientEvent
  repeater_closed : ClientEvent

-- What the task meets in a round: whether the repeater takes messages, whether `write_all` and
-- `flush` succeed, and the answer to a dump, whose channel is `response_tx`.
pub record ClientRound : Type 0 where
  pub repeater_open : Bool
  pub write_all : Bool
  pub flush : Bool
  pub response_tx : ℕ
  pub dumped : Option (List LoggedMessage)

pub data ClientSent : Type 0 where
  to_repeater : RepeaterMessage → ClientSent
  to_writer : Text → ClientSent

-- `char::is_whitespace`, and `serde_json::to_string` of the entries of a dump.
module _ (is_whitespace : ℕ → Bool) (entries_to_string : List LoggedMessage → Option Text) where
  unfoldable pub dump_response : Option (List LoggedMessage) → Text
  dump_response none = codes "[]"
  dump_response (some messages) = elim (entries_to_string messages) [
    | some t ↦ t
    | none ↦ codes "[]"
  ]

  unfoldable pub handle_debug_command :
      ClientRound → (command : Text) (client_id : ℕ) → List ClientSent
  unfolding dump_response
  handle_debug_command now command client_id =
      if text_eq command (codes "#debug_dump_messages")
      then (if now.repeater_open
          then to_repeater (debug_dump now.response_tx)
            ∷ (if now.write_all
                then to_writer (dump_response now.dumped ++ b'\n' ∷ []) ∷ []
                else [])
          else [])
      else elim (strip_prefix command (codes "#identify:")) [
        | none ↦ []
        | some identifier ↦
            (if now.repeater_open
              then to_repeater (debug_set_identifier client_id identifier) ∷ []
              else [])
      ]

  unfoldable pub handle_client_message :
      ClientRound → (client_id : ℕ) (message : Text) → Bool × List ClientSent
  unfolding handle_debug_command
  handle_client_message now client_id message =
      if is_empty message
      then (true, [])
      else if starts_with message (codes "#")
      then (true, handle_debug_command now message client_id)
      else if now.repeater_open
      then (true, to_repeater (incoming_message client_id message) ∷ [])
      else (false, [])

  -- What `select!` does with an event, when `read_line` has taken `taken` of a line: whether the loop
  -- goes on, what is taken of a line then, and what is sent.
  unfoldable pub client_round :
      ClientRound → (client_id : ℕ) (taken : Text) → ClientEvent → Bool × Text × List ClientSent
  unfolding handle_client_message
  client_round now client_id taken eof = (false, [], [])
  client_round now client_id taken read_failed = (false, [], [])
  client_round now client_id taken (part_read part) = (true, taken ++ part, [])
  client_round now client_id taken (line_read rest) =
      let (goes_on, out) =
        handle_client_message now client_id (trim is_whitespace (taken ++ rest)) in
      (goes_on, [], out)
  client_round now client_id taken (received message) =
      if now.write_all
      then (now.flush, [], to_writer (message ++ b'\n' ∷ []) ∷ [])
      else (false, [], [])
  client_round now client_id taken repeater_closed = (false, [], [])

  unfoldable pub client_loop :
      (client_id : ℕ) (taken : Text) → List (ClientRound × ClientEvent) → List ClientSent
  unfolding client_round
  client_loop client_id taken [] = []
  client_loop client_id taken ((now, e) ∷ es) =
      let (goes_on, left, out) = client_round now client_id taken e in
      let rest = client_loop client_id left es in if goes_on then out ++ rest else out

  unfoldable pub handle_client :
      (repeater_open : Bool) (client_tx client_id : ℕ)
      → List (ClientRound × ClientEvent)
      → List ClientSent
  unfolding client_loop
  handle_client repeater_open client_tx client_id es =
      if repeater_open then to_repeater (subscribe client_tx) ∷ client_loop client_id [] es else []
