-- ===== src/Actor/Dispatch.antt =====
-- outdated/mcp-server/src/actor/dispatch.rs: the actor that routes messages and matches replies
-- with requests. A reply channel is its number.
pub mod Replies
pub mod Matching
use symposium.Prelude.{
  ℕ, Bool, true, false, List, [], ◌∷◌, ◌++◌, Option, none, some, Result, ok, err, keep, not,
  if◌then◌else◌,
}
use symposium.Prelude.Text.{Text}
use symposium.Prelude.Assoc
use symposium.Prelude.Assoc.{text_key}
use symposium.Actor.Messages.{
  IpcMessageType, marco, polo, response, store_reference, MessageSender, IpcMessage,
  ResponsePayload,
}

-- serde_json, as far as the actor calls it. `none` is an error.
pub record Serde : Type 1 where
  pub Value : Type 0
  pub response_from : Value → Option (ResponsePayload Value)
  -- the key and the value of a `StoreReferencePayload`
  pub store_reference_from : Value → Option (Text × Value)
  -- `to_value` of a response with a `ReferenceStored`, which has no content, and of a `PoloPayload`
  pub response_to : ResponsePayload (Unit {0}) → Option Value
  pub polo_to : Option Value

module _ (serde : Serde) where
  pub record DispatchActor : Type 0 where
    pub sender : MessageSender
    pub has_reference_handle : Bool
    pub pending_replies : List (Text × ℕ)

  -- What the two receivers of the loop give it.
  pub data Event : Type 0 where
    request : (message : IpcMessage serde.Value) (reply_tx : Option ℕ) → Event
    request_closed : Event
    client_message : IpcMessage serde.Value → Event
    client_closed : Event

  -- What the actor sends: to the client, on a reply channel, to the reference actor.
  pub data Sent : Type 0 where
    to_client : IpcMessage serde.Value → Sent
    reply : (channel : ℕ) (payload : ResponsePayload serde.Value) → Sent
    to_reference : (key : Text) (value : serde.Value) → Sent

-- What the actor meets in a round: whether the client takes messages, which reply channels still
-- have a listener when a reply is sent and when the closed ones are dropped, what the reference
-- actor returns, and a fresh id.
pub record Moment : Type 0 where
  pub client_open : Bool
  pub listens : ℕ → Bool
  pub is_closed : ℕ → Bool
  pub stored : Result Text (Unit {0})
  pub fresh_message_id : Text

module _ (serde : Serde) where
  unfoldable pub send : Moment → IpcMessage serde.Value → List (Sent serde)
  send now message = if now.client_open then to_client message ∷ [] else []

  unfoldable pub new : MessageSender → Bool → DispatchActor serde
  new sender has_reference_handle = record {
    sender = sender;
    has_reference_handle = has_reference_handle;
    pending_replies = [];
  }

  unfoldable pub send_polo : Moment → DispatchActor serde → List (Sent serde)
  unfolding send
  send_polo now s = elim serde.polo_to [
    | none ↦ []
    | some payload ↦ send now (record {
      message_type = polo;
      id = now.fresh_message_id;
      sender = s.sender;
      payload = payload;
    })
  ]

  unfoldable pub respond_to :
      Moment → (id : Text) → Result Text (Unit {0}) → DispatchActor serde → List (Sent serde)
  unfolding send
  respond_to now id result s =
      let payload : ResponsePayload (Unit {0}) = elim result [
        | ok d ↦ record { success = true; error = none; data_payload = some d }
        | err e ↦ record { success = false; error = some e; data_payload = none }
      ] in
      elim (serde.response_to payload) [
        | none ↦ []
        | some value ↦
            send now
              (record { message_type = response; id = id; sender = s.sender; payload = value })
      ]

  unfoldable pub handle_store_reference :
      Moment → IpcMessage serde.Value → DispatchActor serde → List (Sent serde)
  unfolding respond_to
  handle_store_reference now message s = elim (serde.store_reference_from message.payload) [
    | none ↦ []
    | some (key, value) ↦ to_reference key value ∷ respond_to now message.id now.stored s
  ]

  -- `reply_tx.send`
  unfoldable pub send_reply : Moment → ℕ → serde.Value → List (Sent serde)
  send_reply now channel payload = elim (serde.response_from payload) [
    | none ↦ []
    | some p ↦ if now.listens channel then reply channel p ∷ [] else []
  ]

  unfoldable pub handle_response :
      Moment
      → IpcMessage serde.Value
      → DispatchActor serde
      → DispatchActor serde × List (Sent serde)
  unfolding send_reply
  handle_response now message s = elim (Assoc.get message.id s.pending_replies) [
    | none ↦ (s, [])
    | some channel ↦ (
      record s { pending_replies = Assoc.remove message.id s.pending_replies },
      send_reply now channel message.payload,
    )
  ]

  unfoldable pub handle_incoming_message :
      Moment
      → IpcMessage serde.Value
      → DispatchActor serde
      → DispatchActor serde × List (Sent serde)
  unfolding handle_response send_polo handle_store_reference
  handle_incoming_message now message s = elim message.message_type [
    | marco ↦ (s, send_polo now s)
    | response ↦ handle_response now message s
    | store_reference ↦
        (s, (if s.has_reference_handle then handle_store_reference now message s else []))
    | _ ↦ (s, [])
  ]

  unfoldable pub retain : Moment → DispatchActor serde → DispatchActor serde
  retain now s = record s {
    pending_replies = keep (λ (id, channel). not (now.is_closed channel)) s.pending_replies;
  }

  unfoldable pub expect_reply : Text → Option ℕ → DispatchActor serde → DispatchActor serde
  expect_reply id none s = s
  expect_reply id (some channel) s = record s {
    pending_replies = Assoc.insert id channel s.pending_replies;
  }

  -- One round of the loop, and whether the loop goes on: a `break` leaves out the clean-up.
  unfoldable pub round :
      Moment → Event serde → DispatchActor serde → Bool × DispatchActor serde × List (Sent serde)
  unfolding expect_reply retain handle_incoming_message
  round now (request message reply_tx) s =
      let t = expect_reply message.id reply_tx s in
      if now.client_open then (true, retain now t, to_client message ∷ []) else (false, t, [])
  round now request_closed s = (false, s, [])
  round now (client_message message) s =
      let (t, out) = handle_incoming_message now message s in (true, retain now t, out)
  round now client_closed s = (false, s, [])

  -- `run`: the events in the order in which `select!` takes them, each with its moment.
  unfoldable pub run :
      List (Moment × Event serde) → DispatchActor serde → DispatchActor serde × List (Sent serde)
  unfolding round
  run [] s = (s, [])
  run ((now, e) ∷ es) s =
      let (goes_on, t, out) = round now e s in
      let (u, more) = run es t in if goes_on then (u, out ++ more) else (t, out)
