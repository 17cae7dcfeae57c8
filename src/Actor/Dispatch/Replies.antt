-- ===== src/Actor/Dispatch/Replies.antt =====
-- How often a reply channel is answered.
use symposium.Prelude.{
  ℕ, ◌+◌, ◌≤◌, Bool, true, false, List, [], ◌∷◌, ◌++◌, Option, none, some, Result, ok, err, keep,
  ◌==◌, if◌then◌else◌, ◌≡◌, Bool-cases, Option-cases, inl, inr, arith,
}
use symposium.Prelude.Text.{Text}
use symposium.Prelude.Assoc
use symposium.Prelude.Assoc.{text_key}
use symposium.Actor.Messages.{MessageSender, IpcMessage, ResponsePayload}
use symposium.Actor.Dispatch
use symposium.Actor.Dispatch.{
  Serde, DispatchActor, Event, request, request_closed, client_message, client_closed, Sent,
  to_client, reply, to_reference, Moment, send, send_polo, respond_to, handle_store_reference,
  send_reply, handle_response, handle_incoming_message, retain, expect_reply, round, run,
}

-- How often `c` is expected to be answered.
abbrev pub pending : ℕ → List (Text × ℕ) → ℕ
pending c [] = 0
pending c ((id, d) ∷ m) = (if d == c then 1 else 0) + pending c m

pending-remove :
    (c : ℕ) (id : Text) (m : List (Text × ℕ)) → pending c (Assoc.remove id m) ≤ pending c m
unfolding Assoc.remove
pending-remove c id [] = omega arith
pending-remove c id ((j, d) ∷ m) = ground (arith, pending-remove c id m)

pending-remove-get :
    (c d : ℕ) (id : Text) (m : List (Text × ℕ))
    → Assoc.get id m ≡ some d
    → (if d == c then 1 else 0) + pending c (Assoc.remove id m) ≤ pending c m
unfolding Assoc.remove Assoc.get
pending-remove-get c d id [] h = cc
pending-remove-get c d id ((j, e) ∷ m) h =
    ground (arith, pending-remove c id m, pending-remove-get c d id m, h)

pending-keep :
    (c : ℕ) (p : Text × ℕ → Bool) (m : List (Text × ℕ)) → pending c (keep p m) ≤ pending c m
pending-keep c p [] = omega arith
pending-keep c p ((id, d) ∷ m) = elim (Bool-cases (p (id, d))) [
  | inl t ↦ rw (t, keep) (omega (arith, pending-keep c p m))
  | inr f ↦ rw (f, keep) (omega (arith, pending-keep c p m))
]

module _ (serde : Serde) where
  -- How often `c` is answered.
  abbrev pub replies : ℕ → List (Sent serde) → ℕ
  replies c [] = 0
  replies c (to_client message ∷ out) = replies c out
  replies c (to_reference key value ∷ out) = replies c out
  replies c (reply d payload ∷ out) = (if d == c then 1 else 0) + replies c out

  abbrev asked : ℕ → Event serde → ℕ
  asked c (request message (some d)) = if d == c then 1 else 0
  asked c (request message none) = 0
  asked c request_closed = 0
  asked c (client_message message) = 0
  asked c client_closed = 0

  -- How often `c` comes with a request.
  abbrev pub requests : ℕ → List (Moment × Event serde) → ℕ
  requests c [] = 0
  requests c ((now, e) ∷ es) = asked c e + requests c es

  pub replies-append :
      (c : ℕ) (xs ys : List (Sent serde)) → replies c (xs ++ ys) ≡ replies c xs + replies c ys
  replies-append c [] ys = omega arith
  replies-append c (to_client message ∷ xs) ys = replies-append c xs ys
  replies-append c (to_reference key value ∷ xs) ys = replies-append c xs ys
  replies-append c (reply d payload ∷ xs) ys = omega (arith, replies-append c xs ys)

  replies-send :
      (c : ℕ) (now : Moment) (message : IpcMessage serde.Value)
      → replies c (send serde now message) ≡ 0
  unfolding send
  replies-send c now message = elim (Bool-cases now.client_open) [ inl t ↦ rw t | inr f ↦ rw f ]

  -- After a round `c` is answered and still pending no more often than `n` times.
  Bound : ℕ → ℕ → DispatchActor serde × List (Sent serde) → Type 0
  Bound c n (s, out) = replies c out + pending c s.pending_replies ≤ n

  replies-send_polo :
      (c : ℕ) (now : Moment) (s : DispatchActor serde) → replies c (send_polo serde now s) ≡ 0
  unfolding send_polo
  replies-send_polo c now s = elim (Option-cases serde.polo_to) [
    | inl e ↦ rw (e, send_polo)
    | inr (payload, e) ↦ rw (e, send_polo) (replies-send c now _)
  ]

  replies-respond_to :
      (c : ℕ) (now : Moment) (id : Text) (result : Result Text (Unit {0})) (s : DispatchActor serde)
      → replies c (respond_to serde now id result s) ≡ 0
  unfolding respond_to
  replies-respond_to c now id result s =
      let payload : ResponsePayload (Unit {0}) = elim result [
        | ok d ↦ record { success = true; error = none; data_payload = some d }
        | err e ↦ record { success = false; error = some e; data_payload = none }
      ] in
      elim (Option-cases (serde.response_to payload)) [
        | inl e ↦ rw (e, respond_to)
        | inr (value, e) ↦ rw (e, respond_to) (replies-send c now _)
      ]

  replies-handle_store_reference :
      (c : ℕ) (now : Moment) (message : IpcMessage serde.Value) (s : DispatchActor serde)
      → replies c (handle_store_reference serde now message s) ≡ 0
  unfolding handle_store_reference
  replies-handle_store_reference c now message s =
      elim (Option-cases (serde.store_reference_from message.payload)) [
        | inl e ↦ rw (e, handle_store_reference)
        | inr ((key, value), e) ↦
            rw (e, handle_store_reference) (replies-respond_to c now message.id now.stored s)
      ]

  replies-send_reply :
      (c d : ℕ) (now : Moment) (payload : serde.Value)
      → replies c (send_reply serde now d payload) ≤ (if d == c then 1 else 0)
  unfolding send_reply
  replies-send_reply c d now payload = elim (Option-cases (serde.response_from payload)) [
    | inl e ↦ rw (e, send_reply) (omega arith)
    | inr (p, e) ↦ elim (Bool-cases (now.listens d)) [
      | inl t ↦ rw (e, t, send_reply) (omega arith)
      | inr f ↦ rw (e, f, send_reply) (omega arith)
    ]
  ]

  handle_response-Bound :
      (c : ℕ) (now : Moment) (message : IpcMessage serde.Value) (s : DispatchActor serde)
      → Bound c (pending c s.pending_replies) (handle_response serde now message s)
  unfolding handle_response Bound
  handle_response-Bound c now message s =
      elim (Option-cases (Assoc.get message.id s.pending_replies)) [
        | inl e ↦ rw (e, handle_response) (omega arith)
        | inr (d, e) ↦
            rw (e, handle_response)
              (omega (
                arith,
                replies-send_reply c d now message.payload,
                pending-remove-get c d message.id s.pending_replies e,
              ))
      ]

  handle_incoming_message-Bound :
      (c : ℕ) (now : Moment) (message : IpcMessage serde.Value) (s : DispatchActor serde)
      → Bound c (pending c s.pending_replies) (handle_incoming_message serde now message s)
  unfolding handle_incoming_message Bound
  handle_incoming_message-Bound c now message s = ground (
    arith,
    replies-send_polo c now s,
    replies-handle_store_reference c now message s,
    handle_response-Bound c now message s,
  )

  retain-pending :
      (c : ℕ) (now : Moment) (s : DispatchActor serde)
      → pending c (retain serde now s).pending_replies ≤ pending c s.pending_replies
  unfolding retain
  retain-pending c now s = pending-keep c _ s.pending_replies

  expect_reply-pending :
      (c : ℕ) (message : IpcMessage serde.Value) (reply_tx : Option ℕ) (s : DispatchActor serde)
      → pending c (expect_reply serde message.id reply_tx s).pending_replies
        ≤ asked c (request message reply_tx) + pending c s.pending_replies
  unfolding expect_reply Assoc.insert
  expect_reply-pending c message none s = omega arith
  expect_reply-pending c message (some d) s =
      omega (arith, pending-remove c message.id s.pending_replies)

  round-Bound :
      (c : ℕ) (now : Moment) (e : Event serde) (s : DispatchActor serde)
      → Bound c
          (asked c e + pending c s.pending_replies)
          ((round serde now e s).1, (round serde now e s).2)
  unfolding round Bound
  round-Bound c now request_closed s = omega arith
  round-Bound c now client_closed s = omega arith
  round-Bound c now (request message reply_tx) s =
      let t = expect_reply serde message.id reply_tx s in
      elim (Bool-cases now.client_open) [
        | inl t_open ↦
            rw (t_open, round)
              (omega (arith, expect_reply-pending c message reply_tx s, retain-pending c now t))
        | inr shut ↦ rw (shut, round) (omega (arith, expect_reply-pending c message reply_tx s))
      ]
  round-Bound c now (client_message message) s =
      let (t, out) = handle_incoming_message serde now message s in
      omega (arith, handle_incoming_message-Bound c now message s, retain-pending c now t)

  run-Bound :
      (c : ℕ) (es : List (Moment × Event serde)) (s : DispatchActor serde)
      → Bound c (requests c es + pending c s.pending_replies) (run serde es s)
  unfolding run Bound
  run-Bound c [] s = omega arith
  run-Bound c ((now, e) ∷ es) s = elim (Bool-cases (round serde now e s).0) [
    | inl more ↦
        rw (more, run)
          (omega (
            arith,
            round-Bound c now e s,
            run-Bound c es (round serde now e s).1,
            replies-append c (round serde now e s).2 (run serde es (round serde now e s).1).1,
          ))
    | inr over ↦ rw (over, run) (omega (arith, round-Bound c now e s))
  ]

  -- The answers on a channel that is waited for by the pending replies and the requests.
  pub replies-run_from :
      (c : ℕ) (es : List (Moment × Event serde)) (s : DispatchActor serde)
      → replies c (run serde es s).1 ≤ requests c es + pending c s.pending_replies
  unfolding Bound
  replies-run_from c es s = omega (arith, run-Bound c es s)

  -- Over a whole run of the actor a reply channel is answered no more often than it came with a
  -- request: one that comes with one request gets one answer at most, and one that comes with none
  -- gets none.
  pub replies-run :
      (sender : MessageSender) (has_reference_handle : Bool) (c : ℕ)
      (es : List (Moment × Event serde))
      → replies c (run serde es (Dispatch.new serde sender has_reference_handle)).1 ≤ requests c es
  unfolding Dispatch.new Bound
  replies-run sender has_reference_handle c es =
      omega (arith, run-Bound c es (Dispatch.new serde sender has_reference_handle))
