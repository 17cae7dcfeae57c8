-- ===== src/Ipc/Handle/Outcome.antt =====
-- outdated/mcp-server/src/actor/dispatch.rs: what a call of `DispatchHandle::send` returns once the dispatch
-- actor has run.
use symposium.Prelude.{
  ℕ, ◌+◌, ◌≤◌, ◌==◌, ==_iff, true, false, List, [], ◌∷◌, ◌++◌, some, ok, All, Bool-cases,
  if◌then◌else◌, err, ◌≡◌, refl, ap, ◌∙◌, inl, inr, arith,
}
use symposium.Prelude.Text.{codes}
use symposium.Actor.Messages.{IpcMessage, ResponsePayload, response}
use symposium.Actor.Dispatch.{
  Serde, DispatchActor, Event, request, client_message, Sent, to_client, to_reference, reply,
  Moment, run, round,
}
use symposium.Actor.Dispatch.Replies.{replies, requests, pending, replies-append, replies-run_from}
use symposium.Actor.Dispatch.Matching.{Quiet, run-request_reply}
use symposium.Ipc.Payloads.{IpcPayload, expects_reply}
use symposium.Ipc.Handle.{
  Outside, Awaited, answered, timed_out, Exchange, DispatchHandle, request_of, receive, send,
  data_or_null, error_text,
}

itself : (c : ℕ) → ◌≡◌ {A = ℕ} (if c == c then 1 else 0) 1
itself c = ground arith

module _ {serde : Serde} where
  -- What a handle that waits on the channel `c` gets, if the actor sends this within the time.
  abbrev pub awaited_on : ℕ → List (Sent serde) → Awaited serde.Value
  awaited_on c [] = timed_out
  awaited_on c (to_client message ∷ out) = awaited_on c out
  awaited_on c (to_reference key value ∷ out) = awaited_on c out
  awaited_on c (reply d payload ∷ out) = elim (d == c) [
    | true ↦ answered payload
    | false ↦ awaited_on c out
  ]

  awaited_on-reply :
      (c : ℕ) (out : List (Sent serde)) (p : ResponsePayload serde.Value)
      → replies serde c out ≡ 0
      → awaited_on c (out ++ reply c p ∷ []) ≡ answered p
  awaited_on-reply c [] p h = rw ((==_iff c c).1 refl, awaited_on) refl
  awaited_on-reply c (to_client message ∷ out) p h = awaited_on-reply c out p h
  awaited_on-reply c (to_reference key value ∷ out) p h = awaited_on-reply c out p h
  awaited_on-reply c (reply d q ∷ out) p h = elim (Bool-cases (d == c)) [
    | inl t ↦ absurd (ground (arith, t, h))
    | inr f ↦ rw (f, awaited_on) (awaited_on-reply c out p (ground (arith, f, h)))
  ]

  -- One answer in all is the last one.
  no_reply_before :
      (c : ℕ) (m : IpcMessage serde.Value) (rest out : List (Sent serde))
      (p : ResponsePayload serde.Value)
      → out ≡ to_client m ∷ rest ++ reply c p ∷ []
      → replies serde c out ≤ 1
      → replies serde c rest ≡ 0
  no_reply_before c m rest out p e h =
      let one : replies serde c rest + (if c == c then 1 else 0) ≤ 1 =
        omega (arith, ap (replies serde c) e, replies-append serde c rest (reply c p ∷ []), h) in
      omega (arith, itself c, one)

  requests-append :
      (c : ℕ) (xs ys : List (Moment × Event serde))
      → requests serde c (xs ++ ys) ≡ requests serde c xs + requests serde c ys
  requests-append c [] ys = omega arith
  requests-append c (x ∷ xs) ys = omega (arith, requests-append c xs ys)

module _ (outside : Outside) (handle : DispatchHandle) (x : Exchange outside.serde.Value)
    (message : IpcPayload) (payload : outside.serde.Value) where
  -- The events of the actor: the request comes in with the channel `c`, and later the response.
  abbrev pub conversation :
      ℕ
      → (start : Moment) → List (Moment × Event outside.serde)
      → (now : Moment) → IpcMessage outside.serde.Value
      → List (Moment × Event outside.serde)
  conversation c start between now r =
      (start, request (request_of outside x handle message payload).message (some c)) ∷ between
      ++ (now, client_message r) ∷ []

  -- A call of `send` whose message expects a reply, and whose request the actor takes with a channel that
  -- nothing else waits on, returns what the response with the id of the request says, where that comes
  -- within the time: the reply that its data stands for, or the error that it names. In between
  -- the connection stays open, and the id is neither asked for again nor answered.
  pub send-conversation :
      (s : DispatchActor outside.serde) (c : ℕ) (start now : Moment)
      (between : List (Moment × Event outside.serde)) (r : IpcMessage outside.serde.Value)
      (p : ResponsePayload outside.serde.Value)
      → expects_reply message ≡ true
      → outside.to_value message ≡ ok payload
      → x.actor_open ≡ true
      → x.awaited ≡ awaited_on c (run outside.serde (conversation c start between now r) s).1
      → pending c s.pending_replies ≡ 0
      → requests outside.serde c between ≡ 0
      → start.client_open ≡ true
      → start.is_closed c ≡ false
      → All (Quiet outside.serde r.id c) between
      → r.id ≡ x.fresh_message_id
      → r.message_type ≡ response
      → outside.serde.response_from r.payload ≡ some p
      → now.listens c ≡ true
      → (send outside x handle message).0 ≡ (
          if p.success
          then outside.deserialize message (data_or_null outside p.data_payload)
          else err (codes "Request failed: " ++ error_text p.error))
  unfolding send receive
  send-conversation s c start now between r p expects value taken awaited idle silent opened kept
        quiet same is_response parses heard =
      let m = (request_of outside x handle message payload).message in
      let es = conversation c start between now r in
      let rest =
        (run outside.serde between (round outside.serde start (request m (some c)) s).1).1 in
      let out : (run outside.serde es s).1 ≡ to_client m ∷ rest ++ reply c p ∷ [] =
        run-request_reply outside.serde s m r c start now between p opened kept quiet same
          is_response parses heard in
      let few : requests outside.serde c es ≤ 1 =
        omega (arith, itself c, requests-append c between ((now, client_message r) ∷ []), silent) in
      let none_before : replies outside.serde c rest ≡ 0 =
        no_reply_before c m rest (run outside.serde es s).1 p out
          (omega (arith, replies-run_from outside.serde c es s, few, idle)) in
      let reply_first : x.awaited ≡ answered p =
        awaited ∙ ap (awaited_on c) out ∙ awaited_on-reply c rest p none_before in
      rw (value, taken, expects, reply_first, send) refl
