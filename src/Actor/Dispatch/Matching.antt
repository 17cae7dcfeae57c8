-- ===== src/Actor/Dispatch/Matching.antt =====
-- Which reply channel a response goes to.
use symposium.Prelude.{
  ℕ, Bool, true, false, List, [], ◌∷◌, ◌++◌, Option, none, some, keep, not, All, ◌≡◌, refl, ap, sym,
  Bool-cases, Option-cases, inl, inr, arith, append_assoc,
}
use symposium.Prelude.Text.{Text, text_eq, text_eq_iff}
use symposium.Prelude.Assoc
use symposium.Prelude.Assoc.{text_key, get-remove, get-insert}
use symposium.Actor.Messages.{IpcMessage, ResponsePayload, response}
use symposium.Actor.Dispatch.{
  Serde, DispatchActor, Event, request, request_closed, client_message, client_closed, to_client,
  reply, Moment, send_reply, handle_response, handle_incoming_message, retain, expect_reply, round,
  run,
}

get-keep :
    (i : Text) (c : ℕ) (closed : ℕ → Bool) (m : List (Text × ℕ))
    → Assoc.get i m ≡ some c
    → closed c ≡ false
    → Assoc.get i (keep (λ (id, channel). not (closed channel)) m) ≡ some c
unfolding Assoc.get
get-keep i c closed [] h f = cc
get-keep i c closed ((j, d) ∷ m) h f = elim (Bool-cases (text_eq j i)) [
  | inl same ↦
      let e : some d ≡ some c = rw (same, Assoc.get) at h in
      let g : closed d ≡ false = cc in rw (g, keep, same) e
  | inr other ↦
      let e : Assoc.get i m ≡ some c = rw (other, Assoc.get) at h in
      elim (Bool-cases (closed d)) [
        | inl gone ↦ rw (gone, keep) (get-keep i c closed m e f)
        | inr here ↦ rw (here, keep, other) (get-keep i c closed m e f)
      ]
]

module _ (serde : Serde) where
  -- The event leaves the expectation alone that `c` gets the response with id `i`, and the loop
  -- goes on: nothing is closed, and the id is neither asked for again nor answered.
  abbrev pub Quiet : Text → ℕ → Moment × Event serde → Type 0
  Quiet i c (now, request m reply_tx) =
      (now.is_closed c ≡ false) × (now.client_open ≡ true) × (text_eq m.id i ≡ false)
  Quiet i c (now, client_message m) =
      (now.is_closed c ≡ false) × (m.message_type ≡ response → text_eq m.id i ≡ false)
  Quiet i c (now, request_closed) = ⊥
  Quiet i c (now, client_closed) = ⊥

  abbrev Expects : Text → ℕ → DispatchActor serde → Type 0
  Expects i c s = Assoc.get i s.pending_replies ≡ some c

  retain-Expects :
      (i : Text) (c : ℕ) (now : Moment) (s : DispatchActor serde)
      → now.is_closed c ≡ false
      → Expects i c s
      → Expects i c (retain serde now s)
  unfolding retain
  retain-Expects i c now s f h = get-keep i c now.is_closed s.pending_replies h f

  handle_response-Expects :
      (i : Text) (c : ℕ) (now : Moment) (m : IpcMessage serde.Value) (s : DispatchActor serde)
      → text_eq m.id i ≡ false
      → Expects i c s
      → Expects i c (handle_response serde now m s).0
  unfolding handle_response
  handle_response-Expects i c now m s other h =
      elim (Option-cases (Assoc.get m.id s.pending_replies)) [
        | inl e ↦ rw (e, handle_response) h
        | inr (d, e) ↦ rw (e, handle_response, get-remove m.id i s.pending_replies, other) h
      ]

  handle_incoming_message-Expects :
      (i : Text) (c : ℕ) (now : Moment) (m : IpcMessage serde.Value) (s : DispatchActor serde)
      → (m.message_type ≡ response → text_eq m.id i ≡ false)
      → Expects i c s
      → Expects i c (handle_incoming_message serde now m s).0
  unfolding handle_incoming_message
  handle_incoming_message-Expects i c now m s other h =
      ground (arith, handle_response-Expects i c now m s, other, h)

  expect_reply-Expects :
      (i j : Text) (c : ℕ) (reply_tx : Option ℕ) (s : DispatchActor serde)
      → text_eq j i ≡ false
      → Expects i c s
      → Expects i c (expect_reply serde j reply_tx s)
  unfolding expect_reply
  expect_reply-Expects i j c none s other h = h
  expect_reply-Expects i j c (some d) s other h = rw (get-insert j i d s.pending_replies, other) h

  request-Expects :
      (i j : Text) (c : ℕ) (s : DispatchActor serde)
      → i ≡ j
      → Expects i c (expect_reply serde j (some c) s)
  unfolding expect_reply
  request-Expects i j c s same =
      let hit : text_eq j i ≡ true = (text_eq_iff j i).1 (sym same) in
      rw (get-insert j i c s.pending_replies, hit) refl

  round-Expects :
      (i : Text) (c : ℕ) (now : Moment) (e : Event serde) (s : DispatchActor serde)
      → Quiet i c (now, e)
      → Expects i c s
      → ((round serde now e s).0 ≡ true) × Expects i c (round serde now e s).1
  unfolding round
  round-Expects i c now request_closed s q h = absurd q
  round-Expects i c now client_closed s q h = absurd q
  round-Expects i c now (request m reply_tx) s (f, t_open, other) h =
      rw (t_open, round)
        (
          refl,
          retain-Expects i c now (expect_reply serde m.id reply_tx s) f
              (expect_reply-Expects i m.id c reply_tx s other h),
        )
  round-Expects i c now (client_message m) s (f, other) h = (
    refl,
    retain-Expects i c now (handle_incoming_message serde now m s).0 f
        (handle_incoming_message-Expects i c now m s other h),
  )

  module _ (c : ℕ) (now : Moment) (r : IpcMessage serde.Value) (p : ResponsePayload serde.Value)
      (is_response : r.message_type ≡ response) (parses : serde.response_from r.payload ≡ some p)
      (heard : now.listens c ≡ true) where
    handle_incoming_message-reply :
        (s : DispatchActor serde)
        → Expects r.id c s
        → (handle_incoming_message serde now r s).1 ≡ reply c p ∷ []
    unfolding handle_incoming_message handle_response send_reply
    handle_incoming_message-reply s h =
        rw (is_response, handle_incoming_message, h, handle_response, parses, heard, send_reply)
          refl

    run-reply :
        (es : List (Moment × Event serde)) (s : DispatchActor serde)
        → Expects r.id c s
        → All (Quiet r.id c) es
        → (run serde (es ++ (now, client_message r) ∷ []) s).1
          ≡ (run serde es s).1 ++ reply c p ∷ []
    unfolding run round
    run-reply [] s h q = rw (handle_incoming_message-reply s h) refl
    run-reply ((at, e) ∷ es) s h q =
        let (on, still) = round-Expects r.id c at e s q.0 h in
        rw (on, run, run-reply es (round serde at e s).1 still q.1, append_assoc)

  -- A request that expects a reply on `c` is sent, and then, with other messages in between, a
  -- response with the id of the request arrives: its payload goes to `c`, once, and nothing else is
  -- sent for it. In between nothing may be closed, and the id neither asked for again nor answered.
  pub run-request_reply :
      (s : DispatchActor serde) (m r : IpcMessage serde.Value) (c : ℕ) (start now : Moment)
      (es : List (Moment × Event serde)) (p : ResponsePayload serde.Value)
      → start.client_open ≡ true
      → start.is_closed c ≡ false
      → All (Quiet r.id c) es
      → r.id ≡ m.id
      → r.message_type ≡ response
      → serde.response_from r.payload ≡ some p
      → now.listens c ≡ true
      → (run serde ((start, request m (some c)) ∷ es ++ (now, client_message r) ∷ []) s).1
        ≡ to_client m ∷ (run serde es (round serde start (request m (some c)) s).1).1
          ++ reply c p ∷ []
  unfolding run round
  run-request_reply s m r c start now es p t_open f quiet same is_response parses heard =
      let t = expect_reply serde m.id (some c) s in
      let expects : Expects r.id c (retain serde start t) =
        retain-Expects r.id c start t f (request-Expects r.id m.id c s same) in
      rw (t_open) (
        ap (λ out. to_client m ∷ out)
          (run-reply c now r p is_response parses heard es (retain serde start t) expects quiet))
