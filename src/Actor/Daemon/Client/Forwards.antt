-- ===== src/Actor/Daemon/Client/Forwards.antt =====
-- What of a connection's lines reaches the repeater, and what its messages become on the connection.
use symposium.Prelude.{
  ℕ, Bool, true, false, List, [], ◌∷◌, ◌++◌, Option, map, All, sym, not, ◌&&◌, if◌then◌else◌, ◌≡◌,
  refl, ap, ◌∙◌, Bool-cases, inl, inr, arith,
}
use symposium.Prelude.Text.{Text, codes, starts_with, trim, is_empty}
use symposium.Actor.Repeater
use symposium.Actor.Repeater.{
  SerdeJson, LoggedMessage, RepeaterMessage, Moment, subscribe, incoming_message, debug_dump,
  debug_set_identifier, max_message_history,
}
use symposium.Actor.Repeater.History.{last_n, incoming, view, run-eq-last_n}
use symposium.Actor.Daemon.Client.{
  ClientEvent, eof, read_failed, part_read, line_read, received, repeater_closed, ClientRound,
  ClientSent, to_repeater, to_writer, handle_debug_command, handle_client_message, client_round,
  client_loop, handle_client,
}

-- The connection and the repeater are well in this round.
abbrev pub IsWell : ClientRound × ClientEvent → Type 0
IsWell (now, eof) = ⊥
IsWell (now, read_failed) = ⊥
IsWell (now, repeater_closed) = ⊥
IsWell (now, part_read part) = Unit
IsWell (now, line_read rest) = now.repeater_open ≡ true
IsWell (now, received message) = (now.write_all ≡ true) × (now.flush ≡ true)

abbrev pub messages : List ClientSent → List RepeaterMessage
messages [] = []
messages (to_repeater m ∷ out) = m ∷ messages out
messages (to_writer t ∷ out) = messages out

-- What of a line has been taken after an event: nothing is kept over a message of the repeater.
abbrev still_taken : Text → ClientEvent → Text
still_taken taken (part_read part) = taken ++ part
still_taken taken (line_read rest) = []
still_taken taken (received message) = []
still_taken taken eof = []
still_taken taken read_failed = []
still_taken taken repeater_closed = []

-- What a client says by a line: what is left of it without the space around, unless nothing is
-- left or it is a command.
abbrev pub said : (ℕ → Bool) → (line : Text) → List Text
said ws line =
    let t = trim ws line in
    if not (is_empty t) && not (starts_with t (codes "#")) then t ∷ [] else []

abbrev said_by : (ℕ → Bool) → Text → ClientEvent → List Text
said_by ws taken (line_read rest) = said ws (taken ++ rest)
said_by ws taken (part_read part) = []
said_by ws taken (received message) = []
said_by ws taken eof = []
said_by ws taken read_failed = []
said_by ws taken repeater_closed = []

-- What a client says by its lines, as far as no message of the repeater came into them.
abbrev pub says : (ℕ → Bool) → (taken : Text) → List (ClientRound × ClientEvent) → List Text
says ws taken [] = []
says ws taken ((now, e) ∷ es) = said_by ws taken e ++ says ws (still_taken taken e) es

-- The texts of messages to be repeated.
abbrev pub texts : List RepeaterMessage → List (ℕ × Text)
texts [] = []
texts (subscribe c ∷ ms) = texts ms
texts (debug_dump c ∷ ms) = texts ms
texts (debug_set_identifier c t ∷ ms) = texts ms
texts (incoming_message c t ∷ ms) = (c, t) ∷ texts ms

texts-messages-append :
    (xs ys : List ClientSent)
    → texts (messages (xs ++ ys)) ≡ texts (messages xs) ++ texts (messages ys)
texts-messages-append [] ys = refl
texts-messages-append (to_writer t ∷ xs) ys = texts-messages-append xs ys
texts-messages-append (to_repeater (subscribe c) ∷ xs) ys = texts-messages-append xs ys
texts-messages-append (to_repeater (debug_dump c) ∷ xs) ys = texts-messages-append xs ys
texts-messages-append (to_repeater (debug_set_identifier c t) ∷ xs) ys = texts-messages-append xs ys
texts-messages-append (to_repeater (incoming_message c t) ∷ xs) ys =
    ap (◌∷◌ (c, t)) (texts-messages-append xs ys)

module _ (is_whitespace : ℕ → Bool) (entries_to_string : List LoggedMessage → Option Text) where
  handle_debug_command-silent :
      (now : ClientRound) (command : Text) (client_id : ℕ)
      → texts
          (messages (handle_debug_command is_whitespace entries_to_string now command client_id))
        ≡ []
  unfolding handle_debug_command
  handle_debug_command-silent now command client_id = ground arith

  handle_client_message-says :
      (now : ClientRound) (client_id : ℕ) (t : Text)
      → now.repeater_open ≡ true
      → let (goes_on, out) =
          handle_client_message is_whitespace entries_to_string now client_id t in
        (goes_on ≡ true)
        × (texts (messages out) ≡ (
            if not (is_empty t) && not (starts_with t (codes "#"))
            then (client_id, t) ∷ []
            else []))
  unfolding handle_client_message
  handle_client_message-says now client_id t h = elim (Bool-cases (is_empty t)) [
    | inl e ↦ rw (e, handle_client_message) (refl, refl)
    | inr n ↦ elim (Bool-cases (starts_with t (codes "#"))) [
      | inl c ↦ rw (n, c, handle_client_message) (refl, handle_debug_command-silent now t client_id)
      | inr m ↦ rw (n, m, h, handle_client_message) (refl, refl)
    ]
  ]

  abbrev from : ℕ → List Text → List (ℕ × Text)
  from client_id = map (λ t. (client_id, t))

  from-append :
      (client_id : ℕ) (ts us : List Text)
      → from client_id (ts ++ us) ≡ from client_id ts ++ from client_id us
  from-append client_id [] us = refl
  from-append client_id (t ∷ ts) us = ap (◌∷◌ (client_id, t)) (from-append client_id ts us)

  from-if :
      (client_id : ℕ) (b : Bool) (t : Text)
      → (if b then (client_id, t) ∷ [] else []) ≡ from client_id (if b then t ∷ [] else [])
  from-if client_id true t = refl
  from-if client_id false t = refl

  client_round-says :
      (now : ClientRound) (client_id : ℕ) (taken : Text) (e : ClientEvent)
      → IsWell (now, e)
      → let (goes_on, left, out) =
          client_round is_whitespace entries_to_string now client_id taken e in
        (goes_on ≡ true)
        × (left ≡ still_taken taken e)
        × (texts (messages out) ≡ from client_id (said_by is_whitespace taken e))
  unfolding client_round
  client_round-says now client_id taken eof h = absurd h
  client_round-says now client_id taken read_failed h = absurd h
  client_round-says now client_id taken repeater_closed h = absurd h
  client_round-says now client_id taken (part_read part) h = (refl, refl, refl)
  client_round-says now client_id taken (received message) h =
      rw (h.0, client_round) (h.1, refl, refl)
  client_round-says now client_id taken (line_read rest) h =
      let t = trim is_whitespace (taken ++ rest) in
      let (on, e) = handle_client_message-says now client_id t h in
      (on, refl, e ∙ from-if client_id (not (is_empty t) && not (starts_with t (codes "#"))) t)

  client_loop-says :
      (client_id : ℕ) (taken : Text) (es : List (ClientRound × ClientEvent))
      → All IsWell es
      → texts (messages (client_loop is_whitespace entries_to_string client_id taken es))
        ≡ from client_id (says is_whitespace taken es)
  unfolding client_loop
  client_loop-says client_id taken [] h = refl
  client_loop-says client_id taken ((now, e) ∷ es) h =
      let (on, left, this) = client_round-says now client_id taken e h.0 in
      rw (on, client_loop, left)
        (texts-messages-append
            (client_round is_whitespace entries_to_string now client_id taken e).2
            (client_loop is_whitespace entries_to_string client_id (still_taken taken e) es)
          ∙ rw (this, client_loop-says client_id (still_taken taken e) es h.1)
              (sym (
                from-append client_id (said_by is_whitespace taken e)
                  (says is_whitespace (still_taken taken e) es))))

  incoming-texts : (ms : List (Moment × RepeaterMessage)) → incoming ms ≡ texts (map (λ p. p.1) ms)
  incoming-texts [] = refl
  incoming-texts ((now, subscribe c) ∷ ms) = incoming-texts ms
  incoming-texts ((now, debug_dump c) ∷ ms) = incoming-texts ms
  incoming-texts ((now, debug_set_identifier c t) ∷ ms) = incoming-texts ms
  incoming-texts ((now, incoming_message c t) ∷ ms) = ap (◌∷◌ (c, t)) (incoming-texts ms)

  -- If a connection and the repeater are well throughout, and the repeater then handles what the
  -- connection's task sent it, at whatever moments, then its history holds the last 1024 lines of
  -- the client, in order, without the space around them; empty lines and commands leave no trace.
  -- Of a line that is read in parts, what came before a message of the repeater is lost.
  pub handle_client-says :
      (json : SerdeJson) (client_tx client_id : ℕ) (es : List (ClientRound × ClientEvent))
      (ms : List (Moment × RepeaterMessage))
      → All IsWell es
      → map (λ p. p.1) ms
        ≡ messages (handle_client is_whitespace entries_to_string true client_tx client_id es)
      → view (Repeater.run json ms Repeater.new).0
        ≡ last_n 1024 (map (λ t. (client_id, t)) (says is_whitespace [] es))
  unfolding handle_client
  handle_client-says json client_tx client_id es ms h same =
      run-eq-last_n json ms
      ∙ ap (last_n max_message_history)
          (incoming-texts ms ∙ ap texts same ∙ client_loop-says client_id [] es h)
