-- ===== src/Actor/Repeater/History.antt =====
-- What the repeater's message history holds.
use symposium.Prelude.{
  ℕ, zero, suc, ◌+◌, ◌-◌, ◌≤◌, ◌≡◌, refl, List, [], ◌∷◌, ◌++◌, leb, length, length-append,
  length-drop, drop-drop, drop, map, arith, append_assoc, append-nil, Bool-cases, inl, inr, sym, ap,
}
use mathlib.Core.List.{map-append}
use symposium.Prelude.Text.{Text}
use symposium.Actor.Repeater.{
  SerdeJson, LoggedMessage, RepeaterMessage, incoming_message, subscribe, debug_dump,
  debug_set_identifier, RepeaterActor, Moment, new, logged_message, push_history,
  handle_incoming_message, handle, run, max_message_history, is_log,
}

-- The last `n` elements.
abbrev pub last_n {ℓ} : {A : Type ℓ} → ℕ → List A → List A
last_n n xs = drop (length xs - n) xs

-- What the clients sent, oldest first: the client and the text.
abbrev sent_by : RepeaterMessage → List (ℕ × Text)
sent_by (incoming_message client content) = (client, content) ∷ []
sent_by (subscribe c) = []
sent_by (debug_dump c) = []
sent_by (debug_set_identifier c t) = []

abbrev pub incoming : List (Moment × RepeaterMessage) → List (ℕ × Text)
incoming [] = []
incoming ((now, m) ∷ ms) = sent_by m ++ incoming ms

abbrev pub source_of : LoggedMessage → ℕ × Text
source_of m = (m.from_client_id, m.content)

abbrev pub view : RepeaterActor → List (ℕ × Text)
view s = map source_of s.message_history

module _ {ℓ} {A : Type ℓ} where
  drop-append : (n : ℕ) (xs ys : List A) → n ≤ length xs → drop n (xs ++ ys) ≡ drop n xs ++ ys
  drop-append zero xs ys h = refl
  drop-append (suc n) [] ys h = elim h [ ]
  drop-append (suc n) (x ∷ xs) ys h = drop-append n xs ys (omega arith)

  length-push_history :
      (xs : List A) (x : A)
      → length xs ≤ max_message_history
      → length (push_history xs x) ≤ max_message_history
  unfolding push_history
  length-push_history xs x h =
      ground
        (arith, length-append xs (x ∷ []), length-append (drop 1 xs) (x ∷ []), length-drop 1 xs)

  last_n-last_n : (n : ℕ) (xs ys : List A) → last_n n (last_n n xs ++ ys) ≡ last_n n (xs ++ ys)
  last_n-last_n n xs ys =
      let m : ℕ = length xs - n in
      let shorter : length (drop m xs ++ ys) ≡ length (xs ++ ys) - m =
        omega (arith, length-append (drop m xs) ys, length-append xs ys, length-drop m xs) in
      let total : m + (length (xs ++ ys) - m - n) ≡ length (xs ++ ys) - n =
        omega (arith, length-append xs ys) in
      rw (shorter, ← drop-append m xs ys (omega arith), drop-drop, total)

  push_history-eq-last_n :
      (xs : List A) (x : A)
      → length xs ≤ max_message_history
      → push_history xs x ≡ last_n max_message_history (xs ++ x ∷ [])
  unfolding push_history
  push_history-eq-last_n xs x h = elim (Bool-cases (leb max_message_history (length xs))) [
    | inl full ↦
        let one : length (xs ++ x ∷ []) - max_message_history ≡ 1 =
          ground (arith, length-append xs (x ∷ [])) in
        rw (full, one) (sym (drop-append 1 xs (x ∷ []) (ground arith)))
    | inr room ↦
        let none_over : length (xs ++ x ∷ []) - max_message_history ≡ 0 =
          ground (arith, length-append xs (x ∷ [])) in
        rw (room, none_over)
  ]

map-drop {ℓ κ} :
    {A : Type ℓ} {B : Type κ} (f : A → B) (n : ℕ) (xs : List A)
    → map f (drop n xs) ≡ drop n (map f xs)
map-drop f zero xs = refl
map-drop f (suc n) [] = refl
map-drop f (suc n) (x ∷ xs) = map-drop f n xs

length-map {ℓ κ} :
    {A : Type ℓ} {B : Type κ} (f : A → B) (xs : List A) → length (map f xs) ≡ length xs
length-map f [] = refl
length-map f (x ∷ xs) = ap suc (length-map f xs)

map-push_history {ℓ κ} :
    {A : Type ℓ} {B : Type κ} (f : A → B) (xs : List A) (x : A)
    → map f (push_history xs x) ≡ push_history (map f xs) (f x)
unfolding push_history
map-push_history f xs x = elim (Bool-cases (leb max_message_history (length xs))) [
  | inl full ↦ rw (map-append, length-map, full, map-drop)
  | inr room ↦ rw (map-append, length-map, room)
]

module _ (json : SerdeJson) where
  abbrev HistoryIs : RepeaterActor → List (ℕ × Text) → Type 0
  HistoryIs s sent = view s ≡ last_n max_message_history sent

  history-incoming :
      (now : Moment) (client : ℕ) (content : Text) (s : RepeaterActor)
      → (handle_incoming_message json now client content s).0.message_history
        ≡ push_history s.message_history (logged_message now client content s)
  unfolding handle_incoming_message
  history-incoming now client content s = elim (Bool-cases (is_log json content)) [
    | inl log ↦ rw log
    | inr other ↦ rw other
  ]

  view-incoming :
      (now : Moment) (client : ℕ) (content : Text) (s : RepeaterActor)
      → view (handle_incoming_message json now client content s).0
        ≡ push_history (view s) (client, content)
  unfolding logged_message
  view-incoming now client content s = rw (history-incoming now client content s, map-push_history)

  push-HistoryIs :
      (s t : RepeaterActor) (sent : List (ℕ × Text)) (x : ℕ × Text)
      → view t ≡ push_history (view s) x
      → HistoryIs s sent
      → HistoryIs t (sent ++ x ∷ [])
  push-HistoryIs s t sent x e h =
      let short : length (view s) ≤ max_message_history =
        omega (arith, ap length h, length-drop (length sent - max_message_history) sent) in
      rw (e, push_history-eq-last_n (view s) x short, h)
        (last_n-last_n max_message_history sent (x ∷ []))

  -- One message: the history stays the newest part of what was sent.
  handle-HistoryIs :
      (now : Moment) (m : RepeaterMessage) (s : RepeaterActor) (sent : List (ℕ × Text))
      → HistoryIs s sent
      → HistoryIs (handle json now m s).0 (sent ++ sent_by m)
  unfolding handle
  handle-HistoryIs now (incoming_message c t) s sent h =
      push-HistoryIs s (handle_incoming_message json now c t s).0 sent (c, t)
        (view-incoming now c t s) h
  handle-HistoryIs now (subscribe c) s sent h = rw append-nil h
  handle-HistoryIs now (debug_dump c) s sent h = rw append-nil h
  handle-HistoryIs now (debug_set_identifier c t) s sent h = rw append-nil h

  run-HistoryIs :
      (ms : List (Moment × RepeaterMessage)) (s : RepeaterActor) (sent : List (ℕ × Text))
      → HistoryIs s sent
      → HistoryIs (run json ms s).0 (sent ++ incoming ms)
  unfolding run
  run-HistoryIs [] s sent h = rw append-nil h
  run-HistoryIs ((now, m) ∷ ms) s sent h = rw (← append_assoc sent (sent_by m) (incoming ms)) (
      run-HistoryIs ms (handle json now m s).0 (sent ++ sent_by m)
        (handle-HistoryIs now m s sent h))

  -- After any messages the history of a new actor shows the newest 1024 of the messages that
  -- clients sent, log messages included, in the order of arrival, each with its sender.
  pub run-eq-last_n :
      (ms : List (Moment × RepeaterMessage)) → view (run json ms new).0 ≡ last_n 1024 (incoming ms)
  unfolding new
  run-eq-last_n ms = run-HistoryIs ms new [] refl
