-- ===== src/Actor/Repeater/Broadcast.antt =====
-- Which messages of the repeater reach which channel.
use symposium.Prelude.{
  ℕ, zero, suc, ◌+◌, ◌≡◌, refl, Bool, List, [], ◌∷◌, ◌++◌, map, keep, ◌==◌, if◌then◌else◌, arith,
  Bool-cases, inl, inr, Option-cases, some, true, ◌↔◌, ap, ◌∙◌,
}
use symposium.Prelude.Text.{Text, codes, text_eq_iff}
use symposium.Actor.Repeater.{
  SerdeJson, RepeaterMessage, incoming_message, subscribe, debug_dump, debug_set_identifier,
  RepeaterActor, Moment, Sent, broadcast, dumped, handle_incoming_message, handle, run, is_log,
}

-- How often channel `c` stands among the subscribers.
abbrev pub count : ℕ → List ℕ → ℕ
count c [] = 0
count c (d ∷ ds) = if d == c then suc (count c ds) else count c ds

abbrev pub repeated : ℕ → Text → List Text
repeated zero t = []
repeated (suc n) t = t ∷ repeated n t

-- The broadcasts among `out` that went to channel `c`.
abbrev pub received : ℕ → List Sent → List Text
received c [] = []
received c (broadcast d t ∷ out) = if d == c then t ∷ received c out else received c out
received c (dumped d h ∷ out) = received c out

count-append : (c : ℕ) (xs ys : List ℕ) → count c (xs ++ ys) ≡ count c xs + count c ys
count-append c [] ys = omega arith
count-append c (x ∷ xs) ys = ground (arith, count-append c xs ys)

count-keep :
    (c : ℕ) (p : ℕ → Bool) (xs : List ℕ) → count c (keep p xs) ≡ (if p c then count c xs else 0)
count-keep c p [] = ground arith
count-keep c p (x ∷ xs) = ground (arith, count-keep c p xs)

received-append :
    (c : ℕ) (xs ys : List Sent) → received c (xs ++ ys) ≡ received c xs ++ received c ys
received-append c [] ys = refl
received-append c (broadcast d t ∷ xs) ys = ground (arith, received-append c xs ys)
received-append c (dumped d h ∷ xs) ys = received-append c xs ys

received-map :
    (c : ℕ) (t : Text) (ds : List ℕ)
    → received c (map (λ d. broadcast d t) ds) ≡ repeated (count c ds) t
received-map c t [] = refl
received-map c t (d ∷ ds) = ground (arith, received-map c t ds)

-- Channel `c` has received `spec.1`, and stands `spec.0` times among the subscribers.
abbrev Agrees : ℕ → RepeaterActor × List Sent → ℕ × List Text → Type 0
Agrees c result spec = (received c result.1 ≡ spec.1) × (count c result.0.subscribers ≡ spec.0)

module _ (json : SerdeJson) where
  -- What one message means for a channel that stands `n` times among the subscribers: how often it
  -- stands there afterwards, and what it receives.
  abbrev pub one : ℕ → ℕ → Moment → RepeaterMessage → ℕ × List Text
  one c n now (subscribe d) = (if d == c then suc n else n, [])
  one c n now (incoming_message client t) =
      if is_log json t then (n, []) else (if now.is_open c then (n, repeated n t) else (0, []))
  one c n now (debug_dump d) = (n, [])
  one c n now (debug_set_identifier client t) = (n, [])

  abbrev pub expected : ℕ → ℕ → List (Moment × RepeaterMessage) → List Text
  expected c n [] = []
  expected c n ((now, m) ∷ ms) = let (n', texts) = one c n now m in texts ++ expected c n' ms

  incoming-one :
      (c client : ℕ) (now : Moment) (t : Text) (s : RepeaterActor)
      → Agrees c
          (handle_incoming_message json now client t s)
          (one c (count c s.subscribers) now (incoming_message client t))
  unfolding handle_incoming_message
  incoming-one c client now t s = elim (Bool-cases (is_log json t)) [
    | inl log ↦ rw log (refl, refl)
    | inr other ↦ elim (Bool-cases (now.is_open c)) [
      | inl here ↦ (
        rw (other, here, received-map c t (keep now.is_open s.subscribers), count-keep, here),
        rw (other, here, count-keep, here),
      )
      | inr gone ↦ (
        rw (other, gone, received-map c t (keep now.is_open s.subscribers), count-keep, gone),
        rw (other, gone, count-keep, gone),
      )
    ]
  ]

  handle-one :
      (c : ℕ) (now : Moment) (m : RepeaterMessage) (s : RepeaterActor)
      → Agrees c (handle json now m s) (one c (count c s.subscribers) now m)
  unfolding handle
  handle-one c now (incoming_message client t) s = incoming-one c client now t s
  handle-one c now (subscribe d) s = (refl, ground (arith, count-append c s.subscribers (d ∷ [])))
  handle-one c now (debug_dump d) s = elim (Bool-cases (now.is_open d)) [
    | inl here ↦ rw here (refl, refl)
    | inr gone ↦ rw gone (refl, refl)
  ]
  handle-one c now (debug_set_identifier d t) s = (refl, refl)

  -- A JSON object whose `type` is `log`.
  abbrev pub IsLog : Text → Type 0
  IsLog t =
      (parsed : json.Value) × (json.from_str t ≡ some parsed)
      × (json.get_str (codes "type") parsed ≡ some (codes "log"))

  is_log_iff : (t : Text) → (is_log json t ≡ true) ↔ IsLog t
  unfolding is_log
  is_log_iff t = elim (Option-cases (json.from_str t)) [
    | inl n ↦ rw (n, is_log) (λ h. cc, λ (v, e, f). cc)
    | inr (v, e) ↦ elim (Option-cases (json.get_str (codes "type") v)) [
      | inl n ↦ rw (e, n, is_log) (λ h. cc, λ (v', e', f). cc)
      | inr (s, f) ↦
          rw (e, f, is_log)
            (
              λ h. (v, refl, f ∙ ap some ((text_eq_iff s (codes "log")).0 h)),
              λ (v', e', f'). (text_eq_iff s (codes "log")).1 (cc),
            )
    ]
  ]

  run-received-expected :
      (c : ℕ) (ms : List (Moment × RepeaterMessage)) (s : RepeaterActor)
      → received c (run json ms s).1 ≡ expected c (count c s.subscribers) ms
  unfolding run
  run-received-expected c [] s = refl
  run-received-expected c ((now, m) ∷ ms) s =
      let (out, left) = handle-one c now m s in
      rw (received-append, out, run-received-expected c ms (handle json now m s).0, left)

  -- From any state and after any messages, a channel has received exactly the messages that are no
  -- log messages, each as often as the channel was then subscribed and while its receiver was
  -- open, in the order of arrival; the other channels make no difference. The log messages are the
  -- JSON values whose `type` is `log`.
  pub run-received :
      (c : ℕ) (ms : List (Moment × RepeaterMessage)) (s : RepeaterActor)
      → (received c (run json ms s).1 ≡ expected c (count c s.subscribers) ms)
        × ((t : Text) → (is_log json t ≡ true) ↔ IsLog t)
  run-received c ms s = (run-received-expected c ms s, is_log_iff)
