-- ===== src/Ferris/Researcher/Collects.antt =====
-- What a research session returns, and which permissions it gives.
use symposium.Prelude.{
  Bool, true, false, List, [], ◌∷◌, ◌++◌, none, some, ok, err, find, ◌≡◌, refl, ◌∙◌, ap, ◌↔◌,
  All-mono, append_assoc, append-nil, ◌⊎◌, inl, inr, All, Bool-cases, arith, ◌≢◌,
}
use symposium.Ferris.Researcher.{
  PermissionOption, allow_once, allow_always, RequestPermissionOutcome, selected, cancelled_outcome,
  StopReason, end_turn, stopped_early, Event, return_response, permission_request, other_message,
  ignored, stop_reason, read_failed, is_allow, approve_tool_request, Session, Progress, returned,
  waiting, stop, handle, run_loop, run_research,
}

module _ {V : Type 0} where
  -- The session goes on after the event.
  abbrev pub GoesOn : Event V → Type 0
  GoesOn (permission_request options sent) = sent ≡ ok tt
  GoesOn (stop_reason reason) = ⊥
  GoesOn (read_failed e) = ⊥
  GoesOn (return_response v) = Unit
  GoesOn other_message = Unit
  GoesOn ignored = Unit

  abbrev response_of : Event V → List V
  response_of (return_response v) = v ∷ []
  response_of (permission_request options sent) = []
  response_of other_message = []
  response_of ignored = []
  response_of (stop_reason reason) = []
  response_of (read_failed e) = []

  abbrev answer_of : Event V → List RequestPermissionOutcome
  answer_of (permission_request options sent) = approve_tool_request options ∷ []
  answer_of (return_response v) = []
  answer_of other_message = []
  answer_of ignored = []
  answer_of (stop_reason reason) = []
  answer_of (read_failed e) = []

  -- What the sub-agent returned, and what its requests are answered, in order.
  abbrev pub responses_of : List (Event V) → List V
  responses_of [] = []
  responses_of (e ∷ es) = response_of e ++ responses_of es

  abbrev pub answers_of : List (Event V) → List RequestPermissionOutcome
  answers_of [] = []
  answers_of (e ∷ es) = answer_of e ++ answers_of es

  abbrev after : List (Event V) → Session V → Session V
  after es s = record {
    responses = s.responses ++ responses_of es;
    answers = s.answers ++ answers_of es;
  }

  handle-GoesOn :
      (e : Event V) (s : Session V)
      → GoesOn e
      → handle e s ≡ (
        waiting,
        record { responses = s.responses ++ response_of e; answers = s.answers ++ answer_of e },
      )
  unfolding handle
  handle-GoesOn (return_response v) s h = rw append-nil
  handle-GoesOn (permission_request options sent) s h = rw (append-nil, h)
  handle-GoesOn other_message s h = simp append-nil
  handle-GoesOn ignored s h = simp append-nil
  handle-GoesOn (stop_reason reason) s h = absurd h
  handle-GoesOn (read_failed e) s h = absurd h

  -- What the loop does after one event was handled.
  abbrev resume : List (Event V) → Progress V × Session V → Progress V × Session V
  resume es r = elim r.0 [ returned x ↦ (returned x, r.1) | waiting ↦ run_loop es r.1 ]

  run_loop-GoesOn :
      (es more : List (Event V)) (s : Session V)
      → All GoesOn es
      → run_loop (es ++ more) s ≡ run_loop more (after es s)
  unfolding run_loop
  run_loop-GoesOn [] more s h = simp append-nil
  run_loop-GoesOn (e ∷ es) more s h =
      ap (resume (es ++ more)) (handle-GoesOn e s h.0)
      ∙ run_loop-GoesOn es more
          (record { responses = s.responses ++ response_of e; answers = s.answers ++ answer_of e })
          h.1
      ∙ simp append_assoc

  stop_early :
      (reason : StopReason) (s : Session V)
      → reason ≢ end_turn
      → stop reason s ≡ (returned (err (stopped_early reason)), s)
  unfolding stop
  stop_early reason s h = ground arith

  handle_early :
      (reason : StopReason) (s : Session V)
      → reason ≢ end_turn
      → handle (stop_reason reason) s ≡ (returned (err (stopped_early reason)), s)
  unfolding handle
  handle_early = stop_early

  run_loop_early :
      (reason : StopReason)
      → reason ≢ end_turn
      → (more : List (Event V)) (s : Session V)
      → run_loop (stop_reason reason ∷ more) s ≡ (returned (err (stopped_early reason)), s)
  unfolding run_loop
  run_loop_early reason h more s = ap (resume more) (handle_early reason s h)

  -- If the events `es` let the session go on and the turn then ends, the research returns exactly
  -- the responses of `es` in order and empties the shared list. The permission requests of `es` are
  -- answered in order, and what comes after the end of the turn changes nothing.
  pub run_research_collects :
      (es more : List (Event V))
      → All GoesOn es
      → run_research (ok tt) (es ++ stop_reason end_turn ∷ more)
        ≡ (returned (ok (responses_of es)), record { responses = []; answers = answers_of es })
  unfolding run_research
  run_research_collects es more h = run_loop-GoesOn es (stop_reason end_turn ∷ more) _ h

  -- If the session stops for any other reason, the research is an error that names the reason, and
  -- the responses so far stay in the shared list.
  pub run_research_stops_early :
      (es more : List (Event V)) (reason : StopReason)
      → All GoesOn es
      → reason ≢ end_turn
      → run_research (ok tt) (es ++ stop_reason reason ∷ more) ≡ (
        returned (err (stopped_early reason)),
        record { responses = responses_of es; answers = answers_of es },
      )
  unfolding run_research
  run_research_stops_early es more reason h other =
      run_loop-GoesOn es (stop_reason reason ∷ more) _ h ∙ run_loop_early reason other more _

-- The option allows the request, once or always.
abbrev pub Allows : PermissionOption → Type 0
Allows option = (option.kind ≡ allow_once) ⊎ (option.kind ≡ allow_always)

is_allow_iff : (option : PermissionOption) → (is_allow option ≡ true) ↔ Allows option
unfolding is_allow
is_allow_iff option = (λ h. ground arith, λ h. ground arith)

find_cases {ℓ} :
    {A : Type ℓ} (p : A → Bool) (xs : List A)
    → ((before : List A) × (x : A) × (behind : List A) × (xs ≡ before ++ x ∷ behind)
        × All (λ y. p y ≡ false) before
        × (p x ≡ true)
        × (find p xs ≡ some x))
      ⊎ (All (λ y. p y ≡ false) xs × (find p xs ≡ none))
find_cases p [] = inr (tt, refl)
find_cases p (x ∷ xs) = elim (Bool-cases (p x)) [
  | inl t ↦ inl ([], x, xs, refl, tt, t, rw (t, find))
  | inr f ↦ elim (find_cases p xs) [
    | inl (before, y, behind, split, none_before, t, e) ↦
        inl (x ∷ before, y, behind, rw split, (f, none_before), t, rw (f, find) e)
    | inr (none_in, e) ↦ inr ((f, none_in), rw (f, find) e)
  ]
]

-- The first option that allows the request is selected, or there is none and the request is
-- cancelled.
abbrev pub SelectsFirst : List PermissionOption → RequestPermissionOutcome → Type 0
SelectsFirst options outcome =
    ((before : List PermissionOption) × (option : PermissionOption) × (behind : List
        PermissionOption)
      × (options ≡ before ++ option ∷ behind)
      × All (λ o. ¬ Allows o) before
      × Allows option
      × (outcome ≡ selected option.option_id))
    ⊎ (All (λ o. ¬ Allows o) options × (outcome ≡ cancelled_outcome))

-- A permission request is answered by the first of its options that allows it, once or always; if
-- no option allows it, it is cancelled. An option that rejects is never chosen.
pub approve_first_allowing :
    (options : List PermissionOption) → SelectsFirst options (approve_tool_request options)
unfolding approve_tool_request
approve_first_allowing options = elim (find_cases is_allow options) [
  | inl (before, option, behind, split, none_before, t, e) ↦ inl (
    before,
    option,
    behind,
    split,
    All-mono before refuses none_before,
    (is_allow_iff option).0 t,
    rw (e, approve_tool_request),
  )
  | inr (none_in, e) ↦ inr (All-mono options refuses none_in, rw (e, approve_tool_request))
]
  where
    refuses : (o : PermissionOption) → is_allow o ≡ false → ¬ Allows o
    refuses o f allowed = cc ((is_allow_iff o).1 allowed)
