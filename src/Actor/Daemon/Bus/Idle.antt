-- ===== src/Actor/Daemon/Bus/Idle.antt =====
-- When the daemon ends because nobody is connected.
use symposium.Prelude.{
  ℕ, ◌+◌, ◌-◌, ◌≤◌, Bool, true, false, List, [], ◌∷◌, ◌++◌, keep, All, All-mono, leb, not,
  if◌then◌else◌, ◌≡◌, ◌⊎◌, refl, ap, ◌∙◌, Bool-cases, inl, inr, arith,
}
use symposium.Actor.Daemon.Bus.{
  Bus, BusEvent, accepted, accept_failed, tick, shutdown, Verdict, goes_on, idle, signalled,
  check_idle, bus_round, bus_run,
}

-- Every task has finished.
abbrev pub AllFinished : (ℕ → Bool) → List ℕ → Type 0
AllFinished is_finished clients = All (λ c. is_finished c ≡ true) clients

module _ (idle_timeout now : ℕ) (is_finished : ℕ → Bool) where
  unfinished_cases :
      (cs : List ℕ)
      → (AllFinished is_finished cs × (keep (λ c. not (is_finished c)) cs ≡ []))
        ⊎ ((d : ℕ) × (ds : List ℕ) × (keep (λ c. not (is_finished c)) cs ≡ d ∷ ds))
  unfinished_cases [] = inl (tt, refl)
  unfinished_cases (c ∷ cs) = elim (Bool-cases (is_finished c)) [
    | inr f ↦ inr (c, keep (λ c. not (is_finished c)) cs, rw (f, keep) refl)
    | inl t ↦ elim (unfinished_cases cs) [
      | inl (all, e) ↦ inl ((t, all), rw (t, keep) e)
      | inr (d, ds, e) ↦ inr (d, ds, rw (t, keep) e)
    ]
  ]

  -- What a check for idleness does.
  pub check_idle-cases :
      (s : Bus)
      → (AllFinished is_finished s.clients
          × (check_idle idle_timeout now is_finished s ≡ (
            (if leb idle_timeout (now - s.last_activity) then idle else goes_on),
            record s { clients = [] },
          )))
        ⊎ (check_idle idle_timeout now is_finished s ≡ (
          goes_on,
          record s { clients = keep (λ c. not (is_finished c)) s.clients; last_activity = now },
        ))
  unfolding check_idle
  check_idle-cases s = elim (unfinished_cases s.clients) [
    | inl (all, e) ↦ inl (all, rw (e, check_idle) refl)
    | inr (d, ds, e) ↦ inr (rw (e, check_idle) refl)
  ]

pub Verdict-cases : (v : Verdict) → (v ≡ goes_on) ⊎ (v ≡ idle) ⊎ (v ≡ signalled)
Verdict-cases goes_on = inl refl
Verdict-cases idle = inr (inl refl)
Verdict-cases signalled = inr (inr refl)

finished_none :
    (is_finished : ℕ → Bool) (cs : List ℕ)
    → AllFinished is_finished cs
    → keep (λ c. not (is_finished c)) cs ≡ []
finished_none is_finished [] all = refl
finished_none is_finished (c ∷ cs) all = rw (all.0, keep) (finished_none is_finished cs all.1)

-- Nobody connects, and the clients `cs` have finished.
abbrev pub IsQuiet : List ℕ → BusEvent → Type 0
IsQuiet cs (accepted now) = ⊥
IsQuiet cs accept_failed = Unit
IsQuiet cs (tick now is_finished) = AllFinished is_finished cs
IsQuiet cs (shutdown message_json) = ⊥

-- There is a check for idleness at `time` or later.
abbrev pub ChecksFrom : ℕ → List BusEvent → Type 0
ChecksFrom time [] = ⊥
ChecksFrom time (tick now is_finished ∷ es) = (time ≤ now) ⊎ ChecksFrom time es
ChecksFrom time (accepted now ∷ es) = ChecksFrom time es
ChecksFrom time (accept_failed ∷ es) = ChecksFrom time es
ChecksFrom time (shutdown message_json ∷ es) = ChecksFrom time es

IsQuiet-none : (cs : List ℕ) (e : BusEvent) → IsQuiet cs e → IsQuiet [] e
IsQuiet-none cs (accepted now) q = q
IsQuiet-none cs accept_failed q = tt
IsQuiet-none cs (tick now is_finished) q = tt
IsQuiet-none cs (shutdown message_json) q = q

module _ (idle_timeout : ℕ) where
  quiet_tick :
      (now : ℕ) (is_finished : ℕ → Bool) (s : Bus)
      → AllFinished is_finished s.clients
      → check_idle idle_timeout now is_finished s ≡ (
        (if leb idle_timeout (now - s.last_activity) then idle else goes_on),
        record s { clients = [] },
      )
  unfolding check_idle
  quiet_tick now is_finished s all = rw (finished_none is_finished s.clients all, check_idle) refl

  -- The rest of the loop, behind a round that sends nothing.
  abbrev resume : List BusEvent → Verdict × Bus → Verdict × Bus
  resume es r = elim r.0 [
    | goes_on ↦ bus_run idle_timeout es r.1
    | idle ↦ (idle, r.1)
    | signalled ↦ (signalled, r.1)
  ]

  tick_steps :
      (now : ℕ) (is_finished : ℕ → Bool) (s t : Bus) (es : List BusEvent)
      → check_idle idle_timeout now is_finished s ≡ (goes_on, t)
      → bus_run idle_timeout (tick now is_finished ∷ es) s ≡ bus_run idle_timeout es t
  unfolding bus_run bus_round
  tick_steps now is_finished s t es e = ap (resume es) e

  tick_waits :
      (now : ℕ) (is_finished : ℕ → Bool) (s : Bus)
      → AllFinished is_finished s.clients
      → leb idle_timeout (now - s.last_activity) ≡ false
      → check_idle idle_timeout now is_finished s ≡ (goes_on, record s { clients = [] })
  tick_waits now is_finished s all f = quiet_tick now is_finished s all ∙ rw f refl

  -- If every client that is listed has finished, nobody connects, no signal comes, and there is a
  -- check for idleness when the timeout has passed since a client was last seen, then the daemon ends
  -- for idleness.
  pub bus_run-idle :
      (es : List BusEvent) (s : Bus)
      → All (IsQuiet s.clients) es
      → ChecksFrom (s.last_activity + idle_timeout) es
      → (bus_run idle_timeout es s).0 ≡ idle
  unfolding bus_run bus_round
  bus_run-idle [] s q late = absurd late
  bus_run-idle (accepted now ∷ es) s q late = absurd q.0
  bus_run-idle (accept_failed ∷ es) s q late = bus_run-idle es s q.1 late
  bus_run-idle (shutdown message_json ∷ es) s q late = absurd q.0
  bus_run-idle (tick now is_finished ∷ es) s q late =
      elim (Bool-cases (leb idle_timeout (now - s.last_activity))) [
        | inl t ↦ rw (quiet_tick now is_finished s q.0, t, bus_run) refl
        | inr f ↦ elim late [
          | inl l ↦ absurd (ground (arith, l, f))
          | inr later ↦
              ap (λ r. r.0) (tick_steps now is_finished s _ es (tick_waits now is_finished s q.0 f))
              ∙ bus_run-idle es (record s { clients = [] })
                  (All-mono es (IsQuiet-none s.clients) q.1) later
        ]
      ]

  -- Times do not go back from `lo` on.
  abbrev pub Timely : ℕ → List BusEvent → Type 0
  Timely lo [] = Unit
  Timely lo (accepted now ∷ es) = (lo ≤ now) × Timely now es
  Timely lo (accept_failed ∷ es) = Timely lo es
  Timely lo (tick now is_finished ∷ es) = (lo ≤ now) × Timely now es
  Timely lo (shutdown message_json ∷ es) = Timely lo es

  -- A client that connects does so `idle_timeout` before `now` or earlier, and so is any check at
  -- which not all clients that were listed had finished.
  abbrev pub Unseen : ℕ → BusEvent → Bus → Type 0
  Unseen now (accepted time) s = time + idle_timeout ≤ now
  Unseen now accept_failed s = Unit
  Unseen now (tick time is_finished) s =
      AllFinished is_finished s.clients ⊎ (time + idle_timeout ≤ now)
  Unseen now (shutdown message_json) s = Unit

  -- This holds of each event of a run from `s`, in the state in which it comes.
  abbrev pub UnseenIn : ℕ → List BusEvent → Bus → Type 0
  UnseenIn now [] s = Unit
  UnseenIn now (e ∷ es) s = Unseen now e s × UnseenIn now es (bus_round idle_timeout e s).1

  -- The run is cut where the daemon ends for idleness: at a check, at `now`.
  pub record EndsIdle (es : List BusEvent) (s : Bus) : Type 0 where
    pub before : List BusEvent
    pub behind : List BusEvent
    pub now : ℕ
    pub is_finished : ℕ → Bool
    pub split : es ≡ before ++ tick now is_finished ∷ behind
    pub state : Bus
    pub reached : bus_run idle_timeout before s ≡ (goes_on, state)
    pub deserted : AllFinished is_finished state.clients
    pub unseen : s.last_activity + idle_timeout ≤ now
    pub seen_before : UnseenIn now before s
