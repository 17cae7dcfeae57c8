-- ===== src/Actor/Daemon/Bus/Ids.antt =====
-- The ids of the connected clients.
use symposium.Prelude.{
  ℕ, ◌+◌, ◌^◌, ◌≤◌, ◌<◌, Bool, List, [], ◌∷◌, keep, All, All-mono, length, not, ◌==◌, ◌≢◌, none,
  some, Bool-cases, inl, inr, arith,
}
use symposium.Actor.Daemon.Bus.Idle.{check_idle-cases, Verdict-cases}
use symposium.Actor.Daemon.Bus.{
  Bus, BusEvent, accepted, accept_failed, tick, shutdown, Verdict, accept, insert_client,
  check_idle, bus_round, bus_run,
}

keep-All-mono {ℓ κ} :
    {A : Type ℓ} (P : A → Type κ) (p : A → Bool) (xs : List A) → All P xs → All P (keep p xs)
keep-All-mono P p [] h = tt
keep-All-mono P p (x ∷ xs) h = elim (Bool-cases (p x)) [
  | inl t ↦ rw (t, keep) (h.0, keep-All-mono P p xs h.1)
  | inr f ↦ rw (f, keep) (keep-All-mono P p xs h.1)
]

abbrev pub Distinct : List ℕ → Type 0
Distinct [] = Unit
Distinct (c ∷ cs) = All (λ d. d ≢ c) cs × Distinct cs

keep-Distinct : (p : ℕ → Bool) (cs : List ℕ) → Distinct cs → Distinct (keep p cs)
keep-Distinct p [] h = tt
keep-Distinct p (c ∷ cs) h = elim (Bool-cases (p c)) [
  | inl t ↦ rw (t, keep) (keep-All-mono _ p cs h.0, keep-Distinct p cs h.1)
  | inr f ↦ rw (f, keep) (keep-Distinct p cs h.1)
]

-- The ids of the connected clients are distinct, and were all given out.
pub record IsValid (s : Bus) : Type 0 where
  pub distinct : Distinct s.clients
  pub given : All (λ c. c < s.next_client_id) s.clients

keep-IsValid :
    (p : ℕ → Bool) (s : Bus) (now : ℕ)
    → IsValid s
    → IsValid (record s { clients = keep p s.clients; last_activity = now })
keep-IsValid p s now h = record {
  distinct = keep-Distinct p s.clients h.distinct;
  given = keep-All-mono _ p s.clients h.given;
}

accept-IsValid :
    (now : ℕ) (s : Bus) → s.next_client_id + 1 < 2 ^ 64 → IsValid s → IsValid (accept now s)
unfolding accept insert_client
accept-IsValid now s l h = record {
  distinct = (
    All-mono (keep (λ c. not (c == s.next_client_id)) s.clients) (λ c below e. omega arith)
        (keep-All-mono _ (λ c. not (c == s.next_client_id)) s.clients h.given),
    keep-Distinct _ s.clients h.distinct,
  );
  given = (
    omega arith,
    All-mono (keep (λ c. not (c == s.next_client_id)) s.clients) (λ c below. omega arith)
        (keep-All-mono _ (λ c. not (c == s.next_client_id)) s.clients h.given),
  );
}

abbrev Keeps : Bus → Verdict × Bus → Type 0
Keeps s r = IsValid r.1 × (r.1.next_client_id ≤ s.next_client_id + 1)

check_idle-Keeps :
    (idle_timeout now : ℕ) (is_finished : ℕ → Bool) (s : Bus)
    → IsValid s
    → Keeps s (check_idle idle_timeout now is_finished s)
check_idle-Keeps idle_timeout now is_finished s h =
    elim (check_idle-cases idle_timeout now is_finished s) [
      | inl (all, e) ↦ rw e (record { distinct = tt; given = tt }, omega arith)
      | inr e ↦ rw e (keep-IsValid _ s now h, omega arith)
    ]

bus_round-Keeps :
    (idle_timeout : ℕ) (e : BusEvent) (s : Bus)
    → s.next_client_id + 1 < 2 ^ 64
    → IsValid s
    → Keeps s ((bus_round idle_timeout e s).0, (bus_round idle_timeout e s).1)
unfolding bus_round accept
bus_round-Keeps idle_timeout (accepted now) s l h = (accept-IsValid now s l h, omega arith)
bus_round-Keeps idle_timeout accept_failed s l h = (h, omega arith)
bus_round-Keeps idle_timeout (tick now is_finished) s l h =
    check_idle-Keeps idle_timeout now is_finished s h
bus_round-Keeps idle_timeout (shutdown none) s l h = (h, omega arith)
bus_round-Keeps idle_timeout (shutdown (some message_json)) s l h = (h, omega arith)

-- From a state in which the ids of the connected clients are distinct and were all given out, the
-- loop comes to such states only, as long as it cannot count up to 2 ^ 64.
pub bus_run-IsValid :
    (idle_timeout : ℕ) (es : List BusEvent) (s : Bus)
    → s.next_client_id + length es < 2 ^ 64
    → IsValid s
    → IsValid (bus_run idle_timeout es s).1
unfolding bus_run
bus_run-IsValid idle_timeout [] s l h = h
bus_run-IsValid idle_timeout (e ∷ es) s l h =
    let (valid, up) = bus_round-Keeps idle_timeout e s (omega arith) h in
    elim (Verdict-cases (bus_round idle_timeout e s).0) [
      | inl t ↦
          rw (t, bus_run)
            (bus_run-IsValid idle_timeout es (bus_round idle_timeout e s).1 (omega arith) valid)
      | inr (inl t) ↦ rw (t, bus_run) valid
      | inr (inr t) ↦ rw (t, bus_run) valid
    ]
