-- ===== src/Actor/Daemon/Bus.antt =====
-- outdated/mcp-server/src/daemon.rs, `run_message_bus_with_shutdown_signal`. Times are read off one
-- clock, in any unit.
pub mod Ids
pub mod Idle
use symposium.Prelude.{
  ℕ, ◌+◌, ◌-◌, ◌%◌, ◌^◌, Bool, List, [], ◌∷◌, Option, none, some, keep, leb, ◌==◌, not,
  if◌then◌else◌,
}
use symposium.Prelude.Text.{Text}
use symposium.Actor.Repeater.{RepeaterMessage, incoming_message}

-- What is kept from round to round: the keys of `clients`, and when a client was last seen.
pub record Bus : Type 0 where
  pub clients : List ℕ
  pub next_client_id : ℕ
  pub last_activity : ℕ

pub data BusEvent : Type 0 where
  accepted : (now : ℕ) → BusEvent
  accept_failed : BusEvent
  -- `is_finished` of the clients' tasks
  tick : (now : ℕ) (is_finished : ℕ → Bool) → BusEvent
  -- `message_json` is the serialised `reload_window`
  shutdown : (message_json : Option Text) → BusEvent

-- Whether the loop goes on, and why not.
pub data Verdict : Type 0 where
  goes_on idle signalled : Verdict

unfoldable pub insert_client : ℕ → List ℕ → List ℕ
insert_client id clients = id ∷ keep (λ c. not (c == id)) clients

unfoldable pub accept : (now : ℕ) → Bus → Bus
unfolding insert_client
accept now s = record {
  clients = insert_client s.next_client_id s.clients;
  next_client_id = (s.next_client_id + 1) % 2 ^ 64;
  last_activity = now;
}

unfoldable pub check_idle : (idle_timeout now : ℕ) → (is_finished : ℕ → Bool) → Bus → Verdict × Bus
check_idle idle_timeout now is_finished s =
    let clients = keep (λ c. not (is_finished c)) s.clients in
    elim clients [
      | [] ↦ (
        (if leb idle_timeout (now - s.last_activity) then idle else goes_on),
        record s { clients = [] },
      )
      | c ∷ cs ↦ (goes_on, record s { clients = c ∷ cs; last_activity = now })
    ]

-- A round, with what is sent to the repeater.
unfoldable pub bus_round :
    (idle_timeout : ℕ) → BusEvent → Bus → Verdict × Bus × List RepeaterMessage
unfolding accept check_idle
bus_round idle_timeout (accepted now) s = (goes_on, accept now s, [])
bus_round idle_timeout accept_failed s = (goes_on, s, [])
bus_round idle_timeout (tick now is_finished) s =
    let (v, t) = check_idle idle_timeout now is_finished s in (v, t, [])
bus_round idle_timeout (shutdown none) s = (signalled, s, [])
bus_round idle_timeout (shutdown (some message_json)) s =
    (signalled, s, incoming_message 0 message_json ∷ [])

-- The loop over the events in the order in which `select!` takes them. The clients of the last state
-- are aborted when it ends.
unfoldable pub bus_run : (idle_timeout : ℕ) → List BusEvent → Bus → Verdict × Bus
unfolding bus_round
bus_run idle_timeout [] s = (goes_on, s)
bus_run idle_timeout (e ∷ es) s =
    let (v, t, out) = bus_round idle_timeout e s in
    let rest = bus_run idle_timeout es t in
    elim v [ goes_on ↦ rest | idle ↦ (idle, t) | signalled ↦ (signalled, t) ]

unfoldable pub bus_start : (now : ℕ) → Bus
bus_start now = record { clients = []; next_client_id = 0; last_activity = now }
