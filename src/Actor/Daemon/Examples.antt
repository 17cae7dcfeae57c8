-- ===== src/Actor/Daemon/Examples.antt =====
-- The theorems about the daemon at concrete events.
use symposium.Prelude.{
  ℕ, Bool, true, List, [], ◌∷◌, none, some, map, ◌≡◌, refl, ◌==◌, inl, inr, arith,
}
use symposium.Prelude.Text.{Text, codes, trim, starts_with, text_eq, strip_prefix}
use symposium.Actor.Repeater
use symposium.Actor.Repeater.{SerdeJson, RepeaterMessage, Moment, max_message_history}
use symposium.Actor.Repeater.History.{last_n, view}
use symposium.Actor.Daemon.Bus.{
  Bus, BusEvent, accepted, accept_failed, tick, idle, bus_run, bus_start,
}
use symposium.Actor.Daemon.Bus.Ids.{IsValid, bus_run-IsValid}
use symposium.Actor.Daemon.Bus.Idle.{bus_run-idle}
use symposium.Actor.Daemon.Client.{
  ClientRound, ClientEvent, part_read, line_read, received, handle_client,
}
use symposium.Actor.Daemon.Client.Forwards.{messages, says, handle_client-says}

-- Two clients come; the first is gone at 40, both are at 50, and at 90 nobody was there for 50.
abbrev day : List BusEvent
day =
    accepted 10
    ∷ accept_failed
    ∷ accepted 20
    ∷ tick 40 (λ c. c == 0)
    ∷ tick 50 (λ c. true)
    ∷ tick 90 (λ c. true)
    ∷ []

bus_run-IsValid_example : IsValid (bus_run 50 day (bus_start 0)).1
unfolding bus_start
bus_run-IsValid_example =
    bus_run-IsValid 50 day (bus_start 0) (omega arith) (record { distinct = tt; given = tt })

abbrev evening : List BusEvent
evening = accept_failed ∷ tick 50 (λ c. true) ∷ tick 90 (λ c. true) ∷ []

abbrev after_work : Bus
after_work = record { clients = 1 ∷ []; next_client_id = 2; last_activity = 40 }

bus_run-idle_example : (bus_run 50 evening after_work).0 ≡ idle
bus_run-idle_example =
    bus_run-idle 50 evening after_work (tt, ((refl, tt), ((refl, tt), tt)))
      (inr (inl (omega arith)))

-- A stand-in for JSON.
abbrev json : SerdeJson
json = record { Value = Text; from_str = λ t. some t; get_str = λ key t. none }

abbrev fine : ClientRound
fine = record {
  repeater_open = true;
  write_all = true;
  flush = true;
  response_tx = 9;
  dumped = none;
}

abbrev connection : List (ClientRound × ClientEvent)
connection =
    (fine, part_read (codes " hel"))
    ∷ (fine, line_read (codes "lo "))
    ∷ (fine, line_read (codes "#identify:vscode"))
    ∷ (fine, received (codes "hi"))
    ∷ (fine, line_read (codes "  "))
    ∷ (fine, part_read (codes "good"))
    ∷ (fine, received (codes "hi again"))
    ∷ (fine, line_read (codes "bye"))
    ∷ []

abbrev is_space : ℕ → Bool
is_space c = c == 32

abbrev at_five : RepeaterMessage → Moment × RepeaterMessage
at_five m = (record { millis = 5; is_open = λ c. true }, m)

abbrev handled : List (Moment × RepeaterMessage)
handled = map at_five (messages (handle_client is_space (λ entries. none) true 7 3 connection))

-- The first part of the last line is lost.
good_bye : says is_space [] connection ≡ codes "hello" ∷ codes "bye" ∷ []
unfolding trim starts_with text_eq
good_bye = refl

handle_client-says_example :
    view (Repeater.run json handled Repeater.new).0
    ≡ last_n 1024 (map (λ t. (3, t)) (says is_space [] connection))
unfolding handle_client trim starts_with text_eq strip_prefix
handle_client-says_example =
    handle_client-says is_space (λ entries. none) json 7 3 connection handled
      (tt, (refl, (refl, ((refl, refl), (refl, (tt, ((refl, refl), (refl, tt)))))))) refl
