-- ===== src/Ferris/Researcher.antt =====
-- src/symposium-ferris/src/rust_researcher: a research session with a sub-agent. What the session
-- delivers is a list of events; a call of the sub-agent's tool `return_response_to_user` is one.
pub mod Collects
use symposium.Prelude.{
  Bool, true, false, List, [], ◌∷◌, ◌++◌, Option, none, some, Result, ok, err, find,
}
use symposium.Prelude.Text.{Text}

-- `_` of the source is `other_kind`.
pub data PermissionOptionKind : Type 0 where
  allow_once allow_always reject_once reject_always other_kind : PermissionOptionKind

pub record PermissionOption : Type 0 where
  pub option_id : Text
  pub kind : PermissionOptionKind

pub data RequestPermissionOutcome : Type 0 where
  selected : (option_id : Text) → RequestPermissionOutcome
  cancelled_outcome : RequestPermissionOutcome

pub data StopReason : Type 0 where
  end_turn max_tokens max_turn_requests refusal cancelled other_reason : StopReason

pub data ResearchError : Type 0 where
  session_error : Text → ResearchError
  stopped_early : StopReason → ResearchError

-- `V` is `serde_json::Value`.
pub data Event (V : Type 0) : Type 0 where
  -- the sub-agent calls `return_response_to_user`
  return_response : (response : V) → Event V
  -- the session asks for permission; `sent` is what `respond` returns
  permission_request : (options : List PermissionOption) (sent : Result Text (Unit {0})) → Event V
  other_message ignored : Event V
  stop_reason : StopReason → Event V
  read_failed : Text → Event V

unfoldable pub is_allow : PermissionOption → Bool
is_allow option = elim option.kind [ allow_once ↦ true | allow_always ↦ true | _ ↦ false ]

unfoldable pub approve_tool_request : List PermissionOption → RequestPermissionOutcome
unfolding is_allow
approve_tool_request options = elim (find is_allow options) [
  | some option ↦ selected option.option_id
  | none ↦ cancelled_outcome
]

-- The shared list of responses, and what the permission requests were answered.
pub record Session (V : Type 0) : Type 0 where
  pub responses : List V
  pub answers : List RequestPermissionOutcome

-- How the loop stands: it has returned, or it waits for the next event.
pub data Progress (V : Type 0) : Type 0 where
  returned : Result ResearchError (List V) → Progress V
  waiting : Progress V

module _ {V : Type 0} where
  unfoldable pub stop : StopReason → Session V → Progress V × Session V
  stop end_turn s = (returned (ok s.responses), record s { responses = [] })
  stop reason s = (returned (err (stopped_early reason)), s)

  unfoldable pub handle : Event V → Session V → Progress V × Session V
  unfolding stop approve_tool_request
  handle (return_response v) s = (waiting, record s { responses = s.responses ++ v ∷ [] })
  handle (permission_request options sent) s =
      let s' = record s { answers = s.answers ++ approve_tool_request options ∷ [] } in
      elim sent [ ok done ↦ (waiting, s') | err e ↦ (returned (err (session_error e)), s') ]
  handle other_message s = (waiting, s)
  handle ignored s = (waiting, s)
  handle (stop_reason reason) s = stop reason s
  handle (read_failed e) s = (returned (err (session_error e)), s)

  -- The loop of `run_research` over the events that the session delivers.
  unfoldable pub run_loop : List (Event V) → Session V → Progress V × Session V
  unfolding handle
  run_loop [] s = (waiting, s)
  run_loop (e ∷ es) s =
      let (progress, s') = handle e s in
      let rest = run_loop es s' in elim progress [ returned r ↦ (returned r, s') | waiting ↦ rest ]

  -- `started` is what `with_mcp_server` and `send_prompt` return.
  unfoldable pub run_research : Result Text (Unit {0}) → List (Event V) → Progress V × Session V
  unfolding run_loop
  run_research started es =
      let s : Session V = record { responses = []; answers = [] } in
      elim started [ ok done ↦ run_loop es s | err e ↦ (returned (err (session_error e)), s) ]
