-- ===== src/Agents.antt =====
-- outdated/mcp-server/src/agent_manager.rs: agents that run in sessions of tmux. `W` is the state of what
-- is outside: tmux, the file system and the clock. serde_json is a pair of functions.
pub mod Synced
mod Examples
use symposium.Prelude.{
  ℕ, Bool, true, false, not, any, keep, Option, some, none, List, [], ◌∷◌, ◌++◌, map, Result, ok,
  err, and_then, ok_or, if◌then◌else◌,
}
use symposium.Prelude.Text.{Text, codes, lines, trim, text_eq, starts_with}
use symposium.Prelude.Assoc
use symposium.Prelude.Assoc.{text_key, insert, remove}

pub data AgentStatus : Type 0 where
  starting running crashed stopped : AgentStatus

pub record AgentSession : Type 0 where
  pub uuid : Text
  pub tmux_session_name : Text
  pub agent_command : List Text
  pub working_directory : Text
  pub status : AgentStatus
  pub created_at : ℕ
  pub last_attached : Option ℕ

abbrev pub Sessions : Type 0
Sessions = List (Text × AgentSession)

pub record AgentManager : Type 0 where
  pub sessions : Sessions
  pub sessions_file : Text

-- What a command that was run gives.
pub record Output : Type 0 where
  pub success : Bool
  pub stdout : Text
  pub stderr : Text

pub record Outside (W : Type 0) : Type 0 where
  pub new_session : (name dir : Text) → (command : List Text) → W → Result Text Output × W
  pub attach_session : Text → W → Result Text Bool × W
  pub kill_session : Text → W → Result Text Output × W
  pub list_sessions : W → Result Text Output × W
  pub now : W → ℕ × W
  pub exists : Text → W → Bool × W
  pub read_to_string : Text → W → Result Text Text × W
  pub create_dir_all : Text → W → Result Text (Unit {0}) × W
  pub write : (path content : Text) → W → Result Text (Unit {0}) × W
  pub parent : Text → Option Text
  pub from_str : Text → Result Text Sessions
  pub to_string_pretty : Sessions → Result Text Text
  pub is_whitespace : ℕ → Bool

-- `contains_key`
abbrev contains_key : Text → Sessions → Bool
contains_key uuid sessions = elim (Assoc.get uuid sessions) [ some s ↦ true | none ↦ false ]

-- `Vec::contains`
abbrev pub contains : Text → List Text → Bool
contains name names = any (λ n. text_eq n name) names

-- The names of the sessions that tmux lists.
unfoldable pub tmux_sessions : Result Text Output → List Text
unfolding lines starts_with
tmux_sessions (err e) = []
tmux_sessions (ok output) =
    if output.success
    then keep (λ line. starts_with line (codes "symposium-agent-")) (lines output.stdout)
    else []

-- The status of a session that tmux lists or does not.
unfoldable pub synced_status : Bool → AgentStatus → AgentStatus
synced_status true starting = starting
synced_status true running = running
synced_status true crashed = running
synced_status true stopped = running
synced_status false status = crashed

unfoldable pub update_status : List Text → AgentSession → AgentSession
unfolding synced_status text_eq
update_status names s = record s {
  status = synced_status (contains s.tmux_session_name names) s.status;
}

-- The sessions that tmux does not list, and their removal one by one.
unfoldable pub to_remove : List Text → Sessions → List Text
unfolding text_eq
to_remove names [] = []
to_remove names ((uuid, s) ∷ sessions) =
    let rest = to_remove names sessions in
    if contains s.tmux_session_name names then rest else uuid ∷ rest

unfoldable pub remove_all : List Text → Sessions → Sessions
unfolding Assoc.remove
remove_all [] sessions = sessions
remove_all (uuid ∷ uuids) sessions = remove_all uuids (remove uuid sessions)

unfoldable pub synced : List Text → Sessions → Sessions
unfolding update_status to_remove remove_all
synced names sessions =
    let updated = map (λ e. (e.0, update_status names e.1)) sessions in
    remove_all (to_remove names updated) updated

module _ {W : Type 0} (outside : Outside W) where
  unfoldable pub save_sessions : AgentManager → W → Result Text (Unit {0}) × W
  save_sessions m w = elim (outside.to_string_pretty m.sessions) [
    | err e ↦ (err e, w)
    | ok content ↦ elim (outside.parent m.sessions_file) [
      | none ↦ outside.write m.sessions_file content w
      | some dir ↦
          and_then (outside.create_dir_all dir w) λ _ v. outside.write m.sessions_file content v
    ]
  ]

  -- `save_sessions` of a manager that stays.
  abbrev saving : AgentManager → W → Result Text (Unit {0}) × AgentManager × W
  saving m w = let (r, v) = save_sessions m w in (r, m, v)

  unfoldable pub load_sessions : AgentManager → W → Result Text (Unit {0}) × AgentManager × W
  load_sessions m w =
      let (there, v) = outside.exists m.sessions_file w in
      if there
      then (let (content, x) = outside.read_to_string m.sessions_file v in
          elim content [
            | err e ↦ (err e, m, x)
            | ok t ↦ elim (outside.from_str t) [
              | err e ↦ (err e, m, x)
              | ok sessions ↦ (ok tt, record m { sessions = sessions }, x)
            ]
          ])
      else (ok tt, m, v)

  unfoldable pub sync_with_tmux : AgentManager → W → Result Text (Unit {0}) × AgentManager × W
  unfolding tmux_sessions synced save_sessions
  sync_with_tmux m w =
      let (output, v) = outside.list_sessions w in
      saving (record m { sessions = synced (tmux_sessions output) m.sessions }) v

  unfoldable pub new : Text → W → Result Text AgentManager × W
  unfolding load_sessions sync_with_tmux
  new sessions_file w =
      let (loaded, m, v) =
        load_sessions (record { sessions = []; sessions_file = sessions_file }) w in
      elim loaded [
        | err e ↦ (err e, v)
        | ok _ ↦
            let (done, n, x) = sync_with_tmux m v in
            elim done [ ok _ ↦ (ok n, x) | err e ↦ (err e, x) ]
      ]

  unfoldable pub spawn_agent :
      (uuid : Text)
      → List Text
      → (working_directory : Text) → AgentManager
      → W
      → Result Text (Unit {0}) × AgentManager × W
  unfolding Assoc.get Assoc.insert save_sessions trim
  spawn_agent uuid agent_command working_directory m w =
      let name = codes "symposium-agent-" ++ uuid in
      if contains_key uuid m.sessions
      then (err (codes "Agent session " ++ uuid ++ codes " already exists"), m, w)
      else (let (result, v) = outside.new_session name working_directory agent_command w in
          elim result [
            | err e ↦ (err (codes "Failed to execute tmux command for session " ++ uuid), m, v)
            | ok output ↦
                if output.success
                then (let (created_at, x) = outside.now v in
                    saving
                      (record m {
                        sessions =
                            insert uuid
                              (record {
                                uuid = uuid;
                                tmux_session_name = name;
                                agent_command = agent_command;
                                working_directory = working_directory;
                                status = starting;
                                created_at = created_at;
                                last_attached = none;
                              })
                              m.sessions;
                      })
                      x)
                else (
                  err (
                      codes "Failed to create tmux session "
                      ++ uuid
                      ++ codes ":\n  stdout: "
                      ++ trim outside.is_whitespace output.stdout
                      ++ codes "\n  stderr: "
                      ++ trim outside.is_whitespace output.stderr),
                  m,
                  v,
                )
          ])

  unfoldable pub kill_agent : Text → AgentManager → W → Result Text (Unit {0}) × AgentManager × W
  unfolding Assoc.get Assoc.remove save_sessions
  kill_agent uuid m w = elim (Assoc.get uuid m.sessions) [
    | none ↦ (err (codes "Agent session " ++ uuid ++ codes " not found"), m, w)
    | some s ↦
        let (result, v) = outside.kill_session s.tmux_session_name w in
        elim result [
          | err e ↦ (err e, m, v)
          | ok output ↦ saving (record m { sessions = remove uuid m.sessions }) v
        ]
  ]

  unfoldable pub execute_attach : Text → AgentManager → W → Result Text (Unit {0}) × W
  unfolding Assoc.get
  execute_attach uuid m w = elim (Assoc.get uuid m.sessions) [
    | none ↦ (err (codes "Agent session " ++ uuid ++ codes " not found"), w)
    | some s ↦ and_then (outside.attach_session s.tmux_session_name w) λ success v. (
      (if success
          then ok tt
          else err (codes "Failed to attach to tmux session " ++ s.tmux_session_name)),
      v,
    )
  ]

unfoldable pub get_attach_command : Text → AgentManager → Result Text (List Text)
unfolding Assoc.get
get_attach_command uuid m = elim (Assoc.get uuid m.sessions) [
  | none ↦ err (codes "Agent session " ++ uuid ++ codes " not found")
  | some s ↦ ok (codes "tmux" ∷ codes "attach-session" ∷ codes "-t" ∷ s.tmux_session_name ∷ [])
]
