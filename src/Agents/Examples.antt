-- ===== src/Agents/Examples.antt =====
-- The theorem about agents at concrete sessions.
use symposium.Prelude.{ℕ, true, [], ◌∷◌, ◌++◌, none, ok, err, refl}
use symposium.Prelude.Text.{Text, codes, text_eq}
use symposium.Prelude.Assoc
use symposium.Prelude.Assoc.{text_key}
use symposium.Agents.{
  AgentStatus, crashed, starting, AgentSession, AgentManager, Outside, sync_with_tmux,
}
use symposium.Agents.Synced.{Synced, get-sync_with_tmux}

abbrev session : Text → AgentStatus → AgentSession
session uuid status = record {
  uuid = uuid;
  tmux_session_name = codes "symposium-agent-" ++ uuid;
  agent_command = codes "agent" ∷ [];
  working_directory = codes "/w";
  status = status;
  created_at = 1;
  last_attached = none;
}

-- A disk that takes everything, and a tmux with one session of ours.
abbrev host : Outside ℕ
host = record {
  new_session = λ name dir command w. (err (codes "no tmux"), w);
  attach_session = λ name w. (ok true, w);
  kill_session = λ name w. (err (codes "no tmux"), w);
  list_sessions = λ w.
      (ok (record { success = true; stdout = codes "main\nsymposium-agent-a\n"; stderr = [] }), w);
  now = λ w. (w, w);
  exists = λ path w. (true, w);
  read_to_string = λ path w. (ok [], w);
  create_dir_all = λ path w. (ok tt, w);
  write = λ path content w. (ok tt, w);
  parent = λ path. none;
  from_str = λ t. ok [];
  to_string_pretty = λ sessions. ok (codes "{}");
  is_whitespace = λ c. true;
}

abbrev manager : AgentManager
manager = record {
  sessions =
      (codes "a", session (codes "a") crashed) ∷ (codes "b", session (codes "b") starting) ∷ [];
  sessions_file = codes "sessions.json";
}

get-sync_with_tmux_example :
    Synced
      (host.list_sessions 0).0
      (Assoc.get (codes "a") manager.sessions)
      (Assoc.get (codes "a") (sync_with_tmux host manager 0).1.sessions)
unfolding text_eq Assoc.get
get-sync_with_tmux_example = get-sync_with_tmux host manager 0 (codes "a") (refl, (refl, tt))
