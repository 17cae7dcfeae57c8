-- ===== src/Setup/Zed.antt =====
-- src/setup/src/zed.rs: the agents that are found are put into the settings of Zed. serde_json is a
-- parameter; an object is its members.
use symposium.Prelude.{
  Bool, Option, some, none, List, [], ◌∷◌, ◌++◌, Result, ok, err, map_err, and_then, if◌then◌else◌,
}
use symposium.Prelude.Text.{Text, codes, join, lines, trim, starts_with}
use symposium.Prelude.Assoc
use symposium.Prelude.Assoc.{text_key, insert}
use symposium.Setup.System.{Failure, error, panicked, System, Ends, in_context}

pub data ZedAgent : Type 0 where
  claude_code codex : ZedAgent

unfoldable pub npx_package : ZedAgent → Text
npx_package claude_code = codes "@zed-industries/claude-code-acp"
npx_package codex = codes "@zed-industries/codex-acp"

unfoldable pub display_name : ZedAgent → Text
display_name claude_code = codes "Claude Code"
display_name codex = codes "Codex"

unfoldable pub config_name : ZedAgent → Text
unfolding display_name
config_name agent = codes "Symposium (" ++ display_name agent ++ codes ")"

pub record SerdeJson : Type 1 where
  pub Value : Type 0
  pub null : Value
  pub string_value : Text → Value
  pub array_value : List Value → Value
  pub object_value : List (Text × Value) → Value
  pub as_object : Value → Option (List (Text × Value))
  pub is_null : Value → Bool
  pub from_str : Text → Result Text Value
  pub to_string_pretty : Value → Result Text Text

-- What is in front of the first `//` of a line.
unfoldable pub uncommented : Text → Text
unfolding starts_with
uncommented [] = []
uncommented (c ∷ s) =
    let rest = uncommented s in if starts_with (c ∷ s) (codes "//") then [] else c ∷ rest

module _ (json : SerdeJson) {W : Type 0} (system : System W) where
  unfoldable pub detect_zed_agents : W → List ZedAgent
  detect_zed_agents w =
      (if system.is_command_available (codes "claude") w then claude_code ∷ [] else [])
      ++ (if system.is_command_available (codes "codex") w then codex ∷ [] else [])

  unfoldable pub create_agent_config : (symposium_acp_agent_path npx_package : Text) → json.Value
  create_agent_config path npx_name = json.object_value (
      (codes "type", json.string_value (codes "custom"))
      ∷ (codes "command", json.string_value path)
      ∷ (
        codes "args",
        json.array_value (
            json.string_value (codes "--")
            ∷ json.string_value (codes "npx")
            ∷ json.string_value (codes "-y")
            ∷ json.string_value npx_name
            ∷ []),
      )
      ∷ (codes "env", json.object_value [])
      ∷ [])

  unfoldable pub strip_lines : List Text → Text
  unfolding uncommented starts_with trim
  strip_lines [] = []
  strip_lines (line ∷ rest) =
      let more = strip_lines rest in
      if starts_with (trim system.is_whitespace line) (codes "//")
      then more
      else uncommented line ++ 10 ∷ more

  unfoldable pub strip_comments_and_parse : (contents : Text) → Result Failure json.Value
  unfolding strip_lines lines
  strip_comments_and_parse contents =
      map_err (λ e. error (codes "Failed to parse Zed settings.json"))
        (json.from_str (strip_lines (lines contents)))

  -- The members of the configuration, with `agent_servers`. An index into what is no object panics, but
  -- null becomes an object.
  unfoldable pub with_agent_servers : json.Value → Result Failure (List (Text × json.Value))
  unfolding Assoc.get Assoc.insert
  with_agent_servers config = elim (json.as_object config) [
    | none ↦
        if json.is_null config
        then ok ((codes "agent_servers", json.object_value []) ∷ [])
        else err panicked
    | some members ↦ elim (Assoc.get (codes "agent_servers") members) [
      | some servers ↦ ok members
      | none ↦ ok (insert (codes "agent_servers") (json.object_value []) members)
    ]
  ]

  -- The members of `agent_servers`.
  unfoldable pub agent_servers :
      List (Text × json.Value) → Result Failure (List (Text × json.Value))
  unfolding Assoc.get
  agent_servers members = elim (Assoc.get (codes "agent_servers") members) [
    | none ↦ err (error (codes "agent_servers is not an object"))
    | some servers ↦ elim (json.as_object servers) [
      | none ↦ err (error (codes "agent_servers is not an object"))
      | some s ↦ ok s
    ]
  ]

  -- The loop over the agents.
  unfoldable pub add_agents :
      (path : Text) → List ZedAgent → List (Text × json.Value) → List (Text × json.Value)
  unfolding config_name npx_package create_agent_config Assoc.insert
  add_agents path [] servers = servers
  add_agents path (agent ∷ agents) servers =
      add_agents path agents
        (insert (config_name agent) (create_agent_config path (npx_package agent)) servers)

  -- The file with the agents, behind the reading of it.
  unfoldable pub write_config :
      (zed_config_path path : Text) (dry_run : Bool)
      → List ZedAgent
      → List (Text × json.Value)
      → List (Text × json.Value)
      → W
      → Ends system (Unit {0})
  unfolding add_agents Assoc.insert
  write_config zed_config_path path dry_run agents members servers w =
      if dry_run
      then (ok tt, w)
      else and_then
          (
            map_err (λ e. error (codes "Failed to serialize config"))
                (json.to_string_pretty (
                  json.object_value (
                    insert (codes "agent_servers")
                      (json.object_value (add_agents path agents servers)) members))),
            w,
          )
          (λ formatted v.
            in_context system (codes "Failed to write Zed settings.json")
              (system.write zed_config_path formatted v))

  unfoldable pub get_zed_config_path : Result Failure Text
  unfolding join
  get_zed_config_path = elim system.home [
    | none ↦ err (error (codes "HOME environment variable not set"))
    | some home ↦ ok (join home (codes ".config/zed/settings.json"))
  ]

  -- Behind the tests for the file and the agents.
  unfoldable pub update_config :
      (zed_config_path path : Text) (dry_run : Bool) → List ZedAgent → W → Ends system (Unit {0})
  unfolding strip_comments_and_parse with_agent_servers agent_servers write_config
  update_config zed_config_path path dry_run agents w =
      and_then
        (in_context system (codes "Failed to read Zed settings.json")
          (system.read_to_string zed_config_path w, w))
        λ contents a.
          and_then (strip_comments_and_parse contents, a)
            λ config b.
              and_then (with_agent_servers config, b)
                λ members c.
                  and_then (agent_servers members, c)
                    λ servers d. write_config zed_config_path path dry_run agents members servers d

  -- Behind the test for the file.
  abbrev pub configured :
      (zed_config_path path : Text) (dry_run : Bool) → List ZedAgent → W → Ends system (Unit {0})
  configured zed_config_path path dry_run [] w = (ok tt, w)
  configured zed_config_path path dry_run (agent ∷ agents) w =
      update_config zed_config_path path dry_run (agent ∷ agents) w

  unfoldable pub configure_zed :
      (symposium_acp_agent_path : Text) (dry_run : Bool) → W → Ends system (Unit {0})
  unfolding get_zed_config_path detect_zed_agents update_config
  configure_zed path dry_run w =
      and_then (get_zed_config_path, w)
        λ zed_config_path v.
          let agents = detect_zed_agents v in
          if system.exists zed_config_path v
          then configured zed_config_path path dry_run agents v
          else (ok tt, v)
