-- ===== src/Acp/Examples.antt =====
-- The theorems about the command lines and `serve` at concrete configurations.
use symposium.Prelude.{true, false, [], ◌∷◌, none, some, ok, err, if◌then◌else◌}
use symposium.Prelude.Text.{Text, codes, text_eq}
use symposium.Acp.Proxy.{SymposiumConfig, Outside}
use symposium.Acp.Cli.{Cli}

-- Agents are commands; the directory `/ro` cannot be made.
abbrev outside : Outside Text
outside = record {
  create_dir_all = λ dir. if text_eq dir (codes "/ro") then err (codes "read-only") else ok tt;
  trace_to_path = λ path. ok tt;
  run = λ c. ok tt;
  timestamp = codes "20260101_000000";
}

abbrev traced_config : SymposiumConfig
traced_config = record {
  ferris = some (record { crate_sources = true; rust_researcher = false });
  cargo = false;
  sparkle = true;
  trace_dir = some (codes "/tmp/traces");
}

abbrev researcher_cli : Cli
researcher_cli = record {
  sparkle = false;
  ferris = true;
  ferris_tools = codes "rust_researcher" ∷ [];
  cargo = true;
  trace_dir = none;
}
