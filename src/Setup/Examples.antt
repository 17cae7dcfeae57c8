-- ===== src/Setup/Examples.antt =====
-- setup: runs of the installer, on a machine that counts what is changed on it.
use symposium.Prelude.{ℕ, ◌+◌, ◌==◌, ◌≡◌, refl, Bool, true, false, some, [], ◌∷◌, ok}
use symposium.Prelude.Text.{codes, text_eq}
use symposium.Setup.System.{System}
use symposium.Setup.Zed.{SerdeJson}
use symposium.Setup.Main.{Args, main}
use symposium.Setup.DryRun.{main-dry_run}

abbrev machine : System ℕ
machine = record {
  run = λ program args dir n. (ok record { success = true; stderr = [] }, n + 1);
  write = λ path contents n. (ok tt, n + 1);
  create_dir_all = λ path n. (ok tt, n + 1);
  copy = λ source dest n. (ok tt, n + 1);
  remove_file = λ path n. (ok tt, n + 1);
  is_command_available = λ name n. text_eq name (codes "claude");
  which = λ name n. true;
  exists = λ path n. true;
  read_to_string = λ path n. ok (codes "symposium-acp-proxy");
  read_dir = λ path n. ok (ok (codes "symposium.vsix") ∷ []);
  home = some (codes "/home/ada");
  cargo_manifest_dir = some (codes "/symposium/setup");
  file_name = λ path. some (codes "setup");
  parent = λ path. some (codes "/symposium");
  extension = λ name. some (codes "vsix");
  is_windows = false;
  os = codes "linux";
  arch = codes "x86_64";
  is_whitespace = λ c. c == 32;
}

-- JSON whose every value is an empty object.
abbrev empty_json : SerdeJson
empty_json = record {
  Value = Unit;
  null = tt;
  string_value = λ s. tt;
  array_value = λ values. tt;
  object_value = λ members. tt;
  as_object = λ value. some [];
  is_null = λ value. false;
  from_str = λ s. ok tt;
  to_string_pretty = λ value. ok (codes "{}");
}

abbrev everything : (dry_run : Bool) → Args
everything dry_run = record {
  all = true;
  acp = false;
  vscode = false;
  zed = false;
  dry_run = dry_run;
}

-- Without `--dry-run`: two crates, the agent, its directory and copy, npm twice, the package and its
-- predecessor, the extension and the settings.
everything_installed : main empty_json machine (everything false) 0 ≡ (ok tt, 11)
unfolding main
everything_installed = refl

main-dry_run_example : (main empty_json machine (everything true) 0).1 ≡ 0
main-dry_run_example = main-dry_run empty_json machine (everything true) 0 refl
