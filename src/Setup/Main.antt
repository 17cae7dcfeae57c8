-- ===== src/Setup/Main.antt =====
-- src/setup/src/main.rs: what is installed, and in which order. clap reads the arguments.
use symposium.Prelude.{
  Bool, ◌||◌, ◌∷◌, ◌++◌, Option, some, none, Result, ok, err, and_then, if◌then◌else◌,
}
use symposium.Prelude.Text.{Text, codes, text_eq}
use symposium.Setup.System.{Failure, error, System, Ends}
use symposium.Setup.Acp.{install_acp_binaries, get_binary_path}
use symposium.Setup.Vscode.{
  build_and_install_extension, check_vscode_available, check_node_available,
}
use symposium.Setup.Zed.{SerdeJson, configure_zed}

pub record Args : Type 0 where
  pub all : Bool
  pub acp : Bool
  pub vscode : Bool
  pub zed : Bool
  pub dry_run : Bool

module _ (json : SerdeJson) {W : Type 0} (system : System W) where
  unfoldable pub check_rust : W → Result Failure (Unit {0})
  check_rust w =
      if system.which (codes "cargo") w
      then ok tt
      else err (
          error (
            codes "❌ Cargo not found. Please install Rust first."
            ++ 10 ∷ codes "   Visit: https://rustup.rs/"))

  abbrev pub or_self : Option Text → Text → Text
  or_self (some parent) path = parent
  or_self none path = path

  unfoldable pub get_repo_root : Result Failure Text
  unfolding text_eq
  get_repo_root = elim system.cargo_manifest_dir [
    | none ↦ err (
        error (
          codes
            "❌ Setup tool must be run via cargo (e.g., 'cargo setup'). CARGO_MANIFEST_DIR not found."))
    | some manifest_dir ↦ ok (elim (system.file_name manifest_dir) [
      | some name ↦
          if text_eq name (codes "setup")
          then or_self (system.parent manifest_dir) manifest_dir
          else manifest_dir
      | none ↦ manifest_dir
    ])
  ]

  -- A step that is left out if it is not asked for.
  abbrev pub when : Bool → Ends system (Unit {0}) → W → Ends system (Unit {0})
  when asked step w = if asked then step else (ok tt, w)

  unfoldable pub install_zed : (dry_run : Bool) → W → Ends system (Unit {0})
  unfolding get_binary_path configure_zed
  install_zed dry_run w =
      and_then (get_binary_path system (codes "symposium-acp-agent"), w)
        λ path v. configure_zed json system path dry_run v

  -- The steps, behind the test whether anything is asked for.
  unfoldable pub install : Args → W → Ends system (Unit {0})
  unfolding get_repo_root check_rust check_vscode_available check_node_available
      install_acp_binaries build_and_install_extension install_zed
  install args w =
      let install_acp = args.all || args.acp || args.zed in
      let install_vscode = args.all || args.vscode in
      let configure = args.all || args.zed in
      and_then (get_repo_root, w)
        λ repo_root a.
          and_then (check_rust a, a)
            λ _ b. and_then (when install_vscode (check_node_available system b, b) b) λ _ c.
              and_then (when install_vscode (check_vscode_available system c, c) c) λ _ d.
                and_then (when install_acp (install_acp_binaries system repo_root args.dry_run d) d)
                  λ _ e.
                    and_then
                      (when install_vscode
                        (build_and_install_extension system repo_root args.dry_run e) e)
                      λ _ f. when configure (install_zed args.dry_run f) f

  unfoldable pub main : Args → W → Ends system (Unit {0})
  unfolding install
  main args w =
      if args.all || args.acp || args.vscode || args.zed then install args w else (ok tt, w)
