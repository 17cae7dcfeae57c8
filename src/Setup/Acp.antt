-- ===== src/Setup/Acp.antt =====
-- src/setup/src/acp.rs: the installation of the ACP binaries.
use symposium.Prelude.{
  Bool, true, false, some, none, List, [], ◌∷◌, ◌++◌, Result, ok, err, and_then, if◌then◌else◌,
}
use symposium.Prelude.Text.{Text, codes, join}
use symposium.Ide.Links.{contains}
use symposium.Setup.System.{Failure, error, System, Ends, in_context, run_checked}

module _ {W : Type 0} (system : System W) where
  unfoldable pub verify_symposium_repo : (repo_root : Text) → W → Ends system (Unit {0})
  unfolding join contains
  verify_symposium_repo repo_root w =
      let cargo_toml = join repo_root (codes "Cargo.toml") in
      if system.exists cargo_toml w
      then and_then
          (in_context system (codes "Failed to read Cargo.toml")
            (system.read_to_string cargo_toml w, w))
          (λ contents v. (
            (if contains contents (codes "symposium-acp-proxy")
                then ok tt
                else err (
                    error (
                      codes "❌ This doesn't appear to be the symposium repository."
                      ++ 10
                        ∷ codes
                            "   Expected to find 'symposium-acp-proxy' in workspace members."))),
            v,
          ))
      else (
        err (error (codes "❌ Not in a Cargo workspace. Cargo.toml not found at: " ++ cargo_toml)),
        w,
      )

  unfoldable pub install_from_crates_io : List Text → (dry_run : Bool) → W → Ends system (Unit {0})
  unfolding run_checked
  install_from_crates_io [] dry_run w = (ok tt, w)
  install_from_crates_io (crate_name ∷ crates) true w = install_from_crates_io crates true w
  install_from_crates_io (crate_name ∷ crates) false w =
      and_then
        (run_checked system (codes "cargo") (codes "install" ∷ crate_name ∷ codes "--force" ∷ [])
          none (codes "Failed to execute cargo install " ++ crate_name)
          (λ stderr.
            codes "❌ Failed to install "
            ++ crate_name
            ++ codes ":"
            ++ 10 ∷ codes "   Error: "
            ++ stderr)
          w)
        λ _ v. install_from_crates_io crates false v

  -- The loop over the one binary.
  unfoldable pub install_local_binaries :
      (repo_root : Text) (dry_run : Bool) → W → Ends system (Unit {0})
  unfolding join run_checked
  install_local_binaries repo_root dry_run w =
      let binary_dir = join (join repo_root (codes "src")) (codes "symposium-acp-agent") in
      if system.exists binary_dir w
      then (if dry_run
          then (ok tt, w)
          else run_checked system (codes "cargo")
              (codes "install" ∷ codes "--path" ∷ codes "." ∷ codes "--force" ∷ [])
              (some binary_dir) (codes "Failed to execute cargo install for symposium-acp-agent")
              (λ stderr.
                codes "❌ Failed to install symposium-acp-agent:"
                ++ 10 ∷ codes "   Error: "
                ++ stderr)
              w)
      else (err (error (codes "❌ symposium-acp-agent directory not found at: " ++ binary_dir)), w)

  unfoldable pub install_acp_binaries :
      (repo_root : Text) (dry_run : Bool) → W → Ends system (Unit {0})
  unfolding verify_symposium_repo install_from_crates_io install_local_binaries
  install_acp_binaries repo_root dry_run w = and_then (verify_symposium_repo repo_root w) λ _ v.
      and_then (install_from_crates_io (codes "elizacp" ∷ []) dry_run v)
        λ _ x. install_local_binaries repo_root dry_run x

  unfoldable pub get_binary_path : (binary_name : Text) → Result Failure Text
  unfolding join
  get_binary_path binary_name = elim system.home [
    | none ↦ err (error (codes "HOME environment variable not set"))
    | some home ↦ ok (join (join home (codes ".cargo/bin")) binary_name)
  ]
