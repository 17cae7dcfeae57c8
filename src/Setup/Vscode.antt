-- ===== src/Setup/Vscode.antt =====
-- src/setup/src/vscode.rs: the extension of VSCode is built, packaged and installed.
use symposium.Prelude.{
  Bool, false, some, none, List, [], ◌∷◌, ◌++◌, Result, ok, err, and_then, if◌then◌else◌,
}
use symposium.Prelude.Text.{Text, codes, join, text_eq}
use symposium.Setup.System.{Failure, error, System, Ends, in_context, run_checked}

module _ {W : Type 0} (system : System W) where
  unfoldable pub build_agent_binary : (repo_root : Text) → W → Ends system (Unit {0})
  unfolding run_checked
  build_agent_binary repo_root w =
      run_checked system (codes "cargo")
        (codes "build" ∷ codes "--release" ∷ codes "-p" ∷ codes "symposium-acp-agent" ∷ [])
        (some repo_root) (codes "Failed to execute cargo build")
        (λ stderr. codes "❌ Failed to build symposium-acp-agent") w

  -- The names that Node.js has for the platform.
  abbrev pub platform_dir : Text
  platform_dir =
      (if text_eq system.os (codes "macos")
        then codes "darwin"
        else if text_eq system.os (codes "windows")
        then codes "win32"
        else system.os)
      ++ codes "-"
      ++ (if text_eq system.arch (codes "aarch64")
          then codes "arm64"
          else if text_eq system.arch (codes "x86_64")
          then codes "x64"
          else system.arch)

  unfoldable pub copy_binary_to_extension :
      (repo_root extension_dir : Text) → W → Ends system (Unit {0})
  unfolding join text_eq
  copy_binary_to_extension repo_root extension_dir w =
      let binary_name =
        if system.is_windows
        then codes "symposium-acp-agent.exe"
        else codes "symposium-acp-agent" in
      let source = join (join (join repo_root (codes "target")) (codes "release")) binary_name in
      let dest_dir = join (join extension_dir (codes "bin")) platform_dir in
      if system.exists source w
      then and_then
          (in_context system (codes "Failed to create directory: " ++ dest_dir)
            (system.create_dir_all dest_dir w))
          (λ _ v.
            in_context system
              (codes "Failed to copy binary from "
                ++ source
                ++ codes " to "
                ++ join dest_dir binary_name)
              (system.copy source (join dest_dir binary_name) v))
      else (err (error (codes "❌ symposium-acp-agent binary not found at " ++ source)), w)

  unfoldable pub install_dependencies : (extension_dir : Text) → W → Ends system (Unit {0})
  unfolding run_checked
  install_dependencies extension_dir w =
      run_checked system (codes "npm") (codes "install" ∷ []) (some extension_dir)
        (codes "Failed to execute npm install")
        (λ stderr.
          codes "❌ Failed to install extension dependencies:" ++ 10 ∷ codes "   Error: " ++ stderr)
        w

  unfoldable pub build_extension : (extension_dir : Text) → W → Ends system (Unit {0})
  unfolding run_checked
  build_extension extension_dir w =
      run_checked system (codes "npm") (codes "run" ∷ codes "webpack-dev" ∷ []) (some extension_dir)
        (codes "Failed to execute npm run webpack-dev")
        (λ stderr. codes "❌ Failed to build extension:" ++ 10 ∷ codes "   Error: " ++ stderr) w

  abbrev pub is_vsix : (file_name : Text) → Bool
  is_vsix file_name = elim (system.extension file_name) [
    | some extension ↦ text_eq extension (codes "vsix")
    | none ↦ false
  ]

  -- The loop over the entries, each the name of a file.
  unfoldable pub clean_entries :
      (extension_dir : Text) → List (Result Text Text) → W → Ends system (Unit {0})
  unfolding join text_eq
  clean_entries extension_dir [] w = (ok tt, w)
  clean_entries extension_dir (err e ∷ entries) w =
      (err (error (codes "Failed to read directory entry")), w)
  clean_entries extension_dir (ok file_name ∷ entries) w =
      let path = join extension_dir file_name in
      and_then
        (if is_vsix file_name
          then in_context system (codes "Failed to remove old vsix: " ++ path)
              (system.remove_file path w)
          else (ok tt, w))
        λ _ v. clean_entries extension_dir entries v

  unfoldable pub clean_old_vsix_files : (extension_dir : Text) → W → Ends system (Unit {0})
  unfolding clean_entries
  clean_old_vsix_files extension_dir w = elim (system.read_dir extension_dir w) [
    | err e ↦ (err (error (codes "Failed to read extension directory")), w)
    | ok entries ↦ clean_entries extension_dir entries w
  ]

  unfoldable pub find_vsix : List (Result Text Text) → Result Failure Text
  unfolding text_eq
  find_vsix [] = err (error (codes "❌ No .vsix file found after packaging"))
  find_vsix (err e ∷ entries) = err (error (codes "Failed to read directory entry"))
  find_vsix (ok file_name ∷ entries) = if is_vsix file_name then ok file_name else find_vsix entries

  unfoldable pub find_vsix_file : (extension_dir : Text) → W → Result Failure Text
  unfolding find_vsix
  find_vsix_file extension_dir w = elim (system.read_dir extension_dir w) [
    | err e ↦ err (error (codes "Failed to read extension directory"))
    | ok entries ↦ find_vsix entries
  ]

  unfoldable pub package_extension : (extension_dir : Text) → W → Ends system (Unit {0})
  unfolding clean_old_vsix_files run_checked
  package_extension extension_dir w = and_then (clean_old_vsix_files extension_dir w) λ _ v.
      run_checked system (codes "npx")
        (codes "vsce" ∷ codes "package" ∷ codes "--no-dependencies" ∷ []) (some extension_dir)
        (codes "Failed to execute vsce package")
        (λ stderr. codes "❌ Failed to package extension:" ++ 10 ∷ codes "   Error: " ++ stderr) v

  unfoldable pub install_extension : (extension_dir : Text) → W → Ends system (Unit {0})
  unfolding find_vsix_file run_checked
  install_extension extension_dir w =
      and_then (find_vsix_file extension_dir w, w)
        λ vsix_file v.
          run_checked system (codes "code") (codes "--install-extension" ∷ vsix_file ∷ [])
            (some extension_dir) (codes "Failed to execute code --install-extension")
            (λ stderr.
              codes "❌ Failed to install VSCode extension:" ++ 10 ∷ codes "   Error: " ++ stderr)
            v

  unfoldable pub build_and_install_extension :
      (repo_root : Text) (dry_run : Bool) → W → Ends system (Unit {0})
  unfolding join build_agent_binary copy_binary_to_extension install_dependencies build_extension
      package_extension install_extension
  build_and_install_extension repo_root dry_run w =
      let extension_dir = join repo_root (codes "vscode-extension") in
      if system.exists extension_dir w
      then (if dry_run
          then (ok tt, w)
          else and_then (build_agent_binary repo_root w) λ _ a.
            and_then (copy_binary_to_extension repo_root extension_dir a) λ _ b.
              and_then (install_dependencies extension_dir b) λ _ c.
                and_then (build_extension extension_dir c) λ _ d.
                  and_then (package_extension extension_dir d)
                    λ _ e. install_extension extension_dir e)
      else (err (error (codes "❌ VSCode extension directory not found at: " ++ extension_dir)), w)

  unfoldable pub check_vscode_available : W → Result Failure (Unit {0})
  check_vscode_available w =
      if system.which (codes "code") w
      then ok tt
      else err (
          error (
            codes "❌ VSCode 'code' command not found."
            ++ 10 ∷ codes "   Please install VSCode and ensure the 'code' command is available."
            ++ 10 ∷ codes "   Visit: https://code.visualstudio.com/"))

  unfoldable pub check_node_available : W → Result Failure (Unit {0})
  check_node_available w =
      if system.which (codes "npm") w
      then ok tt
      else err (
          error (
            codes "❌ npm not found."
            ++ 10 ∷ codes "   Please install Node.js first."
            ++ 10 ∷ codes "   Visit: https://nodejs.org/"))
