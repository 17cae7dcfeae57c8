-- ===== src/Setup/DryRun.antt =====
-- What the dry run of the installer does to the machine.
use symposium.Prelude.{
  ◌≡◌, refl, ◌||◌, Bool, true, false, List, [], ◌∷◌, Result, ok, err, and_then, if◌then◌else◌,
}
use symposium.Prelude.Text.{Text, codes, join}
use symposium.Setup.System.{System, in_context}
use symposium.Setup.Acp.{
  verify_symposium_repo, install_from_crates_io, install_local_binaries, install_acp_binaries,
  get_binary_path,
}
use symposium.Setup.Vscode.{
  build_and_install_extension, check_vscode_available, check_node_available,
}
use symposium.Setup.Zed.{
  ZedAgent, SerdeJson, configured, get_zed_config_path, write_config, strip_comments_and_parse,
  with_agent_servers, agent_servers, update_config, configure_zed,
}
use symposium.Setup.Main.{Args, when, install_zed, install, main, get_repo_root, check_rust}

-- A run that ends with the machine as it was at `w`.
unfoldable Keeps : {R W : Type 0} → W → R × W → Type 0
Keeps w (r, v) = v ≡ w

module _ {E A B W : Type 0} (w : W) where
  and_then-Keeps :
      (r : Result E A × W) (f : A → W → Result E B × W)
      → Keeps w r
      → ((a : A) (v : W) → v ≡ w → Keeps w (f a v))
      → Keeps w (and_then r f)
  unfolding Keeps
  and_then-Keeps (ok a, v) f e k = k a v e
  and_then-Keeps (err a, v) f e k = e

module _ {R W : Type 0} (w : W) where
  branch-Keeps : (b : Bool) (r s : R × W) → Keeps w r → Keeps w s → Keeps w (if b then r else s)
  branch-Keeps true r s p q = p
  branch-Keeps false r s p q = q

  ended : (r : R) (v : W) → v ≡ w → Keeps w (r, v)
  unfolding Keeps
  ended r v e = e

module _ {W : Type 0} (system : System W) where
  verify_symposium_repo-Keeps :
      (root : Text) (v w : W) → v ≡ w → Keeps w (verify_symposium_repo system root v)
  unfolding verify_symposium_repo join
  verify_symposium_repo-Keeps root v w e =
      branch-Keeps w (system.exists (join root (codes "Cargo.toml")) v) _ _
        (and_then-Keeps w
          (in_context system (codes "Failed to read Cargo.toml")
            (system.read_to_string (join root (codes "Cargo.toml")) v, v))
          _ (ended w _ v e) λ contents a p. ended w _ a p)
        (ended w _ v e)

  install_from_crates_io-Keeps :
      (crates : List Text) (v w : W) → v ≡ w → Keeps w (install_from_crates_io system crates true v)
  unfolding install_from_crates_io
  install_from_crates_io-Keeps [] v w e = ended w _ v e
  install_from_crates_io-Keeps (name ∷ crates) v w e = install_from_crates_io-Keeps crates v w e

  install_local_binaries-Keeps :
      (root : Text) (v w : W) → v ≡ w → Keeps w (install_local_binaries system root true v)
  unfolding install_local_binaries join
  install_local_binaries-Keeps root v w e =
      branch-Keeps w
        (system.exists (join (join root (codes "src")) (codes "symposium-acp-agent")) v) _ _
        (ended w _ v e) (ended w _ v e)

  install_acp_binaries-Keeps :
      (root : Text) (v w : W) → v ≡ w → Keeps w (install_acp_binaries system root true v)
  unfolding install_acp_binaries
  install_acp_binaries-Keeps root v w e =
      and_then-Keeps w _ _ (verify_symposium_repo-Keeps root v w e) λ _ a p.
        and_then-Keeps w _ _ (install_from_crates_io-Keeps (codes "elizacp" ∷ []) a w p)
          λ _ b q. install_local_binaries-Keeps root b w q

  build_and_install_extension-Keeps :
      (root : Text) (v w : W) → v ≡ w → Keeps w (build_and_install_extension system root true v)
  unfolding build_and_install_extension join
  build_and_install_extension-Keeps root v w e =
      branch-Keeps w (system.exists (join root (codes "vscode-extension")) v) _ _ (ended w _ v e)
        (ended w _ v e)

module _ (json : SerdeJson) {W : Type 0} (system : System W) where
  update_config-Keeps :
      (config path : Text) (agents : List ZedAgent) (v w : W)
      → v ≡ w
      → Keeps w (update_config json system config path true agents v)
  unfolding update_config write_config
  update_config-Keeps config path agents v w e =
      and_then-Keeps w
        (in_context system (codes "Failed to read Zed settings.json")
          (system.read_to_string config v, v))
        _ (ended w _ v e)
        λ contents a p.
          and_then-Keeps w (strip_comments_and_parse json system contents, a) _ (ended w _ a p)
            λ parsed b q.
              and_then-Keeps w (with_agent_servers json system parsed, b) _ (ended w _ b q)
                λ members c r.
                  and_then-Keeps w (agent_servers json system members, c) _ (ended w _ c r)
                    λ servers d s. ended w _ d s

  configured-Keeps :
      (config path : Text) (agents : List ZedAgent) (v w : W)
      → v ≡ w
      → Keeps w (configured json system config path true agents v)
  configured-Keeps config path [] v w e = ended w _ v e
  configured-Keeps config path (agent ∷ agents) v w e =
      update_config-Keeps config path (agent ∷ agents) v w e

  configure_zed-Keeps :
      (path : Text) (v w : W) → v ≡ w → Keeps w (configure_zed json system path true v)
  unfolding configure_zed
  configure_zed-Keeps path v w e =
      and_then-Keeps w (get_zed_config_path json system, v) _ (ended w _ v e)
        λ config a p.
          branch-Keeps w (system.exists config a) _ _ (configured-Keeps config path _ a w p)
            (ended w _ a p)

  install_zed-Keeps : (v w : W) → v ≡ w → Keeps w (install_zed json system true v)
  unfolding install_zed
  install_zed-Keeps v w e =
      and_then-Keeps w (get_binary_path system (codes "symposium-acp-agent"), v) _ (ended w _ v e)
        λ path a p. configure_zed-Keeps path a w p

  install-Keeps :
      (all acp vscode zed : Bool) (w : W)
      → Keeps w (
          install json system
            record { all = all; acp = acp; vscode = vscode; zed = zed; dry_run = true }
            w)
  unfolding install
  install-Keeps all acp vscode zed w =
      and_then-Keeps w (get_repo_root json system, w) _ (ended w _ w refl)
        λ root a p.
          and_then-Keeps w (check_rust json system a, a) _ (ended w _ a p)
            λ _ b q.
              and_then-Keeps w
                (when json system (all || vscode) (check_node_available system b, b) b) _
                (branch-Keeps w (all || vscode) _ _ (ended w _ b q) (ended w _ b q))
                λ _ c r.
                  and_then-Keeps w
                    (when json system (all || vscode) (check_vscode_available system c, c) c) _
                    (branch-Keeps w (all || vscode) _ _ (ended w _ c r) (ended w _ c r))
                    λ _ d s.
                      and_then-Keeps w
                        (when json system (all || acp || zed)
                          (install_acp_binaries system root true d) d)
                        _
                        (branch-Keeps w (all || acp || zed) _ _
                          (install_acp_binaries-Keeps system root d w s) (ended w _ d s))
                        λ _ e t.
                          and_then-Keeps w
                            (when json system (all || vscode)
                              (build_and_install_extension system root true e) e)
                            _
                            (branch-Keeps w (all || vscode) _ _
                              (build_and_install_extension-Keeps system root e w t) (ended w _ e t))
                            λ _ f u.
                              branch-Keeps w (all || zed) _ _ (install_zed-Keeps f w u)
                                (ended w _ f u)

  main-Keeps :
      (all acp vscode zed dry_run : Bool) (w : W)
      → dry_run ≡ true
      → Keeps w (
          main json system
            record { all = all; acp = acp; vscode = vscode; zed = zed; dry_run = dry_run }
            w)
  unfolding main
  main-Keeps all acp vscode zed true w dry =
      branch-Keeps w (all || acp || vscode || zed) _ _ (install-Keeps all acp vscode zed w)
        (ended w _ w refl)
  main-Keeps all acp vscode zed false w dry = cc

  -- A dry run of the installer leaves the machine as it is, whatever it is asked to install and however
  -- it ends.
  pub main-dry_run : (args : Args) (w : W) → args.dry_run ≡ true → (main json system args w).1 ≡ w
  unfolding Keeps
  main-dry_run args w dry = main-Keeps args.all args.acp args.vscode args.zed args.dry_run w dry
