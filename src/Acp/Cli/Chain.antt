-- ===== src/Acp/Cli/Chain.antt =====
-- From the command line to the configuration.
use symposium.Prelude.{
  Bool, true, false, List, [], ◌∷◌, Option, none, some, any, ◌≡◌, refl, ◌↔◌, Elem, here, there,
  Bool-cases, Option-cases, inl, inr, subst, sym,
}
use symposium.Prelude.Text.{Text, codes, text_eq, text_eq_iff, text_eq_refl}
use symposium.Ferris.Tools.{Ferris}
use symposium.Acp.Cli.{Cli, build_ferris_config, configure}

any→Elem : (t : Text) (ts : List Text) → any (λ s. text_eq s t) ts ≡ true → Elem t ts
any→Elem t [] h = cc
any→Elem t (s ∷ ts) h = elim (Bool-cases (text_eq s t)) [
  | inl e ↦ subst (λ r. Elem t (r ∷ ts)) (sym ((text_eq_iff s t).0 e)) here
  | inr f ↦ there (any→Elem t ts (rw (f) at h))
]

Elem→any : (t : Text) (ts : List Text) → Elem t ts → any (λ s. text_eq s t) ts ≡ true
Elem→any t [] x = elim x [ ]
Elem→any t (s ∷ ts) here = rw (text_eq_refl s)
Elem→any t (s ∷ ts) (there e) = elim (Bool-cases (text_eq s t)) [
  | inl h ↦ rw h
  | inr f ↦ rw f (Elem→any t ts e)
]

tool_iff : (t : Text) (ts : List Text) → (any (λ s. text_eq s t) ts ≡ true) ↔ Elem t ts
tool_iff t ts = (any→Elem t ts, Elem→any t ts)

-- What the option `--ferris` and the list of `--ferris-tools` ask for: no Ferris at all, or Ferris
-- with exactly the tools that are named.
abbrev pub FerrisFor : Bool → List Text → Option Ferris → Type 0
FerrisFor false tools config = config ≡ none
FerrisFor true tools config =
    (f : Ferris) × (config ≡ some f)
    × ((f.crate_sources ≡ true) ↔ Elem (codes "crate_source") tools)
    × ((f.rust_researcher ≡ true) ↔ Elem (codes "rust_researcher") tools)

build_ferris_config-FerrisFor :
    (enabled : Bool) (tools : List Text)
    → FerrisFor enabled tools (build_ferris_config enabled tools)
unfolding build_ferris_config
build_ferris_config-FerrisFor false tools = refl
build_ferris_config-FerrisFor true tools =
    (_, refl, tool_iff (codes "crate_source") tools, tool_iff (codes "rust_researcher") tools)

-- The configuration of both programs takes `--cargo`, `--sparkle` and `--trace-dir` as given, and
-- has Ferris exactly if `--ferris` is on, with `crate_sources` exactly if `crate_source` is among
-- the named tools, and `rust_researcher` exactly if `rust_researcher` is.
pub configure_lem :
    (cli : Cli)
    → ((configure cli).cargo ≡ cli.cargo)
      × ((configure cli).sparkle ≡ cli.sparkle)
      × ((configure cli).trace_dir ≡ cli.trace_dir)
      × FerrisFor cli.ferris cli.ferris_tools (configure cli).ferris
unfolding configure
configure_lem cli =
    let ferris = build_ferris_config-FerrisFor cli.ferris cli.ferris_tools in
    elim (Option-cases cli.trace_dir) [
      | inl e ↦ rw (e, configure) (refl, refl, refl, ferris)
      | inr (dir, e) ↦ rw (e, configure) (refl, refl, refl, ferris)
    ]
