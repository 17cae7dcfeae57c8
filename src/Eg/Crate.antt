-- ===== src/Eg/Crate.antt =====
-- outdated/mcp-server/src/eg/rust/mod.rs and eg/error.rs. The version and the sources are found as in the
-- Ferris tools, whose code is the same there.
use symposium.Prelude.{
  Option, none, some, List, [], ◌++◌, Bool, ℕ, Result, ok, err, map_err, map_ok,
}
use symposium.Prelude.Text.{Text, codes}
use symposium.Ferris.Error.{
  FerrisError, project_error, version_error, cargo_home_not_found, download_error, extraction_error,
  io_error, crate_not_found, no_matching_versions, other,
}
use symposium.Ferris.Version.{Semver, Registry, resolve_version}
use symposium.Ferris.Cache
use symposium.Ferris.Cache.{FileSystem, Extractor, get_or_extract_crate}
use symposium.Ferris.Fetch.{Dirs}
use symposium.Eg.Search.{Match, Directory, Ended, failed, Matches, search_crate}

pub record SearchResult : Type 0 where
  pub version : Text
  pub checkout_path : Text
  pub example_matches : List Match
  pub other_matches : List Match

pub record RustCrateSearch : Type 0 where
  pub crate_name : Text
  pub version_spec : Option Text
  pub pattern : Option (Text → Bool)
  pub context_lines : ℕ

unfoldable pub rust_crate : (name : Text) → RustCrateSearch
rust_crate name = record {
  crate_name = name;
  version_spec = none;
  pattern = none;
  context_lines = 2;
}

unfoldable pub with_version : (version : Text) → RustCrateSearch → RustCrateSearch
with_version version search = record search { version_spec = some version }

-- `Regex::new` is a parameter: a regex is the test whether a line has a match.
unfoldable pub with_pattern :
    (Text → Result Text (Text → Bool))
    → (pattern : Text) → RustCrateSearch
    → Result FerrisError RustCrateSearch
with_pattern regex_new pattern search =
    map_ok (λ regex. record search { pattern = some regex })
      (map_err (λ e. other (codes "Invalid regex pattern: " ++ e)) (regex_new pattern))

-- `Display` of `EgError`
unfoldable pub to_string : FerrisError → Text
to_string (project_error e) = codes "Project error: " ++ e
to_string (version_error e) = codes "Version error: " ++ e
to_string (cargo_home_not_found e) = codes "Could not determine CARGO_HOME directory"
to_string (download_error e) = codes "Download error: " ++ e
to_string (extraction_error e) = codes "Extraction error: " ++ e
to_string (io_error e) = codes "I/O error: " ++ e
to_string (crate_not_found crate_name) = codes "Crate '" ++ crate_name ++ codes "' not found"
to_string (no_matching_versions crate_name constraint) =
    codes "No versions of '"
    ++ crate_name
    ++ codes "' match constraint '"
    ++ constraint
    ++ codes "'"
to_string (other e) = codes "Error: " ++ e

-- How paths are taken apart, and the directory that a path names.
pub record Paths (W : Type 0) : Type 0 where
  pub components : Text → List Text
  pub extension : Text → Option Text
  pub to_str : Text → Option Text
  pub directory : Text → W → Directory

module _ (sem : Semver) (reg : Registry sem.Version) (dirs : Dirs) (cwd : Text) {W : Type 0}
    (fs : FileSystem W) (ex : Extractor W) (paths : Paths W) where
  unfoldable pub matches_in : RustCrateSearch → (checkout_path : Text) → W → Result Ended Matches
  unfolding search_crate
  matches_in self checkout_path w = elim self.pattern [
    | none ↦ ok ([], [])
    | some pattern ↦
        search_crate paths.extension paths.to_str pattern self.context_lines
          (paths.components checkout_path) (paths.directory checkout_path w)
  ]

  -- Behind `resolve_version`.
  unfoldable pub search_version :
      RustCrateSearch → (version : Text) → W → Result Ended SearchResult × W
  unfolding matches_in
  search_version self version w = elim (Cache.new dirs.cargo_home dirs.cache_dir) [
    | err e ↦ (err (failed e), w)
    | ok cache_manager ↦
        let (found, v) = get_or_extract_crate fs cache_manager ex self.crate_name version w in
        elim found [
          | err e ↦ (err (failed e), v)
          | ok checkout_path ↦ (
            map_ok
                (λ matches. record {
                  version = version;
                  checkout_path = checkout_path;
                  example_matches = matches.0;
                  other_matches = matches.1;
                })
                (matches_in self checkout_path v),
            v,
          )
        ]
  ]

  unfoldable pub search : RustCrateSearch → W → Result Ended SearchResult × W
  unfolding search_version
  search self w = elim (resolve_version sem reg cwd self.crate_name self.version_spec) [
    | err e ↦ (err (failed e), w)
    | ok version ↦ search_version self version w
  ]
