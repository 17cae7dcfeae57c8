-- ===== src/Server/Crates.antt =====
-- outdated/mcp-server/src/server.rs, `get_rust_crate_source`: the sources of a crate, with the places where
-- a pattern matches.
pub mod Reported
use symposium.Prelude.{
  ℕ, ◌+◌, ◌-◌, ◌%◌, ◌^◌, Bool, true, false, List, [], ◌∷◌, ◌++◌, map, length, Option, some, none,
  Result, ok, err, if◌then◌else◌,
}
use symposium.Prelude.Text.{Text, codes, join_with}
use symposium.Ferris.Error.{FerrisError}
use symposium.Ferris.Version.{Semver, Registry}
use symposium.Ferris.Cache.{FileSystem, Extractor}
use symposium.Ferris.Fetch.{Dirs}
use symposium.Eg.Search.{Match, Ended, failed, panicked}
use symposium.Eg.Crate.{
  SearchResult, RustCrateSearch, rust_crate, with_version, with_pattern, to_string, Paths, search,
}
use symposium.Server.Errors.{McpError, mcp_error, internal_error, invalid_params}

-- A match in the answer.
pub record MatchReport : Type 0 where
  pub file_path : List Text
  pub line_number : ℕ
  pub context_start_line : ℕ
  pub context_end_line : ℕ
  pub context : Text

pub record CrateSource : Type 0 where
  pub crate_name : Text
  pub version : Text
  pub checkout_path : Text
  pub message : Text
  pub matches : Option (List MatchReport × List MatchReport)

-- The lines of the context of a match.
unfoldable pub context_of : Match → List Text
context_of m = m.context_before ++ m.line_content ∷ m.context_after

-- The sum is on `u32`; `line_number` counts the lines of a file that was read.
unfoldable pub report_of : Match → MatchReport
unfolding context_of
report_of m = record {
  file_path = m.file_path;
  line_number = m.line_number;
  context_start_line = m.line_number - length m.context_before % 2 ^ 32;
  context_end_line = (m.line_number + length m.context_after % 2 ^ 32) % 2 ^ 32;
  context = join_with (codes "\n") (context_of m);
}

unfoldable pub response_of : (crate_name : Text) (has_pattern : Bool) → SearchResult → CrateSource
unfolding report_of
response_of crate_name has_pattern result = record {
  crate_name = crate_name;
  version = result.version;
  checkout_path = result.checkout_path;
  message =
      codes "Crate "
      ++ crate_name
      ++ codes " v"
      ++ result.version
      ++ codes " extracted to "
      ++ result.checkout_path;
  matches =
      if has_pattern
      then some (map report_of result.example_matches, map report_of result.other_matches)
      else none;
}

abbrev pub is_some : Option Text → Bool
is_some (some t) = true
is_some none = false

-- The search that the parameters of the tool ask for.
unfoldable pub request_of :
    (Text → Result Text (Text → Bool))
    → (crate_name : Text) (version pattern : Option Text) → Result McpError RustCrateSearch
unfolding rust_crate with_version with_pattern to_string
request_of regex_new crate_name version pattern =
    let start = rust_crate crate_name in
    let versioned : RustCrateSearch = elim version [
      | some version_spec ↦ with_version version_spec start
      | none ↦ start
    ] in
    elim pattern [
      | none ↦ ok versioned
      | some p ↦ elim (with_pattern regex_new p versioned) [
        | ok search ↦ ok search
        | err e ↦ err (mcp_error invalid_params (codes "Invalid regex pattern: " ++ to_string e) [])
      ]
    ]

module _ (sem : Semver) (reg : Registry sem.Version) (dirs : Dirs) (cwd : Text) {W : Type 0}
    (fs : FileSystem W) (ex : Extractor W) (paths : Paths W)
    (regex_new : Text → Result Text (Text → Bool)) where
  -- What the search gives the agent; a panic of the search is `none`.
  unfoldable pub answer_of :
      (crate_name : Text) (has_pattern : Bool)
      → Result Ended SearchResult
      → Option (Result McpError CrateSource)
  unfolding response_of to_string
  answer_of crate_name has_pattern (ok result) =
      some (ok (response_of crate_name has_pattern result))
  answer_of crate_name has_pattern (err panicked) = none
  answer_of crate_name has_pattern (err (failed e)) = some (
      err (
        mcp_error internal_error (codes "Failed to get Rust crate source: " ++ to_string e)
          ((codes "crate_name", crate_name) ∷ (codes "error", to_string e) ∷ [])))

  unfoldable pub get_rust_crate_source :
      (crate_name : Text) (version pattern : Option Text)
      → W
      → Option (Result McpError CrateSource) × W
  unfolding request_of search answer_of
  get_rust_crate_source crate_name version pattern w =
      elim (request_of regex_new crate_name version pattern) [
        | err e ↦ (some (err e), w)
        | ok request ↦
            let (result, v) = search sem reg dirs cwd fs ex paths request w in
            (answer_of crate_name (is_some pattern) result, v)
      ]
