-- ===== src/Ferris/Examples.antt =====
-- The theorems about the Rust tools at concrete crates, directories and sessions.
use symposium.Prelude.{
  ℕ, Bool, true, false, List, [], ◌∷◌, ◌++◌, some, Result, ok, err, ◌≡◌, refl, ◌⊎◌, inl, leb, any,
  ◌||◌, if◌then◌else◌, arith, All,
}
use symposium.Prelude.Text.{Text, codes, text_eq, starts_with, join}
use symposium.Ferris.Error.{download_error, no_matching_versions}
use symposium.Ferris.Version.{
  Semver, IsOrd, Registry, get_available_versions, resolve_version_constraint,
}
use symposium.Ferris.Version.Latest.{IsLatest, resolve-IsLatest}
use symposium.Ferris.Cache.{
  FileSystem, Extractor, CacheManager, extraction_path_of, get_or_extract_crate, find_cached_crate,
  find_cargo_extracted_crate, search_registries,
}
use symposium.Ferris.Cache.Found.{IsLocal}
use symposium.Ferris.Tools.{Ferris, McpServerBuilder}
use symposium.Ferris.Tools.Enabled.{Switches}
use symposium.Ferris.Researcher.{
  approve_tool_request, PermissionOption, allow_always, reject_once, end_turn, Event,
  return_response, permission_request, other_message, stop_reason, returned, run_research,
}
use symposium.Ferris.Researcher.Collects.{
  SelectsFirst, approve_first_allowing, responses_of, answers_of, run_research_collects,
}

-- Versions of one digit; a requirement `N` asks for at least `N`.
abbrev digit : Text → Result Text ℕ
digit [] = err (codes "empty")
digit (c ∷ cs) = ok c

abbrev digits : Semver
digits = record {
  Version = ℕ;
  VersionReq = ℕ;
  parse_version = digit;
  parse_req = digit;
  is_match = λ req v. leb req v;
  le = leb;
  to_string = λ v. v ∷ [];
}

digits-IsOrd : IsOrd digits
digits-IsOrd = record { le_total = λ v w. ground arith; le_trans = λ u v w h h'. ground arith }

abbrev registry : Registry ℕ
registry = record {
  exec = λ cwd. err (codes "no Cargo.toml");
  new_client = ok tt;
  get_crate = λ name.
      ok (record {
        max_version = codes "5";
        versions = codes "3" ∷ [] ∷ codes "5" ∷ codes "4" ∷ [];
      });
}

published : get_available_versions digits registry (codes "serde") ≡ ok (b'3' ∷ b'5' ∷ b'4' ∷ [])
unfolding get_available_versions
published = refl

resolve-IsLatest_example :
    ((v : ℕ) × (resolve_version_constraint digits registry (codes "serde") (codes "4")
        ≡ ok (v ∷ []))
      × IsLatest digits digits-IsOrd b'4' (b'3' ∷ b'5' ∷ b'4' ∷ []) v)
    ⊎ ((resolve_version_constraint digits registry (codes "serde") (codes "4")
          ≡ err (no_matching_versions (codes "serde") (codes "4")))
        × All (λ w. leb b'4' w ≡ false) (b'3' ∷ b'5' ∷ b'4' ∷ []))
resolve-IsLatest_example =
    resolve-IsLatest digits digits-IsOrd registry (codes "serde") (codes "4") b'4'
      (b'3' ∷ b'5' ∷ b'4' ∷ []) refl published

-- A disk is the list of the paths that exist; every directory is empty.
abbrev disk : FileSystem (List Text)
disk = record { exists = λ p w. any (text_eq p) w; read_dir = λ p w. ok [] }

-- An extraction puts its target on disk.
abbrev unpack : Extractor (List Text)
unpack = record {
  extract_crate_to_cache = λ crate_path path w. (ok path, path ∷ w);
  download_and_extract_crate = λ name v path w. (ok path, path ∷ w);
}

abbrev caches : CacheManager
caches = record { cargo_cache_dir = codes "/c"; extraction_cache_dir = codes "/e" }

-- The path at which `serde` 5 is extracted.
abbrev serde_path : Text
serde_path = codes "/e/serde-5"

-- A file of cargo's .crate cache.
abbrev cached_disk : FileSystem (List Text)
cached_disk = record {
  exists =
      λ p w. text_eq p (codes "/c/cache") || text_eq p (codes "/c/cache/index.a/serde-5.crate");
  read_dir = λ p w. ok (ok (record { file_name = codes "index.a"; is_dir = ok true }) ∷ []);
}

-- It is extracted.
serde_extracted :
    get_or_extract_crate cached_disk caches unpack (codes "serde") (codes "5") []
    ≡ (ok serde_path, serde_path ∷ [])
unfolding get_or_extract_crate extraction_path_of find_cached_crate find_cargo_extracted_crate
    search_registries join text_eq starts_with
serde_extracted = refl

abbrev offline : Extractor (List Text)
offline = record unpack {
  download_and_extract_crate = λ name v path w. (err (download_error (codes "offline")), w);
}

serde-IsLocal : IsLocal disk caches (codes "serde") (codes "5") (serde_path ∷ [])
unfolding extraction_path_of join text_eq
serde-IsLocal = inl refl

-- A builder is the list of its tools, each with whether it is enabled; the first entry counts.
abbrev list_builder : McpServerBuilder (List (Text × Bool))
list_builder = record {
  builder = λ name. [];
  instructions = λ t b. b;
  tool_fn = λ name b. (name, true) ∷ b;
  enable_tool = λ name b. some ((name, true) ∷ b);
  disable_tool = λ name b. some ((name, false) ∷ b);
}

abbrev offers : List (Text × Bool) → Text → Bool
offers [] k = false
offers ((name, on) ∷ b) k = if text_eq name k then on else offers b k

list_builder-Switches : Switches list_builder offers
list_builder-Switches = record {
  enabled = λ name b. ((name, true) ∷ (name, true) ∷ b, refl, λ k. ground arith);
  disabled = λ name b. ((name, false) ∷ (name, true) ∷ b, refl, λ k. ground arith);
}

abbrev researcher_only : Ferris
researcher_only = record { crate_sources = false; rust_researcher = true }

-- The last option allows, the first does not.
abbrev options : List PermissionOption
options =
    record { option_id = codes "no"; kind = reject_once }
    ∷ record { option_id = codes "yes"; kind = allow_always }
    ∷ []

approve_first_allowing_example : SelectsFirst options (approve_tool_request options)
approve_first_allowing_example = approve_first_allowing options

-- A session whose values are texts.
abbrev events : List (Event Text)
events =
    permission_request options (ok tt)
    ∷ return_response (codes "found it")
    ∷ other_message
    ∷ return_response (codes "and more")
    ∷ []

run_research_collects_example :
    run_research (ok tt) (events ++ stop_reason end_turn ∷ [])
    ≡ (returned (ok (responses_of events)), record { responses = []; answers = answers_of events })
run_research_collects_example = run_research_collects events [] (refl, (tt, (tt, (tt, tt))))
