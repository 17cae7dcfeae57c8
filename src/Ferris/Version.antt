-- ===== src/Ferris/Version.antt =====
-- src/symposium-ferris/src/crate_sources/version.rs: which version of a crate to fetch. The crates
-- semver, cargo_metadata and crates_io_api are parameters.
pub mod Latest
use symposium.Prelude.{
  Bool, true, List, [], ◌∷◌, Option, none, some, Result, ok, err, ◌>>=◌, ◌>>◌, map_err, map_ok,
  ok_or, or_else, ◌≡◌, ◌⊎◌, last, keep, if◌then◌else◌,
}
use symposium.Prelude.Text.{Text, text_eq}
use symposium.Ferris.Error.{
  FerrisError, project_error, version_error, crate_not_found, no_matching_versions, other,
}

-- semver: `Version` and `VersionReq`, with `Version`'s order as a test.
pub record Semver : Type 1 where
  pub Version : Type 0
  pub VersionReq : Type 0
  pub parse_version : Text → Result Text Version
  pub parse_req : Text → Result Text VersionReq
  pub is_match : VersionReq → Version → Bool
  pub le : Version → Version → Bool
  pub to_string : Version → Text

-- `Version: Ord`
pub record IsOrd (sem : Semver) : Type 0 where
  pub le_total : (v w : sem.Version) → (sem.le v w ≡ true) ⊎ (sem.le w v ≡ true)
  pub le_trans : (u v w : sem.Version) → sem.le u v ≡ true → sem.le v w ≡ true → sem.le u w ≡ true

pub record Package (Version : Type 0) : Type 0 where
  pub name : Text
  pub version : Version

-- What crates.io says of a crate: `crate_data.max_version`, and `num` of each of `versions`.
pub record CrateInfo : Type 0 where
  pub max_version : Text
  pub versions : List Text

-- cargo_metadata in a directory, and crates_io_api: a client, and its `get_crate`.
pub record Registry (Version : Type 0) : Type 0 where
  pub exec : (cwd : Text) → Result Text (List (Package Version))
  pub new_client : Result Text (Unit {0})
  pub get_crate : (crate_name : Text) → Result Text CrateInfo

-- `Vec::sort`, by insertion: it is stable too.
module _ {A : Type 0} (le : A → A → Bool) where
  unfoldable pub insert_sorted : A → List A → List A
  insert_sorted x [] = x ∷ []
  insert_sorted x (y ∷ ys) = if le x y then x ∷ y ∷ ys else y ∷ insert_sorted x ys

  unfoldable pub sort : List A → List A
  unfolding insert_sorted
  sort [] = []
  sort (x ∷ xs) = insert_sorted x (sort xs)

module _ (sem : Semver) (reg : Registry sem.Version) where
  unfoldable pub find_package : Text → List (Package sem.Version) → Option Text
  find_package crate_name [] = none
  find_package crate_name (p ∷ ps) =
      if text_eq p.name crate_name
      then some (sem.to_string p.version)
      else find_package crate_name ps

  unfoldable pub find_in_current_project : (cwd crate_name : Text) → Result FerrisError Text
  unfolding find_package
  find_in_current_project cwd crate_name = do
    packages ← map_err project_error (reg.exec cwd)
    ok_or (crate_not_found crate_name) (find_package crate_name packages)

  unfoldable pub get_crate : Text → Result FerrisError CrateInfo
  get_crate crate_name = do
    map_err other reg.new_client
    map_err (λ _. crate_not_found crate_name) (reg.get_crate crate_name)

  unfoldable pub get_latest_version : Text → Result FerrisError Text
  unfolding get_crate
  get_latest_version crate_name = do info ← get_crate crate_name; ok info.max_version

  -- The versions that parse; the others are skipped.
  unfoldable pub parse_versions : List Text → List sem.Version
  parse_versions [] = []
  parse_versions (num ∷ nums) = elim (sem.parse_version num) [
    | ok v ↦ v ∷ parse_versions nums
    | err e ↦ parse_versions nums
  ]

  unfoldable pub get_available_versions : Text → Result FerrisError (List sem.Version)
  unfolding get_crate parse_versions
  get_available_versions crate_name = do
    info ← get_crate crate_name
    ok (parse_versions info.versions)

  unfoldable pub resolve_version_constraint :
      (crate_name constraint : Text) → Result FerrisError Text
  resolve_version_constraint crate_name constraint = do
    req ← map_err version_error (sem.parse_req constraint)
    available ← get_available_versions crate_name
    let matching = sort sem.le (keep (sem.is_match req) available)
    map_ok sem.to_string (ok_or (no_matching_versions crate_name constraint) (last matching))

  unfoldable pub resolve_version : (cwd crate_name : Text) → Option Text → Result FerrisError Text
  resolve_version cwd crate_name (some spec) = resolve_version_constraint crate_name spec
  resolve_version cwd crate_name none =
      or_else (find_in_current_project cwd crate_name) (get_latest_version crate_name)
