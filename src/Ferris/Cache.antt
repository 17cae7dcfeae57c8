-- ===== src/Ferris/Cache.antt =====
-- src/symposium-ferris/src/crate_sources/cache.rs: where the sources of a crate are found. The
-- file system is a parameter, and so is the extractor, by its interface. `W` is the state of what
-- is outside the program.
pub mod Registries
pub mod Found
use symposium.Prelude.{
  Bool, List, [], ◌∷◌, ◌++◌, Option, none, some, ◌&&◌, Result, ok, err, map_err, ◌>>=◌,
  if◌then◌else◌,
}
use symposium.Prelude.Text.{Text, codes, starts_with, join}
use symposium.Ferris.Error.{FerrisError, cargo_home_not_found, io_error}

pub record DirEntry : Type 0 where
  pub file_name : Text
  -- `file_type()`, as far as `is_dir()` of it
  pub is_dir : Result Text Bool

-- `Path::exists` and `read_dir`, which fails as a whole or for an entry.
pub record FileSystem (W : Type 0) : Type 0 where
  pub exists : Text → W → Bool
  pub read_dir : Text → W → Result Text (List (Result Text DirEntry))

-- The `CrateExtractor` that `get_or_extract_crate` is given.
pub record Extractor (W : Type 0) : Type 0 where
  pub extract_crate_to_cache : (crate_path extraction_path : Text) → W → Result FerrisError Text × W
  pub download_and_extract_crate :
      (crate_name version extraction_path : Text) → W → Result FerrisError Text × W

pub record CacheManager : Type 0 where
  pub cargo_cache_dir : Text
  pub extraction_cache_dir : Text

-- `home::cargo_home()` and `dirs::cache_dir()`
unfoldable pub new : Result Text Text → Option Text → Result FerrisError CacheManager
new cargo_home cache_dir = do
  home ← map_err cargo_home_not_found cargo_home
  let base : Text = elim cache_dir [ some dir ↦ dir | none ↦ home ]
  ok (record {
    cargo_cache_dir = join home (codes "registry");
    extraction_cache_dir = join (join base (codes "eg")) (codes "extractions");
  })

-- `{crate_name}-{version}`
abbrev pub versioned : Text → Text → Text
versioned crate_name version = crate_name ++ b'-' ∷ version

module _ {W : Type 0} (fs : FileSystem W) where
  -- Whether an entry of the registry directory `dir` is a directory, is named `index.…` and holds
  -- `wanted`.
  unfoldable pub holds : (dir wanted : Text) → DirEntry → W → Result FerrisError Bool
  holds dir wanted entry w = do
    is_dir ← map_err io_error entry.is_dir
    ok (
        is_dir
        && (starts_with entry.file_name (codes "index.")
            && fs.exists (join (join dir entry.file_name) wanted) w))

  -- The loop of both searches: the first entry that holds `wanted`.
  unfoldable pub search_entries :
      (dir wanted : Text) → List (Result Text DirEntry) → W → Result FerrisError (Option Text)
  unfolding holds
  search_entries dir wanted [] w = ok none
  search_entries dir wanted (err e ∷ entries) w = err (io_error e)
  search_entries dir wanted (ok entry ∷ entries) w = holds dir wanted entry w >>= λ found.
      if found
      then ok (some (join (join dir entry.file_name) wanted))
      else search_entries dir wanted entries w

  unfoldable pub search_registries : (dir wanted : Text) → W → Result FerrisError (Option Text)
  unfolding search_entries
  search_registries dir wanted w =
      if fs.exists dir w
      then (map_err io_error (fs.read_dir dir w) >>= λ entries. search_entries dir wanted entries w)
      else ok none

  module _ (self : CacheManager) where
    unfoldable pub find_cargo_extracted_crate :
        (crate_name version : Text) → W → Result FerrisError (Option Text)
    find_cargo_extracted_crate crate_name version =
        search_registries (join self.cargo_cache_dir (codes "src")) (versioned crate_name version)

    unfoldable pub find_cached_crate :
        (crate_name version : Text) → W → Result FerrisError (Option Text)
    find_cached_crate crate_name version =
        search_registries (join self.cargo_cache_dir (codes "cache"))
          (versioned crate_name version ++ codes ".crate")

    unfoldable pub extraction_path_of : (crate_name version : Text) → Text
    extraction_path_of crate_name version =
        join self.extraction_cache_dir (versioned crate_name version)

    -- Steps 3 and 4: from cargo's .crate cache, or by a download.
    unfoldable pub extract_or_download :
        Extractor W → (crate_name version : Text) → W → Result FerrisError Text × W
    extract_or_download ex crate_name version w =
        let path = extraction_path_of crate_name version in
        elim (find_cached_crate crate_name version w) [
          | err e ↦ (err e, w)
          | ok found ↦ elim found [
            | some cached ↦ ex.extract_crate_to_cache cached path w
            | none ↦ ex.download_and_extract_crate crate_name version path w
          ]
        ]

    unfoldable pub get_or_extract_crate :
        Extractor W → (crate_name version : Text) → W → Result FerrisError Text × W
    unfolding extract_or_download
    get_or_extract_crate ex crate_name version w =
        let path = extraction_path_of crate_name version in
        if fs.exists path w
        then (ok path, w)
        else elim (find_cargo_extracted_crate crate_name version w) [
          | err e ↦ (err e, w)
          | ok found ↦ elim found [
            | some cargo_src ↦ (ok cargo_src, w)
            | none ↦ extract_or_download ex crate_name version w
          ]
        ]
