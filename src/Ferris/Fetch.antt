-- ===== src/Ferris/Fetch.antt =====
-- src/symposium-ferris/src/crate_sources/mod.rs: a fetch request, and how it is carried out.
use symposium.Prelude.{Option, none, some, Result, ok, err, ◌>>=◌}
use symposium.Prelude.Text.{Text}
use symposium.Ferris.Error.{FerrisError}
use symposium.Ferris.Version.{Semver, Registry, resolve_version}
use symposium.Ferris.Cache
use symposium.Ferris.Cache.{FileSystem, Extractor, CacheManager, get_or_extract_crate}

pub record FetchResult : Type 0 where
  pub version : Text
  pub path : Text

pub record RustCrateFetch : Type 0 where
  pub crate_name : Text
  pub version_spec : Option Text
  pub cwd : Text

unfoldable pub new : (name cwd : Text) → RustCrateFetch
new name cwd = record { crate_name = name; version_spec = none; cwd = cwd }

unfoldable pub version : Text → RustCrateFetch → RustCrateFetch
version spec self = record self { version_spec = some spec }

-- Where cargo and the platform keep their files: `home::cargo_home()` and `dirs::cache_dir()`.
pub record Dirs : Type 0 where
  pub cargo_home : Result Text Text
  pub cache_dir : Option Text

module _ (sem : Semver) (reg : Registry sem.Version) (dirs : Dirs) {W : Type 0} (fs : FileSystem W)
    (ex : Extractor W) where
  -- The part of `fetch` behind `resolve_version`.
  unfoldable pub fetch_version :
      (crate_name version : Text) → W → Result FerrisError FetchResult × W
  fetch_version crate_name v w = elim (Cache.new dirs.cargo_home dirs.cache_dir) [
    | err e ↦ (err e, w)
    | ok cache_manager ↦
        let (found, w') = get_or_extract_crate fs cache_manager ex crate_name v w in
        (found >>= (λ path. ok (record { version = v; path = path })), w')
  ]

  unfoldable pub fetch : RustCrateFetch → W → Result FerrisError FetchResult × W
  unfolding fetch_version
  fetch self w = elim (resolve_version sem reg self.cwd self.crate_name self.version_spec) [
    | err e ↦ (err e, w)
    | ok v ↦ fetch_version self.crate_name v w
  ]
