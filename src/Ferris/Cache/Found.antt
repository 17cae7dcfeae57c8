-- ===== src/Ferris/Cache/Found.antt =====
-- What `get_or_extract_crate` returns, and when it downloads.
use symposium.Prelude.{true, false, some, none, Result, ok, err, ◌≡◌, ◌⊎◌, ap, arith}
use symposium.Prelude.Text.{Text}
use symposium.Ferris.Error.{FerrisError}
use symposium.Ferris.Cache.{
  FileSystem, Extractor, CacheManager, find_cargo_extracted_crate, find_cached_crate,
  extraction_path_of, extract_or_download, get_or_extract_crate,
}

module _ {W : Type 0} (fs : FileSystem W) (self : CacheManager) (crate_name version : Text) where
  -- Where a crate comes from, with the result and the state after it: from one of the two places for
  -- extracted crates, where it is; by the extraction of a file that is there; or by a download. The
  -- latter two go to a directory that is not there. Or a search fails.
  abbrev pub Origin : Extractor W → W → Result FerrisError Text × W → Type 0
  Origin ex w r =
      let path = extraction_path_of fs self crate_name version in
      ((p : Text) × (fs.exists p w ≡ true) × (r ≡ (ok p, w)))
      ⊎ ((c : Text) × (fs.exists path w ≡ false)
          × (find_cargo_extracted_crate fs self crate_name version w ≡ ok none)
          × (fs.exists c w ≡ true)
          × (r ≡ ex.extract_crate_to_cache c path w))
      ⊎ ((fs.exists path w ≡ false)
          × (find_cargo_extracted_crate fs self crate_name version w ≡ ok none)
          × (find_cached_crate fs self crate_name version w ≡ ok none)
          × (r ≡ ex.download_and_extract_crate crate_name version path w))
      ⊎ ((e : FerrisError) × (r ≡ (err e, w)))

  -- The crate is in the extraction cache, in cargo's sources, or in cargo's .crate cache.
  abbrev pub IsLocal : W → Type 0
  IsLocal w =
      (fs.exists (extraction_path_of fs self crate_name version) w ≡ true)
      ⊎ ((p : Text) × (find_cargo_extracted_crate fs self crate_name version w ≡ ok (some p)))
      ⊎ ((p : Text) × (find_cached_crate fs self crate_name version w ≡ ok (some p)))

  -- If the crate is in one of the three local places, then `get_or_extract_crate` does the same,
  -- with the same result and the same state after it, whatever a download would do.
  pub get_or_extract_crate-local :
      (ex ex' : Extractor W) (w : W)
      → ex.extract_crate_to_cache ≡ ex'.extract_crate_to_cache
      → IsLocal w
      → get_or_extract_crate fs self ex crate_name version w
        ≡ get_or_extract_crate fs self ex' crate_name version w
  unfolding get_or_extract_crate extract_or_download
  get_or_extract_crate-local ex ex' w same local = ground (arith, local, ap (λ f. f) same)
