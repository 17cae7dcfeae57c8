-- ===== src/Ferris/Error.antt =====
-- src/symposium-ferris/src/error.rs. What a wrapped error of another library says is its text.
use symposium.Prelude.Text.{Text}

pub data FerrisError : Type 0 where
  project_error : Text → FerrisError
  version_error : Text → FerrisError
  cargo_home_not_found : Text → FerrisError
  download_error : Text → FerrisError
  extraction_error : Text → FerrisError
  io_error : Text → FerrisError
  crate_not_found : (crate_name : Text) → FerrisError
  no_matching_versions : (crate_name constraint : Text) → FerrisError
  other : Text → FerrisError
