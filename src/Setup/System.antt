-- ===== src/Setup/System.antt =====
-- What the installer asks of the system. `W` is the state of the machine: the disk, and what is
-- installed.
use symposium.Prelude.{ℕ, Bool, Option, List, Result, ok, err, map_err, and_then, if◌then◌else◌}
use symposium.Prelude.Text.{Text, trim}

-- How a function ends early: with an error or a panic.
pub data Failure : Type 0 where
  error : Text → Failure
  panicked : Failure

pub record Output : Type 0 where
  pub success : Bool
  pub stderr : Text

pub record System (W : Type 0) : Type 0 where
  pub run : (program : Text) (args : List Text) (dir : Option Text) → W → Result Text Output × W
  pub write : (path contents : Text) → W → Result Text (Unit {0}) × W
  pub create_dir_all : Text → W → Result Text (Unit {0}) × W
  pub copy : (source dest : Text) → W → Result Text (Unit {0}) × W
  pub remove_file : Text → W → Result Text (Unit {0}) × W
  -- `which`, as a command and as a crate
  pub is_command_available : Text → W → Bool
  pub which : Text → W → Bool
  pub exists : Text → W → Bool
  pub read_to_string : Text → W → Result Text Text
  -- the file names of the entries
  pub read_dir : Text → W → Result Text (List (Result Text Text))
  pub home : Option Text
  pub cargo_manifest_dir : Option Text
  -- `file_name`, `parent` and `extension` of a path
  pub file_name : Text → Option Text
  pub parent : Text → Option Text
  pub extension : Text → Option Text
  pub is_windows : Bool
  pub os : Text
  pub arch : Text
  pub is_whitespace : ℕ → Bool

module _ {W : Type 0} (system : System W) where
  abbrev pub Ends : Type 0 → Type 0
  Ends A = Result Failure A × W

  -- `.context(...)`: what fails, with another message.
  abbrev pub in_context : {A : Type 0} → Text → Result Text A × W → Ends A
  in_context message (r, w) = (map_err (λ e. error message) r, w)

  -- A command that has to succeed.
  unfoldable pub run_checked :
      (program : Text) (args : List Text) (dir : Option Text) (context : Text)
      (failure : Text → Text)
      → W
      → Ends (Unit {0})
  run_checked program args dir context failure w =
      and_then (in_context context (system.run program args dir w)) λ output v. (
        if output.success
            then ok tt
            else err (error (failure (trim system.is_whitespace output.stderr))),
        v,
      )
