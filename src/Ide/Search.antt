-- ===== src/Ide/Search.antt =====
-- outdated/mcp-server/src/ide.rs, `Search::execute`. The crate `regex` is a type of regexes with `find`,
-- which answers with the bytes of the first match; files and the crate `ignore` are `Files`.
pub mod Hits
use symposium.Prelude.{
  ℕ, ◌+◌, ◌%◌, ◌^◌, Bool, true, false, Option, some, none, List, [], ◌∷◌, ◌++◌, Result, ok, err,
  map_ok, if◌then◌else◌, ◌>>=◌,
}
use symposium.Prelude.Text.{Text, codes, lines, starts_with, ends_with}
use symposium.Ide.Ranges.{FileLocation, FileRange}

pub record RegexCrate (Regex : Type 0) : Type 0 where
  pub new : Text → Result Text Regex
  pub find : Regex → Text → Option (ℕ × ℕ)

-- `walk` gives a path and whether it is a file.
pub record Files : Type 0 where
  pub is_file : Text → Bool
  pub is_dir : Text → Bool
  pub walk : Text → List (Result Text (Text × Bool))
  pub read_to_string : Text → Result Text Text

pub record Search : Type 0 where
  pub path : Text
  pub regex : Text
  pub extension : Option Text

-- The match from byte `first` to byte `stop` of the line `line_num`, from 0.
abbrev pub match_range : Text → ℕ → Text → ℕ → ℕ → FileRange
match_range file_path line_num line first stop = record {
  path = file_path;
  start = record { line = (line_num + 1) % 2 ^ 32; column = (first + 1) % 2 ^ 32 };
  stop = record { line = (line_num + 1) % 2 ^ 32; column = (stop + 1) % 2 ^ 32 };
  content = some line;
}

abbrev pub line_matches : Text → ℕ → Text → Option (ℕ × ℕ) → List FileRange → List FileRange
line_matches file_path line_num line none rest = rest
line_matches file_path line_num line (some (first, stop)) rest =
    match_range file_path line_num line first stop ∷ rest

-- The loop over the lines from `line_num` on.
unfoldable pub search_lines : Text → (Text → Option (ℕ × ℕ)) → ℕ → List Text → List FileRange
search_lines file_path find line_num [] = []
search_lines file_path find line_num (line ∷ rest) =
    line_matches file_path line_num line (find line)
      (search_lines file_path find (line_num + 1) rest)

unfoldable pub search_file_content : Text → Text → (Text → Option (ℕ × ℕ)) → List FileRange
unfolding search_lines
search_file_content file_path content find = search_lines file_path find 0 (lines content)

unfoldable pub matches_extension : Text → Option Text → Bool
unfolding ends_with
matches_extension file_path (some ext) = ends_with file_path ext
matches_extension file_path none = true

-- The extension with a dot in front.
unfoldable pub extension_filter : Option Text → Option Text
unfolding starts_with
extension_filter none = none
extension_filter (some ext) = some (if starts_with ext (codes ".") then ext else codes "." ++ ext)

module _ (files : Files) where
  unfoldable pub process_file : Text → Option Text → (Text → Option (ℕ × ℕ)) → List FileRange
  unfolding matches_extension search_file_content
  process_file file_path filter find = elim (matches_extension file_path filter) [
    | true ↦ elim (files.read_to_string file_path) [
      | ok content ↦ search_file_content file_path content find
      | err e ↦ []
    ]
    | false ↦ []
  ]

  -- The loop over a directory: its first error is the result.
  unfoldable pub walk_entries :
      Option Text
      → (Text → Option (ℕ × ℕ))
      → List (Result Text (Text × Bool))
      → Result Text (List FileRange)
  unfolding process_file
  walk_entries filter find [] = ok []
  walk_entries filter find (err e ∷ entries) = err e
  walk_entries filter find (ok (file_path, false) ∷ entries) = walk_entries filter find entries
  walk_entries filter find (ok (file_path, true) ∷ entries) =
      map_ok (λ rest. process_file file_path filter find ++ rest) (walk_entries filter find entries)

  unfoldable pub execute :
      {Regex : Type 0} → RegexCrate Regex → Search → Result Text (List FileRange)
  unfolding process_file walk_entries extension_filter
  execute regexes s = regexes.new s.regex >>= λ regex.
      if files.is_file s.path
      then ok (process_file s.path (extension_filter s.extension) (regexes.find regex))
      else if files.is_dir s.path
      then walk_entries (extension_filter s.extension) (regexes.find regex) (files.walk s.path)
      else ok []
