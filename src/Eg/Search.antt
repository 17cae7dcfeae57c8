-- ===== src/Eg/Search.antt =====
-- outdated/mcp-server/src/eg/rust/search.rs: the search in the sources of a crate. A path is the list of
-- its components. The disk is a tree, as `read_dir` shows it; a match of the regex is `is_match`.
pub mod Contexts
pub mod Visited
use symposium.Prelude.{
  ℕ, suc, ◌+◌, ◌-◌, ◌%◌, ◌^◌, Bool, true, false, ◌&&◌, ◌||◌, leb, ltb, List, [], ◌∷◌, ◌++◌, Option,
  some, none, Result, ok, err, ◌>>=◌, any, drop, take, length, if◌then◌else◌,
}
use symposium.Prelude.Text.{Text, codes, text_eq, starts_with, lines}
use symposium.Ferris.Error.{FerrisError, io_error, other}

pub record Match : Type 0 where
  pub file_path : List Text
  pub line_number : ℕ
  pub line_content : Text
  pub context_before : List Text
  pub context_after : List Text

-- `lines[from..to]`, which panics where it is not inside.
abbrev pub slice : (from to : ℕ) → List Text → Option (List Text)
slice from to lines =
    if leb from to && leb to (length lines) then some (take (to - from) (drop from lines)) else none

-- `min`
abbrev pub min : ℕ → ℕ → ℕ
min a b = if ltb b a then b else a

-- `strip_prefix` on components
abbrev pub strip_base : (base path : List Text) → Option (List Text)
strip_base [] path = some path
strip_base (b ∷ base) [] = none
strip_base (b ∷ base) (c ∷ path) = if text_eq b c then strip_base base path else none

abbrev pub or_path : Option (List Text) → List Text → List Text
or_path (some relative) path = relative
or_path none path = path

-- The matches of two searches; a panic of either is one of both.
abbrev pub joined {ℓ} : {A : Type ℓ} → Option (List A) → Option (List A) → Option (List A)
joined (some xs) (some ys) = some (xs ++ ys)
joined (some xs) none = none
joined none ys = none

module _ (is_match : Text → Bool) (context_lines : ℕ) where
  module _ (relative_path : List Text) (all : List Text) where
    -- The match at the line `line_idx`.
    unfoldable pub match_at : (line_idx : ℕ) (line : Text) → Option Match
    match_at line_idx line =
        let context_start = line_idx - context_lines in
        let context_end = min (line_idx + context_lines + 1) (length all) in
        elim (slice context_start line_idx all) [
          | none ↦ none
          | some context_before ↦ elim (slice (line_idx + 1) context_end all) [
            | none ↦ none
            | some context_after ↦ some (record {
              file_path = relative_path;
              line_number = (line_idx + 1) % 2 ^ 32;
              line_content = line;
              context_before = context_before;
              context_after = context_after;
            })
          ]
        ]

    abbrev pub one : Option Match → Option (List Match)
    one (some m) = some (m ∷ [])
    one none = none

    -- The loop over the lines from `line_idx` on. `none` is a panic.
    unfoldable pub search_lines : (line_idx : ℕ) → List Text → Option (List Match)
    unfolding match_at
    search_lines line_idx [] = some []
    search_lines line_idx (line ∷ rest) =
        let more = search_lines (line_idx + 1) rest in
        if is_match line then joined (one (match_at line_idx line)) more else more

  -- A file with the result of reading it.
  unfoldable pub search_file :
      (base_path file_path : List Text)
      → Result Text Text
      → Result FerrisError (Option (List Match))
  unfolding search_lines lines
  search_file base_path file_path (err e) = err (other (codes "Failed to read file: " ++ e))
  search_file base_path file_path (ok content) = ok (
      search_lines (or_path (strip_base base_path file_path) file_path) (lines content) 0
        (lines content))

unfoldable pub is_example_file : (base_path file_path : List Text) → Bool
unfolding text_eq
is_example_file base_path file_path = elim (strip_base base_path file_path) [
  | some relative_path ↦ any (λ c. text_eq c (codes "examples")) relative_path
  | none ↦ false
]

mutual
  -- What `read_dir` gives: an error, or the entries.
  pub data Directory : Type 0 where
    unreadable : Text → Directory
    readable : Entries → Directory

  -- An entry is an error, a directory or a file, with what reading the file gives.
  pub data Entries : Type 0 where
    nil : Entries
    entry_error : Text → Entries → Entries
    sub_directory : (file_name : Text) → Directory → Entries → Entries
    file : (file_name : Text) → Result Text Text → Entries → Entries

-- A directory that is not searched. `to_str` of its name fails where that is not UTF-8.
abbrev pub is_skipped : Option Text → Bool
is_skipped (some name) = starts_with name (codes ".") || text_eq name (codes "target")
is_skipped none = false

-- How a search ends early: with an error or a panic.
pub data Ended : Type 0 where
  failed : FerrisError → Ended
  panicked : Ended

-- The matches in examples and elsewhere.
abbrev pub Matches : Type 0
Matches = List Match × List Match

-- `extend` of one of the lists
abbrev pub add : (is_example : Bool) → Option (List Match) → Matches → Result Ended Matches
add is_example none found = err panicked
add true (some ms) (examples, others) = ok (examples ++ ms, others)
add false (some ms) (examples, others) = ok (examples, others ++ ms)

-- A test on the `extension` of a file name
abbrev pub is_rust : (extension : Text → Option Text) → Text → Bool
is_rust extension file_name = elim (extension file_name) [
  | some ext ↦ text_eq ext (codes "rs")
  | none ↦ false
]

-- `extension` of a file name, and `to_str`
module _ (extension to_str : Text → Option Text) (is_match : Text → Bool) (context_lines : ℕ)
    (base_path : List Text) where
  -- A file is searched if it is one of Rust; one that cannot be read is passed over.
  unfoldable pub add_file :
      (path : List Text) (file_name : Text) → Result Text Text → Matches → Result Ended Matches
  unfolding search_file is_example_file text_eq
  add_file path file_name content found =
      if is_rust extension file_name
      then elim (search_file is_match context_lines base_path path content) [
        | ok matches ↦ add (is_example_file base_path path) matches found
        | err e ↦ ok found
      ]
      else ok found

  unfoldable mutual
    unfolding add_file starts_with text_eq

    pub search_directory : (current_path : List Text) → Directory → Matches → Result Ended Matches
    search_directory current_path (unreadable e) found = err (failed (io_error e))
    search_directory current_path (readable es) found = search_entries current_path es found

    pub search_entries : (current_path : List Text) → Entries → Matches → Result Ended Matches
    search_entries current_path nil found = ok found
    search_entries current_path (entry_error e es) found = err (failed (io_error e))
    search_entries current_path (sub_directory file_name d es) found =
        (if is_skipped (to_str file_name)
          then ok found
          else search_directory (current_path ++ file_name ∷ []) d found)
        >>= search_entries current_path es
    search_entries current_path (file file_name content es) found =
        add_file (current_path ++ file_name ∷ []) file_name content found
        >>= search_entries current_path es

  unfoldable pub search_crate : Directory → Result Ended Matches
  unfolding search_directory
  search_crate d = search_directory base_path d ([], [])
