-- ===== src/Git/Comments.antt =====
-- outdated/mcp-server/src/git/comment_parser.rs. A regex of the source is the function that gives its
-- group; the file system and uuids are parameters.
pub mod Changed
use symposium.Prelude.{
  ℕ, ◌+◌, ◌%◌, ◌^◌, Bool, true, false, Option, some, none, List, [], ◌∷◌, ◌++◌, Result, ok, err,
  and_then, if◌then◌else◌,
}
use symposium.Prelude.Text.{Text, codes, lines, trim}
use symposium.Prelude.Decimal.{to_string}
use symposium.Git.Diff.{
  DiffLine, DiffHunk, DiffLineType, added_line, removed_line, context_line, FileChange, or_zero,
}

pub data CommentType : Type 0 where
  explanation question todo fixme : CommentType

pub record ParsedComment : Type 0 where
  pub comment_type : CommentType
  pub content : Text

pub record CommentThread : Type 0 where
  pub thread_id : Text
  pub file_path : Text
  pub line_number : ℕ
  pub comment_type : CommentType
  pub content : Text
  pub responses : List Text

-- The regexes, and `char::is_whitespace`.
pub record CommentParser : Type 0 where
  pub lightbulb_regex : Text → Option Text
  pub question_regex : Text → Option Text
  pub todo_regex : Text → Option Text
  pub fixme_regex : Text → Option Text
  pub is_whitespace : ℕ → Bool

pub record Files (U : Type 0) : Type 0 where
  pub exists : Text → U → Bool × U
  pub read_to_string : Text → U → Result Text Text × U
  pub new_uuid : U → Text × U

-- A loop that appends.
abbrev pub concat_map {ℓ κ} : {A : Type ℓ} {B : Type κ} → (A → List B) → List A → List B
concat_map f [] = []
concat_map f (x ∷ xs) = f x ++ concat_map f xs

module _ (p : CommentParser) where
  abbrev comment_of : CommentType → Text → ParsedComment
  comment_of kind group = record { comment_type = kind; content = trim p.is_whitespace group }

  unfoldable pub extract_comment : Text → Option ParsedComment
  unfolding trim
  extract_comment line = elim (p.lightbulb_regex line) [
    | some group ↦ some (comment_of explanation group)
    | none ↦ elim (p.question_regex line) [
      | some group ↦ some (comment_of question group)
      | none ↦ elim (p.todo_regex line) [
        | some group ↦ some (comment_of todo group)
        | none ↦ elim (p.fixme_regex line) [
          | some group ↦ some (comment_of fixme group)
          | none ↦ none
        ]
      ]
    ]
  ]

  abbrev pub thread_of : (thread_id file_path : Text) → ℕ → ParsedComment → CommentThread
  thread_of thread_id file_path line_number c = record {
    thread_id = thread_id;
    file_path = file_path;
    line_number = line_number;
    comment_type = c.comment_type;
    content = c.content;
    responses = [];
  }

  module _ {U : Type 0} (files : Files U) where
    -- The loop over the lines from `line_num` on.
    unfoldable parse_lines : (file_path : Text) → ℕ → List Text → U → List CommentThread × U
    unfolding extract_comment
    parse_lines file_path line_num [] u = ([], u)
    parse_lines file_path line_num (line ∷ ls) u = elim (extract_comment line) [
      | none ↦ parse_lines file_path (line_num + 1) ls u
      | some c ↦
          let (uuid, v) = files.new_uuid u in
          let (threads, w) = parse_lines file_path (line_num + 1) ls v in
          (thread_of uuid file_path ((line_num % 2 ^ 32 + 1) % 2 ^ 32) c ∷ threads, w)
    ]

    unfoldable pub parse_file : Text → U → Result Text (List CommentThread) × U
    unfolding parse_lines lines
    parse_file file_path u =
        and_then (files.read_to_string file_path u) λ content v.
          let (threads, w) = parse_lines file_path 0 (lines content) v in (ok threads, w)

    unfoldable pub parse_files : List Text → U → List CommentThread × U
    unfolding parse_file
    parse_files [] u = ([], u)
    parse_files (file_path ∷ file_paths) u =
        let (there, v) = files.exists file_path u in
        let (result, w) = parse_file file_path v in
        elim there [
          | false ↦ parse_files file_paths v
          | true ↦ elim result [
            | ok threads ↦ let (more, x) = parse_files file_paths w in (threads ++ more, x)
            | err e ↦ parse_files file_paths w
          ]
        ]

  -- The thread of a line of changes, if there is a comment in it.
  unfoldable pub found_thread : FileChange → DiffLine → Option ParsedComment → List CommentThread
  unfolding to_string
  found_thread file line none = []
  found_thread file line (some c) =
      thread_of (file.path ++ codes ":" ++ to_string (or_zero line.new_line_number)) file.path
        (or_zero line.new_line_number % 2 ^ 32) c
      ∷ []

  -- `matches!(line_type, Added | Context)`
  abbrev pub unless_removed : DiffLineType → List CommentThread → List CommentThread
  unless_removed added_line found = found
  unless_removed context_line found = found
  unless_removed removed_line found = []

  unfoldable pub parse_line : FileChange → DiffLine → List CommentThread
  unfolding extract_comment found_thread
  parse_line file line =
      unless_removed line.line_type (found_thread file line (extract_comment line.content))

  unfoldable pub parse_file_changes : List FileChange → List CommentThread
  unfolding parse_line
  parse_file_changes file_changes =
      concat_map (λ file. concat_map (λ hunk. concat_map (parse_line file) hunk.lines) file.hunks)
        file_changes
