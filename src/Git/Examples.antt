-- ===== src/Git/Examples.antt =====
-- The theorems about git at a concrete diff.
use symposium.Prelude.{
  map, ℕ, Bool, true, ◌==◌, List, [], ◌∷◌, none, some, ok, err, All, Elem, ◌≡◌, ◌↔◌, refl,
  if◌then◌else◌,
}
use symposium.Prelude.Text.{codes, strip_prefix}
use symposium.Git.Diff.{
  Repository, Callback, file_callback, hunk_callback, line_callback, delta_modified, delta_added,
  generate_diff, diff_of, FileChange, DiffHunk, DiffLine, parse_commit_range, added_line, modified,
}
use symposium.Git.Diff.Counted.{IsCounted}
use symposium.Git.Diff.Stats.{stat_of, stats, generate_diff-stats}
use symposium.Git.Comments.{CommentParser, CommentThread, parse_file_changes, todo}
use symposium.Git.Comments.Changed.{IsThread, parse_file_changes-IsThread}

abbrev is_space : ℕ → Bool
is_space c = if c == 10 then true else c == 32

abbrev callbacks : List Callback
callbacks =
    file_callback (some (codes "a.rs")) (some (codes "a.rs")) delta_modified
    ∷ hunk_callback (codes "@@ -1,2 +1,2 @@\n") 1 2 1 2
    ∷ line_callback b' ' (codes "fn a()\n") (some 1) (some 1)
    ∷ line_callback b'-' (codes "// TODO: write\n") (some 2) none
    ∷ line_callback b'+' (codes "// TODO: test\n") none (some 2)
    ∷ file_callback none (some (codes "b.rs")) delta_added
    ∷ []

-- Commits are numbers, and a revision is one if it is not empty.
abbrev repository : Repository ℕ ℕ
repository = record {
  revparse_single = λ t. elim t [ [] ↦ err (codes "no such revision") | c ∷ s ↦ ok c ];
  find_tree = λ oid. ok oid;
  diff_tree_to_tree = λ a b. ok callbacks;
  diff_tree_to_workdir = λ a. ok [];
}

generate_diff-stats_example :
    (files : List FileChange) × (generate_diff is_space repository 1 (some 2) ≡ ok (some files))
    × (map stat_of files ≡ stats callbacks)
    × All IsCounted files
unfolding diff_of
generate_diff-stats_example = generate_diff-stats is_space repository 1 (some 2) callbacks refl tt

two_files : stats callbacks ≡ (codes "a.rs", 1, 1) ∷ (codes "b.rs", 0, 0) ∷ []
two_files = refl

-- The range of the dialect's documentation has an empty head.
open_range : parse_commit_range repository (codes "HEAD^..") ≡ err (codes "no such revision")
unfolding parse_commit_range
open_range = refl

abbrev parser : CommentParser
parser = record {
  lightbulb_regex = λ t. none;
  question_regex = λ t. none;
  todo_regex = λ t. strip_prefix t (codes "// TODO:");
  fixme_regex = λ t. none;
  is_whitespace = is_space;
}

abbrev changed : DiffLine → FileChange
changed line = record {
  path = codes "a.rs";
  status = modified;
  additions = 1;
  deletions = 0;
  hunks =
      record {
        header = codes "@@";
        old_start = 1;
        old_lines = 0;
        new_start = 1;
        new_lines = 1;
        lines = line ∷ [];
      }
      ∷ [];
}

abbrev new_line : DiffLine
new_line = record {
  line_type = added_line;
  content = codes "// TODO: test";
  old_line_number = none;
  new_line_number = some 2;
}

abbrev thread : CommentThread
thread = record {
  thread_id = codes "a.rs:2";
  file_path = codes "a.rs";
  line_number = 2;
  comment_type = todo;
  content = codes "test";
  responses = [];
}

parse_file_changes-IsThread_example :
    Elem thread (parse_file_changes parser (changed new_line ∷ [])) ↔ (
      (file : FileChange) × (hunk : DiffHunk) × (line : DiffLine) × Elem file
        (changed new_line ∷ [])
      × Elem hunk file.hunks
      × Elem line hunk.lines
      × IsThread parser file line thread)
parse_file_changes-IsThread_example =
    parse_file_changes-IsThread parser (changed new_line ∷ []) thread
