-- ===== src/Git/Diff.antt =====
-- outdated/mcp-server/src/git/git_service.rs. The crate git2 is `Repository`: it resolves revisions, and
-- its `foreach` over a diff calls back in order. `none` is a panic of an `unwrap`.
pub mod Counted
pub mod Stats
use symposium.Prelude.{
  ℕ, ◌+◌, ◌%◌, ◌^◌, Bool, true, false, ◌==◌, Option, some, none, List, [], ◌∷◌, ◌++◌, Result, ok,
  err, ◌>>=◌, if◌then◌else◌,
}
use symposium.Prelude.Text.{Text, codes, trim, trim_end}

pub data ChangeStatus : Type 0 where
  added modified deleted : ChangeStatus

pub data DiffLineType : Type 0 where
  added_line removed_line context_line : DiffLineType

pub record DiffLine : Type 0 where
  pub line_type : DiffLineType
  pub content : Text
  pub old_line_number : Option ℕ
  pub new_line_number : Option ℕ

pub record DiffHunk : Type 0 where
  pub header : Text
  pub old_start : ℕ
  pub old_lines : ℕ
  pub new_start : ℕ
  pub new_lines : ℕ
  pub lines : List DiffLine

pub record FileChange : Type 0 where
  pub path : Text
  pub status : ChangeStatus
  pub additions : ℕ
  pub deletions : ℕ
  pub hunks : List DiffHunk

-- `git2::Delta`, of which the source tells these apart.
pub data Delta : Type 0 where
  delta_added delta_deleted delta_modified delta_renamed delta_copied delta_other : Delta

-- What `foreach` calls back with. Texts are what `from_utf8_lossy` makes of the bytes.
pub data Callback : Type 0 where
  file_callback : (old_file new_file : Option Text) (status : Delta) → Callback
  hunk_callback : (header : Text) (old_start old_lines new_start new_lines : ℕ) → Callback
  line_callback : (origin : ℕ) (content : Text) (old_lineno new_lineno : Option ℕ) → Callback

pub record Repository (Oid Tree : Type 0) : Type 0 where
  pub revparse_single : Text → Result Text Oid
  pub find_tree : Oid → Result Text Tree  -- `find_commit` and `tree`
  pub diff_tree_to_tree : Tree → Tree → Result Text (List Callback)
  pub diff_tree_to_workdir : Tree → Result Text (List Callback)

-- `split("..")`: the parts of a text, the first with `before` in front.
unfoldable pub split_range : Text → Text → List Text
split_range before [] = before ∷ []
split_range before (c ∷ []) = (before ++ c ∷ []) ∷ []
split_range before (c ∷ d ∷ s) =
    let at_dots = split_range [] s in
    let further = split_range (before ++ c ∷ []) (d ∷ s) in
    elim (c == b'.') [ true ↦ (if d == b'.' then before ∷ at_dots else further) | false ↦ further ]

module _ {Oid Tree : Type 0} (repo : Repository Oid Tree) where
  -- `split` gives one part exactly where the range has no `..`.
  unfoldable pub parse_commit_range : Text → Result Text (Oid × Option Oid)
  unfolding split_range
  parse_commit_range range = elim (split_range [] range) [
    | [] ↦ err (codes "Invalid range format")
    | base ∷ parts ↦ elim parts [
      | [] ↦ repo.revparse_single range >>= λ base_oid. ok (base_oid, none)
      | head ∷ more ↦ elim more [
        | [] ↦ repo.revparse_single base >>= λ base_oid.
            repo.revparse_single head >>= λ head_oid. ok (base_oid, some head_oid)
        | _ ∷ _ ↦ err (codes "Invalid range format")
      ]
    ]
  ]

  unfoldable pub diff_of : Oid → Option Oid → Result Text (List Callback)
  diff_of base_oid (some head_oid) = repo.find_tree base_oid >>= λ base_tree.
      repo.find_tree head_oid >>= λ head_tree. repo.diff_tree_to_tree base_tree head_tree
  diff_of base_oid none =
      repo.find_tree base_oid >>= λ head_tree. repo.diff_tree_to_workdir head_tree

unfoldable pub status_of : Delta → ChangeStatus
status_of delta_added = added
status_of delta_deleted = deleted
status_of delta_modified = modified
status_of delta_renamed = modified
status_of delta_copied = added
status_of delta_other = modified

unfoldable pub changed_file :
    (old_file new_file : Option Text) → Delta → Option (Text × ChangeStatus)
unfolding status_of
changed_file (some old_path) (some new_path) status = some (new_path, status_of status)
changed_file none (some new_path) status = some (new_path, added)
changed_file (some old_path) none status = some (old_path, deleted)
changed_file none none status = none

-- `last_mut().unwrap()` and a change of what it gives, which may panic too.
abbrev pub update_last {ℓ} : {A : Type ℓ} → (A → Option A) → List A → Option (List A)
update_last f [] = none
update_last f (x ∷ []) = elim (f x) [ some y ↦ some (y ∷ []) | none ↦ none ]
update_last f (x ∷ y ∷ xs) = elim (update_last f (y ∷ xs)) [ some ys ↦ some (x ∷ ys) | none ↦ none ]

unfoldable pub line_type_of : ℕ → DiffLineType
line_type_of origin =
    if origin == b'+' then added_line else if origin == b'-' then removed_line else context_line

-- `unwrap_or(0)`
abbrev pub or_zero : Option ℕ → ℕ
or_zero none = 0
or_zero (some n) = n

unfoldable pub line_numbers :
    DiffLineType → (old_lineno new_lineno : Option ℕ) → Option ℕ × Option ℕ
line_numbers added_line old_lineno new_lineno = (none, some (or_zero new_lineno))
line_numbers removed_line old_lineno new_lineno = (some (or_zero old_lineno), none)
line_numbers context_line old_lineno new_lineno = (old_lineno, new_lineno)

module _ (is_whitespace : ℕ → Bool) where
  unfoldable pub line_of :
      (origin : ℕ) (content : Text) (old_lineno new_lineno : Option ℕ) → DiffLine
  unfolding line_type_of line_numbers trim_end
  line_of origin content old_lineno new_lineno =
      let (old, new) = line_numbers (line_type_of origin) old_lineno new_lineno in
      record {
        line_type = line_type_of origin;
        content = trim_end is_whitespace content;
        old_line_number = old;
        new_line_number = new;
      }

  abbrev pub counted : FileChange → DiffLineType → FileChange
  counted file added_line = record file { additions = (file.additions + 1) % 2 ^ 64 }
  counted file removed_line = record file { deletions = (file.deletions + 1) % 2 ^ 64 }
  counted file context_line = file

  -- A line, put into the last hunk of a file.
  unfoldable pub add_line : DiffLine → FileChange → Option FileChange
  add_line line file =
      elim (update_last (λ h. some (record h { lines = h.lines ++ line ∷ [] })) file.hunks) [
        | some hunks ↦ some (record (counted file line.line_type) { hunks = hunks })
        | none ↦ none
      ]

  unfoldable pub add_hunk : DiffHunk → FileChange → Option FileChange
  add_hunk hunk file = some (record file { hunks = file.hunks ++ hunk ∷ [] })

  unfoldable pub on_callback : Callback → List FileChange → Option (List FileChange)
  unfolding changed_file line_of add_line add_hunk trim
  on_callback (file_callback old_file new_file status) files =
      elim (changed_file old_file new_file status) [
        | some (path, s) ↦ some (
            files
            ++ record { path = path; status = s; additions = 0; deletions = 0; hunks = [] } ∷ [])
        | none ↦ some files
      ]
  on_callback (hunk_callback header old_start old_lines new_start new_lines) files =
      update_last
        (add_hunk (record {
          header = trim is_whitespace header;
          old_start = old_start;
          old_lines = old_lines;
          new_start = new_start;
          new_lines = new_lines;
          lines = [];
        }))
        files
  on_callback (line_callback origin content old_lineno new_lineno) files =
      update_last (add_line (line_of origin content old_lineno new_lineno)) files

  -- `foreach`
  unfoldable pub run_callbacks : List Callback → List FileChange → Option (List FileChange)
  unfolding on_callback
  run_callbacks [] files = some files
  run_callbacks (c ∷ cs) files = elim (on_callback c files) [
    | some next ↦ run_callbacks cs next
    | none ↦ none
  ]

  unfoldable pub generate_diff :
      {Oid Tree : Type 0}
      → Repository Oid Tree
      → Oid
      → Option Oid
      → Result Text (Option (List FileChange))
  unfolding diff_of run_callbacks
  generate_diff repo base_oid head_oid =
      diff_of repo base_oid head_oid >>= λ callbacks. ok (run_callbacks callbacks [])
