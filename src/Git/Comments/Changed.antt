-- ===== src/Git/Comments/Changed.antt =====
-- The comments that are found in changes.
use symposium.Prelude.{
  Option, some, none, List, [], ◌∷◌, ◌++◌, Elem, here, there, Elem-cons, Elem-left, Elem-right,
  Elem-append, ◌≡◌, ◌≢◌, refl, ◌↔◌, inl, inr, sym, subst, ◌%◌, ◌^◌,
}
use symposium.Prelude.Text.{codes}
use symposium.Prelude.Decimal.{to_string}
use symposium.Git.Diff.{
  DiffLine, DiffHunk, DiffLineType, added_line, removed_line, context_line, FileChange, or_zero,
}
use symposium.Git.Comments.{
  CommentThread, CommentParser, ParsedComment, concat_map, extract_comment, thread_of, found_thread,
  unless_removed, parse_line, parse_file_changes,
}

module _ {ℓ κ} {A : Type ℓ} {B : Type κ} (f : A → List B) where
  Elem-concat_map :
      (xs : List A) (b : B) → Elem b (concat_map f xs) → (x : A) × Elem x xs × Elem b (f x)
  Elem-concat_map [] b h = elim h [ ]
  Elem-concat_map (x ∷ xs) b h = elim (Elem-append (f x) (concat_map f xs) h) [
    | inl h' ↦ (x, here, h')
    | inr h' ↦ let (y, e, g) = Elem-concat_map xs b h' in (y, there e, g)
  ]

  concat_map-Elem :
      (xs : List A) (b : B) {x : A} → Elem x xs → Elem b (f x) → Elem b (concat_map f xs)
  concat_map-Elem [] b e h = elim e [ ]
  concat_map-Elem (x ∷ xs) b here h = Elem-left (f x) (concat_map f xs) h
  concat_map-Elem (y ∷ xs) b (there e) h =
      Elem-right (f y) (concat_map f xs) (concat_map-Elem xs b e h)

-- The thread that stands for a comment in a line of a file.
abbrev pub IsThread : CommentParser → FileChange → DiffLine → CommentThread → Type 0
IsThread p file line thread =
    (line.line_type ≢ removed_line)
    × (c : ParsedComment) × (extract_comment p line.content ≡ some c)
    × (thread
        ≡ thread_of p (file.path ++ codes ":" ++ to_string (or_zero line.new_line_number)) file.path
            (or_zero line.new_line_number % 2 ^ 32) c)

module _ (p : CommentParser) where
  unless_removed-Elem :
      (t : DiffLineType) (found : List CommentThread) (thread : CommentThread)
      → Elem thread (unless_removed p t found)
      → (t ≢ removed_line) × Elem thread found
  unless_removed-Elem added_line found thread h = (λ e. cc, h)
  unless_removed-Elem context_line found thread h = (λ e. cc, h)
  unless_removed-Elem removed_line found thread h = elim h [ ]

  Elem-unless_removed :
      (t : DiffLineType) (found : List CommentThread) (thread : CommentThread)
      → t ≢ removed_line
      → Elem thread found
      → Elem thread (unless_removed p t found)
  Elem-unless_removed added_line found thread n h = h
  Elem-unless_removed context_line found thread n h = h
  Elem-unless_removed removed_line found thread n h = absurd (n refl)

  abbrev thread_at : FileChange → DiffLine → ParsedComment → CommentThread
  thread_at file line c =
      thread_of p (file.path ++ codes ":" ++ to_string (or_zero line.new_line_number)) file.path
        (or_zero line.new_line_number % 2 ^ 32) c

  found_thread-Elem :
      (file : FileChange) (line : DiffLine) (o : Option ParsedComment) (thread : CommentThread)
      → Elem thread (found_thread p file line o)
      → (c : ParsedComment) × (o ≡ some c) × (thread ≡ thread_at file line c)
  unfolding found_thread
  found_thread-Elem file line none thread h = elim h [ ]
  found_thread-Elem file line (some c) thread h = elim (Elem-cons h) [
    | inl e ↦ (c, refl, e)
    | inr h' ↦ elim h' [ ]
  ]

  Elem-found_thread :
      (file : FileChange) (line : DiffLine) (o : Option ParsedComment) (c : ParsedComment)
      → o ≡ some c
      → Elem (thread_at file line c) (found_thread p file line o)
  unfolding found_thread
  Elem-found_thread file line o c e =
      subst (λ o'. Elem (thread_at file line c) (found_thread p file line o')) (sym e) here

  parse_line-IsThread :
      (file : FileChange) (line : DiffLine) (thread : CommentThread)
      → Elem thread (parse_line p file line)
      → IsThread p file line thread
  unfolding parse_line
  parse_line-IsThread file line thread h =
      let (n, h') =
        unless_removed-Elem line.line_type
          (found_thread p file line (extract_comment p line.content)) thread h in
      let (c, e, same) = found_thread-Elem file line (extract_comment p line.content) thread h' in
      (n, c, e, same)

  IsThread-parse_line :
      (file : FileChange) (line : DiffLine) (thread : CommentThread)
      → IsThread p file line thread
      → Elem thread (parse_line p file line)
  unfolding parse_line
  IsThread-parse_line file line thread (n, c, e, same) =
      Elem-unless_removed line.line_type (found_thread p file line (extract_comment p line.content))
        thread n
        (subst (λ t. Elem t (found_thread p file line (extract_comment p line.content))) (sym same)
          (Elem-found_thread file line (extract_comment p line.content) c e))

  -- The threads of changes are exactly those of the comments in the lines, added or unchanged, of
  -- their hunks: removed lines have none.
  pub parse_file_changes-IsThread :
      (file_changes : List FileChange) (thread : CommentThread)
      → Elem thread (parse_file_changes p file_changes) ↔ (
          (file : FileChange) × (hunk : DiffHunk) × (line : DiffLine) × Elem file file_changes
          × Elem hunk file.hunks
          × Elem line hunk.lines
          × IsThread p file line thread)
  unfolding parse_file_changes
  parse_file_changes-IsThread file_changes thread =
      let in_hunk : FileChange → DiffHunk → List CommentThread =
        λ file hunk. concat_map (parse_line p file) hunk.lines in
      let in_file : FileChange → List CommentThread =
        λ file. concat_map (in_hunk file) file.hunks in
      (
        λ h.
            let (file, e, h1) = Elem-concat_map in_file file_changes thread h in
            let (hunk, e1, h2) = Elem-concat_map (in_hunk file) file.hunks thread h1 in
            let (line, e2, h3) = Elem-concat_map (parse_line p file) hunk.lines thread h2 in
            (file, hunk, line, e, e1, e2, parse_line-IsThread file line thread h3),
        λ (file, hunk, line, e, e1, e2, t). concat_map-Elem in_file file_changes thread e (
            concat_map-Elem (in_hunk file) file.hunks thread e1 (
              concat_map-Elem (parse_line p file) hunk.lines thread e2
                (IsThread-parse_line file line thread t))),
      )
