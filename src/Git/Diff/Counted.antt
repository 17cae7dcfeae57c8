-- ===== src/Git/Diff/Counted.antt =====
-- A diff is read without a panic, and the lines of its files are counted.
use symposium.Prelude.{
  ok, ℕ, ◌+◌, ◌%◌, ◌^◌, Bool, Option, some, none, List, [], ◌∷◌, ◌++◌, last, last-append, All,
  All-append, ◌≡◌, refl, sym, ap, ◌∙◌, subst, arith,
}
use symposium.Prelude.Text.{Text, trim}
use symposium.Git.Diff.{
  added, deleted, ChangeStatus, DiffLineType, added_line, removed_line, context_line, DiffLine,
  DiffHunk, FileChange, Callback, file_callback, hunk_callback, line_callback, changed_file,
  status_of, update_last, line_of, counted, add_line, add_hunk, on_callback, run_callbacks,
  Repository, diff_of, generate_diff,
}

module _ {ℓ} {A : Type ℓ} where
  -- A change of the last element.
  update_last-some :
      (f : A → Option A) (xs : List A) (x y : A)
      → last xs ≡ some x
      → f x ≡ some y
      → (before : List A) × (xs ≡ before ++ x ∷ []) × (update_last f xs ≡ some (before ++ y ∷ []))
  update_last-some f [] x y l e = cc
  update_last-some f (z ∷ []) x y l e =
      let e' : z ≡ x = cc in ([], ap (λ w. w ∷ []) e', rw (ap f e' ∙ e, update_last) refl)
  update_last-some f (z ∷ w ∷ xs) x y l e =
      let (before, same, changed) = update_last-some f (w ∷ xs) x y l e in
      (z ∷ before, ap (λ t. z ∷ t) same, rw (changed, update_last) refl)

abbrev is_type : DiffLineType → DiffLineType → ℕ
is_type added_line added_line = 1
is_type added_line removed_line = 0
is_type added_line context_line = 0
is_type removed_line added_line = 0
is_type removed_line removed_line = 1
is_type removed_line context_line = 0
is_type context_line added_line = 0
is_type context_line removed_line = 0
is_type context_line context_line = 1

-- The lines of a type in a list, and in hunks.
abbrev count : DiffLineType → List DiffLine → ℕ
count t [] = 0
count t (l ∷ ls) = is_type t l.line_type + count t ls

abbrev count_in : DiffLineType → List DiffHunk → ℕ
count_in t [] = 0
count_in t (h ∷ hs) = count t h.lines + count_in t hs

-- The statistics of a file are the numbers of its added and removed lines, up to 2 ^ 64.
pub record IsCounted (file : FileChange) : Type 0 where
  pub additions_right : file.additions ≡ count_in added_line file.hunks % 2 ^ 64
  pub deletions_right : file.deletions ≡ count_in removed_line file.hunks % 2 ^ 64

count-append :
    (t : DiffLineType) (ls ms : List DiffLine) → count t (ls ++ ms) ≡ count t ls + count t ms
count-append t [] ms = omega arith
count-append t (l ∷ ls) ms = omega (arith, count-append t ls ms)

count_in-append :
    (t : DiffLineType) (hs ks : List DiffHunk)
    → count_in t (hs ++ ks) ≡ count_in t hs + count_in t ks
count_in-append t [] ks = omega arith
count_in-append t (h ∷ hs) ks = omega (arith, count_in-append t hs ks)

-- A line that is put into the last hunk is counted once.
count_in_line :
    (t : DiffLineType) (line : DiffLine) (before : List DiffHunk) (h : DiffHunk)
    → count_in t (before ++ record h { lines = h.lines ++ line ∷ [] } ∷ [])
      ≡ count_in t (before ++ h ∷ []) + is_type t line.line_type
count_in_line t line before h =
    let k : DiffHunk = record h { lines = h.lines ++ line ∷ [] } in
    omega (
      arith,
      count_in-append t before (k ∷ []),
      count_in-append t before (h ∷ []),
      count-append t h.lines (line ∷ []),
    )

counted-IsCounted :
    (ws : ℕ → Bool) (t : DiffLineType) (file : FileChange) (hunks : List DiffHunk)
    → IsCounted file
    → count_in added_line hunks ≡ count_in added_line file.hunks + is_type added_line t
    → count_in removed_line hunks ≡ count_in removed_line file.hunks + is_type removed_line t
    → IsCounted (record (counted ws file t) { hunks = hunks })
counted-IsCounted ws added_line file hunks c a r = record {
  additions_right = omega (arith, c.additions_right, a);
  deletions_right = omega (arith, c.deletions_right, r);
}
counted-IsCounted ws removed_line file hunks c a r = record {
  additions_right = omega (arith, c.additions_right, a);
  deletions_right = omega (arith, c.deletions_right, r);
}
counted-IsCounted ws context_line file hunks c a r = record {
  additions_right = omega (arith, c.additions_right, a);
  deletions_right = omega (arith, c.deletions_right, r);
}

add_line-IsCounted :
    (ws : ℕ → Bool) (line : DiffLine) (file : FileChange) (h : DiffHunk)
    → last file.hunks ≡ some h
    → IsCounted file
    → (next : FileChange) × (add_line ws line file ≡ some next)
      × IsCounted next
      × (k : DiffHunk) × (last next.hunks ≡ some k)
unfolding add_line
add_line-IsCounted ws line file h l c =
    let k : DiffHunk = record h { lines = h.lines ++ line ∷ [] } in
    let (before, same, changed) =
      update_last-some (λ h'. some (record h' { lines = h'.lines ++ line ∷ [] })) file.hunks h k l
        refl in
    (
      record (counted ws file line.line_type) { hunks = before ++ k ∷ [] },
      rw (changed, add_line) refl,
      counted-IsCounted ws line.line_type file (before ++ k ∷ []) c
          (count_in_line added_line line before h
            ∙ ap (λ hs. count_in added_line hs + is_type added_line line.line_type) (sym same))
          (count_in_line removed_line line before h
            ∙ ap (λ hs. count_in removed_line hs + is_type removed_line line.line_type) (sym same)),
      k,
      last-append before k [],
    )

add_hunk-IsCounted :
    (hunk : DiffHunk) (file : FileChange)
    → hunk.lines ≡ []
    → IsCounted file
    → IsCounted (record file { hunks = file.hunks ++ hunk ∷ [] })
add_hunk-IsCounted hunk file e c =
    let none_added : count added_line hunk.lines ≡ 0 = ap (count added_line) e in
    let none_removed : count removed_line hunk.lines ≡ 0 = ap (count removed_line) e in
    record {
      additions_right =
          omega (
            arith,
            c.additions_right,
            count_in-append added_line file.hunks (hunk ∷ []),
            none_added,
          );
      deletions_right = omega (
        arith,
        c.deletions_right,
        count_in-append removed_line file.hunks (hunk ∷ []),
        none_removed,
      );
    }

-- What was called back for last.
pub data Phase : Type 0 where
  at_start in_file in_hunk : Phase

-- The order that git2 keeps: a hunk belongs to a file, a line to a hunk. Each file has a path.
abbrev pub InOrder : Phase → List Callback → Type 0
InOrder phase [] = Unit
InOrder phase (file_callback (some old_path) new_file status ∷ cs) = InOrder in_file cs
InOrder phase (file_callback none (some new_path) status ∷ cs) = InOrder in_file cs
InOrder phase (file_callback none none status ∷ cs) = ⊥
InOrder at_start (hunk_callback header a b c d ∷ cs) = ⊥
InOrder in_file (hunk_callback header a b c d ∷ cs) = InOrder in_hunk cs
InOrder in_hunk (hunk_callback header a b c d ∷ cs) = InOrder in_hunk cs
InOrder at_start (line_callback origin content a b ∷ cs) = ⊥
InOrder in_file (line_callback origin content a b ∷ cs) = ⊥
InOrder in_hunk (line_callback origin content a b ∷ cs) = InOrder in_hunk cs

-- What the files are like then.
abbrev IsReady : Phase → List FileChange → Type 0
IsReady at_start files = Unit
IsReady in_file files = (file : FileChange) × (last files ≡ some file)
IsReady in_hunk files =
    (file : FileChange) × (hunk : DiffHunk) × (last files ≡ some file)
    × (last file.hunks ≡ some hunk)

split_last :
    (files : List FileChange) (file : FileChange)
    → last files ≡ some file
    → (before : List FileChange) × (files ≡ before ++ file ∷ [])
split_last files file l =
    let (before, same, _) = update_last-some (λ x. some x) files file file l refl in (before, same)

-- The result of a callback: no panic, counted files, and the next phase.
abbrev Goes : (ws : ℕ → Bool) → Phase → Callback → List FileChange → Type 0
Goes ws phase c files =
    (next : List FileChange) × (on_callback ws c files ≡ some next)
    × All IsCounted next
    × IsReady phase next

last-All :
    (P : FileChange → Type 0) (before : List FileChange) (x : FileChange)
    → All P (before ++ x ∷ [])
    → All P before × P x
last-All P [] x h = (tt, h.0)
last-All P (y ∷ before) x h = let (h0, h1) = last-All P before x h.1 in ((h.0, h0), h1)

update_last-IsCounted :
    (f : FileChange → Option FileChange) (files : List FileChange) (file next : FileChange)
    → last files ≡ some file
    → f file ≡ some next
    → (IsCounted file → IsCounted next)
    → All IsCounted files
    → (out : List FileChange) × (update_last f files ≡ some out)
      × All IsCounted out
      × (last out ≡ some next)
update_last-IsCounted f files file next l e right counts =
    let (before, same, changed) = update_last-some f files file next l e in
    let (h0, h1) = last-All IsCounted before file (subst (All IsCounted) same counts) in
    (
      before ++ next ∷ [],
      changed,
      All-append IsCounted before (next ∷ []) h0 (right h1, tt),
      last-append before next [],
    )

module _ (ws : ℕ → Bool) where
  new_file-Goes :
      (files : List FileChange) (path : Text) (s : ChangeStatus) (c : Callback)
      → on_callback ws c files
        ≡ some (
            files
            ++ record { path = path; status = s; additions = 0; deletions = 0; hunks = [] } ∷ [])
      → All IsCounted files
      → Goes ws in_file c files
  new_file-Goes files path s c e counts =
      let file : FileChange = record {
        path = path;
        status = s;
        additions = 0;
        deletions = 0;
        hunks = [];
      } in
      (
        files ++ file ∷ [],
        e,
        All-append IsCounted files (file ∷ []) counts
            (record { additions_right = refl; deletions_right = refl }, tt),
        (file, last-append files file []),
      )

  hunk-Goes :
      (files : List FileChange) (file : FileChange) (header : Text) (a b c d : ℕ)
      → last files ≡ some file
      → All IsCounted files
      → Goes ws in_hunk (hunk_callback header a b c d) files
  unfolding on_callback add_hunk
  hunk-Goes files file header a b c d l counts =
      let hunk : DiffHunk = record {
        header = trim ws header;
        old_start = a;
        old_lines = b;
        new_start = c;
        new_lines = d;
        lines = [];
      } in
      let next : FileChange = record file { hunks = file.hunks ++ hunk ∷ [] } in
      let (out, e, all, l') =
        update_last-IsCounted (add_hunk ws hunk) files file next l refl
          (add_hunk-IsCounted hunk file refl) counts in
      (out, e, all, (next, hunk, l', last-append file.hunks hunk []))

  line-Goes :
      (files : List FileChange) (file : FileChange) (hunk : DiffHunk) (origin : ℕ) (content : Text)
      (a b : Option ℕ)
      → last files ≡ some file
      → last file.hunks ≡ some hunk
      → All IsCounted files
      → Goes ws in_hunk (line_callback origin content a b) files
  unfolding on_callback
  line-Goes files file hunk origin content a b l l' counts =
      let line : DiffLine = line_of ws origin content a b in
      let (before, same) = split_last files file l in
      let c = (last-All IsCounted before file (subst (All IsCounted) same counts)).1 in
      let (next, e, right, k, l'') = add_line-IsCounted ws line file hunk l' c in
      let (out, e', all, l3) =
        update_last-IsCounted (add_line ws line) files file next l e (λ _. right) counts in
      (out, e', all, (next, k, l3, l''))

  abbrev Counts : List Callback → List FileChange → Type 0
  Counts cs files =
      (out : List FileChange) × (run_callbacks ws cs files ≡ some out) × All IsCounted out

  proceed :
      (phase : Phase) (c : Callback) (cs : List Callback) (files : List FileChange)
      → ((next : List FileChange) → IsReady phase next → All IsCounted next → Counts cs next)
      → Goes ws phase c files
      → Counts (c ∷ cs) files
  unfolding run_callbacks
  proceed phase c cs files further (next, e, counts, ready) =
      let (out, e', counts') = further next ready counts in (out, rw (e, run_callbacks) e', counts')

  run_callbacks-IsCounted :
      (phase : Phase) (cs : List Callback) (files : List FileChange)
      → InOrder phase cs
      → IsReady phase files
      → All IsCounted files
      → Counts cs files
  unfolding run_callbacks on_callback changed_file
  run_callbacks-IsCounted phase [] files o r counts = (files, refl, counts)
  run_callbacks-IsCounted phase (file_callback (some old_path) (some new_path) status ∷ cs) files o
        r counts =
      proceed in_file (file_callback (some old_path) (some new_path) status) cs files
        (λ next. run_callbacks-IsCounted in_file cs next o)
        (new_file-Goes files new_path (status_of status)
          (file_callback (some old_path) (some new_path) status) refl counts)
  run_callbacks-IsCounted phase (file_callback (some old_path) none status ∷ cs) files o r counts =
      proceed in_file (file_callback (some old_path) none status) cs files
        (λ next. run_callbacks-IsCounted in_file cs next o)
        (new_file-Goes files old_path deleted (file_callback (some old_path) none status) refl
          counts)
  run_callbacks-IsCounted phase (file_callback none (some new_path) status ∷ cs) files o r counts =
      proceed in_file (file_callback none (some new_path) status) cs files
        (λ next. run_callbacks-IsCounted in_file cs next o)
        (new_file-Goes files new_path added (file_callback none (some new_path) status) refl counts)
  run_callbacks-IsCounted phase (file_callback none none status ∷ cs) files o r counts = absurd o
  run_callbacks-IsCounted at_start (hunk_callback header a b c d ∷ cs) files o r counts = absurd o
  run_callbacks-IsCounted in_file (hunk_callback header a b c d ∷ cs) files o r counts =
      proceed in_hunk (hunk_callback header a b c d) cs files
        (λ next. run_callbacks-IsCounted in_hunk cs next o)
        (hunk-Goes files r.0 header a b c d r.1 counts)
  run_callbacks-IsCounted in_hunk (hunk_callback header a b c d ∷ cs) files o r counts =
      let (file, hunk, l, l') = r in
      proceed in_hunk (hunk_callback header a b c d) cs files
        (λ next. run_callbacks-IsCounted in_hunk cs next o)
        (hunk-Goes files file header a b c d l counts)
  run_callbacks-IsCounted at_start (line_callback origin content a b ∷ cs) files o r counts =
      absurd o
  run_callbacks-IsCounted in_file (line_callback origin content a b ∷ cs) files o r counts =
      absurd o
  run_callbacks-IsCounted in_hunk (line_callback origin content a b ∷ cs) files o r counts =
      let (file, hunk, l, l') = r in
      proceed in_hunk (line_callback origin content a b) cs files
        (λ next. run_callbacks-IsCounted in_hunk cs next o)
        (line-Goes files file hunk origin content a b l l' counts)

-- A diff whose callbacks come in order, each file with a path, is read without a panic, and each of
-- its files has as additions and deletions the numbers of its added and removed lines, up to 2 ^ 64.
pub generate_diff-IsCounted :
    (is_whitespace : ℕ → Bool) {Oid Tree : Type 0} (repo : Repository Oid Tree) (base_oid : Oid)
    (head_oid : Option Oid) (callbacks : List Callback)
    → diff_of repo base_oid head_oid ≡ ok callbacks
    → InOrder at_start callbacks
    → (files : List FileChange) × (generate_diff is_whitespace repo base_oid head_oid
        ≡ ok (some files))
      × All IsCounted files
unfolding generate_diff
generate_diff-IsCounted is_whitespace repo base_oid head_oid callbacks e o =
    let (files, e', counts) = run_callbacks-IsCounted is_whitespace at_start callbacks [] o tt tt in
    (files, rw (e, generate_diff) (ap (λ r. ok r) e'), counts)
