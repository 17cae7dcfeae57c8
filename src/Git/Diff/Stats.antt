-- ===== src/Git/Diff/Stats.antt =====
-- The statistics of a diff's files, by the callbacks alone: what `+` and `-` lines follow each file.
use symposium.Prelude.{
  ok, ℕ, ◌+◌, ◌%◌, ◌^◌, ◌==◌, Bool, false, Bool-cases, Option, Option-cases, some, none, List, [],
  ◌∷◌, ◌++◌, append_assoc, append-nil, map, All, ◌≡◌, refl, sym, ap, ◌∙◌, inl, inr, if◌then◌else◌,
  arith,
}
use mathlib.Core.List.{map-append}
use symposium.Prelude.Text.{Text, trim}
use symposium.Git.Diff.{
  ChangeStatus, added, deleted, status_of, DiffHunk, FileChange, Callback, file_callback,
  hunk_callback, line_callback, update_last, line_of, line_type_of, counted, add_line, add_hunk,
  on_callback, run_callbacks, Repository, diff_of, generate_diff, changed_file,
}
use symposium.Git.Diff.Counted.{IsCounted, InOrder, at_start, generate_diff-IsCounted}

-- A path with its numbers of additions and deletions.
abbrev pub Stat : Type 0
Stat = Text × ℕ × ℕ

abbrev pub stat_of : FileChange → Stat
stat_of file = (file.path, file.additions, file.deletions)

-- 1 for a line of this origin.
abbrev pub one_if : (origin sign : ℕ) → ℕ
one_if origin sign = if origin == sign then 1 else 0

-- The lines of an origin before the next file.
abbrev pub lines_of : (sign : ℕ) → List Callback → ℕ
lines_of sign [] = 0
lines_of sign (file_callback (some old_path) new_file status ∷ cs) = 0
lines_of sign (file_callback none (some new_path) status ∷ cs) = 0
lines_of sign (file_callback none none status ∷ cs) = lines_of sign cs
lines_of sign (hunk_callback header a b c d ∷ cs) = lines_of sign cs
lines_of sign (line_callback origin content a b ∷ cs) = one_if origin sign + lines_of sign cs

-- The statistics of a file whose callback is followed by `cs`.
abbrev pub stat : Text → List Callback → Stat
stat path cs = (path, lines_of b'+' cs % 2 ^ 64, lines_of b'-' cs % 2 ^ 64)

-- Each file with the numbers of the `+` and `-` lines that follow it, under its new path if there is
-- one.
abbrev pub stats : List Callback → List Stat
stats [] = []
stats (file_callback old_file (some new_path) status ∷ cs) = stat new_path cs ∷ stats cs
stats (file_callback (some old_path) none status ∷ cs) = stat old_path cs ∷ stats cs
stats (file_callback none none status ∷ cs) = stats cs
stats (hunk_callback header a b c d ∷ cs) = stats cs
stats (line_callback origin content a b ∷ cs) = stats cs

-- The statistics up to 2 ^ 64.
abbrev reduced : FileChange → Stat
reduced file = (file.path, file.additions % 2 ^ 64, file.deletions % 2 ^ 64)

abbrev bump : (p m : ℕ) → Stat → Stat
bump p m (path, a, d) = (path, (a + p) % 2 ^ 64, (d + m) % 2 ^ 64)

-- The last of a list, changed.
abbrev at_last : {A : Type 0} → (A → A) → List A → List A
at_last f [] = []
at_last f (x ∷ []) = f x ∷ []
at_last f (x ∷ y ∷ xs) = x ∷ at_last f (y ∷ xs)

at_last-append :
    {A : Type 0} (f : A → A) (xs : List A) (x : A) → at_last f (xs ++ x ∷ []) ≡ xs ++ f x ∷ []
at_last-append f [] x = refl
at_last-append f (y ∷ []) x = refl
at_last-append f (y ∷ z ∷ xs) x = ap (λ w. y ∷ w) (at_last-append f (z ∷ xs) x)

at_last-at_last :
    {A : Type 0} (f g h : A → A) (xs : List A)
    → ((x : A) → f (g x) ≡ h x)
    → at_last f (at_last g xs) ≡ at_last h xs
at_last-at_last f g h [] e = refl
at_last-at_last f g h (x ∷ []) e = ap (λ y. y ∷ []) (e x)
at_last-at_last f g h (x ∷ y ∷ []) e = ap (λ z. x ∷ z ∷ []) (e y)
at_last-at_last f g h (x ∷ y ∷ z ∷ xs) e = ap (λ ws. x ∷ ws) (at_last-at_last f g h (y ∷ z ∷ xs) e)

bump-bump : (p m i j : ℕ) (s : Stat) → bump p m (bump i j s) ≡ bump (i + p) (j + m) s
bump-bump p m i j (path, a, d) =
    let e : ((a + i) % 2 ^ 64 + p) % 2 ^ 64 ≡ (a + (i + p)) % 2 ^ 64 = omega arith in
    let e' : ((d + j) % 2 ^ 64 + m) % 2 ^ 64 ≡ (d + (j + m)) % 2 ^ 64 = omega arith in
    rw (e, e') refl

bump-reduced : (file : FileChange) → bump 0 0 (reduced file) ≡ reduced file
bump-reduced file =
    let e : (file.additions % 2 ^ 64 + 0) % 2 ^ 64 ≡ file.additions % 2 ^ 64 = omega arith in
    let e' : (file.deletions % 2 ^ 64 + 0) % 2 ^ 64 ≡ file.deletions % 2 ^ 64 = omega arith in
    rw (e, e') refl

bump_none : (files : List FileChange) → at_last (bump 0 0) (map reduced files) ≡ map reduced files
bump_none [] = refl
bump_none (f ∷ []) = ap (λ s. s ∷ []) (bump-reduced f)
bump_none (f ∷ g ∷ files) = ap (λ ss. reduced f ∷ ss) (bump_none (g ∷ files))

-- A change of the last file, by what it does to the statistics.
update_last-at_last :
    (u : FileChange → Option FileChange) (g : Stat → Stat) (files next : List FileChange)
    → ((x y : FileChange) → u x ≡ some y → reduced y ≡ g (reduced x))
    → update_last u files ≡ some next
    → map reduced next ≡ at_last g (map reduced files)
update_last-at_last u g [] next k h = cc
update_last-at_last u g (x ∷ []) next k h = elim (Option-cases (u x)) [
  | inl n ↦ let h' = rw (n, update_last) at h in cc
  | inr (y, e) ↦
      let h' = rw (e, update_last) at h in
      let same : next ≡ y ∷ [] = cc in ap (map reduced) same ∙ ap (λ s. s ∷ []) (k x y e)
]
update_last-at_last u g (x ∷ x' ∷ files) next k h =
    elim (Option-cases (update_last u (x' ∷ files))) [
      | inl n ↦ let h' = rw (n, update_last) at h in cc
      | inr (ys, e) ↦
          let h' = rw (e, update_last) at h in
          let same : next ≡ x ∷ ys = cc in
          ap (map reduced) same
          ∙ ap (λ ss. reduced x ∷ ss) (update_last-at_last u g (x' ∷ files) ys k e)
    ]

at_last-same : {A : Type 0} (xs : List A) → at_last (λ x. x) xs ≡ xs
at_last-same [] = refl
at_last-same (x ∷ []) = refl
at_last-same (x ∷ y ∷ xs) = ap (λ ws. x ∷ ws) (at_last-same (y ∷ xs))

module _ (ws : ℕ → Bool) where
  counted-bump :
      (origin : ℕ) (file : FileChange)
      → reduced (counted ws file (line_type_of origin))
        ≡ bump (one_if origin b'+') (one_if origin b'-') (reduced file)
  unfolding line_type_of
  counted-bump origin file = elim (Bool-cases (origin == b'+')) [
    | inl t ↦
        let minus : (origin == b'-') ≡ false = ground (arith, t) in
        let e : (file.additions + 1) % 2 ^ 64 % 2 ^ 64 ≡ (file.additions % 2 ^ 64 + 1) % 2 ^ 64 =
          omega arith in
        let e' : file.deletions % 2 ^ 64 ≡ (file.deletions % 2 ^ 64 + 0) % 2 ^ 64 = omega arith in
        rw (t, minus)
          (ap (λ n. (file.path, n, file.deletions % 2 ^ 64)) e
            ∙ ap (λ n. (file.path, (file.additions % 2 ^ 64 + 1) % 2 ^ 64, n)) e')
    | inr f ↦ elim (Bool-cases (origin == b'-')) [
      | inl t ↦
          let e : (file.deletions + 1) % 2 ^ 64 % 2 ^ 64 ≡ (file.deletions % 2 ^ 64 + 1) % 2 ^ 64 =
            omega arith in
          let e' : file.additions % 2 ^ 64 ≡ (file.additions % 2 ^ 64 + 0) % 2 ^ 64 = omega arith in
          rw (f, t)
            (ap (λ n. (file.path, file.additions % 2 ^ 64, n)) e
              ∙ ap (λ n. (file.path, n, (file.deletions % 2 ^ 64 + 1) % 2 ^ 64)) e')
      | inr g ↦ rw (f, g) (sym (bump-reduced file))
    ]
  ]

  add_line-bump :
      (origin : ℕ) (content : Text) (a b : Option ℕ) (x y : FileChange)
      → add_line ws (line_of ws origin content a b) x ≡ some y
      → reduced y ≡ bump (one_if origin b'+') (one_if origin b'-') (reduced x)
  unfolding add_line line_of
  add_line-bump origin content a b x y h =
      let line = line_of ws origin content a b in
      elim (Option-cases
        (update_last (λ k. some (record k { lines = k.lines ++ line ∷ [] })) x.hunks)) [
          | inl n ↦ let h' = rw (n, add_line) at h in cc
          | inr (hunks, e) ↦
              let h' = rw (e, add_line) at h in
              let same : y ≡ record (counted ws x (line_type_of origin)) { hunks = hunks } = cc in
              ap reduced same ∙ counted-bump origin x
        ]

  run_step :
      (c : Callback) (cs : List Callback) (files out : List FileChange)
      → run_callbacks ws (c ∷ cs) files ≡ some out
      → (next : List FileChange) × (on_callback ws c files ≡ some next)
        × (run_callbacks ws cs next ≡ some out)
  unfolding run_callbacks
  run_step c cs files out h = elim (Option-cases (on_callback ws c files)) [
    | inl n ↦ let h' = rw (n, run_callbacks) at h in cc
    | inr (next, e) ↦ (next, e, rw (e, run_callbacks) at h)
  ]

  -- A new file, behind which the callbacks give `out`.
  new_file-stats :
      (path : Text) (status : ChangeStatus) (cs : List Callback) (files out : List FileChange)
      → let file : FileChange = record {
        path = path;
        status = status;
        additions = 0;
        deletions = 0;
        hunks = [];
      } in
        map reduced out
          ≡ at_last (bump (lines_of b'+' cs) (lines_of b'-' cs)) (map reduced (files ++ file ∷ []))
            ++ stats cs
        → map reduced out ≡ at_last (bump 0 0) (map reduced files) ++ stat path cs ∷ stats cs
  new_file-stats path status cs files out h =
      let p = lines_of b'+' cs in
      let m = lines_of b'-' cs in
      let file : FileChange = record {
        path = path;
        status = status;
        additions = 0;
        deletions = 0;
        hunks = [];
      } in
      let e : (0 + p) % 2 ^ 64 ≡ p % 2 ^ 64 = omega arith in
      let e' : (0 + m) % 2 ^ 64 ≡ m % 2 ^ 64 = omega arith in
      let new : bump p m (reduced file) ≡ stat path cs =
        ap (λ n. (path, n, (0 + m) % 2 ^ 64)) e ∙ ap (λ n. (path, p % 2 ^ 64, n)) e' in
      h
      ∙ ap (λ ss. at_last (bump p m) ss ++ stats cs) (map-append reduced files (file ∷ []))
      ∙ ap (λ ss. ss ++ stats cs) (at_last-append (bump p m) (map reduced files) (reduced file))
      ∙ append_assoc (map reduced files) (bump p m (reduced file) ∷ []) (stats cs)
      ∙ ap (λ x. map reduced files ++ x ∷ stats cs) new
      ∙ ap (λ ss. ss ++ stat path cs ∷ stats cs) (sym (bump_none files))

  added_hunk :
      (hunk : DiffHunk) (x y : FileChange) → add_hunk ws hunk x ≡ some y → reduced y ≡ reduced x
  unfolding add_hunk
  added_hunk hunk x y k =
      let same : y ≡ record x { hunks = x.hunks ++ hunk ∷ [] } = cc in ap reduced same

  run_callbacks-stats :
      (cs : List Callback) (files out : List FileChange)
      → run_callbacks ws cs files ≡ some out
      → map reduced out
        ≡ at_last (bump (lines_of b'+' cs) (lines_of b'-' cs)) (map reduced files) ++ stats cs
  unfolding run_callbacks on_callback changed_file add_hunk
  run_callbacks-stats [] files out h =
      let same : out ≡ files = cc in
      ap (map reduced) same
      ∙ sym (append-nil (at_last (bump 0 0) (map reduced files)) ∙ bump_none files)
  run_callbacks-stats (file_callback (some old_path) (some new_path) status ∷ cs) files out h =
      new_file-stats new_path (status_of status) cs files out (run_callbacks-stats cs _ out h)
  run_callbacks-stats (file_callback (some old_path) none status ∷ cs) files out h =
      new_file-stats old_path deleted cs files out (run_callbacks-stats cs _ out h)
  run_callbacks-stats (file_callback none (some new_path) status ∷ cs) files out h =
      new_file-stats new_path added cs files out (run_callbacks-stats cs _ out h)
  run_callbacks-stats (file_callback none none status ∷ cs) files out h =
      run_callbacks-stats cs files out h
  run_callbacks-stats (hunk_callback header a b c d ∷ cs) files out h =
      let (next, e, h') = run_step (hunk_callback header a b c d) cs files out h in
      run_callbacks-stats cs next out h'
      ∙ ap (λ ss. at_last (bump (lines_of b'+' cs) (lines_of b'-' cs)) ss ++ stats cs)
          (update_last-at_last _ (λ s. s) files next
              (λ x y k.
                added_hunk
                  (record {
                    header = trim ws header;
                    old_start = a;
                    old_lines = b;
                    new_start = c;
                    new_lines = d;
                    lines = [];
                  })
                  x y k)
              e
            ∙ at_last-same (map reduced files))
  run_callbacks-stats (line_callback origin content a b ∷ cs) files out h =
      let (next, e, h') = run_step (line_callback origin content a b) cs files out h in
      let p = lines_of b'+' cs in
      let m = lines_of b'-' cs in
      run_callbacks-stats cs next out h'
      ∙ ap (λ ss. at_last (bump p m) ss ++ stats cs)
          (update_last-at_last (add_line ws (line_of ws origin content a b))
            (bump (one_if origin b'+') (one_if origin b'-')) files next
            (add_line-bump origin content a b) e)
      ∙ ap (λ ss. ss ++ stats cs)
          (at_last-at_last (bump p m) (bump (one_if origin b'+') (one_if origin b'-'))
            (bump (one_if origin b'+' + p) (one_if origin b'-' + m)) (map reduced files)
            (bump-bump p m (one_if origin b'+') (one_if origin b'-')))

  reduced-stat_of :
      (files : List FileChange) → All IsCounted files → map reduced files ≡ map stat_of files
  reduced-stat_of [] h = refl
  reduced-stat_of (f ∷ files) (c, h) =
      let e : f.additions % 2 ^ 64 ≡ f.additions = omega (arith, c.additions_right) in
      let e' : f.deletions % 2 ^ 64 ≡ f.deletions = omega (arith, c.deletions_right) in
      ap (λ n. (f.path, n, f.deletions % 2 ^ 64) ∷ map reduced files) e
      ∙ ap (λ n. (f.path, f.additions, n) ∷ map reduced files) e'
      ∙ ap (λ ss. stat_of f ∷ ss) (reduced-stat_of files h)

-- A diff whose callbacks come in order, each file with a path, is read without a panic into one
-- change for each file that is called back, in order: under the new path of the file, or the old one
-- if it has no new one, with as many additions as lines with `+` come before the next file, and as
-- many deletions as lines with `-`, both up to 2 ^ 64; and these are the numbers of the lines of these
-- types in the hunks of the change.
pub generate_diff-stats :
    (is_whitespace : ℕ → Bool) {Oid Tree : Type 0} (repo : Repository Oid Tree) (base_oid : Oid)
    (head_oid : Option Oid) (callbacks : List Callback)
    → diff_of repo base_oid head_oid ≡ ok callbacks
    → InOrder at_start callbacks
    → (files : List FileChange) × (generate_diff is_whitespace repo base_oid head_oid
        ≡ ok (some files))
      × (map stat_of files ≡ stats callbacks)
      × All IsCounted files
unfolding generate_diff
generate_diff-stats is_whitespace repo base_oid head_oid callbacks e o =
    let (files, e', counts) =
      generate_diff-IsCounted is_whitespace repo base_oid head_oid callbacks e o in
    let read = rw (e, generate_diff) at e' in
    let ran : run_callbacks is_whitespace callbacks [] ≡ some files = cc in
    (
      files,
      e',
      sym (reduced-stat_of is_whitespace files counts)
          ∙ run_callbacks-stats is_whitespace callbacks [] files ran,
      counts,
    )
