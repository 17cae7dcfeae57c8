-- ===== src/Ide/Search/Hits.antt =====
-- Which lines a search finds.
use symposium.Prelude.{
  ℕ, zero, suc, ◌+◌, Bool, true, false, Bool-cases, Option, some, none, List, [], ◌∷◌, ◌++◌, Result,
  ok, err, Result-cases, Elem, here, there, Elem-left, Elem-right, Elem-append, Elem-cons,
  get_elem?, ◌≡◌, refl, ap, ◌∙◌, sym, subst, ◌↔◌, ◌⊎◌, inl, inr, arith,
}
use symposium.Prelude.Text.{Text, lines}
use symposium.Ide.Ranges.{FileRange}
use symposium.Ide.Search.{
  RegexCrate, Files, Search, match_range, line_matches, search_lines, search_file_content,
  matches_extension, extension_filter, process_file, walk_entries, execute,
}

-- `r` is the first match in one of the lines, which are numbered from `k` on.
abbrev IsMatch : Text → (Text → Option (ℕ × ℕ)) → ℕ → List Text → FileRange → Type 0
IsMatch file_path find k ls r =
    (n : ℕ) × (line : Text) × (first : ℕ) × (stop : ℕ) × (get_elem? ls n ≡ some line)
    × (find line ≡ some (first, stop))
    × (r ≡ match_range file_path (k + n) line first stop)

line_matches-Elem :
    (file_path : Text) (k : ℕ) (line : Text) (o : Option (ℕ × ℕ)) (rest : List FileRange)
    (r : FileRange)
    → Elem r (line_matches file_path k line o rest)
    → ((first : ℕ) × (stop : ℕ) × (o ≡ some (first, stop))
        × (r ≡ match_range file_path k line first stop))
      ⊎ Elem r rest
line_matches-Elem file_path k line none rest r h = inr h
line_matches-Elem file_path k line (some (first, stop)) rest r here = inl (first, stop, refl, refl)
line_matches-Elem file_path k line (some (first, stop)) rest r (there h) = inr h

line_matches-rest :
    (file_path : Text) (k : ℕ) (line : Text) (o : Option (ℕ × ℕ)) (rest : List FileRange)
    (r : FileRange)
    → Elem r rest
    → Elem r (line_matches file_path k line o rest)
line_matches-rest file_path k line none rest r h = h
line_matches-rest file_path k line (some (first, stop)) rest r h = there h

line_matches-here :
    (file_path : Text) (k : ℕ) (line : Text) (o : Option (ℕ × ℕ)) (first stop : ℕ)
    (rest : List FileRange)
    → o ≡ some (first, stop)
    → Elem (match_range file_path k line first stop) (line_matches file_path k line o rest)
line_matches-here file_path k line o first stop rest e =
    subst
      (λ o'. Elem (match_range file_path k line first stop) (line_matches file_path k line o' rest))
      (sym e) here

module _ (file_path : Text) (find : Text → Option (ℕ × ℕ)) where
  shift :
      (k n : ℕ) (line : Text) (first stop : ℕ) {r : FileRange}
      → r ≡ match_range file_path (k + 1 + n) line first stop
      → r ≡ match_range file_path (k + suc n) line first stop
  shift k n line first stop e =
      let e' : k + 1 + n ≡ k + suc n = omega arith in
      e ∙ ap (λ m. match_range file_path m line first stop) e'

  search_lines→IsMatch :
      (k : ℕ) (ls : List Text) (r : FileRange)
      → Elem r (search_lines file_path find k ls)
      → IsMatch file_path find k ls r
  unfolding search_lines
  search_lines→IsMatch k [] r h = elim h [ ]
  search_lines→IsMatch k (l ∷ ls) r h =
      elim (line_matches-Elem file_path k l (find l) (search_lines file_path find (k + 1) ls) r h) [
        | inl (first, stop, found, e) ↦
            let e' : k ≡ k + 0 = omega arith in
            (0, l, first, stop, refl, found, e ∙ ap (λ m. match_range file_path m l first stop) e')
        | inr h' ↦
            let (n, line, first, stop, at_n, found, e) = search_lines→IsMatch (k + 1) ls r h' in
            (suc n, line, first, stop, at_n, found, shift k n line first stop e)
      ]

  IsMatch→search_lines :
      (k : ℕ) (ls : List Text) (n : ℕ) (line : Text) (first stop : ℕ)
      → get_elem? ls n ≡ some line
      → find line ≡ some (first, stop)
      → Elem (match_range file_path (k + n) line first stop) (search_lines file_path find k ls)
  unfolding search_lines
  IsMatch→search_lines k [] n line first stop e found = cc
  IsMatch→search_lines k (l ∷ ls) zero line first stop e found =
      let e' : l ≡ line = cc in
      let k0 : k ≡ k + 0 = omega arith in
      let hit =
        line_matches-here file_path k l (find l) first stop (search_lines file_path find (k + 1) ls)
          (ap find e' ∙ found) in
      subst
        (λ x.
          Elem (match_range file_path (k + 0) x first stop)
            (search_lines file_path find k (l ∷ ls)))
        e'
        (subst
          (λ m.
            Elem (match_range file_path m l first stop) (search_lines file_path find k (l ∷ ls)))
          k0 hit)
  IsMatch→search_lines k (l ∷ ls) (suc n) line first stop e found =
      line_matches-rest file_path k l (find l) (search_lines file_path find (k + 1) ls)
        (match_range file_path (k + suc n) line first stop)
        (subst (λ m. Elem m (search_lines file_path find (k + 1) ls))
          (shift k n line first stop refl)
          (IsMatch→search_lines (k + 1) ls n line first stop e found))

-- `r` is the first match in a line of the file, which was read and has the extension.
abbrev IsHit : Files → Option Text → (Text → Option (ℕ × ℕ)) → Text → FileRange → Type 0
IsHit files filter find file_path r =
    (content : Text) × (matches_extension file_path filter ≡ true)
    × (files.read_to_string file_path ≡ ok content)
    × IsMatch file_path find 0 (lines content) r

module _ (files : Files) (filter : Option Text) (find : Text → Option (ℕ × ℕ)) where
  process_file_iff :
      (file_path : Text) (r : FileRange)
      → Elem r (process_file files file_path filter find) ↔ IsHit files filter find file_path r
  unfolding process_file search_file_content
  process_file_iff file_path r = (
    λ h. elim (Bool-cases (matches_extension file_path filter)) [
      | inr other ↦ elim (rw (other, process_file) at h) [ ]
      | inl has ↦ elim (Result-cases (files.read_to_string file_path)) [
        | inr (e, unread) ↦ elim (rw (has, unread, process_file) at h) [ ]
        | inl (content, read) ↦ (
          content,
          has,
          read,
          search_lines→IsMatch file_path find 0 (lines content) r
              (rw (has, read, process_file) at h),
        )
      ]
    ],
    λ h.
        let (content, has, read, (n, line, first, stop, at_n, found, e)) = h in
        subst (λ x. Elem x (process_file files file_path filter find)) (sym e)
          (rw (has, read, process_file)
            (IsMatch→search_lines file_path find 0 (lines content) n line first stop at_n found)),
  )

  abbrev IsWalked : List (Result Text (Text × Bool)) → FileRange → Type 0
  IsWalked entries r =
      (file_path : Text) × Elem (ok (file_path, true)) entries × IsHit files filter find file_path r

  IsWalked-there :
      (entry : Result Text (Text × Bool)) (entries : List (Result Text (Text × Bool)))
      (r : FileRange)
      → IsWalked entries r
      → IsWalked (entry ∷ entries) r
  IsWalked-there entry entries r (file_path, h, hit) = (file_path, there h, hit)

  IsWalked-cons :
      (file_path : Text) (is_file : Bool) (entries : List (Result Text (Text × Bool)))
      (r : FileRange)
      → IsWalked (ok (file_path, is_file) ∷ entries) r
      → ((is_file ≡ true) × IsHit files filter find file_path r) ⊎ IsWalked entries r
  IsWalked-cons file_path is_file entries r (other, h, hit) = elim (Elem-cons h) [
    | inl e ↦
        let e1 : other ≡ file_path = cc in inl (cc, subst (λ p. IsHit files filter find p r) e1 hit)
    | inr h' ↦ inr (other, h', hit)
  ]

  walk_entries_iff :
      (entries : List (Result Text (Text × Bool))) (results : List FileRange)
      → walk_entries files filter find entries ≡ ok results
      → (r : FileRange) → Elem r results ↔ IsWalked entries r
  unfolding walk_entries
  walk_entries_iff [] results h r =
      let e : [] ≡ results = cc in
      subst (λ rs. Elem r rs ↔ IsWalked [] r) e (λ x. elim x [ ], λ x. elim x.1 [ ])
  walk_entries_iff (err e ∷ entries) results h r = cc
  walk_entries_iff (ok (file_path, false) ∷ entries) results h r =
      let ih = walk_entries_iff entries results h r in
      (
        λ x. IsWalked-there (ok (file_path, false)) entries r (ih.0 x),
        λ x. elim (IsWalked-cons file_path false entries r x) [ inl y ↦ cc (y.0) | inr y ↦ ih.1 y ],
      )
  walk_entries_iff (ok (file_path, true) ∷ entries) results h r =
      elim (Result-cases (walk_entries files filter find entries)) [
        | inr (e, failed) ↦ cc (rw (failed, walk_entries) at h)
        | inl (rest, walked) ↦
            let ih = walk_entries_iff entries rest walked r in
            let e : process_file files file_path filter find ++ rest ≡ results =
              cc (rw (walked, walk_entries) at h) in
            subst (λ rs. Elem r rs ↔ IsWalked (ok (file_path, true) ∷ entries) r) e
              (
                λ x. elim (Elem-append (process_file files file_path filter find) rest x) [
                  | inl y ↦ (file_path, here, (process_file_iff file_path r).0 y)
                  | inr y ↦ IsWalked-there (ok (file_path, true)) entries r (ih.0 y)
                ],
                λ x. elim (IsWalked-cons file_path true entries r x) [
                  | inl y ↦
                      Elem-left (process_file files file_path filter find) rest
                        ((process_file_iff file_path r).1 y.1)
                  | inr y ↦ Elem-right (process_file files file_path filter find) rest (ih.1 y)
                ],
              )
      ]

-- The files that are searched: the path, if it is a file, and what the walk of a directory gives.
pub data IsSearched (files : Files) (path : Text) : Text → Type 0 where
  itself : files.is_file path ≡ true → IsSearched files path path
  walked :
      {file_path : Text}
      → files.is_file path ≡ false
      → files.is_dir path ≡ true
      → Elem (ok (file_path, true)) (files.walk path)
      → IsSearched files path file_path

IsSearched-file :
    {files : Files} {path p : Text} → files.is_file path ≡ true → IsSearched files path p → p ≡ path
IsSearched-file h (itself f) = refl
IsSearched-file h (walked other dir e) = cc

IsSearched-entry :
    {files : Files} {path p : Text}
    → files.is_file path ≡ false
    → IsSearched files path p
    → (files.is_dir path ≡ true) × Elem (ok (p, true)) (files.walk path)
IsSearched-entry h (itself f) = cc
IsSearched-entry h (walked other dir e) = (dir, e)

abbrev pub Found :
    (files : Files) → Search → Option Text → (Text → Option (ℕ × ℕ)) → FileRange → Type 0
Found files s filter find r =
    (file_path : Text) × IsSearched files s.path file_path × IsHit files filter find file_path r

-- A search that succeeds, with a regex that compiles to `regex`, finds exactly the first match in each
-- line of the searched files that can be read and whose path ends in the extension, with its dot.
pub execute-Elem :
    (files : Files) {Regex : Type 0} (regexes : RegexCrate Regex) (s : Search) (regex : Regex)
    (results : List FileRange)
    → regexes.new s.regex ≡ ok regex
    → execute files regexes s ≡ ok results
    → (r : FileRange)
    → Elem r results ↔ (
        (file_path : Text) × IsSearched files s.path file_path
        × IsHit files (extension_filter s.extension) (regexes.find regex) file_path r)
unfolding execute
execute-Elem files regexes s regex results compiled h r =
    let filter = extension_filter s.extension in
    let find = regexes.find regex in
    elim (Bool-cases (files.is_file s.path)) [
      | inl file ↦
          let e : process_file files s.path filter find ≡ results =
            cc (rw (compiled, file, execute) at h) in
          let (to, from) = process_file_iff files filter find s.path r in
          subst (λ rs. Elem r rs ↔ Found files s filter find r) e
            (
              λ x. (s.path, itself file, to x),
              λ (p, searched, hit).
                  from
                    (subst (λ q. IsHit files filter find q r) (IsSearched-file file searched) hit),
            )
      | inr other ↦ elim (Bool-cases (files.is_dir s.path)) [
        | inl dir ↦
            let found : walk_entries files filter find (files.walk s.path) ≡ ok results =
              cc (rw (compiled, other, dir, execute) at h) in
            let (to, from) =
              walk_entries_iff files filter find (files.walk s.path) results found r in
            (
              λ x. let (p, e, hit) = to x in (p, walked other dir e, hit),
              λ (p, searched, hit). from (p, (IsSearched-entry other searched).1, hit),
            )
        | inr missing ↦
            let e : [] ≡ results = cc (rw (compiled, other, missing, execute) at h) in
            subst (λ rs. Elem r rs ↔ Found files s filter find r) e
              (λ x. elim x [ ], λ (p, searched, hit). cc ((IsSearched-entry other searched).0))
      ]
    ]
