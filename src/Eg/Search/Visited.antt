-- ===== src/Eg/Search/Visited.antt =====
-- outdated/mcp-server/src/eg/rust/search.rs: which files `search_crate` searches.
use symposium.Prelude.{
  ℕ, Bool, true, false, not, keep, List, [], ◌∷◌, ◌++◌, map, append_assoc, append-nil, Option, some,
  Result, ok, err, Bool-cases, ◌>>=◌, map_ok, if◌then◌else◌, ◌≡◌, refl, sym, ap, ◌∙◌, inl, inr,
}
use symposium.Prelude.Text.{Text, text_eq, starts_with, lines}
use symposium.Ferris.Error.{FerrisError, io_error}
use symposium.Eg.Search.{
  Match, Directory, unreadable, readable, Entries, nil, entry_error, sub_directory, file,
  is_skipped, Ended, failed, Matches, add, is_rust, is_example_file, strip_base, or_path,
  search_file, add_file, search_directory, search_entries, search_crate,
}
use symposium.Eg.Search.Contexts.{match_of, matching, search_lines_eq}

-- A file: its path and its text.
abbrev pub RustFile : Type 0
RustFile = List Text × Text

-- Files in front of those of the rest.
abbrev pub in_front :
    Result FerrisError (List RustFile)
    → Result FerrisError (List RustFile)
    → Result FerrisError (List RustFile)
in_front files rest = files >>= λ fs. map_ok (λ gs. fs ++ gs) rest

module _ (extension to_str : Text → Option Text) where
  -- What a file gives: itself, if it is one of Rust that can be read.
  abbrev pub readable_rust :
      (is_rust_file : Bool) (path : List Text) → Result Text Text → List RustFile
  readable_rust true path (ok content) = (path, content) ∷ []
  readable_rust true path (err e) = []
  readable_rust false path content = []

  unfoldable mutual
    unfolding starts_with text_eq

    -- The Rust files below a directory, in the order of the entries.
    pub directory_files : List Text → Directory → Result FerrisError (List RustFile)
    directory_files path (unreadable e) = err (io_error e)
    directory_files path (readable es) = entry_files path es

    pub entry_files : List Text → Entries → Result FerrisError (List RustFile)
    entry_files path nil = ok []
    entry_files path (entry_error e es) = err (io_error e)
    entry_files path (sub_directory file_name d es) =
        in_front
          (if is_skipped (to_str file_name)
            then ok []
            else directory_files (path ++ file_name ∷ []) d)
          (entry_files path es)
    entry_files path (file file_name content es) =
        in_front (ok (readable_rust (is_rust extension file_name) (path ++ file_name ∷ []) content))
          (entry_files path es)

module _ (is_match : Text → Bool) (context_lines : ℕ) (base_path : List Text) where
  -- The matches in a file, by the lines that match.
  abbrev pub found_in : RustFile → List Match
  found_in (path, content) =
      map
        (λ e.
          match_of is_match context_lines (or_path (strip_base base_path path) path) (lines content)
            e.0 e.1)
        (matching is_match 0 (lines content))

  abbrev pub found_all : List RustFile → List Match
  found_all [] = []
  found_all (f ∷ files) = found_in f ++ found_all files

  abbrev pub is_example : RustFile → Bool
  is_example (path, content) = is_example_file base_path path

  -- The matches of a file, put behind those that were found.
  abbrev include : RustFile → Matches → Matches
  include f m = if is_example f then (m.0 ++ found_in f, m.1) else (m.0, m.1 ++ found_in f)

  abbrev visit : List RustFile → Matches → Matches
  visit [] m = m
  visit (f ∷ files) m = visit files (include f m)

  visit-append : (fs gs : List RustFile) (m : Matches) → visit (fs ++ gs) m ≡ visit gs (visit fs m)
  visit-append [] gs m = refl
  visit-append (f ∷ fs) gs m = visit-append fs gs (include f m)

  add-include :
      (path : List Text) (content : Text) (m : Matches)
      → add (is_example_file base_path path) (some (found_in (path, content))) m
        ≡ ok (include (path, content) m)
  add-include path content m = elim (Bool-cases (is_example_file base_path path)) [
    | inl t ↦ rw (t) refl
    | inr f ↦ rw (f) refl
  ]

  -- The end of a search that visits these files.
  abbrev after : Result FerrisError (List RustFile) → Matches → Result Ended Matches
  after (ok files) m = ok (visit files m)
  after (err e) m = err (failed e)

  after-append :
      (fs : List RustFile) (rest : Result FerrisError (List RustFile)) (m : Matches)
      → after rest (visit fs m) ≡ after (map_ok (λ gs. fs ++ gs) rest) m
  after-append fs (ok gs) m = ap ok (sym (visit-append fs gs m))
  after-append fs (err e) m = refl

  -- A part of the search, and what goes on behind it.
  after-in_front :
      (part : Result FerrisError (List RustFile)) (q : Result Ended Matches) (m : Matches)
      (next : Matches → Result Ended Matches) (rest : Result FerrisError (List RustFile))
      → q ≡ after part m
      → ((x : Matches) → next x ≡ after rest x)
      → (q >>= next) ≡ after (in_front part rest) m
  after-in_front (ok fs) q m next rest h h' = rw h (h' (visit fs m) ∙ after-append fs rest m)
  after-in_front (err e) q m next rest h h' = rw h refl

  module _ (extension to_str : Text → Option Text) where
    add_file-include :
        (path : List Text) (file_name : Text) (content : Result Text Text) (m : Matches)
        → add_file extension to_str is_match context_lines base_path path file_name content m
          ≡ ok (visit (readable_rust extension to_str (is_rust extension file_name) path content) m)
    unfolding add_file search_file
    add_file-include path file_name (err e) m = elim (Bool-cases (is_rust extension file_name)) [
      | inl t ↦ rw (t) refl
      | inr f ↦ rw (f) refl
    ]
    add_file-include path file_name (ok content) m =
        elim (Bool-cases (is_rust extension file_name)) [
          | inl t ↦
              rw
                (
                  t,
                  search_lines_eq is_match context_lines (or_path (strip_base base_path path) path)
                      (lines content) 0 (lines content) refl,
                )
                (add-include path content m)
          | inr f ↦ rw (f) refl
        ]

    mutual
      unfolding search_directory directory_files

      search_directory-after :
          (path : List Text) (d : Directory) (m : Matches)
          → search_directory extension to_str is_match context_lines base_path path d m
            ≡ after (directory_files extension to_str path d) m
      search_directory-after path (unreadable e) m = refl
      search_directory-after path (readable es) m = search_entries-after path es m

      search_entries-after :
          (path : List Text) (es : Entries) (m : Matches)
          → search_entries extension to_str is_match context_lines base_path path es m
            ≡ after (entry_files extension to_str path es) m
      search_entries-after path nil m = refl
      search_entries-after path (entry_error e es) m = refl
      search_entries-after path (sub_directory file_name d es) m =
          let path_of_d = path ++ file_name ∷ [] in
          let part =
            if is_skipped (to_str file_name)
            then ok []
            else directory_files extension to_str path_of_d d in
          let q =
            if is_skipped (to_str file_name)
            then ok m
            else search_directory extension to_str is_match context_lines base_path path_of_d d m in
          let same : q ≡ after part m = elim (Bool-cases (is_skipped (to_str file_name))) [
            | inl t ↦ rw (t) refl
            | inr f ↦ rw (f) (search_directory-after path_of_d d m)
          ] in
          after-in_front part q m
            (search_entries extension to_str is_match context_lines base_path path es)
            (entry_files extension to_str path es) same (search_entries-after path es)
      search_entries-after path (file file_name content es) m =
          after-in_front
            (ok (
              readable_rust extension to_str (is_rust extension file_name) (path ++ file_name ∷ [])
                content))
            (add_file extension to_str is_match context_lines base_path (path ++ file_name ∷ [])
              file_name content m)
            m (search_entries extension to_str is_match context_lines base_path path es)
            (entry_files extension to_str path es)
            (add_file-include (path ++ file_name ∷ []) file_name content m)
            (search_entries-after path es)

  visit-keep :
      (fs : List RustFile) (a b : List Match)
      → visit fs (a, b)
        ≡ (a ++ found_all (keep is_example fs), b ++ found_all (keep (λ f. not (is_example f)) fs))
  visit-keep [] a b = rw (append-nil a, append-nil b) refl
  visit-keep (f ∷ fs) a b = elim (Bool-cases (is_example f)) [
    | inl t ↦
        rw (t, keep)
          (visit-keep fs (a ++ found_in f) b
            ∙ ap (λ x. (x, b ++ found_all (keep (λ g. not (is_example g)) fs)))
                (append_assoc a (found_in f) (found_all (keep is_example fs))))
    | inr n ↦
        rw (n, keep)
          (visit-keep fs a (b ++ found_in f)
            ∙ ap (λ x. (a ++ found_all (keep is_example fs), x))
                (append_assoc b (found_in f) (found_all (keep (λ g. not (is_example g)) fs))))
  ]

  -- The answer of a search that goes through these files.
  abbrev pub search_of : Result FerrisError (List RustFile) → Result Ended Matches
  search_of (ok files) =
      ok (found_all (keep is_example files), found_all (keep (λ f. not (is_example f)) files))
  search_of (err e) = err (failed e)

  after-search_of :
      (files : Result FerrisError (List RustFile)) → after files ([], []) ≡ search_of files
  after-search_of (ok files) = ap ok (visit-keep files [] [])
  after-search_of (err e) = refl

  -- A search in a crate finds, in the order of the directories, the contexts of the matching lines of
  -- each Rust file that can be read and is not below a skipped directory, those in examples apart from
  -- the others. It ends in an error exactly where a directory or an entry cannot be read, and it
  -- never panics.
  pub search_crate_eq :
      (extension to_str : Text → Option Text) (d : Directory)
      → search_crate extension to_str is_match context_lines base_path d
        ≡ search_of (directory_files extension to_str base_path d)
  unfolding search_crate
  search_crate_eq extension to_str d =
      search_directory-after extension to_str base_path d ([], [])
      ∙ after-search_of (directory_files extension to_str base_path d)
