-- ===== src/Server/Crates/Reported.antt =====
-- outdated/mcp-server/src/server.rs, `get_rust_crate_source`: what the answer says of a match that
-- `search_file` of eg/rust/search.rs found.
use symposium.Prelude.{
  ℕ, zero, suc, ◌+◌, ◌-◌, ◌%◌, ◌^◌, ◌≤◌, ◌<◌, Bool, true, List, [], ◌∷◌, ◌++◌, map, All, take, drop,
  length, take_add, drop-drop, length-drop, get_elem?, some, ok, Bool-cases, inl, inr, ◌≡◌, refl,
  sym, ap, ◌∙◌, arith,
}
use symposium.Prelude.Text.{Text, codes, lines, join_with}
use symposium.Eg.Search.{Match, min, search_file, or_path, strip_base}
use symposium.Eg.Search.Contexts.{
  match_of, matching, first_of, behind, drop_next, search_lines_eq, length-take, min_below,
  min_above,
}
use symposium.Server.Crates.{context_of, report_of}

take_middle :
    (s i e : ℕ) (all : List Text) (line : Text) (rest : List Text)
    → s ≤ i
    → i < e
    → drop i all ≡ line ∷ rest
    → drop (i + 1) all ≡ rest
    → take (i - s) (drop s all) ++ line ∷ take (e - (i + 1)) (drop (i + 1) all)
      ≡ take (e - s) (drop s all)
take_middle s i e all line rest h h' d d' =
    let n = i - s in
    let k = e - (i + 1) in
    let split : e - s ≡ n + suc k = omega (arith, h, h') in
    let start : s + n ≡ i = omega (arith, h) in
    let tail : drop n (drop s all) ≡ line ∷ rest =
      drop-drop s n all ∙ ap (λ j. drop j all) start ∙ d in
    sym (
      ap (λ j. take j (drop s all)) split
      ∙ take_add n (suc k) (drop s all)
      ∙ ap (λ t. take n (drop s all) ++ take (suc k) t) tail
      ∙ ap (λ t. take n (drop s all) ++ line ∷ take k t) (sym d'))

get_elem?-drop :
    (i : ℕ) (all : List Text) (line : Text) (rest : List Text)
    → drop i all ≡ line ∷ rest
    → get_elem? all i ≡ some line
get_elem?-drop zero [] line rest d = cc
get_elem?-drop (suc i) [] line rest d = cc
get_elem?-drop zero (x ∷ all) line rest d = cc
get_elem?-drop (suc i) (x ∷ all) line rest d = get_elem?-drop i all line rest d

module _ (is_match : Text → Bool) (context_lines : ℕ) (all : List Text) where
  -- The report of a match in the file with these lines: which lines its context is.
  abbrev pub IsReport : Match → Type 0
  IsReport m =
      let r = report_of m in
      (1 ≤ r.line_number)
      × (r.line_number ≤ length all)
      × (r.context_start_line ≡ r.line_number - 1 - context_lines + 1)
      × (r.context_end_line ≡ min (r.line_number + context_lines) (length all))
      × (r.context
          ≡ join_with (codes "\n") (
              take (suc r.context_end_line - r.context_start_line)
                (drop (r.context_start_line - 1) all)))
      × (get_elem? all (r.line_number - 1) ≡ some m.line_content)
      × (is_match m.line_content ≡ true)

module _ (is_match : Text → Bool) (context_lines : ℕ) (path : List Text) (all : List Text) where
  context_of-match_of :
      (i : ℕ) (line : Text) (rest : List Text)
      → drop i all ≡ line ∷ rest
      → context_of (match_of is_match context_lines path all i line)
        ≡ take
            (behind is_match context_lines path all i - first_of is_match context_lines path all i)
            (drop (first_of is_match context_lines path all i) all)
  unfolding context_of
  context_of-match_of i line rest d =
      let (h, next) = drop_next is_match context_lines path all i line rest d in
      take_middle (i - context_lines) i (behind is_match context_lines path all i) all line rest
        (omega arith)
        (omega (
          arith,
          min_above (i + 1) (i + context_lines + 1) (length all) (omega arith) (omega (arith, h)),
        ))
        d next

  -- The numbers of a report, for a file that is not too long.
  match_of-IsReport :
      (i : ℕ) (line : Text) (rest : List Text)
      → length all < 2 ^ 32
      → drop i all ≡ line ∷ rest
      → is_match line ≡ true
      → IsReport is_match context_lines all (match_of is_match context_lines path all i line)
  unfolding report_of
  match_of-IsReport i line rest short d t =
      let (h, next) = drop_next is_match context_lines path all i line rest d in
      let m = match_of is_match context_lines path all i line in
      let s = i - context_lines in
      let e = behind is_match context_lines path all i in
      let above : i + 1 ≤ e =
        min_above (i + 1) (i + context_lines + 1) (length all) (omega arith) (omega (arith, h)) in
      let inside : e ≤ length all = (min_below (i + context_lines + 1) (length all)).1 in
      let before : length m.context_before ≡ i - s =
        length-take (i - s) (drop s all) (omega (arith, length-drop s all, h)) in
      let after : length m.context_after ≡ e - (i + 1) =
        length-take (e - (i + 1)) (drop (i + 1) all)
          (omega (arith, length-drop (i + 1) all, inside)) in
      let number : (i + 1) % 2 ^ 32 ≡ i + 1 = omega (arith, h, short) in
      let first : (i + 1) % 2 ^ 32 - length m.context_before % 2 ^ 32 ≡ s + 1 =
        omega (arith, before, number, h, short) in
      let last : ((i + 1) % 2 ^ 32 + length m.context_after % 2 ^ 32) % 2 ^ 32 ≡ e =
        omega (arith, after, number, above, inside, short) in
      let r = report_of m in
      let size : suc r.context_end_line - r.context_start_line ≡ e - s =
        omega (arith, first, last) in
      let start : r.context_start_line - 1 ≡ s = omega (arith, first) in
      let reach : i + context_lines + 1 ≡ r.line_number + context_lines = omega (arith, number) in
      let place : r.line_number - 1 ≡ i = omega (arith, number) in
      (
        omega (arith, number),
        omega (arith, number, h),
        omega (arith, first, number),
        last ∙ ap (λ j. min j (length all)) reach,
        ap (join_with (codes "\n")) (
            context_of-match_of i line rest d
            ∙ sym (
                ap (λ j. take j (drop (r.context_start_line - 1) all)) size
                ∙ ap (λ j. take (e - s) (drop j all)) start)),
        ap (get_elem? all) place ∙ get_elem?-drop i all line rest d,
        t,
      )

  reports :
      (i : ℕ) (rest : List Text)
      → length all < 2 ^ 32
      → drop i all ≡ rest
      → All
          (IsReport is_match context_lines all)
          (map (λ e. match_of is_match context_lines path all e.0 e.1) (matching is_match i rest))
  reports i [] short d = tt
  reports i (line ∷ rest) short d =
      let (h, next) = drop_next is_match context_lines path all i line rest d in
      let more = reports (i + 1) rest short next in
      elim (Bool-cases (is_match line)) [
        | inl t ↦ rw (t, matching) (match_of-IsReport i line rest short d t, more)
        | inr f ↦ rw (f, matching) more
      ]

  line_numbers :
      (i : ℕ) (rest : List Text)
      → length all < 2 ^ 32
      → drop i all ≡ rest
      → map
          (λ m. m.line_number)
          (map (λ e. match_of is_match context_lines path all e.0 e.1) (matching is_match i rest))
        ≡ map (λ e. e.0 + 1) (matching is_match i rest)
  line_numbers i [] short d = refl
  line_numbers i (line ∷ rest) short d =
      let (h, next) = drop_next is_match context_lines path all i line rest d in
      let more = line_numbers (i + 1) rest short next in
      let number : (i + 1) % 2 ^ 32 ≡ i + 1 = omega (arith, h, short) in
      elim (Bool-cases (is_match line)) [
        | inl t ↦ rw (t, matching) (λ k. number k ∷ more k)
        | inr f ↦ rw (f, matching) more
      ]

-- A search of a file of less than `2 ^ 32` lines finds a match for each line that matches, in order. What
-- is reported of each is right: the number of the line, the lines from `context_lines` before to
-- `context_lines` behind it, as far as the file has them, and as context the text of these lines.
pub search_file-IsReport :
    (is_match : Text → Bool) (context_lines : ℕ) (base_path path : List Text) (content : Text)
    → length (lines content) < 2 ^ 32
    → (ms : List Match) × (search_file is_match context_lines base_path path (ok content)
        ≡ ok (some ms))
      × All (IsReport is_match context_lines (lines content)) ms
      × (map (λ m. m.line_number) ms ≡ map (λ e. e.0 + 1) (matching is_match 0 (lines content)))
unfolding search_file
search_file-IsReport is_match context_lines base_path path content short =
    let all = lines content in
    let relative = or_path (strip_base base_path path) path in
    (
      map (λ e. match_of is_match context_lines relative all e.0 e.1) (matching is_match 0 all),
      ap ok (search_lines_eq is_match context_lines relative all 0 all refl),
      reports is_match context_lines relative all 0 all short refl,
      line_numbers is_match context_lines relative all 0 all short refl,
    )
