-- ===== src/Eg/Search/Contexts.antt =====
-- outdated/mcp-server/src/eg/rust/search.rs: the contexts that `search_file` cuts out of a file.
use symposium.Prelude.{
  ℕ, zero, suc, ◌+◌, ◌-◌, ◌%◌, ◌^◌, ◌≤◌, ◌<◌, Bool, List, [], ◌∷◌, map, some, take, drop, length,
  drop-drop, length-drop, Bool-cases, if◌then◌else◌, ◌≡◌, refl, sym, ap, ◌∙◌, inl, inr, arith,
}
use symposium.Prelude.Text.{Text}
use symposium.Eg.Search.{Match, slice, min, match_at, search_lines}

slice-eq :
    (from to : ℕ) (xs : List Text)
    → from ≤ to
    → to ≤ length xs
    → slice from to xs ≡ some (take (to - from) (drop from xs))
slice-eq from to xs h h' = ground (arith, h, h')

pub min_below : (a b : ℕ) → (min a b ≤ a) × (min a b ≤ b)
min_below a b = ground arith

pub min_above : (c a b : ℕ) → c ≤ a → c ≤ b → c ≤ min a b
min_above c a b h h' = ground (arith, h, h')

pub length-take : (n : ℕ) (xs : List Text) → n ≤ length xs → length (take n xs) ≡ n
length-take zero xs h = refl
length-take (suc n) [] h = absurd (omega (arith, h))
length-take (suc n) (x ∷ xs) h = ap suc (length-take n xs (omega (arith, h)))

module _ (is_match : Text → Bool) where
  -- The lines that match, with their numbers, from the line `i` on.
  abbrev pub matching : ℕ → List Text → List (ℕ × Text)
  matching i [] = []
  matching i (line ∷ rest) =
      let more = matching (i + 1) rest in if is_match line then (i, line) ∷ more else more

module _ (is_match : Text → Bool) (context_lines : ℕ) (path : List Text) (all : List Text) where
  abbrev pub first_of : ℕ → ℕ
  first_of i = i - context_lines

  -- The line behind the context.
  abbrev pub behind : ℕ → ℕ
  behind i = min (i + context_lines + 1) (length all)

  -- The match at the line `i`, which is `line`.
  abbrev pub match_of : ℕ → Text → Match
  match_of i line = record {
    file_path = path;
    line_number = (i + 1) % 2 ^ 32;
    line_content = line;
    context_before = take (i - first_of i) (drop (first_of i) all);
    context_after = take (behind i - (i + 1)) (drop (i + 1) all);
  }

  pub drop_next :
      (i : ℕ) (line : Text) (rest : List Text)
      → drop i all ≡ line ∷ rest
      → (i < length all) × (drop (i + 1) all ≡ rest)
  drop_next i line rest d =
      (omega (arith, length-drop i all, ap length d), sym (drop-drop i 1 all) ∙ ap (drop 1) d)

  match_at-eq :
      (i : ℕ) (line : Text)
      → i < length all
      → match_at is_match context_lines path all i line ≡ some (match_of i line)
  unfolding match_at
  match_at-eq i line h =
      let before : slice (first_of i) i all ≡ some (take (i - first_of i) (drop (first_of i) all)) =
        slice-eq (first_of i) i all (omega arith) (omega (arith, h)) in
      let after : slice (i + 1) (behind i) all
          ≡ some (take (behind i - (i + 1)) (drop (i + 1) all)) =
        slice-eq (i + 1) (behind i) all
          (min_above (i + 1) (i + context_lines + 1) (length all) (omega arith) (omega (arith, h)))
          (min_below (i + context_lines + 1) (length all)).1 in
      rw (before, after, match_at) refl

  -- The loop cuts a context out for each line that matches, and never panics.
  pub search_lines_eq :
      (i : ℕ) (rest : List Text)
      → drop i all ≡ rest
      → search_lines is_match context_lines path all i rest
        ≡ some (map (λ e. match_of e.0 e.1) (matching is_match i rest))
  unfolding search_lines
  search_lines_eq i [] d = refl
  search_lines_eq i (line ∷ rest) d =
      let (h, next) = drop_next i line rest d in
      let more = search_lines_eq (i + 1) rest next in
      elim (Bool-cases (is_match line)) [
        | inl t ↦ rw (t, more, match_at-eq i line h) refl
        | inr f ↦ rw (f, more) refl
      ]
