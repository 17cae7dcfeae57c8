-- ===== src/Walkthrough/Yaml/Written.antt =====
-- Parameters that are written as lines are read back.
use symposium.Prelude.{
  ℕ, Bool, true, false, Bool-cases, ◌||◌, ◌==◌, ==_iff, some, none, List, [], ◌∷◌, ◌++◌, map, All,
  if◌then◌else◌, ◌≡◌, refl, ap, subst, ◌∙◌, inl, inr, arith,
}
use symposium.Prelude.Text.{Text, lines, join_with, trim, trim_start, trim_end, is_empty}
use symposium.Prelude.Assoc.{insert, text_key}
use symposium.Walkthrough.Yaml.{
  split_once, all, is_key_char, parameter, parse_lines, parse_yaml_parameters,
}

module _ (p : ℕ → Bool) where
  -- A round of `trim_end`, before what is left of the rest.
  abbrev pub keep_before : ℕ → Text → Text
  keep_before c rest = elim rest [ [] ↦ (if p c then [] else c ∷ []) | d ∷ t ↦ c ∷ d ∷ t ]

  pub keep_before-cons :
      (y : ℕ) (ys : Text) (c : ℕ) (s : Text) → keep_before y (ys ++ c ∷ s) ≡ y ∷ ys ++ c ∷ s
  keep_before-cons y [] c s = refl
  keep_before-cons y (z ∷ ys) c s = refl

  pub trim_end-append :
      (ys : Text) (c : ℕ) (s : Text)
      → trim_end p (c ∷ s) ≡ c ∷ s
      → trim_end p (ys ++ c ∷ s) ≡ ys ++ c ∷ s
  unfolding trim_end
  trim_end-append [] c s h = h
  trim_end-append (y ∷ ys) c s h =
      ap (keep_before y) (trim_end-append ys c s h) ∙ keep_before-cons y ys c s

  pub trim_start_visible : (c : ℕ) (s : Text) → p c ≡ false → trim_start p (c ∷ s) ≡ c ∷ s
  unfolding trim_start
  trim_start_visible c s h = rw (h, trim_start) refl

  pub trim_start_space : (c : ℕ) (s : Text) → p c ≡ true → trim_start p (c ∷ s) ≡ trim_start p s
  unfolding trim_start
  trim_start_space c s h = rw (h, trim_start) refl

  trim_end_visible : (s : Text) → All (λ c. p c ≡ false) s → trim_end p s ≡ s
  unfolding trim_end
  trim_end_visible [] h = refl
  trim_end_visible (c ∷ []) h = rw (h.0) refl
  trim_end_visible (c ∷ d ∷ s) h = ap (keep_before c) (trim_end_visible (d ∷ s) h.1)

  pub trim_visible : (s : Text) → All (λ c. p c ≡ false) s → trim p s ≡ s
  unfolding trim
  trim_visible [] h = trim_end_visible [] tt
  trim_visible (c ∷ s) h = ap (trim_end p) (trim_start_visible c s h.0) ∙ trim_end_visible (c ∷ s) h

-- What the parser relies on in the characters of Unicode.
pub record Characters (is_whitespace is_alphanumeric : ℕ → Bool) : Type 0 where
  pub space : is_whitespace b' ' ≡ true
  pub colon_visible : is_whitespace b':' ≡ false
  pub colon_sign : is_alphanumeric b':' ≡ false
  pub keys_visible :
      (c : ℕ) → is_key_char is_whitespace is_alphanumeric c ≡ true → is_whitespace c ≡ false

module _ (is_whitespace is_alphanumeric : ℕ → Bool) where
  -- A key of the characters of keys, and a value that is not empty and has no space around it.
  abbrev pub IsParameter : Text × Text → Type 0
  IsParameter (key, []) = ⊥
  IsParameter (key, c ∷ value) =
      (all (is_key_char is_whitespace is_alphanumeric) key ≡ true)
      × (is_whitespace c ≡ false)
      × (trim_end is_whitespace (c ∷ value) ≡ c ∷ value)

  -- `key: value`
  abbrev pub line_of : Text × Text → Text
  line_of (key, value) = key ++ b':' ∷ b' ' ∷ value

  -- The parameters, put into the map from the first to the last.
  abbrev pub insert_all : List (Text × Text) → List (Text × Text) → List (Text × Text)
  insert_all params [] = params
  insert_all params ((key, value) ∷ more) = insert_all (insert key value params) more

  all-cons :
      (q : ℕ → Bool) (k : ℕ) (key : Text)
      → all q (k ∷ key) ≡ true
      → (q k ≡ true) × (all q key ≡ true)
  unfolding all
  all-cons q k key h = ground (arith, h)

  module _ (chars : Characters is_whitespace is_alphanumeric) where
    colon_sign : (k : ℕ) → is_key_char is_whitespace is_alphanumeric k ≡ true → (k == b':') ≡ false
    colon_sign k h = elim (Bool-cases (k == b':')) [
      | inr f ↦ f
      | inl t ↦
          let e : k ≡ b':' = (==_iff k b':').0 t in
          let signed : is_alphanumeric b':' || false || false ≡ true =
            subst (λ c. is_key_char is_whitespace is_alphanumeric c ≡ true) e h in
          ground (arith, signed, chars.colon_sign)
    ]

    split_once-key :
        (key value : Text)
        → all (is_key_char is_whitespace is_alphanumeric) key ≡ true
        → split_once b':' (key ++ b':' ∷ value) ≡ some (key, value)
    unfolding split_once all
    split_once-key [] value h = refl
    split_once-key (k ∷ key) value h =
        let (h0, h1) = all-cons (is_key_char is_whitespace is_alphanumeric) k key h in
        let f = colon_sign k h0 in
        rw (f) (
          ap (λ r. elim r [ some (before, behind) ↦ some (k ∷ before, behind) | none ↦ none ])
            (split_once-key key value h1))

    key_visible :
        (key : Text)
        → all (is_key_char is_whitespace is_alphanumeric) key ≡ true
        → All (λ c. is_whitespace c ≡ false) key
    unfolding all
    key_visible [] h = tt
    key_visible (k ∷ key) h =
        let (h0, h1) = all-cons (is_key_char is_whitespace is_alphanumeric) k key h in
        (chars.keys_visible k h0, key_visible key h1)

    trim_start_line :
        (key value : Text)
        → all (is_key_char is_whitespace is_alphanumeric) key ≡ true
        → trim_start is_whitespace (line_of (key, value)) ≡ line_of (key, value)
    trim_start_line [] value h =
        trim_start_visible is_whitespace b':' (b' ' ∷ value) chars.colon_visible
    trim_start_line (k ∷ key) value h =
        trim_start_visible is_whitespace k (key ++ b':' ∷ b' ' ∷ value) (key_visible (k ∷ key) h).0

    trim_line :
        (key : Text) (c : ℕ) (value : Text)
        → IsParameter (key, c ∷ value)
        → trim is_whitespace (line_of (key, c ∷ value)) ≡ line_of (key, c ∷ value)
    unfolding trim
    trim_line key c value (h0, h1, h2) =
        let e : trim_end is_whitespace (b':' ∷ b' ' ∷ c ∷ value) ≡ b':' ∷ b' ' ∷ c ∷ value =
          trim_end-append is_whitespace (b':' ∷ b' ' ∷ []) c value h2 in
        ap (trim_end is_whitespace) (trim_start_line key (c ∷ value) h0)
        ∙ trim_end-append is_whitespace key b':' (b' ' ∷ c ∷ value) e

    trim_value :
        (c : ℕ) (value : Text)
        → is_whitespace c ≡ false
        → trim_end is_whitespace (c ∷ value) ≡ c ∷ value
        → trim is_whitespace (b' ' ∷ c ∷ value) ≡ c ∷ value
    unfolding trim
    trim_value c value h h' =
        ap (trim_end is_whitespace) (
          trim_start_space is_whitespace b' ' (c ∷ value) chars.space
          ∙ trim_start_visible is_whitespace c value h)
        ∙ h'

    parameter-line_of :
        (key : Text) (c : ℕ) (value : Text)
        → IsParameter (key, c ∷ value)
        → parameter is_whitespace is_alphanumeric (line_of (key, c ∷ value)) ≡ some (key, c ∷ value)
    unfolding parameter
    parameter-line_of key c value (h0, h1, h2) =
        rw (split_once-key key (b' ' ∷ c ∷ value) h0, h0, parameter)
          (ap (λ k. some (k, trim is_whitespace (b' ' ∷ c ∷ value)))
              (trim_visible is_whitespace key (key_visible key h0))
            ∙ ap (λ v. some (key, v)) (trim_value c value h1 h2))

    is_empty-line : (key : Text) (c : ℕ) (t : Text) → is_empty (key ++ c ∷ t) ≡ false
    is_empty-line [] c t = refl
    is_empty-line (k ∷ key) c t = refl

    -- A round of the loop on a line of which `trimmed` is left.
    abbrev round : List (Text × Text) → Text → List Text → Text → List (Text × Text) × List Text
    round params line rest trimmed =
        if is_empty trimmed
        then (params, rest)
        else elim (parameter is_whitespace is_alphanumeric trimmed) [
          | some (key, value) ↦
              parse_lines is_whitespace is_alphanumeric (insert key value params) rest
          | none ↦ (params, line ∷ rest)
        ]

    round-line_of :
        (params : List (Text × Text)) (key : Text) (c : ℕ) (value line : Text) (rest : List Text)
        → IsParameter (key, c ∷ value)
        → round params line rest (line_of (key, c ∷ value))
          ≡ parse_lines is_whitespace is_alphanumeric (insert key (c ∷ value) params) rest
    round-line_of params key c value line rest h =
        rw (is_empty-line key b':' (b' ' ∷ c ∷ value), parameter-line_of key c value h) refl

    parse_lines-line_of :
        (params ps : List (Text × Text)) (blank : Text) (rest : List Text)
        → All IsParameter ps
        → trim is_whitespace blank ≡ []
        → parse_lines is_whitespace is_alphanumeric params (map line_of ps ++ blank ∷ rest)
          ≡ (insert_all params ps, rest)
    unfolding parse_lines
    parse_lines-line_of params [] blank rest h b = ap (round params blank rest) b
    parse_lines-line_of params ((key, []) ∷ ps) blank rest h b = absurd h.0
    parse_lines-line_of params ((key, c ∷ value) ∷ ps) blank rest h b =
        let line = line_of (key, c ∷ value) in
        ap (round params line (map line_of ps ++ blank ∷ rest)) (trim_line key c value h.0)
        ∙ round-line_of params key c value line (map line_of ps ++ blank ∷ rest) h.0
        ∙ parse_lines-line_of (insert key (c ∷ value) params) ps blank rest h.1 b

    -- A text whose first lines are parameters, each written `key: value` with a key of the characters
    -- of keys and a value that is not empty and has no space around it, and whose next line is blank,
    -- is read as these parameters, put into the map from the first to the last, and the lines behind
    -- the blank one.
    pub parse_yaml_parameters-line_of :
        (content : Text) (ps : List (Text × Text)) (blank : Text) (rest : List Text)
        → lines content ≡ map line_of ps ++ blank ∷ rest
        → All IsParameter ps
        → trim is_whitespace blank ≡ []
        → parse_yaml_parameters is_whitespace is_alphanumeric content
          ≡ (insert_all [] ps, join_with (10 ∷ []) rest)
    unfolding parse_yaml_parameters
    parse_yaml_parameters-line_of content ps blank rest e h b =
        ap (λ r. (r.0, join_with (10 ∷ []) r.1))
          (ap (parse_lines is_whitespace is_alphanumeric []) e
            ∙ parse_lines-line_of [] ps blank rest h b)
