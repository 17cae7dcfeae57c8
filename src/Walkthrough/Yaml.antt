-- ===== src/Walkthrough/Yaml.antt =====
-- outdated/mcp-server/src/walkthrough_parser.rs, `parse_yaml_parameters`: the lines `key: value` at the
-- top of a code block. What Unicode says of a character is `is_whitespace` and `is_alphanumeric`.
pub mod Written
use symposium.Prelude.{
  ℕ, Bool, true, false, ◌&&◌, ◌||◌, ◌==◌, Option, some, none, List, [], ◌∷◌, if◌then◌else◌,
}
use symposium.Prelude.Text.{Text, lines, join_with, trim, is_empty}
use symposium.Prelude.Assoc.{insert, text_key}

-- `split_once` at a character
unfoldable pub split_once : ℕ → Text → Option (Text × Text)
split_once d [] = none
split_once d (c ∷ s) =
    let rest = split_once d s in
    if c == d
    then some ([], s)
    else elim rest [ some (before, behind) ↦ some (c ∷ before, behind) | none ↦ none ]

-- `chars().all`
unfoldable pub all : (ℕ → Bool) → Text → Bool
all p [] = true
all p (c ∷ s) = p c && all p s

module _ (is_whitespace is_alphanumeric : ℕ → Bool) where
  abbrev pub is_key_char : ℕ → Bool
  is_key_char c = is_alphanumeric c || c == b'_' || c == b'-'

  -- `key` and `value` of a line that is a parameter.
  unfoldable pub parameter : Text → Option (Text × Text)
  unfolding split_once all
  parameter trimmed = elim (split_once b':' trimmed) [
    | some (key, value) ↦
        if all is_key_char key
        then some (trim is_whitespace key, trim is_whitespace value)
        else none
    | none ↦ none
  ]

  -- The loop, after the parameters that were found.
  unfoldable pub parse_lines : List (Text × Text) → List Text → List (Text × Text) × List Text
  unfolding parameter
  parse_lines params [] = (params, [])
  parse_lines params (line ∷ rest) =
      let trimmed = trim is_whitespace line in
      if is_empty trimmed then (params, rest) else elim (parameter trimmed) [
        | some (key, value) ↦ parse_lines (insert key value params) rest
        | none ↦ (params, line ∷ rest)
      ]

  unfoldable pub parse_yaml_parameters : Text → List (Text × Text) × Text
  unfolding parse_lines
  parse_yaml_parameters content =
      let (params, rest) = parse_lines [] (lines content) in (params, join_with (10 ∷ []) rest)
