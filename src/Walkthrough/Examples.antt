-- ===== src/Walkthrough/Examples.antt =====
-- The theorems about walkthroughs at a concrete text.
use symposium.Prelude.{
  ℕ, ◌+◌, Bool, ltb, ◌==◌, ◌&&◌, List, [], ◌∷◌, ◌++◌, none, some, ok, err, All, ◌≡◌, refl, arith,
}
use symposium.Prelude.Text.{Text, codes, lines, trim, trim_end, text_eq}
use symposium.Walkthrough.Yaml.{all, parse_yaml_parameters}
use symposium.Walkthrough.Yaml.Written.{Characters, insert_all, parse_yaml_parameters-line_of}
use symposium.Walkthrough.Elements.{Outside}
use symposium.Walkthrough.Html.{escape_quotes, action_html}
use symposium.Walkthrough.Blocks.{
  Event, indented, fenced, start_code_block, end_code_block, text, inline_html, other,
  WalkthroughParser, is_special_code_block, process_events_sequentially,
}
use symposium.Walkthrough.Blocks.Passed.{IsPlain, process_events_sequentially-IsPlain}
use symposium.Walkthrough.Blocks.Buttons.{process_events_sequentially-action_html}

abbrev is_space : ℕ → Bool
is_space c = c == 32

-- Lower case letters.
abbrev is_letter : ℕ → Bool
is_letter c = ltb 96 c && ltb c 123

characters : Characters is_space is_letter
characters = record {
  space = refl;
  colon_visible = refl;
  colon_sign = refl;
  keys_visible = λ c h. ground arith;
}

abbrev block : Text
block = codes "button: Run tests\n\nRun \"all\" of them\nnow\n"

parse_yaml_parameters-line_of_example : parse_yaml_parameters is_space is_letter block ≡ (
  insert_all is_space is_letter [] ((codes "button", codes "Run tests") ∷ []),
  codes "Run \"all\" of them\nnow",
)
unfolding lines all trim_end trim
parse_yaml_parameters-line_of_example =
    parse_yaml_parameters-line_of is_space is_letter characters block
      ((codes "button", codes "Run tests") ∷ []) [] (codes "Run \"all\" of them" ∷ codes "now" ∷ [])
      refl ((refl, refl, refl), tt) refl

-- JSON values are texts here, and there is neither git nor an editor.
abbrev nowhere : Outside Text ℕ
nowhere = record {
  object = λ fields. codes "{}";
  array = λ vs. codes "[]";
  string = λ t. t;
  bool = λ b. codes "true";
  get = λ v field. none;
  as_array = λ v. none;
  as_str = λ v. some v;
  to_string = λ v. some v;
  location_data = λ v. none;
  range_value = λ r. r.path;
  evaluate = λ e u. (ok (err (codes "no editor")), u + 1);
  git_service = λ u. (err (codes "no repository"), u);
  file_changes = λ range u. (err (codes "no repository"), u);
  canonicalize = λ path. some path;
  strip_path_prefix = λ path base. none;
  generate_uuid = λ u. (codes "id", u + 1);
}

abbrev parser : WalkthroughParser Text ℕ
parser = record {
  outside = nowhere;
  regexes = record {
    search_pattern = λ e. none;
    definition_symbol = λ e. none;
    references_symbol = λ e. none;
    lines_of = λ e. none;
  };
  unicode = record { is_whitespace = is_space; is_alphanumeric = is_letter };
  base_uri = none;
}

abbrev heading : List (Event ℕ)
heading =
    other 1
    ∷ text (codes "Tests")
    ∷ other 2
    ∷ start_code_block indented
    ∷ text (codes "code")
    ∷ end_code_block
    ∷ []

process_events_sequentially-action_html_example :
    process_events_sequentially parser
      (heading
        ++ start_code_block (fenced (codes " action")) ∷ text block ∷ end_code_block ∷ other 3 ∷ [])
      0
    ≡ (
      ok (
          heading
          ++ inline_html
              (action_html (escape_quotes (codes "Run \"all\" of them\nnow")) (codes "Run tests"))
            ∷ other 3
            ∷ []),
      0,
    )
unfolding lines all trim_end trim is_special_code_block
process_events_sequentially-action_html_example =
    process_events_sequentially-action_html parser (codes " action") block (codes "Run tests") []
      (codes "Run \"all\" of them" ∷ codes "now" ∷ []) heading (other 3 ∷ []) 0 characters refl
      (refl, refl, refl) refl refl (tt, (tt, (tt, (refl, (tt, (tt, tt)))))) (tt, tt)

abbrev diagram : List (Event ℕ)
diagram =
    other 1
    ∷ start_code_block (fenced (codes "mermaid"))
    ∷ text (codes "a-->b")
    ∷ end_code_block
    ∷ []

abbrev drawn : List (Event ℕ)
drawn = other 1 ∷ inline_html (codes "<mermaid>a-->b</mermaid>") ∷ []

process_events_sequentially-IsPlain_example :
    All (IsPlain {Other = ℕ} parser) drawn
    × ((w : ℕ) → process_events_sequentially parser drawn w ≡ (ok drawn, w))
unfolding process_events_sequentially trim text_eq
process_events_sequentially-IsPlain_example =
    process_events_sequentially-IsPlain parser diagram 0 drawn 0 refl
