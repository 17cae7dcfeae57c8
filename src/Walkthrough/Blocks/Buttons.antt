-- ===== src/Walkthrough/Blocks/Buttons.antt =====
-- What a code block of the language `action` becomes.
use symposium.Prelude.{
  ℕ, zero, Bool, true, false, Option, some, none, List, [], ◌∷◌, ◌++◌, Result, ok, and_then, All,
  ◌≡◌, refl, ap, ◌∙◌,
}
use symposium.Prelude.Text.{Text, codes, trim, text_eq, lines, join_with}
use symposium.Prelude.Assoc
use symposium.Prelude.Assoc.{text_key}
use symposium.Walkthrough.Yaml.Written.{
  Characters, IsParameter, line_of, parse_yaml_parameters-line_of,
}
use symposium.Walkthrough.Elements.{XmlElement, action, resolve_single_element}
use symposium.Walkthrough.Html.{unwrap_or, escape_quotes, action_html, create_action_html}
use symposium.Walkthrough.Blocks.{
  CodeBlockKind, fenced, Event, start_code_block, end_code_block, text, inline_html,
  WalkthroughParser, collect_content, is_special_code_block, element_of, element_html,
  process_code_block, process_events, process_events_sequentially,
}
use symposium.Walkthrough.Blocks.Passed.{IsPlain, put, process_events-plain, process_events_plain}

module _ {V U : Type 0} (p : WalkthroughParser V U) where
  -- The element of an action with these parameters and this message.
  abbrev action_of : List (Text × Text) × Text → Option XmlElement
  action_of r = some (action (unwrap_or (codes "Action") (Assoc.get (codes "button") r.0)) r.1)

  element_of-action :
      (content button blank : Text) (message : List Text)
      → Characters p.unicode.is_whitespace p.unicode.is_alphanumeric
      → IsParameter p.unicode.is_whitespace p.unicode.is_alphanumeric (codes "button", button)
      → trim p.unicode.is_whitespace blank ≡ []
      → lines content
        ≡ line_of p.unicode.is_whitespace p.unicode.is_alphanumeric (codes "button", button)
          ∷ blank
          ∷ message
      → element_of p (codes "action") content ≡ some (action button (join_with (10 ∷ []) message))
  unfolding element_of text_eq Assoc.get Assoc.insert
  element_of-action content button blank message chars h b e = ap action_of (
      parse_yaml_parameters-line_of p.unicode.is_whitespace p.unicode.is_alphanumeric chars content
        ((codes "button", button) ∷ []) blank message e (h, tt) b)

  element_html-action :
      (button message : Text) (u : U)
      → element_html p (action button message) u
        ≡ (ok (action_html (escape_quotes message) button), u)
  unfolding element_html resolve_single_element create_action_html Assoc.get Assoc.insert text_eq
  element_html-action button message u = refl

  is_special-action :
      (lang : Text)
      → trim p.unicode.is_whitespace lang ≡ codes "action"
      → is_special_code_block p.unicode (fenced lang) ≡ true
  unfolding is_special_code_block text_eq
  is_special-action lang e = rw (e) refl

module _ {V U Other : Type 0} (p : WalkthroughParser V U) where
  -- What becomes of a block of two events, once its element is known.
  abbrev put_element : U → Option XmlElement → Result Text (List (Event Other) × ℕ) × U
  put_element u o = elim o [
    | none ↦ (ok ([], 2), u)
    | some e ↦ and_then (element_html p e u) λ html v. (ok (inline_html html ∷ [], 2), v)
  ]

  process_code_block-action :
      (lang content button message : Text) (behind : List (Event Other)) (u : U)
      → trim p.unicode.is_whitespace lang ≡ codes "action"
      → element_of p (codes "action") content ≡ some (action button message)
      → process_code_block p (fenced lang) (text content ∷ end_code_block ∷ behind) u
        ≡ (ok (inline_html (action_html (escape_quotes message) button) ∷ [], 2), u)
  unfolding process_code_block collect_content
  process_code_block-action lang content button message behind u e e' =
      ap (λ l. put_element u (element_of p l content)) e
      ∙ ap (put_element u) e'
      ∙ ap (λ r. and_then r λ html v. (ok (inline_html html ∷ [], 2), v))
          (element_html-action p button message u)

  process_events-append :
      (before events : List (Event Other)) (u : U) (out : List (Event Other))
      → All (IsPlain p) before
      → process_events p zero events u ≡ (ok out, u)
      → process_events p zero (before ++ events) u ≡ (ok (before ++ out), u)
  process_events-append [] events u out h e = e
  process_events-append (b ∷ before) events u out h e =
      process_events-plain p b (before ++ events) u h.0
      ∙ ap (put p b) (process_events-append before events u out h.1 e)

  -- The rest of the loop behind a block, and the loop at the start of one.
  abbrev behind_block :
      List (Event Other)
      → Result Text (List (Event Other) × ℕ) × U
      → Result Text (List (Event Other)) × U
  behind_block events r =
      and_then r
        λ block v. and_then (process_events p block.1 events v) λ rest w. (ok (block.0 ++ rest), w)

  abbrev at_block :
      CodeBlockKind → List (Event Other) → U → Bool → Result Text (List (Event Other)) × U
  at_block kind events u true = behind_block events (process_code_block p kind events u)
  at_block kind events u false = put p (start_code_block kind) (process_events p zero events u)

  process_events-action :
      (lang content button message : Text) (behind : List (Event Other)) (u : U)
      → trim p.unicode.is_whitespace lang ≡ codes "action"
      → element_of p (codes "action") content ≡ some (action button message)
      → All (IsPlain p) behind
      → process_events p zero
          (start_code_block (fenced lang) ∷ text content ∷ end_code_block ∷ behind)
          u
        ≡ (ok (inline_html (action_html (escape_quotes message) button) ∷ behind), u)
  unfolding process_events
  process_events-action lang content button message behind u e e' h =
      let events : List (Event Other) = text content ∷ end_code_block ∷ behind in
      ap (at_block (fenced lang) events u) (is_special-action p lang e)
      ∙ ap (behind_block events)
          (process_code_block-action lang content button message behind u e e')
      ∙ ap (put p (inline_html (action_html (escape_quotes message) button)))
          (process_events_plain p behind u h)

  -- A block of the language `action`, with one parameter `button` that has a value without space
  -- around it, then a blank line and a message, among events that start no block for an element,
  -- becomes the HTML of a button with this label and with the message, in which the double quotes are
  -- escaped. The other events and the state stay as they are.
  pub process_events_sequentially-action_html :
      (lang content button blank : Text) (message : List Text) (before behind : List (Event Other))
      (u : U)
      → Characters p.unicode.is_whitespace p.unicode.is_alphanumeric
      → trim p.unicode.is_whitespace lang ≡ codes "action"
      → IsParameter p.unicode.is_whitespace p.unicode.is_alphanumeric (codes "button", button)
      → trim p.unicode.is_whitespace blank ≡ []
      → lines content
        ≡ line_of p.unicode.is_whitespace p.unicode.is_alphanumeric (codes "button", button)
          ∷ blank
          ∷ message
      → All (IsPlain p) before
      → All (IsPlain p) behind
      → process_events_sequentially p
          (before ++ start_code_block (fenced lang) ∷ text content ∷ end_code_block ∷ behind)
          u
        ≡ (
          ok (
              before
              ++ inline_html (action_html (escape_quotes (join_with (10 ∷ []) message)) button)
                ∷ behind),
          u,
        )
  unfolding process_events_sequentially
  process_events_sequentially-action_html lang content button blank message before behind u chars e
        h b e' plain plain' =
      process_events-append before
        (start_code_block (fenced lang) ∷ text content ∷ end_code_block ∷ behind) u _ plain
        (process_events-action lang content button (join_with (10 ∷ []) message) behind u e
          (element_of-action p content button blank message chars h b e') plain')
