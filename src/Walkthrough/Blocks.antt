-- ===== src/Walkthrough/Blocks.antt =====
-- outdated/mcp-server/src/walkthrough_parser.rs, `process_code_block`, `process_events_sequentially` and
-- `parse_and_normalize`. The crate pulldown_cmark gives the events and prints them; `Other` stands for
-- the events that the code passes on.
pub mod Passed
pub mod Buttons
use symposium.Prelude.{
  ℕ, zero, suc, ◌+◌, Bool, true, false, ◌||◌, Option, some, none, List, [], ◌∷◌, ◌++◌, Result, ok,
  err, and_then, if◌then◌else◌,
}
use symposium.Prelude.Text.{Text, codes, text_eq, trim}
use symposium.Prelude.Assoc
use symposium.Prelude.Assoc.{text_key}
use symposium.Walkthrough.Yaml.{parse_yaml_parameters}
use symposium.Walkthrough.Elements.{
  XmlElement, comment, git_diff, action, mermaid, ResolvedXmlElement, Outside,
  resolve_single_element,
}
use symposium.Walkthrough.Html.{
  Regexes, unwrap_or, create_comment_html, create_action_html, create_gitdiff_html,
  create_mermaid_html,
}

pub data CodeBlockKind : Type 0 where
  indented : CodeBlockKind
  fenced : Text → CodeBlockKind

pub data Event (Other : Type 0) : Type 0 where
  start_code_block : CodeBlockKind → Event Other
  end_code_block : Event Other
  text : Text → Event Other
  inline_html : Text → Event Other
  other : Other → Event Other

pub record Unicode : Type 0 where
  pub is_whitespace : ℕ → Bool
  pub is_alphanumeric : ℕ → Bool

pub record Pulldown (Other : Type 0) : Type 0 where
  pub parse : Text → List (Event Other)
  pub push_html : List (Event Other) → Text

-- `is_some`
abbrev is_some : Option Text → Bool
is_some none = false
is_some (some t) = true

-- The content of a code block, behind `content`, and how many events are taken from the queue. An
-- event that does not belong there stays in it.
unfoldable pub collect_content : {Other : Type 0} → Text → List (Event Other) → Text × ℕ
collect_content content [] = (content, 0)
collect_content content (text t ∷ events) =
    let (rest, taken) = collect_content (content ++ t) events in (rest, taken + 1)
collect_content content (end_code_block ∷ events) = (content, 1)
collect_content content (start_code_block kind ∷ events) = (content, 0)
collect_content content (inline_html t ∷ events) = (content, 0)
collect_content content (other o ∷ events) = (content, 0)

unfoldable pub is_special_code_block : Unicode → CodeBlockKind → Bool
unfolding trim text_eq
is_special_code_block unicode indented = false
is_special_code_block unicode (fenced lang) =
    let l = trim unicode.is_whitespace lang in
    text_eq l (codes "mermaid")
    || text_eq l (codes "comment")
    || text_eq l (codes "gitdiff")
    || text_eq l (codes "action")

-- The parser: its surroundings and `base_uri`.
pub record WalkthroughParser (V U : Type 0) : Type 0 where
  pub outside : Outside V U
  pub regexes : Regexes
  pub unicode : Unicode
  pub base_uri : Option Text

module _ {V U : Type 0} (p : WalkthroughParser V U) where
  -- The HTML of an element.
  unfoldable pub element_html : XmlElement → U → Result Text Text × U
  unfolding resolve_single_element create_comment_html create_action_html create_gitdiff_html
      create_mermaid_html
  element_html e u = and_then (resolve_single_element p.outside e u) λ resolved v. elim e [
    | comment location icon content ↦
        let (html, w) = create_comment_html p.outside p.regexes p.base_uri resolved v in
        (ok html, w)
    | git_diff range exclude_unstaged exclude_staged ↦
        (ok (create_gitdiff_html p.outside resolved), v)
    | action button message ↦ (ok (create_action_html p.outside resolved), v)
    | mermaid content ↦ (ok (create_mermaid_html p.outside resolved), v)
  ]

  -- The element that a code block with this language and content stands for.
  unfoldable pub element_of : (element_type content : Text) → Option XmlElement
  unfolding parse_yaml_parameters text_eq Assoc.get
  element_of element_type content =
      if text_eq element_type (codes "mermaid")
      then some (mermaid content)
      else let (params, remaining_content) =
          parse_yaml_parameters p.unicode.is_whitespace p.unicode.is_alphanumeric content in
        if text_eq element_type (codes "comment")
        then some (
            comment (unwrap_or [] (Assoc.get (codes "location") params))
              (Assoc.get (codes "icon") params) remaining_content)
        else if text_eq element_type (codes "gitdiff")
        then some (
            git_diff (unwrap_or [] (Assoc.get (codes "range") params))
              (is_some (Assoc.get (codes "exclude-unstaged") params)
                || is_some (Assoc.get (codes "exclude_unstaged") params))
              (is_some (Assoc.get (codes "exclude-staged") params)
                || is_some (Assoc.get (codes "exclude_staged") params)))
        else if text_eq element_type (codes "action")
        then some (
            action (unwrap_or (codes "Action") (Assoc.get (codes "button") params))
              remaining_content)
        else none

  -- What is put out for a block, and how many of the events behind its start are taken.
  unfoldable pub process_code_block :
      {Other : Type 0}
      → CodeBlockKind
      → List (Event Other)
      → U
      → Result Text (List (Event Other) × ℕ) × U
  unfolding element_html element_of collect_content
  process_code_block indented events u = (ok ([], 0), u)
  process_code_block (fenced lang) events u =
      let (content, taken) = collect_content [] events in
      elim (element_of (trim p.unicode.is_whitespace lang) content) [
        | none ↦ (ok ([], taken), u)
        | some e ↦ and_then (element_html e u) λ html v. (ok (inline_html html ∷ [], taken), v)
      ]

  -- The loop over the queue, of which `taken` events have been taken already.
  unfoldable process_events :
      {Other : Type 0} (taken : ℕ) → List (Event Other) → U → Result Text (List (Event Other)) × U
  unfolding process_code_block is_special_code_block
  process_events taken [] u = (ok [], u)
  process_events (suc taken) (e ∷ events) u = process_events taken events u
  process_events zero (start_code_block kind ∷ events) u =
      elim (is_special_code_block p.unicode kind) [
        | true ↦ and_then (process_code_block kind events u) λ block v.
            and_then (process_events block.1 events v) λ rest w. (ok (block.0 ++ rest), w)
        | false ↦
            and_then (process_events zero events u) λ rest w. (ok (start_code_block kind ∷ rest), w)
      ]
  process_events zero (end_code_block ∷ events) u =
      and_then (process_events zero events u) λ rest w. (ok (end_code_block ∷ rest), w)
  process_events zero (text t ∷ events) u =
      and_then (process_events zero events u) λ rest w. (ok (text t ∷ rest), w)
  process_events zero (inline_html t ∷ events) u =
      and_then (process_events zero events u) λ rest w. (ok (inline_html t ∷ rest), w)
  process_events zero (other o ∷ events) u =
      and_then (process_events zero events u) λ rest w. (ok (other o ∷ rest), w)

  unfoldable pub process_events_sequentially :
      {Other : Type 0} → List (Event Other) → U → Result Text (List (Event Other)) × U
  unfolding process_events
  process_events_sequentially events u = process_events 0 events u

  unfoldable pub parse_and_normalize :
      {Other : Type 0} → Pulldown Other → Text → U → Result Text Text × U
  unfolding process_events_sequentially
  parse_and_normalize pulldown content u =
      and_then (process_events_sequentially (pulldown.parse content) u)
        λ processed v. (ok (pulldown.push_html processed), v)
