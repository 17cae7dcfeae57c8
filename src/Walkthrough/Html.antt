-- ===== src/Walkthrough/Html.antt =====
-- outdated/mcp-server/src/walkthrough_parser.rs, `format_dialect_expression` and the `create_*_html`
-- functions. A regex of the source is the function that gives its groups.
use symposium.Prelude.{Option, some, none, List, [], ◌∷◌, ◌++◌, map, length, if◌then◌else◌, ◌==◌}
use symposium.Prelude.Text.{Text, codes, text_eq, starts_with, is_empty}
use symposium.Prelude.Assoc
use symposium.Prelude.Assoc.{text_key}
use symposium.Prelude.Decimal.{to_string}
use symposium.Ide.Ranges.{FileRange}
use symposium.Walkthrough.Elements.{symbol_def, file_range, ResolvedXmlElement, Outside}

pub record Regexes : Type 0 where
  pub search_pattern : Text → Option Text
  pub definition_symbol : Text → Option Text
  pub references_symbol : Text → Option Text
  pub lines_of : Text → Option (Text × Text × Text)

-- `unwrap_or`
abbrev pub unwrap_or : Text → Option Text → Text
unwrap_or t none = t
unwrap_or t (some u) = u

-- `replace('"', "&quot;")`
unfoldable pub escape_quotes : Text → Text
escape_quotes [] = []
escape_quotes (c ∷ s) = if c == b'"' then codes "&quot;" ++ escape_quotes s else c ∷ escape_quotes s

unfoldable pub format_dialect_expression : Regexes → Text → Text
unfolding starts_with
format_dialect_expression regexes e =
    if is_empty e
    then e
    else if starts_with e (codes "search(")
    then elim (regexes.search_pattern e) [
      | some pattern ↦ codes "/" ++ pattern ++ codes "/"
      | none ↦ e
    ]
    else if starts_with e (codes "findDefinition(")
    then elim (regexes.definition_symbol e) [
      | some symbol ↦ codes "`" ++ symbol ++ codes "`"
      | none ↦ e
    ]
    else if starts_with e (codes "findReferences(")
    then elim (regexes.references_symbol e) [
      | some symbol ↦ codes "References to `" ++ symbol ++ codes "`"
      | none ↦ e
    ]
    else if starts_with e (codes "lines(")
    then elim (regexes.lines_of e) [
      | some (path, first, final) ↦
          codes "`" ++ path ++ codes ":" ++ first ++ codes "-" ++ final ++ codes "`"
      | none ↦ e
    ]
    else e

unfoldable pub icon_emoji : Text → Text
unfolding text_eq
icon_emoji icon =
    if text_eq icon (codes "info")
    then codes "ℹ" ++ 65039 ∷ []
    else if text_eq icon (codes "lightbulb")
    then codes "💡"
    else if text_eq icon (codes "gear")
    then codes "⚙" ++ 65039 ∷ []
    else if text_eq icon (codes "warning")
    then codes "⚠" ++ 65039 ∷ []
    else if text_eq icon (codes "question")
    then codes "❓"
    else codes "💬"

unfoldable pub location_display : List FileRange → Text
unfolding to_string
location_display [] = codes "no location"
location_display (l ∷ []) = l.path ++ codes ":" ++ to_string l.start.line
location_display (l ∷ m ∷ ls) =
    codes "(" ++ to_string (length (l ∷ m ∷ ls)) ++ codes " possible locations) 🔍"

unfoldable pub action_html : (tell_agent button_text : Text) → Text
action_html tell_agent button_text =
    codes "<button class=\"action-button\" data-tell-agent=\""
    ++ tell_agent
    ++ codes "\" style=\"background-color: var(--vscode-button-background); color: "
    ++ codes "var(--vscode-button-foreground); border: none; padding: 8px 16px; "
    ++ codes "border-radius: 4px; cursor: pointer; margin: 8px 0; font-size: "
    ++ codes "0.9em;\">"
    ++ button_text
    ++ codes "</button>"

module _ {V U : Type 0} (outside : Outside V U) where
  -- The `filter_map` over the locations.
  unfoldable pub normalized : List V → List FileRange
  normalized [] = []
  normalized (v ∷ vs) = elim (outside.location_data v) [
    | some (file_range r) ↦ r ∷ normalized vs
    | some (symbol_def d) ↦ d.defined_at ∷ normalized vs
    | none ↦ normalized vs
  ]

  -- A location with its path relative to the base, if both can be made canonical.
  unfoldable pub relative_to : Text → FileRange → FileRange
  relative_to base l = elim (outside.canonicalize l.path) [
    | none ↦ l
    | some abs_path ↦ elim (outside.strip_path_prefix abs_path base) [
      | some rel_path ↦ record l { path = rel_path }
      | none ↦ l
    ]
  ]

  unfoldable pub relative : Option Text → List FileRange → List FileRange
  unfolding relative_to
  relative none ls = ls
  relative (some base_uri) ls = elim (outside.canonicalize base_uri) [
    | some base ↦ map (relative_to base) ls
    | none ↦ ls
  ]

  unfoldable pub locations_of : Option Text → V → List FileRange
  unfolding normalized relative
  locations_of base_uri resolved = elim (outside.get resolved (codes "locations")) [
    | none ↦ relative base_uri []
    | some found ↦ elim (outside.as_array found) [
      | some vs ↦ relative base_uri (normalized vs)
      | none ↦ relative base_uri []
    ]
  ]

  -- `get(field).and_then(as_str).unwrap_or(otherwise)`
  abbrev str_field : V → Text → Text → Text
  str_field resolved field otherwise = elim (outside.get resolved field) [
    | some v ↦ unwrap_or otherwise (outside.as_str v)
    | none ↦ otherwise
  ]

  unfoldable pub comment_data : Text → List FileRange → Text → V
  comment_data uuid locations content = outside.object (
      (codes "id", outside.string (codes "comment-" ++ uuid))
      ∷ (codes "locations", outside.array (map outside.range_value locations))
      ∷ (codes "comment", outside.array (outside.string content ∷ []))
      ∷ [])

  unfoldable comment_html : (comment_data_escaped icon expression display content : Text) → Text
  comment_html comment_data_escaped icon expression display content =
      codes "<div class=\"comment-item\" data-comment=\""
      ++ comment_data_escaped
      ++ codes "\" style=\"cursor: pointer; border: 1px solid "
      ++ codes "var(--vscode-panel-border); border-radius: 4px; padding: 8px; margin: "
      ++ codes "8px 0; background-color: var(--vscode-editor-background);\">\n"
      ++ codes "                <div style=\"display: flex; align-items: flex-start;\">\n"
      ++ codes "                    <div class=\"comment-icon\" style=\"margin-right: "
      ++ codes "8px; font-size: 16px;\">"
      ++ icon
      ++ codes "</div>\n"
      ++ codes "                    <div class=\"comment-content\" style=\"flex: 1;\">\n"
      ++ codes "                        <div class=\"comment-expression\" "
      ++ codes "style=\"display: block; color: var(--vscode-textLink-foreground); "
      ++ codes "font-family: var(--vscode-editor-font-family); font-size: 1.0em; "
      ++ codes "font-weight: 500; margin-bottom: 6px; text-decoration: underline;\">"
      ++ expression
      ++ codes "</div>\n"
      ++ codes "                        <div class=\"comment-locations\" "
      ++ codes "style=\"font-weight: 500; color: var(--vscode-textLink-foreground); "
      ++ codes "margin-bottom: 4px; font-family: var(--vscode-editor-font-family); "
      ++ codes "font-size: 0.9em;\">"
      ++ display
      ++ codes "</div>\n"
      ++ codes "                        <div class=\"comment-text\" style=\"color: "
      ++ codes "var(--vscode-foreground); font-size: 0.9em;\">"
      ++ content
      ++ codes "</div>\n"
      ++ codes "                    </div>\n"
      ++ codes "                </div>\n"
      ++ codes "            </div>"

  unfoldable pub create_comment_html : Regexes → Option Text → ResolvedXmlElement V → U → Text × U
  unfolding comment_html comment_data locations_of escape_quotes icon_emoji
      format_dialect_expression location_display Assoc.get
  create_comment_html regexes base_uri resolved u =
      let locations = locations_of base_uri resolved.resolved_data in
      let (uuid, v) = outside.generate_uuid u in
      let encoded =
        unwrap_or [] (outside.to_string (comment_data uuid locations resolved.content)) in
      let icon = unwrap_or (codes "comment") (Assoc.get (codes "icon") resolved.attributes) in
      let expression = str_field resolved.resolved_data (codes "dialect_expression") [] in
      (
        comment_html (escape_quotes encoded) (icon_emoji icon)
            (format_dialect_expression regexes expression) (location_display locations)
            resolved.content,
        v,
      )

  unfoldable pub create_action_html : ResolvedXmlElement V → Text
  unfolding escape_quotes action_html Assoc.get
  create_action_html resolved =
      action_html (escape_quotes resolved.content)
        (unwrap_or (codes "Action") (Assoc.get (codes "button") resolved.attributes))

  unfoldable pub create_gitdiff_html : ResolvedXmlElement V → Text
  create_gitdiff_html resolved =
      codes "<div class=\"gitdiff-container\" style=\"border: 1px solid "
      ++ codes "var(--vscode-panel-border); border-radius: 4px; margin: 8px 0; "
      ++ codes "background-color: var(--vscode-editor-background);\">\n"
      ++ codes "                <div style=\"padding: 12px; color: "
      ++ codes "var(--vscode-descriptionForeground);\">GitDiff rendering: "
      ++ str_field resolved.resolved_data (codes "range") (codes "unknown")
      ++ codes "</div>\n"
      ++ codes "            </div>"

  unfoldable pub create_mermaid_html : ResolvedXmlElement V → Text
  create_mermaid_html resolved = codes "<mermaid>" ++ resolved.content ++ codes "</mermaid>"
