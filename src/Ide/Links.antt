-- ===== src/Ide/Links.antt =====
-- outdated/mcp-server/src/ide.rs, `process_markdown_links` and the passes below it. The crates
-- `pulldown_cmark`, `regex` and `urlencoding` are `MarkdownCrates`: `Attributes` stands for what a link
-- has besides its address, `Other` for the events that are neither texts nor the ends of links. The
-- places of a match in a text are counted in code points.
pub mod Coalesced
use symposium.Prelude.{
  ℕ, ◌-◌, ltb, Bool, true, false, ◌&&◌, ◌||◌, not, Option, some, none, List, [], ◌∷◌, ◌++◌, map,
  length, take, drop, if◌then◌else◌,
}
use symposium.Prelude.Text.{Text, codes, starts_with, is_empty}

pub data Event (Attributes Other : Type 0) : Type 0 where
  text : Text → Event Attributes Other
  start_link : Attributes → Text → Event Attributes Other
  end_link : Event Attributes Other
  other : Other → Event Attributes Other

-- The named groups of `combined_regex`: `malformed` with its text and address, or `reference` with its
-- text.
pub data Captures : Type 0 where
  malformed : Text → Text → Captures
  reference : Text → Captures

-- A regex of the source is the function that gives its groups. `inline` is an inline link without a
-- title and an identifier.
pub record MarkdownCrates (Attributes Other : Type 0) : Type 0 where
  pub parse : Text → List (Event Attributes Other)
  pub cmark : List (Event Attributes Other) → Text
  pub inline : Attributes
  pub combined_find_iter : Text → List (ℕ × ℕ)
  pub combined_captures : Text → Option Captures
  pub file_and_line : Text → Option (Text × Text)  -- `^([^:]+\.[a-z]+):(\d+)$`
  pub is_file_name : Text → Bool  -- `^[^:]+\.[a-z]+$`
  pub path_and_query : Text → Option (Text × Text)  -- `^([^\s\[\]()]+)\?(.+)$`
  pub path_and_lines : Text → Option (Text × Text × Text)  -- `^([^\s\[\]()]+)#L(\d+)-L(\d+)$`
  pub path_and_line : Text → Option (Text × Text)  -- `^([^\s\[\]()]+)#L(\d+)$`
  pub urlencode : Text → Text

-- `contains`
unfoldable pub contains : Text → Text → Bool
unfolding starts_with
contains [] p = starts_with [] p
contains (c ∷ s) p = starts_with (c ∷ s) p || contains s p

-- `text[from..to]`
abbrev slice : Text → ℕ → ℕ → Text
slice t from to = take (to - from) (drop from t)

module _ {Attributes Other : Type 0} where
  -- The text that was accumulated, as an event.
  abbrev pub flush : Text → List (Event Attributes Other) → List (Event Attributes Other)
  flush [] result = result
  flush (c ∷ t) result = text (c ∷ t) ∷ result

  unfoldable coalesce : Text → List (Event Attributes Other) → List (Event Attributes Other)
  coalesce accumulated [] = flush accumulated []
  coalesce accumulated (text t ∷ events) = coalesce (accumulated ++ t) events
  coalesce accumulated (start_link a url ∷ events) =
      flush accumulated (start_link a url ∷ coalesce [] events)
  coalesce accumulated (end_link ∷ events) = flush accumulated (end_link ∷ coalesce [] events)
  coalesce accumulated (other o ∷ events) = flush accumulated (other o ∷ coalesce [] events)

  unfoldable pub coalesce_text_events :
      List (Event Attributes Other) → List (Event Attributes Other)
  unfolding coalesce
  coalesce_text_events events = coalesce [] events

module _ {Attributes Other : Type 0} (crates : MarkdownCrates Attributes Other) where
  abbrev link_events : Text → Text → List (Event Attributes Other)
  link_events url link_text = start_link crates.inline url ∷ text link_text ∷ end_link ∷ []

  -- What `handle_match` pushes.
  unfoldable handle_match : Captures → List (Event Attributes Other)
  handle_match (malformed link_text url) = link_events url link_text
  handle_match (reference link_text) = elim (crates.file_and_line link_text) [
    | some (filename, line_num) ↦
        link_events (codes "dialectic:" ++ filename ++ codes "#L" ++ line_num) link_text
    | none ↦
        if crates.is_file_name link_text
        then link_events (codes "dialectic:" ++ link_text) link_text
        else text (codes "[" ++ link_text ++ codes "][]") ∷ []
  ]

  -- The loop over the matches, after `last_end`.
  unfoldable process_regex_matches : Text → ℕ → List (ℕ × ℕ) → List (Event Attributes Other)
  unfolding handle_match
  process_regex_matches t last_end [] =
      if ltb last_end (length t) then text (drop last_end t) ∷ [] else []
  process_regex_matches t last_end ((from, to) ∷ matches) =
      (if ltb last_end from then text (slice t last_end from) ∷ [] else [])
      ++ elim (crates.combined_captures (slice t from to)) [
        | some caps ↦ handle_match caps
        | none ↦ []
      ]
      ++ process_regex_matches t to matches

  unfoldable process_malformed_links_in_events :
      List (Event Attributes Other) → List (Event Attributes Other)
  unfolding process_regex_matches
  process_malformed_links_in_events [] = []
  process_malformed_links_in_events (text t ∷ events) =
      process_regex_matches t 0 (crates.combined_find_iter t)
      ++ process_malformed_links_in_events events
  process_malformed_links_in_events (start_link a url ∷ events) =
      start_link a url ∷ process_malformed_links_in_events events
  process_malformed_links_in_events (end_link ∷ events) =
      end_link ∷ process_malformed_links_in_events events
  process_malformed_links_in_events (other o ∷ events) =
      other o ∷ process_malformed_links_in_events events

  unfoldable pub convert_url_to_dialectic : Text → Text
  unfolding contains starts_with
  convert_url_to_dialectic url = elim (crates.path_and_query url) [
    | some (path, query) ↦ codes "dialectic:" ++ (path ++ codes "?regex=" ++ crates.urlencode query)
    | none ↦ elim (crates.path_and_lines url) [
      | some (path, first, final) ↦
          codes "dialectic:" ++ (path ++ codes "?line=" ++ first ++ codes "-" ++ final)
      | none ↦ elim (crates.path_and_line url) [
        | some (path, line) ↦ codes "dialectic:" ++ (path ++ codes "?line=" ++ line)
        | none ↦
            if not (contains url (codes "://")) && not (starts_with url (codes "dialectic:"))
            then codes "dialectic:" ++ url
            else url
      ]
    ]
  ]

  -- The third pass, on one event.
  unfoldable pub convert_event : Event Attributes Other → Event Attributes Other
  unfolding convert_url_to_dialectic
  convert_event (start_link a url) =
      if starts_with url (codes "dialectic:")
      then start_link a url
      else start_link a (convert_url_to_dialectic url)
  convert_event (text t) = text t
  convert_event end_link = end_link
  convert_event (other o) = other o

  unfoldable pub process_markdown_links : Text → Text
  unfolding coalesce_text_events process_malformed_links_in_events convert_event
  process_markdown_links markdown = crates.cmark (
      map convert_event
        (process_malformed_links_in_events (coalesce_text_events (crates.parse markdown))))
