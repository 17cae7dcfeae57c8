-- ===== src/Server/Guidance.antt =====
-- outdated/mcp-server/src/server.rs: the guidance files, which are resources of the server. What is built
-- into the program is a list of names and bytes.
pub mod Listed
pub mod Written
use symposium.Prelude.{
  ℕ, ◌%◌, ◌^◌, ◌==◌, Bool, Option, some, none, List, [], ◌∷◌, ◌++◌, map, length, Result, ok, err,
  if◌then◌else◌,
}
use symposium.Prelude.Text.{Text, codes, text_eq, starts_with, lines, trim, strip_prefix}
use symposium.Prelude.Assoc
use symposium.Prelude.Assoc.{text_key}
use symposium.Walkthrough.Yaml.{split_once}
use symposium.Server.Errors.{McpError, mcp_error, internal_error, resource_not_found}

abbrev pub GuidanceFiles : Type 0
GuidanceFiles = List (Text × List ℕ)

-- `String::from_utf8`, its lossy variant, and `char::is_whitespace`.
pub record Strings : Type 0 where
  pub from_utf8 : List ℕ → Option Text
  pub from_utf8_lossy : List ℕ → Text
  pub is_whitespace : ℕ → Bool

pub record Resource : Type 0 where
  pub uri : Text
  pub name : Text
  pub description : Option Text
  pub size : ℕ

-- What stands before the first occurrence of `marker`.
unfoldable pub before : (marker : Text) → Text → Option Text
unfolding starts_with
before marker [] = if starts_with [] marker then some [] else none
before marker (c ∷ s) =
    let rest = before marker s in
    if starts_with (c ∷ s) marker
    then some []
    else elim rest [ some t ↦ some (c ∷ t) | none ↦ none ]

abbrev pub Metadata : Type 0
Metadata = Option Text × Option Text

abbrev pub or_path : Option Text → Text → Text
or_path (some name) path = name
or_path none path = path

module _ (is_whitespace : ℕ → Bool) where
  -- A round of the loop: a line of the front matter, behind `found`.
  unfoldable pub metadata_line : Metadata → Text → Metadata
  unfolding split_once trim text_eq
  metadata_line found line = elim (split_once b':' line) [
    | none ↦ found
    | some (before_colon, behind_colon) ↦
        let key = trim is_whitespace before_colon in
        let value = trim (λ c. c == b'"') (trim is_whitespace behind_colon) in
        if text_eq key (codes "name")
        then (some value, found.1)
        else if text_eq key (codes "description")
        then (found.0, some value)
        else found
  ]

  unfoldable pub metadata_lines : Metadata → List Text → Metadata
  unfolding metadata_line
  metadata_lines found [] = found
  metadata_lines found (line ∷ rest) = metadata_lines (metadata_line found line) rest

  unfoldable pub parse_yaml_metadata : (content : Text) → Metadata
  unfolding strip_prefix before metadata_lines lines
  parse_yaml_metadata content = elim (strip_prefix content (codes "---\n")) [
    | none ↦ (none, none)
    | some rest ↦ elim (before (codes "\n---\n") rest) [
      | none ↦ (none, none)
      | some yaml_content ↦ metadata_lines (none, none) (lines yaml_content)
    ]
  ]

module _ (strings : Strings) (files : GuidanceFiles) where
  abbrev pub resource_of : (file_path : Text) → List ℕ → Resource
  resource_of file_path content =
      let (name, description) =
        parse_yaml_metadata strings.is_whitespace (strings.from_utf8_lossy content) in
      record {
        uri = file_path;
        name = or_path name file_path;
        description = description;
        size = length content % 2 ^ 32;
      }

  -- The loop over the paths of the files.
  unfoldable pub resources_of : List Text → List Resource
  unfolding parse_yaml_metadata Assoc.get
  resources_of [] = []
  resources_of (file_path ∷ paths) = elim (Assoc.get file_path files) [
    | some content ↦ resource_of file_path content ∷ resources_of paths
    | none ↦ resources_of paths
  ]

  unfoldable pub generate_resources : List Resource
  unfolding resources_of
  generate_resources = resources_of (map (λ e. e.0) files)

  abbrev pub not_found : (uri : Text) → McpError
  not_found uri = mcp_error resource_not_found (codes "Resource not found: " ++ uri) []

  unfoldable pub read_resource : (uri : Text) → Result McpError (Text × Text)
  unfolding Assoc.get
  read_resource uri = elim (Assoc.get uri files) [
    | none ↦ err (not_found uri)
    | some content ↦ elim (strings.from_utf8 content) [
      | none ↦
          err (mcp_error internal_error (codes "Failed to decode resource content as UTF-8") [])
      | some t ↦ ok (t, uri)
    ]
  ]
