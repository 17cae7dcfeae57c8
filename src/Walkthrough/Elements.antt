-- ===== src/Walkthrough/Elements.antt =====
-- outdated/mcp-server/src/walkthrough_parser.rs, the elements and `resolve_single_element`. What is
-- outside is `Outside`: the dialect's interpreter, git, file names and serde_json, with `V` for its
-- values.
use symposium.Prelude.{
  Bool, true, Option, some, none, List, [], ◌∷◌, ◌++◌, Result, ok, err, and_then, if◌then◌else◌,
}
use symposium.Prelude.Text.{Text, codes, is_empty}
use symposium.Prelude.Assoc.{insert, text_key}
use symposium.Ide.Ranges.{FileRange, SymbolDef}

pub data LocationData : Type 0 where
  symbol_def : SymbolDef → LocationData
  file_range : FileRange → LocationData

pub data XmlElement : Type 0 where
  comment : (location : Text) (icon : Option Text) (content : Text) → XmlElement
  git_diff : (range : Text) (exclude_unstaged exclude_staged : Bool) → XmlElement
  action : (button message : Text) → XmlElement
  mermaid : (content : Text) → XmlElement

pub record ResolvedXmlElement (V : Type 0) : Type 0 where
  pub element_type : Text
  pub attributes : List (Text × Text)
  pub resolved_data : V
  pub content : Text

pub record Outside (V U : Type 0) : Type 0 where
  -- serde_json
  pub object : List (Text × V) → V
  pub array : List V → V
  pub string : Text → V
  pub bool : Bool → V
  pub get : V → Text → Option V
  pub as_array : V → Option (List V)
  pub as_str : V → Option Text
  pub to_string : V → Option Text
  pub location_data : V → Option LocationData
  pub range_value : FileRange → V
  -- the interpreter, on another thread: the outer error is the thread's
  pub evaluate : Text → U → Result Text (Result Text V) × U
  -- `GitService::new(".")`, and the range's changes
  pub git_service : U → Result Text (Unit {0}) × U
  pub file_changes : Text → U → Result Text V × U
  -- file names
  pub canonicalize : Text → Option Text
  pub strip_path_prefix : Text → Text → Option Text
  pub generate_uuid : U → Text × U

module _ {V U : Type 0} (outside : Outside V U) where
  unfoldable pub resolve_location : Text → U → Result Text V × U
  resolve_location location u =
      if is_empty location
      then (ok (outside.object ((codes "locations", outside.array []) ∷ [])), u)
      else and_then (outside.evaluate location u) λ result v. elim result [
        | ok found ↦ (
          ok (
              outside.object (
                (codes "locations", found)
                ∷ (codes "dialect_expression", outside.string location)
                ∷ [])),
          v,
        )
        | err e ↦ (
          ok (
              outside.object (
                (codes "error", outside.string (codes "Failed to resolve location: " ++ e))
                ∷ (codes "dialect_expression", outside.string location)
                ∷ [])),
          v,
        )
      ]

  abbrev gitdiff_object : Text → Text → V → V
  gitdiff_object range field value = outside.object (
      (codes "type", outside.string (codes "gitdiff"))
      ∷ (codes "range", outside.string range)
      ∷ (field, value)
      ∷ [])

  -- Errors of git become data.
  unfoldable pub resolve_range : Text → U → V × U
  resolve_range range u =
      let (service, v) = outside.git_service u in
      elim service [
        | err e ↦ (
          gitdiff_object range (codes "error")
              (outside.string (codes "Not a git repository: " ++ e)),
          v,
        )
        | ok _ ↦
            let (changes, w) = outside.file_changes range v in
            elim changes [
              | ok files ↦ (gitdiff_object range (codes "files") files, w)
              | err e ↦ (
                gitdiff_object range (codes "error") (outside.string (codes "Git error: " ++ e)),
                w,
              )
            ]
      ]

  -- An attribute that is set where the condition holds.
  abbrev flag : Bool → Text → List (Text × Text) → List (Text × Text)
  flag set name attrs = if set then insert name (codes "true") attrs else attrs

  unfoldable pub resolve_single_element : XmlElement → U → Result Text (ResolvedXmlElement V) × U
  unfolding resolve_location resolve_range
  resolve_single_element (comment location icon content) u =
      let attrs : List (Text × Text) = elim icon [
        | some i ↦ insert (codes "icon") i []
        | none ↦ []
      ] in
      and_then (resolve_location location u) λ resolved v. (
        ok (record {
          element_type = codes "comment";
          attributes = attrs;
          resolved_data = resolved;
          content = content;
        }),
        v,
      )
  resolve_single_element (git_diff range exclude_unstaged exclude_staged) u =
      let (resolved, v) = resolve_range range u in
      let attrs =
        flag exclude_staged (codes "exclude-staged")
          (flag exclude_unstaged (codes "exclude-unstaged") []) in
      (
        ok (record {
          element_type = codes "gitdiff";
          attributes = attrs;
          resolved_data = resolved;
          content = [];
        }),
        v,
      )
  resolve_single_element (action button message) u = (
    ok (record {
      element_type = codes "action";
      attributes = insert (codes "button") button [];
      resolved_data = outside.object ((codes "button_text", outside.string button) ∷ []);
      content = message;
    }),
    u,
  )
  resolve_single_element (mermaid content) u = (
    ok (record {
      element_type = codes "mermaid";
      attributes = [];
      resolved_data = outside.object (
          (codes "type", outside.string (codes "mermaid"))
          ∷ (codes "rendered", outside.bool true)
          ∷ []);
      content = content;
    }),
    u,
  )
