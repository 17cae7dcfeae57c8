-- ===== src/Ide/Comments.antt =====
-- outdated/mcp-server/src/ide.rs, `Comment::execute`: a comment at a place that was resolved. A JSON value
-- that is no string is `Json`, which `to_string` prints; `generate_uuid` is the user data's.
pub mod Searched
use symposium.Prelude.{
  ℕ, Option, some, none, List, [], ◌∷◌, map, length, Result, ok, err, All, Elem, ◌≡◌, ◌≢◌, refl,
  ◌↔◌, arith,
}
use symposium.Prelude.Text.{Text, codes}
use symposium.Ide.Ranges.{FileRange, SymbolDef}

pub data ResolvedLocation : Type 0 where
  file_range : FileRange → ResolvedLocation
  search_results : List FileRange → ResolvedLocation
  symbol_defs : List SymbolDef → ResolvedLocation

pub data Value (Json : Type 0) : Type 0 where
  string : Text → Value Json
  other : Json → Value Json

pub record Comment (Json : Type 0) : Type 0 where
  pub location : ResolvedLocation
  pub icon : Option Text
  pub content : List (Value Json)

-- The elements that a comment is resolved to.
pub data ResolvedElement : Type 0 where
  markdown : Text → ResolvedElement

pub record ResolvedComment : Type 0 where
  pub id : Text
  pub locations : List FileRange
  pub icon : Option Text
  pub comment : List ResolvedElement

unfoldable pub locations_of : ResolvedLocation → List FileRange
locations_of (file_range range) = range ∷ []
locations_of (symbol_defs defs) = map (λ d. d.defined_at) defs
locations_of (search_results results) = results

module _ {Json : Type 0} (to_string : Json → Text) where
  unfoldable pub resolve_content : List (Value Json) → List ResolvedElement
  resolve_content [] = []
  resolve_content (string t ∷ content) = markdown t ∷ resolve_content content
  resolve_content (other j ∷ content) = markdown (to_string j) ∷ resolve_content content

  unfoldable pub execute : Text → Comment Json → Result Text ResolvedComment
  unfolding locations_of resolve_content
  execute uuid c = elim (locations_of c.location) [
    | [] ↦ err (codes "Location resolved to empty search results")
    | range ∷ ranges ↦ ok (record {
      id = uuid;
      locations = range ∷ ranges;
      icon = c.icon;
      comment = resolve_content c.content;
    })
  ]
