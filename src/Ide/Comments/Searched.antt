-- ===== src/Ide/Comments/Searched.antt =====
-- A comment at the results of a search.
use symposium.Prelude.{Option, List, [], ◌∷◌, ok, err, here, ◌≡◌, refl, ◌↔◌}
use symposium.Prelude.Text.{Text, codes}
use symposium.Ide.Ranges.{FileRange}
use symposium.Ide.Search.{RegexCrate, Files, Search, extension_filter}
use symposium.Ide.Search
use symposium.Ide.Search.Hits.{Found, execute-Elem}
use symposium.Ide.Comments.{Value, search_results, locations_of, execute}

module _ {Json : Type 0} (to_string : Json → Text) where
  -- A comment at the results of a search that succeeded fails exactly if no line of a searched file
  -- matches.
  pub execute-search_results :
      (files : Files) {Regex : Type 0} (regexes : RegexCrate Regex) (s : Search) (regex : Regex)
      (results : List FileRange) (uuid : Text) (icon : Option Text) (content : List (Value Json))
      → regexes.new s.regex ≡ ok regex
      → Search.execute files regexes s ≡ ok results
      → (execute to_string uuid
            (record { location = search_results results; icon = icon; content = content })
          ≡ err (codes "Location resolved to empty search results"))
        ↔ ((r : FileRange) → ¬ Found files s (extension_filter s.extension) (regexes.find regex) r)
  unfolding execute locations_of
  execute-search_results files regexes s regex [] uuid icon content compiled h = (
    λ _ r found. elim ((execute-Elem files regexes s regex [] compiled h r).1 found) [ ],
    λ _. refl,
  )
  execute-search_results files regexes s regex (r ∷ rs) uuid icon content compiled h = (
    λ e. cc,
    λ none_found.
        absurd (none_found r ((execute-Elem files regexes s regex (r ∷ rs) compiled h r).0 here)),
  )
