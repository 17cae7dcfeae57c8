-- ===== src/Ide/Examples.antt =====
-- The theorems about the functions of the IDE at concrete inputs.
use symposium.Prelude.{
  arith, ℕ, ◌+◌, true, false, List, [], ◌∷◌, ◌++◌, none, some, Result, ok, err, Elem, ◌≡◌, ◌↔◌,
  refl, if◌then◌else◌,
}
use symposium.Prelude.Text.{Text, codes, text_eq, starts_with, lines}
use symposium.Ide.Ranges.{FileRange, SymbolDef}
use symposium.Ide.Symbols.{Symbols, name, array, symbol_def, nil, cons, IpcClient, resolve}
use symposium.Ide.Symbols.References.{Stands, leaves, resolve-leaves}
use symposium.Ide.Lines
use symposium.Ide.Lines.{panicked}
use symposium.Ide.Lines.Adjacent.{AreJoined, execute_adjacent}
use symposium.Ide.Search
use symposium.Ide.Search.{Files, RegexCrate, Search, extension_filter}
use symposium.Ide.Search.Hits.{Found, execute-Elem}
use symposium.Ide.Links.{
  Event, text, start_link, end_link, other, MarkdownCrates, coalesce_text_events,
}
use symposium.Ide.Links.Coalesced.{flat, IsCoalesced, coalesce_text_events_lem}

abbrev place : ℕ → FileRange
place n = record {
  path = codes "a.rs";
  start = record { line = n; column = 1 };
  stop = record { line = n; column = 4 };
  content = none;
}

abbrev def : Text → SymbolDef
def n = record { name = n; kind = none; defined_at = place 1 }

-- An editor that knows every name but one, and counts its calls.
abbrev editor : IpcClient ℕ
editor = record {
  resolve_symbol_by_name = λ n calls. (
    if text_eq n (codes "Missing") then err (codes "no such symbol") else ok (def n ∷ []),
    calls + 1,
  );
  find_all_references = λ d calls. (ok (place 2 ∷ place 3 ∷ []), calls + 1);
}

abbrev symbols : Symbols
symbols = array (
    cons (name (codes "A"))
      (cons (array (cons (symbol_def (def (codes "B"))) nil)) (cons (name (codes "Missing")) nil)))

resolve-leaves_example : Stands editor (leaves symbols []) 0 (resolve editor symbols 0)
resolve-leaves_example = resolve-leaves editor symbols 0

abbrev three_lines : Text → Result Text Text
three_lines path = ok (codes "one" ++ 10 ∷ codes "let two" ++ 10 ∷ codes "three" ++ 10 ∷ [])

execute_adjacent_example : AreJoined (Lines.execute false three_lines) (codes "a.rs") 1 2 3
unfolding lines
execute_adjacent_example =
    execute_adjacent false three_lines (codes "a.rs") 1 2 3
      (codes "one" ++ 10 ∷ codes "let two" ++ 10 ∷ codes "three" ++ 10 ∷ []) refl (omega arith)
      (omega arith) (omega arith) (omega arith) (omega arith)

-- A range that begins at 0 panics in a build with overflow checks.
from_zero :
    Lines.execute true three_lines (record { path = codes "a.rs"; start = 0; stop = 2 }) ≡ panicked
unfolding Lines.execute
from_zero = refl

-- The files `a.rs` and `b.txt`, in the directory `src`; a regex matches where a line begins by it.
abbrev tree : Files
tree = record {
  is_file = λ path. text_eq path (codes "a.rs");
  is_dir = λ path. text_eq path (codes "src");
  walk = λ path. ok (codes "src", false) ∷ ok (codes "a.rs", true) ∷ ok (codes "b.txt", true) ∷ [];
  read_to_string = three_lines;
}

abbrev prefixes : RegexCrate Text
prefixes = record {
  new = λ t. ok t;
  find = λ regex line. if starts_with line regex then some (0, 3) else none;
}

abbrev lets : Text → Search.Search
lets path = record { path = path; regex = codes "let"; extension = some (codes "rs") }

abbrev let_two : FileRange
let_two = record {
  path = codes "a.rs";
  start = record { line = 2; column = 1 };
  stop = record { line = 2; column = 4 };
  content = some (codes "let two");
}

execute-Elem_example :
    Elem let_two (let_two ∷ [])
    ↔ Found tree
        (lets (codes "src"))
        (extension_filter (some (codes "rs")))
        (prefixes.find (codes "let"))
        let_two
unfolding Search.execute lines
execute-Elem_example =
    execute-Elem tree prefixes (lets (codes "src")) (codes "let") (let_two ∷ []) refl refl let_two

abbrev events : List (Event ℕ ℕ)
events =
    text []
    ∷ text (codes "see [a")
    ∷ text (codes ".rs][]")
    ∷ other 1
    ∷ start_link 0 (codes "b.rs")
    ∷ text []
    ∷ text (codes "b")
    ∷ end_link
    ∷ text []
    ∷ []

coalesce_text_events_lem_example :
    (flat (coalesce_text_events events) ≡ flat events) × IsCoalesced (coalesce_text_events events)
coalesce_text_events_lem_example = coalesce_text_events_lem events

abbrev crates : MarkdownCrates ℕ ℕ
crates = record {
  parse = λ t. events;
  cmark = λ es. [];
  inline = 0;
  combined_find_iter = λ t. [];
  combined_captures = λ t. none;
  file_and_line = λ t. none;
  is_file_name = λ t. true;
  path_and_query = λ t. none;
  path_and_lines = λ t. none;
  path_and_line = λ t. none;
  urlencode = λ t. t;
}
