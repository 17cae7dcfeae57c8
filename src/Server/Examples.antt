-- ===== src/Server/Examples.antt =====
-- The theorems about the MCP server at concrete files and calls.
use symposium.Prelude.{
  ◌+◌, ◌==◌, ◌||◌, Bool, true, false, List, [], ◌∷◌, ◌++◌, map, none, some, All, Elem, ok, err, ◌≡◌,
  ◌≢◌, ◌↔◌, refl, arith,
}
use symposium.Prelude.Text.{Text, codes, lines, starts_with}
use symposium.Prelude.Assoc
use symposium.Prelude.Assoc.{text_key}
use symposium.Eg.Search.{
  Match, Directory, readable, nil, sub_directory, file, search_file, search_crate,
}
use symposium.Eg.Search.Contexts.{matching}
use symposium.Eg.Search.Visited.{directory_files, search_of, search_crate_eq}
use symposium.Ipc.Handle.{Outside, Exchange, timed_out}
use symposium.Ipc.Communicator.{IpcCommunicator}
use symposium.Server.Guidance.{
  GuidanceFiles, Strings, Resource, generate_resources, read_resource, not_found,
  parse_yaml_metadata,
}
use symposium.Server.Guidance.Written.{Spaces, parse_yaml_metadata-front_matter}
use symposium.Server.Guidance.Listed.{read_resource_iff}
use symposium.Server.Crates.Reported.{IsReport, search_file-IsReport}

-- ASCII only.
abbrev strings : Strings
strings = record {
  from_utf8 = λ bytes. some bytes;
  from_utf8_lossy = λ bytes. bytes;
  is_whitespace = λ c. c == b' ' || c == 10;
}

abbrev files : GuidanceFiles
files =
    (codes "walkthrough-format.md", codes "w")
    ∷ (codes "coding-guidelines.md", codes "c")
    ∷ (codes "mcp-tool-usage-suggestions.md", codes "m")
    ∷ (codes "socrates.md", codes "s")
    ∷ []

spaces : Spaces strings.is_whitespace
spaces = record { space = refl; quote_visible = refl; letters_visible = λ c h. ground (arith, h) }

parse_yaml_metadata-front_matter_example :
    parse_yaml_metadata strings.is_whitespace (
      codes "---\nname: \""
      ++ (codes "A: b"
          ++ (codes "\"\ndescription: \"" ++ (codes "" ++ (codes "\"\n---\n" ++ codes "# A\n")))))
    ≡ (some (codes "A: b"), some (codes ""))
unfolding symposium.Walkthrough.Yaml.all
parse_yaml_metadata-front_matter_example =
    parse_yaml_metadata-front_matter strings.is_whitespace spaces (codes "A: b") (codes "")
      (codes "# A\n") refl refl

read_resource_iff_example :
    ((r : Resource) × Elem r (generate_resources strings files) × (r.uri ≡ codes "socrates.md")) ↔ (
      read_resource strings files (codes "socrates.md")
      ≢ err (not_found strings files (codes "socrates.md")))
read_resource_iff_example = read_resource_iff strings files (codes "socrates.md")

abbrev outside : Outside
outside = record {
  serde = record {
    Value = Text;
    response_from = λ t. none;
    store_reference_from = λ t. none;
    response_to = λ p. none;
    polo_to = none;
  };
  null = codes "null";
  to_value = λ message. ok (codes "{}");
  deserialize = λ message t. err (codes "not read");
  parse_str = λ t. some t;
  send_error = codes "channel closed";
  recv_error = codes "channel closed";
}

abbrev silence : Exchange Text
silence = record { fresh_message_id = codes "a"; actor_open = true; awaited = timed_out }

abbrev communicator : IpcCommunicator
communicator = record {
  dispatch_handle = record {
    sender = record { working_directory = codes "/w"; taskspace_uuid = none; shell_pid = some 42 };
  };
  terminal_shell_pid = some 42;
  test_mode = false;
}

-- A line with an `x` in front.
abbrev starts_x : Text → Bool
starts_x t = starts_with t (codes "x")

search_file-IsReport_example :
    (ms : List Match) × (search_file starts_x 1 [] (codes "a.rs" ∷ []) (ok (codes "a\nxb\nc\nd\n"))
      ≡ ok (some ms))
    × All (IsReport starts_x 1 (lines (codes "a\nxb\nc\nd\n"))) ms
    × (map (λ m. m.line_number) ms
        ≡ map (λ e. e.0 + 1) (matching starts_x 0 (lines (codes "a\nxb\nc\nd\n"))))
unfolding lines
search_file-IsReport_example =
    search_file-IsReport starts_x 1 [] (codes "a.rs" ∷ []) (codes "a\nxb\nc\nd\n") (omega arith)

-- A crate with a source and an example.
abbrev a_crate : Directory
a_crate = readable (
    file (codes "a.rs") (ok (codes "x")) (
      sub_directory (codes "examples") (readable (file (codes "b.rs") (ok (codes "x\nx")) nil))
        nil))

-- Every file is one of Rust.
search_crate_eq_example :
    search_crate (λ name. some (codes "rs")) (λ name. some name) starts_x 2 [] a_crate
    ≡ search_of starts_x 2 []
        (directory_files (λ name. some (codes "rs")) (λ name. some name) [] a_crate)
search_crate_eq_example =
    search_crate_eq starts_x 2 [] (λ name. some (codes "rs")) (λ name. some name) a_crate
