-- ===== src/Lib.antt =====
-- Symposium: tools around coding agents that speak the Agent Client Protocol. This library models
-- parts of its Rust code and proves what they are for.
--
-- The program's parts and their files. Paths are from the root of the repository.
--
-- Ferris.antt: src/symposium-ferris, the Rust tools that an agent is given. `Error` is error.rs.
-- `Version` is crate_sources/version.rs: `resolve_version` takes the version that was asked for,
-- that of the current project, or the newest on crates.io. `Cache` is crate_sources/cache.rs:
-- `get_or_extract_crate` looks in the extraction cache, in cargo's sources and in cargo's archives
-- before it downloads. `Fetch` is crate_sources/mod.rs, which runs the two one after the other.
-- `Tools` is lib.rs with the `register` functions of crate_sources/mcp.rs and
-- rust_researcher/mod.rs. `Researcher` is rust_researcher/mod.rs: a session with a sub-agent as a
-- loop over its events.
--
-- Acp.antt: `Proxy` is src/symposium-acp-proxy/src/lib.rs, `serve` for a proxy and for an agent:
-- the chain of components before the agent is built from a configuration. `Cli` is the main.rs of
-- src/symposium-acp-proxy and of src/symposium-acp-agent, which build that configuration.
--
-- Actor.antt: the actors of outdated/mcp-server/src/actor. `Repeater` is repeater.rs: the state
-- with its subscribers, history and identifiers, one function for each message, and `run` over the
-- messages that arrive. `Messages` has the envelopes of types.rs. `Dispatch` is dispatch.rs: the
-- state with its pending replies, and `round`, one turn of the loop in `run`, over what the two
-- receivers of `select!` give it. `Reference` is reference.rs. `Daemon` is
-- outdated/mcp-server/src/daemon.rs: `Bus` is the loop that accepts connections and looks for
-- idleness, and `Client` the task of a connection, which talks to the repeater. Channels are
-- numbers, and the arguments of a round say which of them are open.
--
-- Dialect.antt: outdated/mcp-server/src/dialect/parser.rs, the language in which an agent calls the
-- functions of an editor. `Syntax` has its data, `Lexer` has `tokenize`, `Parser` has `parse_ast`
-- and `parse`, and `Grammar` describes the language that the code has without the parser. `Interpreter` is
-- outdated/mcp-server/src/dialect.rs: the evaluation of a tree, by recursion on the tree.
--
-- Ide.antt: outdated/mcp-server/src/ide.rs, what the dialect's functions do. `Ranges` has the
-- places in files, `Symbols` resolves symbols and finds references, `Lines` reads a range of lines,
-- `Search` searches files, `Comments` resolves a comment, and `Links` rewrites the links of a text.
--
-- Walkthrough.antt: outdated/mcp-server/src/walkthrough_parser.rs, markdown whose code blocks stand
-- for elements. `Yaml` reads the parameters of a block, `Elements` resolves an element by the
-- interpreter and git, `Html` writes it, and `Blocks` is the loop over the events, where the queue
-- is a list and the number of the events that were taken from it.
--
-- Git.antt: outdated/mcp-server/src/git. `Diff` is git_service.rs: the range of commits, and a diff
-- as the crate git2 calls back for its files, hunks and lines. `Comments` is comment_parser.rs.
--
-- Agents.antt: outdated/mcp-server/src/agent_manager.rs, agents in tmux sessions. The operations
-- take the manager and the state of what is outside, and give both back.
--
-- Ipc.antt: what the MCP server says to the editor. `Payloads` has the messages of types.rs, with the
-- type of the reply to each. `Project` is `extract_project_info` of ipc.rs, on a directory and its
-- ancestors. `Handle` is the handle of the dispatch actor, whose call waits for a reply, and
-- `Communicator` has the operations of `IPCCommunicator` in ipc.rs.
--
-- Server.antt: outdated/mcp-server/src/server.rs. `Taskspaces`, `Tools` and `Crates` have the tools
-- that an agent calls, `Prompt` the prompt that it starts with, `Guidance` the files that are its
-- resources, and `Errors` what a tool answers. A tool returns its answer and the requests that the
-- dispatch actor has taken. The tools call the operations of Ipc, the interpreter of Dialect, the
-- parser of Walkthrough and the search of Eg.
--
-- Eg.antt: outdated/mcp-server/src/eg. `Search` is rust/search.rs, over a tree that stands for the
-- disk, and `Crate` is rust/mod.rs with error.rs. rust/version.rs and rust/cache.rs are the same
-- code as in Ferris, whose definitions it uses.
--
-- Prelude.antt: what all of these share. `Tests` and `Lists` are Boolean tests and lists over the
-- native numbers, `Results` is Rust's `Result`, `Text` its `str` as a list of code points, `Assoc`
-- its `HashMap`, `Decimal` the notation of numbers.
--
-- How the code is modelled. A method that changes `self` takes the state and returns the new one.
-- An effect on what is outside, such as a message that is sent, is a value that is returned, in
-- order. An error is a value of `Result`, or of the `Outcome` of Dialect/Outcome.antt, where a
-- panic is a value too. An `async` function is modelled as the sequence of its steps; what it
-- awaits from outside is an argument. A file system is asked through a record, over a state `W` of
-- what is outside.
--
-- Bounds and fuel. `tokenize_from` has a unit of fuel for each character and one more, as each
-- round takes a character. `parse_ast` has two units for each token and one more, as a list of
-- arguments and a value in it each cost one before a token is taken. The theorems on termination
-- show that both are enough. `to_string` has a unit for each round of division. The history of the
-- repeater holds 1024 messages, as in the code. Time stamps wrap at 2 ^ 64.
--
-- Setup.antt: setup/src, the installer. `System` is the machine as the installer uses it: its state,
-- the commands and the disk are a parameter. `Acp`, `Vscode` and `Zed` are acp.rs, vscode.rs and
-- zed.rs, and `Main` is main.rs, which runs them in order; what they print is left out.
--
-- What stands for code outside of the repository is a parameter: semver (`Semver`, with its order
-- `IsOrd`), cargo_metadata and crates_io_api (`Registry`), the file system and the platform's
-- directories (`FileSystem`, `Dirs`), sacp's builder and its conductor (`McpServerBuilder`,
-- `Outside`), the machine of the installer (`System`), serde_json
-- (`SerdeJson`, `Serde`, `Json`), what Unicode says of characters (`Unicode`), the editor (`IpcClient`), uuid and the editor's replies
-- (`Outside` of Ipc/Handle.antt), UTF-8 (`Strings`), and regex, ignore, pulldown_cmark and urlencoding
-- (`RegexCrate`, `Files`, `MarkdownCrates`, `Regexes`, `Pulldown`, `Repository`; `Outside` of
-- Walkthrough also has git and the dialect's interpreter).
--
-- Not modelled: what only starts other programs or moves bytes (process discovery, the sockets and
-- signals of the daemon, the command line of ci, logging), the unpacking of archives
-- (`CrateExtractor` of src/symposium-ferris/src/crate_sources/extraction.rs; `get_or_extract_crate`
-- takes one as its argument `Extractor`, as in the code, and nothing is assumed of it),
-- the registration of the dialect's functions and the conversion of their arguments, the client and
-- stdio actors, the mock of the editor for tests, the start of the MCP server, and the extensions
-- in other languages. What the functions of the dialect send while a tool runs a program is not
-- followed.
pub mod Acp
pub mod Actor
pub mod Agents
pub mod Dialect
pub mod Eg
pub mod Ferris
pub mod Git
pub mod Ide
pub mod Ipc
pub mod Prelude
pub mod Server
pub mod Setup
pub mod Walkthrough
