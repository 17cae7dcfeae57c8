-- ===== src/Ipc/Project.antt =====
-- outdated/mcp-server/src/ipc.rs, `extract_project_info`: the project and the taskspace that a directory
-- belongs to. `Uuid::parse_str`, with the printing of what it returns, is `parse_str`.
pub mod Found
use symposium.Prelude.{Option, some, none, List, [], ◌∷◌, ◌++◌, Result, ok, err, if◌then◌else◌}
use symposium.Prelude.Text.{Text, codes, strip_prefix, ends_with}

pub data IpcError : Type 0 where
  missing_environment_variable not_connected timeout channel_closed : IpcError
  connection_failed : (path source : Text) → IpcError
  serialization_error write_error send_error other : Text → IpcError

-- A directory: its path, and its `file_name` where that is UTF-8.
pub record Directory : Type 0 where
  pub path : Text
  pub file_name : Option Text

abbrev pub or_last : Option Text → Option Text → Option Text
or_last (some uuid) last_uuid = some uuid
or_last none last_uuid = last_uuid

unfoldable pub project_of : Directory → Option Text → Result IpcError (Text × Text)
project_of dir (some uuid) = ok (dir.path, uuid)
project_of dir none = err (other (codes "No task-$UUID directory found before reaching .symposium"))

module _ (parse_str : Text → Option Text) where
  -- The id of a task directory.
  unfoldable pub task_uuid : Text → Option Text
  unfolding strip_prefix
  task_uuid dir_name = elim (strip_prefix dir_name (codes "task-")) [
    | some uuid_part ↦ parse_str uuid_part
    | none ↦ none
  ]

  -- The loop, on a directory and its ancestors.
  unfoldable pub climb : Option Text → List Directory → Result IpcError (Text × Text)
  unfolding task_uuid project_of ends_with
  climb last_uuid [] = err (other (codes "No .symposium directory found in directory tree"))
  climb last_uuid (dir ∷ parents) = elim dir.file_name [
    | none ↦ climb last_uuid parents
    | some dir_name ↦
        let last = or_last (task_uuid dir_name) last_uuid in
        let rest = climb last parents in
        if ends_with dir_name (codes ".symposium") then project_of dir last else rest
  ]

  -- The current directory comes with its ancestors, nearest first.
  unfoldable pub extract_project_info : Result Text (List Directory) → Result IpcError (Text × Text)
  unfolding climb
  extract_project_info (err e) =
      err (other (codes "Failed to get current working directory: " ++ e))
  extract_project_info (ok dirs) = climb none dirs
