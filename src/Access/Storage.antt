-- ===== src/Access/Storage.antt =====
-- `LogFileStorage` of src/storage.py. A storage is its configured directory, `root or LOGS_DIR`,
-- and the repository's root; `resolve` is the file system's.
pub mod Names
use mcp_log_server.Prelude.{Option, if◌then◌else◌, none, some, ◌||◌}
use mcp_log_server.Prelude.Result.{Result, err, ok}
use mcp_log_server.Prelude.Utf8.{Text, codes}
use mcp_log_server.Access.Paths.{
  FilePath, as_posix, goes_up, is_absolute, join_path, path_of, relative_to,
}

pub record LogFileStorage : Type 0 where
  pub directory : FilePath
  pub repository_root : FilePath

-- The messages of ValueError.
pub data StorageError : Type 0 where
  unsafe_name : StorageError
  outside_storage : StorageError

-- `resolve_repo_path`
unfoldable pub resolve_repo_path : FilePath → FilePath → FilePath
resolve_repo_path repository_root p = if is_absolute p then p else join_path repository_root p

-- `location`
unfoldable pub location : LogFileStorage → FilePath
unfolding resolve_repo_path
location s = resolve_repo_path s.repository_root s.directory

-- `workflow_path`
unfoldable pub workflow_path : LogFileStorage → FilePath
workflow_path s = join_path (location s) (path_of (codes "workflow"))

-- `workflow_latest_dir`
unfoldable pub workflow_latest_dir : LogFileStorage → Text → FilePath
workflow_latest_dir s project =
    join_path (join_path (workflow_path s) (path_of project)) (path_of (codes "latest"))

-- `workflow_archive_dir`
unfoldable pub workflow_archive_dir : LogFileStorage → Text → FilePath
workflow_archive_dir s project =
    join_path (join_path (workflow_path s) (path_of project)) (path_of (codes "archive"))

-- `workflow_snapshot_paths`
unfoldable pub workflow_snapshot_paths : LogFileStorage → Text → FilePath × FilePath
workflow_snapshot_paths s project = (workflow_latest_dir s project, workflow_archive_dir s project)

-- `session_path`
unfoldable pub session_path : LogFileStorage → FilePath
session_path s = join_path (location s) (path_of (codes "sessions"))

-- `session_project_dir`
unfoldable pub session_project_dir : LogFileStorage → Text → Text → FilePath
session_project_dir s session_id project =
    join_path (join_path (session_path s) (path_of session_id)) (path_of project)

-- `path`
unfoldable pub stored_path : LogFileStorage → Text → Result StorageError FilePath
stored_path s name =
    if is_absolute (path_of name) || goes_up (path_of name)
    then err unsafe_name
    else ok (join_path (location s) (path_of name))

relative_text : Option FilePath → Result StorageError Text
relative_text none = err outside_storage
relative_text (some rest) = ok (as_posix rest)

-- `relative_name`
unfoldable pub relative_name :
    (FilePath → FilePath) → LogFileStorage → FilePath → Result StorageError Text
unfolding relative_text
relative_name resolve s p = relative_text (relative_to (resolve (location s)) (resolve p))
