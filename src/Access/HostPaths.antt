-- ===== src/Access/HostPaths.antt =====
-- src/services/host_path_service.py. The file system is the record `Host`.
pub mod Confined
pub mod Reads
pub mod Operations
use mcp_log_server.Prelude.{
  Bool, List, Option, [], bool_eq, false, if◌then◌else◌, length, list_eq, ltb, map, min, nat_eq,
  none, not, option_eq, select, some, string_eq, suc, take, true, ℕ, ◌++◌, ◌==◌, ◌||◌, ◌∷◌,
}
use mcp_log_server.Prelude.Int.{int_eq, negsuc, pos, ℤ}
use mcp_log_server.Prelude.Result.{Result, err, ok, ◌>>=◌, ◌>>◌}
use mcp_log_server.Prelude.Sorting.{sort, text_below}
use mcp_log_server.Prelude.Strings.{strip}
use mcp_log_server.Prelude.Utf8.{Bytes, Text}
use mcp_log_server.Access.Manifests.{SourceDefinition, SourceType, docker, file}
use mcp_log_server.Access.Paths.{
  FilePath, absolute, as_posix, goes_up, is_absolute, is_under, name_of, parent, path_of,
}

-- `lstat`, with the modification time in isoformat.
pub record Stat : Type 0 where
  pub size : ℕ
  pub mode : ℕ
  pub modified_at : Text
  pub uid : ℕ
  pub gid : ℕ

-- `resolve` is none where OSError is raised, `lstat` where FileNotFoundError is. The tests but
-- `is_symlink` follow links. `decode_replace` is `bytes.decode("utf-8", errors="replace")`.
pub record Host : Type 0 where
  pub cwd : FilePath
  pub is_symlink : FilePath → Bool
  pub resolve : FilePath → Option FilePath
  pub path_exists : FilePath → Bool
  pub is_file : FilePath → Bool
  pub is_dir : FilePath → Bool
  pub entries : FilePath → List Text
  pub content : FilePath → Bytes
  pub lstat : FilePath → Option Stat
  pub readlink : FilePath → Text
  pub is_readable : FilePath → Bool
  pub decode_replace : Bytes → Text

-- `HostPathServiceError`, by its message.
pub data HostPathError : Type 0 where
  not_a_file_source : HostPathError
  parent_traversal : HostPathError
  not_absolute : HostPathError
  outside_whitelist : HostPathError
  symlink_outside : HostPathError
  path_not_found : HostPathError
  not_a_directory : HostPathError
  not_a_file : HostPathError

abbrev pub max_project_file_bytes : ℕ
max_project_file_bytes = 200_000

abbrev pub max_project_directory_entries : ℕ
max_project_directory_entries = 200

-- `default`
pub data DefaultPath : Type 0 where
  target_path : DefaultPath
  parent_path : DefaultPath

default_of : SourceDefinition → DefaultPath → FilePath
default_of d target_path = path_of d.target
default_of d parent_path = parent (path_of d.target)

given_path : FilePath → Result HostPathError FilePath
given_path p =
    if goes_up p then err parent_traversal else if is_absolute p then ok p else err not_absolute

requested_path : SourceDefinition → Option Text → DefaultPath → Result HostPathError FilePath
unfolding default_of given_path
requested_path d none default = ok (default_of d default)
requested_path d (some t) default =
    if strip t == [] then ok (default_of d default) else given_path (path_of t)

unfoldable pub by_type :
    SourceType → SourceDefinition → Option Text → DefaultPath → Result HostPathError FilePath
unfolding requested_path
by_type docker d path default = err not_a_file_source
by_type file d path default = requested_path d path default

-- `_resolve_requested_path_or_error`
unfoldable pub resolve_requested_path :
    SourceDefinition → Option Text → DefaultPath → Result HostPathError FilePath
unfolding by_type
resolve_requested_path d path default = by_type d.source_type d path default

-- `_allowed_roots`
unfoldable pub allowed_roots : SourceDefinition → List FilePath
allowed_roots d = path_of d.target ∷ parent (path_of d.target) ∷ map path_of d.inspect_path_prefixes

unfoldable pub under_some : FilePath → FilePath → List FilePath → Bool
under_some cwd p [] = false
under_some cwd p (root ∷ roots) = is_under (absolute cwd root) p || under_some cwd p roots

-- `_path_is_under_allowed_root`
unfoldable pub path_is_under_allowed_root : Host → SourceDefinition → FilePath → Bool
unfolding under_some allowed_roots
path_is_under_allowed_root host d p = under_some host.cwd (absolute host.cwd p) (allowed_roots d)

checked_link : Host → SourceDefinition → Option FilePath → Option HostPathError
checked_link host d none = some path_not_found
checked_link host d (some q) =
    if path_is_under_allowed_root host d q then none else some symlink_outside

-- `_validate_allowed_path`
unfoldable pub validate_allowed_path : Host → SourceDefinition → FilePath → Option HostPathError
unfolding checked_link
validate_allowed_path host d p =
    if not (path_is_under_allowed_root host d p)
    then some outside_whitelist
    else if host.is_symlink p
    then checked_link host d (host.resolve p)
    else none

-- `HostPathMetadata`
pub record HostPathMetadata : Type 0 where
  pub path : Text
  pub name : Text
  pub is_file : Bool
  pub is_dir : Bool
  pub is_symlink : Bool
  pub stat : Option Stat
  pub readable : Bool
  pub symlink_target : Option Text

metadata_of : Host → FilePath → Option Stat → HostPathMetadata
metadata_of host p none = record {
  path = as_posix p;
  name = name_of p;
  is_file = false;
  is_dir = false;
  is_symlink = false;
  stat = none;
  readable = false;
  symlink_target = none;
}
metadata_of host p (some stat) = record {
  path = as_posix p;
  name = if name_of p == [] then as_posix p else name_of p;
  is_file = host.is_file p;
  is_dir = host.is_dir p;
  is_symlink = host.is_symlink p;
  stat = some stat;
  readable = host.is_readable p;
  symlink_target = if host.is_symlink p then some (host.readlink p) else none;
}

-- `_metadata_for_path`; the path exists where it has a stat.
unfoldable pub metadata_for_path : Host → FilePath → HostPathMetadata
unfolding metadata_of
metadata_for_path host p = metadata_of host p (host.lstat p)

-- The path that an operation may look at.
unfoldable pub allowed_path :
    Host → SourceDefinition → Option Text → DefaultPath → Result HostPathError FilePath
allowed_path host d path default = do
  p ← resolve_requested_path d path default
  elim (validate_allowed_path host d p) [ none ↦ ok p | some e ↦ err e ]

-- `stat_project_path`
unfoldable pub stat_project_path :
    Host → SourceDefinition → Option Text → Result HostPathError HostPathMetadata
unfolding allowed_path
stat_project_path host d path =
    allowed_path host d path target_path >>= λ p. ok (metadata_for_path host p)

is_allowed : Host → SourceDefinition → FilePath → Bool
is_allowed host d p = elim (validate_allowed_path host d p) [ none ↦ true | some e ↦ false ]

child : FilePath → Text → FilePath
child p name = record p { parts = p.parts ++ name ∷ [] }

-- The entries looked at: the first of them by name.
listed : Host → FilePath → List FilePath
unfolding child
listed host p =
    map (child p) (take max_project_directory_entries (sort text_below (host.entries p)))

-- `list_project_directory`
unfoldable pub list_project_directory :
    Host → SourceDefinition → Option Text → Result HostPathError (List HostPathMetadata × Bool)
unfolding allowed_path listed is_allowed
list_project_directory host d path = allowed_path host d path parent_path >>= λ p.
    if not (host.path_exists p)
    then err path_not_found
    else if not (host.is_dir p)
    then err not_a_directory
    else ok (
      map (metadata_for_path host) (select (is_allowed host d) (listed host p)),
      ltb max_project_directory_entries (length (host.entries p)),
    )

-- `max(0, min(max_bytes, MAX_PROJECT_FILE_BYTES))`
unfoldable pub safe_max_bytes : ℤ → ℕ
safe_max_bytes (pos n) = min n max_project_file_bytes
safe_max_bytes (negsuc n) = 0

-- `read_project_file`
unfoldable pub read_project_file :
    Host → SourceDefinition → Option Text → ℤ → Result HostPathError (Text × Bool)
unfolding allowed_path
read_project_file host d path max_bytes = allowed_path host d path target_path >>= λ p.
    if not (host.path_exists p)
    then err path_not_found
    else if not (host.is_file p)
    then err not_a_file
    else let bytes = take (suc (safe_max_bytes max_bytes)) (host.content p) in
      ok (
        host.decode_replace (take (safe_max_bytes max_bytes) bytes),
        ltb (safe_max_bytes max_bytes) (length bytes),
      )
