-- ===== src/Tests/Access.antt =====
-- The theorems on names, manifests, host paths and stored files, at small inputs.
use mcp_log_server.Prelude.{
  All, List, [], arith, bool_eq, false, if◌then◌else◌, list_eq, map, nat_eq, none, not, option_eq,
  refl, some, string_eq, true, ◌==◌, ◌∷◌, ◌≡◌, ◌⊎◌,
}
use mcp_log_server.Prelude.Int.{int_eq, pos}
use mcp_log_server.Prelude.Regex.{match_start}
use mcp_log_server.Prelude.Result.{err, ok}
use mcp_log_server.Prelude.Sorting.{place, sort}
use mcp_log_server.Prelude.Strings.{is_space, starts_with, strip, strip_end, strip_start}
use mcp_log_server.Prelude.Utf8.{Text, codes}
use mcp_log_server.Access.HostPaths.{
  Host, HostPathMetadata, allowed_roots, list_project_directory, metadata_for_path,
  path_is_under_allowed_root, read_project_file, resolve_requested_path, safe_max_bytes,
  symlink_outside, under_some, validate_allowed_path,
}
use mcp_log_server.Access.HostPaths.Operations.{
  IsListed, IsRead, list_project_directory-IsListed, read_project_file-IsRead,
}
use mcp_log_server.Access.Manifests.{
  SourceDefinition, docker, exists, file, is_unclean, normalized, validate_source_shape,
}
use mcp_log_server.Access.Manifests.Clean.{IsClean, NoBackslash, validate_source_shape-IsClean}
use mcp_log_server.Access.Paths.{
  FilePath, absolute, as_posix, drop_end, goes_up, is_absolute, is_prefix, is_under, join_path,
  parent, path_of, slashes_of, split_on,
}
use mcp_log_server.Access.Projects.{
  AccessError, authorize_names, authorize_projects, normalize_requested_project_name,
}
use mcp_log_server.Access.Projects.Authorized.{
  IsAuthorized, IsPermitted, authorize_projects-IsAuthorized,
}
use mcp_log_server.Access.Storage.{
  LogFileStorage, location, relative_name, resolve_repo_path, stored_path,
}
use mcp_log_server.Access.Storage.Names.{IsNamed, stored_path-IsNamed}

abbrev portfolio : Text
portfolio = codes "portfolio"

authorize_stripped :
    authorize_projects
      (portfolio ∷ codes "shop" ∷ [])
      (some (codes " shop" ∷ portfolio ∷ codes "shop" ∷ []))
    ≡ ok (codes "shop" ∷ portfolio ∷ [])
unfolding authorize_projects authorize_names normalize_requested_project_name strip strip_end
    strip_start is_space
authorize_stripped = refl

abbrev log_source : SourceDefinition
log_source = record {
  source_key = codes "app";
  source_type = file;
  target = codes "/srv/app/app.log";
  description = [];
  required = true;
  parser_type = [];
  normalization_profile = [];
  retention_class = [];
  default_noise_profile = none;
  stream = none;
  compose_project = none;
  compose_service = none;
  inspect_path_prefixes = [];
  expected_producer_type = none;
  scheduler_patterns = [];
  command_run = none;
}

log_source_accepted : validate_source_shape log_source ≡ ok log_source
unfolding validate_source_shape is_unclean normalized exists starts_with match_start split_on
log_source_accepted = refl

-- A target that is absolute only after its backslashes are read as slashes is stored unchanged.
abbrev backslash_source : SourceDefinition
backslash_source = record log_source { target = 92 ∷ codes "srv" }

backslash_accepted : validate_source_shape backslash_source ≡ ok backslash_source
unfolding validate_source_shape is_unclean normalized exists starts_with match_start split_on
backslash_accepted = refl

backslash_relative : is_absolute (path_of backslash_source.target) ≡ false
unfolding is_absolute path_of slashes_of starts_with
backslash_relative = refl

-- A blank selector of a docker source is accepted.
abbrev blank_source : SourceDefinition
blank_source = record log_source {
  source_type = docker;
  compose_project = some (32 ∷ []);
  compose_service = some (32 ∷ []);
}

blank_accepted :
    validate_source_shape blank_source
    ≡ ok (record blank_source { compose_project = some []; compose_service = some [] })
unfolding validate_source_shape strip strip_end strip_start is_space
blank_accepted = refl

-- A host where the directory /srv/app/d is a link to /etc.
abbrev secret_path : FilePath
secret_path = record {
  slashes = 1;
  parts = codes "srv" ∷ codes "app" ∷ codes "d" ∷ codes "shadow" ∷ [];
}

abbrev linked_host : Host
linked_host = record {
  cwd = record { slashes = 1; parts = [] };
  is_symlink = λ p. p.parts == codes "srv" ∷ codes "app" ∷ codes "d" ∷ [];
  resolve = λ p. some (record { slashes = 1; parts = codes "etc" ∷ [] });
  path_exists = λ p. true;
  is_file = λ p. not (p.parts == codes "srv" ∷ codes "app" ∷ []);
  is_dir = λ p. p.parts == codes "srv" ∷ codes "app" ∷ [];
  entries = λ p. codes "d" ∷ codes "app.log" ∷ [];
  content = λ p. if p.parts == secret_path.parts then codes "root" else codes "ok";
  lstat = λ p. none;
  readlink = λ p. [];
  is_readable = λ p. true;
  decode_replace = λ bytes. bytes;
}

-- The link itself is refused, but a path through it is read.
link_refused :
    read_project_file linked_host log_source (some (codes "/srv/app/d")) (pos 10)
    ≡ err symlink_outside
unfolding read_project_file resolve_requested_path validate_allowed_path path_is_under_allowed_root
    allowed_roots under_some is_under is_prefix absolute parent drop_end goes_up is_absolute path_of
    slashes_of split_on starts_with strip strip_end strip_start is_space
link_refused = refl

through_link :
    read_project_file linked_host log_source (some (codes "/srv/app/d/shadow")) (pos 10)
    ≡ ok (codes "root", false)
unfolding read_project_file resolve_requested_path validate_allowed_path path_is_under_allowed_root
    allowed_roots under_some is_under is_prefix absolute parent drop_end goes_up is_absolute path_of
    slashes_of split_on starts_with strip strip_end strip_start is_space safe_max_bytes
through_link = refl

log_target-NoBackslash : NoBackslash log_source.target
log_target-NoBackslash = omega arith

target_read : read_project_file linked_host log_source none (pos 1) ≡ ok (codes "o", true)
unfolding read_project_file resolve_requested_path validate_allowed_path path_is_under_allowed_root
    allowed_roots under_some is_under is_prefix absolute parent drop_end goes_up is_absolute path_of
    slashes_of split_on starts_with safe_max_bytes
target_read = refl

read_project_file-IsRead_example : IsRead linked_host log_source (pos 1) (codes "o") true
read_project_file-IsRead_example =
    read_project_file-IsRead linked_host log_source log_source refl log_target-NoBackslash
      log_source_accepted none (pos 1) (codes "o") true target_read

validate_source_shape-IsClean_example :
    (log_source ≡ log_source) × IsClean (path_of log_source.target)
validate_source_shape-IsClean_example =
    validate_source_shape-IsClean log_source log_source refl log_target-NoBackslash
      log_source_accepted

abbrev app_entries : List HostPathMetadata
app_entries =
    map (metadata_for_path linked_host)
      (record { slashes = 1; parts = codes "srv" ∷ codes "app" ∷ codes "app.log" ∷ [] } ∷ [])

app_listed : list_project_directory linked_host log_source none ≡ ok (app_entries, false)
unfolding list_project_directory resolve_requested_path validate_allowed_path
    path_is_under_allowed_root allowed_roots under_some is_under is_prefix absolute parent drop_end
    goes_up is_absolute path_of slashes_of split_on starts_with metadata_for_path sort place
app_listed = refl

list_project_directory-IsListed_example : IsListed linked_host log_source app_entries false
list_project_directory-IsListed_example =
    list_project_directory-IsListed linked_host log_source log_source refl log_target-NoBackslash
      log_source_accepted none app_entries false app_listed

authorize_projects-IsAuthorized_example :
    ((names : List Text) × (authorize_projects (portfolio ∷ []) (some (portfolio ∷ [])) ≡ ok names)
      × IsAuthorized (portfolio ∷ []) (portfolio ∷ []) names)
    ⊎ ((e : AccessError) × (authorize_projects (portfolio ∷ []) (some (portfolio ∷ [])) ≡ err e)
        × ¬ All (IsPermitted (portfolio ∷ [])) (portfolio ∷ []))
authorize_projects-IsAuthorized_example =
    authorize_projects-IsAuthorized (portfolio ∷ []) portfolio []

abbrev log_storage : LogFileStorage
log_storage = record {
  directory = record { slashes = 0; parts = codes "logs" ∷ [] };
  repository_root = record { slashes = 1; parts = codes "repo" ∷ [] };
}

abbrev stored_log : FilePath
stored_log = record {
  slashes = 1;
  parts = codes "repo" ∷ codes "logs" ∷ codes "a" ∷ codes "b.log" ∷ [];
}

log_stored : stored_path log_storage (codes "a//b.log") ≡ ok stored_log
unfolding stored_path location resolve_repo_path join_path is_absolute path_of slashes_of split_on
    starts_with goes_up
log_stored = refl

stored_path-IsNamed_example :
    IsNamed log_storage (codes "a//b.log") stored_log
    × (relative_name (λ p. p) log_storage stored_log
        ≡ ok (as_posix (record { slashes = 0; parts = (path_of (codes "a//b.log")).parts })))
stored_path-IsNamed_example =
    stored_path-IsNamed (λ p. p) log_storage (codes "a//b.log") stored_log log_stored refl refl
