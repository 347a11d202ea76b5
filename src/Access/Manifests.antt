-- ===== src/Access/Manifests.antt =====
-- The validators of src/manifests/models.py. Texts that a validator looks into are lists of code
-- points.
pub mod Clean
use mcp_log_server.Prelude.{
  Bool, List, Option, [], bool_eq, false, if◌then◌else◌, leb, list_eq, ltb, map, nat_eq, none, not,
  option_eq, some, string_eq, true, ℕ, ◌&&◌, ◌++◌, ◌==◌, ◌||◌, ◌∷◌,
}
use mcp_log_server.Prelude.Int.{int_eq}
use mcp_log_server.Prelude.Regex.{Item, match_start, one, star}
use mcp_log_server.Prelude.Result.{Result, err, ok, ◌>>=◌}
use mcp_log_server.Prelude.Strings.{includes, starts_with, strip}
use mcp_log_server.Prelude.Utf8.{Text}
use mcp_log_server.Access.Paths.{split_on}

-- The messages of ValueError.
pub data ManifestError : Type 0 where
  command_tokens_unclean : ManifestError
  command_cwd_unclean : ManifestError
  compose_selectors_required : ManifestError
  compose_selectors_refused : ManifestError
  command_run_refused : ManifestError
  target_unclean : ManifestError
  backup_location_unclean : ManifestError
  backup_pattern_unclean : ManifestError
  deployment_path_unclean : ManifestError

unfoldable pub exists {ℓ} : {A : Type ℓ} → (A → Bool) → List A → Bool
exists p [] = false
exists p (x ∷ xs) = p x || exists p xs

-- `text.replace("\\", "/")`
unfoldable pub normalized : Text → Text
normalized [] = []
normalized (c ∷ t) = (if c == 92 then 47 else c) ∷ normalized t

abbrev pub is_control : ℕ → Bool
is_control c = ltb c 32

is_letter : ℕ → Bool
is_letter c = (leb 65 c && leb c 90) || (leb 97 c && leb c 122)

is_scheme_char : ℕ → Bool
unfolding is_letter
is_scheme_char c = is_letter c || (leb 48 c && leb c 57) || c == 43 || c == 46 || c == 45

-- `_PATH_SCHEME_PATTERN`
path_scheme_pattern : List Item
unfolding is_letter is_scheme_char
path_scheme_pattern = one is_letter ∷ star is_scheme_char ∷ one (λ c. c == 58) ∷ []

is_some : {A : Type 0} → Option A → Bool
is_some none = false
is_some (some a) = true

abbrev pub is_unclean_part : Text → Bool
is_unclean_part piece = piece == [] || piece == 46 ∷ [] || piece == 46 ∷ 46 ∷ []

abbrev rest_of : List Text → List Text
rest_of [] = []
rest_of (x ∷ xs) = xs

-- The test that every path of a manifest passes, on the normalized text.
unfoldable pub is_unclean : Text → Bool
unfolding exists path_scheme_pattern is_some
is_unclean t =
    t == []
    || not (starts_with t (47 ∷ []))
    || starts_with t (47 ∷ 47 ∷ [])
    || starts_with t (126 ∷ [])
    || is_some (match_start path_scheme_pattern t)
    || exists is_control t
    || exists is_unclean_part (rest_of (split_on 47 t))

-- `SourceCommandRun`
pub record SourceCommandRun : Type 0 where
  pub enabled : Bool
  pub base_command : List Text
  pub cwd : Text

is_unclean_token : Text → Bool
unfolding exists
is_unclean_token token = token == [] || exists is_control token

-- `validate_command_run_shape`
unfoldable pub validate_command_run_shape : SourceCommandRun → Result ManifestError SourceCommandRun
unfolding exists is_unclean_token
validate_command_run_shape run =
    let command = map strip run.base_command in
    if exists is_unclean_token command
    then err command_tokens_unclean
    else if is_unclean (normalized run.cwd)
    then err command_cwd_unclean
    else ok (record run { base_command = command; cwd = normalized run.cwd })

pub data SourceType : Type 0 where
  docker : SourceType
  file : SourceType

-- `SourceDefinition`
pub record SourceDefinition : Type 0 where
  pub source_key : Text
  pub source_type : SourceType
  pub target : Text
  pub description : Text
  pub required : Bool
  pub parser_type : Text
  pub normalization_profile : Text
  pub retention_class : Text
  pub default_noise_profile : Option Text
  pub stream : Option Text
  pub compose_project : Option Text
  pub compose_service : Option Text
  pub inspect_path_prefixes : List Text
  pub expected_producer_type : Option Text
  pub scheduler_patterns : List Text
  pub command_run : Option SourceCommandRun

-- `selector.strip() if selector else None`
selector : Option Text → Option Text
selector none = none
selector (some t) = if t == [] then none else some (strip t)

docker_selectors :
    SourceDefinition → Option Text → Option Text → Result ManifestError SourceDefinition
docker_selectors d (some project) (some service) =
    ok (record d { compose_project = some project; compose_service = some service })
docker_selectors d _ _ = err compose_selectors_required

no_selectors : SourceDefinition → Option Text → Option Text → Result ManifestError SourceDefinition
no_selectors d none none = ok d
no_selectors d _ _ = err compose_selectors_refused

checked_selectors : SourceType → SourceDefinition → Result ManifestError SourceDefinition
unfolding selector docker_selectors no_selectors
checked_selectors docker d =
    docker_selectors d (selector d.compose_project) (selector d.compose_service)
checked_selectors file d = no_selectors d (selector d.compose_project) (selector d.compose_service)

checked_target : SourceType → SourceDefinition → Result ManifestError SourceDefinition
checked_target docker d = ok d
checked_target file d =
    if is_some d.command_run
    then err command_run_refused
    else if is_unclean (normalized d.target)
    then err target_unclean
    else ok d

-- `validate_source_shape`
unfoldable pub validate_source_shape : SourceDefinition → Result ManifestError SourceDefinition
unfolding checked_selectors checked_target is_some
validate_source_shape d = checked_selectors d.source_type d >>= checked_target d.source_type

-- `ProjectBackupInspectionMetadata`
pub record BackupInspection : Type 0 where
  pub locations : List Text
  pub filename_patterns : List Text
  pub max_age_seconds : ℕ

unfoldable pub is_invalid_pattern : Text → Bool
unfolding exists
is_invalid_pattern pattern =
    is_unclean_part pattern
    || includes pattern (47 ∷ [])
    || includes pattern (92 ∷ [])
    || exists is_control pattern

is_invalid_path : Text → Bool
unfolding is_unclean normalized
is_invalid_path t = is_unclean (normalized t)

-- `validate_backup_inspection_shape`
unfoldable pub validate_backup_inspection_shape :
    BackupInspection → Result ManifestError BackupInspection
unfolding exists is_invalid_path
validate_backup_inspection_shape b =
    if exists is_invalid_path b.locations
    then err backup_location_unclean
    else if exists is_invalid_pattern b.filename_patterns
    then err backup_pattern_unclean
    else ok b

-- `ProjectDeploymentMetadata`, with the fields that are paths.
pub record Deployment : Type 0 where
  pub compose_files : List Text
  pub current_tag_path : Option Text

with_tag_path : List Text → Option Text → List Text
with_tag_path paths none = paths
with_tag_path paths (some path) = paths ++ path ∷ []

-- `validate_path_shapes`
unfoldable pub validate_path_shapes : Deployment → Result ManifestError Deployment
unfolding exists with_tag_path is_invalid_path
validate_path_shapes d =
    if exists is_invalid_path (with_tag_path d.compose_files d.current_tag_path)
    then err deployment_path_unclean
    else ok d
