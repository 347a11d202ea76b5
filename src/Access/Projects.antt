-- ===== src/Access/Projects.antt =====
-- src/services/project_authorization.py. Names are texts; the allowed projects are a set, here a
-- list.
pub mod Authorized
use mcp_log_server.Prelude.{
  List, Option, [], bool_eq, contains, if◌then◌else◌, list_eq, nat_eq, none, option_eq, some,
  string_eq, ◌++◌, ◌==◌, ◌∷◌,
}
use mcp_log_server.Prelude.Int.{int_eq}
use mcp_log_server.Prelude.Result.{Result, err, ok, ◌>>=◌, ◌>>◌}
use mcp_log_server.Prelude.Sorting.{sort, text_below}
use mcp_log_server.Prelude.Strings.{strip}
use mcp_log_server.Prelude.Utf8.{Text}

-- `ProjectAuthorizationError`, by its message.
pub data AccessError : Type 0 where
  project_name_required : AccessError
  project_name_empty : AccessError
  project_names_empty : AccessError
  project_not_allowed : AccessError

-- `_normalize_requested_project_name`
unfoldable pub normalize_requested_project_name : Text → Result AccessError Text
normalize_requested_project_name name =
    if strip name == [] then err project_name_empty else ok (strip name)

allowed_name : List Text → Text → Result AccessError Text
allowed_name allowed name = if contains allowed name then ok name else err project_not_allowed

-- `authorize_project`
unfoldable pub authorize_project : List Text → Option Text → Result AccessError Text
unfolding allowed_name
authorize_project allowed none = err project_name_required
authorize_project allowed (some name) =
    if name == []
    then err project_name_required
    else normalize_requested_project_name name >>= allowed_name allowed

-- An empty name is reported as one of the list.
name_of_list : Result AccessError Text → Result AccessError Text
name_of_list (ok name) = ok name
name_of_list (err project_name_empty) = err project_names_empty
name_of_list (err e) = err e

add_name : List Text → Text → List Text
add_name names name = if contains names name then names else names ++ name ∷ []

-- The loop; the names seen are those collected.
unfoldable pub authorize_names : List Text → List Text → List Text → Result AccessError (List Text)
unfolding name_of_list allowed_name add_name
authorize_names allowed names [] = ok names
authorize_names allowed names (raw ∷ raws) = do
  name ← name_of_list (normalize_requested_project_name raw)
  permitted ← allowed_name allowed name
  authorize_names allowed (add_name names permitted) raws

-- `authorize_projects`; no list and an empty list ask for all projects.
unfoldable pub authorize_projects : List Text → Option (List Text) → Result AccessError (List Text)
authorize_projects allowed none = ok (sort text_below allowed)
authorize_projects allowed (some []) = ok (sort text_below allowed)
authorize_projects allowed (some (raw ∷ raws)) = authorize_names allowed [] (raw ∷ raws)
