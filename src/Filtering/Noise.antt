-- ===== src/Filtering/Noise.antt =====
-- The noise profiles of src/services/log_filtering.py: which lines are left out, and why.
pub mod Kept
use mcp_log_server.Prelude.{
  Bool, List, Option, String, [], bool_eq, contains, false, if◌then◌else◌, list_eq, nat_eq, none,
  not, option_eq, some, string_eq, true, ◌&&◌, ◌==◌, ◌||◌, ◌∷◌,
}
use mcp_log_server.Prelude.Int.{at_least, below, int_eq, pos, ℤ}
use mcp_log_server.Prelude.Result.{Result, ok, ◌>>=◌, ◌>>◌}
use mcp_log_server.Prelude.Strings.{among, before, ends_with, starts_with}
use mcp_log_server.Prelude.Utf8.{Text, codes}
use mcp_log_server.Filtering.Extract.{
  Python, ValueError, extract_request_path, extract_status_code, parse_json_line,
}
use mcp_log_server.SocketApp.Spool.{path_eq}

pub record SourceNoiseContext : Type 0 where
  pub source_key : String
  pub parser_type : Option String
  pub normalization_profile : Option String
  pub default_noise_profile : Option String
  pub static_asset_paths : List Text
  pub static_asset_extensions : List Text

pub record FilterDecision : Type 0 where
  pub keep : Bool
  pub reason : Option String

abbrev pub keep_line : FilterDecision
keep_line = record { keep = true; reason = none }

abbrev pub exclude : String → FilterDecision
exclude why = record { keep = false; reason = some why }

abbrev pub health_paths : List String
health_paths = "/health" ∷ "/healthz" ∷ "/ping" ∷ "/ready" ∷ "/readyz" ∷ "/live" ∷ "/livez" ∷ []

unfoldable pub successful_health_status : Option ℤ → Bool
successful_health_status none = false
successful_health_status (some s) = at_least s 200 && below s 300

is_health_path : Option Text → Bool
is_health_path none = false
is_health_path (some path) = among health_paths path

unfoldable pub is_successful_health_request : Option Text → Option ℤ → Bool
unfolding is_health_path successful_health_status
is_successful_health_request request_path status_code =
    is_health_path request_path && successful_health_status status_code

unfoldable pub successful_static_asset_status : Option ℤ → Bool
successful_static_asset_status none = false
successful_static_asset_status (some s) = below s 300 || s == pos 304

unfoldable pub request_asset_path : Text → Text
request_asset_path path = before 35 (before 63 path)

any_extension : Python → Text → List Text → Bool
any_extension py path [] = false
any_extension py path (extension ∷ extensions) =
    ends_with path (py.lower extension) || any_extension py path extensions

unfoldable pub is_static_asset_request : Python → SourceNoiseContext → Text → Bool
unfolding any_extension
is_static_asset_request py context path =
    let asset_path = request_asset_path path in
    contains context.static_asset_paths asset_path
    || any_extension py (py.lower asset_path) context.static_asset_extensions

unfoldable pub is_successful_static_asset_request :
    Python → SourceNoiseContext → Text → Option ℤ → Bool
unfolding successful_static_asset_status
is_successful_static_asset_request py context path status =
    is_static_asset_request py context path && successful_static_asset_status status

unfoldable pub filter_web_noise :
    Python → SourceNoiseContext → Option Text → Option ℤ → FilterDecision
filter_web_noise py context none status = keep_line
filter_web_noise py context (some path) status =
    if is_successful_health_request (some path) status
    then exclude "health_check_request"
    else if is_successful_static_asset_request py context path status
    then exclude "successful_static_asset_request"
    else keep_line

-- `status_code is None or status_code < 500`
no_server_error : Option ℤ → Bool
no_server_error none = true
no_server_error (some s) = below s 500

unfoldable pub filter_proxy_noise :
    Python → SourceNoiseContext → Option Text → Option ℤ → FilterDecision
unfolding no_server_error
filter_proxy_noise py context none status = keep_line
filter_proxy_noise py context (some path) status =
    if is_successful_health_request (some path) status
    then exclude "proxy_health_check_request"
    else if starts_with path (codes "/.well-known/acme-challenge/") && no_server_error status
    then exclude "certificate_challenge_request"
    else if is_successful_static_asset_request py context path status
    then exclude "successful_static_asset_request"
    else keep_line

unfoldable pub filter_backend_noise : Option Text → Option ℤ → FilterDecision
unfolding is_health_path
filter_backend_noise request_path status =
    if is_health_path request_path
    then if is_successful_health_request request_path status
      then exclude "application_health_check_log"
      else keep_line
    else keep_line

-- `request_path and ...`
is_asset_noise : Python → SourceNoiseContext → Option Text → Option ℤ → Bool
is_asset_noise py context none status = false
is_asset_noise py context (some path) status =
    not (path == []) && is_successful_static_asset_request py context path status

unfoldable pub filter_frontend_noise :
    Python → SourceNoiseContext → Option Text → Option ℤ → FilterDecision
unfolding is_health_path is_asset_noise
filter_frontend_noise py context request_path status =
    if is_health_path request_path
    then if is_successful_health_request request_path status
      then exclude "frontend_health_check_log"
      else keep_line
    else if is_asset_noise py context request_path status
    then exclude "successful_static_asset_request"
    else keep_line

-- The body of `_apply_noise_profile` after the extractions.
unfoldable pub decide :
    Python → SourceNoiseContext → String → Option Text → Option ℤ → FilterDecision
decide py context profile path status =
    if profile == "web_noise"
    then filter_web_noise py context path status
    else if profile == "proxy_noise"
    then filter_proxy_noise py context path status
    else if profile == "backend_noise"
    then filter_backend_noise path status
    else if profile == "frontend_noise"
    then filter_frontend_noise py context path status
    else keep_line

by_profile : Python → SourceNoiseContext → Text → Option String → Result ValueError FilterDecision
by_profile py context raw_line none = ok keep_line
by_profile py context raw_line (some profile) =
    let parsed = parse_json_line py raw_line in
    if profile == "" then ok keep_line else (do
      status ← extract_status_code py parsed raw_line
      ok (decide py context profile (extract_request_path parsed raw_line) status))

unfoldable pub apply_noise_profile :
    Python → SourceNoiseContext → Text → Result ValueError FilterDecision
unfolding by_profile
apply_noise_profile py context raw_line =
    by_profile py context raw_line context.default_noise_profile
