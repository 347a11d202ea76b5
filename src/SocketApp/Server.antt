-- ===== src/SocketApp/Server.antt =====
-- `_build_response` of socket-app/src/socket_app/server.py: one response and one log event for
-- each request line. Decoding of the line is a parameter, and so is the backend that runs a call.
pub mod Outcome
use mcp_log_server.Prelude.{
  Bool, List, String, [], contains, false, if◌then◌else◌, nat_eq, option_eq, string_eq, true, ◌==◌,
  ◌||◌, ◌∷◌,
}
use mcp_log_server.Prelude.Int.{int_eq}
use mcp_log_server.Prelude.Json.{Fields, Json, get_or_null, obj, str}
use mcp_log_server.Prelude.Result.{Result, err, ok}
use mcp_log_server.SocketApp.Registry.{Call, ProtocolError, dispatch_request, request_not_object}
use mcp_log_server.SocketApp.Spool.{path_eq}

-- The line's bytes, decoded as UTF-8 and as JSON.
pub data Decoded : Type 0 where
  bad_utf8 : Decoded
  bad_json : Decoded
  value : Json → Decoded

-- What a backend call raises: `DockerBackendError`, or anything else.
pub data BackendError : Type 0 where
  docker_backend_error : String → BackendError
  unexpected_error : String → BackendError

-- The exceptions that `_build_response` catches.
pub data RequestError : Type 0 where
  json_decode_error : RequestError
  unicode_decode_error : RequestError
  protocol_error : ProtocolError → RequestError
  backend_error : BackendError → RequestError

pub data LogEvent : Type 0 where
  failed_invalid_json : LogEvent
  failed_unsupported_operation : LogEvent
  failed_invalid_request : LogEvent
  failed_docker_backend : LogEvent
  failed_internal : LogEvent
  health_completed : LogEvent
  request_completed : LogEvent

abbrev pub supported_operations : List String
supported_operations =
    "service_health" ∷ "container_logs" ∷ "container_logs_page" ∷ "container_health"
    ∷ "container_detail" ∷ "container_path_stat" ∷ "container_file_read"
    ∷ "container_directory_list" ∷ "vps_containers_inventory" ∷ "vps_volumes_inventory"
    ∷ "traefik_router_tls_inventory" ∷ "crowdsec_activity" ∷ "landingpage_django_list_commands"
    ∷ "landingpage_django_media_inventory" ∷ []

abbrev pub unsupported_label : String
unsupported_label = "unsupported"

abbrev pub invalid_label : String
invalid_label = "invalid"

-- `_operation_log_label`
unfoldable pub operation_log_label : Json → String × Bool
operation_log_label (str operation) =
    if contains supported_operations operation
    then (operation, false)
    else (unsupported_label, true)
operation_log_label _ = (invalid_label, false)

log_failure : String → Bool → RequestError → LogEvent
log_failure label flag json_decode_error = failed_invalid_json
log_failure label flag unicode_decode_error = failed_internal
log_failure label flag (protocol_error e) =
    if flag || label == unsupported_label
    then failed_unsupported_operation
    else failed_invalid_request
log_failure label flag (backend_error (docker_backend_error m)) = failed_docker_backend
log_failure label flag (backend_error (unexpected_error m)) = failed_internal

-- `_log_request_outcome`
unfoldable pub log_request_outcome : {A : Type 0} → String → Bool → Result RequestError A → LogEvent
unfolding log_failure
log_request_outcome operation flag (ok _) =
    let label = if contains supported_operations operation then operation else unsupported_label in
    if label == "service_health" then health_completed else request_completed
log_request_outcome operation flag (err e) =
    let label = if contains supported_operations operation then operation else unsupported_label in
    log_failure label flag e

lift_backend : Result BackendError Fields → Result RequestError Fields
lift_backend (ok fields) = ok fields
lift_backend (err e) = err (backend_error e)

module _ {S : Type 0} (run : Call → S → Result BackendError Fields × S) where
  -- Each branch of `dispatch` reads its parameters and then ends in one backend call, so that a
  -- call of the model is that last call, run here.
  run_checked : Result ProtocolError Call → S → Result RequestError Fields × S
  unfolding lift_backend
  run_checked (err e) s = (err (protocol_error e), s)
  run_checked (ok call) s = let (r, s') = run call s in (lift_backend r, s')

  -- The label and flag for the log, the response, and the state that the backend left.
  handle_decoded : Decoded → S → (String × Bool) × Result RequestError Fields × S
  unfolding run_checked
  handle_decoded bad_utf8 s = ((invalid_label, false), err unicode_decode_error, s)
  handle_decoded bad_json s = ((invalid_label, false), err json_decode_error, s)
  handle_decoded (value (obj request)) s =
      let (response, s') = run_checked (dispatch_request request) s in
      (operation_log_label (get_or_null request "operation"), response, s')
  handle_decoded (value _) s = ((invalid_label, false), err (protocol_error request_not_object), s)

  unfoldable pub build_response : Decoded → S → (Result RequestError Fields × LogEvent) × S
  unfolding handle_decoded
  build_response decoded s =
      let (label, response, s') = handle_decoded decoded s in
      ((response, log_request_outcome label.0 label.1 response), s')
