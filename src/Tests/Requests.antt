-- ===== src/Tests/Requests.antt =====
-- The theorems on requests, at small inputs.
use mcp_log_server.Prelude.{
  contains, false, nat_eq, option_eq, refl, string_eq, suc, true, ℕ, ◌↔◌, ◌≡◌,
}
use mcp_log_server.Prelude.Int.{int_eq}
use mcp_log_server.Prelude.Json.{Fields, bool, end, field, obj, str}
use mcp_log_server.Prelude.Result.{Result, err, ok}
use mcp_log_server.SocketApp.Registry.{
  Call, container_path_stat, dispatch, operation_missing, required_string, unsupported_operation,
}
use mcp_log_server.SocketApp.Registry.Sound.{IsSound, dispatch-IsSound}
use mcp_log_server.SocketApp.Server.{
  BackendError, build_response, failed_unsupported_operation, protocol_error, supported_operations,
  value,
}
use mcp_log_server.SocketApp.Server.Outcome.{build_response-no_operation, dispatch-unsupported_iff}
use mcp_log_server.SocketApp.Spool.{path_eq}

abbrev path_params : Fields
path_params = field "path" (str "/etc") (field "container_name" (str "web") end)

dispatch-IsSound_example : IsSound (container_path_stat "web" "/etc")
unfolding dispatch required_string
dispatch-IsSound_example =
    dispatch-IsSound "container_path_stat" path_params (container_path_stat "web" "/etc") refl

dispatch-unsupported_iff_example :
    (dispatch "container_kill" end ≡ err (unsupported_operation "container_kill"))
    ↔ (contains supported_operations "container_kill" ≡ false)
dispatch-unsupported_iff_example = dispatch-unsupported_iff "container_kill" end

-- A backend that counts its calls.
abbrev counting : Call → ℕ → Result BackendError Fields × ℕ
counting call n = (ok end, suc n)

build_response-no_operation_example :
    build_response counting (value (obj (field "operation" (bool true) end))) 4
    ≡ ((err (protocol_error operation_missing), failed_unsupported_operation), 4)
build_response-no_operation_example =
    build_response-no_operation counting (field "operation" (bool true) end) 4 (λ t e. cc)
