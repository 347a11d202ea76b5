-- ===== src/Fail2ban/Requests.antt =====
-- `Fail2banSocketService`, `dispatch_request` and `_build_response` of the fail2ban socket app.
pub mod ReadOnly
pub mod Summary
use mcp_log_server.Prelude.{
  List, Option, String, bool_eq, if◌then◌else◌, list_eq, nat_eq, none, option_eq, some, string_eq,
  ◌==◌,
}
use mcp_log_server.Prelude.Int.{int_eq}
use mcp_log_server.Prelude.Json.{Fields, Json, end, field, get, get_or_null, obj, str}
use mcp_log_server.Prelude.Result.{Result, err, ok}
use mcp_log_server.Prelude.Utf8.{Text, codes}
use mcp_log_server.Fail2ban.Client.{
  Failure, JailBans, JailList, Run, Subprocess, and_run, blocked_ips_summary, get_jail_bans,
  json_decode_error, list_jails, no_parameters, not_non_empty_string, operation_missing,
  params_not_object, protocol_error, request_not_object, unicode_decode_error,
  unsupported_operation,
}
use mcp_log_server.Filtering.Extract.{Python}
use mcp_log_server.SocketApp.Server.{Decoded, bad_json, bad_utf8, value}

pub data Payload : Type 0 where
  jail_list : JailList → Payload
  jail_bans : JailBans → Payload
  blocked_ips : List JailBans → Payload

as_required_string : String → Json → Result Failure String
as_required_string key (str s) =
    if s == "" then err (protocol_error (not_non_empty_string key)) else ok s
as_required_string key _ = err (protocol_error (not_non_empty_string key))

-- `_required_string`
required_string : Fields → String → Result Failure String
unfolding as_required_string
required_string params key = as_required_string key (get_or_null params key)

-- `_reject_params`
reject_params : Fields → Result Failure (Unit {0})
reject_params end = ok tt
reject_params (field k v rest) = err (protocol_error no_parameters)

-- What is raised before the backend is called leaves the commands as they are.
checked : {A B : Type 0} → Result Failure A → (A → Run B) → Run B
checked (ok a) next history = next a history
checked (err e) next history = (err e, history)

module _ (py : Python) (process : Subprocess) (socket_path : Text) where
  listed : Run Payload
  listed history =
      and_run (list_jails py process socket_path history)
        (λ found after. (ok (jail_list found), after))

  bans_of : String → Run Payload
  bans_of name history =
      and_run (get_jail_bans py process socket_path (codes name) history)
        (λ found after. (ok (jail_bans found), after))

  summarized : Run Payload
  summarized history =
      and_run (blocked_ips_summary py process socket_path history)
        (λ found after. (ok (blocked_ips found), after))

  -- `dispatch`
  unfoldable pub dispatch : String → Fields → Run Payload
  unfolding checked reject_params required_string listed bans_of summarized
  dispatch operation params history =
      if operation == "list_jails"
      then checked (reject_params params) (λ _. listed) history
      else if operation == "get_jail_bans"
      then checked (required_string params "jail_name") bans_of history
      else if operation == "blocked_ips_summary"
      then checked (reject_params params) (λ _. summarized) history
      else (err (protocol_error (unsupported_operation operation)), history)

  with_params : String → Option Json → Run Payload
  with_params operation none history = dispatch operation end history
  with_params operation (some (obj params)) history = dispatch operation params history
  with_params operation (some _) history = (err (protocol_error params_not_object), history)

  with_operation : Json → Option Json → Run Payload
  unfolding with_params
  with_operation (str operation) params history =
      if operation == ""
      then (err (protocol_error operation_missing), history)
      else with_params operation params history
  with_operation _ params history = (err (protocol_error operation_missing), history)

  -- `dispatch_request`
  unfoldable pub dispatch_request : Fields → Run Payload
  unfolding with_operation
  dispatch_request request = with_operation (get_or_null request "operation") (get request "params")

  -- `_build_response`, before it is written: the payload of a success or what was raised.
  unfoldable pub build_response : Decoded → Run Payload
  build_response bad_utf8 history = (err unicode_decode_error, history)
  build_response bad_json history = (err json_decode_error, history)
  build_response (value (obj request)) history = dispatch_request request history
  build_response (value _) history = (err (protocol_error request_not_object), history)
