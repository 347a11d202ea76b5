-- ===== src/SocketApp/Registry.antt =====
-- `SocketOperationRegistry` of socket-app/src/socket_app/services.py, and `dispatch_request` of
-- dispatcher.py. A call of the backend is a value of `Call`, with its typed arguments; the backend
-- itself is a parameter of those who run the call.
pub mod Parameters
pub mod Sound
pub mod Known
use mcp_log_server.Prelude.{
  Bool, List, Option, String, [], false, if◌then◌else◌, missing, nat_eq, none, option_eq, some,
  string_eq, ◌==◌, ◌∷◌,
}
use mcp_log_server.Prelude.Int.{int_eq, pos, ℤ}
use mcp_log_server.Prelude.Json.{
  Fields, Json, arr, bool, cons, end, field, field_names, get, get_or_null, int, items, nil, null,
  obj, str,
}
use mcp_log_server.Prelude.Result.{Result, err, ok, ◌>>=◌, ◌>>◌}
use mcp_log_server.SocketApp.Spool.{path_eq}

-- The messages of `ProtocolException`.
pub data ProtocolError : Type 0 where
  not_non_empty_string : String → ProtocolError
  not_string : String → ProtocolError
  not_log_stream : String → ProtocolError
  not_string_list : String → ProtocolError
  not_non_empty_strings : String → ProtocolError
  not_integer : String → ProtocolError
  not_boolean : String → ProtocolError
  no_parameters : ProtocolError
  continued_only : ProtocolError
  unsupported_operation : String → ProtocolError
  operation_missing : ProtocolError
  params_not_object : ProtocolError
  request_not_object : ProtocolError

pub data LogStream : Type 0 where
  stdout stderr : LogStream

-- The arguments of `container_logs_page` for a new transfer.
pub record PageStart : Type 0 where
  pub container_name : String
  pub stream : Option LogStream
  pub since : Option String
  pub until : Option String
  pub tail : Option ℤ
  pub offset : ℤ
  pub max_bytes : Option ℤ

pub data Call : Type 0 where
  service_health : Call
  container_logs : String → Option String → Option String → Option ℤ → Call
  continue_logs_page : String → ℤ → Option ℤ → Call
  start_logs_page : PageStart → Call
  container_health : String → Call
  container_detail : String → Call
  container_path_stat : String → String → Call
  container_file_read : String → String → Option ℤ → Call
  container_directory_list : String → String → Option ℤ → Call
  vps_containers_inventory : Call
  vps_volumes_inventory : Bool → Bool → Option String → Call
  traefik_router_tls_inventory : Call
  crowdsec_activity : String → Call
  landingpage_django_list_commands : String → List String → String → Call
  landingpage_django_media_inventory : String → List String → String → Call

abbrev Checked {ℓ} : Type ℓ → Type ℓ
Checked A = Result ProtocolError A

as_required_string : String → Json → Checked String
as_required_string key (str s) = if s == "" then err (not_non_empty_string key) else ok s
as_required_string key _ = err (not_non_empty_string key)

unfoldable pub required_string : Fields → String → Checked String
unfolding as_required_string
required_string params key = as_required_string key (get_or_null params key)

as_optional_string : String → Json → Checked (Option String)
as_optional_string key null = ok none
as_optional_string key (str s) = ok (some s)
as_optional_string key _ = err (not_string key)

unfoldable pub optional_string : Fields → String → Checked (Option String)
unfolding as_optional_string
optional_string params key = as_optional_string key (get_or_null params key)

as_optional_log_stream : String → Json → Checked (Option LogStream)
as_optional_log_stream key null = ok none
as_optional_log_stream key (str s) =
    if s == "stdout"
    then ok (some stdout)
    else if s == "stderr"
    then ok (some stderr)
    else err (not_log_stream key)
as_optional_log_stream key _ = err (not_log_stream key)

unfoldable pub optional_log_stream : Fields → String → Checked (Option LogStream)
unfolding as_optional_log_stream
optional_log_stream params key = as_optional_log_stream key (get_or_null params key)

as_list_item : String → Json → Checked String
as_list_item key (str s) = if s == "" then err (not_non_empty_strings key) else ok s
as_list_item key _ = err (not_non_empty_strings key)

-- The items of the list, all of them non-empty strings.
non_empty_strings : String → List Json → Checked (List String)
unfolding as_list_item
non_empty_strings key [] = ok []
non_empty_strings key (j ∷ rest) = do
  s ← as_list_item key j
  tail ← non_empty_strings key rest
  ok (s ∷ tail)

as_required_string_list : String → Json → Checked (List String)
as_required_string_list key (arr nil) = err (not_string_list key)
as_required_string_list key (arr (cons j rest)) = non_empty_strings key (j ∷ items rest)
as_required_string_list key _ = err (not_string_list key)

unfoldable pub required_string_list : Fields → String → Checked (List String)
unfolding as_required_string_list non_empty_strings
required_string_list params key = as_required_string_list key (get_or_null params key)

as_optional_int : String → Json → Checked (Option ℤ)
as_optional_int key null = ok none
as_optional_int key (int z) = ok (some z)
as_optional_int key _ = err (not_integer key)

unfoldable pub optional_int : Fields → String → Checked (Option ℤ)
unfolding as_optional_int
optional_int params key = as_optional_int key (get_or_null params key)

as_optional_bool : String → Json → Checked Bool
as_optional_bool key null = ok false
as_optional_bool key (bool b) = ok b
as_optional_bool key _ = err (not_boolean key)

unfoldable pub optional_bool : Fields → String → Checked Bool
unfolding as_optional_bool
optional_bool params key = as_optional_bool key (get_or_null params key)

unfoldable pub reject_params : Fields → Checked (Unit {0})
reject_params end = ok tt
reject_params (field _ _ _) = err no_parameters

-- `value or 0`
abbrev or_zero : Option ℤ → ℤ
or_zero none = pos 0
or_zero (some z) = z

abbrev continued_fields : List String
continued_fields = "transfer_id" ∷ "offset" ∷ "max_bytes" ∷ []

new_logs_page : Fields → Checked Call
new_logs_page params = do
  name ← required_string params "container_name"
  stream ← optional_log_stream params "stream"
  since ← optional_string params "since"
  until ← optional_string params "until"
  tail ← optional_int params "tail"
  offset ← optional_int params "offset"
  max_bytes ← optional_int params "max_bytes"
  ok (
      start_logs_page (record {
        container_name = name;
        stream = stream;
        since = since;
        until = until;
        tail = tail;
        offset = or_zero offset;
        max_bytes = max_bytes;
      }))

continue_page : Fields → String → List String → Checked Call
continue_page params transfer_id [] = do
  offset ← optional_int params "offset"
  max_bytes ← optional_int params "max_bytes"
  ok (continue_logs_page transfer_id (or_zero offset) max_bytes)
continue_page params transfer_id (_ ∷ _) = err continued_only

logs_page : Fields → Option String → Checked Call
unfolding new_logs_page continue_page
logs_page params none = new_logs_page params
logs_page params (some transfer_id) =
    if transfer_id == ""
    then err (not_non_empty_string "transfer_id")
    else continue_page params transfer_id (missing (field_names params) continued_fields)

-- The second half of the chain of tests in `dispatch`.
dispatch_inventory : String → Fields → Checked Call
dispatch_inventory operation params =
    if operation == "vps_containers_inventory"
    then (do reject_params params; ok vps_containers_inventory)
    else if operation == "vps_volumes_inventory"
    then (do
      dangling_only ← optional_bool params "dangling_only"
      anonymous_only ← optional_bool params "anonymous_only"
      name_prefix ← optional_string params "name_prefix"
      ok (vps_volumes_inventory dangling_only anonymous_only name_prefix))
    else if operation == "traefik_router_tls_inventory"
    then (do reject_params params; ok traefik_router_tls_inventory)
    else if operation == "crowdsec_activity"
    then (do name ← required_string params "container_name"; ok (crowdsec_activity name))
    else if operation == "landingpage_django_list_commands"
    then (do
      name ← required_string params "container_name"
      base_command ← required_string_list params "base_command"
      cwd ← required_string params "cwd"
      ok (landingpage_django_list_commands name base_command cwd))
    else if operation == "landingpage_django_media_inventory"
    then (do
      name ← required_string params "container_name"
      base_command ← required_string_list params "base_command"
      cwd ← required_string params "cwd"
      ok (landingpage_django_media_inventory name base_command cwd))
    else err (unsupported_operation operation)

unfoldable pub dispatch : String → Fields → Checked Call
unfolding logs_page dispatch_inventory
dispatch operation params =
    if operation == "service_health"
    then (do reject_params params; ok service_health)
    else if operation == "container_logs"
    then (do
      name ← required_string params "container_name"
      since ← optional_string params "since"
      until ← optional_string params "until"
      tail ← optional_int params "tail"
      ok (container_logs name since until tail))
    else if operation == "container_logs_page"
    then (do transfer_id ← optional_string params "transfer_id"; logs_page params transfer_id)
    else if operation == "container_health"
    then (do name ← required_string params "container_name"; ok (container_health name))
    else if operation == "container_detail"
    then (do name ← required_string params "container_name"; ok (container_detail name))
    else if operation == "container_path_stat"
    then (do
      name ← required_string params "container_name"
      path ← required_string params "path"
      ok (container_path_stat name path))
    else if operation == "container_file_read"
    then (do
      name ← required_string params "container_name"
      path ← required_string params "path"
      max_bytes ← optional_int params "max_bytes"
      ok (container_file_read name path max_bytes))
    else if operation == "container_directory_list"
    then (do
      name ← required_string params "container_name"
      path ← required_string params "path"
      max_entries ← optional_int params "max_entries"
      ok (container_directory_list name path max_entries))
    else dispatch_inventory operation params

-- `dispatch_request`: the envelope, then the operation.
unfoldable pub as_operation : Json → Checked String
as_operation (str s) = if s == "" then err operation_missing else ok s
as_operation _ = err operation_missing

as_params : Option Json → Checked Fields
as_params none = ok end
as_params (some (obj fields)) = ok fields
as_params (some _) = err params_not_object

unfoldable pub dispatch_request : Fields → Checked Call
unfolding as_operation as_params
dispatch_request request = do
  operation ← as_operation (get_or_null request "operation")
  params ← as_params (get request "params")
  dispatch operation params
