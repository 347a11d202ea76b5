-- ===== src/SocketApp/Registry/Sound.antt =====
-- The values that an accepted request carries: names, paths and commands.
use mcp_log_server.Prelude.{
  Bool-cases, List, Option, String, [], arith, bool_eq, eq_iff, inl, inr, list_eq, missing, nat_eq,
  none, option_eq, some, string_eq, ◌==◌, ◌∷◌, ◌≡◌,
}
use mcp_log_server.Prelude.Int.{int_eq}
use mcp_log_server.Prelude.Json.{Fields, field_names}
use mcp_log_server.Prelude.Result.{Result, ok, ◌>>=◌}
use mcp_log_server.SocketApp.Registry.{
  Call, ProtocolError, container_logs, container_detail, container_directory_list,
  container_file_read, container_health, container_path_stat, continue_logs_page, continue_page,
  continued_fields, continued_only, crowdsec_activity, dispatch, dispatch_inventory,
  landingpage_django_list_commands, landingpage_django_media_inventory, logs_page, new_logs_page,
  not_non_empty_string, optional_bool, optional_int, optional_log_stream, optional_string, or_zero,
  reject_params, required_string, required_string_list, service_health, start_logs_page,
  traefik_router_tls_inventory, unsupported_operation, vps_containers_inventory,
  vps_volumes_inventory,
}
use mcp_log_server.SocketApp.Registry.Parameters.{
  IsCommand, NotEmpty, Yields, Yields-bind, Yields-err, Yields-if, Yields-ok, required_string-ne,
  required_string_list-IsCommand,
}
use mcp_log_server.SocketApp.Spool.{path_eq}

-- The arguments that the backend may rely on.
abbrev pub IsSound : Call → Type 0
IsSound service_health = Unit
IsSound (container_logs name since until tail) = NotEmpty name
IsSound (continue_logs_page transfer_id offset max_bytes) = NotEmpty transfer_id
IsSound (start_logs_page start) = NotEmpty start.container_name
IsSound (container_health name) = NotEmpty name
IsSound (container_detail name) = NotEmpty name
IsSound (container_path_stat name path) = NotEmpty name × NotEmpty path
IsSound (container_file_read name path max_bytes) = NotEmpty name × NotEmpty path
IsSound (container_directory_list name path max_entries) = NotEmpty name × NotEmpty path
IsSound vps_containers_inventory = Unit
IsSound (vps_volumes_inventory dangling_only anonymous_only name_prefix) = Unit
IsSound traefik_router_tls_inventory = Unit
IsSound (crowdsec_activity name) = NotEmpty name
IsSound (landingpage_django_list_commands name base_command cwd) =
    NotEmpty name × IsCommand base_command × NotEmpty cwd
IsSound (landingpage_django_media_inventory name base_command cwd) =
    NotEmpty name × IsCommand base_command × NotEmpty cwd

-- A bind whose value matters only by the call that is built from it.
skip {ℓ} :
    {B : Type ℓ} (m : Result ProtocolError B) (f : B → Result ProtocolError Call)
    → ((b : B) → Yields IsSound (f b))
    → Yields IsSound (m >>= f)
skip m f h = Yields-bind m f (λ b _. h b)

with_string :
    (params : Fields) (key : String) (f : String → Result ProtocolError Call)
    → ((s : String) → NotEmpty s → Yields IsSound (f s))
    → Yields IsSound (required_string params key >>= f)
with_string params key f h =
    Yields-bind (required_string params key) f (λ s e. h s (required_string-ne params key s e))

with_command :
    (params : Fields) (key : String) (f : List String → Result ProtocolError Call)
    → ((ws : List String) → IsCommand ws → Yields IsSound (f ws))
    → Yields IsSound (required_string_list params key >>= f)
with_command params key f h =
    Yields-bind (required_string_list params key) f
      (λ ws e. h ws (required_string_list-IsCommand params key ws e))

with_call :
    (params : Fields) (build : String → Call)
    → ((name : String) → NotEmpty name → IsSound (build name))
    → Yields IsSound (required_string params "container_name" >>= λ name. ok (build name))
with_call params build h =
    with_string params "container_name" _ (λ name n. Yields-ok (build name) (h name n))

with_command_call :
    (params : Fields) (build : String → List String → String → Call)
    → ((name : String) (words : List String) (cwd : String)
        → NotEmpty name × IsCommand words × NotEmpty cwd
        → IsSound (build name words cwd))
    → Yields IsSound (
        required_string params "container_name" >>= λ name.
        required_string_list params "base_command" >>= λ words.
        required_string params "cwd" >>= λ cwd. ok (build name words cwd))
with_command_call params build h = with_string params "container_name" _ λ name n.
    with_command params "base_command" _ λ words c.
      with_string params "cwd" _
        λ cwd w. Yields-ok (build name words cwd) (h name words cwd (n, c, w))

with_path :
    (params : Fields) (f : String → String → Result ProtocolError Call)
    → ((name path : String) → NotEmpty name × NotEmpty path → Yields IsSound (f name path))
    → Yields IsSound (
        required_string params "container_name" >>= λ name.
        required_string params "path" >>= λ path. f name path)
with_path params f h =
    with_string params "container_name" _
      λ name n. with_string params "path" _ λ path p. h name path (n, p)

new_logs_page-IsSound : (params : Fields) → Yields IsSound (new_logs_page params)
unfolding new_logs_page
new_logs_page-IsSound params = with_string params "container_name" _ λ name ne.
    skip (optional_log_stream params "stream") _ λ stream.
      skip (optional_string params "since") _ λ since.
        skip (optional_string params "until") _ λ until. skip (optional_int params "tail") _ λ tail.
          skip (optional_int params "offset") _ λ offset.
            skip (optional_int params "max_bytes") _ λ max_bytes.
              Yields-ok
                (start_logs_page (record {
                  container_name = name;
                  stream = stream;
                  since = since;
                  until = until;
                  tail = tail;
                  offset = or_zero offset;
                  max_bytes = max_bytes;
                }))
                ne

continue_page-IsSound :
    (params : Fields) (transfer_id : String) (extra : List String)
    → NotEmpty transfer_id
    → Yields IsSound (continue_page params transfer_id extra)
unfolding continue_page
continue_page-IsSound params transfer_id [] ne = skip (optional_int params "offset") _ λ offset.
    skip (optional_int params "max_bytes") _
      λ max_bytes. Yields-ok (continue_logs_page transfer_id (or_zero offset) max_bytes) ne
continue_page-IsSound params transfer_id (_ ∷ _) ne = Yields-err continued_only

logs_page-IsSound :
    (params : Fields) (transfer_id : Option String) → Yields IsSound (logs_page params transfer_id)
unfolding logs_page
logs_page-IsSound params none = new_logs_page-IsSound params
logs_page-IsSound params (some transfer_id) = elim (Bool-cases (transfer_id == "")) [
  | inl empty ↦ rw empty (Yields-err (not_non_empty_string "transfer_id"))
  | inr full ↦ rw full (
      continue_page-IsSound params transfer_id (missing (field_names params) continued_fields)
        (ground (arith, eq_iff transfer_id "")))
]

dispatch_inventory-IsSound :
    (operation : String) (params : Fields) → Yields IsSound (dispatch_inventory operation params)
unfolding dispatch_inventory
dispatch_inventory-IsSound operation params =
    Yields-if (operation == "vps_containers_inventory") _ _
      (skip (reject_params params) _ (λ _. Yields-ok vps_containers_inventory tt))
      (Yields-if (operation == "vps_volumes_inventory") _ _
        (skip (optional_bool params "dangling_only") _ λ d.
          skip (optional_bool params "anonymous_only") _ λ a.
            skip (optional_string params "name_prefix") _
              λ p. Yields-ok (vps_volumes_inventory d a p) tt)
        (Yields-if (operation == "traefik_router_tls_inventory") _ _
          (skip (reject_params params) _ (λ _. Yields-ok traefik_router_tls_inventory tt))
          (Yields-if (operation == "crowdsec_activity") _ _
            (with_call params crowdsec_activity (λ _ n. n))
            (Yields-if (operation == "landingpage_django_list_commands") _ _
              (with_command_call params landingpage_django_list_commands (λ _ _ _ h. h))
              (Yields-if (operation == "landingpage_django_media_inventory") _ _
                (with_command_call params landingpage_django_media_inventory (λ _ _ _ h. h))
                (Yields-err (unsupported_operation operation)))))))

dispatch-Yields :
    (operation : String) (params : Fields) → Yields IsSound (dispatch operation params)
unfolding dispatch
dispatch-Yields operation params =
    Yields-if (operation == "service_health") _ _
      (skip (reject_params params) _ (λ _. Yields-ok service_health tt))
      (Yields-if (operation == "container_logs") _ _
        (with_string params "container_name" _ λ name n.
          skip (optional_string params "since") _ λ since.
            skip (optional_string params "until") _ λ until.
              skip (optional_int params "tail") _
                λ tail. Yields-ok (container_logs name since until tail) n)
        (Yields-if (operation == "container_logs_page") _ _
          (skip (optional_string params "transfer_id") _ (logs_page-IsSound params))
          (Yields-if (operation == "container_health") _ _
            (with_call params container_health (λ _ n. n))
            (Yields-if (operation == "container_detail") _ _
              (with_call params container_detail (λ _ n. n))
              (Yields-if (operation == "container_path_stat") _ _
                (with_path params _ λ name path h. Yields-ok (container_path_stat name path) h)
                (Yields-if (operation == "container_file_read") _ _
                  (with_path params _ λ name path h.
                    skip (optional_int params "max_bytes") _
                      λ m. Yields-ok (container_file_read name path m) h)
                  (Yields-if (operation == "container_directory_list") _ _
                    (with_path params _ λ name path h.
                      skip (optional_int params "max_entries") _
                        λ m. Yields-ok (container_directory_list name path m) h)
                    (dispatch_inventory-IsSound operation params))))))))

-- Whatever the operation and the parameters, a call that reaches the backend has container names,
-- paths, directories and transfer ids that are not empty, and commands that are non-empty lists of
-- non-empty words.
pub dispatch-IsSound :
    (operation : String) (params : Fields) (call : Call)
    → dispatch operation params ≡ ok call
    → IsSound call
dispatch-IsSound operation params call h = (dispatch-Yields operation params).at call h
