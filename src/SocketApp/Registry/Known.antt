-- ===== src/SocketApp/Registry/Known.antt =====
-- The errors of the parameter checks, operation by operation.
use mathlib.Core.Bool.{false≢true}
use mcp_log_server.Prelude.{
  Bool, List, Option, String, [], arith, contains, false, if◌then◌else◌, missing, nat_eq, none,
  option_eq, refl, some, string_eq, true, ◌==◌, ◌∷◌, ◌≡◌, ◌≢◌,
}
use mcp_log_server.Prelude.Int.{int_eq}
use mcp_log_server.Prelude.Json.{
  Fields, Json, arr, bool, cons, end, field, field_names, get_or_null, int, items, nil, null, str,
}
use mcp_log_server.Prelude.Result.{Result, err, ok, ◌>>=◌}
use mcp_log_server.SocketApp.Registry.{
  ProtocolError, as_list_item, as_optional_bool, as_optional_int, as_optional_log_stream,
  as_optional_string, as_required_string, as_required_string_list, continue_page, continued_fields,
  dispatch, dispatch_inventory, logs_page, new_logs_page, non_empty_strings, optional_bool,
  optional_int, optional_log_stream, optional_string, reject_params, required_string,
  required_string_list, unsupported_operation,
}
use mcp_log_server.SocketApp.Spool.{path_eq}

-- The check never refuses the operation itself.
pub record Accepts {ℓ} {A : Type ℓ} (m : Result ProtocolError A) : Type ℓ where
  pub never : (operation : String) → m ≢ err (unsupported_operation operation)

module _ {ℓ} {A : Type ℓ} where
  pub Accepts-ok : (a : A) → Accepts (ok a)
  Accepts-ok a = record { never = λ o e. cc }

  pub Accepts-bind {κ} :
      {B : Type κ} (m : Result ProtocolError B) (f : B → Result ProtocolError A)
      → Accepts m
      → ((b : B) → Accepts (f b))
      → Accepts (m >>= f)
  Accepts-bind (ok b) f h k = k b
  Accepts-bind (err e) f h k = record { never = λ o q. h.never o (cc) }

  pub Accepts-if :
      (b : Bool) (x y : Result ProtocolError A)
      → Accepts x
      → (b ≡ false → Accepts y)
      → Accepts (if b then x else y)
  Accepts-if true x y p q = p
  Accepts-if false x y p q = q refl

as_required_string-Accepts : (key : String) (j : Json) → Accepts (as_required_string key j)
unfolding as_required_string
as_required_string-Accepts key (str s) = record { never = λ o e. ground arith }
as_required_string-Accepts key null = record { never = λ o e. cc }
as_required_string-Accepts key _ = record { never = λ o e. cc }

required_string-Accepts : (params : Fields) (key : String) → Accepts (required_string params key)
unfolding required_string
required_string-Accepts params key = as_required_string-Accepts key (get_or_null params key)

as_optional_string-Accepts : (key : String) (j : Json) → Accepts (as_optional_string key j)
unfolding as_optional_string
as_optional_string-Accepts key null = record { never = λ o e. cc }
as_optional_string-Accepts key (str s) = record { never = λ o e. cc }
as_optional_string-Accepts key _ = record { never = λ o e. cc }

optional_string-Accepts : (params : Fields) (key : String) → Accepts (optional_string params key)
unfolding optional_string
optional_string-Accepts params key = as_optional_string-Accepts key (get_or_null params key)

as_optional_log_stream-Accepts : (key : String) (j : Json) → Accepts (as_optional_log_stream key j)
unfolding as_optional_log_stream
as_optional_log_stream-Accepts key null = record { never = λ o e. cc }
as_optional_log_stream-Accepts key (str s) = record { never = λ o e. ground arith }
as_optional_log_stream-Accepts key _ = record { never = λ o e. cc }

optional_log_stream-Accepts :
    (params : Fields) (key : String) → Accepts (optional_log_stream params key)
unfolding optional_log_stream
optional_log_stream-Accepts params key = as_optional_log_stream-Accepts key (get_or_null params key)

as_optional_int-Accepts : (key : String) (j : Json) → Accepts (as_optional_int key j)
unfolding as_optional_int
as_optional_int-Accepts key null = record { never = λ o e. cc }
as_optional_int-Accepts key (int z) = record { never = λ o e. cc }
as_optional_int-Accepts key _ = record { never = λ o e. cc }

optional_int-Accepts : (params : Fields) (key : String) → Accepts (optional_int params key)
unfolding optional_int
optional_int-Accepts params key = as_optional_int-Accepts key (get_or_null params key)

as_optional_bool-Accepts : (key : String) (j : Json) → Accepts (as_optional_bool key j)
unfolding as_optional_bool
as_optional_bool-Accepts key null = record { never = λ o e. cc }
as_optional_bool-Accepts key (bool b) = record { never = λ o e. cc }
as_optional_bool-Accepts key _ = record { never = λ o e. cc }

optional_bool-Accepts : (params : Fields) (key : String) → Accepts (optional_bool params key)
unfolding optional_bool
optional_bool-Accepts params key = as_optional_bool-Accepts key (get_or_null params key)

as_list_item-Accepts : (key : String) (j : Json) → Accepts (as_list_item key j)
unfolding as_list_item
as_list_item-Accepts key (str s) = record { never = λ o e. ground arith }
as_list_item-Accepts key null = record { never = λ o e. cc }
as_list_item-Accepts key _ = record { never = λ o e. cc }

non_empty_strings-Accepts : (key : String) (js : List Json) → Accepts (non_empty_strings key js)
unfolding non_empty_strings
non_empty_strings-Accepts key [] = Accepts-ok []
non_empty_strings-Accepts key (j ∷ rest) =
    Accepts-bind (as_list_item key j) _ (as_list_item-Accepts key j) λ s.
      Accepts-bind (non_empty_strings key rest) _ (non_empty_strings-Accepts key rest)
        λ t. Accepts-ok (s ∷ t)

as_required_string_list-Accepts :
    (key : String) (j : Json) → Accepts (as_required_string_list key j)
unfolding as_required_string_list
as_required_string_list-Accepts key (arr nil) = record { never = λ o e. cc }
as_required_string_list-Accepts key (arr (cons j rest)) =
    non_empty_strings-Accepts key (j ∷ items rest)
as_required_string_list-Accepts key null = record { never = λ o e. cc }
as_required_string_list-Accepts key _ = record { never = λ o e. cc }

required_string_list-Accepts :
    (params : Fields) (key : String) → Accepts (required_string_list params key)
unfolding required_string_list
required_string_list-Accepts params key =
    as_required_string_list-Accepts key (get_or_null params key)

reject_params-Accepts : (params : Fields) → Accepts (reject_params params)
unfolding reject_params
reject_params-Accepts end = record { never = λ o e. cc }
reject_params-Accepts (field _ _ _) = record { never = λ o e. cc }

ruleset accepts_rules = (
  Accepts-ok, Accepts-bind, required_string-Accepts, optional_string-Accepts,
  optional_log_stream-Accepts, optional_int-Accepts, optional_bool-Accepts,
  required_string_list-Accepts, reject_params-Accepts,
)

new_logs_page-Accepts : (params : Fields) → Accepts (new_logs_page params)
unfolding new_logs_page
new_logs_page-Accepts params = search accepts_rules depth 9

continue_page-Accepts :
    (params : Fields) (transfer_id : String) (extra : List String)
    → Accepts (continue_page params transfer_id extra)
unfolding continue_page
continue_page-Accepts params transfer_id [] = search accepts_rules
continue_page-Accepts params transfer_id (_ ∷ _) = record { never = λ o e. cc }

logs_page-Accepts :
    (params : Fields) (transfer_id : Option String) → Accepts (logs_page params transfer_id)
unfolding logs_page
logs_page-Accepts params none = new_logs_page-Accepts params
logs_page-Accepts params (some transfer_id) =
    Accepts-if (transfer_id == "") _ _ (record { never = λ o e. cc })
      (λ _.
        continue_page-Accepts params transfer_id (missing (field_names params) continued_fields))

abbrev pub inventory_operations : List String
inventory_operations =
    "vps_containers_inventory" ∷ "vps_volumes_inventory" ∷ "traefik_router_tls_inventory"
    ∷ "crowdsec_activity" ∷ "landingpage_django_list_commands"
    ∷ "landingpage_django_media_inventory" ∷ []

dispatch_inventory-Accepts :
    (operation : String) (params : Fields)
    → contains inventory_operations operation ≡ true
    → Accepts (dispatch_inventory operation params)
unfolding dispatch_inventory
dispatch_inventory-Accepts operation params known =
    Accepts-if (operation == "vps_containers_inventory") _ _ (search accepts_rules) λ a.
      Accepts-if (operation == "vps_volumes_inventory") _ _ (search accepts_rules) λ b.
        Accepts-if (operation == "traefik_router_tls_inventory") _ _ (search accepts_rules) λ c.
          Accepts-if (operation == "crowdsec_activity") _ _ (search accepts_rules) λ d.
            Accepts-if (operation == "landingpage_django_list_commands") _ _ (search accepts_rules)
              λ e.
                Accepts-if (operation == "landingpage_django_media_inventory") _ _
                  (search accepts_rules) λ f. absurd (false≢true (rw (a, b, c, d, e, f) at known))

abbrev pub operations : List String
operations =
    "service_health" ∷ "container_logs" ∷ "container_logs_page" ∷ "container_health"
    ∷ "container_detail" ∷ "container_path_stat" ∷ "container_file_read"
    ∷ "container_directory_list" ∷ inventory_operations

-- An operation of the registry is never refused as unsupported.
pub dispatch-Accepts :
    (operation : String) (params : Fields)
    → contains operations operation ≡ true
    → Accepts (dispatch operation params)
unfolding dispatch
dispatch-Accepts operation params known =
    Accepts-if (operation == "service_health") _ _ (search accepts_rules) λ a.
      Accepts-if (operation == "container_logs") _ _ (search accepts_rules depth 7) λ b.
        Accepts-if (operation == "container_logs_page") _ _
          (Accepts-bind (optional_string params "transfer_id") _
            (optional_string-Accepts params "transfer_id") (logs_page-Accepts params))
          λ c. Accepts-if (operation == "container_health") _ _ (search accepts_rules) λ d.
            Accepts-if (operation == "container_detail") _ _ (search accepts_rules) λ e.
              Accepts-if (operation == "container_path_stat") _ _ (search accepts_rules) λ f.
                Accepts-if (operation == "container_file_read") _ _ (search accepts_rules depth 7)
                  λ g.
                    Accepts-if (operation == "container_directory_list") _ _
                      (search accepts_rules depth 7)
                      λ i.
                        dispatch_inventory-Accepts operation params
                          (rw (a, b, c, d, e, f, g, i) at known)
