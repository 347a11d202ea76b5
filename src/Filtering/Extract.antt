-- ===== src/Filtering/Extract.antt =====
-- What src/services/log_filtering.py reads off one log line: its JSON, request path, status and
-- level, and whether it tells of an incident. The tables of Unicode, `int` and `json.loads` are
-- the fields of `Python`.
use mcp_log_server.Prelude.{
  Bool, List, Option, String, [], bool_eq, false, if◌then◌else◌, list_eq, nat_eq, none, not,
  option_eq, some, string_eq, ℕ, ◌==◌, ◌||◌, ◌∷◌,
}
use mcp_log_server.Prelude.Dict.{keys}
use mcp_log_server.Prelude.Int.{at_least, int_eq, ℤ}
use mcp_log_server.Prelude.Json.{Fields, Json, bool, bool_int, get_or_null, int, items, obj, str}
use mcp_log_server.Prelude.Regex.{
  Item, boundary, group_end, group_start, line_end, match_start, one, plus, search_first, star,
}
use mcp_log_server.Prelude.Result.{Result, err, ok, ◌>>=◌}
use mcp_log_server.Prelude.Strings.{among, includes, is_space, split_words, starts_with, strip}
use mcp_log_server.Prelude.Utf8.{Text, codes}
use mcp_log_server.SocketApp.Spool.{path_eq}

-- `json_loads` is none where JSONDecodeError is raised, `int_of` where ValueError is.
pub record Python : Type 0 where
  pub is_word : ℕ → Bool
  pub is_decimal : ℕ → Bool
  pub lower : Text → Text
  pub is_digit : Text → Bool
  pub int_of : Text → Option ℤ
  pub json_loads : Text → Option Json

pub data ValueError : Type 0 where
  invalid_int : ValueError

not_space : ℕ → Bool
not_space c = not (is_space c)

-- `_DOCKER_JSON_LINE_PATTERN`
docker_json_line_pattern : List Item
unfolding not_space
docker_json_line_pattern =
    plus not_space
    ∷ plus is_space
    ∷ group_start
    ∷ one (λ c. c == 123)
    ∷ star (λ c. not (c == 10))
    ∷ one (λ c. c == 125)
    ∷ group_end
    ∷ star is_space
    ∷ line_end
    ∷ []

literal_items : Text → List Item → List Item
literal_items [] items = items
literal_items (c ∷ t) items = one (λ d. d == c) ∷ literal_items t items

-- `_COMBINED_LOG_STATUS_PATTERN`
combined_log_status_pattern : Python → List Item
unfolding not_space literal_items
combined_log_status_pattern py =
    one (λ c. c == 34)
    ∷ plus not_space
    ∷ plus is_space
    ∷ plus not_space
    ∷ plus is_space
    ∷ literal_items (codes "HTTP/") (
        plus (λ c. not (c == 34))
        ∷ one (λ c. c == 34)
        ∷ plus is_space
        ∷ group_start
        ∷ one py.is_decimal
        ∷ one py.is_decimal
        ∷ one py.is_decimal
        ∷ group_end
        ∷ boundary py.is_word
        ∷ [])

as_object : Option Json → Option Fields
as_object (some (obj fields)) = some fields
as_object _ = none

json_of_group : Python → Option Text → Option Json
json_of_group py none = none
json_of_group py (some group) = py.json_loads group

json_or_docker_json : Python → Text → Option Json → Option Json
unfolding json_of_group
json_or_docker_json py raw_line (some j) = some j
json_or_docker_json py raw_line none =
    json_of_group py (match_start docker_json_line_pattern raw_line)

unfoldable pub parse_json_line : Python → Text → Option Fields
unfolding as_object json_or_docker_json docker_json_line_pattern
parse_json_line py raw_line = as_object (json_or_docker_json py raw_line (py.json_loads raw_line))

path_value : Json → Option Text
path_value (str s) = if starts_with (codes s) (codes "/") then some (codes s) else none
path_value _ = none

or_next : {A : Type 0} → Option A → Option A → Option A
or_next none other = other
or_next (some a) other = some a

first_path : Fields → List String → Option Text
unfolding path_value or_next
first_path fields [] = none
first_path fields (key ∷ keys) =
    or_next (path_value (get_or_null fields key)) (first_path fields keys)

-- The second word, if it begins with a slash.
second_word_path : List Text → Option Text
second_word_path (w ∷ path ∷ words) = if starts_with path (codes "/") then some path else none
second_word_path _ = none

request_value_path : Json → Option Text
unfolding second_word_path
request_value_path (str s) = second_word_path (split_words (codes s))
request_value_path _ = none

path_of_fields : Option Fields → Option Text
unfolding first_path request_value_path or_next
path_of_fields none = none
path_of_fields (some fields) =
    or_next (first_path fields ("request_path" ∷ "path" ∷ "url_path" ∷ "uri" ∷ "RequestPath" ∷ []))
      (request_value_path (get_or_null fields "request"))

unfoldable pub extract_request_path : Option Fields → Text → Option Text
unfolding path_of_fields second_word_path or_next
extract_request_path parsed raw_line =
    or_next (path_of_fields parsed) (second_word_path (split_words raw_line))

as_int : Python → Text → Result ValueError (Option ℤ)
as_int py t = elim (py.int_of t) [ none ↦ err invalid_int | some z ↦ ok (some z) ]

-- A bool is an int.
status_value : Python → Json → Result ValueError (Option ℤ)
unfolding as_int
status_value py (int z) = ok (some z)
status_value py (bool b) = ok (some (bool_int b))
status_value py (str s) = if py.is_digit (codes s) then as_int py (codes s) else ok none
status_value py _ = ok none

abbrev or_later : Option ℤ → Result ValueError (Option ℤ) → Result ValueError (Option ℤ)
or_later (some z) later = ok (some z)
or_later none later = later

first_status : Python → Fields → List String → Result ValueError (Option ℤ)
unfolding status_value
first_status py fields [] = ok none
first_status py fields (key ∷ keys) =
    let later = first_status py fields keys in
    status_value py (get_or_null fields key) >>= λ status. or_later status later

status_of_fields : Python → Option Fields → Result ValueError (Option ℤ)
unfolding first_status
status_of_fields py none = ok none
status_of_fields py (some fields) = first_status py fields (
    "status" ∷ "status_code" ∷ "statusCode" ∷ "DownstreamStatus" ∷ "OriginStatus"
    ∷ "downstream_status" ∷ "origin_status" ∷ [])

status_of_group : Python → Option Text → Result ValueError (Option ℤ)
unfolding as_int
status_of_group py none = ok none
status_of_group py (some group) = as_int py group

unfoldable pub extract_status_code : Python → Option Fields → Text → Result ValueError (Option ℤ)
unfolding status_of_fields status_of_group combined_log_status_pattern
extract_status_code py parsed raw_line = status_of_fields py parsed >>= λ status.
    or_later status (status_of_group py (search_first (combined_log_status_pattern py) raw_line))

level_value : Python → Json → Option Text
level_value py (str s) = some (py.lower (strip (codes s)))
level_value py _ = none

extract_level : Python → Option Fields → Option Text
unfolding level_value
extract_level py none = none
extract_level py (some fields) = level_value py (get_or_null fields "level")

abbrev pub incident_keywords : List String
incident_keywords =
    "error" ∷ "exception" ∷ "traceback" ∷ "failed" ∷ "failure" ∷ "critical" ∷ "fatal" ∷ "panic"
    ∷ "banned" ∷ "blocked" ∷ "forbidden" ∷ []

any_keyword : List String → Text → Bool
any_keyword [] t = false
any_keyword (keyword ∷ keywords) t = includes t (codes keyword) || any_keyword keywords t

is_error_status : Option ℤ → Bool
is_error_status none = false
is_error_status (some s) = at_least s 400

is_incident_level : Option Text → Bool
is_incident_level none = false
is_incident_level (some level) =
    among ("warning" ∷ "warn" ∷ "error" ∷ "critical" ∷ "exception" ∷ "fatal" ∷ []) level

unfoldable pub is_incident_line : Python → Text → Result ValueError Bool
unfolding any_keyword is_error_status is_incident_level extract_level
is_incident_line py raw_line = do
  status ← extract_status_code py (parse_json_line py raw_line) raw_line
  ok (
      is_error_status status
      || is_incident_level (extract_level py (parse_json_line py raw_line))
      || any_keyword incident_keywords (py.lower raw_line))
