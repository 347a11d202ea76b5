-- ===== src/Analysis/Requests.antt =====
-- Methods and paths of requests, and the proxy event of a parsed line, in
-- src/services/log_analysis.py.
use mcp_log_server.Prelude.{
  Bool, Option, String, [], bool_eq, contains, false, if◌then◌else◌, leb, length, list_eq, nat_eq,
  none, not, option_eq, some, string_eq, take, true, ℕ, ◌&&◌, ◌==◌, ◌||◌, ◌∷◌,
}
use mcp_log_server.Prelude.Int.{int_eq}
use mcp_log_server.Prelude.Json.{Fields, Json, get_or_null, null, str}
use mcp_log_server.Prelude.Matcher.{
  End, Matcher, grouped, line_end, literal, match_after, maybe, one, plus, ◌then_match◌,
}
use mcp_log_server.Prelude.Strings.{is_space, starts_with, strip}
use mcp_log_server.Prelude.Utf8.{Text, codes, encode}
use mcp_log_server.Analysis.Routes.{ProxyLineEvent, key_eq, status_class_of}
use mcp_log_server.Analysis.Values.{
  Runtime, extract_first_string, extract_status, extract_timestamp, extract_upstream_attempt_state,
  first_truthy, non_empty, or_other, str_of, text_or_empty,
}
use mcp_log_server.Filtering.Cut.{decode_ignore}

not_blank : ℕ → Bool
not_blank c = not (is_space c)

between : ℕ → ℕ → ℕ → Bool
between low high c = leb low c && leb c high

-- The characters of `_HTTP_METHOD_TOKEN_PATTERN`.
is_token_char : ℕ → Bool
unfolding between
is_token_char c =
    between 48 57 c || between 65 90 c || between 97 122 c || contains (codes "!#$%&'*+-.^_`|~") c

-- `_REQUEST_METHOD_PATH_PATTERN`, for the group of the method and for that of the path.
method_pattern : Matcher
unfolding is_token_char not_blank
method_pattern = grouped (plus is_token_char) then_match plus is_space then_match plus not_blank

path_pattern : Matcher
unfolding is_token_char not_blank
path_pattern = plus is_token_char then_match plus is_space then_match grouped (plus not_blank)

-- `_REQUEST_LINE_PATTERN`
request_line_pattern : Runtime → Matcher
unfolding is_token_char not_blank
request_line_pattern rt =
    plus is_token_char
    then_match plus is_space
    then_match grouped (plus not_blank)
    then_match plus is_space
    then_match literal (codes "HTTP/")
    then_match one rt.python.is_decimal
    then_match maybe (one (λ c. c == 46) then_match one rt.python.is_decimal)
    then_match line_end

group_of : Option End → Option Text
group_of none = none
group_of (some e) = some e.group

unfoldable pub matched_group : Matcher → Text → Option Text
unfolding match_after group_of
matched_group m t = group_of (match_after m none t)

direct_path : Runtime → Text → Option Text
unfolding matched_group request_line_pattern
direct_path rt t =
    if t == []
    then none
    else if starts_with t (47 ∷ [])
    then some t
    else matched_group (request_line_pattern rt) t

-- `_extract_request_path`
unfoldable pub request_path_of : Runtime → Text → Option Text
unfolding direct_path
request_path_of rt t = direct_path rt (strip t)

field_path : Runtime → Fields → String → Option Text
unfolding text_or_empty
field_path rt fields key = request_path_of rt (text_or_empty rt (get_or_null fields key))

method_token : Runtime → Json → Option Text
unfolding str_of non_empty
method_token rt null = none
method_token rt j = non_empty (strip (str_of rt j))

-- Where the request field has no method and path.
other_fields : Runtime → Fields → Option Text → Option Text × Option Text
unfolding method_token field_path or_other first_truthy
other_fields rt fields request_path = (
  method_token rt (first_truthy fields ("method" ∷ "request_method" ∷ "RequestMethod" ∷ [])),
  or_other request_path (
      or_other (field_path rt fields "request_path")
        (or_other (field_path rt fields "RequestPath") (field_path rt fields "path"))),
)

of_request_text : Runtime → Fields → Text → Option Text → Option Text × Option Text
unfolding other_fields
of_request_text rt fields request none = other_fields rt fields (request_path_of rt request)
of_request_text rt fields request (some method) = (some method, matched_group path_pattern request)

of_request : Runtime → Fields → Json → Option Text × Option Text
unfolding of_request_text matched_group method_pattern path_pattern
of_request rt fields (str s) =
    of_request_text rt fields (strip (codes s)) (matched_group method_pattern (strip (codes s)))
of_request rt fields _ = other_fields rt fields none

-- `_extract_proxy_method_path`
unfoldable pub extract_proxy_method_path : Runtime → Fields → Option Text × Option Text
unfolding of_request
extract_proxy_method_path rt fields = of_request rt fields (get_or_null fields "request")

abbrev pub max_analysis_line_bytes : ℕ
max_analysis_line_bytes = 2000

-- `_truncate_line`
unfoldable pub truncate_analysis_line : Text → Text × Bool
truncate_analysis_line value =
    if leb (length (encode value)) max_analysis_line_bytes
    then (value, false)
    else (decode_ignore (take max_analysis_line_bytes (encode value)), true)

-- `_parse_proxy_line`
unfoldable pub parse_proxy_line : Runtime → String → String → ℕ → Text → Fields → ProxyLineEvent
unfolding truncate_analysis_line
parse_proxy_line rt source_key output_file line_number raw_line fields = record {
  source_key = source_key;
  output_file = output_file;
  line_number = line_number;
  line = (truncate_analysis_line raw_line).0;
  line_truncated = (truncate_analysis_line raw_line).1;
  timestamp = extract_timestamp fields;
  status_code = extract_status rt fields;
  status_class = status_class_of (extract_status rt fields);
  host =
      extract_first_string rt fields
        ("host" ∷ "request_host" ∷ "http_host" ∷ "server_name" ∷ "RequestHost" ∷ []);
  method = (extract_proxy_method_path rt fields).0;
  path = (extract_proxy_method_path rt fields).1;
  client_ip =
      extract_first_string rt fields
        ("remote_addr" ∷ "client_ip" ∷ "ip" ∷ "request_ip" ∷ "ClientHost" ∷ []);
  user_agent =
      extract_first_string rt fields ("user_agent" ∷ "http_user_agent" ∷ "request_user_agent" ∷ []);
  upstream_attempted = extract_upstream_attempt_state rt fields;
}
