-- ===== src/Analysis/Classify.antt =====
-- The classification of one log line, `_classify_line` of src/services/log_analysis.py.
pub mod Graded
use mcp_log_server.Prelude.{
  Bool, List, Option, String, [], bool_eq, false, if◌then◌else◌, list_eq, nat_eq, none, not,
  option_eq, some, string_eq, true, ℕ, ◌&&◌, ◌++◌, ◌==◌, ◌||◌, ◌∷◌,
}
use mcp_log_server.Prelude.Int.{at_least, int_eq, ℤ}
use mcp_log_server.Prelude.Json.{Fields}
use mcp_log_server.Prelude.Sorting.{place}
use mcp_log_server.Prelude.Strings.{among, includes}
use mcp_log_server.Prelude.Utf8.{Text, codes}
use mcp_log_server.Analysis.Groups.{ErrorEvent}
use mcp_log_server.Analysis.Normalize.{
  extract_plain_text_message, normalize_raw_fallback, normalize_text,
}
use mcp_log_server.Analysis.Requests.{
  extract_proxy_method_path, request_path_of, truncate_analysis_line,
}
use mcp_log_server.Analysis.Routes.{key_eq, least}
use mcp_log_server.Analysis.Semantics.{build_fingerprint, http_message_summary, semantic_metadata}
use mcp_log_server.Analysis.Values.{
  Runtime, extract_first_string, extract_log_level, extract_message, extract_status,
  extract_timestamp, extract_upstream_attempt_state,
}
use mcp_log_server.Filtering.Extract.{parse_json_line}

includes_some : Text → List String → Bool
includes_some lowered [] = false
includes_some lowered (marker ∷ markers) =
    includes lowered (codes marker) || includes_some lowered markers

-- `_looks_error_like`
unfoldable pub looks_error_like : Runtime → Text → Bool
unfolding includes_some
looks_error_like rt t =
    includes_some (rt.python.lower t)
      ("error" ∷ "exception" ∷ "traceback" ∷ "failed" ∷ "timeout" ∷ "denied" ∷ [])

-- Where a line stands: its source, its file and its number.
pub record Place : Type 0 where
  pub source_key : String
  pub output_file : String
  pub line_number : ℕ

is_level : List String → Option Text → Bool
is_level names none = false
is_level names (some level) = among names level

status_from : ℕ → Option ℤ → Bool
status_from least none = false
status_from least (some z) = at_least z least

-- Category and severity of a structured line.
unfoldable pub verdict : Runtime → Option ℤ → Option Text → Text → Option (String × String)
unfolding is_level status_from
verdict rt status level message =
    if status_from 500 status
    then some ("http_5xx", "high")
    else if status_from 400 status
    then some ("http_4xx", "medium")
    else if is_level ("ERROR" ∷ "CRITICAL" ∷ []) level
    then some ("application_error", "high")
    else if is_level ("WARN" ∷ "WARNING" ∷ []) level && looks_error_like rt message
    then some ("warning_signal", "medium")
    else none

-- The summary of a message, the text that identifies it, and which of the four kinds it is.
pub record MessageSummary : Type 0 where
  pub summary : Text
  pub message : Text
  pub kind : String

without_message : Runtime → Text → Option Text → Text → MessageSummary
without_message rt raw_line (some t) semantic = record {
  summary = normalize_text rt t;
  message = [];
  kind = "http_summary";
}
without_message rt raw_line none semantic =
    if not (semantic == [])
    then record { summary = semantic; message = []; kind = "structured_semantic" }
    else record {
      summary = normalize_raw_fallback rt raw_line;
      message = normalize_raw_fallback rt raw_line;
      kind = "raw_fallback";
    }

unfoldable pub summary_of : Runtime → Text → Text → Option Text → Text → MessageSummary
unfolding without_message
summary_of rt raw_line message http semantic =
    if message == [] then without_message rt raw_line http semantic else record {
      summary = normalize_text rt message;
      message = message;
      kind = "explicit_message";
    }

with_semantic : MessageSummary → Text → Text
with_semantic s semantic =
    if not (semantic == []) && (s.kind == "explicit_message" || s.kind == "http_summary")
    then s.summary ++ (codes " | " ++ semantic)
    else s.summary

folded : Runtime → Option Text → Option Text
folded rt none = none
folded rt (some t) = some (rt.casefold t)

-- The event of a structured line that has a verdict.
structured_event : Runtime → Place → Text → Fields → Option Bool → String × String → ErrorEvent
unfolding summary_of with_semantic folded http_message_summary truncate_analysis_line
    semantic_metadata
structured_event rt place raw_line fields upstream (category, severity) =
    let status = extract_status rt fields in
    let message = extract_message rt fields in
    let (method, path) = extract_proxy_method_path rt fields in
    let host = folded rt (
      extract_first_string rt fields
        ("host" ∷ "request_host" ∷ "http_host" ∷ "server_name" ∷ "RequestHost" ∷ [])) in
    let (semantic, semantic_hash) = semantic_metadata rt fields status in
    let s =
      summary_of rt raw_line message (http_message_summary rt status method host path) semantic in
    let summary = (truncate_analysis_line (with_semantic s semantic)).0 in
    record {
      source_key = place.source_key;
      output_file = place.output_file;
      line_number = place.line_number;
      line = (truncate_analysis_line raw_line).0;
      line_truncated = (truncate_analysis_line raw_line).1;
      category = category;
      severity = severity;
      fingerprint =
          build_fingerprint rt place.source_key
            (record {
              category = category;
              status_code = status;
              request_path = path;
              request_method = method;
              request_host = host;
              identity_kind = s.kind;
              message = s.message;
              semantic_hash = semantic_hash;
              upstream_attempted = upstream;
            })
            summary;
      message_summary = summary;
      timestamp = extract_timestamp fields;
      request_path = path;
      request_method = method;
      request_host = host;
      status_code = status;
      level = extract_log_level rt fields;
      has_explicit_message = not (message == []);
      identity_kind = s.kind;
      semantic_summary = semantic;
      semantic_identity_hash = semantic_hash;
      upstream_attempted = upstream;
    }

event_of :
    Runtime → Place → Text → Fields → Option Bool → Option (String × String) → Option ErrorEvent
unfolding structured_event
event_of rt place raw_line fields upstream none = none
event_of rt place raw_line fields upstream (some found) =
    some (structured_event rt place raw_line fields upstream found)

-- `_classify_structured_line`
unfoldable pub classify_structured_line :
    Runtime → Place → Text → Fields → Option Bool → Option ErrorEvent
unfolding event_of
classify_structured_line rt place raw_line fields upstream =
    event_of rt place raw_line fields upstream (
      verdict rt (extract_status rt fields) (extract_log_level rt fields)
        (extract_message rt fields))

text_event : Runtime → Place → Text → ErrorEvent
unfolding truncate_analysis_line
text_event rt place raw_line =
    let (message, timestamp) = extract_plain_text_message rt raw_line in
    let summary = (truncate_analysis_line (normalize_text rt message)).0 in
    record {
      source_key = place.source_key;
      output_file = place.output_file;
      line_number = place.line_number;
      line = (truncate_analysis_line raw_line).0;
      line_truncated = (truncate_analysis_line raw_line).1;
      category = "text_error";
      severity = "medium";
      fingerprint =
          build_fingerprint rt place.source_key
            (record {
              category = "text_error";
              status_code = none;
              request_path = request_path_of rt raw_line;
              request_method = none;
              request_host = none;
              identity_kind = "plain_text_message";
              message = message;
              semantic_hash = [];
              upstream_attempted = none;
            })
            summary;
      message_summary = summary;
      timestamp = timestamp;
      request_path = request_path_of rt raw_line;
      request_method = none;
      request_host = none;
      status_code = none;
      level = none;
      has_explicit_message = true;
      identity_kind = "plain_text_message";
      semantic_summary = [];
      semantic_identity_hash = [];
      upstream_attempted = none;
    }

-- `_classify_text_line`
unfoldable pub classify_text_line : Runtime → Place → Text → Option ErrorEvent
unfolding text_event
classify_text_line rt place raw_line =
    if looks_error_like rt raw_line then some (text_event rt place raw_line) else none

by_payload : Runtime → Place → Text → Bool → Option Fields → Option ErrorEvent
by_payload rt place raw_line is_proxy none = classify_text_line rt place raw_line
by_payload rt place raw_line is_proxy (some fields) =
    classify_structured_line rt place raw_line fields
      (if is_proxy then extract_upstream_attempt_state rt fields else none)

-- `_classify_line`
unfoldable pub classify_line : Runtime → Place → Text → Bool → Option ErrorEvent
unfolding by_payload
classify_line rt place raw_line is_proxy =
    by_payload rt place raw_line is_proxy (parse_json_line rt.python raw_line)
