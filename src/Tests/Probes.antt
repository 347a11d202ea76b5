-- ===== src/Tests/Probes.antt =====
-- The theorem on the report of probes and bans, at a proxy's file and one of CrowdSec.
use mcp_log_server.Prelude.{
  List, Option, String, [], bool_eq, false, if◌then◌else◌, leb, list_eq, nat_eq, none, option_eq,
  refl, some, string_eq, true, ◌&&◌, ◌==◌, ◌||◌, ◌∷◌, ◌≡◌,
}
use mcp_log_server.Prelude.Dict.{insert, lookup}
use mcp_log_server.Prelude.Int.{int_eq, pos}
use mcp_log_server.Prelude.Json.{end, field, int, obj, str}
use mcp_log_server.Prelude.Matcher.{
  again_other, boundary, either, grouped, line_end, literal, match_after, maybe, nothing, one,
  other_grouped, plus, search_match, star,
}
use mcp_log_server.Prelude.Regex.{match_start}
use mcp_log_server.Prelude.Result.{ok}
use mcp_log_server.Prelude.Sorting.{distinct, place, sort}
use mcp_log_server.Prelude.Strings.{
  is_space, reverse_onto, starts_with, strip, strip_end, strip_start,
}
use mcp_log_server.Prelude.Utf8.{Text, codes, encode, encode_char}
use mcp_log_server.Analysis.Probes.{
  add_crowdsec_appsec_ban_event, add_sensitive_probe_event, ban_of, is_suspicious_path,
  sensitive_probe,
}
use mcp_log_server.Analysis.Probes.Report.{
  ProbeReport, inspect_probe_blocking_activity, is_scanned, probe_report, scan_line, scan_lines,
  scan_sources, to_ban_payload, to_ip_payload,
}
use mcp_log_server.Analysis.Probes.Report.Counted.{
  IsCounted, inspect_probe_blocking_activity-IsCounted,
}
use mcp_log_server.Analysis.Requests.{
  extract_proxy_method_path, matched_group, parse_proxy_line, request_path_of,
  truncate_analysis_line,
}
use mcp_log_server.Analysis.Routes.{key_eq, status_class_of}
use mcp_log_server.Analysis.Sources.{
  as_analysis_error, available_sources, keys_of_sources, select_snapshot_files, without_newline,
}
use mcp_log_server.Analysis.Values.{
  Runtime, extract_first_string, extract_status, extract_timestamp, extract_upstream_attempt_state,
  first_truthy, int_value, non_empty, or_other, str_of, text_or_empty, truthy,
}
use mcp_log_server.Filtering.Cut.{decode_from, emit, lead, read_byte}
use mcp_log_server.Filtering.Extract.{parse_json_line}
use mcp_log_server.Filtering.View.{FileRead, Source, file_lines}

-- The line `a` is a request for a hidden file that was answered with 404.
abbrev pub sample_runtime : Runtime
sample_runtime = record {
  python = record {
    is_word = λ c. (leb 48 c && leb c 57) || (leb 97 c && leb c 122);
    is_decimal = λ c. leb 48 c && leb c 57;
    lower = λ t. t;
    is_digit = λ t. false;
    int_of = λ t. none;
    json_loads = λ t.
        if t == (97 ∷ [])
        then some (
            obj (
              field "status" (int (pos 404))
                (field "ip" (str "10.0.0.7") (field "path" (str "/app/.env") end))))
        else none;
  };
  upper = λ t. t;
  casefold = λ t. t;
  repr = λ j. [];
  dumps = λ d. [];
  sha256 = λ t. t;
}

abbrev pub sample_source : String → Option String → Source
sample_source key profile = record {
  source_key = key;
  parser_type = none;
  normalization_profile = profile;
  default_noise_profile = none;
  collected = true;
  file = some (record { name = key; path = key });
}

abbrev ban_line : Text
ban_line = codes "time=\"now\" msg=\"appsec/second-probe by ip 10.0.0.7 : 9h ban on Ip 10.0.0.7\"\n"

abbrev pub sample_read : String → FileRead
sample_read path =
    if path == "crowdsec_runtime"
    then file_lines (ban_line ∷ (97 ∷ []) ∷ [])
    else file_lines ((97 ∷ 10 ∷ []) ∷ (98 ∷ []) ∷ (97 ∷ []) ∷ [])

abbrev pub sample_sources : List Source
sample_sources =
    sample_source "crowdsec_runtime" none
    ∷ sample_source "web" (some "proxy_access")
    ∷ sample_source "db" none
    ∷ []

abbrev probe_address : Text
probe_address = codes "10.0.0.7"

abbrev sample_report : ProbeReport
sample_report = record {
  searched_source_keys = "crowdsec_runtime" ∷ "web" ∷ "db" ∷ [];
  suspicious_ip_count = 1;
  suspicious_access_count = 2;
  observed_appsec_ban_ip_count = 1;
  appsec_bans =
      record {
        ip = probe_address;
        appsec_ban_count = 1;
        last_appsec_ban_at = codes "now";
        has_suspicious_access_context = true;
      }
      ∷ [];
  suspicious_ips =
      record {
        ip = probe_address;
        sources = "crowdsec_runtime" ∷ "web" ∷ [];
        suspicious_access_count = 2;
        paths = codes "/app/.env" ∷ [];
        last_seen = [];
        observed_appsec_ban = true;
        appsec_ban_count = 1;
        last_appsec_ban_at = codes "now";
      }
      ∷ [];
}

reported :
    inspect_probe_blocking_activity sample_runtime sample_read none sample_sources
    ≡ ok sample_report
unfolding add_crowdsec_appsec_ban_event add_sensitive_probe_event again_other as_analysis_error
    available_sources ban_of boundary decode_from distinct either emit encode encode_char
    extract_first_string extract_proxy_method_path extract_status extract_timestamp
    extract_upstream_attempt_state first_truthy grouped insert inspect_probe_blocking_activity
    int_value is_scanned is_space is_suspicious_path keys_of_sources lead line_end literal lookup
    match_after match_start matched_group maybe non_empty nothing one or_other other_grouped
    parse_json_line parse_proxy_line place plus probe_report read_byte request_path_of reverse_onto
    scan_line scan_lines scan_sources search_match select_snapshot_files sensitive_probe sort star
    starts_with status_class_of str_of strip strip_end strip_start text_or_empty to_ban_payload
    to_ip_payload truncate_analysis_line truthy without_newline
reported = refl

inspect_probe_blocking_activity-IsCounted_example :
    (searched : List Source) × (select_snapshot_files none sample_sources ≡ ok searched)
    × IsCounted sample_runtime sample_read searched sample_report
inspect_probe_blocking_activity-IsCounted_example =
    inspect_probe_blocking_activity-IsCounted sample_runtime sample_read none sample_sources
      sample_report reported
