-- ===== src/Tests/Analysis.antt =====
-- The theorems on the analysis of snapshots, at small inputs.
use mathlib.Core.Option.{some-injective}
use mcp_log_server.Prelude.{
  Bool, List, Option, String, [], ap, arith, bool_eq, false, list_eq, nat_eq, none, option_eq, refl,
  some, string_eq, subst, sym, true, ◌∷◌, ◌≡◌,
}
use mcp_log_server.Prelude.Dict.{insert, lookup, values}
use mcp_log_server.Prelude.Int.{int_eq, pos, ℤ}
use mcp_log_server.Prelude.Sorting.{place, sort}
use mcp_log_server.Prelude.Utf8.{codes}
use mcp_log_server.Analysis.Activity.Counters.{counted_keys, push}
use mcp_log_server.Analysis.Activity.Exact.{IsExact, build_proxy_route_groups-IsExact}
use mcp_log_server.Analysis.Activity.Report.{
  IsReport, analyze_proxy_activity, analyze_proxy_activity-IsReport,
}
use mcp_log_server.Analysis.Groups.{
  ClassifiedFile, ErrorEvent, GroupedAnalysis, add, classified, group_files, group_line,
  group_lines, group_snapshot_errors, os_error,
}
use mcp_log_server.Analysis.Groups.Complete.{IsGrouped, group_snapshot_errors-IsGrouped}
use mcp_log_server.Analysis.Routes.{
  Candidates, ProxyLineEvent, ProxyRouteKey, class_5xx, key_eq, record_absent,
  record_proxy_route_candidate,
}
use mcp_log_server.Analysis.Routes.Retained.{IsRecorded, record_proxy_route_candidate-IsRecorded}
use mcp_log_server.Analysis.Routes.Summary.{IsSummary, empty-IsSummary}
use mcp_log_server.Filtering.Candidates.{LineReference}
use mcp_log_server.Filtering.Noise.{is_successful_health_request}
use mcp_log_server.SocketApp.Spool.{path_eq}

abbrev sample_event : ℤ → ProxyLineEvent
sample_event status = record {
  source_key = "proxy";
  output_file = "proxy.log";
  line_number = 1;
  line = [];
  line_truncated = false;
  status_code = some status;
  status_class = some class_5xx;
  host = none;
  method = none;
  path = none;
  timestamp = none;
  client_ip = none;
  user_agent = none;
  upstream_attempted = some true;
}

abbrev sample_events : List (Option ProxyLineEvent)
sample_events =
    some (sample_event (pos 502))
    ∷ none
    ∷ some (sample_event (pos 500))
    ∷ some (sample_event (pos 502))
    ∷ []

abbrev sample_key : ℤ → ProxyRouteKey
sample_key status = record { host = none; method = none; path = none; status_code = status }

build_proxy_route_groups-IsExact_example :
    IsExact 2 (omega arith) sample_events (sample_key (pos 502))
unfolding counted_keys push is_successful_health_request
build_proxy_route_groups-IsExact_example =
    build_proxy_route_groups-IsExact 2 (omega arith) sample_events (sample_key (pos 502))
      (omega arith)

analyze_proxy_activity-IsReport_example :
    IsReport 1 sample_events (analyze_proxy_activity 1 sample_events)
analyze_proxy_activity-IsReport_example = analyze_proxy_activity-IsReport 1 sample_events

-- The second route evicts the first.
abbrev full_candidates : Candidates
full_candidates =
    (sample_key (pos 500), record { estimated_count = 1; is_upstream_error = false }) ∷ []

abbrev FirstRecord : Type 0
FirstRecord =
    IsRecorded 1 (sample_key (pos 500) ∷ [])
      (record_proxy_route_candidate 1 (sample_key (pos 500)) false [])

first_candidates : (r : FirstRecord) → r.candidates ≡ full_candidates
unfolding record_proxy_route_candidate record_absent lookup insert
first_candidates r =
    ap (λ (x : Candidates × Bool). x.0)
      (sym (some-injective (full_candidates, false) (r.candidates, r.overflowed) r.recorded))

first_record : FirstRecord
first_record =
    record_proxy_route_candidate-IsRecorded 1 (omega arith) (sample_key (pos 500)) false [] []
      (empty-IsSummary 1)

one_key-IsSummary : IsSummary 1 (sample_key (pos 500) ∷ []) full_candidates
one_key-IsSummary =
    subst (λ (d : Candidates). IsSummary 1 (sample_key (pos 500) ∷ []) d)
      (first_candidates first_record) first_record.summary

record_proxy_route_candidate-IsRecorded_example :
    IsRecorded 1
      (sample_key (pos 502) ∷ sample_key (pos 500) ∷ [])
      (record_proxy_route_candidate 1 (sample_key (pos 502)) true full_candidates)
record_proxy_route_candidate-IsRecorded_example =
    record_proxy_route_candidate-IsRecorded 1 (omega arith) (sample_key (pos 502)) true
      (sample_key (pos 500) ∷ []) full_candidates one_key-IsSummary

abbrev sample_error : ErrorEvent
sample_error = record {
  source_key = "web";
  output_file = "web.log";
  line_number = 3;
  line = [];
  line_truncated = false;
  category = "http";
  severity = "high";
  fingerprint = codes "f";
  message_summary = codes "m";
  timestamp = some (codes "t");
  request_path = some (codes "/a");
  request_method = none;
  request_host = some [];
  status_code = some (pos 500);
  level = none;
  has_explicit_message = false;
  identity_kind = "http_summary";
  semantic_summary = codes "s";
  semantic_identity_hash = codes "h";
  upstream_attempted = none;
}

abbrev sample_reference : LineReference
sample_reference = record {
  source_key = "web";
  output_file = "web.log";
  line_number = 3;
  line = [];
  line_truncated = false;
}

abbrev sample_analysis : GroupedAnalysis
sample_analysis = record {
  groups =
      record {
        fingerprint = codes "f";
        category = "http";
        severity = "high";
        message_summary = codes "m";
        identity_kind = "http_summary";
        semantic_summary = codes "s";
        semantic_identity_hash = codes "h";
        upstream_attempted = none;
        count = 2;
        source_keys = "web" ∷ [];
        request_paths = codes "/a" ∷ [];
        request_methods = [];
        request_hosts = [];
        status_codes = pos 500 ∷ [];
        levels = [];
        has_explicit_message = false;
        first_timestamp = some (codes "t");
        last_timestamp = some (codes "t");
        first_seen = some sample_reference;
        last_seen = some sample_reference;
      }
      ∷ [];
  matching_line_count = 3;
  searched_source_keys = "web" ∷ [];
  total_group_count = 1;
  analysis_complete = false;
  analysis_group_limit = 1;
}

-- The third matching line would be a second group.
abbrev sample_files : List (String × ClassifiedFile)
sample_files =
    (
      "web",
      classified (
          some sample_error
          ∷ none
          ∷ some sample_error
          ∷ some (record sample_error { fingerprint = codes "g" })
          ∷ []),
    )
    ∷ ("db", os_error)
    ∷ []

group_snapshot_errors-IsGrouped_example : IsGrouped sample_files 5 0 sample_analysis
unfolding group_snapshot_errors group_files group_lines group_line add lookup insert sort values
    place
group_snapshot_errors-IsGrouped_example =
    group_snapshot_errors-IsGrouped sample_files 5 0 1 sample_analysis refl
