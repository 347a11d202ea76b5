-- ===== src/Analysis/Activity/Report.antt =====
-- The result of `_analyze_proxy_activity` in src/services/log_analysis.py, and its counters.
use mcp_log_server.Prelude.{
  Bool, List, Option, String, [], arith, bool_eq, false, if◌then◌else◌, length, length-take,
  list_eq, ltb, min, nat_eq, none, not, option_eq, refl, some, string_eq, suc, take, total, true, ℕ,
  ◌&&◌, ◌+◌, ◌<◌, ◌↔◌, ◌∷◌, ◌≡◌, ◌≤◌,
}
use mcp_log_server.Prelude.Dict.{keys, values}
use mcp_log_server.Prelude.Int.{int_below, int_eq, ℤ}
use mcp_log_server.Prelude.Sorting.{sort, string_below, text_below}
use mcp_log_server.Prelude.Utf8.{Text}
use mcp_log_server.Analysis.Activity.{
  RouteGroup, Scan, and_then, build_proxy_route_groups, first_scan, is_gateway_error, scan_events,
  status_classes,
}
use mcp_log_server.Analysis.Activity.Counters.{counted_keys, first_scan-Scanned}
use mcp_log_server.Analysis.Routes.{
  ProxyLineEvent, StatusClass, key_eq, proxy_route_candidate_limit,
}
use mcp_log_server.Analysis.Routes.Tracked.{distinct_count, exact-Tracks}
use mcp_log_server.Filtering.Candidates.{LineReference}
use mcp_log_server.SocketApp.Spool.{path_eq}

-- `ProxyRouteSignalPayload`
pub record RouteSignal : Type 0 where
  pub path : Option Text
  pub host : Option Text
  pub method : Option Text
  pub status_code : ℤ
  pub status_class : StatusClass
  pub count : ℕ
  pub source_keys : List String
  pub upstream_attempt_count : ℕ
  pub non_upstream_count : ℕ
  pub unknown_upstream_count : ℕ
  pub is_upstream_error : Bool
  pub first_seen : Option LineReference
  pub last_seen : Option LineReference

-- `ProxyActivityAnalysis`, without the searched source keys.
pub record ActivityAnalysis : Type 0 where
  pub total_line_count : ℕ
  pub parsed_proxy_line_count : ℕ
  pub excluded_health_check_count : ℕ
  pub http_status_line_count : ℕ
  pub upstream_error_count : ℕ
  pub status_class_counts : List (StatusClass × ℕ)
  pub top_routes : List RouteSignal
  pub total_route_group_count : ℕ
  pub route_group_count_is_exact : Bool

-- `ProxyRouteAccumulator.to_payload`
unfoldable pub to_payload : RouteGroup → RouteSignal
to_payload group = record {
  path = group.path;
  host = group.host;
  method = group.method;
  status_code = group.status_code;
  status_class = group.status_class;
  count = group.count;
  source_keys = sort string_below group.source_keys;
  upstream_attempt_count = group.upstream_attempt_count;
  non_upstream_count = group.non_upstream_count;
  unknown_upstream_count = group.unknown_upstream_count;
  is_upstream_error = is_gateway_error group.status_code && ltb 0 group.upstream_attempt_count;
  first_seen = group.first_seen;
  last_seen = group.last_seen;
}

-- `route.path or ""`
path_text : Option Text → Text
path_text none = []
path_text (some path) = path

-- The sort key: more counts first, then upstream errors, then higher status codes, then paths.
unfoldable pub route_before : RouteSignal → RouteSignal → Bool
unfolding path_text
route_before a b =
    if ltb b.count a.count
    then true
    else if ltb a.count b.count
    then false
    else if a.is_upstream_error && not b.is_upstream_error
    then true
    else if b.is_upstream_error && not a.is_upstream_error
    then false
    else if int_below b.status_code a.status_code
    then true
    else if int_below a.status_code b.status_code
    then false
    else text_below (path_text a.path) (path_text b.path)

unfoldable pub status_class_counts : (StatusClass → ℕ) → List StatusClass → List (StatusClass × ℕ)
status_class_counts counts [] = []
status_class_counts counts (class ∷ classes) =
    let rest = status_class_counts counts classes in
    if ltb 0 (counts class) then (class, counts class) ∷ rest else rest

abbrev signals_of : List RouteGroup → List RouteSignal
signals_of [] = []
signals_of (group ∷ groups) = to_payload group ∷ signals_of groups

report_of : ℕ → List (Option ProxyLineEvent) → Scan → ActivityAnalysis
report_of max_groups events scan =
    let groups = build_proxy_route_groups (keys scan.route_candidates) events [] in
    record {
      total_line_count = scan.total_line_count;
      parsed_proxy_line_count = scan.parsed_proxy_line_count;
      excluded_health_check_count = scan.excluded_health_check_count;
      http_status_line_count = scan.http_status_line_count;
      upstream_error_count = scan.upstream_error_count;
      status_class_counts = status_class_counts scan.status_counts status_classes;
      top_routes = take max_groups (sort route_before (signals_of (values groups)));
      total_route_group_count =
          length scan.route_candidates + (if scan.route_group_overflowed then 1 else 0);
      route_group_count_is_exact = not scan.route_group_overflowed;
    }

-- `_analyze_proxy_activity`; none is the ValueError of `min` over no candidates.
unfoldable pub analyze_proxy_activity : ℕ → List (Option ProxyLineEvent) → Option ActivityAnalysis
unfolding report_of
analyze_proxy_activity max_groups events =
    and_then (scan_events (proxy_route_candidate_limit max_groups) events first_scan)
      (λ scan. some (report_of max_groups events scan))

-- What the numbers of a report are, for the lines that were read.
pub record IsReport (max_groups : ℕ) (events : List (Option ProxyLineEvent))
    (out : Option ActivityAnalysis) : Type 0 where
  pub report : ActivityAnalysis
  pub made : out ≡ some report
  pub all_lines : report.total_line_count ≡ length events
  pub parsed : report.parsed_proxy_line_count ≤ report.total_line_count
  pub judged :
      report.http_status_line_count + report.excluded_health_check_count
      ≤ report.parsed_proxy_line_count
  pub upstream : report.upstream_error_count ≤ report.http_status_line_count
  pub classes : total (λ x. x.1) report.status_class_counts ≡ report.http_status_line_count
  pub routes : length report.top_routes ≤ max_groups
  pub distinct_routes :
      report.total_route_group_count
      ≡ min (suc (proxy_route_candidate_limit max_groups)) (distinct_count (counted_keys events []))
  pub exact :
      report.route_group_count_is_exact ≡ true
      ↔ (distinct_count (counted_keys events []) ≤ proxy_route_candidate_limit max_groups)

limit-positive : (max_groups : ℕ) → 0 < proxy_route_candidate_limit max_groups
unfolding proxy_route_candidate_limit
limit-positive max_groups = omega arith

total-status_class_counts :
    (counts : StatusClass → ℕ) (classes : List StatusClass)
    → total (λ x. x.1) (status_class_counts counts classes) ≡ total counts classes
unfolding status_class_counts
total-status_class_counts counts [] = refl
total-status_class_counts counts (class ∷ classes) =
    ground (arith, total-status_class_counts counts classes)

-- A report is made of any events. It counts every line, its status classes add up to the HTTP
-- lines, these and the health checks are among the parsed lines, upstream errors are among the
-- HTTP lines, and it holds no more routes than asked for. Its number of route groups is the number
-- of distinct routes of the counted events, up to one more than the limit on candidates, and is
-- marked as exact exactly when the distinct routes are within that limit.
pub analyze_proxy_activity-IsReport :
    (max_groups : ℕ) (events : List (Option ProxyLineEvent))
    → IsReport max_groups events (analyze_proxy_activity max_groups events)
unfolding analyze_proxy_activity report_of
analyze_proxy_activity-IsReport max_groups events =
    let limit = proxy_route_candidate_limit max_groups in
    let s = first_scan-Scanned limit (limit-positive max_groups) events in
    rw s.done (record {
      report = report_of max_groups events s.scan;
      made = refl;
      all_lines = s.total_lines;
      parsed = s.agrees.parsed;
      judged = s.agrees.balance;
      upstream = s.agrees.upstream;
      classes =
          omega (
            arith,
            total-status_class_counts s.scan.status_counts status_classes,
            s.agrees.classes,
          );
      routes = omega (
        arith,
        length-take max_groups (
            sort route_before (
              signals_of
                (values (build_proxy_route_groups (keys s.scan.route_candidates) events [])))),
      );
      distinct_routes = s.agrees.tracked.size;
      exact =
          exact-Tracks limit (counted_keys events []) s.scan.route_candidates
            s.scan.route_group_overflowed s.agrees.summary s.agrees.tracked;
    })
