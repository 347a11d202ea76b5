-- ===== src/Analysis/Activity.antt =====
-- `_analyze_proxy_activity` and `_build_proxy_route_groups_for_candidates` of
-- src/services/log_analysis.py: the two scans over the events and the result.
pub mod Occurrences
pub mod Counters
pub mod Exact
pub mod Report
use mcp_log_server.Prelude.{
  Bool, List, Option, String, [], bool_eq, contains, false, if◌then◌else◌, list_eq, nat_eq, none,
  option_eq, some, string_eq, suc, true, ℕ, ◌&&◌, ◌==◌, ◌||◌, ◌∷◌,
}
use mcp_log_server.Prelude.Dict.{Dict, insert, lookup}
use mcp_log_server.Prelude.Int.{int_eq, pos, ℤ}
use mcp_log_server.Prelude.Utf8.{Text}
use mcp_log_server.Analysis.Routes.{
  Candidates, ProxyLineEvent, ProxyRouteKey, StatusClass, class_1xx, class_2xx, class_3xx,
  class_4xx, class_5xx, key_eq, record_proxy_route_candidate,
}
use mcp_log_server.Filtering.Candidates.{LineReference}
use mcp_log_server.Filtering.Noise.{is_successful_health_request}
use mcp_log_server.SocketApp.Spool.{path_eq}

abbrev pub class_rank : StatusClass → ℕ
class_rank class_1xx = 1
class_rank class_2xx = 2
class_rank class_3xx = 3
class_rank class_4xx = 4
class_rank class_5xx = 5

abbrev pub status_classes : List StatusClass
status_classes = class_1xx ∷ class_2xx ∷ class_3xx ∷ class_4xx ∷ class_5xx ∷ []

-- The local variables of the first scan; `status_counts` is the defaultdict.
pub record Scan : Type 0 where
  pub route_candidates : Candidates
  pub status_counts : StatusClass → ℕ
  pub total_line_count : ℕ
  pub parsed_proxy_line_count : ℕ
  pub excluded_health_check_count : ℕ
  pub http_status_line_count : ℕ
  pub upstream_error_count : ℕ
  pub route_group_overflowed : Bool

abbrev pub first_scan : Scan
first_scan = record {
  route_candidates = [];
  status_counts = λ c. 0;
  total_line_count = 0;
  parsed_proxy_line_count = 0;
  excluded_health_check_count = 0;
  http_status_line_count = 0;
  upstream_error_count = 0;
  route_group_overflowed = false;
}

abbrev pub count_if : Bool → ℕ → ℕ
count_if b n = if b then suc n else n

-- `status_code in {502, 503, 504}`
abbrev pub is_gateway_error : ℤ → Bool
is_gateway_error s = s == pos 502 || s == pos 503 || s == pos 504

abbrev pub is_upstream_error : ℤ → ProxyLineEvent → Bool
is_upstream_error s event = is_gateway_error s && event.upstream_attempted == some true

-- `_proxy_route_key`
abbrev pub proxy_route_key : ProxyLineEvent → ℤ → ProxyRouteKey
proxy_route_key event s = record {
  host = event.host;
  method = event.method;
  path = event.path;
  status_code = s;
}

abbrev pub and_then : {A B : Type 0} → Option A → (A → Option B) → Option B
and_then none next = none
and_then (some a) next = next a

counted : ProxyLineEvent → ℤ → StatusClass → Scan → Candidates × Bool → Scan
counted event s class scan out =
    let upstream = is_upstream_error s event in
    record {
      route_candidates = out.0;
      status_counts = λ c. count_if (class_rank c == class_rank class) (scan.status_counts c);
      total_line_count = suc scan.total_line_count;
      parsed_proxy_line_count = suc scan.parsed_proxy_line_count;
      excluded_health_check_count = scan.excluded_health_check_count;
      http_status_line_count = suc scan.http_status_line_count;
      upstream_error_count = count_if upstream scan.upstream_error_count;
      route_group_overflowed = out.1 || scan.route_group_overflowed;
    }

-- The part of the loop's body that an event with a status and a class reaches.
count_status : ℕ → ProxyLineEvent → ℤ → StatusClass → Scan → Option Scan
unfolding counted
count_status candidate_limit event s class scan =
    and_then
      (record_proxy_route_candidate candidate_limit (proxy_route_key event s)
        (is_upstream_error s event) scan.route_candidates)
      (λ out. some (counted event s class scan out))

count_classified : ℕ → ProxyLineEvent → Option ℤ → Option StatusClass → Scan → Option Scan
unfolding count_status
count_classified limit event (some s) (some class) scan = count_status limit event s class scan
count_classified limit event (some s) none scan = some (record scan {
  total_line_count = suc scan.total_line_count;
  parsed_proxy_line_count = suc scan.parsed_proxy_line_count;
})
count_classified limit event none class scan = some (record scan {
  total_line_count = suc scan.total_line_count;
  parsed_proxy_line_count = suc scan.parsed_proxy_line_count;
})

-- The body of the first loop.
unfoldable pub scan_event : ℕ → Option ProxyLineEvent → Scan → Option Scan
unfolding count_classified
scan_event limit none scan = some (record scan { total_line_count = suc scan.total_line_count })
scan_event limit (some event) scan =
    let rest = count_classified limit event event.status_code event.status_class scan in
    if is_successful_health_request event.path event.status_code
    then some (record scan {
      total_line_count = suc scan.total_line_count;
      parsed_proxy_line_count = suc scan.parsed_proxy_line_count;
      excluded_health_check_count = suc scan.excluded_health_check_count;
    })
    else rest

unfoldable pub scan_events : ℕ → List (Option ProxyLineEvent) → Scan → Option Scan
scan_events limit [] scan = some scan
scan_events limit (event ∷ events) scan =
    and_then (scan_event limit event scan) (scan_events limit events)

-- `ProxyRouteAccumulator`
pub record RouteGroup : Type 0 where
  pub path : Option Text
  pub host : Option Text
  pub method : Option Text
  pub status_code : ℤ
  pub status_class : StatusClass
  pub count : ℕ
  pub upstream_attempt_count : ℕ
  pub non_upstream_count : ℕ
  pub unknown_upstream_count : ℕ
  pub source_keys : List String
  pub first_seen : Option LineReference
  pub last_seen : Option LineReference

reference_of : ProxyLineEvent → LineReference
reference_of event = record {
  source_key = event.source_key;
  output_file = event.output_file;
  line_number = event.line_number;
  line = event.line;
  line_truncated = event.line_truncated;
}

or_reference : Option LineReference → LineReference → Option LineReference
or_reference none reference = some reference
or_reference (some first) reference = some first

-- `ProxyRouteAccumulator.add`
unfoldable pub add_event : ProxyLineEvent → RouteGroup → RouteGroup
unfolding reference_of or_reference
add_event event group = record group {
  count = suc group.count;
  upstream_attempt_count =
      count_if (event.upstream_attempted == some true) group.upstream_attempt_count;
  non_upstream_count = count_if (event.upstream_attempted == some false) group.non_upstream_count;
  unknown_upstream_count = count_if (event.upstream_attempted == none) group.unknown_upstream_count;
  source_keys =
      if contains group.source_keys event.source_key
      then group.source_keys
      else event.source_key ∷ group.source_keys;
  first_seen = or_reference group.first_seen (reference_of event);
  last_seen = some (reference_of event);
}

abbrev new_group : ProxyLineEvent → ℤ → StatusClass → RouteGroup
new_group event s class = record {
  path = event.path;
  host = event.host;
  method = event.method;
  status_code = s;
  status_class = class;
  count = 0;
  upstream_attempt_count = 0;
  non_upstream_count = 0;
  unknown_upstream_count = 0;
  source_keys = [];
  first_seen = none;
  last_seen = none;
}

group_or_new : Option RouteGroup → RouteGroup → RouteGroup
group_or_new none group = group
group_or_new (some group) _ = group

add_to_group :
    List ProxyRouteKey
    → ProxyLineEvent
    → Option ℤ
    → Option StatusClass
    → Dict ProxyRouteKey RouteGroup
    → Dict ProxyRouteKey RouteGroup
unfolding group_or_new
add_to_group route_keys event (some s) (some class) groups =
    let key = proxy_route_key event s in
    if contains route_keys key
    then insert key (add_event event (group_or_new (lookup key groups) (new_group event s class)))
        groups
    else groups
add_to_group route_keys event (some s) none groups = groups
add_to_group route_keys event none class groups = groups

-- The body of the second loop.
unfoldable pub group_event :
    List ProxyRouteKey
    → Option ProxyLineEvent
    → Dict ProxyRouteKey RouteGroup
    → Dict ProxyRouteKey RouteGroup
unfolding add_to_group
group_event route_keys none groups = groups
group_event route_keys (some event) groups =
    add_to_group route_keys event event.status_code event.status_class groups

-- `_build_proxy_route_groups_for_candidates`
unfoldable pub build_proxy_route_groups :
    List ProxyRouteKey
    → List (Option ProxyLineEvent)
    → Dict ProxyRouteKey RouteGroup
    → Dict ProxyRouteKey RouteGroup
build_proxy_route_groups route_keys [] groups = groups
build_proxy_route_groups route_keys (event ∷ events) groups =
    build_proxy_route_groups route_keys events (group_event route_keys event groups)
