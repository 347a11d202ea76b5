-- ===== src/Analysis/Activity/Counters.antt =====
-- The first scan of `_analyze_proxy_activity`: its counters and candidates against the events.
use mcp_log_server.Prelude.{
  Bool, Bool-cases, List, Option, [], arith, bool_eq, false, if◌then◌else◌, inl, inr, length,
  list_eq, nat_eq, none, option_eq, refl, some, string_eq, suc, true, ℕ, ◌+◌, ◌<◌, ◌==◌, ◌∷◌, ◌≡◌,
  ◌≤◌,
}
use mcp_log_server.Prelude.Int.{int_eq, ℤ}
use mcp_log_server.Analysis.Activity.{
  Scan, class_rank, count_classified, count_if, count_status, first_scan, is_upstream_error,
  proxy_route_key, scan_event, scan_events,
}
use mcp_log_server.Analysis.Routes.{
  ProxyLineEvent, ProxyRouteKey, StatusClass, class_1xx, class_2xx, class_3xx, class_4xx, class_5xx,
  key_eq,
}
use mcp_log_server.Analysis.Routes.Retained.{record_proxy_route_candidate-IsRecorded}
use mcp_log_server.Analysis.Routes.Summary.{IsSummary, empty-IsSummary}
use mcp_log_server.Analysis.Routes.Tracked.{
  Tracks, empty-Tracks, record_proxy_route_candidate-Tracks,
}
use mcp_log_server.Filtering.Noise.{is_successful_health_request}
use mcp_log_server.SocketApp.Spool.{path_eq}

-- The route that the first scan counts an event to.
abbrev pub key_of_status : ProxyLineEvent → Option ℤ → Option StatusClass → Option ProxyRouteKey
key_of_status event (some s) (some class) = some (proxy_route_key event s)
key_of_status event (some s) none = none
key_of_status event none class = none

abbrev pub counted_key : Option ProxyLineEvent → Option ProxyRouteKey
counted_key none = none
counted_key (some event) =
    if is_successful_health_request event.path event.status_code
    then none
    else key_of_status event event.status_code event.status_class

unfoldable pub push : Option ProxyRouteKey → List ProxyRouteKey → List ProxyRouteKey
push none seen = seen
push (some key) seen = key ∷ seen

-- The counted routes, newest first.
unfoldable pub counted_keys : List (Option ProxyLineEvent) → List ProxyRouteKey → List ProxyRouteKey
unfolding push
counted_keys [] seen = seen
counted_keys (event ∷ events) seen = counted_keys events (push (counted_key event) seen)

abbrev pub all_classes : (StatusClass → ℕ) → ℕ
all_classes f = f class_1xx + f class_2xx + f class_3xx + f class_4xx + f class_5xx

one_more_class :
    (f : StatusClass → ℕ) (class : StatusClass)
    → all_classes (λ c. count_if (class_rank c == class_rank class) (f c)) ≡ suc (all_classes f)
one_more_class f class_1xx = omega arith
one_more_class f class_2xx = omega arith
one_more_class f class_3xx = omega arith
one_more_class f class_4xx = omega arith
one_more_class f class_5xx = omega arith

pub record Agrees (limit : ℕ) (seen : List ProxyRouteKey) (scan : Scan) : Type 0 where
  pub summary : IsSummary limit seen scan.route_candidates
  pub tracked : Tracks limit seen scan.route_candidates scan.route_group_overflowed
  pub http : scan.http_status_line_count ≡ length seen
  pub balance :
      scan.http_status_line_count + scan.excluded_health_check_count ≤ scan.parsed_proxy_line_count
  pub parsed : scan.parsed_proxy_line_count ≤ scan.total_line_count
  pub upstream : scan.upstream_error_count ≤ scan.http_status_line_count
  pub classes : all_classes scan.status_counts ≡ scan.http_status_line_count

pub record Scanned (limit : ℕ) (seen : List ProxyRouteKey) (lines : ℕ) (out : Option Scan)
    : Type 0 where
  pub scan : Scan
  pub done : out ≡ some scan
  pub agrees : Agrees limit seen scan
  pub total_lines : scan.total_line_count ≡ lines

module _ (limit : ℕ) (positive : 0 < limit) where
  count_status-Scanned :
      (event : ProxyLineEvent) (s : ℤ) (class : StatusClass) (seen : List ProxyRouteKey)
      (scan : Scan)
      → Agrees limit seen scan
      → Scanned limit
          (proxy_route_key event s ∷ seen)
          (suc scan.total_line_count)
          (count_status limit event s class scan)
  unfolding count_status
  count_status-Scanned event s class seen scan a =
      let r =
        record_proxy_route_candidate-IsRecorded limit positive (proxy_route_key event s)
          (is_upstream_error s event) seen scan.route_candidates a.summary in
      rw r.recorded (record {
        scan = _;
        done = refl;
        agrees = record {
          summary = r.summary;
          tracked =
              record_proxy_route_candidate-Tracks limit (proxy_route_key event s) seen
                scan.route_candidates scan.route_group_overflowed a.summary a.tracked
                (is_upstream_error s event) _ positive r.recorded;
          http = omega (arith, a.http);
          balance = omega (arith, a.balance);
          parsed = omega (arith, a.parsed);
          upstream = ground (arith, a.upstream);
          classes = omega (arith, a.classes, one_more_class scan.status_counts class);
        };
        total_lines = refl;
      })

  -- A line that the scan does not count to a route.
  skipped-Agrees :
      (seen : List ProxyRouteKey) (scan : Scan) (parsed excluded : Bool)
      → (excluded ≡ true → parsed ≡ true)
      → Agrees limit seen scan
      → Agrees limit seen (record scan {
        total_line_count = suc scan.total_line_count;
        parsed_proxy_line_count = count_if parsed scan.parsed_proxy_line_count;
        excluded_health_check_count = count_if excluded scan.excluded_health_check_count;
      })
  skipped-Agrees seen scan parsed excluded h a = record {
    summary = a.summary;
    tracked = a.tracked;
    http = a.http;
    balance = ground (arith, a.balance);
    parsed = ground (arith, a.parsed);
    upstream = a.upstream;
    classes = a.classes;
  }

  count_classified-Scanned :
      (event : ProxyLineEvent) (s : Option ℤ) (class : Option StatusClass)
      (seen : List ProxyRouteKey) (scan : Scan)
      → Agrees limit seen scan
      → Scanned limit
          (push (key_of_status event s class) seen)
          (suc scan.total_line_count)
          (count_classified limit event s class scan)
  unfolding count_classified push
  count_classified-Scanned event (some s) (some class) seen scan a =
      count_status-Scanned event s class seen scan a
  count_classified-Scanned event (some s) none seen scan a = record {
    scan = _;
    done = refl;
    agrees = skipped-Agrees seen scan true false (λ e. refl) a;
    total_lines = refl;
  }
  count_classified-Scanned event none class seen scan a = record {
    scan = _;
    done = refl;
    agrees = skipped-Agrees seen scan true false (λ e. refl) a;
    total_lines = refl;
  }

  scan_event-Scanned :
      (event : Option ProxyLineEvent) (seen : List ProxyRouteKey) (scan : Scan)
      → Agrees limit seen scan
      → Scanned limit
          (push (counted_key event) seen)
          (suc scan.total_line_count)
          (scan_event limit event scan)
  unfolding scan_event push
  scan_event-Scanned none seen scan a = record {
    scan = _;
    done = refl;
    agrees = skipped-Agrees seen scan false false (λ e. cc) a;
    total_lines = refl;
  }
  scan_event-Scanned (some event) seen scan a =
      elim (Bool-cases (is_successful_health_request event.path event.status_code)) [
        | inl health ↦ simp health (record {
          scan = _;
          done = refl;
          agrees = skipped-Agrees seen scan true true (λ e. refl) a;
          total_lines = refl;
        })
        | inr other ↦
            simp other
              (count_classified-Scanned event event.status_code event.status_class seen scan a)
      ]

  -- The whole scan.
  scan_events-Scanned :
      (events : List (Option ProxyLineEvent)) (seen : List ProxyRouteKey) (scan : Scan)
      → Agrees limit seen scan
      → Scanned limit
          (counted_keys events seen)
          (length events + scan.total_line_count)
          (scan_events limit events scan)
  unfolding scan_events counted_keys
  scan_events-Scanned [] seen scan a = record {
    scan = scan;
    done = refl;
    agrees = a;
    total_lines = omega arith;
  }
  scan_events-Scanned (event ∷ events) seen scan a =
      let first = scan_event-Scanned event seen scan a in
      let rest =
        scan_events-Scanned events (push (counted_key event) seen) first.scan first.agrees in
      rw first.done (record {
        scan = rest.scan;
        done = rest.done;
        agrees = rest.agrees;
        total_lines = omega (arith, rest.total_lines, first.total_lines);
      })

  -- From the start.
  pub first_scan-Scanned :
      (events : List (Option ProxyLineEvent))
      → Scanned limit (counted_keys events []) (length events) (scan_events limit events first_scan)
  first_scan-Scanned events =
      let whole = scan_events-Scanned events [] first_scan (record {
        summary = empty-IsSummary limit;
        tracked = empty-Tracks limit;
        http = refl;
        balance = omega arith;
        parsed = omega arith;
        upstream = omega arith;
        classes = refl;
      }) in
      record {
        scan = whole.scan;
        done = whole.done;
        agrees = whole.agrees;
        total_lines = omega (arith, whole.total_lines);
      }
