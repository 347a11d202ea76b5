-- ===== src/Analysis/Ingress/Lines.antt =====
-- What `inspect_proxy_activity` returns, for the lines of the files it selects.
use mcp_log_server.Prelude.{
  List, Option, String, [], arith, bool_eq, length, list_eq, ltb, ltb→lt, lt→ltb, min, nat_eq,
  option_eq, refl, some, string_eq, subst, suc, total, true, ℕ, ◌+◌, ◌<◌, ◌↔◌, ◌∙◌, ◌≡◌, ◌≤◌,
}
use mcp_log_server.Prelude.Int.{int_eq}
use mcp_log_server.Prelude.Result.{>>=-ok, ok, ok_inj}
use mcp_log_server.Prelude.Sorting.{distinct}
use mcp_log_server.Analysis.Activity.Counters.{counted_keys}
use mcp_log_server.Analysis.Activity.Report.{
  analyze_proxy_activity, analyze_proxy_activity-IsReport,
}
use mcp_log_server.Analysis.Ingress.{
  ProxyActivity, activity_of, activity_or_none, inspect_proxy_activity,
}
use mcp_log_server.Analysis.Routes.{
  ProxyLineEvent, StatusClass, key_eq, proxy_route_candidate_limit,
}
use mcp_log_server.Analysis.Routes.Tracked.{distinct_count}
use mcp_log_server.Analysis.Sources.{
  as_analysis_error, as_analysis_error-ok, keys_of_sources, proxy_events,
  select_proxy_snapshot_files,
}
use mcp_log_server.Analysis.Sources.Events.{length-proxy_events, lines_of_source}
use mcp_log_server.Analysis.Values.{Runtime}
use mcp_log_server.Filtering.View.{FileRead, Source}

-- The numbers of a result, and that there is one.
pub record IsInspected (read : String → FileRead) (searched : List Source) (max_groups : ℕ)
    (events : List (Option ProxyLineEvent)) (out : Option ProxyActivity) : Type 0 where
  pub activity : ProxyActivity
  pub made : out ≡ some activity
  pub keys_searched : activity.searched_source_keys ≡ keys_of_sources searched
  pub every_line : activity.analysis.total_line_count ≡ total (lines_of_source read) searched
  pub classes :
      total (λ (x : StatusClass × ℕ). x.1) activity.analysis.status_class_counts
      ≡ activity.analysis.http_status_line_count
  pub parsed :
      activity.analysis.http_status_line_count + activity.analysis.excluded_health_check_count
      ≤ activity.analysis.total_line_count
  pub returned : activity.returned_route_group_count ≤ max_groups
  pub cut : activity.truncated ≡ true ↔ (max_groups < distinct_count (counted_keys events []))
  pub exact :
      activity.distinct_route_group_count_is_exact ≡ true
      → activity.distinct_route_group_count ≡ distinct_count (counted_keys events [])

-- The bound on the candidates is above the number of groups.
truncated_iff :
    (max_groups total_count distinct : ℕ)
    → total_count ≡ min (suc (proxy_route_candidate_limit max_groups)) distinct
    → ltb max_groups total_count ≡ true ↔ (max_groups < distinct)
unfolding proxy_route_candidate_limit
truncated_iff max_groups total_count distinct e = (
  λ cut. omega (arith, e, ltb→lt max_groups total_count cut),
  λ more. lt→ltb max_groups total_count (omega (arith, e, more)),
)

module _ (rt : Runtime) (read : String → FileRead) where
  activity_or_none-IsInspected :
      (searched : List Source) (max_groups : ℕ) (events : List (Option ProxyLineEvent))
      → length events ≡ total (lines_of_source read) searched
      → IsInspected read searched max_groups events
          (activity_or_none max_groups searched (analyze_proxy_activity max_groups events))
  unfolding activity_or_none activity_of
  activity_or_none-IsInspected searched max_groups events lines =
      let r = analyze_proxy_activity-IsReport max_groups events in
      rw (r.made) (record {
        activity = activity_of max_groups searched r.report;
        made = refl;
        keys_searched = refl;
        every_line = r.all_lines ∙ lines;
        classes = r.classes;
        parsed = omega (arith, r.judged, r.parsed);
        returned = r.routes;
        cut =
            truncated_iff max_groups r.report.total_route_group_count
              (distinct_count (counted_keys events [])) r.distinct_routes;
        exact = λ e. omega (arith, r.distinct_routes, r.exact.0 e);
      })

  -- Proxy diagnostics that do not fail have a result for the events of the lines of the selected
  -- files. It counts every line of these files once, its status classes add up to the HTTP lines,
  -- these and the health checks are among all lines, it returns no more routes than asked for, it
  -- is truncated exactly when the counted events have more distinct routes than that, and a number
  -- of routes that is marked as exact is the number of distinct routes.
  pub inspect_proxy_activity-IsInspected :
      (requested : Option (List String)) (sources : List Source) (max_groups : ℕ)
      (out : Option ProxyActivity)
      → inspect_proxy_activity rt read requested sources max_groups ≡ ok out
      → (searched : List Source) × (select_proxy_snapshot_files rt requested sources ≡ ok searched)
        × ((events : List (Option ProxyLineEvent)) × (proxy_events rt read searched ≡ ok events)
            × IsInspected read searched max_groups events out)
  unfolding inspect_proxy_activity
  inspect_proxy_activity-IsInspected requested sources max_groups out h =
      let (searched, next, found) = >>=-ok (select_proxy_snapshot_files rt requested sources) _ h in
      let (events, made, opened) =
        >>=-ok (as_analysis_error (proxy_events rt read searched)) _ next in
      let read_all = as_analysis_error-ok (proxy_events rt read searched) events opened in
      (
        searched,
        found,
        (
          events,
          read_all,
          subst (λ r. IsInspected read searched max_groups events r) (ok_inj made)
              (activity_or_none-IsInspected searched max_groups events
                (length-proxy_events rt read searched events read_all)),
        ),
      )
