-- ===== src/Analysis/Ingress.antt =====
-- `inspect_proxy_activity` of src/services/log_analysis.py: the diagnostics of the proxies' files,
-- without what is copied from the request.
pub mod Lines
use mcp_log_server.Prelude.{
  Bool, List, Option, String, bool_eq, length, list_eq, ltb, nat_eq, none, option_eq, some,
  string_eq, ℕ, ◌-◌,
}
use mcp_log_server.Prelude.Int.{int_eq}
use mcp_log_server.Prelude.Result.{Result, ok, ◌>>=◌, ◌>>◌}
use mcp_log_server.Analysis.Activity.Report.{ActivityAnalysis, analyze_proxy_activity}
use mcp_log_server.Analysis.Routes.{key_eq}
use mcp_log_server.Analysis.Sources.{
  AnalysisError, as_analysis_error, keys_of_sources, proxy_events, select_proxy_snapshot_files,
}
use mcp_log_server.Analysis.Values.{Runtime}
use mcp_log_server.Filtering.View.{FileRead, Source}

-- `InspectProxyActivityPayload`
pub record ProxyActivity : Type 0 where
  pub searched_source_keys : List String
  pub analysis : ActivityAnalysis
  pub max_groups : ℕ
  pub truncated : Bool
  pub returned_route_group_count : ℕ
  pub distinct_route_group_count : ℕ
  pub distinct_route_group_count_is_exact : Bool
  pub omitted_route_group_count : ℕ
  pub route_groups_omitted : Bool

activity_of : ℕ → List Source → ActivityAnalysis → ProxyActivity
activity_of max_groups searched analysis = record {
  searched_source_keys = keys_of_sources searched;
  analysis = analysis;
  max_groups = max_groups;
  truncated = ltb max_groups analysis.total_route_group_count;
  returned_route_group_count = length analysis.top_routes;
  distinct_route_group_count = analysis.total_route_group_count;
  distinct_route_group_count_is_exact = analysis.route_group_count_is_exact;
  omitted_route_group_count = analysis.total_route_group_count - length analysis.top_routes;
  route_groups_omitted = ltb max_groups analysis.total_route_group_count;
}

activity_or_none : ℕ → List Source → Option ActivityAnalysis → Option ProxyActivity
unfolding activity_of
activity_or_none max_groups searched none = none
activity_or_none max_groups searched (some analysis) =
    some (activity_of max_groups searched analysis)

module _ (rt : Runtime) (read : String → FileRead) where
  -- `inspect_proxy_activity`; none is the ValueError of `min` over no candidates.
  unfoldable pub inspect_proxy_activity :
      Option (List String) → List Source → ℕ → Result AnalysisError (Option ProxyActivity)
  unfolding activity_or_none
  inspect_proxy_activity requested sources max_groups = do
    searched ← select_proxy_snapshot_files rt requested sources
    events ← as_analysis_error (proxy_events rt read searched)
    ok (activity_or_none max_groups searched (analyze_proxy_activity max_groups events))
