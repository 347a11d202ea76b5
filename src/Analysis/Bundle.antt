-- ===== src/Analysis/Bundle.antt =====
-- `build_incident_bundle` and `inspect_proxy_activity` of src/services/log_analysis.py: the
-- results for a snapshot, without what is copied from the request.
pub mod Summaries
pub mod Sums
use mcp_log_server.Prelude.{
  Bool, List, Option, String, [], bool_eq, if◌then◌else◌, length, list_eq, map, nat_eq, none,
  option_eq, select, some, string_eq, suc, take, ℕ, ◌++◌, ◌+◌, ◌==◌, ◌∷◌,
}
use mcp_log_server.Prelude.Dict.{Dict, insert, keys, lookup}
use mcp_log_server.Prelude.Int.{int_eq, pos}
use mcp_log_server.Prelude.Json.{int}
use mcp_log_server.Prelude.Result.{Result, ok, ◌>>=◌}
use mcp_log_server.Prelude.Sorting.{sort, string_below}
use mcp_log_server.Prelude.Utf8.{Text, codes}
use mcp_log_server.Analysis.Groups.{ErrorGroup, GroupedAnalysis}
use mcp_log_server.Analysis.Routes.{key_eq}
use mcp_log_server.Analysis.Sources.{AnalysisError, group_errors}
use mcp_log_server.Analysis.Values.{Runtime, str_of}
use mcp_log_server.Filtering.Candidates.{LineReference}
use mcp_log_server.Filtering.View.{FileRead, Source}

-- `IncidentSourceSummaryPayload`
pub record SourceSummary : Type 0 where
  pub source_key : String
  pub grouped_error_count : ℕ
  pub matching_line_count : ℕ
  pub first_timestamp : Option Text
  pub last_timestamp : Option Text

-- The four dicts of `_build_source_summaries`.
pub record SourceTotals : Type 0 where
  pub group_counts : Dict String ℕ
  pub line_counts : Dict String ℕ
  pub first_timestamps : Dict String (Option Text)
  pub last_timestamps : Dict String (Option Text)

abbrev pub no_totals : SourceTotals
no_totals = record {
  group_counts = [];
  line_counts = [];
  first_timestamps = [];
  last_timestamps = [];
}

-- An entry of a `defaultdict(int)`.
abbrev pub count_or_zero : Option ℕ → ℕ
count_or_zero none = 0
count_or_zero (some n) = n

keep_first :
    String
    → Option Text
    → Option (Option Text)
    → Dict String (Option Text)
    → Dict String (Option Text)
keep_first key t none d = insert key t d
keep_first key t (some first) d = d

keep_last : String → Option Text → Dict String (Option Text) → Dict String (Option Text)
keep_last key none d = d
keep_last key (some t) d = insert key (some t) d

-- What one group adds for one of its sources.
count_group : ErrorGroup → String → SourceTotals → SourceTotals
unfolding keep_first keep_last
count_group group key s = record s {
  group_counts = insert key (suc (count_or_zero (lookup key s.group_counts))) s.group_counts;
  first_timestamps =
      keep_first key group.first_timestamp (lookup key s.first_timestamps) s.first_timestamps;
  last_timestamps = keep_last key group.last_timestamp s.last_timestamps;
}

count_for : ErrorGroup → List String → SourceTotals → SourceTotals
unfolding count_group
count_for group [] s = s
count_for group (key ∷ keys) s = count_for group keys (count_group group key s)

-- The lines go to the source of the first line; every group has one.
count_lines : Option LineReference → ℕ → SourceTotals → SourceTotals
count_lines none n s = s
count_lines (some first) n s = record s {
  line_counts =
      insert first.source_key (count_or_zero (lookup first.source_key s.line_counts) + n)
        s.line_counts;
}

unfoldable pub count_groups : List ErrorGroup → SourceTotals → SourceTotals
unfolding count_for count_lines
count_groups [] s = s
count_groups (group ∷ groups) s =
    count_groups groups
      (count_lines group.first_seen group.count (count_for group group.source_keys s))

-- `d.get(k)` where the values may be None.
got : Option (Option Text) → Option Text
got none = none
got (some t) = t

summary_for : SourceTotals → String → SourceSummary
unfolding got
summary_for s key = record {
  source_key = key;
  grouped_error_count = count_or_zero (lookup key s.group_counts);
  matching_line_count = count_or_zero (lookup key s.line_counts);
  first_timestamp = got (lookup key s.first_timestamps);
  last_timestamp = got (lookup key s.last_timestamps);
}

summaries_of : SourceTotals → List SourceSummary
unfolding summary_for
summaries_of s = map (summary_for s) (sort string_below (keys s.group_counts))

-- `_build_source_summaries`
unfoldable pub build_source_summaries : List ErrorGroup → List SourceSummary
unfolding summaries_of
build_source_summaries groups = summaries_of (count_groups groups no_totals)

number_text : Runtime → ℕ → Text
number_text rt n = str_of rt (int (pos n))

place_text : Runtime → Option LineReference → Text
unfolding number_text
place_text rt none = []
place_text rt (some first) = codes first.source_key ++ (58 ∷ number_text rt first.line_number)

-- `_build_suggested_next_steps`
unfoldable pub build_suggested_next_steps : Runtime → List ErrorGroup → List Text
unfolding place_text
build_suggested_next_steps rt [] =
    codes "Use grep_log_snapshot for a narrower pattern if you need targeted inspection." ∷ []
build_suggested_next_steps rt (top_group ∷ groups) =
    (codes "Read the raw snapshot file around "
      ++ (place_text rt top_group.first_seen ++ codes " for the highest-priority grouped finding."))
    ∷ codes
        "Use grep_log_snapshot with a narrower pattern if one grouped error needs deeper drilling."
    ∷ []

-- `IncidentBundlePayload`
pub record IncidentBundle : Type 0 where
  pub searched_source_keys : List String
  pub analysis_cautions : List Text
  pub next_step_tips : List Text
  pub grouped_error_count : ℕ
  pub matching_line_count : ℕ
  pub analysis_complete : Bool
  pub analysis_group_limit : ℕ
  pub high_severity_group_count : ℕ
  pub medium_severity_group_count : ℕ
  pub low_severity_group_count : ℕ
  pub top_groups : List ErrorGroup
  pub source_summaries : List SourceSummary
  pub suggested_next_steps : List Text

severity_count : String → List ErrorGroup → ℕ
severity_count severity groups = length (select (λ (g : ErrorGroup). g.severity == severity) groups)

effective_tips : Runtime → GroupedAnalysis → List Text → List Text
unfolding number_text
effective_tips rt analysis tips =
    if analysis.analysis_complete
    then tips
    else tips
      ++ ((codes "Grouped-analysis counts are lower bounds because the safety limit of "
            ++ (number_text rt analysis.analysis_group_limit
                ++ codes
                    " groups was reached. Recollect a narrower time window or select fewer sources before drawing complete totals."))
          ∷ [])

unfoldable pub bundle_of : Runtime → ℕ → List Text → List Text → GroupedAnalysis → IncidentBundle
unfolding severity_count effective_tips
bundle_of rt max_groups cautions tips analysis = record {
  searched_source_keys = analysis.searched_source_keys;
  analysis_cautions = cautions;
  next_step_tips = effective_tips rt analysis tips;
  grouped_error_count = analysis.total_group_count;
  matching_line_count = analysis.matching_line_count;
  analysis_complete = analysis.analysis_complete;
  analysis_group_limit = analysis.analysis_group_limit;
  high_severity_group_count = severity_count "high" analysis.groups;
  medium_severity_group_count = severity_count "medium" analysis.groups;
  low_severity_group_count = severity_count "low" analysis.groups;
  top_groups = take max_groups analysis.groups;
  source_summaries = build_source_summaries analysis.groups;
  suggested_next_steps = build_suggested_next_steps rt (take max_groups analysis.groups);
}

-- `build_incident_bundle`; the page of groups is as long as the limit.
unfoldable pub build_incident_bundle :
    Runtime
    → (String → FileRead)
    → Option (List String)
    → List Source
    → ℕ
    → ℕ
    → List Text
    → List Text
    → Result AnalysisError IncidentBundle
build_incident_bundle rt read requested sources max_groups limit cautions tips =
    group_errors rt read requested sources limit 0 limit >>= λ analysis.
    ok (bundle_of rt max_groups cautions tips analysis)
