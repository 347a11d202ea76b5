-- ===== src/Analysis/Bundle/Sums.antt =====
-- The numbers of an incident bundle.
use mcp_log_server.Prelude.{
  All, All-take, Bool-cases, List, Option, String, [], arith, bool_eq, inl, inr, length,
  length-take, list_eq, min, nat_eq, option_eq, refl, string_eq, subst, total, true, ℕ, ◌+◌, ◌==◌,
  ◌∷◌, ◌≡◌, ◌≤◌,
}
use mcp_log_server.Prelude.Dict.{AllValues, Dict, values}
use mcp_log_server.Prelude.Int.{int_eq}
use mcp_log_server.Prelude.Matcher.{grouped}
use mcp_log_server.Prelude.Result.{>>=-ok, err-ne-ok, ok, ok_inj}
use mcp_log_server.Prelude.Sorting.{All-sort, sort}
use mcp_log_server.Prelude.Utf8.{Text}
use mcp_log_server.Analysis.Bundle.{
  IncidentBundle, SourceSummary, build_incident_bundle, bundle_of, severity_count,
}
use mcp_log_server.Analysis.Bundle.Summaries.{build_source_summaries-total}
use mcp_log_server.Analysis.Groups.{
  ClassifiedFile, ErrorGroup, GroupedAnalysis, group_before, group_files, group_snapshot_errors,
  no_groups,
}
use mcp_log_server.Analysis.Groups.Complete.{group_snapshot_errors-IsGrouped}
use mcp_log_server.Analysis.Groups.Rooted.{IsGradedFile, IsRooted, group_files-IsRooted}
use mcp_log_server.Analysis.Groups.Totals.{all_matches, left_out}
use mcp_log_server.Analysis.Routes.{key_eq}
use mcp_log_server.Analysis.Sources.{
  as_analysis_error-ok, classify_files, group_errors, select_snapshot_files,
}
use mcp_log_server.Analysis.Sources.Graded.{classify_files-IsGraded}
use mcp_log_server.Analysis.Values.{Runtime}
use mcp_log_server.Filtering.View.{FileRead, Source}

all_values : (P : ErrorGroup → Type 0) (d : Dict Text ErrorGroup) → AllValues P d → All P (values d)
unfolding values
all_values P [] a = tt
all_values P ((k, group) ∷ d) (p, a) = (p, all_values P d a)

-- Every group has one of two severities.
severity_counts :
    (groups : List ErrorGroup)
    → All IsRooted groups
    → (severity_count "high" groups + severity_count "medium" groups ≡ length groups)
      × (severity_count "low" groups ≡ 0)
unfolding severity_count
severity_counts [] rooted = (refl, refl)
severity_counts (group ∷ groups) (root, rooted) =
    let (sum, low) = severity_counts groups rooted in
    elim root.graded [
      | inl high ↦ rw high (omega (arith, sum), low)
      | inr medium ↦ rw medium (omega (arith, sum), low)
    ]

-- The groups of a page are rooted, and the limit is the one that was given.
page_of-IsRooted :
    (limit : ℕ) (files : List (String × ClassifiedFile)) (a : GroupedAnalysis)
    → All IsGradedFile files
    → group_snapshot_errors files limit 0 limit ≡ ok a
    → All IsRooted a.groups × (a.analysis_group_limit ≡ limit)
unfolding group_snapshot_errors
page_of-IsRooted limit files a graded h = elim (Bool-cases (limit == 0)) [
  | inl none_allowed ↦ err-ne-ok (rw none_allowed at h)
  | inr positive ↦
      let (g, made, grouped) = >>=-ok (group_files limit files no_groups) _ (rw positive at h) in
      let rooted = group_files-IsRooted limit files no_groups g graded tt grouped in
      subst (λ (r : GroupedAnalysis). All IsRooted r.groups × (r.analysis_group_limit ≡ limit))
        (ok_inj made)
        (
          All-take IsRooted limit (sort group_before (values g.groups)) (
              All-sort group_before IsRooted (values g.groups)
                (all_values IsRooted g.groups rooted)),
          refl,
        )
]

-- How the numbers of a bundle belong together.
pub record IsSummed (files : List (String × ClassifiedFile)) (max_groups limit : ℕ)
    (b : IncidentBundle) : Type 0 where
  pub limited : b.grouped_error_count ≤ limit
  pub top : length b.top_groups ≡ min max_groups b.grouped_error_count
  pub severities :
      b.high_severity_group_count + b.medium_severity_group_count ≡ b.grouped_error_count
  pub none_low : b.low_severity_group_count ≡ 0
  pub source_lines :
      b.matching_line_count
      ≡ total (λ (s : SourceSummary). s.matching_line_count) b.source_summaries
        + left_out b.analysis_complete
  pub all_lines : b.analysis_complete ≡ true → b.matching_line_count ≡ all_matches files

bundle_of-IsSummed :
    (rt : Runtime) (files : List (String × ClassifiedFile)) (max_groups limit : ℕ)
    (cautions tips : List Text) (a : GroupedAnalysis)
    → All IsGradedFile files
    → group_snapshot_errors files limit 0 limit ≡ ok a
    → IsSummed files max_groups limit (bundle_of rt max_groups cautions tips a)
unfolding bundle_of
bundle_of-IsSummed rt files max_groups limit cautions tips a graded h =
    let grouped = group_snapshot_errors-IsGrouped files limit 0 limit a h in
    let (rooted, given) = page_of-IsRooted limit files a graded h in
    let (severities, none_low) = severity_counts a.groups rooted in
    let all_groups : length a.groups ≡ a.total_group_count =
      omega (arith, grouped.page, grouped.limited, given) in
    record {
      limited = omega (arith, grouped.limited, given);
      top = omega (arith, length-take max_groups a.groups, all_groups);
      severities = omega (arith, severities, all_groups);
      none_low = none_low;
      source_lines = omega (
        arith,
        grouped.whole refl (omega (arith, grouped.limited, given)),
        build_source_summaries-total a.groups rooted,
      );
      all_lines = grouped.all_lines;
    }

module _ (rt : Runtime) (read : String → FileRead) where
  group_errors-split :
      (requested : Option (List String)) (sources : List Source) (limit : ℕ) (a : GroupedAnalysis)
      → group_errors rt read requested sources limit 0 limit ≡ ok a
      → (selected : List Source) × (select_snapshot_files requested sources ≡ ok selected)
        × (group_snapshot_errors (classify_files rt read selected) limit 0 limit ≡ ok a)
  unfolding group_errors
  group_errors-split requested sources limit a h = elim (Bool-cases (limit == 0)) [
    | inl none_allowed ↦ err-ne-ok (rw none_allowed at h)
    | inr positive ↦
        let (selected, grouped, found) =
          >>=-ok (select_snapshot_files requested sources) _ (rw positive at h) in
        (
          selected,
          found,
          as_analysis_error-ok
              (group_snapshot_errors (classify_files rt read selected) limit 0 limit) a grouped,
        )
  ]

  -- The numbers of a bundle that is returned belong together: no more groups than the limit, and
  -- the high and the medium groups are all of them; as many top groups as asked for, if there are
  -- so many; the lines of the source summaries add up to the matching lines, but for the one that
  -- breaks an incomplete analysis; and a complete analysis counts every line of the selected files
  -- that is classified as an error.
  pub build_incident_bundle-IsSummed :
      (requested : Option (List String)) (sources : List Source) (max_groups limit : ℕ)
      (cautions tips : List Text) (b : IncidentBundle)
      → build_incident_bundle rt read requested sources max_groups limit cautions tips ≡ ok b
      → (selected : List Source) × (select_snapshot_files requested sources ≡ ok selected)
        × IsSummed (classify_files rt read selected) max_groups limit b
  unfolding build_incident_bundle
  build_incident_bundle-IsSummed requested sources max_groups limit cautions tips b h =
      let (a, made, grouped) = >>=-ok (group_errors rt read requested sources limit 0 limit) _ h in
      let (selected, found, analysed) = group_errors-split requested sources limit a grouped in
      (
        selected,
        found,
        subst (λ r. IsSummed (classify_files rt read selected) max_groups limit r) (ok_inj made)
            (bundle_of-IsSummed rt (classify_files rt read selected) max_groups limit cautions tips
              a (classify_files-IsGraded rt read selected) analysed),
      )
