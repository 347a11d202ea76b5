-- ===== src/Analysis/Groups/Complete.antt =====
-- The pages of `group_snapshot_errors`.
use mcp_log_server.Prelude.{
  Bool-cases, List, String, [], ap, arith, bool_eq, drop, inl, inr, length, length-drop,
  length-take, list_eq, min, nat_eq, option_eq, refl, string_eq, subst, take, take_all, total, true,
  ℕ, ◌+◌, ◌-◌, ◌==◌, ◌∙◌, ◌∷◌, ◌≡◌, ◌≤◌,
}
use mcp_log_server.Prelude.Dict.{Dict, total_values, values}
use mcp_log_server.Prelude.Int.{int_eq}
use mcp_log_server.Prelude.Matcher.{grouped}
use mcp_log_server.Prelude.Result.{>>=-ok, Result, err, ok, ok-injective}
use mcp_log_server.Prelude.Sorting.{length-sort, sort, total-sort}
use mcp_log_server.Prelude.Utf8.{Text}
use mcp_log_server.Analysis.Groups.{
  ClassifiedFile, ErrorGroup, GroupError, GroupedAnalysis, Grouping, group_before, group_files,
  group_snapshot_errors, no_groups, page_of,
}
use mcp_log_server.Analysis.Groups.Totals.{Adds, all_matches, group_files-Adds, left_out, size}
use mcp_log_server.Analysis.Routes.{key_eq}
use mcp_log_server.SocketApp.Spool.{path_eq}

pub record IsGrouped (files : List (String × ClassifiedFile)) (max_groups offset : ℕ)
    (a : GroupedAnalysis) : Type 0 where
  pub limited : a.total_group_count ≤ a.analysis_group_limit
  pub page : length a.groups ≡ min max_groups (a.total_group_count - offset)
  pub all_lines : a.analysis_complete ≡ true → a.matching_line_count ≡ all_matches files
  pub whole :
      offset ≡ 0
      → a.total_group_count ≤ max_groups
      → a.matching_line_count ≡ total size a.groups + left_out a.analysis_complete

length-values : (d : Dict Text ErrorGroup) → length (values d) ≡ length d
unfolding values
length-values [] = refl
length-values ((k, group) ∷ d) = omega (arith, length-values d)

total-values : (d : Dict Text ErrorGroup) → total size (values d) ≡ total_values size d
unfolding values
total-values [] = refl
total-values ((k, group) ∷ d) = omega (arith, total-values d)

page_of-IsGrouped :
    (files : List (String × ClassifiedFile)) (limit max_groups offset : ℕ) (g : Grouping)
    → Adds limit g
    → (g.analysis_complete ≡ true → g.matching_line_count ≡ 0 + all_matches files)
    → IsGrouped files max_groups offset (page_of limit max_groups offset g)
unfolding page_of
page_of-IsGrouped files limit max_groups offset g a all =
    let groups = sort group_before (values g.groups) in
    let count : length groups ≡ length g.groups =
      length-sort group_before (values g.groups) ∙ length-values g.groups in
    record {
      limited = omega (arith, a.bounded, count);
      page = omega (arith, length-take max_groups (drop offset groups), length-drop offset groups);
      all_lines = λ e. omega (arith, all e);
      whole = λ from_start short.
          let every : take max_groups (drop offset groups) ≡ groups =
            ap (λ (n : ℕ). take max_groups (drop n groups)) from_start
            ∙ take_all max_groups groups short in
          omega (
            arith,
            a.sums,
            ap (total size) every,
            total-sort group_before size (values g.groups),
            total-values g.groups,
          );
    }

-- A page of grouped errors that is returned holds as many groups as are left from its offset, up
-- to the page size, and there are no more groups than the limit. If the analysis is complete,
-- every matching line of the files is counted. If the page holds all groups, their counts add up
-- to the matching lines, but for the one that breaks an incomplete analysis.
pub group_snapshot_errors-IsGrouped :
    (files : List (String × ClassifiedFile)) (max_groups offset limit : ℕ) (a : GroupedAnalysis)
    → group_snapshot_errors files max_groups offset limit ≡ ok a
    → IsGrouped files max_groups offset a
unfolding group_snapshot_errors
group_snapshot_errors-IsGrouped files max_groups offset limit a h = elim (Bool-cases (limit == 0)) [
  | inl none_allowed ↦ absurd (err_not_ok (rw none_allowed at h))
  | inr positive ↦
      let (g, made, grouped) = >>=-ok (group_files limit files no_groups) _ (rw positive at h) in
      let (adds, all) =
        group_files-Adds limit files no_groups g refl
          (record { bounded = omega arith; sums = refl }) grouped in
      subst (λ (r : GroupedAnalysis). IsGrouped files max_groups offset r) (ok-injective refl made)
        (page_of-IsGrouped files limit max_groups offset g adds all)
]
  where
    err_not_ok :
        {e : GroupError} {r : GroupedAnalysis}
        → Path (Result GroupError GroupedAnalysis) (err e) (ok r)
        → ⊥
    err_not_ok p = cc
