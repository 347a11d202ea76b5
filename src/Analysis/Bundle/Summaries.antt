-- ===== src/Analysis/Bundle/Summaries.antt =====
-- The lines that the source summaries of a bundle count, against the counts of the groups.
use mcp_log_server.Prelude.{
  All, Bool-cases, List, Option-cases, String, [], ap, arith, bool_eq, contains, if◌then◌else◌, inl,
  inr, list_eq, map, nat_eq, none, option_eq, refl, some, string_eq, subst, suc, total, true, ℕ,
  ◌+◌, ◌==◌, ◌∙◌, ◌∷◌, ◌≡◌,
}
use mcp_log_server.Prelude.Dict.{
  Dict, NodupKeys, insert, insert-NodupKeys, keys, lookup, lookup-insert, lookup-insert-none,
}
use mcp_log_server.Prelude.Int.{int_eq}
use mcp_log_server.Prelude.Sorting.{sort, string_below, total-sort}
use mcp_log_server.Analysis.Bundle.{
  SourceSummary, SourceTotals, build_source_summaries, count_for, count_group, count_groups,
  count_lines, count_or_zero, no_totals, summaries_of, summary_for,
}
use mcp_log_server.Analysis.Groups.{ErrorGroup}
use mcp_log_server.Analysis.Groups.Rooted.{IsRooted}
use mcp_log_server.Analysis.Groups.Totals.{size}
use mcp_log_server.Analysis.Routes.{key_eq}
use mcp_log_server.Filtering.Candidates.{LineReference}

module _ (f : String → ℕ) where
  total-keys-insert_new :
      (k : String) (v : ℕ) (d : Dict String ℕ)
      → lookup k d ≡ none
      → total f (keys (insert k v d)) ≡ total f (keys d) + f k
  unfolding keys lookup insert
  total-keys-insert_new k v [] h = omega arith
  total-keys-insert_new k v ((j, w) ∷ d) h = ground (arith, total-keys-insert_new k v d)

  total-keys-insert_old :
      (k : String) (v w : ℕ) (d : Dict String ℕ)
      → lookup k d ≡ some w
      → total f (keys (insert k v d)) ≡ total f (keys d)
  unfolding keys lookup insert
  total-keys-insert_old k v w [] h = cc
  total-keys-insert_old k v w ((j, u) ∷ d) h = ground (arith, total-keys-insert_old k v w d)

  -- A function that is changed at one key.
  module _ (g : String → ℕ) (p : String) (n : ℕ)
      (changed : (k : String) → g k ≡ (if p == k then f k + n else f k)) where
    total-keys_elsewhere :
        (d : Dict String ℕ) → lookup p d ≡ none → total g (keys d) ≡ total f (keys d)
    unfolding keys lookup
    total-keys_elsewhere [] h = refl
    total-keys_elsewhere ((j, w) ∷ d) h =
        ground
          (arith, changed j, string_eq.same_iff j p, string_eq.same_iff p j, total-keys_elsewhere d)

    total-keys_change :
        (w : ℕ) (d : Dict String ℕ)
        → NodupKeys d
        → lookup p d ≡ some w
        → total g (keys d) ≡ total f (keys d) + n
    unfolding keys lookup
    total-keys_change w [] nodup h = cc
    total-keys_change w ((j, u) ∷ d) (fresh, nodup) h = elim (Bool-cases (j == p)) [
      | inl here ↦
          let same : j ≡ p = (string_eq.same_iff j p).0 here in
          let absent : lookup p d ≡ none = subst (λ k. lookup k d ≡ none) same fresh in
          let rest = total-keys_elsewhere d absent in
          ground (arith, changed j, string_eq.same_iff p j, rest)
      | inr there ↦
          let rest = total-keys_change w d nodup (rw there at h) in
          ground (arith, changed j, string_eq.same_iff p j, string_eq.same_iff j p, rest)
    ]

-- The lines that the summaries would count.
lines_at : SourceTotals → String → ℕ
lines_at s k = count_or_zero (lookup k s.line_counts)

-- The keys are distinct, a source with lines has groups, and `n` lines are counted.
record Tallied (n : ℕ) (s : SourceTotals) : Type 0 where
  nodup : NodupKeys s.group_counts
  known : (k : String) → lookup k s.group_counts ≡ none → lookup k s.line_counts ≡ none
  sums : total (lines_at s) (keys s.group_counts) ≡ n

count_group-Tallied :
    (group : ErrorGroup) (key : String) (n : ℕ) (s : SourceTotals)
    → Tallied n s
    → Tallied n (count_group group key s)
unfolding count_group lines_at
count_group-Tallied group key n s t =
    let next = suc (count_or_zero (lookup key s.group_counts)) in
    record {
      nodup = insert-NodupKeys key next s.group_counts t.nodup;
      known = λ k h. t.known k (lookup-insert-none k key next s.group_counts h).1;
      sums = elim (Option-cases (lookup key s.group_counts)) [
        | inl absent ↦
            let more = total-keys-insert_new (lines_at s) key next s.group_counts absent in
            let none_yet = ap count_or_zero (t.known key absent) in
            omega (arith, more, none_yet, t.sums)
        | inr (w, here) ↦ total-keys-insert_old (lines_at s) key next w s.group_counts here ∙ t.sums
      ];
    }

IsIn : String → Dict String ℕ → Type 0
IsIn k d = (w : ℕ) × (lookup k d ≡ some w)

IsIn-insert : (k j : String) (v : ℕ) (d : Dict String ℕ) → IsIn k d → IsIn k (insert j v d)
unfolding IsIn
IsIn-insert k j v d (w, here) = elim (Bool-cases (j == k)) [
  | inl same ↦ (v, rw same at (lookup-insert k j v d))
  | inr other ↦ (w, (rw other at (lookup-insert k j v d)) ∙ here)
]

IsIn-inserted : (k : String) (v : ℕ) (d : Dict String ℕ) → IsIn k (insert k v d)
unfolding IsIn
IsIn-inserted k v d = (v, rw ((string_eq.same_iff k k).1 refl) at (lookup-insert k k v d))

count_for-IsIn :
    (group : ErrorGroup) (sources : List String) (k : String) (s : SourceTotals)
    → IsIn k s.group_counts
    → IsIn k (count_for group sources s).group_counts
unfolding count_for count_group
count_for-IsIn group [] k s here = here
count_for-IsIn group (key ∷ sources) k s here =
    count_for-IsIn group sources k (count_group group key s)
      (IsIn-insert k key (suc (count_or_zero (lookup key s.group_counts))) s.group_counts here)

-- Every source of the group is counted.
count_for-contains :
    (group : ErrorGroup) (sources : List String) (k : String) (s : SourceTotals)
    → contains sources k ≡ true
    → IsIn k (count_for group sources s).group_counts
unfolding count_for count_group
count_for-contains group [] k s h = cc
count_for-contains group (key ∷ sources) k s h = elim (Bool-cases (k == key)) [
  | inl here ↦
      let next = suc (count_or_zero (lookup key s.group_counts)) in
      count_for-IsIn group sources k (count_group group key s) (
        subst (λ j. IsIn k (insert j next s.group_counts)) ((string_eq.same_iff k key).0 here)
          (IsIn-inserted k next s.group_counts))
  | inr there ↦ count_for-contains group sources k (count_group group key s) (rw there at h)
]

count_for-Tallied :
    (group : ErrorGroup) (sources : List String) (n : ℕ) (s : SourceTotals)
    → Tallied n s
    → Tallied n (count_for group sources s)
unfolding count_for
count_for-Tallied group [] n s t = t
count_for-Tallied group (key ∷ sources) n s t =
    count_for-Tallied group sources n (count_group group key s)
      (count_group-Tallied group key n s t)

count_lines-Tallied :
    (first : LineReference) (m n : ℕ) (s : SourceTotals)
    → IsIn first.source_key s.group_counts
    → Tallied n s
    → Tallied (n + m) (count_lines (some first) m s)
unfolding count_lines lines_at IsIn
count_lines-Tallied first m n s (w, here) t =
    let p = first.source_key in
    let next = count_or_zero (lookup p s.line_counts) + m in
    record {
      nodup = t.nodup;
      known = λ k h.
          let same = lookup-insert k p next s.line_counts in
          let not_there = t.known k h in ground (arith, string_eq.same_iff p k, here);
      sums =
          total-keys_change (lines_at s)
            (λ k. count_or_zero (lookup k (insert p next s.line_counts))) p m
            (λ k.
              let same = lookup-insert k p next s.line_counts in
              ground (arith, string_eq.same_iff p k))
            w s.group_counts t.nodup here
          ∙ ap (λ k. k + m) t.sums;
    }

count_groups-Tallied :
    (groups : List ErrorGroup) (n : ℕ) (s : SourceTotals)
    → All IsRooted groups
    → Tallied n s
    → Tallied (n + total size groups) (count_groups groups s)
unfolding count_groups
count_groups-Tallied [] n s rooted t = subst (λ k. Tallied k s) (omega arith) t
count_groups-Tallied (group ∷ groups) n s (root, rooted) t =
    let counted = count_for group group.source_keys s in
    let lines =
      count_lines-Tallied root.first group.count n counted
        (count_for-contains group group.source_keys root.first.source_key s root.has_source)
        (count_for-Tallied group group.source_keys n s t) in
    rw (root.is_first) (
      subst
        (λ k. Tallied k (count_groups groups (count_lines (some root.first) group.count counted)))
        (omega arith)
        (count_groups-Tallied groups (n + group.count)
          (count_lines (some root.first) group.count counted) rooted lines))

total-map :
    {A : Type 0} {B : Type 0} (f : B → ℕ) (g : A → B) (xs : List A)
    → total f (map g xs) ≡ total (λ x. f (g x)) xs
total-map f g [] = refl
total-map f g (x ∷ xs) = omega (arith, total-map f g xs)

-- The summaries count every line of the groups once.
pub build_source_summaries-total :
    (groups : List ErrorGroup)
    → All IsRooted groups
    → total (λ (s : SourceSummary). s.matching_line_count) (build_source_summaries groups)
      ≡ total size groups
unfolding build_source_summaries summaries_of summary_for lines_at keys lookup
build_source_summaries-total groups rooted =
    let s = count_groups groups no_totals in
    let tallied =
      count_groups-Tallied groups 0 no_totals rooted
        (record { nodup = tt; known = λ k h. refl; sums = refl }) in
    total-map (λ (r : SourceSummary). r.matching_line_count) (summary_for s)
      (sort string_below (keys s.group_counts))
    ∙ total-sort string_below (lines_at s) (keys s.group_counts)
    ∙ tallied.sums
    ∙ omega arith
