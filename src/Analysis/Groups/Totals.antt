-- ===== src/Analysis/Groups/Totals.antt =====
-- The loops of `group_snapshot_errors`: the counts of the groups and of the matching lines.
use mathlib.Core.Bool.{true≢false}
use mcp_log_server.Prelude.{
  Bool, Bool-cases, List, Option, String, [], ap, arith, bool_eq, ge→ltb, if◌then◌else◌, inl, inr,
  le_or_lt, length, list_eq, lt→ltb, nat_eq, none, option_eq, refl, some, string_eq, subst, suc,
  sym, total, true, ℕ, ◌++◌, ◌+◌, ◌∙◌, ◌∷◌, ◌≡◌, ◌≤◌,
}
use mcp_log_server.Prelude.Dict.{
  length-insert_new, length-insert_old, lookup, total_values, total_values-insert_new,
  total_values-insert_old,
}
use mcp_log_server.Prelude.Int.{int_eq}
use mcp_log_server.Prelude.Result.{ok, ok-injective}
use mcp_log_server.Analysis.Groups.{
  ClassifiedFile, ErrorEvent, ErrorGroup, Grouping, add, classified, group_file, group_files,
  group_known, group_line, group_lines, new_group, os_error, value_error,
}
use mcp_log_server.Analysis.Routes.{key_eq}
use mcp_log_server.SocketApp.Spool.{path_eq}

-- The matching lines of a file, and of all files.
abbrev pub matches : List (Option ErrorEvent) → ℕ
matches [] = 0
matches (none ∷ events) = matches events
matches (some _ ∷ events) = suc (matches events)

abbrev pub file_matches : ClassifiedFile → ℕ
file_matches (classified events) = matches events
file_matches _ = 0

abbrev pub all_matches : List (String × ClassifiedFile) → ℕ
all_matches files = total (λ file. file_matches file.1) files

abbrev pub size : ErrorGroup → ℕ
size group = group.count

-- The line that breaks the loop is counted but in no group.
abbrev pub left_out : Bool → ℕ
left_out complete = if complete then 0 else 1

pub record Adds (limit : ℕ) (g : Grouping) : Type 0 where
  pub bounded : length g.groups ≤ limit
  pub sums : g.matching_line_count ≡ total_values size g.groups + left_out g.analysis_complete

module _ (limit : ℕ) where
  group_known-Adds :
      (event : ErrorEvent) (g : Grouping) (o : Option ErrorGroup)
      → lookup event.fingerprint g.groups ≡ o
      → g.analysis_complete ≡ true
      → Adds limit g
      → Adds limit (group_known limit event g o)
  unfolding group_known add
  group_known-Adds event g (some group) h complete a = record {
    bounded =
        omega (
          arith,
          a.bounded,
          length-insert_old event.fingerprint (add event group) group g.groups h,
        );
    sums = omega (
      arith,
      a.sums,
      total_values-insert_old size event.fingerprint (add event group) group g.groups h,
    );
  }
  group_known-Adds event g none h complete a = elim (le_or_lt limit (length g.groups)) [
    | inl full ↦
        rw (ge→ltb (length g.groups) limit full)
          (record { bounded = a.bounded; sums = omega (arith, a.sums, ap left_out complete) })
    | inr room ↦ rw (lt→ltb (length g.groups) limit room) (record {
      bounded =
          omega
            (arith, length-insert_new event.fingerprint (add event (new_group event)) g.groups h);
      sums = omega (
        arith,
        a.sums,
        total_values-insert_new size event.fingerprint (add event (new_group event)) g.groups h,
      );
    })
  ]

  group_line-Adds :
      (event : Option ErrorEvent) (g : Grouping)
      → g.analysis_complete ≡ true
      → Adds limit g
      → Adds limit (group_line limit event g)
  unfolding group_line
  group_line-Adds none g complete a = a
  group_line-Adds (some event) g complete a =
      group_known-Adds event g (lookup event.fingerprint g.groups) refl complete a

  group_known-count :
      (event : ErrorEvent) (g : Grouping) (o : Option ErrorGroup)
      → (group_known limit event g o).matching_line_count ≡ suc g.matching_line_count
  unfolding group_known
  group_known-count event g (some group) = refl
  group_known-count event g none = ground arith

  group_lines-Adds :
      (events : List (Option ErrorEvent)) (g : Grouping)
      → g.analysis_complete ≡ true
      → Adds limit g
      → Adds limit (group_lines limit events g)
  unfolding group_lines
  group_lines-Adds [] g complete a = a
  group_lines-Adds (event ∷ events) g complete a =
      let next = group_line-Adds event g complete a in
      elim (Bool-cases (group_line limit event g).analysis_complete) [
        | inl goes ↦ simp goes (group_lines-Adds events (group_line limit event g) goes next)
        | inr stops ↦ simp stops next
      ]

  line_matches : Option ErrorEvent → ℕ
  line_matches none = 0
  line_matches (some _) = 1

  group_line-count :
      (event : Option ErrorEvent) (g : Grouping)
      → (group_line limit event g).matching_line_count ≡ g.matching_line_count + line_matches event
  unfolding group_line line_matches
  group_line-count none g = omega arith
  group_line-count (some event) g =
      omega (arith, group_known-count event g (lookup event.fingerprint g.groups))

  matches_more :
      (event : Option ErrorEvent) (events : List (Option ErrorEvent))
      → matches (event ∷ events) ≡ line_matches event + matches events
  unfolding line_matches
  matches_more none events = omega arith
  matches_more (some event) events = omega arith

  -- A loop that was not broken read every line.
  group_lines-all :
      (events : List (Option ErrorEvent)) (g : Grouping)
      → (group_lines limit events g).analysis_complete ≡ true
      → (group_lines limit events g).matching_line_count ≡ g.matching_line_count + matches events
  unfolding group_lines
  group_lines-all [] g complete = omega arith
  group_lines-all (event ∷ events) g complete =
      elim (Bool-cases (group_line limit event g).analysis_complete) [
        | inl goes ↦ simp goes (
            group_lines-all events (group_line limit event g) (simp goes at complete)
            ∙ omega (arith, group_line-count event g, matches_more event events))
        | inr stops ↦ absurd (true≢false (sym (simp stops at complete)))
      ]

  pub group_files-Adds :
      (files : List (String × ClassifiedFile)) (g last : Grouping)
      → g.analysis_complete ≡ true
      → Adds limit g
      → group_files limit files g ≡ ok last
      → Adds limit last
        × (last.analysis_complete ≡ true
            → last.matching_line_count ≡ g.matching_line_count + all_matches files)
  unfolding group_files group_file
  group_files-Adds [] g last complete a h =
      subst
        (λ (r : Grouping).
          Adds limit r
          × (r.analysis_complete ≡ true → r.matching_line_count ≡ g.matching_line_count + 0))
        (ok-injective refl h) (a, λ _. omega arith)
  group_files-Adds ((key, value_error) ∷ files) g last complete a h = cc
  group_files-Adds ((key, os_error) ∷ files) g last complete a h = cc
  group_files-Adds ((key, classified events) ∷ files) g last complete a h =
      let opened : Grouping = record g {
        searched_source_keys = g.searched_source_keys ++ key ∷ [];
      } in
      let next = group_lines limit events opened in
      let added =
        group_lines-Adds events opened complete (record { bounded = a.bounded; sums = a.sums }) in
      elim (Bool-cases next.analysis_complete) [
        | inl goes ↦
            let (adds, all) = group_files-Adds files next last goes added (simp goes at h) in
            (adds, λ e. omega (arith, all e, group_lines-all events opened goes))
        | inr stops ↦
            let same : next ≡ last = ok-injective refl (simp stops at h) in
            (
              subst (λ (r : Grouping). Adds limit r) same added,
              λ e. absurd (
                  true≢false
                    (sym e ∙ ap (λ (r : Grouping). r.analysis_complete) (sym same) ∙ stops)),
            )
      ]
