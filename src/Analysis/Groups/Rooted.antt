-- ===== src/Analysis/Groups/Rooted.antt =====
-- What holds of every group that `group_snapshot_errors` builds: its first line stands in one of
-- its sources, and its severity is one that the classification gives.
use mcp_log_server.Prelude.{
  All, Bool-cases, List, Option, String, [], arith, beq_refl, bool_eq, contains, inl, inr, length,
  list_eq, ltb, nat_eq, none, option_eq, refl, some, string_eq, subst, true, ℕ, ◌++◌, ◌∷◌, ◌≡◌, ◌⊎◌,
}
use mcp_log_server.Prelude.Dict.{AllValues, AllValues-insert, AllValues-lookup, lookup}
use mcp_log_server.Prelude.Int.{int_eq}
use mcp_log_server.Prelude.Result.{err-ne-ok, ok, ok_inj}
use mcp_log_server.Analysis.Groups.{
  ClassifiedFile, ErrorEvent, ErrorGroup, Grouping, add, add_member, classified, event_reference,
  group_file, group_files, group_known, group_line, group_lines, new_group, or_first, os_error,
  value_error,
}
use mcp_log_server.Analysis.Routes.{key_eq}
use mcp_log_server.Filtering.Candidates.{LineReference}

abbrev pub IsGraded : String → Type 0
IsGraded severity = (severity ≡ "high") ⊎ (severity ≡ "medium")

-- A group's first line stands in one of its sources.
pub record IsRooted (group : ErrorGroup) : Type 0 where
  pub first : LineReference
  pub is_first : group.first_seen ≡ some first
  pub has_source : contains group.source_keys first.source_key ≡ true
  pub graded : IsGraded group.severity

abbrev pub IsGradedEvent : Option ErrorEvent → Type 0
IsGradedEvent none = Unit
IsGradedEvent (some event) = IsGraded event.severity

abbrev pub IsGradedFile : String × ClassifiedFile → Type 0
IsGradedFile (key, classified events) = All IsGradedEvent events
IsGradedFile (key, value_error) = Unit
IsGradedFile (key, os_error) = Unit

contains-add_member :
    (xs : List String) (a k : String) → contains xs k ≡ true → contains (add_member xs a) k ≡ true
unfolding add_member
contains-add_member xs a k h = ground arith

add-IsRooted :
    (event : ErrorEvent) (group : ErrorGroup) → IsRooted group → IsRooted (add event group)
unfolding add or_first
add-IsRooted event group r = record {
  first = r.first;
  is_first = rw (r.is_first) refl;
  has_source =
      contains-add_member group.source_keys event.source_key r.first.source_key r.has_source;
  graded = r.graded;
}

add-new_group-IsRooted :
    (event : ErrorEvent) → IsGraded event.severity → IsRooted (add event (new_group event))
unfolding add or_first new_group add_member event_reference
add-new_group-IsRooted event graded = record {
  first = event_reference event;
  is_first = refl;
  has_source = rw (beq_refl event.source_key) refl;
  graded = graded;
}

module _ (limit : ℕ) where
  group_known-IsRooted :
      (event : ErrorEvent) (g : Grouping) (o : Option ErrorGroup)
      → IsGraded event.severity
      → lookup event.fingerprint g.groups ≡ o
      → AllValues IsRooted g.groups
      → AllValues IsRooted (group_known limit event g o).groups
  unfolding group_known
  group_known-IsRooted event g (some group) graded here all =
      AllValues-insert IsRooted event.fingerprint (add event group) g.groups
        (add-IsRooted event group
          (AllValues-lookup IsRooted event.fingerprint group g.groups all here))
        all
  group_known-IsRooted event g none graded absent all =
      elim (Bool-cases (ltb (length g.groups) limit)) [
        | inl room ↦ rw room (
            AllValues-insert IsRooted event.fingerprint (add event (new_group event)) g.groups
              (add-new_group-IsRooted event graded) all)
        | inr full ↦ rw full all
      ]

  group_line-IsRooted :
      (event : Option ErrorEvent) (g : Grouping)
      → IsGradedEvent event
      → AllValues IsRooted g.groups
      → AllValues IsRooted (group_line limit event g).groups
  unfolding group_line
  group_line-IsRooted none g graded all = all
  group_line-IsRooted (some event) g graded all =
      group_known-IsRooted event g (lookup event.fingerprint g.groups) graded refl all

  group_lines-IsRooted :
      (events : List (Option ErrorEvent)) (g : Grouping)
      → All IsGradedEvent events
      → AllValues IsRooted g.groups
      → AllValues IsRooted (group_lines limit events g).groups
  unfolding group_lines
  group_lines-IsRooted [] g graded all = all
  group_lines-IsRooted (event ∷ events) g (graded, rest) all =
      let next = group_line-IsRooted event g graded all in
      elim (Bool-cases (group_line limit event g).analysis_complete) [
        | inl goes ↦ simp goes (group_lines-IsRooted events (group_line limit event g) rest next)
        | inr stops ↦ simp stops next
      ]

  pub group_files-IsRooted :
      (files : List (String × ClassifiedFile)) (g last : Grouping)
      → All IsGradedFile files
      → AllValues IsRooted g.groups
      → group_files limit files g ≡ ok last
      → AllValues IsRooted last.groups
  unfolding group_files group_file
  group_files-IsRooted [] g last graded all h =
      subst (λ (r : Grouping). AllValues IsRooted r.groups) (ok_inj h) all
  group_files-IsRooted ((key, value_error) ∷ files) g last graded all h = err-ne-ok h
  group_files-IsRooted ((key, os_error) ∷ files) g last graded all h = err-ne-ok h
  group_files-IsRooted ((key, classified events) ∷ files) g last (graded, rest) all h =
      let opened : Grouping = record g {
        searched_source_keys = g.searched_source_keys ++ key ∷ [];
      } in
      let next = group_lines limit events opened in
      let rooted = group_lines-IsRooted events opened graded all in
      elim (Bool-cases next.analysis_complete) [
        | inl goes ↦ group_files-IsRooted files next last rest rooted (simp goes at h)
        | inr stops ↦
            subst (λ (r : Grouping). AllValues IsRooted r.groups) (ok_inj (simp stops at h)) rooted
      ]
