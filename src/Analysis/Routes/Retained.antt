-- ===== src/Analysis/Routes/Retained.antt =====
-- `_record_proxy_route_candidate`: the summary through an eviction, and the routes that stay.
use mcp_log_server.Prelude.{
  Bool, List, Option, Option-cases, [], ap, arith, bool_eq, false, ge→ltb, inl, inr, le_or_lt,
  length, list_eq, lt→ltb, nat_eq, none, option_eq, refl, some, string_eq, true, ℕ, ◌*◌, ◌+◌, ◌<◌,
  ◌||◌, ◌∙◌, ◌∷◌, ◌≡◌, ◌≤◌,
}
use mcp_log_server.Prelude.Dict.{
  AllValues, AllValues-erase, AllValues-insert, AllValues-lookup, erase, erase-NodupKeys, insert,
  length-erase_old, length-insert_new, lookup, lookup-erase, lookup-erase-none, lookup-erase-some,
  total_values-erase, total_values-insert_new,
}
use mcp_log_server.Prelude.Int.{int_eq}
use mcp_log_server.Analysis.Routes.{
  Candidate, Candidates, ProxyRouteKey, evict, key_eq, least, record_absent,
  record_proxy_route_candidate,
}
use mcp_log_server.Analysis.Routes.Least.{IsEntry, Least, least-IsEntry, least-Least}
use mcp_log_server.Analysis.Routes.Summary.{
  IsSummary, Records, estimate, hit-Records, insert-IsSummary, lower, new-Records, occurrences,
  total-lower,
}
use mcp_log_server.SocketApp.Spool.{path_eq}

module _ (limit : ℕ) (key : ProxyRouteKey) (flag : Bool) (seen : List ProxyRouteKey)
    (d : Candidates) (s : IsSummary limit seen d) where
  evict-Records :
      (gone : ProxyRouteKey) (c : Candidate)
      → lookup key d ≡ none
      → limit ≤ length d
      → IsEntry d (gone, c)
      → Least d (gone, c)
      → Records limit key flag seen d s
          (erase gone d)
          (record { estimated_count = c.estimated_count + 1; is_upstream_error = flag })
  evict-Records gone c absent full entry low =
      let v : Candidate = record {
        estimated_count = c.estimated_count + 1;
        is_upstream_error = flag;
      } in
      let size = length-erase_old gone c d s.nodup entry in
      let fresh : lookup key (erase gone d) ≡ none =
        lookup-erase key gone d ∙ ground (arith, absent) in
      record {
        nodup = erase-NodupKeys gone d s.nodup;
        bounded = omega (arith, s.bounded, size, length-insert_new key v (erase gone d) fresh);
        sums = omega (
          arith,
          s.sums,
          total_values-insert_new estimate key v (erase gone d) fresh,
          total_values-erase estimate gone c d s.nodup entry,
        );
        enough = omega (
          arith,
          AllValues-lookup (λ w. occurrences key seen ≤ w.estimated_count) gone c d
              (s.absent_low key absent) entry,
        );
        kept = λ j w h. s.not_low j w (lookup-erase-some j gone w d h);
        gone = λ j ne h.
            let all : AllValues (λ w. occurrences j seen ≤ w.estimated_count) d =
              elim (lookup-erase-none j gone d h) [
                | inl e ↦
                    lower (occurrences j seen) c.estimated_count d
                      (omega (
                        arith,
                        s.not_low gone c entry,
                        ap (λ (i : ProxyRouteKey). occurrences i seen) e,
                      ))
                      low
                | inr e ↦ s.absent_low j e
              ] in
            AllValues-insert (λ w. occurrences j seen ≤ w.estimated_count) key v (erase gone d)
              (omega (
                arith,
                AllValues-lookup (λ w. occurrences j seen ≤ w.estimated_count) gone c d all entry,
              ))
              (AllValues-erase (λ w. occurrences j seen ≤ w.estimated_count) gone d all);
        never = λ j ne h short.
            absurd (omega (arith, full, size, length-insert_new key v (erase gone d) fresh));
      }

-- What recording an event gives.
pub record IsRecorded (limit : ℕ) (seen : List ProxyRouteKey) (out : Option (Candidates × Bool))
    : Type 0 where
  pub candidates : Candidates
  pub overflowed : Bool
  pub recorded : out ≡ some (candidates, overflowed)
  pub summary : IsSummary limit seen candidates

module _ (limit : ℕ) (positive : 0 < limit) (key : ProxyRouteKey) (flag : Bool)
    (seen : List ProxyRouteKey) where
  evict-IsRecorded :
      (d : Candidates)
      → IsSummary limit seen d
      → lookup key d ≡ none
      → limit ≤ length d
      → IsRecorded limit (key ∷ seen) (record_absent limit key flag d)
  unfolding record_absent evict
  evict-IsRecorded [] s absent full = absurd (omega arith)
  evict-IsRecorded (item ∷ d) s absent full =
      let (gone, c) = least item d in
      rw (ge→ltb (length (item ∷ d)) limit full) (record {
        candidates =
            insert key
              (record { estimated_count = c.estimated_count + 1; is_upstream_error = flag })
              (erase gone (item ∷ d));
        overflowed = true;
        recorded = refl;
        summary = insert-IsSummary limit key flag seen (item ∷ d) s (erase gone (item ∷ d)) _ (
            evict-Records limit key flag seen (item ∷ d) s gone c absent full
              (least-IsEntry item d s.nodup) (least-Least item d));
      })

  absent-IsRecorded :
      (d : Candidates)
      → IsSummary limit seen d
      → lookup key d ≡ none
      → IsRecorded limit (key ∷ seen) (record_absent limit key flag d)
  unfolding record_absent
  absent-IsRecorded d s absent = elim (le_or_lt limit (length d)) [
    | inl full ↦ evict-IsRecorded d s absent full
    | inr room ↦ rw (lt→ltb (length d) limit room) (record {
      candidates = insert key (record { estimated_count = 1; is_upstream_error = flag }) d;
      overflowed = false;
      recorded = refl;
      summary =
          insert-IsSummary limit key flag seen d s d _
            (new-Records limit key flag seen d s absent room);
    })
  ]

  -- Recording an event never fails and keeps the summary of the events: distinct routes, no more
  -- than the limit, estimates that sum up to the events, no estimate below the true count, and no
  -- lost route above any estimate. The limit must be positive.
  pub record_proxy_route_candidate-IsRecorded :
      (d : Candidates)
      → IsSummary limit seen d
      → IsRecorded limit (key ∷ seen) (record_proxy_route_candidate limit key flag d)
  unfolding record_proxy_route_candidate
  record_proxy_route_candidate-IsRecorded d s = elim (Option-cases (lookup key d)) [
    | inl absent ↦ rw absent (absent-IsRecorded d s absent)
    | inr (c, found) ↦ rw found (record {
      candidates =
          insert key
            (record {
              estimated_count = c.estimated_count + 1;
              is_upstream_error = c.is_upstream_error || flag;
            })
            d;
      overflowed = false;
      recorded = refl;
      summary =
          insert-IsSummary limit key flag seen d s d _
            (hit-Records limit key flag seen d s c (c.is_upstream_error || flag) found);
    })
  ]

-- A route that has more than its share of the events is among the candidates.
pub IsSummary-retained :
    (limit : ℕ) (seen : List ProxyRouteKey) (d : Candidates) (key : ProxyRouteKey)
    → IsSummary limit seen d
    → length seen < limit * occurrences key seen
    → (c : Candidate) × (lookup key d ≡ some c)
IsSummary-retained limit seen d key s heavy = elim (Option-cases (lookup key d)) [
  | inr found ↦ found
  | inl absent ↦ absurd (elim (le_or_lt limit (length d)) [
    | inl full ↦
        let size : length d ≡ limit = omega (arith, s.bounded) in
        let low = total-lower (occurrences key seen) d (s.absent_low key absent) in
        omega (arith, ap (λ (n : ℕ). n * occurrences key seen) size, low, s.sums, heavy)
    | inr room ↦ omega (arith, ap (λ (n : ℕ). limit * n) (s.absent_new key absent room), heavy)
  ])
]
