-- ===== src/Analysis/Routes/Tracked.antt =====
-- `_record_proxy_route_candidate`: the candidates against the number of distinct routes.
use mathlib.Core.Option.{some-injective}
use mcp_log_server.Prelude.{
  Bool, Bool-cases, List, Option-cases, [], ap, arith, bool_eq, contains, false, ge→ltb,
  if◌then◌else◌, inl, inr, le_or_lt, length, list_eq, lt→ltb, min, nat_eq, none, not, option_eq,
  refl, some, string_eq, subst, suc, sym, true, ℕ, ◌+◌, ◌<◌, ◌||◌, ◌↔◌, ◌∙◌, ◌∷◌, ◌≡◌, ◌≤◌,
}
use mcp_log_server.Prelude.Dict.{
  NodupKeys, erase, insert, length-erase_old, length-insert_new, length-insert_old, lookup,
  lookup-erase, lookup-erase-some, lookup-insert-none, lookup-insert-some,
}
use mcp_log_server.Prelude.Int.{int_eq}
use mcp_log_server.Analysis.Activity.{is_upstream_error}
use mcp_log_server.Analysis.Routes.{
  Candidate, Candidates, ProxyRouteKey, evict, key_eq, least, record_absent,
  record_proxy_route_candidate,
}
use mcp_log_server.Analysis.Routes.Least.{least-IsEntry}
use mcp_log_server.Analysis.Routes.Summary.{IsSummary}

-- How many distinct routes there are among the events.
abbrev pub distinct_count : List ProxyRouteKey → ℕ
distinct_count [] = 0
distinct_count (key ∷ seen) =
    let rest = distinct_count seen in if contains seen key then rest else suc rest

-- The candidates and the overflow flag, for the events so far.
pub record Tracks (limit : ℕ) (seen : List ProxyRouteKey) (d : Candidates) (overflowed : Bool)
    : Type 0 where
  pub size : length d + (if overflowed then 1 else 0) ≡ min (suc limit) (distinct_count seen)
  pub present :
      (key : ProxyRouteKey) (c : Candidate) → lookup key d ≡ some c → contains seen key ≡ true
  pub known :
      overflowed ≡ false → (key : ProxyRouteKey) → lookup key d ≡ none → contains seen key ≡ false
  pub full : overflowed ≡ true → length d ≡ limit

pub empty-Tracks : (limit : ℕ) → Tracks limit [] [] false
unfolding lookup
empty-Tracks limit = record {
  size = omega arith;
  present = λ key c h. cc;
  known = λ e key h. refl;
  full = λ e. cc;
}

-- No candidate was lost exactly when the distinct routes are within the limit.
pub exact-Tracks :
    (limit : ℕ) (seen : List ProxyRouteKey) (d : Candidates) (overflowed : Bool)
    → IsSummary limit seen d
    → Tracks limit seen d overflowed
    → not overflowed ≡ true ↔ (distinct_count seen ≤ limit)
exact-Tracks limit seen d true s t =
    (λ e. cc, λ few. absurd (omega (arith, few, t.size, t.full refl)))
exact-Tracks limit seen d false s t = (λ e. omega (arith, s.bounded, t.size), λ few. refl)

module _ (limit : ℕ) (key : ProxyRouteKey) (seen : List ProxyRouteKey) (d : Candidates)
    (overflowed : Bool) (s : IsSummary limit seen d) (t : Tracks limit seen d overflowed) where
  insert-present :
      (v : Candidate) (b : Candidates)
      → ((j : ProxyRouteKey) (c : Candidate) → lookup j b ≡ some c → lookup j d ≡ some c)
      → (j : ProxyRouteKey) (c : Candidate) → lookup j (insert key v b) ≡ some c
      → contains (key ∷ seen) j ≡ true
  insert-present v b old j c h = elim (lookup-insert-some j key v c b h) [
    | inl (same_key, same_value) ↦ ground (arith, key_eq.same_iff j key)
    | inr (ne, found) ↦ ground (arith, t.present j c (old j c found))
  ]

  insert-missing :
      (v : Candidate)
      → overflowed ≡ false
      → (j : ProxyRouteKey) → lookup j (insert key v d) ≡ none
      → contains (key ∷ seen) j ≡ false
  insert-missing v e j h =
      let (ne, old) = lookup-insert-none j key v d h in
      ground (arith, key_eq.same_iff j key, t.known e j old)

  hit-Tracks :
      (c v : Candidate)
      → lookup key d ≡ some c
      → Tracks limit (key ∷ seen) (insert key v d) overflowed
  hit-Tracks c v found = record {
    size = ground (arith, t.size, t.present key c found, length-insert_old key v c d found);
    present = insert-present v d (λ j w h. h);
    known = insert-missing v;
    full = λ e. length-insert_old key v c d found ∙ t.full e;
  }

  new-Tracks :
      (v : Candidate)
      → lookup key d ≡ none
      → length d < limit
      → Tracks limit (key ∷ seen) (insert key v d) overflowed
  new-Tracks v absent room =
      let none_lost : overflowed ≡ false = ground (arith, t.full) in
      record {
        size = ground (
          arith,
          none_lost,
          t.size,
          t.known none_lost key absent,
          length-insert_new key v d absent,
        );
        present = insert-present v d (λ j w h. h);
        known = insert-missing v;
        full = λ e. cc;
      }

  -- After an eviction there are more distinct routes than the limit.
  over_limit : lookup key d ≡ none → limit ≤ length d → suc limit ≤ distinct_count (key ∷ seen)
  over_limit absent is_full = elim (Bool-cases overflowed) [
    | inl lost ↦ ground (arith, lost, t.size, is_full)
    | inr kept ↦ ground (arith, kept, t.size, is_full, s.bounded, t.known kept key absent)
  ]

  evict-Tracks :
      (gone : ProxyRouteKey) (c v : Candidate)
      → lookup key d ≡ none
      → limit ≤ length d
      → lookup gone d ≡ some c
      → Tracks limit (key ∷ seen) (insert key v (erase gone d)) true
  evict-Tracks gone c v absent is_full entry =
      let fresh : lookup key (erase gone d) ≡ none =
        lookup-erase key gone d ∙ ground (arith, absent) in
      let same_size : length (insert key v (erase gone d)) ≡ limit = omega (
        arith,
        s.bounded,
        length-erase_old gone c d s.nodup entry,
        length-insert_new key v (erase gone d) fresh,
      ) in
      record {
        size = omega (arith, same_size, over_limit absent is_full);
        present = insert-present v (erase gone d) (λ j w h. lookup-erase-some j gone w d h);
        known = λ e. cc;
        full = λ e. same_size;
      }

  -- What an event of the route gives.
  abbrev Next : Candidates × Bool → Type 0
  Next out = Tracks limit (key ∷ seen) out.0 (out.1 || overflowed)

  stays : (b : Candidates) → Tracks limit (key ∷ seen) b overflowed → Next (b, false)
  stays b next = subst (λ (o : Bool). Tracks limit (key ∷ seen) b o) (ground arith) next

  overflows : (b : Candidates) → Tracks limit (key ∷ seen) b true → Next (b, true)
  overflows b next = subst (λ (o : Bool). Tracks limit (key ∷ seen) b o) (ground arith) next

  evict_step :
      (flag : Bool) (b : Candidates) (out : Candidates × Bool)
      → lookup key d ≡ none
      → 0 < limit
      → limit ≤ length d
      → d ≡ b
      → elim (evict key flag b) [ none ↦ none | some c ↦ some (c, true) ] ≡ some out
      → Next out
  unfolding evict
  evict_step flag [] out absent positive is_full same h =
      absurd (omega (arith, ap (λ (x : Candidates). length x) same))
  evict_step flag (item ∷ b) out absent positive is_full same h =
      let (gone, c) = least item b in
      let v : Candidate = record {
        estimated_count = c.estimated_count + 1;
        is_upstream_error = flag;
      } in
      let entry : lookup gone d ≡ some c =
        subst (λ (x : Candidates). lookup gone x ≡ some c) (sym same)
          (least-IsEntry item b (subst (λ (x : Candidates). NodupKeys x) same s.nodup)) in
      subst Next (some-injective _ _ h) (
        overflows _ (
          subst (λ (x : Candidates). Tracks limit (key ∷ seen) (insert key v (erase gone x)) true)
            same (evict-Tracks gone c v absent is_full entry)))

  absent-Tracks :
      (flag : Bool) (out : Candidates × Bool)
      → lookup key d ≡ none
      → 0 < limit
      → record_absent limit key flag d ≡ some out
      → Next out
  unfolding record_absent
  absent-Tracks flag out absent positive h = elim (le_or_lt limit (length d)) [
    | inr room ↦
        subst Next (some-injective _ _ (simp (lt→ltb (length d) limit room) at h))
          (stays _ (new-Tracks _ absent room))
    | inl is_full ↦
        evict_step flag d out absent positive is_full refl
          (simp (ge→ltb (length d) limit is_full) at h)
  ]

  pub record_proxy_route_candidate-Tracks :
      (flag : Bool) (out : Candidates × Bool)
      → 0 < limit
      → record_proxy_route_candidate limit key flag d ≡ some out
      → Next out
  unfolding record_proxy_route_candidate
  record_proxy_route_candidate-Tracks flag out positive h = elim (Option-cases (lookup key d)) [
    | inl absent ↦ absent-Tracks flag out absent positive (simp absent at h)
    | inr (c, found) ↦
        subst Next (some-injective _ _ (simp found at h)) (stays _ (hit-Tracks c _ found))
  ]
