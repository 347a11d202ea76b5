-- ===== src/Analysis/Routes/Summary.antt =====
-- The invariant of the bounded candidates: a space-saving summary of the events so far.
use mcp_log_server.Prelude.{
  Bool, List, [], ap, arith, beq_ne, beq_refl, bool_eq, if◌then◌else◌, inl, inr, length, list_eq,
  nat_eq, none, option_eq, refl, some, string_eq, suc, ℕ, ◌*◌, ◌+◌, ◌<◌, ◌==◌, ◌∙◌, ◌∷◌, ◌≡◌, ◌≢◌,
  ◌≤◌,
}
use mcp_log_server.Prelude.Dict.{
  AllValues, AllValues-insert, AllValues-lookup, NodupKeys, insert, insert-NodupKeys,
  length-insert_new, length-insert_old, lookup, lookup-insert-none, lookup-insert-some,
  total_values, total_values-insert_new, total_values-insert_old,
}
use mcp_log_server.Prelude.Int.{int_eq}
use mcp_log_server.Analysis.Routes.{Candidate, Candidates, ProxyRouteKey, key_eq}
use mcp_log_server.SocketApp.Spool.{path_eq}

-- How often a route occurs in the events so far.
abbrev pub occurrences : ProxyRouteKey → List ProxyRouteKey → ℕ
occurrences key [] = 0
occurrences key (k ∷ seen) = let rest = occurrences key seen in if k == key then suc rest else rest

abbrev pub estimate : Candidate → ℕ
estimate c = c.estimated_count

pub record IsSummary (limit : ℕ) (seen : List ProxyRouteKey) (d : Candidates) : Type 0 where
  pub nodup : NodupKeys d
  pub bounded : length d ≤ limit
  pub sums : total_values estimate d ≡ length seen
  pub not_low :
      (key : ProxyRouteKey) (c : Candidate)
      → lookup key d ≡ some c
      → occurrences key seen ≤ c.estimated_count
  pub absent_low :
      (key : ProxyRouteKey)
      → lookup key d ≡ none
      → AllValues (λ c. occurrences key seen ≤ c.estimated_count) d
  pub absent_new :
      (key : ProxyRouteKey) → lookup key d ≡ none → length d < limit → occurrences key seen ≡ 0

pub empty-IsSummary : (limit : ℕ) → IsSummary limit [] []
unfolding lookup
empty-IsSummary limit = record {
  nodup = tt;
  bounded = omega arith;
  sums = refl;
  not_low = λ key c h. cc;
  absent_low = λ key h. tt;
  absent_new = λ key h k. refl;
}

-- A bound on all values gets weaker.
pub lower :
    (n m : ℕ) (d : Candidates)
    → n ≤ m
    → AllValues (λ c. m ≤ c.estimated_count) d
    → AllValues (λ c. n ≤ c.estimated_count) d
lower n m [] h a = tt
lower n m ((k, c) ∷ d) h (p, a) = (omega arith, lower n m d h a)

all_from_zero : (d : Candidates) → AllValues (λ c. 0 ≤ c.estimated_count) d
all_from_zero [] = tt
all_from_zero ((k, c) ∷ d) = (omega arith, all_from_zero d)

-- A common lower bound, summed up.
pub total-lower :
    (n : ℕ) (d : Candidates)
    → AllValues (λ c. n ≤ c.estimated_count) d
    → length d * n ≤ total_values estimate d
total-lower n [] a = omega arith
total-lower n ((k, c) ∷ d) (p, a) = grind (arith, total-lower n d a)

module _ (limit : ℕ) (key : ProxyRouteKey) (flag : Bool) (seen : List ProxyRouteKey)
    (d : Candidates) (s : IsSummary limit seen d) where
  -- The events after this one.
  abbrev pub now : List ProxyRouteKey
  now = key ∷ seen

  other_count : (j : ProxyRouteKey) → key ≢ j → occurrences j now ≡ occurrences j seen
  other_count j ne = rw (beq_ne key j ne)

  own_count : occurrences key now ≡ suc (occurrences key seen)
  own_count = rw (beq_refl key)

  -- An event of the route is recorded by a value over a part `b` of the candidates.
  pub record Records (b : Candidates) (v : Candidate) : Type 0 where
    pub nodup : NodupKeys b
    pub bounded : length (insert key v b) ≤ limit
    pub sums : total_values estimate (insert key v b) ≡ suc (length seen)
    pub enough : occurrences key seen < v.estimated_count
    pub kept :
        (j : ProxyRouteKey) (c : Candidate)
        → lookup j b ≡ some c
        → occurrences j seen ≤ c.estimated_count
    pub gone :
        (j : ProxyRouteKey)
        → key ≢ j
        → lookup j b ≡ none
        → AllValues (λ c. occurrences j seen ≤ c.estimated_count) (insert key v b)
    pub never :
        (j : ProxyRouteKey)
        → key ≢ j
        → lookup j b ≡ none
        → length (insert key v b) < limit
        → occurrences j seen ≡ 0

  pub insert-IsSummary :
      (b : Candidates) (v : Candidate) → Records b v → IsSummary limit now (insert key v b)
  insert-IsSummary b v r = record {
    nodup = insert-NodupKeys key v b r.nodup;
    bounded = r.bounded;
    sums = r.sums;
    not_low = λ j w h. elim (lookup-insert-some j key v w b h) [
      | inl (same_key, same_value) ↦ omega (
        arith,
        ap (λ (i : ProxyRouteKey). occurrences i now) same_key,
        own_count,
        r.enough,
        ap estimate same_value,
      )
      | inr (ne, old) ↦ omega (arith, other_count j ne, r.kept j w old)
    ];
    absent_low = λ j h.
        let (ne, old) = lookup-insert-none j key v b h in
        lower (occurrences j now) (occurrences j seen) _ (omega (arith, other_count j ne))
          (r.gone j ne old);
    absent_new = λ j h short.
        let (ne, old) = lookup-insert-none j key v b h in other_count j ne ∙ r.never j ne old short;
  }

  pub hit-Records :
      (c : Candidate) (b : Bool)
      → lookup key d ≡ some c
      → Records d (record { estimated_count = c.estimated_count + 1; is_upstream_error = b })
  hit-Records c b h =
      let v : Candidate = record {
        estimated_count = c.estimated_count + 1;
        is_upstream_error = b;
      } in
      record {
        nodup = s.nodup;
        bounded = omega (arith, s.bounded, length-insert_old key v c d h);
        sums = omega (arith, s.sums, total_values-insert_old estimate key v c d h);
        enough = omega (arith, s.not_low key c h);
        kept = s.not_low;
        gone = λ j ne e.
            AllValues-insert (λ w. occurrences j seen ≤ w.estimated_count) key v d
              (omega (
                arith,
                AllValues-lookup (λ w. occurrences j seen ≤ w.estimated_count) key c d
                    (s.absent_low j e) h,
              ))
              (s.absent_low j e);
        never = λ j ne e short. s.absent_new j e (omega (arith, length-insert_old key v c d h));
      }

  pub new-Records :
      lookup key d ≡ none
      → length d < limit
      → Records d (record { estimated_count = 1; is_upstream_error = flag })
  new-Records h room =
      let v : Candidate = record { estimated_count = 1; is_upstream_error = flag } in
      record {
        nodup = s.nodup;
        bounded = omega (arith, length-insert_new key v d h);
        sums = omega (arith, s.sums, total_values-insert_new estimate key v d h);
        enough = omega (arith, s.absent_new key h room);
        kept = s.not_low;
        gone = λ j ne e.
            lower (occurrences j seen) 0 _ (omega (arith, s.absent_new j e room))
              (all_from_zero (insert key v d));
        never = λ j ne e short. s.absent_new j e room;
      }
