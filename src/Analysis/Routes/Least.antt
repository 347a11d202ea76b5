-- ===== src/Analysis/Routes/Least.antt =====
-- The candidate that `_record_proxy_route_candidate` evicts.
use mcp_log_server.Prelude.{
  Bool-cases, [], arith, beq_refl, bool_eq, false, inl, inr, list_eq, nat_eq, option_eq, some,
  string_eq, subst, true, ◌∷◌, ◌≡◌, ◌≤◌,
}
use mcp_log_server.Prelude.Dict.{
  AllValues, NodupKeys, lookup, lookup_extend, lookup_rest, lookup_second,
}
use mcp_log_server.Prelude.Int.{int_eq}
use mcp_log_server.Analysis.Routes.{
  Candidate, Candidates, ProxyRouteKey, evicted_before, key_eq, least,
}
use mcp_log_server.SocketApp.Spool.{path_eq}

least_next :
    (k j : ProxyRouteKey) (c b : Candidate) (d : Candidates)
    → evicted_before b c ≡ true
    → least (j, b) d ≡ least (k, c) ((j, b) ∷ d)
unfolding least
least_next k j c b d h = rw h

least_same :
    (k j : ProxyRouteKey) (c b : Candidate) (d : Candidates)
    → evicted_before b c ≡ false
    → least (k, c) d ≡ least (k, c) ((j, b) ∷ d)
unfolding least
least_same k j c b d h = rw h

not_above : (c b : Candidate) → evicted_before b c ≡ true → b.estimated_count ≤ c.estimated_count
not_above c b h = ground arith

not_below : (c b : Candidate) → evicted_before b c ≡ false → c.estimated_count ≤ b.estimated_count
not_below c b h = ground arith

abbrev pub Least : Candidates → ProxyRouteKey × Candidate → Type 0
Least d item = AllValues (λ c. item.1.estimated_count ≤ c.estimated_count) d

pub least-Least :
    (item : ProxyRouteKey × Candidate) (d : Candidates) → Least (item ∷ d) (least item d)
unfolding least
least-Least item [] = (omega arith, tt)
least-Least (k, c) ((j, b) ∷ d) = elim (Bool-cases (evicted_before b c)) [
  | inl change ↦
      let low = least-Least (j, b) d in
      subst (λ (m : ProxyRouteKey × Candidate). Least ((k, c) ∷ (j, b) ∷ d) m)
        (least_next k j c b d change) (omega (arith, low.0, not_above c b change), low)
  | inr keep ↦
      let low = least-Least (k, c) d in
      subst (λ (m : ProxyRouteKey × Candidate). Least ((k, c) ∷ (j, b) ∷ d) m)
        (least_same k j c b d keep) (low.0, (omega (arith, low.0, not_below c b keep), low.1))
]

abbrev pub IsEntry : Candidates → ProxyRouteKey × Candidate → Type 0
IsEntry d item = lookup item.0 d ≡ some item.1

pub least-IsEntry :
    (item : ProxyRouteKey × Candidate) (d : Candidates)
    → NodupKeys (item ∷ d)
    → IsEntry (item ∷ d) (least item d)
unfolding least lookup
least-IsEntry (k, c) [] n = rw (beq_refl k)
least-IsEntry (k, c) ((j, b) ∷ d) (fresh, (fresh_j, n)) = elim (Bool-cases (evicted_before b c)) [
  | inl change ↦
      subst (λ (m : ProxyRouteKey × Candidate). IsEntry ((k, c) ∷ (j, b) ∷ d) m)
        (least_next k j c b d change)
        (lookup_extend (least (j, b) d).0 k c (least (j, b) d).1 ((j, b) ∷ d) fresh
          (least-IsEntry (j, b) d (fresh_j, n)))
  | inr keep ↦
      subst (λ (m : ProxyRouteKey × Candidate). IsEntry ((k, c) ∷ (j, b) ∷ d) m)
        (least_same k j c b d keep)
        (lookup_second (least (k, c) d).0 k j c b (least (k, c) d).1 d fresh_j
          (least-IsEntry (k, c) d (lookup_rest k j b d fresh, n)))
]
