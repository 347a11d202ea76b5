-- ===== src/Analysis/Routes.antt =====
-- `_record_proxy_route_candidate` of src/services/log_analysis.py with the types of the proxy
-- diagnostics: the bounded route candidates.
pub mod Tracked
pub mod Summary
pub mod Least
pub mod Retained
use mcp_log_server.Prelude.{
  Bool, Eq, Option, String, [], arith, bool_eq, false, if◌then◌else◌, length, list_eq, ltb, max,
  nat_eq, none, not, option_beq_iff, option_eq, some, string_eq, true, ℕ, ◌&&◌, ◌*◌, ◌+◌, ◌==◌,
  ◌||◌, ◌↔◌, ◌∷◌, ◌≡◌,
}
use mcp_log_server.Prelude.Dict.{Dict, erase, insert, lookup}
use mcp_log_server.Prelude.Int.{below, int_beq_iff, int_eq, ℤ}
use mcp_log_server.Prelude.Utf8.{Text}
use mcp_log_server.SocketApp.Spool.{path_eq}

pub data StatusClass : Type 0 where
  class_1xx class_2xx class_3xx class_4xx class_5xx : StatusClass

-- `ProxyLineEvent`
pub record ProxyLineEvent : Type 0 where
  pub source_key : String
  pub output_file : String
  pub line_number : ℕ
  pub line : Text
  pub line_truncated : Bool
  pub timestamp : Option Text
  pub status_code : Option ℤ
  pub status_class : Option StatusClass
  pub host : Option Text
  pub method : Option Text
  pub path : Option Text
  pub client_ip : Option Text
  pub user_agent : Option Text
  pub upstream_attempted : Option Bool

-- `ProxyRouteKey`
pub record ProxyRouteKey : Type 0 where
  pub host : Option Text
  pub method : Option Text
  pub path : Option Text
  pub status_code : ℤ

abbrev pub key_same : ProxyRouteKey → ProxyRouteKey → Bool
key_same a b =
    a.host == b.host && a.method == b.method && a.path == b.path && a.status_code == b.status_code

pub key_same_iff : (a b : ProxyRouteKey) → (key_same a b ≡ true) ↔ (a ≡ b)
key_same_iff a b = ground (
  arith,
  option_beq_iff a.host b.host,
  option_beq_iff a.method b.method,
  option_beq_iff a.path b.path,
  int_beq_iff a.status_code b.status_code,
)

instance abbrev pub key_eq : Eq ProxyRouteKey
key_eq = record { same = key_same; same_iff = key_same_iff }

-- `ProxyRouteCandidate`
pub record Candidate : Type 0 where
  pub estimated_count : ℕ
  pub is_upstream_error : Bool

abbrev pub Candidates : Type 0
Candidates = Dict ProxyRouteKey Candidate

-- `_status_class`
unfoldable pub status_class_of : Option ℤ → Option StatusClass
status_class_of none = none
status_class_of (some s) =
    if below s 100 || not (below s 600)
    then none
    else if below s 200
    then some class_1xx
    else if below s 300
    then some class_2xx
    else if below s 400
    then some class_3xx
    else if below s 500
    then some class_4xx
    else some class_5xx

-- The order of `min` in the eviction: by the estimate, then False before True.
abbrev pub evicted_before : Candidate → Candidate → Bool
evicted_before a b =
    ltb a.estimated_count b.estimated_count
    || a.estimated_count == b.estimated_count && not a.is_upstream_error && b.is_upstream_error

-- `min`: the first of the least.
unfoldable pub least : ProxyRouteKey × Candidate → Candidates → ProxyRouteKey × Candidate
least item [] = item
least item (other ∷ d) =
    let keep = least item d in
    let change = least other d in if evicted_before other.1 item.1 then change else keep

-- `min` of no items raises ValueError.
unfoldable pub evict : ProxyRouteKey → Bool → Candidates → Option Candidates
evict key is_upstream_error [] = none
evict key is_upstream_error (item ∷ d) =
    let (eviction_key, evicted) = least item d in
    some (
      insert key
        (record {
          estimated_count = evicted.estimated_count + 1;
          is_upstream_error = is_upstream_error;
        })
        (erase eviction_key (item ∷ d)))

unfoldable pub record_absent : ℕ → ProxyRouteKey → Bool → Candidates → Option (Candidates × Bool)
unfolding evict
record_absent candidate_limit key is_upstream_error d =
    if ltb (length d) candidate_limit
    then some (
      insert key (record { estimated_count = 1; is_upstream_error = is_upstream_error }) d,
      false,
    )
    else elim (evict key is_upstream_error d) [ none ↦ none | some c ↦ some (c, true) ]

record_found : ℕ → ProxyRouteKey → Bool → Candidates → Option Candidate → Option (Candidates × Bool)
unfolding record_absent
record_found candidate_limit key is_upstream_error d none =
    record_absent candidate_limit key is_upstream_error d
record_found candidate_limit key is_upstream_error d (some c) = some (
  insert key
      (record {
        estimated_count = c.estimated_count + 1;
        is_upstream_error = c.is_upstream_error || is_upstream_error;
      })
      d,
  false,
)

-- `_record_proxy_route_candidate`
unfoldable pub record_proxy_route_candidate :
    ℕ → ProxyRouteKey → Bool → Candidates → Option (Candidates × Bool)
unfolding record_found
record_proxy_route_candidate candidate_limit key is_upstream_error d =
    record_found candidate_limit key is_upstream_error d (lookup key d)

-- `_proxy_route_candidate_limit`
unfoldable pub proxy_route_candidate_limit : ℕ → ℕ
proxy_route_candidate_limit max_groups = max 32 (max_groups * 4)
