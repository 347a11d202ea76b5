-- ===== src/Analysis/Activity/Occurrences.antt =====
-- The routes that a scan counts: how often one occurs in the events.

use mathlib.Core.Bool.{true≢false}
use mathlib.Core.Option.{some-injective}
use mcp_log_server.Prelude.{
  Bool, Bool-cases, List, Option, [], ap, arith, bool_eq, false, if◌then◌else◌, inl, inr, list_eq,
  nat_eq, none, option_beq_iff, option_eq, refl, some, string_eq, sym, ℕ, ◌+◌, ◌<◌, ◌==◌, ◌↔◌, ◌∙◌,
  ◌∷◌, ◌≡◌,
}
use mcp_log_server.Prelude.Int.{int_eq, ℤ}
use mcp_log_server.Analysis.Activity.{proxy_route_key}
use mcp_log_server.Analysis.Activity.Counters.{counted_key, counted_keys, key_of_status, push}
use mcp_log_server.Analysis.Routes.{ProxyLineEvent, ProxyRouteKey, StatusClass, key_eq}
use mcp_log_server.Analysis.Routes.Summary.{occurrences}
use mcp_log_server.Filtering.Noise.{is_successful_health_request}
use mcp_log_server.SocketApp.Spool.{path_eq}

-- The route of an event, whether a health check or not.
abbrev pub grouped_key : Option ProxyLineEvent → Option ProxyRouteKey
grouped_key none = none
grouped_key (some event) = key_of_status event event.status_code event.status_class

abbrev pub one_if : Bool → ℕ
one_if b = if b then 1 else 0

abbrev pub hits :
    (Option ProxyLineEvent → Option ProxyRouteKey)
    → ProxyRouteKey
    → List (Option ProxyLineEvent)
    → ℕ
hits f key [] = 0
hits f key (event ∷ events) = one_if (f event == some key) + hits f key events

occurrences-push :
    (key : ProxyRouteKey) (o : Option ProxyRouteKey) (seen : List ProxyRouteKey)
    → occurrences key (push o seen) ≡ occurrences key seen + one_if (o == some key)
unfolding push
occurrences-push key none seen = omega arith
occurrences-push key (some k) seen = elim (Bool-cases (k == key)) [
  | inl is_so ↦ rw is_so (omega arith)
  | inr is_not ↦ rw is_not (omega arith)
]

pub occurrences-counted_keys :
    (key : ProxyRouteKey) (events : List (Option ProxyLineEvent)) (seen : List ProxyRouteKey)
    → occurrences key (counted_keys events seen)
      ≡ occurrences key seen + hits counted_key key events
unfolding counted_keys
occurrences-counted_keys key [] seen = omega arith
occurrences-counted_keys key (event ∷ events) seen = omega (
  arith,
  occurrences-counted_keys key events (push (counted_key event) seen),
  occurrences-push key (counted_key event) seen,
)

abbrev is_health : ProxyRouteKey → Bool
is_health key = is_successful_health_request key.path (some key.status_code)

-- An event of a route is a health check exactly if the route is one.
health_of_key :
    (event : ProxyLineEvent) (s : Option ℤ) (class : Option StatusClass) (key : ProxyRouteKey)
    → key_of_status event s class ≡ some key
    → is_successful_health_request event.path s ≡ is_health key
health_of_key event (some s) (some class) key h =
    ap is_health (some-injective (proxy_route_key event s) key h)
health_of_key event (some s) none key h = cc
health_of_key event none class key h = cc

counted-grouped :
    (event : Option ProxyLineEvent) (key : ProxyRouteKey)
    → is_health key ≡ false
    → (counted_key event ≡ some key) ↔ (grouped_key event ≡ some key)
counted-grouped none key no_health = (λ h. h, λ h. h)
counted-grouped (some event) key no_health =
    elim (Bool-cases (is_successful_health_request event.path event.status_code)) [
      | inl health ↦ simp health (
        λ h. cc,
        λ h. absurd (
            true≢false (
              sym health
              ∙ health_of_key event event.status_code event.status_class key h
              ∙ no_health)),
      )
      | inr other ↦ simp other (λ h. h, λ h. h)
    ]

counted-no_health :
    (event : Option ProxyLineEvent) (key : ProxyRouteKey)
    → counted_key event ≡ some key
    → is_health key ≡ false
counted-no_health none key h = cc
counted-no_health (some event) key h =
    elim (Bool-cases (is_successful_health_request event.path event.status_code)) [
      | inl health ↦ absurd (none_or_some key (simp health at h))
      | inr other ↦
          sym (health_of_key event event.status_code event.status_class key (simp other at h))
          ∙ other
    ]
  where
    none_or_some : (k : ProxyRouteKey) → Path (Option ProxyRouteKey) none (some k) → ⊥
    none_or_some k p = cc

same_test :
    (a b : Option ProxyRouteKey) (key : ProxyRouteKey)
    → (a ≡ some key) ↔ (b ≡ some key)
    → one_if (a == some key) ≡ one_if (b == some key)
same_test a b key h = ground (arith, option_beq_iff a (some key), option_beq_iff b (some key), h)

pub hits-same :
    (key : ProxyRouteKey) (events : List (Option ProxyLineEvent))
    → is_health key ≡ false
    → hits counted_key key events ≡ hits grouped_key key events
hits-same key [] h = refl
hits-same key (event ∷ events) h = omega (
  arith,
  same_test (counted_key event) (grouped_key event) key (counted-grouped event key h),
  hits-same key events h,
)

pub hits-no_health :
    (key : ProxyRouteKey) (events : List (Option ProxyLineEvent))
    → 0 < hits counted_key key events
    → is_health key ≡ false
hits-no_health key [] h = absurd (omega arith)
hits-no_health key (event ∷ events) h = elim (Bool-cases (counted_key event == some key)) [
  | inl is_so ↦
      counted-no_health event key ((option_beq_iff (counted_key event) (some key)).0 is_so)
  | inr is_not ↦ hits-no_health key events (omega (arith, ap one_if is_not, h))
]
