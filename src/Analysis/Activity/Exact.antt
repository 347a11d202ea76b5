-- ===== src/Analysis/Activity/Exact.antt =====
-- The second scan, `_build_proxy_route_groups_for_candidates`, against the events.
use mathlib.Core.Bool.{true≢false}
use mcp_log_server.Prelude.{
  Bool-cases, List, Option, [], ap, arith, beq_ne, bool_eq, contains, false, inl, inr, length,
  list_eq, nat_eq, none, option_eq, refl, some, string_eq, suc, sym, true, ℕ, ◌*◌, ◌+◌, ◌<◌, ◌==◌,
  ◌∙◌, ◌∷◌, ◌≡◌,
}
use mcp_log_server.Prelude.Dict.{Dict, contains-keys, insert, keys, lookup, lookup-insert}
use mcp_log_server.Prelude.Int.{int_eq, ℤ}
use mcp_log_server.Analysis.Activity.{
  RouteGroup, Scan, add_event, add_to_group, build_proxy_route_groups, first_scan, group_event,
  group_or_new, new_group, proxy_route_key, scan_events,
}
use mcp_log_server.Analysis.Activity.Counters.{counted_keys, first_scan-Scanned, key_of_status}
use mcp_log_server.Analysis.Activity.Occurrences.{
  grouped_key, hits, hits-no_health, hits-same, occurrences-counted_keys, one_if,
}
use mcp_log_server.Analysis.Routes.{
  ProxyLineEvent, ProxyRouteKey, StatusClass, key_eq, key_same_iff,
}
use mcp_log_server.Analysis.Routes.Retained.{IsSummary-retained}
use mcp_log_server.Analysis.Routes.Summary.{occurrences}
use mcp_log_server.SocketApp.Spool.{path_eq}

-- How many events the groups hold for a route.
abbrev count_of : Option RouteGroup → ℕ
count_of none = 0
count_of (some group) = group.count

abbrev counted_in : ProxyRouteKey → Dict ProxyRouteKey RouteGroup → ℕ
counted_in key groups = count_of (lookup key groups)

added_count :
    (event : ProxyLineEvent) (s : ℤ) (class : StatusClass) (o : Option RouteGroup)
    → (add_event event (group_or_new o (new_group event s class))).count ≡ suc (count_of o)
unfolding add_event group_or_new
added_count event s class none = refl
added_count event s class (some group) = refl

insert-counted_in :
    (key k : ProxyRouteKey) (group : RouteGroup) (groups : Dict ProxyRouteKey RouteGroup)
    → group.count ≡ suc (counted_in k groups)
    → counted_in key (insert k group groups) ≡ counted_in key groups + one_if (k == key)
insert-counted_in key k group groups h = elim (Bool-cases (k == key)) [
  | inl is_so ↦
      let found : lookup key (insert k group groups) ≡ some group =
        lookup-insert key k group groups ∙ rw is_so in
      ap count_of found
      ∙ omega (
        arith,
        h,
        ap one_if is_so,
        ap (λ (i : ProxyRouteKey). counted_in i groups) ((key_same_iff k key).0 is_so),
      )
  | inr is_not ↦
      let found : lookup key (insert k group groups) ≡ lookup key groups =
        lookup-insert key k group groups ∙ rw is_not in
      ap count_of found ∙ omega (arith, ap one_if is_not)
]

module _ (route_keys : List ProxyRouteKey) (key : ProxyRouteKey)
    (known : contains route_keys key ≡ true) where
  not_retained : (k : ProxyRouteKey) → contains route_keys k ≡ false → (k == key) ≡ false
  not_retained k unknown =
      beq_ne k key (λ e. true≢false (sym known ∙ ap (contains route_keys) (sym e) ∙ unknown))

  add_to_group-counted :
      (event : ProxyLineEvent) (s : Option ℤ) (class : Option StatusClass)
      (groups : Dict ProxyRouteKey RouteGroup)
      → counted_in key (add_to_group route_keys event s class groups)
        ≡ counted_in key groups + one_if (key_of_status event s class == some key)
  unfolding add_to_group add_event
  add_to_group-counted event (some s) (some class) groups =
      let k = proxy_route_key event s in
      elim (Bool-cases (contains route_keys k)) [
        | inl is_known ↦
            rw is_known
              (insert-counted_in key k _ groups (added_count event s class (lookup k groups)))
        | inr unknown ↦ rw unknown (omega (arith, ap one_if (not_retained k unknown)))
      ]
  add_to_group-counted event (some s) none groups = omega arith
  add_to_group-counted event none class groups = omega arith

  group_event-counted :
      (event : Option ProxyLineEvent) (groups : Dict ProxyRouteKey RouteGroup)
      → counted_in key (group_event route_keys event groups)
        ≡ counted_in key groups + one_if (grouped_key event == some key)
  unfolding group_event
  group_event-counted none groups = omega arith
  group_event-counted (some event) groups =
      add_to_group-counted event event.status_code event.status_class groups

  build-counted :
      (events : List (Option ProxyLineEvent)) (groups : Dict ProxyRouteKey RouteGroup)
      → counted_in key (build_proxy_route_groups route_keys events groups)
        ≡ counted_in key groups + hits grouped_key key events
  unfolding build_proxy_route_groups
  build-counted [] groups = omega arith
  build-counted (event ∷ events) groups = omega (
    arith,
    build-counted events (group_event route_keys event groups),
    group_event-counted event groups,
  )

-- A group of a route that has events.
group_of_count : (o : Option RouteGroup) → 0 < count_of o → (group : RouteGroup) × (o ≡ some group)
group_of_count none h = absurd (omega arith)
group_of_count (some group) h = (group, refl)

module _ (limit : ℕ) (positive : 0 < limit) (events : List (Option ProxyLineEvent))
    (key : ProxyRouteKey) where
  -- The route is in the result of the second scan, with its exact count.
  pub record IsExact : Type 0 where
    pub scan : Scan
    pub scanned : scan_events limit events first_scan ≡ some scan
    pub group : RouteGroup
    pub reported :
        lookup key (build_proxy_route_groups (keys scan.route_candidates) events []) ≡ some group
    pub exact : group.count ≡ occurrences key (counted_keys events [])

  -- A route that has more than its share of the HTTP events, one in the number of candidates, is
  -- in the result of the second scan with its exact count, although the first scan keeps only a
  -- bounded number of candidates with estimates. The number of candidates must be positive.
  pub build_proxy_route_groups-IsExact :
      length (counted_keys events []) < limit * occurrences key (counted_keys events []) → IsExact
  unfolding lookup
  build_proxy_route_groups-IsExact heavy =
      let s = first_scan-Scanned limit positive events in
      let (c, held) =
        IsSummary-retained limit (counted_keys events []) s.scan.route_candidates key
          s.agrees.summary heavy in
      let some_hits : 0 < occurrences key (counted_keys events []) = grind (arith, heavy) in
      let total = occurrences-counted_keys key events [] in
      let health = hits-no_health key events (omega (arith, some_hits, total)) in
      let count =
        build-counted (keys s.scan.route_candidates) key
          (contains-keys key c s.scan.route_candidates held) events [] in
      let groups = build_proxy_route_groups (keys s.scan.route_candidates) events [] in
      let exact : counted_in key groups ≡ occurrences key (counted_keys events []) =
        omega (arith, count, total, hits-same key events health) in
      let (group, found) = group_of_count (lookup key groups) (omega (arith, exact, some_hits)) in
      record {
        scan = s.scan;
        scanned = s.done;
        group = group;
        reported = found;
        exact = sym (ap count_of found) ∙ exact;
      }
