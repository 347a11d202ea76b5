-- ===== src/Filtering/Noise/Kept.antt =====
-- The noise profiles on lines with an error status.
use mcp_log_server.Prelude.{
  Bool-cases, Option, String, ap, arith, bool_eq, eq_iff, false, inl, inr, list_eq, nat_eq, none,
  option_eq, refl, some, string_eq, true, ◌==◌, ◌≡◌,
}
use mcp_log_server.Prelude.Int.{at_least, below, int_eq, negsuc, pos, ℤ}
use mcp_log_server.Prelude.Result.{Result, ok}
use mcp_log_server.Prelude.Utf8.{Text}
use mcp_log_server.Filtering.Extract.{
  Python, ValueError, extract_request_path, extract_status_code, parse_json_line,
}
use mcp_log_server.Filtering.Noise.{
  FilterDecision, SourceNoiseContext, apply_noise_profile, by_profile, decide, filter_backend_noise,
  filter_frontend_noise, filter_proxy_noise, filter_web_noise, is_asset_noise,
  is_successful_health_request, is_successful_static_asset_request, keep_line, no_server_error,
  successful_health_status, successful_static_asset_status,
}
use mcp_log_server.SocketApp.Spool.{path_eq}

-- A client or server error is no success, of a health check or of an asset.
health_fails :
    (path : Option Text) (s : ℤ)
    → at_least s 400 ≡ true
    → is_successful_health_request path (some s) ≡ false
unfolding is_successful_health_request successful_health_status
health_fails path (negsuc n) h = cc
health_fails path (pos n) h = ground arith

asset_fails :
    (py : Python) (context : SourceNoiseContext) (path : Text) (s : ℤ)
    → at_least s 400 ≡ true
    → is_successful_static_asset_request py context path (some s) ≡ false
unfolding is_successful_static_asset_request successful_static_asset_status
asset_fails py context path (negsuc n) h = cc
asset_fails py context path (pos n) h = ground arith

server_error : (s : ℤ) → at_least s 500 ≡ true → (at_least s 400 ≡ true) × (below s 500 ≡ false)
server_error (negsuc n) h = cc
server_error (pos n) h = ground arith

module _ (py : Python) (context : SourceNoiseContext) (s : ℤ) (h : at_least s 400 ≡ true) where
  web_keeps : (path : Option Text) → (filter_web_noise py context path (some s)).keep ≡ true
  unfolding filter_web_noise
  web_keeps none = refl
  web_keeps (some path) = rw (health_fails (some path) s h, asset_fails py context path s h)

  backend_keeps : (path : Option Text) → (filter_backend_noise path (some s)).keep ≡ true
  unfolding filter_backend_noise
  backend_keeps path = rw (health_fails path s h) (ground arith)

  frontend_keeps :
      (path : Option Text) → (filter_frontend_noise py context path (some s)).keep ≡ true
  unfolding filter_frontend_noise is_asset_noise
  frontend_keeps none = refl
  frontend_keeps (some path) =
      rw (health_fails (some path) s h, asset_fails py context path s h) (ground arith)

  proxy_keeps :
      below s 500 ≡ false
      → (path : Option Text) → (filter_proxy_noise py context path (some s)).keep ≡ true
  unfolding filter_proxy_noise no_server_error
  proxy_keeps e none = refl
  proxy_keeps e (some path) =
      rw (health_fails (some path) s h, asset_fails py context path s h, e) (ground arith)

-- A status of 400 or more is never noise, but for the certificate challenges of a proxy, which
-- are noise below 500.
pub decide-error_kept :
    (py : Python) (context : SourceNoiseContext) (profile : String) (path : Option Text) (s : ℤ)
    → at_least s 400 ≡ true
    → (profile ≡ "proxy_noise" → at_least s 500 ≡ true)
    → (decide py context profile path (some s)).keep ≡ true
unfolding decide
decide-error_kept py context profile path s h proxy = elim (Bool-cases (profile == "web_noise")) [
  | inl web ↦ rw (web, web_keeps py context s h path)
  | inr a ↦ elim (Bool-cases (profile == "proxy_noise")) [
    | inl is_proxy ↦ rw (
      a,
      is_proxy,
      proxy_keeps py context s h
          (server_error s (proxy ((eq_iff profile "proxy_noise").0 is_proxy))).1 path,
    )
    | inr b ↦
        rw (a, b)
          (ground (arith, backend_keeps py context s h path, frontend_keeps py context s h path))
  ]
]

module _ (py : Python) (context : SourceNoiseContext) (raw_line : Text) (s : ℤ)
    (status : extract_status_code py (parse_json_line py raw_line) raw_line ≡ ok (some s))
    (h : at_least s 400 ≡ true) where
  abbrev IsKept : Result ValueError FilterDecision → Type 0
  IsKept outcome = (decision : FilterDecision) × (outcome ≡ ok decision) × (decision.keep ≡ true)

  by_profile-IsKept :
      (profile : Option String)
      → (profile ≡ some "proxy_noise" → at_least s 500 ≡ true)
      → IsKept (by_profile py context raw_line profile)
  unfolding by_profile
  by_profile-IsKept none proxy = (keep_line, refl, refl)
  by_profile-IsKept (some profile) proxy = elim (Bool-cases (profile == "")) [
    | inl empty ↦ rw empty (keep_line, refl, refl)
    | inr full ↦
        rw (full, status)
          (
            decide py context profile (extract_request_path (parse_json_line py raw_line) raw_line)
                (some s),
            refl,
            decide-error_kept py context profile _ s h (λ q. proxy (ap (λ (p : String). some p) q)),
          )
  ]

  -- A line with a status of 400 or more is kept, whatever the profile, the paths and the assets of
  -- its source; under the proxy profile this is said of statuses from 500 on.
  pub apply_noise_profile-IsKept :
      (context.default_noise_profile ≡ some "proxy_noise" → at_least s 500 ≡ true)
      → IsKept (apply_noise_profile py context raw_line)
  unfolding apply_noise_profile
  apply_noise_profile-IsKept proxy = by_profile-IsKept context.default_noise_profile proxy
