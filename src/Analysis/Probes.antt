-- ===== src/Analysis/Probes.antt =====
-- `inspect_probe_blocking_activity` of src/services/log_analysis.py: sensitive probes in the
-- proxies' logs, and the bans that CrowdSec reports.
pub mod Report
pub mod Totals
use mcp_log_server.Prelude.{
  Bool, Eq, List, Option, String, [], bool_eq, contains, drop, false, if◌then◌else◌, length,
  list_eq, nat_eq, none, not, option_eq, some, string_eq, suc, true, ℕ, ◌&&◌, ◌==◌, ◌||◌, ◌∷◌,
}
use mcp_log_server.Prelude.Dict.{Dict, insert, lookup}
use mcp_log_server.Prelude.Int.{int_eq, pos, ℤ}
use mcp_log_server.Prelude.Matcher.{
  End, Matcher, again_other, boundary, either, grouped, line_end, literal, match_after, maybe, one,
  other_grouped, plus, search_match, star, ◌then_match◌,
}
use mcp_log_server.Prelude.Strings.{is_space, starts_with}
use mcp_log_server.Prelude.Utf8.{Text, codes}
use mcp_log_server.Analysis.Routes.{ProxyLineEvent, key_eq}
use mcp_log_server.Analysis.Values.{Runtime}

-- `(?:[^/]+/)*` after the first slash, and then a test of the rest: at the start of a segment the
-- test may hold, and a segment is not empty.
after_segments : (Text → Bool) → Bool → Text → Bool
after_segments p inside [] = not inside && p []
after_segments p true (c ∷ t) = after_segments p (not (c == 47)) t
after_segments p false (c ∷ t) = p (c ∷ t) || (not (c == 47) && after_segments p true t)

-- A name, and no space after it.
names_file : Text → Text → Bool
names_file name t = starts_with t name && not (contains (drop (length name) t) 32)

any_literal : List String → Matcher
any_literal [] = literal []
any_literal (name ∷ []) = literal (codes name)
any_literal (name ∷ next ∷ names) = either (literal (codes name)) (any_literal (next ∷ names))

admin_pattern : Matcher
unfolding any_literal
admin_pattern =
    any_literal (
      "wp-admin" ∷ "wp-login" ∷ "wp-content" ∷ "xmlrpc.php" ∷ "phpMyAdmin" ∷ "phpmyadmin"
      ∷ "setup.php" ∷ "config.php" ∷ "eval-stdin.php" ∷ [])
    then_match maybe (one (λ c. c == 47 || c == 63) then_match star (λ c. not (c == 10)))
    then_match line_end

matches : Option End → Bool
matches none = false
matches (some e) = true

-- `_PROBE_SUSPICIOUS_PATH_PATTERNS`, on what follows the first slash.
suspicious_rest : Text → Bool
unfolding after_segments names_file admin_pattern matches
suspicious_rest t =
    after_segments (names_file (codes ".env")) false t
    || after_segments (names_file (codes ".git/config")) false t
    || matches (match_after admin_pattern (some 47) t)

unfoldable pub is_suspicious_path : Text → Bool
unfolding suspicious_rest
is_suspicious_path [] = false
is_suspicious_path (c ∷ t) = c == 47 && suspicious_rest t

not_quote : ℕ → Bool
not_quote c = not (c == 34)

-- `_CROWDSEC_APPSEC_SECOND_PROBE_BAN_PATTERN`; the timestamp is the first group, the address the
-- second.
ban_pattern : Runtime → Matcher
unfolding not_quote
ban_pattern rt =
    boundary rt.python.is_word
    then_match literal (codes "time=\"")
    then_match grouped (plus not_quote)
    then_match literal (codes "\"")
    then_match star (λ c. not (c == 10))
    then_match boundary rt.python.is_word
    then_match literal (codes "msg=\"")
    then_match star not_quote
    then_match boundary rt.python.is_word
    then_match literal (codes "appsec/second-probe ")
    then_match boundary rt.python.is_word
    then_match literal (codes "by ip ")
    then_match other_grouped (plus (λ c. not (is_space c)))
    then_match literal (codes " ")
    then_match star not_quote
    then_match literal (codes ":")
    then_match plus is_space
    then_match star not_quote
    then_match boundary rt.python.is_word
    then_match literal (codes "ban on Ip ")
    then_match again_other
    then_match boundary rt.python.is_word

-- `ProbeBlockingRecord`; its sets are lists without repetition, the address is its key.
pub record ProbeRecord : Type 0 where
  pub sources : List String
  pub suspicious_access_count : ℕ
  pub paths : List Text
  pub last_seen : Text
  pub appsec_ban_count : ℕ
  pub last_appsec_ban_at : Text

abbrev pub new_record : ProbeRecord
new_record = record {
  sources = [];
  suspicious_access_count = 0;
  paths = [];
  last_seen = [];
  appsec_ban_count = 0;
  last_appsec_ban_at = [];
}

abbrev pub ProbeRecords : Type 0
ProbeRecords = Dict Text ProbeRecord

record_or_new : Option ProbeRecord → ProbeRecord
record_or_new none = new_record
record_or_new (some r) = r

add_one : {A : Type 0} → ⦃e : Eq A⦄ → List A → A → List A
add_one xs a = if contains xs a then xs else a ∷ xs

latest : Text → Option Text → Text
latest last none = last
latest last (some t) = if t == [] then last else t

add_probe : ProxyLineEvent → Text → ProbeRecord → ProbeRecord
unfolding add_one latest
add_probe event path r = record r {
  sources = add_one r.sources event.source_key;
  suspicious_access_count = suc r.suspicious_access_count;
  paths = add_one r.paths path;
  last_seen = latest r.last_seen event.timestamp;
}

-- The address and path of a sensitive probe.
probe_of : Option ℤ → Option Text → Option Text → Option (Text × Text)
probe_of (some status) (some ip) (some path) =
    if (status == pos 403 || status == pos 404) && is_suspicious_path path
    then some (ip, path)
    else none
probe_of _ _ _ = none

unfoldable pub sensitive_probe : ProxyLineEvent → Option (Text × Text)
unfolding probe_of
sensitive_probe event = probe_of event.status_code event.client_ip event.path

add_found_probe : ProxyLineEvent → Option (Text × Text) → ProbeRecords → ProbeRecords
unfolding add_probe record_or_new
add_found_probe event none records = records
add_found_probe event (some (ip, path)) records =
    insert ip (add_probe event path (record_or_new (lookup ip records))) records

-- `_add_sensitive_probe_event`
unfoldable pub add_sensitive_probe_event : ProxyLineEvent → ProbeRecords → ProbeRecords
unfolding add_found_probe
add_sensitive_probe_event event records = add_found_probe event (sensitive_probe event) records

add_ban : Text → ProbeRecord → ProbeRecord
unfolding add_one
add_ban timestamp r = record r {
  sources = add_one r.sources "crowdsec_runtime";
  appsec_ban_count = suc r.appsec_ban_count;
  last_appsec_ban_at = timestamp;
}

unfoldable pub ban_of : Runtime → Text → Option End
unfolding ban_pattern
ban_of rt line = search_match (ban_pattern rt) line

add_found_ban : Option End → ProbeRecords → ProbeRecords
unfolding add_ban record_or_new
add_found_ban none records = records
add_found_ban (some e) records =
    insert e.other (add_ban e.group (record_or_new (lookup e.other records))) records

-- `_add_crowdsec_appsec_ban_event`
unfoldable pub add_crowdsec_appsec_ban_event : Runtime → Text → ProbeRecords → ProbeRecords
unfolding add_found_ban
add_crowdsec_appsec_ban_event rt line records = add_found_ban (ban_of rt line) records
