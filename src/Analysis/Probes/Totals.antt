-- ===== src/Analysis/Probes/Totals.antt =====
-- The totals of a probe report, against the lines of the files.
use mcp_log_server.Prelude.{
  Option, Option-cases, arith, bool_eq, inl, inr, list_eq, nat_eq, none, option_eq, refl, some,
  string_eq, ℕ, ◌*◌, ◌+◌, ◌≡◌,
}
use mcp_log_server.Prelude.Dict.{
  insert, lookup, total_values, total_values-insert_new, total_values-insert_old,
}
use mcp_log_server.Prelude.Int.{int_eq}
use mcp_log_server.Prelude.Matcher.{End}
use mcp_log_server.Prelude.Utf8.{Text}
use mcp_log_server.Analysis.Probes.{
  ProbeRecord, ProbeRecords, add_ban, add_crowdsec_appsec_ban_event, add_found_ban, add_found_probe,
  add_probe, add_sensitive_probe_event, ban_of, new_record, record_or_new, sensitive_probe,
}
use mcp_log_server.Analysis.Routes.{ProxyLineEvent, key_eq}
use mcp_log_server.Analysis.Values.{Runtime}

abbrev pub accesses : ProbeRecord → ℕ
accesses r = r.suspicious_access_count

abbrev pub bans : ProbeRecord → ℕ
bans r = r.appsec_ban_count

abbrev pub one_of {ℓ} : {A : Type ℓ} → Option A → ℕ
one_of none = 0
one_of (some a) = 1

-- An update of one record that adds to a number adds as much to the sum.
total_values-update :
    (f : ProbeRecord → ℕ) (ip : Text) (change : ProbeRecord → ProbeRecord) (n : ℕ)
    (records : ProbeRecords)
    → ((r : ProbeRecord) → f (change r) ≡ f r + n)
    → f new_record ≡ 0
    → total_values f (insert ip (change (record_or_new (lookup ip records))) records)
      ≡ total_values f records + n
unfolding record_or_new
total_values-update f ip change n records adds fresh = elim (Option-cases (lookup ip records)) [
  | inl absent ↦ rw absent (
      omega (
        arith,
        total_values-insert_new f ip (change new_record) records absent,
        adds new_record,
        fresh,
      ))
  | inr (r, here) ↦
      rw here (omega (arith, total_values-insert_old f ip (change r) r records here, adds r))
]

module _ (f : ProbeRecord → ℕ) (fresh : f new_record ≡ 0) where
  add_found_probe-total :
      (n : ℕ) (event : ProxyLineEvent) (found : Option (Text × Text)) (records : ProbeRecords)
      → ((path : Text) (r : ProbeRecord) → f (add_probe event path r) ≡ f r + n)
      → total_values f (add_found_probe event found records)
        ≡ total_values f records + n * one_of found
  unfolding add_found_probe
  add_found_probe-total n event none records adds = omega arith
  add_found_probe-total n event (some (ip, path)) records adds =
      omega (arith, total_values-update f ip (add_probe event path) n records (adds path) fresh)

  add_found_ban-total :
      (n : ℕ) (found : Option End) (records : ProbeRecords)
      → ((timestamp : Text) (r : ProbeRecord) → f (add_ban timestamp r) ≡ f r + n)
      → total_values f (add_found_ban found records) ≡ total_values f records + n * one_of found
  unfolding add_found_ban
  add_found_ban-total n none records adds = omega arith
  add_found_ban-total n (some e) records adds =
      omega (arith, total_values-update f e.other (add_ban e.group) n records (adds e.group) fresh)

-- What one line adds to the two totals.
pub record Adds (probes banned : ℕ) (before after : ProbeRecords) : Type 0 where
  pub accesses_added : total_values accesses after ≡ total_values accesses before + probes
  pub bans_added : total_values bans after ≡ total_values bans before + banned

pub add_sensitive_probe_event-Adds :
    (event : ProxyLineEvent) (records : ProbeRecords)
    → Adds (one_of (sensitive_probe event)) 0 records (add_sensitive_probe_event event records)
unfolding add_sensitive_probe_event add_probe
add_sensitive_probe_event-Adds event records = record {
  accesses_added = omega (
    arith,
    add_found_probe-total accesses refl 1 event (sensitive_probe event) records
        (λ path r. omega arith),
  );
  bans_added = omega (
    arith,
    add_found_probe-total bans refl 0 event (sensitive_probe event) records (λ path r. omega arith),
  );
}

pub add_crowdsec_appsec_ban_event-Adds :
    (rt : Runtime) (line : Text) (records : ProbeRecords)
    → Adds 0 (one_of (ban_of rt line)) records (add_crowdsec_appsec_ban_event rt line records)
unfolding add_crowdsec_appsec_ban_event add_ban
add_crowdsec_appsec_ban_event-Adds rt line records = record {
  accesses_added = omega (
    arith,
    add_found_ban-total accesses refl 0 (ban_of rt line) records (λ timestamp r. omega arith),
  );
  bans_added = omega (
    arith,
    add_found_ban-total bans refl 1 (ban_of rt line) records (λ timestamp r. omega arith),
  );
}

pub Adds-trans :
    {p q b c : ℕ} {first second third : ProbeRecords}
    → Adds p b first second
    → Adds q c second third
    → Adds (p + q) (b + c) first third
Adds-trans x y = record {
  accesses_added = omega (arith, x.accesses_added, y.accesses_added);
  bans_added = omega (arith, x.bans_added, y.bans_added);
}

pub Adds-refl : {records : ProbeRecords} → Adds 0 0 records records
Adds-refl = record { accesses_added = omega arith; bans_added = omega arith }
