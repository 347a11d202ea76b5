-- ===== src/Analysis/Probes/Report.antt =====
-- The scan of the sources, and the report.
pub mod Lines
pub mod Counted
use mcp_log_server.Prelude.{
  Bool, List, Option, String, [], bool_eq, false, if◌then◌else◌, length, list_eq, ltb, map, nat_eq,
  none, option_eq, select, some, string_eq, suc, total, true, ℕ, ◌==◌, ◌||◌, ◌∷◌,
}
use mcp_log_server.Prelude.Int.{int_eq}
use mcp_log_server.Prelude.Json.{Fields}
use mcp_log_server.Prelude.Result.{Result, err, ok, ◌>>=◌}
use mcp_log_server.Prelude.Sorting.{sort, string_below, text_below}
use mcp_log_server.Prelude.Utf8.{Text}
use mcp_log_server.Analysis.Groups.{GroupError, invalid_source_file, snapshot_file_missing}
use mcp_log_server.Analysis.Probes.{
  ProbeRecord, ProbeRecords, add_crowdsec_appsec_ban_event, add_sensitive_probe_event,
}
use mcp_log_server.Analysis.Requests.{parse_proxy_line}
use mcp_log_server.Analysis.Routes.{key_eq}
use mcp_log_server.Analysis.Sources.{
  AnalysisError, as_analysis_error, keys_of_sources, select_snapshot_files, without_newline,
}
use mcp_log_server.Analysis.Values.{Runtime}
use mcp_log_server.Filtering.Extract.{parse_json_line}
use mcp_log_server.Filtering.View.{
  FileRead, FileReference, Source, file_lines, os_error, value_error,
}

-- `ProbeBlockingIpPayload`
pub record IpPayload : Type 0 where
  pub ip : Text
  pub sources : List String
  pub suspicious_access_count : ℕ
  pub paths : List Text
  pub last_seen : Text
  pub observed_appsec_ban : Bool
  pub appsec_ban_count : ℕ
  pub last_appsec_ban_at : Text

-- `ProbeBlockingBanPayload`
pub record BanPayload : Type 0 where
  pub ip : Text
  pub appsec_ban_count : ℕ
  pub last_appsec_ban_at : Text
  pub has_suspicious_access_context : Bool

-- `to_payload`
unfoldable pub to_ip_payload : Text × ProbeRecord → IpPayload
to_ip_payload (ip, r) = record {
  ip = ip;
  sources = sort string_below r.sources;
  suspicious_access_count = r.suspicious_access_count;
  paths = sort text_below r.paths;
  last_seen = r.last_seen;
  observed_appsec_ban = ltb 0 r.appsec_ban_count;
  appsec_ban_count = r.appsec_ban_count;
  last_appsec_ban_at = r.last_appsec_ban_at;
}

-- `to_ban_payload`
unfoldable pub to_ban_payload : Text × ProbeRecord → BanPayload
to_ban_payload (ip, r) = record {
  ip = ip;
  appsec_ban_count = r.appsec_ban_count;
  last_appsec_ban_at = r.last_appsec_ban_at;
  has_suspicious_access_context = ltb 0 r.suspicious_access_count;
}

-- More accesses first, then by address.
ip_before : IpPayload → IpPayload → Bool
ip_before a b =
    if ltb b.suspicious_access_count a.suspicious_access_count
    then true
    else if ltb a.suspicious_access_count b.suspicious_access_count
    then false
    else text_below a.ip b.ip

ban_before : BanPayload → BanPayload → Bool
ban_before a b = text_below a.ip b.ip

-- `InspectProbeBlockingActivityPayload`, without what it copies from the request.
pub record ProbeReport : Type 0 where
  pub searched_source_keys : List String
  pub suspicious_ip_count : ℕ
  pub suspicious_access_count : ℕ
  pub observed_appsec_ban_ip_count : ℕ
  pub appsec_bans : List BanPayload
  pub suspicious_ips : List IpPayload

suspicious : ProbeRecords → List IpPayload
unfolding to_ip_payload
suspicious records =
    map to_ip_payload
      (select (λ (e : Text × ProbeRecord). ltb 0 e.1.suspicious_access_count) records)

banned : ProbeRecords → List BanPayload
unfolding to_ban_payload
banned records =
    map to_ban_payload (select (λ (e : Text × ProbeRecord). ltb 0 e.1.appsec_ban_count) records)

unfoldable pub probe_report : List String → ProbeRecords → ProbeReport
unfolding suspicious banned ip_before ban_before
probe_report searched records =
    let ips = sort ip_before (suspicious records) in
    let bans = sort ban_before (banned records) in
    record {
      searched_source_keys = searched;
      suspicious_ip_count = length ips;
      suspicious_access_count = total (λ (p : IpPayload). p.suspicious_access_count) ips;
      observed_appsec_ban_ip_count = length bans;
      appsec_bans = bans;
      suspicious_ips = ips;
    }

module _ (rt : Runtime) (read : String → FileRead) where
  probe_of_fields : Source → FileReference → ℕ → Text → Option Fields → ProbeRecords → ProbeRecords
  probe_of_fields s file n line none records = records
  probe_of_fields s file n line (some fields) records =
      add_sensitive_probe_event (parse_proxy_line rt s.source_key file.name n line fields) records

  unfoldable pub scan_line : Source → FileReference → ℕ → Text → ProbeRecords → ProbeRecords
  unfolding probe_of_fields
  scan_line s file n line records =
      if s.source_key == "crowdsec_runtime"
      then add_crowdsec_appsec_ban_event rt line records
      else probe_of_fields s file n line (parse_json_line rt.python line) records

  unfoldable pub scan_lines : Source → FileReference → ℕ → List Text → ProbeRecords → ProbeRecords
  scan_lines s file n [] records = records
  scan_lines s file n (raw_line ∷ raw_lines) records =
      scan_lines s file (suc n) raw_lines (scan_line s file n (without_newline raw_line) records)

  scan_read : Source → FileReference → FileRead → ProbeRecords → Result GroupError ProbeRecords
  scan_read s file (file_lines lines) records = ok (scan_lines s file 1 lines records)
  scan_read s file value_error records = err invalid_source_file
  scan_read s file os_error records = err snapshot_file_missing

  scan_file : Source → Option FileReference → ProbeRecords → Result GroupError ProbeRecords
  unfolding scan_read
  scan_file s none records = ok records
  scan_file s (some file) records = scan_read s file (read file.path) records

  -- Other sources are listed as searched and are not read.
  unfoldable pub is_scanned : Source → Bool
  is_scanned s =
      s.source_key == "crowdsec_runtime" || s.normalization_profile == some "proxy_access"

  unfoldable pub scan_sources : List Source → ProbeRecords → Result GroupError ProbeRecords
  unfolding scan_file is_scanned
  scan_sources [] records = ok records
  scan_sources (s ∷ sources) records =
      (if is_scanned s then scan_file s s.file records else ok records) >>= λ next.
      scan_sources sources next

  -- `inspect_probe_blocking_activity`
  unfoldable pub inspect_probe_blocking_activity :
      Option (List String) → List Source → Result AnalysisError ProbeReport
  unfolding as_analysis_error keys_of_sources
  inspect_probe_blocking_activity requested sources = do
    selected ← select_snapshot_files requested sources
    records ← as_analysis_error (scan_sources selected [])
    ok (probe_report (keys_of_sources selected) records)
