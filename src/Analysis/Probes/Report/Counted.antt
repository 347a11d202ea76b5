-- ===== src/Analysis/Probes/Report/Counted.antt =====
-- A probe report counts what is found in the lines of the files that are scanned.
use mcp_log_server.Prelude.{
  All, List, Option, String, [], arith, bool_eq, list_eq, ltb, map, nat_eq, option_eq, refl, select,
  string_eq, subst, total, ℕ, ◌+◌, ◌∙◌, ◌∷◌, ◌≡◌,
}
use mcp_log_server.Prelude.Dict.{total_values}
use mcp_log_server.Prelude.Int.{int_eq}
use mcp_log_server.Prelude.Result.{>>=-ok, ok, ok_inj, ◌>>=◌}
use mcp_log_server.Prelude.Sorting.{total-sort}
use mcp_log_server.Prelude.Utf8.{Text}
use mcp_log_server.Analysis.Probes.{ProbeRecord, ProbeRecords}
use mcp_log_server.Analysis.Probes.Report.{
  BanPayload, IpPayload, ProbeReport, ban_before, banned, inspect_probe_blocking_activity,
  ip_before, probe_report, scan_sources, suspicious, to_ban_payload, to_ip_payload,
}
use mcp_log_server.Analysis.Probes.Report.Lines.{
  IsReadable, bans_in_source, probes_in_source, scan_sources-Adds, scanned,
}
use mcp_log_server.Analysis.Probes.Totals.{accesses, bans}
use mcp_log_server.Analysis.Routes.{key_eq}
use mcp_log_server.Analysis.Sources.{
  as_analysis_error, as_analysis_error-ok, keys_of_sources, select_snapshot_files,
}
use mcp_log_server.Analysis.Values.{Runtime}
use mcp_log_server.Filtering.View.{FileRead, Source}

from_zero : {m n : ℕ} → m ≡ 0 + n → m ≡ n
from_zero h = omega arith

-- What stands in a list of those records with a positive number sums to the number's total.
total-positive :
    {A : Type 0} (make : Text × ProbeRecord → A) (f : A → ℕ) (g : ProbeRecord → ℕ)
    → ((e : Text × ProbeRecord) → f (make e) ≡ g e.1)
    → (records : ProbeRecords)
    → total f (map make (select (λ (e : Text × ProbeRecord). ltb 0 (g e.1)) records))
      ≡ total_values g records
total-positive make f g same [] = refl
total-positive make f g same ((ip, r) ∷ records) =
    let rest = total-positive make f g same records in let first = same (ip, r) in ground arith

module _ (rt : Runtime) (read : String → FileRead) where
  -- The numbers of a report are those of the lines in the sources that are scanned, and all of
  -- these are read.
  pub record IsCounted (searched : List Source) (report : ProbeReport) : Type 0 where
    pub are_readable : All (λ s. IsReadable rt read s.file) (scanned rt read searched)
    pub suspicious_accesses :
        report.suspicious_access_count ≡ total (probes_in_source rt read) (scanned rt read searched)
    pub appsec_bans :
        total (λ (b : BanPayload). b.appsec_ban_count) report.appsec_bans
        ≡ total (bans_in_source rt read) (scanned rt read searched)
    pub searched_keys : report.searched_source_keys ≡ keys_of_sources searched

  probe_report-IsCounted :
      (searched : List Source) (records : ProbeRecords)
      → scan_sources rt read searched [] ≡ ok records
      → IsCounted searched (probe_report (keys_of_sources searched) records)
  unfolding probe_report suspicious banned to_ip_payload to_ban_payload
  probe_report-IsCounted searched records h =
      let (adds, readable) = scan_sources-Adds rt read searched [] records h in
      record {
        are_readable = readable;
        suspicious_accesses =
            total-sort ip_before (λ (p : IpPayload). p.suspicious_access_count) (suspicious records)
            ∙ total-positive to_ip_payload (λ (p : IpPayload). p.suspicious_access_count) accesses
                (λ e. refl) records
            ∙ from_zero adds.accesses_added;
        appsec_bans =
            total-sort ban_before (λ (b : BanPayload). b.appsec_ban_count) (banned records)
            ∙ total-positive to_ban_payload (λ (b : BanPayload). b.appsec_ban_count) bans
                (λ e. refl) records
            ∙ from_zero adds.bans_added;
        searched_keys = refl;
      }

  -- A probe blocking report that is returned counts exactly the lines of the selected files: every
  -- scanned file was opened, the suspicious accesses of the listed addresses are together the
  -- lines of the proxies' files that are sensitive probes, and the bans of the listed addresses
  -- are together the lines of CrowdSec's files that the ban pattern finds.
  pub inspect_probe_blocking_activity-IsCounted :
      (requested : Option (List String)) (sources : List Source) (report : ProbeReport)
      → inspect_probe_blocking_activity rt read requested sources ≡ ok report
      → (searched : List Source) × (select_snapshot_files requested sources ≡ ok searched)
        × IsCounted searched report
  unfolding inspect_probe_blocking_activity
  inspect_probe_blocking_activity-IsCounted requested sources report h =
      let (searched, rest, found) =
        >>=-ok (select_snapshot_files requested sources)
          (λ selected. as_analysis_error (scan_sources rt read selected []) >>= λ records.
            ok (probe_report (keys_of_sources selected) records))
          h in
      let (records, last, scans) =
        >>=-ok (as_analysis_error (scan_sources rt read searched []))
          (λ records. ok (probe_report (keys_of_sources searched) records)) rest in
      (
        searched,
        found,
        subst (λ r. IsCounted searched r) (ok_inj last)
            (probe_report-IsCounted searched records
              (as_analysis_error-ok (scan_sources rt read searched []) records scans)),
      )
