-- ===== src/Analysis/Probes/Report/Lines.antt =====
-- The probes and bans in the lines of the files, counted one by one, and what the scan adds.
use mcp_log_server.Prelude.{
  All, Bool-cases, List, Option, String, [], bool_eq, if◌then◌else◌, inl, inr, list_eq, nat_eq,
  none, option_eq, refl, select, some, string_eq, subst, suc, total, ℕ, ◌+◌, ◌==◌, ◌∷◌, ◌≡◌,
}
use mcp_log_server.Prelude.Int.{int_eq}
use mcp_log_server.Prelude.Json.{Fields}
use mcp_log_server.Prelude.Result.{>>=-ok, err-ne-ok, ok, ok_inj}
use mcp_log_server.Prelude.Utf8.{Text}
use mcp_log_server.Analysis.Probes.{ProbeRecords, ban_of, sensitive_probe}
use mcp_log_server.Analysis.Probes.Report.{
  is_scanned, probe_of_fields, scan_file, scan_line, scan_lines, scan_read, scan_sources,
}
use mcp_log_server.Analysis.Probes.Totals.{
  Adds, Adds-refl, Adds-trans, add_crowdsec_appsec_ban_event-Adds, add_sensitive_probe_event-Adds,
  one_of,
}
use mcp_log_server.Analysis.Requests.{parse_proxy_line}
use mcp_log_server.Analysis.Routes.{key_eq}
use mcp_log_server.Analysis.Sources.{without_newline}
use mcp_log_server.Analysis.Values.{Runtime}
use mcp_log_server.Filtering.Extract.{parse_json_line}
use mcp_log_server.Filtering.View.{FileRead, FileReference, Source, file_lines}

module _ (rt : Runtime) (read : String → FileRead) where
  -- The probe of one line of a proxy's log.
  probe_of_line : Source → FileReference → ℕ → Text → Option (Text × Text)
  probe_of_line s file n line = elim (parse_json_line rt.python line) [
    | none ↦ none
    | some fields ↦ sensitive_probe (parse_proxy_line rt s.source_key file.name n line fields)
  ]

  probes_in_line : Source → FileReference → ℕ → Text → ℕ
  probes_in_line s file n line =
      if s.source_key == "crowdsec_runtime" then 0 else one_of (probe_of_line s file n line)

  bans_in_line : Source → Text → ℕ
  bans_in_line s line = if s.source_key == "crowdsec_runtime" then one_of (ban_of rt line) else 0

  probes_in_lines : Source → FileReference → ℕ → List Text → ℕ
  probes_in_lines s file n [] = 0
  probes_in_lines s file n (line ∷ lines) =
      probes_in_line s file n (without_newline line) + probes_in_lines s file (suc n) lines

  bans_in_lines : Source → List Text → ℕ
  bans_in_lines s lines = total (λ line. bans_in_line s (without_newline line)) lines

  lines_of : FileRead → List Text
  lines_of (file_lines lines) = lines
  lines_of FileRead.value_error = []
  lines_of FileRead.os_error = []

  probes_in_file : Source → Option FileReference → ℕ
  unfolding probes_in_lines lines_of
  probes_in_file s none = 0
  probes_in_file s (some file) = probes_in_lines s file 1 (lines_of (read file.path))

  bans_in_file : Source → Option FileReference → ℕ
  unfolding bans_in_lines lines_of
  bans_in_file s none = 0
  bans_in_file s (some file) = bans_in_lines s (lines_of (read file.path))

  pub probes_in_source : Source → ℕ
  probes_in_source s = probes_in_file s s.file

  pub bans_in_source : Source → ℕ
  bans_in_source s = bans_in_file s s.file

  probe_of_fields-Adds :
      (s : Source) (file : FileReference) (n : ℕ) (line : Text) (parsed : Option Fields)
      (records : ProbeRecords)
      → Adds
          (one_of (elim parsed [
            | none ↦ none
            | some fields ↦
                sensitive_probe (parse_proxy_line rt s.source_key file.name n line fields)
          ]))
          0
          records
          (probe_of_fields rt read s file n line parsed records)
  unfolding probe_of_fields
  probe_of_fields-Adds s file n line none records = Adds-refl
  probe_of_fields-Adds s file n line (some fields) records =
      add_sensitive_probe_event-Adds (parse_proxy_line rt s.source_key file.name n line fields)
        records

  scan_line-Adds :
      (s : Source) (file : FileReference) (n : ℕ) (line : Text) (records : ProbeRecords)
      → Adds
          (probes_in_line s file n line)
          (bans_in_line s line)
          records
          (scan_line rt read s file n line records)
  unfolding scan_line probes_in_line bans_in_line probe_of_line
  scan_line-Adds s file n line records = elim (Bool-cases (s.source_key == "crowdsec_runtime")) [
    | inl crowdsec ↦ simp crowdsec (add_crowdsec_appsec_ban_event-Adds rt line records)
    | inr proxy ↦
        simp proxy (probe_of_fields-Adds s file n line (parse_json_line rt.python line) records)
  ]

  scan_lines-Adds :
      (s : Source) (file : FileReference) (n : ℕ) (lines : List Text) (records : ProbeRecords)
      → Adds
          (probes_in_lines s file n lines)
          (bans_in_lines s lines)
          records
          (scan_lines rt read s file n lines records)
  unfolding scan_lines probes_in_lines bans_in_lines
  scan_lines-Adds s file n [] records = Adds-refl
  scan_lines-Adds s file n (line ∷ lines) records =
      Adds-trans (scan_line-Adds s file n (without_newline line) records) (
        scan_lines-Adds s file (suc n) lines
          (scan_line rt read s file n (without_newline line) records))

  -- The file is opened, if there is one.
  abbrev pub IsReadable : Option FileReference → Type 0
  IsReadable none = Unit
  IsReadable (some file) = (lines : List Text) × (read file.path ≡ file_lines lines)

  scan_read-Adds :
      (s : Source) (file : FileReference) (opened : FileRead) (records last : ProbeRecords)
      → scan_read rt read s file opened records ≡ ok last
      → Adds
          (probes_in_lines s file 1 (lines_of opened))
          (bans_in_lines s (lines_of opened))
          records
          last
        × ((lines : List Text) × (opened ≡ file_lines lines))
  unfolding scan_read lines_of
  scan_read-Adds s file (file_lines lines) records last h = (
    subst (λ r. Adds (probes_in_lines s file 1 lines) (bans_in_lines s lines) records r) (ok_inj h)
        (scan_lines-Adds s file 1 lines records),
    (lines, refl),
  )
  scan_read-Adds s file FileRead.value_error records last h = err-ne-ok h
  scan_read-Adds s file FileRead.os_error records last h = err-ne-ok h

  scan_file-Adds :
      (s : Source) (file : Option FileReference) (records last : ProbeRecords)
      → scan_file rt read s file records ≡ ok last
      → Adds (probes_in_file s file) (bans_in_file s file) records last × IsReadable file
  unfolding scan_file probes_in_file bans_in_file
  scan_file-Adds s none records last h = (subst (λ r. Adds 0 0 records r) (ok_inj h) Adds-refl, tt)
  scan_file-Adds s (some file) records last h =
      scan_read-Adds s file (read file.path) records last h

  abbrev pub scanned : List Source → List Source
  scanned sources = select (is_scanned rt read) sources

  pub scan_sources-Adds :
      (sources : List Source) (records last : ProbeRecords)
      → scan_sources rt read sources records ≡ ok last
      → Adds
          (total probes_in_source (scanned sources))
          (total bans_in_source (scanned sources))
          records
          last
        × All (λ s. IsReadable s.file) (scanned sources)
  unfolding scan_sources probes_in_source bans_in_source
  scan_sources-Adds [] records last h = (subst (λ r. Adds 0 0 records r) (ok_inj h) Adds-refl, tt)
  scan_sources-Adds (s ∷ sources) records last h = elim (Bool-cases (is_scanned rt read s)) [
    | inl reads ↦
        let (mid, rest, first) =
          >>=-ok (scan_file rt read s s.file records) (λ next. scan_sources rt read sources next)
            (simp reads at h) in
        let (adds, readable) = scan_file-Adds s s.file records mid first in
        let (more, all) = scan_sources-Adds sources mid last rest in
        simp reads (Adds-trans adds more, (readable, all))
    | inr skips ↦ simp skips (scan_sources-Adds sources records last (simp skips at h))
  ]
