-- ===== src/Analysis/Sources/Events.antt =====
-- The events of the selected files: one for each line.
use mcp_log_server.Prelude.{
  List, Option, String, [], ap, arith, length, length-append, none, refl, some, suc, sym, total, ℕ,
  ◌∙◌, ◌∷◌, ◌≡◌,
}
use mcp_log_server.Prelude.Result.{>>=-ok, err-ne-ok, ok, ok_inj}
use mcp_log_server.Prelude.Utf8.{Text}
use mcp_log_server.Analysis.Routes.{ProxyLineEvent}
use mcp_log_server.Analysis.Sources.{
  events_of_lines, events_of_read, events_of_source, proxy_events,
}
use mcp_log_server.Analysis.Values.{Runtime}
use mcp_log_server.Filtering.View.{FileRead, FileReference, Source, file_lines}

module _ (read : String → FileRead) where
  lines_of_read : FileRead → ℕ
  lines_of_read (file_lines lines) = length lines
  lines_of_read FileRead.value_error = 0
  lines_of_read FileRead.os_error = 0

  lines_of_file : Option FileReference → ℕ
  unfolding lines_of_read
  lines_of_file none = 0
  lines_of_file (some file) = lines_of_read (read file.path)

  -- The lines of a source's file.
  pub lines_of_source : Source → ℕ
  lines_of_source s = lines_of_file s.file

module _ (rt : Runtime) (read : String → FileRead) where
  length-events_of_lines :
      (s : Source) (file : FileReference) (n : ℕ) (lines : List Text)
      → length (events_of_lines rt read s file n lines) ≡ length lines
  unfolding events_of_lines
  length-events_of_lines s file n [] = refl
  length-events_of_lines s file n (line ∷ lines) =
      omega (arith, length-events_of_lines s file (suc n) lines)

  length-events_of_read :
      (s : Source) (file : FileReference) (opened : FileRead)
      (events : List (Option ProxyLineEvent))
      → events_of_read rt read s file opened ≡ ok events
      → length events ≡ lines_of_read read opened
  unfolding events_of_read lines_of_read
  length-events_of_read s file (file_lines lines) events h =
      ap length (sym (ok_inj h)) ∙ length-events_of_lines s file 1 lines
  length-events_of_read s file FileRead.value_error events h = err-ne-ok h
  length-events_of_read s file FileRead.os_error events h = err-ne-ok h

  length-events_of_source :
      (s : Source) (file : Option FileReference) (events : List (Option ProxyLineEvent))
      → events_of_source rt read s file ≡ ok events
      → length events ≡ lines_of_file read file
  unfolding events_of_source lines_of_file
  length-events_of_source s none events h = ap length (sym (ok_inj h))
  length-events_of_source s (some file) events h =
      length-events_of_read s file (read file.path) events h

  pub length-proxy_events :
      (sources : List Source) (events : List (Option ProxyLineEvent))
      → proxy_events rt read sources ≡ ok events
      → length events ≡ total (lines_of_source read) sources
  unfolding proxy_events lines_of_source
  length-proxy_events [] events h = ap length (sym (ok_inj h))
  length-proxy_events (s ∷ sources) events h =
      let (first, next, read_first) = >>=-ok (events_of_source rt read s s.file) _ h in
      let (rest, joined, read_rest) = >>=-ok (proxy_events rt read sources) _ next in
      omega (
        arith,
        ap length (ok_inj joined),
        length-append first rest,
        length-events_of_source s s.file first read_first,
        length-proxy_events sources rest read_rest,
      )
