-- ===== src/Analysis/Sources.antt =====
-- The selection of sources and the reading of their files in src/services/log_analysis.py, and
-- the operations from there on: grouped errors and proxy diagnostics of a snapshot. `read` opens
-- a file.
pub mod Graded
pub mod Events
use mcp_log_server.Prelude.{
  Bool, List, Option, String, [], ap, bool_eq, contains, false, if◌then◌else◌, list_eq, map,
  missing, nat_eq, none, option_eq, select, some, string_eq, suc, true, ℕ, ◌&&◌, ◌++◌, ◌==◌, ◌||◌,
  ◌∷◌, ◌≡◌,
}
use mcp_log_server.Prelude.Dict.{keys}
use mcp_log_server.Prelude.Int.{int_eq}
use mcp_log_server.Prelude.Json.{Fields}
use mcp_log_server.Prelude.Result.{Result, err, err-ne-ok, ok, ok_inj, ◌>>=◌, ◌>>◌}
use mcp_log_server.Prelude.Sorting.{distinct, sort, string_below}
use mcp_log_server.Prelude.Strings.{among, includes, strip_end}
use mcp_log_server.Prelude.Utf8.{Text, codes}
use mcp_log_server.Analysis.Classify.{classify_line}
use mcp_log_server.Analysis.Groups.{
  ClassifiedFile, ErrorEvent, GroupError, GroupedAnalysis, classified, group_snapshot_errors,
  invalid_group_limit, invalid_source_file, snapshot_file_missing,
}
use mcp_log_server.Analysis.Requests.{parse_proxy_line}
use mcp_log_server.Analysis.Routes.{ProxyLineEvent, key_eq}
use mcp_log_server.Analysis.Values.{Runtime}
use mcp_log_server.Filtering.Extract.{parse_json_line}
use mcp_log_server.Filtering.View.{FileRead, FileReference, Source, file_lines}

-- The ValueErrors of the analysis.
pub data AnalysisError : Type 0 where
  source_keys_not_found : List String → AnalysisError
  group_error : GroupError → AnalysisError

has_file : Option FileReference → Bool
has_file none = false
has_file (some file) = true

-- The collected files of a snapshot.
unfoldable pub available_sources : List Source → List Source
unfolding has_file
available_sources sources = select (λ s. s.collected && has_file s.file) sources

unfoldable pub keys_of_sources : List Source → List String
keys_of_sources sources = map (λ (s : Source). s.source_key) sources

unknown_keys : List String → List Source → List String
unfolding keys_of_sources
unknown_keys requested available =
    sort string_below (distinct (missing requested (keys_of_sources available)))

-- The sources of the requested keys, all of which must be available.
requested_sources : List String → List Source → Result AnalysisError (List Source)
unfolding unknown_keys
requested_sources requested available =
    if unknown_keys requested available == []
    then ok (select (λ s. contains requested s.source_key) available)
    else err (source_keys_not_found (unknown_keys requested available))

-- `_select_snapshot_files`; no keys, or none at all, mean every file.
unfoldable pub select_snapshot_files :
    Option (List String) → List Source → Result AnalysisError (List Source)
unfolding requested_sources
select_snapshot_files none sources = ok (available_sources sources)
select_snapshot_files (some []) sources = ok (available_sources sources)
select_snapshot_files (some (key ∷ keys)) sources =
    requested_sources (key ∷ keys) (available_sources sources)

profile_text : Option String → Text
profile_text none = []
profile_text (some profile) = codes profile

-- `_is_proxy_source`
unfoldable pub is_proxy_source : Runtime → Source → Bool
unfolding profile_text
is_proxy_source rt s =
    let key = rt.python.lower (codes s.source_key) in
    among ("proxy_access" ∷ "web_logs" ∷ [])
      (rt.python.lower (profile_text s.normalization_profile))
    || includes key (codes "proxy")
    || includes key (codes "nginx")
    || includes key (codes "traefik")

-- `_select_proxy_snapshot_files`
unfoldable pub select_proxy_snapshot_files :
    Runtime → Option (List String) → List Source → Result AnalysisError (List Source)
unfolding requested_sources
select_proxy_snapshot_files rt none sources =
    ok (select (is_proxy_source rt) (available_sources sources))
select_proxy_snapshot_files rt (some []) sources =
    ok (select (is_proxy_source rt) (available_sources sources))
select_proxy_snapshot_files rt (some (key ∷ keys)) sources =
    requested_sources (key ∷ keys) (available_sources sources)

-- `raw_line.rstrip("\n")`
unfoldable pub without_newline : Text → Text
without_newline t = strip_end (λ c. c == 10) t

unfoldable pub as_analysis_error : {A : Type 0} → Result GroupError A → Result AnalysisError A
as_analysis_error (ok a) = ok a
as_analysis_error (err e) = err (group_error e)

pub as_analysis_error-ok :
    {A : Type 0} (r : Result GroupError A) (a : A) → as_analysis_error r ≡ ok a → r ≡ ok a
unfolding as_analysis_error
as_analysis_error-ok (ok b) a h = ap ok (ok_inj h)
as_analysis_error-ok (err e) a h = err-ne-ok h

module _ (rt : Runtime) (read : String → FileRead) where
  classify_lines : Source → FileReference → ℕ → List Text → List (Option ErrorEvent)
  classify_lines s file n [] = []
  classify_lines s file n (raw_line ∷ raw_lines) =
      classify_line rt
        (record { source_key = s.source_key; output_file = file.name; line_number = n })
        (without_newline raw_line) (is_proxy_source rt s)
      ∷ classify_lines s file (suc n) raw_lines

  classify_read : Source → FileReference → FileRead → ClassifiedFile
  unfolding classify_lines
  classify_read s file (file_lines lines) = classified (classify_lines s file 1 lines)
  classify_read s file FileRead.value_error = ClassifiedFile.value_error
  classify_read s file FileRead.os_error = ClassifiedFile.os_error

  -- A selected source has a file.
  classify_file : Source → Option FileReference → List (String × ClassifiedFile)
  unfolding classify_read
  classify_file s none = []
  classify_file s (some file) = (s.source_key, classify_read s file (read file.path)) ∷ []

  pub classify_files : List Source → List (String × ClassifiedFile)
  unfolding classify_file
  classify_files [] = []
  classify_files (s ∷ sources) = classify_file s s.file ++ classify_files sources

  -- `group_snapshot_errors`; the limit is checked before the sources are selected.
  unfoldable pub group_errors :
      Option (List String) → List Source → ℕ → ℕ → ℕ → Result AnalysisError GroupedAnalysis
  unfolding as_analysis_error classify_files
  group_errors requested sources max_groups offset limit =
      if limit == 0
      then err (group_error invalid_group_limit)
      else (select_snapshot_files requested sources >>= λ selected.
          as_analysis_error
            (group_snapshot_errors (classify_files selected) max_groups offset limit))

  event_of_line : Source → FileReference → ℕ → Text → Option Fields → Option ProxyLineEvent
  event_of_line s file n line none = none
  event_of_line s file n line (some fields) =
      some (parse_proxy_line rt s.source_key file.name n line fields)

  events_of_lines : Source → FileReference → ℕ → List Text → List (Option ProxyLineEvent)
  unfolding event_of_line
  events_of_lines s file n [] = []
  events_of_lines s file n (raw_line ∷ raw_lines) =
      event_of_line s file n (without_newline raw_line)
        (parse_json_line rt.python (without_newline raw_line))
      ∷ events_of_lines s file (suc n) raw_lines

  events_of_read :
      Source → FileReference → FileRead → Result GroupError (List (Option ProxyLineEvent))
  unfolding events_of_lines
  events_of_read s file (file_lines lines) = ok (events_of_lines s file 1 lines)
  events_of_read s file FileRead.value_error = err invalid_source_file
  events_of_read s file FileRead.os_error = err snapshot_file_missing

  events_of_source :
      Source → Option FileReference → Result GroupError (List (Option ProxyLineEvent))
  unfolding events_of_read
  events_of_source s none = ok []
  events_of_source s (some file) = events_of_read s file (read file.path)

  -- `_iter_proxy_events`
  unfoldable pub proxy_events : List Source → Result GroupError (List (Option ProxyLineEvent))
  unfolding events_of_source
  proxy_events [] = ok []
  proxy_events (s ∷ sources) = do
    events ← events_of_source s s.file
    rest ← proxy_events sources
    ok (events ++ rest)
