-- ===== src/Tests/Incidents.antt =====
-- The theorems on incident bundles, proxy diagnostics and fingerprints, at the files of the probes.
use mcp_log_server.Prelude.{
  List, Option, String, [], ap, arith, bool_eq, length, length-append, length-take, list_eq, nat_eq,
  none, option_eq, refl, string_eq, suc, take, true, zero, ℕ, ◌++◌, ◌↔◌, ◌∷◌, ◌≡◌,
}
use mcp_log_server.Prelude.Dict.{insert, lookup, values}
use mcp_log_server.Prelude.Int.{int_eq}
use mcp_log_server.Prelude.Regex.{match_start}
use mcp_log_server.Prelude.Result.{Result, err, ok}
use mcp_log_server.Prelude.Sorting.{sort}
use mcp_log_server.Prelude.Strings.{includes, is_space, strip, strip_end}
use mcp_log_server.Prelude.Utf8.{Text, codes}
use mcp_log_server.Analysis.Bundle.{IncidentBundle, build_incident_bundle, bundle_of}
use mcp_log_server.Analysis.Bundle.Sums.{IsSummed, build_incident_bundle-IsSummed}
use mcp_log_server.Analysis.Classify.{
  classify_line, classify_structured_line, classify_text_line, looks_error_like, verdict,
}
use mcp_log_server.Analysis.Groups.{
  GroupedAnalysis, add, group_before, group_files, group_line, group_lines, group_snapshot_errors,
  severity_rank,
}
use mcp_log_server.Analysis.Ingress.{ProxyActivity, inspect_proxy_activity}
use mcp_log_server.Analysis.Ingress.Lines.{IsInspected, inspect_proxy_activity-IsInspected}
use mcp_log_server.Analysis.Requests.{extract_proxy_method_path, request_path_of}
use mcp_log_server.Analysis.Routes.{ProxyLineEvent, key_eq}
use mcp_log_server.Analysis.Semantics.{Identity, build_fingerprint, canonical_fields, has_identity}
use mcp_log_server.Analysis.Semantics.Same.{IsSame}
use mcp_log_server.Analysis.Semantics.Separates.{build_fingerprint-separates}
use mcp_log_server.Analysis.Sources.{
  AnalysisError, as_analysis_error, available_sources, classify_files, group_errors,
  is_proxy_source, proxy_events, select_proxy_snapshot_files, select_snapshot_files,
  without_newline,
}
use mcp_log_server.Analysis.Values.{Datum, Runtime, extract_status, text_datum}
use mcp_log_server.Filtering.Extract.{parse_json_line}
use mcp_log_server.Filtering.View.{Source}
use mcp_log_server.SocketApp.Spool.{path_eq}
use mcp_log_server.Tests.Probes.{sample_read, sample_runtime, sample_sources}

abbrev ok_or : {E A : Type 0} → A → Result E A → A
ok_or a (ok b) = b
ok_or a (err e) = a

abbrev no_analysis : GroupedAnalysis
no_analysis = record {
  groups = [];
  matching_line_count = 0;
  searched_source_keys = [];
  total_group_count = 0;
  analysis_complete = true;
  analysis_group_limit = 0;
}

abbrev sample_result : Result AnalysisError IncidentBundle
unfolding build_incident_bundle
sample_result = build_incident_bundle sample_runtime sample_read none sample_sources 2 10 [] []

abbrev sample_bundle : IncidentBundle
sample_bundle = ok_or (bundle_of sample_runtime 0 [] [] no_analysis) sample_result

bundled :
    build_incident_bundle sample_runtime sample_read none sample_sources 2 10 [] []
    ≡ ok sample_bundle
unfolding available_sources build_fingerprint build_incident_bundle classify_line
    classify_structured_line classify_text_line extract_proxy_method_path extract_status
    group_errors group_files group_line group_lines group_snapshot_errors includes insert is_space
    looks_error_like lookup match_start parse_json_line request_path_of select_snapshot_files strip
    strip_end verdict without_newline
bundled = refl

build_incident_bundle-IsSummed_example :
    (selected : List Source) × (select_snapshot_files none sample_sources ≡ ok selected)
    × IsSummed (classify_files sample_runtime sample_read selected) 2 10 sample_bundle
build_incident_bundle-IsSummed_example =
    build_incident_bundle-IsSummed sample_runtime sample_read none sample_sources 2 10 [] []
      sample_bundle bundled

-- Five lines tell of errors, in three groups.
bundle_numbers :
    (sample_bundle.matching_line_count ≡ 5)
    × (sample_bundle.medium_severity_group_count ≡ 3)
    × (length sample_bundle.top_groups ≡ 2)
unfolding add available_sources build_fingerprint build_incident_bundle bundle_of classify_line
    classify_structured_line classify_text_line extract_proxy_method_path extract_status
    group_before group_errors group_files group_line group_lines group_snapshot_errors includes
    insert is_space looks_error_like lookup match_start parse_json_line request_path_of
    select_snapshot_files severity_rank sort strip strip_end values verdict without_newline
bundle_numbers = (refl, refl, refl)

abbrev sample_activity : Result AnalysisError (Option ProxyActivity)
unfolding inspect_proxy_activity
sample_activity = inspect_proxy_activity sample_runtime sample_read none sample_sources 5

inspected :
    inspect_proxy_activity sample_runtime sample_read none sample_sources 5
    ≡ ok (ok_or none sample_activity)
unfolding as_analysis_error available_sources includes inspect_proxy_activity is_proxy_source
    proxy_events select_proxy_snapshot_files
inspected = refl

inspect_proxy_activity-IsInspected_example :
    (searched : List Source) × (select_proxy_snapshot_files sample_runtime none sample_sources
      ≡ ok searched)
    × ((events : List (Option ProxyLineEvent)) × (proxy_events sample_runtime sample_read searched
          ≡ ok events)
        × IsInspected sample_read searched 5 events (ok_or none sample_activity))
inspect_proxy_activity-IsInspected_example =
    inspect_proxy_activity-IsInspected sample_runtime sample_read none sample_sources 5
      (ok_or none sample_activity) inspected

-- A digest that keeps the first 64 characters.
abbrev zeros : ℕ → Text
zeros zero = []
zeros (suc n) = 48 ∷ zeros n

abbrev first_text : List Datum → Text
first_text (text_datum t ∷ d) = t
first_text _ = []

abbrev keeping_runtime : Runtime
keeping_runtime = record sample_runtime {
  dumps = first_text;
  sha256 = λ t. take 64 (t ++ zeros 64);
}

keeps_64 : (t : Text) → length (take 64 (t ++ zeros 64)) ≡ 64
keeps_64 t = omega (arith, length-take 64 (t ++ zeros 64), length-append t (zeros 64))

abbrev identity_of : String → Identity
identity_of category = record {
  category = category;
  status_code = none;
  request_path = none;
  request_method = none;
  request_host = none;
  identity_kind = "plain_text_message";
  message = codes "failed";
  semantic_hash = [];
  upstream_attempted = none;
}

abbrev first_char : Text → ℕ
first_char [] = 0
first_char (c ∷ t) = c

no_collision :
    keeping_runtime.sha256 (keeping_runtime.dumps (canonical_fields (identity_of "a")))
      ≡ keeping_runtime.sha256 (keeping_runtime.dumps (canonical_fields (identity_of "b")))
    → keeping_runtime.dumps (canonical_fields (identity_of "a"))
      ≡ keeping_runtime.dumps (canonical_fields (identity_of "b"))
unfolding canonical_fields
no_collision e = let same : Path ℕ 97 98 = ap first_char e in absurd (omega (arith, same))

told_apart :
    keeping_runtime.dumps (canonical_fields (identity_of "a"))
      ≡ keeping_runtime.dumps (canonical_fields (identity_of "b"))
    → canonical_fields (identity_of "a") ≡ canonical_fields (identity_of "b")
unfolding canonical_fields
told_apart e = let same : Path ℕ 97 98 = ap first_char e in absurd (omega (arith, same))

has_message : has_identity (identity_of "a") ≡ true
unfolding has_identity
has_message = refl

has_message_too : has_identity (identity_of "b") ≡ true
unfolding has_identity
has_message_too = refl

build_fingerprint-separates_example :
    (build_fingerprint keeping_runtime "web" (identity_of "a") []
      ≡ build_fingerprint keeping_runtime "db" (identity_of "b") [])
    ↔ ((codes "web" ≡ codes "db") × IsSame (identity_of "a") (identity_of "b"))
build_fingerprint-separates_example =
    build_fingerprint-separates keeping_runtime "web" "db" (identity_of "a") (identity_of "b") [] []
      keeps_64 no_collision told_apart has_message has_message_too
