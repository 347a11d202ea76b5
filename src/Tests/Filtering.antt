-- ===== src/Tests/Filtering.antt =====
-- The theorems on filtered views, at small inputs.
use mcp_log_server.Prelude.{
  Option, String, [], arith, bool_eq, false, if◌then◌else◌, inl, list_eq, nat_eq, none, option_eq,
  refl, some, string_eq, true, ◌==◌, ◌∷◌, ◌≡◌,
}
use mcp_log_server.Prelude.Dict.{insert, keys, lookup}
use mcp_log_server.Prelude.Int.{int_eq, pos, ℤ}
use mcp_log_server.Prelude.Json.{end, field, int, obj, str}
use mcp_log_server.Prelude.Result.{ok}
use mcp_log_server.Prelude.Sorting.{distinct, place, sort}
use mcp_log_server.Prelude.Strings.{before, ends_with, starts_with, strip_end}
use mcp_log_server.Prelude.Utf8.{encode, encode_char}
use mcp_log_server.Filtering.Candidates.{
  append_within, judge_for, sample, sample_turn, sample_turns, select_filtered_lines,
  store_filtered_line_candidate, store_judged, take_turn,
}
use mcp_log_server.Filtering.Cut.{truncate_line}
use mcp_log_server.Filtering.Cut.Prefix.{IsCut, truncate_line-IsCut}
use mcp_log_server.Filtering.Extract.{
  Python, extract_request_path, extract_status_code, parse_json_line,
}
use mcp_log_server.Filtering.Noise.{
  FilterDecision, SourceNoiseContext, apply_noise_profile, decide, filter_web_noise,
  is_static_asset_request, is_successful_health_request, is_successful_static_asset_request,
  request_asset_path, successful_health_status, successful_static_asset_status,
}
use mcp_log_server.Filtering.Noise.Kept.{apply_noise_profile-IsKept}
use mcp_log_server.Filtering.View.{
  FileRead, Source, file_lines, filter_line, filter_lines, filter_source, filter_sources,
}
use mcp_log_server.Filtering.View.Complete.{IsComplete, create_filtered_view-IsComplete}
use mcp_log_server.Filtering.View.Create.{
  FilteredView, available_sources, create_filtered_view, keys_of, select_sources, view_of,
}
use mcp_log_server.SocketApp.Spool.{path_eq}

-- Every line is a JSON object with a path and a status; the line `b` has the status 204.
abbrev sample_python : ℤ → Python
sample_python status = record {
  is_word = λ c. false;
  is_decimal = λ c. false;
  lower = λ t. t;
  is_digit = λ t. false;
  int_of = λ t. none;
  json_loads = λ t. some (
      obj (
        field "path" (str "/health")
          (field "status" (int (if t == (98 ∷ []) then pos 204 else status)) end)));
}

abbrev sample_context : Option String → SourceNoiseContext
sample_context profile = record {
  source_key = "web";
  parser_type = none;
  normalization_profile = none;
  default_noise_profile = profile;
  static_asset_paths = [];
  static_asset_extensions = [];
}

apply_noise_profile-IsKept_example :
    (decision : FilterDecision) × (apply_noise_profile
        (sample_python (pos 503))
        (sample_context (some "web_noise"))
        (123 ∷ [])
      ≡ ok decision)
    × (decision.keep ≡ true)
unfolding extract_status_code parse_json_line
apply_noise_profile-IsKept_example =
    apply_noise_profile-IsKept (sample_python (pos 503)) (sample_context (some "web_noise"))
      (123 ∷ []) (pos 503) refl refl (λ e. refl)

-- A health check that succeeds is left out.
health_is_noise :
    apply_noise_profile (sample_python (pos 204)) (sample_context (some "web_noise")) (123 ∷ [])
    ≡ ok (record { keep = false; reason = some "health_check_request" })
unfolding apply_noise_profile extract_status_code parse_json_line extract_request_path decide
    filter_web_noise is_successful_health_request starts_with
health_is_noise = refl

truncate_line-IsCut_example : IsCut (72 ∷ 233 ∷ []) (truncate_line (72 ∷ 233 ∷ []))
truncate_line-IsCut_example =
    truncate_line-IsCut (72 ∷ 233 ∷ []) (inl (omega arith), (inl (omega arith), tt))

abbrev sample_source : Source
sample_source = record {
  source_key = "web";
  parser_type = none;
  normalization_profile = none;
  default_noise_profile = some "web_noise";
  collected = true;
  file = some (record { name = "web.log"; path = "/logs/web.log" });
}

abbrev sample_view : FilteredView
sample_view = record {
  searched_source_keys = "web" ∷ [];
  total_line_count = 3;
  kept_line_count = 2;
  excluded_line_count = 1;
  truncated = true;
  cleaned_lines =
      record {
        source_key = "web";
        output_file = "web.log";
        line_number = 1;
        line = 97 ∷ [];
        line_truncated = false;
      }
      ∷ [];
  source_summaries =
      record {
        source_key = "web";
        total_line_count = 3;
        kept_line_count = 2;
        excluded_line_count = 1;
        top_exclusion_reasons = "health_check_request" ∷ [];
      }
      ∷ [];
}

abbrev sample_read : String → FileRead
sample_read path = file_lines ((97 ∷ 10 ∷ []) ∷ (98 ∷ 10 ∷ []) ∷ (99 ∷ []) ∷ [])

create_filtered_view-IsComplete_example :
    IsComplete
      (sample_python (pos 503))
      sample_read
      []
      1
      sample
      (sample_source ∷ [])
      (some ("web" ∷ []))
      sample_view
unfolding create_filtered_view select_sources sort distinct keys_of available_sources filter_sources
    filter_source filter_lines filter_line apply_noise_profile lookup extract_status_code
    parse_json_line decide filter_web_noise extract_request_path starts_with append_within judge_for
    sample_turn sample_turns select_filtered_lines store_filtered_line_candidate store_judged
    take_turn truncate_line is_successful_health_request is_successful_static_asset_request
    is_static_asset_request request_asset_path successful_health_status
    successful_static_asset_status view_of insert keys place before ends_with strip_end encode
    encode_char
create_filtered_view-IsComplete_example =
    create_filtered_view-IsComplete (sample_python (pos 503)) sample_read [] 1 sample
      (sample_source ∷ []) (some ("web" ∷ [])) sample_view refl (refl, tt)
