-- ===== src/Filtering/View.antt =====
-- `create_filtered_view` of src/services/log_filtering.py. The reading of a file is a parameter.
pub mod Counts
pub mod Origin
pub mod Create
pub mod Complete
use mcp_log_server.Prelude.{
  Bool, List, Option, String, [], bool_eq, if◌then◌else◌, list_eq, nat_eq, none, option_eq, some,
  string_eq, suc, ℕ, ◌==◌, ◌∷◌,
}
use mcp_log_server.Prelude.Dict.{Dict, insert, lookup}
use mcp_log_server.Prelude.Int.{int_eq}
use mcp_log_server.Prelude.Json.{items}
use mcp_log_server.Prelude.Result.{Result, err, ok, ◌>>=◌}
use mcp_log_server.Prelude.Strings.{strip_end}
use mcp_log_server.Prelude.Utf8.{Text}
use mcp_log_server.Filtering.Candidates.{
  Candidates, LineReference, ViewMode, no_candidates, store_filtered_line_candidate,
}
use mcp_log_server.Filtering.Cut.{truncate_line}
use mcp_log_server.Filtering.Extract.{Python, ValueError}
use mcp_log_server.Filtering.Noise.{FilterDecision, SourceNoiseContext, apply_noise_profile}
use mcp_log_server.SocketApp.Spool.{path_eq}

-- `FileReference` and `CollectLogsSourceOut`, with the fields that the view uses.
pub record FileReference : Type 0 where
  pub name : String
  pub path : String

pub record Source : Type 0 where
  pub source_key : String
  pub parser_type : Option String
  pub normalization_profile : Option String
  pub default_noise_profile : Option String
  pub collected : Bool
  pub file : Option FileReference

-- A file's lines, with their newlines, or the exception that `open` raised.
pub data FileRead : Type 0 where
  file_lines : List Text → FileRead
  value_error : FileRead
  os_error : FileRead

-- The error codes of `CreateFilteredViewError`.
pub data ViewError : Type 0 where
  snapshot_source_key_not_found : List String → ViewError
  invalid_source_file_reference : ViewError
  snapshot_file_not_found : ViewError

-- `SourceFilteredSummary`
pub record Summary : Type 0 where
  pub context : SourceNoiseContext
  pub total_line_count : ℕ
  pub kept_line_count : ℕ
  pub excluded_line_count : ℕ
  pub exclusion_reasons : Dict String ℕ

abbrev new_summary : SourceNoiseContext → Summary
new_summary context = record {
  context = context;
  total_line_count = 0;
  kept_line_count = 0;
  excluded_line_count = 0;
  exclusion_reasons = [];
}

-- The local variables of the loop.
pub record Progress : Type 0 where
  pub candidates : Candidates
  pub source_summaries : Dict String Summary
  pub total_line_count : ℕ
  pub kept_line_count : ℕ
  pub excluded_line_count : ℕ

abbrev pub start : Progress
start = record {
  candidates = no_candidates;
  source_summaries = [];
  total_line_count = 0;
  kept_line_count = 0;
  excluded_line_count = 0;
}

-- `d.setdefault(key, value)`
set_default : String → Summary → Dict String Summary → Dict String Summary
set_default key summary d = elim (lookup key d) [ none ↦ insert key summary d | some _ ↦ d ]

update : String → (Summary → Summary) → Dict String Summary → Dict String Summary
update key f d = elim (lookup key d) [ none ↦ d | some summary ↦ insert key (f summary) d ]

-- `counter[key] += 1`
add_one : String → Dict String ℕ → Dict String ℕ
add_one key counter = elim (lookup key counter) [
  | none ↦ insert key 1 counter
  | some n ↦ insert key (suc n) counter
]

-- `decision.reason or "excluded_by_profile"`
reason_or_default : Option String → String
reason_or_default none = "excluded_by_profile"
reason_or_default (some reason) = if reason == "" then "excluded_by_profile" else reason

count_kept : Summary → Summary
count_kept s = record s {
  total_line_count = suc s.total_line_count;
  kept_line_count = suc s.kept_line_count;
}

count_excluded : Option String → Summary → Summary
unfolding add_one reason_or_default
count_excluded reason s = record s {
  total_line_count = suc s.total_line_count;
  excluded_line_count = suc s.excluded_line_count;
  exclusion_reasons = add_one (reason_or_default reason) s.exclusion_reasons;
}

module _ (py : Python) (context : SourceNoiseContext) (source_key file_name : String)
    (max_lines : ℕ) (mode : ViewMode) where
  line_reference : ℕ → Text → LineReference
  line_reference line_number line =
      let (truncated_line, line_truncated) = truncate_line line in
      record {
        source_key = source_key;
        output_file = file_name;
        line_number = line_number;
        line = truncated_line;
        line_truncated = line_truncated;
      }

  with_kept : Candidates → Progress → Progress
  unfolding update count_kept
  with_kept candidates p = record {
    candidates = candidates;
    source_summaries = update source_key count_kept p.source_summaries;
    total_line_count = suc p.total_line_count;
    kept_line_count = suc p.kept_line_count;
    excluded_line_count = p.excluded_line_count;
  }

  with_excluded : Option String → Progress → Progress
  unfolding update count_excluded
  with_excluded reason p = record p {
    source_summaries = update source_key (count_excluded reason) p.source_summaries;
    total_line_count = suc p.total_line_count;
    excluded_line_count = suc p.excluded_line_count;
  }

  count_line : ℕ → Text → Progress → FilterDecision → Result ValueError Progress
  unfolding line_reference with_kept with_excluded
  count_line line_number line p decision =
      let stored =
        store_filtered_line_candidate py p.candidates source_key line
          (line_reference line_number line) max_lines mode in
      if decision.keep
      then (stored >>= λ candidates. ok (with_kept candidates p))
      else ok (with_excluded decision.reason p)

  -- The body of the loop over the lines of a file.
  unfoldable pub filter_line : ℕ → Text → Progress → Result ValueError Progress
  unfolding count_line
  filter_line line_number raw_line p =
      let line = strip_end (λ c. c == 10) raw_line in
      apply_noise_profile py context line >>= λ decision. count_line line_number line p decision

  unfoldable pub filter_lines : ℕ → List Text → Progress → Result ValueError Progress
  filter_lines line_number [] p = ok p
  filter_lines line_number (raw_line ∷ lines) p =
      filter_line line_number raw_line p >>= λ q. filter_lines (suc line_number) lines q

-- The context of a source: the manifest's, or that of its row.
unfoldable pub context_of : Dict String SourceNoiseContext → Source → SourceNoiseContext
context_of contexts item = elim (lookup item.source_key contexts) [
  | some context ↦ context
  | none ↦ record {
    source_key = item.source_key;
    parser_type = item.parser_type;
    normalization_profile = item.normalization_profile;
    default_noise_profile = item.default_noise_profile;
    static_asset_paths = [];
    static_asset_extensions = [];
  }
]

as_view_error : Result ValueError Progress → Result ViewError Progress
as_view_error (ok p) = ok p
as_view_error (err _) = err invalid_source_file_reference

module _ (py : Python) (read : String → FileRead) (contexts : Dict String SourceNoiseContext)
    (max_lines : ℕ) (mode : ViewMode) where
  filter_read : Source → FileReference → Progress → FileRead → Result ViewError Progress
  unfolding as_view_error
  filter_read item file p (file_lines lines) = as_view_error (
      filter_lines py (context_of contexts item) item.source_key file.name max_lines mode 1 lines p)
  filter_read item file p value_error = err invalid_source_file_reference
  filter_read item file p os_error = err snapshot_file_not_found

  unfoldable pub filter_source : Source × FileReference → Progress → Result ViewError Progress
  unfolding filter_read context_of set_default
  filter_source (item, file) p =
      filter_read item file
        (record p {
          source_summaries =
              set_default item.source_key (new_summary (context_of contexts item))
                p.source_summaries;
        })
        (read file.path)

  unfoldable pub filter_sources :
      List (Source × FileReference) → Progress → Result ViewError Progress
  filter_sources [] p = ok p
  filter_sources (item ∷ items) p = filter_source item p >>= λ q. filter_sources items q
