-- ===== src/Filtering/View/Create.antt =====
-- `create_filtered_view`: the sources that are asked for, the loop over them, and the payload.
use mcp_log_server.Prelude.{
  Bool, List, Option, String, [], bool_eq, contains, if◌then◌else◌, list_eq, ltb, missing, nat_eq,
  none, option_eq, select, some, string_eq, take, true, ℕ, ◌==◌, ◌∷◌,
}
use mcp_log_server.Prelude.Dict.{Dict, keys}
use mcp_log_server.Prelude.Int.{int_eq}
use mcp_log_server.Prelude.Json.{items}
use mcp_log_server.Prelude.Result.{Result, err, ok, ◌>>=◌}
use mcp_log_server.Prelude.Sorting.{distinct, sort, string_below}
use mcp_log_server.Filtering.Candidates.{LineReference, ViewMode, select_filtered_lines}
use mcp_log_server.Filtering.Extract.{Python}
use mcp_log_server.Filtering.Noise.{SourceNoiseContext}
use mcp_log_server.Filtering.View.{
  FileRead, FileReference, Progress, Source, Summary, ViewError, filter_sources,
  snapshot_source_key_not_found, start,
}
use mcp_log_server.SocketApp.Spool.{path_eq}

-- `FilteredViewSourceSummaryPayload`
pub record SourceSummary : Type 0 where
  pub source_key : String
  pub total_line_count : ℕ
  pub kept_line_count : ℕ
  pub excluded_line_count : ℕ
  pub top_exclusion_reasons : List String

-- The fields of `CreateFilteredViewPayload` that are computed here.
pub record FilteredView : Type 0 where
  pub searched_source_keys : List String
  pub total_line_count : ℕ
  pub kept_line_count : ℕ
  pub excluded_line_count : ℕ
  pub truncated : Bool
  pub cleaned_lines : List LineReference
  pub source_summaries : List SourceSummary

unfoldable pub with_file :
    Source → Option FileReference → List (Source × FileReference) → List (Source × FileReference)
with_file item none rest = rest
with_file item (some file) rest = if item.collected then (item, file) ∷ rest else rest

unfoldable pub available_sources : List Source → List (Source × FileReference)
unfolding with_file
available_sources [] = []
available_sources (item ∷ items) = with_file item item.file (available_sources items)

unfoldable pub keys_of : List (Source × FileReference) → List String
keys_of [] = []
keys_of ((item, file) ∷ items) = item.source_key ∷ keys_of items

-- `sorted(set(source_keys) - available_source_keys)`, where there are `source_keys`.
unknown_source_keys : Option (List String) → List String → List String
unknown_source_keys none available = []
unknown_source_keys (some requested) available =
    sort string_below (distinct (missing requested available))

is_requested : Option (List String) → Source × FileReference → Bool
is_requested none item = true
is_requested (some requested) (item, file) = contains requested item.source_key

unfoldable pub select_sources :
    List Source → Option (List String) → Result ViewError (List (Source × FileReference))
unfolding unknown_source_keys is_requested
select_sources sources source_keys =
    let available = available_sources sources in
    let unknown = unknown_source_keys source_keys (keys_of available) in
    if unknown == []
    then ok (select (is_requested source_keys) available)
    else err (snapshot_source_key_not_found unknown)

-- `most_common(3)`
top_reasons : Dict String ℕ → List String
top_reasons counter = take 3 (keys (sort (λ a b. ltb b.1 a.1) counter))

summaries_of : Dict String Summary → List SourceSummary
unfolding top_reasons
summaries_of [] = []
summaries_of ((key, s) ∷ d) =
    record {
      source_key = key;
      total_line_count = s.total_line_count;
      kept_line_count = s.kept_line_count;
      excluded_line_count = s.excluded_line_count;
      top_exclusion_reasons = top_reasons s.exclusion_reasons;
    }
    ∷ summaries_of d

unfoldable pub view_of : List String → ℕ → ViewMode → Progress → FilteredView
unfolding summaries_of
view_of searched_source_keys max_lines mode p = record {
  searched_source_keys = searched_source_keys;
  total_line_count = p.total_line_count;
  kept_line_count = p.kept_line_count;
  excluded_line_count = p.excluded_line_count;
  truncated = ltb max_lines p.kept_line_count;
  cleaned_lines = select_filtered_lines p.candidates searched_source_keys max_lines mode;
  source_summaries = summaries_of (sort (λ a b. string_below a.0 b.0) p.source_summaries);
}

module _ (py : Python) (read : String → FileRead) (contexts : Dict String SourceNoiseContext)
    (max_lines : ℕ) (mode : ViewMode) where
  unfoldable pub create_filtered_view :
      List Source → Option (List String) → Result ViewError FilteredView
  unfolding view_of
  create_filtered_view sources source_keys = do
    selected ← select_sources sources source_keys
    p ← filter_sources py read contexts max_lines mode selected start
    ok (view_of (keys_of selected) max_lines mode p)
