-- ===== src/Snapshots/Grep/Tool.antt =====
-- The tool `grep_log_snapshot` of src/tools/snapshots.py: its checks and its payload.
use mcp_log_server.Prelude.{
  Bool, List, Option, String, [], bool_eq, if◌then◌else◌, length, list_eq, ltb, map, nat_eq, none,
  not, option_eq, select, some, string_eq, total, ℕ, ◌+◌, ◌==◌, ◌||◌, ◌∷◌,
}
use mcp_log_server.Prelude.Dict.{keys}
use mcp_log_server.Prelude.Int.{below, int_below, int_eq, pos, to_nat, ℤ}
use mcp_log_server.Prelude.Result.{Result, err, ok}
use mcp_log_server.Prelude.Sorting.{distinct, sort, string_below}
use mcp_log_server.Prelude.Strings.{strip}
use mcp_log_server.Prelude.Utf8.{Text}
use mcp_log_server.Filtering.View.{FileReference, Source}
use mcp_log_server.Snapshots.Grep.{
  CompletedProcess, FileLook, GrepError, Match, grep_snapshot, is_collection_diagnostics_source_key,
  keys_or_none,
}

-- The refusals of `grep_log_snapshot` before it loads the snapshot, and the errors after that.
pub data SearchError : Type 0 where
  empty_grep_pattern : SearchError
  invalid_match_window : SearchError
  grep_error : GrepError → SearchError

-- The fields of `GrepLogSnapshotPayload` that are computed from the matches.
pub record GrepPage : Type 0 where
  pub searched_source_keys : List String
  pub matched_source_keys : List String
  pub match_count : ℕ
  pub returned_match_count : ℕ
  pub truncated : Bool
  pub matches : List Match

-- `MAX_GREP_MATCHES`
abbrev pub max_grep_matches : ℤ
max_grep_matches = pos 500

-- `source_keys or [...]`, from the snapshot's metadata.
unfoldable pub searched_or_listed : List String → List String → List String
unfolding is_collection_diagnostics_source_key
searched_or_listed [] files = select (λ key. not (is_collection_diagnostics_source_key key)) files
searched_or_listed (key ∷ keys) files = key ∷ keys

unfoldable pub matched_keys : List Match → List String
matched_keys matches = sort string_below (distinct (map (λ (m : Match). m.source_key) matches))

unfoldable pub grep_payload :
    List String → ℕ → Result GrepError (List Match × ℕ) → Result SearchError GrepPage
unfolding matched_keys
grep_payload searched match_offset (err e) = err (grep_error e)
grep_payload searched match_offset (ok (matches, total)) = ok (record {
  searched_source_keys = searched;
  matched_source_keys = matched_keys matches;
  match_count = total;
  returned_match_count = length matches;
  truncated = ltb (match_offset + length matches) total;
  matches = matches;
})

-- The checks on the arguments.
unfoldable pub check_request : Text → ℤ → ℤ → Option SearchError
check_request grep match_offset max_matches =
    if strip grep == []
    then some empty_grep_pattern
    else if below match_offset 0
    then some invalid_match_window
    else if below max_matches 1 || int_below max_grep_matches max_matches
    then some invalid_match_window
    else none

unfoldable pub refuse_or :
    Option SearchError → Result SearchError GrepPage → Result SearchError GrepPage
refuse_or none page = page
refuse_or (some e) page = err e

module _ (look : FileReference → FileLook) (run : List Text → CompletedProcess)
    (int_of : Text → Option ℤ) where
  -- The tool on a snapshot that is found and that belongs to the caller, with the keys of its
  -- metadata.
  unfoldable pub grep_log_snapshot :
      List Source → List String → Text → Option (List String) → ℤ → ℤ → Result SearchError GrepPage
  unfolding check_request refuse_or grep_payload searched_or_listed grep_snapshot keys_or_none
  grep_log_snapshot sources files grep source_keys match_offset max_matches =
      refuse_or (check_request grep match_offset max_matches) (
        grep_payload (searched_or_listed (keys_or_none source_keys) files) (to_nat match_offset) (
          grep_snapshot look run int_of sources grep source_keys (to_nat match_offset)
            (to_nat max_matches)))
