-- ===== src/Snapshots/Grep.antt =====
-- `grep_snapshot` of src/services/log_snapshots.py. The grep process, the files on disk and
-- Python's `int` are parameters.
pub mod Available
pub mod Printed
pub mod Selected
pub mod Tool
use mcp_log_server.Prelude.{
  Bool, List, Option, String, [], bool_eq, contains, drop, if◌then◌else◌, length, list_eq, missing,
  nat_eq, none, not, option_eq, select, some, string_eq, take, ℕ, ◌&&◌, ◌==◌, ◌∷◌,
}
use mcp_log_server.Prelude.Dict.{Dict, insert, keys, lookup}
use mcp_log_server.Prelude.Int.{int_eq, pos, ℤ}
use mcp_log_server.Prelude.Json.{items}
use mcp_log_server.Prelude.Result.{Result, err, ok, ◌>>=◌, ◌>>◌}
use mcp_log_server.Prelude.Sorting.{distinct, sort, string_below}
use mcp_log_server.Prelude.Strings.{before, strip}
use mcp_log_server.Prelude.Utf8.{Text, codes}
use mcp_log_server.Filtering.Cut.{truncate_line}
use mcp_log_server.Filtering.View.{FileReference, Source}
use mcp_log_server.Filtering.View.Create.{available_sources, keys_of}
use mcp_log_server.Snapshots.{output_lines}

-- What `source.file.path` and `Path.exists` say of a stored file.
pub data FileLook : Type 0 where
  present not_found invalid : FileLook

pub record CompletedProcess : Type 0 where
  pub returncode : ℤ
  pub stdout : Text
  pub stderr : Text

-- The error codes of `SnapshotGrepError`, and the exceptions that leave `grep_snapshot`.
pub data GrepError : Type 0 where
  snapshot_source_key_not_found : List String → GrepError
  invalid_snapshot_file_metadata : GrepError
  snapshot_file_not_found : GrepError
  snapshot_grep_failed : Text → GrepError
  unpack_error : GrepError
  key_error : Text → GrepError
  int_error : GrepError

-- `GrepLogSnapshotMatchPayload`
pub record Match : Type 0 where
  pub source_key : String
  pub output_file : String
  pub line_number : ℤ
  pub line : Text
  pub line_truncated : Bool

-- A collected source with its file, as `available_sources` has it.
abbrev pub StoredSource : Type 0
StoredSource = Source × FileReference

abbrev pub Grepped : Type 0
Grepped = Dict Text StoredSource

-- `COLLECTION_DIAGNOSTICS_SOURCE_KEY`
abbrev pub diagnostics_source_key : String
diagnostics_source_key = "__collection_diagnostics"

unfoldable pub is_collection_diagnostics_source_key : String → Bool
is_collection_diagnostics_source_key source_key = source_key == diagnostics_source_key

-- No list of keys is treated as an empty one.
unfoldable pub keys_or_none : Option (List String) → List String
keys_or_none none = []
keys_or_none (some source_keys) = source_keys

unfoldable pub is_selected : List String → StoredSource → Bool
unfolding is_collection_diagnostics_source_key
is_selected [] item = not (is_collection_diagnostics_source_key item.0.source_key)
is_selected (key ∷ keys) item = contains (key ∷ keys) item.0.source_key

selected_items : List String → List StoredSource → Result GrepError (List StoredSource)
unfolding is_selected
selected_items source_keys available =
    let unknown = sort string_below (distinct (missing source_keys (keys_of available))) in
    if unknown == []
    then ok (select (is_selected source_keys) available)
    else err (snapshot_source_key_not_found unknown)

-- What stands after the first separator.
unfoldable pub after : ℕ → Text → Option Text
after sep [] = none
after sep (c ∷ t) = let rest = after sep t in if c == sep then some t else rest

error_output : CompletedProcess → Text
error_output p =
    if strip p.stderr == []
    then if strip p.stdout == [] then codes "grep failed." else strip p.stdout
    else strip p.stderr

module _ (look : FileReference → FileLook) where
  on_disk : FileLook → Result GrepError (Unit {0})
  on_disk present = ok tt
  on_disk not_found = err snapshot_file_not_found
  on_disk invalid = err invalid_snapshot_file_metadata

  -- The loop that fills `grepped_sources`.
  grepped_sources : List StoredSource → Grepped → Result GrepError Grepped
  unfolding on_disk
  grepped_sources [] grepped = ok grepped
  grepped_sources (item ∷ items) grepped =
      on_disk (look item.1) >> grepped_sources items (insert (codes item.1.path) item grepped)

  -- What is grepped: everything before the process runs.
  unfoldable pub plan : List Source → Option (List String) → Result GrepError Grepped
  unfolding selected_items grepped_sources keys_or_none
  plan sources source_keys =
      selected_items (keys_or_none source_keys) (available_sources sources) >>= λ items.
      grepped_sources items []

-- `grep_command`
unfoldable pub grep_command : Text → Grepped → List Text
grep_command grep grepped =
    codes "grep" ∷ codes "-E" ∷ codes "-H" ∷ codes "-n" ∷ codes "--" ∷ grep ∷ keys grepped

module _ (int_of : Text → Option ℤ) where
  match_at : StoredSource → Option ℤ → Text → Result GrepError Match
  match_at item none line = err int_error
  match_at item (some n) line = ok (record {
    source_key = item.0.source_key;
    output_file = item.1.name;
    line_number = n;
    line = (truncate_line line).0;
    line_truncated = (truncate_line line).1;
  })

  match_in : Text → Option StoredSource → Text → Text → Result GrepError Match
  unfolding match_at
  match_in path none line_number line = err (key_error path)
  match_in path (some item) line_number line = match_at item (int_of line_number) line

  match_parts : Grepped → Text → Option Text → Option Text → Result GrepError Match
  unfolding match_in
  match_parts grepped path none line = err unpack_error
  match_parts grepped path (some rest) none = err unpack_error
  match_parts grepped path (some rest) (some line) =
      match_in path (lookup path grepped) (before 58 rest) line

  -- `raw_line.split(":", 2)`
  match_of : Grepped → Text → Result GrepError Match
  unfolding match_parts
  match_of grepped raw_line =
      match_parts grepped (before 58 raw_line) (after 58 raw_line)
        (elim (after 58 raw_line) [ none ↦ none | some rest ↦ after 58 rest ])

  matches_of : Grepped → List Text → Result GrepError (List Match)
  unfolding match_of
  matches_of grepped [] = ok []
  matches_of grepped (raw_line ∷ raw_lines) =
      match_of grepped raw_line >>= λ one. matches_of grepped raw_lines >>= λ more. ok (one ∷ more)

  -- What is made of the output of the process.
  read_output : Grepped → ℕ → ℕ → CompletedProcess → Result GrepError (List Match × ℕ)
  unfolding error_output matches_of
  read_output grepped match_offset max_matches p =
      if not (p.returncode == pos 0) && not (p.returncode == pos 1)
      then err (snapshot_grep_failed (error_output p))
      else if p.returncode == pos 1
      then ok ([], 0)
      else matches_of grepped (take max_matches (drop match_offset (output_lines p.stdout)))
        >>= λ matches. ok (matches, length (output_lines p.stdout))

module _ (look : FileReference → FileLook) (run : List Text → CompletedProcess)
    (int_of : Text → Option ℤ) where
  search : Text → ℕ → ℕ → Grepped → Result GrepError (List Match × ℕ)
  unfolding read_output grep_command
  search grep match_offset max_matches [] = ok ([], 0)
  search grep match_offset max_matches (entry ∷ entries) =
      read_output int_of (entry ∷ entries) match_offset max_matches
        (run (grep_command grep (entry ∷ entries)))

  -- The window is checked by the tool.
  unfoldable pub grep_snapshot :
      List Source → Text → Option (List String) → ℕ → ℕ → Result GrepError (List Match × ℕ)
  unfolding plan search
  grep_snapshot sources grep source_keys match_offset max_matches =
      plan look sources source_keys >>= search grep match_offset max_matches
