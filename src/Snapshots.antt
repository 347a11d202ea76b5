-- ===== src/Snapshots.antt =====
-- The reading of a line range of a snapshot file: the argument checks of src/tools/snapshots.py and
-- the selection of src/services/log_snapshots.py.
pub mod Grep
pub mod Numbers
pub mod Ranges
use mcp_log_server.Prelude.{
  Bool, List, Option, [], bool_eq, drop, false, if◌then◌else◌, length, list_eq, ltb, nat_eq, none,
  not, option_eq, some, string_eq, suc, take, true, zero, ℕ, ◌&&◌, ◌++◌, ◌+◌, ◌-◌, ◌==◌, ◌||◌, ◌∷◌,
}
use mcp_log_server.Prelude.Int.{below, int_below, int_eq, negsuc, pos, ℤ}
use mcp_log_server.Prelude.Result.{Result, err, ok}
use mcp_log_server.Prelude.Strings.{strip_end}
use mcp_log_server.Prelude.Utf8.{Text}
use mcp_log_server.Analysis.Groups.Totals.{size}
use mcp_log_server.Analysis.Routes.{key_eq}
use mcp_log_server.Collection.DockerPages.{line_count}
use mcp_log_server.Filtering.View.{start}
use mcp_log_server.SocketApp.Spool.{path_eq}

-- What ends a line for `str.splitlines`; a carriage return and a newline after it are one end.
unfoldable pub is_line_break : ℕ → Bool
is_line_break c =
    c == 10
    || c == 11
    || c == 12
    || c == 13
    || c == 28
    || c == 29
    || c == 30
    || c == 133
    || c == 8232
    || c == 8233

unfoldable pub starts_newline : Text → Bool
starts_newline [] = false
starts_newline (c ∷ cs) = c == 10

unfoldable pub add_char : ℕ → List Text → List Text
add_char c [] = (c ∷ []) ∷ []
add_char c (line ∷ lines) = (c ∷ line) ∷ lines

-- `full_content.splitlines(keepends=True)`
unfoldable pub splitlines : Text → List Text
unfolding is_line_break starts_newline add_char
splitlines [] = []
splitlines (c ∷ cs) =
    let rest = splitlines cs in
    if is_line_break c && not (c == 13 && starts_newline cs)
    then (c ∷ []) ∷ rest
    else add_char c rest

lines_without_ends : List Text → List Text
lines_without_ends [] = []
lines_without_ends (line ∷ lines) = strip_end is_line_break line ∷ lines_without_ends lines

-- `output.splitlines()`
unfoldable pub output_lines : Text → List Text
unfolding lines_without_ends splitlines
output_lines output = lines_without_ends (splitlines output)

-- `"".join(lines)`
unfoldable pub join : List Text → Text
join [] = []
join (line ∷ lines) = line ++ join lines

-- `SnapshotReadChunk`
pub record SnapshotReadChunk : Type 0 where
  pub content : Text
  pub start_line : Option ℤ
  pub line_count : ℕ

-- The refusals, by their messages: the tool's two, and the service's.
pub data ReadError : Type 0 where
  start_line_not_positive : ReadError
  line_count_not_positive : ReadError
  invalid_snapshot_read_range : ReadError

-- An index of a slice: a negative one counts from the end.
unfoldable pub slice_index : ℕ → ℤ → ℕ
slice_index size (pos n) = n
slice_index size (negsuc n) = size - suc n

-- `lines[start_index:end_index]`
unfoldable pub slice : ℤ → Option ℤ → List Text → List Text
unfolding slice_index
slice start none lines = drop (slice_index (length lines) start) lines
slice start (some stop) lines =
    let first = slice_index (length lines) start in
    take (slice_index (length lines) stop - first) (drop first lines)

-- `effective_start_line - 1`
unfoldable pub start_index : ℤ → ℤ
start_index (pos zero) = negsuc 0
start_index (pos (suc n)) = pos n
start_index (negsuc n) = negsuc (suc n)

-- `start_index + line_count`
unfoldable pub end_index : ℤ → ℤ → ℤ
end_index (pos a) (pos b) = pos (a + b)
end_index (pos a) (negsuc b) = if ltb b a then pos (a - suc b) else negsuc (b - a)
end_index (negsuc a) (pos b) = if ltb a b then pos (b - suc a) else negsuc (a - b)
end_index (negsuc a) (negsuc b) = negsuc (a + b + 1)

-- `end_index`: none reads to the end.
unfoldable pub end_of : ℤ → Option ℤ → Option ℤ
unfolding end_index
end_of first none = none
end_of first (some line_count) = some (end_index first line_count)

unfoldable pub chunk_of : ℤ → List Text → SnapshotReadChunk
unfolding join
chunk_of start lines = record {
  content = join lines;
  start_line = some start;
  line_count = length lines;
}

unfoldable pub has_lines : List Text → Bool
has_lines [] = false
has_lines (line ∷ lines) = true

unfoldable pub select_range : List Text → ℤ → Option ℤ → Result ReadError SnapshotReadChunk
unfolding slice start_index end_of chunk_of has_lines
select_range lines start line_count =
    if int_below (pos (length lines)) start && has_lines lines
    then err invalid_snapshot_read_range
    else ok
        (chunk_of start (slice (start_index start) (end_of (start_index start) line_count) lines))

whole : Text → List Text → SnapshotReadChunk
whole content [] = record { content = content; start_line = none; line_count = 0 }
whole content (line ∷ lines) = record {
  content = content;
  start_line = some (pos 1);
  line_count = length (line ∷ lines);
}

-- `select_snapshot_read_chunk`
unfoldable pub select_snapshot_read_chunk :
    Text → Option ℤ → Option ℤ → Result ReadError SnapshotReadChunk
unfolding whole select_range splitlines
select_snapshot_read_chunk content none none = ok (whole content (splitlines content))
select_snapshot_read_chunk content none (some line_count) =
    select_range (splitlines content) (pos 1) (some line_count)
select_snapshot_read_chunk content (some start_line) line_count =
    select_range (splitlines content) start_line line_count

unfoldable pub not_positive : Option ℤ → Bool
not_positive none = false
not_positive (some z) = below z 1

-- The checks of `read_log_snapshot_file` on its line range, and the selection in the file's text. The
-- lookup of the file stands between them; the bound on bytes comes after them.
unfoldable pub select_requested_range :
    Option ℤ → Option ℤ → Text → Result ReadError SnapshotReadChunk
unfolding not_positive select_snapshot_read_chunk
select_requested_range start_line line_count content =
    if not_positive start_line
    then err start_line_not_positive
    else if not_positive line_count
    then err line_count_not_positive
    else select_snapshot_read_chunk content start_line line_count
