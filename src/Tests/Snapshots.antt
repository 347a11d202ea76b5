-- ===== src/Tests/Snapshots.antt =====
-- Reads of a small snapshot file, with a carriage return before one of its newlines.
use mcp_log_server.Prelude.{[], arith, get_elem?, none, refl, some, ◌∷◌, ◌≡◌}
use mcp_log_server.Prelude.Int.{pos}
use mcp_log_server.Prelude.Result.{err, ok}
use mcp_log_server.Prelude.Utf8.{Text}
use mcp_log_server.Snapshots.{
  add_char, chunk_of, end_index, end_of, has_lines, invalid_snapshot_read_range, is_line_break,
  join, not_positive, select_range, select_requested_range, select_snapshot_read_chunk, slice,
  slice_index, splitlines, start_index, start_line_not_positive, starts_newline,
}
use mcp_log_server.Snapshots.Numbers.{IsPlain, newline_lines, select_requested_range_lem}
use mcp_log_server.Snapshots.Ranges.{
  IsAdjacent, IsSplit, select_requested_range-IsAdjacent, select_requested_range-IsSplit,
}

abbrev log_text : Text
log_text = 97 ∷ 13 ∷ 10 ∷ 98 ∷ 10 ∷ 10 ∷ 99 ∷ []

log_text_lines :
    splitlines log_text ≡ (97 ∷ 13 ∷ 10 ∷ []) ∷ (98 ∷ 10 ∷ []) ∷ (10 ∷ []) ∷ (99 ∷ []) ∷ []
unfolding splitlines is_line_break starts_newline add_char
log_text_lines = refl

read_beyond : select_requested_range (some (pos 5)) none log_text ≡ err invalid_snapshot_read_range
unfolding select_requested_range select_snapshot_read_chunk select_range not_positive slice
    start_index end_of end_index slice_index chunk_of splitlines is_line_break starts_newline
    add_char has_lines
read_beyond = refl

read_zero : select_requested_range (some (pos 0)) none log_text ≡ err start_line_not_positive
unfolding select_requested_range not_positive
read_zero = refl

select_requested_range-IsAdjacent_example : IsAdjacent log_text 0 0 1
unfolding splitlines is_line_break starts_newline add_char
select_requested_range-IsAdjacent_example =
    select_requested_range-IsAdjacent log_text 0 0 1 (omega arith)

select_requested_range-IsSplit_example : IsSplit log_text 1
unfolding splitlines is_line_break starts_newline add_char
select_requested_range-IsSplit_example = select_requested_range-IsSplit log_text 1 (omega arith)

abbrev three_lines : Text
three_lines = 97 ∷ 10 ∷ 98 ∷ 10 ∷ 99 ∷ []

three_lines-IsPlain : IsPlain three_lines
unfolding is_line_break
three_lines-IsPlain = (refl, (refl, (refl, (refl, (refl, tt)))))

second_line : get_elem? (newline_lines three_lines) 1 ≡ some (98 ∷ 10 ∷ [])
unfolding newline_lines add_char
second_line = refl

select_requested_range_lem_example :
    select_requested_range (some (pos 2)) (some (pos 1)) three_lines
    ≡ ok (record { content = 98 ∷ 10 ∷ []; start_line = some (pos 2); line_count = 1 })
select_requested_range_lem_example =
    select_requested_range_lem three_lines three_lines-IsPlain 1 (98 ∷ 10 ∷ []) second_line

-- A form feed inside a line shifts the numbers of a read: line 2 of grep is line 3 here.
abbrev paged_text : Text
paged_text = 97 ∷ 12 ∷ 98 ∷ 10 ∷ 99 ∷ []

form_feed_grep : get_elem? (newline_lines paged_text) 1 ≡ some (99 ∷ [])
unfolding newline_lines add_char
form_feed_grep = refl

form_feed_read :
    select_requested_range (some (pos 2)) (some (pos 1)) paged_text
    ≡ ok (record { content = 98 ∷ 10 ∷ []; start_line = some (pos 2); line_count = 1 })
unfolding select_requested_range select_snapshot_read_chunk select_range not_positive slice
    start_index end_of end_index slice_index chunk_of splitlines is_line_break starts_newline
    add_char has_lines join
form_feed_read = refl
