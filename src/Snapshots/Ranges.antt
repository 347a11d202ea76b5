-- ===== src/Snapshots/Ranges.antt =====
-- How the ranges of one snapshot file fit together.
use mathlib.Core.List.{append_assoc}
use mcp_log_server.Prelude.{
  Bool-cases, List, [], ap, arith, bool_eq, drop, drop-drop, ge→ltb, inl, inr, length,
  length-append, length-drop, length-take, list_eq, nat_eq, none, not, option_eq, refl, some,
  string_eq, suc, sym, take, take-append-drop, zero, ℕ, ◌&&◌, ◌++◌, ◌+◌, ◌-◌, ◌<◌, ◌==◌, ◌∙◌, ◌∷◌,
  ◌≡◌,
}
use mcp_log_server.Prelude.Int.{int_eq, pos}
use mcp_log_server.Prelude.Result.{ok}
use mcp_log_server.Prelude.Utf8.{Text}
use mcp_log_server.Analysis.Routes.{key_eq}
use mcp_log_server.Snapshots.{
  SnapshotReadChunk, add_char, chunk_of, end_index, end_of, is_line_break, join, not_positive,
  select_range, select_requested_range, select_snapshot_read_chunk, slice, slice_index, splitlines,
  start_index, starts_newline, whole,
}
use mcp_log_server.SocketApp.Spool.{path_eq}

join-add_char : (c : ℕ) (lines : List Text) → join (add_char c lines) ≡ c ∷ join lines
unfolding join add_char
join-add_char c [] = refl
join-add_char c (line ∷ lines) = refl

join-splitlines : (content : Text) → join (splitlines content) ≡ content
unfolding join splitlines
join-splitlines [] = refl
join-splitlines (c ∷ cs) =
    elim (Bool-cases (is_line_break c && not (c == 13 && starts_newline cs))) [
      | inl e ↦ rw e (ap (λ (t : Text). c ∷ t) (join-splitlines cs))
      | inr e ↦
          rw e (join-add_char c (splitlines cs) ∙ ap (λ (t : Text). c ∷ t) (join-splitlines cs))
    ]

join-append : (xs ys : List Text) → join (xs ++ ys) ≡ join xs ++ join ys
unfolding join
join-append [] ys = refl
join-append (x ∷ xs) ys =
    ap (λ (t : Text). x ++ t) (join-append xs ys) ∙ sym (append_assoc x (join xs) (join ys))

take_nil : (n : ℕ) → take {A = Text} n [] ≡ []
take_nil zero = refl
take_nil (suc n) = refl

take_index : {n m : ℕ} (xs : List Text) → n ≡ m → take n xs ≡ take m xs
take_index xs e = ap (λ k. take k xs) e

take-plus : (m n : ℕ) (xs : List Text) → take m xs ++ take n (drop m xs) ≡ take (m + n) xs
take-plus zero n xs = take_index xs (omega arith)
take-plus (suc m) n [] = take_nil n ∙ sym (take_nil (suc m + n))
take-plus (suc m) n (x ∷ xs) =
    ap (λ ys. x ∷ ys) (take-plus m n xs)
    ∙ take_index {n = suc (m + n)} {m = suc m + n} (x ∷ xs) (omega arith)

-- What a range in the file holds.
abbrev pub range : ℕ → ℕ → Text → List Text
range s n content = take n (drop s (splitlines content))

unfoldable pub chunk : ℕ → List Text → SnapshotReadChunk
chunk s lines = record {
  content = join lines;
  start_line = some (pos (suc s));
  line_count = length lines;
}

add-sub : (a b : ℕ) → a + b - a ≡ b
add-sub a b = omega arith

pub read_range :
    (s n : ℕ) (content : Text)
    → s < length (splitlines content)
    → select_requested_range (some (pos (suc s))) (some (pos (suc n))) content
      ≡ ok (chunk s (range s (suc n) content))
unfolding select_requested_range select_snapshot_read_chunk select_range not_positive slice
    start_index end_of end_index slice_index chunk_of chunk
read_range s n content h = rw (
  ge→ltb (suc s) 1 (omega arith),
  ge→ltb (suc n) 1 (omega arith),
  ge→ltb (length (splitlines content)) (suc s) (omega arith),
  add-sub s (suc n),
)

read_rest :
    (s : ℕ) (content : Text)
    → s < length (splitlines content)
    → select_requested_range (some (pos (suc s))) none content
      ≡ ok (chunk s (drop s (splitlines content)))
unfolding select_requested_range select_snapshot_read_chunk select_range not_positive slice
    start_index end_of end_index slice_index chunk_of chunk
read_rest s content h =
    rw (ge→ltb (suc s) 1 (omega arith), ge→ltb (length (splitlines content)) (suc s) (omega arith))

-- Two reads that follow one another, and the read of both ranges at once.
pub record IsAdjacent (content : Text) (s m n : ℕ) : Type 0 where
  first : SnapshotReadChunk
  second : SnapshotReadChunk
  both : SnapshotReadChunk
  first_read : select_requested_range (some (pos (suc s))) (some (pos (suc m))) content ≡ ok first
  second_read :
      select_requested_range (some (pos (suc (s + suc m)))) (some (pos (suc n))) content ≡ ok second
  both_read :
      select_requested_range (some (pos (suc s))) (some (pos (suc (m + suc n)))) content ≡ ok both
  joined : first.content ++ second.content ≡ both.content
  full : first.line_count ≡ suc m
  counted : first.line_count + second.line_count ≡ both.line_count

-- Reads of two ranges that follow one another are both served and give, one after the other, the
-- text and the line count of the one read of both ranges. The ranges have at least one line, and
-- the second begins inside the file.
pub select_requested_range-IsAdjacent :
    (content : Text) (s m n : ℕ)
    → s + suc m < length (splitlines content)
    → IsAdjacent content s m n
unfolding chunk
select_requested_range-IsAdjacent content s m n h =
    let lines = drop s (splitlines content) in
    let together : range s (suc m) content ++ range (s + suc m) (suc n) content
        ≡ range s (suc (m + suc n)) content =
      ap (λ ys. take (suc m) lines ++ take (suc n) ys)
        (sym (drop-drop s (suc m) (splitlines content)))
      ∙ take-plus (suc m) (suc n) lines
      ∙ take_index {n = suc m + suc n} {m = suc (m + suc n)} lines (omega arith) in
    record {
      first = chunk s (range s (suc m) content);
      second = chunk (s + suc m) (range (s + suc m) (suc n) content);
      both = chunk s (range s (suc (m + suc n)) content);
      first_read = read_range s m content (omega arith);
      second_read = read_range (s + suc m) n content h;
      both_read = read_range s (m + suc n) content (omega arith);
      joined =
          sym (join-append (range s (suc m) content) (range (s + suc m) (suc n) content))
          ∙ ap join together;
      full = omega (arith, length-take (suc m) lines, length-drop s (splitlines content));
      counted =
          sym (length-append (range s (suc m) content) (range (s + suc m) (suc n) content))
          ∙ ap length together;
    }

-- A file read in two parts.
pub record IsSplit (content : Text) (m : ℕ) : Type 0 where
  first : SnapshotReadChunk
  rest : SnapshotReadChunk
  all : SnapshotReadChunk
  first_read : select_requested_range none (some (pos (suc m))) content ≡ ok first
  rest_read : select_requested_range (some (pos (suc (suc m)))) none content ≡ ok rest
  all_read : select_requested_range none none content ≡ ok all
  joined : first.content ++ rest.content ≡ content
  counted : first.line_count + rest.line_count ≡ all.line_count

read_first :
    (n : ℕ) (content : Text)
    → 0 < length (splitlines content)
    → select_requested_range none (some (pos (suc n))) content
      ≡ ok (chunk 0 (take (suc n) (splitlines content)))
unfolding select_requested_range select_snapshot_read_chunk select_range not_positive slice
    start_index end_of end_index slice_index chunk_of chunk
read_first n content h = rw (
  ge→ltb (suc n) 1 (omega arith),
  ge→ltb (length (splitlines content)) 1 (omega arith),
  add-sub 0 (suc n),
)

whole-line_count :
    (content : Text) (lines : List Text) → (whole content lines).line_count ≡ length lines
unfolding whole
whole-line_count content [] = refl
whole-line_count content (line ∷ lines) = refl

-- The first lines of a file and the read of the rest of it give the whole text back, whatever its
-- line ends, and their line counts add up to that of a read of the whole file. The first part has
-- at least one line, and the rest is not empty.
pub select_requested_range-IsSplit :
    (content : Text) (m : ℕ) → suc m < length (splitlines content) → IsSplit content m
unfolding chunk select_requested_range select_snapshot_read_chunk not_positive
select_requested_range-IsSplit content m h =
    let lines = splitlines content in
    record {
      first = chunk 0 (take (suc m) lines);
      rest = chunk (suc m) (drop (suc m) lines);
      all = whole content lines;
      first_read = read_first m content (omega arith);
      rest_read = read_rest (suc m) content h;
      all_read = refl;
      joined =
          sym (join-append (take (suc m) lines) (drop (suc m) lines))
          ∙ ap join (take-append-drop (suc m) lines)
          ∙ join-splitlines content;
      counted =
          sym (length-append (take (suc m) lines) (drop (suc m) lines))
          ∙ ap length (take-append-drop (suc m) lines)
          ∙ sym (whole-line_count content lines);
    }
