-- ===== src/Collection/DockerPages/Lines.antt =====
-- The counters of `_collect_docker_source` against the lines of the whole file.

use mcp_log_server.Prelude.{
  Bool, List, Option, [], ap, arith, if◌then◌else◌, length-append, nat_eq, none, option_eq, refl,
  some, string_eq, suc, sym, true, ℕ, ◌++◌, ◌+◌, ◌==◌, ◌∙◌, ◌∷◌, ◌≡◌,
}
use mcp_log_server.Prelude.Int.{int_eq}
use mcp_log_server.Prelude.Utf8.{Bytes}
use mcp_log_server.Collection.DockerPages.{
  Tally, add_chunk, count_newlines, empty_tally, last_byte, line_count, tally_chunks,
}
use mcp_log_server.SocketApp.Spool.{path_eq}

-- The bytes of all chunks.
abbrev pub joined : List Bytes → Bytes
joined [] = []
joined (chunk ∷ chunks) = chunk ++ joined chunks

-- The lines of a file, counted at their first bytes: a byte begins a line if it is the first of
-- the file or follows a newline.
unfoldable pub lines_from : Bool → Bytes → ℕ
lines_from starts [] = 0
lines_from starts (b ∷ bytes) =
    let rest = lines_from (b == 10) bytes in if starts then suc rest else rest

last_byte-append :
    (previous : Option ℕ) (xs ys : Bytes)
    → last_byte previous (xs ++ ys) ≡ last_byte (last_byte previous xs) ys
unfolding last_byte
last_byte-append previous [] ys = refl
last_byte-append previous (x ∷ xs) ys = last_byte-append (some x) xs ys

count_newlines-append :
    (xs ys : Bytes) → count_newlines (xs ++ ys) ≡ count_newlines xs + count_newlines ys
unfolding count_newlines
count_newlines-append [] ys = omega arith
count_newlines-append (x ∷ xs) ys = ground (arith, count_newlines-append xs ys)

Tally-eq :
    (s t : Tally)
    → s.byte_count ≡ t.byte_count
    → s.newline_count ≡ t.newline_count
    → s.trailing_byte ≡ t.trailing_byte
    → s ≡ t
Tally-eq s t p q r = λ i. record { byte_count = p i; newline_count = q i; trailing_byte = r i }

add_chunk-append :
    (tally : Tally) (xs ys : Bytes) → add_chunk (add_chunk tally xs) ys ≡ add_chunk tally (xs ++ ys)
unfolding add_chunk
add_chunk-append tally xs ys =
    Tally-eq _ _ (omega (arith, length-append xs ys)) (omega (arith, count_newlines-append xs ys))
      (sym (last_byte-append tally.trailing_byte xs ys))

add_chunk_nil : (tally : Tally) → add_chunk tally [] ≡ tally
unfolding add_chunk
add_chunk_nil tally = Tally-eq _ _ (omega arith) (omega arith) refl

tally_chunks-joined :
    (tally : Tally) (chunks : List Bytes)
    → tally_chunks tally chunks ≡ add_chunk tally (joined chunks)
unfolding tally_chunks
tally_chunks-joined tally [] = sym (add_chunk_nil tally)
tally_chunks-joined tally (chunk ∷ chunks) =
    tally_chunks-joined (add_chunk tally chunk) chunks
    ∙ add_chunk-append tally chunk (joined chunks)

-- The newlines and the last byte give the number of lines.
lines_from-tally :
    (previous : Option ℕ) (bytes : Bytes) (b : ℕ)
    → lines_from (b == 10) bytes + (if b == 10 then 0 else 1)
      ≡ count_newlines bytes + (if last_byte (some b) bytes == some 10 then 0 else 1)
unfolding lines_from count_newlines last_byte
lines_from-tally previous [] b = ground arith
lines_from-tally previous (c ∷ bytes) b = ground (arith, lines_from-tally previous bytes c)

line_count_of_bytes :
    (bytes : Bytes) → line_count (add_chunk empty_tally bytes) ≡ lines_from true bytes
unfolding line_count add_chunk lines_from
line_count_of_bytes [] = refl
line_count_of_bytes (b ∷ bytes) = ground (arith, lines_from-tally none bytes b)

-- The line count of a collected file, kept by counters over the pages, is the number of lines of
-- the whole file, whatever the pages: a byte begins a line if it is the first or follows a
-- newline.
pub line_count-tally_chunks :
    (chunks : List Bytes)
    → line_count (tally_chunks empty_tally chunks) ≡ lines_from true (joined chunks)
line_count-tally_chunks chunks =
    ap line_count (tally_chunks-joined empty_tally chunks) ∙ line_count_of_bytes (joined chunks)
