-- ===== src/Snapshots/Grep/Printed.antt =====
-- What the program makes of the output that grep documents: a page of the matches.
use mcp_log_server.Prelude.{
  All, All-drop, All-take, List, Option, String, [], ap, arith, beq_ne, beq_refl, bool_eq, drop,
  drop-map, false, ge→ltb, length, length-drop, length-map, length-take, list_eq, ltb, map, nat_eq,
  option_eq, refl, some, string_eq, take, take-map, ℕ, ◌++◌, ◌+◌, ◌==◌, ◌↔◌, ◌∷◌, ◌≡◌, ◌≢◌, ◌≤◌,
}
use mcp_log_server.Prelude.Dict.{lookup}
use mcp_log_server.Prelude.Int.{int_eq, pos, ℤ}
use mcp_log_server.Prelude.Result.{Result, ok, ◌>>=◌}
use mcp_log_server.Prelude.Strings.{before, strip, strip_end}
use mcp_log_server.Prelude.Utf8.{Text}
use mcp_log_server.Filtering.Cut.{truncate_line}
use mcp_log_server.Filtering.View.{FileReference, Source}
use mcp_log_server.Snapshots.{add_char, is_line_break, lines_without_ends, output_lines, splitlines}
use mcp_log_server.Snapshots.Grep.{
  CompletedProcess, FileLook, Grepped, Match, StoredSource, after, grep_command, grep_snapshot,
  match_at, match_in, match_of, match_parts, matches_of, plan, read_output, search,
}
use mcp_log_server.Snapshots.Grep.Tool.{GrepPage, SearchError, grep_log_snapshot, grep_payload}

-- A line that `grep -H -n` prints, with the source of its path and the value of its number.
pub record Hit : Type 0 where
  pub path : Text
  pub number : Text
  pub line : Text
  pub item : StoredSource
  pub value : ℤ

abbrev pub printed_line : Hit → Text
printed_line h = h.path ++ 58 ∷ (h.number ++ 58 ∷ h.line)

abbrev pub printed : List Hit → Text
printed [] = []
printed (h ∷ hs) = printed_line h ++ 10 ∷ printed hs

-- The match that is to be returned.
abbrev pub expected : Hit → Match
expected h = record {
  source_key = h.item.0.source_key;
  output_file = h.item.1.name;
  line_number = h.value;
  line = (truncate_line h.line).0;
  line_truncated = (truncate_line h.line).1;
}

-- The path is grepped, neither it nor the number has a colon, and nothing but the end of the line
-- ends a line for splitlines.
pub record IsHit (int_of : Text → Option ℤ) (grepped : Grepped) (h : Hit) : Type 0 where
  pub known : lookup h.path grepped ≡ some h.item
  pub numbered : int_of h.number ≡ some h.value
  pub plain_path : All (λ c. (c == 58) ≡ false) h.path
  pub plain_number : All (λ c. (c == 58) ≡ false) h.number
  pub plain_line : All (λ c. is_line_break c ≡ false) (printed_line h)

splitlines_line :
    (t rest : Text)
    → All (λ c. is_line_break c ≡ false) t
    → splitlines (t ++ 10 ∷ rest) ≡ (t ++ 10 ∷ []) ∷ splitlines rest
unfolding splitlines is_line_break add_char
splitlines_line [] rest p = refl
splitlines_line (c ∷ t) rest (p, ps) = rw p (ap (add_char c) (splitlines_line t rest ps))

strip_end_line :
    (t : Text) → All (λ c. is_line_break c ≡ false) t → strip_end is_line_break (t ++ 10 ∷ []) ≡ t
unfolding strip_end is_line_break
strip_end_line [] p = refl
strip_end_line (c ∷ []) (p, ps) = rw p refl
strip_end_line (c ∷ d ∷ t) (p, ps) = rw (strip_end_line (d ∷ t) ps) refl

before_mark :
    (sep : ℕ) (t rest : Text)
    → All (λ c. (c == sep) ≡ false) t
    → (before sep (t ++ sep ∷ rest) ≡ t) × (after sep (t ++ sep ∷ rest) ≡ some rest)
unfolding before after
before_mark sep [] rest p = rw (beq_refl sep) (refl, refl)
before_mark sep (c ∷ t) rest (p, ps) =
    let (b, a) = before_mark sep t rest ps in rw p (ap (λ ys. c ∷ ys) b, a)

output_lines-printed :
    (hits : List Hit)
    → All (λ h. All (λ c. is_line_break c ≡ false) (printed_line h)) hits
    → output_lines (printed hits) ≡ map printed_line hits
unfolding output_lines lines_without_ends splitlines
output_lines-printed [] p = refl
output_lines-printed (h ∷ hs) (p, ps) =
    rw (splitlines_line (printed_line h) (printed hs) p, strip_end_line (printed_line h) p)
      (ap (λ ys. printed_line h ∷ ys) (output_lines-printed hs ps))

module _ (int_of : Text → Option ℤ) (grepped : Grepped) where
  match_of_hit :
      (h : Hit)
      → IsHit int_of grepped h
      → match_of int_of grepped (printed_line h) ≡ ok (expected h)
  unfolding match_of match_parts match_in match_at
  match_of_hit h p =
      let (path, rest) = before_mark 58 h.path (h.number ++ 58 ∷ h.line) p.plain_path in
      let (number, line) = before_mark 58 h.number h.line p.plain_number in
      rw (path, rest, line, number, p.known, p.numbered) refl

  matches_of_hits :
      (hits : List Hit)
      → All (IsHit int_of grepped) hits
      → matches_of int_of grepped (map printed_line hits) ≡ ok (map expected hits)
  unfolding matches_of
  matches_of_hits [] p = refl
  matches_of_hits (h ∷ hs) (p, ps) = rw (◌>>=◌, match_of_hit h p, matches_of_hits hs ps) refl

-- The request of a page of matches.
pub record IsPage (hits : List Hit) (match_offset max_matches : ℕ)
    (out : Result SearchError GrepPage) : Type 0 where
  pub page : GrepPage
  pub served : out ≡ ok page
  pub matches : page.matches ≡ map expected (take max_matches (drop match_offset hits))
  pub counted : page.match_count ≡ length hits
  pub complete : (page.truncated ≡ false) ↔ (length hits ≤ match_offset + max_matches)

plain_lines :
    (int_of : Text → Option ℤ) (grepped : Grepped) (hits : List Hit)
    → All (IsHit int_of grepped) hits
    → All (λ h. All (λ c. is_line_break c ≡ false) (printed_line h)) hits
plain_lines int_of grepped [] p = tt
plain_lines int_of grepped (h ∷ hs) (p, ps) = (p.plain_line, plain_lines int_of grepped hs ps)

read_output-printed :
    (int_of : Text → Option ℤ) (grepped : Grepped) (hits : List Hit) (stderr : Text) (o m : ℕ)
    → All (IsHit int_of grepped) hits
    → read_output int_of grepped o m
        (record { returncode = pos 0; stdout = printed hits; stderr = stderr })
      ≡ ok (map expected (take m (drop o hits)), length hits)
unfolding read_output
read_output-printed int_of grepped hits stderr o m p =
    rw
      (
        output_lines-printed hits (plain_lines int_of grepped hits p),
        drop-map printed_line o hits,
        take-map printed_line m (drop o hits),
        length-map printed_line hits,
        matches_of_hits int_of grepped (take m (drop o hits)) (
            All-take (IsHit int_of grepped) m (drop o hits)
              (All-drop (IsHit int_of grepped) o hits p)),
      )
      refl

module _ (look : FileReference → FileLook) (run : List Text → CompletedProcess)
    (int_of : Text → Option ℤ) (sources : List Source) (files : List String) (grep : Text)
    (source_keys : Option (List String)) where
  found :
      (grepped : Grepped) (hits : List Hit) (stderr : Text) (o m : ℕ)
      → grepped ≢ []
      → plan look sources source_keys ≡ ok grepped
      → run (grep_command grep grepped)
        ≡ record { returncode = pos 0; stdout = printed hits; stderr = stderr }
      → All (IsHit int_of grepped) hits
      → grep_snapshot look run int_of sources grep source_keys o m
        ≡ ok (map expected (take m (drop o hits)), length hits)
  unfolding grep_snapshot search
  found [] hits stderr o m some_file planned ran p = absurd (some_file refl)
  found (e ∷ es) hits stderr o m some_file planned ran p =
      rw (planned, ran) (read_output-printed int_of (e ∷ es) hits stderr o m p)

  truncated_iff :
      (hits : List Hit) (o m : ℕ)
      → (ltb (o + length (map expected (take m (drop o hits)))) (length hits) ≡ false)
        ↔ (length hits ≤ o + m)
  truncated_iff hits o m =
      rw
        (
          length-map expected (take m (drop o hits)),
          length-take m (drop o hits),
          length-drop o hits,
        )
        (ground arith)

  -- A search of a snapshot returns exactly the page of grep's matches that was asked for, each
  -- with its source, number and cut line, counts all of them, and is marked as complete exactly
  -- when no match lies behind the page. The pattern is not blank, a page has 1 to 500 matches, a
  -- file is searched, and grep ends with matches in its documented format: neither path nor number
  -- has a colon, and no line has a character but its end that ends a line for splitlines.
  pub grep_log_snapshot-IsPage :
      (grepped : Grepped) (hits : List Hit) (stderr : Text) (match_offset max_matches : ℕ)
      → strip grep ≢ []
      → 1 ≤ max_matches
      → max_matches ≤ 500
      → grepped ≢ []
      → plan look sources source_keys ≡ ok grepped
      → run (grep_command grep grepped)
        ≡ record { returncode = pos 0; stdout = printed hits; stderr = stderr }
      → All (IsHit int_of grepped) hits
      → IsPage hits match_offset max_matches (
          grep_log_snapshot look run int_of sources files grep source_keys
            (pos match_offset)
            (pos max_matches))
  unfolding grep_log_snapshot grep_payload
  grep_log_snapshot-IsPage grepped hits stderr o m pattern low high some_file planned ran p =
      rw
        (
          beq_ne (strip grep) [] pattern,
          ge→ltb o 0 (omega arith),
          ge→ltb m 1 low,
          ge→ltb 500 m high,
          found grepped hits stderr o m some_file planned ran p,
        )
        (record {
          page = _;
          served = refl;
          matches = refl;
          counted = refl;
          complete = truncated_iff hits o m;
        })
