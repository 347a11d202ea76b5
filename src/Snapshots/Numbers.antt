-- ===== src/Snapshots/Numbers.antt =====
-- The line numbers of a read against those of grep and of the analysis, which count newlines.
use mathlib.Core.List.{append-nil}
use mathlib.Core.Option.{some-injective}
use mcp_log_server.Prelude.{
  All, Bool-cases, List, [], ap, arith, bool_eq, drop, eqb_iff, false, get_elem?, if◌then◌else◌,
  inl, inr, length, list_eq, nat_eq, option_eq, refl, some, string_eq, subst, suc, sym, take, true,
  zero, ℕ, ◌<◌, ◌==◌, ◌∙◌, ◌∷◌, ◌≡◌,
}
use mcp_log_server.Prelude.Int.{int_eq, pos}
use mcp_log_server.Prelude.Result.{ok}
use mcp_log_server.Prelude.Utf8.{Text}
use mcp_log_server.Analysis.Routes.{key_eq}
use mcp_log_server.Snapshots.{add_char, is_line_break, join, select_requested_range, splitlines}
use mcp_log_server.Snapshots.Ranges.{chunk, range, read_range}
use mcp_log_server.SocketApp.Spool.{path_eq}

-- The lines of a file as `for raw_line in handle` yields them.
unfoldable pub newline_lines : Text → List Text
unfolding add_char
newline_lines [] = []
newline_lines (c ∷ cs) =
    let rest = newline_lines cs in if c == 10 then (c ∷ []) ∷ rest else add_char c rest

-- Of the characters that end a line for `str.splitlines`, the newline alone is in the text.
abbrev pub IsPlain : Text → Type 0
IsPlain content = All (λ c. is_line_break c ≡ (c == 10)) content

not_return : (c : ℕ) → (c == 10) ≡ true → (c == 13) ≡ false
not_return c e = subst (λ k. (k == 13) ≡ false) (sym ((eqb_iff c 10).0 e)) refl

splitlines-newlines :
    (content : Text) → IsPlain content → splitlines content ≡ newline_lines content
unfolding splitlines newline_lines
splitlines-newlines [] h = refl
splitlines-newlines (c ∷ cs) (h, hs) = elim (Bool-cases (c == 10)) [
  | inl e ↦ rw (h, e, not_return c e) (ap (λ lines. (c ∷ []) ∷ lines) (splitlines-newlines cs hs))
  | inr e ↦ rw (h, e) (ap (add_char c) (splitlines-newlines cs hs))
]

take_one :
    (k : ℕ) (lines : List Text) (line : Text)
    → get_elem? lines k ≡ some line
    → take 1 (drop k lines) ≡ line ∷ []
take_one k [] line h = cc
take_one zero (x ∷ lines) line h = ap (λ y. y ∷ []) (some-injective _ _ h)
take_one (suc k) (x ∷ lines) line h = take_one k lines line h

within :
    (k : ℕ) (lines : List Text) (line : Text) → get_elem? lines k ≡ some line → k < length lines
within k [] line h = cc
within zero (x ∷ lines) line h = omega arith
within (suc k) (x ∷ lines) line h = omega (arith, within k lines line h)

chunk_of_line :
    (k : ℕ) (lines : List Text) (line : Text)
    → lines ≡ line ∷ []
    → chunk k lines ≡ record { content = line; start_line = some (pos (suc k)); line_count = 1 }
unfolding chunk join
chunk_of_line k lines line e =
    ap (chunk k) e
    ∙ ap (λ (t : Text). record { content = t; start_line = some (pos (suc k)); line_count = 1 })
        (append-nil line)

-- A read of one line by the number that grep and the analysis count it by, by newlines, gives that
-- line. The line is in the file, and of the characters that end a line for splitlines only the
-- newline is in the file.
pub select_requested_range_lem :
    (content : Text)
    → IsPlain content
    → (k : ℕ) (line : Text) → get_elem? (newline_lines content) k ≡ some line
    → select_requested_range (some (pos (suc k))) (some (pos 1)) content
      ≡ ok (record { content = line; start_line = some (pos (suc k)); line_count = 1 })
select_requested_range_lem content plain k line h =
    let here : get_elem? (splitlines content) k ≡ some line =
      ap (λ lines. get_elem? lines k) (splitlines-newlines content plain) ∙ h in
    read_range k 0 content (within k (splitlines content) line here)
    ∙ ap ok (chunk_of_line k (range k 1 content) line (take_one k (splitlines content) line here))
