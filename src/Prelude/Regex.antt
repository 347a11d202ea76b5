-- ===== src/Prelude/Regex.antt =====
-- Python's `re` for the patterns of the program: a sequence of character classes, repeated or not,
-- with one group. Repetitions are greedy and the match backtracks.
use Prim.Native.Nat.{ℕ}
use mathlib.Core.Bool.{Bool, true, false}
use mathlib.Core.List.{List, [], ◌∷◌}
use mathlib.Core.Option.{Option, none, some}
use mcp_log_server.Prelude.Tests.{if◌then◌else◌}
use mcp_log_server.Prelude.Equality.{◌==◌, nat_eq, bool_eq}
use mcp_log_server.Prelude.Utf8.{Text}
use mcp_log_server.Prelude.Strings.{reverse_onto}

-- `group_start` and `group_end` are the ends of the group; `boundary` is `\b` for the words of its test.
pub data Item : Type 0 where
  one : (ℕ → Bool) → Item
  plus : (ℕ → Bool) → Item
  star : (ℕ → Bool) → Item
  group_start : Item
  group_end : Item
  boundary : (ℕ → Bool) → Item
  line_end : Item

-- What a match knows: the character before it, and the group, reversed.
record Seen : Type 0 where
  previous : Option ℕ
  inside : Bool
  group : Text

see : ℕ → Seen → Seen
see c seen = record seen {
  previous = some c;
  group = if seen.inside then c ∷ seen.group else seen.group;
}

or_else : Option Text → Option Text → Option Text
or_else none other = other
or_else (some t) other = some t

repeat : (ℕ → Bool) → (Seen → Text → Option Text) → Seen → Text → Option Text
unfolding see or_else
repeat p rest seen [] = rest seen []
repeat p rest seen (c ∷ t) =
    let more = repeat p rest (see c seen) t in
    let stop = rest seen (c ∷ t) in if p c then or_else more stop else stop

first : (ℕ → Bool) → (Seen → Text → Option Text) → Seen → Text → Option Text
unfolding see
first p rest seen [] = none
first p rest seen (c ∷ t) = if p c then rest (see c seen) t else none

word_at : (ℕ → Bool) → Option ℕ → Bool
word_at p none = false
word_at p (some c) = p c

head_of : Text → Option ℕ
head_of [] = none
head_of (c ∷ t) = some c

-- `$` also matches before a newline at the end.
at_line_end : Text → Bool
at_line_end [] = true
at_line_end (c ∷ []) = c == 10
at_line_end (c ∷ d ∷ t) = false

match_items : List Item → Seen → Text → Option Text
unfolding repeat first word_at head_of at_line_end
match_items [] seen t = some (reverse_onto seen.group [])
match_items (one p ∷ items) seen t = first p (match_items items) seen t
match_items (plus p ∷ items) seen t = first p (repeat p (match_items items)) seen t
match_items (star p ∷ items) seen t = repeat p (match_items items) seen t
match_items (group_start ∷ items) seen t = match_items items (record seen { inside = true }) t
match_items (group_end ∷ items) seen t = match_items items (record seen { inside = false }) t
match_items (boundary p ∷ items) seen t =
    let rest = match_items items seen t in
    if word_at p seen.previous == word_at p (head_of t) then none else rest
match_items (line_end ∷ items) seen t =
    let rest = match_items items seen t in if at_line_end t then rest else none

abbrev start_after : Option ℕ → Seen
start_after previous = record { previous = previous; inside = false; group = [] }

-- `pattern.match(s)`: the group, where the pattern matches at the start.
unfoldable pub match_start : List Item → Text → Option Text
unfolding match_items
match_start items t = match_items items (start_after none) t

search_from : List Item → Option ℕ → Text → Option Text
unfolding match_items or_else
search_from items previous [] = match_items items (start_after previous) []
search_from items previous (c ∷ t) =
    let later = search_from items (some c) t in
    or_else (match_items items (start_after previous) (c ∷ t)) later

-- `pattern.search(s)`
unfoldable pub search_first : List Item → Text → Option Text
unfolding search_from
search_first items t = search_from items none t
