-- ===== src/Prelude/Matcher.antt =====
-- Python's `re` as matchers with a continuation: alternatives, options and lookaheads backtrack in
-- the order of the source. `Prelude.Regex` has plain sequences only.
use Prim.Native.Nat.{ℕ, zero, suc, ◌-◌}
use mathlib.Core.Bool.{Bool, true, false, ◌&&◌, ◌||◌}
use mathlib.Core.List.{[], ◌∷◌, ◌++◌}
use mathlib.Core.Option.{Option, none, some}
use mcp_log_server.Prelude.Tests.{leb, if◌then◌else◌}
use mcp_log_server.Prelude.Equality.{◌==◌, nat_eq, bool_eq}
use mcp_log_server.Prelude.Lists.{length, take}
use mcp_log_server.Prelude.Utf8.{Text}
use mcp_log_server.Prelude.Strings.{reverse_onto}

-- What a match knows: the character before it, and the two groups, reversed.
pub record Seen : Type 0 where
  pub previous : Option ℕ
  pub inside : Bool
  pub group : Text
  pub inside_other : Bool
  pub other : Text

-- The groups, the last character read, and what is left.
pub record End : Type 0 where
  pub group : Text
  pub other : Text
  pub last : Option ℕ
  pub rest : Text

abbrev pub Next : Type 0
Next = Seen → Text → Option End

abbrev pub Matcher : Type 0
Matcher = Next → Seen → Text → Option End

see : ℕ → Seen → Seen
see c seen = record seen {
  previous = some c;
  group = if seen.inside then c ∷ seen.group else seen.group;
  other = if seen.inside_other then c ∷ seen.other else seen.other;
}

or_else : Option End → Option End → Option End
or_else none other = other
or_else (some e) other = some e

unfoldable pub one : (ℕ → Bool) → Matcher
unfolding see
one p next seen [] = none
one p next seen (c ∷ t) = if p c then next (see c seen) t else none

unfoldable pub star : (ℕ → Bool) → Matcher
unfolding see or_else
star p next seen [] = next seen []
star p next seen (c ∷ t) =
    let more = star p next (see c seen) t in
    let stop = next seen (c ∷ t) in if p c then or_else more stop else stop

unfoldable pub nothing : Matcher
nothing next seen t = next seen t

infixr 6 ◌then_match◌
abbrev pub ◌then_match◌ : Matcher → Matcher → Matcher
◌then_match◌ m n next seen t = m (n next) seen t

unfoldable pub plus : (ℕ → Bool) → Matcher
unfolding one star
plus p = one p then_match star p

unfoldable pub times : ℕ → (ℕ → Bool) → Matcher
unfolding one nothing
times zero p = nothing
times (suc n) p = one p then_match times n p

unfoldable pub either : Matcher → Matcher → Matcher
unfolding or_else
either m n next seen t = or_else (m next seen t) (n next seen t)

unfoldable pub maybe : Matcher → Matcher
unfolding either nothing
maybe m = either m nothing

finish : Next
unfolding reverse_onto
finish seen t = some (record {
  group = reverse_onto seen.group [];
  other = reverse_onto seen.other [];
  last = seen.previous;
  rest = t;
})

unfoldable pub ahead : Matcher → Matcher
unfolding finish
ahead m next seen t = elim (m finish seen t) [ none ↦ none | some e ↦ next seen t ]

unfoldable pub grouped : Matcher → Matcher
grouped m next seen t =
    m (λ s u. next (record s { inside = false }) u) (record seen { inside = true }) t

unfoldable pub other_grouped : Matcher → Matcher
other_grouped m next seen t =
    m (λ s u. next (record s { inside_other = false }) u) (record seen { inside_other = true }) t

word_at : (ℕ → Bool) → Option ℕ → Bool
word_at p none = false
word_at p (some c) = p c

head_of : Text → Option ℕ
head_of [] = none
head_of (c ∷ t) = some c

-- `\b`, for the words of a test.
unfoldable pub boundary : (ℕ → Bool) → Matcher
unfolding word_at head_of
boundary p next seen t =
    if word_at p seen.previous == word_at p (head_of t) then none else next seen t

at_line_end : Text → Bool
at_line_end [] = true
at_line_end (c ∷ []) = c == 10
at_line_end (c ∷ d ∷ t) = false

-- `$` also matches before a newline at the end.
unfoldable pub line_end : Matcher
unfolding at_line_end
line_end next seen t = if at_line_end t then next seen t else none

unfoldable pub literal : Text → Matcher
unfolding one nothing
literal [] = nothing
literal (c ∷ t) = one (λ d. d == c) then_match literal t

-- A reference back to the second group.
unfoldable pub again_other : Matcher
unfolding literal
again_other next seen t = literal (reverse_onto seen.other []) next seen t

-- A lower-case letter as `re.IGNORECASE` reads it, with the two foreign letters that are the same.
abbrev pub any_case : ℕ → ℕ → Bool
any_case c d =
    d == c
    || (leb 97 c && leb c 122 && d == c - 32)
    || (c == 105 && (d == 0x130 || d == 0x131))
    || (c == 115 && d == 0x17f)

unfoldable pub literal_any_case : Text → Matcher
unfolding one nothing
literal_any_case [] = nothing
literal_any_case (c ∷ t) = one (any_case c) then_match literal_any_case t

start_after : Option ℕ → Seen
start_after previous = record {
  previous = previous;
  inside = false;
  group = [];
  inside_other = false;
  other = [];
}

-- `pattern.match(s)`, after a character.
unfoldable pub match_after : Matcher → Option ℕ → Text → Option End
unfolding finish start_after
match_after m previous t = m finish (start_after previous) t

search_from : Matcher → Option ℕ → Text → Option End
unfolding match_after or_else
search_from m previous [] = match_after m previous []
search_from m previous (c ∷ t) =
    let later = search_from m (some c) t in or_else (match_after m previous (c ∷ t)) later

-- `pattern.search(s)`
unfoldable pub search_match : Matcher → Text → Option End
unfolding search_from
search_match m t = search_from m none t

-- `pattern.sub(replace, s)`, for a pattern that matches no empty text. `replace` gets the text
-- before the match, reversed, and the match; the counter skips what a match has read.
sub_from : Matcher → (Text → Text → Text) → ℕ → Text → Option ℕ → Text → Text
unfolding match_after
sub_from m replace skip before previous [] = []
sub_from m replace (suc skip) before previous (c ∷ t) =
    sub_from m replace skip (c ∷ before) (some c) t
sub_from m replace zero before previous (c ∷ t) = elim (match_after m previous (c ∷ t)) [
  | none ↦ c ∷ sub_from m replace zero (c ∷ before) (some c) t
  | some e ↦
      let size = length (c ∷ t) - length e.rest in
      replace before (take size (c ∷ t)) ++ sub_from m replace (size - 1) (c ∷ before) (some c) t
]

unfoldable pub substitute : Matcher → (Text → Text → Text) → Text → Text
unfolding sub_from
substitute m replace t = sub_from m replace zero [] none t
