-- ===== src/Prelude/Strings.antt =====
-- Methods of Python's str, on lists of code points.
use Prim.Native.Nat.{ℕ}
use Prim.Native.String.{String}
use mathlib.Core.Bool.{Bool, true, false, ◌&&◌, ◌||◌}
use mathlib.Core.List.{List, [], ◌∷◌}
use mcp_log_server.Prelude.Tests.{leb, if◌then◌else◌}
use mcp_log_server.Prelude.Equality.{◌==◌, nat_eq, list_eq}
use mcp_log_server.Prelude.Utf8.{Text, codes}

within : ℕ → ℕ → ℕ → Bool
within low high c = leb low c && leb c high

-- The code points for which `str.isspace` holds, which are those of `\s`.
unfoldable pub is_space : ℕ → Bool
unfolding within
is_space c =
    within 9 13 c
    || within 28 32 c
    || c == 0x85
    || c == 0xa0
    || c == 0x1680
    || within 0x2000 0x200a c
    || c == 0x2028
    || c == 0x2029
    || c == 0x202f
    || c == 0x205f
    || c == 0x3000

unfoldable pub reverse_onto : Text → Text → Text
reverse_onto [] t = t
reverse_onto (c ∷ s) t = reverse_onto s (c ∷ t)

add_word : Text → List Text → List Text
add_word [] words = words
add_word (c ∷ word) words = reverse_onto word (c ∷ []) ∷ words

words_from : Text → Text → List Text
unfolding add_word reverse_onto
words_from word [] = add_word word []
words_from word (c ∷ t) =
    let next = words_from [] t in
    let same_word = words_from (c ∷ word) t in if is_space c then add_word word next else same_word

-- `s.split()`
unfoldable pub split_words : Text → List Text
unfolding words_from
split_words t = words_from [] t

-- `s.startswith(prefix)`
unfoldable pub starts_with : Text → Text → Bool
starts_with t [] = true
starts_with [] (p ∷ prefix) = false
starts_with (c ∷ t) (p ∷ prefix) = c == p && starts_with t prefix

-- `s.endswith(suffix)`
unfoldable pub ends_with : Text → Text → Bool
ends_with [] suffix = [] == suffix
ends_with (c ∷ t) suffix = (c ∷ t) == suffix || ends_with t suffix

-- `part in s`
unfoldable pub includes : Text → Text → Bool
unfolding starts_with
includes [] part = starts_with [] part
includes (c ∷ t) part = starts_with (c ∷ t) part || includes t part

-- `s.split(sep, 1)[0]`, for a separator of one character.
unfoldable pub before : ℕ → Text → Text
before sep [] = []
before sep (c ∷ t) = let rest = before sep t in if c == sep then [] else c ∷ rest

-- `s.rstrip` of the characters that the test selects.
unfoldable pub strip_end : (ℕ → Bool) → Text → Text
strip_end p [] = []
strip_end p (c ∷ t) = drop_last p c (strip_end p t)
  where
    drop_last : (ℕ → Bool) → ℕ → Text → Text
    drop_last p c [] = if p c then [] else c ∷ []
    drop_last p c (d ∷ t) = c ∷ d ∷ t

-- `s.lstrip()`
unfoldable pub strip_start : (ℕ → Bool) → Text → Text
strip_start p [] = []
strip_start p (c ∷ t) = let rest = strip_start p t in if p c then rest else c ∷ t

-- `s.strip()`
unfoldable pub strip : Text → Text
unfolding strip_end strip_start
strip t = strip_end is_space (strip_start is_space t)

-- Membership of a text in a collection of names.
abbrev pub among : List String → Text → Bool
among [] t = false
among (name ∷ names) t = t == codes name || among names t
