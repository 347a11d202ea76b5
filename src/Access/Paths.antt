-- ===== src/Access/Paths.antt =====
-- Python's `PurePosixPath`, and `str.split` by one character.
pub mod Under
use mcp_log_server.Prelude.{
  Bool, List, Option, [], bool_eq, contains, drop, false, if◌then◌else◌, length, list_eq, nat_eq,
  none, not, option_eq, select, some, string_eq, suc, true, zero, ℕ, ◌&&◌, ◌++◌, ◌==◌, ◌||◌, ◌∷◌,
}
use mcp_log_server.Prelude.Int.{int_eq}
use mcp_log_server.Prelude.Strings.{starts_with}
use mcp_log_server.Prelude.Utf8.{Text}

add_to_first : ℕ → List Text → List Text
add_to_first c [] = (c ∷ []) ∷ []
add_to_first c (part ∷ parts) = (c ∷ part) ∷ parts

-- `s.split(sep)`
unfoldable pub split_on : ℕ → Text → List Text
unfolding add_to_first
split_on sep [] = [] ∷ []
split_on sep (c ∷ t) =
    let rest = split_on sep t in if c == sep then [] ∷ rest else add_to_first c rest

-- `slashes` is the root: none, one slash, or the two that POSIX keeps apart.
pub record FilePath : Type 0 where
  pub slashes : ℕ
  pub parts : List Text

unfoldable pub slashes_of : Text → ℕ
slashes_of t =
    if not (starts_with t (47 ∷ []))
    then 0
    else if starts_with t (47 ∷ 47 ∷ []) && not (starts_with t (47 ∷ 47 ∷ 47 ∷ []))
    then 2
    else 1

is_part : Text → Bool
is_part part = not (part == [] || part == 46 ∷ [])

-- `Path(text)`
unfoldable pub path_of : Text → FilePath
unfolding is_part slashes_of split_on
path_of t = record { slashes = slashes_of t; parts = select is_part (split_on 47 t) }

unfoldable pub is_absolute : FilePath → Bool
is_absolute p = not (p.slashes == 0)

-- `p / q`
unfoldable pub join_path : FilePath → FilePath → FilePath
unfolding is_absolute
join_path p q = if is_absolute q then q else record p { parts = p.parts ++ q.parts }

unfoldable pub drop_end : List Text → List Text
drop_end [] = []
drop_end (x ∷ []) = []
drop_end (x ∷ y ∷ xs) = x ∷ drop_end (y ∷ xs)

-- `p.parent`
unfoldable pub parent : FilePath → FilePath
unfolding drop_end
parent p = record p { parts = drop_end p.parts }

-- `p.absolute()`, in a working directory.
unfoldable pub absolute : FilePath → FilePath → FilePath
unfolding is_absolute join_path
absolute cwd p = if is_absolute p then p else join_path cwd p

unfoldable pub is_prefix : List Text → List Text → Bool
is_prefix [] ys = true
is_prefix (x ∷ xs) [] = false
is_prefix (x ∷ xs) (y ∷ ys) = x == y && is_prefix xs ys

-- Whether `p.relative_to(root)` succeeds; it does for equal paths.
unfoldable pub is_under : FilePath → FilePath → Bool
unfolding is_prefix
is_under root p = root.slashes == p.slashes && is_prefix root.parts p.parts

-- `p.relative_to(root)`; none where ValueError is raised.
unfoldable pub relative_to : FilePath → FilePath → Option FilePath
relative_to root p =
    if is_under root p
    then some (record { slashes = 0; parts = drop (length root.parts) p.parts })
    else none

-- `".." in p.parts`
unfoldable pub goes_up : FilePath → Bool
goes_up p = contains p.parts (46 ∷ 46 ∷ [])

last_part : Text → List Text → Text
last_part name [] = name
last_part name (part ∷ parts) = last_part part parts

-- `p.name`
unfoldable pub name_of : FilePath → Text
unfolding last_part
name_of p = last_part [] p.parts

slash_before : List Text → Text
slash_before [] = []
slash_before (part ∷ parts) = 47 ∷ (part ++ slash_before parts)

join_parts : List Text → Text
unfolding slash_before
join_parts [] = []
join_parts (part ∷ parts) = part ++ slash_before parts

slash_text : ℕ → Text
slash_text zero = []
slash_text (suc n) = 47 ∷ slash_text n

-- `p.as_posix()`
unfoldable pub as_posix : FilePath → Text
unfolding slash_text join_parts
as_posix p =
    let text = slash_text p.slashes ++ join_parts p.parts in if text == [] then 46 ∷ [] else text
