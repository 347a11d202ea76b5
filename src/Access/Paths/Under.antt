-- ===== src/Access/Paths/Under.antt =====
-- A path under a root continues the root's parts.
use mcp_log_server.Prelude.{
  Bool, Bool-cases, List, [], bool_eq, eqb_iff, false, inl, inr, list_eq, list_same_iff, nat_eq,
  option_eq, refl, string_eq, true, ◌&&◌, ◌++◌, ◌==◌, ◌∷◌, ◌≡◌,
}
use mcp_log_server.Prelude.Int.{int_eq}
use mcp_log_server.Prelude.Utf8.{Text}
use mcp_log_server.Access.Paths.{FilePath, is_prefix, is_under}

pub record Continues (root p : FilePath) : Type 0 where
  pub rest : List Text
  pub same_root : root.slashes ≡ p.slashes
  pub continued : p.parts ≡ root.parts ++ rest

prefix_rest : (xs ys : List Text) → is_prefix xs ys ≡ true → (rest : List Text) × (ys ≡ xs ++ rest)
unfolding is_prefix
prefix_rest [] ys h = (ys, refl)
prefix_rest (x ∷ xs) [] h = cc
prefix_rest (x ∷ xs) (y ∷ ys) h =
    let both = and-true (x == y) (is_prefix xs ys) h in
    let (rest, e) = prefix_rest xs ys both.1 in (rest, cc (e, (list_same_iff x y).0 both.0))
  where
    and-true : (a b : Bool) → (a && b) ≡ true → (a ≡ true) × (b ≡ true)
    and-true true b q = (refl, q)
    and-true false b q = cc

pub is_under-Continues : (root p : FilePath) → is_under root p ≡ true → Continues root p
unfolding is_under
is_under-Continues root p h = elim (Bool-cases (root.slashes == p.slashes)) [
  | inl same ↦
      let (rest, e) = prefix_rest root.parts p.parts (rw same at h) in
      record { rest = rest; same_root = (eqb_iff root.slashes p.slashes).0 same; continued = e }
  | inr other ↦ absurd_bool (rw other at h)
]
  where
    absurd_bool : {A : Type 0} → false ≡ true → A
    absurd_bool q = cc
