-- ===== src/Prelude/Sorting.antt =====
-- Python's `sorted` and `set`: a stable insertion sort, and lists without repetitions.
use Prim.Native.String.{String}
use Prim.Native.Nat.{ℕ, ◌+◌}
use mathlib.Core.Path.{◌≡◌, refl}
use mathlib.Core.Logic.{inl, inr}
use mathlib.Core.Bool.{Bool, true, false}
use native.Mathlib.Omega.{arith}
use mcp_log_server.Prelude.Lists.{All, length, total}
use mathlib.Core.List.{List, [], ◌∷◌}
use mcp_log_server.Prelude.Tests.{Bool-cases, ltb, if◌then◌else◌}
use mcp_log_server.Prelude.Equality.{Eq, ◌==◌, contains, nat_eq}
use mcp_log_server.Prelude.Utf8.{Text, codes}

module _ {ℓ} {A : Type ℓ} (before : A → A → Bool) where
  -- The new item stands before those that it is not to follow.
  unfoldable pub place : A → List A → List A
  place x [] = x ∷ []
  place x (y ∷ ys) = let rest = place x ys in if before y x then y ∷ rest else x ∷ y ∷ ys

  -- `before` is strict, so that equal items keep their order.
  unfoldable pub sort : List A → List A
  unfolding place
  sort [] = []
  sort (x ∷ xs) = place x (sort xs)

-- The order of texts by code points.
abbrev pub text_below : Text → Text → Bool
text_below [] [] = false
text_below [] (d ∷ t) = true
text_below (c ∷ s) [] = false
text_below (c ∷ s) (d ∷ t) = if c == d then text_below s t else ltb c d

abbrev pub string_below : String → String → Bool
string_below s t = text_below (codes s) (codes t)

module _ {ℓ} {A : Type ℓ} ⦃e : Eq A⦄ where
  unfoldable pub distinct : List A → List A
  distinct [] = []
  distinct (x ∷ xs) = let rest = distinct xs in if contains xs x then rest else x ∷ rest

module _ {ℓ} {A : Type ℓ} (before : A → A → Bool) (f : A → ℕ) where
  total-place : (x : A) (xs : List A) → total f (place before x xs) ≡ f x + total f xs
  unfolding place
  total-place x [] = refl
  total-place x (y ∷ ys) = ground (arith, total-place x ys)

  -- Sorting keeps the sum, and with it the length.
  pub total-sort : (xs : List A) → total f (sort before xs) ≡ total f xs
  unfolding sort
  total-sort [] = refl
  total-sort (x ∷ xs) = omega (arith, total-place x (sort before xs), total-sort xs)

module _ {ℓ κ} {A : Type ℓ} (before : A → A → Bool) (P : A → Type κ) where
  All-place : (x : A) (xs : List A) → P x → All P xs → All P (place before x xs)
  unfolding place
  All-place x [] p a = (p, tt)
  All-place x (y ∷ ys) p (q, a) = elim (Bool-cases (before y x)) [
    | inl is_so ↦ rw is_so (q, All-place x ys p a)
    | inr is_not ↦ rw is_not (p, (q, a))
  ]

  pub All-sort : (xs : List A) → All P xs → All P (sort before xs)
  unfolding sort
  All-sort [] a = tt
  All-sort (x ∷ xs) (p, a) = All-place x (sort before xs) p (All-sort xs a)

total_ones {ℓ} : {A : Type ℓ} (xs : List A) → total (λ x. 1) xs ≡ length xs
total_ones [] = refl
total_ones (x ∷ xs) = omega (arith, total_ones xs)

pub length-sort {ℓ} :
    {A : Type ℓ} (before : A → A → Bool) (xs : List A) → length (sort before xs) ≡ length xs
length-sort before xs =
    omega (arith, total_ones (sort before xs), total_ones xs, total-sort before (λ x. 1) xs)
