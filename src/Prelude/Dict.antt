-- ===== src/Prelude/Dict.antt =====
-- Python dicts as association lists in insertion order: an update keeps a key's place.
use mathlib.Core.Bool.{true, false}
use mathlib.Core.Path.{◌≡◌, refl, subst, sym, ◌∙◌}
use mathlib.Core.Logic.{◌≢◌, ◌⊎◌, inl, inr}
use mathlib.Core.Option.{Option, none, some, some-injective}
use mathlib.Core.List.{List, [], ◌∷◌}
use native.Mathlib.Omega.{arith}
use Prim.Native.Nat.{ℕ, ◌+◌, suc}
use mcp_log_server.Prelude.Tests.{Bool-cases, if◌then◌else◌}
use mcp_log_server.Prelude.Equality.{Eq, ◌==◌, contains}
use mcp_log_server.Prelude.Lists.{length}

abbrev pub Dict {ℓ κ} : Type ℓ → Type κ → Type (ℓ ⊔ κ)
Dict K V = List (K × V)

module _ {ℓ κ} {K : Type ℓ} {V : Type κ} where
  unfoldable pub keys : Dict K V → List K
  keys [] = []
  keys ((k, v) ∷ d) = k ∷ keys d

  unfoldable pub values : Dict K V → List V
  values [] = []
  values ((k, v) ∷ d) = v ∷ values d

module _ {ℓ κ} {K : Type ℓ} {V : Type κ} ⦃e : Eq K⦄ where
  -- `d.get(k)`
  unfoldable pub lookup : K → Dict K V → Option V
  lookup k [] = none
  lookup k ((j, v) ∷ d) = if j == k then some v else lookup k d

  -- `d[k] = v`
  unfoldable pub insert : K → V → Dict K V → Dict K V
  insert k v [] = (k, v) ∷ []
  insert k v ((j, w) ∷ d) = let rest = insert k v d in if j == k then (j, v) ∷ d else (j, w) ∷ rest

  -- `d.pop(k, None)`
  unfoldable pub erase : K → Dict K V → Dict K V
  erase k [] = []
  erase k ((j, v) ∷ d) = let rest = erase k d in if j == k then rest else (j, v) ∷ rest

  abbrev pub NodupKeys : Dict K V → Type κ
  NodupKeys [] = Unit
  NodupKeys ((k, _) ∷ d) = (lookup k d ≡ none) × NodupKeys d

  pub lookup-insert :
      (j k : K) (v : V) (d : Dict K V)
      → lookup j (insert k v d) ≡ (if k == j then some v else lookup j d)
  unfolding lookup insert
  lookup-insert j k v [] = refl
  lookup-insert j k v ((i, w) ∷ d) =
      ground (arith, e.same_iff i k, e.same_iff i j, e.same_iff k j, lookup-insert j k v d)

  pub lookup-erase :
      (j k : K) (d : Dict K V) → lookup j (erase k d) ≡ (if k == j then none else lookup j d)
  unfolding lookup erase
  lookup-erase j k [] = ground arith
  lookup-erase j k ((i, w) ∷ d) =
      ground (arith, e.same_iff i k, e.same_iff i j, e.same_iff k j, lookup-erase j k d)

  pub insert-NodupKeys : (k : K) (v : V) (d : Dict K V) → NodupKeys d → NodupKeys (insert k v d)
  unfolding lookup insert
  insert-NodupKeys k v [] n = (refl, tt)
  insert-NodupKeys k v ((j, w) ∷ d) (fresh, n) =
      ground
        (arith, e.same_iff j k, e.same_iff k j, insert-NodupKeys k v d n, lookup-insert j k v d)

  pub erase-NodupKeys : (k : K) (d : Dict K V) → NodupKeys d → NodupKeys (erase k d)
  unfolding lookup erase
  erase-NodupKeys k [] n = tt
  erase-NodupKeys k ((j, w) ∷ d) (fresh, n) =
      ground (arith, erase-NodupKeys k d n, lookup-erase j k d)

  pub length-insert_new :
      (k : K) (v : V) (d : Dict K V) → lookup k d ≡ none → length (insert k v d) ≡ suc (length d)
  unfolding lookup insert
  length-insert_new k v [] h = refl
  length-insert_new k v ((j, w) ∷ d) h = ground (arith, length-insert_new k v d)

  pub length-insert_old :
      (k : K) (v w : V) (d : Dict K V) → lookup k d ≡ some w → length (insert k v d) ≡ length d
  unfolding lookup insert
  length-insert_old k v w [] h = cc
  length-insert_old k v w ((j, u) ∷ d) h = ground (arith, length-insert_old k v w d)

  pub length-erase_old :
      (k : K) (w : V) (d : Dict K V)
      → NodupKeys d
      → lookup k d ≡ some w
      → suc (length (erase k d)) ≡ length d
  unfolding lookup erase
  length-erase_old k w [] n h = cc
  length-erase_old k w ((j, u) ∷ d) (fresh, n) h =
      ground (arith, e.same_iff j k, length-erase_old k w d n, erase_absent k d)
    where
      erase_absent : (i : K) (c : Dict K V) → lookup i c ≡ none → erase i c ≡ c
      erase_absent i [] q = refl
      erase_absent i ((a, b) ∷ c) q = ground (arith, erase_absent i c)

  -- Sums over the values of a dict, and what holds of all of them.
  module _ (f : V → ℕ) where
    abbrev pub total_values : Dict K V → ℕ
    total_values [] = 0
    total_values ((k, v) ∷ d) = f v + total_values d

    pub total_values-insert_new :
        (k : K) (v : V) (d : Dict K V)
        → lookup k d ≡ none
        → total_values (insert k v d) ≡ total_values d + f v
    unfolding lookup insert
    total_values-insert_new k v [] h = omega arith
    total_values-insert_new k v ((j, w) ∷ d) h = ground (arith, total_values-insert_new k v d)

    pub total_values-insert_old :
        (k : K) (v w : V) (d : Dict K V)
        → lookup k d ≡ some w
        → total_values (insert k v d) + f w ≡ total_values d + f v
    unfolding lookup insert
    total_values-insert_old k v w [] h = cc
    total_values-insert_old k v w ((j, u) ∷ d) h = ground (arith, total_values-insert_old k v w d)

    pub total_values-erase :
        (k : K) (w : V) (d : Dict K V)
        → NodupKeys d
        → lookup k d ≡ some w
        → total_values (erase k d) + f w ≡ total_values d
    unfolding lookup erase
    total_values-erase k w [] n h = cc
    total_values-erase k w ((j, u) ∷ d) (fresh, n) h =
        ground (arith, e.same_iff j k, total_values-erase k w d n, total_values-erase_absent k d)
      where
        total_values-erase_absent :
            (i : K) (c : Dict K V) → lookup i c ≡ none → total_values (erase i c) ≡ total_values c
        total_values-erase_absent i [] q = refl
        total_values-erase_absent i ((a, b) ∷ c) q = ground (arith, total_values-erase_absent i c)

  abbrev pub AllValues : (V → Type κ) → Dict K V → Type κ
  AllValues P [] = Unit
  AllValues P ((k, v) ∷ d) = P v × AllValues P d

  pub AllValues-insert :
      (P : V → Type κ) (k : K) (v : V) (d : Dict K V)
      → P v
      → AllValues P d
      → AllValues P (insert k v d)
  unfolding insert
  AllValues-insert P k v [] p a = (p, tt)
  AllValues-insert P k v ((j, w) ∷ d) p (q, a) = elim (Bool-cases (j == k)) [
    | inl is_so ↦ rw is_so (p, a)
    | inr is_not ↦ rw is_not (q, AllValues-insert P k v d p a)
  ]

  pub AllValues-erase :
      (P : V → Type κ) (k : K) (d : Dict K V) → AllValues P d → AllValues P (erase k d)
  unfolding erase
  AllValues-erase P k [] a = tt
  AllValues-erase P k ((j, w) ∷ d) (q, a) = elim (Bool-cases (j == k)) [
    | inl is_so ↦ rw is_so (AllValues-erase P k d a)
    | inr is_not ↦ rw is_not (q, AllValues-erase P k d a)
  ]

  pub AllValues-lookup :
      (P : V → Type κ) (k : K) (v : V) (d : Dict K V) → AllValues P d → lookup k d ≡ some v → P v
  unfolding lookup
  AllValues-lookup P k v [] a h = cc
  AllValues-lookup P k v ((j, w) ∷ d) (q, a) h = elim (Bool-cases (j == k)) [
    | inl is_so ↦ subst P (some-injective _ _ (rw is_so at h)) q
    | inr is_not ↦ AllValues-lookup P k v d a (rw is_not at h)
  ]

  -- What an entry of a dict that was written to is, and what no entry is.
  pub lookup-insert-some :
      (j k : K) (v w : V) (d : Dict K V)
      → lookup j (insert k v d) ≡ some w
      → ((k ≡ j) × (v ≡ w)) ⊎ ((k ≢ j) × (lookup j d ≡ some w))
  lookup-insert-some j k v w d h = elim (Bool-cases (k == j)) [
    | inl is_so ↦ inl (
      (e.same_iff k j).0 is_so,
      some-injective _ _ (rw is_so at (sym (lookup-insert j k v d) ∙ h)),
    )
    | inr is_not ↦ inr (same_false k j is_not, rw is_not at (sym (lookup-insert j k v d) ∙ h))
  ]
    where
      same_false : (a b : K) → (a == b) ≡ false → a ≢ b
      same_false a b q p = ground (arith, e.same_iff a b)

  pub lookup-insert-none :
      (j k : K) (v : V) (d : Dict K V)
      → lookup j (insert k v d) ≡ none
      → (k ≢ j) × (lookup j d ≡ none)
  lookup-insert-none j k v d h = ground (arith, e.same_iff k j, lookup-insert j k v d)

  -- A new entry in front hides none of the others.
  pub lookup_extend :
      (m k : K) (v w : V) (d : Dict K V)
      → lookup k d ≡ none
      → lookup m d ≡ some w
      → lookup m ((k, v) ∷ d) ≡ some w
  unfolding lookup
  lookup_extend m k v w d fresh h = ground (arith, e.same_iff k m)

  pub lookup_second :
      (m k j : K) (u v w : V) (d : Dict K V)
      → lookup j d ≡ none
      → lookup m ((k, u) ∷ d) ≡ some w
      → lookup m ((k, u) ∷ (j, v) ∷ d) ≡ some w
  unfolding lookup
  lookup_second m k j u v w d fresh h = ground (arith, e.same_iff j m)

  pub lookup_rest :
      (k j : K) (v : V) (d : Dict K V) → lookup k ((j, v) ∷ d) ≡ none → lookup k d ≡ none
  unfolding lookup
  lookup_rest k j v d h = ground arith

  pub lookup-erase-some :
      (j k : K) (w : V) (d : Dict K V) → lookup j (erase k d) ≡ some w → lookup j d ≡ some w
  lookup-erase-some j k w d h = ground (arith, lookup-erase j k d)

  pub lookup-erase-none :
      (j k : K) (d : Dict K V) → lookup j (erase k d) ≡ none → (k ≡ j) ⊎ (lookup j d ≡ none)
  lookup-erase-none j k d h = ground (arith, e.same_iff k j, lookup-erase j k d)

  pub contains-keys :
      (k : K) (v : V) (d : Dict K V) → lookup k d ≡ some v → contains (keys d) k ≡ true
  unfolding lookup keys
  contains-keys k v [] h = cc
  contains-keys k v ((j, w) ∷ d) h =
      ground (arith, e.same_iff j k, e.same_iff k j, contains-keys k v d)
