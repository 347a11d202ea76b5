-- ===== src/Access/Projects/Authorized.antt =====
-- What the authorization of a list of projects returns.
use mcp_log_server.Prelude.{
  All, Bool, Bool-cases, List, [], ap, arith, beq_ne, bool_eq, contains, false, inl, inr, list_eq,
  list_same_iff, map, nat_eq, option_eq, refl, some, string_eq, true, ◌++◌, ◌==◌, ◌||◌, ◌∙◌, ◌∷◌,
  ◌≡◌, ◌≢◌, ◌⊎◌,
}
use mcp_log_server.Prelude.Int.{int_eq}
use mcp_log_server.Prelude.Result.{err, ok}
use mcp_log_server.Prelude.Strings.{strip}
use mcp_log_server.Prelude.Utf8.{Text}
use mcp_log_server.Access.Projects.{
  AccessError, add_name, authorize_names, authorize_projects, normalize_requested_project_name,
  project_names_empty, project_not_allowed,
}

abbrev Distinct : List Text → Type 0
Distinct [] = Unit
Distinct (x ∷ xs) = (contains xs x ≡ false) × Distinct xs

contains-snoc :
    (xs : List Text) (y x : Text) → contains (xs ++ y ∷ []) x ≡ (contains xs x || x == y)
contains-snoc [] y x = ground arith
contains-snoc (z ∷ xs) y x = ground (arith, contains-snoc xs y x)

Distinct-snoc :
    (xs : List Text) (y : Text) → Distinct xs → contains xs y ≡ false → Distinct (xs ++ y ∷ [])
Distinct-snoc [] y d h = (refl, tt)
Distinct-snoc (x ∷ xs) y (fresh, d) h =
    ground (arith, list_same_iff x y, list_same_iff y x, contains-snoc xs y x, Distinct-snoc xs y d)

add_name-Distinct :
    (names : List Text) (name : Text) → Distinct names → Distinct (add_name names name)
unfolding add_name
add_name-Distinct names name d = elim (Bool-cases (contains names name)) [
  | inl old ↦ rw old d
  | inr new ↦ rw new (Distinct-snoc names name d new)
]

contains-add_name :
    (names : List Text) (name x : Text)
    → contains (add_name names name) x ≡ (contains names x || x == name)
unfolding add_name
contains-add_name names name x = elim (Bool-cases (contains names name)) [
  | inl old ↦ rw old (ground (arith, list_same_iff x name))
  | inr new ↦ rw new (contains-snoc names name x)
]

abbrev pub IsPermitted : List Text → Text → Type 0
IsPermitted allowed raw = (strip raw ≢ []) × (contains allowed (strip raw) ≡ true)

-- The names are those asked for, stripped and without repetition, and all of them are allowed.
pub record IsAuthorized (allowed raws names : List Text) : Type 0 where
  permitted : All (IsPermitted allowed) raws
  distinct : Distinct names
  exact : (x : Text) → contains names x ≡ contains (map strip raws) x

-- What the loop adds to the names that it has seen.
record IsGranted (allowed seen raws names : List Text) : Type 0 where
  permitted : All (IsPermitted allowed) raws
  distinct : Distinct names
  exact : (x : Text) → contains names x ≡ (contains seen x || contains (map strip raws) x)

abbrev Granted : List Text → List Text → List Text → Type 0
Granted allowed seen raws =
    (names : List Text) × (authorize_names allowed seen raws ≡ ok names)
    × IsGranted allowed seen raws names

abbrev Refused : List Text → List Text → List Text → Type 0
Refused allowed seen raws =
    (e : AccessError) × (authorize_names allowed seen raws ≡ err e)
    × ¬ All (IsPermitted allowed) raws

or_assoc : (a b c : Bool) → ((a || b) || c) ≡ (a || (b || c))
or_assoc true b c = refl
or_assoc false b c = refl

or_false : (a : Bool) → a ≡ (a || false)
or_false true = refl
or_false false = refl

-- A name that is permitted is added, and the loop goes on.
authorize_names-step :
    (allowed seen : List Text) (raw : Text) (raws : List Text)
    → IsPermitted allowed raw
    → authorize_names allowed seen (raw ∷ raws)
      ≡ authorize_names allowed (add_name seen (strip raw)) raws
unfolding authorize_names normalize_requested_project_name
authorize_names-step allowed seen raw raws (full, permitted) =
    rw (beq_ne (strip raw) [] full, permitted)

refuse_empty :
    (allowed seen : List Text) (raw : Text) (raws : List Text)
    → (strip raw == []) ≡ true
    → Refused allowed seen (raw ∷ raws)
unfolding authorize_names normalize_requested_project_name
refuse_empty allowed seen raw raws h =
    (project_names_empty, rw h, λ all. all.0.0 ((list_same_iff (strip raw) []).0 h))

refuse_other :
    (allowed seen : List Text) (raw : Text) (raws : List Text)
    → (strip raw == []) ≡ false
    → contains allowed (strip raw) ≡ false
    → Refused allowed seen (raw ∷ raws)
unfolding authorize_names normalize_requested_project_name
refuse_other allowed seen raw raws full h = (project_not_allowed, rw (full, h), λ all. cc (all.0.1))

authorize_names-outcome :
    (allowed seen raws : List Text)
    → Distinct seen
    → Granted allowed seen raws ⊎ Refused allowed seen raws
unfolding authorize_names
authorize_names-outcome allowed seen [] d =
    inl
      (seen, refl, record { permitted = tt; distinct = d; exact = λ x. or_false (contains seen x) })
authorize_names-outcome allowed seen (raw ∷ raws) d = elim (Bool-cases (strip raw == [])) [
  | inl empty ↦ inr (refuse_empty allowed seen raw raws empty)
  | inr full ↦ elim (Bool-cases (contains allowed (strip raw))) [
    | inr other ↦ inr (refuse_other allowed seen raw raws full other)
    | inl permitted ↦
        let here : IsPermitted allowed raw =
          ((λ p. cc (full, (list_same_iff (strip raw) []).1 p)), permitted) in
        let step = authorize_names-step allowed seen raw raws here in
        elim (authorize_names-outcome allowed (add_name seen (strip raw)) raws
          (add_name-Distinct seen (strip raw) d)) [
            | inl (names, e, g) ↦ inl (
              names,
              step ∙ e,
              record {
                permitted = (here, g.permitted);
                distinct = g.distinct;
                exact = λ x.
                    g.exact x
                    ∙ ap (λ b. b || contains (map strip raws) x)
                        (contains-add_name seen (strip raw) x)
                    ∙ or_assoc (contains seen x) (x == strip raw) (contains (map strip raws) x);
              },
            )
            | inr (e, refused, not_all) ↦ inr (e, step ∙ refused, λ all. not_all all.1)
          ]
  ]
]

-- A list of project names that is not empty is authorized whole or refused whole. If it is
-- authorized, every name is allowed and not blank, and the result holds exactly the stripped
-- names, each once; if it is refused, some name is blank or not allowed.
pub authorize_projects-IsAuthorized :
    (allowed : List Text) (raw : Text) (raws : List Text)
    → ((names : List Text) × (authorize_projects allowed (some (raw ∷ raws)) ≡ ok names)
        × IsAuthorized allowed (raw ∷ raws) names)
      ⊎ ((e : AccessError) × (authorize_projects allowed (some (raw ∷ raws)) ≡ err e)
          × ¬ All (IsPermitted allowed) (raw ∷ raws))
unfolding authorize_projects
authorize_projects-IsAuthorized allowed raw raws =
    elim (authorize_names-outcome allowed [] (raw ∷ raws) tt) [
      | inl (names, e, g) ↦
          inl (names, e, record { permitted = g.permitted; distinct = g.distinct; exact = g.exact })
      | inr refused ↦ inr refused
    ]
