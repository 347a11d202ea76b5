-- ===== src/Access/Manifests/Clean.antt =====
-- What the validators guarantee of the paths that they accept.
use mcp_log_server.Prelude.{
  All, Bool, Bool-cases, List, Option, [], ap, arith, beq_ne, bool_eq, contains, false, inl, inr,
  list_eq, list_same_iff, nat_eq, none, option_eq, refl, select, some, string_eq, subst, sym, true,
  ◌==◌, ◌∙◌, ◌∷◌, ◌≡◌, ◌≢◌,
}
use mcp_log_server.Prelude.Int.{int_eq}
use mcp_log_server.Prelude.Result.{>>=-ok, err-ne-ok, ok, ok_inj, ◌>>=◌}
use mcp_log_server.Prelude.Strings.{starts_with}
use mcp_log_server.Prelude.Utf8.{Text}
use mcp_log_server.Access.Manifests.{
  SourceDefinition, checked_selectors, checked_target, exists, file, is_some, is_unclean,
  is_unclean_part, no_selectors, normalized, rest_of, validate_source_shape,
}
use mcp_log_server.Access.Paths.{FilePath, goes_up, path_of, slashes_of, split_on}

-- No backslash, which a check sees as a slash.
abbrev pub NoBackslash : Text → Type 0
NoBackslash = All (λ c. c ≢ 92)

normalized_same : (t : Text) → NoBackslash t → normalized t ≡ t
unfolding normalized
normalized_same [] h = refl
normalized_same (c ∷ t) (h, hs) =
    rw (beq_ne c 92 h) (ap (λ (s : Text). c ∷ s) (normalized_same t hs))

contains-select :
    (p : Text → Bool) (xs : List Text) (y : Text)
    → contains xs y ≡ false
    → contains (select p xs) y ≡ false
contains-select p [] y h = refl
contains-select p (x ∷ xs) y h = ground (arith, contains-select p xs y)

no_dots : (xs : List Text) → exists is_unclean_part xs ≡ false → contains xs (46 ∷ 46 ∷ []) ≡ false
unfolding exists
no_dots [] h = refl
no_dots (x ∷ xs) h =
    ground (arith, list_same_iff x (46 ∷ 46 ∷ []), list_same_iff (46 ∷ 46 ∷ []) x, no_dots xs)

-- An absolute path, with one slash at its front and none of its parts "..".
pub record IsClean (p : FilePath) : Type 0 where
  pub absolute : p.slashes ≡ 1
  pub straight : goes_up p ≡ false

record IsRooted (t : Text) : Type 0 where
  slash : starts_with t (47 ∷ []) ≡ true
  one_slash : starts_with t (47 ∷ 47 ∷ []) ≡ false
  pieces : exists is_unclean_part (rest_of (split_on 47 t)) ≡ false

is_unclean-IsRooted : (t : Text) → is_unclean t ≡ false → IsRooted t
unfolding is_unclean
is_unclean-IsRooted t h = record {
  slash = ground arith;
  one_slash = ground arith;
  pieces = ground arith;
}

split_on-slash :
    (t : Text) → starts_with t (47 ∷ []) ≡ true → split_on 47 t ≡ [] ∷ rest_of (split_on 47 t)
unfolding starts_with split_on
split_on-slash [] h = cc
split_on-slash (c ∷ t) h = elim (Bool-cases (c == 47)) [
  | inl e ↦ rw e
  | inr e ↦ absurd_equation (rw e at h)
]
  where
    absurd_equation : {A : Type 0} → false ≡ true → A
    absurd_equation q = cc

IsRooted-IsClean : (t : Text) → IsRooted t → IsClean (path_of t)
unfolding path_of slashes_of goes_up
IsRooted-IsClean t f = record {
  absolute = rw (f.slash, f.one_slash);
  straight =
      contains-select _ (split_on 47 t) (46 ∷ 46 ∷ [])
        (rw (split_on-slash t f.slash) (no_dots (rest_of (split_on 47 t)) f.pieces));
}

is_unclean-IsClean :
    (t : Text) → NoBackslash t → is_unclean (normalized t) ≡ false → IsClean (path_of t)
is_unclean-IsClean t plain h =
    IsRooted-IsClean t (is_unclean-IsRooted t (ap is_unclean (sym (normalized_same t plain)) ∙ h))

no_selectors_same :
    (d d' : SourceDefinition) (project service : Option Text)
    → no_selectors d project service ≡ ok d'
    → d ≡ d'
unfolding no_selectors
no_selectors_same d d' none none h = cc
no_selectors_same d d' none (some s) h = cc
no_selectors_same d d' (some p) service h = cc

checked_target-IsClean :
    (d d' : SourceDefinition)
    → NoBackslash d.target
    → checked_target file d ≡ ok d'
    → (d' ≡ d) × IsClean (path_of d'.target)
unfolding checked_target
checked_target-IsClean d d' plain h = elim (Bool-cases (is_some d.command_run)) [
  | inl run ↦ err-ne-ok (rw run at h)
  | inr no_run ↦ elim (Bool-cases (is_unclean (normalized d.target))) [
    | inl unclean ↦ err-ne-ok (rw (no_run, unclean) at h)
    | inr clean ↦
        let same : d ≡ d' = ok_inj (rw (no_run, clean) at h) in
        (
          sym same,
          subst (λ (s : SourceDefinition). IsClean (path_of s.target)) same
              (is_unclean-IsClean d.target plain clean),
        )
  ]
]

-- A file source that the validator accepts is kept as it was, and its target is an absolute path
-- without "..", if the target has no backslash.
pub validate_source_shape-IsClean :
    (d d' : SourceDefinition)
    → d.source_type ≡ file
    → NoBackslash d.target
    → validate_source_shape d ≡ ok d'
    → (d' ≡ d) × IsClean (path_of d'.target)
unfolding validate_source_shape checked_selectors
validate_source_shape-IsClean d d' is_file plain h =
    let chain : (checked_selectors file d >>= checked_target file) ≡ ok d' =
      subst (λ s. (checked_selectors s d >>= checked_target s) ≡ ok d') is_file h in
    let (mid, target, selectors) = >>=-ok (checked_selectors file d) (checked_target file) chain in
    let same : d ≡ mid = no_selectors_same d mid _ _ selectors in
    checked_target-IsClean d d' plain (subst (λ s. checked_target file s ≡ ok d') (sym same) target)
