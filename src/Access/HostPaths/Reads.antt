-- ===== src/Access/HostPaths/Reads.antt =====
-- The path that an operation looks at: allowed, and without "..".
use mcp_log_server.Prelude.{
  Bool-cases, List, Option, Option-cases, [], ap, arith, bool_eq, contains, false, inl, inr,
  list_eq, nat_eq, none, option_eq, refl, some, string_eq, subst, ◌==◌, ◌∙◌, ◌∷◌, ◌≡◌,
}
use mcp_log_server.Prelude.Int.{int_eq}
use mcp_log_server.Prelude.Result.{>>=-ok, err-ne-ok, ok, ok_inj}
use mcp_log_server.Prelude.Strings.{strip}
use mcp_log_server.Prelude.Utf8.{Text}
use mcp_log_server.Access.HostPaths.{
  DefaultPath, Host, allowed_path, by_type, default_of, given_path, parent_path, requested_path,
  resolve_requested_path, target_path, validate_allowed_path,
}
use mcp_log_server.Access.HostPaths.Confined.{IsConfined, validate_allowed_path-IsConfined}
use mcp_log_server.Access.Manifests.{SourceDefinition, SourceType, docker, file}
use mcp_log_server.Access.Paths.{FilePath, drop_end, goes_up, is_absolute, parent, path_of}

pub allowed_path-ok :
    (host : Host) (d : SourceDefinition) (path : Option Text) (default : DefaultPath) (p : FilePath)
    → allowed_path host d path default ≡ ok p
    → (resolve_requested_path d path default ≡ ok p) × IsConfined host d p
unfolding allowed_path
allowed_path-ok host d path default p h =
    let (mid, checked, resolved) = >>=-ok (resolve_requested_path d path default) _ h in
    elim (Option-cases (validate_allowed_path host d mid)) [
      | inl allowed ↦
          let same : mid ≡ p = ok_inj (rw allowed at checked) in
          (
            resolved ∙ ap ok same,
            subst (λ q. IsConfined host d q) same
                (validate_allowed_path-IsConfined host d mid allowed),
          )
      | inr (e, refused) ↦ err-ne-ok (rw refused at checked)
    ]

contains-drop_end :
    (xs : List Text) (x : Text) → contains xs x ≡ false → contains (drop_end xs) x ≡ false
unfolding drop_end
contains-drop_end [] x h = refl
contains-drop_end (y ∷ []) x h = refl
contains-drop_end (y ∷ z ∷ xs) x h = ground (arith, contains-drop_end (z ∷ xs) x)

given_path-straight : (q p : FilePath) → given_path q ≡ ok p → goes_up p ≡ false
unfolding given_path
given_path-straight q p h = elim (Bool-cases (goes_up q)) [
  | inl up ↦ err-ne-ok (rw up at h)
  | inr straight ↦ elim (Bool-cases (is_absolute q)) [
    | inl rooted ↦ subst (λ r. goes_up r ≡ false) (ok_inj (rw (straight, rooted) at h)) straight
    | inr relative ↦ err-ne-ok (rw (straight, relative) at h)
  ]
]

default_of-straight :
    (d : SourceDefinition) (default : DefaultPath)
    → goes_up (path_of d.target) ≡ false
    → goes_up (default_of d default) ≡ false
unfolding default_of parent goes_up
default_of-straight d target_path h = h
default_of-straight d parent_path h = contains-drop_end (path_of d.target).parts (46 ∷ 46 ∷ []) h

requested_path-straight :
    (d : SourceDefinition) (path : Option Text) (default : DefaultPath) (p : FilePath)
    → goes_up (path_of d.target) ≡ false
    → requested_path d path default ≡ ok p
    → goes_up p ≡ false
unfolding requested_path
requested_path-straight d none default p clean h =
    subst (λ q. goes_up q ≡ false) (ok_inj h) (default_of-straight d default clean)
requested_path-straight d (some t) default p clean h = elim (Bool-cases (strip t == [])) [
  | inl blank ↦
      subst (λ q. goes_up q ≡ false) (ok_inj (rw blank at h)) (default_of-straight d default clean)
  | inr given ↦ given_path-straight (path_of t) p (rw given at h)
]

pub by_type-straight :
    (s : SourceType) (d : SourceDefinition) (path : Option Text) (default : DefaultPath)
    (p : FilePath)
    → goes_up (path_of d.target) ≡ false
    → by_type s d path default ≡ ok p
    → goes_up p ≡ false
unfolding by_type
by_type-straight docker d path default p clean h = err-ne-ok h
by_type-straight file d path default p clean h = requested_path-straight d path default p clean h
