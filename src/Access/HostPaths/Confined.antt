-- ===== src/Access/HostPaths/Confined.antt =====
-- No operation looks at a path outside the manifest's roots.
use mcp_log_server.Prelude.{
  Bool-cases, List, Option, [], inl, inr, none, refl, some, true, ◌∷◌, ◌≡◌, ◌⊎◌,
}
use mcp_log_server.Access.HostPaths.{
  Host, HostPathError, allowed_roots, checked_link, path_is_under_allowed_root, under_some,
  validate_allowed_path,
}
use mcp_log_server.Access.Manifests.{SourceDefinition}
use mcp_log_server.Access.Paths.{FilePath, absolute, is_under}
use mcp_log_server.Access.Paths.Under.{Continues, is_under-Continues}

abbrev OneOf : FilePath → List FilePath → Type 0
OneOf root [] = ⊥
OneOf root (x ∷ xs) = (root ≡ x) ⊎ OneOf root xs

-- A path that continues one of the allowed roots.
pub record IsUnder (host : Host) (d : SourceDefinition) (p : FilePath) : Type 0 where
  root : FilePath
  of_manifest : OneOf root (allowed_roots d)
  continues : Continues (absolute host.cwd root) (absolute host.cwd p)

-- And what it links to, if it is a link, continues one too.
pub record IsConfined (host : Host) (d : SourceDefinition) (p : FilePath) : Type 0 where
  pub under : IsUnder host d p
  pub linked :
      host.is_symlink p ≡ true → (q : FilePath) × (host.resolve p ≡ some q) × IsUnder host d q

under_some-OneOf :
    (cwd p : FilePath) (roots : List FilePath)
    → under_some cwd p roots ≡ true
    → (root : FilePath) × OneOf root roots × Continues (absolute cwd root) p
unfolding under_some
under_some-OneOf cwd p [] h = cc
under_some-OneOf cwd p (root ∷ roots) h = elim (Bool-cases (is_under (absolute cwd root) p)) [
  | inl here ↦ (root, inl refl, is_under-Continues (absolute cwd root) p here)
  | inr there ↦
      let (found, of_rest, continues) = under_some-OneOf cwd p roots (rw there at h) in
      (found, inr of_rest, continues)
]

path_is_under_allowed_root-IsUnder :
    (host : Host) (d : SourceDefinition) (p : FilePath)
    → path_is_under_allowed_root host d p ≡ true
    → IsUnder host d p
unfolding path_is_under_allowed_root
path_is_under_allowed_root-IsUnder host d p h =
    let (root, of_manifest, continues) =
      under_some-OneOf host.cwd (absolute host.cwd p) (allowed_roots d) h in
    record { root = root; of_manifest = of_manifest; continues = continues }

checked_link-IsUnder :
    (host : Host) (d : SourceDefinition) (o : Option FilePath)
    → checked_link host d o ≡ none
    → (q : FilePath) × (o ≡ some q) × IsUnder host d q
unfolding checked_link
checked_link-IsUnder host d none h = cc
checked_link-IsUnder host d (some q) h = elim (Bool-cases (path_is_under_allowed_root host d q)) [
  | inl under ↦ (q, refl, path_is_under_allowed_root-IsUnder host d q under)
  | inr outside ↦ some_none (rw outside at h)
]
  where
    some_none : {A : Type 0} {e : HostPathError} → Path (Option HostPathError) (some e) none → A
    some_none q = cc

pub validate_allowed_path-IsConfined :
    (host : Host) (d : SourceDefinition) (p : FilePath)
    → validate_allowed_path host d p ≡ none
    → IsConfined host d p
unfolding validate_allowed_path
validate_allowed_path-IsConfined host d p h =
    elim (Bool-cases (path_is_under_allowed_root host d p)) [
      | inl under ↦ record {
        under = path_is_under_allowed_root-IsUnder host d p under;
        linked = λ link. checked_link-IsUnder host d (host.resolve p) (rw (under, link) at h);
      }
      | inr outside ↦ some_none (rw outside at h)
    ]
  where
    some_none : {A : Type 0} {e : HostPathError} → Path (Option HostPathError) (some e) none → A
    some_none q = cc
