-- ===== src/Access/HostPaths/Operations.antt =====
-- What the operations return, by the paths that they look at.
use mcp_log_server.Prelude.{
  All, Bool, Bool-cases, List, Option, Option-cases, [], ap, arith, false, if◌then◌else◌, inl, inr,
  length, length-select, length-take, ltb, map, not, refl, select, suc, sym, take, true, zero, ℕ,
  ◌∙◌, ◌∷◌, ◌≡◌, ◌≤◌,
}
use mcp_log_server.Prelude.Int.{negsuc, pos, ℤ}
use mcp_log_server.Prelude.Result.{>>=-ok, Result, err, err-ne-ok, ok}
use mcp_log_server.Prelude.Sorting.{sort, text_below}
use mcp_log_server.Prelude.Utf8.{Bytes, Text}
use mcp_log_server.Access.HostPaths.{
  DefaultPath, Host, HostPathError, HostPathMetadata, allowed_path, child, is_allowed,
  list_project_directory, listed, max_project_directory_entries, max_project_file_bytes,
  metadata_for_path, parent_path, read_project_file, resolve_requested_path, safe_max_bytes,
  target_path, validate_allowed_path,
}
use mcp_log_server.Access.HostPaths.Confined.{IsConfined, validate_allowed_path-IsConfined}
use mcp_log_server.Access.HostPaths.Reads.{allowed_path-ok, by_type-straight}
use mcp_log_server.Access.Manifests.{SourceDefinition, file, validate_source_shape}
use mcp_log_server.Access.Manifests.Clean.{NoBackslash, validate_source_shape-IsClean}
use mcp_log_server.Access.Paths.{FilePath, goes_up, path_of}

-- Where an operation has looked.
pub record LooksAt (host : Host) (d : SourceDefinition) (p : FilePath) : Type 0 where
  confined : IsConfined host d p
  straight : goes_up p ≡ false

-- A value that is returned after two checks.
checked_twice {ℓ} :
    {A : Type ℓ} (a b : Bool) (x y : HostPathError) (v w : A)
    → Path (Result HostPathError A) (if not a then err x else if not b then err y else ok v) (ok w)
    → v ≡ w
checked_twice true true x y v w h = cc
checked_twice true false x y v w h = err-ne-ok h
checked_twice false b x y v w h = err-ne-ok h

select-All {ℓ κ} :
    {A : Type ℓ} {P : A → Type κ} (p : A → Bool) (xs : List A)
    → ((x : A) → p x ≡ true → P x)
    → All P (select p xs)
select-All p [] h = tt
select-All p (x ∷ xs) h = elim (Bool-cases (p x)) [
  | inl yes_x ↦ rw yes_x (h x yes_x, select-All p xs h)
  | inr no_x ↦ rw no_x (select-All p xs h)
]

length-map : {A B : Type 0} (f : A → B) (xs : List A) → length (map f xs) ≡ length xs
length-map f [] = refl
length-map f (x ∷ xs) = omega (arith, length-map f xs)

is_allowed-IsConfined :
    (host : Host) (d : SourceDefinition) (p : FilePath)
    → is_allowed host d p ≡ true
    → IsConfined host d p
unfolding is_allowed
is_allowed-IsConfined host d p h = elim (Option-cases (validate_allowed_path host d p)) [
  | inl allowed ↦ validate_allowed_path-IsConfined host d p allowed
  | inr (e, refused) ↦ false_true (rw (refused, is_allowed) at h)
]
  where
    false_true : {A : Type 0} → false ≡ true → A
    false_true q = cc

-- The file that a read returns, and how much of it.
pub record IsRead (host : Host) (d : SourceDefinition) (max_bytes : ℤ) (text : Text)
    (truncated : Bool) : Type 0 where
  path : FilePath
  looks_at : LooksAt host d path
  shown : text ≡ host.decode_replace (take (safe_max_bytes max_bytes) (host.content path))
  bounded : safe_max_bytes max_bytes ≤ max_project_file_bytes
  cut : truncated ≡ ltb (safe_max_bytes max_bytes) (length (host.content path))

-- The directory that a listing shows, and the paths of its entries.
pub record IsListed (host : Host) (d : SourceDefinition) (entries : List HostPathMetadata)
    (truncated : Bool) : Type 0 where
  directory : FilePath
  looks_at : LooksAt host d directory
  paths : List FilePath
  confined : All (IsConfined host d) paths
  shown : entries ≡ map (metadata_for_path host) paths
  bounded : length entries ≤ max_project_directory_entries
  cut : truncated ≡ ltb max_project_directory_entries (length (host.entries directory))

module _ (host : Host) (raw d : SourceDefinition) (is_file : raw.source_type ≡ file)
    (plain : NoBackslash raw.target) (accepted : validate_source_shape raw ≡ ok d) where
  clean_target : goes_up (path_of d.target) ≡ false
  clean_target = (validate_source_shape-IsClean raw d is_file plain accepted).1.straight

  allowed_path-LooksAt :
      (path : Option Text) (default : DefaultPath) (p : FilePath)
      → allowed_path host d path default ≡ ok p
      → LooksAt host d p
  unfolding resolve_requested_path
  allowed_path-LooksAt path default p h =
      let (resolved, confined) = allowed_path-ok host d path default p h in
      record {
        confined = confined;
        straight = by_type-straight d.source_type d path default p clean_target resolved;
      }

  take-take : (n : ℕ) (bytes : Bytes) → take n (take (suc n) bytes) ≡ take n bytes
  take-take zero bytes = refl
  take-take (suc n) [] = refl
  take-take (suc n) (b ∷ bytes) = ap (λ (rest : Bytes). b ∷ rest) (take-take n bytes)

  cut_same : (n : ℕ) (bytes : Bytes) → ltb n (length (take (suc n) bytes)) ≡ ltb n (length bytes)
  cut_same n bytes = ground (arith, length-take (suc n) bytes)

  safe_bound : (z : ℤ) → safe_max_bytes z ≤ max_project_file_bytes
  unfolding safe_max_bytes
  safe_bound (pos n) = omega arith
  safe_bound (negsuc n) = omega arith

  -- A file that is read continues a root of the manifest, its path has no "..", and if it is a
  -- link then what it links to continues a root as well. The text is the beginning of that file,
  -- at most 200000 bytes, and is reported as truncated exactly when more bytes follow. The source
  -- is a file source that the manifest's validator accepted, and its target has no backslash.
  pub read_project_file-IsRead :
      (path : Option Text) (max_bytes : ℤ) (text : Text) (truncated : Bool)
      → read_project_file host d path max_bytes ≡ ok (text, truncated)
      → IsRead host d max_bytes text truncated
  unfolding read_project_file
  read_project_file-IsRead path max_bytes text truncated h =
      let (p, read, allowed) = >>=-ok (allowed_path host d path target_path) _ h in
      let same = checked_twice (host.path_exists p) (host.is_file p) _ _ _ _ read in
      let n = safe_max_bytes max_bytes in
      record {
        path = p;
        looks_at = allowed_path-LooksAt path target_path p allowed;
        shown =
            ap (λ (r : Text × Bool). r.0) (sym same)
            ∙ ap host.decode_replace (take-take n (host.content p));
        bounded = safe_bound max_bytes;
        cut = ap (λ (r : Text × Bool). r.1) (sym same) ∙ cut_same n (host.content p);
      }

  listed_bound : (p : FilePath) → length (listed host p) ≤ max_project_directory_entries
  unfolding listed
  listed_bound p =
      let first = take max_project_directory_entries (sort text_below (host.entries p)) in
      omega (
        arith,
        length-map (child p) first,
        length-take max_project_directory_entries (sort text_below (host.entries p)),
      )

  -- A directory that is listed continues a root of the manifest and its path has no "..". Each of
  -- at most 200 entries is the metadata of a path that continues a root, and so does what that
  -- path links to if it is a link. The list is reported as truncated exactly when the directory
  -- has more than 200 entries. The source is a file source that the manifest's validator accepted,
  -- and its target has no backslash.
  pub list_project_directory-IsListed :
      (path : Option Text) (entries : List HostPathMetadata) (truncated : Bool)
      → list_project_directory host d path ≡ ok (entries, truncated)
      → IsListed host d entries truncated
  unfolding list_project_directory
  list_project_directory-IsListed path entries truncated h =
      let (p, read, allowed) = >>=-ok (allowed_path host d path parent_path) _ h in
      let same = checked_twice (host.path_exists p) (host.is_dir p) _ _ _ _ read in
      let paths = select (is_allowed host d) (listed host p) in
      record {
        directory = p;
        looks_at = allowed_path-LooksAt path parent_path p allowed;
        paths = paths;
        confined = select-All (is_allowed host d) (listed host p) (is_allowed-IsConfined host d);
        shown = ap (λ (r : List HostPathMetadata × Bool). r.0) (sym same);
        bounded =
            let shown : entries ≡ map (metadata_for_path host) paths =
              ap (λ (r : List HostPathMetadata × Bool). r.0) (sym same) in
            omega (
              arith,
              ap length shown,
              length-map (metadata_for_path host) paths,
              length-select (is_allowed host d) (listed host p),
              listed_bound p,
            );
        cut = ap (λ (r : List HostPathMetadata × Bool). r.1) (sym same);
      }
