-- ===== src/Access/Storage/Names.antt =====
-- A stored name stays under the storage, and is read back from its path.
use mcp_log_server.Prelude.{
  Bool-cases, List, [], ap, beq_refl, bool_eq, drop, eqb_iff, false, inl, inr, length, list_eq,
  nat_eq, option_eq, refl, some, string_eq, sym, true, ℕ, ◌++◌, ◌==◌, ◌∙◌, ◌∷◌, ◌≡◌,
}
use mcp_log_server.Prelude.Int.{int_eq}
use mcp_log_server.Prelude.Result.{err-ne-ok, ok, ok_inj}
use mcp_log_server.Prelude.Utf8.{Text}
use mcp_log_server.Access.Paths.{
  FilePath, as_posix, goes_up, is_absolute, is_prefix, is_under, join_path, path_of, relative_to,
}
use mcp_log_server.Access.Storage.{
  LogFileStorage, location, relative_name, relative_text, stored_path,
}

is_prefix-append : (xs ys : List Text) → is_prefix xs (xs ++ ys) ≡ true
unfolding is_prefix
is_prefix-append [] ys = refl
is_prefix-append (x ∷ xs) ys = rw (beq_refl x) (is_prefix-append xs ys)

drop-append : (xs ys : List Text) → drop (length xs) (xs ++ ys) ≡ ys
drop-append [] ys = refl
drop-append (x ∷ xs) ys = drop-append xs ys

relative_to-append :
    (slashes : ℕ) (xs ys : List Text)
    → relative_to
        (record { slashes = slashes; parts = xs })
        (record { slashes = slashes; parts = xs ++ ys })
      ≡ some (record { slashes = 0; parts = ys })
unfolding relative_to is_under
relative_to-append slashes xs ys = rw (beq_refl slashes, is_prefix-append xs ys, drop-append xs ys)

abbrev below : FilePath → List Text → FilePath
below root parts = record { slashes = root.slashes; parts = root.parts ++ parts }

-- A path that is given for a name.
pub record IsNamed (s : LogFileStorage) (name : Text) (p : FilePath) : Type 0 where
  relative : (path_of name).slashes ≡ 0
  straight : goes_up (path_of name) ≡ false
  same_root : p.slashes ≡ (location s).slashes
  continued : p.parts ≡ (location s).parts ++ (path_of name).parts

stored_path_parts :
    (s : LogFileStorage) (name : Text) (p : FilePath) → stored_path s name ≡ ok p → IsNamed s name p
unfolding stored_path join_path is_absolute
stored_path_parts s name p h = elim (Bool-cases ((path_of name).slashes == 0)) [
  | inr rooted ↦ err-ne-ok (rw rooted at h)
  | inl relative ↦ elim (Bool-cases (goes_up (path_of name))) [
    | inl up ↦ err-ne-ok (rw (relative, up) at h)
    | inr straight ↦
        let same : below (location s) (path_of name).parts ≡ p =
          ok_inj (rw (relative, straight) at h) in
        record {
          relative = (eqb_iff (path_of name).slashes 0).0 relative;
          straight = straight;
          same_root = ap (λ (q : FilePath). q.slashes) (sym same);
          continued = ap (λ (q : FilePath). q.parts) (sym same);
        }
  ]
]

-- A name that is accepted is relative and has no "..", its path lies under the storage, and the
-- name of that path is read back, in its normal form. No link is on the way: the storage and the
-- path resolve to themselves.
pub stored_path-IsNamed :
    (resolve : FilePath → FilePath) (s : LogFileStorage) (name : Text) (p : FilePath)
    → stored_path s name ≡ ok p
    → resolve (location s) ≡ location s
    → resolve p ≡ p
    → IsNamed s name p
      × (relative_name resolve s p
          ≡ ok (as_posix (record { slashes = 0; parts = (path_of name).parts })))
unfolding relative_name
stored_path-IsNamed resolve s name p h here there =
    let stored = stored_path_parts s name p h in
    let same : p ≡ below (location s) (path_of name).parts =
      cc (stored.same_root, stored.continued) in
    (
      stored,
      ap relative_text (
          ap (λ root. relative_to root (resolve p)) here
          ∙ ap (relative_to (location s)) (there ∙ same)
          ∙ relative_to-append (location s).slashes (location s).parts (path_of name).parts),
    )
