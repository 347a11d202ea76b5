-- ===== src/SocketApp/Spool/Valid.antt =====
-- The invariant of the spool, and `delete`.

use mcp_log_server.Prelude.{
  List, Option-cases, String, [], arith, beq_refl, eq_iff, if◌then◌else◌, inl, inr, length, nat_eq,
  none, option_eq, some, string_eq, ◌==◌, ◌∙◌, ◌∷◌, ◌≡◌, ◌≢◌, ◌≤◌,
}
use mcp_log_server.Prelude.Dict.{NodupKeys, erase-NodupKeys, lookup, lookup-erase}
use mcp_log_server.Prelude.Int.{int_eq}
use mcp_log_server.SocketApp.Spool.{
  File, Spool, SpoolPath, Transfer, delete, delete_all, path_beq_iff, path_eq,
}

-- The file of one transfer.
pub record IsStored (s : Spool) (id : String) (t : Transfer) : Type 0 where
  pub file : File
  pub found : lookup t.spool_path s.files ≡ some file
  pub whole : length file.content ≡ t.byte_count
  pub within : t.byte_count ≤ s.max_bytes
  pub cursor : t.next_offset ≤ t.byte_count
  pub named : t.transfer_id ≡ id

pub record IsValid (s : Spool) : Type 0 where
  pub nodup : NodupKeys s.transfers
  pub stored : (id : String) (t : Transfer) → lookup id s.transfers ≡ some t → IsStored s id t
  pub owner :
      (i j : String) (t u : Transfer)
      → lookup i s.transfers ≡ some t
      → lookup j s.transfers ≡ some u
      → t.spool_path ≡ u.spool_path
      → i ≡ j

-- `delete` removes a transfer with its file, and touches no other transfer and no other file.
pub lookup-delete :
    (id j : String) (s : Spool)
    → lookup j (delete id s).transfers ≡ (if id == j then none else lookup j s.transfers)
unfolding delete
lookup-delete id j s = elim (Option-cases (lookup id s.transfers)) [
  | inl e ↦ ground (arith, eq_iff id j)
  | inr (t, e) ↦ rw e (lookup-erase j id s.transfers)
]

delete-found :
    (id : String) (s : Spool) (t : Transfer) (p : SpoolPath)
    → lookup id s.transfers ≡ some t
    → t.spool_path ≢ p
    → lookup p (delete id s).files ≡ lookup p s.files
unfolding delete
delete-found id s t p e ne =
    rw e (lookup-erase p t.spool_path s.files ∙ ground (arith, path_beq_iff t.spool_path p))

delete_absent : (id : String) (s : Spool) → lookup id s.transfers ≡ none → delete id s ≡ s
unfolding delete
delete_absent id s e = rw e

pub limits-delete :
    (id : String) (s : Spool)
    → ((delete id s).max_bytes ≡ s.max_bytes) × ((delete id s).ttl_seconds ≡ s.ttl_seconds)
unfolding delete
limits-delete id s = ground arith

nodup-delete : (id : String) (s : Spool) → NodupKeys s.transfers → NodupKeys (delete id s).transfers
unfolding delete
nodup-delete id s n = elim (Option-cases (lookup id s.transfers)) [
  | inl e ↦ rw e n
  | inr (t, e) ↦ rw e (erase-NodupKeys id s.transfers n)
]

-- Every file but that of the deleted transfer stays.
pub files-delete :
    (id j : String) (s : Spool) (u : Transfer)
    → IsValid s
    → id ≢ j
    → lookup j s.transfers ≡ some u
    → lookup u.spool_path (delete id s).files ≡ lookup u.spool_path s.files
files-delete id j s u v ne e = elim (Option-cases (lookup id s.transfers)) [
  | inl a ↦ rw (delete_absent id s a)
  | inr (t, h) ↦ delete-found id s t u.spool_path h (λ same. ne (v.owner id j t u h e same))
]

survives :
    (id j : String) (s : Spool) (u : Transfer)
    → lookup j (delete id s).transfers ≡ some u
    → (id ≢ j) × (lookup j s.transfers ≡ some u)
survives id j s u h = ground (arith, lookup-delete id j s, eq_iff id j)

pub delete-IsValid : (id : String) (s : Spool) → IsValid s → IsValid (delete id s)
delete-IsValid id s v = record {
  nodup = nodup-delete id s v.nodup;
  stored = λ j u h.
      let (ne, e) = survives id j s u h in
      let old = v.stored j u e in
      record {
        file = old.file;
        found = files-delete id j s u v ne e ∙ old.found;
        whole = old.whole;
        within = rw (limits-delete id s).0 old.within;
        cursor = old.cursor;
        named = old.named;
      };
  owner = λ i j t u h k. v.owner i j t u (survives id i s t h).1 (survives id j s u k).1;
}

pub delete_all-IsValid : (ids : List String) (s : Spool) → IsValid s → IsValid (delete_all ids s)
unfolding delete_all
delete_all-IsValid [] s v = v
delete_all-IsValid (id ∷ ids) s v = delete_all-IsValid ids (delete id s) (delete-IsValid id s v)

-- The file of a deleted transfer is gone.
pub delete-file :
    (id : String) (s : Spool) (t : Transfer)
    → lookup id s.transfers ≡ some t
    → lookup t.spool_path (delete id s).files ≡ none
unfolding delete
delete-file id s t e =
    rw e (lookup-erase t.spool_path t.spool_path s.files ∙ rw (beq_refl t.spool_path))
