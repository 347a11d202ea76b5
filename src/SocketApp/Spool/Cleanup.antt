-- ===== src/SocketApp/Spool/Cleanup.antt =====
-- `_cleanup_expired_transfers` and `_cleanup_orphan_files`: what goes and what stays.

use mcp_log_server.Prelude.{
  List, String, [], arith, contains, eq_iff, false, if◌then◌else◌, nat_eq, none, option_eq, refl,
  some, string_eq, true, ℕ, ◌+◌, ◌<◌, ◌∙◌, ◌∷◌, ◌≡◌, ◌≢◌, ◌≤◌,
}
use mcp_log_server.Prelude.Dict.{Dict, NodupKeys, lookup}
use mcp_log_server.SocketApp.Spool.{
  File, Spool, SpoolPath, Transfer, active_paths, cleanup_expired_transfers, cleanup_orphan_files,
  delete, delete_all, expired, expired_ids, keep_files, path_beq_iff, path_eq,
}
use mcp_log_server.SocketApp.Spool.Valid.{
  IsValid, delete-IsValid, delete_all-IsValid, files-delete, limits-delete, lookup-delete,
}

module _ (active : List SpoolPath) (wall ttl_seconds : ℕ) where
  -- A file that a transfer owns is kept, however old it is.
  pub lookup-keep_files :
      (p : SpoolPath) (files : Dict SpoolPath File)
      → contains active p ≡ true
      → lookup p (keep_files active wall ttl_seconds files) ≡ lookup p files
  unfolding keep_files lookup
  lookup-keep_files p [] h = refl
  lookup-keep_files p ((q, f) ∷ files) h =
      ground (arith, path_beq_iff q p, lookup-keep_files p files h)

pub contains-active_paths :
    (id : String) (t : Transfer) (transfers : Dict String Transfer)
    → lookup id transfers ≡ some t
    → contains (active_paths transfers) t.spool_path ≡ true
unfolding active_paths lookup
contains-active_paths id t [] h = cc
contains-active_paths id t ((j, u) ∷ transfers) h = ground (
  arith,
  eq_iff j id,
  path_beq_iff t.spool_path u.spool_path,
  contains-active_paths id t transfers,
)

pub orphans-IsValid : (wall : ℕ) (s : Spool) → IsValid s → IsValid (cleanup_orphan_files wall s)
unfolding cleanup_orphan_files
orphans-IsValid wall s v = record {
  nodup = v.nodup;
  stored = λ id t e.
      let old = v.stored id t e in
      record {
        file = old.file;
        found =
            lookup-keep_files (active_paths s.transfers) wall s.ttl_seconds t.spool_path s.files
              (contains-active_paths id t s.transfers e)
            ∙ old.found;
        whole = old.whole;
        within = old.within;
        cursor = old.cursor;
        named = old.named;
      };
  owner = v.owner;
}

pub cleanup-IsValid :
    (now wall : ℕ) (s : Spool) → IsValid s → IsValid (cleanup_expired_transfers now wall s)
unfolding cleanup_expired_transfers
cleanup-IsValid now wall s v =
    orphans-IsValid wall _ (delete_all-IsValid (expired_ids now s.ttl_seconds s.transfers) s v)

-- `expired_ids` lists exactly the ids of the expired transfers.
expired_ids_complete :
    (now ttl_seconds : ℕ) (id : String) (t : Transfer) (transfers : Dict String Transfer)
    → lookup id transfers ≡ some t
    → expired now ttl_seconds t ≡ true
    → contains (expired_ids now ttl_seconds transfers) id ≡ true
unfolding expired_ids lookup
expired_ids_complete now ttl_seconds id t [] h old = cc
expired_ids_complete now ttl_seconds id t ((j, u) ∷ transfers) h old =
    ground (arith, eq_iff j id, eq_iff id j, expired_ids_complete now ttl_seconds id t transfers)

absent_not_expired :
    (now ttl_seconds : ℕ) (id : String) (transfers : Dict String Transfer)
    → lookup id transfers ≡ none
    → contains (expired_ids now ttl_seconds transfers) id ≡ false
unfolding expired_ids lookup
absent_not_expired now ttl_seconds id [] h = refl
absent_not_expired now ttl_seconds id ((j, u) ∷ transfers) h =
    ground (arith, eq_iff j id, eq_iff id j, absent_not_expired now ttl_seconds id transfers)

expired_ids_sound :
    (now ttl_seconds : ℕ) (id : String) (t : Transfer) (transfers : Dict String Transfer)
    → NodupKeys transfers
    → lookup id transfers ≡ some t
    → expired now ttl_seconds t ≡ false
    → contains (expired_ids now ttl_seconds transfers) id ≡ false
unfolding expired_ids lookup
expired_ids_sound now ttl_seconds id t [] n h live = cc
expired_ids_sound now ttl_seconds id t ((j, u) ∷ transfers) (fresh, n) h live = ground (
  arith,
  eq_iff j id,
  eq_iff id j,
  absent_not_expired now ttl_seconds id transfers,
  expired_ids_sound now ttl_seconds id t transfers n,
)

lookup-delete_all :
    (ids : List String) (j : String) (s : Spool)
    → lookup j (delete_all ids s).transfers
      ≡ (if contains ids j then none else lookup j s.transfers)
unfolding delete_all
lookup-delete_all [] j s = refl
lookup-delete_all (id ∷ ids) j s =
    lookup-delete_all ids j (delete id s)
    ∙ ground (arith, lookup-delete id j s, eq_iff id j, eq_iff j id)

-- An expired transfer is gone.
pub lookup-cleanup_expired :
    (now wall : ℕ) (s : Spool) (id : String) (t : Transfer)
    → lookup id s.transfers ≡ some t
    → expired now s.ttl_seconds t ≡ true
    → lookup id (cleanup_expired_transfers now wall s).transfers ≡ none
unfolding cleanup_expired_transfers cleanup_orphan_files
lookup-cleanup_expired now wall s id t h old =
    lookup-delete_all (expired_ids now s.ttl_seconds s.transfers) id s
    ∙ rw (expired_ids_complete now s.ttl_seconds id t s.transfers h old)

-- A transfer that is in use stays as it is.
pub lookup-cleanup_live :
    (now wall : ℕ) (s : Spool) (id : String) (t : Transfer)
    → NodupKeys s.transfers
    → lookup id s.transfers ≡ some t
    → expired now s.ttl_seconds t ≡ false
    → lookup id (cleanup_expired_transfers now wall s).transfers ≡ some t
unfolding cleanup_expired_transfers cleanup_orphan_files
lookup-cleanup_live now wall s id t n h live =
    lookup-delete_all (expired_ids now s.ttl_seconds s.transfers) id s
    ∙ rw (expired_ids_sound now s.ttl_seconds id t s.transfers n h live) h

-- A cleanup removes a transfer whose last use is at least the time to live ago, and keeps any
-- other just as it was. The transfers have distinct ids.
pub cleanup_time_to_live :
    (now wall : ℕ) (s : Spool) (id : String) (t : Transfer)
    → NodupKeys s.transfers
    → lookup id s.transfers ≡ some t
    → (t.last_accessed_at + s.ttl_seconds ≤ now
        → lookup id (cleanup_expired_transfers now wall s).transfers ≡ none)
      × (now < t.last_accessed_at + s.ttl_seconds
          → lookup id (cleanup_expired_transfers now wall s).transfers ≡ some t)
unfolding expired
cleanup_time_to_live now wall s id t n h = (
  λ old. lookup-cleanup_expired now wall s id t h (ground arith),
  λ live. lookup-cleanup_live now wall s id t n h (ground arith),
)

-- No transfer appears in a cleanup.
pub lookup-cleanup_absent :
    (now wall : ℕ) (s : Spool) (id : String)
    → lookup id s.transfers ≡ none
    → lookup id (cleanup_expired_transfers now wall s).transfers ≡ none
unfolding cleanup_expired_transfers cleanup_orphan_files
lookup-cleanup_absent now wall s id h =
    lookup-delete_all (expired_ids now s.ttl_seconds s.transfers) id s ∙ ground arith

limits-delete_all :
    (ids : List String) (s : Spool)
    → ((delete_all ids s).max_bytes ≡ s.max_bytes)
      × ((delete_all ids s).ttl_seconds ≡ s.ttl_seconds)
unfolding delete_all
limits-delete_all [] s = (refl, refl)
limits-delete_all (id ∷ ids) s = (
  (limits-delete_all ids (delete id s)).0 ∙ (limits-delete id s).0,
  (limits-delete_all ids (delete id s)).1 ∙ (limits-delete id s).1,
)

pub limits-cleanup :
    (now wall : ℕ) (s : Spool)
    → ((cleanup_expired_transfers now wall s).max_bytes ≡ s.max_bytes)
      × ((cleanup_expired_transfers now wall s).ttl_seconds ≡ s.ttl_seconds)
unfolding cleanup_expired_transfers cleanup_orphan_files
limits-cleanup now wall s = limits-delete_all (expired_ids now s.ttl_seconds s.transfers) s

-- The file of a transfer that stays is untouched.
files-delete_all :
    (ids : List String) (j : String) (s : Spool) (u : Transfer)
    → IsValid s
    → contains ids j ≡ false
    → lookup j s.transfers ≡ some u
    → lookup u.spool_path (delete_all ids s).files ≡ lookup u.spool_path s.files
unfolding delete_all
files-delete_all [] j s u v h e = refl
files-delete_all (id ∷ ids) j s u v h e =
    let ne : id ≢ j = ground (arith, eq_iff j id) in
    files-delete_all ids j (delete id s) u (delete-IsValid id s v) (ground arith)
      (lookup-delete id j s ∙ ground (arith, eq_iff id j))
    ∙ files-delete id j s u v ne e

pub files-cleanup :
    (now wall : ℕ) (s : Spool) (id : String) (t : Transfer)
    → IsValid s
    → lookup id s.transfers ≡ some t
    → expired now s.ttl_seconds t ≡ false
    → lookup t.spool_path (cleanup_expired_transfers now wall s).files ≡ lookup t.spool_path s.files
unfolding cleanup_expired_transfers cleanup_orphan_files
files-cleanup now wall s id t v h live =
    let ids = expired_ids now s.ttl_seconds s.transfers in
    let kept = expired_ids_sound now s.ttl_seconds id t s.transfers v.nodup h live in
    lookup-keep_files (active_paths (delete_all ids s).transfers) wall
      (delete_all ids s).ttl_seconds t.spool_path (delete_all ids s).files
      (contains-active_paths id t (delete_all ids s).transfers
        (lookup-delete_all ids id s ∙ rw kept h))
    ∙ files-delete_all ids id s t v kept h
