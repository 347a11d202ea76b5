-- ===== src/SocketApp/Spool.antt =====
-- `LogTransferSpool` of socket-app/src/socket_app/adapters.py: spool files and paging cursors.
-- Times are ticks of the two clocks, one reading of each for an operation. The operations on pages
-- hold the lock from start to end, and `create`, which takes no lock, is one step as well. Files are
-- those of the spool's directory that its two glob patterns find: a stem, which `tempfile` picks,
-- with the suffix .part or .spool.
pub mod Valid
pub mod Create
pub mod Cleanup
pub mod Paging
pub mod Served
pub mod Turn
use mcp_log_server.Prelude.{
  Bool, Eq, List, Option, String, [], arith, contains, drop, eq_iff, false, if◌then◌else◌, leb,
  length, ltb, nat_eq, none, option_eq, refl, some, string_eq, take, true, ℕ, ◌&&◌, ◌++◌, ◌+◌, ◌==◌,
  ◌||◌, ◌↔◌, ◌∷◌, ◌≡◌,
}
use mcp_log_server.Prelude.Dict.{Dict, erase, insert, lookup}
use mcp_log_server.Prelude.Int.{int_eq}
use mcp_log_server.Prelude.Result.{Result, err, ok}
use mcp_log_server.Prelude.Utf8.{Bytes, Text, encode}

pub data Suffix : Type 0 where
  part spool : Suffix

pub record SpoolPath : Type 0 where
  pub stem : String
  pub suffix : Suffix

abbrev pub suffix_beq : Suffix → Suffix → Bool
suffix_beq part part = true
suffix_beq spool spool = true
suffix_beq _ _ = false

abbrev pub path_beq : SpoolPath → SpoolPath → Bool
path_beq p q = p.stem == q.stem && suffix_beq p.suffix q.suffix

pub suffix_beq_iff : (a b : Suffix) → (suffix_beq a b ≡ true) ↔ (a ≡ b)
suffix_beq_iff part part = (λ h. refl, λ h. refl)
suffix_beq_iff part spool = (λ h. cc, λ h. cc)
suffix_beq_iff spool part = (λ h. cc, λ h. cc)
suffix_beq_iff spool spool = (λ h. refl, λ h. refl)

pub path_beq_iff : (p q : SpoolPath) → (path_beq p q ≡ true) ↔ (p ≡ q)
path_beq_iff p q = ground (arith, eq_iff p.stem q.stem, suffix_beq_iff p.suffix q.suffix)

instance abbrev pub path_eq : Eq SpoolPath
path_eq = record { same = path_beq; same_iff = path_beq_iff }

pub record File : Type 0 where
  pub content : Bytes
  pub modified_at : ℕ

-- `_LogTransfer`
pub record Transfer : Type 0 where
  pub transfer_id : String
  pub container_name : String
  pub spool_path : SpoolPath
  pub byte_count : ℕ
  pub next_offset : ℕ
  pub last_accessed_at : ℕ

-- `LogTransferPage`; `returned_bytes` is the length of the content.
pub record Page : Type 0 where
  pub transfer_id : Option String
  pub container_name : String
  pub content : Bytes
  pub offset : ℕ
  pub byte_limit : ℕ
  pub truncated : Bool
  pub next_offset : Option ℕ

pub record Spool : Type 0 where
  pub ttl_seconds : ℕ
  pub max_bytes : ℕ
  pub transfers : Dict String Transfer
  pub files : Dict SpoolPath File

-- The messages of `DockerBackendError`, and the `FileNotFoundError` of `open`.
pub data SpoolError : Type 0 where
  too_large : ℕ → SpoolError
  unknown_transfer : SpoolError
  wrong_offset : ℕ → SpoolError
  missing_file : SpoolError

-- One item of the Docker log stream.
pub data Chunk : Type 0 where
  byte_chunk : Bytes → Chunk
  text_chunk : Text → Chunk

unfoldable pub raw : Chunk → Bytes
raw (byte_chunk b) = b
raw (text_chunk t) = encode t

-- The loop of `create` over the chunks, with what is written so far.
unfoldable pub write_chunks : ℕ → List Chunk → Bytes → ℕ → Result SpoolError (Bytes × ℕ)
write_chunks max_bytes [] written byte_count = ok (written, byte_count)
write_chunks max_bytes (chunk ∷ chunks) written byte_count =
    let rest =
      write_chunks max_bytes chunks (written ++ raw chunk) (byte_count + length (raw chunk)) in
    if ltb max_bytes (byte_count + length (raw chunk)) then err (too_large max_bytes) else rest

abbrev pub part_path : String → SpoolPath
part_path stem = record { stem = stem; suffix = part }

abbrev pub spool_path_of : String → SpoolPath
spool_path_of stem = record { stem = stem; suffix = spool }

-- What `create` does after the loop; the error case unlinks the part file and raises again.
finish_create :
    String
    → String
    → String
    → ℕ
    → ℕ
    → Spool
    → Result SpoolError (Bytes × ℕ)
    → Result SpoolError Transfer × Spool
finish_create container_name stem uuid now wall s (err e) =
    (err e, record s { files = erase (part_path stem) s.files })
finish_create container_name stem uuid now wall s (ok (written, byte_count)) =
    let transfer : Transfer = record {
      transfer_id = uuid;
      container_name = container_name;
      spool_path = spool_path_of stem;
      byte_count = byte_count;
      next_offset = 0;
      last_accessed_at = now;
    } in
    (
      ok transfer,
      record s {
        transfers = insert uuid transfer s.transfers;
        files =
            insert (spool_path_of stem) (record { content = written; modified_at = wall })
              (erase (part_path stem) s.files);
      },
    )

unfoldable pub create :
    String → List Chunk → String → String → ℕ → ℕ → Spool → Result SpoolError Transfer × Spool
unfolding finish_create
create container_name chunks stem uuid now wall s =
    let opened : Spool = record s {
      files = insert (part_path stem) (record { content = []; modified_at = wall }) s.files;
    } in
    finish_create container_name stem uuid now wall opened (write_chunks s.max_bytes chunks [] 0)

delete_entry : String → Spool → Option Transfer → Spool
delete_entry transfer_id s none = s
delete_entry transfer_id s (some transfer) = record s {
  transfers = erase transfer_id s.transfers;
  files = erase transfer.spool_path s.files;
}

unfoldable pub delete : String → Spool → Spool
unfolding delete_entry
delete transfer_id s = delete_entry transfer_id s (lookup transfer_id s.transfers)

-- `last_accessed_at <= expires_before`, without a negative number
unfoldable pub expired : ℕ → ℕ → Transfer → Bool
expired now ttl_seconds transfer = leb (transfer.last_accessed_at + ttl_seconds) now

unfoldable pub expired_ids : ℕ → ℕ → Dict String Transfer → List String
unfolding expired
expired_ids now ttl_seconds [] = []
expired_ids now ttl_seconds ((transfer_id, transfer) ∷ transfers) =
    let rest = expired_ids now ttl_seconds transfers in
    if expired now ttl_seconds transfer then transfer_id ∷ rest else rest

unfoldable pub delete_all : List String → Spool → Spool
delete_all [] s = s
delete_all (transfer_id ∷ ids) s = delete_all ids (delete transfer_id s)

unfoldable pub active_paths : Dict String Transfer → List SpoolPath
active_paths [] = []
active_paths ((_, transfer) ∷ transfers) = transfer.spool_path ∷ active_paths transfers

-- A file that no transfer owns is removed once it is older than the time to live.
unfoldable pub keep_files : List SpoolPath → ℕ → ℕ → Dict SpoolPath File → Dict SpoolPath File
keep_files active wall ttl_seconds [] = []
keep_files active wall ttl_seconds ((path, file) ∷ files) =
    let rest = keep_files active wall ttl_seconds files in
    if contains active path || ltb wall (file.modified_at + ttl_seconds)
    then (path, file) ∷ rest
    else rest

unfoldable pub cleanup_orphan_files : ℕ → Spool → Spool
unfolding keep_files
cleanup_orphan_files wall s = record s {
  files = keep_files (active_paths s.transfers) wall s.ttl_seconds s.files;
}

unfoldable pub cleanup_expired_transfers : ℕ → ℕ → Spool → Spool
cleanup_expired_transfers now wall s =
    cleanup_orphan_files wall (delete_all (expired_ids now s.ttl_seconds s.transfers) s)

-- The transfer object is the one that the dict holds, if the dict still holds it.
advance_entry : String → ℕ → ℕ → Dict String Transfer → Option Transfer → Dict String Transfer
advance_entry transfer_id next_offset now transfers none = transfers
advance_entry transfer_id next_offset now transfers (some t) =
    insert transfer_id (record t { next_offset = next_offset; last_accessed_at = now }) transfers

unfoldable pub advance : String → ℕ → ℕ → Dict String Transfer → Dict String Transfer
unfolding advance_entry
advance transfer_id next_offset now transfers =
    advance_entry transfer_id next_offset now transfers (lookup transfer_id transfers)

page_of_file : Transfer → ℕ → ℕ → ℕ → Spool → Option File → Result SpoolError Page × Spool
page_of_file transfer offset byte_limit now s none = (err missing_file, s)
page_of_file transfer offset byte_limit now s (some file) =
    let page = take byte_limit (drop offset file.content) in
    let next = offset + length page in
    if ltb next transfer.byte_count
    then (
      ok (record {
        transfer_id = some transfer.transfer_id;
        container_name = transfer.container_name;
        content = page;
        offset = offset;
        byte_limit = byte_limit;
        truncated = true;
        next_offset = some next;
      }),
      record s { transfers = advance transfer.transfer_id next now s.transfers },
    )
    else (
      ok (record {
        transfer_id = none;
        container_name = transfer.container_name;
        content = page;
        offset = offset;
        byte_limit = byte_limit;
        truncated = false;
        next_offset = none;
      }),
      delete transfer.transfer_id s,
    )

unfoldable pub page_from_transfer : Transfer → ℕ → ℕ → ℕ → Spool → Result SpoolError Page × Spool
unfolding page_of_file
page_from_transfer transfer offset byte_limit now s =
    page_of_file transfer offset byte_limit now s (lookup transfer.spool_path s.files)

unfoldable pub create_page : Transfer → ℕ → ℕ → ℕ → ℕ → Spool → Result SpoolError Page × Spool
create_page transfer offset byte_limit now wall s =
    page_from_transfer transfer offset byte_limit now (cleanup_expired_transfers now wall s)

read_found : ℕ → ℕ → ℕ → Spool → Option Transfer → Result SpoolError Page × Spool
read_found offset byte_limit now s none = (err unknown_transfer, s)
read_found offset byte_limit now s (some transfer) =
    if offset == transfer.next_offset
    then page_from_transfer transfer offset byte_limit now s
    else (err (wrong_offset transfer.next_offset), s)

unfoldable pub read_page : String → ℕ → ℕ → ℕ → ℕ → Spool → Result SpoolError Page × Spool
unfolding read_found
read_page transfer_id offset byte_limit now wall s =
    let cleaned = cleanup_expired_transfers now wall s in
    read_found offset byte_limit now cleaned (lookup transfer_id cleaned.transfers)
