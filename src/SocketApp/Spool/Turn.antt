-- ===== src/SocketApp/Spool/Turn.antt =====
-- One page of a stored transfer: a page in the middle, and the last page.
use mcp_log_server.Prelude.{
  ap, arith, beq_refl, drop, drop-drop, drop-length-take, false, ge→ltb, length, lt→ltb, nat_eq,
  none, option_eq, some, string_eq, sym, take, take-append-drop, true, ℕ, ◌++◌, ◌+◌, ◌<◌, ◌∙◌, ◌≡◌,
  ◌≤◌,
}
use mcp_log_server.Prelude.Dict.{lookup, lookup-insert}
use mcp_log_server.Prelude.Int.{int_eq}
use mcp_log_server.Prelude.Result.{ok}
use mcp_log_server.Prelude.Utf8.{Bytes}
use mcp_log_server.SocketApp.Spool.{
  File, Page, Spool, Transfer, advance, cleanup_expired_transfers, delete, expired,
  page_from_transfer, page_of_file, path_eq, read_found, read_page,
}
use mcp_log_server.SocketApp.Spool.Cleanup.{cleanup-IsValid, files-cleanup, lookup-cleanup_live}
use mcp_log_server.SocketApp.Spool.Paging.{advance-IsValid, advance-found}
use mcp_log_server.SocketApp.Spool.Valid.{IsValid, delete-file, lookup-delete}

-- The transfer `t` with its file `f`, ready for its next page.
pub record IsReady (s : Spool) (t : Transfer) (f : File) : Type 0 where
  pub valid : IsValid s
  pub here : lookup t.transfer_id s.transfers ≡ some t
  pub stored : lookup t.spool_path s.files ≡ some f
  pub whole : length f.content ≡ t.byte_count
  pub cursor : t.next_offset ≤ t.byte_count

abbrev pub page_bytes : Transfer → File → ℕ → Bytes
page_bytes t f byte_limit = take byte_limit (drop t.next_offset f.content)

abbrev pub middle_page : Transfer → File → ℕ → Page
middle_page t f byte_limit = record {
  transfer_id = some t.transfer_id;
  container_name = t.container_name;
  content = page_bytes t f byte_limit;
  offset = t.next_offset;
  byte_limit = byte_limit;
  truncated = true;
  next_offset = some (t.next_offset + length (page_bytes t f byte_limit));
}

abbrev pub last_page : Transfer → File → ℕ → Page
last_page t f byte_limit = record {
  transfer_id = none;
  container_name = t.container_name;
  content = page_bytes t f byte_limit;
  offset = t.next_offset;
  byte_limit = byte_limit;
  truncated = false;
  next_offset = none;
}

abbrev pub moved_on : Transfer → File → ℕ → ℕ → Transfer
moved_on t f byte_limit now = record t {
  next_offset = t.next_offset + length (page_bytes t f byte_limit);
  last_accessed_at = now;
}

module _ (s : Spool) (t : Transfer) (f : File) (byte_limit now wall : ℕ) (r : IsReady s t f)
    (live : expired now s.ttl_seconds t ≡ false) where
  abbrev cleaned : Spool
  cleaned = cleanup_expired_transfers now wall s

  pub cleaned-IsReady : IsReady cleaned t f
  cleaned-IsReady = record {
    valid = cleanup-IsValid now wall s r.valid;
    here = lookup-cleanup_live now wall s t.transfer_id t r.valid.nodup r.here live;
    stored = files-cleanup now wall s t.transfer_id t r.valid r.here live ∙ r.stored;
    whole = r.whole;
    cursor = r.cursor;
  }

  abbrev pub middle_state : Spool
  middle_state = record cleaned {
    transfers =
        advance t.transfer_id (t.next_offset + length (page_bytes t f byte_limit)) now
          cleaned.transfers;
  }

  pub middle_turn :
      t.next_offset + length (page_bytes t f byte_limit) < t.byte_count
      → page_from_transfer t t.next_offset byte_limit now cleaned
        ≡ (ok (middle_page t f byte_limit), middle_state)
  unfolding page_from_transfer page_of_file
  middle_turn h = rw (cleaned-IsReady.stored, lt→ltb _ _ h)

  pub middle_state-IsReady :
      t.next_offset + length (page_bytes t f byte_limit) < t.byte_count
      → IsReady middle_state (moved_on t f byte_limit now) f
  middle_state-IsReady h =
      let next = t.next_offset + length (page_bytes t f byte_limit) in
      let c = cleaned-IsReady in
      record {
        valid = advance-IsValid cleaned t.transfer_id next now t c.valid c.here (omega arith);
        here =
            ap (lookup t.transfer_id)
              (advance-found t.transfer_id next now cleaned.transfers t c.here)
            ∙ lookup-insert t.transfer_id t.transfer_id (moved_on t f byte_limit now)
                cleaned.transfers
            ∙ rw (beq_refl t.transfer_id);
        stored = c.stored;
        whole = c.whole;
        cursor = omega arith;
      }

  pub last_turn :
      t.byte_count ≤ t.next_offset + length (page_bytes t f byte_limit)
      → page_from_transfer t t.next_offset byte_limit now cleaned
        ≡ (ok (last_page t f byte_limit), delete t.transfer_id cleaned)
  unfolding page_from_transfer page_of_file
  last_turn h = rw (cleaned-IsReady.stored, ge→ltb _ _ h)

  -- After its last page nothing of the transfer is left.
  pub last_turn_gone :
      (lookup t.transfer_id (delete t.transfer_id cleaned).transfers ≡ none)
      × (lookup t.spool_path (delete t.transfer_id cleaned).files ≡ none)
  last_turn_gone = (
    lookup-delete t.transfer_id t.transfer_id cleaned ∙ rw (beq_refl t.transfer_id),
    delete-file t.transfer_id cleaned t cleaned-IsReady.here,
  )

  -- A page is a cut of the file, and with the rest it is the rest of the file.
  pub page_then_rest :
      page_bytes t f byte_limit
        ++ drop (t.next_offset + length (page_bytes t f byte_limit)) f.content
      ≡ drop t.next_offset f.content
  page_then_rest =
      ap (λ (xs : Bytes). page_bytes t f byte_limit ++ xs)
        (sym (drop-drop t.next_offset (length (page_bytes t f byte_limit)) f.content)
          ∙ drop-length-take byte_limit (drop t.next_offset f.content))
      ∙ take-append-drop byte_limit (drop t.next_offset f.content)

  -- A read at the cursor is the next page.
  pub read_page-ready :
      read_page t.transfer_id t.next_offset byte_limit now wall s
      ≡ page_from_transfer t t.next_offset byte_limit now cleaned
  unfolding read_page read_found
  read_page-ready = rw (cleaned-IsReady.here, beq_refl t.next_offset)
