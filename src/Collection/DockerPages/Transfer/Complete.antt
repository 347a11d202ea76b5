-- ===== src/Collection/DockerPages/Transfer/Complete.antt =====
-- A paged transfer is lossless, ends, and leaves nothing behind.
use mathlib.Core.List.{append-nil}
use mcp_log_server.Prelude.{
  List, Option, String, [], ap, arith, drop, false, gt→leb, inl, inr, le_or_lt, length, length-drop,
  length-take, none, refl, some, suc, take_all, zero, ℕ, ◌++◌, ◌+◌, ◌-◌, ◌<◌, ◌∙◌, ◌∷◌, ◌≡◌, ◌≢◌,
  ◌≤◌,
}
use mcp_log_server.Prelude.Result.{Result, err, ok, ok-injective}
use mcp_log_server.Prelude.Utf8.{Bytes}
use mcp_log_server.Collection.DockerPages.{
  Base64, LogPage, StreamError, prepend, stream_docker_log_pages,
}
use mcp_log_server.Collection.DockerPages.Contract.{validated-last, validated-middle}
use mcp_log_server.Collection.DockerPages.Transfer.{
  Assumes, IsCollected, Query, Server, answer, contents, download, request,
}
use mcp_log_server.Collection.DockerPages.Transfer.Requests.{
  first-IsReady, first_file, first_request, first_transfer, limit, page_length, request_last,
  request_middle, stored,
}
use mcp_log_server.Collection.DockerPages.Transfer.Turn.{stream_last, stream_middle}
use mcp_log_server.SocketApp.Adapter.{AdapterError, Docker, from_spool, query_logs}
use mcp_log_server.SocketApp.Spool.{
  Chunk, File, Page, Spool, SpoolPath, Transfer, cleanup_expired_transfers, delete, expired,
  spool_path_of,
}
use mcp_log_server.SocketApp.Spool.Cleanup.{limits-cleanup}
use mcp_log_server.SocketApp.Spool.Create.{IsFresh, all_bytes}
use mcp_log_server.SocketApp.Spool.Turn.{
  IsReady, last_page, last_turn, last_turn_gone, middle_page, middle_state, middle_state-IsReady,
  middle_turn, moved_on, page_bytes, page_then_rest,
}
use mcp_log_server.SocketApp.Spool.Valid.{IsValid}

module _ (docker : Docker) (b64 : Base64) (q : Query) (clock wall : ℕ → ℕ) (ttl : ℕ)
    (a : Assumes b64 q clock ttl) where
  abbrev Out : Type 0
  Out = Result (StreamError AdapterError) (List LogPage) × Server

  prepend-IsCollected :
      (page : LogPage) {rest : Bytes} {path : SpoolPath} {id : String} (out : Out)
      → IsCollected rest path id out
      → IsCollected
          (page.content ++ rest)
          path
          id
          (prepend b64 (request docker b64 q clock wall) page out)
  unfolding prepend
  prepend-IsCollected page (ok pages, state) c = record {
    pages = page ∷ pages;
    collected = refl;
    exact =
        ap (λ (xs : Bytes). page.content ++ xs)
          (ap contents (ok-injective refl c.collected) ∙ c.exact);
    no_transfer = c.no_transfer;
    no_file = c.no_file;
  }
  prepend-IsCollected page (err e, state) c = absurd (err_or_ok c.collected)
    where
      err_or_ok :
          {e : StreamError AdapterError} {xs : List LogPage}
          → Path (Result (StreamError AdapterError) (List LogPage)) (err e) (ok xs)
          → ⊥
      err_or_ok h = cc

  same_rest :
      {rest rest' : Bytes} {path : SpoolPath} {id : String} {out : Out}
      → rest ≡ rest'
      → IsCollected rest path id out
      → IsCollected rest' path id out
  same_rest e c = record {
    pages = c.pages;
    collected = c.collected;
    exact = c.exact ∙ e;
    no_transfer = c.no_transfer;
    no_file = c.no_file;
  }

  abbrev read : Page → Option (String × ℕ) → LogPage
  read page next = record { content = page.content; byte_limit = page.byte_limit; next = next }

  in_use :
      (s : Spool) (t : Transfer) (k : ℕ)
      → s.ttl_seconds ≡ ttl
      → clock k < t.last_accessed_at + ttl
      → expired (clock k) s.ttl_seconds t ≡ false
  unfolding expired
  in_use s t k same live = gt→leb _ _ (omega arith)

  -- What the collector has after a last page.
  all_read :
      (s : Spool) (t : Transfer) (f : File) (k : ℕ) (r : IsReady s t f)
      (live : expired (clock k) s.ttl_seconds t ≡ false)
      → t.byte_count ≤ t.next_offset + length (page_bytes t f limit)
      → IsCollected (drop t.next_offset f.content) t.spool_path t.transfer_id (
        ok (read (last_page t f limit) none ∷ []),
        record {
          spool = delete t.transfer_id (cleanup_expired_transfers (clock k) (wall k) s);
          calls = k + 1;
        },
      )
  all_read s t f k r live h = record {
    pages = read (last_page t f limit) none ∷ [];
    collected = refl;
    exact =
        append-nil (page_bytes t f limit)
        ∙ take_all limit (drop t.next_offset f.content) (
            omega (
              arith,
              h,
              r.whole,
              length-take limit (drop t.next_offset f.content),
              length-drop t.next_offset f.content,
            ));
    no_transfer = (last_turn_gone s t f limit (clock k) (wall k) r live).0;
    no_file = (last_turn_gone s t f limit (clock k) (wall k) r live).1;
  }

  collect_rest :
      (fuel : ℕ) (s : Spool) (t : Transfer) (f : File) (k : ℕ)
      → IsReady s t f
      → s.ttl_seconds ≡ ttl
      → clock k < t.last_accessed_at + ttl
      → t.transfer_id ≢ ""
      → t.byte_count - t.next_offset < fuel
      → IsCollected (drop t.next_offset f.content) t.spool_path t.transfer_id (
          stream_docker_log_pages b64
            (request docker b64 q clock wall)
            fuel
            (some t.transfer_id)
            t.next_offset
            (record { spool = s; calls = k }))
  collect_rest zero s t f k r same live named enough = absurd (omega arith)
  collect_rest (suc fuel) s t f k r same live named enough =
      let live_t : expired (clock k) s.ttl_seconds t ≡ false = in_use s t k same live in
      elim (le_or_lt t.byte_count (t.next_offset + length (page_bytes t f limit))) [
        | inl h ↦
            rw
              (stream_last docker b64 q clock wall fuel (some t.transfer_id) t.next_offset _ _ _ _
                (request_last docker b64 q clock wall s t f k r live_t h)
                (validated-last b64 a.exact (last_page t f limit) refl refl refl (omega arith))
                refl)
              (all_read s t f k r live_t h)
        | inr h ↦
            rw
              (stream_middle docker b64 q clock wall fuel (some t.transfer_id) t.next_offset _ _ _ _
                _ _ (request_middle docker b64 q clock wall s t f k r live_t h)
                (validated-middle b64 a.exact (middle_page t f limit) t.transfer_id refl named refl
                  refl (omega (arith, page_length t f r.whole h)) (omega arith))
                refl)
              (same_rest (page_then_rest s t f limit (clock k) (wall k) r live_t) (
                prepend-IsCollected
                  (read (middle_page t f limit)
                    (some (t.transfer_id, t.next_offset + length (page_bytes t f limit))))
                  _
                  (collect_rest fuel (middle_state s t f limit (clock k) (wall k) r live_t)
                    (moved_on t f limit (clock k)) f (k + 1)
                    (middle_state-IsReady s t f limit (clock k) (wall k) r live_t h)
                    ((limits-cleanup (clock k) (wall k) s).1 ∙ same) (a.in_time k) named
                    (omega (arith, page_length t f r.whole h)))))
      ]

  module _ (chunks : List Chunk) (s : Spool) (k : ℕ) where
    abbrev sent : Transfer
    sent = first_transfer q clock wall chunks s k

    abbrev sent_file : File
    sent_file = first_file q clock wall chunks s k

    abbrev spooled : Spool
    spooled = stored q clock wall chunks s k

    -- A paged collection that runs against the socket app ends and reads all that Docker sent,
    -- byte for byte, and leaves neither the transfer nor its spool file behind: for every stream
    -- within the transfer limit, when base64 is exact, the names of the transfer are fresh, two
    -- requests follow one another within the time to live, and the fuel is more than the stream's
    -- bytes and one.
    pub download_complete :
        IsValid s
        → IsFresh q.stem q.uuid s
        → s.ttl_seconds ≡ ttl
        → q.container_name ≢ ""
        → query_logs docker q.container_name q.stream q.since q.until none ≡ ok chunks
        → length (all_bytes chunks) ≤ s.max_bytes
        → (fuel : ℕ) → length (all_bytes chunks) + 1 < fuel
        → IsCollected
            (all_bytes chunks)
            (spool_path_of q.stem)
            q.uuid
            (download docker b64 q clock wall fuel (record { spool = s; calls = k }))
    unfolding download answer from_spool
    download_complete v fresh same named queried fits zero enough = absurd (omega arith)
    download_complete v fresh same named queried fits (suc fuel) enough =
        let r = first-IsReady q clock wall chunks s k v fresh fits in
        let live = in_use spooled sent k same (omega (arith, a.positive)) in
        elim (le_or_lt sent.byte_count
          (sent.next_offset + length (page_bytes sent sent_file limit))) [
            | inl h ↦
                rw
                  (stream_last docker b64 q clock wall fuel none 0 _ _ _ _
                    (first_request q clock wall chunks s k docker b64 queried named fits _ _
                      (last_turn spooled sent sent_file limit (clock k) (wall k) r live h))
                    (validated-last b64 a.exact (last_page sent sent_file limit) refl refl refl
                      (omega arith))
                    refl)
                  (all_read spooled sent sent_file k r live h)
            | inr h ↦
                rw
                  (stream_middle docker b64 q clock wall fuel none 0 _ _ _ _ _ _
                    (first_request q clock wall chunks s k docker b64 queried named fits _ _
                      (middle_turn spooled sent sent_file limit (clock k) (wall k) r live h))
                    (validated-middle b64 a.exact (middle_page sent sent_file limit) q.uuid refl
                      a.named refl refl (omega (arith, page_length sent sent_file refl h))
                      (omega arith))
                    refl)
                  (same_rest (page_then_rest spooled sent sent_file limit (clock k) (wall k) r live)
                    (prepend-IsCollected
                      (read (middle_page sent sent_file limit) (
                        some (q.uuid, sent.next_offset + length (page_bytes sent sent_file limit))))
                      _
                      (collect_rest fuel
                        (middle_state spooled sent sent_file limit (clock k) (wall k) r live)
                        (moved_on sent sent_file limit (clock k)) sent_file (k + 1)
                        (middle_state-IsReady spooled sent sent_file limit (clock k) (wall k) r live
                          h)
                        ((limits-cleanup (clock k) (wall k) spooled).1 ∙ same) (a.in_time k) a.named
                        (omega (arith, page_length sent sent_file refl h)))))
          ]
