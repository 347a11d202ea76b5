-- ===== src/Collection/DockerPages/Transfer/Requests.antt =====
-- What one request of a paged collection does: the first, one in the middle, and the last.
use Prim.Native.Nat.{zero-le}
use mcp_log_server.Prelude.{
  List, arith, beq_ne, beq_refl, bool_eq, drop, false, leb_zero, length, length-drop, length-take,
  list_eq, nat_eq, none, option_eq, refl, some, string_eq, ℕ, ◌+◌, ◌<◌, ◌∙◌, ◌≡◌, ◌≢◌, ◌≤◌,
}
use mcp_log_server.Prelude.Dict.{lookup-insert}
use mcp_log_server.Prelude.Int.{int_eq}
use mcp_log_server.Prelude.Result.{Result, ok}
use mcp_log_server.Analysis.Routes.{key_eq}
use mcp_log_server.Collection.DockerPages.{Base64, page_payload}
use mcp_log_server.Collection.DockerPages.Transfer.{
  Query, Server, answer, docker_log_page_max_bytes, page_params, request,
}
use mcp_log_server.SocketApp.Adapter.{Docker, container_logs_page, from_spool, query_logs}
use mcp_log_server.SocketApp.Spool.{
  Chunk, File, Page, Spool, SpoolError, Transfer, cleanup_expired_transfers, create_page, delete,
  expired, page_from_transfer, path_eq, spool_path_of,
}
use mcp_log_server.SocketApp.Spool.Create.{
  IsFresh, all_bytes, create_fits, new_transfer, stored_state, stored_state-IsValid,
}
use mcp_log_server.SocketApp.Spool.Turn.{
  IsReady, last_page, last_turn, middle_page, middle_state, middle_turn, page_bytes,
  read_page-ready,
}
use mcp_log_server.SocketApp.Spool.Valid.{IsValid}

abbrev pub limit : ℕ
limit = docker_log_page_max_bytes

pub page_length :
    (t : Transfer) (f : File)
    → length f.content ≡ t.byte_count
    → t.next_offset + length (page_bytes t f limit) < t.byte_count
    → length (page_bytes t f limit) ≡ limit
page_length t f whole h =
    omega
      (arith, length-take limit (drop t.next_offset f.content), length-drop t.next_offset f.content)

module _ (docker : Docker) (b64 : Base64) (q : Query) (clock wall : ℕ → ℕ) where
  -- The read of a server that holds a transfer in use.
  module _ (s : Spool) (t : Transfer) (f : File) (k : ℕ) (r : IsReady s t f)
      (live : expired (clock k) s.ttl_seconds t ≡ false) where
    abbrev server : Server
    server = record { spool = s; calls = k }

    pub request_middle :
        t.next_offset + length (page_bytes t f limit) < t.byte_count
        → request docker b64 q clock wall (some t.transfer_id) t.next_offset server ≡ (
          ok (page_payload b64 (middle_page t f limit)),
          record { spool = middle_state s t f limit (clock k) (wall k) r live; calls = k + 1 },
        )
    unfolding request container_logs_page page_params answer
    request_middle h = rw (
      leb_zero t.next_offset,
      read_page-ready s t f limit (clock k) (wall k) r live,
      middle_turn s t f limit (clock k) (wall k) r live h,
    )

    pub request_last :
        t.byte_count ≤ t.next_offset + length (page_bytes t f limit)
        → request docker b64 q clock wall (some t.transfer_id) t.next_offset server ≡ (
          ok (page_payload b64 (last_page t f limit)),
          record {
            spool = delete t.transfer_id (cleanup_expired_transfers (clock k) (wall k) s);
            calls = k + 1;
          },
        )
    unfolding request container_logs_page page_params answer
    request_last h = rw (
      leb_zero t.next_offset,
      read_page-ready s t f limit (clock k) (wall k) r live,
      last_turn s t f limit (clock k) (wall k) r live h,
    )

module _ (q : Query) (clock wall : ℕ → ℕ) (chunks : List Chunk) (s : Spool) (k : ℕ) where
  abbrev pub first_transfer : Transfer
  first_transfer = new_transfer q.container_name q.stem q.uuid (clock k) (length (all_bytes chunks))

  abbrev pub first_file : File
  first_file = record { content = all_bytes chunks; modified_at = wall k }

  abbrev pub stored : Spool
  stored = stored_state q.container_name chunks q.stem q.uuid (clock k) (wall k) s

  pub first-IsReady :
      IsValid s
      → IsFresh q.stem q.uuid s
      → length (all_bytes chunks) ≤ s.max_bytes
      → IsReady stored first_transfer first_file
  first-IsReady v fresh fits = record {
    valid =
        stored_state-IsValid q.container_name chunks q.stem q.uuid (clock k) (wall k) s v fresh
          fits;
    here = lookup-insert q.uuid q.uuid first_transfer s.transfers ∙ rw (beq_refl q.uuid);
    stored =
        lookup-insert (spool_path_of q.stem) (spool_path_of q.stem) first_file _
        ∙ rw (beq_refl q.stem);
    whole = refl;
    cursor = zero-le;
  }

  -- The first request queries Docker, spools the stream and serves its first page.
  pub first_request :
      (docker : Docker) (b64 : Base64)
      → query_logs docker q.container_name q.stream q.since q.until none ≡ ok chunks
      → q.container_name ≢ ""
      → length (all_bytes chunks) ≤ s.max_bytes
      → (page : Result SpoolError Page) (state : Spool)
      → page_from_transfer first_transfer 0 limit
          (clock k)
          (cleanup_expired_transfers (clock k) (wall k) stored)
        ≡ (page, state)
      → request docker b64 q clock wall none 0 (record { spool = s; calls = k })
        ≡ (answer b64 (from_spool page), record { spool = state; calls = k + 1 })
  unfolding request container_logs_page page_params answer create_page
  first_request docker b64 queried named fits page state turn = rw (
    queried,
    beq_ne q.container_name "" named,
    create_fits q.container_name chunks q.stem q.uuid (clock k) (wall k) s fits,
    turn,
  )
