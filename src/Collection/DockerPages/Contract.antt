-- ===== src/Collection/DockerPages/Contract.antt =====
-- The page contract: a page's payload from the socket app through `_validated_docker_log_page`.

use mcp_log_server.Prelude.{String, arith, eq_iff, false, length, none, some, true, ◌+◌, ◌≡◌, ◌≢◌}
use mcp_log_server.Prelude.Result.{ok}
use mcp_log_server.Prelude.Utf8.{Bytes}
use mcp_log_server.Collection.DockerPages.{Base64, page_payload, validated_docker_log_page}
use mcp_log_server.SocketApp.Spool.{Page}

module _ {E : Type 0} (b64 : Base64)
    (exact : (b : Bytes) → b64.decode (b64.encode b) ≡ some b) where
  -- The collector accepts the payload of a page that does not end its transfer and reads the same
  -- bytes and cursor from it, when base64 is exact, the page has bytes, a limit and a transfer id,
  -- and its next offset is its end.
  pub validated-middle :
      (page : Page) (id : String)
      → page.transfer_id ≡ some id
      → id ≢ ""
      → page.truncated ≡ true
      → page.next_offset ≡ some (page.offset + length page.content)
      → length page.content ≢ 0
      → page.byte_limit ≢ 0
      → validated_docker_log_page {E = E} b64 (page_payload b64 page) page.offset
        ≡ ok (record {
          content = page.content;
          byte_limit = page.byte_limit;
          next = some (id, page.offset + length page.content);
        })
  unfolding validated_docker_log_page page_payload
  validated-middle page id named named_ne truncated next bytes limit =
      rw (exact page.content, named, truncated, next) (ground (arith, eq_iff id ""))

  pub validated-last :
      (page : Page)
      → page.transfer_id ≡ none
      → page.truncated ≡ false
      → page.next_offset ≡ none
      → page.byte_limit ≢ 0
      → validated_docker_log_page {E = E} b64 (page_payload b64 page) page.offset
        ≡ ok (record { content = page.content; byte_limit = page.byte_limit; next = none })
  unfolding validated_docker_log_page page_payload
  validated-last page named truncated next limit =
      rw (exact page.content, named, truncated, next) (ground arith)
