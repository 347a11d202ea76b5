-- ===== src/Collection/DockerPages/Transfer/Turn.antt =====
-- One turn of the loop over the pages.
use mcp_log_server.Prelude.{Option, String, [], none, some, suc, ℕ, ◌∷◌, ◌≡◌}
use mcp_log_server.Prelude.Json.{Fields}
use mcp_log_server.Prelude.Result.{ok}
use mcp_log_server.Collection.DockerPages.{
  Base64, LogPage, after_check, after_page, after_request, prepend, stream_docker_log_pages,
  validated_docker_log_page,
}
use mcp_log_server.Collection.DockerPages.Transfer.{Query, Server, request}
use mcp_log_server.SocketApp.Adapter.{AdapterError, Docker}

module _ (docker : Docker) (b64 : Base64) (q : Query) (clock wall : ℕ → ℕ) where
  pub stream_last :
      (fuel : ℕ) (id : Option String) (offset : ℕ) (server state : Server) (payload : Fields)
      (page : LogPage)
      → request docker b64 q clock wall id offset server ≡ (ok payload, state)
      → validated_docker_log_page {E = AdapterError} b64 payload offset ≡ ok page
      → page.next ≡ none
      → stream_docker_log_pages b64 (request docker b64 q clock wall) (suc fuel) id offset server
        ≡ (ok (page ∷ []), state)
  unfolding stream_docker_log_pages after_request after_check after_page
  stream_last fuel id offset server state payload page asked valid last = rw (asked, valid, last)

  pub stream_middle :
      (fuel : ℕ) (id : Option String) (offset : ℕ) (server state : Server) (payload : Fields)
      (page : LogPage) (next_id : String) (next_offset : ℕ)
      → request docker b64 q clock wall id offset server ≡ (ok payload, state)
      → validated_docker_log_page {E = AdapterError} b64 payload offset ≡ ok page
      → page.next ≡ some (next_id, next_offset)
      → stream_docker_log_pages b64 (request docker b64 q clock wall) (suc fuel) id offset server
        ≡ prepend b64 (request docker b64 q clock wall) page (
            stream_docker_log_pages b64
              (request docker b64 q clock wall)
              fuel
              (some next_id)
              next_offset
              state)
  unfolding stream_docker_log_pages after_request after_check after_page
  stream_middle fuel id offset server state payload page next_id next_offset asked valid more =
      rw (asked, valid, more)
