-- ===== src/Collection/DockerPages/Transfer.antt =====
-- The collector's loop against the socket app: both ends of a paged log transfer together.
pub mod Complete
pub mod Ends
pub mod Requests
pub mod Turn
use mcp_log_server.Prelude.{
  List, Option, String, [], nat_eq, none, option_eq, some, string_eq, ℕ, ◌++◌, ◌+◌, ◌<◌, ◌∷◌, ◌≡◌,
  ◌≢◌,
}
use mcp_log_server.Prelude.Dict.{lookup}
use mcp_log_server.Prelude.Int.{int_eq, pos}
use mcp_log_server.Prelude.Json.{Fields}
use mcp_log_server.Prelude.Result.{Result, err, ok}
use mcp_log_server.Prelude.Utf8.{Bytes}
use mcp_log_server.Collection.DockerPages.{
  Base64, LogPage, StreamError, page_payload, stream_docker_log_pages,
}
use mcp_log_server.SocketApp.Adapter.{
  AdapterError, Ambient, Docker, PageRequest, container_logs_page,
}
use mcp_log_server.SocketApp.Registry.{LogStream}
use mcp_log_server.SocketApp.Spool.{Page, Spool, SpoolPath, path_eq, spool}

-- `_DOCKER_LOG_PAGE_MAX_BYTES`
abbrev pub docker_log_page_max_bytes : ℕ
docker_log_page_max_bytes = 1_000_000

-- The socket app, with the number of requests that it has seen; the clocks are read once each.
pub record Server : Type 0 where
  pub spool : Spool
  pub calls : ℕ

-- The query of the collection, and the names that the socket app picks for its transfer.
pub record Query : Type 0 where
  pub container_name : String
  pub stream : Option LogStream
  pub since : Option String
  pub until : Option String
  pub stem : String
  pub uuid : String

-- `page_params`
unfoldable pub page_params : Query → Option String → ℕ → PageRequest
page_params q none offset = record {
  transfer_id = none;
  container_name = some q.container_name;
  stream = q.stream;
  since = q.since;
  until = q.until;
  tail = none;
  offset = pos offset;
  max_bytes = some (pos docker_log_page_max_bytes);
}
page_params q (some transfer_id) offset = record {
  transfer_id = some transfer_id;
  container_name = none;
  stream = none;
  since = none;
  until = none;
  tail = none;
  offset = pos offset;
  max_bytes = some (pos docker_log_page_max_bytes);
}

-- The payload of a page, or the error.
unfoldable pub answer : Base64 → Result AdapterError Page → Result AdapterError Fields
answer b64 (ok page) = ok (page_payload b64 page)
answer b64 (err e) = err e

module _ (docker : Docker) (b64 : Base64) (q : Query) (clock wall : ℕ → ℕ) where
  -- One request of the collector, answered by the socket app.
  unfoldable pub request : Option String → ℕ → Server → Result AdapterError Fields × Server
  unfolding page_params answer
  request transfer_id offset server =
      let env : Ambient = record {
        stem = q.stem;
        uuid = q.uuid;
        now = clock server.calls;
        wall = wall server.calls;
      } in
      let (page, s) =
        container_logs_page docker (page_params q transfer_id offset) env server.spool in
      (answer b64 page, record { spool = s; calls = server.calls + 1 })

  -- The whole collection.
  unfoldable pub download : ℕ → Server → Result (StreamError AdapterError) (List LogPage) × Server
  download fuel server = stream_docker_log_pages b64 (request) fuel none 0 server

-- What the theorems rely on: base64 is exact, and two requests follow one another within the
-- time to live.
pub record Assumes (b64 : Base64) (q : Query) (clock : ℕ → ℕ) (ttl_seconds : ℕ) : Type 0 where
  pub exact : (b : Bytes) → b64.decode (b64.encode b) ≡ some b
  pub named : q.uuid ≢ ""
  pub in_time : (k : ℕ) → clock (k + 1) < clock k + ttl_seconds
  pub positive : 0 < ttl_seconds

abbrev pub contents : List LogPage → Bytes
contents [] = []
contents (page ∷ pages) = page.content ++ contents pages

-- The collector read the rest of a file, and nothing of the transfer is left.
pub record IsCollected (rest : Bytes) (path : SpoolPath) (id : String)
    (out : Result (StreamError AdapterError) (List LogPage) × Server) : Type 0 where
  pub pages : List LogPage
  pub collected : out.0 ≡ ok pages
  pub exact : contents pages ≡ rest
  pub no_transfer : lookup id out.1.spool.transfers ≡ none
  pub no_file : lookup path out.1.spool.files ≡ none
