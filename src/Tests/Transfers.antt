-- ===== src/Tests/Transfers.antt =====
-- The theorems on log transfers, at small inputs.
use mcp_log_server.Prelude.{
  String, [], arith, bool_eq, eq_iff, list_eq, nat_eq, none, option_eq, refl, some, string_eq, true,
  ◌*◌, ◌+◌, ◌<◌, ◌∷◌, ◌≡◌, ◌≢◌, ◌≤◌,
}
use mcp_log_server.Prelude.Dict.{insert, lookup}
use mcp_log_server.Prelude.Int.{int_eq, pos}
use mcp_log_server.Prelude.Result.{err, ok}
use mcp_log_server.Prelude.Strings.{strip_end}
use mcp_log_server.Prelude.Utf8.{encode}
use mcp_log_server.Analysis.Routes.{key_eq}
use mcp_log_server.Collection.DockerPages.{
  empty_tally, line_count, out_of_fuel, page_payload, tally_chunks, validated_docker_log_page,
}
use mcp_log_server.Collection.DockerPages.Contract.{validated-middle}
use mcp_log_server.Collection.DockerPages.Lines.{line_count-tally_chunks, lines_from}
use mcp_log_server.Collection.DockerPages.Transfer.{Assumes, IsCollected, Query, download}
use mcp_log_server.Collection.DockerPages.Transfer.Complete.{download_complete}
use mcp_log_server.Collection.DockerPages.Transfer.Ends.{download_ends}
use mcp_log_server.Filtering.Cut.Replace.{decode_replace}
use mcp_log_server.SocketApp.Adapter.{
  Ambient, PageRequest, bounded_lines, container_logs_page, line_of, query_logs,
}
use mcp_log_server.SocketApp.Adapter.Limits.{
  IsBounded, bounded_lines-IsBounded, container_logs_page-IsValid,
}
use mcp_log_server.SocketApp.Spool.{
  Page, cleanup_expired_transfers, create, path_eq, raw, spool_path_of, write_chunks,
}
use mcp_log_server.SocketApp.Spool.Cleanup.{cleanup_time_to_live}
use mcp_log_server.SocketApp.Spool.Create.{
  IsFresh, all_bytes, write_chunks_lem, written_or_too_large,
}
use mcp_log_server.SocketApp.Spool.Valid.{IsValid}
use mcp_log_server.Tests.Samples.{
  empty_spool, empty_spool-IsFresh, empty_spool-IsValid, one_transfer, one_transfer-IsValid,
  sample_chunks, sample_docker, unary_base64, unary_exact,
}

abbrev sample_query : Query
sample_query = record {
  container_name = "web";
  stream = none;
  since = none;
  until = none;
  stem = "x";
  uuid = "id";
}

sample-Assumes : Assumes unary_base64 sample_query (λ k. k) 10
sample-Assumes = record {
  exact = unary_exact;
  named = λ e. ground (arith, eq_iff "id" "");
  in_time = λ k. omega arith;
  positive = omega arith;
}

download_complete_example : IsCollected (72 ∷ 10 ∷ 195 ∷ 169 ∷ []) (spool_path_of "x") "id" (
    download sample_docker unary_base64 sample_query
      (λ k. k)
      (λ k. k)
      6
      (record { spool = empty_spool; calls = 3 }))
unfolding query_logs encode raw
download_complete_example =
    download_complete sample_docker unary_base64 sample_query (λ k. k) (λ k. k) 10 sample-Assumes
      sample_chunks empty_spool 3 empty_spool-IsValid (empty_spool-IsFresh "x" "id") refl
      (λ e. ground (arith, eq_iff "web" "")) refl (omega arith) 6 (omega arith)

-- The clock moves past the time to live between two requests.
download_ends_example :
    (download sample_docker unary_base64 sample_query
      (λ k. 100 * k)
      (λ k. k)
      101
      (record { spool = empty_spool; calls = 3 })).0
    ≢ err out_of_fuel
download_ends_example =
    download_ends sample_docker unary_base64 sample_query (λ k. 100 * k) (λ k. k) 101 empty_spool 3
      empty_spool-IsValid (empty_spool-IsFresh "x" "id") (omega arith)

-- The next page of a stored transfer.
abbrev next_request : PageRequest
next_request = record {
  transfer_id = some "id";
  container_name = none;
  stream = none;
  since = none;
  until = none;
  tail = none;
  offset = pos 0;
  max_bytes = some (pos 3);
}

abbrev sample_ambient : Ambient
sample_ambient = record { stem = "y"; uuid = "id2"; now = 6; wall = 8 }

one_transfer-IsFresh : IsFresh "y" "id2" one_transfer
unfolding create lookup insert write_chunks raw encode
one_transfer-IsFresh = record {
  no_id = refl;
  no_stem = λ id t e same. ground (arith, eq_iff "x" "y", eq_iff "id" id);
}

container_logs_page-IsValid_example :
    IsValid (container_logs_page sample_docker next_request sample_ambient one_transfer).1
container_logs_page-IsValid_example =
    container_logs_page-IsValid sample_docker next_request sample_ambient one_transfer
      one_transfer-IsValid one_transfer-IsFresh

cleanup_time_to_live_example :
    (5 + 10 ≤ 15 → lookup "id" (cleanup_expired_transfers 15 9 one_transfer).transfers ≡ none)
    × (15 < 5 + 10
        → lookup "id" (cleanup_expired_transfers 15 9 one_transfer).transfers
          ≡ lookup "id" one_transfer.transfers)
unfolding create lookup insert write_chunks raw encode
cleanup_time_to_live_example = cleanup_time_to_live 15 9 one_transfer "id" _ (refl, tt) refl

write_chunks_lem_example :
    write_chunks 3 sample_chunks [] 0 ≡ written_or_too_large 3 [] (all_bytes sample_chunks) 0
write_chunks_lem_example = write_chunks_lem 3 sample_chunks [] 0 (omega arith)

bounded_lines-IsBounded_example :
    IsBounded
      ((72 ∷ 10 ∷ []) ∷ (255 ∷ []) ∷ [])
      999_998
      (bounded_lines ((72 ∷ 10 ∷ []) ∷ (255 ∷ []) ∷ []) 999_998)
bounded_lines-IsBounded_example =
    bounded_lines-IsBounded ((72 ∷ 10 ∷ []) ∷ (255 ∷ []) ∷ []) 999_998 (omega arith)

-- A byte that starts no character, one that goes on with none before it, and one cut short.
replaced_bytes :
    line_of (72 ∷ 255 ∷ 128 ∷ 195 ∷ 169 ∷ 226 ∷ 130 ∷ 65 ∷ 226 ∷ 10 ∷ 10 ∷ [])
    ≡ 72 ∷ 0xfffd ∷ 0xfffd ∷ 233 ∷ 0xfffd ∷ 65 ∷ 0xfffd ∷ []
unfolding line_of decode_replace strip_end
replaced_bytes = refl

abbrev first_of_page : Page
first_of_page = record {
  transfer_id = some "id";
  container_name = "web";
  content = 72 ∷ 10 ∷ 195 ∷ [];
  offset = 0;
  byte_limit = 3;
  truncated = true;
  next_offset = some 3;
}

abbrev sample_page : Page
sample_page = record {
  transfer_id = some "id";
  container_name = "web";
  content = 72 ∷ 10 ∷ [];
  offset = 5;
  byte_limit = 2;
  truncated = true;
  next_offset = some 7;
}

validated-middle_example :
    validated_docker_log_page {E = String} unary_base64 (page_payload unary_base64 sample_page) 5
    ≡ ok (record { content = 72 ∷ 10 ∷ []; byte_limit = 2; next = some ("id", 7) })
validated-middle_example =
    validated-middle unary_base64 unary_exact sample_page "id" refl
      (λ e. ground (arith, eq_iff "id" "")) refl refl (omega arith) (omega arith)

line_count-tally_chunks_example :
    line_count (tally_chunks empty_tally ((72 ∷ []) ∷ (10 ∷ 73 ∷ []) ∷ []))
    ≡ lines_from true (72 ∷ 10 ∷ 73 ∷ [])
line_count-tally_chunks_example = line_count-tally_chunks ((72 ∷ []) ∷ (10 ∷ 73 ∷ []) ∷ [])
