-- ===== src/Collection/DockerPages.antt =====
-- The paged reading of Docker logs in src/services/log_collection.py: the page contract, the loop
-- over the pages, and the counters of `_collect_docker_source`. Base64 and the socket are parameters.
pub mod Lines
pub mod Contract
pub mod Progress
pub mod Transfer
use mcp_log_server.Prelude.{
  Bool, List, Option, String, [], false, if◌then◌else◌, length, nat_eq, none, not, option_eq, some,
  string_eq, suc, true, zero, ℕ, ◌&&◌, ◌+◌, ◌==◌, ◌∷◌,
}
use mcp_log_server.Prelude.Int.{int_eq, pos}
use mcp_log_server.Prelude.Json.{
  Fields, Json, bool, end, equals_int, field, get_or_null, int, null, str,
}
use mcp_log_server.Prelude.Result.{Result, err, ok, ◌>>=◌}
use mcp_log_server.Prelude.Utf8.{Bytes, encode}
use mcp_log_server.SocketApp.Spool.{Page, path_eq}

-- Python's base64 module: `b64encode` and `b64decode(..., validate=True)`.
pub record Base64 : Type 0 where
  pub encode : Bytes → String
  pub decode : String → Option Bytes

-- `LogTransferPage.to_payload` of the socket app.
abbrev optional_text : Option String → Json
optional_text none = null
optional_text (some s) = str s

abbrev optional_number : Option ℕ → Json
optional_number none = null
optional_number (some n) = int (pos n)

unfoldable pub page_payload : Base64 → Page → Fields
page_payload b64 page = field "transfer_id" (optional_text page.transfer_id) (
    field "container_name" (str page.container_name) (
      field "logs_base64" (str (b64.encode page.content)) (
        field "offset" (int (pos page.offset)) (
          field "returned_bytes" (int (pos (length page.content))) (
            field "byte_limit" (int (pos page.byte_limit)) (
              field "truncated" (bool page.truncated)
                (field "next_offset" (optional_number page.next_offset) end)))))))

-- The messages of `DockerSocketGatewayError`; `server_error` is what the request itself raised.
pub data StreamError (E : Type 0) : Type 0 where
  server_error : E → StreamError E
  invalid_base64 : StreamError E
  invalid_page : StreamError E
  non_progressing_page : StreamError E
  invalid_final_page : StreamError E
  out_of_fuel : StreamError E

-- A validated page. `next` holds the transfer id and the offset of a truncated page.
pub record LogPage : Type 0 where
  pub content : Bytes
  pub byte_limit : ℕ
  pub next : Option (String × ℕ)

-- An integer that is no bool and equals `n`.
pub is_exactly : Json → ℕ → Bool
is_exactly (int (pos m)) n = m == n
is_exactly _ n = false

-- A positive integer that is no bool.
positive_int : Json → Option ℕ
positive_int (int (pos n)) = if n == 0 then none else some n
positive_int _ = none

is_null : Json → Bool
is_null null = true
is_null _ = false

module _ {E : Type 0} where
  decoded_content : Base64 → Json → Result (StreamError E) Bytes
  decoded_content b64 (str s) = elim (b64.decode s) [ none ↦ err invalid_base64 | some b ↦ ok b ]
  decoded_content b64 _ = err invalid_page

  -- The checks on the cursor of a page with a boolean `truncated`.
  checked_cursor : Bytes → ℕ → ℕ → Json → Json → Json → Result (StreamError E) LogPage
  checked_cursor content byte_limit expected (bool true) next_offset (str transfer_id) =
      if equals_int next_offset (pos expected)
        && not (length content == 0)
        && not (transfer_id == "")
      then ok (record {
        content = content;
        byte_limit = byte_limit;
        next = some (transfer_id, expected);
      })
      else err non_progressing_page
  checked_cursor content byte_limit expected (bool true) next_offset _ = err non_progressing_page
  checked_cursor content byte_limit expected (bool false) next_offset transfer_id =
      if is_null next_offset && is_null transfer_id
      then ok (record { content = content; byte_limit = byte_limit; next = none })
      else err invalid_final_page
  checked_cursor content byte_limit expected _ next_offset transfer_id = err invalid_page

  checked_limit : Fields → ℕ → Bytes → Option ℕ → Result (StreamError E) LogPage
  checked_limit payload expected_offset content none = err invalid_page
  checked_limit payload expected_offset content (some byte_limit) =
      checked_cursor content byte_limit (expected_offset + length content)
        (get_or_null payload "truncated") (get_or_null payload "next_offset")
        (get_or_null payload "transfer_id")

  -- `_validated_docker_log_page`
  unfoldable pub validated_docker_log_page : Base64 → Fields → ℕ → Result (StreamError E) LogPage
  unfolding decoded_content checked_cursor checked_limit is_exactly positive_int is_null
  validated_docker_log_page b64 payload expected_offset =
      decoded_content b64 (get_or_null payload "logs_base64") >>= λ content.
      if equals_int (get_or_null payload "offset") (pos expected_offset)
        && is_exactly (get_or_null payload "returned_bytes") (length content)
      then checked_limit payload expected_offset content
          (positive_int (get_or_null payload "byte_limit"))
      else err invalid_page

-- `request` sends the page parameters: those of a new transfer where there is no id yet.
module _ {E S : Type 0} (b64 : Base64) (request : Option String → ℕ → S → Result E Fields × S) where
  abbrev Pages : Type 0
  Pages = Result (StreamError E) (List LogPage) × S

  pub prepend : LogPage → Pages → Pages
  prepend page (ok pages, s) = (ok (page ∷ pages), s)
  prepend page (err e, s) = (err e, s)

  after_page : (Option String → ℕ → S → Pages) → S → LogPage → Option (String × ℕ) → Pages
  after_page rest s page none = (ok (page ∷ []), s)
  after_page rest s page (some (transfer_id, offset)) =
      prepend page (rest (some transfer_id) offset s)

  after_check : (Option String → ℕ → S → Pages) → S → Result (StreamError E) LogPage → Pages
  after_check rest s (err e) = (err e, s)
  after_check rest s (ok page) = after_page rest s page page.next

  after_request : (Option String → ℕ → S → Pages) → ℕ → Result E Fields × S → Pages
  after_request rest offset (err e, s) = (err (server_error e), s)
  after_request rest offset (ok payload, s) =
      after_check rest s (validated_docker_log_page b64 payload offset)

  -- `_stream_docker_log_pages` from one turn of its loop on: the pages that it yields. The fuel
  -- bounds the turns.
  unfoldable pub stream_docker_log_pages : ℕ → Option String → ℕ → S → Pages
  unfolding after_request after_check after_page prepend
  stream_docker_log_pages zero transfer_id offset s = (err out_of_fuel, s)
  stream_docker_log_pages (suc fuel) transfer_id offset s =
      after_request (stream_docker_log_pages fuel) offset (request transfer_id offset s)

-- The counters of `_collect_docker_source`.
pub record Tally : Type 0 where
  pub byte_count : ℕ
  pub newline_count : ℕ
  pub trailing_byte : Option ℕ

unfoldable pub count_newlines : Bytes → ℕ
count_newlines [] = 0
count_newlines (b ∷ bytes) = if b == 10 then suc (count_newlines bytes) else count_newlines bytes

unfoldable pub last_byte : Option ℕ → Bytes → Option ℕ
last_byte previous [] = previous
last_byte previous (b ∷ bytes) = last_byte (some b) bytes

unfoldable pub add_chunk : Tally → Bytes → Tally
unfolding count_newlines last_byte
add_chunk tally chunk = record {
  byte_count = tally.byte_count + length chunk;
  newline_count = tally.newline_count + count_newlines chunk;
  trailing_byte = last_byte tally.trailing_byte chunk;
}

unfoldable pub tally_chunks : Tally → List Bytes → Tally
tally_chunks tally [] = tally
tally_chunks tally (chunk ∷ chunks) = tally_chunks (add_chunk tally chunk) chunks

abbrev pub empty_tally : Tally
empty_tally = record { byte_count = 0; newline_count = 0; trailing_byte = none }

unfoldable pub line_count : Tally → ℕ
line_count tally =
    if tally.byte_count == 0
    then 0
    else if tally.trailing_byte == some 10
    then tally.newline_count
    else tally.newline_count + 1
