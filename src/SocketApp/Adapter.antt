-- ===== src/SocketApp/Adapter.antt =====
-- The log operations of `DockerSdkAdapter`, socket-app/src/socket_app/adapters.py. The Docker SDK
-- and the reading of ISO timestamps are the fields of `Docker`.
pub mod Limits
pub mod Served
use mcp_log_server.Prelude.{
  Bool, List, Option, String, [], bool_eq, false, if◌then◌else◌, length, list_eq, ltb, map, nat_eq,
  none, not, option_eq, some, string_eq, true, ℕ, ◌+◌, ◌==◌, ◌||◌, ◌∷◌,
}
use mcp_log_server.Prelude.Int.{at_least, int_below, int_eq, pos, to_nat, ℤ}
use mcp_log_server.Prelude.Result.{Result, err, ok, ◌>>=◌, ◌>>◌}
use mcp_log_server.Prelude.Strings.{strip_end}
use mcp_log_server.Prelude.Utf8.{Bytes, Text}
use mcp_log_server.Filtering.Cut.Replace.{decode_replace}
use mcp_log_server.SocketApp.Registry.{LogStream, stderr, stdout}
use mcp_log_server.SocketApp.Spool.{
  Chunk, Page, Spool, SpoolError, Transfer, create, create_page, path_eq, raw, read_page,
}

abbrev pub max_log_bytes : ℕ
max_log_bytes = 1_000_000

-- `docker_exception` carries the stripped message of the exception.
pub data DockerFailure : Type 0 where
  timeout : DockerFailure
  docker_exception : String → DockerFailure

-- The keyword arguments of a log query; instants are seconds.
pub record LogWindow : Type 0 where
  pub since : Option ℕ
  pub until : Option ℕ
  pub tail : Option ℤ

pub record Docker : Type 0 where
  pub iso_timestamp : String → Option ℕ
  pub logs : String → Bool → Bool → LogWindow → Result DockerFailure (List Chunk)

-- The messages of `DockerBackendError`.
pub data AdapterError : Type 0 where
  negative_offset : AdapterError
  max_bytes_not_positive : AdapterError
  new_transfer_offset : AdapterError
  container_name_required : AdapterError
  continued_transfer_only : AdapterError
  bad_timestamp : String → AdapterError
  timed_out : AdapterError
  docker_failed : String → AdapterError
  spool_failed : SpoolError → AdapterError

pub record PageRequest : Type 0 where
  pub transfer_id : Option String
  pub container_name : Option String
  pub stream : Option LogStream
  pub since : Option String
  pub until : Option String
  pub tail : Option ℤ
  pub offset : ℤ
  pub max_bytes : Option ℤ

unfoldable pub parse_timestamp : Docker → String → Option String → Result AdapterError (Option ℕ)
parse_timestamp docker name none = ok none
parse_timestamp docker name (some text) = elim (docker.iso_timestamp text) [
  | none ↦ err (bad_timestamp name)
  | some instant ↦ ok (some instant)
]

unfoldable pub as_adapter_error : DockerFailure → AdapterError
as_adapter_error timeout = timed_out
as_adapter_error (docker_exception message) =
    if message == "" then docker_failed "Docker operation failed." else docker_failed message

log_window : Docker → Option String → Option String → Option ℤ → Result AdapterError LogWindow
unfolding parse_timestamp
log_window docker since until tail = do
  from ← parse_timestamp docker "since" since
  to ← parse_timestamp docker "until" until
  ok (record { since = from; until = to; tail = tail })

as_adapter_result : {A : Type 0} → Result DockerFailure A → Result AdapterError A
as_adapter_result (ok a) = ok a
as_adapter_result (err e) = err (as_adapter_error e)

-- A line of the log: without the newlines at its end.
unfoldable pub line_of : Bytes → Text
line_of raw = strip_end (λ c. c == 10) (decode_replace raw)

-- The lines of `container_logs`: whole chunks while the sum of their sizes is within the limit.
unfoldable pub bounded_lines : List Bytes → ℕ → List Text × Bool
unfolding line_of
bounded_lines [] total_bytes = ([], false)
bounded_lines (chunk ∷ chunks) total_bytes =
    let size = total_bytes + length chunk in
    let rest = bounded_lines chunks size in
    if ltb max_log_bytes size then ([], true) else (line_of chunk ∷ rest.0, rest.1)

unfoldable pub container_logs :
    Docker
    → String
    → Option String
    → Option String
    → Option ℤ
    → Result AdapterError (List Text × Bool)
unfolding log_window as_adapter_result bounded_lines as_adapter_error
container_logs docker container_name since until tail = do
  window ← log_window docker since until tail
  chunks ← as_adapter_result (docker.logs container_name true true window)
  ok (bounded_lines (map raw chunks) 0)

is_stderr : Option LogStream → Bool
is_stderr (some stderr) = true
is_stderr _ = false

is_stdout : Option LogStream → Bool
is_stdout (some stdout) = true
is_stdout _ = false

-- The chunks of a new transfer, before they are spooled.
unfoldable pub query_logs :
    Docker
    → String
    → Option LogStream
    → Option String
    → Option String
    → Option ℤ
    → Result AdapterError (List Chunk)
unfolding log_window as_adapter_result is_stderr is_stdout as_adapter_error
query_logs docker container_name stream since until tail = do
  window ← log_window docker since until tail
  as_adapter_result
      (docker.logs container_name (not (is_stderr stream)) (not (is_stdout stream)) window)

-- `min(max_bytes or MAX_LOG_BYTES, MAX_LOG_BYTES)`
unfoldable pub page_byte_limit : Option ℤ → ℤ
page_byte_limit none = pos max_log_bytes
page_byte_limit (some z) =
    if z == pos 0
    then pos max_log_bytes
    else if int_below (pos max_log_bytes) z
    then pos max_log_bytes
    else z

unfoldable pub from_spool : {A : Type 0} → Result SpoolError A → Result AdapterError A
from_spool (ok a) = ok a
from_spool (err e) = err (spool_failed e)

given {ℓ} : {A : Type ℓ} → Option A → Bool
given none = false
given (some _) = true

-- The names that `tempfile` and `uuid4` pick, and one reading of the two clocks.
pub record Ambient : Type 0 where
  pub stem : String
  pub uuid : String
  pub now : ℕ
  pub wall : ℕ

first_page : ℕ → ℕ → Ambient → Result SpoolError Transfer × Spool → Result AdapterError Page × Spool
first_page offset byte_limit env (err e, s) = (err (spool_failed e), s)
first_page offset byte_limit env (ok transfer, s) =
    let (page, s') = create_page transfer offset byte_limit env.now env.wall s in
    (from_spool page, s')

spool_chunks :
    String
    → ℕ
    → ℕ
    → Ambient
    → Spool
    → Result AdapterError (List Chunk)
    → Result AdapterError Page × Spool
unfolding first_page
spool_chunks container_name offset byte_limit env s (err e) = (err e, s)
spool_chunks container_name offset byte_limit env s (ok chunks) =
    first_page offset byte_limit env
      (create container_name chunks env.stem env.uuid env.now env.wall s)

start_page :
    Docker → PageRequest → ℕ → Ambient → Spool → Option String → Result AdapterError Page × Spool
unfolding spool_chunks
start_page docker r byte_limit env s none = (err container_name_required, s)
start_page docker r byte_limit env s (some name) =
    if name == ""
    then (err container_name_required, s)
    else spool_chunks name (to_nat r.offset) byte_limit env s
        (query_logs docker name r.stream r.since r.until r.tail)

next_page : PageRequest → ℕ → Ambient → Spool → String → Result AdapterError Page × Spool
next_page r byte_limit env s transfer_id =
    if given r.container_name || given r.stream || given r.since || given r.until || given r.tail
    then (err continued_transfer_only, s)
    else let (page, s') = read_page transfer_id (to_nat r.offset) byte_limit env.now env.wall s in
      (from_spool page, s')

checked_page :
    Docker → PageRequest → Ambient → Spool → Option String → Result AdapterError Page × Spool
unfolding start_page next_page
checked_page docker r env s none =
    if r.offset == pos 0
    then start_page docker r (to_nat (page_byte_limit r.max_bytes)) env s r.container_name
    else (err new_transfer_offset, s)
checked_page docker r env s (some transfer_id) =
    next_page r (to_nat (page_byte_limit r.max_bytes)) env s transfer_id

is_positive : Option ℤ → Bool
is_positive none = true
is_positive (some z) = at_least z 1

unfoldable pub container_logs_page :
    Docker → PageRequest → Ambient → Spool → Result AdapterError Page × Spool
unfolding checked_page is_positive page_byte_limit from_spool given
container_logs_page docker r env s =
    if not (at_least r.offset 0)
    then (err negative_offset, s)
    else if not (is_positive r.max_bytes)
    then (err max_bytes_not_positive, s)
    else checked_page docker r env s r.transfer_id
