-- ===== src/Collection/DockerPages/Transfer/Ends.antt =====
-- The paged collection ends, whatever the socket app answers.
use mcp_log_server.Prelude.{
  Bool, Option, String, arith, eqb_iff, length, none, refl, some, suc, true, zero, ℕ, ◌+◌, ◌-◌, ◌<◌,
  ◌≡◌, ◌≢◌,
}
use mcp_log_server.Prelude.Int.{pos, to_nat}
use mcp_log_server.Prelude.Json.{Fields, Json, bool, get_or_null}
use mcp_log_server.Prelude.Result.{Result, err, err-ne-ok, ok, ok_inj}
use mcp_log_server.Prelude.Utf8.{Bytes}
use mcp_log_server.Collection.DockerPages.{
  Base64, is_exactly, out_of_fuel, page_payload, stream_docker_log_pages,
}
use mcp_log_server.Collection.DockerPages.Progress.{turn_ends}
use mcp_log_server.Collection.DockerPages.Transfer.{
  Query, answer, docker_log_page_max_bytes, download, page_params, request,
}
use mcp_log_server.SocketApp.Adapter.{AdapterError, Docker, container_logs_page, page_byte_limit}
use mcp_log_server.SocketApp.Adapter.Limits.{container_logs_page-IsValid, continued_page-IsValid}
use mcp_log_server.SocketApp.Adapter.Served.{container_logs_page-IsServed}
use mcp_log_server.SocketApp.Spool.{Page, Spool}
use mcp_log_server.SocketApp.Spool.Create.{IsFresh}
use mcp_log_server.SocketApp.Spool.Served.{IsServed}
use mcp_log_server.SocketApp.Spool.Valid.{IsValid}

module _ (docker : Docker) (b64 : Base64) (q : Query) (clock wall : ℕ → ℕ) where
  -- What the socket app answers to the request of a turn.
  abbrev answered : Option String → ℕ → Spool → ℕ → Result AdapterError Page × Spool
  answered id offset s k =
      container_logs_page docker (page_params q id offset)
        (record { stem = q.stem; uuid = q.uuid; now = clock k; wall = wall k }) s

  abbrev page_limit : ℕ
  page_limit = to_nat (page_byte_limit (some (pos docker_log_page_max_bytes)))

  answered-IsServed :
      (id : Option String) (offset : ℕ) (s : Spool) (k : ℕ)
      → IsValid s
      → IsServed s.max_bytes offset page_limit (answered id offset s k)
  unfolding page_params
  answered-IsServed none offset s k v =
      container_logs_page-IsServed docker (page_params q none offset) _ s v
  answered-IsServed (some id) offset s k v =
      container_logs_page-IsServed docker (page_params q (some id) offset) _ s v

  payload_of :
      (out : Result AdapterError Page) (payload : Fields)
      → answer b64 out ≡ ok payload
      → (page : Page) × (out ≡ ok page) × (page_payload b64 page ≡ payload)
  unfolding answer
  payload_of (ok page) payload h = (page, refl, ok_inj h)
  payload_of (err e) payload h = err-ne-ok h

  -- The page that a payload which goes on was made from.
  ends_within :
      (bound offset : ℕ) (out : Result AdapterError Page × Spool) (payload : Fields)
      (content : Bytes)
      → IsServed bound offset page_limit out
      → answer b64 out.0 ≡ ok payload
      → is_exactly (get_or_null payload "returned_bytes") (length content) ≡ true
      → get_or_null payload "truncated" ≡ bool true
      → offset + length content < bound
  unfolding page_payload is_exactly
  ends_within bound offset out payload content served h exact cut =
      let (page, here, made) = payload_of out.0 payload h in
      let same : length page.content ≡ length content =
        (eqb_iff (length page.content) (length content)).0 (rw (← made) at exact) in
      let truncated : page.truncated ≡ true = bool-injective (rw (← made) at cut) in
      omega (arith, served.ends_before page here truncated)
    where
      bool-injective : {a : Bool} → Path Json (bool a) (bool true) → a ≡ true
      bool-injective e = cc

  rest_ends :
      (fuel : ℕ) (id : String) (offset : ℕ) (s : Spool) (k : ℕ)
      → IsValid s
      → s.max_bytes - offset < fuel
      → (stream_docker_log_pages b64
          (request docker b64 q clock wall)
          fuel
          (some id)
          offset
          (record { spool = s; calls = k })).0
        ≢ err out_of_fuel
  unfolding request page_params
  rest_ends zero id offset s k v enough = absurd (omega arith)
  rest_ends (suc fuel) id offset s k v enough =
      let served = answered-IsServed (some id) offset s k v in
      turn_ends b64 (request docker b64 q clock wall) fuel (some id) offset
        (record { spool = s; calls = k })
        λ payload asked next content progress exact cut.
          rest_ends fuel next (offset + length content) (answered (some id) offset s k).1 (k + 1)
            (continued_page-IsValid docker (page_params q (some id) offset) _ s v id refl)
            (omega (
              arith,
              served.same_limit,
              ends_within s.max_bytes offset (answered (some id) offset s k) payload content served
                  asked exact cut,
            ))

  -- A paged collection against the socket app ends, with pages or with an error of the program,
  -- whatever Docker sends, base64 decodes to and the clocks say: fuel above the spool's limit on
  -- bytes does not run out. The spool is valid and the names of the new transfer are fresh.
  pub download_ends :
      (fuel : ℕ) (s : Spool) (k : ℕ)
      → IsValid s
      → IsFresh q.stem q.uuid s
      → s.max_bytes < fuel
      → (download docker b64 q clock wall fuel (record { spool = s; calls = k })).0
        ≢ err out_of_fuel
  unfolding download request page_params
  download_ends zero s k v fresh enough = absurd (omega arith)
  download_ends (suc fuel) s k v fresh enough =
      let served = answered-IsServed none 0 s k v in
      turn_ends b64 (request docker b64 q clock wall) fuel none 0 (record { spool = s; calls = k })
        λ payload asked next content progress exact cut.
          rest_ends fuel next (0 + length content) (answered none 0 s k).1 (k + 1)
            (container_logs_page-IsValid docker (page_params q none 0) _ s v fresh)
            (omega (
              arith,
              served.same_limit,
              ends_within s.max_bytes 0 (answered none 0 s k) payload content served asked exact
                  cut,
            ))
