-- ===== src/SocketApp/Adapter/Served.antt =====
-- A page of the adapter that continues its transfer ends inside the spool's limit.
use mcp_log_server.Prelude.{
  Bool-cases, List, Option, String, ap, bool_eq, inl, inr, le_or_lt, length, list_eq, nat_eq, none,
  not, option_eq, refl, some, string_eq, ℕ, ◌==◌, ◌||◌, ◌≡◌, ◌≤◌,
}
use mcp_log_server.Prelude.Int.{at_least, int_eq, pos, to_nat}
use mcp_log_server.Prelude.Result.{Result, err, ok, ok_inj}
use mcp_log_server.SocketApp.Adapter.{
  AdapterError, Ambient, Docker, PageRequest, checked_page, container_logs_page,
  container_name_required, continued_transfer_only, first_page, from_spool, given, is_positive,
  max_bytes_not_positive, max_log_bytes, negative_offset, new_transfer_offset, next_page,
  page_byte_limit, query_logs, spool_chunks, spool_failed, start_page,
}
use mcp_log_server.SocketApp.Spool.{Chunk, Page, Spool, SpoolError, create, path_eq}
use mcp_log_server.SocketApp.Spool.Create.{
  all_bytes, create_fits, create_too_large, new_transfer, stored_state,
}
use mcp_log_server.SocketApp.Spool.Served.{
  IsServed, create_page-IsServed, read_page-IsServed, refused-IsServed,
}
use mcp_log_server.SocketApp.Spool.Valid.{IsValid}

from_spool-IsServed :
    (limit offset byte_limit : ℕ) (r : Result SpoolError Page) (s : Spool)
    → IsServed limit offset byte_limit (r, s)
    → IsServed limit offset byte_limit (from_spool r, s)
unfolding from_spool
from_spool-IsServed limit offset byte_limit (ok page) s h = record {
  same_limit = h.same_limit;
  ends_before = λ p e. h.ends_before p (ap ok (ok_inj e));
  limited = λ p e. h.limited p (ap ok (ok_inj e));
}
from_spool-IsServed limit offset byte_limit (err e) s h =
    refused-IsServed limit offset byte_limit (spool_failed e) s h.same_limit

module _ (docker : Docker) (r : PageRequest) (env : Ambient) (s : Spool) (v : IsValid s) where
  abbrev Served : ℕ → Result AdapterError Page × Spool → Type 0
  Served byte_limit out = IsServed s.max_bytes (to_nat r.offset) byte_limit out

  refused : (byte_limit : ℕ) (e : AdapterError) → Served byte_limit (err e, s)
  refused byte_limit e = refused-IsServed s.max_bytes (to_nat r.offset) byte_limit e s refl

  first_page-IsServed :
      (byte_limit : ℕ) (name : String) (chunks : List Chunk)
      → Served byte_limit (
          first_page
            (to_nat r.offset)
            byte_limit
            env
            (create name chunks env.stem env.uuid env.now env.wall s))
  unfolding first_page
  first_page-IsServed byte_limit name chunks =
      elim (le_or_lt (length (all_bytes chunks)) s.max_bytes) [
        | inl h ↦ rw (create_fits name chunks env.stem env.uuid env.now env.wall s h) (
            from_spool-IsServed s.max_bytes (to_nat r.offset) byte_limit _ _ (
              create_page-IsServed s.max_bytes (to_nat r.offset) byte_limit env.now env.wall
                (stored_state name chunks env.stem env.uuid env.now env.wall s) refl
                (new_transfer name env.stem env.uuid env.now (length (all_bytes chunks))) h))
        | inr h ↦
            rw (create_too_large name chunks env.stem env.uuid env.now env.wall s h)
              (refused-IsServed s.max_bytes (to_nat r.offset) byte_limit _ _ refl)
      ]

  spool_chunks-IsServed :
      (byte_limit : ℕ) (name : String) (o : Result AdapterError (List Chunk))
      → Served byte_limit (spool_chunks name (to_nat r.offset) byte_limit env s o)
  unfolding spool_chunks
  spool_chunks-IsServed byte_limit name (err e) = refused byte_limit e
  spool_chunks-IsServed byte_limit name (ok chunks) = first_page-IsServed byte_limit name chunks

  start_page-IsServed :
      (byte_limit : ℕ) (o : Option String)
      → Served byte_limit (start_page docker r byte_limit env s o)
  unfolding start_page
  start_page-IsServed byte_limit none = refused byte_limit container_name_required
  start_page-IsServed byte_limit (some name) = elim (Bool-cases (name == "")) [
    | inl empty ↦ rw empty (refused byte_limit container_name_required)
    | inr full ↦ rw full (
        spool_chunks-IsServed byte_limit name
          (query_logs docker name r.stream r.since r.until r.tail))
  ]

  next_page-IsServed :
      (byte_limit : ℕ) (id : String) → Served byte_limit (next_page r byte_limit env s id)
  unfolding next_page
  next_page-IsServed byte_limit id =
      elim (Bool-cases (
        given r.container_name
        || given r.stream
        || given r.since
        || given r.until
        || given r.tail)) [
          | inl extra ↦ rw extra (refused byte_limit continued_transfer_only)
          | inr plain ↦ rw plain (
              from_spool-IsServed s.max_bytes (to_nat r.offset) byte_limit _ _ (
                read_page-IsServed s.max_bytes (to_nat r.offset) byte_limit env.now env.wall s refl
                  v id))
        ]

  abbrev asked : ℕ
  asked = to_nat (page_byte_limit r.max_bytes)

  checked_page-IsServed : (o : Option String) → Served asked (checked_page docker r env s o)
  unfolding checked_page
  checked_page-IsServed none = elim (Bool-cases (r.offset == pos 0)) [
    | inl zero_offset ↦ rw zero_offset (start_page-IsServed asked r.container_name)
    | inr other ↦ rw other (refused asked new_transfer_offset)
  ]
  checked_page-IsServed (some id) = next_page-IsServed asked id

  pub container_logs_page-IsServed : Served asked (container_logs_page docker r env s)
  unfolding container_logs_page
  container_logs_page-IsServed = elim (Bool-cases (not (at_least r.offset 0))) [
    | inl negative ↦ rw negative (refused asked negative_offset)
    | inr a ↦ elim (Bool-cases (not (is_positive r.max_bytes))) [
      | inl b ↦ rw (a, b) (refused asked max_bytes_not_positive)
      | inr b ↦ rw (a, b) (checked_page-IsServed r.transfer_id)
    ]
  ]

  -- The page against what was asked for.
  pub record IsLimited (page : Page) : Type 0 where
    pub positive : 1 ≤ page.byte_limit
    pub at_most : page.byte_limit ≤ max_log_bytes
    pub within : length page.content ≤ page.byte_limit
    pub as_asked : (n : ℕ) → r.max_bytes ≡ some (pos n) → page.byte_limit ≤ n
