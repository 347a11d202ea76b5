-- ===== src/SocketApp/Adapter/Limits.antt =====
-- The size limits of the log operations, and the spool's invariant through them.
use mcp_log_server.Prelude.{
  Bool, Bool-cases, List, Option, String, [], ap, arith, beq_refl, bool_eq, inl, inr, le_or_lt,
  length, list_eq, ltb, ltb→ge, ltb→lt, map, nat_eq, none, not, option_eq, refl, some, string_eq,
  total, true, ℕ, ◌++◌, ◌+◌, ◌<◌, ◌==◌, ◌||◌, ◌↔◌, ◌∙◌, ◌∷◌, ◌≡◌, ◌≢◌, ◌≤◌,
}
use mcp_log_server.Prelude.Dict.{lookup-insert}
use mcp_log_server.Prelude.Int.{at_least, int_eq, pos, to_nat}
use mcp_log_server.Prelude.Result.{Result, err, ok}
use mcp_log_server.Prelude.Utf8.{Bytes, Text}
use mcp_log_server.SocketApp.Adapter.{
  AdapterError, Ambient, Docker, PageRequest, bounded_lines, checked_page, container_logs_page,
  first_page, given, is_positive, line_of, max_log_bytes, next_page, page_byte_limit, query_logs,
  spool_chunks, start_page,
}
use mcp_log_server.SocketApp.Spool.{Chunk, Spool, create, path_eq}
use mcp_log_server.SocketApp.Spool.Create.{
  IsFresh, all_bytes, create-IsValid, create_fits, create_too_large, new_transfer, stored_state,
}
use mcp_log_server.SocketApp.Spool.Paging.{create_page-IsValid, read_page-IsValid}
use mcp_log_server.SocketApp.Spool.Valid.{IsValid}

-- The chunks that are returned as lines, and those that are left out.
pub record IsBounded (chunks : List Bytes) (n : ℕ) (out : List Text × Bool) : Type 0 where
  pub kept : List Bytes
  pub rest : List Bytes
  pub split : kept ++ rest ≡ chunks
  pub decoded : out.0 ≡ map line_of kept
  pub within : n + total length kept ≤ max_log_bytes
  pub truncated : (out.1 ≡ true) ↔ (rest ≢ [])
  pub full :
      (chunk : Bytes) (more : List Bytes)
      → rest ≡ chunk ∷ more
      → max_log_bytes < n + total length kept + length chunk

first_of : {x y : Bytes} {xs ys : List Bytes} → Path (List Bytes) (x ∷ xs) (y ∷ ys) → x ≡ y
first_of e = cc

-- A log query returns the lines of the first chunks, each decoded with replacement characters and
-- without its line ends. The returned chunks, with the bytes counted before them, stay within the
-- limit on log bytes, if those were within it; the result is marked as truncated exactly when a
-- chunk was left out, and then the first of those would have passed the limit.
pub bounded_lines-IsBounded :
    (chunks : List Bytes) (n : ℕ) → n ≤ max_log_bytes → IsBounded chunks n (bounded_lines chunks n)
unfolding bounded_lines
bounded_lines-IsBounded [] n h = record {
  kept = [];
  rest = [];
  split = refl;
  decoded = refl;
  within = omega arith;
  truncated = (λ e. cc, λ e. absurd (e refl));
  full = λ chunk more e. cc;
}
bounded_lines-IsBounded (chunk ∷ chunks) n h =
    elim (Bool-cases (ltb max_log_bytes (n + length chunk))) [
      | inl big ↦ rw big (record {
        kept = [];
        rest = chunk ∷ chunks;
        split = refl;
        decoded = refl;
        within = omega arith;
        truncated = (λ e z. cc, λ e. refl);
        full = λ other more e. omega (arith, ap length (first_of e), ltb→lt _ _ big);
      })
      | inr fits ↦
          let r = bounded_lines-IsBounded chunks (n + length chunk) (ltb→ge _ _ fits) in
          rw fits (record {
            kept = chunk ∷ r.kept;
            rest = r.rest;
            split = ap (λ cs. chunk ∷ cs) r.split;
            decoded = ap (λ (ts : List Text). line_of chunk ∷ ts) r.decoded;
            within = omega (arith, r.within);
            truncated = r.truncated;
            full = λ other more e. omega (arith, r.full other more e);
          })
    ]

module _ (docker : Docker) (r : PageRequest) (env : Ambient) (s : Spool) (v : IsValid s) where
  next_page-IsValid : (byte_limit : ℕ) (id : String) → IsValid (next_page r byte_limit env s id).1
  unfolding next_page
  next_page-IsValid byte_limit id =
      elim (Bool-cases (
        given r.container_name
        || given r.stream
        || given r.since
        || given r.until
        || given r.tail)) [
          | inl extra ↦ rw extra v
          | inr plain ↦
              rw plain (read_page-IsValid id (to_nat r.offset) byte_limit env.now env.wall s v)
        ]

  -- A request for the next page of a transfer needs no fresh names.
  pub continued_page-IsValid :
      (id : String) → r.transfer_id ≡ some id → IsValid (container_logs_page docker r env s).1
  unfolding container_logs_page checked_page
  continued_page-IsValid id named = elim (Bool-cases (not (at_least r.offset 0))) [
    | inl negative ↦ rw negative v
    | inr a ↦ elim (Bool-cases (not (is_positive r.max_bytes))) [
      | inl b ↦ rw (a, b) v
      | inr b ↦ rw (a, b, named) (next_page-IsValid (to_nat (page_byte_limit r.max_bytes)) id)
    ]
  ]

  module _ (fresh : IsFresh env.stem env.uuid s) where
    first_page-IsValid :
        (offset byte_limit : ℕ) (name : String) (chunks : List Chunk)
        → IsValid
            (first_page offset byte_limit env
              (create name chunks env.stem env.uuid env.now env.wall s)).1
    unfolding first_page
    first_page-IsValid offset byte_limit name chunks =
        elim (le_or_lt (length (all_bytes chunks)) s.max_bytes) [
          | inl h ↦
              let stored = stored_state name chunks env.stem env.uuid env.now env.wall s in
              rw (create_fits name chunks env.stem env.uuid env.now env.wall s h) (
                create_page-IsValid
                  (new_transfer name env.stem env.uuid env.now (length (all_bytes chunks))) offset
                  byte_limit env.now env.wall stored
                  (rw (create_fits name chunks env.stem env.uuid env.now env.wall s h) at
                    (create-IsValid name chunks env.stem env.uuid env.now env.wall s v fresh))
                  (lookup-insert env.uuid env.uuid _ s.transfers ∙ rw (beq_refl env.uuid)))
          | inr h ↦ rw (create_too_large name chunks env.stem env.uuid env.now env.wall s h) (
              rw (create_too_large name chunks env.stem env.uuid env.now env.wall s h) at
                (create-IsValid name chunks env.stem env.uuid env.now env.wall s v fresh))
        ]

    spool_chunks-IsValid :
        (offset byte_limit : ℕ) (name : String) (o : Result AdapterError (List Chunk))
        → IsValid (spool_chunks name offset byte_limit env s o).1
    unfolding spool_chunks
    spool_chunks-IsValid offset byte_limit name (err e) = v
    spool_chunks-IsValid offset byte_limit name (ok chunks) =
        first_page-IsValid offset byte_limit name chunks

    start_page-IsValid :
        (byte_limit : ℕ) (o : Option String) → IsValid (start_page docker r byte_limit env s o).1
    unfolding start_page
    start_page-IsValid byte_limit none = v
    start_page-IsValid byte_limit (some name) = elim (Bool-cases (name == "")) [
      | inl empty ↦ rw empty v
      | inr full ↦ rw full (
          spool_chunks-IsValid (to_nat r.offset) byte_limit name
            (query_logs docker name r.stream r.since r.until r.tail))
    ]

    checked_page-IsValid : (o : Option String) → IsValid (checked_page docker r env s o).1
    unfolding checked_page
    checked_page-IsValid none = elim (Bool-cases (r.offset == pos 0)) [
      | inl zero_offset ↦
          rw zero_offset
            (start_page-IsValid (to_nat (page_byte_limit r.max_bytes)) r.container_name)
      | inr other ↦ rw other v
    ]
    checked_page-IsValid (some id) = next_page-IsValid (to_nat (page_byte_limit r.max_bytes)) id

    -- Whatever the page request, accepted or refused, the spool stays valid: distinct transfer
    -- ids, each transfer with a file of its own that holds its byte count, within the limit, and a
    -- cursor inside the file. The names that a new transfer gets must be fresh.
    pub container_logs_page-IsValid : IsValid (container_logs_page docker r env s).1
    unfolding container_logs_page
    container_logs_page-IsValid = elim (Bool-cases (not (at_least r.offset 0))) [
      | inl negative ↦ rw negative v
      | inr a ↦ elim (Bool-cases (not (is_positive r.max_bytes))) [
        | inl b ↦ rw (a, b) v
        | inr b ↦ rw (a, b) (checked_page-IsValid r.transfer_id)
      ]
    ]
