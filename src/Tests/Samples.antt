-- ===== src/Tests/Samples.antt =====
-- The concrete parameters of the tests: an exact encoding of bytes, a Docker with one container.
use Prim.Native.Char.{code}
use native.Mathlib.Nat.{add-zero, zero-add}
use mcp_log_server.Prelude.{
  List, Option, String, [], ap, arith, if◌then◌else◌, nat_eq, none, option_eq, refl, some,
  string_eq, suc, zero, ℕ, ◌+◌, ◌==◌, ◌∙◌, ◌∷◌, ◌≡◌,
}
use mcp_log_server.Prelude.Dict.{lookup}
use mcp_log_server.Prelude.Int.{int_eq}
use mcp_log_server.Prelude.Result.{ok}
use mcp_log_server.Prelude.Utf8.{Bytes}
use mcp_log_server.Collection.DockerPages.{Base64}
use mcp_log_server.SocketApp.Adapter.{Docker}
use mcp_log_server.SocketApp.Spool.{Chunk, Spool, byte_chunk, create, path_eq, text_chunk}
use mcp_log_server.SocketApp.Spool.Create.{IsFresh, create-IsValid}
use mcp_log_server.SocketApp.Spool.Valid.{IsValid}

-- A number is written as so many `a` and one `b`.
unfoldable pub unary : ℕ → String → String
unary zero s = String.◌∷◌ "b" s
unary (suc n) s = String.◌∷◌ "a" (unary n s)

unfoldable pub encode_unary : Bytes → String
unfolding unary
encode_unary [] = ""
encode_unary (b ∷ bytes) = unary b (encode_unary bytes)

prepend_byte : ℕ → Option Bytes → Option Bytes
prepend_byte n none = none
prepend_byte n (some bytes) = some (n ∷ bytes)

unfoldable pub decode_from : ℕ → String → Option Bytes
unfolding prepend_byte
decode_from n String.[] = if n == 0 then some [] else none
decode_from n (String.◌∷◌ c s) =
    let stop = prepend_byte n (decode_from 0 s) in
    let more = decode_from (suc n) s in
    if code c == 98 then stop else if code c == 97 then more else none

decode-unary :
    (m n : ℕ) (s : String) → decode_from n (unary m s) ≡ prepend_byte (n + m) (decode_from 0 s)
unfolding decode_from unary
decode-unary zero n s = rw (add-zero)
decode-unary (suc m) n s =
    decode-unary m (suc n) s ∙ ap (λ k. prepend_byte k (decode_from 0 s)) (omega arith)

decode-encode : (bytes : Bytes) → decode_from 0 (encode_unary bytes) ≡ some bytes
unfolding encode_unary decode_from
decode-encode [] = refl
decode-encode (b ∷ bytes) =
    decode-unary b 0 (encode_unary bytes) ∙ rw (zero-add, decode-encode bytes)

abbrev pub unary_base64 : Base64
unary_base64 = record { encode = encode_unary; decode = decode_from 0 }

pub unary_exact : (b : Bytes) → unary_base64.decode (unary_base64.encode b) ≡ some b
unary_exact b = decode-encode b

abbrev pub sample_chunks : List Chunk
sample_chunks = byte_chunk (72 ∷ 10 ∷ []) ∷ text_chunk (233 ∷ []) ∷ []

abbrev pub sample_docker : Docker
sample_docker = record {
  iso_timestamp = λ text. none;
  logs = λ name out error window. ok sample_chunks;
}

abbrev pub empty_spool : Spool
empty_spool = record { ttl_seconds = 10; max_bytes = 100; transfers = []; files = [] }

pub empty_spool-IsValid : IsValid empty_spool
unfolding lookup
empty_spool-IsValid = record { nodup = tt; stored = λ id t e. cc; owner = λ i j t u e h p. cc }

pub empty_spool-IsFresh : (stem uuid : String) → IsFresh stem uuid empty_spool
unfolding lookup
empty_spool-IsFresh stem uuid = record { no_id = refl; no_stem = λ id t e. cc }

-- The spool after a stream of four bytes.
abbrev pub one_transfer : Spool
one_transfer = (create "web" sample_chunks "x" "id" 5 7 empty_spool).1

pub one_transfer-IsValid : IsValid one_transfer
one_transfer-IsValid =
    create-IsValid "web" sample_chunks "x" "id" 5 7 empty_spool empty_spool-IsValid
      (empty_spool-IsFresh "x" "id")
