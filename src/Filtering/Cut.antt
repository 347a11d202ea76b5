-- ===== src/Filtering/Cut.antt =====
-- `_truncate_line` of src/services/log_filtering.py, with the UTF-8 decoder that skips errors.
pub mod Character
pub mod Prefix
pub mod Replace
use mcp_log_server.Prelude.{
  Bool, Option, [], bool_eq, false, if◌then◌else◌, leb, length, list_eq, ltb, nat_eq, none,
  option_eq, some, string_eq, suc, take, true, zero, ℕ, ◌&&◌, ◌*◌, ◌+◌, ◌-◌, ◌==◌, ◌∷◌,
}
use mcp_log_server.Prelude.Int.{int_eq}
use mcp_log_server.Prelude.Utf8.{Bytes, Text, encode}
use mcp_log_server.SocketApp.Spool.{path_eq}

abbrev pub max_filtered_line_bytes : ℕ
max_filtered_line_bytes = 2000

-- Between two characters, or inside one: the bytes to come, the bounds of the next, and the value
-- of those read.
pub data Decoder : Type 0 where
  idle : Decoder
  waiting : ℕ → ℕ → ℕ → ℕ → Decoder

unfoldable pub emit : Option ℕ → Text → Text
emit none t = t
emit (some c) t = c ∷ t

unfoldable pub lead : ℕ → Decoder × Option ℕ
lead b =
    if ltb b 0x80
    then (idle, some b)
    else if ltb b 0xc2
    then (idle, none)
    else if ltb b 0xe0
    then (waiting 0 0x80 0xbf (b - 0xc0), none)
    else if b == 0xe0
    then (waiting 1 0xa0 0xbf 0, none)
    else if b == 0xed
    then (waiting 1 0x80 0x9f 0xd, none)
    else if ltb b 0xf0
    then (waiting 1 0x80 0xbf (b - 0xe0), none)
    else if b == 0xf0
    then (waiting 2 0x90 0xbf 0, none)
    else if ltb b 0xf4
    then (waiting 2 0x80 0xbf (b - 0xf0), none)
    else if b == 0xf4
    then (waiting 2 0x80 0x8f 4, none)
    else (idle, none)

more : ℕ → ℕ → Decoder × Option ℕ
more zero point = (idle, some point)
more (suc n) point = (waiting n 0x80 0xbf point, none)

unfoldable pub read_byte : Decoder → ℕ → Decoder × Option ℕ
unfolding lead more
read_byte idle b = lead b
read_byte (waiting n low high point) b =
    if leb low b && leb b high then more n (point * 64 + (b - 0x80)) else lead b

unfoldable pub decode_from : Decoder → Bytes → Text
unfolding read_byte emit
decode_from d [] = []
decode_from d (b ∷ bytes) =
    let rest = decode_from (read_byte d b).0 bytes in emit (read_byte d b).1 rest

-- `bytes.decode("utf-8", errors="ignore")`
abbrev pub decode_ignore : Bytes → Text
decode_ignore bytes = decode_from idle bytes

unfoldable pub truncate_line : Text → Text × Bool
truncate_line line =
    if leb (length (encode line)) max_filtered_line_bytes
    then (line, false)
    else (decode_ignore (take max_filtered_line_bytes (encode line)), true)
