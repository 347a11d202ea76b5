-- ===== src/Filtering/Cut/Replace.antt =====
-- The UTF-8 decoder that replaces what it cannot read, as the lines of `container_logs` in
-- socket-app/src/socket_app/adapters.py are decoded.
use mcp_log_server.Prelude.{Option, [], if◌then◌else◌, leb, none, some, ℕ, ◌&&◌, ◌++◌, ◌∷◌}
use mcp_log_server.Prelude.Utf8.{Bytes, Text}
use mcp_log_server.Filtering.Cut.{Decoder, idle, lead, read_byte, waiting}

-- The replacement character.
abbrev replacement : ℕ
replacement = 0xfffd

-- What a byte adds to the text: its character, a replacement for one that starts none, or nothing.
mark : Decoder × Option ℕ → Text
mark (d, some c) = c ∷ []
mark (idle, none) = replacement ∷ []
mark (waiting n low high point, none) = []

decode_byte : Decoder → ℕ → Decoder × Text
unfolding mark read_byte lead
decode_byte idle b = ((lead b).0, mark (lead b))
decode_byte (waiting n low high point) b =
    if leb low b && leb b high
    then ((read_byte (waiting n low high point) b).0, mark (read_byte (waiting n low high point) b))
    else ((lead b).0, replacement ∷ mark (lead b))

decode_replace_from : Decoder → Bytes → Text
unfolding decode_byte
decode_replace_from idle [] = []
decode_replace_from (waiting n low high point) [] = replacement ∷ []
decode_replace_from d (b ∷ bytes) =
    let rest = decode_replace_from (decode_byte d b).0 bytes in (decode_byte d b).1 ++ rest

-- `bytes.decode("utf-8", errors="replace")`
unfoldable pub decode_replace : Bytes → Text
unfolding decode_replace_from
decode_replace bytes = decode_replace_from idle bytes
