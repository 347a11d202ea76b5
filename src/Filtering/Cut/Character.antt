-- ===== src/Filtering/Cut/Character.antt =====
-- The decoder on the bytes of one character, whole or cut.
use mcp_log_server.Prelude.{
  [], ap, arith, ge→ltb, inl, inr, le_or_lt, length, le→leb, lt→ltb, none, refl, suc, take, zero, ℕ,
  ◌%◌, ◌*◌, ◌++◌, ◌+◌, ◌-◌, ◌/◌, ◌<◌, ◌∙◌, ◌∷◌, ◌≡◌, ◌≤◌, ◌⊎◌,
}
use mcp_log_server.Prelude.Utf8.{Bytes, encode_char}
use mcp_log_server.Filtering.Cut.{decode_from, emit, idle, lead, more, read_byte, waiting}

-- A code point that is no surrogate: what a line read from a file has.
abbrev pub IsScalar : ℕ → Type 0
IsScalar c = (c < 0xd800) ⊎ ((0xe000 ≤ c) × (c < 0x11_0000))

-- The decoder on the bytes of one character.
one_byte :
    (c : ℕ) (rest : Bytes) → c < 0x80 → decode_from idle (c ∷ rest) ≡ c ∷ decode_from idle rest
unfolding decode_from read_byte lead
one_byte c rest h = rw (lt→ltb c 0x80 h)

-- What a lead byte announces fits the second byte of the same character.
record Led (b second point : ℕ) (n : ℕ) : Type 0 where
  low : ℕ
  high : ℕ
  leads : lead b ≡ (waiting n low high point, none)
  above : low ≤ second
  below : second ≤ high

module _ (c : ℕ) where
  lead_two : 0x80 ≤ c → c < 0x800 → Led (0xc0 + c / 64) (0x80 + c % 64) (c / 64) 0
  unfolding lead
  lead_two h k = record {
    low = 0x80;
    high = 0xbf;
    leads = ground arith;
    above = omega arith;
    below = omega arith;
  }

  lead_three :
      IsScalar c
      → 0x800 ≤ c
      → c < 0x1_0000
      → Led (0xe0 + c / 4096) (0x80 + c / 64 % 64) (c / 4096) 1
  unfolding lead
  lead_three s h k = elim (le_or_lt 0x1000 c) [
    | inr a ↦ record {
      low = 0xa0;
      high = 0xbf;
      leads = ground arith;
      above = omega arith;
      below = omega arith;
    }
    | inl a ↦ elim (le_or_lt 0xd000 c) [
      | inr b ↦ record {
        low = 0x80;
        high = 0xbf;
        leads = ground arith;
        above = omega arith;
        below = omega arith;
      }
      | inl b ↦ elim (le_or_lt 0xe000 c) [
        | inr d ↦ record {
          low = 0x80;
          high = 0x9f;
          leads = ground arith;
          above = omega arith;
          below = elim s [ inl e ↦ omega arith | inr e ↦ omega arith ];
        }
        | inl d ↦ record {
          low = 0x80;
          high = 0xbf;
          leads = ground arith;
          above = omega arith;
          below = omega arith;
        }
      ]
    ]
  ]

  lead_four :
      0x1_0000 ≤ c → c < 0x11_0000 → Led (0xf0 + c / 262144) (0x80 + c / 4096 % 64) (c / 262144) 2
  unfolding lead
  lead_four h k = elim (le_or_lt 0x4_0000 c) [
    | inr a ↦ record {
      low = 0x90;
      high = 0xbf;
      leads = ground arith;
      above = omega arith;
      below = omega arith;
    }
    | inl a ↦ elim (le_or_lt 0x10_0000 c) [
      | inr b ↦ record {
        low = 0x80;
        high = 0xbf;
        leads = ground arith;
        above = omega arith;
        below = omega arith;
      }
      | inl b ↦ record {
        low = 0x80;
        high = 0x8f;
        leads = ground arith;
        above = omega arith;
        below = omega arith;
      }
    ]
  ]

-- A continuation byte within the bounds.
next_byte :
    (n low high point b : ℕ)
    → low ≤ b
    → b ≤ high
    → read_byte (waiting n low high point) b ≡ more n (point * 64 + (b - 0x80))
unfolding read_byte
next_byte n low high point b h k = rw (le→leb low b h, le→leb b high k)

module _ (b second point n : ℕ) (l : Led b second point n) where
  read_second :
      (rest : Bytes)
      → decode_from idle (b ∷ second ∷ rest)
        ≡ emit
            (more n (point * 64 + (second - 0x80))).1
            (decode_from (more n (point * 64 + (second - 0x80))).0 rest)
  unfolding decode_from read_byte
  read_second rest = rw (l.leads, next_byte n l.low l.high point second l.above l.below)

  -- A lead byte alone is skipped.
  read_lead_only : decode_from idle (b ∷ []) ≡ []
  unfolding decode_from read_byte
  read_lead_only = rw l.leads

module _ (n point b : ℕ) (h : 0x80 ≤ b) (k : b ≤ 0xbf) where
  read_continuation :
      (rest : Bytes)
      → decode_from (waiting n 0x80 0xbf point) (b ∷ rest)
        ≡ emit
            (more n (point * 64 + (b - 0x80))).1
            (decode_from (more n (point * 64 + (b - 0x80))).0 rest)
  unfolding decode_from
  read_continuation rest = rw (next_byte n 0x80 0xbf point b h k)

-- The bytes of a character, by its size.
encode_one : (c : ℕ) → c < 0x80 → encode_char c ≡ c ∷ []
unfolding encode_char
encode_one c h = rw (lt→ltb c 0x80 h)

encode_two : (c : ℕ) → 0x80 ≤ c → c < 0x800 → encode_char c ≡ (0xc0 + c / 64) ∷ (0x80 + c % 64) ∷ []
unfolding encode_char
encode_two c h k = rw (ge→ltb c 0x80 h, lt→ltb c 0x800 k)

encode_three :
    (c : ℕ)
    → 0x800 ≤ c
    → c < 0x1_0000
    → encode_char c ≡ (0xe0 + c / 4096) ∷ (0x80 + c / 64 % 64) ∷ (0x80 + c % 64) ∷ []
unfolding encode_char
encode_three c h k = rw (ge→ltb c 0x80 (omega arith), ge→ltb c 0x800 h, lt→ltb c 0x1_0000 k)

encode_four :
    (c : ℕ)
    → 0x1_0000 ≤ c
    → encode_char c
      ≡ (0xf0 + c / 262144) ∷ (0x80 + c / 4096 % 64) ∷ (0x80 + c / 64 % 64) ∷ (0x80 + c % 64) ∷ []
unfolding encode_char
encode_four c h =
    rw (ge→ltb c 0x80 (omega arith), ge→ltb c 0x800 (omega arith), ge→ltb c 0x1_0000 h)

-- The four sizes.
data Size (c : ℕ) : Type 0 where
  one_byte_size : c < 0x80 → Size c
  two_bytes_size : 0x80 ≤ c → c < 0x800 → Size c
  three_bytes_size : 0x800 ≤ c → c < 0x1_0000 → Size c
  four_bytes_size : 0x1_0000 ≤ c → c < 0x11_0000 → Size c

Size-cases : (c : ℕ) → IsScalar c → Size c
Size-cases c s = elim (le_or_lt 0x80 c) [
  | inr a ↦ one_byte_size a
  | inl a ↦ elim (le_or_lt 0x800 c) [
    | inr b ↦ two_bytes_size a b
    | inl b ↦ elim (le_or_lt 0x1_0000 c) [
      | inr d ↦ three_bytes_size b d
      | inl d ↦ four_bytes_size d (elim s [ inl e ↦ omega arith | inr e ↦ omega arith ])
    ]
  ]
]

module _ (c : ℕ) (s : IsScalar c) (rest : Bytes) where
  decode_sized : Size c → decode_from idle (encode_char c ++ rest) ≡ c ∷ decode_from idle rest
  unfolding emit more
  decode_sized (one_byte_size h) = rw (encode_one c h) (one_byte c rest h)
  decode_sized (two_bytes_size h k) = rw (encode_two c h k) (
      read_second _ _ _ 0 (lead_two c h k) rest
      ∙ ap (λ (d : ℕ). d ∷ decode_from idle rest) (omega arith))
  decode_sized (three_bytes_size h k) = rw (encode_three c h k) (
      read_second _ _ _ 1 (lead_three c s h k) ((0x80 + c % 64) ∷ rest)
      ∙ read_continuation 0 _ (0x80 + c % 64) (omega arith) (omega arith) rest
      ∙ ap (λ (d : ℕ). d ∷ decode_from idle rest) (omega arith))
  decode_sized (four_bytes_size h k) = rw (encode_four c h) (
      read_second _ _ _ 2 (lead_four c h k) ((0x80 + c / 64 % 64) ∷ (0x80 + c % 64) ∷ rest)
      ∙ read_continuation 1 _ (0x80 + c / 64 % 64) (omega arith) (omega arith)
          ((0x80 + c % 64) ∷ rest)
      ∙ read_continuation 0 _ (0x80 + c % 64) (omega arith) (omega arith) rest
      ∙ ap (λ (d : ℕ). d ∷ decode_from idle rest) (omega arith))

  -- A whole character is read as itself.
  pub decode-encode_char : decode_from idle (encode_char c ++ rest) ≡ c ∷ decode_from idle rest
  decode-encode_char = decode_sized (Size-cases c s)

module _ (c : ℕ) (s : IsScalar c) where
  cut_sized :
      (n : ℕ) → Size c → n < length (encode_char c) → decode_from idle (take n (encode_char c)) ≡ []
  unfolding emit more decode_from
  cut_sized zero size h = refl
  cut_sized (suc zero) (one_byte_size a) h = absurd (omega (arith, ap length (encode_one c a)))
  cut_sized (suc (suc n)) (one_byte_size a) h = absurd (omega (arith, ap length (encode_one c a)))
  cut_sized (suc zero) (two_bytes_size a b) h =
      rw (encode_two c a b) (read_lead_only _ _ _ 0 (lead_two c a b))
  cut_sized (suc (suc n)) (two_bytes_size a b) h =
      absurd (omega (arith, ap length (encode_two c a b)))
  cut_sized (suc zero) (three_bytes_size a b) h =
      rw (encode_three c a b) (read_lead_only _ _ _ 1 (lead_three c s a b))
  cut_sized (suc (suc zero)) (three_bytes_size a b) h =
      rw (encode_three c a b) (read_second _ _ _ 1 (lead_three c s a b) [])
  cut_sized (suc (suc (suc n))) (three_bytes_size a b) h =
      absurd (omega (arith, ap length (encode_three c a b)))
  cut_sized (suc zero) (four_bytes_size a b) h =
      rw (encode_four c a) (read_lead_only _ _ _ 2 (lead_four c a b))
  cut_sized (suc (suc zero)) (four_bytes_size a b) h =
      rw (encode_four c a) (read_second _ _ _ 2 (lead_four c a b) [])
  cut_sized (suc (suc (suc zero))) (four_bytes_size a b) h = rw (encode_four c a) (
      read_second _ _ _ 2 (lead_four c a b) ((0x80 + c / 64 % 64) ∷ [])
      ∙ read_continuation 1 _ (0x80 + c / 64 % 64) (omega arith) (omega arith) [])
  cut_sized (suc (suc (suc (suc n)))) (four_bytes_size a b) h =
      absurd (omega (arith, ap length (encode_four c a)))

  -- A cut character is skipped.
  pub decode-take_char :
      (n : ℕ) → n < length (encode_char c) → decode_from idle (take n (encode_char c)) ≡ []
  decode-take_char n h = cut_sized n (Size-cases c s) h
