-- ===== src/Filtering/Cut/Prefix.antt =====
-- `_truncate_line` against the beginnings of a line.
use mathlib.Core.List.{append-nil}
use mcp_log_server.Prelude.{
  All, Bool, [], ap, arith, gt→leb, if◌then◌else◌, inl, inr, le_or_lt, leb, length, length-append,
  le→leb, refl, suc, sym, take, true, zero, ℕ, ◌++◌, ◌+◌, ◌-◌, ◌<◌, ◌↔◌, ◌∙◌, ◌∷◌, ◌≡◌, ◌≢◌, ◌≤◌,
}
use mcp_log_server.Prelude.Utf8.{Bytes, Text, encode, encode_char}
use mcp_log_server.Filtering.Cut.{decode_from, idle, max_filtered_line_bytes, truncate_line}
use mcp_log_server.Filtering.Cut.Character.{IsScalar, decode-encode_char, decode-take_char}

-- The whole characters at the start of a text whose bytes fit.
unfoldable pub fitting : ℕ → Text → Text
fitting limit [] = []
fitting limit (c ∷ t) =
    let rest = fitting (limit - length (encode_char c)) t in
    if leb (length (encode_char c)) limit then c ∷ rest else []

take_of_append :
    (n : ℕ) (xs ys : Bytes) → length xs ≤ n → take n (xs ++ ys) ≡ xs ++ take (n - length xs) ys
take_of_append n [] ys h = ap (λ (k : ℕ). take k ys) (omega arith)
take_of_append zero (x ∷ xs) ys h = absurd (omega arith)
take_of_append (suc n) (x ∷ xs) ys h =
    ap (λ (zs : Bytes). x ∷ zs)
      (take_of_append n xs ys (omega arith) ∙ ap (λ (k : ℕ). xs ++ take k ys) (omega arith))

take_in_front : (n : ℕ) (xs ys : Bytes) → n ≤ length xs → take n (xs ++ ys) ≡ take n xs
take_in_front zero xs ys h = refl
take_in_front (suc n) [] ys h = absurd (omega arith)
take_in_front (suc n) (x ∷ xs) ys h =
    ap (λ (zs : Bytes). x ∷ zs) (take_in_front n xs ys (omega arith))

decode-take :
    (n : ℕ) (t : Text) → All IsScalar t → decode_from idle (take n (encode t)) ≡ fitting n t
unfolding encode fitting decode_from
decode-take zero [] a = refl
decode-take (suc n) [] a = refl
decode-take n (c ∷ t) (s, a) = elim (le_or_lt (length (encode_char c)) n) [
  | inl fits ↦ rw (
    le→leb _ _ fits,
    take_of_append n (encode_char c) (encode t) fits,
    decode-encode_char c s (take (n - length (encode_char c)) (encode t)),
    decode-take (n - length (encode_char c)) t a,
  )
  | inr big ↦ rw (
    gt→leb _ _ big,
    take_in_front n (encode_char c) (encode t) (omega arith),
    decode-take_char c s n big,
  )
]

-- A beginning of the text, the longest within the limit.
record IsLongest (limit : ℕ) (t front : Text) : Type 0 where
  rest : Text
  whole : front ++ rest ≡ t
  within : length (encode front) ≤ limit
  longest :
      (c : ℕ) (more : Text)
      → rest ≡ c ∷ more
      → limit < length (encode front) + length (encode_char c)

fitting-IsLongest : (n : ℕ) (t : Text) → IsLongest n t (fitting n t)
unfolding fitting encode
fitting-IsLongest n [] = record {
  rest = [];
  whole = refl;
  within = omega arith;
  longest = λ c more e. cc;
}
fitting-IsLongest n (c ∷ t) = elim (le_or_lt (length (encode_char c)) n) [
  | inl fits ↦
      let l = fitting-IsLongest (n - length (encode_char c)) t in
      rw (le→leb _ _ fits) (record {
        rest = l.rest;
        whole = ap (λ (xs : Text). c ∷ xs) l.whole;
        within = omega (
          arith,
          l.within,
          length-append (encode_char c) (encode (fitting (n - length (encode_char c)) t)),
        );
        longest = λ d more e. omega (
          arith,
          l.longest d more e,
          length-append (encode_char c) (encode (fitting (n - length (encode_char c)) t)),
        );
      })
  | inr big ↦ rw (gt→leb _ _ big) (record {
    rest = c ∷ t;
    whole = refl;
    within = omega arith;
    longest = λ d more e.
        let same : c ≡ d = cc in omega (arith, big, ap (λ (x : ℕ). length (encode_char x)) same);
  })
]

whole_front : {limit : ℕ} {t front : Text} (l : IsLongest limit t front) → l.rest ≡ [] → front ≡ t
whole_front {front = front} l empty =
    sym (append-nil front) ∙ ap (λ (xs : Text). front ++ xs) (sym empty) ∙ l.whole

-- A line that is cut.
pub record IsCut (line : Text) (result : Text × Bool) : Type 0 where
  pub rest : Text
  pub whole : result.0 ++ rest ≡ line
  pub within : length (encode result.0) ≤ max_filtered_line_bytes
  pub longest :
      (c : ℕ) (more : Text)
      → rest ≡ c ∷ more
      → max_filtered_line_bytes < length (encode result.0) + length (encode_char c)
  pub flag : (result.1 ≡ true) ↔ (rest ≢ [])

-- A line that is cut is the longest beginning of the line, in whole characters, whose UTF-8 bytes
-- fit the limit, and it is reported as truncated exactly when something is left out, for lines
-- without surrogates.
pub truncate_line-IsCut : (line : Text) → All IsScalar line → IsCut line (truncate_line line)
unfolding truncate_line
truncate_line-IsCut line scalars = elim (le_or_lt (length (encode line)) max_filtered_line_bytes) [
  | inl fits ↦ rw (le→leb _ _ fits) (record {
    rest = [];
    whole = append-nil line;
    within = fits;
    longest = λ c more e. cc;
    flag = (λ h. cc, λ h. absurd (h refl));
  })
  | inr big ↦
      let l = fitting-IsLongest max_filtered_line_bytes line in
      rw (gt→leb _ _ big, decode-take max_filtered_line_bytes line scalars)
        (record {
          rest = l.rest;
          whole = l.whole;
          within = l.within;
          longest = l.longest;
          flag = (
            λ _ empty. absurd (
                omega (
                  arith,
                  big,
                  l.within,
                  ap (λ (x : Text). length (encode x)) (whole_front l empty),
                )),
            λ _. refl,
          );
        })
]
