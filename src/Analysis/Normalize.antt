-- ===== src/Analysis/Normalize.antt =====
-- The patterns of src/services/log_analysis.py that take volatile identifiers out of a message.
use mcp_log_server.Prelude.{
  Bool, Option, [], bool_eq, contains, if◌then◌else◌, leb, length, list_eq, nat_eq, none, not,
  option_eq, some, string_eq, take, ℕ, ◌&&◌, ◌++◌, ◌==◌, ◌||◌, ◌∷◌,
}
use mcp_log_server.Prelude.Int.{int_eq}
use mcp_log_server.Prelude.Matcher.{
  Matcher, ahead, boundary, either, grouped, line_end, literal, literal_any_case, maybe, one, plus,
  search_match, star, substitute, times, ◌then_match◌,
}
use mcp_log_server.Prelude.Strings.{before, is_space, reverse_onto, strip}
use mcp_log_server.Prelude.Utf8.{Text, codes}
use mcp_log_server.Analysis.Requests.{matched_group}
use mcp_log_server.Analysis.Routes.{key_eq}
use mcp_log_server.Analysis.Values.{Runtime}

is_hex : ℕ → Bool
is_hex c = (leb 48 c && leb c 57) || (leb 65 c && leb c 70) || (leb 97 c && leb c 102)

is_hex_letter : ℕ → Bool
is_hex_letter c = (leb 65 c && leb c 70) || (leb 97 c && leb c 102)

dash : Matcher
dash = one (λ c. c == 45)

-- `_UUID_PATTERN`
uuid_pattern : Runtime → Matcher
unfolding is_hex dash
uuid_pattern rt =
    boundary rt.python.is_word
    then_match times 8 is_hex
    then_match dash
    then_match times 4 is_hex
    then_match dash
    then_match times 4 is_hex
    then_match dash
    then_match times 4 is_hex
    then_match dash
    then_match times 12 is_hex
    then_match boundary rt.python.is_word

-- `_LONG_HEX_PATTERN`
long_hex_pattern : Runtime → Matcher
unfolding is_hex is_hex_letter
long_hex_pattern rt =
    boundary rt.python.is_word
    then_match ahead (times 12 is_hex then_match star is_hex then_match boundary rt.python.is_word)
    then_match ahead (star is_hex then_match one is_hex_letter)
    then_match times 12 is_hex
    then_match star is_hex
    then_match boundary rt.python.is_word

-- `_LONG_NUMBER_PATTERN` and `_RAW_FALLBACK_NUMBER_PATTERN`, by their least number of digits.
number_pattern : Runtime → ℕ → Matcher
number_pattern rt digits =
    boundary rt.python.is_word
    then_match times digits rt.python.is_decimal
    then_match star rt.python.is_decimal
    then_match boundary rt.python.is_word

is_separator : ℕ → Bool
is_separator c = is_space c || c == 95 || c == 45

-- `_LABELED_NUMERIC_CODE_PREFIX`
labeled_prefix : Matcher
unfolding is_separator
labeled_prefix =
    either
      (literal_any_case (codes "error")
        then_match maybe (star is_separator then_match literal_any_case (codes "code")))
      (either (literal_any_case (codes "code")) (
        either (literal_any_case (codes "errno")) (
          either (literal_any_case (codes "sqlstate")) (
            either (literal_any_case (codes "status")) (
              literal_any_case (codes "exit")
              then_match star is_separator
              then_match literal_any_case (codes "code"))))))
    then_match star is_space
    then_match maybe (one (λ c. c == 58 || c == 61 || c == 35 || c == 45))
    then_match star is_space
    then_match line_end

labeled_code : Runtime → Text → Text
labeled_code rt number =
    if leb (length number) 12
    then number
    else codes "<code:" ++ take 12 (rt.sha256 number) ++ codes ">"

-- `_normalize_long_number`, with the text before the number reversed.
normalize_long_number : Runtime → Text → Text → Text
unfolding labeled_prefix labeled_code
normalize_long_number rt before number =
    elim (search_match labeled_prefix (reverse_onto (take 48 before) [])) [
      | none ↦ codes "<n>"
      | some e ↦ labeled_code rt number
    ]

-- `_WHITESPACE_PATTERN.sub(" ", value)`
unfoldable pub one_space : Text → Text
one_space value = substitute (plus is_space) (λ before blanks. 32 ∷ []) value

without_identifiers : Runtime → Text → Text
unfolding uuid_pattern long_hex_pattern
without_identifiers rt value =
    substitute (long_hex_pattern rt) (λ before t. codes "<id>")
      (substitute (uuid_pattern rt) (λ before t. codes "<uuid>") value)

-- `_normalize_text`
unfoldable pub normalize_text : Runtime → Text → Text
unfolding without_identifiers number_pattern normalize_long_number
normalize_text rt value = one_space (
    strip
      (substitute (number_pattern rt 6) (normalize_long_number rt) (without_identifiers rt value)))

-- `_normalize_raw_fallback`
unfoldable pub normalize_raw_fallback : Runtime → Text → Text
unfolding without_identifiers number_pattern
normalize_raw_fallback rt value = one_space (
    strip
      (substitute (number_pattern rt 2) (λ before t. codes "<n>") (without_identifiers rt value)))

is_one_of : Text → ℕ → Bool
is_one_of t c = contains t c

-- `\d{2}:\d{2}:\d{2}`
clock_pattern : Runtime → Matcher
clock_pattern rt =
    times 2 rt.python.is_decimal
    then_match one (λ c. c == 58)
    then_match times 2 rt.python.is_decimal
    then_match one (λ c. c == 58)
    then_match times 2 rt.python.is_decimal

iso_timestamp : Runtime → Matcher
unfolding is_one_of clock_pattern dash
iso_timestamp rt =
    times 4 rt.python.is_decimal
    then_match dash
    then_match times 2 rt.python.is_decimal
    then_match dash
    then_match times 2 rt.python.is_decimal
    then_match one (is_one_of (codes "T "))
    then_match clock_pattern rt
    then_match maybe (one (λ c. c == 46) then_match plus rt.python.is_decimal)
    then_match maybe (
        either (one (λ c. c == 90)) (
          one (is_one_of (codes "+-"))
          then_match times 2 rt.python.is_decimal
          then_match maybe (one (λ c. c == 58))
          then_match times 2 rt.python.is_decimal))

slash_timestamp : Runtime → Matcher
unfolding clock_pattern
slash_timestamp rt =
    times 4 rt.python.is_decimal
    then_match one (λ c. c == 47)
    then_match times 2 rt.python.is_decimal
    then_match one (λ c. c == 47)
    then_match times 2 rt.python.is_decimal
    then_match one (λ c. c == 32)
    then_match clock_pattern rt

prefix_timestamp : Runtime → Matcher
unfolding iso_timestamp slash_timestamp
prefix_timestamp rt = either (iso_timestamp rt) (slash_timestamp rt)

stream_name : Matcher
unfolding is_one_of
stream_name =
    plus is_space
    then_match maybe (
        either (literal (codes "stdout")) (literal (codes "stderr"))
        then_match maybe (plus is_space then_match one (is_one_of (codes "FP")))
        then_match plus is_space)

line_text : Matcher
line_text = star (λ c. not (c == 10))

-- `_PLAIN_TEXT_LOG_PREFIX_PATTERN`, for its two groups.
message_pattern : Runtime → Matcher
unfolding prefix_timestamp stream_name line_text
message_pattern rt =
    prefix_timestamp rt then_match stream_name then_match grouped line_text then_match line_end

timestamp_pattern : Runtime → Matcher
unfolding prefix_timestamp stream_name line_text
timestamp_pattern rt =
    grouped (prefix_timestamp rt) then_match stream_name then_match line_text then_match line_end

plain_text : Text → Option Text → Option Text → Text × Option Text
plain_text value (some message) (some timestamp) = (message, some timestamp)
plain_text value _ _ = (value, none)

-- `_extract_plain_text_message`
unfoldable pub extract_plain_text_message : Runtime → Text → Text × Option Text
unfolding plain_text message_pattern timestamp_pattern
extract_plain_text_message rt value =
    plain_text value (matched_group (message_pattern rt) value)
      (matched_group (timestamp_pattern rt) value)
