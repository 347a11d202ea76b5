-- ===== src/Collection/DockerPages/Progress.antt =====
-- What `_validated_docker_log_page` has checked when it accepts a page, and how a turn of the loop
-- over the pages ends.
use mcp_log_server.Prelude.{
  Bool-cases, List, Option, Option-cases, String, arith, bool_eq, false, if◌then◌else◌, inl, inr,
  length, list_eq, nat_eq, none, not, option_eq, refl, some, string_eq, suc, true, ℕ, ◌&&◌, ◌+◌,
  ◌==◌, ◌≡◌, ◌≢◌,
}
use mcp_log_server.Prelude.Int.{int_eq, pos}
use mcp_log_server.Prelude.Json.{
  Fields, Json, arr, bool, equals_int, float, get_or_null, int, null, obj, str,
}
use mcp_log_server.Prelude.Result.{Result, err, ok, ◌>>=◌}
use mcp_log_server.Prelude.Utf8.{Bytes}
use mcp_log_server.Collection.DockerPages.{
  Base64, LogPage, StreamError, after_check, after_page, after_request, checked_cursor,
  checked_limit, decoded_content, invalid_page, is_exactly, is_null, out_of_fuel, positive_int,
  prepend, stream_docker_log_pages, validated_docker_log_page,
}

-- The outcome of the checks on a payload: a page that goes on ends after it begins.
pub data IsChecked {E : Type 0} (payload : Fields) (start : ℕ)
    : Result (StreamError E) LogPage → Type 0 where
  refused : {e : StreamError E} → e ≢ out_of_fuel → IsChecked payload start (err e)
  last : {page : LogPage} → page.next ≡ none → IsChecked payload start (ok page)
  continued :
      {page : LogPage} {id : String} (content : Bytes)
      → page.next ≡ some (id, start + length content)
      → length content ≢ 0
      → is_exactly (get_or_null payload "returned_bytes") (length content) ≡ true
      → get_or_null payload "truncated" ≡ bool true
      → IsChecked payload start (ok page)

module _ {E : Type 0} (payload : Fields) (start : ℕ) (content : Bytes)
    (exact : is_exactly (get_or_null payload "returned_bytes") (length content) ≡ true) where
  checked_cursor-IsChecked :
      (l : ℕ) (truncated next_offset transfer_id : Json)
      → get_or_null payload "truncated" ≡ truncated
      → IsChecked {E = E} payload start
          (checked_cursor content l (start + length content) truncated next_offset transfer_id)
  unfolding checked_cursor
  checked_cursor-IsChecked l (bool true) n (str t) cut =
      elim (Bool-cases (
        equals_int n (pos (start + length content))
        && not (length content == 0)
        && not (t == ""))) [
          | inl good ↦ rw good (continued content refl (λ z. ground (arith, good)) exact cut)
          | inr bad ↦ rw bad (refused (λ h. cc))
        ]
  checked_cursor-IsChecked l (bool true) n null cut = refused (λ h. cc)
  checked_cursor-IsChecked l (bool true) n (bool b) cut = refused (λ h. cc)
  checked_cursor-IsChecked l (bool true) n (int z) cut = refused (λ h. cc)
  checked_cursor-IsChecked l (bool true) n (float z w x) cut = refused (λ h. cc)
  checked_cursor-IsChecked l (bool true) n (arr x) cut = refused (λ h. cc)
  checked_cursor-IsChecked l (bool true) n (obj x) cut = refused (λ h. cc)
  checked_cursor-IsChecked l (bool false) n t cut = elim (Bool-cases (is_null n && is_null t)) [
    | inl good ↦ rw good (last refl)
    | inr bad ↦ rw bad (refused (λ h. cc))
  ]
  checked_cursor-IsChecked l null n t cut = refused (λ h. cc)
  checked_cursor-IsChecked l (int z) n t cut = refused (λ h. cc)
  checked_cursor-IsChecked l (float z w x) n t cut = refused (λ h. cc)
  checked_cursor-IsChecked l (str x) n t cut = refused (λ h. cc)
  checked_cursor-IsChecked l (arr x) n t cut = refused (λ h. cc)
  checked_cursor-IsChecked l (obj x) n t cut = refused (λ h. cc)

  checked_limit-IsChecked :
      (limit : Option ℕ)
      → IsChecked {E = E} payload start (checked_limit payload start content limit)
  unfolding checked_limit
  checked_limit-IsChecked none = refused (λ h. cc)
  checked_limit-IsChecked (some l) =
      checked_cursor-IsChecked l (get_or_null payload "truncated")
        (get_or_null payload "next_offset") (get_or_null payload "transfer_id") refl

module _ {E : Type 0} (b64 : Base64) (payload : Fields) (start : ℕ) where
  abbrev rest_of_checks : Bytes → Result (StreamError E) LogPage
  rest_of_checks content =
      if equals_int (get_or_null payload "offset") (pos start)
        && is_exactly (get_or_null payload "returned_bytes") (length content)
      then checked_limit payload start content (positive_int (get_or_null payload "byte_limit"))
      else err invalid_page

  rest_of_checks-IsChecked : (content : Bytes) → IsChecked payload start (rest_of_checks content)
  rest_of_checks-IsChecked content =
      elim (Bool-cases (
        equals_int (get_or_null payload "offset") (pos start)
        && is_exactly (get_or_null payload "returned_bytes") (length content))) [
          | inl good ↦ rw good (
              checked_limit-IsChecked payload start content (ground (arith, good))
                (positive_int (get_or_null payload "byte_limit")))
          | inr bad ↦ rw bad (refused (λ h. cc))
        ]

  decoded-IsChecked :
      (j : Json) → IsChecked payload start (decoded_content b64 j >>= rest_of_checks)
  unfolding decoded_content
  decoded-IsChecked (str s) = elim (Option-cases (b64.decode s)) [
    | inl e ↦ rw (◌>>=◌, e) (refused (λ h. cc))
    | inr (content, e) ↦ rw (◌>>=◌, e) (rest_of_checks-IsChecked content)
  ]
  decoded-IsChecked null = refused (λ h. cc)
  decoded-IsChecked (bool b) = refused (λ h. cc)
  decoded-IsChecked (int z) = refused (λ h. cc)
  decoded-IsChecked (float z w x) = refused (λ h. cc)
  decoded-IsChecked (arr x) = refused (λ h. cc)
  decoded-IsChecked (obj x) = refused (λ h. cc)

  pub validated-IsChecked :
      IsChecked payload start (validated_docker_log_page {E = E} b64 payload start)
  unfolding validated_docker_log_page
  validated-IsChecked = decoded-IsChecked (get_or_null payload "logs_base64")

module _ {E S : Type 0} (b64 : Base64) (request : Option String → ℕ → S → Result E Fields × S) where
  prepend_ends :
      (page : LogPage) (out : Result (StreamError E) (List LogPage) × S)
      → out.0 ≢ err out_of_fuel
      → (prepend b64 request page out).0 ≢ err out_of_fuel
  unfolding prepend
  prepend_ends page (ok pages, s) h = λ e. cc
  prepend_ends page (err x, s) h = λ e. h cc

  -- A turn ends the loop with pages or an error of its own, or leaves it to the next turn, which a
  -- page with bytes in it leads to.
  pub turn_ends :
      (fuel : ℕ) (id : Option String) (start : ℕ) (s : S)
      → ((payload : Fields)
          → (request id start s).0 ≡ ok payload
          → (next : String) (content : Bytes) → length content ≢ 0
          → is_exactly (get_or_null payload "returned_bytes") (length content) ≡ true
          → get_or_null payload "truncated" ≡ bool true
          → (stream_docker_log_pages b64 request fuel
              (some next)
              (start + length content)
              (request id start s).1).0
            ≢ err out_of_fuel)
      → (stream_docker_log_pages b64 request (suc fuel) id start s).0 ≢ err out_of_fuel
  unfolding stream_docker_log_pages after_request after_check after_page
  turn_ends fuel id start s h = asked (request id start s) h
    where
      checked :
          (payload : Fields) (state : S) (out : Result (StreamError E) LogPage)
          → IsChecked payload start out
          → ((next : String) (content : Bytes)
              → length content ≢ 0
              → is_exactly (get_or_null payload "returned_bytes") (length content) ≡ true
              → get_or_null payload "truncated" ≡ bool true
              → (stream_docker_log_pages b64 request fuel
                  (some next)
                  (start + length content)
                  state).0
                ≢ err out_of_fuel)
          → (after_check b64 request (stream_docker_log_pages b64 request fuel) state out).0
            ≢ err out_of_fuel
      checked payload state (err e) (refused other) h = λ x. other cc
      checked payload state (ok page) (last e) h = simp e (λ x. cc)
      checked payload state (ok page) (continued {id = next} content e progress exact cut) h =
          simp e (prepend_ends page _ (h next content progress exact cut))

      asked :
          (out : Result E Fields × S)
          → ((payload : Fields)
              → out.0 ≡ ok payload
              → (next : String) (content : Bytes) → length content ≢ 0
              → is_exactly (get_or_null payload "returned_bytes") (length content) ≡ true
              → get_or_null payload "truncated" ≡ bool true
              → (stream_docker_log_pages b64 request fuel
                  (some next)
                  (start + length content)
                  out.1).0
                ≢ err out_of_fuel)
          → (after_request b64 request (stream_docker_log_pages b64 request fuel) start out).0
            ≢ err out_of_fuel
      asked (err e, state) h = λ x. cc
      asked (ok payload, state) h =
          checked payload state _ (validated-IsChecked b64 payload start) (h payload refl)
