-- ===== src/Analysis/Values.antt =====
-- What src/services/log_analysis.py reads off a parsed log line: values by truth, status, level,
-- message, time, method, path and the traces of an upstream.
use mcp_log_server.Prelude.{
  Bool, List, Option, String, [], bool_eq, false, if◌then◌else◌, list_eq, nat_eq, none, not,
  option_eq, some, string_eq, true, ◌&&◌, ◌==◌, ◌∷◌,
}
use mcp_log_server.Prelude.Dict.{keys}
use mcp_log_server.Prelude.Int.{int_eq, pos, ℤ}
use mcp_log_server.Prelude.Json.{
  Fields, Json, arr, bool, bool_int, cons, end, field, float, get_or_null, int, nil, null, obj, str,
}
use mcp_log_server.Prelude.Strings.{among, strip}
use mcp_log_server.Prelude.Utf8.{Text, codes}
use mcp_log_server.Analysis.Routes.{key_eq}
use mcp_log_server.Filtering.Extract.{Python}

-- What `json.dumps` is given: texts, other values, and pairs with a name.
pub data Datum : Type 0 where
  text_datum : Text → Datum
  json_datum : Json → Datum
  named_datum : Text → Datum → Datum

-- The functions of Python that the analysis calls on texts. `repr` is `str` of an integer, a
-- list or an object, `dumps` is compact JSON, `sha256` the hex digest of the encoded text.
pub record Runtime : Type 0 where
  pub python : Python
  pub upper : Text → Text
  pub casefold : Text → Text
  pub repr : Json → Text
  pub dumps : List Datum → Text
  pub sha256 : Text → Text

-- Python's truth of a value.
unfoldable pub truthy : Json → Bool
truthy null = false
truthy (bool b) = b
truthy (int z) = not (z == pos 0)
truthy (float z whole t) = not (whole && z == pos 0)
truthy (str s) = not (s == "")
truthy (arr nil) = false
truthy (arr (cons j rest)) = true
truthy (obj end) = false
truthy (obj (field k v rest)) = true

-- `payload.get(a) or payload.get(b) or ...`
unfoldable pub first_truthy : Fields → List String → Json
unfolding truthy
first_truthy fields [] = null
first_truthy fields (key ∷ []) = get_or_null fields key
first_truthy fields (key ∷ next ∷ keys) =
    let later = first_truthy fields (next ∷ keys) in
    if truthy (get_or_null fields key) then get_or_null fields key else later

-- `str(value)`
unfoldable pub str_of : Runtime → Json → Text
str_of rt (str s) = codes s
str_of rt null = codes "None"
str_of rt (bool true) = codes "True"
str_of rt (bool false) = codes "False"
str_of rt (float z whole t) = codes t
str_of rt j = rt.repr j

-- `str(value or "")`
unfoldable pub text_or_empty : Runtime → Json → Text
unfolding truthy str_of
text_or_empty rt j = if truthy j then str_of rt j else []

unfoldable pub int_value : Runtime → Json → Option ℤ
int_value rt (int z) = some z
int_value rt (bool b) = some (bool_int b)
int_value rt (float z whole t) = some z
int_value rt (str s) = rt.python.int_of (codes s)
int_value rt _ = none

-- `_extract_status_code`
unfoldable pub extract_status : Runtime → Fields → Option ℤ
unfolding int_value first_truthy
extract_status rt fields =
    int_value rt (first_truthy fields ("status_code" ∷ "status" ∷ "DownstreamStatus" ∷ []))

upper_text : Runtime → Json → Option Text
unfolding str_of
upper_text rt null = none
upper_text rt j = some (rt.upper (str_of rt j))

-- `_extract_level`
unfoldable pub extract_log_level : Runtime → Fields → Option Text
unfolding upper_text first_truthy
extract_log_level rt fields = upper_text rt (first_truthy fields ("level" ∷ "severity" ∷ []))

-- `_extract_message`
unfoldable pub extract_message : Runtime → Fields → Text
unfolding text_or_empty first_truthy
extract_message rt fields =
    text_or_empty rt (first_truthy fields ("message" ∷ "error" ∷ "msg" ∷ []))

unfoldable pub non_empty : Text → Option Text
non_empty t = if t == [] then none else some t

stripped_text : Json → Option Text
unfolding non_empty
stripped_text (str s) = non_empty (strip (codes s))
stripped_text _ = none

unfoldable pub or_other {ℓ} : {A : Type ℓ} → Option A → Option A → Option A
or_other none other = other
or_other (some a) other = some a

first_text : Fields → List String → Option Text
unfolding stripped_text or_other
first_text fields [] = none
first_text fields (key ∷ keys) =
    or_other (stripped_text (get_or_null fields key)) (first_text fields keys)

-- `_extract_timestamp`
unfoldable pub extract_timestamp : Fields → Option Text
unfolding first_text
extract_timestamp fields = first_text fields ("timestamp" ∷ "time" ∷ "time_local" ∷ "ts" ∷ [])

some_text : Runtime → Json → Option Text
unfolding str_of non_empty
some_text rt null = none
some_text rt j = non_empty (strip (str_of rt j))

-- `_extract_first_string`
unfoldable pub extract_first_string : Runtime → Fields → List String → Option Text
unfolding some_text or_other
extract_first_string rt fields [] = none
extract_first_string rt fields (key ∷ keys) =
    or_other (some_text rt (get_or_null fields key)) (extract_first_string rt fields keys)

-- What one field says of an upstream: nothing, that none was tried, or that one was.
attempt : Runtime → Json → Option Bool
unfolding str_of
attempt rt null = none
attempt rt j = some (not (among ("" ∷ "-" ∷ "0" ∷ []) (strip (str_of rt j))))

both_attempts : Option Bool → Option Bool → Option Bool
both_attempts none later = later
both_attempts (some true) later = some true
both_attempts (some false) none = some false
both_attempts (some false) (some b) = some b

attempts : Runtime → Fields → List String → Option Bool
unfolding attempt both_attempts
attempts rt fields [] = none
attempts rt fields (key ∷ keys) =
    both_attempts (attempt rt (get_or_null fields key)) (attempts rt fields keys)

-- `_extract_upstream_attempt_state`
unfoldable pub extract_upstream_attempt_state : Runtime → Fields → Option Bool
unfolding attempts
extract_upstream_attempt_state rt fields = attempts rt fields (
    "upstream_addr" ∷ "upstream" ∷ "ServiceURL" ∷ "serviceURL" ∷ "upstream_status" ∷ "OriginStatus"
    ∷ "originStatus" ∷ [])
