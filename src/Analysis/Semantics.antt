-- ===== src/Analysis/Semantics.antt =====
-- The semantic fields of a structured log line, and the identity of an event, in
-- src/services/log_analysis.py.
pub mod Same
pub mod Separates
use mcp_log_server.Prelude.{
  Bool, List, Option, String, [], bool_eq, false, if◌then◌else◌, list_eq, nat_eq, none, not,
  option_eq, some, string_eq, true, ◌&&◌, ◌++◌, ◌==◌, ◌||◌, ◌∷◌,
}
use mcp_log_server.Prelude.Int.{int_eq, ℤ}
use mcp_log_server.Prelude.Json.{Fields, Json, bool, float, get_or_null, int, null, str}
use mcp_log_server.Prelude.Strings.{split_words, strip}
use mcp_log_server.Prelude.Utf8.{Text, codes}
use mcp_log_server.Analysis.Normalize.{normalize_text, one_space}
use mcp_log_server.Analysis.Requests.{truncate_analysis_line}
use mcp_log_server.Analysis.Routes.{key_eq}
use mcp_log_server.Analysis.Values.{
  Datum, Runtime, int_value, json_datum, named_datum, str_of, text_datum,
}

-- `_build_http_message_summary`; a missing or empty part is left out.
non_empty_text : Option Text → List Text
non_empty_text none = []
non_empty_text (some t) = if t == [] then [] else t ∷ []

pub join_words : List Text → Text
join_words [] = []
join_words (w ∷ []) = w
join_words (w ∷ v ∷ words) = w ++ 32 ∷ join_words (v ∷ words)

unfoldable pub http_message_summary :
    Runtime → Option ℤ → Option Text → Option Text → Option Text → Option Text
unfolding non_empty_text join_words str_of
http_message_summary rt none method host path = none
http_message_summary rt (some status) method host none = none
http_message_summary rt (some status) method host (some path) = some (
    join_words (
      codes "HTTP"
      ∷ str_of rt (int status)
      ∷ (non_empty_text method ++ (non_empty_text host ++ path ∷ []))))

-- One semantic field: its exact value, and the text that is shown.
record SemanticField : Type 0 where
  datum : Datum
  shown : Text

is_status_field : String → Bool
is_status_field name = name == "status_code" || name == "status" || name == "DownstreamStatus"

same_status : Option ℤ → Option ℤ → Bool
same_status (some a) (some b) = a == b
same_status _ _ = false

repeats_status : Runtime → Option ℤ → String → Json → Bool
unfolding is_status_field same_status
repeats_status rt status name j = is_status_field name && same_status (int_value rt j) status

field_of : Runtime → String → Datum → Text → SemanticField
unfolding one_space
field_of rt name datum t = record {
  datum = named_datum (codes name) datum;
  shown = if one_space t == [] then [] else normalize_text rt (codes name ++ 61 ∷ one_space t);
}

text_field : Runtime → String → Text → Option SemanticField
unfolding field_of
text_field rt name t = if t == [] then none else some (field_of rt name (text_datum t) t)

-- Texts, integers, floats and truth values are kept.
scalar_field : Runtime → String → Json → Option SemanticField
unfolding text_field str_of
scalar_field rt name (str s) = text_field rt name (strip (codes s))
scalar_field rt name (int z) = some (field_of rt name (json_datum (int z)) (str_of rt (int z)))
scalar_field rt name (float z whole t) =
    some (field_of rt name (json_datum (float z whole t)) (str_of rt (float z whole t)))
scalar_field rt name (bool b) = some (field_of rt name (json_datum (bool b)) (str_of rt (bool b)))
scalar_field rt name _ = none

semantic_field : Runtime → Option ℤ → Fields → String → Option SemanticField
unfolding scalar_field repeats_status
semantic_field rt status fields name =
    if repeats_status rt status name (get_or_null fields name)
    then none
    else scalar_field rt name (get_or_null fields name)

with_field : Option SemanticField → List SemanticField → List SemanticField
with_field none found = found
with_field (some f) found = f ∷ found

collect : Runtime → Option ℤ → Fields → List String → List SemanticField
unfolding semantic_field with_field
collect rt status fields [] = []
collect rt status fields (name ∷ names) =
    with_field (semantic_field rt status fields name) (collect rt status fields names)

shown_parts : List SemanticField → List Text
shown_parts [] = []
shown_parts (f ∷ found) = if f.shown == [] then shown_parts found else f.shown ∷ shown_parts found

data_of : List SemanticField → List Datum
data_of [] = []
data_of (f ∷ found) = f.datum ∷ data_of found

identity_hash : Runtime → List SemanticField → Text
unfolding data_of
identity_hash rt [] = []
identity_hash rt (f ∷ found) = rt.sha256 (rt.dumps (data_of (f ∷ found)))

-- `_build_structured_semantic_metadata`
unfoldable pub semantic_metadata : Runtime → Fields → Option ℤ → Text × Text
unfolding collect shown_parts identity_hash join_words
semantic_metadata rt fields status =
    let found = collect rt status fields (
      "event" ∷ "operation" ∷ "error_category" ∷ "error_code" ∷ "status_code" ∷ "status"
      ∷ "DownstreamStatus" ∷ []) in
    ((truncate_analysis_line (join_words (shown_parts found))).0, identity_hash rt found)

-- What `_build_fingerprint` is given.
pub record Identity : Type 0 where
  pub category : String
  pub status_code : Option ℤ
  pub request_path : Option Text
  pub request_method : Option Text
  pub request_host : Option Text
  pub identity_kind : String
  pub message : Text
  pub semantic_hash : Text
  pub upstream_attempted : Option Bool

text_or_null : Option Text → Datum
text_or_null none = json_datum null
text_or_null (some t) = text_datum t

-- `value or ""`
text_or_blank : Option Text → Datum
text_or_blank none = text_datum []
text_or_blank (some t) = text_datum t

status_datum : Option ℤ → Datum
status_datum none = json_datum null
status_datum (some z) = json_datum (int z)

attempted : Option Bool → List Datum
attempted none = []
attempted (some b) = json_datum (bool b) ∷ []

unfoldable pub canonical_fields : Identity → List Datum
unfolding text_or_null text_or_blank status_datum attempted join_words
canonical_fields i =
    text_datum (codes i.category)
    ∷ status_datum i.status_code
    ∷ text_or_blank i.request_method
    ∷ text_or_blank i.request_host
    ∷ text_or_null i.request_path
    ∷ text_datum (codes i.identity_kind)
    ∷ text_datum (join_words (split_words i.message))
    ∷ text_datum i.semantic_hash
    ∷ attempted i.upstream_attempted

is_present : Option Text → Bool
is_present none = false
is_present (some t) = not (t == [])

has_status : Option ℤ → Bool
has_status none = false
has_status (some z) = true

unfoldable pub has_identity : Identity → Bool
unfolding is_present has_status
has_identity i =
    (has_status i.status_code && is_present i.request_path)
    || not (i.message == [])
    || not (i.semantic_hash == [])

-- `_build_fingerprint`
unfoldable pub build_fingerprint : Runtime → String → Identity → Text → Text
unfolding canonical_fields has_identity
build_fingerprint rt source_key i normalized_message =
    if has_identity i
    then codes source_key
      ++ (58
          ∷ (codes i.category
              ++ (codes ":group-errors-v2:" ++ rt.sha256 (rt.dumps (canonical_fields i)))))
    else codes source_key ++ (58 ∷ (codes i.category ++ (58 ∷ normalized_message)))
