-- ===== src/Analysis/Groups.antt =====
-- `group_snapshot_errors` of src/services/log_analysis.py, on lines that are classified: a file is
-- the list of what `_classify_line` returned for its lines, or the exception that `open` raised.
pub mod Totals
pub mod Rooted
pub mod Complete
use mcp_log_server.Prelude.{
  Bool, Eq, List, Option, String, [], bool_eq, contains, drop, false, if◌then◌else◌, length,
  list_eq, ltb, nat_eq, none, option_eq, some, string_eq, suc, take, true, ℕ, ◌++◌, ◌==◌, ◌||◌, ◌∷◌,
}
use mcp_log_server.Prelude.Dict.{Dict, insert, lookup, values}
use mcp_log_server.Prelude.Int.{int_eq, ℤ}
use mcp_log_server.Prelude.Result.{Result, err, ok, ◌>>=◌}
use mcp_log_server.Prelude.Sorting.{sort, text_below}
use mcp_log_server.Prelude.Utf8.{Text}
use mcp_log_server.Analysis.Routes.{key_eq}
use mcp_log_server.Filtering.Candidates.{LineReference}
use mcp_log_server.SocketApp.Spool.{path_eq}

-- `ErrorEvent`
pub record ErrorEvent : Type 0 where
  pub source_key : String
  pub output_file : String
  pub line_number : ℕ
  pub line : Text
  pub line_truncated : Bool
  pub category : String
  pub severity : String
  pub fingerprint : Text
  pub message_summary : Text
  pub timestamp : Option Text
  pub request_path : Option Text
  pub request_method : Option Text
  pub request_host : Option Text
  pub status_code : Option ℤ
  pub level : Option Text
  pub has_explicit_message : Bool
  pub identity_kind : String
  pub semantic_summary : Text
  pub semantic_identity_hash : Text
  pub upstream_attempted : Option Bool

-- `ErrorGroupAccumulator`; its sets are lists without repetition.
pub record ErrorGroup : Type 0 where
  pub fingerprint : Text
  pub category : String
  pub severity : String
  pub message_summary : Text
  pub identity_kind : String
  pub semantic_summary : Text
  pub semantic_identity_hash : Text
  pub upstream_attempted : Option Bool
  pub count : ℕ
  pub source_keys : List String
  pub request_paths : List Text
  pub request_methods : List Text
  pub request_hosts : List Text
  pub status_codes : List ℤ
  pub levels : List Text
  pub has_explicit_message : Bool
  pub first_timestamp : Option Text
  pub last_timestamp : Option Text
  pub first_seen : Option LineReference
  pub last_seen : Option LineReference

new_group : ErrorEvent → ErrorGroup
new_group event = record {
  fingerprint = event.fingerprint;
  category = event.category;
  severity = event.severity;
  message_summary = event.message_summary;
  identity_kind = event.identity_kind;
  semantic_summary = event.semantic_summary;
  semantic_identity_hash = event.semantic_identity_hash;
  upstream_attempted = event.upstream_attempted;
  count = 0;
  source_keys = [];
  request_paths = [];
  request_methods = [];
  request_hosts = [];
  status_codes = [];
  levels = [];
  has_explicit_message = false;
  first_timestamp = none;
  last_timestamp = none;
  first_seen = none;
  last_seen = none;
}

add_member : {A : Type 0} → ⦃e : Eq A⦄ → List A → A → List A
add_member xs a = if contains xs a then xs else a ∷ xs

-- `if value: values.add(value)`
add_text : List Text → Option Text → List Text
unfolding add_member
add_text xs none = xs
add_text xs (some text) = if text == [] then xs else add_member xs text

add_code : List ℤ → Option ℤ → List ℤ
unfolding add_member
add_code xs none = xs
add_code xs (some code) = add_member xs code

or_first : {A : Type 0} → Option A → Option A → Option A
or_first none other = other
or_first (some a) other = some a

event_reference : ErrorEvent → LineReference
event_reference event = record {
  source_key = event.source_key;
  output_file = event.output_file;
  line_number = event.line_number;
  line = event.line;
  line_truncated = event.line_truncated;
}

-- `ErrorGroupAccumulator.add`
unfoldable pub add : ErrorEvent → ErrorGroup → ErrorGroup
unfolding add_member add_text add_code or_first event_reference
add event group = record group {
  count = suc group.count;
  source_keys = add_member group.source_keys event.source_key;
  request_paths = add_text group.request_paths event.request_path;
  request_methods = add_text group.request_methods event.request_method;
  request_hosts = add_text group.request_hosts event.request_host;
  status_codes = add_code group.status_codes event.status_code;
  levels = add_text group.levels event.level;
  has_explicit_message = group.has_explicit_message || event.has_explicit_message;
  first_timestamp = or_first group.first_timestamp event.timestamp;
  last_timestamp = or_first event.timestamp group.last_timestamp;
  first_seen = or_first group.first_seen (some (event_reference event));
  last_seen = some (event_reference event);
}

-- The local variables of the loop.
pub record Grouping : Type 0 where
  pub groups : Dict Text ErrorGroup
  pub matching_line_count : ℕ
  pub searched_source_keys : List String
  pub analysis_complete : Bool

group_known : ℕ → ErrorEvent → Grouping → Option ErrorGroup → Grouping
unfolding new_group
group_known limit event g (some group) = record g {
  groups = insert event.fingerprint (add event group) g.groups;
  matching_line_count = suc g.matching_line_count;
}
group_known limit event g none =
    if ltb (length g.groups) limit
    then record g {
      groups = insert event.fingerprint (add event (new_group event)) g.groups;
      matching_line_count = suc g.matching_line_count;
    }
    else record g { matching_line_count = suc g.matching_line_count; analysis_complete = false }

-- The body of the loop over the lines.
unfoldable pub group_line : ℕ → Option ErrorEvent → Grouping → Grouping
unfolding group_known
group_line limit none g = g
group_line limit (some event) g = group_known limit event g (lookup event.fingerprint g.groups)

-- A group beyond the limit breaks the loop.
unfoldable pub group_lines : ℕ → List (Option ErrorEvent) → Grouping → Grouping
group_lines limit [] g = g
group_lines limit (event ∷ events) g =
    let next = group_line limit event g in
    let rest = group_lines limit events next in if next.analysis_complete then rest else next

pub data ClassifiedFile : Type 0 where
  classified : List (Option ErrorEvent) → ClassifiedFile
  value_error : ClassifiedFile
  os_error : ClassifiedFile

-- The messages of the ValueErrors.
pub data GroupError : Type 0 where
  invalid_group_limit : GroupError
  invalid_source_file : GroupError
  snapshot_file_missing : GroupError

group_file : ℕ → String → ClassifiedFile → Grouping → Result GroupError Grouping
group_file limit key (classified events) g = ok (
    group_lines limit events
      (record g { searched_source_keys = g.searched_source_keys ++ key ∷ [] }))
group_file limit key value_error g = err invalid_source_file
group_file limit key os_error g = err snapshot_file_missing

unfoldable pub group_files :
    ℕ → List (String × ClassifiedFile) → Grouping → Result GroupError Grouping
unfolding group_file
group_files limit [] g = ok g
group_files limit ((key, file) ∷ files) g = group_file limit key file g >>= λ next.
    let rest = group_files limit files next in if next.analysis_complete then rest else ok next

-- `_severity_rank`
unfoldable pub severity_rank : String → ℕ
severity_rank severity = if severity == "high" then 0 else if severity == "medium" then 1 else 2

-- The sort key: the severity, more counts first, the fingerprint.
unfoldable pub group_before : ErrorGroup → ErrorGroup → Bool
group_before a b =
    if ltb (severity_rank a.severity) (severity_rank b.severity)
    then true
    else if ltb (severity_rank b.severity) (severity_rank a.severity)
    then false
    else if ltb b.count a.count
    then true
    else if ltb a.count b.count
    then false
    else text_below a.fingerprint b.fingerprint

-- `GroupedSnapshotAnalysis`
pub record GroupedAnalysis : Type 0 where
  pub groups : List ErrorGroup
  pub matching_line_count : ℕ
  pub searched_source_keys : List String
  pub total_group_count : ℕ
  pub analysis_complete : Bool
  pub analysis_group_limit : ℕ

abbrev pub no_groups : Grouping
no_groups = record {
  groups = [];
  matching_line_count = 0;
  searched_source_keys = [];
  analysis_complete = true;
}

page_of : ℕ → ℕ → ℕ → Grouping → GroupedAnalysis
page_of limit max_groups offset g =
    let sorted_groups = sort group_before (values g.groups) in
    record {
      groups = take max_groups (drop offset sorted_groups);
      matching_line_count = g.matching_line_count;
      searched_source_keys = g.searched_source_keys;
      total_group_count = length sorted_groups;
      analysis_complete = g.analysis_complete;
      analysis_group_limit = limit;
    }

unfoldable pub group_snapshot_errors :
    List (String × ClassifiedFile) → ℕ → ℕ → ℕ → Result GroupError GroupedAnalysis
unfolding page_of
group_snapshot_errors files max_groups offset limit =
    if limit == 0
    then err invalid_group_limit
    else (group_files limit files no_groups >>= λ g. ok (page_of limit max_groups offset g))
