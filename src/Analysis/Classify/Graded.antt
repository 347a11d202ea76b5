-- ===== src/Analysis/Classify/Graded.antt =====
-- The severity of a classified line.
use mcp_log_server.Prelude.{
  Bool, Bool-cases, Option, String, [], if◌then◌else◌, inl, inr, none, refl, some, ◌&&◌, ◌∷◌,
}
use mcp_log_server.Prelude.Int.{ℤ}
use mcp_log_server.Prelude.Json.{Fields}
use mcp_log_server.Prelude.Sorting.{place}
use mcp_log_server.Prelude.Utf8.{Text}
use mcp_log_server.Analysis.Classify.{
  Place, by_payload, classify_line, classify_structured_line, classify_text_line, event_of,
  is_level, looks_error_like, status_from, structured_event, text_event, verdict,
}
use mcp_log_server.Analysis.Groups.Rooted.{IsGraded, IsGradedEvent}
use mcp_log_server.Analysis.Values.{
  Runtime, extract_log_level, extract_message, extract_status, extract_upstream_attempt_state,
}
use mcp_log_server.Filtering.Extract.{parse_json_line}

abbrev IsGradedVerdict : Option (String × String) → Type 0
IsGradedVerdict none = Unit
IsGradedVerdict (some (category, severity)) = IsGraded severity

verdict-IsGraded :
    (rt : Runtime) (status : Option ℤ) (level : Option Text) (message : Text)
    → IsGradedVerdict (verdict rt status level message)
unfolding verdict
verdict-IsGraded rt status level message = elim (Bool-cases (status_from 500 status)) [
  | inl server ↦ rw server (inl refl)
  | inr below_500 ↦ rw below_500 (elim (Bool-cases (status_from 400 status)) [
    | inl client ↦ rw client (inr refl)
    | inr below_400 ↦ rw below_400 (elim (Bool-cases (is_level ("ERROR" ∷ "CRITICAL" ∷ []) level)) [
      | inl error ↦ rw error (inl refl)
      | inr quiet ↦
          rw quiet
            (elim (Bool-cases
              (is_level ("WARN" ∷ "WARNING" ∷ []) level && looks_error_like rt message)) [
                | inl warning ↦ rw warning (inr refl)
                | inr other ↦ rw other tt
              ])
    ])
  ])
]

event_of-IsGraded :
    (rt : Runtime) (place : Place) (raw_line : Text) (fields : Fields) (upstream : Option Bool)
    (found : Option (String × String))
    → IsGradedVerdict found
    → IsGradedEvent (event_of rt place raw_line fields upstream found)
unfolding event_of structured_event
event_of-IsGraded rt place raw_line fields upstream none graded = tt
event_of-IsGraded rt place raw_line fields upstream (some (category, severity)) graded = graded

classify_text_line-IsGraded :
    (rt : Runtime) (place : Place) (raw_line : Text)
    → IsGradedEvent (classify_text_line rt place raw_line)
unfolding classify_text_line text_event
classify_text_line-IsGraded rt place raw_line = elim (Bool-cases (looks_error_like rt raw_line)) [
  | inl looks ↦ rw looks (inr refl)
  | inr other ↦ rw other tt
]

by_payload-IsGraded :
    (rt : Runtime) (place : Place) (raw_line : Text) (is_proxy : Bool) (parsed : Option Fields)
    → IsGradedEvent (by_payload rt place raw_line is_proxy parsed)
unfolding by_payload classify_structured_line
by_payload-IsGraded rt place raw_line is_proxy none = classify_text_line-IsGraded rt place raw_line
by_payload-IsGraded rt place raw_line is_proxy (some fields) =
    event_of-IsGraded rt place raw_line fields
      (if is_proxy then extract_upstream_attempt_state rt fields else none)
      (verdict rt (extract_status rt fields) (extract_log_level rt fields)
        (extract_message rt fields))
      (verdict-IsGraded rt (extract_status rt fields) (extract_log_level rt fields)
        (extract_message rt fields))

pub classify_line-IsGraded :
    (rt : Runtime) (place : Place) (raw_line : Text) (is_proxy : Bool)
    → IsGradedEvent (classify_line rt place raw_line is_proxy)
unfolding classify_line
classify_line-IsGraded rt place raw_line is_proxy =
    by_payload-IsGraded rt place raw_line is_proxy (parse_json_line rt.python raw_line)
