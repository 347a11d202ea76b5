-- ===== src/Filtering/Candidates.antt =====
-- The bounded candidates of a filtered view and the choice among them:
-- `_store_filtered_line_candidate` and `_select_filtered_lines` of src/services/log_filtering.py.
pub mod Refines
pub mod Sample
pub mod Selected
use mcp_log_server.Prelude.{
  Bool, List, Option, String, [], bool_eq, false, get_elem?, if◌then◌else◌, length, list_eq, ltb,
  nat_eq, none, option_eq, some, string_eq, suc, take, true, zero, ℕ, ◌++◌, ◌∷◌,
}
use mcp_log_server.Prelude.Dict.{Dict, insert, keys, lookup}
use mcp_log_server.Prelude.Int.{int_eq}
use mcp_log_server.Prelude.Result.{Result, ok, ◌>>=◌}
use mcp_log_server.Prelude.Utf8.{Text}
use mcp_log_server.Filtering.Extract.{Python, ValueError, is_incident_line}
use mcp_log_server.SocketApp.Spool.{path_eq}

-- `SnapshotLineReferencePayload`
pub record LineReference : Type 0 where
  pub source_key : String
  pub output_file : String
  pub line_number : ℕ
  pub line : Text
  pub line_truncated : Bool

pub data ViewMode : Type 0 where
  head errors sample : ViewMode

-- `FilteredLineCandidates`
pub record Candidates : Type 0 where
  pub head_lines : List LineReference
  pub incident_lines : List LineReference
  pub regular_lines : List LineReference
  pub sample_lines_by_source : Dict String (List LineReference)

abbrev pub no_candidates : Candidates
no_candidates = record {
  head_lines = [];
  incident_lines = [];
  regular_lines = [];
  sample_lines_by_source = [];
}

-- An append to a list that is not full.
unfoldable pub append_within : ℕ → List LineReference → LineReference → List LineReference
append_within max_lines lines line =
    if ltb (length lines) max_lines then lines ++ line ∷ [] else lines

abbrev pub lines_of : String → Dict String (List LineReference) → List LineReference
lines_of key d = elim (lookup key d) [ none ↦ [] | some lines ↦ lines ]

-- The store of a line whose place in the `errors` mode is known.
unfoldable pub store_judged : Candidates → String → Bool → LineReference → ℕ → ViewMode → Candidates
unfolding append_within
store_judged c key incident line max_lines head = record c {
  head_lines = append_within max_lines c.head_lines line;
}
store_judged c key incident line max_lines errors =
    if incident
    then record c { incident_lines = append_within max_lines c.incident_lines line }
    else record c { regular_lines = append_within max_lines c.regular_lines line }
store_judged c key incident line max_lines sample = record c {
  sample_lines_by_source =
      insert key (append_within max_lines (lines_of key c.sample_lines_by_source) line)
        c.sample_lines_by_source;
}

-- Only the `errors` mode asks whether the line tells of an incident.
unfoldable pub judge_for : Python → Text → ViewMode → Result ValueError Bool
judge_for py line errors = is_incident_line py line
judge_for py line _ = ok false

unfoldable pub store_filtered_line_candidate :
    Python
    → Candidates
    → String
    → Text
    → LineReference
    → ℕ
    → ViewMode
    → Result ValueError Candidates
unfolding judge_for
store_filtered_line_candidate py c key line reference max_lines mode = do
  incident ← judge_for py line mode
  ok (store_judged c key incident reference max_lines mode)

-- What a source gives to a turn: nothing, or its line at the index, which may end the turn.
unfoldable pub take_turn :
    ℕ
    → List LineReference
    → List LineReference × Bool
    → (LineReference → List LineReference × Bool)
    → Option LineReference
    → List LineReference × Bool
take_turn max_lines sampled skip go none = skip
take_turn max_lines sampled skip go (some line) =
    let rest = go line in
    if ltb (length (sampled ++ line ∷ [])) max_lines
    then (rest.0, true)
    else (sampled ++ line ∷ [], true)

-- One turn over the sources: the lines so far, and whether one was added.
unfoldable pub sample_turn :
    ℕ
    → ℕ
    → Dict String (List LineReference)
    → List String
    → List LineReference
    → List LineReference × Bool
unfolding take_turn
sample_turn max_lines next_index d [] sampled = (sampled, false)
sample_turn max_lines next_index d (key ∷ keys) sampled =
    take_turn max_lines sampled (sample_turn max_lines next_index d keys sampled)
      (λ line. sample_turn max_lines next_index d keys (sampled ++ line ∷ []))
      (get_elem? (lines_of key d) next_index)

-- The turns, on fuel.
unfoldable pub sample_turns :
    ℕ
    → ℕ
    → ℕ
    → Dict String (List LineReference)
    → List String
    → List LineReference
    → List LineReference
sample_turns zero max_lines next_index d keys sampled = sampled
sample_turns (suc fuel) max_lines next_index d keys sampled =
    let turn = sample_turn max_lines next_index d keys sampled in
    let rest = sample_turns fuel max_lines (suc next_index) d keys turn.0 in
    if ltb (length sampled) max_lines then if turn.1 then rest else turn.0 else sampled

-- A turn adds a line or ends the loop, so that `max_lines` turns and one are enough.
unfoldable pub select_filtered_lines : Candidates → List String → ℕ → ViewMode → List LineReference
unfolding sample_turns
select_filtered_lines c keys max_lines head = take max_lines c.head_lines
select_filtered_lines c keys max_lines errors = take max_lines (c.incident_lines ++ c.regular_lines)
select_filtered_lines c keys max_lines sample =
    sample_turns (suc max_lines) max_lines 0 c.sample_lines_by_source keys []
