-- ===== src/Filtering/View/Origin.antt =====
-- Where the kept lines of a view come from: the files, the profiles and the incident test.
use mcp_log_server.Prelude.{
  Bool, List, String, [], bool_eq, false, list_eq, nat_eq, option_eq, string_eq, suc, true, ℕ, ◌++◌,
  ◌==◌, ◌∷◌, ◌≡◌,
}
use mcp_log_server.Prelude.Dict.{Dict}
use mcp_log_server.Prelude.Int.{int_eq}
use mcp_log_server.Prelude.Result.{ok}
use mcp_log_server.Prelude.Strings.{strip_end}
use mcp_log_server.Prelude.Utf8.{Text}
use mcp_log_server.Filtering.Candidates.{ViewMode, errors, head, sample}
use mcp_log_server.Filtering.Candidates.Refines.{Kept}
use mcp_log_server.Filtering.Cut.{truncate_line}
use mcp_log_server.Filtering.Extract.{Python, is_incident_line}
use mcp_log_server.Filtering.Noise.{FilterDecision, SourceNoiseContext, apply_noise_profile}
use mcp_log_server.Filtering.View.{FileRead, FileReference, Source, context_of, file_lines}

-- In errors mode the line is marked as the incident test judges it.
abbrev pub Judged : Python → ViewMode → Text → Bool → Type 0
Judged py head line incident = Unit
Judged py errors line incident = is_incident_line py line ≡ ok incident
Judged py sample line incident = Unit

abbrev pub without_end : Text → Text
without_end raw_line = strip_end (λ c. c == 10) raw_line

-- The kept line: its place in the file, and its text, cut to the limit.
abbrev pub kept_line : String → String → ℕ → Text → Bool → Kept
kept_line source_key file_name line_number line incident = record {
  source_key = source_key;
  incident = incident;
  reference = record {
    source_key = source_key;
    output_file = file_name;
    line_number = line_number;
    line = (truncate_line line).0;
    line_truncated = (truncate_line line).1;
  };
}

-- The lines that the profile keeps of these lines, the first of which has the number.
pub data KeptLines (py : Python) (context : SourceNoiseContext) (source_key file_name : String)
    (mode : ViewMode) : ℕ → List Text → List Kept → Type 0 where
  no_lines : {n : ℕ} → KeptLines py context source_key file_name mode n [] []
  keeps :
      {n : ℕ} {raw_line : Text} {lines : List Text} {kept : List Kept} (decision : FilterDecision)
      (incident : Bool)
      → apply_noise_profile py context (without_end raw_line) ≡ ok decision
      → decision.keep ≡ true
      → Judged py mode (without_end raw_line) incident
      → KeptLines py context source_key file_name mode (suc n) lines kept
      → KeptLines py context source_key file_name mode n
          (raw_line ∷ lines)
          (kept_line source_key file_name n (without_end raw_line) incident ∷ kept)
  drops :
      {n : ℕ} {raw_line : Text} {lines : List Text} {kept : List Kept} (decision : FilterDecision)
      → apply_noise_profile py context (without_end raw_line) ≡ ok decision
      → decision.keep ≡ false
      → KeptLines py context source_key file_name mode (suc n) lines kept
      → KeptLines py context source_key file_name mode n (raw_line ∷ lines) kept

-- The kept lines of the files of these sources, one after the other.
pub data KeptOf (py : Python) (read : String → FileRead) (contexts : Dict String SourceNoiseContext)
    (mode : ViewMode) : List (Source × FileReference) → List Kept → Type 0 where
  no_sources : KeptOf py read contexts mode [] []
  of_file :
      {item : Source} {file : FileReference} {items : List (Source × FileReference)}
      {lines : List Text} {kept more : List Kept}
      → read file.path ≡ file_lines lines
      → KeptLines py (context_of contexts item) item.source_key file.name mode 1 lines kept
      → KeptOf py read contexts mode items more
      → KeptOf py read contexts mode ((item, file) ∷ items) (kept ++ more)
