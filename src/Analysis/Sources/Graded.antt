-- ===== src/Analysis/Sources/Graded.antt =====
-- The severities of the lines in the files that are classified.
use mcp_log_server.Prelude.{All, All-append, List, Option, String, [], none, some, suc, ℕ, ◌∷◌}
use mcp_log_server.Prelude.Utf8.{Text}
use mcp_log_server.Analysis.Classify.Graded.{classify_line-IsGraded}
use mcp_log_server.Analysis.Groups.Rooted.{IsGradedEvent, IsGradedFile}
use mcp_log_server.Analysis.Sources.{
  classify_file, classify_files, classify_lines, classify_read, is_proxy_source, without_newline,
}
use mcp_log_server.Analysis.Values.{Runtime}
use mcp_log_server.Filtering.View.{FileRead, FileReference, Source, file_lines}

module _ (rt : Runtime) (read : String → FileRead) where
  classify_lines-IsGraded :
      (s : Source) (file : FileReference) (n : ℕ) (lines : List Text)
      → All IsGradedEvent (classify_lines rt read s file n lines)
  unfolding classify_lines
  classify_lines-IsGraded s file n [] = tt
  classify_lines-IsGraded s file n (line ∷ lines) = (
    classify_line-IsGraded rt
        (record { source_key = s.source_key; output_file = file.name; line_number = n })
        (without_newline line) (is_proxy_source rt s),
    classify_lines-IsGraded s file (suc n) lines,
  )

  classify_read-IsGraded :
      (s : Source) (file : FileReference) (opened : FileRead)
      → IsGradedFile (s.source_key, classify_read rt read s file opened)
  unfolding classify_read
  classify_read-IsGraded s file (file_lines lines) = classify_lines-IsGraded s file 1 lines
  classify_read-IsGraded s file FileRead.value_error = tt
  classify_read-IsGraded s file FileRead.os_error = tt

  classify_file-IsGraded :
      (s : Source) (file : Option FileReference) → All IsGradedFile (classify_file rt read s file)
  unfolding classify_file
  classify_file-IsGraded s none = tt
  classify_file-IsGraded s (some file) = (classify_read-IsGraded s file (read file.path), tt)

  pub classify_files-IsGraded :
      (sources : List Source) → All IsGradedFile (classify_files rt read sources)
  unfolding classify_files
  classify_files-IsGraded [] = tt
  classify_files-IsGraded (s ∷ sources) =
      All-append IsGradedFile (classify_file rt read s s.file) (classify_files rt read sources)
        (classify_file-IsGraded s s.file) (classify_files-IsGraded sources)
