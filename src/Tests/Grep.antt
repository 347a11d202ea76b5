-- ===== src/Tests/Grep.antt =====
-- grep on a snapshot of two files, and its failures on output that it does not expect.
use mcp_log_server.Prelude.{
  List, Option, String, [], arith, bool_eq, if◌then◌else◌, leb, list_eq, nat_eq, none, option_eq,
  refl, some, string_eq, true, ◌&&◌, ◌++◌, ◌-◌, ◌∷◌, ◌≡◌, ◌≢◌,
}
use mcp_log_server.Prelude.Dict.{insert, lookup}
use mcp_log_server.Prelude.Int.{int_eq, pos, ℤ}
use mcp_log_server.Prelude.Result.{err, ok}
use mcp_log_server.Prelude.Sorting.{distinct, sort}
use mcp_log_server.Prelude.Strings.{before, is_space, strip, strip_end, strip_start}
use mcp_log_server.Prelude.Utf8.{Text, codes}
use mcp_log_server.Analysis.Routes.{key_eq}
use mcp_log_server.Filtering.View.{FileReference, Source}
use mcp_log_server.Filtering.View.Create.{available_sources}
use mcp_log_server.Snapshots.{is_line_break, output_lines}
use mcp_log_server.Snapshots.Grep.{
  CompletedProcess, FileLook, Grepped, StoredSource, after, grep_snapshot, key_error, keys_or_none,
  plan, present, unpack_error,
}
use mcp_log_server.Snapshots.Grep.Printed.{Hit, IsHit, IsPage, grep_log_snapshot-IsPage, printed}
use mcp_log_server.Snapshots.Grep.Selected.{IsPlanned, plan-IsPlanned}
use mcp_log_server.Snapshots.Grep.Tool.{grep_log_snapshot}
use mcp_log_server.SocketApp.Spool.{path_eq}

abbrev source : String → String → Source
source key path = record {
  source_key = key;
  parser_type = none;
  normalization_profile = none;
  default_noise_profile = none;
  collected = true;
  file = some (record { name = key; path = path });
}

abbrev item : String → String → StoredSource
item key path = (source key path, record { name = key; path = path })

abbrev sources : List Source
sources = source "web" "/w" ∷ source "__collection_diagnostics" "/d" ∷ []

abbrev grepped : Grepped
grepped = (codes "/w", item "web" "/w") ∷ []

abbrev all_present : FileReference → FileLook
all_present f = present

abbrev digit : Text → Option ℤ
digit (c ∷ []) = if leb 48 c && leb c 57 then some (pos (c - 48)) else none
digit t = none

abbrev hits : List Hit
hits =
    record {
      path = codes "/w";
      number = codes "2";
      line = codes "a:b";
      item = item "web" "/w";
      value = pos 2;
    }
    ∷ record {
      path = codes "/w";
      number = codes "7";
      line = codes "ab";
      item = item "web" "/w";
      value = pos 7;
    }
    ∷ []

abbrev prints : Text → List Text → CompletedProcess
prints text argv = record { returncode = pos 0; stdout = text; stderr = [] }

planned : plan all_present sources none ≡ ok grepped
unfolding available_sources distinct insert plan sort
planned = refl

first-IsHit : IsHit digit grepped (record {
  path = codes "/w";
  number = codes "2";
  line = codes "a:b";
  item = item "web" "/w";
  value = pos 2;
})
unfolding is_line_break lookup
first-IsHit = record {
  known = refl;
  numbered = refl;
  plain_path = (refl, (refl, tt));
  plain_number = (refl, tt);
  plain_line = (refl, (refl, (refl, (refl, (refl, (refl, (refl, (refl, tt))))))));
}

second-IsHit : IsHit digit grepped (record {
  path = codes "/w";
  number = codes "7";
  line = codes "ab";
  item = item "web" "/w";
  value = pos 7;
})
unfolding is_line_break lookup
second-IsHit = record {
  known = refl;
  numbered = refl;
  plain_path = (refl, (refl, tt));
  plain_number = (refl, tt);
  plain_line = (refl, (refl, (refl, (refl, (refl, (refl, (refl, tt)))))));
}

kept_pattern : strip (codes "a") ≡ codes "a"
unfolding strip strip_start strip_end is_space
kept_pattern = refl

some_pattern : strip (codes "a") ≢ []
some_pattern = λ e. let p = kept_pattern in cc

grep_log_snapshot-IsPage_example : IsPage hits 1 5 (
    grep_log_snapshot all_present
      (prints (printed hits))
      digit
      sources
      ("web" ∷ [])
      (codes "a")
      none
      (pos 1)
      (pos 5))
grep_log_snapshot-IsPage_example =
    grep_log_snapshot-IsPage all_present (prints (printed hits)) digit sources ("web" ∷ [])
      (codes "a") none grepped hits [] 1 5 some_pattern (omega arith) (omega arith) (λ e. cc)
      planned refl (first-IsHit, (second-IsHit, tt))

plan-IsPlanned_example : IsPlanned all_present sources [] grepped
unfolding keys_or_none
plan-IsPlanned_example = plan-IsPlanned all_present sources none grepped planned

-- A colon in a path: the part before it is no path that was grepped.
colon_path :
    grep_snapshot all_present
      (prints (codes "/v:1:2:a\n"))
      digit
      (source "web" "/v:1" ∷ [])
      (codes "a")
      none
      0
      10
    ≡ err (key_error (codes "/v"))
unfolding after available_sources before distinct grep_snapshot insert lookup output_lines sort
    strip_end
colon_path = refl

-- A form feed in a line: the rest of the line has no path.
cut_line :
    grep_snapshot all_present
      (prints (codes "/w:2:a" ++ 12 ∷ codes "b\n"))
      digit
      sources
      (codes "a")
      none
      0
      10
    ≡ err unpack_error
unfolding after available_sources before distinct grep_snapshot insert lookup output_lines sort
    strip_end
cut_line = refl
