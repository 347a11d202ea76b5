-- ===== src/Filtering/View/Complete.antt =====
-- `create_filtered_view` against the lines that the profiles keep.
use mcp_log_server.Prelude.{
  All, List, Option, String, [], arith, beq_refl, bool_eq, contains, length, list_eq, min, nat_eq,
  option_eq, refl, string_eq, subst, suc, sym, take, true, zero, ℕ, ◌++◌, ◌+◌, ◌∷◌, ◌≡◌,
}
use mcp_log_server.Prelude.Dict.{Dict, keys, lookup}
use mcp_log_server.Prelude.Int.{int_eq}
use mcp_log_server.Prelude.Result.{>>=-ok, Result, err, ok, ok-injective}
use mcp_log_server.Filtering.Candidates.{
  Candidates, LineReference, ViewMode, errors, head, no_candidates, sample,
}
use mcp_log_server.Filtering.Candidates.Refines.{Holds, Kept, store_all-Holds}
use mcp_log_server.Filtering.Candidates.Selected.{Distinct, Shows, length-Shows, select-Shows}
use mcp_log_server.Filtering.Extract.{Python, ValueError}
use mcp_log_server.Filtering.Noise.{SourceNoiseContext}
use mcp_log_server.Filtering.View.{
  FileRead, FileReference, Progress, Source, as_view_error, context_of, file_lines, filter_read,
  filter_source, filter_sources, os_error, start, value_error,
}
use mcp_log_server.Filtering.View.Origin.{KeptOf, no_sources, of_file}
use mcp_log_server.Filtering.View.Counts.{
  Counted, nothing_counted, then_counted, filter_lines-Counted,
}
use mcp_log_server.Filtering.View.Create.{
  FilteredView, create_filtered_view, keys_of, select_sources, view_of,
}
use mcp_log_server.SocketApp.Spool.{path_eq}

-- A view against the lines of the selected files that the profiles keep.
pub record IsComplete (py : Python) (read : String → FileRead)
    (contexts : Dict String SourceNoiseContext) (max_lines : ℕ) (mode : ViewMode)
    (sources : List Source) (source_keys : Option (List String)) (view : FilteredView)
    : Type 0 where
  pub selected : List (Source × FileReference)
  pub chosen : select_sources sources source_keys ≡ ok selected
  pub kept : List Kept
  pub origin : KeptOf py read contexts mode selected kept
  pub shows : Shows max_lines mode kept view.cleaned_lines
  pub counted : length kept ≡ view.kept_line_count
  pub balance : view.total_line_count ≡ view.kept_line_count + view.excluded_line_count
  pub size : length view.cleaned_lines ≡ min max_lines view.kept_line_count

abbrev Known : List String → List (Source × FileReference) → Type 0
Known keys items = All (λ item. contains keys item.0.source_key ≡ true) items

Known-more :
    (key : String) (keys : List String) (items : List (Source × FileReference))
    → Known keys items
    → Known (key ∷ keys) items
Known-more key keys [] h = tt
Known-more key keys (item ∷ items) (h, hs) = (ground arith, Known-more key keys items hs)

keys_of-Known : (items : List (Source × FileReference)) → Known (keys_of items) items
unfolding keys_of
keys_of-Known [] = tt
keys_of-Known ((item, file) ∷ items) = (
  ground (arith, beq_refl item.source_key),
  Known-more item.source_key (keys_of items) items (keys_of-Known items),
)

module _ (py : Python) (read : String → FileRead) (contexts : Dict String SourceNoiseContext)
    (max_lines : ℕ) (mode : ViewMode) where
  as_view_error-ok :
      (r : Result ValueError Progress) (q : Progress) → as_view_error r ≡ ok q → r ≡ ok q
  unfolding as_view_error
  as_view_error-ok (ok p) q h = cc
  as_view_error-ok (err e) q h = cc

  module _ (keys : List String) where
    filter_source-Counted :
        (item : Source) (file : FileReference) (items : List (Source × FileReference))
        (more : List Kept) (p q : Progress) (content : FileRead)
        → read file.path ≡ content
        → contains keys item.source_key ≡ true
        → filter_read py read contexts max_lines mode item file p content ≡ ok q
        → KeptOf py read contexts mode items more
        → (c : Counted max_lines mode keys p q) × KeptOf py read contexts mode
            ((item, file) ∷ items)
            (c.new ++ more)
    unfolding filter_read
    filter_source-Counted item file items more p q (file_lines lines) found here h rest =
        let (c, kept) =
          filter_lines-Counted max_lines mode keys py (context_of contexts item) item.source_key
            file.name here 1 lines p q (as_view_error-ok _ q h) in
        (c, of_file found kept rest)
    filter_source-Counted item file items more p q value_error found here h rest = cc
    filter_source-Counted item file items more p q os_error found here h rest = cc

    filter_sources-Counted :
        (items : List (Source × FileReference)) (p q : Progress)
        → Known keys items
        → filter_sources py read contexts max_lines mode items p ≡ ok q
        → (c : Counted max_lines mode keys p q) × KeptOf py read contexts mode items c.new
    unfolding filter_sources filter_source nothing_counted then_counted
    filter_sources-Counted [] p q known h =
        subst
          (λ (r : Progress).
            (c : Counted max_lines mode keys p r) × KeptOf py read contexts mode [] c.new)
          (ok-injective refl h) (nothing_counted max_lines mode keys p, no_sources)
    filter_sources-Counted ((item, file) ∷ items) p q (here, known) h =
        let (r, rest, first) =
          >>=-ok (filter_source py read contexts max_lines mode (item, file) p) _ h in
        let (d, more) = filter_sources-Counted items r q known rest in
        let (c, kept) =
          filter_source-Counted item file items d.new _ r (read file.path) refl here first more in
        let first_file : Counted max_lines mode keys p r = record {
          new = c.new;
          candidates = c.candidates;
          kept = c.kept;
          balance = c.balance;
          known = c.known;
        } in
        (then_counted max_lines mode keys first_file d, kept)

  take_nothing : (n : ℕ) → Path (List LineReference) [] (take n [])
  take_nothing zero = refl
  take_nothing (suc n) = refl

  nothing_held : (m : ViewMode) → Holds max_lines m no_candidates []
  unfolding lookup
  nothing_held head = take_nothing max_lines
  nothing_held errors = (take_nothing max_lines, take_nothing max_lines)
  nothing_held sample = λ key. take_nothing max_lines

  view_of-IsComplete :
      (sources : List Source) (source_keys : Option (List String))
      (selected : List (Source × FileReference)) (keys : List String) (p : Progress)
      → select_sources sources source_keys ≡ ok selected
      → Distinct keys
      → (c : Counted max_lines mode keys start p) → KeptOf py read contexts mode selected c.new
      → IsComplete py read contexts max_lines mode sources source_keys
          (view_of keys max_lines mode p)
  unfolding view_of
  view_of-IsComplete sources source_keys selected keys p chosen once c origin =
      let holds : Holds max_lines mode p.candidates c.new =
        subst (λ (d : Candidates). Holds max_lines mode d c.new) (sym c.candidates)
          (store_all-Holds max_lines mode no_candidates [] c.new (nothing_held mode)) in
      let shows = select-Shows max_lines mode keys c.new p.candidates holds once c.known in
      record {
        selected = selected;
        chosen = chosen;
        kept = c.new;
        origin = origin;
        shows = shows;
        counted = omega (arith, c.kept);
        balance = omega (arith, c.balance);
        size = omega (arith, length-Shows max_lines mode c.new _ shows, c.kept);
      }

  -- A filtered view that is returned shows what its mode promises of all the lines that the
  -- profiles keep of the files of the selected sources, each with its place and its text, cut to
  -- the limit, although the service stores only a bounded number of candidates: the first of them
  -- in head mode, in errors mode the lines that the incident test accepts and then the others, and
  -- in sample mode as many as there are up to the limit. It has as many lines as were kept, up to
  -- the limit, and every line read is counted as kept or as excluded. The searched sources must
  -- have distinct keys.
  pub create_filtered_view-IsComplete :
      (sources : List Source) (source_keys : Option (List String)) (view : FilteredView)
      → create_filtered_view py read contexts max_lines mode sources source_keys ≡ ok view
      → Distinct view.searched_source_keys
      → IsComplete py read contexts max_lines mode sources source_keys view
  unfolding create_filtered_view
  create_filtered_view-IsComplete sources source_keys view h once =
      let (selected, rest, chosen) = >>=-ok (select_sources sources source_keys) _ h in
      let (p, made, counted) =
        >>=-ok (filter_sources py read contexts max_lines mode selected start) _ rest in
      let same_view : view_of (keys_of selected) max_lines mode p ≡ view = ok-injective refl made in
      let (c, origin) =
        filter_sources-Counted (keys_of selected) selected start p (keys_of-Known selected)
          counted in
      subst (λ (v : FilteredView). IsComplete py read contexts max_lines mode sources source_keys v)
        same_view
        (view_of-IsComplete sources source_keys selected (keys_of selected) p chosen
          (subst (λ (v : FilteredView). Distinct v.searched_source_keys) (sym same_view) once) c
          origin)
