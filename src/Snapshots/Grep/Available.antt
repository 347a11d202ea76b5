-- ===== src/Snapshots/Grep/Available.antt =====
-- Which sources of a snapshot can be searched, and which are asked for.
use mcp_log_server.Prelude.{
  Bool-cases, List, Option, String, [], ap, arith, bool_eq, contains, eq_iff, inl, inr, list_eq,
  nat_eq, none, option_eq, refl, some, string_eq, sym, true, ◌↔◌, ◌∙◌, ◌∷◌, ◌≡◌, ◌≢◌, ◌⊎◌,
}
use mcp_log_server.Prelude.Dict.{keys}
use mcp_log_server.Prelude.Int.{int_eq}
use mcp_log_server.Prelude.Json.{items}
use mcp_log_server.Filtering.View.{FileReference, Source}
use mcp_log_server.Filtering.View.Create.{available_sources, with_file}
use mcp_log_server.Snapshots.Grep.{StoredSource, is_collection_diagnostics_source_key, is_selected}

-- Whether the request asks for a source: one of the keys, or, when there are none, any source that
-- does not hold the collection's diagnostics.
abbrev pub Asked : List String → String → Type 0
Asked [] source_key = source_key ≢ "__collection_diagnostics"
Asked (key ∷ keys) source_key = contains (key ∷ keys) source_key ≡ true

abbrev pub IsFrom : Source → List Source → Type 0
IsFrom s [] = ⊥
IsFrom s (x ∷ xs) = (s ≡ x) ⊎ IsFrom s xs

abbrev pub IsAmong : StoredSource → List StoredSource → Type 0
IsAmong item [] = ⊥
IsAmong item (x ∷ xs) = (item ≡ x) ⊎ IsAmong item xs

pub is_selected-Asked :
    (wanted : List String) (item : StoredSource)
    → (is_selected wanted item ≡ true) ↔ Asked wanted item.0.source_key
unfolding is_selected is_collection_diagnostics_source_key
is_selected-Asked [] item = ground (arith, eq_iff item.0.source_key "__collection_diagnostics")
is_selected-Asked (key ∷ wanted) item = (λ h. h, λ h. h)

-- A source that has a file to read.
pub record IsAvailable (item : StoredSource) (sources : List Source) : Type 0 where
  pub collected : item.0.collected ≡ true
  pub own_file : item.0.file ≡ some item.1
  pub from_snapshot : IsFrom item.0 sources

later :
    (s : Source) (sources : List Source) (item : StoredSource)
    → IsAvailable item sources
    → IsAvailable item (s ∷ sources)
later s sources item a = record {
  collected = a.collected;
  own_file = a.own_file;
  from_snapshot = inr a.from_snapshot;
}

with_file-IsAvailable :
    (s : Source) (sources : List Source) (items : List StoredSource)
    → ((x : StoredSource) → IsAmong x items → IsAvailable x sources)
    → (o : Option FileReference) → s.file ≡ o
    → (item : StoredSource) → IsAmong item (with_file s o items)
    → IsAvailable item (s ∷ sources)
unfolding with_file
with_file-IsAvailable s sources items rest none e item a = later s sources item (rest item a)
with_file-IsAvailable s sources items rest (some f) e item a = elim (Bool-cases s.collected) [
  | inl is_so ↦ elim (simp is_so at a) [
    | inl same ↦
        let own : item.0 ≡ s = ap (λ (x : StoredSource). x.0) same in
        record {
          collected = ap (λ (x : Source). x.collected) own ∙ is_so;
          own_file =
              ap (λ (x : Source). x.file) own
              ∙ e
              ∙ ap some (sym (ap (λ (x : StoredSource). x.1) same));
          from_snapshot = inl own;
        }
    | inr more ↦ later s sources item (rest item more)
  ]
  | inr is_not ↦ later s sources item (rest item (simp is_not at a))
]

pub available_sources-IsAvailable :
    (sources : List Source) (item : StoredSource)
    → IsAmong item (available_sources sources)
    → IsAvailable item sources
unfolding available_sources
available_sources-IsAvailable [] item h = absurd h
available_sources-IsAvailable (s ∷ sources) item h =
    with_file-IsAvailable s sources (available_sources sources)
      (available_sources-IsAvailable sources) s.file refl item h

with_file-IsAmong :
    (x : Source) (o : Option FileReference) (items : List StoredSource) (item : StoredSource)
    → IsAmong item items
    → IsAmong item (with_file x o items)
unfolding with_file
with_file-IsAmong x none items item a = a
with_file-IsAmong x (some g) items item a = elim (Bool-cases x.collected) [
  | inl is_so ↦ rw is_so (inr a)
  | inr is_not ↦ rw is_not a
]

pub available_sources-IsAmong :
    (sources : List Source) (s : Source) (f : FileReference)
    → IsFrom s sources
    → s.collected ≡ true
    → s.file ≡ some f
    → IsAmong (s, f) (available_sources sources)
unfolding available_sources with_file
available_sources-IsAmong [] s f h c e = h
available_sources-IsAmong (x ∷ sources) s f (inl same) c e =
    let file_x : x.file ≡ some f = ap (λ (y : Source). y.file) (sym same) ∙ e in
    let collected_x : x.collected ≡ true = ap (λ (y : Source). y.collected) (sym same) ∙ c in
    simp (file_x, collected_x) (inl (ap (λ (y : Source). (y, f)) same))
available_sources-IsAmong (x ∷ sources) s f (inr rest) c e =
    with_file-IsAmong x x.file (available_sources sources) (s, f)
      (available_sources-IsAmong sources s f rest c e)
