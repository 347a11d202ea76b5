-- ===== src/Snapshots/Grep/Selected.antt =====
-- Which files grep is run on.
use mcp_log_server.Prelude.{
  Bool, Bool-cases, List, Option, String, [], ap, beq_refl, bool_eq, inl, inr, list_eq, missing,
  nat_eq, option_eq, refl, select, some, string_eq, subst, true, ◌==◌, ◌∙◌, ◌∷◌, ◌≡◌,
}
use mcp_log_server.Prelude.Dict.{insert, lookup, lookup-insert, lookup-insert-some}
use mcp_log_server.Prelude.Int.{int_eq}
use mcp_log_server.Prelude.Json.{items}
use mcp_log_server.Prelude.Result.{>>=-ok, err-ne-ok, ok, ok_inj}
use mcp_log_server.Prelude.Sorting.{distinct, sort, string_below}
use mcp_log_server.Prelude.Utf8.{Text, codes}
use mcp_log_server.Filtering.View.{FileReference, Source}
use mcp_log_server.Filtering.View.Create.{available_sources, keys_of}
use mcp_log_server.Snapshots.Grep.{
  FileLook, Grepped, StoredSource, grepped_sources, invalid, is_selected, keys_or_none, not_found,
  on_disk, plan, present, selected_items,
}
use mcp_log_server.Snapshots.Grep.Available.{
  Asked, IsAmong, IsAvailable, IsFrom, available_sources-IsAmong, available_sources-IsAvailable,
  is_selected-Asked,
}

-- A file that grep reads, under the path that it is read by.
pub record IsReadable (look : FileReference → FileLook) (sources : List Source)
    (source_keys : List String) (path : Text) (item : StoredSource) : Type 0 where
  pub same_path : codes item.1.path ≡ path
  pub stored : look item.1 ≡ present
  pub asked : Asked source_keys item.0.source_key
  pub available : IsAvailable item sources

-- The files that grep reads are those of the collected sources that were asked for.
pub record IsPlanned (look : FileReference → FileLook) (sources : List Source)
    (source_keys : List String) (grepped : Grepped) : Type 0 where
  pub each :
      (path : Text) (item : StoredSource)
      → lookup path grepped ≡ some item
      → IsReadable look sources source_keys path item
  pub every :
      (s : Source) (stored_file : FileReference)
      → IsFrom s sources
      → s.collected ≡ true
      → s.file ≡ some stored_file
      → Asked source_keys s.source_key
      → (other : StoredSource) × (lookup (codes stored_file.path) grepped ≡ some other)

IsAmong-selected :
    (p : StoredSource → Bool) (item : StoredSource) (xs : List StoredSource)
    → IsAmong item (select p xs)
    → (p item ≡ true) × IsAmong item xs
IsAmong-selected p item [] h = absurd h
IsAmong-selected p item (x ∷ xs) h = elim (Bool-cases (p x)) [
  | inl picked ↦ elim (rw picked at h) [
    | inl same ↦ (rw same picked, inl same)
    | inr later ↦ let (q, a) = IsAmong-selected p item xs later in (q, inr a)
  ]
  | inr left_out ↦ let (q, a) = IsAmong-selected p item xs (rw left_out at h) in (q, inr a)
]

selected-IsAmong :
    (p : StoredSource → Bool) (item : StoredSource) (xs : List StoredSource)
    → p item ≡ true
    → IsAmong item xs
    → IsAmong item (select p xs)
selected-IsAmong p item [] q h = h
selected-IsAmong p item (x ∷ xs) q (inl same) = rw (rw same at q) (inl same)
selected-IsAmong p item (x ∷ xs) q (inr later) = elim (Bool-cases (p x)) [
  | inl picked ↦ rw picked (inr (selected-IsAmong p item xs q later))
  | inr left_out ↦ rw left_out (selected-IsAmong p item xs q later)
]

module _ (look : FileReference → FileLook) where
  found_on_disk : (r : FileLook) (u : Unit {0}) → on_disk look r ≡ ok u → r ≡ present
  unfolding on_disk
  found_on_disk present u h = refl
  found_on_disk not_found u h = err-ne-ok h
  found_on_disk invalid u h = err-ne-ok h

  -- One entry of the loop.
  step :
      (item : StoredSource) (items : List StoredSource) (acc grepped : Grepped)
      → grepped_sources look (item ∷ items) acc ≡ ok grepped
      → (look item.1 ≡ present)
        × (grepped_sources look items (insert (codes item.1.path) item acc) ≡ ok grepped)
  unfolding grepped_sources
  step item items acc grepped h =
      let (u, rest, here) = >>=-ok (on_disk look (look item.1)) _ h in
      (found_on_disk (look item.1) u here, rest)

  module _ (Good : Text → StoredSource → Type 0) where
    grepped_sources-each :
        (items : List StoredSource) (acc grepped : Grepped)
        → ((item : StoredSource)
            → IsAmong item items
            → look item.1 ≡ present
            → Good (codes item.1.path) item)
        → ((path : Text) (item : StoredSource) → lookup path acc ≡ some item → Good path item)
        → grepped_sources look items acc ≡ ok grepped
        → (path : Text) (item : StoredSource) → lookup path grepped ≡ some item
        → Good path item
    unfolding grepped_sources
    grepped_sources-each [] acc grepped new old h path item e =
        old path item (ap (lookup path) (ok_inj h) ∙ e)
    grepped_sources-each (x ∷ xs) acc grepped new old h path item e =
        let (here, rest) = step x xs acc grepped h in
        grepped_sources-each xs (insert (codes x.1.path) x acc) grepped
          (λ item later. new item (inr later))
          (λ path item e. elim (lookup-insert-some path (codes x.1.path) x item acc e) [
            | inl (k, v) ↦
                subst (λ p. Good p item) k
                  (subst (λ i. Good (codes x.1.path) i) v (new x (inl refl) here))
            | inr (other, e) ↦ old path item e
          ])
          rest path item e

  abbrev Has : Text → Grepped → Type 0
  Has path grepped = (other : StoredSource) × (lookup path grepped ≡ some other)

  Has-inserted :
      (path k : Text) (item : StoredSource) (acc : Grepped)
      → Has path acc
      → Has path (insert k item acc)
  Has-inserted path k item acc (other, e) = elim (Bool-cases (k == path)) [
    | inl same ↦ (item, lookup-insert path k item acc ∙ rw same refl)
    | inr away ↦ (other, lookup-insert path k item acc ∙ rw away e)
  ]

  grepped_sources-keeps :
      (items : List StoredSource) (acc grepped : Grepped) (path : Text)
      → grepped_sources look items acc ≡ ok grepped
      → Has path acc
      → Has path grepped
  unfolding grepped_sources
  grepped_sources-keeps [] acc grepped path h has = rw (← ok_inj h) has
  grepped_sources-keeps (x ∷ xs) acc grepped path h has =
      grepped_sources-keeps xs (insert (codes x.1.path) x acc) grepped path
        (step x xs acc grepped h).1 (Has-inserted path (codes x.1.path) x acc has)

  grepped_sources-every :
      (items : List StoredSource) (acc grepped : Grepped) (item : StoredSource)
      → grepped_sources look items acc ≡ ok grepped
      → IsAmong item items
      → Has (codes item.1.path) grepped
  grepped_sources-every [] acc grepped item h near = absurd near
  grepped_sources-every (x ∷ xs) acc grepped item h (inl same) =
      grepped_sources-keeps xs (insert (codes x.1.path) x acc) grepped (codes item.1.path)
        (step x xs acc grepped h).1
        (
          x,
          lookup-insert (codes item.1.path) (codes x.1.path) x acc
              ∙ rw (same, beq_refl (codes x.1.path)) refl,
        )
  grepped_sources-every (x ∷ xs) acc grepped item h (inr later) =
      grepped_sources-every xs (insert (codes x.1.path) x acc) grepped item
        (step x xs acc grepped h).1 later

selected_items-ok :
    (source_keys : List String) (available items : List StoredSource)
    → selected_items source_keys available ≡ ok items
    → select (is_selected source_keys) available ≡ items
unfolding selected_items
selected_items-ok source_keys available items h =
    elim (Bool-cases
      (sort string_below (distinct (missing source_keys (keys_of available))) == [])) [
        | inl all ↦ ok_inj (rw all at h)
        | inr some_unknown ↦ err-ne-ok (rw some_unknown at h)
      ]

module _ (look : FileReference → FileLook) (sources : List Source)
    (source_keys : Option (List String)) (grepped : Grepped) where
  -- When a search gets to run grep, each file that it names is present and the stored file of a
  -- collected source of the snapshot, one that was asked for or, when none was, that does not hold
  -- the collection's diagnostics; and the file of each such source is named.
  pub plan-IsPlanned :
      plan look sources source_keys ≡ ok grepped
      → IsPlanned look sources (keys_or_none source_keys) grepped
  unfolding plan lookup
  plan-IsPlanned h =
      let wanted = keys_or_none source_keys in
      let (items, filled, picked) =
        >>=-ok (selected_items wanted (available_sources sources)) _ h in
      let same = selected_items-ok wanted (available_sources sources) items picked in
      record {
        each =
            grepped_sources-each look (IsReadable look sources wanted) items [] grepped
              (λ item near here.
                let (q, a) =
                  IsAmong-selected (is_selected wanted) item (available_sources sources)
                    (rw same near) in
                record {
                  same_path = refl;
                  stored = here;
                  asked = (is_selected-Asked wanted item).0 q;
                  available = available_sources-IsAvailable sources item a;
                })
              (λ path item e. cc) filled;
        every = λ s f origin collected own_file q.
            grepped_sources-every look items [] grepped (s, f) filled
              (rw (← same) (
                selected-IsAmong (is_selected wanted) (s, f) (available_sources sources)
                  ((is_selected-Asked wanted (s, f)).1 q)
                  (available_sources-IsAmong sources s f origin collected own_file)));
      }
