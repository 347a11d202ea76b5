-- ===== src/Filtering/Candidates/Selected.antt =====
-- `_select_filtered_lines` against the list of all kept lines, in each mode.
use mcp_log_server.Prelude.{
  All, List, String, [], ap, arith, bool_eq, contains, eq_iff, false, if◌then◌else◌, length,
  length-append, length-take, list_eq, min, nat_eq, option_eq, refl, string_eq, suc, take, total,
  true, zero, ℕ, ◌++◌, ◌+◌, ◌==◌, ◌∙◌, ◌∷◌, ◌≡◌, ◌≤◌,
}
use mcp_log_server.Prelude.Dict.{keys}
use mcp_log_server.Prelude.Int.{int_eq}
use mcp_log_server.Prelude.Sorting.{distinct}
use mcp_log_server.Filtering.Candidates.{
  Candidates, LineReference, ViewMode, errors, head, lines_of, sample, select_filtered_lines,
}
use mcp_log_server.Filtering.Candidates.Refines.{
  Holds, Kept, incidents, length-references, of_source, references, regulars,
}
use mcp_log_server.Filtering.Candidates.Sample.{length-sample_turns}
use mcp_log_server.SocketApp.Spool.{path_eq}

-- Texts without repetition.
abbrev pub Distinct : List String → Type 0
Distinct [] = Unit
Distinct (key ∷ keys) = (contains keys key ≡ false) × Distinct keys

-- The first lines of an append need no more than the first lines of its parts.
take_within : (n k : ℕ) (ys : List LineReference) → n ≤ k → take n (take k ys) ≡ take n ys
take_within zero k ys h = refl
take_within (suc n) zero ys h = absurd (omega arith)
take_within (suc n) (suc k) [] h = refl
take_within (suc n) (suc k) (y ∷ ys) h =
    ap (λ (zs : List LineReference). y ∷ zs) (take_within n k ys (omega arith))

take_parts :
    (n m k : ℕ) (xs ys : List LineReference)
    → n ≤ m
    → n ≤ k
    → take n (take m xs ++ take k ys) ≡ take n (xs ++ ys)
take_parts zero m k xs ys h h' = refl
take_parts (suc n) zero k xs ys h h' = absurd (omega arith)
take_parts (suc n) (suc m) k [] ys h h' = take_within (suc n) k ys h'
take_parts (suc n) (suc m) k (x ∷ xs) ys h h' =
    ap (λ (zs : List LineReference). x ∷ zs) (take_parts n m k xs ys (omega arith) (omega arith))

length-kinds : (kept : List Kept) → length (incidents kept) + length (regulars kept) ≡ length kept
length-kinds [] = refl
length-kinds (k ∷ kept) = ground (arith, length-kinds kept)

min-total :
    (n : ℕ) (f : String → ℕ) (keys : List String)
    → min n (total (λ key. min n (f key)) keys) ≡ min n (total f keys)
min-total n f [] = refl
min-total n f (key ∷ keys) = omega (arith, min-total n f keys)

-- A key is one of distinct keys at most once.
absent_count :
    (source : String) (keys : List String)
    → contains keys source ≡ false
    → total (λ key. if source == key then 1 else 0) keys ≡ 0
absent_count source [] h = refl
absent_count source (key ∷ keys) h = ground (arith, absent_count source keys)

present_count :
    (source : String) (keys : List String)
    → Distinct keys
    → contains keys source ≡ true
    → total (λ key. if source == key then 1 else 0) keys ≡ 1
present_count source [] n h = cc
present_count source (key ∷ keys) (fresh, n) h =
    ground (arith, eq_iff source key, absent_count source keys, present_count source keys n)

total-of_source :
    (k : Kept) (kept : List Kept) (keys : List String)
    → total (λ key. length (of_source key (k ∷ kept))) keys
      ≡ total (λ key. if k.source_key == key then 1 else 0) keys
        + total (λ key. length (of_source key kept)) keys
total-of_source k kept [] = refl
total-of_source k kept (key ∷ keys) = ground (arith, total-of_source k kept keys)

partition :
    (keys : List String) (kept : List Kept)
    → Distinct keys
    → All (λ k. contains keys k.source_key ≡ true) kept
    → total (λ key. length (of_source key kept)) keys ≡ length kept
partition keys [] n h = all_empty keys
  where
    all_empty : (ks : List String) → total (λ key. length (of_source key [])) ks ≡ 0
    all_empty [] = refl
    all_empty (j ∷ ks) = omega (arith, all_empty ks)
partition keys (k ∷ kept) n (h, hs) = omega (
  arith,
  total-of_source k kept keys,
  present_count k.source_key keys n h,
  partition keys kept n hs,
)

-- The lines that a mode is to show. In the sample only their number is said here.
abbrev pub Shows : ℕ → ViewMode → List Kept → List LineReference → Type 0
Shows max_lines head kept lines = lines ≡ take max_lines (references kept)
Shows max_lines errors kept lines =
    lines ≡ take max_lines (references (incidents kept) ++ references (regulars kept))
Shows max_lines sample kept lines = length lines ≡ min max_lines (length kept)

pub length-Shows :
    (max_lines : ℕ) (mode : ViewMode) (kept : List Kept) (lines : List LineReference)
    → Shows max_lines mode kept lines
    → length lines ≡ min max_lines (length kept)
length-Shows n head kept lines h =
    ap length h ∙ omega (arith, length-take n (references kept), length-references kept)
length-Shows n errors kept lines h =
    ap length h
    ∙ omega (
      arith,
      length-take n (references (incidents kept) ++ references (regulars kept)),
      length-append (references (incidents kept)) (references (regulars kept)),
      length-references (incidents kept),
      length-references (regulars kept),
      length-kinds kept,
    )
length-Shows n sample kept lines h = h

sample_size :
    (n : ℕ) (c : Candidates) (keys : List String) (kept : List Kept)
    → Holds n sample c kept
    → total (λ key. length (lines_of key c.sample_lines_by_source)) keys
      ≡ total (λ key. min n (length (of_source key kept))) keys
sample_size n c [] kept h = refl
sample_size n c (key ∷ keys) kept h = omega (
  arith,
  ap length (h key),
  length-take n (references (of_source key kept)),
  length-references (of_source key kept),
  sample_size n c keys kept h,
)

-- The chosen candidates are what the mode is to show of all kept lines.
pub select-Shows :
    (max_lines : ℕ) (mode : ViewMode) (keys : List String) (kept : List Kept) (c : Candidates)
    → Holds max_lines mode c kept
    → Distinct keys
    → All (λ k. contains keys k.source_key ≡ true) kept
    → Shows max_lines mode kept (select_filtered_lines c keys max_lines mode)
unfolding select_filtered_lines
select-Shows n head keys kept c h distinct known =
    ap (take n) h ∙ take_within n n (references kept) (omega arith)
select-Shows n errors keys kept c h distinct known =
    rw (h.0, h.1)
      (take_parts n n n (references (incidents kept)) (references (regulars kept)) (omega arith)
        (omega arith))
select-Shows n sample keys kept c h distinct known =
    length-sample_turns n c.sample_lines_by_source keys
    ∙ ap (min n) (sample_size n c keys kept h)
    ∙ min-total n (λ key. length (of_source key kept)) keys
    ∙ ap (min n) (partition keys kept distinct known)
