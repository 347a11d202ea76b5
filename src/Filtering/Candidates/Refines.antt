-- ===== src/Filtering/Candidates/Refines.antt =====
-- The bounded candidates of `_store_filtered_line_candidate` against the list of all kept lines.
use mathlib.Core.List.{append-nil, append_assoc}
use mcp_log_server.Prelude.{
  Bool, Bool-cases, List, String, [], ap, arith, bool_eq, eq_iff, false, ge→ltb, if◌then◌else◌, inl,
  inr, le_or_lt, length, length-take, list_eq, lt→ltb, nat_eq, not, option_eq, refl, select,
  select-append, string_eq, take, take_snoc_full, take_snoc_short, true, ℕ, ◌++◌, ◌==◌, ◌∙◌, ◌∷◌,
  ◌≡◌,
}
use mcp_log_server.Prelude.Dict.{Dict, insert, lookup-insert}
use mcp_log_server.Prelude.Int.{int_eq}
use mcp_log_server.Filtering.Candidates.{
  Candidates, LineReference, ViewMode, append_within, errors, head, lines_of, sample, store_judged,
}
use mcp_log_server.SocketApp.Spool.{path_eq}

-- A line that the profiles keep.
pub record Kept : Type 0 where
  pub source_key : String
  pub incident : Bool
  pub reference : LineReference

abbrev pub references : List Kept → List LineReference
references [] = []
references (k ∷ kept) = k.reference ∷ references kept

abbrev pub incidents : List Kept → List Kept
incidents kept = select (λ k. k.incident) kept

abbrev pub regulars : List Kept → List Kept
regulars kept = select (λ k. not k.incident) kept

abbrev pub of_source : String → List Kept → List Kept
of_source key kept = select (λ k. k.source_key == key) kept

-- The candidates after all of these lines.
abbrev pub store_all : ℕ → ViewMode → Candidates → List Kept → Candidates
store_all max_lines mode c [] = c
store_all max_lines mode c (k ∷ kept) =
    store_all max_lines mode (store_judged c k.source_key k.incident k.reference max_lines mode)
      kept

-- The candidates hold the first lines of each kind.
abbrev pub Holds : ℕ → ViewMode → Candidates → List Kept → Type 0
Holds max_lines head c kept = c.head_lines ≡ take max_lines (references kept)
Holds max_lines errors c kept =
    (c.incident_lines ≡ take max_lines (references (incidents kept)))
    × (c.regular_lines ≡ take max_lines (references (regulars kept)))
Holds max_lines sample c kept =
    (key : String)
    → lines_of key c.sample_lines_by_source ≡ take max_lines (references (of_source key kept))

references-append : (xs ys : List Kept) → references (xs ++ ys) ≡ references xs ++ references ys
references-append [] ys = refl
references-append (x ∷ xs) ys =
    ap (λ (zs : List LineReference). x.reference ∷ zs) (references-append xs ys)

pub length-references : (xs : List Kept) → length (references xs) ≡ length xs
length-references [] = refl
length-references (x ∷ xs) = omega (arith, length-references xs)

append_within-take :
    (n : ℕ) (xs : List LineReference) (x : LineReference)
    → append_within n (take n xs) x ≡ take n (xs ++ x ∷ [])
unfolding append_within
append_within-take n xs x = elim (le_or_lt n (length xs)) [
  | inl full ↦
      rw (
        ge→ltb (length (take n xs)) n (omega (arith, length-take n xs)),
        take_snoc_full n xs x full,
      )
  | inr short ↦ rw (
    lt→ltb (length (take n xs)) n (omega (arith, length-take n xs)),
    take_snoc_short n xs x short,
  )
]

-- A list of one kind grows by the line, if it is of that kind.
grow :
    (n : ℕ) (lines : List LineReference) (kept : List Kept) (k : Kept) (p : Kept → Bool)
    → lines ≡ take n (references (select p kept))
    → p k ≡ true
    → append_within n lines k.reference ≡ take n (references (select p (kept ++ k ∷ [])))
grow n lines kept k p h is_so = rw (
  h,
  append_within-take n (references (select p kept)) k.reference,
  select-append p kept (k ∷ []),
  is_so,
  references-append (select p kept) (k ∷ []),
)

keep_as_is :
    (n : ℕ) (lines : List LineReference) (kept : List Kept) (k : Kept) (p : Kept → Bool)
    → lines ≡ take n (references (select p kept))
    → p k ≡ false
    → lines ≡ take n (references (select p (kept ++ k ∷ [])))
keep_as_is n lines kept k p h is_not =
    rw (select-append p kept (k ∷ []), is_not, append-nil (select p kept)) h

lines_of-insert :
    (j k : String) (lines : List LineReference) (d : Dict String (List LineReference))
    → lines_of j (insert k lines d) ≡ (if k == j then lines else lines_of j d)
lines_of-insert j k lines d = rw (lines_of, lookup-insert j k lines d) (ground arith)

store_judged-Holds :
    (n : ℕ) (mode : ViewMode) (c : Candidates) (kept : List Kept) (k : Kept)
    → Holds n mode c kept
    → Holds n mode (store_judged c k.source_key k.incident k.reference n mode) (kept ++ k ∷ [])
unfolding store_judged
store_judged-Holds n head c kept k h =
    rw (h, append_within-take n (references kept) k.reference, references-append kept (k ∷ []))
store_judged-Holds n errors c kept k (inc, reg) = elim (Bool-cases k.incident) [
  | inl is_so ↦ simp is_so (
    grow n c.incident_lines kept k (λ j. j.incident) inc is_so,
    keep_as_is n c.regular_lines kept k (λ j. not j.incident) reg (rw is_so),
  )
  | inr is_not ↦ simp is_not (
    keep_as_is n c.incident_lines kept k (λ j. j.incident) inc is_not,
    grow n c.regular_lines kept k (λ j. not j.incident) reg (rw is_not),
  )
]
store_judged-Holds n sample c kept k h = λ key. elim (Bool-cases (k.source_key == key)) [
  | inl is_so ↦
      rw (lines_of-insert key k.source_key _ c.sample_lines_by_source, is_so)
        (grow n _ kept k (λ j. j.source_key == key)
          (ap (λ (i : String). lines_of i c.sample_lines_by_source)
              ((eq_iff k.source_key key).0 is_so)
            ∙ h key)
          is_so)
  | inr is_not ↦
      rw (lines_of-insert key k.source_key _ c.sample_lines_by_source, is_not)
        (keep_as_is n _ kept k (λ j. j.source_key == key) (h key) is_not)
]

pub store_all-Holds :
    (n : ℕ) (mode : ViewMode) (c : Candidates) (done kept : List Kept)
    → Holds n mode c done
    → Holds n mode (store_all n mode c kept) (done ++ kept)
store_all-Holds n mode c done [] h = rw (append-nil done) h
store_all-Holds n mode c done (k ∷ kept) h = rw⁻¹ (append_assoc done (k ∷ []) kept) (
    store_all-Holds n mode (store_judged c k.source_key k.incident k.reference n mode)
      (done ++ k ∷ []) kept (store_judged-Holds n mode c done k h))
