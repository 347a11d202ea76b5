-- ===== src/Analysis/Semantics/Separates.antt =====
-- Which events share the fingerprint of `_build_fingerprint`: the key of a group of errors.
use mathlib.Core.List.{append_assoc}
use mcp_log_server.Prelude.{
  String, [], ap, arith, bool_eq, length, length-append, list_eq, nat_eq, option_eq, refl,
  string_eq, sym, true, ℕ, ◌++◌, ◌↔◌, ◌∙◌, ◌∷◌, ◌≡◌,
}
use mcp_log_server.Prelude.Int.{int_eq}
use mcp_log_server.Prelude.Strings.{before}
use mcp_log_server.Prelude.Utf8.{Text, codes}
use mcp_log_server.Analysis.Routes.{key_eq}
use mcp_log_server.Analysis.Semantics.{Identity, build_fingerprint, canonical_fields, has_identity}
use mcp_log_server.Analysis.Values.{Runtime}
use mcp_log_server.Analysis.Semantics.Same.{IsSame, canonical_fields-IsSame}

cons_inj : {x y : ℕ} {s t : Text} → Path Text (x ∷ s) (y ∷ t) → (x ≡ y) × (s ≡ t)
cons_inj e = (cc, cc)

cons_eq : {x y : ℕ} {s t : Text} → x ≡ y → s ≡ t → Path Text (x ∷ s) (y ∷ t)
cons_eq p q = cc

-- Equal texts with equally long ends have equal ends.
append-split : (a c : Text) {b d : Text} → a ++ b ≡ c ++ d → length b ≡ length d → (a ≡ c) × (b ≡ d)
append-split [] [] e n = (refl, e)
append-split [] (y ∷ c) {b} {d} e n = absurd (omega (arith, ap length e, length-append (y ∷ c) d))
append-split (x ∷ a) [] {b} {d} e n = absurd (omega (arith, ap length e, length-append (x ∷ a) b))
append-split (x ∷ a) (y ∷ c) e n =
    let (same, rest) = cons_inj e in
    let (before, after) = append-split a c rest n in (cons_eq same before, after)

-- What stands before the digest.
key_prefix : String → Identity → Text
key_prefix source_key i = codes source_key ++ (58 ∷ (codes i.category ++ codes ":group-errors-v2:"))

digest : Runtime → Identity → Text
digest rt i = rt.sha256 (rt.dumps (canonical_fields i))

build_fingerprint-key_prefix :
    (rt : Runtime) (source_key : String) (i : Identity) (message : Text)
    → has_identity i ≡ true
    → build_fingerprint rt source_key i message ≡ key_prefix source_key i ++ digest rt i
unfolding build_fingerprint key_prefix digest
build_fingerprint-key_prefix rt source_key i message known = rw known (
    sym (
      append_assoc (codes source_key) (58 ∷ (codes i.category ++ codes ":group-errors-v2:"))
        (digest rt i)
      ∙ ap (λ (t : Text). codes source_key ++ (58 ∷ t))
          (append_assoc (codes i.category) (codes ":group-errors-v2:") (digest rt i))))

abbrev from_category : Text → Text
from_category category = 58 ∷ (category ++ codes ":group-errors-v2:")

key_prefix-split :
    (s u : String) (i j : Identity)
    → key_prefix s i ≡ key_prefix u j
    → codes i.category ≡ codes j.category
    → codes s ≡ codes u
unfolding key_prefix
key_prefix-split s u i j e same =
    (append-split (codes s) (codes u) e (ap (λ t. length (from_category t)) same)).0

key_prefix-eq :
    (s u : String) (i j : Identity)
    → codes s ≡ codes u
    → codes i.category ≡ codes j.category
    → key_prefix s i ≡ key_prefix u j
unfolding key_prefix
key_prefix-eq s u i j p same =
    ap (λ (t : Text). t ++ from_category (codes i.category)) p
    ∙ ap (λ (t : Text). codes u ++ from_category t) same

module _ (rt : Runtime) (s u : String) (i j : Identity) (message other : Text)
    (is_digest : (t : Text) → length (rt.sha256 t) ≡ 64)
    (no_collision : rt.sha256 (rt.dumps (canonical_fields i))
        ≡ rt.sha256 (rt.dumps (canonical_fields j))
      → rt.dumps (canonical_fields i) ≡ rt.dumps (canonical_fields j))
    (told_apart : rt.dumps (canonical_fields i) ≡ rt.dumps (canonical_fields j)
      → canonical_fields i ≡ canonical_fields j)
    (known : has_identity i ≡ true) (known_too : has_identity j ≡ true) where
  separated :
      build_fingerprint rt s i message ≡ build_fingerprint rt u j other
      → (codes s ≡ codes u) × IsSame i j
  unfolding digest
  separated e =
      let keys =
        sym (build_fingerprint-key_prefix rt s i message known)
        ∙ e
        ∙ build_fingerprint-key_prefix rt u j other known_too in
      let (prefixes, digests) = append-split (key_prefix s i) (key_prefix u j) keys (
        is_digest (rt.dumps (canonical_fields i))
        ∙ sym (is_digest (rt.dumps (canonical_fields j)))) in
      let same = (canonical_fields-IsSame i j).0 (told_apart (no_collision digests)) in
      (key_prefix-split s u i j prefixes same.category, same)

  joined :
      (codes s ≡ codes u) × IsSame i j
      → build_fingerprint rt s i message ≡ build_fingerprint rt u j other
  unfolding digest
  joined (sources, same) =
      build_fingerprint-key_prefix rt s i message known
      ∙ ap (λ (t : Text). t ++ digest rt i) (key_prefix-eq s u i j sources same.category)
      ∙ ap (λ d. key_prefix u j ++ rt.sha256 (rt.dumps d)) ((canonical_fields-IsSame i j).1 same)
      ∙ sym (build_fingerprint-key_prefix rt u j other known_too)

  -- Two events that have an identity get the same fingerprint exactly when they come from the same
  -- source and agree in category, status, method and host (where missing counts as blank), path,
  -- kind of identity, words of the message, semantic hash and upstream attempt, whatever their
  -- summaries. The digest has 64 characters and does not take the two texts for one, and
  -- json.dumps tells the two lists of fields apart.
  pub build_fingerprint-separates :
      (build_fingerprint rt s i message ≡ build_fingerprint rt u j other)
      ↔ ((codes s ≡ codes u) × IsSame i j)
  build_fingerprint-separates = (separated, joined)
