-- ===== src/Analysis/Semantics/Same.antt =====
-- When the canonical fields of two events are the same, field by field.
use mcp_log_server.Prelude.{
  Bool, List, Option, [], ap, none, refl, some, suc, sym, zero, ℕ, ◌↔◌, ◌∙◌, ◌∷◌, ◌≡◌,
}
use mcp_log_server.Prelude.Int.{ℤ}
use mcp_log_server.Prelude.Json.{bool, int}
use mcp_log_server.Prelude.Strings.{split_words}
use mcp_log_server.Prelude.Utf8.{Text, codes}
use mcp_log_server.Analysis.Semantics.{
  Identity, attempted, canonical_fields, join_words, status_datum, text_or_blank, text_or_null,
}
use mcp_log_server.Analysis.Values.{Datum, json_datum, text_datum}

-- `value or ""`
abbrev pub blank : Option Text → Text
blank none = []
blank (some t) = t

-- What two events with one fingerprint share. A missing method or host counts as a blank one, and
-- of a message only the words count.
pub record IsSame (i j : Identity) : Type 0 where
  pub category : codes i.category ≡ codes j.category
  pub status_code : i.status_code ≡ j.status_code
  pub method : blank i.request_method ≡ blank j.request_method
  pub host : blank i.request_host ≡ blank j.request_host
  pub path : i.request_path ≡ j.request_path
  pub kind : codes i.identity_kind ≡ codes j.identity_kind
  pub words : join_words (split_words i.message) ≡ join_words (split_words j.message)
  pub semantic_hash : i.semantic_hash ≡ j.semantic_hash
  pub attempted_too : i.upstream_attempted ≡ j.upstream_attempted

text_in : Datum → Text
text_in (text_datum t) = t
text_in _ = []

text_at : ℕ → List Datum → Text
text_at n [] = []
text_at zero (d ∷ ds) = text_in d
text_at (suc n) (d ∷ ds) = text_at n ds

path_at : ℕ → List Datum → Option Text
path_at n [] = none
path_at zero (text_datum t ∷ ds) = some t
path_at zero (d ∷ ds) = none
path_at (suc n) (d ∷ ds) = path_at n ds

status_at : ℕ → List Datum → Option ℤ
status_at n [] = none
status_at zero (json_datum (int z) ∷ ds) = some z
status_at zero (d ∷ ds) = none
status_at (suc n) (d ∷ ds) = status_at n ds

flag_at : ℕ → List Datum → Option Bool
flag_at n [] = none
flag_at zero (json_datum (bool b) ∷ ds) = some b
flag_at zero (d ∷ ds) = none
flag_at (suc n) (d ∷ ds) = flag_at n ds

text_or_blank-blank : (o : Option Text) → text_or_blank o ≡ text_datum (blank o)
unfolding text_or_blank
text_or_blank-blank none = refl
text_or_blank-blank (some t) = refl

status_back : (o : Option ℤ) (ds : List Datum) → status_at 0 (status_datum o ∷ ds) ≡ o
unfolding status_at status_datum
status_back none ds = refl
status_back (some z) ds = refl

path_back : (o : Option Text) (ds : List Datum) → path_at 0 (text_or_null o ∷ ds) ≡ o
unfolding path_at text_or_null
path_back none ds = refl
path_back (some t) ds = refl

flag_back : (o : Option Bool) → flag_at 0 (attempted o) ≡ o
unfolding flag_at attempted
flag_back none = refl
flag_back (some b) = refl

blank_back : (o : Option Text) → text_in (text_or_blank o) ≡ blank o
unfolding text_in
blank_back o = ap text_in (text_or_blank-blank o)

of_fields : (i j : Identity) → canonical_fields i ≡ canonical_fields j → IsSame i j
unfolding canonical_fields text_at text_in path_at status_at flag_at
of_fields i j e = record {
  category = ap (text_at 0) e;
  status_code =
      sym (status_back i.status_code _) ∙ ap (status_at 1) e ∙ status_back j.status_code _;
  method = sym (blank_back i.request_method) ∙ ap (text_at 2) e ∙ blank_back j.request_method;
  host = sym (blank_back i.request_host) ∙ ap (text_at 3) e ∙ blank_back j.request_host;
  path = sym (path_back i.request_path _) ∙ ap (path_at 4) e ∙ path_back j.request_path _;
  kind = ap (text_at 5) e;
  words = ap (text_at 6) e;
  semantic_hash = ap (text_at 7) e;
  attempted_too =
      sym (flag_back i.upstream_attempted) ∙ ap (flag_at 8) e ∙ flag_back j.upstream_attempted;
}

spelled :
    Text → Option ℤ → Text → Text → Option Text → Text → Text → Text → Option Bool → List Datum
spelled category status method host path kind words hash flag =
    text_datum category
    ∷ status_datum status
    ∷ text_datum method
    ∷ text_datum host
    ∷ text_or_null path
    ∷ text_datum kind
    ∷ text_datum words
    ∷ text_datum hash
    ∷ attempted flag

canonical_fields-spelled :
    (i : Identity)
    → canonical_fields i
      ≡ spelled
          (codes i.category)
          i.status_code
          (blank i.request_method)
          (blank i.request_host)
          i.request_path
          (codes i.identity_kind)
          (join_words (split_words i.message))
          i.semantic_hash
          i.upstream_attempted
unfolding canonical_fields spelled
canonical_fields-spelled i =
    rw (text_or_blank-blank i.request_method, text_or_blank-blank i.request_host) refl

spelled-IsSame :
    (i j : Identity)
    → IsSame i j
    → spelled
        (codes i.category)
        i.status_code
        (blank i.request_method)
        (blank i.request_host)
        i.request_path
        (codes i.identity_kind)
        (join_words (split_words i.message))
        i.semantic_hash
        i.upstream_attempted
      ≡ spelled
          (codes j.category)
          j.status_code
          (blank j.request_method)
          (blank j.request_host)
          j.request_path
          (codes j.identity_kind)
          (join_words (split_words j.message))
          j.semantic_hash
          j.upstream_attempted
spelled-IsSame i j same = cc (
  same.category, same.status_code, same.method, same.host, same.path, same.kind, same.words,
  same.semantic_hash, same.attempted_too,
)

pub canonical_fields-IsSame :
    (i j : Identity) → (canonical_fields i ≡ canonical_fields j) ↔ IsSame i j
canonical_fields-IsSame i j = (
  of_fields i j,
  λ same. canonical_fields-spelled i ∙ spelled-IsSame i j same ∙ sym (canonical_fields-spelled j),
)
