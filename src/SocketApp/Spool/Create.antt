-- ===== src/SocketApp/Spool/Create.antt =====
-- `create`: what is written, the limit on its size, and the invariant.
use Prim.Native.Nat.{zero-le}
use native.Mathlib.Nat.{add_assoc, add-zero, zero-add}
use mathlib.Core.List.{append-nil, append_assoc}
use mathlib.Core.Option.{some-injective}
use mcp_log_server.Prelude.{
  Bool-cases, List, String, [], ap, arith, beq_refl, eq_iff, ge→ltb, if◌then◌else◌, inl, inr,
  le_or_lt, length, length-append, ltb, ltb→ge, ltb→lt, lt→ltb, nat_eq, none, option_eq, refl, some,
  string_eq, subst, sym, ℕ, ◌++◌, ◌+◌, ◌<◌, ◌==◌, ◌∙◌, ◌∷◌, ◌≡◌, ◌≢◌, ◌≤◌, ◌⊎◌,
}
use mcp_log_server.Prelude.Dict.{
  Dict, erase, insert, insert-NodupKeys, lookup, lookup-erase, lookup-insert,
}
use mcp_log_server.Prelude.Int.{int_eq}
use mcp_log_server.Prelude.Result.{Result, err, ok}
use mcp_log_server.Prelude.Utf8.{Bytes}
use mcp_log_server.SocketApp.Spool.{
  Chunk, File, Spool, SpoolError, SpoolPath, Transfer, create, part_path, path_eq, raw,
  spool_path_of, too_large, write_chunks,
}
use mcp_log_server.SocketApp.Spool.Valid.{IsStored, IsValid}

-- The bytes of the whole stream.
abbrev pub all_bytes : List Chunk → Bytes
all_bytes [] = []
all_bytes (chunk ∷ chunks) = raw chunk ++ all_bytes chunks

-- The loop in one equation.
abbrev pub written_or_too_large : ℕ → Bytes → Bytes → ℕ → Result SpoolError (Bytes × ℕ)
written_or_too_large limit written rest n =
    if ltb limit (n + length rest)
    then err (too_large limit)
    else ok (written ++ rest, n + length rest)

-- The loop that spools a stream writes the whole stream and its byte count when what is written
-- already and the stream fit the limit together, and raises the size error otherwise, however the
-- stream is cut into chunks. What is written already is within the limit.
pub write_chunks_lem :
    (limit : ℕ) (chunks : List Chunk) (written : Bytes) (n : ℕ)
    → n ≤ limit
    → write_chunks limit chunks written n ≡ written_or_too_large limit written (all_bytes chunks) n
unfolding write_chunks
write_chunks_lem limit [] written n h = rw (append-nil, add-zero, ge→ltb limit n h)
write_chunks_lem limit (chunk ∷ chunks) written n h =
    elim (Bool-cases (ltb limit (n + length (raw chunk)))) [
      | inl big ↦ rw (
        big,
        lt→ltb limit (n + length (raw chunk ++ all_bytes chunks))
            (omega (arith, ltb→lt _ _ big, length-append (raw chunk) (all_bytes chunks))),
      )
      | inr fits ↦ rw (
        fits,
        write_chunks_lem limit chunks (written ++ raw chunk) (n + length (raw chunk))
            (ltb→ge _ _ fits),
        append_assoc,
        length-append (raw chunk) (all_bytes chunks),
        add_assoc,
      )
    ]

abbrev pub new_transfer : String → String → String → ℕ → ℕ → Transfer
new_transfer container_name stem uuid now byte_count = record {
  transfer_id = uuid;
  container_name = container_name;
  spool_path = spool_path_of stem;
  byte_count = byte_count;
  next_offset = 0;
  last_accessed_at = now;
}

-- What the names that `tempfile` and `uuid4` pick are relied on for.
pub record IsFresh (stem uuid : String) (s : Spool) : Type 0 where
  pub no_id : lookup uuid s.transfers ≡ none
  pub no_stem :
      (id : String) (t : Transfer) → lookup id s.transfers ≡ some t → t.spool_path.stem ≢ stem

module _ (container_name : String) (chunks : List Chunk) (stem uuid : String) (now wall : ℕ)
    (s : Spool) where
  abbrev opened_files : Dict SpoolPath File
  opened_files = insert (part_path stem) (record { content = []; modified_at = wall }) s.files

  -- The state after a stream within the limit.
  abbrev pub stored_state : Spool
  stored_state = record s {
    transfers =
        insert uuid (new_transfer container_name stem uuid now (length (all_bytes chunks)))
          s.transfers;
    files =
        insert (spool_path_of stem) (record { content = all_bytes chunks; modified_at = wall })
          (erase (part_path stem) opened_files);
  }

  pub create_fits :
      length (all_bytes chunks) ≤ s.max_bytes
      → create container_name chunks stem uuid now wall s
        ≡ (ok (new_transfer container_name stem uuid now (length (all_bytes chunks))), stored_state)
  unfolding create
  create_fits h = rw (
    write_chunks_lem s.max_bytes chunks [] 0 zero-le,
    zero-add,
    ge→ltb s.max_bytes (length (all_bytes chunks)) h,
  )

  pub create_too_large :
      s.max_bytes < length (all_bytes chunks)
      → create container_name chunks stem uuid now wall s
        ≡ (err (too_large s.max_bytes), record s { files = erase (part_path stem) opened_files })
  unfolding create
  create_too_large h = rw (
    write_chunks_lem s.max_bytes chunks [] 0 zero-le,
    zero-add,
    lt→ltb s.max_bytes (length (all_bytes chunks)) h,
  )

  -- The files that stand after the part file was opened and unlinked or renamed.
  lookup-erase_opened :
      (p : SpoolPath)
      → p.stem ≢ stem
      → lookup p (erase (part_path stem) opened_files) ≡ lookup p s.files
  lookup-erase_opened p ne =
      lookup-erase p (part_path stem) opened_files
      ∙ ground (
        arith,
        eq_iff stem p.stem,
        lookup-insert p (part_path stem) (record { content = []; modified_at = wall }) s.files,
      )

  lookup-stored_files :
      (p : SpoolPath) → p.stem ≢ stem → lookup p stored_state.files ≡ lookup p s.files
  lookup-stored_files p ne =
      lookup-insert p (spool_path_of stem)
        (record { content = all_bytes chunks; modified_at = wall })
        (erase (part_path stem) opened_files)
      ∙ ground (arith, eq_iff stem p.stem, lookup-erase_opened p ne)

  stored_new :
      IsFresh stem uuid s
      → length (all_bytes chunks) ≤ s.max_bytes
      → IsStored stored_state uuid
          (new_transfer container_name stem uuid now (length (all_bytes chunks)))
  stored_new f h = record {
    file = record { content = all_bytes chunks; modified_at = wall };
    found =
        lookup-insert (spool_path_of stem) (spool_path_of stem)
          (record { content = all_bytes chunks; modified_at = wall })
          (erase (part_path stem) opened_files)
        ∙ rw (beq_refl stem);
    whole = refl;
    within = h;
    cursor = zero-le;
    named = refl;
  }

  stored_old :
      IsValid s
      → IsFresh stem uuid s
      → (id : String) (t : Transfer) → lookup id s.transfers ≡ some t
      → IsStored stored_state id t
  stored_old v f id t e =
      let old = v.stored id t e in
      record {
        file = old.file;
        found = lookup-stored_files t.spool_path (f.no_stem id t e) ∙ old.found;
        whole = old.whole;
        within = old.within;
        cursor = old.cursor;
        named = old.named;
      }

  -- A transfer of the new state is the new one, or an old one under another id.
  stored_cases :
      (id : String) (t : Transfer)
      → lookup id stored_state.transfers ≡ some t
      → ((uuid ≡ id) × (new_transfer container_name stem uuid now (length (all_bytes chunks)) ≡ t))
        ⊎ (lookup id s.transfers ≡ some t)
  stored_cases id t h = elim (Bool-cases (uuid == id)) [
    | inl same ↦
        inl ((eq_iff uuid id).0 same, some-injective _ _ (rw same at (rw lookup-insert at h)))
    | inr other ↦ inr (rw other at (rw lookup-insert at h))
  ]

  pub stored_state-IsValid :
      IsValid s
      → IsFresh stem uuid s
      → length (all_bytes chunks) ≤ s.max_bytes
      → IsValid stored_state
  stored_state-IsValid v f h = record {
    nodup = insert-NodupKeys uuid _ s.transfers v.nodup;
    stored = λ id t e. elim (stored_cases id t e) [
      | inl (a, b) ↦
          subst (λ u. IsStored stored_state id u) b
            (subst
              (λ i.
                IsStored stored_state i
                  (new_transfer container_name stem uuid now (length (all_bytes chunks))))
              a (stored_new f h))
      | inr old ↦ stored_old v f id t old
    ];
    owner = λ i j t u e k same. elim (stored_cases i t e) [
      | inl (a, b) ↦ elim (stored_cases j u k) [
        | inl (c, d) ↦ sym a ∙ c
        | inr old ↦ absurd (
            f.no_stem j u old (
              ap (λ (p : SpoolPath). p.stem)
                (sym same ∙ ap (λ (x : Transfer). x.spool_path) (sym b))))
      ]
      | inr first ↦ elim (stored_cases j u k) [
        | inl (c, d) ↦ absurd (
            f.no_stem i t first
              (ap (λ (p : SpoolPath). p.stem) (same ∙ ap (λ (x : Transfer). x.spool_path) (sym d))))
        | inr old ↦ v.owner i j t u first old same
      ]
    ];
  }

  too_large-IsValid :
      IsValid s
      → IsFresh stem uuid s
      → IsValid (record s { files = erase (part_path stem) opened_files })
  too_large-IsValid v f = record {
    nodup = v.nodup;
    stored = λ id t e.
        let old = v.stored id t e in
        record {
          file = old.file;
          found = lookup-erase_opened t.spool_path (f.no_stem id t e) ∙ old.found;
          whole = old.whole;
          within = old.within;
          cursor = old.cursor;
          named = old.named;
        };
    owner = v.owner;
  }

  -- `create` keeps the invariant, whether the stream fits or not.
  pub create-IsValid :
      IsValid s
      → IsFresh stem uuid s
      → IsValid (create container_name chunks stem uuid now wall s).1
  create-IsValid v f = elim (le_or_lt (length (all_bytes chunks)) s.max_bytes) [
    | inl h ↦ rw (create_fits h) (stored_state-IsValid v f h)
    | inr h ↦ rw (create_too_large h) (too_large-IsValid v f)
  ]
