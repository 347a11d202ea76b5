-- ===== src/SocketApp/Spool/Paging.antt =====
-- Pages: what one read returns, what it leaves, and the invariant.
use mathlib.Core.Option.{some-injective}
use mcp_log_server.Prelude.{
  Bool-cases, Option, String, ap, arith, drop, eq_iff, inl, inr, length, ltb, ltb→lt, nat_eq, none,
  option_eq, refl, some, string_eq, subst, sym, take, ℕ, ◌+◌, ◌==◌, ◌∙◌, ◌≡◌, ◌≤◌, ◌⊎◌,
}
use mcp_log_server.Prelude.Dict.{Dict, insert, insert-NodupKeys, lookup, lookup-insert}
use mcp_log_server.SocketApp.Spool.{
  File, Spool, Transfer, advance, cleanup_expired_transfers, create_page, expired,
  page_from_transfer, page_of_file, path_eq, read_found, read_page,
}
use mcp_log_server.SocketApp.Spool.Cleanup.{
  cleanup-IsValid, lookup-cleanup_expired, lookup-cleanup_live,
}
use mcp_log_server.SocketApp.Spool.Valid.{IsStored, IsValid, delete-IsValid}

pub advance-found :
    (id : String) (next now : ℕ) (transfers : Dict String Transfer) (t : Transfer)
    → lookup id transfers ≡ some t
    → advance id next now transfers
      ≡ insert id (record t { next_offset = next; last_accessed_at = now }) transfers
unfolding advance
advance-found id next now transfers t h = rw h

advance_absent :
    (id : String) (next now : ℕ) (transfers : Dict String Transfer)
    → lookup id transfers ≡ none
    → advance id next now transfers ≡ transfers
unfolding advance
advance_absent id next now transfers h = rw h

module _ (s : Spool) (id : String) (next now : ℕ) (t : Transfer) where
  abbrev moved : Transfer
  moved = record t { next_offset = next; last_accessed_at = now }

  moved_cases :
      (j : String) (u : Transfer)
      → lookup j (insert id moved s.transfers) ≡ some u
      → ((id ≡ j) × (moved ≡ u)) ⊎ (lookup j s.transfers ≡ some u)
  moved_cases j u h = elim (Bool-cases (id == j)) [
    | inl same ↦ inl ((eq_iff id j).0 same, some-injective _ _ (rw same at (rw lookup-insert at h)))
    | inr other ↦ inr (rw other at (rw lookup-insert at h))
  ]

  -- The transfer of an entry, before the cursor moved.
  moved_from :
      lookup id s.transfers ≡ some t
      → (j : String) (u : Transfer) → lookup j (insert id moved s.transfers) ≡ some u
      → (w : Transfer) × (lookup j s.transfers ≡ some w) × (w.spool_path ≡ u.spool_path)
  moved_from e j u h = elim (moved_cases j u h) [
    | inl (a, b) ↦
        (t, subst (λ i. lookup i s.transfers ≡ some t) a e, ap (λ (x : Transfer). x.spool_path) b)
    | inr old ↦ (u, old, refl)
  ]

  pub advance-IsValid :
      IsValid s
      → lookup id s.transfers ≡ some t
      → next ≤ t.byte_count
      → IsValid (record s { transfers = advance id next now s.transfers })
  advance-IsValid v e le = rw (advance-found id next now s.transfers t e) (record {
    nodup = insert-NodupKeys id moved s.transfers v.nodup;
    stored = λ j u h. elim (moved_cases j u h) [
      | inl (a, b) ↦
          let old = v.stored id t e in
          let kept : IsStored (record s { transfers = insert id moved s.transfers }) id moved =
            record {
              file = old.file;
              found = old.found;
              whole = old.whole;
              within = old.within;
              cursor = le;
              named = old.named;
            } in
          subst (λ w. IsStored (record s { transfers = insert id moved s.transfers }) j w) b
            (subst (λ i. IsStored (record s { transfers = insert id moved s.transfers }) i moved) a
              kept)
      | inr old ↦
          let k = v.stored j u old in
          record {
            file = k.file;
            found = k.found;
            whole = k.whole;
            within = k.within;
            cursor = k.cursor;
            named = k.named;
          }
    ];
    owner = λ i j u w h k same.
        let (u', hu, pu) = moved_from e i u h in
        let (w', hw, pw) = moved_from e j w k in v.owner i j u' w' hu hw (pu ∙ same ∙ sym pw);
  })

module _ (t : Transfer) (offset byte_limit now : ℕ) (s : Spool) where
  page_of_file-IsValid :
      IsValid s
      → (lookup t.transfer_id s.transfers ≡ some t) ⊎ (lookup t.transfer_id s.transfers ≡ none)
      → (o : Option File) → IsValid (page_of_file t offset byte_limit now s o).1
  unfolding page_of_file
  page_of_file-IsValid v here none = v
  page_of_file-IsValid v here (some f) =
      let next = offset + length (take byte_limit (drop offset f.content)) in
      elim (Bool-cases (ltb next t.byte_count)) [
        | inl more ↦ rw more (elim here [
          | inl e ↦
              advance-IsValid s t.transfer_id next now t v e
                (omega (arith, ltb→lt next t.byte_count more))
          | inr e ↦ rw (advance_absent t.transfer_id next now s.transfers e) v
        ])
        | inr last ↦ rw last (delete-IsValid t.transfer_id s v)
      ]

  pub page_from_transfer-IsValid :
      IsValid s
      → (lookup t.transfer_id s.transfers ≡ some t) ⊎ (lookup t.transfer_id s.transfers ≡ none)
      → IsValid (page_from_transfer t offset byte_limit now s).1
  unfolding page_from_transfer
  page_from_transfer-IsValid v here = page_of_file-IsValid v here (lookup t.spool_path s.files)

  -- After a cleanup the transfer is there as it was, or it is gone.
  after_cleanup :
      (wall : ℕ)
      → IsValid s
      → lookup t.transfer_id s.transfers ≡ some t
      → (lookup t.transfer_id (cleanup_expired_transfers now wall s).transfers ≡ some t)
        ⊎ (lookup t.transfer_id (cleanup_expired_transfers now wall s).transfers ≡ none)
  after_cleanup wall v e = elim (Bool-cases (expired now s.ttl_seconds t)) [
    | inl old ↦ inr (lookup-cleanup_expired now wall s t.transfer_id t e old)
    | inr live ↦ inl (lookup-cleanup_live now wall s t.transfer_id t v.nodup e live)
  ]

-- The first page of a stored transfer keeps the invariant.
pub create_page-IsValid :
    (t : Transfer) (offset byte_limit now wall : ℕ) (s : Spool)
    → IsValid s
    → lookup t.transfer_id s.transfers ≡ some t
    → IsValid (create_page t offset byte_limit now wall s).1
unfolding create_page
create_page-IsValid t offset byte_limit now wall s v e =
    page_from_transfer-IsValid t offset byte_limit now (cleanup_expired_transfers now wall s)
      (cleanup-IsValid now wall s v) (after_cleanup t offset byte_limit now s wall v e)

read_found-IsValid :
    (offset byte_limit now : ℕ) (s : Spool) (id : String) (o : Option Transfer)
    → IsValid s
    → lookup id s.transfers ≡ o
    → IsValid (read_found offset byte_limit now s o).1
unfolding read_found
read_found-IsValid offset byte_limit now s id none v e = v
read_found-IsValid offset byte_limit now s id (some t) v e =
    elim (Bool-cases (offset == t.next_offset)) [
      | inl here ↦ rw here (
          page_from_transfer-IsValid t offset byte_limit now s v
            (inl (subst (λ i. lookup i s.transfers ≡ some t) (sym (v.stored id t e).named) e)))
      | inr off ↦ rw off v
    ]

-- Every read keeps the invariant, errors included.
pub read_page-IsValid :
    (id : String) (offset byte_limit now wall : ℕ) (s : Spool)
    → IsValid s
    → IsValid (read_page id offset byte_limit now wall s).1
unfolding read_page
read_page-IsValid id offset byte_limit now wall s v =
    read_found-IsValid offset byte_limit now (cleanup_expired_transfers now wall s) id
      (lookup id (cleanup_expired_transfers now wall s).transfers) (cleanup-IsValid now wall s v)
      refl
