-- ===== src/SocketApp/Spool/Served.antt =====
-- The limits of what a read of a page returns.
use mcp_log_server.Prelude.{
  Bool-cases, Option, String, ap, arith, bool_eq, drop, false, inl, inr, length, length-take,
  list_eq, ltb, ltb→lt, nat_eq, none, option_eq, refl, some, string_eq, sym, take, true, ℕ, ◌+◌,
  ◌<◌, ◌==◌, ◌∙◌, ◌≡◌, ◌≤◌,
}
use mcp_log_server.Prelude.Dict.{lookup}
use mcp_log_server.Prelude.Int.{int_eq}
use mcp_log_server.Prelude.Result.{Result, err, err-ne-ok, ok, ok_inj}
use mcp_log_server.SocketApp.Spool.{
  File, Page, Spool, Transfer, cleanup_expired_transfers, create_page, missing_file,
  page_from_transfer, page_of_file, path_eq, read_found, read_page, unknown_transfer, wrong_offset,
}
use mcp_log_server.SocketApp.Spool.Cleanup.{cleanup-IsValid, limits-cleanup}
use mcp_log_server.SocketApp.Spool.Valid.{IsValid, limits-delete}

-- The answer keeps the limit of the spool, a truncated page of it ends before that limit, and a page
-- has no more bytes than it may.
pub record IsServed {E : Type 0} (limit offset byte_limit : ℕ) (out : Result E Page × Spool)
    : Type 0 where
  pub same_limit : out.1.max_bytes ≡ limit
  pub ends_before :
      (page : Page) → out.0 ≡ ok page → page.truncated ≡ true → offset + length page.content < limit
  pub limited :
      (page : Page)
      → out.0 ≡ ok page
      → (page.byte_limit ≡ byte_limit) × (length page.content ≤ byte_limit)

pub refused-IsServed :
    {E : Type 0} (limit offset byte_limit : ℕ) (e : E) (s : Spool)
    → s.max_bytes ≡ limit
    → IsServed limit offset byte_limit (err e, s)
refused-IsServed limit offset byte_limit e s same = record {
  same_limit = same;
  ends_before = λ page h. err-ne-ok h;
  limited = λ page h. err-ne-ok h;
}

module _ (limit : ℕ) (t : Transfer) (offset byte_limit now : ℕ) (s : Spool)
    (within : t.byte_count ≤ limit) (same : s.max_bytes ≡ limit) where
  page_of_file-IsServed :
      (o : Option File)
      → IsServed limit offset byte_limit (page_of_file t offset byte_limit now s o)
  unfolding page_of_file
  page_of_file-IsServed none = refused-IsServed limit offset byte_limit missing_file s same
  page_of_file-IsServed (some f) =
      let bytes = take byte_limit (drop offset f.content) in
      elim (Bool-cases (ltb (offset + length bytes) t.byte_count)) [
        | inl more ↦ rw more (record {
          same_limit = same;
          ends_before = λ page h cut.
              let e : length bytes ≡ length page.content =
                ap (λ (p : Page). length p.content) (ok_inj h) in
              omega (arith, ltb→lt (offset + length bytes) t.byte_count more);
          limited = λ page h.
              let e : byte_limit ≡ page.byte_limit = ap (λ (p : Page). p.byte_limit) (ok_inj h) in
              let l : length bytes ≡ length page.content =
                ap (λ (p : Page). length p.content) (ok_inj h) in
              (sym e, omega (arith, length-take byte_limit (drop offset f.content)));
        })
        | inr last ↦ rw last (record {
          same_limit = (limits-delete t.transfer_id s).0 ∙ same;
          ends_before = λ page h cut.
              let e : false ≡ page.truncated = ap (λ (p : Page). p.truncated) (ok_inj h) in cc;
          limited = λ page h.
              let e : byte_limit ≡ page.byte_limit = ap (λ (p : Page). p.byte_limit) (ok_inj h) in
              let l : length bytes ≡ length page.content =
                ap (λ (p : Page). length p.content) (ok_inj h) in
              (sym e, omega (arith, length-take byte_limit (drop offset f.content)));
        })
      ]

  page_from_transfer-IsServed :
      IsServed limit offset byte_limit (page_from_transfer t offset byte_limit now s)
  unfolding page_from_transfer
  page_from_transfer-IsServed = page_of_file-IsServed (lookup t.spool_path s.files)

module _ (limit offset byte_limit now wall : ℕ) (s : Spool) (same : s.max_bytes ≡ limit) where
  abbrev cleaned : Spool
  cleaned = cleanup_expired_transfers now wall s

  cleaned_limit : cleaned.max_bytes ≡ limit
  cleaned_limit = (limits-cleanup now wall s).0 ∙ same

  pub create_page-IsServed :
      (t : Transfer)
      → t.byte_count ≤ limit
      → IsServed limit offset byte_limit (create_page t offset byte_limit now wall s)
  unfolding create_page
  create_page-IsServed t h =
      page_from_transfer-IsServed limit t offset byte_limit now cleaned h cleaned_limit

  read_found-IsServed :
      (o : Option Transfer)
      → ((t : Transfer) → o ≡ some t → t.byte_count ≤ limit)
      → IsServed limit offset byte_limit (read_found offset byte_limit now cleaned o)
  unfolding read_found
  read_found-IsServed none h =
      refused-IsServed limit offset byte_limit unknown_transfer cleaned cleaned_limit
  read_found-IsServed (some t) h = elim (Bool-cases (offset == t.next_offset)) [
    | inl here ↦
        rw here (
          page_from_transfer-IsServed limit t offset byte_limit now cleaned (h t refl)
            cleaned_limit)
    | inr off ↦ rw off (
        refused-IsServed limit offset byte_limit (wrong_offset t.next_offset) cleaned cleaned_limit)
  ]

  pub read_page-IsServed :
      IsValid s
      → (id : String) → IsServed limit offset byte_limit (read_page id offset byte_limit now wall s)
  unfolding read_page
  read_page-IsServed v id = read_found-IsServed (lookup id cleaned.transfers) λ t e.
      let k = (cleanup-IsValid now wall s v).stored id t e in omega (arith, k.within, cleaned_limit)
