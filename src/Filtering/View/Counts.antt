-- ===== src/Filtering/View/Counts.antt =====
-- What the loop over the lines does to the counters and the candidates.
use mcp_log_server.Prelude.{
  All, Bool, List, Option, String, [], ap, arith, bool_eq, contains, false, length, length-append,
  list_eq, nat_eq, option_eq, refl, string_eq, suc, subst, sym, true, ℕ, ◌++◌, ◌+◌, ◌∙◌, ◌∷◌, ◌≡◌,
}
use mcp_log_server.Prelude.Int.{int_eq}
use mcp_log_server.Prelude.Result.{>>=-ok, ok, ok-injective}
use mcp_log_server.Prelude.Utf8.{Text}
use mcp_log_server.Filtering.Candidates.{
  Candidates, ViewMode, errors, head, judge_for, sample, store_filtered_line_candidate,
  store_judged,
}
use mcp_log_server.Filtering.Candidates.Refines.{Kept, store_all}
use mcp_log_server.Filtering.Extract.{Python}
use mcp_log_server.Filtering.Noise.{FilterDecision, SourceNoiseContext, apply_noise_profile}
use mcp_log_server.Filtering.View.{
  Progress, count_line, filter_line, filter_lines, line_reference, with_excluded, with_kept,
}
use mcp_log_server.Filtering.View.Origin.{
  Judged, KeptLines, drops, keeps, kept_line, no_lines, without_end,
}
use mcp_log_server.SocketApp.Spool.{path_eq}

module _ (max_lines : ℕ) (mode : ViewMode) (keys : List String) where
  -- From `p` to `q` some lines were kept, all of sources among the keys.
  pub record Counted (p q : Progress) : Type 0 where
    pub new : List Kept
    pub candidates : q.candidates ≡ store_all max_lines mode p.candidates new
    pub kept : q.kept_line_count ≡ p.kept_line_count + length new
    pub balance :
        q.total_line_count + (p.kept_line_count + p.excluded_line_count)
        ≡ p.total_line_count + (q.kept_line_count + q.excluded_line_count)
    pub known : All (λ k. contains keys k.source_key ≡ true) new

  unfoldable pub nothing_counted : (p : Progress) → Counted p p
  nothing_counted p = record {
    new = [];
    candidates = refl;
    kept = omega arith;
    balance = omega arith;
    known = tt;
  }

  pub store_all-append :
      (c : Candidates) (xs ys : List Kept)
      → store_all max_lines mode c (xs ++ ys)
        ≡ store_all max_lines mode (store_all max_lines mode c xs) ys
  store_all-append c [] ys = refl
  store_all-append c (x ∷ xs) ys =
      store_all-append (store_judged c x.source_key x.incident x.reference max_lines mode) xs ys

  pub All-append :
      (xs ys : List Kept)
      → All (λ k. contains keys k.source_key ≡ true) xs
      → All (λ k. contains keys k.source_key ≡ true) ys
      → All (λ k. contains keys k.source_key ≡ true) (xs ++ ys)
  All-append [] ys h k = k
  All-append (x ∷ xs) ys (h, hs) k = (h, All-append xs ys hs k)

  unfoldable pub then_counted : {p q r : Progress} → Counted p q → Counted q r → Counted p r
  then_counted {p} a b = record {
    new = a.new ++ b.new;
    candidates =
        b.candidates
        ∙ ap (λ (c : Candidates). store_all max_lines mode c b.new) a.candidates
        ∙ sym (store_all-append p.candidates a.new b.new);
    kept = omega (arith, a.kept, b.kept, length-append a.new b.new);
    balance = omega (arith, a.balance, b.balance);
    known = All-append a.new b.new a.known b.known;
  }

  module _ (py : Python) (context : SourceNoiseContext) (source_key file_name : String)
      (here : contains keys source_key ≡ true) where
    -- What a line adds: nothing, or the line itself.
    data Added (n : ℕ) (line : Text) (decision : FilterDecision) : List Kept → Type 0 where
      added :
          (incident : Bool)
          → decision.keep ≡ true
          → Judged py mode line incident
          → Added n line decision (kept_line source_key file_name n line incident ∷ [])
      nothing : decision.keep ≡ false → Added n line decision []

    kept_counted :
        (p : Progress) (n : ℕ) (line : Text) (incident : Bool)
        → Counted p (
            with_kept py context source_key file_name max_lines mode
              (store_judged p.candidates source_key incident
                (kept_line source_key file_name n line incident).reference
                max_lines
                mode)
              p)
    unfolding with_kept
    kept_counted p n line incident = record {
      new = kept_line source_key file_name n line incident ∷ [];
      candidates = refl;
      kept = omega arith;
      balance = omega arith;
      known = (here, tt);
    }

    excluded_counted :
        (p : Progress) (reason : Option String)
        → Counted p (with_excluded py context source_key file_name max_lines mode reason p)
    unfolding with_excluded
    excluded_counted p reason = record {
      new = [];
      candidates = refl;
      kept = omega arith;
      balance = omega arith;
      known = tt;
    }

    judge_for-Judged :
        (line : Text) (m : ViewMode) (incident : Bool)
        → judge_for py line m ≡ ok incident
        → Judged py m line incident
    unfolding judge_for
    judge_for-Judged line head incident h = tt
    judge_for-Judged line errors incident h = h
    judge_for-Judged line sample incident h = tt

    -- A turn of the loop with what it added.
    abbrev Turn : ℕ → Text → FilterDecision → Progress → Progress → Type 0
    Turn n line decision p q = (c : Counted p q) × Added n line decision c.new

    stored-Turn :
        (n : ℕ) (line : Text) (p : Progress) (c : Candidates) (decision : FilterDecision)
        → decision.keep ≡ true
        → store_filtered_line_candidate py p.candidates source_key line
            (line_reference py context source_key file_name max_lines mode n line)
            max_lines
            mode
          ≡ ok c
        → Turn n line decision p (with_kept py context source_key file_name max_lines mode c p)
    unfolding store_filtered_line_candidate line_reference kept_counted
    stored-Turn n line p c decision is_kept h =
        let (incident, e, judged) = >>=-ok (judge_for py line mode) _ h in
        subst
          (λ (d : Candidates).
            Turn n line decision p (with_kept py context source_key file_name max_lines mode d p))
          (ok-injective refl e)
          (
            kept_counted p n line incident,
            added incident is_kept (judge_for-Judged line mode incident judged),
          )

    count_line-Turn :
        (n : ℕ) (line : Text) (p q : Progress) (decision : FilterDecision) (keep : Bool)
        → decision.keep ≡ keep
        → count_line py context source_key file_name max_lines mode n line p decision ≡ ok q
        → Turn n line decision p q
    unfolding count_line excluded_counted
    count_line-Turn n line p q decision true is_kept h =
        let (c, e, stored) =
          >>=-ok
            (store_filtered_line_candidate py p.candidates source_key line
              (line_reference py context source_key file_name max_lines mode n line) max_lines mode)
            _ (simp is_kept at h) in
        subst (λ (r : Progress). Turn n line decision p r) (ok-injective refl e)
          (stored-Turn n line p c decision is_kept stored)
    count_line-Turn n line p q decision false is_dropped h =
        subst (λ (r : Progress). Turn n line decision p r)
          (ok-injective refl (simp is_dropped at h))
          (excluded_counted p decision.reason, nothing is_dropped)

    Added-KeptLines :
        {n : ℕ} {raw_line : Text} {lines : List Text} {new kept : List Kept}
        (decision : FilterDecision)
        → apply_noise_profile py context (without_end raw_line) ≡ ok decision
        → Added n (without_end raw_line) decision new
        → KeptLines py context source_key file_name mode (suc n) lines kept
        → KeptLines py context source_key file_name mode n (raw_line ∷ lines) (new ++ kept)
    Added-KeptLines decision decided (added incident is_kept judged) rest =
        keeps decision incident decided is_kept judged rest
    Added-KeptLines decision decided (nothing is_dropped) rest =
        drops decision decided is_dropped rest

    pub filter_lines-Counted :
        (n : ℕ) (lines : List Text) (p q : Progress)
        → filter_lines py context source_key file_name max_lines mode n lines p ≡ ok q
        → (c : Counted p q) × KeptLines py context source_key file_name mode n lines c.new
    unfolding filter_lines filter_line nothing_counted then_counted
    filter_lines-Counted n [] p q h =
        subst
          (λ (r : Progress).
            (c : Counted p r) × KeptLines py context source_key file_name mode n [] c.new)
          (ok-injective refl h) (nothing_counted p, no_lines)
    filter_lines-Counted n (raw_line ∷ lines) p q h =
        let (r, rest, first) =
          >>=-ok (filter_line py context source_key file_name max_lines mode n raw_line p) _ h in
        let (decision, counted, decided) =
          >>=-ok (apply_noise_profile py context (without_end raw_line)) _ first in
        let (c, is_added) =
          count_line-Turn n (without_end raw_line) p r decision decision.keep refl counted in
        let (d, kept) = filter_lines-Counted (suc n) lines r q rest in
        (then_counted c d, Added-KeptLines decision decided is_added kept)
