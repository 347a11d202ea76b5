-- ===== src/Filtering/Candidates/Sample.antt =====
-- The turns of the sample mode of `_select_filtered_lines`: the number of lines.
use mcp_log_server.Prelude.{
  Bool, Bool-cases, List, String, [], ap, arith, bool_eq, false, get_elem?-cases, inl, inr, length,
  length-append, list_eq, ltb, ltb→ge, ltb→lt, min, nat_eq, option_eq, refl, string_eq, suc, total,
  true, zero, ℕ, ◌++◌, ◌+◌, ◌-◌, ◌<◌, ◌∙◌, ◌∷◌, ◌≡◌, ◌≤◌,
}
use mcp_log_server.Prelude.Dict.{Dict, keys}
use mcp_log_server.Prelude.Int.{int_eq}
use mcp_log_server.Filtering.Candidates.{
  LineReference, lines_of, sample_turn, sample_turns, take_turn,
}
use mcp_log_server.SocketApp.Spool.{path_eq}

module _ (max_lines : ℕ) (d : Dict String (List LineReference)) where
  -- The lines of a source from an index on.
  abbrev pub left : ℕ → String → ℕ
  left i key = length (lines_of key d) - i

  -- What a turn does to the number of lines.
  record Turned (i : ℕ) (keys : List String) (sampled : List LineReference)
      (turn : List LineReference × Bool) : Type 0 where
    size :
        min max_lines (length turn.0 + total (left (suc i)) keys)
        ≡ min max_lines (length sampled + total (left i) keys)
    within : length turn.0 ≤ max_lines
    stuck : turn.1 ≡ false → (turn.0 ≡ sampled) × (total (left i) keys ≡ 0)
    keeps : length sampled ≤ length turn.0
    grows : turn.1 ≡ true → length sampled < length turn.0

  turn-Turned :
      (i : ℕ) (keys : List String) (sampled : List LineReference)
      → length sampled < max_lines
      → Turned i keys sampled (sample_turn max_lines i d keys sampled)
  unfolding sample_turn take_turn
  turn-Turned i [] sampled h = record {
    size = refl;
    within = omega arith;
    stuck = λ _. (refl, refl);
    keeps = omega arith;
    grows = λ e. cc;
  }
  turn-Turned i (key ∷ keys) sampled h = elim (get_elem?-cases (lines_of key d) i) [
    | inl (e, short) ↦
        let rest = turn-Turned i keys sampled h in
        rw e (record {
          size = omega (arith, rest.size);
          within = rest.within;
          stuck = λ s. ((rest.stuck s).0, omega (arith, (rest.stuck s).1));
          keeps = rest.keeps;
          grows = rest.grows;
        })
    | inr (line, e, long) ↦
        let one_more : length (sampled ++ line ∷ []) ≡ suc (length sampled) =
          omega (arith, length-append sampled (line ∷ [])) in
        elim (Bool-cases (ltb (length (sampled ++ line ∷ [])) max_lines)) [
          | inl room ↦
              let rest = turn-Turned i keys (sampled ++ line ∷ []) (ltb→lt _ _ room) in
              rw (e, room)
                (record {
                  size = omega (arith, rest.size, one_more);
                  within = rest.within;
                  stuck = λ s. cc;
                  keeps = omega (arith, rest.keeps, one_more);
                  grows = λ _. omega (arith, rest.keeps, one_more);
                })
          | inr full ↦
              rw (e, full)
                (record {
                  size = omega (arith, ltb→ge _ _ full, one_more);
                  within = omega (arith, one_more);
                  stuck = λ s. cc;
                  keeps = omega (arith, one_more);
                  grows = λ _. omega (arith, one_more);
                })
        ]
  ]

  -- The turns end within the fuel with as many lines as there are, up to the limit.
  turns_length :
      (fuel i : ℕ) (keys : List String) (sampled : List LineReference)
      → length sampled ≤ max_lines
      → max_lines - length sampled < fuel
      → length (sample_turns fuel max_lines i d keys sampled)
        ≡ min max_lines (length sampled + total (left i) keys)
  unfolding sample_turns
  turns_length zero i keys sampled h enough = absurd (omega arith)
  turns_length (suc fuel) i keys sampled h enough =
      elim (Bool-cases (ltb (length sampled) max_lines)) [
        | inr full ↦ rw full (omega (arith, ltb→ge _ _ full))
        | inl room ↦
            let t = turn-Turned i keys sampled (ltb→lt _ _ room) in
            elim (Bool-cases (sample_turn max_lines i d keys sampled).1) [
              | inr stop ↦
                  rw (room, stop)
                    (omega (arith, ltb→lt _ _ room, (t.stuck stop).1, ap length (t.stuck stop).0))
              | inl goes ↦
                  rw (room, goes)
                    (turns_length fuel (suc i) keys (sample_turn max_lines i d keys sampled).0
                        t.within (omega (arith, t.grows goes, t.within))
                      ∙ t.size)
            ]
      ]

  left_zero :
      (keys : List String) → total (left 0) keys ≡ total (λ key. length (lines_of key d)) keys
  left_zero [] = refl
  left_zero (key ∷ keys) = omega (arith, left_zero keys)

  -- The sample has as many lines as the sources hold together, up to the limit.
  pub length-sample_turns :
      (keys : List String)
      → length (sample_turns (suc max_lines) max_lines 0 d keys [])
        ≡ min max_lines (total (λ key. length (lines_of key d)) keys)
  length-sample_turns keys =
      turns_length (suc max_lines) 0 keys [] (omega arith) (omega arith)
      ∙ omega (arith, left_zero keys)
