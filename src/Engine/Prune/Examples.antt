-- ===== src/Engine/Prune/Examples.antt =====
-- Three items of a map that keeps the two best (engine/prune.go).
use awf.Prelude.{ℕ, ◌≡◌, refl, Bytes, codes, bytes_eq, List, [], ◌∷◌, none, some, inl, leb, arith}
use awf.Prelude.Decimal.{itoa, digits, value}
use awf.Prelude.Map.{lookup, insert}
use awf.Engine.Path.{item_path, item_step_path}
use awf.Engine.Prune.{Scored, as_float, beats, new_prune_run, is_pruned, score_of}
use awf.Engine.Prune.Frontier.{
  FrontierCall, registers, reports, scores_of, keep_best, run_calls, is_pruned-rank,
}
use awf.Engine.Prune.Ranks.{FloatLaws, rank}
use awf.Engine.RunState.{RunState, NodeResult, zero_state, lookup_completed, record_completed}
use awf.Engine.RunState.Outcomes.{outcome_ok}
use awf.Template.Examples.{naturals, marshal}
use awf.Template.Value.{Value, number_value}

naturals-FloatLaws : FloatLaws naturals
naturals-FloatLaws = record {
  eq_lem = λ x y. ground arith;
  lt_asym = λ x y h. ground arith;
  lt_split = λ x y z h. ground arith;
}

abbrev unmarshal : Bytes → Value ℕ
unmarshal raw = number_value raw

-- The outputs of an item's last step.
abbrev scoring : Bytes → NodeResult
scoring points = record {
  outcome = outcome_ok;
  exit_code = none;
  outputs = some ((codes "score", points) ∷ []);
  outputs_ref = [];
  stdout = none;
  stdout_ref = [];
  files = [];
  transcript = none;
  node_key = "";
  node_subtree_digest = "";
}

abbrev three_done : RunState
unfolding record_completed insert
three_done =
    record_completed
      (record_completed
        (record_completed zero_state (codes "map[0].item-0.judge") (scoring (codes "5")))
        (codes "map[0].item-1.judge") (scoring (codes "9")))
      (codes "map[0].item-2.judge") (scoring (codes "5"))

abbrev scored : ℕ → ℕ → Scored ℕ
scored i points = record { idx = i; points = points }

-- The last item is done first.
abbrev calls : List (FrontierCall ℕ)
calls =
    registers 0
    ∷ registers 2
    ∷ reports (record { rs = three_done; scored = scored 2 5 })
    ∷ reports (record { rs = three_done; scored = scored 0 5 })
    ∷ registers 1
    ∷ reports (record { rs = three_done; scored = scored 1 9 })
    ∷ []

is_pruned-rank_example :
    is_pruned
      (run_calls naturals marshal unmarshal
        (keep_best 2 (codes "score"))
        (codes "map[0]")
        (codes "judge")
        new_prune_run
        calls)
      2
    ≡ leb 2 (rank naturals (scored 2 5) (scored 2 5 ∷ scored 0 5 ∷ scored 1 9 ∷ []))
unfolding scores_of lookup_completed lookup item_step_path item_path itoa digits score_of as_float
    value bytes_eq three_done
is_pruned-rank_example =
    is_pruned-rank naturals naturals-FloatLaws 2 marshal unmarshal (codes "score") (codes "map[0]")
      (codes "judge") calls (scored 2 5)
      (
        (λ e. absurd (omega (arith, e)), (λ e. absurd (omega (arith, e)), tt)),
        ((λ e. absurd (omega (arith, e)), tt), (tt, tt)),
      )
      (
        tt,
        (
          tt,
          (
            (scoring (codes "5"), refl, refl),
            ((scoring (codes "5"), refl, refl), (tt, ((scoring (codes "9"), refl, refl), tt))),
          ),
        ),
      )
      (inl refl)

-- Two items beat it: one by its score, one by its index.
beaten_twice : rank naturals (scored 2 5) (scored 2 5 ∷ scored 0 5 ∷ scored 1 9 ∷ []) ≡ 2
unfolding rank beats
beaten_twice = refl
