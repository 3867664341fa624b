-- ===== src/Engine/Prune/Frontier.antt =====
-- What the frontier of a map keeps, in whatever order its items are done (engine/prune.go).
use awf.Prelude.{
  ℕ, ◌≡◌, ◌≢◌, inl, inr, refl, sym, ◌∙◌, ap, Bytes, false, List, [], ◌∷◌, ◌++◌, Option, none, some,
  ok, leb, bytes_eq, length, append-nil, append_assoc, All, Bool-cases, arith,
}
use mathlib.Core.Path.{subst}
use awf.Engine.Prune.{
  Prune, PruneRun, register, Scored, add, set_score, as_float, decide_keep, decide, new_prune_run,
  is_pruned, apply_decision, report_score, score_of, report,
}
use awf.Engine.Prune.Discards.{
  Settled, new-Settled, losers_of, discarded, discarded-losers, discarded-others, set_score-append,
  Distinct-append, Distinct-middle,
}
use awf.Engine.Prune.Ranks.{FloatLaws, rank, Has, Distinct}
use awf.Engine.Path.{item_step_path}
use awf.Engine.RunState.{RunState, NodeResult, lookup_completed}
use awf.Template.Value.{Floats, Value}

-- An item that is done, with the state of the run by then, and the score in its outputs.
pub record DoneItem (F : Type 0) : Type 0 where
  pub rs : RunState
  pub scored : Scored F

-- What the goroutines of a map's items call.
pub data FrontierCall (F : Type 0) : Type 0 where
  registers : ℕ → FrontierCall F
  reports : DoneItem F → FrontierCall F

-- The scores in the order of the reports.
unfoldable pub scores_of : {F : Type 0} → List (FrontierCall F) → List (Scored F)
scores_of [] = []
scores_of (registers i ∷ calls) = scores_of calls
scores_of (reports d ∷ calls) = d.scored ∷ scores_of calls

-- keep: k
abbrev pub keep_best : ℕ → Bytes → Prune
keep_best k field = record { score = field; keep = some k; stop_when = [] }

module _ {F : Type 0} (fl : Floats F) (marshal : Value F → Option Bytes)
    (unmarshal : Bytes → Value F) (policy : Prune) (map_path step_id : Bytes) where
  -- The body's last step has committed the score.
  abbrev pub Reads : FrontierCall F → Type 0
  Reads (registers i) = Unit
  Reads (reports d) =
      (nr : NodeResult) × (lookup_completed d.rs (item_step_path map_path d.scored.idx step_id)
        ≡ some nr)
      × (as_float fl (score_of fl marshal unmarshal policy nr) ≡ ok d.scored.points)

  unfoldable pub run_call : PruneRun F → FrontierCall F → PruneRun F
  run_call r (registers i) = register r i
  run_call r (reports d) =
      (report fl marshal unmarshal policy map_path step_id d.rs r d.scored.idx).0

  unfoldable pub run_calls : PruneRun F → List (FrontierCall F) → PruneRun F
  unfolding run_call
  run_calls r [] = r
  run_calls r (c ∷ calls) = run_calls (run_call r c) calls

module _ {F : Type 0} (fl : Floats F) where
  module _ (laws : FloatLaws fl) (k : ℕ) where
    module _ (marshal : Value F → Option Bytes) (unmarshal : Bytes → Value F) (field : Bytes) where
      decide-keep_best :
          (score : F) (scores : List (Scored F))
          → decide fl marshal (keep_best k field) score scores
            ≡ ok (record { prune_losers = losers_of fl laws k scores; stop_all = false })
      unfolding decide decide_keep losers_of bytes_eq
      decide-keep_best score scores = elim (Bool-cases (leb (length scores) k)) [
        | inl few ↦ rw few
        | inr many ↦ rw many
      ]

      report_score-kept :
          (xs : List (Scored F)) (s : Scored F) (raw : Value F) (r : PruneRun F)
          → Settled fl k xs r
          → All (λ (d : Scored F). s.idx ≢ d.idx) xs
          → as_float fl raw ≡ ok s.points
          → report_score fl marshal unmarshal (keep_best k field) r s.idx raw
            ≡ (record r { scores = xs ++ s ∷ []; pruned = discarded fl laws k xs s r.pruned }, none)
      unfolding report_score apply_decision discarded
      report_score-kept xs s raw r settled fresh reads =
          let new_scores : set_score fl s.idx s.points r.scores ≡ xs ++ s ∷ [] =
            rw settled.scores (set_score-append fl s.idx s.points xs fresh) in
          rw (reads, report_score)
            (rw (decide-keep_best s.points (set_score fl s.idx s.points r.scores), report_score)
              (rw new_scores))

      module _ (map_path step_id : Bytes) where
        register-Settled :
            (xs : List (Scored F)) (r : PruneRun F) (i : ℕ)
            → Settled fl k xs r
            → Settled fl k xs (register r i)
        unfolding register
        register-Settled xs r i settled = record {
          scores = settled.scores;
          running = settled.running;
          differ = settled.differ;
          losers = settled.losers;
          others = settled.others;
        }

        report-score :
            (r : PruneRun F) (d : DoneItem F) (nr : NodeResult)
            → lookup_completed d.rs (item_step_path map_path d.scored.idx step_id) ≡ some nr
            → report fl marshal unmarshal (keep_best k field) map_path step_id d.rs r d.scored.idx
              ≡ report_score fl marshal unmarshal
                  (keep_best k field)
                  (record r { completed = add d.scored.idx r.completed })
                  d.scored.idx
                  (score_of fl marshal unmarshal (keep_best k field) nr)
        unfolding report
        report-score r d nr committed = rw (committed, report)

        -- A report settles the frontier again, and has no error.
        report-Settled :
            (xs : List (Scored F)) (r : PruneRun F) (d : DoneItem F)
            → Settled fl k xs r
            → All (λ (e : Scored F). d.scored.idx ≢ e.idx) xs
            → Reads fl marshal unmarshal (keep_best k field) map_path step_id (reports d)
            → Settled fl k
                (xs ++ d.scored ∷ [])
                (run_call fl marshal unmarshal (keep_best k field) map_path step_id r (reports d))
        unfolding run_call
        report-Settled xs r d settled fresh (nr, committed, reads) =
            let marked : PruneRun F = record r { completed = add d.scored.idx r.completed } in
            let before : Settled fl k xs marked = record {
              scores = settled.scores;
              running = settled.running;
              differ = settled.differ;
              losers = settled.losers;
              others = settled.others;
            } in
            let kept =
              report-score r d nr committed
              ∙ report_score-kept xs d.scored (score_of fl marshal unmarshal (keep_best k field) nr)
                  marked before fresh reads in
            subst (Settled fl k (xs ++ d.scored ∷ [])) (sym (ap (λ p. p.0) kept)) (record {
              scores = refl;
              running = settled.running;
              differ = Distinct-append fl d.scored xs fresh settled.differ;
              losers = λ x h. discarded-losers fl laws k xs d.scored x marked before fresh h;
              others = λ i h. discarded-others fl laws k xs d.scored i marked before h;
            })

        run_calls-Settled :
            (calls : List (FrontierCall F)) (xs : List (Scored F)) (r : PruneRun F)
            → Settled fl k xs r
            → Distinct fl (xs ++ scores_of calls)
            → All (Reads fl marshal unmarshal (keep_best k field) map_path step_id) calls
            → Settled fl k
                (xs ++ scores_of calls)
                (run_calls fl marshal unmarshal (keep_best k field) map_path step_id r calls)
        unfolding run_calls scores_of
        run_calls-Settled [] xs r settled differ reads = rw (append-nil xs) settled
        run_calls-Settled (registers i ∷ calls) xs r settled differ reads =
            run_calls-Settled calls xs (register r i) (register-Settled xs r i settled) differ
              reads.1
        run_calls-Settled (reports d ∷ calls) xs r settled differ reads =
            let assoc : (xs ++ d.scored ∷ []) ++ scores_of calls
                ≡ xs ++ (d.scored ∷ scores_of calls) =
              append_assoc xs (d.scored ∷ []) (scores_of calls) in
            let next =
              report-Settled xs r d settled
                (Distinct-middle fl d.scored xs (scores_of calls) differ) reads.0 in
            rw (sym assoc) (
              run_calls-Settled calls (xs ++ d.scored ∷ [])
                (run_call fl marshal unmarshal (keep_best k field) map_path step_id r (reports d))
                next (rw assoc differ) reads.1)

        -- Under keep: k, and in whatever order the items of a map report their scores and register
        -- their cancels, the frontier ends with exactly those items discarded that k items or more
        -- beat, by a higher score or by a lower index among equal ones. No two items have one
        -- index, each has committed a numeric score, and no score is NaN.
        pub is_pruned-rank :
            (calls : List (FrontierCall F)) (x : Scored F)
            → Distinct fl (scores_of calls)
            → All (Reads fl marshal unmarshal (keep_best k field) map_path step_id) calls
            → Has fl x (scores_of calls)
            → is_pruned
                (run_calls fl marshal unmarshal
                  (keep_best k field)
                  map_path
                  step_id
                  new_prune_run
                  calls)
                x.idx
              ≡ leb k (rank fl x (scores_of calls))
        unfolding is_pruned
        is_pruned-rank calls x differ reads h =
            let end = run_calls-Settled calls [] new_prune_run (new-Settled fl k) differ reads in
            ground (arith, end.losers x h, end.running)
