-- ===== src/Engine/Gate/Accepted.antt =====
-- The ok of a gate (engine/gate.go).
use awf.Prelude.{
  ℕ, zero, suc, ◌+◌, ◌-◌, ◌≡◌, ◌⊎◌, refl, Bytes, codes, Bool, true, false, ◌||◌, List, [], ◌∷◌,
  ◌++◌, Option, none, some, String, str_eq, length, last?, last?-append, ltb, ◌==◌, arith, Result,
  Result-cases, Option-cases, Bool-cases, inl, inr,
}
use awf.Engine.Events.{Object}
use awf.Engine.Path.{attempt_path}
use awf.Engine.RunState.{
  RunState, NodeResult, AttemptResult, lookup_gate_attempts, lookup_completed,
}
use awf.Engine.RunState.Outcomes.{outcome_ok, outcome_permanent_failure}
use awf.Engine.Walk.{
  World, Ended, Disk, Fault, Node, Entry, node_skipped, append, sync, fail_step, skip_to, as_skip,
  is_completed, interp_nodes,
}
use awf.Engine.Gate.{
  GateNode, Round, stop, again, block_end, settle, commit_attempt, attempt_entry, judge,
  evaluate_attempt, run_attempt, gate_loop, run_gate, passed_last, attempt_passed,
  last_evaluator_path, is_empty_block,
}
use awf.Engine.Gate.Verdict.{Round-cases, lookup_gate_attempts-record}

-- The gate's last attempt passed, or a skip inside it ended it, which is the last entry.
abbrev pub Accepted : Bytes → World → Type 0
Accepted gate_path w =
    (passed_last (lookup_gate_attempts w.rs gate_path) ≡ true)
    ⊎ ((reason : String) × (last? w.log ≡ some (node_skipped gate_path reason)))

-- Where the pair is ok and nil, the gate was accepted.
abbrev OkMeans : Bytes → Ended → Type 0
OkMeans gate_path e = e.outcome ≡ some outcome_ok → e.error ≡ none → Accepted gate_path e.world

abbrev RoundMeans : Bytes → Round → Type 0
RoundMeans gate_path (stop e) = OkMeans gate_path e
RoundMeans gate_path (again w) = Unit

last_entry : (xs : List Entry) (e : Entry) → last? (xs ++ e ∷ []) ≡ some e
last_entry = last?-append

last_attempt : (xs : List AttemptResult) (a : AttemptResult) → last? (xs ++ a ∷ []) ≡ some a
last_attempt = last?-append

passed_last-append :
    (xs : List AttemptResult) (a : AttemptResult)
    → passed_last (xs ++ a ∷ []) ≡ str_eq a.attempt_outcome attempt_passed
unfolding passed_last
passed_last-append xs a = rw (last_attempt xs a, passed_last) refl

module _ (disk : Disk) (gate_path : Bytes) where
  skip_to-means :
      (w : World) (reason : String) → OkMeans gate_path (skip_to disk w gate_path reason)
  unfolding skip_to append
  skip_to-means w reason =
      let entry = node_skipped gate_path reason in
      elim (Option-cases (disk.append_fault w.log entry)) [
        | inl held ↦ rw (held, skip_to) (λ oc e. inr (reason, last_entry w.log entry))
        | inr (f, failed) ↦ rw (failed, skip_to) (λ oc e. absurd (cc e))
      ]

  fail_step-means :
      (w : World) (f : Fault)
      → OkMeans gate_path (fail_step disk w gate_path outcome_permanent_failure f)
  unfolding fail_step
  fail_step-means w f oc e = ground (arith, oc, e)

module _ {R : Type 0} (disk : Disk) (run : Node R → ℕ → Bytes → World → Ended)
    (until : RunState → Bytes → Option Object → Result Fault Bool) (g : GateNode R)
    (gate_path : Bytes) where
  settle-means :
      (n : ℕ) (passed : Bool) (v : Option Object) (w : World)
      → RoundMeans gate_path (settle disk run until g gate_path n passed v w)
  unfolding settle
  settle-means n true v w = λ _ _. inl (rw (lookup_gate_attempts-record, passed_last-append) refl)
  settle-means n false v w = elim (Bool-cases (n == g.max_attempts)) [
    | inl last ↦ rw last (λ oc e. absurd (cc e))
    | inr before ↦ rw before tt
  ]

  commit_attempt-means :
      (n : ℕ) (passed : Bool) (nr : NodeResult) (w : World)
      → RoundMeans gate_path (commit_attempt disk run until g gate_path n passed nr w)
  unfolding commit_attempt
  commit_attempt-means n passed nr w =
      elim (Result-cases (append disk w (attempt_entry disk run until g gate_path n passed nr))) [
        | inr (f, bad) ↦ rw (bad, commit_attempt) (λ oc e. absurd (cc e))
        | inl (w', good) ↦ elim (Result-cases (sync disk w')) [
          | inr (f, bad) ↦ rw (good, commit_attempt, bad) (λ oc e. absurd (cc e))
          | inl (w'', kept) ↦ rw (good, commit_attempt, kept) (settle-means n passed nr.outputs w'')
        ]
      ]

  judge-means : (n : ℕ) (w : World) → RoundMeans gate_path (judge disk run until g gate_path n w)
  unfolding judge
  judge-means n w =
      let attempt = attempt_path gate_path n in
      elim (Option-cases (last_evaluator_path g.evaluate (attempt ++ codes ".evaluate"))) [
        | inl bad ↦ rw (bad, judge) (λ oc e. absurd (cc e))
        | inr (last_step, there) ↦ elim (Option-cases (lookup_completed w.rs last_step)) [
          | inl bad ↦ rw (there, judge, bad) (λ oc e. absurd (cc e))
          | inr (nr, found) ↦
              elim (Result-cases (until w.rs (attempt ++ codes ".until") nr.outputs)) [
                | inr (f, bad) ↦ rw (there, judge, found, bad) (fail_step-means disk gate_path w f)
                | inl (passed, good) ↦
                    rw (there, judge, found, good) (commit_attempt-means n passed nr w)
              ]
        ]
      ]

  block_end-means :
      (e ended : Ended)
      → block_end disk run until g gate_path e ≡ some ended
      → OkMeans gate_path ended
  unfolding block_end is_completed
  block_end-means e ended h oc raised = elim (Option-cases e.error) [
    | inl quiet ↦ ground (arith, rw (quiet, block_end) at h, oc, raised)
    | inr (f, there) ↦ elim (Option-cases (as_skip f)) [
      | inl failed ↦ ground (arith, rw (there, block_end, failed) at h, there, raised)
      | inr (reason, skipped) ↦
          let same : skip_to disk e.world gate_path reason ≡ ended =
            cc (rw (there, block_end, skipped) at h) in
          let means = skip_to-means disk gate_path e.world reason in (rw same at means) oc raised
    ]
  ]

  evaluate_attempt-means :
      (n : ℕ) (w : World) → RoundMeans gate_path (evaluate_attempt disk run until g gate_path n w)
  unfolding evaluate_attempt
  evaluate_attempt-means n w =
      let e = interp_nodes run g.evaluate (attempt_path gate_path n ++ codes ".evaluate") w in
      elim (Option-cases (block_end disk run until g gate_path e)) [
        | inl on ↦ rw (on, evaluate_attempt) (judge-means n e.world)
        | inr (ended, halted) ↦ rw (halted, evaluate_attempt) (block_end-means e ended halted)
      ]

  run_attempt-means :
      (n : ℕ) (w : World) → RoundMeans gate_path (run_attempt disk run until g gate_path n w)
  unfolding run_attempt
  run_attempt-means n w =
      let e = interp_nodes run g.generate (attempt_path gate_path n ++ codes ".generate") w in
      elim (Option-cases (block_end disk run until g gate_path e)) [
        | inl on ↦ rw (on, run_attempt) (evaluate_attempt-means n e.world)
        | inr (ended, halted) ↦ rw (halted, run_attempt) (block_end-means e ended halted)
      ]

  gate_loop-means :
      (left n : ℕ) (w : World) → OkMeans gate_path (gate_loop disk run until g gate_path left n w)
  unfolding gate_loop
  gate_loop-means zero n w = λ oc e. absurd (cc e)
  gate_loop-means (suc left) n w =
      let round = run_attempt-means n w in
      elim (Round-cases (run_attempt disk run until g gate_path n w)) [
        | inl (e, over) ↦ rw (over, gate_loop) (rw over at round)
        | inr (w', on) ↦ rw (on, gate_loop) (gate_loop-means left (n + 1) w')
      ]

  -- If a gate ends with ok and no error, then its last attempt passed, or a skip inside it ended
  -- it and is the last entry of the log.
  pub run_gate-Accepted :
      (w : World)
      → (run_gate disk run until g gate_path w).outcome ≡ some outcome_ok
      → (run_gate disk run until g gate_path w).error ≡ none
      → Accepted gate_path (run_gate disk run until g gate_path w).world
  unfolding run_gate
  run_gate-Accepted w = elim (Bool-cases (is_empty_block g.generate || is_empty_block g.evaluate)) [
    | inl empty ↦ rw empty (λ oc e. absurd (cc e))
    | inr full ↦ elim (Bool-cases (ltb g.max_attempts 1)) [
      | inl bad ↦ rw (full, bad) (λ oc e. absurd (cc e))
      | inr good ↦ elim (Bool-cases (passed_last (lookup_gate_attempts w.rs gate_path))) [
        | inl over ↦ rw (full, good, over) (λ oc e. inl over)
        | inr pending ↦
            rw (full, good, pending)
              (gate_loop-means (g.max_attempts - length (lookup_gate_attempts w.rs gate_path))
                (length (lookup_gate_attempts w.rs gate_path) + 1) w)
      ]
    ]
  ]
