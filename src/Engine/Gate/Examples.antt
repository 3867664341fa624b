-- ===== src/Engine/Gate/Examples.antt =====
-- A gate of one step, a nested gate and one evaluator, whose first attempt passes (engine/gate.go).
use awf.Prelude.{
  ℕ, ◌≤◌, ◌≡◌, false, ◌++◌, refl, Bytes, codes, Bool, true, [], ◌∷◌, Option, none, some, length,
  arith, Result, ok, bytes_eq,
}
use awf.Prelude.Int.{pos}
use awf.Prelude.Decimal.{itoa, digits}
use awf.Prelude.Map.{lookup, insert, get_or, lookup-insert}
use awf.Engine.Events.{Object}
use awf.Engine.Path.{attempt_path}
use awf.Engine.RunState.{
  RunState, NodeResult, AttemptResult, zero_state, record_completed, lookup_completed,
  lookup_gate_attempts, record_gate_attempt,
}
use awf.Engine.RunState.Outcomes.{outcome_ok}
use awf.Engine.Walk.{
  World, Ended, Disk, Fault, Node, code_step, other_node, returned, interp_nodes, interp_from,
  path_for, is_completed, append, sync,
}
use awf.Engine.Gate.{
  attempt_passed, GateNode, run_gate, gate_loop, run_attempt, evaluate_attempt, judge,
  commit_attempt, settle, block_end, is_empty_block, last_evaluator_path, passed_last,
}
use awf.Engine.Gate.Attempts.{Settled}
use awf.Engine.Gate.Verdict.{LeavesAttempts, run_gate-Settled}
use awf.Engine.Gate.Accepted.{Accepted, run_gate-Accepted}

abbrev done : NodeResult
done = record {
  outcome = outcome_ok;
  exit_code = some (pos 0);
  outputs = some [];
  outputs_ref = codes "v";
  stdout = none;
  stdout_ref = [];
  files = [];
  transcript = none;
  node_key = "";
  node_subtree_digest = "";
}

-- Every step commits at once, and a nested gate records an attempt at its own address.
abbrev commits : Node (Unit {0}) → ℕ → Bytes → World → Ended
commits (code_step id r) i parent w =
    returned outcome_ok (record w { rs = record_completed w.rs (path_for parent [] id i) done })
commits node i parent w = returned outcome_ok (record w {
  rs =
      record_gate_attempt w.rs (path_for parent (codes "gate") [] i)
        (record { n = 1; attempt_outcome = attempt_passed; verdict = none });
})

abbrev passes : RunState → Bytes → Option Object → Result Fault Bool
passes rs path verdict = ok true

abbrev sound_disk : Disk
sound_disk = record { append_fault = λ _ _. none; sync_fault = λ _. none }

abbrev gate : GateNode (Unit {0})
gate = record {
  generate = code_step (codes "draft") tt ∷ other_node tt ∷ [];
  evaluate = code_step (codes "review") tt ∷ [];
  max_attempts = 2;
}

abbrev fresh : World
fresh = record { rs = zero_state; log = []; synced = 0 }

-- A path that is longer than the gate's is another one.
lookup_gate_attempts-nested :
    (rs : RunState) (path : Bytes) (a : AttemptResult)
    → bytes_eq path (codes "gate[0]") ≡ false
    → lookup_gate_attempts (record_gate_attempt rs path a) (codes "gate[0]")
      ≡ lookup_gate_attempts rs (codes "gate[0]")
unfolding lookup_gate_attempts record_gate_attempt get_or
lookup_gate_attempts-nested rs path a differ = ground (
  arith,
  differ,
  lookup-insert path (codes "gate[0]") (get_or path [] rs.gate_attempts ++ a ∷ []) rs.gate_attempts,
)

commits-LeavesAttempts : LeavesAttempts sound_disk commits passes gate (codes "gate[0]")
unfolding lookup_gate_attempts record_completed attempt_path path_for bytes_eq
commits-LeavesAttempts n =
    ((λ w. refl, (λ w. lookup_gate_attempts-nested w.rs _ _ refl, tt)), (λ w. refl, tt))

abbrev gated : World
gated = (run_gate sound_disk commits passes gate (codes "gate[0]") fresh).world

run_gate-Settled_example :
    Settled 1 (lookup_gate_attempts gated.rs (codes "gate[0]"))
    × (length (lookup_gate_attempts gated.rs (codes "gate[0]")) ≤ 2)
unfolding lookup_gate_attempts get_or lookup
run_gate-Settled_example =
    run_gate-Settled sound_disk commits passes gate (codes "gate[0]") commits-LeavesAttempts fresh
      tt (omega arith)

run_gate-Accepted_example : Accepted (codes "gate[0]") gated
unfolding run_gate is_empty_block passed_last lookup_gate_attempts get_or lookup gate_loop
    run_attempt block_end interp_nodes interp_from evaluate_attempt judge last_evaluator_path
    lookup_completed record_completed insert bytes_eq commit_attempt settle attempt_path
    record_gate_attempt append is_completed path_for sync itoa digits
run_gate-Accepted_example =
    run_gate-Accepted sound_disk commits passes gate (codes "gate[0]") fresh refl refl
