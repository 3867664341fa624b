-- ===== src/Engine/Gate.antt =====
-- engine/gate.go: a gate runs its generate block, then its evaluate block, and its until
-- expression judges the attempt, until one passes or none is left.
--
-- `run` is interpNode, and `until` evaluates the gate's expression over the state and a verdict.
pub mod Attempts
pub mod Verdict
pub mod Accepted
mod Examples
use awf.Prelude.{
  ℕ, zero, suc, ◌+◌, ◌-◌, Bytes, codes, Bool, true, false, List, [], ◌∷◌, ◌++◌, Option, none, some,
  String, str_eq, length, last?, ltb, ◌==◌, ◌||◌, if◌then◌else◌, Result, ok, err,
}
use awf.Engine.Events.{Object}
use awf.Engine.Path.{attempt_path}
use awf.Engine.RunState.{
  RunState, NodeResult, AttemptResult, lookup_gate_attempts, lookup_completed, record_gate_attempt,
}
use awf.Engine.RunState.Outcomes.{outcome_ok, outcome_permanent_failure, outcome_rejected}
use awf.Engine.Walk.{
  World, Entry, Ended, Disk, Fault, Node, code_step, agent_step, signal_step, map_node, other_node,
  returned, internal, append, sync, fail_step, skip_to, as_skip, is_completed, path_for,
  interp_nodes, gate_attempted, invalid_gate, no_evaluator, not_completed, fell_through,
  gate_rejected, wrapped,
}

abbrev pub attempt_passed : String
attempt_passed = "attempt_passed"

abbrev pub attempt_rejected : String
attempt_rejected = "attempt_rejected"

-- Until is the parameter `until` below.
pub record GateNode (R : Type 0) : Type 0 where
  pub generate : List (Node R)
  pub evaluate : List (Node R)
  pub max_attempts : ℕ

unfoldable pub is_empty_block : {R : Type 0} → List (Node R) → Bool
is_empty_block [] = true
is_empty_block (n ∷ nodes) = false

-- The path of the last node of an evaluate block; `none` where its kind has no verdict.
unfoldable pub last_evaluator_path : {R : Type 0} → List (Node R) → Bytes → Option Bytes
last_evaluator_path nodes parent = elim (last? nodes) [
  | none ↦ none
  | some last ↦ elim last [
    | code_step id r ↦ some (path_for parent [] id (length nodes - 1))
    | agent_step id r ↦ some (path_for parent [] id (length nodes - 1))
    | signal_step id r ↦ some (path_for parent [] id (length nodes - 1))
    | map_node r ↦ some (path_for parent (codes "map") [] (length nodes - 1))
    | other_node r ↦ none
  ]
]

unfoldable pub passed_last : List AttemptResult → Bool
passed_last attempts = elim (last? attempts) [
  | none ↦ false
  | some a ↦ str_eq a.attempt_outcome attempt_passed
]

-- A round of the loop returns, or goes on to the next attempt.
pub data Round : Type 0 where
  stop : Ended → Round
  again : World → Round

module _ {R : Type 0} (disk : Disk) (run : Node R → ℕ → Bytes → World → Ended)
    (until : RunState → Bytes → Option Object → Result Fault Bool) (g : GateNode R)
    (gate_path : Bytes) where
  -- What a block that did not complete makes of the gate: a skip ends it as ok, and a failure is
  -- passed on.
  unfoldable pub block_end : Ended → Option Ended
  block_end e = elim e.error [
    | some f ↦ elim (as_skip f) [
      | some reason ↦ some (skip_to disk e.world gate_path reason)
      | none ↦ some e
    ]
    | none ↦ if is_completed e then none else some e
  ]

  -- Steps 6 and 7: the record in memory, and the end of the gate or the next attempt.
  unfoldable pub settle : ℕ → Bool → Option Object → World → Round
  settle n passed verdict w =
      let w' = record w {
        rs = record_gate_attempt w.rs gate_path (record {
          n = n;
          attempt_outcome = if passed then attempt_passed else attempt_rejected;
          verdict = verdict;
        });
      } in
      if passed
      then stop (returned outcome_ok w')
      else if n == g.max_attempts
      then stop
          (record { world = w'; outcome = some outcome_rejected; error = some (gate_rejected n) })
      else again w'

  abbrev pub attempt_entry : ℕ → Bool → NodeResult → Entry
  attempt_entry n passed nr = gate_attempted gate_path (record {
    n = n;
    attempt_outcome = if passed then attempt_passed else attempt_rejected;
    verdict_ref = nr.outputs_ref;
  })

  -- Step 5: the attempt on disk.
  unfoldable pub commit_attempt : ℕ → Bool → NodeResult → World → Round
  commit_attempt n passed nr w = elim (append disk w (attempt_entry n passed nr)) [
    | err f ↦ stop (internal (wrapped f) w)
    | ok w' ↦ elim (sync disk w') [
      | err f ↦ stop (internal (wrapped f) w')
      | ok w'' ↦ settle n passed nr.outputs w''
    ]
  ]

  -- Steps 3 and 4: the verdict and what until says of it.
  unfoldable pub judge : ℕ → World → Round
  judge n w =
      let attempt = attempt_path gate_path n in
      elim (last_evaluator_path g.evaluate (attempt ++ codes ".evaluate")) [
        | none ↦ stop (internal (wrapped no_evaluator) w)
        | some last_step ↦ elim (lookup_completed w.rs last_step) [
          | none ↦ stop (internal not_completed w)
          | some nr ↦ elim (until w.rs (attempt ++ codes ".until") nr.outputs) [
            | err f ↦ stop (fail_step disk w gate_path outcome_permanent_failure f)
            | ok passed ↦ commit_attempt n passed nr w
          ]
        ]
      ]

  unfoldable pub evaluate_attempt : ℕ → World → Round
  evaluate_attempt n w =
      let e = interp_nodes run g.evaluate (attempt_path gate_path n ++ codes ".evaluate") w in
      elim (block_end e) [ some ended ↦ stop ended | none ↦ judge n e.world ]

  unfoldable pub run_attempt : ℕ → World → Round
  run_attempt n w =
      let e = interp_nodes run g.generate (attempt_path gate_path n ++ codes ".generate") w in
      elim (block_end e) [ some ended ↦ stop ended | none ↦ evaluate_attempt n e.world ]

  -- The loop with `left` attempts to go, from attempt `n`.
  unfoldable pub gate_loop : ℕ → ℕ → World → Ended
  gate_loop zero n w = record {
    world = w;
    outcome = some outcome_rejected;
    error = some fell_through;
  }
  gate_loop (suc left) n w = elim (run_attempt n w) [
    | stop ended ↦ ended
    | again w' ↦ gate_loop left (n + 1) w'
  ]

  unfoldable pub run_gate : World → Ended
  run_gate w =
      let attempts = lookup_gate_attempts w.rs gate_path in
      let resumed = gate_loop (g.max_attempts - length attempts) (length attempts + 1) w in
      if is_empty_block g.generate || is_empty_block g.evaluate
      then internal invalid_gate w
      else if ltb g.max_attempts 1
      then internal invalid_gate w
      else if passed_last attempts
      then returned outcome_ok w
      else resumed
