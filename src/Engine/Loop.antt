-- ===== src/Engine/Loop.antt =====
-- engine/interpreter.go, runLoop: the iterations of a loop node.
mod Rounds
pub mod Iterations
mod Examples
use awf.Prelude.{
  ℕ, zero, suc, ◌+◌, Bytes, codes, Bool, true, false, List, ◌++◌, Option, none, some, if◌then◌else◌,
  Result, ok, err,
}
use awf.Prelude.Int.{ℤ, pos, leb_ℤ}
use awf.Engine.Condition.{Conditions, test}
use awf.Engine.Path.{iter_path}
use awf.Engine.RunState.{RunState, lookup_loop_iters, record_loop_iter}
use awf.Engine.RunState.Outcomes.{outcome_ok, outcome_permanent_failure}
use awf.Engine.Try.{skip_reason}
use awf.Engine.Walk.{
  World, Ended, Disk, Fault, unbounded_loop, wrapped, Node, node_skipped, loop_iterated, append,
  fail_step, returned, internal, is_completed, interp_nodes,
}

pub record LoopNode (R : Type 0) : Type 0 where
  pub until : Option Bytes
  pub max_iters : Option ℤ
  pub body : List (Node R)

module _ {F R : Type 0} (disk : Disk) (run : Node R → ℕ → Bytes → World → Ended) (c : Conditions F)
    (n : LoopNode R) (path : Bytes) where
  -- `*n.MaxIters` against the iteration.
  unfoldable pub reaches_max : ℕ → Bool
  reaches_max k = elim n.max_iters [ none ↦ false | some m ↦ leb_ℤ m (pos k) ]

  -- Step 4: the loop returns, or goes on.
  unfoldable pub check_max : ℕ → World → Result Ended World
  unfolding reaches_max
  check_max k w = if reaches_max k then err (returned outcome_ok w) else ok w

  -- Step 3.
  unfoldable pub check_until : ℕ → Bytes → World → Result Ended World
  unfolding check_max
  check_until k body_parent w = elim n.until [
    | none ↦ check_max k w
    | some src ↦ elim (test c w.rs body_parent src) [
      | err f ↦ err (fail_step disk w path outcome_permanent_failure f)
      | ok b ↦ if b then err (returned outcome_ok w) else check_max k w
    ]
  ]

  -- Step 2: the iteration on the log and in memory.
  unfoldable pub record_iter : ℕ → World → Result Ended World
  record_iter k w = elim (append disk w (loop_iterated path k)) [
    | err f ↦ err (internal (wrapped f) w)
    | ok w' ↦ ok (record w' { rs = record_loop_iter w'.rs path k })
  ]

  -- What the body made of the iteration: a skip ends the iteration, and a failure the loop.
  unfoldable pub after_body : Bytes → Ended → Result Ended World
  after_body body_parent e = elim (skip_reason e.error) [
    | some reason ↦ elim (append disk e.world (node_skipped body_parent reason)) [
      | err f ↦ err (internal f e.world)
      | ok w ↦ ok w
    ]
    | none ↦ if is_completed e then ok e.world else err e
  ]

  -- Iteration `k`: the loop's return, or the world for the next one.
  unfoldable pub run_iter : ℕ → World → Result Ended World
  run_iter k w =
      let body_parent = iter_path (path ++ codes ".body") k in
      elim (after_body body_parent (interp_nodes run n.body body_parent w)) [
        | err e ↦ err e
        | ok w' ↦ elim (record_iter k w') [ err e ↦ err e | ok w'' ↦ check_until k body_parent w'' ]
      ]

  -- From iteration `k`. The source has no fuel: `none` is a loop that has not returned yet.
  unfoldable pub loop_from : ℕ → ℕ → World → Option Ended
  loop_from zero k w = none
  loop_from (suc fuel) k w = elim (run_iter k w) [
    | err e ↦ some e
    | ok w' ↦ loop_from fuel (k + 1) w'
  ]

  -- n.Until == nil && n.MaxIters == nil
  unfoldable pub is_unbounded : Bool
  is_unbounded = elim n.until [
    | some src ↦ false
    | none ↦ elim n.max_iters [ some m ↦ false | none ↦ true ]
  ]

  unfoldable pub run_loop : ℕ → World → Option Ended
  unfolding loop_from
  run_loop fuel w =
      if is_unbounded
      then some (internal unbounded_loop w)
      else loop_from fuel (lookup_loop_iters w.rs path + 1) w
