-- ===== src/Engine/Branch.antt =====
-- engine/interpreter.go, runIf: the branch of an if node, which the log remembers.
pub mod Decided
mod Examples
use awf.Prelude.{
  ℕ, Bytes, codes, Bool, true, false, List, ◌++◌, Option, none, some, String, str_eq, if◌then◌else◌,
  Result, ok, err,
}
use awf.Engine.Condition.{Conditions, test}
use awf.Engine.Gate.{is_empty_block}
use awf.Engine.RunState.{RunState, lookup_branch, record_branch}
use awf.Engine.RunState.Outcomes.{outcome_ok, outcome_permanent_failure}
use awf.Engine.Walk.{
  World, Ended, Disk, Fault, unknown_branch, wrapped, Node, branch_taken, append, fail_step,
  returned, internal, interp_nodes,
}

pub record IfNode (R : Type 0) : Type 0 where
  pub cond : Bytes
  pub then_block : List (Node R)
  pub else_block : List (Node R)

module _ {R : Type 0} (disk : Disk) (run : Node R → ℕ → Bytes → World → Ended) (n : IfNode R)
    (path : Bytes) where
  -- The new decision: an event, and the record in memory.
  unfoldable pub record_decision : Bool → World → Result Ended (String × World)
  record_decision c w =
      let which = if c then "then" else "else" in
      elim (append disk w (branch_taken path which)) [
        | err f ↦ err (internal (wrapped f) w)
        | ok w' ↦ ok (which, record w' { rs = record_branch w'.rs path which })
      ]

  -- The branch to take: the recorded one, or that of the condition.
  unfoldable pub choose : {F : Type 0} → Conditions F → World → Result Ended (String × World)
  unfolding record_decision
  choose c w = elim (lookup_branch w.rs path) [
    | some which ↦ ok (which, w)
    | none ↦ elim (test c w.rs path n.cond) [
      | err f ↦ err (fail_step disk w path outcome_permanent_failure f)
      | ok b ↦ record_decision b w
    ]
  ]

  unfoldable pub take_branch : String → World → Ended
  take_branch which w =
      if str_eq which "then"
      then interp_nodes run n.then_block (path ++ codes ".then") w
      else if str_eq which "else"
      then (if is_empty_block n.else_block
          then returned outcome_ok w
          else interp_nodes run n.else_block (path ++ codes ".else") w)
      else internal (unknown_branch which) w

  unfoldable pub run_if : {F : Type 0} → Conditions F → World → Ended
  unfolding choose
  run_if c w = elim (choose c w) [ err e ↦ e | ok (which, w') ↦ take_branch which w' ]
