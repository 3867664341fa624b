-- ===== src/Engine/Branch/Examples.antt =====
-- An if node on the condition n < 9 (engine/interpreter.go).
use awf.Prelude.{ℕ, ◌≡◌, refl, Bytes, codes, true, [], ◌∷◌, none, ok}
use awf.Prelude.Map.{lookup, insert}
use awf.Engine.Branch.{IfNode, choose, run_if, take_branch}
use awf.Engine.Branch.Decided.{run_if-OnRecord}
use awf.Engine.Condition.{Conditions, test}
use awf.Engine.RunState.{zero_state, lookup_branch, record_branch}
use awf.Engine.RunState.Outcomes.{outcome_ok}
use awf.Engine.Walk.{World, Ended, Disk, Node, other_node, returned, branch_taken, append}
use awf.Template.Examples.{condition_small, naturals, marshal, scope}

abbrev disk : Disk
disk = record { append_fault = λ log e. none; sync_fault = λ log. none }

abbrev conditions : Conditions ℕ
conditions = record { floats = naturals; marshal = marshal; scope = λ rs path. scope }

-- Without spaces or an envelope.
abbrev small : IfNode ℕ
small = record { cond = codes "{{ n<9 }}"; then_block = other_node 0 ∷ []; else_block = [] }

abbrev quiet : Node ℕ → ℕ → Bytes → World → Ended
quiet node i parent w = returned outcome_ok w

abbrev fresh : World
fresh = record { rs = zero_state; log = []; synced = 0 }

abbrev decided : World
unfolding record_branch insert
decided = record {
  rs = record_branch zero_state (codes "if[0]") "then";
  log = branch_taken (codes "if[0]") "then" ∷ [];
  synced = 0;
}

condition_holds : test conditions zero_state (codes "if[0]") (codes "{{ n<9 }}") ≡ ok true
unfolding test
condition_holds = rw (condition_small, test)

chooses_then : choose disk quiet small (codes "if[0]") conditions fresh ≡ ok ("then", decided)
unfolding choose decided lookup_branch lookup append
chooses_then = rw (condition_holds, choose)

run_if-OnRecord_example :
    (run_if disk quiet small (codes "if[0]") conditions fresh
      ≡ take_branch disk quiet small (codes "if[0]") "then" decided)
    × (run_if disk quiet small (codes "if[0]") conditions decided
        ≡ take_branch disk quiet small (codes "if[0]") "then" decided)
run_if-OnRecord_example =
    run_if-OnRecord disk quiet small (codes "if[0]") conditions conditions fresh decided decided
      "then" chooses_then refl
