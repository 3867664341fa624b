-- ===== src/Engine/Loop/Examples.antt =====
-- A loop of at most two iterations over a body that does nothing (engine/interpreter.go).
use awf.Prelude.{ℕ, suc, ◌≡◌, refl, Bytes, codes, bytes_eq, [], ◌∷◌, none, some, arith}
use awf.Prelude.Int.{pos}
use awf.Prelude.Map.{lookup, insert, get_or}
use awf.Engine.Condition.{Conditions}
use awf.Engine.Loop.{
  is_unbounded, LoopNode, run_loop, run_iter, after_body, record_iter, check_until,
}
use awf.Engine.Loop.Iterations.{run_loop-ends, run_loop-Counted, Counted}
use awf.Engine.RunState.{zero_state, lookup_loop_iters, record_loop_iter}
use awf.Engine.RunState.Outcomes.{outcome_ok}
use awf.Engine.Try.{skip_reason}
use awf.Engine.Walk.{
  World, Ended, Disk, Node, other_node, returned, loop_iterated, is_completed, interp_nodes,
  interp_from, append,
}
use awf.Template.Examples.{naturals, marshal, scope}

abbrev disk : Disk
disk = record { append_fault = λ log e. none; sync_fault = λ log. none }

abbrev conditions : Conditions ℕ
conditions = record { floats = naturals; marshal = marshal; scope = λ rs path. scope }

abbrev twice : LoopNode ℕ
twice = record { until = none; max_iters = some (pos 2); body = other_node 0 ∷ [] }

abbrev quiet : Node ℕ → ℕ → Bytes → World → Ended
quiet node i parent w = returned outcome_ok w

abbrev fresh : World
fresh = record { rs = zero_state; log = []; synced = 0 }

-- Both iterations are on record.
abbrev resumed : World
unfolding record_loop_iter insert
resumed = record { rs = record_loop_iter zero_state (codes "loop[0]") 2; log = []; synced = 0 }

-- A third iteration on record.
abbrev third : Ended
unfolding record_loop_iter insert
third = returned outcome_ok (record {
  rs = record_loop_iter resumed.rs (codes "loop[0]") 3;
  log = loop_iterated (codes "loop[0]") 3 ∷ [];
  synced = 0;
})

-- A resume runs the body once more.
run_loop_again : run_loop disk quiet conditions twice (codes "loop[0]") 1 resumed ≡ some third
unfolding run_loop run_iter after_body skip_reason record_iter append check_until interp_nodes
    is_completed lookup_loop_iters get_or lookup record_loop_iter insert bytes_eq is_unbounded
    interp_from
run_loop_again = refl

run_loop-Counted_example :
    Counted disk quiet conditions twice
      (codes "loop[0]")
      (pos 2)
      (suc (lookup_loop_iters resumed.rs (codes "loop[0]")))
      (lookup_loop_iters third.world.rs (codes "loop[0]"))
unfolding is_completed third
run_loop-Counted_example =
    run_loop-Counted disk quiet conditions twice (codes "loop[0]") (pos 2) 1 resumed third refl
      run_loop_again refl

run_loop-ends_example :
    (e : Ended) × (run_loop disk quiet conditions twice (codes "loop[0]") 2 fresh ≡ some e)
unfolding lookup_loop_iters get_or lookup
run_loop-ends_example =
    run_loop-ends disk quiet conditions twice (codes "loop[0]") (pos 2) 2 fresh refl (omega arith)
      (omega arith)
