-- ===== src/Engine/Try/Examples.antt =====
-- A try whose step fails and whose catch succeeds (engine/try.go).
use awf.Prelude.{ℕ, refl, Bytes, codes, [], ◌∷◌, none, some}
use awf.Engine.RunState.{zero_state}
use awf.Engine.RunState.Outcomes.{outcome_ok, outcome_permanent_failure, is_typed_failure_outcome}
use awf.Engine.Walk.{
  World, Ended, Disk, cause, Node, code_step, other_node, returned, interp_nodes, interp_from,
  is_completed, as_skip,
}
use awf.Engine.Gate.{is_empty_block}
use awf.Engine.Try.{
  TryNode, run_try, run_finally, after_do, catch_failure, conclude, has_error, skip_reason,
}
use awf.Engine.Try.Recovery.{Recovered, done, run_try-Recovered}

abbrev sound_disk : Disk
sound_disk = record { append_fault = λ _ _. none; sync_fault = λ _. none }

-- Steps succeed, and every other node fails for good.
abbrev steps : Node (Unit {0}) → ℕ → Bytes → World → Ended
steps (other_node r) i parent w = record {
  world = w;
  outcome = some outcome_permanent_failure;
  error = some (cause 1);
}
steps node i parent w = returned outcome_ok w

abbrev guarded : TryNode (Unit {0})
guarded = record {
  do_block = other_node tt ∷ [];
  catch_block = code_step (codes "repair") tt ∷ [];
  finally_block = [];
}

abbrev fresh : World
fresh = record { rs = zero_state; log = []; synced = 0 }

run_try-Recovered_example :
    Recovered sound_disk steps steps
      (λ _. none)
      guarded
      (codes "try[0]")
      (done sound_disk steps steps (λ _. none) guarded (codes "try[0]") fresh)
unfolding run_try run_finally after_do catch_failure conclude has_error skip_reason interp_nodes
    interp_from is_completed as_skip is_empty_block is_typed_failure_outcome
run_try-Recovered_example =
    run_try-Recovered sound_disk steps steps (λ _. none) guarded (codes "try[0]") fresh refl
