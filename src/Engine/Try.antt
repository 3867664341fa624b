-- ===== src/Engine/Try.antt =====
-- engine/try.go: the do, catch and finally blocks of a try.
--
-- `run` is interpNode under the caller's context, `detached` is interpNode under the context
-- without its cancellation, and `cancelled` is ctx.Err() at the end.
pub mod Recovery
mod Examples
use awf.Prelude.{
  ℕ, Bytes, codes, Bool, true, false, not, ◌&&◌, List, [], ◌++◌, Option, none, some, String,
  if◌then◌else◌, Result, ok, err,
}
use awf.Engine.RunState.Outcomes.{outcome_ok, outcome_retryable_failure, is_typed_failure_outcome}
use awf.Engine.Walk.{
  World, Ended, Disk, Fault, Node, append, node_skipped, as_skip, internal, interp_nodes,
}
use awf.Engine.Gate.{is_empty_block}

pub record TryNode (R : Type 0) : Type 0 where
  pub do_block : List (Node R)
  pub catch_block : List (Node R)
  pub finally_block : List (Node R)

-- doErr != nil
unfoldable pub has_error : Ended → Bool
has_error e = elim e.error [ none ↦ false | some f ↦ true ]

-- errors.As on an error that may be nil.
unfoldable pub skip_reason : Option Fault → Option String
skip_reason none = none
skip_reason (some f) = as_skip f

-- What is to be returned once finally has run, and the error of an append that is pending.
pub record Propagated : Type 0 where
  pub ended : Ended
  pub pending : Option Fault

module _ {R : Type 0} (disk : Disk) (run detached : Node R → ℕ → Bytes → World → Ended)
    (cancelled : World → Option Fault) (t : TryNode R) (path : Bytes) where
  -- Catch runs on a typed failure of do.
  unfoldable pub catch_failure : Ended → Ended
  unfolding has_error
  catch_failure d =
      let caught = interp_nodes run t.catch_block (path ++ codes ".catch") d.world in
      if has_error d && is_typed_failure_outcome d.outcome && not (is_empty_block t.catch_block)
      then caught
      else d

  -- A skip passes catch by, and is noted in the log.
  unfoldable pub after_do : Ended → Propagated
  after_do d = elim (skip_reason d.error) [
    | none ↦ record { ended = catch_failure d; pending = none }
    | some reason ↦ elim (append disk d.world (node_skipped path reason)) [
      | err f ↦ record { ended = record d { outcome = some outcome_ok }; pending = some f }
      | ok w ↦ record { ended = record d { world = w; outcome = some outcome_ok }; pending = none }
    ]
  ]

  -- Behind a finally without an error.
  unfoldable pub conclude : Propagated → World → Ended
  conclude p w = elim p.pending [
    | some f ↦ internal f w
    | none ↦ elim (cancelled w) [
      | some f ↦ record { world = w; outcome = some outcome_retryable_failure; error = some f }
      | none ↦ record p.ended { world = w }
    ]
  ]

  unfoldable pub run_finally : Propagated → Ended
  run_finally p =
      let f = interp_nodes detached t.finally_block (path ++ codes ".finally") p.ended.world in
      let over = conclude p f.world in
      if is_empty_block t.finally_block
      then conclude p p.ended.world
      else elim f.error [ some g ↦ f | none ↦ over ]

  unfoldable pub run_try : World → Ended
  run_try w = run_finally (after_do (interp_nodes run t.do_block (path ++ codes ".do") w))
