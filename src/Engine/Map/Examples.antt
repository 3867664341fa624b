-- ===== src/Engine/Map/Examples.antt =====
-- Items of a map that pass, fail and are pruned (engine/map.go).
use awf.Prelude.{
  ℕ, ◌*◌, ◌≡◌, refl, Bytes, codes, false, List, [], ◌∷◌, ◌++◌, Option, none, some, String, ok, ◌==◌,
  arith,
}
use awf.Prelude.Int.{pos}
use awf.Prelude.Map.{get_or, insert, lookup}
use awf.Engine.Events.{MapItemData}
use awf.Engine.Map.{
  item_passed, item_failed, item_pruned, FloatProducts, ratio_threshold, Frontier, ran, bound_cause,
  settle_frontier, fresh_items, final_statuses, final_status, commit_map_frontier, update_statuses,
  ended_status, outcome_text, item_status, update_map_item_status, commit_map_item, end_item,
}
use awf.Engine.Map.Items.{Records, OnDisk, end_item-Stands}
use awf.Engine.Map.Ends.{Settles}
use awf.Engine.Map.Tally.{RatioLaws, Threshold, ratio_threshold-Threshold}
use awf.Engine.RunState.{zero_state}
use awf.Engine.RunState.Outcomes.{outcome_retryable_failure, is_typed_failure_outcome}
use awf.Engine.Try.{skip_reason}
use awf.Engine.Walk.{
  World, Ended, Disk, Fault, agent_event, cause, as_skip, item_committed, append, sync,
}
use awf.Template.Examples.{naturals}

abbrev whole : FloatProducts ℕ
whole = record { mul = λ f x. f * x; trunc = λ x. pos x }

whole-RatioLaws : RatioLaws naturals whole
whole-RatioLaws = record {
  mul_le = λ f n small h. grind arith;
  trunc_le = λ x n small h. ground arith;
  trunc_lt = λ x n small h above. ground arith;
}

ratio_threshold-Threshold_example :
    Threshold naturals whole 3 (ratio_threshold naturals whole (some (codes "2")) 3)
ratio_threshold-Threshold_example =
    ratio_threshold-Threshold naturals whole whole-RatioLaws (some (codes "2")) 3 (omega arith)

abbrev disk : Disk
disk = record { append_fault = λ log e. none; sync_fault = λ log. none }

-- Another node writes one event between two calls.
abbrev others : World → World
others w = record w { log = w.log ++ agent_event (codes "draft") 1 ∷ [] }

abbrev text : Fault → Bytes
text f = codes "boom"

abbrev fresh : World
fresh = record { rs = zero_state; log = []; synced = 0 }

-- Both items passed, and the frontier discarded the second.
abbrev frontier : Option Frontier
frontier = some (record { is_pruned = λ i. i == 1; is_committed = λ i. false; causes = λ i. [] })

-- No item ended in an error.
abbrev no_error : Option Fault
no_error = none

abbrev statuses : List String
statuses = item_passed ∷ item_passed ∷ []

-- The frontier settles, so the right side holds as well as the left one.
settles :
    Settles naturals whole text disk others
      (codes "map[0]")
      frontier
      statuses
      fresh
      (item_passed ∷ item_pruned ∷ [])
unfolding settle_frontier fresh_items final_statuses final_status commit_map_frontier
    update_statuses append sync update_map_item_status insert get_or lookup
settles = (_, refl)

abbrev body_failed : Ended
body_failed = record {
  world = fresh;
  outcome = some outcome_retryable_failure;
  error = some (cause 7);
}

abbrev failed_item : MapItemData
failed_item = record {
  n = 4;
  status = item_failed;
  image_digest = "";
  reason = "";
  outcome = "retryable_failure";
  cause = codes "boom";
}

abbrev committed : World
unfolding update_map_item_status insert get_or lookup
committed = record {
  rs = update_map_item_status zero_state (codes "map[0]") 4 item_failed;
  log =
      agent_event (codes "draft") 1
      ∷ item_committed (codes "map[0]") failed_item
      ∷ agent_event (codes "draft") 1
      ∷ [];
  synced = 3;
}

commits : end_item text disk others (codes "map[0]") 4 (ran "" body_failed) ≡ ok committed
unfolding end_item item_status ended_status outcome_text is_typed_failure_outcome skip_reason
    as_skip commit_map_item append sync update_map_item_status insert get_or lookup committed
    bound_cause
commits = refl

end_item-Stands_example :
    (d : MapItemData) × OnDisk text disk others (codes "map[0]") d committed
    × (d.n ≡ 4)
    × Records text (ran "" body_failed) d
end_item-Stands_example =
    end_item-Stands text disk others (codes "map[0]") (λ w. (_, refl)) 4 (ran "" body_failed)
      committed commits
