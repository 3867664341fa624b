-- ===== src/Engine/Map.antt =====
-- engine/map.go: what a map does with its items once their bodies have run, and on a resume.
--
-- What comes before an item's body (its image, its container, the semaphore) and the body itself
-- are parameters, and so is the fan-in of a reduce clause.
pub mod Tally
pub mod Items
pub mod Ends
mod Examples
use awf.Prelude.{
  ℕ, zero, suc, ◌+◌, ◌-◌, Bytes, Bool, true, false, not, ◌&&◌, ◌||◌, List, [], ◌∷◌, ◌++◌, Option,
  none, some, String, str_eq, Result, ok, err, ltb, leb, ◌==◌, if◌then◌else◌, length, take,
}
use awf.Prelude.Int.{ℤ, pos, negsuc, ltb_ℤ}
use awf.Engine.Events.{MapItemData}
use awf.Engine.Path.{item_path}
use awf.Engine.RunState.{RunState, MapItemRecord, lookup_map_items, update_map_item_value}
use awf.Engine.RunState.Outcomes.{
  Outcome, outcome_ok, outcome_retryable_failure, outcome_permanent_failure, outcome_rejected,
  outcome_string, is_typed_failure_outcome,
}
use awf.Engine.Try.{skip_reason}
use awf.Engine.Walk.{
  World, Ended, Disk, Fault, wrapped, render_image, create_config, map_failed, fail_step, internal,
  inconsistent_result, node_skipped, item_committed, frontier_committed, append, sync, returned,
}
use awf.Prelude.Map.{get_or, insert}
use awf.Signal.Paths.{atoi}
use awf.Template.Value.{Floats}

abbrev pub item_passed : String
item_passed = "item_passed"

abbrev pub item_failed : String
item_failed = "item_failed"

abbrev pub item_pruned : String
item_pruned = "item_pruned"

abbrev pub reason_image_unavailable : String
reason_image_unavailable = "image_unavailable"

-- The loop of tallyResults and that of countPruned, for one status.
unfoldable pub count_status : String → List String → ℕ
count_status status [] = 0
count_status status (s ∷ statuses) =
    if str_eq s status then suc (count_status status statuses) else count_status status statuses

unfoldable pub tally_results : List String → ℕ × ℕ
unfolding count_status
tally_results statuses = (count_status item_passed statuses, count_status item_failed statuses)

unfoldable pub count_pruned : List String → ℕ
unfolding count_status
count_pruned statuses = count_status item_pruned statuses

-- needed++
unfoldable pub increment : ℤ → ℤ
increment (pos n) = pos (suc n)
increment (negsuc zero) = pos 0
increment (negsuc (suc n)) = negsuc n

-- What ratioThreshold does with floats beside comparing them: a product, and int64(x).
pub record FloatProducts (F : Type 0) : Type 0 where
  pub mul : F → F → F
  pub trunc : F → ℤ

-- if needed < 1 { needed = 1 }
unfoldable pub at_least_one : ℤ → ℤ
at_least_one n = if ltb_ℤ n (pos 1) then pos 1 else n

module _ {F : Type 0} (fl : Floats F) (fp : FloatProducts F) where
  -- The least number of items that is no less than the fraction of the total.
  unfoldable pub fraction_threshold : F → ℕ → ℤ
  fraction_threshold f total =
      let exact = fp.mul f (fl.of_int (pos total)) in
      let needed = fp.trunc exact in
      let ceiling : ℤ =
        (if fl.float_lt (fl.of_int needed) exact then increment needed else needed) in
      at_least_one ceiling

  -- A Ratio is the text of a number; `none` is no ratio.
  unfoldable pub ratio_threshold : Option Bytes → ℕ → ℤ
  unfolding fraction_threshold
  ratio_threshold none total = pos total
  ratio_threshold (some raw) total = elim (atoi raw) [
    | some i ↦ if ltb_ℤ i (pos 0) || ltb_ℤ (pos total) i then pos total else i
    | none ↦ elim (fl.parse_float raw) [
      | none ↦ pos total
      | some f ↦
          if fl.float_le f (fl.of_int (pos 0)) || fl.float_lt (fl.of_int (pos 1)) f
          then pos total
          else fraction_threshold f total
    ]
  ]

  -- The test of the gate of step 5; the guard on a reduce clause is in map_verdict.
  unfoldable pub map_succeeds : Option Bytes → List String → Bool
  unfolding tally_results count_pruned
  map_succeeds min_success statuses =
      let needed = ratio_threshold min_success (length statuses - count_pruned statuses) in
      not (ltb_ℤ (pos (tally_results statuses).0) needed)

  -- Steps 5 and 6; `fan_in` is runMapReduce at the cohort, where the map has a reduce clause.
  unfoldable pub map_verdict :
      Option (ℕ → World → Ended) → Option Bytes → List String → World → Ended
  unfolding map_succeeds
  map_verdict fan_in min_success statuses w = elim fan_in [
    | some reduce ↦ reduce (length statuses - count_pruned statuses) w
    | none ↦
        if map_succeeds min_success statuses
        then returned outcome_ok w
        else record { world = w; outcome = some outcome_retryable_failure; error = some map_failed }
  ]

-- shouldRerunItem
unfoldable pub should_rerun_item : Bool → Bool → MapItemRecord → Bool
should_rerun_item has_prune resume mr =
    resume
    && not has_prune
    && str_eq mr.status item_failed
    && not (str_eq mr.reason reason_image_unavailable)
    && str_eq mr.outcome (outcome_string outcome_retryable_failure)

-- The loop of updateMapItemStatus.
unfoldable pub set_item_status : ℕ → String → List MapItemRecord → List MapItemRecord
set_item_status n status [] = []
set_item_status n status (it ∷ items) =
    if it.n == n then record it { status = status } ∷ items else it ∷ set_item_status n status items

unfoldable pub update_map_item_status : RunState → Bytes → ℕ → String → RunState
unfolding set_item_status
update_map_item_status rs map_path n status = record rs {
  map_items =
      insert map_path (set_item_status n status (get_or map_path [] rs.map_items)) rs.map_items;
}

unfoldable pub outcome_text : Option Outcome → String
outcome_text none = ""
outcome_text (some oc) = outcome_string oc

-- utf8.RuneStart at an index of a text.
unfoldable pub is_rune_start : ℕ → Bytes → Bool
is_rune_start i [] = true
is_rune_start zero (b ∷ s) = ltb b 128 || leb 192 b
is_rune_start (suc i) (b ∷ s) = is_rune_start i s

-- The loop of boundCause.
unfoldable pub rune_end : ℕ → Bytes → ℕ
rune_end zero s = 0
rune_end (suc i) s =
    let earlier = rune_end i s in if is_rune_start (suc i) s then suc i else earlier

abbrev pub max_map_item_cause_bytes : ℕ
max_map_item_cause_bytes = 1024

abbrev pub ellipsis : Bytes
ellipsis = 226 ∷ 128 ∷ 166 ∷ []

unfoldable pub bound_cause : Bytes → Bytes
unfolding rune_end is_rune_start
bound_cause s =
    if leb (length s) max_map_item_cause_bytes
    then s
    else take (rune_end max_map_item_cause_bytes s) s ++ ellipsis

-- How dispatchItem comes to the end of the body: an error before it, an image that cannot be
-- booted, or the end itself, with the digest of the image.
pub data ItemRun : Type 0 where
  lost : Fault → ItemRun
  unavailable : World → ItemRun
  ran : String → Ended → ItemRun

-- The status, the outcome and the cause of an item.
pub record ItemEnd : Type 0 where
  pub world : World
  pub status : String
  pub outcome : String
  pub cause : Bytes

-- Which items of a prune map the frontier has discarded, which an earlier run committed, and the
-- causes.
pub record Frontier : Type 0 where
  pub is_pruned : ℕ → Bool
  pub is_committed : ℕ → Bool
  pub causes : ℕ → Bytes

-- Step 3c: the status that each item ends with, from item `i` on.
unfoldable pub final_status : Frontier → ℕ → String → String
final_status fr i s = if fr.is_committed i then s else if fr.is_pruned i then item_pruned else s

unfoldable pub final_statuses : Frontier → ℕ → List String → List String
unfolding final_status
final_statuses fr i [] = []
final_statuses fr i (s ∷ statuses) = final_status fr i s ∷ final_statuses fr (suc i) statuses

unfoldable pub fresh_items : Frontier → ℕ → List String → List MapItemData
unfolding final_status
fresh_items fr i [] = []
fresh_items fr i (s ∷ statuses) =
    let rest = fresh_items fr (suc i) statuses in
    let final = final_status fr i s in
    let d : MapItemData = record {
      n = i;
      status = final;
      image_digest = "";
      reason = "";
      outcome = "";
      cause = if str_eq final item_failed then fr.causes i else [];
    } in
    if fr.is_committed i then rest else d ∷ rest

-- errors.As with a renderImageError or a createConfigError.
unfoldable pub is_definition_error : Fault → Bool
is_definition_error (render_image f) = true
is_definition_error (create_config f) = true
is_definition_error (wrapped f) = is_definition_error f
is_definition_error _ = false

-- `text` is err.Error(). The items of a map run concurrently, and so may other nodes: `others` is
-- what they do between two calls of this one on the log.
module _ (text : Fault → Bytes) (disk : Disk) (others : World → World) (map_path : Bytes) where
  unfoldable pub commit_map_item : World → MapItemData → Result Fault World
  commit_map_item w d = elim (append disk w (item_committed map_path d)) [
    | err f ↦ err (wrapped f)
    | ok w' ↦ elim (sync disk (others w')) [
      | err f ↦ err (wrapped f)
      | ok w'' ↦ ok (record w'' { rs = update_map_item_status w''.rs map_path d.n d.status })
    ]
  ]

  unfoldable pub update_statuses : List MapItemData → RunState → RunState
  update_statuses [] rs = rs
  update_statuses (d ∷ items) rs =
      update_statuses items (update_map_item_status rs map_path d.n d.status)

  -- The whole frontier in one event.
  unfoldable pub commit_map_frontier : World → List MapItemData → Result Fault World
  unfolding update_statuses
  commit_map_frontier w items = elim (append disk w (frontier_committed map_path items)) [
    | err f ↦ err (wrapped f)
    | ok w' ↦ elim (sync disk (others w')) [
      | err f ↦ err (wrapped f)
      | ok w'' ↦ ok (record w'' { rs = update_statuses items w''.rs })
    ]
  ]

  -- Step 3c.
  unfoldable pub settle_frontier :
      Option Frontier → List String → World → Result Fault (World × List String)
  unfolding fresh_items final_statuses
  settle_frontier none statuses w = ok (w, statuses)
  settle_frontier (some fr) statuses w = elim (fresh_items fr 0 statuses) [
    | [] ↦ ok (w, final_statuses fr 0 statuses)
    | d ∷ items ↦ elim (commit_map_frontier w (d ∷ items)) [
      | err f ↦ err f
      | ok w' ↦ ok (w', final_statuses fr 0 statuses)
    ]
  ]

  -- Step 4.
  unfoldable pub fail_map : Fault → World → Ended
  unfolding is_definition_error
  fail_map f w =
      if is_definition_error f
      then fail_step disk w map_path outcome_permanent_failure f
      else internal f w

  -- runMap behind wg.Wait: steps 3c to 6.
  unfoldable pub end_map :
      {F : Type 0}
      → Floats F
      → FloatProducts F
      → Option (ℕ → World → Ended)
      → Option Bytes
      → Option Frontier
      → Option Fault
      → List String
      → World
      → Ended
  unfolding map_verdict
  end_map fl fp fan_in min_success frontier (some f) statuses w = fail_map f w
  end_map fl fp fan_in min_success frontier none statuses w =
      elim (settle_frontier frontier statuses w) [
        | err f ↦ internal f w
        | ok (w', finals) ↦ map_verdict fl fp fan_in min_success finals w'
      ]

  -- The end of a body without a skip.
  unfoldable pub ended_status : World → Option Fault → Option Outcome → Result Fault ItemEnd
  unfolding outcome_text bound_cause
  ended_status w (some f) outcome =
      if is_typed_failure_outcome outcome
      then ok (record {
        world = w;
        status = item_failed;
        outcome = outcome_text outcome;
        cause = bound_cause (text f);
      })
      else err f
  ended_status w none (some outcome_ok) =
      ok (record { world = w; status = item_passed; outcome = ""; cause = [] })
  ended_status w none _ = err inconsistent_result

  -- The status and the outcome of an item whose body has ended, or an error that fails the map.
  unfoldable pub item_status : ℕ → Ended → Result Fault ItemEnd
  item_status item e =
      let noted : Result Fault ItemEnd = ended_status e.world e.error e.outcome in
      elim (skip_reason e.error) [
        | none ↦ noted
        | some reason ↦ elim (append disk e.world (node_skipped (item_path map_path item) reason)) [
          | err f ↦ err (wrapped f)
          | ok w ↦ ok (record { world = w; status = item_passed; outcome = ""; cause = [] })
        ]
      ]

  -- What dispatchItem commits of an item of a map without a prune clause.
  unfoldable pub end_item : ℕ → ItemRun → Result Fault World
  end_item item (lost f) = err f
  end_item item (unavailable w) = commit_map_item w (record {
    n = item;
    status = item_failed;
    image_digest = "";
    reason = reason_image_unavailable;
    outcome = "";
    cause = [];
  })
  end_item item (ran digest e) = elim (item_status item e) [
    | err f ↦ err f
    | ok end ↦ commit_map_item (others end.world) (record {
      n = item;
      status = end.status;
      image_digest = digest;
      reason = "";
      outcome = end.outcome;
      cause = end.cause;
    })
  ]
