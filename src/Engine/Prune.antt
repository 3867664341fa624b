-- ===== src/Engine/Prune.antt =====
-- engine/prune.go: the frontier of a map, which cuts items by the scores of those that are done.
--
-- Each method of a pruneRun holds its mutex where it reads or writes, and reports of items come
-- in any order, so that a run of the frontier is a sequence of method calls. A Go map is the list
-- of its entries, in the order in which they came; the source ranges over it in any order.
pub mod Ranks
pub mod Discards
pub mod Frontier
mod Examples
use awf.Prelude.{
  ℕ, zero, suc, ◌≡◌, Bytes, codes, Bool, true, false, not, ◌&&◌, ◌||◌, List, [], ◌∷◌, ◌++◌, map,
  Option, none, some, Result, ok, err, ltb, leb, ◌==◌, if◌then◌else◌, bytes_eq, length, drop,
}
use awf.Prelude.Map.{lookup}
use awf.Engine.Events.{Object}
use awf.Engine.Path.{item_step_path}
use awf.Engine.RunState.{RunState, NodeResult, lookup_completed}
use awf.Template.Static.{eval_bool_string}
use awf.Template.Syntax.{Segment, name, index}
use awf.Template.Value.{
  Floats, Value, null_value, float_value, int_value, number_value, Failure, eval_error,
  ref_unresolved, Scope,
}

-- ir.Prune: the field of the score, and one of the two policies. No `stop_when` is an empty text.
pub record Prune : Type 0 where
  pub score : Bytes
  pub keep : Option ℕ
  pub stop_when : Bytes

-- The errors of a report; `nil_keep` is the panic on a policy that the validation refuses.
pub data PruneError : Type 0 where
  not_numeric no_output nil_keep : PruneError
  stop_when_failed : Failure → PruneError

-- An entry of the map of scores.
pub record Scored (F : Type 0) : Type 0 where
  pub idx : ℕ
  pub points : F

unfoldable pub contains : ℕ → List ℕ → Bool
contains i [] = false
contains i (j ∷ js) = i == j || contains i js

-- m[i] = true
unfoldable pub add : ℕ → List ℕ → List ℕ
unfolding contains
add i js = if contains i js then js else js ++ i ∷ []

-- sort.Ints
unfoldable pub insert_int : ℕ → List ℕ → List ℕ
insert_int i [] = i ∷ []
insert_int i (j ∷ js) = if leb i j then i ∷ j ∷ js else j ∷ insert_int i js

unfoldable pub sort_ints : List ℕ → List ℕ
unfolding insert_int
sort_ints [] = []
sort_ints (i ∷ is) = insert_int i (sort_ints is)

-- pruneDecision
pub record PruneDecision : Type 0 where
  pub prune_losers : List ℕ
  pub stop_all : Bool

module _ {F : Type 0} (fl : Floats F) where
  -- p.scores[item] = score
  unfoldable pub set_score : ℕ → F → List (Scored F) → List (Scored F)
  set_score item score [] = record { idx = item; points = score } ∷ []
  set_score item score (s ∷ scores) =
      if s.idx == item
      then record { idx = item; points = score } ∷ scores
      else s ∷ set_score item score scores

  -- The order of the sort: the higher score, or the lower index among equals.
  unfoldable pub beats : Scored F → Scored F → Bool
  beats a b =
      if not (fl.float_eq a.points b.points) then fl.float_lt b.points a.points else ltb a.idx b.idx

  unfoldable pub insert_scored : Scored F → List (Scored F) → List (Scored F)
  insert_scored a [] = a ∷ []
  insert_scored a (b ∷ all) = if beats a b then a ∷ b ∷ all else b ∷ insert_scored a all

  -- sort.Slice
  unfoldable pub sort_scored : List (Scored F) → List (Scored F)
  unfolding insert_scored
  sort_scored [] = []
  sort_scored (a ∷ all) = insert_scored a (sort_scored all)

  unfoldable pub lowest_beyond_k : ℕ → List (Scored F) → List ℕ
  unfolding sort_scored sort_ints
  lowest_beyond_k k scores = sort_ints (map (λ s. s.idx) (drop k (sort_scored scores)))

  unfoldable pub best_of : F → List (Scored F) → F
  best_of best [] = best
  best_of best (s ∷ scores) = best_of (if fl.float_lt best s.points then s.points else best) scores

  -- bestScope.Resolve
  unfoldable pub best_scope : F → Scope F
  best_scope best (name a _ ∷ name b _ ∷ []) =
      if bytes_eq a (codes "best") && bytes_eq b (codes "score")
      then ok (float_value best)
      else err (eval_error ref_unresolved none)
  best_scope best _ = err (eval_error ref_unresolved none)

  -- asFloat
  unfoldable pub as_float : Value F → Result PruneError F
  as_float (float_value x) = ok x
  as_float (int_value i) = ok (fl.of_int i)
  as_float (number_value raw) = elim (fl.parse_float raw) [ some x ↦ ok x | none ↦ err not_numeric ]
  as_float _ = err not_numeric

  -- The keep-top-k half of Report.
  unfoldable pub decide_keep : Prune → List (Scored F) → Result PruneError PruneDecision
  unfolding lowest_beyond_k
  decide_keep policy scores = elim policy.keep [
    | none ↦ err nil_keep
    | some k ↦
        if leb (length scores) k
        then ok (record { prune_losers = []; stop_all = false })
        else ok (record { prune_losers = lowest_beyond_k k scores; stop_all = false })
  ]

  module _ (marshal : Value F → Option Bytes) where
    unfoldable pub eval_stop_when : Bytes → F → List (Scored F) → Result PruneError Bool
    eval_stop_when src latest scores =
        elim (eval_bool_string fl marshal (best_scope (best_of latest scores)) src) [
          | ok b ↦ ok b
          | err f ↦ err (stop_when_failed f)
        ]

    -- What Report decides once the score is in.
    unfoldable pub decide : Prune → F → List (Scored F) → Result PruneError PruneDecision
    unfolding decide_keep
    decide policy score scores =
        let stop : Result PruneError PruneDecision =
          (elim (eval_stop_when policy.stop_when score scores) [
            | err e ↦ err e
            | ok b ↦ ok (record { prune_losers = []; stop_all = b })
          ]) in
        if not (bytes_eq policy.stop_when []) then stop else decide_keep policy scores

-- pruneRun, with the scores of its controller: the items whose cancel is registered, those that
-- the frontier discarded, and those whose body is done.
pub record PruneRun (F : Type 0) : Type 0 where
  pub scores : List (Scored F)
  pub registered : List ℕ
  pub pruned : List ℕ
  pub completed : List ℕ
  pub stopped : Bool

abbrev pub new_prune_run : {F : Type 0} → PruneRun F
new_prune_run = record {
  scores = [];
  registered = [];
  pruned = [];
  completed = [];
  stopped = false;
}

-- The loop over the registered cancels.
unfoldable pub discard_running : List ℕ → List ℕ → List ℕ → List ℕ
unfolding contains add
discard_running [] completed pruned = pruned
discard_running (i ∷ is) completed pruned =
    discard_running is completed (if contains i completed then pruned else add i pruned)

-- The loop over the losers.
unfoldable pub discard : List ℕ → List ℕ → List ℕ
unfolding add
discard [] pruned = pruned
discard (i ∷ is) pruned = discard is (add i pruned)

module _ {F : Type 0} where
  unfoldable pub register : PruneRun F → ℕ → PruneRun F
  unfolding add
  register r item = record r { registered = add item r.registered }

  unfoldable pub is_pruned : PruneRun F → ℕ → Bool
  unfolding contains
  is_pruned r item =
      if contains item r.pruned then true else r.stopped && not (contains item r.completed)

  unfoldable pub apply_decision : PruneRun F → PruneDecision → PruneRun F
  unfolding discard_running discard
  apply_decision r d =
      if d.stop_all
      then record r { stopped = true; pruned = discard_running r.registered r.completed r.pruned }
      else record r { pruned = discard d.prune_losers r.pruned }

  module _ (fl : Floats F) (marshal : Value F → Option Bytes) (unmarshal : Bytes → Value F)
      (policy : Prune) where
    -- Report of the controller and the decision's effects.
    unfoldable pub report_score : PruneRun F → ℕ → Value F → PruneRun F × Option PruneError
    report_score r item raw = elim (as_float fl raw) [
      | err e ↦ (r, some e)
      | ok score ↦
          let scored = record r { scores = set_score fl item score r.scores } in
          elim (decide fl marshal policy score scored.scores) [
            | err e ↦ (scored, some e)
            | ok d ↦ (apply_decision scored d, none)
          ]
    ]

    -- nr.Outputs[r.field]
    unfoldable pub score_of : NodeResult → Value F
    score_of nr = elim nr.outputs [
      | none ↦ null_value
      | some outputs ↦ elim (lookup policy.score outputs) [
        | none ↦ null_value
        | some raw ↦ unmarshal raw
      ]
    ]

    unfoldable pub report :
        Bytes → Bytes → RunState → PruneRun F → ℕ → PruneRun F × Option PruneError
    unfolding report_score score_of add
    report map_path step_id rs r item =
        elim (lookup_completed rs (item_step_path map_path item step_id)) [
          | none ↦ (r, some no_output)
          | some nr ↦
              report_score (record r { completed = add item r.completed }) item (score_of nr)
        ]
