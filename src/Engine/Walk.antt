-- ===== src/Engine/Walk.antt =====
-- What the handlers of control nodes share (engine/interpreter.go, engine/skip.go, ir/path.go).
--
-- A handler takes a world, which is the run's state and its log, and returns Go's pair of an
-- outcome and an error beside the world that it leaves. `log` holds what was appended since the
-- run was opened, and the first `synced` entries of it are on disk. JSON marshalling is part of
-- an append. Which appends and syncs fail is a parameter.
use awf.Prelude.{
  ℕ, suc, Bytes, codes, Bool, true, false, List, [], ◌∷◌, ◌++◌, Option, none, some, String, length,
  take, bytes_eq, if◌then◌else◌, Result, ok, err,
}
use awf.Prelude.Decimal.{itoa}
use awf.Engine.Events.{GateAttemptData, SignalReceivedData, NodeCompletedData, MapItemData}
use awf.Template.Value.{Failure}
use awf.Engine.RunState.{RunState}
use awf.Engine.RunState.Outcomes.{Outcome, outcome_ok}

-- The errors that the handlers tell apart; `cause` stands for every other error, by a number.
pub data Fault : Type 0 where
  skip_unwind : String → Fault
  wrapped : Fault → Fault
  cause : ℕ → Fault
  invalid_gate no_evaluator not_completed fell_through : Fault
  gate_rejected : ℕ → Fault
  template_error : Failure → Fault
  unbounded_loop : Fault
  unknown_branch : String → Fault
  live_replay_required bad_policy inconsistent_result unknown_outcome : Fault
  no_broker unstored_payload unreadable_payload invalid_payload await_timeout await_cancelled :
      Fault
  map_failed : Fault
  render_image create_config : Fault → Fault

-- errors.As with a *SkipUnwind: the reason of the skip.
unfoldable pub as_skip : Fault → Option String
as_skip (skip_unwind reason) = some reason
as_skip (wrapped f) = as_skip f
as_skip (render_image f) = as_skip f
as_skip (create_config f) = as_skip f
as_skip _ = none

pub data Entry : Type 0 where
  gate_attempted : Bytes → GateAttemptData → Entry
  node_skipped : Bytes → String → Entry
  retry_attempted : Bytes → ℕ → String → Option Fault → Entry
  branch_taken : Bytes → String → Entry
  loop_iterated : Bytes → ℕ → Entry
  node_failed : Bytes → Outcome → Fault → Entry
  node_started : Bytes → Entry
  agent_event : Bytes → ℕ → Entry
  signal_received : Bytes → SignalReceivedData → Entry
  node_completed : Bytes → NodeCompletedData → Entry
  item_committed : Bytes → MapItemData → Entry
  frontier_committed : Bytes → List MapItemData → Entry

pub record World : Type 0 where
  pub rs : RunState
  pub log : List Entry
  pub synced : ℕ

-- The entries that survive a crash.
abbrev pub durable : World → List Entry
durable w = take w.synced w.log

pub record Ended : Type 0 where
  pub world : World
  pub outcome : Option Outcome
  pub error : Option Fault

-- return outcome, nil
abbrev pub returned : Outcome → World → Ended
returned oc w = record { world = w; outcome = some oc; error = none }

-- return "", err
abbrev pub internal : Fault → World → Ended
internal f w = record { world = w; outcome = none; error = some f }

-- Which appends and which syncs fail.
pub record Disk : Type 0 where
  pub append_fault : List Entry → Entry → Option Fault
  pub sync_fault : List Entry → Option Fault

module _ (disk : Disk) where
  unfoldable pub append : World → Entry → Result Fault World
  append w e = elim (disk.append_fault w.log e) [
    | some f ↦ err f
    | none ↦ ok (record w { log = w.log ++ e ∷ [] })
  ]

  unfoldable pub sync : World → Result Fault World
  sync w = elim (disk.sync_fault w.log) [
    | some f ↦ err f
    | none ↦ ok (record w { synced = length w.log })
  ]

  unfoldable pub fail_step : World → Bytes → Outcome → Fault → Ended
  fail_step w path outcome f = elim (append w (node_failed path outcome f)) [
    | err g ↦ internal (wrapped g) w
    | ok w' ↦ elim (sync w') [
      | err g ↦ internal (wrapped g) w'
      | ok w'' ↦ record { world = w''; outcome = some outcome; error = some f }
    ]
  ]

  -- appendNodeSkipped and the return behind it, where the node is the target of a skip.
  unfoldable pub skip_to : World → Bytes → String → Ended
  skip_to w path reason = elim (append w (node_skipped path reason)) [
    | err g ↦ internal g w
    | ok w' ↦ returned outcome_ok w'
  ]

-- The node kinds that the handlers tell apart: a step has an id, and `R` is the rest of a node,
-- which only its own handler reads.
pub data Node (R : Type 0) : Type 0 where
  code_step agent_step signal_step : Bytes → R → Node R
  map_node other_node : R → Node R

-- ir.PathFor
unfoldable pub path_for : Bytes → Bytes → Bytes → ℕ → Bytes
path_for parent keyword step_id index =
    let numbered = codes "[" ++ (itoa index ++ codes "]") in
    let self =
      (if bytes_eq step_id []
        then (if bytes_eq keyword [] then codes "?" else keyword) ++ numbered
        else step_id) in
    if bytes_eq parent [] then self else parent ++ (codes "." ++ self)

-- outcome == ok && err == nil
unfoldable pub is_completed : Ended → Bool
is_completed e = elim e.error [
  | some f ↦ false
  | none ↦ elim e.outcome [ some outcome_ok ↦ true | _ ↦ false ]
]

-- interpNodes from index `i`; `run` is interpNode, the dispatch to the handler of a node's kind.
module _ {R : Type 0} (run : Node R → ℕ → Bytes → World → Ended) where
  unfoldable pub interp_from : ℕ → List (Node R) → Bytes → World → Ended
  unfolding is_completed
  interp_from i [] parent w = returned outcome_ok w
  interp_from i (n ∷ nodes) parent w =
      let e = run n i parent w in
      let rest = interp_from (suc i) nodes parent e.world in if is_completed e then rest else e

  unfoldable pub interp_nodes : List (Node R) → Bytes → World → Ended
  interp_nodes nodes parent w = interp_from 0 nodes parent w
