-- ===== src/Engine/Fold/Examples.antt =====
-- Small logs and their replay, with parsers that ignore their input, and addresses (engine).
use awf.Prelude.{
  ℕ, ◌≡◌, refl, Bytes, bytes_eq, codes, [], ◌∷◌, ◌++◌, Option, none, some, ok, String,
}
use awf.Prelude.Map.{lookup, insert}
use awf.Prelude.Int.{pos}
use awf.State.Event.{Event}
use awf.Engine.Events.{Json, NodeCompletedData, GateAttemptData, MapItemData}
use awf.Engine.RunState.{RunState, NodeResult, zero_state, record_completed, record_map_item}
use awf.Engine.RunState.Outcomes.{outcome_ok, parse_outcome}
use awf.Engine.Fold.{
  fold, item_record, fold_events, fold_kind, fold_run_started, fold_node_completed, node_result,
  commit_node, read_object, read_ref, is_empty, is_run_started,
}
use awf.Engine.Events.Kinds.{kind_of}
use awf.Engine.Fold.Committed.{fold_committed}
use awf.Engine.Fold.Invalidated.{IsInvalidated, fold-IsInvalidated}
use awf.Engine.Path.{
  iter_path, attempt_path, item_path, round_path, model_path, tool_path, parent_path,
}
use awf.Engine.Path.Parent.{parent_path_inverse}
use awf.Engine.Path.Unique.{item, address_unique}

abbrev completed_data : NodeCompletedData
completed_data = record {
  outcome = "ok";
  exit_code = some (pos 0);
  outputs_ref = [];
  stdout_ref = codes "r";
  files = [];
  snapshot_ref = [];
  container = [];
  transcript_ref = [];
  node_key = "k";
  node_subtree_digest = "";
  session_ref = [];
}

abbrev attempt_data : GateAttemptData
attempt_data = record { n = 1; attempt_outcome = "attempt_rejected"; verdict_ref = codes "v" }

abbrev item_data : MapItemData
item_data = record {
  n = 2;
  status = "done";
  image_digest = "";
  reason = "";
  outcome = "ok";
  cause = [];
}

abbrev pub parsers : Json
parsers = record {
  run_started = λ _. some (record {
    run_id = "run-1";
    workflow_digest = "w";
    structural_digest = "s";
    input_ref = [];
    assets = [];
    input_files = [];
  });
  run_resumed = λ _. none;
  call_started = λ _. none;
  node_completed = λ _. some completed_data;
  branch_taken = λ _. some "then";
  loop_iter = λ _. some 1;
  gate_attempt = λ _. some attempt_data;
  react_round = λ _. some 1;
  map_item = λ _. some item_data;
  map_frontier = λ _. some [];
  signal_received = λ _. none;
  skills_selected = λ _. none;
  node_invalidated = λ _. some (codes "greet" ∷ []);
  object = λ _. some (some []);
  transcript = λ raw. some raw;
}

abbrev blobs : Bytes → Option Bytes
blobs ref = some (codes "{}")

abbrev event_at : String → Bytes → Event
event_at name path = record {
  seq = 1;
  epoch = 0;
  ts = 0;
  path = path;
  event_type = name;
  payload_ref = [];
  event_data = [];
}

abbrev pub started : Event
started = event_at "run.started" []

abbrev pub greeted : Event
greeted = event_at "node.completed" (codes "greet")

abbrev pub begun : RunState
begun = record zero_state {
  run_id = "run-1";
  workflow_digest = "w";
  structural_digest = "s";
  epoch = 1;
}

abbrev greet_result : NodeResult
greet_result = record {
  outcome = outcome_ok;
  exit_code = some (pos 0);
  outputs = none;
  outputs_ref = [];
  stdout = some (codes "{}");
  stdout_ref = codes "r";
  files = [];
  transcript = none;
  node_key = "k";
  node_subtree_digest = "";
}

abbrev greeted_state : RunState
greeted_state = record begun { completed = (codes "greet", greet_result) ∷ [] }

begun_by : fold parsers blobs (started ∷ []) ≡ ok begun
unfolding fold fold_events fold_kind fold_run_started fold_node_completed node_result commit_node
    record_completed read_object read_ref kind_of is_run_started parse_outcome insert is_empty
begun_by = refl

greeted_by : fold parsers blobs (started ∷ greeted ∷ []) ≡ ok greeted_state
unfolding fold fold_events fold_kind fold_run_started fold_node_completed node_result commit_node
    record_completed read_object read_ref kind_of is_run_started parse_outcome insert is_empty
greeted_by = refl

fold_committed_example : greet_result.outcome ≡ outcome_ok
unfolding lookup bytes_eq
fold_committed_example =
    fold_committed parsers blobs (started ∷ greeted ∷ []) greeted_state (codes "greet") greet_result
      greeted_by refl

fold-IsInvalidated_example :
    (rs : RunState) × (fold parsers blobs
        (started ∷ (greeted ∷ [] ++ event_at "node.invalidated" [] ∷ []))
      ≡ ok rs)
    × IsInvalidated greeted_state rs (codes "greet" ∷ [])
unfolding kind_of
fold-IsInvalidated_example =
    fold-IsInvalidated parsers blobs started (event_at "node.invalidated" []) (greeted ∷ [])
      greeted_state (codes "greet" ∷ []) greeted_by refl refl

-- Item 2 recorded twice at one map.
abbrev recorded : RunState
recorded =
    record_map_item zero_state (codes "map[0]")
      (record (item_record item_data) { status = "running" })

address_unique_example :
    (item ≡ item) × (codes "map[0]" ≡ codes "map[0]") × ((let n : ℕ = 12 in n) ≡ 12)
address_unique_example = address_unique item item (codes "map[0]") (codes "map[0]") 12 12 refl

parent_path_inverse_example :
    (parent_path (iter_path (codes "loop[0].body") 3) ≡ some (codes "loop[0].body"))
    × (parent_path (attempt_path (codes "loop[0].body") 3) ≡ some (codes "loop[0].body"))
    × (parent_path (item_path (codes "loop[0].body") 3) ≡ some (codes "loop[0].body"))
    × (parent_path (round_path (codes "loop[0].body") 3) ≡ some (codes "loop[0].body"))
    × (parent_path (model_path (codes "loop[0].body")) ≡ some (codes "loop[0].body"))
    × (parent_path (tool_path (codes "loop[0].body") 3) ≡ some (codes "loop[0].body"))
parent_path_inverse_example = parent_path_inverse (codes "loop[0].body") 3
