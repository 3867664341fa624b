-- ===== src/Engine/Events/Kinds.antt =====
-- The names of the events that the fold reads; every other name is observational.
use awf.Prelude.{String, List, [], ◌∷◌, str_eq, if◌then◌else◌}

pub data EventKind : Type 0 where
  run_started run_resumed call_started node_completed branch_taken loop_iter : EventKind
  gate_attempt react_round map_item map_frontier signal_received skills_selected : EventKind
  run_cancelled node_invalidated observational : EventKind

abbrev pub event_name : EventKind → String
event_name run_started = "run.started"
event_name run_resumed = "run.resumed"
event_name call_started = "call.started"
event_name node_completed = "node.completed"
event_name branch_taken = "branch.taken"
event_name loop_iter = "loop.iter"
event_name gate_attempt = "gate.attempt"
event_name react_round = "react.round"
event_name map_item = "map.item"
event_name map_frontier = "map.frontier"
event_name signal_received = "signal.received"
event_name skills_selected = "skills.selected"
event_name run_cancelled = "run.cancelled"
event_name node_invalidated = "node.invalidated"
event_name observational = ""

-- The kinds in the order in which the fold's switch tests them.
abbrev kinds : List EventKind
kinds =
    run_started ∷ run_resumed ∷ call_started ∷ node_completed ∷ branch_taken ∷ loop_iter
    ∷ gate_attempt ∷ react_round ∷ map_item ∷ map_frontier ∷ signal_received ∷ skills_selected
    ∷ run_cancelled ∷ node_invalidated ∷ []

find_kind : String → List EventKind → EventKind
find_kind name [] = observational
find_kind name (k ∷ ks) = if str_eq name (event_name k) then k else find_kind name ks

unfoldable pub kind_of : String → EventKind
unfolding find_kind
kind_of name = find_kind name kinds
