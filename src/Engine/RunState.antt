-- ===== src/Engine/RunState.antt =====
-- engine/runstate.go: the state of a run and its accessors.
--
-- The mutex and the once-built indices are not modelled: each accessor runs under the mutex, so
-- it is one step. A Go map is an association list with one entry for each key.
pub mod Outcomes
use awf.Prelude.{
  ℕ, ◌≡◌, Bytes, Bool, true, false, List, [], ◌∷◌, ◌++◌, Option, none, some, String, ◌==◌,
  if◌then◌else◌,
}
use awf.Prelude.Int.{ℤ}
use awf.Prelude.Map.{Map, lookup, insert, get_or}
use awf.Engine.Events.{Object, Transcript, RunStartedAsset, ResolvedRuntime, SkillsSelectedData}
use Outcomes.{Outcome}

pub record AttemptResult : Type 0 where
  pub n : ℕ
  pub attempt_outcome : String
  pub verdict : Option Object

pub record ReactRoundRecord : Type 0 where
  pub n : ℕ

-- ItemValue is the item's value of `over`, as raw JSON; Fold leaves it nil.
pub record MapItemRecord : Type 0 where
  pub n : ℕ
  pub item_value : Option Bytes
  pub status : String
  pub outcome : String
  pub image_digest : String
  pub reason : String
  pub cause : Bytes

pub record SignalEntry : Type 0 where
  pub seq : ℕ
  pub payload_ref : Bytes

pub record PauseMarker : Type 0 where
  pub node_path : Bytes
  pub reason : String

pub record CallStartedRecord : Type 0 where
  pub input : Object
  pub input_ref : Bytes
  pub input_files : Map Bytes
  pub runtimes : List ResolvedRuntime

pub record NodeResult : Type 0 where
  pub outcome : Outcome
  pub exit_code : Option ℤ
  pub outputs : Option Object
  pub outputs_ref : Bytes
  pub stdout : Option Bytes
  pub stdout_ref : Bytes
  pub files : Map Bytes
  pub transcript : Option Transcript
  pub node_key : String
  pub node_subtree_digest : String

pub record RunState : Type 0 where
  pub run_id : String
  pub workflow_digest : String
  pub structural_digest : String
  pub input : Option Object
  pub assets : Map RunStartedAsset
  pub input_files : Map Bytes
  pub epoch : ℕ
  pub completed : Map NodeResult
  pub branches : Map String
  pub loop_iters : Map ℕ
  pub gate_attempts : Map (List AttemptResult)
  pub react_rounds : Map (List ReactRoundRecord)
  pub map_items : Map (List MapItemRecord)
  pub signals : Map (List SignalEntry)
  pub call_started : Map CallStartedRecord
  pub paused : Option PauseMarker
  pub cancelled : Bool
  pub cancel_reason : String
  pub signal_received_at : Map SignalEntry
  pub snapshot_refs : Map Bytes
  pub session_refs : Map Bytes
  pub selected_skills : Map SkillsSelectedData

-- &RunState{}
abbrev pub zero_state : RunState
zero_state = record {
  run_id = "";
  workflow_digest = "";
  structural_digest = "";
  input = none;
  assets = [];
  input_files = [];
  epoch = 0;
  completed = [];
  branches = [];
  loop_iters = [];
  gate_attempts = [];
  react_rounds = [];
  map_items = [];
  signals = [];
  call_started = [];
  paused = none;
  cancelled = false;
  cancel_reason = "";
  signal_received_at = [];
  snapshot_refs = [];
  session_refs = [];
  selected_skills = [];
}

unfoldable pub new_run_state : String → String → Option Object → RunState
new_run_state run_id workflow_digest input = record zero_state {
  run_id = run_id;
  workflow_digest = workflow_digest;
  input = input;
  epoch = 1;
}

unfoldable pub lookup_completed : RunState → Bytes → Option NodeResult
lookup_completed rs path = lookup path rs.completed

unfoldable pub record_completed : RunState → Bytes → NodeResult → RunState
record_completed rs path nr = record rs { completed = insert path nr rs.completed }

unfoldable pub lookup_branch : RunState → Bytes → Option String
lookup_branch rs path = lookup path rs.branches

unfoldable pub record_branch : RunState → Bytes → String → RunState
record_branch rs path which = record rs { branches = insert path which rs.branches }

unfoldable pub lookup_loop_iters : RunState → Bytes → ℕ
lookup_loop_iters rs path = get_or path 0 rs.loop_iters

unfoldable pub record_loop_iter : RunState → Bytes → ℕ → RunState
record_loop_iter rs path k = record rs { loop_iters = insert path k rs.loop_iters }

unfoldable pub lookup_gate_attempts : RunState → Bytes → List AttemptResult
lookup_gate_attempts rs gate_path = get_or gate_path [] rs.gate_attempts

-- m[k] = append(m[k], v)
abbrev pub append_at {ℓ} : {V : Type ℓ} → Bytes → V → Map (List V) → Map (List V)
append_at k v m = insert k (get_or k [] m ++ v ∷ []) m

unfoldable pub record_gate_attempt : RunState → Bytes → AttemptResult → RunState
record_gate_attempt rs gate_path ar = record rs {
  gate_attempts = append_at gate_path ar rs.gate_attempts;
}

unfoldable pub record_react_round : RunState → Bytes → ReactRoundRecord → RunState
record_react_round rs r rr = record rs { react_rounds = append_at r rr rs.react_rounds }

unfoldable pub lookup_map_items : RunState → Bytes → List MapItemRecord
lookup_map_items rs map_path = get_or map_path [] rs.map_items

-- The loop of RecordMapItem over the items that are there: replace in place, or append.
unfoldable pub upsert_item : MapItemRecord → List MapItemRecord → List MapItemRecord
upsert_item mr [] = mr ∷ []
upsert_item mr (it ∷ items) = if it.n == mr.n then mr ∷ items else it ∷ upsert_item mr items

unfoldable pub record_map_item : RunState → Bytes → MapItemRecord → RunState
unfolding upsert_item
record_map_item rs map_path mr = record rs {
  map_items = insert map_path (upsert_item mr (get_or map_path [] rs.map_items)) rs.map_items;
}

-- The loop of UpdateMapItemValue: the first record of the item, where there is one.
unfoldable pub set_item_value : ℕ → Bytes → List MapItemRecord → List MapItemRecord
set_item_value n value [] = []
set_item_value n value (it ∷ items) =
    if it.n == n
    then record it { item_value = some value } ∷ items
    else it ∷ set_item_value n value items

unfoldable pub update_map_item_value : RunState → Bytes → ℕ → Bytes → RunState
unfolding set_item_value
update_map_item_value rs map_path n value = elim (lookup map_path rs.map_items) [
  | none ↦ rs
  | some items ↦ record rs {
    map_items = insert map_path (set_item_value n value items) rs.map_items;
  }
]

unfoldable pub append_signal : RunState → Bytes → SignalEntry → RunState
append_signal rs name e = record rs { signals = append_at name e rs.signals }

unfoldable pub record_signal_received_at : RunState → Bytes → SignalEntry → RunState
record_signal_received_at rs path e = record rs {
  signal_received_at = insert path e rs.signal_received_at;
}

unfoldable pub record_call_started : RunState → Bytes → CallStartedRecord → RunState
record_call_started rs path rec = record rs { call_started = insert path rec rs.call_started }

unfoldable pub record_selected_skills : RunState → Bytes → SkillsSelectedData → RunState
record_selected_skills rs path skills = record rs {
  selected_skills = insert path skills rs.selected_skills;
}

unfoldable pub set_paused : RunState → Option PauseMarker → RunState
set_paused rs pm = record rs { paused = pm }

unfoldable pub set_cancelled : RunState → Bool → RunState
set_cancelled rs v = record rs { cancelled = v }

unfoldable pub set_cancel_reason : RunState → String → RunState
set_cancel_reason rs reason = record rs { cancel_reason = reason }
