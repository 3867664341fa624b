-- ===== src/Engine/Fold.antt =====
-- engine/fold.go: the replay of a log into a run's state, one function for each arm.
pub mod Prefix
pub mod Committed
pub mod Restores
mod CommitExample
pub mod Invalidated
mod Examples
use awf.Prelude.{
  ℕ, Bytes, Bool, true, false, List, [], ◌∷◌, ◌++◌, Option, none, some, String, str_eq, bytes_eq,
  Result, ok, err, ◌>>=◌, if◌then◌else◌, codes, not, ◌||◌,
}
use awf.Prelude.Map.{Map, lookup, insert, delete, get_or}
use awf.State.Event.{Event}
use awf.Engine.Events.{
  Object, Transcript, Json, RunStartedData, NodeCompletedData, MapItemData, SkillsSelectedData,
  SelectedSkill, ScoreClass, non_finite, non_positive, positive,
}
use awf.Engine.Events.Kinds.{EventKind, kind_of}
use awf.Engine.RunState.{
  RunState, NodeResult, AttemptResult, MapItemRecord, zero_state, append_at, record_completed,
  record_branch, record_loop_iter, record_gate_attempt, record_react_round, record_map_item,
  append_signal, record_signal_received_at, record_selected_skills, record_call_started,
  set_cancelled, SignalEntry,
}
use awf.Engine.RunState.Outcomes.{Outcome, outcome_ok, parse_outcome}

pub data FoldError : Type 0 where
  first_event duplicate_run_started parse blob_read blob_parse : FoldError
  duplicate_call_started not_an_object unknown_outcome non_ok_outcome : FoldError
  empty_path duplicate_skills invalid_skills : FoldError

-- A result, or the error where it is nil.
abbrev pub or_error {ℓ} : {A : Type ℓ} → FoldError → Option A → Result FoldError A
or_error e none = err e
or_error e (some a) = ok a

unfoldable pub is_empty : Bytes → Bool
is_empty [] = true
is_empty (b ∷ bs) = false

-- `seen[sel.ID]`
unfoldable pub seen_id : Bytes → List Bytes → Bool
seen_id id [] = false
seen_id id (j ∷ seen) = if bytes_eq id j then true else seen_id id seen

is_positive : ScoreClass → Bool
is_positive non_finite = false
is_positive non_positive = false
is_positive positive = true

-- The loop of validateSelectedSkillsEventLocal (engine/skills.go).
unfoldable pub valid_selected : List Bytes → List SelectedSkill → Bool
unfolding is_positive
valid_selected seen [] = true
valid_selected seen (sel ∷ selected) =
    if is_empty sel.id
    then false
    else if seen_id sel.id seen
    then false
    else if not (is_positive sel.score)
    then false
    else valid_selected (sel.id ∷ seen) selected

has_selected : List SelectedSkill → Bool
has_selected [] = false
has_selected (s ∷ selected) = true

-- validateSkillsSelectedEventLocal
unfoldable pub valid_skills : SkillsSelectedData → Bool
unfolding has_selected
valid_skills d =
    if is_empty d.library
      || is_empty d.library_digest
      || is_empty d.router
      || is_empty d.router_version
    then false
    else if has_selected d.selected
    then valid_selected [] d.selected
    else false

-- clearInvalidatedPaths (engine/rerun.go), one path.
unfoldable pub clear_path : RunState → Bytes → RunState
clear_path rs p = record rs {
  completed = delete p rs.completed;
  branches = delete p rs.branches;
  loop_iters = delete p rs.loop_iters;
  gate_attempts = delete p rs.gate_attempts;
  react_rounds = delete p rs.react_rounds;
  map_items = delete p rs.map_items;
  call_started = delete p rs.call_started;
  signal_received_at = delete p rs.signal_received_at;
  selected_skills = delete p rs.selected_skills;
  session_refs = delete p rs.session_refs;
}

unfoldable pub clear_invalidated_paths : RunState → List Bytes → RunState
clear_invalidated_paths rs [] = rs
clear_invalidated_paths rs (p ∷ paths) = clear_invalidated_paths (clear_path rs p) paths

-- The record of a map item, whose value is left nil.
unfoldable pub item_record : MapItemData → MapItemRecord
item_record d = record {
  n = d.n;
  item_value = none;
  status = d.status;
  outcome = d.outcome;
  image_digest = d.image_digest;
  reason = d.reason;
  cause = d.cause;
}

-- The frontier's record carries no outcome.
unfoldable pub frontier_record : MapItemData → MapItemRecord
frontier_record d = record {
  n = d.n;
  item_value = none;
  status = d.status;
  outcome = "";
  image_digest = d.image_digest;
  reason = d.reason;
  cause = d.cause;
}

unfoldable pub add_frontier : Bytes → List MapItemData → RunState → RunState
unfolding frontier_record
add_frontier path [] rs = rs
add_frontier path (it ∷ items) rs =
    add_frontier path items
      (record rs { map_items = append_at path (frontier_record it) rs.map_items })

unfoldable pub is_run_started : EventKind → Bool
is_run_started EventKind.run_started = true
is_run_started _ = false

-- One event on the state. `get` is blobs.Get, whose errors are `none`.
module _ (json : Json) (get : Bytes → Option Bytes) where
  -- A blob that an event refers to, decoded; an empty reference is no blob.
  read_ref {ℓ} : {A : Type ℓ} → (Bytes → Option A) → Bytes → Result FoldError (Option A)
  read_ref decode ref =
      if is_empty ref
      then ok none
      else do raw ← or_error blob_read (get ref); a ← or_error blob_parse (decode raw); ok (some a)

  -- A JSON object, which may be null.
  pub read_object : Bytes → Result FoldError (Option Object)
  unfolding read_ref
  read_object ref = do o ← read_ref json.object ref; ok (elim o [ none ↦ none | some m ↦ m ])

  fold_run_started : RunState → Bool → Event → Result FoldError RunState
  unfolding read_object
  fold_run_started rs seen e = if seen then err duplicate_run_started else do
    d ← or_error parse (json.run_started e.event_data)
    input ← read_object d.input_ref
    ok (record rs {
      run_id = d.run_id;
      workflow_digest = d.workflow_digest;
      structural_digest = d.structural_digest;
      assets = d.assets;
      input_files = d.input_files;
      epoch = 1;
      input = if is_empty d.input_ref then rs.input else input;
    })

  fold_run_resumed : RunState → Event → Result FoldError RunState
  fold_run_resumed rs e = do
    d ← or_error parse (json.run_resumed e.event_data)
    ok (record rs { epoch = d.epoch })

  fold_call_started : RunState → Event → Result FoldError RunState
  fold_call_started rs e = elim (lookup e.path rs.call_started) [
    | some earlier ↦ err duplicate_call_started
    | none ↦ do
      d ← or_error parse (json.call_started e.event_data)
      raw ← or_error blob_read (get d.input_ref)
      o ← or_error blob_parse (json.object raw)
      input ← or_error not_an_object o
      ok (
          record_call_started rs e.path (record {
            input = input;
            input_ref = d.input_ref;
            input_files = d.input_files;
            runtimes = d.runtimes;
          }))
  ]

  -- The materialized result of a committed node.
  node_result : NodeCompletedData → Result FoldError NodeResult
  unfolding read_object
  node_result d = do
    oc ← or_error unknown_outcome (parse_outcome d.outcome)
    elim oc [
      | outcome_ok ↦ do
        outputs ← read_object d.outputs_ref
        stdout ← read_ref (λ raw. some raw) d.stdout_ref
        transcript ← read_ref json.transcript d.transcript_ref
        ok (record {
          outcome = outcome_ok;
          exit_code = d.exit_code;
          outputs = outputs;
          outputs_ref = d.outputs_ref;
          stdout = stdout;
          stdout_ref = d.stdout_ref;
          files = d.files;
          transcript = transcript;
          node_key = d.node_key;
          node_subtree_digest = d.node_subtree_digest;
        })
      | _ ↦ err non_ok_outcome
    ]

  -- The commit record and the references beside it.
  commit_node : RunState → Bytes → NodeCompletedData → NodeResult → RunState
  commit_node rs path d nr = record (record_completed rs path nr) {
    snapshot_refs =
        if is_empty d.snapshot_ref || is_empty d.container
        then rs.snapshot_refs
        else insert d.container d.snapshot_ref rs.snapshot_refs;
    session_refs =
        if is_empty d.session_ref
        then rs.session_refs
        else insert path d.session_ref rs.session_refs;
  }

  fold_node_completed : RunState → Event → Result FoldError RunState
  unfolding node_result commit_node
  fold_node_completed rs e = do
    d ← or_error parse (json.node_completed e.event_data)
    nr ← node_result d
    ok (commit_node rs e.path d nr)

  fold_branch_taken : RunState → Event → Result FoldError RunState
  fold_branch_taken rs e = do
    which ← or_error parse (json.branch_taken e.event_data)
    ok (record_branch rs e.path which)

  fold_loop_iter : RunState → Event → Result FoldError RunState
  fold_loop_iter rs e = do
    n ← or_error parse (json.loop_iter e.event_data)
    ok (record_loop_iter rs e.path n)

  pub fold_gate_attempt : RunState → Event → Result FoldError RunState
  unfolding read_object
  fold_gate_attempt rs e = do
    d ← or_error parse (json.gate_attempt e.event_data)
    verdict ← read_object d.verdict_ref
    ok (
        record_gate_attempt rs e.path
          (record { n = d.n; attempt_outcome = d.attempt_outcome; verdict = verdict }))

  fold_react_round : RunState → Event → Result FoldError RunState
  fold_react_round rs e = do
    n ← or_error parse (json.react_round e.event_data)
    ok (record_react_round rs e.path (record { n = n }))

  fold_map_item : RunState → Event → Result FoldError RunState
  fold_map_item rs e = do
    d ← or_error parse (json.map_item e.event_data)
    ok (record_map_item rs e.path (item_record d))

  fold_map_frontier : RunState → Event → Result FoldError RunState
  fold_map_frontier rs e = do
    items ← or_error parse (json.map_frontier e.event_data)
    ok (add_frontier e.path items rs)

  -- References only: no blob is read.
  fold_signal_received : RunState → Event → Result FoldError RunState
  fold_signal_received rs e = do
    d ← or_error parse (json.signal_received e.event_data)
    let entry : SignalEntry = record { seq = d.seq; payload_ref = d.payload_ref }
    let queued = append_signal rs d.name entry
    ok (if is_empty e.path then queued else record_signal_received_at queued e.path entry)

  selected_at : RunState → Bytes → SkillsSelectedData → Result FoldError RunState
  selected_at rs path d =
      if is_empty path then err empty_path else elim (lookup path rs.selected_skills) [
        | some earlier ↦ err duplicate_skills
        | none ↦
            if valid_skills d then ok (record_selected_skills rs path d) else err invalid_skills
      ]

  fold_skills_selected : RunState → Event → Result FoldError RunState
  unfolding selected_at
  fold_skills_selected rs e = do
    d ← or_error parse (json.skills_selected e.event_data)
    selected_at rs e.path d

  fold_node_invalidated : RunState → Event → Result FoldError RunState
  fold_node_invalidated rs e = do
    paths ← or_error parse (json.node_invalidated e.event_data)
    ok (clear_invalidated_paths rs paths)

  -- The switch of the loop. `seen` is seenRunStarted.
  pub fold_kind : EventKind → RunState → Bool → Event → Result FoldError RunState
  fold_kind EventKind.run_started rs seen e = fold_run_started rs seen e
  fold_kind EventKind.run_resumed rs seen e = fold_run_resumed rs e
  fold_kind EventKind.call_started rs seen e = fold_call_started rs e
  fold_kind EventKind.node_completed rs seen e = fold_node_completed rs e
  fold_kind EventKind.branch_taken rs seen e = fold_branch_taken rs e
  fold_kind EventKind.loop_iter rs seen e = fold_loop_iter rs e
  fold_kind EventKind.gate_attempt rs seen e = fold_gate_attempt rs e
  fold_kind EventKind.react_round rs seen e = fold_react_round rs e
  fold_kind EventKind.map_item rs seen e = fold_map_item rs e
  fold_kind EventKind.map_frontier rs seen e = fold_map_frontier rs e
  fold_kind EventKind.signal_received rs seen e = fold_signal_received rs e
  fold_kind EventKind.skills_selected rs seen e = fold_skills_selected rs e
  fold_kind EventKind.run_cancelled rs seen e = ok (set_cancelled rs true)
  fold_kind EventKind.node_invalidated rs seen e = fold_node_invalidated rs e
  fold_kind EventKind.observational rs seen e = ok rs

  -- The loop over the events.
  pub fold_events : RunState → Bool → List Event → Result FoldError RunState
  fold_events rs seen [] = ok rs
  fold_events rs seen (e ∷ events) = do
    rs' ← fold_kind (kind_of e.event_type) rs seen e
    fold_events rs' (seen || is_run_started (kind_of e.event_type)) events

  pub fold : List Event → Result FoldError RunState
  fold [] = ok zero_state
  fold (e ∷ events) =
      if is_run_started (kind_of e.event_type)
      then fold_events zero_state false (e ∷ events)
      else err first_event
