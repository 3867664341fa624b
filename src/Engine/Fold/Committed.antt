-- ===== src/Engine/Fold/Committed.antt =====
-- The outcomes of completed nodes in the replay (engine/fold.go, the node.completed arm).
use awf.Prelude.{
  ◌≡◌, refl, sym, ◌∙◌, Bool-cases, inl, inr, Bytes, Bool, false, ◌||◌, List, [], ◌∷◌, Option, some,
  ok, ◌>>=◌, >>=-eq-ok, arith, ap,
}
use awf.Prelude.Map.{lookup, lookup-insert, lookup-delete}
use mathlib.Core.Path.{subst}
use awf.State.Event.{Event}
use awf.Engine.Events.{Json, NodeCompletedData, MapItemData}
use awf.Engine.Events.Kinds.{EventKind, kind_of}
use awf.Engine.RunState.{
  RunState, NodeResult, zero_state, record_completed, record_branch, record_loop_iter,
  record_gate_attempt, record_react_round, record_map_item, append_signal,
  record_signal_received_at, record_selected_skills, record_call_started, set_cancelled,
}
use awf.Engine.RunState.Outcomes.{outcome_ok}
use awf.Engine.Fold.{
  parse, or_error, is_run_started, fold_kind, fold_events, fold, node_result, commit_node,
  clear_path, clear_invalidated_paths, add_frontier, fold_node_completed, fold_node_invalidated,
  fold_run_started, fold_run_resumed, fold_call_started, fold_branch_taken, fold_loop_iter,
  fold_gate_attempt, fold_react_round, fold_map_item, fold_map_frontier, fold_signal_received,
  fold_skills_selected,
}

-- Every node that counts as completed has the outcome ok.
pub record OkOnly (rs : RunState) : Type 0 where
  pub at_path :
      (path : Bytes) (nr : NodeResult)
      → lookup path rs.completed ≡ some nr
      → nr.outcome ≡ outcome_ok

-- A state with the same completed nodes.
OkOnly-same : (rs rs' : RunState) → rs'.completed ≡ rs.completed → OkOnly rs → OkOnly rs'
OkOnly-same rs rs' e h = record { at_path = λ path nr p. h.at_path path nr (rw e at p) }

completed-add_frontier :
    (path : Bytes) (items : List MapItemData) (rs : RunState)
    → (add_frontier path items rs).completed ≡ rs.completed
unfolding add_frontier
completed-add_frontier path [] rs = refl
completed-add_frontier path (it ∷ items) rs = completed-add_frontier path items _

clear_path-OkOnly : (rs : RunState) (p : Bytes) → OkOnly rs → OkOnly (clear_path rs p)
unfolding clear_path
clear_path-OkOnly rs p h = record {
  at_path =
      λ path nr found. h.at_path path nr (ground (arith, found, lookup-delete p path rs.completed));
}

clear_invalidated_paths-OkOnly :
    (rs : RunState) (paths : List Bytes) → OkOnly rs → OkOnly (clear_invalidated_paths rs paths)
unfolding clear_invalidated_paths
clear_invalidated_paths-OkOnly rs [] h = h
clear_invalidated_paths-OkOnly rs (p ∷ paths) h =
    clear_invalidated_paths-OkOnly (clear_path rs p) paths (clear_path-OkOnly rs p h)

zero_state-OkOnly : OkOnly zero_state
unfolding lookup
zero_state-OkOnly = record { at_path = λ path nr found. cc found }

module _ (json : Json) (get : Bytes → Option Bytes) where
  outcome-node_result :
      (d : NodeCompletedData) (nr : NodeResult)
      → node_result json get d ≡ ok nr
      → nr.outcome ≡ outcome_ok
  unfolding node_result
  outcome-node_result d nr h = ground arith

  commit_node-OkOnly :
      (rs : RunState) (path : Bytes) (d : NodeCompletedData) (nr : NodeResult)
      → nr.outcome ≡ outcome_ok
      → OkOnly rs
      → OkOnly (commit_node json get rs path d nr)
  unfolding commit_node record_completed
  commit_node-OkOnly rs path d nr good h = record {
    at_path =
        λ j found p. ground (arith, p, lookup-insert path j nr rs.completed, h.at_path j found);
  }

  node_completed-OkOnly :
      (rs rs' : RunState) (e : Event)
      → fold_node_completed json get rs e ≡ ok rs'
      → OkOnly rs
      → OkOnly rs'
  unfolding fold_node_completed
  node_completed-OkOnly rs rs' e done h =
      let parsed =
        >>=-eq-ok (or_error parse (json.node_completed e.event_data))
          (λ d. node_result json get d >>= λ nr. ok (commit_node json get rs e.path d nr)) done in
      let built =
        >>=-eq-ok (node_result json get parsed.0)
          (λ nr. ok (commit_node json get rs e.path parsed.0 nr)) parsed.2 in
      subst OkOnly (cc (built.2)) (
        commit_node-OkOnly rs e.path parsed.0 built.0 (outcome-node_result parsed.0 built.0 built.1)
          h)

  node_invalidated-OkOnly :
      (rs rs' : RunState) (e : Event)
      → fold_node_invalidated json get rs e ≡ ok rs'
      → OkOnly rs
      → OkOnly rs'
  unfolding fold_node_invalidated
  node_invalidated-OkOnly rs rs' e done h =
      let parsed =
        >>=-eq-ok (or_error parse (json.node_invalidated e.event_data))
          (λ paths. ok (clear_invalidated_paths rs paths)) done in
      subst OkOnly (cc (parsed.2)) (clear_invalidated_paths-OkOnly rs parsed.0 h)

  map_frontier-completed :
      (rs rs' : RunState) (e : Event)
      → fold_map_frontier json get rs e ≡ ok rs'
      → rs'.completed ≡ rs.completed
  unfolding fold_map_frontier
  map_frontier-completed rs rs' e done =
      let parsed =
        >>=-eq-ok (or_error parse (json.map_frontier e.event_data))
          (λ items. ok (add_frontier e.path items rs)) done in
      let same : add_frontier e.path parsed.0 rs ≡ rs' = cc (parsed.2) in
      ap (λ (r : RunState). r.completed) (sym same) ∙ completed-add_frontier e.path parsed.0 rs

  fold_kind-OkOnly :
      (k : EventKind) (rs rs' : RunState) (seen : Bool) (e : Event)
      → fold_kind json get k rs seen e ≡ ok rs'
      → OkOnly rs
      → OkOnly rs'
  unfolding fold_kind
  fold_kind-OkOnly EventKind.run_started rs rs' seen e done h =
      OkOnly-same rs rs' (unfold fold_run_started in ground arith) h
  fold_kind-OkOnly EventKind.run_resumed rs rs' seen e done h =
      OkOnly-same rs rs' (unfold fold_run_resumed in ground arith) h
  fold_kind-OkOnly EventKind.call_started rs rs' seen e done h =
      OkOnly-same rs rs' (unfold fold_call_started record_call_started in ground arith) h
  fold_kind-OkOnly EventKind.node_completed rs rs' seen e done h =
      node_completed-OkOnly rs rs' e done h
  fold_kind-OkOnly EventKind.branch_taken rs rs' seen e done h =
      OkOnly-same rs rs' (unfold fold_branch_taken record_branch in ground arith) h
  fold_kind-OkOnly EventKind.loop_iter rs rs' seen e done h =
      OkOnly-same rs rs' (unfold fold_loop_iter record_loop_iter in ground arith) h
  fold_kind-OkOnly EventKind.gate_attempt rs rs' seen e done h =
      OkOnly-same rs rs' (unfold fold_gate_attempt record_gate_attempt in ground arith) h
  fold_kind-OkOnly EventKind.react_round rs rs' seen e done h =
      OkOnly-same rs rs' (unfold fold_react_round record_react_round in ground arith) h
  fold_kind-OkOnly EventKind.map_item rs rs' seen e done h =
      OkOnly-same rs rs' (unfold fold_map_item record_map_item in ground arith) h
  fold_kind-OkOnly EventKind.map_frontier rs rs' seen e done h =
      OkOnly-same rs rs' (map_frontier-completed rs rs' e done) h
  fold_kind-OkOnly EventKind.signal_received rs rs' seen e done h =
      OkOnly-same rs rs'
        (unfold fold_signal_received append_signal record_signal_received_at in ground arith) h
  fold_kind-OkOnly EventKind.skills_selected rs rs' seen e done h =
      OkOnly-same rs rs' (unfold fold_skills_selected record_selected_skills in ground arith) h
  fold_kind-OkOnly EventKind.run_cancelled rs rs' seen e done h =
      OkOnly-same rs rs' (unfold set_cancelled in ground arith) h
  fold_kind-OkOnly EventKind.node_invalidated rs rs' seen e done h =
      node_invalidated-OkOnly rs rs' e done h
  fold_kind-OkOnly EventKind.observational rs rs' seen e done h =
      OkOnly-same rs rs' (ground arith) h

  fold_events-OkOnly :
      (rs rs' : RunState) (seen : Bool) (es : List Event)
      → fold_events json get rs seen es ≡ ok rs'
      → OkOnly rs
      → OkOnly rs'
  unfolding fold_events
  fold_events-OkOnly rs rs' seen [] done h = subst OkOnly (cc done) h
  fold_events-OkOnly rs rs' seen (e ∷ es) done h =
      let k = kind_of e.event_type in
      let step =
        >>=-eq-ok (fold_kind json get k rs seen e)
          (λ r. fold_events json get r (seen || is_run_started k) es) done in
      fold_events-OkOnly step.0 rs' _ es step.2 (fold_kind-OkOnly k rs step.0 seen e step.1 h)

  pub fold-OkOnly : (es : List Event) (rs : RunState) → fold json get es ≡ ok rs → OkOnly rs
  unfolding fold
  fold-OkOnly [] rs done = subst OkOnly (cc done) zero_state-OkOnly
  fold-OkOnly (e ∷ es) rs done = elim (Bool-cases (is_run_started (kind_of e.event_type))) [
    | inl first ↦
        fold_events-OkOnly zero_state rs false (e ∷ es) (rw first at done) zero_state-OkOnly
    | inr other ↦ cc (rw other at done)
  ]

-- In the state that the replay of a log gives, every node that counts as completed has the
-- outcome ok.
pub fold_committed :
    (json : Json) (get : Bytes → Option Bytes) (es : List Event) (rs : RunState) (path : Bytes)
    (nr : NodeResult)
    → fold json get es ≡ ok rs
    → lookup path rs.completed ≡ some nr
    → nr.outcome ≡ outcome_ok
fold_committed json get es rs path nr done found =
    (fold-OkOnly json get es rs done).at_path path nr found
