-- ===== src/Engine/Fold/Invalidated.antt =====
-- The node.invalidated arm of the replay (engine/fold.go, engine/rerun.go).
use awf.Prelude.{
  ◌≡◌, refl, ap, Bytes, bytes_eq, Bool, false, ◌||◌, List, [], ◌∷◌, ◌++◌, Option, none, some, ok,
  arith, if◌then◌else◌,
}
use awf.Prelude.Map.{Map, lookup, delete, lookup-delete}
use awf.State.Event.{Event}
use awf.Engine.Events.{Json}
use awf.Engine.Events.Kinds.{EventKind, kind_of}
use awf.Engine.RunState.{RunState}
use awf.Engine.Fold.{fold, fold_kind, fold_node_invalidated, clear_path, clear_invalidated_paths}
use awf.Engine.Fold.Prefix.{fold-append_one}

abbrev pub contains : Bytes → List Bytes → Bool
contains p [] = false
contains p (q ∷ paths) = bytes_eq q p || contains p paths

-- What is left of one index.
module _ {V : Type 0} (index : RunState → Map V)
    (clears : (rs : RunState) (q : Bytes) → index (clear_path rs q) ≡ delete q (index rs)) where
  lookup-clear_invalidated_paths :
      (rs : RunState) (paths : List Bytes) (p : Bytes)
      → lookup p (index (clear_invalidated_paths rs paths))
        ≡ (if contains p paths then none else lookup p (index rs))
  unfolding clear_invalidated_paths
  lookup-clear_invalidated_paths rs [] p = refl
  lookup-clear_invalidated_paths rs (q ∷ paths) p = ground (
    arith,
    lookup-clear_invalidated_paths (clear_path rs q) paths p,
    ap (lookup p) (clears rs q),
    lookup-delete q p (index rs),
  )

-- The path is forgotten by the index where it is listed, and otherwise has its old entry.
abbrev pub Forgets : {V : Type 0} → Map V → Map V → List Bytes → Type 0
Forgets before after paths =
    (p : Bytes) → lookup p after ≡ (if contains p paths then none else lookup p before)

pub record IsInvalidated (rs rs' : RunState) (paths : List Bytes) : Type 0 where
  pub completed : Forgets rs.completed rs'.completed paths
  pub branches : Forgets rs.branches rs'.branches paths
  pub loop_iters : Forgets rs.loop_iters rs'.loop_iters paths
  pub gate_attempts : Forgets rs.gate_attempts rs'.gate_attempts paths
  pub react_rounds : Forgets rs.react_rounds rs'.react_rounds paths
  pub map_items : Forgets rs.map_items rs'.map_items paths
  pub call_started : Forgets rs.call_started rs'.call_started paths
  pub signal_received_at : Forgets rs.signal_received_at rs'.signal_received_at paths
  pub selected_skills : Forgets rs.selected_skills rs'.selected_skills paths
  pub session_refs : Forgets rs.session_refs rs'.session_refs paths
  pub snapshot_refs : rs'.snapshot_refs ≡ rs.snapshot_refs
  pub signals : rs'.signals ≡ rs.signals

snapshot_refs-clear :
    (rs : RunState) (paths : List Bytes)
    → (clear_invalidated_paths rs paths).snapshot_refs ≡ rs.snapshot_refs
unfolding clear_invalidated_paths clear_path
snapshot_refs-clear rs [] = refl
snapshot_refs-clear rs (q ∷ paths) = snapshot_refs-clear (clear_path rs q) paths

signals-clear :
    (rs : RunState) (paths : List Bytes) → (clear_invalidated_paths rs paths).signals ≡ rs.signals
unfolding clear_invalidated_paths clear_path
signals-clear rs [] = refl
signals-clear rs (q ∷ paths) = signals-clear (clear_path rs q) paths

pub clear_invalidated_paths-IsInvalidated :
    (rs : RunState) (paths : List Bytes) → IsInvalidated rs (clear_invalidated_paths rs paths) paths
unfolding clear_path
clear_invalidated_paths-IsInvalidated rs paths = record {
  completed = lookup-clear_invalidated_paths (λ r. r.completed) (λ _ _. refl) rs paths;
  branches = lookup-clear_invalidated_paths (λ r. r.branches) (λ _ _. refl) rs paths;
  loop_iters = lookup-clear_invalidated_paths (λ r. r.loop_iters) (λ _ _. refl) rs paths;
  gate_attempts = lookup-clear_invalidated_paths (λ r. r.gate_attempts) (λ _ _. refl) rs paths;
  react_rounds = lookup-clear_invalidated_paths (λ r. r.react_rounds) (λ _ _. refl) rs paths;
  map_items = lookup-clear_invalidated_paths (λ r. r.map_items) (λ _ _. refl) rs paths;
  call_started = lookup-clear_invalidated_paths (λ r. r.call_started) (λ _ _. refl) rs paths;
  signal_received_at =
      lookup-clear_invalidated_paths (λ r. r.signal_received_at) (λ _ _. refl) rs paths;
  selected_skills = lookup-clear_invalidated_paths (λ r. r.selected_skills) (λ _ _. refl) rs paths;
  session_refs = lookup-clear_invalidated_paths (λ r. r.session_refs) (λ _ _. refl) rs paths;
  snapshot_refs = snapshot_refs-clear rs paths;
  signals = signals-clear rs paths;
}

-- After a log that replays, a node.invalidated event whose data parses takes its paths out of
-- every index of paths and leaves every other path, the snapshots and the signal queues as they
-- were.
pub fold-IsInvalidated :
    (json : Json) (get : Bytes → Option Bytes) (d e : Event) (es : List Event) (rs : RunState)
    (paths : List Bytes)
    → fold json get (d ∷ es) ≡ ok rs
    → kind_of e.event_type ≡ EventKind.node_invalidated
    → json.node_invalidated e.event_data ≡ some paths
    → (rs' : RunState) × (fold json get (d ∷ (es ++ e ∷ [])) ≡ ok rs') × IsInvalidated rs rs' paths
unfolding fold_kind fold_node_invalidated
fold-IsInvalidated json get d e es rs paths done kind parsed = (
  clear_invalidated_paths rs paths,
  rw (fold-append_one json get d e es, done, kind, parsed),
  clear_invalidated_paths-IsInvalidated rs paths,
)
