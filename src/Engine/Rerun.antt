-- ===== src/Engine/Rerun.antt =====
-- engine/rerun.go: what a run with --from forgets of the committed work.
--
-- The paths that ir.WalkNodes visits of the workflow's graph, in order, are a parameter. Go visits
-- the keys of a map in any order; here they come in the order of the indices.
pub mod Hits
pub mod Invalidation
pub mod Target
mod Examples
use awf.Prelude.{
  ℕ, zero, suc, Bytes, codes, bytes_eq, Bool, true, false, not, ◌&&◌, ◌||◌, List, [], ◌∷◌, ◌++◌,
  Option, none, some, String, str_eq, Result, ok, err, ltb, ◌==◌, if◌then◌else◌,
}
use awf.Prelude.Map.{Map, lookup, insert, get_or}
use awf.Engine.Fold.Invalidated.{contains}
use awf.Engine.RunState.{RunState}
use awf.State.Blobs.{has_prefix}
use awf.State.Event.{Event}

pub data RerunError : Type 0 where
  nested_target unknown_root no_match : RerunError
  structure_changed : Bytes → RerunError
  ambiguous : List Bytes → RerunError

abbrev dot : ℕ
dot = 46

-- strings.Contains(path, ".")
unfoldable pub has_dot : Bytes → Bool
has_dot [] = false
has_dot (c ∷ cs) = c == dot || has_dot cs

unfoldable pub rerun_first_segment : Bytes → Bytes
rerun_first_segment [] = []
rerun_first_segment (c ∷ cs) =
    let rest = rerun_first_segment cs in if c == dot then [] else c ∷ rest

-- p[strings.LastIndexByte(p, '.')+1:]
unfoldable pub last_segment : Bytes → Bytes
unfolding has_dot
last_segment [] = []
last_segment (c ∷ cs) =
    let rest = last_segment cs in if has_dot cs then rest else if c == dot then cs else c ∷ cs

unfoldable pub add_slots : List Bytes → ℕ → Map ℕ → Map ℕ
unfolding has_dot
add_slots [] i slots = slots
add_slots (p ∷ walk) i slots = elim (has_dot p) [
  | true ↦ add_slots walk i slots
  | false ↦ add_slots walk (suc i) (insert p i slots)
]

unfoldable pub rerun_root_slots : List Bytes → Map ℕ
unfolding add_slots
rerun_root_slots walk = add_slots walk 0 []

-- strings.Split(target, ".")
abbrev push : ℕ → List Bytes → List Bytes
push c [] = (c ∷ []) ∷ []
push c (s ∷ segments) = (c ∷ s) ∷ segments

unfoldable pub split : Bytes → List Bytes
split [] = [] ∷ []
split (c ∷ cs) = let rest = split cs in if c == dot then [] ∷ rest else push c rest

unfoldable pub parallels_but_last : List Bytes → Bool
parallels_but_last [] = true
parallels_but_last (s ∷ []) = true
parallels_but_last (s ∷ t ∷ segments) =
    has_prefix s (codes "parallel[") && parallels_but_last (t ∷ segments)

unfoldable pub rerun_supported : Bytes → Bool
unfolding split parallels_but_last
rerun_supported target = parallels_but_last (split target)

-- seen[k] = struct{}{}
unfoldable pub add_path : Bytes → List Bytes → List Bytes
add_path p seen = if contains p seen then seen else p ∷ seen

unfoldable pub add_keys : {V : Type 0} → Map V → List Bytes → List Bytes
unfolding add_path
add_keys [] seen = seen
add_keys ((k, v) ∷ m) seen = add_path k (add_keys m seen)

unfoldable pub all_committed_paths : RunState → List Bytes
unfolding add_keys
all_committed_paths rs = add_keys rs.completed (
    add_keys rs.branches (
      add_keys rs.loop_iters (
        add_keys rs.gate_attempts (
          add_keys rs.react_rounds (
            add_keys rs.map_items (
              add_keys rs.call_started
                (add_keys rs.signal_received_at (add_keys rs.selected_skills []))))))))

unfoldable pub last_failed_from : Bytes → List Event → Bytes
last_failed_from last [] = last
last_failed_from last (e ∷ events) =
    last_failed_from
      (if str_eq e.event_type "node.failed" && not (bytes_eq e.path []) then e.path else last)
      events

unfoldable pub last_failed_path : List Event → Bytes
unfolding last_failed_from
last_failed_path events = last_failed_from [] events

-- sort.Strings
unfoldable pub bytes_lt : Bytes → Bytes → Bool
bytes_lt xs [] = false
bytes_lt [] (y ∷ ys) = true
bytes_lt (x ∷ xs) (y ∷ ys) = ltb x y || (x == y && bytes_lt xs ys)

unfoldable pub insert_path : Bytes → List Bytes → List Bytes
insert_path p [] = p ∷ []
insert_path p (q ∷ paths) =
    let rest = insert_path p paths in if bytes_lt q p then q ∷ rest else p ∷ q ∷ paths

unfoldable pub sort_paths : List Bytes → List Bytes
unfolding insert_path
sort_paths [] = []
sort_paths (p ∷ paths) = insert_path p (sort_paths paths)

unfoldable pub named : Bytes → List Bytes → List Bytes
unfolding last_segment
named arg [] = []
named arg (p ∷ paths) =
    let rest = named arg paths in if bytes_eq (last_segment p) arg then p ∷ rest else rest

-- The switch on the matches of a bare step id.
unfoldable pub only_match : List Bytes → Result RerunError Bytes
only_match [] = err no_match
only_match (p ∷ []) = ok p
only_match (p ∷ q ∷ matches) = err (ambiguous (p ∷ q ∷ matches))

unfoldable pub resolve_rerun_target :
    Map ℕ → RunState → List Event → Bytes → Result RerunError Bytes
unfolding all_committed_paths last_failed_path named only_match sort_paths
resolve_rerun_target slots rs events arg =
    let paths = all_committed_paths rs in
    let fp = last_failed_path events in
    if contains arg paths then ok arg else elim (lookup arg slots) [
      | some i ↦ ok arg
      | none ↦
          if not (bytes_eq fp []) && (bytes_eq arg fp || bytes_eq arg (last_segment fp))
          then ok fp
          else only_match (sort_paths (named arg paths))
    ]

-- A committed path without a top-level node in the graph.
unfoldable pub unknown_path : Map ℕ → List Bytes → Option Bytes
unfolding rerun_first_segment
unknown_path slots [] = none
unknown_path slots (p ∷ paths) = elim (lookup (rerun_first_segment p) slots) [
  | none ↦ some p
  | some i ↦ unknown_path slots paths
]

-- In the target's subtree, or behind its top-level node.
unfoldable pub is_affected : Map ℕ → Bytes → ℕ → Bytes → Bool
unfolding rerun_first_segment
is_affected slots target t p =
    (bytes_eq p target || has_prefix p (target ++ codes "."))
    || ltb t (get_or (rerun_first_segment p) 0 slots)

unfoldable pub affected : Map ℕ → Bytes → ℕ → List Bytes → List Bytes
unfolding is_affected
affected slots target t [] = []
affected slots target t (p ∷ paths) =
    let rest = affected slots target t paths in
    if is_affected slots target t p then p ∷ rest else rest

unfoldable pub compute_rerun_invalidation :
    Map ℕ → RunState → Bytes → Result RerunError (List Bytes)
unfolding rerun_supported all_committed_paths unknown_path affected sort_paths
compute_rerun_invalidation slots rs target =
    let committed = all_committed_paths rs in
    if not (rerun_supported target)
    then err nested_target
    else elim (lookup (rerun_first_segment target) slots) [
      | none ↦ err unknown_root
      | some t ↦ elim (unknown_path slots committed) [
        | some p ↦ err (structure_changed p)
        | none ↦ ok (sort_paths (affected slots target t committed))
      ]
    ]
