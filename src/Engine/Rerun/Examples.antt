-- ===== src/Engine/Rerun/Examples.antt =====
-- A rerun from the second of three top-level nodes (engine/rerun.go).
use awf.Prelude.{ℕ, ◌≡◌, refl, Bytes, codes, bytes_eq, [], ◌∷◌, List, ok}
use awf.Prelude.Map.{Map, lookup, insert, get_or}
use awf.Engine.Fold.{clear_invalidated_paths}
use awf.Engine.Rerun.{
  has_dot, rerun_first_segment, last_segment, add_slots, rerun_root_slots, split,
  parallels_but_last, rerun_supported, add_path, add_keys, all_committed_paths, last_failed_from,
  last_failed_path, bytes_lt, insert_path, sort_paths, named, only_match, resolve_rerun_target,
  unknown_path, is_affected, affected, compute_rerun_invalidation,
}
use awf.Engine.Rerun.Hits.{InSlot, Hit}
use awf.Engine.Rerun.Invalidation.{Reruns, compute_rerun_invalidation-Reruns}
use awf.Engine.Rerun.Target.{Meant, resolve_rerun_target-Meant}
use awf.Engine.RunState.{RunState, zero_state}
use awf.State.Blobs.{has_prefix}

-- A step, a parallel node with one branch, and a step.
abbrev walk : List Bytes
walk = codes "a" ∷ codes "parallel[1]" ∷ codes "parallel[1].b" ∷ codes "c" ∷ []

abbrev slots : Map ℕ
unfolding rerun_root_slots add_slots has_dot insert
slots = rerun_root_slots walk

abbrev branched : RunState
branched = record zero_state {
  branches = (codes "a", "then") ∷ (codes "parallel[1].b", "then") ∷ (codes "c", "else") ∷ [];
}

abbrev forgotten : List Bytes
forgotten = codes "c" ∷ codes "parallel[1].b" ∷ []

computes : compute_rerun_invalidation slots branched (codes "parallel[1].b") ≡ ok forgotten
unfolding compute_rerun_invalidation slots rerun_supported split parallels_but_last has_prefix
    rerun_first_segment all_committed_paths add_keys add_path unknown_path affected is_affected
    get_or lookup sort_paths insert_path bytes_lt bytes_eq
computes = refl

compute_rerun_invalidation-Reruns_example :
    (t : ℕ) × InSlot slots t (codes "parallel[1].b")
    × Reruns branched
        (clear_invalidated_paths branched forgotten)
        (Hit slots (codes "parallel[1].b") t)
compute_rerun_invalidation-Reruns_example =
    compute_rerun_invalidation-Reruns slots branched (codes "parallel[1].b") forgotten computes

resolves : resolve_rerun_target slots branched [] (codes "b") ≡ ok (codes "parallel[1].b")
unfolding resolve_rerun_target slots all_committed_paths add_keys add_path lookup last_failed_path
    last_failed_from sort_paths insert_path named last_segment has_dot only_match bytes_eq
resolves = refl

resolve_rerun_target-Meant_example : Meant slots branched [] (codes "b") (codes "parallel[1].b")
resolve_rerun_target-Meant_example =
    resolve_rerun_target-Meant slots branched [] (codes "b") (codes "parallel[1].b") resolves
