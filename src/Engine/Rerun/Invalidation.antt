-- ===== src/Engine/Rerun/Invalidation.antt =====
-- A rerun from a target forgets the target and what comes behind it (engine/rerun.go).
use awf.Prelude.{
  ℕ, ◌≡◌, refl, ap, Bytes, bytes_eq, bytes_eq_iff, Bool, true, false, ◌&&◌, ◌||◌, List, [], ◌∷◌,
  Option, none, some, ok, inl, inr, ◌∙◌, if◌then◌else◌, Bool-cases, Option-cases, arith,
}
use awf.Prelude.Map.{Map, lookup}
use awf.Engine.Fold.{clear_invalidated_paths}
use awf.Engine.Fold.Invalidated.{contains, clear_invalidated_paths-IsInvalidated}
use awf.Engine.Rerun.{
  add_path, add_keys, all_committed_paths, insert_path, sort_paths, is_affected, affected,
  unknown_path, rerun_supported, rerun_first_segment, compute_rerun_invalidation,
}
use awf.Engine.Rerun.Hits.{
  InSlot, Hit, rerun_first_segment-dotless, rerun_first_segment-Under, is_affected-Hit,
  Hit-is_affected,
}
use awf.Engine.RunState.{RunState}

abbrev is_present : {V : Type 0} → Option V → Bool
is_present none = false
is_present (some v) = true

contains-insert_path :
    (p q : Bytes) (paths : List Bytes)
    → contains p (insert_path q paths) ≡ (bytes_eq q p || contains p paths)
unfolding insert_path
contains-insert_path p q [] = refl
contains-insert_path p q (r ∷ paths) = ground (arith, contains-insert_path p q paths)

pub contains-sort_paths :
    (p : Bytes) (paths : List Bytes) → contains p (sort_paths paths) ≡ contains p paths
unfolding sort_paths
contains-sort_paths p [] = refl
contains-sort_paths p (q ∷ paths) =
    ground (arith, contains-insert_path p q (sort_paths paths), contains-sort_paths p paths)

contains-affected :
    (slots : Map ℕ) (target : Bytes) (t : ℕ) (p : Bytes) (paths : List Bytes)
    → contains p (affected slots target t paths)
      ≡ (contains p paths && is_affected slots target t p)
unfolding affected
contains-affected slots target t p [] = refl
contains-affected slots target t p (q ∷ paths) = elim (Bool-cases (bytes_eq q p)) [
  | inl same ↦
      ground (arith, same, (bytes_eq_iff q p).0 same, contains-affected slots target t p paths)
  | inr other ↦ ground (arith, other, contains-affected slots target t p paths)
]

contains-add_path :
    (p q : Bytes) (seen : List Bytes)
    → contains p (add_path q seen) ≡ (bytes_eq q p || contains p seen)
unfolding add_path
contains-add_path p q seen = elim (Bool-cases (bytes_eq q p)) [
  | inl same ↦ ground (arith, same, (bytes_eq_iff q p).0 same)
  | inr other ↦ ground (arith, other)
]

contains-add_keys :
    {V : Type 0} (p : Bytes) (m : Map V) (seen : List Bytes)
    → contains p (add_keys m seen) ≡ (is_present (lookup p m) || contains p seen)
unfolding add_keys lookup
contains-add_keys p [] seen = refl
contains-add_keys p ((k, v) ∷ m) seen =
    ground (arith, contains-add_path p k (add_keys m seen), contains-add_keys p m seen)

abbrev in_any : RunState → Bytes → Bool
in_any rs p =
    is_present (lookup p rs.completed)
    || (is_present (lookup p rs.branches)
        || (is_present (lookup p rs.loop_iters)
            || (is_present (lookup p rs.gate_attempts)
                || (is_present (lookup p rs.react_rounds)
                    || (is_present (lookup p rs.map_items)
                        || (is_present (lookup p rs.call_started)
                            || (is_present (lookup p rs.signal_received_at)
                                || is_present (lookup p rs.selected_skills))))))))

or_false : (b : Bool) → (b || false) ≡ b
or_false true = refl
or_false false = refl

contains-all_committed_paths :
    (rs : RunState) (p : Bytes) → contains p (all_committed_paths rs) ≡ in_any rs p
unfolding all_committed_paths
contains-all_committed_paths rs p =
    let s9 = add_keys rs.selected_skills [] in
    let s8 = add_keys rs.signal_received_at s9 in
    let s7 = add_keys rs.call_started s8 in
    let s6 = add_keys rs.map_items s7 in
    let s5 = add_keys rs.react_rounds s6 in
    let s4 = add_keys rs.gate_attempts s5 in
    let s3 = add_keys rs.loop_iters s4 in
    let s2 = add_keys rs.branches s3 in
    rw (
      contains-add_keys p rs.completed s2,
      contains-add_keys p rs.branches s3,
      contains-add_keys p rs.loop_iters s4,
      contains-add_keys p rs.gate_attempts s5,
      contains-add_keys p rs.react_rounds s6,
      contains-add_keys p rs.map_items s7,
      contains-add_keys p rs.call_started s8,
      contains-add_keys p rs.signal_received_at s9,
      contains-add_keys p rs.selected_skills [],
      or_false (is_present (lookup p rs.selected_skills)),
    )

-- An index has no entry at a path that is hit, and its old entry at any other.
abbrev pub Drops : {V : Type 0} → Map V → Map V → (Bytes → Type 0) → Type 0
Drops before after H =
    (p : Bytes) → (H p → lookup p after ≡ none) × ((H p → ⊥) → lookup p after ≡ lookup p before)

pub record Reruns (rs rs' : RunState) (H : Bytes → Type 0) : Type 0 where
  pub completed : Drops rs.completed rs'.completed H
  pub branches : Drops rs.branches rs'.branches H
  pub loop_iters : Drops rs.loop_iters rs'.loop_iters H
  pub gate_attempts : Drops rs.gate_attempts rs'.gate_attempts H
  pub react_rounds : Drops rs.react_rounds rs'.react_rounds H
  pub map_items : Drops rs.map_items rs'.map_items H
  pub call_started : Drops rs.call_started rs'.call_started H
  pub signal_received_at : Drops rs.signal_received_at rs'.signal_received_at H
  pub selected_skills : Drops rs.selected_skills rs'.selected_skills H

absent : {V : Type 0} (o : Option V) → is_present o ≡ false → o ≡ none
absent none h = refl
absent (some v) h = absurd (cc h)

-- One index, where the paths are the committed ones that are hit.
drops :
    {V : Type 0} (slots : Map ℕ) (rs : RunState) (target : Bytes) (t : ℕ) (paths : List Bytes)
    (before after : Map V)
    → ((p : Bytes) → lookup p after ≡ (if contains p paths then none else lookup p before))
    → ((p : Bytes)
        → contains p paths ≡ (contains p (all_committed_paths rs) && is_affected slots target t p))
    → ((p : Bytes) → in_any rs p ≡ false → is_present (lookup p before) ≡ false)
    → Drops before after (Hit slots target t)
drops slots rs target t paths before after cleared listed indexed p =
    let hit = is_affected slots target t p in
    let selected : contains p paths ≡ (in_any rs p && hit) =
      listed p ∙ ap (λ b. b && hit) (contains-all_committed_paths rs p) in
    (
      λ h.
          let affected' = Hit-is_affected slots target t p h in
          cleared p
          ∙ rw selected (
              rw affected' (elim (Bool-cases (in_any rs p)) [
                | inl there ↦ rw there refl
                | inr nowhere ↦ rw nowhere (absent (lookup p before) (indexed p nowhere))
              ])),
      λ h. elim (Bool-cases hit) [
        | inl affected' ↦ absurd (h (is_affected-Hit slots target t p affected'))
        | inr spared ↦
            cleared p
            ∙ rw selected (
                rw spared (elim (Bool-cases (in_any rs p)) [
                  | inl there ↦ rw there refl
                  | inr nowhere ↦ rw nowhere refl
                ]))
      ],
    )

selected_paths :
    (slots : Map ℕ) (rs : RunState) (target : Bytes) (paths : List Bytes)
    → compute_rerun_invalidation slots rs target ≡ ok paths
    → (t : ℕ) × (lookup (rerun_first_segment target) slots ≡ some t)
      × (paths ≡ sort_paths (affected slots target t (all_committed_paths rs)))
unfolding compute_rerun_invalidation
selected_paths slots rs target paths h = elim (Bool-cases (rerun_supported target)) [
  | inr nested ↦ absurd (cc (rw (nested, compute_rerun_invalidation) at h))
  | inl supported ↦
      let found = rw (supported, compute_rerun_invalidation) at h in
      elim (Option-cases (lookup (rerun_first_segment target) slots)) [
        | inl missing ↦ absurd (cc (rw (missing, compute_rerun_invalidation) at found))
        | inr (t, slot) ↦
            let known = rw (slot, compute_rerun_invalidation) at found in
            elim (Option-cases (unknown_path slots (all_committed_paths rs))) [
              | inr (p, unknown) ↦ absurd (cc (rw (unknown, compute_rerun_invalidation) at known))
              | inl fine ↦ (t, slot, cc (rw (fine, compute_rerun_invalidation) at known))
            ]
      ]
]

-- Where the invalidation of a rerun from a target does not fail, the target is at or in a top-level
-- node that has a slot, and clearing the computed paths leaves, in each of the nine indices of
-- committed work, no entry at the target, below it, or at or below a top-level node with a higher
-- slot, and every other entry as it was.
pub compute_rerun_invalidation-Reruns :
    (slots : Map ℕ) (rs : RunState) (target : Bytes) (paths : List Bytes)
    → compute_rerun_invalidation slots rs target ≡ ok paths
    → (t : ℕ) × InSlot slots t target
      × Reruns rs (clear_invalidated_paths rs paths) (Hit slots target t)
compute_rerun_invalidation-Reruns slots rs target paths h =
    let (t, slot, sorted) = selected_paths slots rs target paths h in
    let hit = is_affected slots target t in
    let all = all_committed_paths rs in
    let listed : (p : Bytes) → contains p paths ≡ (contains p all && hit p) = λ p.
      ap (contains p) sorted
      ∙ contains-sort_paths p (affected slots target t all)
      ∙ contains-affected slots target t p all in
    let cleared = clear_invalidated_paths-IsInvalidated rs paths in
    let after = clear_invalidated_paths rs paths in
    (
      t,
      (
        rerun_first_segment target,
        rerun_first_segment-dotless target,
        rerun_first_segment-Under target,
        slot,
      ),
      record {
        completed =
            drops slots rs target t paths rs.completed after.completed cleared.completed listed
              (λ p h. ground (arith, h));
        branches =
            drops slots rs target t paths rs.branches after.branches cleared.branches listed
              (λ p h. ground (arith, h));
        loop_iters =
            drops slots rs target t paths rs.loop_iters after.loop_iters cleared.loop_iters listed
              (λ p h. ground (arith, h));
        gate_attempts =
            drops slots rs target t paths rs.gate_attempts after.gate_attempts cleared.gate_attempts
              listed (λ p h. ground (arith, h));
        react_rounds =
            drops slots rs target t paths rs.react_rounds after.react_rounds cleared.react_rounds
              listed (λ p h. ground (arith, h));
        map_items =
            drops slots rs target t paths rs.map_items after.map_items cleared.map_items listed
              (λ p h. ground (arith, h));
        call_started =
            drops slots rs target t paths rs.call_started after.call_started cleared.call_started
              listed (λ p h. ground (arith, h));
        signal_received_at =
            drops slots rs target t paths rs.signal_received_at after.signal_received_at
              cleared.signal_received_at listed (λ p h. ground (arith, h));
        selected_skills =
            drops slots rs target t paths rs.selected_skills after.selected_skills
              cleared.selected_skills listed (λ p h. ground (arith, h));
      },
    )
