-- ===== src/Engine/Rerun/Target.antt =====
-- What the argument of --from resolves to (engine/rerun.go, ResolveRerunTarget).
use awf.Prelude.{
  ℕ, ◌≡◌, str_eq, str_eq_iff, ◌++◌, All, refl, sym, ap, ◌∙◌, ◌⊎◌, inl, inr, Bytes, bytes_eq,
  bytes_eq_iff, bytes_eq_refl, true, false, not, ◌&&◌, ◌||◌, List, [], ◌∷◌, some, ok, if◌then◌else◌,
  Bool-cases, Option-cases, arith,
}
use mathlib.Core.Path.{subst}
use awf.Prelude.Map.{Map, lookup}
use awf.Engine.Fold.Invalidated.{contains}
use awf.Engine.Rerun.{
  all_committed_paths, last_failed_from, last_failed_path, last_segment, named, only_match,
  sort_paths, resolve_rerun_target,
}
use awf.Engine.Rerun.Invalidation.{contains-sort_paths}
use awf.Engine.RunState.{RunState}
use awf.State.Event.{Event}

contains-named :
    (arg p : Bytes) (paths : List Bytes)
    → contains p (named arg paths) ≡ (contains p paths && bytes_eq (last_segment p) arg)
unfolding named
contains-named arg p [] = refl
contains-named arg p (q ∷ paths) = elim (Bool-cases (bytes_eq q p)) [
  | inl same ↦ ground (arith, same, (bytes_eq_iff q p).0 same, contains-named arg p paths)
  | inr other ↦ ground (arith, other, contains-named arg p paths)
]

-- The only committed path whose last segment is the argument.
abbrev pub OnlyMatch : RunState → Bytes → Bytes → Type 0
OnlyMatch rs arg p =
    (contains p (all_committed_paths rs) ≡ true)
    × (last_segment p ≡ arg)
    × ((q : Bytes) → contains q (all_committed_paths rs) ≡ true → last_segment q ≡ arg → q ≡ p)

-- No node failed in this event, or its path is missing.
abbrev pub NotFailed : Event → Type 0
NotFailed e = e.event_type ≡ "node.failed" → e.path ≡ []

-- The path of the last node.failed event that has one.
abbrev pub LastFailed : List Event → Bytes → Type 0
LastFailed events p =
    (before after : List Event) × (e : Event) × (events ≡ before ++ (e ∷ after))
    × (e.event_type ≡ "node.failed")
    × (e.path ≡ p)
    × All NotFailed after

not_failed :
    (e : Event)
    → (str_eq e.event_type "node.failed" && not (bytes_eq e.path [])) ≡ false
    → NotFailed e
not_failed e h typed =
    (bytes_eq_iff e.path []).0 (ground (arith, h, (str_eq_iff e.event_type "node.failed").1 typed))

LastFailed-cons :
    (e : Event) (events : List Event) (p : Bytes) → LastFailed events p → LastFailed (e ∷ events) p
LastFailed-cons e events p (before, after, f, split', typed, at, quiet) =
    (e ∷ before, after, f, ap (λ es. e ∷ es) split', typed, at, quiet)

last_failed_from-LastFailed :
    (last : Bytes) (events : List Event)
    → ((last_failed_from last events ≡ last) × All NotFailed events)
      ⊎ LastFailed events (last_failed_from last events)
unfolding last_failed_from
last_failed_from-LastFailed last [] = inl (refl, tt)
last_failed_from-LastFailed last (e ∷ events) =
    elim (Bool-cases (str_eq e.event_type "node.failed" && not (bytes_eq e.path []))) [
      | inl failed ↦
          let typed : e.event_type ≡ "node.failed" =
            (str_eq_iff e.event_type "node.failed").0 (ground (arith, failed)) in
          rw failed (elim (last_failed_from-LastFailed e.path events) [
            | inl (same, quiet) ↦ inr ([], events, e, refl, typed, sym same, quiet)
            | inr later ↦ inr (LastFailed-cons e events _ later)
          ])
      | inr other ↦ rw other (elim (last_failed_from-LastFailed last events) [
        | inl (same, quiet) ↦ inl (same, (not_failed e other, quiet))
        | inr later ↦ inr (LastFailed-cons e events _ later)
      ])
    ]

last_failed_path-LastFailed :
    (events : List Event)
    → bytes_eq (last_failed_path events) [] ≡ false
    → LastFailed events (last_failed_path events)
unfolding last_failed_path bytes_eq
last_failed_path-LastFailed events some_path = elim (last_failed_from-LastFailed [] events) [
  | inl (empty, quiet) ↦ absurd (cc (some_path, empty))
  | inr found ↦ found
]

abbrev pub Meant : Map ℕ → RunState → List Event → Bytes → Bytes → Type 0
Meant slots rs events arg p =
    ((p ≡ arg)
      × ((contains p (all_committed_paths rs) ≡ true) ⊎ ((i : ℕ) × (lookup p slots ≡ some i))))
    ⊎ ((LastFailed events p × ((arg ≡ p) ⊎ (arg ≡ last_segment p))) ⊎ OnlyMatch rs arg p)

only_match-eq-ok : (matches : List Bytes) (p : Bytes) → only_match matches ≡ ok p → matches ≡ p ∷ []
unfolding only_match
only_match-eq-ok [] p h = absurd (cc h)
only_match-eq-ok (q ∷ []) p h = cc h
only_match-eq-ok (q ∷ r ∷ matches) p h = absurd (cc h)

only_match-OnlyMatch :
    (rs : RunState) (arg p : Bytes)
    → only_match (sort_paths (named arg (all_committed_paths rs))) ≡ ok p
    → OnlyMatch rs arg p
only_match-OnlyMatch rs arg p h =
    let all = all_committed_paths rs in
    let found : (q : Bytes)
        → (bytes_eq p q || false) ≡ (contains q all && bytes_eq (last_segment q) arg) =
      λ q.
        ap (contains q) (sym (only_match-eq-ok (sort_paths (named arg all)) p h))
        ∙ contains-sort_paths q (named arg all)
        ∙ contains-named arg q all in
    (
      ground (arith, found p, bytes_eq_refl p),
      (bytes_eq_iff (last_segment p) arg).0 (ground (arith, found p, bytes_eq_refl p)),
      λ q there same. sym (
          (bytes_eq_iff p q).0
            (ground (arith, found q, there, (bytes_eq_iff (last_segment q) arg).1 same))),
    )

failed_target :
    (slots : Map ℕ) (rs : RunState) (events : List Event) (arg p : Bytes)
    → (if not (bytes_eq (last_failed_path events) [])
          && (bytes_eq arg (last_failed_path events)
              || bytes_eq arg (last_segment (last_failed_path events)))
        then ok (last_failed_path events)
        else only_match (sort_paths (named arg (all_committed_paths rs))))
      ≡ ok p
    → Meant slots rs events arg p
failed_target slots rs events arg p h =
    let fp = last_failed_path events in
    elim (Bool-cases (bytes_eq fp [])) [
      | inl nothing ↦ inr (inr (only_match-OnlyMatch rs arg p (rw nothing at h)))
      | inr failed ↦
          let last_failed = last_failed_path-LastFailed events failed in
          elim (Bool-cases (bytes_eq arg fp)) [
            | inl whole ↦
                let same : fp ≡ p = cc (rw whole at (rw failed at h)) in
                inr (
                  inl (
                    subst (LastFailed events) same last_failed,
                    inl ((bytes_eq_iff arg fp).0 whole ∙ same),
                  ))
            | inr other ↦ elim (Bool-cases (bytes_eq arg (last_segment fp))) [
              | inl bare ↦
                  let same : fp ≡ p = cc (rw bare at (rw other at (rw failed at h))) in
                  inr (
                    inl (
                      subst (LastFailed events) same last_failed,
                      inr ((bytes_eq_iff arg (last_segment fp)).0 bare ∙ ap last_segment same),
                    ))
              | inr unlike ↦ inr (
                  inr (only_match-OnlyMatch rs arg p (rw unlike at (rw other at (rw failed at h)))))
            ]
          ]
    ]

-- What the argument of --from resolves to is the argument itself, as a committed path or as a
-- top-level node; or the path of the last node.failed event that has one, which the argument is or
-- ends; or else the one committed path whose last segment is the argument, never one of several.
pub resolve_rerun_target-Meant :
    (slots : Map ℕ) (rs : RunState) (events : List Event) (arg p : Bytes)
    → resolve_rerun_target slots rs events arg ≡ ok p
    → Meant slots rs events arg p
unfolding resolve_rerun_target
resolve_rerun_target-Meant slots rs events arg p h =
    elim (Bool-cases (contains arg (all_committed_paths rs))) [
      | inl there ↦
          let same : arg ≡ p = cc (rw (there, resolve_rerun_target) at h) in
          inl (sym same, inl (ap (λ q. contains q (all_committed_paths rs)) (sym same) ∙ there))
      | inr uncommitted ↦
          let next = rw (uncommitted, resolve_rerun_target) at h in
          elim (Option-cases (lookup arg slots)) [
            | inr (i, slot) ↦
                let same : arg ≡ p = cc (rw (slot, resolve_rerun_target) at next) in
                inl (sym same, inr (i, ap (λ q. lookup q slots) (sym same) ∙ slot))
            | inl no_slot ↦
                failed_target slots rs events arg p (rw (no_slot, resolve_rerun_target) at next)
          ]
    ]
