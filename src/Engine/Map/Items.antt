-- ===== src/Engine/Map/Items.antt =====
-- What a map without a prune clause commits of an item (engine/map.go, dispatchItem).
use awf.Prelude.{
  ℕ, ◌≡◌, ◌⊎◌, inl, inr, refl, ◌∙◌, Bytes, List, [], ◌∷◌, ◌++◌, append_assoc, Option, none, some,
  String, ok, length, take_whole, Option-cases, Result-cases,
}
use mathlib.Core.Path.{subst}
use awf.Engine.Events.{MapItemData}
use awf.Engine.Path.{item_path}
use awf.Engine.Map.{
  item_passed, item_failed, reason_image_unavailable, ItemRun, lost, unavailable, ran, ItemEnd,
  bound_cause, ended_status, outcome_text, item_status, commit_map_item, update_map_item_status,
  end_item,
}
use awf.Engine.RunState.Outcomes.{
  Outcome, outcome_ok, outcome_retryable_failure, outcome_permanent_failure, outcome_rejected,
  outcome_string, is_typed_failure_outcome,
}
use awf.Engine.Try.{skip_reason}
use awf.Engine.Walk.{
  World, Ended, Disk, Entry, Fault, node_skipped, item_committed, append, sync, durable,
}

-- The body ended ok, or in a skip.
abbrev pub Passes : Ended → Type 0
Passes e =
    ((e.error ≡ none) × (e.outcome ≡ some outcome_ok))
    ⊎ ((reason : String) × (skip_reason e.error ≡ some reason))

-- The outcomes that a body fails with.
abbrev pub IsFailure : Outcome → Type 0
IsFailure oc =
    (oc ≡ outcome_retryable_failure) ⊎ ((oc ≡ outcome_permanent_failure) ⊎ (oc ≡ outcome_rejected))

-- The body ended in a failure that is no skip, of this outcome and of this cause.
abbrev pub Fails : (Fault → Bytes) → Ended → String → Bytes → Type 0
Fails text e outcome cause =
    (skip_reason e.error ≡ none)
    × ((oc : Outcome) × IsFailure oc × (e.outcome ≡ some oc) × (outcome ≡ outcome_string oc))
    × ((f : Fault) × (e.error ≡ some f) × (cause ≡ bound_cause (text f)))

abbrev pub Stands : (Fault → Bytes) → Ended → String → String → Bytes → Type 0
Stands text e status outcome cause =
    ((status ≡ item_passed) × Passes e) ⊎ ((status ≡ item_failed) × Fails text e outcome cause)

-- What the record of an item says of its run.
abbrev pub Records : (Fault → Bytes) → ItemRun → MapItemData → Type 0
Records text (lost f) d = ⊥
Records text (unavailable w) d =
    (d.status ≡ item_failed) × (d.reason ≡ reason_image_unavailable) × (d.outcome ≡ "")
Records text (ran digest e) d =
    (d.image_digest ≡ digest) × (d.reason ≡ "") × Stands text e d.status d.outcome d.cause

module _ (text : Fault → Bytes) (disk : Disk) (others : World → World) (map_path : Bytes) where
  abbrev failed_end : World → Outcome → Fault → ItemEnd
  failed_end w oc f = record {
    world = w;
    status = item_failed;
    outcome = outcome_string oc;
    cause = bound_cause (text f);
  }

  failed_end-Stands :
      (e : Ended) (f : Fault) (oc : Outcome) (w : World) (s : ItemEnd)
      → IsFailure oc
      → skip_reason e.error ≡ none
      → e.error ≡ some f
      → e.outcome ≡ some oc
      → failed_end w oc f ≡ s
      → Stands text e s.status s.outcome s.cause
  failed_end-Stands e f oc w s failure no_skip raised out same =
      subst (λ (z : ItemEnd). Stands text e z.status z.outcome z.cause) same
        (inr (refl, (no_skip, (oc, failure, out, refl), (f, raised, refl))))

  ended_status-Stands :
      (w : World) (e : Ended) (error : Option Fault) (outcome : Option Outcome) (s : ItemEnd)
      → skip_reason e.error ≡ none
      → e.error ≡ error
      → e.outcome ≡ outcome
      → ended_status text disk others map_path w error outcome ≡ ok s
      → Stands text e s.status s.outcome s.cause
  unfolding ended_status outcome_text is_typed_failure_outcome
  ended_status-Stands w e (some f) (some outcome_retryable_failure) s no_skip raised out h =
      failed_end-Stands e f outcome_retryable_failure w s (inl refl) no_skip raised out (cc h)
  ended_status-Stands w e (some f) (some outcome_permanent_failure) s no_skip raised out h =
      failed_end-Stands e f outcome_permanent_failure w s (inr (inl refl)) no_skip raised out (cc h)
  ended_status-Stands w e (some f) (some outcome_rejected) s no_skip raised out h =
      failed_end-Stands e f outcome_rejected w s (inr (inr refl)) no_skip raised out (cc h)
  ended_status-Stands w e (some f) (some outcome_ok) s no_skip raised out h = absurd (cc h)
  ended_status-Stands w e (some f) none s no_skip raised out h = absurd (cc h)
  ended_status-Stands w e none (some outcome_ok) s no_skip raised out h =
      let passed : ItemEnd = record { world = w; status = item_passed; outcome = ""; cause = [] } in
      let same : passed ≡ s = cc h in
      subst (λ (z : ItemEnd). Stands text e z.status z.outcome z.cause) same
        (inl (refl, inl (raised, out)))
  ended_status-Stands w e none (some outcome_retryable_failure) s no_skip raised out h =
      absurd (cc h)
  ended_status-Stands w e none (some outcome_permanent_failure) s no_skip raised out h =
      absurd (cc h)
  ended_status-Stands w e none (some outcome_rejected) s no_skip raised out h = absurd (cc h)
  ended_status-Stands w e none none s no_skip raised out h = absurd (cc h)

  item_status-Stands :
      (item : ℕ) (e : Ended) (s : ItemEnd)
      → item_status text disk others map_path item e ≡ ok s
      → Stands text e s.status s.outcome s.cause
  unfolding item_status
  item_status-Stands item e s h = elim (Option-cases (skip_reason e.error)) [
    | inl no_skip ↦
        ended_status-Stands e.world e e.error e.outcome s no_skip refl refl
          (rw (no_skip, item_status) at h)
    | inr (reason, skipped) ↦
        let noted = rw (skipped, item_status) at h in
        elim (Result-cases (append disk e.world (node_skipped (item_path map_path item) reason))) [
          | inl (w, appended) ↦
              let passed : ItemEnd = record {
                world = w;
                status = item_passed;
                outcome = "";
                cause = [];
              } in
              let same : passed ≡ s = cc (rw (appended, item_status) at noted) in
              subst (λ (z : ItemEnd). Stands text e z.status z.outcome z.cause) same
                (inl (refl, inr (reason, skipped)))
          | inr (f, lost') ↦ absurd (cc (rw (lost', item_status) at noted))
        ]
  ]

  -- On disk, between what was on the log before and what the others wrote meanwhile.
  abbrev pub OnDisk : MapItemData → World → Type 0
  OnDisk d w = (log rest : List Entry) × (durable w ≡ log ++ (item_committed map_path d ∷ rest))

  -- What runs concurrently only adds to the log.
  module _ (adds : (w : World) → (es : List Entry) × ((others w).log ≡ w.log ++ es)) where
    commit_map_item-OnDisk :
        (w w' : World) (d : MapItemData)
        → commit_map_item text disk others map_path w d ≡ ok w'
        → OnDisk d w'
    unfolding commit_map_item append sync
    commit_map_item-OnDisk w w' d h =
        let entry = item_committed map_path d in
        elim (Option-cases (disk.append_fault w.log entry)) [
          | inr (f, bad) ↦ absurd (cc (rw (bad, commit_map_item) at h))
          | inl appended ↦
              let w1 : World = record w { log = w.log ++ entry ∷ [] } in
              let (rest, longer) = adds w1 in
              let next = rw (appended, commit_map_item) at h in
              elim (Option-cases (disk.sync_fault (others w1).log)) [
                | inr (f, bad) ↦ absurd (cc (rw (bad, commit_map_item) at next))
                | inl synced ↦
                    let done : World = record (others w1) {
                      rs = update_map_item_status (others w1).rs map_path d.n d.status;
                      synced = length (others w1).log;
                    } in
                    let same : done ≡ w' = cc (rw (synced, commit_map_item) at next) in
                    subst (λ (z : World). OnDisk d z) same
                      (
                        w.log,
                        rest,
                        take_whole (others w1).log ∙ longer ∙ append_assoc w.log (entry ∷ []) rest,
                      )
              ]
        ]

    -- Where a map without a prune clause commits an item without an error, and the other writers of
    -- the log only add to it, the item's record is on disk under the item's number. It passed only
    -- if its body ended ok or in a skip. It failed only if its image could not be booted, which is
    -- the record's reason then, or if its body ended in a typed failure, whose outcome and bounded
    -- error text the record has. No error before the body, and no internal error of the body, ends
    -- as the status of an item.
    pub end_item-Stands :
        (item : ℕ) (run : ItemRun) (w : World)
        → end_item text disk others map_path item run ≡ ok w
        → (d : MapItemData) × OnDisk d w × (d.n ≡ item) × Records text run d
    unfolding end_item
    end_item-Stands item (lost f) w h = absurd (cc h)
    end_item-Stands item (unavailable before) w h =
        let d : MapItemData = record {
          n = item;
          status = item_failed;
          image_digest = "";
          reason = reason_image_unavailable;
          outcome = "";
          cause = [];
        } in
        (d, commit_map_item-OnDisk before w d h, refl, (refl, refl, refl))
    end_item-Stands item (ran digest e) w h =
        elim (Result-cases (item_status text disk others map_path item e)) [
          | inr (f, bad) ↦ absurd (cc (rw (bad, end_item) at h))
          | inl (s, judged) ↦
              let d : MapItemData = record {
                n = item;
                status = s.status;
                image_digest = digest;
                reason = "";
                outcome = s.outcome;
                cause = s.cause;
              } in
              (
                d,
                commit_map_item-OnDisk (others s.world) w d (rw (judged, end_item) at h),
                refl,
                (refl, refl, item_status-Stands item e s judged),
              )
        ]
