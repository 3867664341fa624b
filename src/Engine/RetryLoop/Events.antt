-- ===== src/Engine/RetryLoop/Events.antt =====
-- The events that the retry loop writes (engine/retry_loop.go).
use awf.Prelude.{
  ℕ, zero, suc, ◌+◌, ◌≡◌, ◌≤◌, refl, sym, ap, Bytes, false, List, [], ◌∷◌, ◌++◌, append_assoc,
  append-nil, Option, none, some, String, str_eq, length, ltb, ◌==◌, ==_iff, arith, ok,
  Result-cases, Option-cases, Bool-cases, inl, inr, ◌&&◌,
}
use mathlib.Core.Path.{subst}
use awf.Prelude.Int.{ℤ}
use awf.Retry.{Policy, Jitter, effective_backoff}
use awf.Engine.Walk.{World, Disk, Fault, Entry, append, retry_attempted, agent_event}
use awf.Engine.RetryLoop.{
  DispatchResult, Dispatched, Flushed, Try, stop, again, validate_dispatch_result, schedule,
  account, classify, handle, run_once, retry_loop, run_with_retry, is_live_replay,
}
use awf.Engine.RetryLoop.Bounds.{Try-cases}

-- A retry.attempt of the attempt `n` of the step.
abbrev IsRetry : Bytes → ℕ → Entry → Type 0
IsRetry path n e = (outcome : String) × (f : Option Fault) × (e ≡ retry_attempted path n outcome f)

-- They are numbered from `k`.
abbrev pub Retries : Bytes → ℕ → List Entry → Type 0
Retries path k [] = Unit
Retries path k (e ∷ es) = IsRetry path k e × Retries path (k + 1) es

-- The entries that are no agent.event.
unfoldable pub without_agent : List Entry → List Entry
without_agent [] = []
without_agent (agent_event p seq ∷ es) = without_agent es
without_agent (e ∷ es) = e ∷ without_agent es

without_agent-append_retry :
    (es : List Entry) (p : Bytes) (n : ℕ) (outcome : String) (f : Option Fault)
    → without_agent (es ++ retry_attempted p n outcome f ∷ [])
      ≡ without_agent es ++ retry_attempted p n outcome f ∷ []
unfolding without_agent
without_agent-append_retry [] p n outcome f = refl
without_agent-append_retry (agent_event q seq ∷ es) p n outcome f =
    without_agent-append_retry es p n outcome f
without_agent-append_retry (e ∷ es) p n outcome f =
    ap (λ r. e ∷ r) (without_agent-append_retry es p n outcome f)

-- The log of a world, but for its agent.events.
abbrev pub kept : World → List Entry
kept w = without_agent w.log

kept-append_retry :
    (disk : Disk) (w w' : World) (p : Bytes) (n : ℕ) (outcome : String) (f : Option Fault)
    → append disk w (retry_attempted p n outcome f) ≡ ok w'
    → kept w' ≡ kept w ++ retry_attempted p n outcome f ∷ []
unfolding append
kept-append_retry disk w w' p n outcome f h =
    let longer : w'.log ≡ w.log ++ retry_attempted p n outcome f ∷ [] = ground arith in
    rw longer (without_agent-append_retry w.log p n outcome f)

module _ (disk : Disk) (jitter : Jitter) (dispatch : ℕ → World → Dispatched)
    (flush : World → Flushed) (sleep : ℤ → World → Option Fault) (policy : Policy)
    (path : Bytes) where
  -- What was written behind `log`, from the attempt on.
  abbrev pub Wrote : ℕ → List Entry → List Entry → Type 0
  Wrote attempt log log' =
      (es : List Entry) × (log' ≡ log ++ es)
      × Retries path attempt es
      × (attempt + length es ≤ policy.attempts)

  abbrev RoundWrote : ℕ → List Entry → Try → Type 0
  RoundWrote attempt log (stop r) = Wrote attempt log (kept r.world)
  RoundWrote attempt log (again w) =
      (e : Entry) × (kept w ≡ log ++ e ∷ [])
      × IsRetry path attempt e
      × (attempt + 1 ≤ policy.attempts)

  nothing : (attempt : ℕ) (log : List Entry) → attempt ≤ policy.attempts → Wrote attempt log log
  nothing attempt log h = ([], sym (append-nil log), tt, omega arith)

  schedule-RoundWrote :
      (attempt : ℕ) (dr : DispatchResult) (w : World)
      → attempt + 1 ≤ policy.attempts
      → RoundWrote attempt
          (kept w)
          (schedule disk jitter dispatch flush sleep policy path attempt dr w)
  unfolding schedule
  schedule-RoundWrote attempt dr w h =
      let entry = retry_attempted path attempt dr.outcome dr.failure in
      elim (Result-cases (append disk w entry)) [
        | inr (f, bad) ↦ rw (bad, schedule) (nothing attempt (kept w) (omega arith))
        | inl (w', good) ↦
            let longer = kept-append_retry disk w w' path attempt dr.outcome dr.failure good in
            elim (Option-cases
              (sleep (effective_backoff jitter policy (attempt + 1) dr.retry_after path) w')) [
                | inl slept ↦
                    rw (good, schedule, slept) (entry, longer, (dr.outcome, dr.failure, refl), h)
                | inr (f, woken) ↦
                    rw (good, schedule, woken)
                      (entry ∷ [], longer, ((dr.outcome, dr.failure, refl), tt), omega (arith, h))
              ]
      ]

  -- What the flush appends are agent.events.
  module _ (quiet : (w : World) → kept (flush w).world ≡ kept w) where
    account-RoundWrote :
        (attempt : ℕ) (dr : DispatchResult) (w : World)
        → attempt ≤ policy.attempts
        → RoundWrote attempt
            (kept w)
            (account disk jitter dispatch flush sleep policy path attempt dr w)
    unfolding account
    account-RoundWrote attempt dr w h = elim (Bool-cases (attempt == policy.attempts)) [
      | inl last ↦ rw last (nothing attempt (kept w) h)
      | inr more ↦ elim (Option-cases (flush w).error) [
        | inl flushed ↦
            let retried =
              schedule-RoundWrote attempt dr (flush w).world
                (ground (arith, h, more, ==_iff attempt policy.attempts)) in
            rw (more, flushed, account)
              (subst
                (λ log. RoundWrote attempt log (
                  schedule disk jitter dispatch flush sleep policy path attempt dr (flush w).world))
                (quiet w) retried)
        | inr (g, broken) ↦ rw (more, broken, account, quiet w) (nothing attempt (kept w) h)
      ]
    ]

    classify-RoundWrote :
        (attempt : ℕ) (dr : DispatchResult) (w : World)
        → attempt ≤ policy.attempts
        → RoundWrote attempt
            (kept w)
            (classify disk jitter dispatch flush sleep policy path attempt dr w)
    unfolding classify
    classify-RoundWrote attempt dr w h = elim (Bool-cases (str_eq dr.outcome "ok")) [
      | inl good ↦ rw good (nothing attempt (kept w) h)
      | inr bad ↦ elim (Bool-cases (str_eq dr.outcome "permanent_failure")) [
        | inl permanent ↦ rw (bad, permanent) (nothing attempt (kept w) h)
        | inr other ↦ elim (Bool-cases (str_eq dr.outcome "retryable_failure")) [
          | inl retryable ↦ rw (bad, other, retryable) (account-RoundWrote attempt dr w h)
          | inr unknown ↦ rw (bad, other, unknown) (nothing attempt (kept w) h)
        ]
      ]
    ]

    handle-RoundWrote :
        (attempt : ℕ) (dr : DispatchResult) (failed : Option Fault) (w : World)
        → attempt ≤ policy.attempts
        → RoundWrote attempt
            (kept w)
            (handle disk jitter dispatch flush sleep policy path attempt dr failed w)
    unfolding handle
    handle-RoundWrote attempt dr none w h = classify-RoundWrote attempt dr w h
    handle-RoundWrote attempt dr (some f) w h =
        elim (Bool-cases (str_eq policy.recovery "continue" && is_live_replay f)) [
          | inl demoted ↦ rw demoted (
              classify-RoundWrote attempt
                (record dr { outcome = "retryable_failure"; failure = some f }) w h)
          | inr halted ↦ rw halted (nothing attempt (kept w) h)
        ]

    -- So is what a dispatch appends.
    module _ (reads : (n : ℕ) (w : World) → kept (dispatch n w).world ≡ kept w) where
      run_once-RoundWrote :
          (attempt : ℕ) (w : World)
          → attempt ≤ policy.attempts
          → RoundWrote attempt
              (kept w)
              (run_once disk jitter dispatch flush sleep policy path attempt w)
      unfolding run_once
      run_once-RoundWrote attempt w h =
          let d = dispatch attempt w in
          elim (Option-cases (validate_dispatch_result d.result d.failed)) [
            | inr (f, invalid) ↦
                rw (invalid, run_once, reads attempt w) (nothing attempt (kept w) h)
            | inl valid ↦
                rw (valid, run_once)
                  (subst
                    (λ log. RoundWrote attempt log (
                      handle disk jitter dispatch flush sleep policy path attempt d.result d.failed
                        d.world))
                    (reads attempt w) (handle-RoundWrote attempt d.result d.failed d.world h))
          ]

      retry_loop-Wrote :
          (left attempt : ℕ) (w : World)
          → attempt + left ≡ policy.attempts + 1
          → 1 ≤ left
          → Wrote attempt
              (kept w)
              (kept (retry_loop disk jitter dispatch flush sleep policy path left attempt w).world)
      unfolding retry_loop
      retry_loop-Wrote zero attempt w count some_left = absurd (omega arith)
      retry_loop-Wrote (suc left) attempt w count some_left =
          let round = run_once-RoundWrote attempt w (omega (arith, count)) in
          elim (Try-cases (run_once disk jitter dispatch flush sleep policy path attempt w)) [
            | inl (r, over) ↦ rw (over, retry_loop) (rw over at round)
            | inr (w', on) ↦
                let (e, longer, retried, more) = rw on at round in
                let (es, rest, numbered, few) =
                  retry_loop-Wrote left (attempt + 1) w' (omega (arith, count))
                    (omega (arith, count, more)) in
                rw (on, retry_loop)
                  (
                    e ∷ es,
                    rw (rest, longer, append_assoc) refl,
                    (retried, numbered),
                    omega (arith, few),
                  )
          ]

      -- If the dispatcher and the flush append nothing to the log but agent.events, then the retry
      -- loop of a policy of one attempt or more appends, beside agent.events, only retry.attempt
      -- events of the step, numbered from one, and fewer of them than the policy has attempts.
      pub run_with_retry_events :
          (w : World)
          → 1 ≤ policy.attempts
          → (es : List Entry) × (kept
                (run_with_retry disk jitter dispatch flush sleep policy path w).world
              ≡ kept w ++ es)
            × Retries path 1 es
            × (1 + length es ≤ policy.attempts)
      unfolding run_with_retry
      run_with_retry_events w h =
          let valid : ltb policy.attempts 1 ≡ false = ground arith in
          rw valid (retry_loop-Wrote policy.attempts 1 w (omega arith) h)
