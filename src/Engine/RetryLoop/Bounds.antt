-- ===== src/Engine/RetryLoop/Bounds.antt =====
-- The errors that come out of the retry loop (engine/retry_loop.go).
use awf.Prelude.{
  ℕ, zero, suc, ◌+◌, ◌≡◌, ◌≤◌, ◌⊎◌, refl, Bytes, false, Option, none, some, str_eq, str_eq_iff, ltb,
  ◌==◌, ==_iff, arith, ◌&&◌, Result-cases, Option-cases, Bool-cases, inl, inr,
}
use awf.Prelude.Int.{ℤ}
use awf.Retry.{Policy, Jitter, effective_backoff}
use awf.Engine.Walk.{World, Disk, Fault, append, retry_attempted}
use awf.Engine.RetryLoop.{
  DispatchResult, Dispatched, Flushed, Retried, Try, stop, again, validate_dispatch_result,
  schedule, account, classify, handle, is_live_replay, run_once, retry_loop, run_with_retry,
  is_some,
}

pub Try-cases : (t : Try) → ((r : Retried) × (t ≡ stop r)) ⊎ ((w : World) × (t ≡ again w))
Try-cases (stop r) = inl (r, refl)
Try-cases (again w) = inr (w, refl)

-- A return without an error carries the outcome ok.
abbrev OkOnly : Retried → Type 0
OkOnly r = r.error ≡ none → r.result.outcome ≡ "ok"

module _ (disk : Disk) (jitter : Jitter) (dispatch : ℕ → World → Dispatched)
    (flush : World → Flushed) (sleep : ℤ → World → Option Fault) (policy : Policy)
    (path : Bytes) where
  -- What a round makes of the attempts: the last one never goes on.
  abbrev RoundOk : ℕ → Try → Type 0
  RoundOk attempt (stop r) = OkOnly r
  RoundOk attempt (again w) = (attempt == policy.attempts) ≡ false

  -- A failure that is not ok has an error.
  abbrev Failed : DispatchResult → Type 0
  Failed dr = (f : Fault) × (dr.failure ≡ some f)

  schedule-RoundOk :
      (attempt : ℕ) (dr : DispatchResult) (w : World)
      → (attempt == policy.attempts) ≡ false
      → RoundOk attempt (schedule disk jitter dispatch flush sleep policy path attempt dr w)
  unfolding schedule
  schedule-RoundOk attempt dr w more =
      elim (Result-cases (append disk w (retry_attempted path attempt dr.outcome dr.failure))) [
        | inr (f, bad) ↦ rw (bad, schedule) (λ e. absurd (cc e))
        | inl (w', good) ↦
            elim (Option-cases
              (sleep (effective_backoff jitter policy (attempt + 1) dr.retry_after path) w')) [
                | inl slept ↦ rw (good, schedule, slept) more
                | inr (f, woken) ↦ rw (good, schedule, woken) (λ e. absurd (cc e))
              ]
      ]

  account-RoundOk :
      (attempt : ℕ) (dr : DispatchResult) (w : World)
      → Failed dr
      → RoundOk attempt (account disk jitter dispatch flush sleep policy path attempt dr w)
  unfolding account
  account-RoundOk attempt dr w (f, failed) = elim (Bool-cases (attempt == policy.attempts)) [
    | inl last ↦ rw last (λ e. absurd (cc (failed, e)))
    | inr more ↦ elim (Option-cases (flush w).error) [
      | inl flushed ↦ rw (more, flushed, account) (schedule-RoundOk attempt dr (flush w).world more)
      | inr (g, broken) ↦ rw (more, broken, account) (λ e. absurd (cc e))
    ]
  ]

  classify-RoundOk :
      (attempt : ℕ) (dr : DispatchResult) (w : World)
      → (str_eq dr.outcome "ok" ≡ false → Failed dr)
      → RoundOk attempt (classify disk jitter dispatch flush sleep policy path attempt dr w)
  unfolding classify
  classify-RoundOk attempt dr w failed = elim (Bool-cases (str_eq dr.outcome "ok")) [
    | inl good ↦ rw good (λ _. (str_eq_iff dr.outcome "ok").0 good)
    | inr bad ↦
        let (f, there) = failed bad in
        elim (Bool-cases (str_eq dr.outcome "permanent_failure")) [
          | inl permanent ↦ rw (bad, permanent) (λ e. absurd (cc (there, e)))
          | inr other ↦ elim (Bool-cases (str_eq dr.outcome "retryable_failure")) [
            | inl retryable ↦ rw (bad, other, retryable) (account-RoundOk attempt dr w (f, there))
            | inr unknown ↦ rw (bad, other, unknown) (λ e. absurd (cc e))
          ]
        ]
  ]

  valid-Failed :
      (dr : DispatchResult)
      → validate_dispatch_result dr none ≡ none
      → str_eq dr.outcome "ok" ≡ false
      → Failed dr
  unfolding validate_dispatch_result is_some
  valid-Failed dr valid bad = elim (Option-cases dr.failure) [
    | inr there ↦ there
    | inl missing ↦ absurd (ground (arith, valid, bad, missing))
  ]

  handle-RoundOk :
      (attempt : ℕ) (dr : DispatchResult) (failed : Option Fault) (w : World)
      → validate_dispatch_result dr failed ≡ none
      → RoundOk attempt (handle disk jitter dispatch flush sleep policy path attempt dr failed w)
  unfolding handle
  handle-RoundOk attempt dr none w valid = classify-RoundOk attempt dr w (valid-Failed dr valid)
  handle-RoundOk attempt dr (some f) w valid =
      elim (Bool-cases (str_eq policy.recovery "continue" && is_live_replay f)) [
        | inl demoted ↦ rw demoted (
            classify-RoundOk attempt (record dr { outcome = "retryable_failure"; failure = some f })
              w (λ _. (f, refl)))
        | inr halted ↦ rw halted (λ e. absurd (cc e))
      ]

  run_once-RoundOk :
      (attempt : ℕ) (w : World)
      → RoundOk attempt (run_once disk jitter dispatch flush sleep policy path attempt w)
  unfolding run_once
  run_once-RoundOk attempt w =
      let d = dispatch attempt w in
      elim (Option-cases (validate_dispatch_result d.result d.failed)) [
        | inr (f, invalid) ↦ rw (invalid, run_once) (λ e. absurd (cc e))
        | inl valid ↦ rw (valid, run_once) (handle-RoundOk attempt d.result d.failed d.world valid)
      ]

  retry_loop-OkOnly :
      (left attempt : ℕ) (w : World)
      → attempt + left ≡ policy.attempts + 1
      → 1 ≤ left
      → OkOnly (retry_loop disk jitter dispatch flush sleep policy path left attempt w)
  unfolding retry_loop
  retry_loop-OkOnly zero attempt w count some_left = absurd (omega arith)
  retry_loop-OkOnly (suc left) attempt w count some_left =
      let round = run_once-RoundOk attempt w in
      elim (Try-cases (run_once disk jitter dispatch flush sleep policy path attempt w)) [
        | inl (r, over) ↦ rw (over, retry_loop) (rw over at round)
        | inr (w', on) ↦
            let more : (attempt == policy.attempts) ≡ false = rw on at round in
            rw (on, retry_loop)
              (retry_loop-OkOnly left (attempt + 1) w' (omega (arith, count))
                (ground (arith, more, count, ==_iff attempt policy.attempts)))
      ]

  -- If the retry loop returns without an error, then its result has the outcome ok: whatever the
  -- dispatcher answers, no failure and no invalid answer passes as a success.
  pub run_with_retry_ok :
      (w : World)
      → (run_with_retry disk jitter dispatch flush sleep policy path w).error ≡ none
      → (run_with_retry disk jitter dispatch flush sleep policy path w).result.outcome ≡ "ok"
  unfolding run_with_retry
  run_with_retry_ok w = elim (Bool-cases (ltb policy.attempts 1)) [
    | inl bad ↦ rw bad (λ e. absurd (cc e))
    | inr good ↦
        rw good (retry_loop-OkOnly policy.attempts 1 w (omega arith) (ground (arith, good)))
  ]
