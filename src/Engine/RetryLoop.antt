-- ===== src/Engine/RetryLoop.antt =====
-- engine/retry_loop.go: the dispatches of one step under its policy.
--
-- The dispatcher, the flush of live agent events and the clock are parameters: a dispatch takes
-- the attempt's number and the world, a flush leaves a world with the events that it appended and
-- says whether it failed, as a sleep does. The observer of
-- retry notices and the streams of output change no state and are left out.
pub mod Bounds
pub mod Events
mod Examples
use awf.Prelude.{
  ℕ, zero, suc, ◌+◌, Bytes, Bool, true, false, Option, none, some, String, str_eq, ltb, ◌==◌, ◌||◌,
  ◌&&◌, if◌then◌else◌, Result, ok, err,
}
use awf.Prelude.Int.{ℤ, pos, eq_ℤ}
use awf.Retry.{Policy, Jitter, effective_backoff}
use awf.Engine.Walk.{
  World, Disk, Fault, append, retry_attempted, wrapped, live_replay_required, bad_policy,
  inconsistent_result, unknown_outcome, skip_unwind, cause, invalid_gate, no_evaluator,
  not_completed, fell_through, gate_rejected,
}

-- `rest_zero` says that every field but AgentEvents and the three before it is Go's zero value.
pub record DispatchResult : Type 0 where
  pub outcome : String
  pub failure : Option Fault
  pub retry_after : ℤ
  pub rest_zero : Bool

-- DispatchResult{}
abbrev pub zero_result : DispatchResult
zero_result = record { outcome = ""; failure = none; retry_after = pos 0; rest_zero = true }

-- What Dispatcher.Run returns, and the world behind it.
pub record Dispatched : Type 0 where
  pub result : DispatchResult
  pub failed : Option Fault
  pub world : World

-- What flushWait returns, and the world behind it.
pub record Flushed : Type 0 where
  pub error : Option Fault
  pub world : World

pub record Retried : Type 0 where
  pub world : World
  pub result : DispatchResult
  pub error : Option Fault

is_some {ℓ} : {A : Type ℓ} → Option A → Bool
is_some none = false
is_some (some a) = true

-- reflect.DeepEqual(directResult, DispatchResult{})
is_zero_result : DispatchResult → Bool
unfolding is_some
is_zero_result dr =
    str_eq dr.outcome ""
    && (if is_some dr.failure then false else true)
    && eq_ℤ dr.retry_after (pos 0)
    && dr.rest_zero

-- validateDispatchResult: the error, or none.
unfoldable pub validate_dispatch_result : DispatchResult → Option Fault → Option Fault
unfolding is_zero_result is_some
validate_dispatch_result dr (some f) = if is_zero_result dr then none else some (wrapped f)
validate_dispatch_result dr none =
    if str_eq dr.outcome "ok" && (if is_some dr.failure then false else true)
    then none
    else if (str_eq dr.outcome "retryable_failure" || str_eq dr.outcome "permanent_failure")
        && is_some dr.failure
    then none
    else some inconsistent_result

-- errors.Is(err, agent.ErrLiveReplayRequired)
is_live_replay : Fault → Bool
is_live_replay live_replay_required = true
is_live_replay (wrapped f) = is_live_replay f
is_live_replay _ = false

-- One round of the loop returns, or goes on with the next attempt.
pub data Try : Type 0 where
  stop : Retried → Try
  again : World → Try

module _ (disk : Disk) (jitter : Jitter) (dispatch : ℕ → World → Dispatched)
    (flush : World → Flushed) (sleep : ℤ → World → Option Fault) (policy : Policy)
    (path : Bytes) where
  -- From the retry.attempt event to the sleep.
  unfoldable pub schedule : ℕ → DispatchResult → World → Try
  schedule attempt dr w =
      elim (append disk w (retry_attempted path attempt dr.outcome dr.failure)) [
        | err f ↦ stop (record { world = w; result = dr; error = some (wrapped f) })
        | ok w' ↦
            elim (sleep (effective_backoff jitter policy (attempt + 1) dr.retry_after path) w') [
              | some f ↦ stop (record { world = w'; result = dr; error = some f })
              | none ↦ again w'
            ]
      ]

  -- A retryable failure: the last attempt halts, an earlier one is retried.
  unfoldable pub account : ℕ → DispatchResult → World → Try
  account attempt dr w =
      let flushed = flush w in
      let scheduled = schedule attempt dr flushed.world in
      if attempt == policy.attempts
      then stop (record { world = w; result = dr; error = dr.failure })
      else elim flushed.error [
        | some f ↦
            stop (record { world = flushed.world; result = zero_result; error = some (wrapped f) })
        | none ↦ scheduled
      ]

  -- The switch on the outcome.
  unfoldable pub classify : ℕ → DispatchResult → World → Try
  classify attempt dr w =
      if str_eq dr.outcome "ok"
      then stop (record { world = w; result = dr; error = none })
      else if str_eq dr.outcome "permanent_failure"
      then stop (record { world = w; result = dr; error = dr.failure })
      else if str_eq dr.outcome "retryable_failure"
      then account attempt dr w
      else stop (record { world = w; result = dr; error = some unknown_outcome })

  -- A valid pair of the dispatcher; under recovery "continue" a required live replay is retried.
  unfoldable pub handle : ℕ → DispatchResult → Option Fault → World → Try
  unfolding is_live_replay
  handle attempt dr none w = classify attempt dr w
  handle attempt dr (some f) w =
      if str_eq policy.recovery "continue" && is_live_replay f
      then classify attempt (record dr { outcome = "retryable_failure"; failure = some f }) w
      else stop (record { world = w; result = dr; error = some f })

  unfoldable pub run_once : ℕ → World → Try
  run_once attempt w =
      let d = dispatch attempt w in
      elim (validate_dispatch_result d.result d.failed) [
        | some f ↦ stop (record { world = d.world; result = zero_result; error = some f })
        | none ↦ handle attempt d.result d.failed d.world
      ]

  -- The loop with `left` attempts to go, from `attempt`; behind it Go returns what it last had.
  unfoldable pub retry_loop : ℕ → ℕ → World → Retried
  retry_loop zero attempt w = record { world = w; result = zero_result; error = none }
  retry_loop (suc left) attempt w = elim (run_once attempt w) [
    | stop r ↦ r
    | again w' ↦ retry_loop left (attempt + 1) w'
  ]

  unfoldable pub run_with_retry : World → Retried
  run_with_retry w =
      let looped = retry_loop policy.attempts 1 w in
      if ltb policy.attempts 1
      then record { world = w; result = zero_result; error = some bad_policy }
      else looped
