-- ===== src/Engine/RetryLoop/Examples.antt =====
-- A step that fails once and then succeeds (engine/retry_loop.go).
use awf.Prelude.{
  ℕ, suc, ◌≡◌, refl, ap, codes, ◌∷◌, none, some, [], true, zero, List, ◌++◌, ◌+◌, ◌≤◌, length,
  arith,
}
use awf.Prelude.Int.{pos}
use awf.Retry.{Jitter, agent_default}
use awf.Engine.RunState.{zero_state}
use awf.Engine.Walk.{World, Disk, cause, append, Entry, agent_event}
use awf.Engine.RetryLoop.{
  Dispatched, Flushed, run_with_retry, retry_loop, run_once, handle, classify, account, schedule,
  validate_dispatch_result, is_some,
}
use awf.Engine.RetryLoop.Bounds.{run_with_retry_ok}
use awf.Engine.RetryLoop.Events.{kept, without_agent, Retries, run_with_retry_events}

abbrev sound_disk : Disk
sound_disk = record { append_fault = λ _ _. none; sync_fault = λ _. none }

abbrev steady : Jitter
steady = record { sum256 = λ content. content; quarter_of = λ u base. pos 0 }

abbrev second_time : ℕ → World → Dispatched
second_time (suc (suc n)) w = record {
  result = record { outcome = "ok"; failure = none; retry_after = pos 0; rest_zero = true };
  failed = none;
  world = w;
}
second_time n w = record {
  result = record {
    outcome = "retryable_failure";
    failure = some (cause 7);
    retry_after = pos 0;
    rest_zero = true;
  };
  failed = none;
  world = w;
}

-- Each flush finds one agent.event in its buffer.
abbrev one_event : World → Flushed
one_event w = record {
  error = none;
  world = record w { log = w.log ++ agent_event (codes "draft") 1 ∷ [] };
}

abbrev fresh : World
fresh = record { rs = zero_state; log = []; synced = 0 }

run_with_retry_ok_example :
    (run_with_retry sound_disk steady second_time one_event
      (λ _ _. none)
      agent_default
      (codes "draft")
      fresh).result.outcome
    ≡ "ok"
unfolding run_with_retry retry_loop run_once handle classify account schedule
    validate_dispatch_result is_some append
run_with_retry_ok_example =
    run_with_retry_ok sound_disk steady second_time one_event (λ _ _. none) agent_default
      (codes "draft") fresh refl

second_time-kept : (n : ℕ) (w : World) → kept (second_time n w).world ≡ kept w
second_time-kept (suc (suc n)) w = refl
second_time-kept (suc zero) w = refl
second_time-kept zero w = refl

without_agent-append_event :
    (es : List Entry) → without_agent (es ++ agent_event (codes "draft") 1 ∷ []) ≡ without_agent es
unfolding without_agent
without_agent-append_event [] = refl
without_agent-append_event (agent_event p n ∷ es) = without_agent-append_event es
without_agent-append_event (e ∷ es) = ap (λ r. e ∷ r) (without_agent-append_event es)

one_event-kept : (w : World) → kept (one_event w).world ≡ kept w
one_event-kept w = without_agent-append_event w.log

run_with_retry_events_example :
    (es : List Entry) × (kept
        (run_with_retry sound_disk steady second_time one_event
          (λ _ _. none)
          agent_default
          (codes "draft")
          fresh).world
      ≡ kept fresh ++ es)
    × Retries (codes "draft") 1 es
    × (1 + length es ≤ 8)
run_with_retry_events_example =
    run_with_retry_events sound_disk steady second_time one_event (λ _ _. none) agent_default
      (codes "draft") one_event-kept second_time-kept fresh (omega arith)
