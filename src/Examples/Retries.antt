-- ===== src/Examples/Retries.antt =====
-- The default policy of agent steps, and overrides of it (retry/policy.go).
use awf.Prelude.{◌/◌, ◌*◌, ◌≡◌, ◌≤◌, codes, [], none, some, arith}
use awf.Prelude.Int.{pos, pos_part, ◌≤ℤ◌}
use awf.Retry.{
  Policy, RetryPolicy, agent_default, backoff_linear, backoff_for, with_hint, effective_backoff,
  Jitter,
}
use awf.Retry.Backoff.{JitterLaws, base, effective_backoff_curve}
use awf.Retry.Overflow.{doubling, effective_backoff_overflow}

-- A jitter that adds the whole quarter.
abbrev quarter : Jitter
quarter = record { sum256 = λ content. content; quarter_of = λ u base. pos (pos_part base / 4) }

quarter-laws : JitterLaws quarter
quarter-laws = record { nonneg = λ u base h. omega arith; quarter = λ u base h. omega arith }

effective_backoff_curve_example :
    (backoff_for agent_default 4 ≤ℤ effective_backoff quarter agent_default 4 (pos 0) (codes "a"))
    × (4 * pos_part (effective_backoff quarter agent_default 4 (pos 0) (codes "a"))
        ≤ 5 * pos_part (base quarter quarter-laws agent_default 4 (pos 0) (codes "a")))
unfolding backoff_for with_hint
effective_backoff_curve_example =
    effective_backoff_curve quarter quarter-laws agent_default 4 (pos 0) (codes "a") (ground arith)
      (ground arith)

effective_backoff_overflow_example :
    effective_backoff quarter
      (doubling 1_000_000_000 60_000_000_000 agent_default)
      36
      (pos 0)
      (codes "a")
    ≡ pos 0
effective_backoff_overflow_example =
    effective_backoff_overflow quarter agent_default 1_000_000_000 60_000_000_000 34 (codes "a")
      (omega arith) (omega arith) (omega arith)

-- A step that sets its own curve and no other field.
abbrev linear_step : RetryPolicy
linear_step = record {
  attempts = 0;
  backoff = "linear";
  initial = none;
  max = none;
  non_retryable_exit_codes = some [];
  recovery = "";
}

abbrev linear_policy : Policy
linear_policy = record agent_default {
  backoff = backoff_linear;
  non_retryable_exit_codes = some [];
}
