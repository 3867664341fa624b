-- ===== src/Retry/Merge.antt =====
-- A step's own policy over the default, and the exit codes that a policy retries.
use awf.Prelude.{
  ◌≡◌, ◌≢◌, ◌↔◌, ◌⊎◌, ◌==◌, refl, true, false, List, [], ◌∷◌, Option, none, some, String, str_eq,
  ok, err, arith, All, if◌then◌else◌,
}
use awf.Prelude.Int.{ℤ, pos, eq_ℤ_iff}
use awf.Retry.{
  Policy, RetryPolicy, backoff_kind_from_string, merge, override_or, non_retryable, codes_of,
  is_retryable_exit, unknown_backoff,
}

-- The names that the source knows.
abbrev pub IsBackoffName : String → Type 0
IsBackoffName s =
    (str_eq s "exp" ≡ true)
    ⊎ (str_eq s "" ≡ true)
    ⊎ (str_eq s "linear" ≡ true)
    ⊎ (str_eq s "none" ≡ true)

abbrev or_else {ℓ} : {A : Type ℓ} → Option A → Option A → Option A
or_else (some a) b = some a
or_else none b = b

pub record IsMerged (base : Policy) (o : RetryPolicy) (p : Policy) : Type 0 where
  pub attempts : p.attempts ≡ (if o.attempts == 0 then base.attempts else o.attempts)
  pub kind :
      ok p.backoff
      ≡ (if str_eq o.backoff "" then ok base.backoff else backoff_kind_from_string o.backoff)
  pub initial : p.initial ≡ override_or o.initial base.initial
  pub max : p.max ≡ override_or o.max base.max
  pub codes :
      p.non_retryable_exit_codes ≡ or_else o.non_retryable_exit_codes base.non_retryable_exit_codes
  pub recovery : p.recovery ≡ (if str_eq o.recovery "" then base.recovery else o.recovery)

-- Where Merge succeeds, it takes each field that the step sets, and the default's where the step
-- leaves it alone.
pub merge-IsMerged :
    (base : Policy) (o : RetryPolicy) (p : Policy) → merge base (some o) ≡ ok p → IsMerged base o p
unfolding merge
merge-IsMerged base o p h = ground arith

-- Merge fails with the name of a backoff if and only if the source does not know that name.
pub merge-eq-err_iff :
    (base : Policy) (o : RetryPolicy)
    → (merge base (some o) ≡ err (unknown_backoff o.backoff)) ↔ (¬ IsBackoffName o.backoff)
unfolding merge
merge-eq-err_iff base o = ground arith

non_retryable-false :
    (codes : List ℤ) (code : ℤ) → (non_retryable codes code ≡ false) ↔ All (λ c. c ≢ code) codes
unfolding non_retryable
non_retryable-false [] code = (λ _. tt, λ _. refl)
non_retryable-false (c ∷ codes) code =
    ground (arith, eq_ℤ_iff c code, non_retryable-false codes code)

-- A policy retries exactly the nonzero exit codes that it does not list.
pub is_retryable_exit_iff :
    (p : Policy) (code : ℤ)
    → (is_retryable_exit p code ≡ true)
      ↔ ((code ≢ pos 0) × All (λ c. c ≢ code) (codes_of p.non_retryable_exit_codes))
unfolding is_retryable_exit
is_retryable_exit_iff p code =
    ground
      (arith, eq_ℤ_iff code (pos 0), non_retryable-false (codes_of p.non_retryable_exit_codes) code)
