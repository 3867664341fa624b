-- ===== src/Engine/RunState/Outcomes.antt =====
-- Outcome and ParseOutcome of engine/runstate.go, and engine/outcome.go.
use awf.Prelude.{
  ◌≡◌, ◌↔◌, Bool, true, false, List, [], ◌∷◌, Option, none, some, String, str_eq, str_eq_iff, arith,
  not, if◌then◌else◌,
}
use awf.Prelude.Int.{ℤ, pos, eq_ℤ}

-- The empty outcome, of an internal error, is `none` where an outcome is optional.
pub data Outcome : Type 0 where
  outcome_ok outcome_retryable_failure outcome_permanent_failure outcome_rejected : Outcome

unfoldable pub is_typed_failure_outcome : Option Outcome → Bool
is_typed_failure_outcome (some outcome_retryable_failure) = true
is_typed_failure_outcome (some outcome_permanent_failure) = true
is_typed_failure_outcome (some outcome_rejected) = true
is_typed_failure_outcome _ = false

-- string(outcome)
abbrev pub outcome_string : Outcome → String
outcome_string outcome_ok = "ok"
outcome_string outcome_retryable_failure = "retryable_failure"
outcome_string outcome_permanent_failure = "permanent_failure"
outcome_string outcome_rejected = "rejected"

unfoldable pub parse_outcome : String → Option Outcome
parse_outcome s =
    if str_eq s "ok"
    then some outcome_ok
    else if str_eq s "retryable_failure"
    then some outcome_retryable_failure
    else if str_eq s "permanent_failure"
    then some outcome_permanent_failure
    else if str_eq s "rejected"
    then some outcome_rejected
    else none

declared_permanent : List ℤ → ℤ → Bool
declared_permanent [] exit_code = false
declared_permanent (c ∷ codes) exit_code =
    if eq_ℤ exit_code c then true else declared_permanent codes exit_code

-- The two errors are known by whether they are nil.
unfoldable pub classify_outcome : ℤ → Bool → Bool → List ℤ → Outcome
unfolding declared_permanent
classify_outcome exit_code awf_parse_err call_err non_retryable_exit_codes =
    if call_err
    then outcome_retryable_failure
    else if declared_permanent non_retryable_exit_codes exit_code
    then outcome_permanent_failure
    else if not (eq_ℤ exit_code (pos 0))
    then outcome_retryable_failure
    else if awf_parse_err
    then outcome_retryable_failure
    else outcome_ok

-- Exactly the printed outcomes are parsed, each as itself.
pub parse_outcome_iff :
    (s : String) (o : Outcome) → (parse_outcome s ≡ some o) ↔ (s ≡ outcome_string o)
unfolding parse_outcome
parse_outcome_iff s outcome_ok = (
  λ h. ground (
    arith,
    str_eq_iff s "ok",
    str_eq_iff s "retryable_failure",
    str_eq_iff s "permanent_failure",
    str_eq_iff s "rejected",
  ),
  λ e. rw e,
)
parse_outcome_iff s outcome_retryable_failure = (
  λ h. ground (
    arith,
    str_eq_iff s "ok",
    str_eq_iff s "retryable_failure",
    str_eq_iff s "permanent_failure",
    str_eq_iff s "rejected",
  ),
  λ e. rw e,
)
parse_outcome_iff s outcome_permanent_failure = (
  λ h. ground (
    arith,
    str_eq_iff s "ok",
    str_eq_iff s "retryable_failure",
    str_eq_iff s "permanent_failure",
    str_eq_iff s "rejected",
  ),
  λ e. rw e,
)
parse_outcome_iff s outcome_rejected = (
  λ h. ground (
    arith,
    str_eq_iff s "ok",
    str_eq_iff s "retryable_failure",
    str_eq_iff s "permanent_failure",
    str_eq_iff s "rejected",
  ),
  λ e. rw e,
)
