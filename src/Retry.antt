-- ===== src/Retry.antt =====
-- retry/policy.go: the policy of retries, its merge, the backoff and the classes of exit codes.
--
-- A time.Duration is a ℤ of nanoseconds within int64, and its arithmetic wraps around. Attempt
-- counts are not negative: the callers count from 1, and an attempt below 1 acts as 1.
pub mod Backoff
pub mod Overflow
pub mod Merge
use awf.Prelude.{
  ℕ, zero, suc, ◌+◌, ◌-◌, ◌*◌, ◌^◌, Bool, true, false, ◌&&◌, List, [], ◌∷◌, Option, none, some,
  String, str_eq, Result, ok, err, ◌>>=◌, ltb, leb, ◌==◌, if◌then◌else◌, Bytes, codes, ◌++◌,
}
use awf.Prelude.Decimal.{itoa}
use awf.Prelude.Int.{ℤ, pos, negsuc, ltb_ℤ, leb_ℤ, eq_ℤ, wrap64, scale, ◌+ℤ◌}

pub data BackoffKind : Type 0 where
  backoff_exp backoff_linear backoff_none : BackoffKind

-- The error of an unknown backoff name, with the name.
pub data RetryError : Type 0 where
  unknown_backoff : String → RetryError

unfoldable pub backoff_kind_from_string : String → Result RetryError BackoffKind
backoff_kind_from_string s =
    if str_eq s "exp"
    then ok backoff_exp
    else if str_eq s ""
    then ok backoff_exp
    else if str_eq s "linear"
    then ok backoff_linear
    else if str_eq s "none"
    then ok backoff_none
    else err (unknown_backoff s)

pub record Policy : Type 0 where
  pub attempts : ℕ
  pub backoff : BackoffKind
  pub initial : ℤ
  pub max : ℤ
  pub non_retryable_exit_codes : Option (List ℤ)
  pub recovery : String

-- ir.RetryPolicy: the wire form, where a nil pointer or slice is `none`.
pub record RetryPolicy : Type 0 where
  pub attempts : ℕ
  pub backoff : String
  pub initial : Option ℤ
  pub max : Option ℤ
  pub non_retryable_exit_codes : Option (List ℤ)
  pub recovery : String

abbrev second : ℕ
second = 1_000_000_000

abbrev pub agent_default : Policy
agent_default = record {
  attempts = 8;
  backoff = backoff_exp;
  initial = pos second;
  max = pos (60 * second);
  non_retryable_exit_codes = some (pos 78 ∷ []);
  recovery = "";
}

abbrev pub code_default : Policy
code_default = record agent_default { attempts = 1 }

abbrev pub max_honored_retry_after : ℤ
max_honored_retry_after = pos (300 * second)

-- The override of each field, which the zero value leaves alone.
abbrev pub override_or {ℓ} : {A : Type ℓ} → Option A → A → A
override_or none d = d
override_or (some a) d = a

merged_kind : String → BackoffKind → Result RetryError BackoffKind
unfolding backoff_kind_from_string
merged_kind name base = if str_eq name "" then ok base else backoff_kind_from_string name

replaced : Option (List ℤ) → Option (List ℤ) → Option (List ℤ)
replaced none d = d
replaced (some codes) d = some codes

unfoldable pub merge : Policy → Option RetryPolicy → Result RetryError Policy
unfolding merged_kind replaced
merge base none = ok base
merge base (some o) = do
  k ← merged_kind o.backoff base.backoff
  ok (record {
    attempts = if o.attempts == 0 then base.attempts else o.attempts;
    backoff = k;
    initial = override_or o.initial base.initial;
    max = override_or o.max base.max;
    non_retryable_exit_codes = replaced o.non_retryable_exit_codes base.non_retryable_exit_codes;
    recovery = if str_eq o.recovery "" then base.recovery else o.recovery;
  })

-- `d << shift` on int64.
abbrev shl : ℤ → ℕ → ℤ
shl d shift = wrap64 (scale d (2 ^ shift))

-- The curve before the cap.
curve : Policy → ℕ → ℤ
curve p attempt = elim p.backoff [
  | backoff_none ↦ pos 0
  | backoff_linear ↦ wrap64 (scale p.initial (attempt - 1))
  | backoff_exp ↦ let shift = attempt - 2 in if leb 62 shift then p.max else shl p.initial shift
]

capped : ℤ → ℤ → ℤ
capped max d = if ltb_ℤ (pos 0) max && ltb_ℤ max d then max else d

unfoldable pub backoff_for : Policy → ℕ → ℤ
unfolding curve capped
backoff_for p attempt =
    if leb attempt 1
    then pos 0
    else elim p.backoff [ backoff_none ↦ pos 0 | _ ↦ capped p.max (curve p attempt) ]

-- The server's hint where it is longer than the curve, up to its cap.
unfoldable pub with_hint : ℤ → ℤ → ℤ
with_hint base retry_after =
    let hint =
      (if ltb_ℤ max_honored_retry_after retry_after
        then max_honored_retry_after
        else retry_after) in
    if ltb_ℤ (pos 0) retry_after then (if ltb_ℤ base hint then hint else base) else base

-- What jitterFor takes from elsewhere: sha256.Sum256, and the product of floats
-- time.Duration(float64(u) / float64(math.MaxUint64) * 0.25 * float64(base)).
pub record Jitter : Type 0 where
  pub sum256 : Bytes → Bytes
  pub quarter_of : ℕ → ℤ → ℤ

-- binary.BigEndian.Uint64 on the first eight bytes.
uint64 : ℕ → ℕ → Bytes → ℕ
uint64 zero acc bytes = acc
uint64 (suc n) acc [] = acc
uint64 (suc n) acc (b ∷ bytes) = uint64 n (acc * 256 + b) bytes

unfoldable pub jitter_for : Jitter → ℤ → Bytes → ℕ → ℤ
unfolding uint64
jitter_for j base seed attempt =
    j.quarter_of (uint64 8 0 (j.sum256 (seed ++ (codes ":" ++ itoa attempt)))) base

unfoldable pub effective_backoff : Jitter → Policy → ℕ → ℤ → Bytes → ℤ
effective_backoff j p attempt retry_after seed =
    let base = with_hint (backoff_for p attempt) retry_after in
    if leb_ℤ base (pos 0) then pos 0 else wrap64 (base +ℤ jitter_for j base seed attempt)

non_retryable : List ℤ → ℤ → Bool
non_retryable [] exit_code = false
non_retryable (c ∷ codes) exit_code =
    if eq_ℤ c exit_code then true else non_retryable codes exit_code

pub codes_of : Option (List ℤ) → List ℤ
codes_of none = []
codes_of (some codes) = codes

unfoldable pub is_retryable_exit : Policy → ℤ → Bool
unfolding non_retryable codes_of
is_retryable_exit p exit_code =
    if eq_ℤ exit_code (pos 0)
    then false
    else if non_retryable (codes_of p.non_retryable_exit_codes) exit_code
    then false
    else true
