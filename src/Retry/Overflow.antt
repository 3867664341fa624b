-- ===== src/Retry/Overflow.antt =====
-- BackoffFor and EffectiveBackoff (retry/policy.go) where the doubled time passes int64.
use awf.Prelude.{ℕ, suc, ◌-◌, ◌*◌, ◌^◌, ◌≤◌, ◌<◌, ◌≡◌, Bytes, arith, leb, false}
use awf.Prelude.Int.{ℤ, pos, ◌<ℤ◌, wrap64}
use awf.Retry.{
  Policy, backoff_exp, backoff_for, capped, curve, effective_backoff, Jitter, with_hint,
}

wrap64_negative : (n : ℕ) → 2 ^ 63 ≤ n → n < 2 ^ 64 → wrap64 (pos n) <ℤ pos 0
wrap64_negative n h k = ground arith

abbrev pub doubling : ℕ → ℕ → Policy → Policy
doubling initial max p = record p { backoff = backoff_exp; initial = pos initial; max = pos max }

capped_negative : (max : ℕ) (d : ℤ) → d <ℤ pos 0 → capped (pos max) d ≡ d
unfolding capped
capped_negative max d h = ground arith

curve_overflow :
    (p : Policy) (initial max k : ℕ)
    → k < 62
    → curve (doubling initial max p) (suc (suc k)) ≡ wrap64 (pos (initial * 2 ^ k))
unfolding curve
curve_overflow p initial max k h =
    let e : suc (suc k) - 2 ≡ k = omega arith in
    let below : leb 62 k ≡ false = ground arith in rw (e, below)

-- Where the doubled time lies between 2 ^ 63 and 2 ^ 64, the guard on the shift lets it pass, the
-- product is a negative duration, and the cap does not catch it.
pub backoff_for_overflow :
    (p : Policy) (initial max k : ℕ)
    → k < 62
    → 2 ^ 63 ≤ initial * 2 ^ k
    → initial * 2 ^ k < 2 ^ 64
    → backoff_for (doubling initial max p) (suc (suc k)) <ℤ pos 0
unfolding backoff_for
backoff_for_overflow p initial max k h lo hi =
    let first : leb (suc (suc k)) 1 ≡ false = ground arith in
    let negative = wrap64_negative (initial * 2 ^ k) lo hi in
    rw (first, curve_overflow p initial max k h, capped_negative max _ negative) negative

-- For k below 62, where the initial time doubled k times lies between 2 ^ 63 and 2 ^ 64 ns, the
-- exponential curve does not sleep at all before attempt k + 2, unless the server gave a hint.
pub effective_backoff_overflow :
    (j : Jitter) (p : Policy) (initial max k : ℕ) (seed : Bytes)
    → k < 62
    → 2 ^ 63 ≤ initial * 2 ^ k
    → initial * 2 ^ k < 2 ^ 64
    → effective_backoff j (doubling initial max p) (suc (suc k)) (pos 0) seed ≡ pos 0
unfolding effective_backoff with_hint
effective_backoff_overflow j p initial max k seed h lo hi =
    ground (arith, backoff_for_overflow p initial max k h lo hi)
