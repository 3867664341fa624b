-- ===== src/Retry/Backoff.antt =====
-- The sleeps between attempts (retry/policy.go, BackoffFor and EffectiveBackoff) and their bounds.
use Prim.Native.Nat.{min}
use awf.Prelude.{
  ℕ, zero, suc, ◌+◌, ◌-◌, leb, if◌then◌else◌, ◌*◌, ◌^◌, ◌≤◌, ◌<◌, ◌≡◌, refl, Bytes, arith, false,
}
use awf.Prelude.Int.{ℤ, pos, negsuc, ◌≤ℤ◌, ◌<ℤ◌, wrap64, pos_part, ltb_ℤ}
use awf.Retry.{
  Policy, backoff_exp, backoff_for, capped, curve, effective_backoff, Jitter, jitter_for, with_hint,
  max_honored_retry_after,
}

capped-le-max : (max d : ℤ) → pos 0 <ℤ max → capped max d ≤ℤ max
unfolding capped
capped-le-max max d h = ground arith

-- A sleep of the curve never passes a positive cap of the policy.
pub backoff_for-le-max :
    (p : Policy) (attempt : ℕ) → pos 0 <ℤ p.max → backoff_for p attempt ≤ℤ p.max
unfolding backoff_for
backoff_for-le-max p attempt h = ground (arith, capped-le-max p.max (curve p attempt) h)

abbrev pub exponential : ℕ → ℕ → Policy → Policy
exponential initial max p = record p { backoff = backoff_exp; initial = pos initial; max = pos max }

wrap64_pos : (n : ℕ) → n < 2 ^ 63 → wrap64 (pos n) ≡ pos n
wrap64_pos n h = ground arith

curve_exp :
    (p : Policy) (initial max k : ℕ)
    → k < 62
    → initial * 2 ^ k < 2 ^ 63
    → curve (exponential initial max p) (suc (suc k)) ≡ pos (initial * 2 ^ k)
unfolding curve
curve_exp p initial max k hk fits =
    let e : suc (suc k) - 2 ≡ k = omega arith in
    let below : leb 62 k ≡ false = ground arith in rw (e, below) (wrap64_pos (initial * 2 ^ k) fits)

capped_pos : (max d : ℕ) → 0 < max → capped (pos max) (pos d) ≡ pos (min max d)
unfolding capped
capped_pos max d h = ground arith

-- Before attempt k + 2 the exponential curve with a positive cap sleeps the initial time doubled k
-- times, or the cap, whichever is shorter, as long as k is below 62 and the doubled time fits
-- int64.
pub backoff_for_exp :
    (p : Policy) (initial max k : ℕ)
    → 0 < max
    → k < 62
    → initial * 2 ^ k < 2 ^ 63
    → backoff_for (exponential initial max p) (suc (suc k)) ≡ pos (min max (initial * 2 ^ k))
unfolding backoff_for
backoff_for_exp p initial max k hm hk fits =
    let first : leb (suc (suc k)) 1 ≡ false = ground arith in
    rw (first, curve_exp p initial max k hk fits) (capped_pos max (initial * 2 ^ k) hm)

-- What is known of the float product behind the jitter: it is not negative, and it is at most a
-- quarter of the base while the base is exact as a float.
pub record JitterLaws (j : Jitter) : Type 0 where
  pub nonneg : (u : ℕ) (base : ℤ) → pos 0 ≤ℤ base → pos 0 ≤ℤ j.quarter_of u base
  pub quarter : (u base : ℕ) → base < 2 ^ 53 → 4 * pos_part (j.quarter_of u (pos base)) ≤ base

abbrev pub honored : ℤ → ℤ
honored hint = if ltb_ℤ max_honored_retry_after hint then max_honored_retry_after else hint

nonneg_pos : (z : ℤ) → pos 0 ≤ℤ z → z ≡ pos (pos_part z)
nonneg_pos (pos n) h = refl
nonneg_pos (negsuc n) h = absurd (omega arith)

with_hint-ge_base : (base hint : ℤ) → base ≤ℤ with_hint base hint
unfolding with_hint
with_hint-ge_base base hint = ground arith

with_hint-ge_hint : (base hint : ℤ) → pos 0 <ℤ hint → honored hint ≤ℤ with_hint base hint
unfolding with_hint
with_hint-ge_hint base hint h = ground arith

≤ℤ-trans : (x y z : ℤ) → x ≤ℤ y → y ≤ℤ z → x ≤ℤ z
≤ℤ-trans (pos a) (pos b) (pos c) h g = omega arith
≤ℤ-trans (pos a) (pos b) (negsuc c) h g = absurd (omega arith)
≤ℤ-trans (pos a) (negsuc b) z h g = absurd (omega arith)
≤ℤ-trans (negsuc a) (pos b) (pos c) h g = omega arith
≤ℤ-trans (negsuc a) (pos b) (negsuc c) h g = absurd (omega arith)
≤ℤ-trans (negsuc a) (negsuc b) (pos c) h g = omega arith
≤ℤ-trans (negsuc a) (negsuc b) (negsuc c) h g = omega arith

module _ (j : Jitter) (laws : JitterLaws j) (p : Policy) (attempt : ℕ) (hint : ℤ)
    (seed : Bytes) where
  abbrev pub base : ℤ
  base = with_hint (backoff_for p attempt) hint

  jitter_for-pos :
      (b : ℕ)
      → b < 2 ^ 53
      → (jitter_for j (pos b) seed attempt ≡ pos (pos_part (jitter_for j (pos b) seed attempt)))
        × (4 * pos_part (jitter_for j (pos b) seed attempt) ≤ b)
  unfolding jitter_for
  jitter_for-pos b small =
      (nonneg_pos _ (laws.nonneg _ (pos b) (omega arith)), laws.quarter _ b small)

  -- The sleep behind a base that is positive.
  effective_backoff-pos :
      (b : ℕ)
      → base ≡ pos (suc b)
      → suc b < 2 ^ 53
      → (q : ℕ) × (effective_backoff j p attempt hint seed ≡ pos (suc b + q)) × (4 * q ≤ suc b)
  unfolding effective_backoff
  effective_backoff-pos b e small =
      let jittered = jitter_for-pos (suc b) small in
      (
        pos_part (jitter_for j (pos (suc b)) seed attempt),
        rw (e, jittered.0) (ground arith),
        jittered.1,
      )

  effective_backoff-zero : base ≤ℤ pos 0 → effective_backoff j p attempt hint seed ≡ pos 0
  unfolding effective_backoff
  effective_backoff-zero h = ground arith

  -- A sleep between the base and five quarters of it.
  near_base :
      (z : ℤ)
      → base ≡ z
      → pos 0 ≤ℤ z
      → z <ℤ pos (2 ^ 53)
      → (base ≤ℤ effective_backoff j p attempt hint seed)
        × (4 * pos_part (effective_backoff j p attempt hint seed) ≤ 5 * pos_part base)
  near_base (pos (suc b)) e nonneg small =
      let (q, same, quarter) = effective_backoff-pos b e (omega arith) in
      rw (same, e) (omega arith, omega arith)
  near_base (pos zero) e nonneg small =
      let none_slept = effective_backoff-zero (rw e (omega arith)) in
      rw (none_slept, e) (omega arith, omega arith)
  near_base (negsuc n) e nonneg small = absurd (omega arith)

  base-nonneg : pos 0 ≤ℤ backoff_for p attempt → pos 0 ≤ℤ base
  base-nonneg nonneg =
      ≤ℤ-trans (pos 0) _ base nonneg (with_hint-ge_base (backoff_for p attempt) hint)

  -- Where the curve has not overflowed and the base is below 2 ^ 53 ns, a sleep is never shorter
  -- than the curve, and the jitter adds at most a quarter to the longer of curve and hint.
  pub effective_backoff_curve :
      pos 0 ≤ℤ backoff_for p attempt
      → base <ℤ pos (2 ^ 53)
      → (backoff_for p attempt ≤ℤ effective_backoff j p attempt hint seed)
        × (4 * pos_part (effective_backoff j p attempt hint seed) ≤ 5 * pos_part base)
  effective_backoff_curve nonneg small =
      let near = near_base base refl (base-nonneg nonneg) small in
      (≤ℤ-trans _ base _ (with_hint-ge_base (backoff_for p attempt) hint) near.0, near.1)

  -- Where the curve has not overflowed and the base is below 2 ^ 53 ns, a sleep is never shorter
  -- than a positive hint of the server, up to that hint's cap.
  pub effective_backoff_hint :
      pos 0 ≤ℤ backoff_for p attempt
      → base <ℤ pos (2 ^ 53)
      → pos 0 <ℤ hint
      → honored hint ≤ℤ effective_backoff j p attempt hint seed
  effective_backoff_hint nonneg small hinted =
      let near = near_base base refl (base-nonneg nonneg) small in
      ≤ℤ-trans _ base _ (with_hint-ge_hint (backoff_for p attempt) hint hinted) near.0
