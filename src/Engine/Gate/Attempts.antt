-- ===== src/Engine/Gate/Attempts.antt =====
-- Lists of the attempts of a gate (engine/gate.go).
use awf.Prelude.{
  ℕ, ◌+◌, ◌≡◌, ◌⊎◌, inl, inr, false, List, [], ◌∷◌, ◌++◌, str_eq_iff, length, arith, length-append,
}
use awf.Engine.RunState.{AttemptResult}
use awf.Engine.Gate.{attempt_passed, attempt_rejected, passed_last}

-- Numbered from `k`, and all of them rejected.
abbrev pub Rejections : ℕ → List AttemptResult → Type 0
Rejections k [] = Unit
Rejections k (a ∷ xs) = (a.n ≡ k) × (a.attempt_outcome ≡ attempt_rejected) × Rejections (k + 1) xs

-- Numbered from `k`, and all of them rejected but the last, which may have passed.
abbrev pub Settled : ℕ → List AttemptResult → Type 0
Settled k [] = Unit
Settled k (a ∷ []) =
    (a.n ≡ k) × ((a.attempt_outcome ≡ attempt_rejected) ⊎ (a.attempt_outcome ≡ attempt_passed))
Settled k (a ∷ b ∷ xs) =
    (a.n ≡ k) × (a.attempt_outcome ≡ attempt_rejected) × Settled (k + 1) (b ∷ xs)

pub length-append_attempts :
    (xs ys : List AttemptResult) → length (xs ++ ys) ≡ length xs + length ys
length-append_attempts = length-append

pub Rejections→Settled : (k : ℕ) (xs : List AttemptResult) → Rejections k xs → Settled k xs
Rejections→Settled k [] h = tt
Rejections→Settled k (a ∷ []) h = (h.0, inl h.1)
Rejections→Settled k (a ∷ b ∷ xs) h = (h.0, h.1, Rejections→Settled (k + 1) (b ∷ xs) h.2)

pub Rejections-append :
    (k : ℕ) (xs : List AttemptResult) (a : AttemptResult)
    → Rejections k xs
    → a.n ≡ k + length xs
    → a.attempt_outcome ≡ attempt_rejected
    → Rejections k (xs ++ a ∷ [])
Rejections-append k [] a h e r = (omega arith, r, tt)
Rejections-append k (b ∷ xs) a h e r =
    (h.0, h.1, Rejections-append (k + 1) xs a h.2 (omega arith) r)

pub Settled-append :
    (k : ℕ) (xs : List AttemptResult) (a : AttemptResult)
    → Rejections k xs
    → a.n ≡ k + length xs
    → a.attempt_outcome ≡ attempt_passed
    → Settled k (xs ++ a ∷ [])
Settled-append k [] a h e r = (omega arith, inr r)
Settled-append k (b ∷ []) a h e r = (h.0, h.1, (omega arith, inr r))
Settled-append k (b ∷ c ∷ xs) a h e r =
    (h.0, h.1, Settled-append (k + 1) (c ∷ xs) a h.2 (omega arith) r)

-- Where the last attempt has not passed, none has.
pub Settled→Rejections :
    (k : ℕ) (xs : List AttemptResult) → Settled k xs → passed_last xs ≡ false → Rejections k xs
unfolding passed_last
Settled→Rejections k [] h e = tt
Settled→Rejections k (a ∷ []) h e =
    (h.0, ground (arith, h.1, str_eq_iff a.attempt_outcome attempt_passed), tt)
Settled→Rejections k (a ∷ b ∷ xs) h e = (h.0, h.1, Settled→Rejections (k + 1) (b ∷ xs) h.2 e)
