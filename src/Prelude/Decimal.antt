-- ===== src/Prelude/Decimal.antt =====
-- strconv.Itoa at a number that is not negative, and the number that a text of digits stands for.
use Prim.Native.Nat.{ℕ, zero, suc, ◌+◌, ◌-◌, ◌*◌, ◌/◌, ◌%◌, ◌<◌}
use mathlib.Core.Path.{◌≡◌, ◌∙◌, sym, ap}
use mathlib.Core.Bool.{Bool, true, ◌&&◌}
use mathlib.Core.List.{[], ◌∷◌}
use native.Mathlib.Omega.{arith}
use awf.Prelude.Tests.{ltb, leb, if◌then◌else◌, Bool-cases}
use awf.Prelude.Texts.{Bytes}
use awf.Prelude.Lists.{All}
use mathlib.Core.Logic.{inl, inr}

-- The digits of `n`, most significant first, in front of `rest`.
unfoldable pub digits : ℕ → ℕ → Bytes → Bytes
digits zero n rest = rest
digits (suc fuel) n rest =
    let acc = (b'0' + n % 10) ∷ rest in
    let more = digits fuel (n / 10) acc in if ltb n 10 then acc else more

unfoldable pub itoa : ℕ → Bytes
unfolding digits
itoa n = digits (suc n) n []

abbrev pub is_digit : ℕ → Bool
is_digit c = leb b'0' c && leb c b'9'

-- The number that digits stand for, behind `acc`.
unfoldable pub value : ℕ → Bytes → ℕ
value acc [] = acc
value acc (c ∷ cs) = value (acc * 10 + (c - b'0')) cs

value-digits : (fuel n : ℕ) (rest : Bytes) → n < fuel → value 0 (digits fuel n rest) ≡ value n rest
unfolding value digits
value-digits zero n rest h = absurd (omega arith)
value-digits (suc fuel) n rest h = elim (Bool-cases (ltb n 10)) [
  | inl small ↦ rw small (ap (λ k. value k rest) (ground arith))
  | inr large ↦ rw large (
      value-digits fuel (n / 10) ((b'0' + n % 10) ∷ rest) (ground arith)
      ∙ ap (λ k. value k rest) (omega arith))
]

pub value-itoa : (n : ℕ) → value 0 (itoa n) ≡ n
unfolding value itoa
value-itoa n = value-digits (suc n) n [] (omega arith)

-- Two numbers print alike only if they are one number.
pub itoa-injective : (m n : ℕ) → itoa m ≡ itoa n → m ≡ n
itoa-injective m n e = sym (value-itoa m) ∙ ap (value 0) e ∙ value-itoa n

digits-is_digit :
    (fuel n : ℕ) (rest : Bytes)
    → All (λ c. is_digit c ≡ true) rest
    → All (λ c. is_digit c ≡ true) (digits fuel n rest)
unfolding digits
digits-is_digit zero n rest h = h
digits-is_digit (suc fuel) n rest h =
    let here : is_digit (b'0' + n % 10) ≡ true = ground arith in
    elim (Bool-cases (ltb n 10)) [
      | inl small ↦ rw small (here, h)
      | inr large ↦ rw large (digits-is_digit fuel (n / 10) ((b'0' + n % 10) ∷ rest) (here, h))
    ]

-- Itoa prints digits only.
pub itoa-is_digit : (n : ℕ) → All (λ c. is_digit c ≡ true) (itoa n)
unfolding itoa
itoa-is_digit n = digits-is_digit (suc n) n [] tt
