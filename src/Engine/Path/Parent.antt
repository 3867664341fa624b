-- ===== src/Engine/Path/Parent.antt =====
-- ParentPath at the addresses that the other functions of engine/path.go build.
use awf.Prelude.{
  ℕ, zero, suc, ◌+◌, ◌<◌, ◌≡◌, refl, ap, Bytes, codes, [], ◌∷◌, ◌++◌, String, true, false, none,
  some, length, ◌==◌, arith, All, take-length_append, length-append, Bool-cases, inl, inr,
  All-append,
}
use awf.Prelude.Decimal.{itoa, itoa-is_digit, is_digit}
use awf.Engine.Path.{
  iter_path, attempt_path, item_path, round_path, model_path, tool_path, parent_path, parent_loop,
  is_dot_at,
}

abbrev pub IsPlain : ℕ → Type 0
IsPlain c = (c == b'.') ≡ false

-- No dot stands in the segment.
abbrev pub IsSegment : Bytes → Type 0
IsSegment = All IsPlain

is_dot_at-segment : (i : ℕ) (seg : Bytes) → IsSegment seg → is_dot_at i seg ≡ false
unfolding is_dot_at
is_dot_at-segment i [] h = refl
is_dot_at-segment zero (c ∷ cs) h = h.0
is_dot_at-segment (suc i) (c ∷ cs) h = is_dot_at-segment i cs h.1

-- Behind the dot no position is a dot, and at the dot there is one.
is_dot_at-behind :
    (i : ℕ) (p seg : Bytes) → IsSegment seg → length p < i → is_dot_at i (p ++ b'.' ∷ seg) ≡ false
unfolding is_dot_at
is_dot_at-behind zero p seg h lt = absurd (omega arith)
is_dot_at-behind (suc i) [] seg h lt = is_dot_at-segment i seg h
is_dot_at-behind (suc i) (x ∷ p) seg h lt = is_dot_at-behind i p seg h (omega arith)

is_dot_at-here : (p seg : Bytes) → is_dot_at (length p) (p ++ b'.' ∷ seg) ≡ true
unfolding is_dot_at
is_dot_at-here [] seg = refl
is_dot_at-here (x ∷ p) seg = is_dot_at-here p seg

parent_loop-dot :
    (k : ℕ) (p seg : Bytes)
    → IsSegment seg
    → length p < k
    → parent_loop k (p ++ b'.' ∷ seg) ≡ some p
unfolding parent_loop
parent_loop-dot zero p seg h lt = absurd (omega arith)
parent_loop-dot (suc i) p seg h lt = elim (Bool-cases (i == length p)) [
  | inl here ↦
      let e : i ≡ length p = ground arith in
      rw (e, is_dot_at-here p seg) (ap some (take-length_append p (b'.' ∷ seg)))
  | inr behind ↦
      let lt' : length p < i = ground arith in
      rw (is_dot_at-behind i p seg h lt') (parent_loop-dot i p seg h lt')
]

length-append_bytes : (xs ys : Bytes) → length (xs ++ ys) ≡ length xs + length ys
length-append_bytes = length-append

-- The parent of an address with one more segment is that address.
pub parent_path-segment : (p seg : Bytes) → IsSegment seg → parent_path (p ++ b'.' ∷ seg) ≡ some p
unfolding parent_path
parent_path-segment p seg h =
    parent_loop-dot (length (p ++ b'.' ∷ seg)) p seg h
      (omega (arith, length-append_bytes p (b'.' ∷ seg)))

digits-IsSegment : (cs : Bytes) → All (λ c. is_digit c ≡ true) cs → IsSegment cs
digits-IsSegment [] h = tt
digits-IsSegment (c ∷ cs) h = (ground arith, digits-IsSegment cs h.1)

pub itoa-IsSegment : (n : ℕ) → IsSegment (itoa n)
itoa-IsSegment n = digits-IsSegment (itoa n) (itoa-is_digit n)

pub indexed : (name : String) (n : ℕ) → IsSegment (codes name) → IsSegment (codes name ++ itoa n)
indexed name n h = All-append IsPlain (codes name) (itoa n) h (itoa-IsSegment n)

-- ParentPath takes back what IterPath, AttemptPath, ItemPath, RoundPath, ModelPath and ToolPath
-- appended to any path.
pub parent_path_inverse :
    (p : Bytes) (n : ℕ)
    → (parent_path (iter_path p n) ≡ some p)
      × (parent_path (attempt_path p n) ≡ some p)
      × (parent_path (item_path p n) ≡ some p)
      × (parent_path (round_path p n) ≡ some p)
      × (parent_path (model_path p) ≡ some p)
      × (parent_path (tool_path p n) ≡ some p)
unfolding iter_path attempt_path item_path round_path model_path tool_path
parent_path_inverse p n = (
  parent_path-segment p (codes "iter-" ++ itoa n) (indexed "iter-" n (ground arith)),
  parent_path-segment p (codes "attempt-" ++ itoa n) (indexed "attempt-" n (ground arith)),
  parent_path-segment p (codes "item-" ++ itoa n) (indexed "item-" n (ground arith)),
  parent_path-segment p (codes "round-" ++ itoa n) (indexed "round-" n (ground arith)),
  parent_path-segment p (codes "model") (ground arith),
  parent_path-segment p (codes "tool-" ++ itoa n) (indexed "tool-" n (ground arith)),
)

parent_loop-none : (k : ℕ) (p : Bytes) → IsSegment p → parent_loop k p ≡ none
unfolding parent_loop
parent_loop-none zero p h = refl
parent_loop-none (suc i) p h = rw (is_dot_at-segment i p h) (parent_loop-none i p h)

-- A top-level node, whose address is one segment, has no parent.
pub parent_path-top : (p : Bytes) → IsSegment p → parent_path p ≡ none
unfolding parent_path
parent_path-top p h = parent_loop-none (length p) p h
