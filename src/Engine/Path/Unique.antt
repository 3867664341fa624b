-- ===== src/Engine/Path/Unique.antt =====
-- The indexed addresses of engine/path.go, taken apart.
use mathlib.Core.List.{append_cancel_left}
use mathlib.Core.Bool.{false≢true}
use awf.Prelude.{
  ℕ, ◌≡◌, ◌≢◌, refl, sym, ◌∙◌, ap, Bytes, codes, ◌++◌, ◌∷◌, arith, String, false, bytes_eq,
  bytes_eq_iff,
}
use awf.Prelude.Decimal.{itoa, itoa-injective}
use awf.Engine.Path.{iter_path, attempt_path, item_path, round_path, parent_path}
use awf.Engine.Path.Parent.{parent_path-segment, IsSegment, indexed}

-- Of two addresses with one more segment each, the fronts are equal and the segments are.
segment_unique :
    (p q s t : Bytes)
    → IsSegment s
    → IsSegment t
    → p ++ b'.' ∷ s ≡ q ++ b'.' ∷ t
    → (p ≡ q) × (s ≡ t)
segment_unique p q s t hs ht e =
    let fronts = sym (parent_path-segment p s hs) ∙ ap parent_path e ∙ parent_path-segment q t ht in
    let front : p ≡ q = cc fronts in
    let same : p ++ b'.' ∷ s ≡ p ++ b'.' ∷ t = e ∙ ap (λ r. r ++ b'.' ∷ t) (sym front) in
    (front, cc (append_cancel_left p (b'.' ∷ s) (b'.' ∷ t) same))

pub data AddressKind : Type 0 where
  iteration attempt item round : AddressKind

-- The address of the n-th iteration, attempt, item or round of a node.
abbrev pub address : AddressKind → Bytes → ℕ → Bytes
address iteration = iter_path
address attempt = attempt_path
address item = item_path
address round = round_path

prefix : AddressKind → String
prefix iteration = "iter-"
prefix attempt = "attempt-"
prefix item = "item-"
prefix round = "round-"

prefix-IsSegment : (k : AddressKind) → IsSegment (codes (prefix k))
unfolding prefix
prefix-IsSegment iteration = ground arith
prefix-IsSegment attempt = ground arith
prefix-IsSegment item = ground arith
prefix-IsSegment round = ground arith

address-prefix :
    (k : AddressKind) (p : Bytes) (n : ℕ) → address k p n ≡ p ++ b'.' ∷ (codes (prefix k) ++ itoa n)
unfolding prefix iter_path attempt_path item_path round_path
address-prefix iteration p n = refl
address-prefix attempt p n = refl
address-prefix item p n = refl
address-prefix round p n = refl

-- Two segments that begin differently are two segments.
differ : (xs ys : Bytes) → bytes_eq xs ys ≡ false → xs ≢ ys
differ xs ys h e = false≢true (sym h ∙ (bytes_eq_iff xs ys).1 e)

-- Two numbered segments of different kinds differ.
kinds_equal :
    (k l : AddressKind) (m n : ℕ) → codes (prefix k) ++ itoa m ≡ codes (prefix l) ++ itoa n → k ≡ l
unfolding prefix bytes_eq
kinds_equal iteration iteration m n e = refl
kinds_equal attempt attempt m n e = refl
kinds_equal item item m n e = refl
kinds_equal round round m n e = refl
kinds_equal iteration attempt m n e = absurd (differ _ _ refl e)
kinds_equal iteration item m n e = absurd (differ _ _ refl e)
kinds_equal iteration round m n e = absurd (differ _ _ refl e)
kinds_equal attempt iteration m n e = absurd (differ _ _ refl e)
kinds_equal attempt item m n e = absurd (differ _ _ refl e)
kinds_equal attempt round m n e = absurd (differ _ _ refl e)
kinds_equal item iteration m n e = absurd (differ _ _ refl e)
kinds_equal item attempt m n e = absurd (differ _ _ refl e)
kinds_equal item round m n e = absurd (differ _ _ refl e)
kinds_equal round iteration m n e = absurd (differ _ _ refl e)
kinds_equal round attempt m n e = absurd (differ _ _ refl e)
kinds_equal round item m n e = absurd (differ _ _ refl e)

same_index :
    (k l : AddressKind) (m n : ℕ)
    → k ≡ l
    → codes (prefix k) ++ itoa m ≡ codes (prefix l) ++ itoa n
    → m ≡ n
same_index k l m n same e = itoa-injective m n (
    append_cancel_left (codes (prefix k)) (itoa m) (itoa n)
      (e ∙ ap (λ j. codes (prefix j) ++ itoa n) (sym same)))

-- The address of an iteration, an attempt, an item or a round determines which of the four it is,
-- the node and the index.
pub address_unique :
    (k l : AddressKind) (p q : Bytes) (m n : ℕ)
    → address k p m ≡ address l q n
    → (k ≡ l) × (p ≡ q) × (m ≡ n)
address_unique k l p q m n e =
    let left = indexed (prefix k) m (prefix-IsSegment k) in
    let right = indexed (prefix l) n (prefix-IsSegment l) in
    let spelled = sym (address-prefix k p m) ∙ e ∙ address-prefix l q n in
    let both = segment_unique p q _ _ left right spelled in
    let same = kinds_equal k l m n both.1 in (same, both.0, same_index k l m n same both.1)
