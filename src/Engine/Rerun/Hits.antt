-- ===== src/Engine/Rerun/Hits.antt =====
-- The paths that a rerun forgets, told by their segments (engine/rerun.go).
use awf.Prelude.{
  ℕ, ◌≡◌, ◌<◌, ◌==◌, ==_iff, refl, sym, ap, ◌∙◌, ◌⊎◌, inl, inr, Bytes, codes, bytes_eq,
  bytes_eq_iff, true, false, [], ◌∷◌, ◌++◌, some, Bool-cases, Option-cases, arith,
}
use mathlib.Core.Path.{subst}
use awf.Prelude.Map.{Map, lookup, get_or}
use awf.State.Blobs.{has_prefix}
use awf.Engine.Rerun.{has_dot, rerun_first_segment, is_affected}

-- `p` is the path of the node `root` or lies in its subtree.
abbrev pub Under : Bytes → Bytes → Type 0
Under root p = (p ≡ root) ⊎ ((rest : Bytes) × (p ≡ root ++ (codes "." ++ rest)))

-- `p` is at or in a top-level node, whose segment has no dot, with this slot.
abbrev pub InSlot : Map ℕ → ℕ → Bytes → Type 0
InSlot slots u p =
    (root : Bytes) × (has_dot root ≡ false) × Under root p × (lookup root slots ≡ some u)

-- In the target's subtree, or in a top-level node with a higher slot than `t`.
abbrev pub Hit : Map ℕ → Bytes → ℕ → Bytes → Type 0
Hit slots target t p = Under target p ⊎ ((u : ℕ) × InSlot slots u p × (t < u))

pub rerun_first_segment-dotless : (p : Bytes) → has_dot (rerun_first_segment p) ≡ false
unfolding rerun_first_segment has_dot
rerun_first_segment-dotless [] = refl
rerun_first_segment-dotless (c ∷ cs) = ground (arith, rerun_first_segment-dotless cs)

Under-cons : (c : ℕ) (root p : Bytes) → Under root p → Under (c ∷ root) (c ∷ p)
Under-cons c root p (inl same) = inl (ap (λ q. c ∷ q) same)
Under-cons c root p (inr (rest, longer)) = inr (rest, ap (λ q. c ∷ q) longer)

pub rerun_first_segment-Under : (p : Bytes) → Under (rerun_first_segment p) p
unfolding rerun_first_segment
rerun_first_segment-Under [] = inl refl
rerun_first_segment-Under (c ∷ cs) = elim (Bool-cases (c == 46)) [
  | inl dotted ↦ rw dotted (inr (cs, ap (λ d. d ∷ cs) ((==_iff c 46).0 dotted)))
  | inr other ↦ rw other (Under-cons c (rerun_first_segment cs) cs (rerun_first_segment-Under cs))
]

rerun_first_segment_dotless :
    (root : Bytes) → has_dot root ≡ false → rerun_first_segment root ≡ root
unfolding rerun_first_segment has_dot
rerun_first_segment_dotless [] h = refl
rerun_first_segment_dotless (c ∷ cs) h = ground (arith, h, rerun_first_segment_dotless cs)

rerun_first_segment-append :
    (root rest : Bytes)
    → has_dot root ≡ false
    → rerun_first_segment (root ++ (codes "." ++ rest)) ≡ root
unfolding rerun_first_segment has_dot
rerun_first_segment-append [] rest h = refl
rerun_first_segment-append (c ∷ cs) rest h = ground (arith, h, rerun_first_segment-append cs rest)

Under-rerun_first_segment :
    (root p : Bytes) → has_dot root ≡ false → Under root p → rerun_first_segment p ≡ root
Under-rerun_first_segment root p h (inl same) =
    ap rerun_first_segment same ∙ rerun_first_segment_dotless root h
Under-rerun_first_segment root p h (inr (rest, longer)) =
    ap rerun_first_segment longer ∙ rerun_first_segment-append root rest h

has_prefix-Under : (root p : Bytes) → has_prefix p (root ++ codes ".") ≡ true → Under root p
unfolding has_prefix
has_prefix-Under [] [] h = absurd (cc h)
has_prefix-Under [] (c ∷ cs) h = elim (Bool-cases (c == 46)) [
  | inl dotted ↦ inr (cs, ap (λ d. d ∷ cs) ((==_iff c 46).0 dotted))
  | inr other ↦ absurd (cc (rw other at h))
]
has_prefix-Under (r ∷ root) [] h = absurd (cc h)
has_prefix-Under (r ∷ root) (c ∷ cs) h = elim (Bool-cases (c == r)) [
  | inl same ↦
      subst (λ d. Under (r ∷ root) (d ∷ cs)) (sym ((==_iff c r).0 same))
        (Under-cons r root cs (has_prefix-Under root cs (rw same at h)))
  | inr other ↦ absurd (cc (rw other at h))
]

has_prefix-append :
    (root rest : Bytes) → has_prefix (root ++ (codes "." ++ rest)) (root ++ codes ".") ≡ true
unfolding has_prefix
has_prefix-append [] rest = refl
has_prefix-append (r ∷ root) rest = rw ((==_iff r r).1 refl) (has_prefix-append root rest)

pub is_affected-Hit :
    (slots : Map ℕ) (target : Bytes) (t : ℕ) (p : Bytes)
    → is_affected slots target t p ≡ true
    → Hit slots target t p
unfolding is_affected get_or
is_affected-Hit slots target t p h = elim (Bool-cases (bytes_eq p target)) [
  | inl same ↦ inl (inl ((bytes_eq_iff p target).0 same))
  | inr other ↦ elim (Bool-cases (has_prefix p (target ++ codes "."))) [
    | inl below ↦ inl (has_prefix-Under target p below)
    | inr outside ↦ elim (Option-cases (lookup (rerun_first_segment p) slots)) [
      | inl missing ↦
          absurd (ground (arith, rw (missing, get_or) at (rw outside at (rw other at h))))
      | inr (u, slot) ↦ inr (
        u,
        (rerun_first_segment p, rerun_first_segment-dotless p, rerun_first_segment-Under p, slot),
        ground (arith, rw (slot, get_or) at (rw outside at (rw other at h))),
      )
    ]
  ]
]

pub Hit-is_affected :
    (slots : Map ℕ) (target : Bytes) (t : ℕ) (p : Bytes)
    → Hit slots target t p
    → is_affected slots target t p ≡ true
unfolding is_affected get_or
Hit-is_affected slots target t p (inl (inl same)) = rw ((bytes_eq_iff p target).1 same) refl
Hit-is_affected slots target t p (inl (inr (rest, longer))) =
    let below : has_prefix p (target ++ codes ".") ≡ true =
      ap (λ q. has_prefix q (target ++ codes ".")) longer ∙ has_prefix-append target rest in
    ground (arith, below)
Hit-is_affected slots target t p (inr (u, (root, dotless, under, slot), behind)) =
    let first : lookup (rerun_first_segment p) slots ≡ some u =
      ap (λ r. lookup r slots) (Under-rerun_first_segment root p dotless under) ∙ slot in
    rw (first, get_or) (ground (arith, behind))
