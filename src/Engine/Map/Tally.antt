-- ===== src/Engine/Map/Tally.antt =====
-- The verdict of a map over the statuses of its items (engine/map.go).
use awf.Prelude.{
  ℕ, zero, suc, ◌+◌, ◌^◌, ◌≡◌, ◌≤◌, ◌<◌, ◌↔◌, ◌⊎◌, inl, inr, refl, Bytes, true, false, ◌||◌, List,
  [], ◌∷◌, Option, none, some, String, str_eq, str_eq_iff, if◌then◌else◌, length, All, Bool-cases,
  Option-cases, arith,
}
use awf.Prelude.Int.{ℤ, pos, negsuc, ◌≤ℤ◌, ◌<ℤ◌, ltb_ℤ}
use awf.Engine.Map.{
  item_passed, item_pruned, count_status, tally_results, count_pruned, FloatProducts, increment,
  at_least_one, fraction_threshold, ratio_threshold, map_succeeds,
}
use awf.Signal.Paths.{atoi}
use awf.Template.Value.{Floats}

-- Passed, or discarded by the frontier.
abbrev pub Fine : String → Type 0
Fine s = (s ≡ item_passed) ⊎ (s ≡ item_pruned)

exclusive : (s : String) → str_eq s item_passed ≡ true → str_eq s item_pruned ≡ false
exclusive s passed = rw ((str_eq_iff s item_passed).0 passed)

count-length :
    (statuses : List String)
    → count_status item_passed statuses + count_status item_pruned statuses ≤ length statuses
unfolding count_status
count-length [] = omega arith
count-length (s ∷ statuses) =
    ground (
      arith,
      count-length statuses,
      str_eq_iff s item_passed,
      str_eq_iff s item_pruned,
      exclusive s,
    )

count-Fine :
    (statuses : List String)
    → All Fine statuses
    → length statuses ≡ count_status item_passed statuses + count_status item_pruned statuses
unfolding count_status
count-Fine [] fine = omega arith
count-Fine (s ∷ statuses) fine = ground (
  arith,
  count-Fine statuses fine.1,
  fine.0,
  str_eq_iff s item_passed,
  str_eq_iff s item_pruned,
  exclusive s,
)

Fine-count :
    (statuses : List String)
    → length statuses ≤ count_status item_passed statuses + count_status item_pruned statuses
    → All Fine statuses
unfolding count_status
Fine-count [] enough = tt
Fine-count (s ∷ statuses) enough = elim (Bool-cases (str_eq s item_passed)) [
  | inl passed ↦ (
    inl ((str_eq_iff s item_passed).0 passed),
    Fine-count statuses (
        ground
          (arith, enough, passed, str_eq_iff s item_passed, str_eq_iff s item_pruned, exclusive s)),
  )
  | inr not_passed ↦ elim (Bool-cases (str_eq s item_pruned)) [
    | inl pruned ↦ (
      inr ((str_eq_iff s item_pruned).0 pruned),
      Fine-count statuses (ground (arith, enough, not_passed, pruned)),
    )
    | inr not_pruned ↦
        absurd (ground (arith, enough, not_passed, not_pruned, count-length statuses))
  ]
]

-- Products and truncations of float64 at counts that it holds exactly.
pub record RatioLaws {F : Type 0} (fl : Floats F) (fp : FloatProducts F) : Type 0 where
  -- A fraction of a count is no more than the count.
  pub mul_le :
      (f : F) (n : ℕ)
      → n < 2 ^ 53
      → fl.float_lt (fl.of_int (pos 1)) f ≡ false
      → fl.float_lt (fl.of_int (pos n)) (fp.mul f (fl.of_int (pos n))) ≡ false
  pub trunc_le :
      (x : F) (n : ℕ) → n < 2 ^ 53 → fl.float_lt (fl.of_int (pos n)) x ≡ false → fp.trunc x ≤ℤ pos n
  -- A number that is above its integral part is below the next count.
  pub trunc_lt :
      (x : F) (n : ℕ)
      → n < 2 ^ 53
      → fl.float_lt (fl.of_int (pos n)) x ≡ false
      → fl.float_lt (fl.of_int (fp.trunc x)) x ≡ true
      → fp.trunc x <ℤ pos n

module _ {F : Type 0} (fl : Floats F) (fp : FloatProducts F) where
  -- The gate of a map without min_success.
  pub map_succeeds-All :
      (statuses : List String) → (map_succeeds fl fp none statuses ≡ true) ↔ All Fine statuses
  unfolding map_succeeds ratio_threshold tally_results count_pruned
  map_succeeds-All statuses = (
    λ h. Fine-count statuses (ground (arith, h, count-length statuses)),
    λ fine. ground (arith, count-Fine statuses fine),
  )

  -- A threshold of a total: within it, or one where there is nothing.
  abbrev pub Threshold : ℕ → ℤ → Type 0
  Threshold total t = (pos 0 ≤ℤ t) × ((t ≤ℤ pos total) ⊎ ((total ≡ 0) × (t ≡ pos 1)))

  increment-le : (n : ℤ) (total : ℕ) → n <ℤ pos total → increment n ≤ℤ pos total
  unfolding increment
  increment-le (pos n) total h = omega (arith, h)
  increment-le (negsuc zero) total h = omega arith
  increment-le (negsuc (suc n)) total h = omega arith

  at_least_one-Threshold : (n : ℤ) (total : ℕ) → n ≤ℤ pos total → Threshold total (at_least_one n)
  unfolding at_least_one
  at_least_one-Threshold (pos zero) zero h = (omega arith, inr (refl, refl))
  at_least_one-Threshold (pos zero) (suc total) h = (omega arith, inl (omega arith))
  at_least_one-Threshold (pos (suc n)) total h =
      let positive : ltb_ℤ (pos (suc n)) (pos 1) ≡ false = ground arith in
      rw positive (omega arith, inl h)
  at_least_one-Threshold (negsuc n) zero h =
      let low : ltb_ℤ (negsuc n) (pos 1) ≡ true = ground arith in
      rw low (omega arith, inr (refl, refl))
  at_least_one-Threshold (negsuc n) (suc total) h =
      let low : ltb_ℤ (negsuc n) (pos 1) ≡ true = ground arith in
      rw low (omega arith, inl (omega arith))

  count-Threshold :
      (i : ℤ) (total : ℕ)
      → Threshold total (if ltb_ℤ i (pos 0) || ltb_ℤ (pos total) i then pos total else i)
  count-Threshold (negsuc n) total =
      let low : ltb_ℤ (negsuc n) (pos 0) ≡ true = ground arith in
      rw low (omega arith, inl (omega arith))
  count-Threshold (pos n) total =
      let fine : ltb_ℤ (pos n) (pos 0) ≡ false = ground arith in
      rw fine (elim (Bool-cases (ltb_ℤ (pos total) (pos n))) [
        | inl high ↦ rw high (omega arith, inl (omega arith))
        | inr within ↦ rw within (omega arith, inl (ground (arith, within)))
      ])

  fraction_threshold-Threshold :
      (laws : RatioLaws fl fp) (f : F) (total : ℕ)
      → total < 2 ^ 53
      → fl.float_lt (fl.of_int (pos 1)) f ≡ false
      → Threshold total (fraction_threshold fl fp f total)
  unfolding fraction_threshold
  fraction_threshold-Threshold laws f total small within =
      let exact = fp.mul f (fl.of_int (pos total)) in
      let below = laws.mul_le f total small within in
      let floor = laws.trunc_le exact total small below in
      elim (Bool-cases (fl.float_lt (fl.of_int (fp.trunc exact)) exact)) [
        | inl above ↦
            let strict = laws.trunc_lt exact total small below above in
            rw above (
              at_least_one-Threshold (increment (fp.trunc exact)) total
                (increment-le (fp.trunc exact) total strict))
        | inr whole ↦ rw whole (at_least_one-Threshold (fp.trunc exact) total floor)
      ]

  -- The ratio of a min_success or a quorum asks for no more items than there are, and for none of
  -- a negative number of them; but a fraction of no items at all asks for one.
  pub ratio_threshold-Threshold :
      (laws : RatioLaws fl fp) (ratio : Option Bytes) (total : ℕ)
      → total < 2 ^ 53
      → Threshold total (ratio_threshold fl fp ratio total)
  unfolding ratio_threshold
  ratio_threshold-Threshold laws none total small = (omega arith, inl (omega arith))
  ratio_threshold-Threshold laws (some raw) total small =
      let all : Threshold total (pos total) = (omega arith, inl (omega arith)) in
      elim (Option-cases (atoi raw)) [
        | inr (i, whole) ↦ rw (whole, ratio_threshold) (count-Threshold i total)
        | inl no_int ↦
            rw (no_int, ratio_threshold)
              (elim (Option-cases (fl.parse_float raw)) [
                | inl unparseable ↦ rw (unparseable, ratio_threshold) all
                | inr (f, parsed) ↦
                    rw (parsed, ratio_threshold)
                      (elim (Bool-cases (fl.float_le f (fl.of_int (pos 0)))) [
                        | inl low ↦ rw low all
                        | inr positive ↦
                            rw positive (elim (Bool-cases (fl.float_lt (fl.of_int (pos 1)) f)) [
                              | inl high ↦ rw high all
                              | inr within ↦
                                  rw within (fraction_threshold-Threshold laws f total small within)
                            ])
                      ])
              ])
      ]
