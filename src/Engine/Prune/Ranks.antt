-- ===== src/Engine/Prune/Ranks.antt =====
-- The sort of the scores (engine/prune.go, lowestBeyondK), by how many items beat one.
use awf.Prelude.{
  ℕ, zero, suc, ◌≡◌, ◌≢◌, ◌≤◌, ◌<◌, ◌⊎◌, inl, inr, refl, sym, ◌∙◌, ap, true, false, not, ◌&&◌, ◌||◌,
  List, [], ◌∷◌, map, leb, ==_refl, if◌then◌else◌, length, drop, All, Bool-cases, arith,
}
use mathlib.Core.Path.{subst}
use awf.Engine.Prune.{
  Scored, contains, insert_int, sort_ints, beats, insert_scored, sort_scored, lowest_beyond_k,
}
use awf.Template.Value.{Floats}

-- Numbers that JSON can carry: none is NaN, and none of two that are not less is greater.
pub record FloatLaws {F : Type 0} (fl : Floats F) : Type 0 where
  pub eq_lem : (x y : F) → fl.float_eq x y ≡ (not (fl.float_lt x y) && not (fl.float_lt y x))
  pub lt_asym : (x y : F) → fl.float_lt x y ≡ true → fl.float_lt y x ≡ false
  pub lt_split : (x y z : F) → fl.float_lt x z ≡ true → (fl.float_lt x y || fl.float_lt y z) ≡ true

module _ {F : Type 0} (fl : Floats F) where
  -- How many items beat one.
  unfoldable pub rank : Scored F → List (Scored F) → ℕ
  rank x [] = 0
  rank x (y ∷ ys) = if beats fl y x then suc (rank x ys) else rank x ys

  -- One of the items, by its index and its score.
  abbrev pub Has : Scored F → List (Scored F) → Type 0
  Has x [] = ⊥
  Has x (y ∷ ys) = (y ≡ x) ⊎ Has x ys

  -- Each item beats those behind it, and has another index.
  abbrev Before : Scored F → Scored F → Type 0
  Before y d = (beats fl y d ≡ true) × (y.idx ≢ d.idx)

  abbrev Ranked : List (Scored F) → Type 0
  Ranked [] = Unit
  Ranked (y ∷ ys) = All (Before y) ys × Ranked ys

  -- No two items have one index.
  abbrev pub Distinct : List (Scored F) → Type 0
  Distinct [] = Unit
  Distinct (y ∷ ys) = All (λ (d : Scored F). y.idx ≢ d.idx) ys × Distinct ys

  module _ (laws : FloatLaws fl) where
    beats_irrefl : (a : Scored F) → beats fl a a ≡ false
    unfolding beats
    beats_irrefl a = ground (arith, laws.eq_lem a.points a.points, laws.lt_asym a.points a.points)

    beats-asym : (a b : Scored F) → beats fl a b ≡ true → beats fl b a ≡ false
    unfolding beats
    beats-asym a b h = ground (
      arith,
      h,
      laws.eq_lem a.points b.points,
      laws.eq_lem b.points a.points,
      laws.lt_asym a.points b.points,
      laws.lt_asym b.points a.points,
    )

    beats-total : (a b : Scored F) → a.idx ≢ b.idx → beats fl a b ≡ false → beats fl b a ≡ true
    unfolding beats
    beats-total a b differ h = ground (
      arith,
      h,
      differ,
      laws.eq_lem a.points b.points,
      laws.eq_lem b.points a.points,
      laws.lt_asym a.points b.points,
      laws.lt_asym b.points a.points,
    )

    beats_trans :
        (a b c : Scored F) → beats fl a b ≡ true → beats fl b c ≡ true → beats fl a c ≡ true
    unfolding beats
    beats_trans a b c h k = ground (
      arith,
      h,
      k,
      laws.eq_lem a.points b.points,
      laws.eq_lem b.points c.points,
      laws.eq_lem a.points c.points,
      laws.lt_asym a.points b.points,
      laws.lt_asym b.points a.points,
      laws.lt_asym b.points c.points,
      laws.lt_asym c.points b.points,
      laws.lt_asym a.points c.points,
      laws.lt_asym c.points a.points,
      laws.lt_split c.points b.points a.points,
      laws.lt_split a.points c.points b.points,
      laws.lt_split b.points a.points c.points,
      laws.lt_split a.points b.points c.points,
      laws.lt_split b.points c.points a.points,
      laws.lt_split c.points a.points b.points,
    )

    insert_scored-Every {ℓ} :
        (P : Scored F → Type ℓ) (a : Scored F) (all : List (Scored F))
        → P a
        → All P all
        → All P (insert_scored fl a all)
    unfolding insert_scored
    insert_scored-Every P a [] h every = (h, tt)
    insert_scored-Every P a (b ∷ all) h every = elim (Bool-cases (beats fl a b)) [
      | inl first ↦ rw first (h, every)
      | inr later ↦ rw later (every.0, insert_scored-Every P a all h every.1)
    ]

    sort_scored-Every {ℓ} :
        (P : Scored F → Type ℓ) (all : List (Scored F)) → All P all → All P (sort_scored fl all)
    unfolding sort_scored
    sort_scored-Every P [] every = tt
    sort_scored-Every P (a ∷ all) every =
        insert_scored-Every P a (sort_scored fl all) every.0 (sort_scored-Every P all every.1)

    Before-trans :
        (a b : Scored F) (all : List (Scored F))
        → beats fl a b ≡ true
        → All (λ (d : Scored F). a.idx ≢ d.idx) all
        → All (Before b) all
        → All (Before a) all
    Before-trans a b [] h others every = tt
    Before-trans a b (d ∷ all) h others every =
        ((beats_trans a b d h every.0.0, others.0), Before-trans a b all h others.1 every.1)

    insert_scored-Ranked :
        (a : Scored F) (all : List (Scored F))
        → All (λ (d : Scored F). a.idx ≢ d.idx) all
        → Ranked all
        → Ranked (insert_scored fl a all)
    unfolding insert_scored
    insert_scored-Ranked a [] others sorted = (tt, tt)
    insert_scored-Ranked a (b ∷ all) others sorted = elim (Bool-cases (beats fl a b)) [
      | inl first ↦
          rw first (((first, others.0), Before-trans a b all first others.1 sorted.0), sorted)
      | inr later ↦ rw later (
        insert_scored-Every (Before b) a all
            (beats-total a b others.0 later, λ same. others.0 (sym same)) sorted.0,
        insert_scored-Ranked a all others.1 sorted.1,
      )
    ]

    sort_scored-Ranked : (all : List (Scored F)) → Distinct all → Ranked (sort_scored fl all)
    unfolding sort_scored
    sort_scored-Ranked [] differ = tt
    sort_scored-Ranked (a ∷ all) differ =
        insert_scored-Ranked a (sort_scored fl all)
          (sort_scored-Every (λ (d : Scored F). a.idx ≢ d.idx) all differ.0)
          (sort_scored-Ranked all differ.1)

    rank-insert_scored :
        (x a : Scored F) (all : List (Scored F))
        → rank x (insert_scored fl a all) ≡ rank x (a ∷ all)
    unfolding insert_scored rank
    rank-insert_scored x a [] = refl
    rank-insert_scored x a (b ∷ all) = ground (arith, rank-insert_scored x a all)

    rank-sort_scored :
        (x : Scored F) (all : List (Scored F)) → rank x (sort_scored fl all) ≡ rank x all
    unfolding sort_scored rank
    rank-sort_scored x [] = refl
    rank-sort_scored x (a ∷ all) =
        rank-insert_scored x a (sort_scored fl all) ∙ ground (arith, rank-sort_scored x all)

    Has-insert_scored :
        (x a : Scored F) (all : List (Scored F)) → Has x (a ∷ all) → Has x (insert_scored fl a all)
    unfolding insert_scored
    Has-insert_scored x a [] h = h
    Has-insert_scored x a (b ∷ all) h = elim (Bool-cases (beats fl a b)) [
      | inl first ↦ rw first h
      | inr later ↦ rw later (elim h [
        | inl new ↦ inr (Has-insert_scored x a all (inl new))
        | inr (inl here) ↦ inl here
        | inr (inr old) ↦ inr (Has-insert_scored x a all (inr old))
      ])
    ]

    Has-sort_scored :
        (x : Scored F) (all : List (Scored F)) → Has x all → Has x (sort_scored fl all)
    unfolding sort_scored
    Has-sort_scored x [] h = h
    Has-sort_scored x (a ∷ all) (inl here) = Has-insert_scored x a (sort_scored fl all) (inl here)
    Has-sort_scored x (a ∷ all) (inr there) =
        Has-insert_scored x a (sort_scored fl all) (inr (Has-sort_scored x all there))

    -- The indices of some items.
    abbrev indices : List (Scored F) → List ℕ
    indices all = map (λ s. s.idx) all

    contains-drop_other :
        (i k : ℕ) (all : List (Scored F))
        → All (λ (d : Scored F). i ≢ d.idx) all
        → contains i (indices (drop k all)) ≡ false
    unfolding contains
    contains-drop_other i zero [] others = refl
    contains-drop_other i (suc k) [] others = refl
    contains-drop_other i zero (d ∷ all) others =
        ground (arith, others.0, contains-drop_other i 0 all others.1)
    contains-drop_other i (suc k) (d ∷ all) others = contains-drop_other i k all others.1

    rank-least : (y : Scored F) (ys : List (Scored F)) → All (Before y) ys → rank y ys ≡ 0
    unfolding rank
    rank-least y [] every = refl
    rank-least y (d ∷ ys) every = rw (beats-asym y d every.0.0) (rank-least y ys every.1)

    Has-Every {ℓ} :
        (P : Scored F → Type ℓ) (x : Scored F) (all : List (Scored F)) → All P all → Has x all → P x
    Has-Every P x [] every h = absurd h
    Has-Every P x (y ∷ all) every (inl here) = rw (sym here) (every.0)
    Has-Every P x (y ∷ all) every (inr there) = Has-Every P x all every.1 there

    contains-all :
        (x : Scored F) (all : List (Scored F)) → Has x all → contains x.idx (indices all) ≡ true
    unfolding contains
    contains-all x [] h = absurd h
    contains-all x (y ∷ all) (inl here) = rw (sym here) (rw (==_refl y.idx))
    contains-all x (y ∷ all) (inr there) = ground (arith, contains-all x all there)

    Before-others :
        (y : Scored F) (ys : List (Scored F))
        → All (Before y) ys
        → All (λ (d : Scored F). y.idx ≢ d.idx) ys
    Before-others y [] every = tt
    Before-others y (d ∷ ys) every = (every.0.1, Before-others y ys every.1)

    first_rank :
        (y : Scored F) (k : ℕ) (ys : List (Scored F))
        → All (Before y) ys
        → leb (suc k) (rank y (y ∷ ys)) ≡ false
    unfolding rank
    first_rank y k ys every = ground (arith, beats_irrefl y, rank-least y ys every)

    -- Behind the first k of the sorted items are those that k others beat.
    contains-drop :
        (x : Scored F) (k : ℕ) (all : List (Scored F))
        → Ranked all
        → Has x all
        → contains x.idx (indices (drop k all)) ≡ leb k (rank x all)
    unfolding rank
    contains-drop x k [] sorted h = absurd h
    contains-drop x zero (y ∷ all) sorted h = contains-all x (y ∷ all) h ∙ ground arith
    contains-drop x (suc k) (y ∷ all) sorted (inl here) =
        subst
          (λ (z : Scored F). contains z.idx (indices (drop k all)) ≡ leb (suc k) (rank z (y ∷ all)))
          here
          (contains-drop_other y.idx k all (Before-others y all sorted.0)
            ∙ sym (first_rank y k all sorted.0))
    contains-drop x (suc k) (y ∷ all) sorted (inr there) =
        let first : beats fl y x ≡ true = (Has-Every (Before y) x all sorted.0 there).0 in
        rw first (contains-drop x k all sorted.1 there ∙ ground arith)

    contains-sort_ints : (i : ℕ) (js : List ℕ) → contains i (sort_ints js) ≡ contains i js
    unfolding contains sort_ints
    contains-sort_ints i [] = refl
    contains-sort_ints i (j ∷ js) =
        contains-insert_int i j (sort_ints js) ∙ ground (arith, contains-sort_ints i js)
      where
        contains-insert_int :
            (i j : ℕ) (js : List ℕ) → contains i (insert_int j js) ≡ contains i (j ∷ js)
        contains-insert_int i j [] = refl
        contains-insert_int i j (k ∷ js) = ground (arith, contains-insert_int i j js)

    -- The losers are the items that k others beat.
    pub contains-lowest_beyond_k :
        (x : Scored F) (k : ℕ) (all : List (Scored F))
        → Distinct all
        → Has x all
        → contains x.idx (lowest_beyond_k fl k all) ≡ leb k (rank x all)
    unfolding lowest_beyond_k
    contains-lowest_beyond_k x k all differ h =
        contains-sort_ints x.idx (indices (drop k (sort_scored fl all)))
        ∙ contains-drop x k (sort_scored fl all) (sort_scored-Ranked all differ)
            (Has-sort_scored x all h)
        ∙ ap (leb k) (rank-sort_scored x all)

    -- An item with no score is no loser.
    pub contains-lowest_beyond_k_other :
        (i k : ℕ) (all : List (Scored F))
        → All (λ (d : Scored F). i ≢ d.idx) all
        → contains i (lowest_beyond_k fl k all) ≡ false
    unfolding lowest_beyond_k
    contains-lowest_beyond_k_other i k all others =
        contains-sort_ints i (indices (drop k (sort_scored fl all)))
        ∙ contains-drop_other i k (sort_scored fl all)
            (sort_scored-Every (λ (d : Scored F). i ≢ d.idx) all others)

    rank-le-length : (x : Scored F) (all : List (Scored F)) → rank x all ≤ length all
    unfolding rank
    rank-le-length x [] = omega arith
    rank-le-length x (y ∷ all) = ground (arith, rank-le-length x all)

    -- No item beats itself, so fewer beat it than there are.
    pub rank-lt-length :
        (x : Scored F) (all : List (Scored F)) → Has x all → rank x all < length all
    unfolding rank
    rank-lt-length x [] h = absurd h
    rank-lt-length x (y ∷ all) (inl here) =
        rw (sym here) (ground (arith, beats_irrefl y, rank-le-length y all))
    rank-lt-length x (y ∷ all) (inr there) = ground (arith, rank-lt-length x all there)
