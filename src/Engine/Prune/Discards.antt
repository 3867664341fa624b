-- ===== src/Engine/Prune/Discards.antt =====
-- What a new score discards from a frontier that was settled before (engine/prune.go).
use awf.Prelude.{
  ℕ, suc, ◌≡◌, ◌≢◌, ◌⊎◌, inl, inr, refl, sym, ◌∙◌, ap, true, false, ◌||◌, List, [], ◌∷◌, ◌++◌, leb,
  ◌==◌, ==_iff, if◌then◌else◌, length, All, Bool-cases, arith,
}
use awf.Engine.Prune.{
  PruneRun, Scored, contains, add, set_score, beats, lowest_beyond_k, new_prune_run, discard,
}
use awf.Engine.Prune.Ranks.{
  FloatLaws, rank, Has, Distinct, contains-lowest_beyond_k, contains-lowest_beyond_k_other,
  rank-lt-length,
}
use awf.Template.Value.{Floats}

contains-append :
    (i : ℕ) (js ks : List ℕ) → contains i (js ++ ks) ≡ (contains i js || contains i ks)
unfolding contains
contains-append i [] ks = refl
contains-append i (j ∷ js) ks = ground (arith, contains-append i js ks)

contains-add : (i j : ℕ) (js : List ℕ) → contains i (add j js) ≡ (i == j || contains i js)
unfolding add contains
contains-add i j js = elim (Bool-cases (contains j js)) [
  | inl old ↦ rw old (elim (Bool-cases (i == j)) [
    | inl same ↦ rw same (rw ((==_iff i j).0 same) old)
    | inr other ↦ rw other
  ])
  | inr new ↦ rw new (contains-append i js (j ∷ []) ∙ ground arith)
]

contains-discard :
    (i : ℕ) (losers pruned : List ℕ)
    → contains i (discard losers pruned) ≡ (contains i losers || contains i pruned)
unfolding discard contains
contains-discard i [] pruned = refl
contains-discard i (j ∷ losers) pruned =
    contains-discard i losers (add j pruned) ∙ ground (arith, contains-add i j pruned)

module _ {F : Type 0} (fl : Floats F) where
  pub set_score-append :
      (item : ℕ) (score : F) (scores : List (Scored F))
      → All (λ (d : Scored F). item ≢ d.idx) scores
      → set_score fl item score scores ≡ scores ++ record { idx = item; points = score } ∷ []
  unfolding set_score
  set_score-append item score [] others = refl
  set_score-append item score (s ∷ scores) others =
      let differ : (s.idx == item) ≡ false = ground (arith, others.0, ==_iff s.idx item) in
      rw differ (ap (λ r. s ∷ r) (set_score-append item score scores others.1))

  rank-append :
      (x s : Scored F) (xs : List (Scored F))
      → rank fl x (xs ++ s ∷ []) ≡ (if beats fl s x then suc (rank fl x xs) else rank fl x xs)
  unfolding rank
  rank-append x s [] = refl
  rank-append x s (y ∷ xs) = ground (arith, rank-append x s xs)

  Has-append :
      (x s : Scored F) (xs : List (Scored F)) → Has fl x (xs ++ s ∷ []) → Has fl x xs ⊎ (s ≡ x)
  Has-append x s [] (inl here) = inr here
  Has-append x s [] (inr h) = absurd h
  Has-append x s (y ∷ xs) (inl here) = inl (inl here)
  Has-append x s (y ∷ xs) (inr there) = elim (Has-append x s xs there) [
    | inl old ↦ inl (inr old)
    | inr new ↦ inr new
  ]

  Has-new : (s : Scored F) (xs : List (Scored F)) → Has fl s (xs ++ s ∷ [])
  Has-new s [] = inl refl
  Has-new s (y ∷ xs) = inr (Has-new s xs)

  pub Distinct-append :
      (s : Scored F) (xs : List (Scored F))
      → All (λ (d : Scored F). s.idx ≢ d.idx) xs
      → Distinct fl xs
      → Distinct fl (xs ++ s ∷ [])
  Distinct-append s [] others differ = (tt, tt)
  Distinct-append s (y ∷ xs) others differ =
      (snoc y xs (λ same. others.0 (sym same)) differ.0, Distinct-append s xs others.1 differ.1)
    where
      snoc :
          (y : Scored F) (xs : List (Scored F))
          → y.idx ≢ s.idx
          → All (λ (d : Scored F). y.idx ≢ d.idx) xs
          → All (λ (d : Scored F). y.idx ≢ d.idx) (xs ++ s ∷ [])
      snoc y [] new others = (new, tt)
      snoc y (d ∷ xs) new others = (others.0, snoc y xs new others.1)

  pub Distinct-middle :
      (s : Scored F) (xs ys : List (Scored F))
      → Distinct fl (xs ++ (s ∷ ys))
      → All (λ (e : Scored F). s.idx ≢ e.idx) xs
  Distinct-middle s [] ys differ = tt
  Distinct-middle s (x ∷ xs) ys differ =
      (λ same. member xs differ.0 (sym same), Distinct-middle s xs ys differ.1)
    where
      member :
          (xs : List (Scored F))
          → All (λ (e : Scored F). x.idx ≢ e.idx) (xs ++ (s ∷ ys))
          → x.idx ≢ s.idx
      member [] all = all.0
      member (e ∷ xs) all = member xs all.1

  -- The frontier after some reports: it has discarded exactly those that k others beat.
  pub record Settled (k : ℕ) (xs : List (Scored F)) (r : PruneRun F) : Type 0 where
    pub scores : r.scores ≡ xs
    pub running : r.stopped ≡ false
    pub differ : Distinct fl xs
    pub losers : (x : Scored F) → Has fl x xs → contains x.idx r.pruned ≡ leb k (rank fl x xs)
    pub others : (i : ℕ) → All (λ (d : Scored F). i ≢ d.idx) xs → contains i r.pruned ≡ false

  pub new-Settled : (k : ℕ) → Settled k [] new_prune_run
  unfolding contains
  new-Settled k = record {
    scores = refl;
    running = refl;
    differ = tt;
    losers = λ x h. absurd h;
    others = λ i h. refl;
  }

  module _ (laws : FloatLaws fl) (k : ℕ) where
    -- The losers among some scores, and what is discarded once the score of `s` is in.
    unfoldable pub losers_of : List (Scored F) → List ℕ
    losers_of scores = if leb (length scores) k then [] else lowest_beyond_k fl k scores

    unfoldable pub discarded : List (Scored F) → Scored F → List ℕ → List ℕ
    discarded xs s pruned = discard (losers_of (xs ++ s ∷ [])) pruned

    -- Those that were discarded before are beaten by as many still.
    was_discarded :
        (xs : List (Scored F)) (s x : Scored F) (r : PruneRun F)
        → Settled k xs r
        → All (λ (d : Scored F). s.idx ≢ d.idx) xs
        → Has fl x (xs ++ s ∷ [])
        → contains x.idx r.pruned ≡ true
        → leb k (rank fl x (xs ++ s ∷ [])) ≡ true
    was_discarded xs s x r settled fresh h was = elim (Has-append x s xs h) [
      | inl old ↦ ground (arith, settled.losers x old, was, rank-append x s xs)
      | inr new ↦
          let absent : contains x.idx r.pruned ≡ false =
            ap (λ (z : Scored F). contains z.idx r.pruned) (sym new) ∙ settled.others s.idx fresh in
          absurd (cc (absent, was))
    ]

    pub discarded-losers :
        (xs : List (Scored F)) (s x : Scored F) (r : PruneRun F)
        → Settled k xs r
        → All (λ (d : Scored F). s.idx ≢ d.idx) xs
        → Has fl x (xs ++ s ∷ [])
        → contains x.idx (discarded xs s r.pruned) ≡ leb k (rank fl x (xs ++ s ∷ []))
    unfolding discarded losers_of discard
    discarded-losers xs s x r settled fresh h = elim (Bool-cases (leb (length (xs ++ s ∷ [])) k)) [
      | inl few ↦ rw few (elim (Bool-cases (contains x.idx r.pruned)) [
        | inl was ↦ was ∙ sym (was_discarded xs s x r settled fresh h was)
        | inr not_yet ↦ not_yet ∙ ground (arith, few, rank-lt-length fl laws x (xs ++ s ∷ []) h)
      ])
      | inr many ↦ rw many (
          contains-discard x.idx (lowest_beyond_k fl k (xs ++ s ∷ [])) r.pruned
          ∙ ground (
            arith,
            contains-lowest_beyond_k fl laws x k (xs ++ s ∷ [])
                (Distinct-append s xs fresh settled.differ) h,
            was_discarded xs s x r settled fresh h,
          ))
    ]

    pub discarded-others :
        (xs : List (Scored F)) (s : Scored F) (i : ℕ) (r : PruneRun F)
        → Settled k xs r
        → All (λ (d : Scored F). i ≢ d.idx) (xs ++ s ∷ [])
        → contains i (discarded xs s r.pruned) ≡ false
    unfolding discarded losers_of discard
    discarded-others xs s i r settled others =
        let before = settled.others i (front xs others) in
        elim (Bool-cases (leb (length (xs ++ s ∷ [])) k)) [
          | inl few ↦ rw few before
          | inr many ↦ rw many (
              contains-discard i (lowest_beyond_k fl k (xs ++ s ∷ [])) r.pruned
              ∙ ground
                  (arith, contains-lowest_beyond_k_other fl laws i k (xs ++ s ∷ []) others, before))
        ]
      where
        front :
            (xs : List (Scored F))
            → All (λ (d : Scored F). i ≢ d.idx) (xs ++ s ∷ [])
            → All (λ (d : Scored F). i ≢ d.idx) xs
        front [] h = tt
        front (d ∷ xs) h = (h.0, front xs h.1)
