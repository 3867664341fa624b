-- ===== src/Engine/Loop/Iterations.antt =====
-- How often a loop (engine/interpreter.go, runLoop) runs its body.
use awf.Prelude.{
  ℕ, zero, suc, ◌+◌, ◌≡◌, ◌≤◌, ◌<◌, ◌⊎◌, inl, inr, sym, ◌∙◌, Bytes, true, false, some, arith,
  Option-cases, Result-cases,
}
use mathlib.Core.Path.{subst}
use awf.Prelude.Int.{ℤ, pos, pos_part, leb_ℤ}
use awf.Engine.Condition.{Conditions}
use awf.Engine.Loop.{LoopNode, is_unbounded, reaches_max, run_iter, loop_from, run_loop}
use awf.Engine.RunState.{lookup_loop_iters}
use awf.Engine.Walk.{World, Ended, Disk, Node, is_completed}
use awf.Engine.Loop.Rounds.{Rounds, run_iter-Rounds, leb_ℤ-pos}

module _ {F R : Type 0} (disk : Disk) (run : Node R → ℕ → Bytes → World → Ended) (c : Conditions F)
    (n : LoopNode R) (path : Bytes) where
  reaches_max-lt :
      (k : ℕ) (m : ℤ)
      → n.max_iters ≡ some m
      → reaches_max disk run c n path k ≡ false
      → k < pos_part m
  unfolding reaches_max
  reaches_max-lt k m bound more =
      let test : reaches_max disk run c n path k ≡ leb_ℤ m (pos k) = rw (bound, reaches_max) in
      leb_ℤ-pos m k (sym test ∙ more)

  loop_from-ends :
      (m : ℤ) (fuel k : ℕ) (w : World)
      → n.max_iters ≡ some m
      → 1 ≤ fuel
      → pos_part m < k + fuel
      → (e : Ended) × (loop_from disk run c n path fuel k w ≡ some e)
  unfolding loop_from
  loop_from-ends m zero k w bound some_fuel enough = absurd (omega (arith, some_fuel))
  loop_from-ends m (suc fuel) k w bound some_fuel enough =
      elim (Result-cases (run_iter disk run c n path k w)) [
        | inr (e, over) ↦ (e, rw (over, loop_from))
        | inl (w', more) ↦
            let rounds =
              subst (Rounds disk run c n path k) more (run_iter-Rounds disk run c n path k w) in
            let below = reaches_max-lt k m bound rounds.1 in
            let (e, ends) =
              loop_from-ends m fuel (k + 1) w' bound (omega (arith, below, enough))
                (omega (arith, enough)) in
            (e, rw (more, loop_from) ends)
      ]

  -- The iterations on record at the end.
  abbrev pub Counted : ℤ → ℕ → ℕ → Type 0
  Counted m k j = (k ≤ j) × ((j ≤ pos_part m) ⊎ (j ≡ k))

  loop_from-Counted :
      (m : ℤ) (fuel k : ℕ) (w : World) (e : Ended)
      → n.max_iters ≡ some m
      → loop_from disk run c n path fuel k w ≡ some e
      → is_completed e ≡ true
      → Counted m k (lookup_loop_iters e.world.rs path)
  unfolding loop_from
  loop_from-Counted m zero k w e bound h done = absurd (cc h)
  loop_from-Counted m (suc fuel) k w e bound h done =
      elim (Result-cases (run_iter disk run c n path k w)) [
        | inr (e', over) ↦
            let rounds =
              subst (Rounds disk run c n path k) over (run_iter-Rounds disk run c n path k w) in
            let here : loop_from disk run c n path (suc fuel) k w ≡ some e' =
              rw (over, loop_from) in
            let same : e' ≡ e = cc (here, h) in
            let last = rounds (rw same done) in
            let counted : lookup_loop_iters e.world.rs path ≡ k = rw (← same) last in
            (omega (arith, counted), inr counted)
        | inl (w', more) ↦
            let rounds =
              subst (Rounds disk run c n path k) more (run_iter-Rounds disk run c n path k w) in
            let below = reaches_max-lt k m bound rounds.1 in
            let next : loop_from disk run c n path (suc fuel) k w
                ≡ loop_from disk run c n path fuel (k + 1) w' =
              rw (more, loop_from) in
            let (least, most) = loop_from-Counted m fuel (k + 1) w' e bound (sym next ∙ h) done in
            (
              omega (arith, least),
              inl (elim most [ inl few ↦ few | inr one ↦ omega (arith, one, below) ]),
            )
      ]

  has_bound : (m : ℤ) → n.max_iters ≡ some m → is_unbounded disk run c n path ≡ false
  unfolding is_unbounded
  has_bound m bound = elim (Option-cases n.until) [
    | inl absent ↦ rw (absent, is_unbounded) (rw (bound, is_unbounded))
    | inr (src, present) ↦ rw (present, is_unbounded)
  ]

  run_loop-bounded :
      (m : ℤ) (fuel : ℕ) (w : World)
      → n.max_iters ≡ some m
      → run_loop disk run c n path fuel w
        ≡ loop_from disk run c n path fuel (lookup_loop_iters w.rs path + 1) w
  unfolding run_loop
  run_loop-bounded m fuel w bound = rw (has_bound m bound)

  -- A loop with a maximum ends, whatever its body, its conditions and the disk do, within the
  -- iterations that the maximum leaves, or within one where none is left.
  pub run_loop-ends :
      (m : ℤ) (fuel : ℕ) (w : World)
      → n.max_iters ≡ some m
      → 1 ≤ fuel
      → pos_part m ≤ lookup_loop_iters w.rs path + fuel
      → (e : Ended) × (run_loop disk run c n path fuel w ≡ some e)
  run_loop-ends m fuel w bound some_fuel enough =
      let (e, ends) =
        loop_from-ends m fuel (lookup_loop_iters w.rs path + 1) w bound some_fuel
          (omega (arith, enough)) in
      (e, run_loop-bounded m fuel w bound ∙ ends)

  -- A loop that completes has put at least one more iteration on record than was there at its
  -- start, and no number past the maximum; but where the maximum was on record already, as after a
  -- crash behind the last iteration, it has run exactly one iteration past it.
  pub run_loop-Counted :
      (m : ℤ) (fuel : ℕ) (w : World) (e : Ended)
      → n.max_iters ≡ some m
      → run_loop disk run c n path fuel w ≡ some e
      → is_completed e ≡ true
      → Counted m (suc (lookup_loop_iters w.rs path)) (lookup_loop_iters e.world.rs path)
  run_loop-Counted m fuel w e bound h done =
      let (least, most) =
        loop_from-Counted m fuel (lookup_loop_iters w.rs path + 1) w e bound
          (sym (run_loop-bounded m fuel w bound) ∙ h) done in
      (omega (arith, least), elim most [ inl few ↦ inl few | inr one ↦ inr (omega (arith, one)) ])
