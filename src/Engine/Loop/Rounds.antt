-- ===== src/Engine/Loop/Rounds.antt =====
-- One iteration of a loop (engine/interpreter.go, runLoop): what it has on record and when it ends.
use awf.Prelude.{
  ℕ, ◌≡◌, ◌≤◌, ◌<◌, inl, inr, ◌∙◌, Bytes, codes, true, false, ◌++◌, some, Result, ok, err, arith,
  bytes_eq_refl, Bool-cases, Option-cases, Result-cases,
}
use mathlib.Core.Path.{subst}
use awf.Prelude.Int.{ℤ, pos, negsuc, pos_part, leb_ℤ}
use awf.Prelude.Map.{lookup, insert, get_or, lookup-insert}
use awf.Engine.Condition.{Conditions, test}
use awf.Engine.Loop.{
  LoopNode, reaches_max, check_max, check_until, record_iter, after_body, run_iter,
}
use awf.Engine.Path.{iter_path}
use awf.Engine.RunState.{RunState, lookup_loop_iters, record_loop_iter}
use awf.Engine.RunState.Outcomes.{Outcome, outcome_permanent_failure}
use awf.Engine.Try.{skip_reason}
use awf.Engine.Walk.{
  World, Ended, Disk, Fault, Node, append, loop_iterated, node_skipped, fail_step, sync,
  node_failed, is_completed, interp_nodes,
}

lookup_loop_iters-record :
    (rs : RunState) (path : Bytes) (k : ℕ) → lookup_loop_iters (record_loop_iter rs path k) path ≡ k
unfolding lookup_loop_iters record_loop_iter get_or
lookup_loop_iters-record rs path k =
    let found : lookup path (insert path k rs.loop_iters) ≡ some k =
      lookup-insert path path k rs.loop_iters ∙ rw (bytes_eq_refl path) in
    rw (found, get_or)

pub leb_ℤ-pos : (m : ℤ) (k : ℕ) → leb_ℤ m (pos k) ≡ false → k < pos_part m
leb_ℤ-pos (pos m) k h = ground (arith, h)
leb_ℤ-pos (negsuc m) k h = ground (arith, h)

leb_ℤ-neg : (m : ℤ) (k : ℕ) → leb_ℤ m (pos k) ≡ true → pos_part m ≤ k
leb_ℤ-neg (pos m) k h = ground (arith, h)
leb_ℤ-neg (negsuc m) k h = omega arith

-- An end with an error is no completion.
fail_step-is_completed :
    (disk : Disk) (w : World) (path : Bytes) (oc : Outcome) (f : Fault)
    → is_completed (fail_step disk w path oc f) ≡ false
unfolding fail_step is_completed
fail_step-is_completed disk w path oc f =
    elim (Result-cases (append disk w (node_failed path oc f))) [
      | inr (g, failed) ↦ rw (failed, fail_step)
      | inl (w', done) ↦ elim (Result-cases (sync disk w')) [
        | inr (g, failed) ↦ rw (done, fail_step) (rw (failed, fail_step))
        | inl (w'', synced) ↦ rw (done, fail_step) (rw (synced, fail_step))
      ]
    ]

module _ {F R : Type 0} (disk : Disk) (run : Node R → ℕ → Bytes → World → Ended) (c : Conditions F)
    (n : LoopNode R) (path : Bytes) where
  -- The round of iteration `k`: it goes on with `k` on record and below the maximum, and it ends
  -- ok only with `k` on record.
  abbrev pub Rounds : ℕ → Result Ended World → Type 0
  Rounds k (ok w) = (lookup_loop_iters w.rs path ≡ k) × (reaches_max disk run c n path k ≡ false)
  Rounds k (err e) = is_completed e ≡ true → lookup_loop_iters e.world.rs path ≡ k

  check_max-Rounds :
      (k : ℕ) (w : World)
      → lookup_loop_iters w.rs path ≡ k
      → Rounds k (check_max disk run c n path k w)
  unfolding check_max is_completed
  check_max-Rounds k w h = elim (Bool-cases (reaches_max disk run c n path k)) [
    | inl over ↦ rw over (λ done. h)
    | inr more ↦ rw more (h, more)
  ]

  check_until-Rounds :
      (k : ℕ) (body_parent : Bytes) (w : World)
      → lookup_loop_iters w.rs path ≡ k
      → Rounds k (check_until disk run c n path k body_parent w)
  unfolding check_until
  check_until-Rounds k body_parent w h = elim (Option-cases n.until) [
    | inl absent ↦ rw (absent, check_until) (check_max-Rounds k w h)
    | inr (src, present) ↦ elim (Result-cases (test c w.rs body_parent src)) [
      | inr (f, failed) ↦
          rw (present, check_until)
            (rw (failed, check_until)
              (λ done.
                absurd (cc (done, fail_step-is_completed disk w path outcome_permanent_failure f))))
      | inl (b, tested) ↦ elim (Bool-cases b) [
        | inl over ↦ rw (present, check_until) (rw (tested, check_until) (rw over (λ done. h)))
        | inr more ↦
            rw (present, check_until) (rw (tested, check_until) (rw more (check_max-Rounds k w h)))
      ]
    ]
  ]

  -- What is recorded of the iteration.
  abbrev Records : ℕ → Result Ended World → Type 0
  Records k (ok w) = lookup_loop_iters w.rs path ≡ k
  Records k (err e) = is_completed e ≡ false

  record_iter-Records : (k : ℕ) (w : World) → Records k (record_iter disk run c n path k w)
  unfolding record_iter is_completed
  record_iter-Records k w = elim (Result-cases (append disk w (loop_iterated path k))) [
    | inr (f, failed) ↦ rw (failed, record_iter)
    | inl (w', done) ↦ rw (done, record_iter) (lookup_loop_iters-record w'.rs path k)
  ]

  abbrev Stopped : Result Ended World → Type 0
  Stopped (ok w) = Unit
  Stopped (err e) = is_completed e ≡ false

  after_body-Stopped :
      (body_parent : Bytes) (e : Ended) → Stopped (after_body disk run c n path body_parent e)
  unfolding after_body is_completed
  after_body-Stopped body_parent e = elim (Option-cases (skip_reason e.error)) [
    | inl none' ↦ elim (Bool-cases (is_completed e)) [
      | inl done ↦ rw (none', after_body) (rw done tt)
      | inr failed ↦ rw (none', after_body) (rw failed failed)
    ]
    | inr (reason, skipped) ↦
        elim (Result-cases (append disk e.world (node_skipped body_parent reason))) [
          | inl (w, done) ↦ rw (skipped, after_body) (rw (done, after_body) tt)
          | inr (f, failed) ↦ rw (skipped, after_body) (rw (failed, after_body))
        ]
  ]

  pub run_iter-Rounds : (k : ℕ) (w : World) → Rounds k (run_iter disk run c n path k w)
  unfolding run_iter
  run_iter-Rounds k w =
      let at = iter_path (path ++ codes ".body") k in
      let e = interp_nodes run n.body at w in
      let stopped = after_body-Stopped at e in
      elim (Result-cases (after_body disk run c n path at e)) [
        | inr (e', failed) ↦
            let unfinished : is_completed e' ≡ false = subst Stopped failed stopped in
            rw (failed, run_iter) (λ done. absurd (cc (done, unfinished)))
        | inl (w', walked) ↦ elim (Result-cases (record_iter disk run c n path k w')) [
          | inr (e', failed) ↦
              let unfinished : is_completed e' ≡ false =
                subst (Records k) failed (record_iter-Records k w') in
              rw (walked, run_iter) (rw (failed, run_iter) (λ done. absurd (cc (done, unfinished))))
          | inl (w'', recorded) ↦
              let known : lookup_loop_iters w''.rs path ≡ k =
                subst (Records k) recorded (record_iter-Records k w') in
              rw (walked, run_iter) (rw (recorded, run_iter) (check_until-Rounds k at w'' known))
        ]
      ]
