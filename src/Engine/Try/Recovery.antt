-- ===== src/Engine/Try/Recovery.antt =====
-- The errors that come out of a try (engine/try.go).
use awf.Prelude.{
  ℕ, ◌≡◌, ◌⊎◌, Bytes, codes, true, false, ◌++◌, Option, none, arith, Option-cases, Result-cases,
  Bool-cases, inl, inr,
}
use awf.Engine.RunState.Outcomes.{is_typed_failure_outcome}
use awf.Engine.Walk.{World, Ended, Disk, Fault, Node, append, node_skipped, interp_nodes}
use awf.Engine.Gate.{is_empty_block}
use awf.Engine.Try.{
  TryNode, Propagated, has_error, skip_reason, catch_failure, after_do, conclude, run_finally,
  run_try,
}

module _ {R : Type 0} (disk : Disk) (run detached : Node R → ℕ → Bytes → World → Ended)
    (cancelled : World → Option Fault) (t : TryNode R) (path : Bytes) where
  -- What do left, and what catch made of it.
  abbrev pub done : World → Ended
  done w = interp_nodes run t.do_block (path ++ codes ".do") w

  abbrev pub caught : Ended → Ended
  caught d = interp_nodes run t.catch_block (path ++ codes ".catch") d.world

  -- Do had no error, or it had a typed failure that is no skip, and catch is there and had none.
  abbrev pub Recovered : Ended → Type 0
  Recovered d =
      (d.error ≡ none)
      ⊎ ((skip_reason d.error ≡ none)
          × (is_typed_failure_outcome d.outcome ≡ true)
          × (is_empty_block t.catch_block ≡ false)
          × ((caught d).error ≡ none))

  conclude-error :
      (p : Propagated) (w : World)
      → (conclude disk run detached cancelled t path p w).error ≡ none
      → (p.pending ≡ none) × (p.ended.error ≡ none)
  unfolding conclude
  conclude-error p w h = ground (arith, h)

  run_finally-error :
      (p : Propagated)
      → (run_finally disk run detached cancelled t path p).error ≡ none
      → (p.pending ≡ none) × (p.ended.error ≡ none)
  unfolding run_finally
  run_finally-error p h =
      let f = interp_nodes detached t.finally_block (path ++ codes ".finally") p.ended.world in
      elim (Bool-cases (is_empty_block t.finally_block)) [
        | inl empty ↦ conclude-error p p.ended.world (rw empty at h)
        | inr full ↦ elim (Option-cases f.error) [
          | inl clean ↦ conclude-error p f.world (rw (full, clean, run_finally) at h)
          | inr (g, raised) ↦ absurd (cc (rw (full, raised, run_finally) at h, raised))
        ]
      ]

  catch_failure-Recovered :
      (d : Ended)
      → skip_reason d.error ≡ none
      → (catch_failure disk run detached cancelled t path d).error ≡ none
      → Recovered d
  unfolding catch_failure has_error
  catch_failure-Recovered d unskipped h = ground (arith, unskipped, h)

  after_do-Recovered :
      (d : Ended)
      → (after_do disk run detached cancelled t path d).pending ≡ none
      → (after_do disk run detached cancelled t path d).ended.error ≡ none
      → Recovered d
  unfolding after_do skip_reason
  after_do-Recovered d pending h = elim (Option-cases (skip_reason d.error)) [
    | inl unskipped ↦ catch_failure-Recovered d unskipped (rw (unskipped, after_do) at h)
    | inr (reason, skipped) ↦ elim (Result-cases (append disk d.world (node_skipped path reason))) [
      | inl (w, good) ↦ inl (rw (skipped, after_do, good) at h)
      | inr (f, bad) ↦ absurd (cc (rw (skipped, after_do, bad) at pending))
    ]
  ]

  -- If a try returns no error, then its do block had none, or it had a typed failure that is not
  -- a skip, and a catch block is there that had none: neither an internal error nor a skip is
  -- ever turned into a success, whatever finally and the caller's context do.
  pub run_try-Recovered :
      (w : World) → (run_try disk run detached cancelled t path w).error ≡ none → Recovered (done w)
  unfolding run_try
  run_try-Recovered w h =
      let p = after_do disk run detached cancelled t path (done w) in
      let (clear, clean) = run_finally-error p h in after_do-Recovered (done w) clear clean
