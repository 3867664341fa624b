-- ===== src/Engine/Gate/Verdict.antt =====
-- The attempts that a run of a gate leaves (engine/gate.go).
use awf.Prelude.{
  ℕ, zero, suc, ◌+◌, ◌-◌, ◌≡◌, ◌≤◌, refl, ◌∙◌, Bytes, codes, bytes_eq_refl, Bool, true, false, ◌||◌,
  List, [], ◌∷◌, ◌++◌, Option, some, length, ltb, ◌==◌, arith, String, ◌⊎◌, ==_iff, Result, ok,
  Result-cases, Option-cases, Bool-cases, inl, inr,
}
use awf.Prelude.Map.{get_or, lookup-insert}
use awf.Engine.Events.{Object}
use awf.Engine.Path.{attempt_path}
use awf.Engine.RunState.{
  RunState, NodeResult, AttemptResult, lookup_gate_attempts, record_gate_attempt, lookup_completed,
}
use awf.Engine.RunState.Outcomes.{outcome_permanent_failure}
use awf.Engine.Walk.{
  World, Ended, Disk, Fault, Node, Entry, append, sync, fail_step, skip_to, as_skip, is_completed,
  interp_from, interp_nodes,
}
use awf.Engine.Gate.{
  attempt_passed, attempt_rejected, attempt_entry, GateNode, Round, stop, again, block_end, settle,
  commit_attempt, judge, evaluate_attempt, run_attempt, gate_loop, run_gate, passed_last,
  last_evaluator_path, is_empty_block,
}
use awf.Engine.Gate.Attempts.{
  Rejections, Settled, length-append_attempts, Rejections→Settled, Rejections-append,
  Settled-append, Settled→Rejections,
}

module _ (disk : Disk) where
  rs-append : (w w' : World) (e : Entry) → append disk w e ≡ ok w' → w'.rs ≡ w.rs
  unfolding append
  rs-append w w' e h = ground arith

  rs-sync : (w w' : World) → sync disk w ≡ ok w' → w'.rs ≡ w.rs
  unfolding sync
  rs-sync w w' h = ground arith

  rs-skip_to :
      (w : World) (path : Bytes) (reason : String) → (skip_to disk w path reason).world.rs ≡ w.rs
  unfolding skip_to append
  rs-skip_to w path reason = ground arith

  rs-fail_step :
      (w : World) (path : Bytes) (f : Fault)
      → (fail_step disk w path outcome_permanent_failure f).world.rs ≡ w.rs
  unfolding fail_step append sync
  rs-fail_step w path f = ground arith

pub lookup_gate_attempts-record :
    (rs : RunState) (path : Bytes) (a : AttemptResult)
    → lookup_gate_attempts (record_gate_attempt rs path a) path
      ≡ lookup_gate_attempts rs path ++ a ∷ []
unfolding lookup_gate_attempts record_gate_attempt get_or
lookup_gate_attempts-record rs path a = ground (
  arith,
  lookup-insert path path (get_or path [] rs.gate_attempts ++ a ∷ []) rs.gate_attempts,
  bytes_eq_refl path,
)

pub Round-cases : (r : Round) → ((e : Ended) × (r ≡ stop e)) ⊎ ((w : World) × (r ≡ again w))
Round-cases (stop e) = inl (e, refl)
Round-cases (again w) = inr (w, refl)

module _ {R : Type 0} (disk : Disk) (run : Node R → ℕ → Bytes → World → Ended)
    (until : RunState → Bytes → Option Object → Result Fault Bool) (g : GateNode R)
    (gate_path : Bytes) where
  abbrev pub attempts : World → List AttemptResult
  attempts w = lookup_gate_attempts w.rs gate_path

  -- Before attempt `n`, every earlier one was rejected.
  abbrev InLoop : ℕ → List AttemptResult → Type 0
  InLoop n xs = Rejections 1 xs × (length xs + 1 ≡ n) × (n ≤ g.max_attempts)

  -- What the attempts are when the gate returns.
  abbrev pub IsSettled : List AttemptResult → Type 0
  IsSettled xs = Settled 1 xs × (length xs ≤ g.max_attempts)

  abbrev RoundDone : ℕ → Round → Type 0
  RoundDone n (stop e) = IsSettled (attempts e.world)
  RoundDone n (again w) = InLoop (n + 1) (attempts w)

  InLoop→IsSettled : (n : ℕ) (xs : List AttemptResult) → InLoop n xs → IsSettled xs
  InLoop→IsSettled n xs h = (Rejections→Settled 1 xs h.0, omega arith)

  passed_settles :
      (n : ℕ) (xs : List AttemptResult) (a : AttemptResult)
      → InLoop n xs
      → a.n ≡ n
      → a.attempt_outcome ≡ attempt_passed
      → IsSettled (xs ++ a ∷ [])
  passed_settles n xs a h e r = (
    Settled-append 1 xs a h.0 (omega (arith, h.1)) r,
    omega (arith, h.1, h.2, length-append_attempts xs (a ∷ [])),
  )

  rejected_on :
      (n : ℕ) (xs : List AttemptResult) (a : AttemptResult)
      → InLoop n xs
      → a.n ≡ n
      → a.attempt_outcome ≡ attempt_rejected
      → Rejections 1 (xs ++ a ∷ []) × (length (xs ++ a ∷ []) ≡ n)
  rejected_on n xs a h e r = (
    Rejections-append 1 xs a h.0 (omega (arith, h.1)) r,
    omega (arith, h.1, length-append_attempts xs (a ∷ [])),
  )

  settle-done :
      (n : ℕ) (passed : Bool) (v : Option Object) (w : World)
      → InLoop n (attempts w)
      → RoundDone n (settle disk run until g gate_path n passed v w)
  unfolding settle
  settle-done n true v w h =
      rw lookup_gate_attempts-record (passed_settles n (attempts w) _ h refl refl)
  settle-done n false v w h =
      let a : AttemptResult = record { n = n; attempt_outcome = attempt_rejected; verdict = v } in
      let (rejected, count) = rejected_on n (attempts w) a h refl refl in
      elim (Bool-cases (n == g.max_attempts)) [
        | inl last ↦
            rw (last, lookup_gate_attempts-record)
              (Rejections→Settled 1 _ rejected, omega (arith, count, h.2))
        | inr before ↦
            rw (before, lookup_gate_attempts-record)
              (rejected, omega (arith, count), ground (arith, h.2, ==_iff n g.max_attempts))
      ]

  commit_attempt-done :
      (n : ℕ) (passed : Bool) (nr : NodeResult) (w : World)
      → InLoop n (attempts w)
      → RoundDone n (commit_attempt disk run until g gate_path n passed nr w)
  unfolding commit_attempt
  commit_attempt-done n passed nr w h =
      let entry = attempt_entry disk run until g gate_path n passed nr in
      elim (Result-cases (append disk w entry)) [
        | inr (f, bad) ↦ rw (bad, commit_attempt) (InLoop→IsSettled n (attempts w) h)
        | inl (w', good) ↦
            let h' : InLoop n (attempts w') = rw (rs-append disk w w' entry good) h in
            elim (Result-cases (sync disk w')) [
              | inr (f, bad) ↦ rw (good, commit_attempt, bad) (InLoop→IsSettled n (attempts w') h')
              | inl (w'', kept) ↦
                  let h'' : InLoop n (attempts w'') = rw (rs-sync disk w' w'' kept) h' in
                  rw (good, commit_attempt, kept) (settle-done n passed nr.outputs w'' h'')
            ]
      ]

  judge-done :
      (n : ℕ) (w : World)
      → InLoop n (attempts w)
      → RoundDone n (judge disk run until g gate_path n w)
  unfolding judge
  judge-done n w h =
      let attempt = attempt_path gate_path n in
      elim (Option-cases (last_evaluator_path g.evaluate (attempt ++ codes ".evaluate"))) [
        | inl bad ↦ rw (bad, judge) (InLoop→IsSettled n (attempts w) h)
        | inr (last_step, there) ↦ elim (Option-cases (lookup_completed w.rs last_step)) [
          | inl bad ↦ rw (there, judge, bad) (InLoop→IsSettled n (attempts w) h)
          | inr (nr, found) ↦
              elim (Result-cases (until w.rs (attempt ++ codes ".until") nr.outputs)) [
                | inr (f, bad) ↦
                    rw (there, judge, found, bad, rs-fail_step disk w gate_path f)
                      (InLoop→IsSettled n (attempts w) h)
                | inl (passed, good) ↦
                    rw (there, judge, found, good) (commit_attempt-done n passed nr w h)
              ]
        ]
      ]

  -- Each node of a block, at its own place, leaves this gate's attempts alone.
  abbrev pub LeavesBlock : ℕ → List (Node R) → Bytes → Type 0
  LeavesBlock i [] parent = Unit
  LeavesBlock i (n ∷ nodes) parent =
      ((w : World) → attempts (run n i parent w).world ≡ attempts w)
      × LeavesBlock (suc i) nodes parent

  -- The nodes of the gate's two blocks, at their addresses inside an attempt, leave its attempts
  -- alone. Nothing is asked of any other node, and nothing of these at any other address.
  abbrev pub LeavesAttempts : Type 0
  LeavesAttempts =
      (n : ℕ)
      → LeavesBlock 0 g.generate (attempt_path gate_path n ++ codes ".generate")
        × LeavesBlock 0 g.evaluate (attempt_path gate_path n ++ codes ".evaluate")

  module _ (leaves : LeavesAttempts) where
    attempts-interp_from :
        (i : ℕ) (nodes : List (Node R)) (parent : Bytes) (w : World)
        → LeavesBlock i nodes parent
        → attempts (interp_from run i nodes parent w).world ≡ attempts w
    unfolding interp_from
    attempts-interp_from i [] parent w block = refl
    attempts-interp_from i (n ∷ nodes) parent w block =
        elim (Bool-cases (is_completed (run n i parent w))) [
          | inl on ↦ rw on (
              attempts-interp_from (suc i) nodes parent (run n i parent w).world block.1
              ∙ block.0 w)
          | inr halted ↦ rw halted (block.0 w)
        ]

    attempts-interp_nodes :
        (nodes : List (Node R)) (parent : Bytes) (w : World)
        → LeavesBlock 0 nodes parent
        → attempts (interp_nodes run nodes parent w).world ≡ attempts w
    unfolding interp_nodes
    attempts-interp_nodes nodes parent w block = attempts-interp_from 0 nodes parent w block

    rs-block_end :
        (e ended : Ended)
        → block_end disk run until g gate_path e ≡ some ended
        → ended.world.rs ≡ e.world.rs
    unfolding block_end
    rs-block_end e ended h = elim (Option-cases e.error) [
      | inl none_raised ↦ ground (arith, none_raised, rw none_raised at h)
      | inr (f, raised) ↦ elim (Option-cases (as_skip f)) [
        | inl failed ↦ ground (arith, rw (raised, block_end, failed) at h)
        | inr (reason, skipped) ↦
            ground (
              arith,
              rw (raised, block_end, skipped) at h,
              rs-skip_to disk e.world gate_path reason,
            )
      ]
    ]

    evaluate_attempt-done :
        (n : ℕ) (w : World)
        → InLoop n (attempts w)
        → RoundDone n (evaluate_attempt disk run until g gate_path n w)
    unfolding evaluate_attempt
    evaluate_attempt-done n w h =
        let path = attempt_path gate_path n ++ codes ".evaluate" in
        let e = interp_nodes run g.evaluate path w in
        let h' : InLoop n (attempts e.world) =
          rw (attempts-interp_nodes g.evaluate path w (leaves n).1) h in
        elim (Option-cases (block_end disk run until g gate_path e)) [
          | inl on ↦ rw (on, evaluate_attempt) (judge-done n e.world h')
          | inr (ended, halted) ↦
              rw (halted, evaluate_attempt, rs-block_end e ended halted)
                (InLoop→IsSettled n (attempts e.world) h')
        ]

    run_attempt-done :
        (n : ℕ) (w : World)
        → InLoop n (attempts w)
        → RoundDone n (run_attempt disk run until g gate_path n w)
    unfolding run_attempt
    run_attempt-done n w h =
        let path = attempt_path gate_path n ++ codes ".generate" in
        let e = interp_nodes run g.generate path w in
        let h' : InLoop n (attempts e.world) =
          rw (attempts-interp_nodes g.generate path w (leaves n).0) h in
        elim (Option-cases (block_end disk run until g gate_path e)) [
          | inl on ↦ rw (on, run_attempt) (evaluate_attempt-done n e.world h')
          | inr (ended, halted) ↦
              rw (halted, run_attempt, rs-block_end e ended halted)
                (InLoop→IsSettled n (attempts e.world) h')
        ]

    gate_loop-IsSettled :
        (left n : ℕ) (w : World)
        → InLoop n (attempts w)
        → IsSettled (attempts (gate_loop disk run until g gate_path left n w).world)
    unfolding gate_loop
    gate_loop-IsSettled zero n w h = InLoop→IsSettled n (attempts w) h
    gate_loop-IsSettled (suc left) n w h =
        let round = run_attempt-done n w h in
        elim (Round-cases (run_attempt disk run until g gate_path n w)) [
          | inl (e, over) ↦ rw (over, gate_loop) (rw over at round)
          | inr (w', on) ↦ rw (on, gate_loop) (gate_loop-IsSettled left (n + 1) w' (rw on at round))
        ]

    resumed-IsSettled :
        (w : World)
        → IsSettled (attempts w)
        → passed_last (attempts w) ≡ false
        → (left : ℕ) → left ≡ g.max_attempts - length (attempts w)
        → IsSettled
            (attempts (gate_loop disk run until g gate_path left (length (attempts w) + 1) w).world)
    unfolding gate_loop
    resumed-IsSettled w h pending zero e = h
    resumed-IsSettled w h pending (suc left) e =
        gate_loop-IsSettled (suc left) (length (attempts w) + 1) w
          (Settled→Rejections 1 (attempts w) h.0 pending, refl, omega (arith, e))

    -- If the nodes of a gate's generate and evaluate blocks, run at their addresses inside its
    -- attempts, leave the gate's own attempts alone, then running or resuming the gate keeps its
    -- attempts numbered from one, all but the last rejected, the last rejected or passed, and no
    -- more of them than max_attempts, however its blocks, its until and the disk behave otherwise.
    pub run_gate-Settled :
        (w : World)
        → Settled 1 (attempts w)
        → length (attempts w) ≤ g.max_attempts
        → Settled 1 (attempts (run_gate disk run until g gate_path w).world)
          × (length (attempts (run_gate disk run until g gate_path w).world) ≤ g.max_attempts)
    unfolding run_gate
    run_gate-Settled w settled few =
        elim (Bool-cases (is_empty_block g.generate || is_empty_block g.evaluate)) [
          | inl empty ↦ rw empty (settled, few)
          | inr full ↦ elim (Bool-cases (ltb g.max_attempts 1)) [
            | inl bad ↦ rw (full, bad) (settled, few)
            | inr good ↦ elim (Bool-cases (passed_last (attempts w))) [
              | inl over ↦ rw (full, good, over) (settled, few)
              | inr pending ↦
                  rw (full, good, pending) (resumed-IsSettled w (settled, few) pending _ refl)
            ]
          ]
        ]
