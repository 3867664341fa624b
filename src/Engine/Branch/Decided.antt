-- ===== src/Engine/Branch/Decided.antt =====
-- The decision of an if node (engine/interpreter.go, runIf) over several runs.
use awf.Prelude.{
  ℕ, ◌≡◌, ◌∙◌, Bytes, Bool, some, String, Result, ok, err, if◌then◌else◌, bytes_eq_refl,
  Option-cases, Result-cases, inl, inr,
}
use mathlib.Core.Path.{subst}
use awf.Prelude.Map.{lookup-insert}
use awf.Engine.Branch.{IfNode, choose, record_decision, take_branch, run_if}
use awf.Engine.Condition.{Conditions, test}
use awf.Engine.RunState.{RunState, lookup_branch, record_branch}
use awf.Engine.Walk.{World, Ended, Disk, Node, append, branch_taken}

lookup_branch-record_branch :
    (rs : RunState) (path : Bytes) (which : String)
    → lookup_branch (record_branch rs path which) path ≡ some which
unfolding lookup_branch record_branch
lookup_branch-record_branch rs path which =
    lookup-insert path path which rs.branches ∙ rw (bytes_eq_refl path)

-- A decision that was made is on record.
abbrev OnRecord : Bytes → Result Ended (String × World) → Type 0
OnRecord path (ok (which, w)) = lookup_branch w.rs path ≡ some which
OnRecord path (err e) = Unit

module _ {R : Type 0} (disk : Disk) (run : Node R → ℕ → Bytes → World → Ended) (n : IfNode R)
    (path : Bytes) where
  record_decision-OnRecord :
      (b : Bool) (w : World) → OnRecord path (record_decision disk run n path b w)
  unfolding record_decision
  record_decision-OnRecord b w =
      let which : String = if b then "then" else "else" in
      elim (Result-cases (append disk w (branch_taken path which))) [
        | inl (w', done) ↦ rw (done, record_decision) (lookup_branch-record_branch w'.rs path which)
        | inr (f, failed) ↦ rw (failed, record_decision) tt
      ]

  choose-OnRecord :
      {F : Type 0} (c : Conditions F) (w : World) → OnRecord path (choose disk run n path c w)
  unfolding choose
  choose-OnRecord c w = elim (Option-cases (lookup_branch w.rs path)) [
    | inr (which, known) ↦ rw (known, choose) known
    | inl new ↦ elim (Result-cases (test c w.rs path n.cond)) [
      | inl (b, decided) ↦ rw (new, choose) (rw (decided, choose) (record_decision-OnRecord b w))
      | inr (f, failed) ↦ rw (new, choose) (rw (failed, choose) tt)
    ]
  ]

  choose_recorded :
      {F : Type 0} (c : Conditions F) (w : World) (which : String)
      → lookup_branch w.rs path ≡ some which
      → choose disk run n path c w ≡ ok (which, w)
  unfolding choose
  choose_recorded c w which known = rw (known, choose)

  run_if_recorded :
      {F : Type 0} (c : Conditions F) (w : World) (which : String)
      → lookup_branch w.rs path ≡ some which
      → run_if disk run n path c w ≡ take_branch disk run n path which w
  unfolding run_if
  run_if_recorded c w which known = rw (choose_recorded c w which known, run_if)

  -- Where an if node has come to a branch, the branch is on record, and from then on a run of the
  -- node walks that branch in any later state that still has the record, whatever its conditions
  -- would say by then.
  pub run_if-OnRecord :
      {F F' : Type 0} (c : Conditions F) (c' : Conditions F') (w w' later : World) (which : String)
      → choose disk run n path c w ≡ ok (which, w')
      → lookup_branch later.rs path ≡ lookup_branch w'.rs path
      → (run_if disk run n path c w ≡ take_branch disk run n path which w')
        × (run_if disk run n path c' later ≡ take_branch disk run n path which later)
  unfolding run_if
  run_if-OnRecord c c' w w' later which chosen kept =
      let known : lookup_branch w'.rs path ≡ some which =
        subst (OnRecord path) chosen (choose-OnRecord c w) in
      (rw (chosen, run_if), run_if_recorded c' later which (kept ∙ known))
