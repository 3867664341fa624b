-- ===== src/Template/Eval/Depends.antt =====
-- What evaluation reads of the scope (template/eval.go, template/refs.go).
use awf.Prelude.{◌≡◌, refl, Bytes, List, [], ◌∷◌, ◌++◌, Option, All}
use awf.Template.Eval.{eval_expr, collect_refs, references}
use awf.Template.Syntax.{
  Segment, Expr, or_expr, and_expr, not_expr, cmp_expr, ref_expr, string_lit, number_lit, bool_lit,
  null_lit,
}
use awf.Template.Value.{Floats, Value, Scope}

All-init {ℓ κ} :
    {A : Type ℓ} (P : A → Type κ) (xs : List A) (x : A) → All P (xs ++ x ∷ []) → P x × All P xs
All-init P [] x h = (h.0, tt)
All-init P (y ∷ xs) x h = let (last, init) = All-init P xs x h.1 in (last, (h.0, init))

module _ {F : Type 0} (fl : Floats F) (marshal : Value F → Option Bytes) (s s' : Scope F) where
  abbrev Agree : List Segment → Type 0
  Agree ref = s ref ≡ s' ref

  abbrev Same : Expr → Type 0
  Same e = eval_expr fl marshal s e ≡ eval_expr fl marshal s' e

  same :
      (e : Expr) (out : List (List Segment))
      → All Agree (collect_refs e out)
      → Same e × All Agree out
  unfolding eval_expr collect_refs
  same (or_expr l r) out h =
      let (right, rest) = same r (collect_refs l out) h in
      let (left, before) = same l out rest in (rw (left, right), before)
  same (and_expr l r) out h =
      let (right, rest) = same r (collect_refs l out) h in
      let (left, before) = same l out rest in (rw (left, right), before)
  same (not_expr x) out h = let (operand, before) = same x out h in (rw operand, before)
  same (cmp_expr op l r) out h =
      let (right, rest) = same r (collect_refs l out) h in
      let (left, before) = same l out rest in (simp (left, right), before)
  same (ref_expr ref) out h = let (agree, before) = All-init Agree out ref h in (rw agree, before)
  same (string_lit t) out h = (refl, h)
  same (number_lit n) out h = (refl, h)
  same (bool_lit b) out h = (refl, h)
  same null_lit out h = (refl, h)

  -- Two scopes that agree on the references that References lists give one result, error or not:
  -- the list leaves out nothing that evaluation reads.
  pub eval_expr-references :
      (e : Expr) → All Agree (references e) → eval_expr fl marshal s e ≡ eval_expr fl marshal s' e
  unfolding references
  eval_expr-references e h = (same e [] h).0
