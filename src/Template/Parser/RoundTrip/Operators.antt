-- ===== src/Template/Parser/RoundTrip/Operators.antt =====
-- The operators of the grammar in template/parser.go, on tokens that stand for their operands.
use awf.Prelude.{
  ℕ, zero, suc, ◌+◌, ◌*◌, ◌≡◌, ◌≤◌, refl, ◌∙◌, codes, true, false, List, [], ◌∷◌, ◌++◌, none, some,
  length, length-append, append_assoc, ok, arith,
}
use awf.Template.Kinds.{cmp_op, is_dot}
use awf.Template.Parser.{
  end_comparison, parse_or, or_loop, parse_and, and_loop, comparison_tail, parse_primary,
}
use awf.Template.Parser.Print.{bare, op_kind}
use awf.Template.Syntax.{
  Token, t_or, t_and, CmpOp, op_eq, op_neq, op_lt, op_le, op_gt, op_ge, Expr, or_expr, and_expr,
  cmp_expr,
}
use awf.Template.Parser.RoundTrip.Levels.{
  opens, AtPrimary, AtUnary, AtAnd, AtOr, parse_and_whole, parse_unary-opens, opens-append,
}

cmp_op-op_kind : (op : CmpOp) → cmp_op (op_kind op) ≡ some op
unfolding cmp_op
cmp_op-op_kind op_eq = refl
cmp_op-op_kind op_neq = refl
cmp_op-op_kind op_lt = refl
cmp_op-op_kind op_le = refl
cmp_op-op_kind op_gt = refl
cmp_op-op_kind op_ge = refl

is_dot-op_kind : (op : CmpOp) → is_dot (op_kind op) ≡ false
is_dot-op_kind op_eq = refl
is_dot-op_kind op_neq = refl
is_dot-op_kind op_lt = refl
is_dot-op_kind op_le = refl
is_dot-op_kind op_gt = refl
is_dot-op_kind op_ge = refl

-- Two operands, in front of what follows both.
regroup :
    (xs ys : List Token) (o t : Token) (ts : List Token)
    → (xs ++ o ∷ ys) ++ t ∷ ts ≡ xs ++ o ∷ (ys ++ t ∷ ts)
regroup xs ys o t ts = append_assoc xs (o ∷ ys) (t ∷ ts)

comparison_goes_on :
    (f : ℕ) (op : CmpOp) (l r : Expr) (o t : Token) (us ts : List Token)
    → cmp_op o.kind ≡ some op
    → parse_primary f us ≡ ok (r, t ∷ ts)
    → cmp_op t.kind ≡ none
    → comparison_tail (suc f) l (o ∷ us) ≡ ok (cmp_expr op l r, t ∷ ts)
unfolding parse_or
comparison_goes_on f op l r o t us ts more right ends =
    rw (more, comparison_tail) (rw right (rw (ends, end_comparison)))

pub unary_cmp :
    (op : CmpOp) (l r : Expr) (xs ys : List Token)
    → AtPrimary l xs
    → opens xs ≡ true
    → AtPrimary r ys
    → AtUnary (cmp_expr op l r) (xs ++ bare (op_kind op) [] ∷ ys)
unfolding parse_or end_comparison
unary_cmp op l r xs ys h first k zero t ts stops b = absurd (omega (arith, b))
unary_cmp op l r xs ys h first k (suc zero) t ts stops b = absurd (omega (arith, b))
unary_cmp op l r xs ys h first k (suc (suc zero)) t ts stops b = absurd (omega (arith, b))
unary_cmp op l r xs ys h first k (suc (suc (suc f))) t ts stops b =
    let o = bare (op_kind op) [] in
    let size : length (xs ++ o ∷ ys) ≡ length xs + length ys + 1 =
      omega (arith, length-append xs (o ∷ ys)) in
    let left = h (suc f) o (ys ++ t ∷ ts) (is_dot-op_kind op) (omega (arith, b, size)) in
    let right = k f t ts stops.0 (omega (arith, b, size)) in
    rw (regroup xs ys o t ts) (
      parse_unary-opens (suc (suc f)) (xs ++ o ∷ (ys ++ t ∷ ts))
        (opens-append xs (o ∷ (ys ++ t ∷ ts)) first)
      ∙ rw left
          (comparison_goes_on f op l r o t (ys ++ t ∷ ts) ts (cmp_op-op_kind op) right stops.1))

pub and_and :
    (l r : Expr) (xs ys : List Token)
    → AtAnd l xs
    → AtUnary r ys
    → AtAnd (and_expr l r) (xs ++ bare t_and (codes "&&") ∷ ys)
unfolding parse_or cmp_op
and_and l r xs ys h k f n t ts stops b =
    let o = bare t_and (codes "&&") in
    let size : length (xs ++ o ∷ ys) ≡ length xs + length ys + 1 =
      omega (arith, length-append xs (o ∷ ys)) in
    let (g, more, same) =
      h f (8 * length ys + 8 + n) o (ys ++ t ∷ ts) (refl, refl) (omega (arith, b, size)) in
    rw (regroup xs ys o t ts) (step g more same)
  where
    step :
        (g : ℕ)
        → 8 * length ys + 8 + n ≤ g
        → parse_and f (xs ++ bare t_and (codes "&&") ∷ (ys ++ t ∷ ts))
          ≡ and_loop g l (bare t_and (codes "&&") ∷ (ys ++ t ∷ ts))
        → (g' : ℕ) × (n ≤ g')
          × (parse_and f (xs ++ bare t_and (codes "&&") ∷ (ys ++ t ∷ ts))
              ≡ and_loop g' (and_expr l r) (t ∷ ts))
    step zero more same = absurd (omega (arith, more))
    step (suc g) more same =
        (g, omega (arith, more), same ∙ rw (k g t ts stops (omega (arith, more))))

pub or_or :
    (l r : Expr) (xs ys : List Token)
    → AtOr l xs
    → AtAnd r ys
    → AtOr (or_expr l r) (xs ++ bare t_or (codes "||") ∷ ys)
unfolding parse_or cmp_op
or_or l r xs ys h k f n t ts stops last b =
    let o = bare t_or (codes "||") in
    let size : length (xs ++ o ∷ ys) ≡ length xs + length ys + 1 =
      omega (arith, length-append xs (o ∷ ys)) in
    let (g, more, same) =
      h f (8 * length ys + 8 + n) o (ys ++ t ∷ ts) (refl, refl) refl (omega (arith, b, size)) in
    rw (regroup xs ys o t ts) (step g more same)
  where
    step :
        (g : ℕ)
        → 8 * length ys + 8 + n ≤ g
        → parse_or f (xs ++ bare t_or (codes "||") ∷ (ys ++ t ∷ ts))
          ≡ or_loop g l (bare t_or (codes "||") ∷ (ys ++ t ∷ ts))
        → (g' : ℕ) × (n ≤ g')
          × (parse_or f (xs ++ bare t_or (codes "||") ∷ (ys ++ t ∷ ts))
              ≡ or_loop g' (or_expr l r) (t ∷ ts))
    step zero more same = absurd (omega (arith, more))
    step (suc g) more same = (
      g,
      omega (arith, more),
      same ∙ rw (parse_and_whole r ys k g t ts stops last (omega (arith, more))),
    )
