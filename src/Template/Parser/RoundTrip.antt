-- ===== src/Template/Parser/RoundTrip.antt =====
-- The parser (template/parser.go) on printed trees, production by production.
mod Levels
mod Operators
mod Refs
use awf.Prelude.{
  ℕ, zero, suc, ◌+◌, ◌*◌, ◌≡◌, ◌≤◌, refl, sym, ap, ◌∙◌, Bytes, codes, bytes_eq, Bool, true, false,
  List, [], ◌∷◌, ◌++◌, Option, none, some, length, length-append, append_assoc, ok, ◌>>=◌, arith,
  if◌then◌else◌,
}
use awf.Template.Kinds.{cmp_op, is_or, is_and, is_not, is_dot, is_rparen, is_eof}
use awf.Template.Parser.{
  parse_ident, close, end_comparison, parse_or, or_loop, parse_and, and_loop, parse_unary,
  parse_comparison, comparison_tail, parse_primary, at_end, parse_tokens,
}
use awf.Template.Parser.Print.{
  bare, op_kind, Level, at_or, at_and, at_unary, at_primary, wrap, emit, emit_ref, IsRef, Printable,
}
use awf.Template.Parser.RoundTrip.Refs.{parse_ident-emit_segments}
use awf.Template.Syntax.{
  Token, TokenKind, t_eof, t_ident, t_number, t_string, t_lparen, t_rparen, t_or, t_and, t_not,
  Segment, name, index, CmpOp, op_eq, op_neq, op_lt, op_le, op_gt, op_ge, Expr, or_expr, and_expr,
  not_expr, cmp_expr, ref_expr, string_lit, number_lit, bool_lit, null_lit,
}
use awf.Template.Parser.RoundTrip.Levels.{
  AtPrimary, AtUnary, AtAnd, AtOr, opens, and_by_unary, or_by_and, parse_or_whole, primary_by_or,
  unary_by_primary, unary_not,
}
use awf.Template.Parser.RoundTrip.Operators.{unary_cmp, and_and, or_or}

-- All four productions of one tree.
abbrev Parses : Expr → Type 0
Parses e =
    AtOr e (emit at_or e)
    × AtAnd e (emit at_and e)
    × AtUnary e (emit at_unary e)
    × AtPrimary e (emit at_primary e)
    × (opens (emit at_primary e) ≡ true)

-- A tree that stands for itself everywhere.
Parses-atom :
    (e : Expr) (xs : List Token)
    → ((lv : Level) → emit lv e ≡ xs)
    → AtPrimary e xs
    → opens xs ≡ true
    → Parses e
Parses-atom e xs same h first =
    let unary = unary_by_primary e xs h first in
    let and = and_by_unary e xs unary in
    rw (same at_or, same at_and, same at_unary, same at_primary)
      (or_by_and e xs and, and, unary, h, first)

-- A tree that stands in parentheses among primaries, by its printing as an operand of `!`.
Parses-unary :
    (e : Expr) (xs : List Token)
    → emit at_or e ≡ xs
    → emit at_and e ≡ xs
    → emit at_unary e ≡ xs
    → emit at_primary e ≡ wrap true xs
    → AtUnary e xs
    → Parses e
Parses-unary e xs o a u p h =
    let and = and_by_unary e xs h in
    let or = or_by_and e xs and in rw (o, a, u, p) (or, and, h, primary_by_or e xs or, refl)

literal :
    (e : Expr) (t0 : Token)
    → opens (t0 ∷ []) ≡ true
    → ((f : ℕ) (t : Token) (ts : List Token)
        → is_dot t.kind ≡ false
        → parse_primary (suc f) (t0 ∷ t ∷ ts) ≡ ok (e, t ∷ ts))
    → ((lv : Level) → emit lv e ≡ t0 ∷ [])
    → Parses e
literal e t0 first h same = Parses-atom e (t0 ∷ []) same primary first
  where
    primary : AtPrimary e (t0 ∷ [])
    primary zero t ts dot b = absurd (omega (arith, b))
    primary (suc f) t ts dot b = h f t ts dot

reference :
    (segs : List Segment)
    → IsRef segs
    → AtPrimary (ref_expr segs) (emit_ref segs) × (opens (emit_ref segs) ≡ true)
unfolding parse_or emit_ref
reference [] h = absurd (cc h)
reference (index n p ∷ segs) h = absurd (cc h)
reference (name s p ∷ segs) h = (primary, refl)
  where
    primary : AtPrimary (ref_expr (name s p ∷ segs)) (emit_ref (name s p ∷ segs))
    primary zero t ts dot b = absurd (omega (arith, b))
    primary (suc f) t ts dot b = parse_ident-emit_segments s p segs t ts h dot

parses : (e : Expr) → Printable e → Parses e
unfolding emit parse_or parse_ident bytes_eq
parses (or_expr l r) h =
    let left = parses l h.0 in
    let right = parses r h.1 in
    let xs = emit at_or l ++ bare t_or (codes "||") ∷ emit at_and r in
    let or = or_or l r (emit at_or l) (emit at_and r) left.0 right.1 in
    let primary = primary_by_or (or_expr l r) xs or in
    let unary = unary_by_primary (or_expr l r) (wrap true xs) primary refl in
    (or, and_by_unary (or_expr l r) (wrap true xs) unary, unary, primary, refl)
parses (and_expr l r) h =
    let left = parses l h.0 in
    let right = parses r h.1 in
    let xs = emit at_and l ++ bare t_and (codes "&&") ∷ emit at_unary r in
    let and = and_and l r (emit at_and l) (emit at_unary r) left.1 right.2 in
    let or = or_by_and (and_expr l r) xs and in
    let primary = primary_by_or (and_expr l r) xs or in
    (or, and, unary_by_primary (and_expr l r) (wrap true xs) primary refl, primary, refl)
parses (not_expr x) h =
    Parses-unary (not_expr x) (bare t_not (codes "!") ∷ emit at_unary x) refl refl refl refl
      (unary_not x (emit at_unary x) (parses x h).2)
parses (cmp_expr op l r) h =
    let left = parses l h.0 in
    Parses-unary (cmp_expr op l r) (emit at_primary l ++ bare (op_kind op) [] ∷ emit at_primary r)
      refl refl refl refl
      (unary_cmp op l r (emit at_primary l) (emit at_primary r) left.3 left.4 (parses r h.1).3)
parses (ref_expr segs) h =
    let (primary, first) = reference segs h in
    Parses-atom (ref_expr segs) (emit_ref segs) (λ lv. refl) primary first
parses (string_lit s) h =
    literal (string_lit s) (bare t_string s) refl (λ f t ts dot. refl) (λ lv. refl)
parses (number_lit n) h =
    literal (number_lit n) (bare t_number n) refl (λ f t ts dot. refl) (λ lv. refl)
parses (bool_lit true) h =
    literal (bool_lit true) (bare t_ident (codes "true")) refl (λ f t ts dot. refl) (λ lv. refl)
parses (bool_lit false) h =
    literal (bool_lit false) (bare t_ident (codes "false")) refl (λ f t ts dot. refl) (λ lv. refl)
parses null_lit h =
    literal null_lit (bare t_ident (codes "null")) refl (λ f t ts dot. refl) (λ lv. refl)

-- The tree of any shape whose indices fit int64 and whose references start with a name that is no
-- literal comes back from its tokens with EOF behind them: precedence, associativity and
-- parentheses are those of the grammar.
pub parse_tokens-emit :
    (e : Expr) (pos : ℕ)
    → Printable e
    → parse_tokens (emit at_or e ++ record { kind = t_eof; text = []; pos = pos } ∷ []) ≡ ok e
unfolding parse_tokens at_end cmp_op
parse_tokens-emit e pos h =
    let eof : Token = record { kind = t_eof; text = []; pos = pos } in
    let xs = emit at_or e in
    rw (
      parse_or_whole e xs (parses e h).0 (8 * length (xs ++ eof ∷ []) + 8) eof [] (refl, refl) refl
        refl (omega (arith, length-append xs (eof ∷ []))))
