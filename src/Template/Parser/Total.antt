-- ===== src/Template/Parser/Total.antt =====
-- The parser (template/parser.go) on tokens that end with EOF: it neither runs out of them nor of
-- fuel.
mod Parts
use awf.Prelude.{
  ℕ, zero, suc, ◌+◌, ◌*◌, ◌≡◌, ◌≤◌, ◌<◌, refl, Bytes, codes, bytes_eq, Bool, true, false, List, [],
  ◌∷◌, ◌++◌, Option, none, some, length, Result, ok, err, ◌>>=◌, arith, Bool-cases, Option-cases,
  inl, inr, if◌then◌else◌,
}
use mathlib.Core.Path.{subst}
use awf.Template.Syntax.{
  Token, TokenKind, t_eof, t_ident, t_number, t_string, t_dot, t_lparen, t_rparen, t_or, t_and,
  t_not, Segment, name, index, CmpOp, Expr, or_expr, and_expr, not_expr, cmp_expr, ref_expr,
  SyntaxError, syntax_error, panicked, out_of_fuel,
}
use awf.Template.Lexer.{lex}
use awf.Template.Kinds.{cmp_op, is_or, is_and, is_not, is_dot, is_rparen, is_eof}
use awf.Template.Lexer.Total.{Ended, lex-Ended, ends_eof, ends_eof-tail, IsSyntaxError}
use awf.Template.Parser.{
  Parsed, parse_index, ref_loop, ref_segment, parse_ref_tokens, parse_ident, close, end_comparison,
  parse_or, or_loop, parse_and, and_loop, parse_unary, parse_comparison, comparison_tail,
  parse_primary, at_end, parse_tokens, parse_expr, parse_ref,
}
use awf.Template.Parser.Total.Parts.{
  Fine, Fine-bind, kind-tail, is_or-eof, is_and-eof, is_not-eof, cmp_op-eof, parse_ref_tokens-Fine,
  parse_ident-Fine, close-Fine, end_comparison-Fine,
}

parse_primary-kind :
    (f : ℕ) (t : Token) (ts : List Token)
    → ends_eof (t ∷ ts) ≡ true
    → (ends_eof ts ≡ true → Fine (length ts) (parse_or f ts))
    → (k : TokenKind) → t.kind ≡ k
    → Fine (suc (length ts)) (parse_primary (suc f) (t ∷ ts))
unfolding parse_or
parse_primary-kind f t ts h b t_lparen e =
    rw (e, parse_primary)
      (Fine-bind (length ts) (suc (length ts)) (parse_or f ts) _
        (b (kind-tail t ts t_lparen e refl h))
        (λ x rest few last. close-Fine (suc (length ts)) x rest (omega (arith, few)) last))
parse_primary-kind f t ts h b t_number e =
    rw (e, parse_primary) (omega arith, kind-tail t ts t_number e refl h)
parse_primary-kind f t ts h b t_string e =
    rw (e, parse_primary) (omega arith, kind-tail t ts t_string e refl h)
parse_primary-kind f t ts h b t_ident e =
    rw (e, parse_primary) (parse_ident-Fine t ts h (kind-tail t ts t_ident e refl h))
parse_primary-kind f t ts h b _ e = rw (e, parse_primary) tt

mutual
  unfolding parse_or

  parse_or-Fine :
      (f : ℕ) (ts : List Token)
      → ends_eof ts ≡ true
      → 8 * length ts + 5 ≤ f
      → Fine (length ts) (parse_or f ts)
  parse_or-Fine zero ts h b = absurd (omega (arith, b))
  parse_or-Fine (suc f) ts h b =
      Fine-bind (length ts) (length ts) (parse_and f ts) _
        (parse_and-Fine f ts h (omega (arith, b)))
        (λ l rest few last. or_loop-Fine f l rest (length ts) last (omega (arith, b, few)) few)

  or_loop-Fine :
      (f : ℕ) (l : Expr) (ts : List Token) (n : ℕ)
      → ends_eof ts ≡ true
      → 8 * length ts + 1 ≤ f
      → length ts < n
      → Fine n (or_loop f l ts)
  or_loop-Fine zero l ts n h b few = absurd (omega (arith, b))
  or_loop-Fine (suc f) l [] n h b few = cc h
  or_loop-Fine (suc f) l (t ∷ ts) n h b few = elim (Bool-cases (is_or t.kind)) [
    | inr over ↦ rw over (few, h)
    | inl more ↦
        let h' = ends_eof-tail t ts h (is_or-eof t.kind more) in
        rw more (
          Fine-bind (length ts) n (parse_and f ts) _ (parse_and-Fine f ts h' (omega (arith, b)))
            (λ r rest less last.
              or_loop-Fine f (or_expr l r) rest n last (omega (arith, b, less))
                (omega (arith, few, less))))
  ]

  parse_and-Fine :
      (f : ℕ) (ts : List Token)
      → ends_eof ts ≡ true
      → 8 * length ts + 4 ≤ f
      → Fine (length ts) (parse_and f ts)
  parse_and-Fine zero ts h b = absurd (omega (arith, b))
  parse_and-Fine (suc f) ts h b =
      Fine-bind (length ts) (length ts) (parse_unary f ts) _
        (parse_unary-Fine f ts h (omega (arith, b)))
        (λ l rest few last. and_loop-Fine f l rest (length ts) last (omega (arith, b, few)) few)

  and_loop-Fine :
      (f : ℕ) (l : Expr) (ts : List Token) (n : ℕ)
      → ends_eof ts ≡ true
      → 8 * length ts + 1 ≤ f
      → length ts < n
      → Fine n (and_loop f l ts)
  and_loop-Fine zero l ts n h b few = absurd (omega (arith, b))
  and_loop-Fine (suc f) l [] n h b few = cc h
  and_loop-Fine (suc f) l (t ∷ ts) n h b few = elim (Bool-cases (is_and t.kind)) [
    | inr over ↦ rw over (few, h)
    | inl more ↦
        let h' = ends_eof-tail t ts h (is_and-eof t.kind more) in
        rw more (
          Fine-bind (length ts) n (parse_unary f ts) _ (parse_unary-Fine f ts h' (omega (arith, b)))
            (λ r rest less last.
              and_loop-Fine f (and_expr l r) rest n last (omega (arith, b, less))
                (omega (arith, few, less))))
  ]

  parse_unary-Fine :
      (f : ℕ) (ts : List Token)
      → ends_eof ts ≡ true
      → 8 * length ts + 3 ≤ f
      → Fine (length ts) (parse_unary f ts)
  parse_unary-Fine zero ts h b = absurd (omega (arith, b))
  parse_unary-Fine (suc f) [] h b = cc h
  parse_unary-Fine (suc f) (t ∷ ts) h b = elim (Bool-cases (is_not t.kind)) [
    | inl negated ↦
        let h' = ends_eof-tail t ts h (is_not-eof t.kind negated) in
        rw negated (
          Fine-bind (length ts) (suc (length ts)) (parse_unary f ts) _
            (parse_unary-Fine f ts h' (omega (arith, b)))
            (λ x rest few last. (omega (arith, few), last)))
    | inr plain ↦ rw plain (parse_comparison-Fine f (t ∷ ts) h (omega (arith, b)))
  ]

  parse_comparison-Fine :
      (f : ℕ) (ts : List Token)
      → ends_eof ts ≡ true
      → 8 * length ts + 2 ≤ f
      → Fine (length ts) (parse_comparison f ts)
  parse_comparison-Fine zero ts h b = absurd (omega (arith, b))
  parse_comparison-Fine (suc f) ts h b =
      Fine-bind (length ts) (length ts) (parse_primary f ts) _
        (parse_primary-Fine f ts h (omega (arith, b)))
        (λ l rest few last.
          comparison_tail-Fine f l rest (length ts) last (omega (arith, b, few)) few)

  comparison_tail-Fine :
      (f : ℕ) (l : Expr) (ts : List Token) (n : ℕ)
      → ends_eof ts ≡ true
      → 8 * length ts + 1 ≤ f
      → length ts < n
      → Fine n (comparison_tail f l ts)
  comparison_tail-Fine zero l ts n h b few = absurd (omega (arith, b))
  comparison_tail-Fine (suc f) l [] n h b few = cc h
  comparison_tail-Fine (suc f) l (t ∷ ts) n h b few = elim (Option-cases (cmp_op t.kind)) [
    | inl over ↦ rw (over, comparison_tail) (few, h)
    | inr (op, more) ↦
        let h' = ends_eof-tail t ts h (cmp_op-eof t.kind op more) in
        rw (more, comparison_tail)
          (Fine-bind (length ts) n (parse_primary f ts) _
            (parse_primary-Fine f ts h' (omega (arith, b)))
            (λ r rest less last.
              end_comparison-Fine n (cmp_expr op l r) rest (omega (arith, few, less)) last))
  ]

  parse_primary-Fine :
      (f : ℕ) (ts : List Token)
      → ends_eof ts ≡ true
      → 8 * length ts + 1 ≤ f
      → Fine (length ts) (parse_primary f ts)
  parse_primary-Fine zero ts h b = absurd (omega (arith, b))
  parse_primary-Fine (suc f) [] h b = cc h
  parse_primary-Fine (suc f) (t ∷ ts) h b =
      parse_primary-kind f t ts h (λ h'. parse_or-Fine f ts h' (omega (arith, b))) t.kind refl

-- A result, or an error of the source.
abbrev pub Answers : {A : Type 0} → Result SyntaxError A → Type 0
Answers (ok a) = Unit
Answers (err e) = IsSyntaxError e

at_end-Answers : {A : Type 0} (a : A) (ts : List Token) → ends_eof ts ≡ true → Answers (at_end a ts)
unfolding at_end
at_end-Answers a [] h = absurd (cc h)
at_end-Answers a (t ∷ ts) h = elim (Bool-cases (is_eof t.kind)) [
  | inl hit ↦ rw hit tt
  | inr miss ↦ rw miss tt
]

Answers-bind :
    {A : Type 0} (n : ℕ) (r : Parsed A) → Fine n r → Answers (r >>= λ (a, rest). at_end a rest)
Answers-bind n (ok (a, rest)) h = at_end-Answers a rest h.1
Answers-bind n (err e) h = h

Answers-lexed :
    {A : Type 0} (r : Result SyntaxError (List Token)) (f : List Token → Result SyntaxError A)
    → Ended r
    → ((ts : List Token) → ends_eof ts ≡ true → Answers (f ts))
    → Answers (r >>= f)
Answers-lexed (ok ts) f h k = k ts h
Answers-lexed (err e) f h k = h

parse_tokens-Answers : (ts : List Token) → ends_eof ts ≡ true → Answers (parse_tokens ts)
unfolding parse_tokens
parse_tokens-Answers ts h =
    Answers-bind (length ts) (parse_or (8 * length ts + 8) ts)
      (parse_or-Fine (8 * length ts + 8) ts h (omega arith))

-- On any source ParseExpr and ParseRef end with a tree or with an error that has a position: the
-- fuel never runs out, and no token is read behind the last.
pub parse-Answers : (src : Bytes) → Answers (parse_expr src) × Answers (parse_ref src)
unfolding parse_expr parse_ref
parse-Answers src = (
  Answers-lexed (lex src) parse_tokens (lex-Ended src) parse_tokens-Answers,
  Answers-lexed (lex src) _ (lex-Ended src)
      (λ ts h. Answers-bind (length ts) (parse_ref_tokens ts) (parse_ref_tokens-Fine ts h)),
)
