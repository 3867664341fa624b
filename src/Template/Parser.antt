-- ===== src/Template/Parser.antt =====
-- template/parser.go: recursive descent over the tokens that are left, p.toks[p.i:].
pub mod Total
pub mod Print
pub mod RoundTrip
use awf.Prelude.{
  ℕ, zero, suc, ◌+◌, ◌*◌, ◌^◌, ◌<◌, Bytes, codes, bytes_eq, Bool, true, false, not, ◌&&◌, ◌||◌,
  List, [], ◌∷◌, ◌++◌, Option, none, some, length, ltb, ◌==◌, if◌then◌else◌, Result, ok, err, ◌>>=◌,
}
use awf.Prelude.Decimal.{value}
use awf.Template.Kinds.{cmp_op, is_or, is_and, is_not, is_dot, is_rparen, is_eof}
use awf.Template.Lexer.{lex, is_digit}
use awf.Template.Syntax.{
  Token, TokenKind, t_eof, t_ident, t_number, t_string, t_dot, t_lparen, t_rparen, t_or, t_and,
  t_not, t_eq, t_neq, t_lt, t_le, t_gt, t_ge, Segment, name, index, CmpOp, op_eq, op_neq, op_lt,
  op_le, op_gt, op_ge, Expr, or_expr, and_expr, not_expr, cmp_expr, ref_expr, string_lit,
  number_lit, bool_lit, null_lit, SyntaxError, syntax_error, panicked, out_of_fuel,
}

abbrev pub Parsed : Type 0 → Type 0
Parsed A = Result SyntaxError (A × List Token)

unfoldable pub all_digits : Bytes → Bool
unfolding is_digit
all_digits [] = true
all_digits (c ∷ cs) = is_digit c && all_digits cs

abbrev no_bytes : Bytes → Bool
no_bytes [] = true
no_bytes (c ∷ cs) = false

-- json.Number.Int64, where it is not negative: the digits, of a value below 2 ^ 63.
unfoldable pub digits_index : Bytes → Option ℕ
unfolding all_digits
digits_index text =
    if all_digits text && not (no_bytes text) && ltb (value 0 text) (2 ^ 63)
    then some (value 0 text)
    else none

-- The same with a sign, which only zero may have.
unfoldable pub parse_index : Bytes → Option ℕ
unfolding digits_index
parse_index [] = none
parse_index (c ∷ cs) =
    if c == b'-'
    then elim (digits_index cs) [ some zero ↦ some 0 | _ ↦ none ]
    else digits_index (c ∷ cs)

-- The loop of parseRef: `dots` is p at the loop's test, and the segments so far are `segs`.
unfoldable mutual
  pub ref_loop : List Segment → List Token → Parsed (List Segment)
  ref_loop segs [] = err panicked
  ref_loop segs (t ∷ ts) =
      let more = ref_segment segs ts in if is_dot t.kind then more else ok (segs, t ∷ ts)

  -- Behind a dot.
  pub ref_segment : List Segment → List Token → Parsed (List Segment)
  ref_segment segs [] = err panicked
  ref_segment segs (t ∷ ts) =
      let named = ref_loop (segs ++ name t.text t.pos ∷ []) ts in
      let indexed : ℕ → Parsed (List Segment) = λ n. ref_loop (segs ++ index n t.pos ∷ []) ts in
      elim t.kind [
        | t_ident ↦ named
        | t_number ↦ elim (parse_index t.text) [
          | some n ↦ indexed n
          | none ↦ err (syntax_error t.pos)
        ]
        | _ ↦ err (syntax_error t.pos)
      ]

unfoldable pub parse_ref_tokens : List Token → Parsed (List Segment)
unfolding ref_loop
parse_ref_tokens [] = err panicked
parse_ref_tokens (t ∷ ts) = elim t.kind [
  | t_ident ↦ ref_loop (name t.text t.pos ∷ []) ts
  | _ ↦ err (syntax_error t.pos)
]

-- An identifier that is a literal, or else a reference.
unfoldable pub parse_ident : Token → List Token → Parsed Expr
unfolding parse_ref_tokens
parse_ident t ts =
    if bytes_eq t.text (codes "true")
    then ok (bool_lit true, ts)
    else if bytes_eq t.text (codes "false")
    then ok (bool_lit false, ts)
    else if bytes_eq t.text (codes "null")
    then ok (null_lit, ts)
    else (parse_ref_tokens (t ∷ ts) >>= λ (segs, rest). ok (ref_expr segs, rest))

-- The closing parenthesis behind `e`.
unfoldable pub close : Expr → List Token → Parsed Expr
close e [] = err panicked
close e (t ∷ ts) = if is_rparen t.kind then ok (e, ts) else err (syntax_error t.pos)

-- Behind the right operand of a comparison: comparisons do not associate.
unfoldable pub end_comparison : Expr → List Token → Parsed Expr
end_comparison e [] = err panicked
end_comparison e (t ∷ ts) = elim (cmp_op t.kind) [
  | some op ↦ err (syntax_error t.pos)
  | none ↦ ok (e, t ∷ ts)
]

-- What a call leaves of the tokens is not a structural part of them, so each call costs fuel.
unfoldable mutual
  unfolding parse_ident close end_comparison

  pub parse_or : ℕ → List Token → Parsed Expr
  parse_or zero ts = err out_of_fuel
  parse_or (suc f) ts = parse_and f ts >>= λ (l, rest). or_loop f l rest

  pub or_loop : ℕ → Expr → List Token → Parsed Expr
  or_loop zero l ts = err out_of_fuel
  or_loop (suc f) l [] = err panicked
  or_loop (suc f) l (t ∷ ts) =
      let more = (parse_and f ts >>= λ (r, rest). or_loop f (or_expr l r) rest) in
      if is_or t.kind then more else ok (l, t ∷ ts)

  pub parse_and : ℕ → List Token → Parsed Expr
  parse_and zero ts = err out_of_fuel
  parse_and (suc f) ts = parse_unary f ts >>= λ (l, rest). and_loop f l rest

  pub and_loop : ℕ → Expr → List Token → Parsed Expr
  and_loop zero l ts = err out_of_fuel
  and_loop (suc f) l [] = err panicked
  and_loop (suc f) l (t ∷ ts) =
      let more = (parse_unary f ts >>= λ (r, rest). and_loop f (and_expr l r) rest) in
      if is_and t.kind then more else ok (l, t ∷ ts)

  pub parse_unary : ℕ → List Token → Parsed Expr
  parse_unary zero ts = err out_of_fuel
  parse_unary (suc f) [] = err panicked
  parse_unary (suc f) (t ∷ ts) =
      let negated = (parse_unary f ts >>= λ (x, rest). ok (not_expr x, rest)) in
      let compared = parse_comparison f (t ∷ ts) in if is_not t.kind then negated else compared

  pub parse_comparison : ℕ → List Token → Parsed Expr
  parse_comparison zero ts = err out_of_fuel
  parse_comparison (suc f) ts = parse_primary f ts >>= λ (l, rest). comparison_tail f l rest

  -- Behind the left operand.
  pub comparison_tail : ℕ → Expr → List Token → Parsed Expr
  comparison_tail zero l ts = err out_of_fuel
  comparison_tail (suc f) l [] = err panicked
  comparison_tail (suc f) l (t ∷ ts) =
      let compared : CmpOp → Parsed Expr =
        λ op. parse_primary f ts >>= λ (r, rest). end_comparison (cmp_expr op l r) rest in
      elim (cmp_op t.kind) [ some op ↦ compared op | none ↦ ok (l, t ∷ ts) ]

  pub parse_primary : ℕ → List Token → Parsed Expr
  parse_primary zero ts = err out_of_fuel
  parse_primary (suc f) [] = err panicked
  parse_primary (suc f) (t ∷ ts) =
      let grouped = (parse_or f ts >>= λ (e, rest). close e rest) in
      elim t.kind [
        | t_lparen ↦ grouped
        | t_number ↦ ok (number_lit t.text, ts)
        | t_string ↦ ok (string_lit t.text, ts)
        | t_ident ↦ parse_ident t ts
        | _ ↦ err (syntax_error t.pos)
      ]

-- The test of ParseExpr and ParseRef that nothing follows.
unfoldable pub at_end {ℓ} : {A : Type ℓ} → A → List Token → Result SyntaxError A
at_end a [] = err panicked
at_end a (t ∷ ts) = if is_eof t.kind then ok a else err (syntax_error t.pos)

-- Eight calls at most stand between two tokens, so eight units of fuel for each token suffice.
unfoldable pub parse_tokens : List Token → Result SyntaxError Expr
parse_tokens ts = parse_or (8 * length ts + 8) ts >>= λ (e, rest). at_end e rest

unfoldable pub parse_expr : Bytes → Result SyntaxError Expr
unfolding parse_tokens
parse_expr src = lex src >>= parse_tokens

unfoldable pub parse_ref : Bytes → Result SyntaxError (List Segment)
parse_ref src = lex src >>= λ ts. parse_ref_tokens ts >>= λ (r, rest). at_end r rest
