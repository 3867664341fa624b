-- ===== src/Template/Parser/Total/Parts.antt =====
-- References, closing parentheses and the ends of comparisons (template/parser.go) on tokens that
-- end with EOF.
use awf.Prelude.{
  ℕ, suc, ◌≡◌, ◌≤◌, ◌<◌, refl, codes, bytes_eq, true, false, List, [], ◌∷◌, ◌++◌, some, length, ok,
  err, ◌>>=◌, arith, Bool-cases, Option-cases, inl, inr,
}
use awf.Template.Syntax.{
  Token, TokenKind, t_eof, t_ident, t_number, Segment, name, index, CmpOp, Expr,
}
use awf.Template.Kinds.{cmp_op, is_or, is_and, is_not, is_dot, is_rparen, is_eof}
use awf.Template.Lexer.Total.{ends_eof, ends_eof-tail, IsSyntaxError}
use awf.Template.Parser.{
  Parsed, parse_index, ref_loop, ref_segment, parse_ref_tokens, parse_ident, close, end_comparison,
}

-- Fewer than `n` tokens are left, and EOF is still the last.
abbrev pub Fine : {A : Type 0} → ℕ → Parsed A → Type 0
Fine n (ok (a, rest)) = (length rest < n) × (ends_eof rest ≡ true)
Fine n (err e) = IsSyntaxError e

pub Fine-bind :
    {A B : Type 0} (m n : ℕ) (r : Parsed A) (f : A × List Token → Parsed B)
    → Fine m r
    → ((a : A) (rest : List Token) → length rest < m → ends_eof rest ≡ true → Fine n (f (a, rest)))
    → Fine n (r >>= f)
Fine-bind m n (ok (a, rest)) f h k = k a rest h.0 h.1
Fine-bind m n (err e) f h k = h

Fine-le : {A : Type 0} (m n : ℕ) (r : Parsed A) → m ≤ n → Fine m r → Fine n r
Fine-le m n (ok (a, rest)) h f = (omega (arith, f.0), f.1)
Fine-le m n (err e) h f = f

-- Each kind that is consumed is not EOF.
pub is_or-eof : (k : TokenKind) → is_or k ≡ true → is_eof k ≡ false
is_or-eof t_eof h = cc h
is_or-eof _ h = refl

pub is_and-eof : (k : TokenKind) → is_and k ≡ true → is_eof k ≡ false
is_and-eof t_eof h = cc h
is_and-eof _ h = refl

pub is_not-eof : (k : TokenKind) → is_not k ≡ true → is_eof k ≡ false
is_not-eof t_eof h = cc h
is_not-eof _ h = refl

is_dot-eof : (k : TokenKind) → is_dot k ≡ true → is_eof k ≡ false
is_dot-eof t_eof h = cc h
is_dot-eof _ h = refl

is_rparen-eof : (k : TokenKind) → is_rparen k ≡ true → is_eof k ≡ false
is_rparen-eof t_eof h = cc h
is_rparen-eof _ h = refl

pub cmp_op-eof : (k : TokenKind) (op : CmpOp) → cmp_op k ≡ some op → is_eof k ≡ false
unfolding cmp_op
cmp_op-eof t_eof op h = cc h
cmp_op-eof _ op h = refl

-- Of a token of a known kind that is not EOF.
pub kind-tail :
    (t : Token) (ts : List Token) (k : TokenKind)
    → t.kind ≡ k
    → is_eof k ≡ false
    → ends_eof (t ∷ ts) ≡ true
    → ends_eof ts ≡ true
kind-tail t ts k e h last = ends_eof-tail t ts last (rw e h)

ref_segment-kind :
    (segs : List Segment) (t : Token) (ts : List Token)
    → ends_eof (t ∷ ts) ≡ true
    → ((more : List Segment) → ends_eof ts ≡ true → Fine (suc (length ts)) (ref_loop more ts))
    → (k : TokenKind) → t.kind ≡ k
    → Fine (suc (suc (length ts))) (ref_segment segs (t ∷ ts))
unfolding ref_loop
ref_segment-kind segs t ts h later t_ident e =
    rw (e, ref_segment)
      (Fine-le (suc (length ts)) (suc (suc (length ts))) (ref_loop _ ts) (omega arith)
        (later _ (kind-tail t ts t_ident e refl h)))
ref_segment-kind segs t ts h later t_number e = elim (Option-cases (parse_index t.text)) [
  | inl bad ↦ rw (e, ref_segment, bad) tt
  | inr (n, good) ↦
      rw (e, ref_segment, good)
        (Fine-le (suc (length ts)) (suc (suc (length ts)))
          (ref_loop (segs ++ index n t.pos ∷ []) ts) (omega arith)
          (later (segs ++ index n t.pos ∷ []) (kind-tail t ts t_number e refl h)))
]
ref_segment-kind segs t ts h later _ e = rw (e, ref_segment) tt

mutual
  unfolding ref_loop

  ref_loop-Fine :
      (segs : List Segment) (ts : List Token)
      → ends_eof ts ≡ true
      → Fine (suc (length ts)) (ref_loop segs ts)
  ref_loop-Fine segs [] h = cc h
  ref_loop-Fine segs (t ∷ ts) h = elim (Bool-cases (is_dot t.kind)) [
    | inr over ↦ rw over (omega arith, h)
    | inl more ↦ rw more (
        Fine-le (suc (length ts)) (suc (suc (length ts))) (ref_segment segs ts) (omega arith)
          (ref_segment-Fine segs ts (ends_eof-tail t ts h (is_dot-eof t.kind more))))
  ]

  ref_segment-Fine :
      (segs : List Segment) (ts : List Token)
      → ends_eof ts ≡ true
      → Fine (suc (length ts)) (ref_segment segs ts)
  ref_segment-Fine segs [] h = cc h
  ref_segment-Fine segs (t ∷ ts) h =
      ref_segment-kind segs t ts h (λ more h'. ref_loop-Fine more ts h') t.kind refl

pub parse_ref_tokens-Fine :
    (ts : List Token) → ends_eof ts ≡ true → Fine (length ts) (parse_ref_tokens ts)
unfolding parse_ref_tokens
parse_ref_tokens-Fine [] h = cc h
parse_ref_tokens-Fine (t ∷ ts) h = of_kind t.kind refl
  where
    of_kind : (k : TokenKind) → t.kind ≡ k → Fine (suc (length ts)) (parse_ref_tokens (t ∷ ts))
    of_kind t_ident e =
        rw (e, parse_ref_tokens)
          (ref_loop-Fine (name t.text t.pos ∷ []) ts (kind-tail t ts t_ident e refl h))
    of_kind _ e = rw (e, parse_ref_tokens) tt

pub parse_ident-Fine :
    (t : Token) (ts : List Token)
    → ends_eof (t ∷ ts) ≡ true
    → ends_eof ts ≡ true
    → Fine (suc (length ts)) (parse_ident t ts)
unfolding parse_ident
parse_ident-Fine t ts whole h = elim (Bool-cases (bytes_eq t.text (codes "true"))) [
  | inl hit ↦ rw hit (omega arith, h)
  | inr miss ↦ elim (Bool-cases (bytes_eq t.text (codes "false"))) [
    | inl hit ↦ rw (miss, hit) (omega arith, h)
    | inr miss' ↦ elim (Bool-cases (bytes_eq t.text (codes "null"))) [
      | inl hit ↦ rw (miss, miss', hit) (omega arith, h)
      | inr ref ↦
          rw (miss, miss', ref)
            (Fine-bind (suc (length ts)) (suc (length ts)) (parse_ref_tokens (t ∷ ts)) _
              (parse_ref_tokens-Fine (t ∷ ts) whole) (λ segs rest few last. (few, last)))
    ]
  ]
]

pub close-Fine :
    (n : ℕ) (e : Expr) (ts : List Token) → length ts < n → ends_eof ts ≡ true → Fine n (close e ts)
unfolding close
close-Fine n e [] few h = cc h
close-Fine n e (t ∷ ts) few h = elim (Bool-cases (is_rparen t.kind)) [
  | inl hit ↦ rw hit (omega (arith, few), ends_eof-tail t ts h (is_rparen-eof t.kind hit))
  | inr miss ↦ rw miss tt
]

pub end_comparison-Fine :
    (n : ℕ) (e : Expr) (ts : List Token)
    → length ts < n
    → ends_eof ts ≡ true
    → Fine n (end_comparison e ts)
unfolding end_comparison
end_comparison-Fine n e [] few h = cc h
end_comparison-Fine n e (t ∷ ts) few h = elim (Option-cases (cmp_op t.kind)) [
  | inl over ↦ rw (over, end_comparison) (few, h)
  | inr (op, chained) ↦ rw (chained, end_comparison) tt
]
