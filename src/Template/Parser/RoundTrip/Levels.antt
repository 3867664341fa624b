-- ===== src/Template/Parser/RoundTrip/Levels.antt =====
-- The productions of the grammar in template/parser.go, each on tokens that stand for a tree.
use awf.Prelude.{
  ℕ, zero, suc, ◌+◌, ◌*◌, ◌≡◌, ◌≤◌, refl, ◌∙◌, codes, Bool, true, false, List, [], ◌∷◌, ◌++◌, none,
  length, length-append, append_assoc, ok, arith, if◌then◌else◌,
}
use awf.Template.Kinds.{cmp_op, is_or, is_and, is_not, is_dot}
use awf.Template.Parser.{
  close, parse_or, or_loop, parse_and, and_loop, parse_unary, parse_comparison, comparison_tail,
  parse_primary,
}
use awf.Template.Parser.Print.{bare, wrap}
use awf.Template.Syntax.{Token, t_rparen, t_not, Expr, not_expr}

-- A token that an operand, and a comparison, do not go on with.
abbrev pub Stops : Token → Type 0
Stops t = (is_dot t.kind ≡ false) × (cmp_op t.kind ≡ none)

abbrev pub opens : List Token → Bool
opens [] = false
opens (t ∷ ts) = if is_not t.kind then false else true

-- The tokens `xs` of the tree `e`, at each production, with what follows and fuel to spare.
abbrev pub AtPrimary : Expr → List Token → Type 0
AtPrimary e xs =
    (f : ℕ) (t : Token) (ts : List Token)
    → is_dot t.kind ≡ false
    → 8 * length xs + 1 ≤ f
    → parse_primary f (xs ++ t ∷ ts) ≡ ok (e, t ∷ ts)

abbrev pub AtUnary : Expr → List Token → Type 0
AtUnary e xs =
    (f : ℕ) (t : Token) (ts : List Token)
    → Stops t
    → 8 * length xs + 3 ≤ f
    → parse_unary f (xs ++ t ∷ ts) ≡ ok (e, t ∷ ts)

abbrev pub AtAnd : Expr → List Token → Type 0
AtAnd e xs =
    (f n : ℕ) (t : Token) (ts : List Token)
    → Stops t
    → 8 * length xs + 4 + n ≤ f
    → (g : ℕ) × (n ≤ g) × (parse_and f (xs ++ t ∷ ts) ≡ and_loop g e (t ∷ ts))

abbrev pub AtOr : Expr → List Token → Type 0
AtOr e xs =
    (f n : ℕ) (t : Token) (ts : List Token)
    → Stops t
    → is_and t.kind ≡ false
    → 8 * length xs + 6 + n ≤ f
    → (g : ℕ) × (n ≤ g) × (parse_or f (xs ++ t ∷ ts) ≡ or_loop g e (t ∷ ts))

pub and_by_unary : (e : Expr) (xs : List Token) → AtUnary e xs → AtAnd e xs
unfolding parse_or
and_by_unary e xs h zero n t ts stops b = absurd (omega (arith, b))
and_by_unary e xs h (suc f) n t ts stops b =
    (f, omega (arith, b), rw (h f t ts stops (omega (arith, b))))

pub and_loop_ends :
    (g : ℕ) (e : Expr) (t : Token) (ts : List Token)
    → is_and t.kind ≡ false
    → 1 ≤ g
    → and_loop g e (t ∷ ts) ≡ ok (e, t ∷ ts)
unfolding parse_or
and_loop_ends zero e t ts h b = absurd (omega (arith, b))
and_loop_ends (suc g) e t ts h b = rw h

pub or_loop_ends :
    (g : ℕ) (e : Expr) (t : Token) (ts : List Token)
    → is_or t.kind ≡ false
    → 1 ≤ g
    → or_loop g e (t ∷ ts) ≡ ok (e, t ∷ ts)
unfolding parse_or
or_loop_ends zero e t ts h b = absurd (omega (arith, b))
or_loop_ends (suc g) e t ts h b = rw h

-- An operand of `||`, whole.
pub parse_and_whole :
    (e : Expr) (xs : List Token)
    → AtAnd e xs
    → (f : ℕ) (t : Token) (ts : List Token) → Stops t
    → is_and t.kind ≡ false
    → 8 * length xs + 5 ≤ f
    → parse_and f (xs ++ t ∷ ts) ≡ ok (e, t ∷ ts)
parse_and_whole e xs h f t ts stops last b =
    let (g, more, same) = h f 1 t ts stops (omega (arith, b)) in
    same ∙ and_loop_ends g e t ts last more

pub or_by_and : (e : Expr) (xs : List Token) → AtAnd e xs → AtOr e xs
unfolding parse_or
or_by_and e xs h zero n t ts stops last b = absurd (omega (arith, b))
or_by_and e xs h (suc f) n t ts stops last b =
    (f, omega (arith, b), rw (parse_and_whole e xs h f t ts stops last (omega (arith, b))))

pub parse_or_whole :
    (e : Expr) (xs : List Token)
    → AtOr e xs
    → (f : ℕ) (t : Token) (ts : List Token) → Stops t
    → is_and t.kind ≡ false
    → is_or t.kind ≡ false
    → 8 * length xs + 7 ≤ f
    → parse_or f (xs ++ t ∷ ts) ≡ ok (e, t ∷ ts)
parse_or_whole e xs h f t ts stops last ends b =
    let (g, more, same) = h f 1 t ts stops last (omega (arith, b)) in
    same ∙ or_loop_ends g e t ts ends more

pub primary_by_or : (e : Expr) (xs : List Token) → AtOr e xs → AtPrimary e (wrap true xs)
unfolding parse_or close cmp_op
primary_by_or e xs h zero t ts dot b = absurd (omega (arith, b))
primary_by_or e xs h (suc f) t ts dot b =
    let shut = bare t_rparen (codes ")") in
    let inner =
      parse_or_whole e xs h f shut (t ∷ ts) (refl, refl) refl refl
        (omega (arith, b, length-append xs (shut ∷ []))) in
    rw (append_assoc xs (shut ∷ []) (t ∷ ts), inner)

pub comparison_ends :
    (f : ℕ) (e : Expr) (t : Token) (ts : List Token)
    → cmp_op t.kind ≡ none
    → 1 ≤ f
    → comparison_tail f e (t ∷ ts) ≡ ok (e, t ∷ ts)
unfolding parse_or
comparison_ends zero e t ts h b = absurd (omega (arith, b))
comparison_ends (suc f) e t ts h b = rw (h, comparison_tail)

parse_comparison_alone :
    (e : Expr) (xs : List Token)
    → AtPrimary e xs
    → (f : ℕ) (t : Token) (ts : List Token) → Stops t
    → 8 * length xs + 2 ≤ f
    → parse_comparison f (xs ++ t ∷ ts) ≡ ok (e, t ∷ ts)
unfolding parse_or
parse_comparison_alone e xs h zero t ts stops b = absurd (omega (arith, b))
parse_comparison_alone e xs h (suc f) t ts stops b =
    rw (h f t ts stops.0 (omega (arith, b))) (comparison_ends f e t ts stops.1 (omega (arith, b)))

-- No negation in front.
pub parse_unary-opens :
    (f : ℕ) (xs : List Token) → opens xs ≡ true → parse_unary (suc f) xs ≡ parse_comparison f xs
unfolding parse_or
parse_unary-opens f [] h = absurd (cc h)
parse_unary-opens f (x ∷ xs) h = ground (arith, h)

pub opens-append : (xs ys : List Token) → opens xs ≡ true → opens (xs ++ ys) ≡ true
opens-append [] ys h = absurd (cc h)
opens-append (x ∷ xs) ys h = h

pub unary_by_primary :
    (e : Expr) (xs : List Token) → AtPrimary e xs → opens xs ≡ true → AtUnary e xs
unary_by_primary e xs h first zero t ts stops b = absurd (omega (arith, b))
unary_by_primary e xs h first (suc f) t ts stops b =
    parse_unary-opens f (xs ++ t ∷ ts) (opens-append xs (t ∷ ts) first)
    ∙ parse_comparison_alone e xs h f t ts stops (omega (arith, b))

pub unary_not :
    (e : Expr) (xs : List Token) → AtUnary e xs → AtUnary (not_expr e) (bare t_not (codes "!") ∷ xs)
unfolding parse_or
unary_not e xs h zero t ts stops b = absurd (omega (arith, b))
unary_not e xs h (suc f) t ts stops b = rw (h f t ts stops (omega (arith, b)))
