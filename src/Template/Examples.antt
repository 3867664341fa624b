-- ===== src/Template/Examples.antt =====
-- Examples of the template modules, with natural numbers for the floats.
use awf.Prelude.{
  ℕ, ◌≡◌, refl, Bytes, codes, bytes_eq, Bool, true, List, [], ◌∷◌, ◌++◌, Option, none, some, ltb,
  leb, ◌==◌, if◌then◌else◌, ok, err, ◌⊎◌,
}
use awf.Prelude.Decimal.{itoa, value}
use awf.Prelude.Int.{pos_part}
use mathlib.Core.Path.{subst}
use awf.Template.Slots.{scan}
use awf.Template.Lexer.{
  fraction, lex, lex_loop, is_space, lex_token, is_digit, lex_number, next_is, is_ident_start,
  is_ident_cont, span,
}
use awf.Template.Kinds.{cmp_op}
use awf.Template.Static.{eval_bool_string}
use awf.Template.Eval.{
  compare_values, eval_expr, eval_bool, references, resolve_ref_value, render_scalar, to_float,
  check_inline_size,
}
use awf.Template.Eval.Depends.{eval_expr-references}
use awf.Template.Eval.Typed.{
  Resolves, Is, Ty, number_type, or_typed, not_typed, cmp_typed, ref_typed, number_typed,
  null_typed, eval_bool-HasType,
}
use awf.Template.Parser.{
  parse_expr, parse_ref, parse_tokens, parse_or, parse_index, all_digits, at_end, parse_ref_tokens,
}
use awf.Template.Parser.Print.{emit, at_or}
use awf.Template.Parser.RoundTrip.{parse_tokens-emit}
use awf.Template.Parser.Total.{Answers, parse-Answers}
use awf.Template.Substitute.{substitute}
use awf.Template.Substitute.Rendered.{Renders, substitute-Renders}
use awf.Template.Syntax.{
  syntax_error, t_eof, Segment, name, index, op_eq, op_lt, Expr, or_expr, and_expr, not_expr,
  cmp_expr, ref_expr, number_lit, null_lit,
}
use awf.Template.Value.{
  Floats, Value, null_value, string_value, float_value, syntax_code, ref_unresolved, eval_error,
  Scope,
}

abbrev pub naturals : Floats ℕ
naturals = record {
  float_eq = λ a b. a == b;
  float_lt = λ a b. ltb a b;
  float_le = λ a b. leb a b;
  of_int = pos_part;
  parse_float = λ text. some (value 0 text);
  is_whole = λ x. true;
  format_f = itoa;
  format_g = itoa;
}

abbrev pub marshal : Value ℕ → Option Bytes
marshal v = some []

-- `n` is 7, `s` is a text, and no other name is bound.
abbrev pub scope : Scope ℕ
scope (name (c ∷ []) p ∷ []) =
    if c == b'n'
    then ok (float_value 7)
    else if c == b's'
    then ok (string_value (codes "text"))
    else err (eval_error ref_unresolved none)
scope _ = err (eval_error ref_unresolved none)

abbrev bare_name : ℕ → Expr
bare_name c = ref_expr (name (c ∷ []) 0 ∷ [])

-- (n < 9 || !x) == null
abbrev tree : Expr
tree =
    cmp_expr op_eq
      (or_expr (cmp_expr op_lt (bare_name b'n') (number_lit (codes "9")))
        (not_expr (bare_name b'x')))
      null_lit

parse-Answers_example :
    Answers (parse_expr (codes "n < 9 ||")) × Answers (parse_ref (codes "n < 9 ||"))
parse-Answers_example = parse-Answers (codes "n < 9 ||")

parse_tokens-emit_example :
    parse_tokens (emit at_or tree ++ record { kind = t_eof; text = []; pos = 20 } ∷ []) ≡ ok tree
unfolding bytes_eq
parse_tokens-emit_example =
    parse_tokens-emit tree 20 ((((refl, refl, refl, tt), tt), (refl, refl, refl, tt)), tt)

-- Comparisons bind tighter than `!`, `!` than `&&`, and `&&` than `||`.
parse_expr_levels :
    parse_expr (codes "1 || !2 == 3 && x.0")
    ≡ ok (
        or_expr (number_lit (codes "1")) (
          and_expr
            (not_expr (cmp_expr op_eq (number_lit (codes "2")) (number_lit (codes "3"))))
            (ref_expr (name (codes "x") 16 ∷ index 0 18 ∷ []))))
unfolding parse_expr lex lex_loop is_space lex_token is_digit lex_number next_is is_ident_start
    is_ident_cont parse_or cmp_op bytes_eq parse_index value at_end
parse_expr_levels = refl

-- Every reference is 7, but at `m` the scopes differ.
abbrev sevens : Scope ℕ
sevens ref = ok (float_value 7)

abbrev sevens_but_m : Scope ℕ
sevens_but_m (name (c ∷ []) p ∷ []) = if c == b'm' then ok null_value else ok (float_value 7)
sevens_but_m _ = ok null_value

eval_expr-references_example :
    eval_expr naturals marshal sevens tree ≡ eval_expr naturals marshal sevens_but_m tree
unfolding references
eval_expr-references_example =
    eval_expr-references naturals marshal sevens sevens_but_m tree (refl, (refl, tt))

abbrev all_numbers : List Segment → Option Ty
all_numbers ref = some number_type

resolves : Resolves naturals marshal sevens all_numbers
unfolding to_float check_inline_size
resolves ref a h =
    let number : number_type ≡ a = cc h in
    (float_value 7, refl, subst (λ b. Is naturals b (float_value 7)) number (7, refl), refl)

-- n < 9 || !(n == null)
abbrev typed_tree : Expr
typed_tree =
    or_expr (cmp_expr op_lt (bare_name b'n') (number_lit (codes "9")))
      (not_expr (cmp_expr op_eq (bare_name b'n') null_lit))

eval_bool-HasType_example : (b : Bool) × (eval_bool naturals marshal sevens typed_tree ≡ ok b)
eval_bool-HasType_example =
    eval_bool-HasType naturals marshal sevens all_numbers resolves typed_tree (
      or_typed (cmp_typed (ref_typed refl) (number_typed refl) refl)
        (not_typed (cmp_typed (ref_typed refl) null_typed refl)))

substitute-Renders_example :
    ((at : ℕ) × (substitute naturals marshal scope (codes "\\{{ x }} is {{ n }}.")
        ≡ err (eval_error syntax_code (some at))))
    ⊎ Renders naturals marshal scope (codes "\\{{ x }} is {{ n }}.")
substitute-Renders_example =
    substitute-Renders naturals marshal scope (codes "\\{{ x }} is {{ n }}.")

substitute_escape :
    substitute naturals marshal scope (codes "\\{{ x }} is {{ n }}.") ≡ ok (codes "{{ x }} is 7.")
unfolding substitute parse_ref itoa scan lex lex_loop is_space lex_token is_digit is_ident_start
    span is_ident_cont parse_ref_tokens at_end resolve_ref_value render_scalar
substitute_escape = refl

substitute_unbound :
    substitute naturals marshal scope (codes "a {{ b }}") ≡ err (eval_error ref_unresolved (some 2))
unfolding substitute parse_ref scan lex lex_loop is_space lex_token is_digit is_ident_start span
    is_ident_cont parse_ref_tokens at_end resolve_ref_value
substitute_unbound = refl

-- Two indices in a row are one number to the lexer.
parse_ref_two_indices : parse_ref (codes "a.0.1") ≡ err (syntax_error 2)
unfolding parse_ref lex lex_loop is_space lex_token is_digit lex_number fraction span is_ident_start
    is_ident_cont parse_ref_tokens parse_index all_digits
parse_ref_two_indices = refl

pub condition_small : eval_bool_string naturals marshal scope (codes "{{ n<9 }}") ≡ ok true
unfolding eval_bool_string eval_bool resolve_ref_value compare_values value parse_expr lex lex_loop
    is_space lex_token is_digit lex_number next_is is_ident_start is_ident_cont span parse_or cmp_op
    bytes_eq parse_ref_tokens at_end
condition_small = refl
