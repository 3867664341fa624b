-- ===== src/Template/Eval.antt =====
-- Evaluation (template/eval.go, template/refs.go).
pub mod Depends
pub mod Typed
use awf.Prelude.{
  ℕ, Bytes, bytes_eq, Bool, true, false, not, ◌&&◌, ◌||◌, List, [], ◌∷◌, ◌++◌, Option, none, some,
  length, ltb, if◌then◌else◌, Result, ok, err, ◌>>=◌,
}
use awf.Template.Parser.{parse_expr}
use awf.Template.Syntax.{
  Segment, CmpOp, op_eq, op_neq, op_lt, op_le, op_gt, op_ge, Expr, or_expr, and_expr, not_expr,
  cmp_expr, ref_expr, string_lit, number_lit, bool_lit, null_lit,
}
use awf.Template.Value.{
  Floats, Value, null_value, bool_value, string_value, float_value, int_value, int64_value,
  number_value, list_value, map_value, opaque_value, EvalCode, oversize, ref_unresolved,
  type_mismatch, invalid_scalar, Failure, eval_error, other_failure, Scope, format_int, format_bool,
}

-- MaxInlineBytes
abbrev pub max_inline_bytes : ℕ
max_inline_bytes = 65536

-- EvalErrf
abbrev pub fail {ℓ} : {A : Type ℓ} → EvalCode → Result Failure A
fail code = err (eval_error code none)

unfoldable pub require_bool : {F : Type 0} → Value F → Result Failure Bool
require_bool (bool_value b) = ok b
require_bool _ = fail type_mismatch

abbrev pub is_null : {F : Type 0} → Value F → Bool
is_null null_value = true
is_null _ = false

-- sameKind
unfoldable pub same_kind : {F : Type 0} → Value F → Value F → Bool
same_kind (bool_value a) (bool_value b) = true
same_kind (string_value a) (string_value b) = true
same_kind _ _ = false

abbrev bool_eq : Bool → Bool → Bool
bool_eq true b = b
bool_eq false b = not b

-- equalValue
unfoldable pub equal_value : {F : Type 0} → Value F → Value F → Bool
unfolding bytes_eq
equal_value (bool_value a) (bool_value b) = bool_eq a b
equal_value (string_value a) (string_value b) = bytes_eq a b
equal_value _ _ = false

-- The size of a text against the limit.
unfoldable pub inline_limit : Option Bytes → Result Failure (Unit {0})
inline_limit none = fail invalid_scalar
inline_limit (some text) = if ltb max_inline_bytes (length text) then fail oversize else ok tt

module _ {F : Type 0} (fl : Floats F) where
  unfoldable pub to_float : Value F → Option F
  to_float (float_value x) = some x
  to_float (int_value i) = some (fl.of_int i)
  to_float (int64_value i) = some (fl.of_int i)
  to_float (number_value s) = fl.parse_float s
  to_float _ = none

  unfoldable pub compare_floats : CmpOp → F → F → Bool
  compare_floats op_eq a b = fl.float_eq a b
  compare_floats op_neq a b = not (fl.float_eq a b)
  compare_floats op_lt a b = fl.float_lt a b
  compare_floats op_le a b = fl.float_le a b
  compare_floats op_gt a b = fl.float_lt b a
  compare_floats op_ge a b = fl.float_le b a

  unfoldable pub compare_null : CmpOp → Bool → Bool → Result Failure Bool
  compare_null op_eq a b = ok (a && b)
  compare_null op_neq a b = ok (not a || not b)
  compare_null _ a b = fail type_mismatch

  unfoldable pub compare_same : CmpOp → Value F → Value F → Result Failure Bool
  unfolding same_kind equal_value
  compare_same op_eq l r = if same_kind l r then ok (equal_value l r) else fail type_mismatch
  compare_same op_neq l r = if same_kind l r then ok (not (equal_value l r)) else fail type_mismatch
  compare_same _ l r = fail type_mismatch

  unfoldable pub compare_values : CmpOp → Value F → Value F → Result Failure Bool
  unfolding to_float compare_floats compare_null compare_same
  compare_values op l r =
      if is_null l || is_null r
      then compare_null op (is_null l) (is_null r)
      else elim (to_float l) [
        | none ↦ compare_same op l r
        | some a ↦ elim (to_float r) [
          | none ↦ compare_same op l r
          | some b ↦ ok (compare_floats op a b)
        ]
      ]

  unfoldable pub render_scalar : Value F → Result Failure Bytes
  unfolding format_int
  render_scalar (string_value s) = ok s
  render_scalar (bool_value b) = ok (format_bool b)
  render_scalar (int_value i) = ok (format_int i)
  render_scalar (int64_value i) = ok (format_int i)
  render_scalar (float_value x) = ok (if fl.is_whole x then fl.format_f x else fl.format_g x)
  render_scalar (number_value s) = ok s
  render_scalar _ = err other_failure

  module _ (marshal : Value F → Option Bytes) (scope : Scope F) where
    unfoldable pub check_inline_size : Value F → Result Failure (Unit {0})
    unfolding inline_limit
    check_inline_size (string_value s) = inline_limit (some s)
    check_inline_size (list_value vs) = inline_limit (marshal (list_value vs))
    check_inline_size (map_value es) = inline_limit (marshal (map_value es))
    check_inline_size _ = ok tt

    unfoldable pub resolve_ref_value : List Segment → Result Failure (Value F)
    unfolding check_inline_size
    resolve_ref_value ref = scope ref >>= λ v. check_inline_size v >>= λ _. ok v

    -- evalLogical on its two operands' evaluations.
    unfoldable pub eval_logical :
        Bool → Result Failure (Value F) → Result Failure (Value F) → Result Failure (Value F)
    unfolding require_bool
    eval_logical short left right = left >>= require_bool >>= λ b.
        if bool_eq b short
        then ok (bool_value short)
        else (right >>= require_bool >>= λ b'. ok (bool_value b'))

    unfoldable pub eval_expr : Expr → Result Failure (Value F)
    unfolding resolve_ref_value eval_logical compare_values require_bool
    eval_expr (bool_lit b) = ok (bool_value b)
    eval_expr (string_lit s) = ok (string_value s)
    eval_expr (number_lit n) = elim (fl.parse_float n) [
      | some x ↦ ok (float_value x)
      | none ↦ fail invalid_scalar
    ]
    eval_expr null_lit = ok null_value
    eval_expr (ref_expr ref) = resolve_ref_value ref
    eval_expr (not_expr x) = eval_expr x >>= require_bool >>= λ b. ok (bool_value (not b))
    eval_expr (and_expr l r) = eval_logical false (eval_expr l) (eval_expr r)
    eval_expr (or_expr l r) = eval_logical true (eval_expr l) (eval_expr r)
    eval_expr (cmp_expr op l r) =
        eval_expr l >>= λ a. eval_expr r >>= λ b. compare_values op a b >>= λ c. ok (bool_value c)

    unfoldable pub eval_bool : Expr → Result Failure Bool
    unfolding eval_expr
    eval_bool e = eval_expr e >>= require_bool

-- collectRefs, which appends to `out`.
unfoldable pub collect_refs : Expr → List (List Segment) → List (List Segment)
collect_refs (or_expr l r) out = collect_refs r (collect_refs l out)
collect_refs (and_expr l r) out = collect_refs r (collect_refs l out)
collect_refs (not_expr x) out = collect_refs x out
collect_refs (cmp_expr op l r) out = collect_refs r (collect_refs l out)
collect_refs (ref_expr ref) out = out ++ ref ∷ []
collect_refs _ out = out

unfoldable pub references : Expr → List (List Segment)
unfolding collect_refs
references e = collect_refs e []
