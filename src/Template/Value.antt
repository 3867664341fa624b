-- ===== src/Template/Value.antt =====
-- The values and the errors of evaluation (template/eval.go, Scope and EvalError).
use awf.Prelude.{ℕ, Bytes, Bool, true, false, List, [], ◌∷◌, Option, Result, suc}
use awf.Prelude.Decimal.{itoa}
use awf.Prelude.Int.{ℤ, pos, negsuc}
use awf.Template.Syntax.{Segment, SyntaxError}

-- Go's float64, and what strconv and encoding/json do with it.
pub record Floats (F : Type 0) : Type 0 where
  pub float_eq : F → F → Bool
  pub float_lt : F → F → Bool
  pub float_le : F → F → Bool
  pub of_int : ℤ → F
  -- json.Number.Float64
  pub parse_float : Bytes → Option F
  -- x == math.Trunc(x), neither infinite nor NaN
  pub is_whole : F → Bool
  -- strconv.FormatFloat(x, 'f', -1, 64) and with 'g'
  pub format_f : F → Bytes
  pub format_g : F → Bytes

-- The dynamic types that a scope returns. A map is its entries.
mutual
  pub data Value (F : Type 0) : Type 0 where
    null_value : Value F
    bool_value : Bool → Value F
    string_value : Bytes → Value F
    float_value : F → Value F
    int_value : ℤ → Value F
    int64_value : ℤ → Value F
    number_value : Bytes → Value F
    list_value : Values F → Value F
    map_value : Entries F → Value F
    -- any other type
    opaque_value : ℕ → Value F

  pub data Values (F : Type 0) : Type 0 where
    no_values : Values F
    value_cons : Value F → Values F → Values F

  pub data Entries (F : Type 0) : Type 0 where
    no_entries : Entries F
    entry_cons : Bytes → Value F → Entries F → Entries F

pub data EvalCode : Type 0 where
  oversize ref_unresolved type_mismatch invalid_scalar syntax_code ref_absent deferred : EvalCode

-- An error: an *EvalError with the host offset that its message names, a *SyntaxError, or any
-- other. `slice_panic` is a slice expression out of its bounds.
pub data Failure : Type 0 where
  eval_error : EvalCode → Option ℕ → Failure
  syntax_failure : SyntaxError → Failure
  other_failure slice_panic : Failure

-- Scope.Resolve
abbrev pub Scope : Type 0 → Type 0
Scope F = List Segment → Result Failure (Value F)

-- strconv.FormatInt(i, 10)
unfoldable pub format_int : ℤ → Bytes
format_int (pos n) = itoa n
format_int (negsuc n) = b'-' ∷ itoa (suc n)

abbrev pub format_bool : Bool → Bytes
format_bool true = b't' ∷ b'r' ∷ b'u' ∷ b'e' ∷ []
format_bool false = b'f' ∷ b'a' ∷ b'l' ∷ b's' ∷ b'e' ∷ []
