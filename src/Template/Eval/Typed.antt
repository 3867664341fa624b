-- ===== src/Template/Eval/Typed.antt =====
-- A typing of expressions, for template/eval.go.
use awf.Prelude.{
  ◌≡◌, refl, Bytes, Bool, true, false, not, ◌&&◌, ◌||◌, List, Option, some, Result, ok, inl, inr,
  Bool-cases,
}
use awf.Template.Eval.{
  require_bool, is_null, same_kind, equal_value, to_float, compare_floats, compare_null,
  compare_same, compare_values, check_inline_size, resolve_ref_value, eval_logical, eval_expr,
  eval_bool, bool_eq,
}
use awf.Template.Syntax.{
  Segment, CmpOp, op_eq, op_neq, Expr, or_expr, and_expr, not_expr, cmp_expr, ref_expr, string_lit,
  number_lit, bool_lit, null_lit,
}
use awf.Template.Value.{
  Floats, Value, null_value, bool_value, string_value, float_value, Failure, Scope,
}

pub data Ty : Type 0 where
  bool_type string_type number_type null_type : Ty

abbrev is_equality : CmpOp → Bool
is_equality op_eq = true
is_equality op_neq = true
is_equality _ = false

-- The types that an operator compares: two numbers; and by == and != two of one type, or any with
-- null.
abbrev pub comparable : CmpOp → Ty → Ty → Bool
comparable op number_type number_type = true
comparable op bool_type bool_type = is_equality op
comparable op string_type string_type = is_equality op
comparable op null_type b = is_equality op
comparable op a null_type = is_equality op
comparable op _ _ = false

module _ {F : Type 0} (fl : Floats F) (refs : List Segment → Option Ty) where
  pub data HasType : Expr → Ty → Type 0 where
    or_typed :
        {l r : Expr} → HasType l bool_type → HasType r bool_type → HasType (or_expr l r) bool_type
    and_typed :
        {l r : Expr} → HasType l bool_type → HasType r bool_type → HasType (and_expr l r) bool_type
    not_typed : {x : Expr} → HasType x bool_type → HasType (not_expr x) bool_type
    cmp_typed :
        {op : CmpOp} {l r : Expr} {a b : Ty}
        → HasType l a
        → HasType r b
        → comparable op a b ≡ true
        → HasType (cmp_expr op l r) bool_type
    ref_typed : {ref : List Segment} {a : Ty} → refs ref ≡ some a → HasType (ref_expr ref) a
    string_typed : {s : Bytes} → HasType (string_lit s) string_type
    number_typed :
        {n : Bytes} {x : F} → fl.parse_float n ≡ some x → HasType (number_lit n) number_type
    bool_typed : {b : Bool} → HasType (bool_lit b) bool_type
    null_typed : HasType null_lit null_type

module _ {F : Type 0} (fl : Floats F) where
  -- A value of a type; a json.Number counts where it parses.
  abbrev pub Is : Ty → Value F → Type 0
  Is bool_type v = (b : Bool) × (v ≡ bool_value b)
  Is string_type v = (s : Bytes) × (v ≡ string_value s)
  Is number_type v = (x : F) × (to_float fl v ≡ some x)
  Is null_type v = v ≡ null_value

  is_null-number : (v : Value F) (x : F) → to_float fl v ≡ some x → is_null v ≡ false
  unfolding to_float
  is_null-number null_value x h = cc h
  is_null-number _ x h = refl

  compare_null-total :
      (op : CmpOp) (a b : Bool)
      → is_equality op ≡ true
      → (c : Bool) × (compare_null fl op a b ≡ ok c)
  unfolding compare_null
  compare_null-total op_eq a b h = (a && b, refl)
  compare_null-total op_neq a b h = (not a || not b, refl)
  compare_null-total _ a b h = absurd (cc h)

  compare_same-total :
      (op : CmpOp) (v w : Value F)
      → same_kind v w ≡ true
      → is_equality op ≡ true
      → (c : Bool) × (compare_same fl op v w ≡ ok c)
  unfolding compare_same
  compare_same-total op_eq v w same h = (equal_value v w, rw same)
  compare_same-total op_neq v w same h = (not (equal_value v w), rw same)
  compare_same-total _ v w same h = absurd (cc h)

  with_null :
      (op : CmpOp) (v w : Value F)
      → (is_null v || is_null w) ≡ true
      → is_equality op ≡ true
      → (c : Bool) × (compare_values fl op v w ≡ ok c)
  unfolding compare_values
  with_null op v w null h =
      let (c, same) = compare_null-total op (is_null v) (is_null w) h in (c, rw null same)

  numbers :
      (op : CmpOp) (v w : Value F) (x y : F)
      → to_float fl v ≡ some x
      → to_float fl w ≡ some y
      → compare_values fl op v w ≡ ok (compare_floats fl op x y)
  unfolding compare_values
  numbers op v w x y h k = rw (is_null-number v x h, is_null-number w y k, h, k)

  or-true : (b : Bool) → (b || true) ≡ true
  or-true true = refl
  or-true false = refl

  bools :
      (op : CmpOp) (a b : Bool)
      → is_equality op ≡ true
      → (c : Bool) × (compare_values fl op (bool_value a) (bool_value b) ≡ ok c)
  unfolding compare_values
  bools op a b h = compare_same-total op (bool_value a) (bool_value b) refl h

  strings :
      (op : CmpOp) (a b : Bytes)
      → is_equality op ≡ true
      → (c : Bool) × (compare_values fl op (string_value a) (string_value b) ≡ ok c)
  unfolding compare_values
  strings op a b h = compare_same-total op (string_value a) (string_value b) refl h

  compared :
      (op : CmpOp) (a b : Ty) (v w : Value F)
      → Is a v
      → Is b w
      → comparable op a b ≡ true
      → (c : Bool) × (compare_values fl op v w ≡ ok c)
  compared op number_type number_type v w h k t =
      (compare_floats fl op h.0 k.0, numbers op v w h.0 k.0 h.1 k.1)
  compared op bool_type bool_type v w h k t = rw (h.1, k.1) (bools op h.0 k.0 t)
  compared op string_type string_type v w h k t = rw (h.1, k.1) (strings op h.0 k.0 t)
  compared op null_type b v w h k t = with_null op v w (rw h) t
  compared op bool_type null_type v w h k t = with_null op v w (rw k (or-true (is_null v))) t
  compared op string_type null_type v w h k t = with_null op v w (rw k (or-true (is_null v))) t
  compared op number_type null_type v w h k t = with_null op v w (rw k (or-true (is_null v))) t
  compared op a b v w h k t = absurd (cc t)

-- The scope resolves each reference of a type to a value of that type within the size limit.
abbrev pub Resolves :
    {F : Type 0}
    → Floats F
    → (Value F → Option Bytes)
    → Scope F
    → (List Segment → Option Ty)
    → Type 0
Resolves {F} fl marshal scope refs =
    (ref : List Segment) (a : Ty)
    → refs ref ≡ some a
    → (v : Value F) × (scope ref ≡ ok v)
      × Is fl a v
      × (check_inline_size fl marshal scope v ≡ ok tt)

module _ {F : Type 0} (fl : Floats F) (marshal : Value F → Option Bytes) (scope : Scope F)
    (refs : List Segment → Option Ty) (resolves : Resolves fl marshal scope refs) where
  abbrev Gives : Expr → Ty → Type 0
  Gives e a = (v : Value F) × (eval_expr fl marshal scope e ≡ ok v) × Is fl a v

  logical :
      (short : Bool) (left right : Result Failure (Value F)) (a b : Bool)
      → left ≡ ok (bool_value a)
      → right ≡ ok (bool_value b)
      → (c : Bool) × (eval_logical fl marshal scope short left right ≡ ok (bool_value c))
  unfolding eval_logical require_bool
  logical short left right a b h k = elim (Bool-cases (bool_eq a short)) [
    | inl stop ↦ (short, rw (h, stop))
    | inr more ↦ (b, rw (h, more, k))
  ]

  resolved :
      (ref : List Segment) (v : Value F)
      → scope ref ≡ ok v
      → check_inline_size fl marshal scope v ≡ ok tt
      → resolve_ref_value fl marshal scope ref ≡ ok v
  unfolding resolve_ref_value
  resolved ref v found small = rw found (rw small)

  evaluates : (e : Expr) (a : Ty) → HasType fl refs e a → Gives e a
  unfolding eval_expr resolve_ref_value require_bool to_float
  evaluates _ _ (or_typed left right) =
      let (v, lv, (p, vp)) = evaluates _ _ left in
      let (w, rv, (q, wq)) = evaluates _ _ right in
      let (c, done) = logical true _ _ p q (rw lv (rw vp)) (rw rv (rw wq)) in
      (bool_value c, done, (c, refl))
  evaluates _ _ (and_typed left right) =
      let (v, lv, (p, vp)) = evaluates _ _ left in
      let (w, rv, (q, wq)) = evaluates _ _ right in
      let (c, done) = logical false _ _ p q (rw lv (rw vp)) (rw rv (rw wq)) in
      (bool_value c, done, (c, refl))
  evaluates _ _ (not_typed operand) =
      let (v, xv, (p, vp)) = evaluates _ _ operand in
      (bool_value (not p), rw xv (rw vp), (not p, refl))
  evaluates _ _ (cmp_typed {op} {l} {r} {a} {b} left right fits) =
      let (v, lv, va) = evaluates _ _ left in
      let (w, rv, wb) = evaluates _ _ right in
      let (c, done) = compared fl op a b v w va wb fits in
      (bool_value c, rw (lv, rv, done), (c, refl))
  evaluates _ _ (ref_typed {ref} {a} known) =
      let (v, found, is, small) = resolves ref a known in (v, resolved ref v found small, is)
  evaluates _ _ (string_typed {s}) = (string_value s, refl, (s, refl))
  evaluates _ _ (number_typed {n} {x} parsed) = (float_value x, rw (parsed, eval_expr), (x, refl))
  evaluates _ _ (bool_typed {b}) = (bool_value b, refl, (b, refl))
  evaluates _ _ null_typed = (null_value, refl, refl)

  -- An expression that has the type bool evaluates to a bool, with no error, where each typed
  -- reference resolves to a small enough value of its type; comparisons are typed with null of
  -- any type, and a number literal by its parse.
  pub eval_bool-HasType :
      (e : Expr) → HasType fl refs e bool_type → (b : Bool) × (eval_bool fl marshal scope e ≡ ok b)
  unfolding eval_bool require_bool
  eval_bool-HasType e h = let (v, found, (b, is)) = evaluates e bool_type h in (b, rw (found, is))
