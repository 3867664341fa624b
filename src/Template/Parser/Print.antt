-- ===== src/Template/Parser/Print.antt =====
-- Trees printed as tokens, by the grammar in template/lexer.go, with parentheses where it wants
-- them. A segment's token has the segment's position; the others stand at 0.
use awf.Prelude.{Bytes, codes, Bool, true, false, List, [], ◌∷◌, ◌++◌, ◌≡◌, ltb, ◌^◌, bytes_eq}
use awf.Prelude.Decimal.{itoa}
use awf.Template.Syntax.{
  Token, TokenKind, t_ident, t_number, t_string, t_dot, t_lparen, t_rparen, t_or, t_and, t_not,
  t_eq, t_neq, t_lt, t_le, t_gt, t_ge, Segment, name, index, CmpOp, op_eq, op_neq, op_lt, op_le,
  op_gt, op_ge, Expr, or_expr, and_expr, not_expr, cmp_expr, ref_expr, string_lit, number_lit,
  bool_lit, null_lit,
}

abbrev pub bare : TokenKind → Bytes → Token
bare k text = record { kind = k; text = text; pos = 0 }

abbrev pub op_kind : CmpOp → TokenKind
op_kind op_eq = t_eq
op_kind op_neq = t_neq
op_kind op_lt = t_lt
op_kind op_le = t_le
op_kind op_gt = t_gt
op_kind op_ge = t_ge

abbrev pub segment_token : Segment → Token
segment_token (name s pos) = record { kind = t_ident; text = s; pos = pos }
segment_token (index n pos) = record { kind = t_number; text = itoa n; pos = pos }

-- Further segments, each behind a dot.
unfoldable pub emit_segments : List Segment → List Token
emit_segments [] = []
emit_segments (s ∷ segs) = bare t_dot (codes ".") ∷ segment_token s ∷ emit_segments segs

unfoldable pub emit_ref : List Segment → List Token
unfolding emit_segments
emit_ref [] = []
emit_ref (s ∷ segs) = segment_token s ∷ emit_segments segs

-- The productions of the grammar, loosest first.
pub data Level : Type 0 where
  at_or at_and at_unary at_primary : Level

-- Whether a tree of the first level stands in the second only in parentheses.
abbrev pub looser : Level → Level → Bool
looser at_or at_or = false
looser at_or _ = true
looser at_and at_or = false
looser at_and at_and = false
looser at_and _ = true
looser at_unary at_primary = true
looser _ _ = false

abbrev pub wrap : Bool → List Token → List Token
wrap true ts = bare t_lparen (codes "(") ∷ (ts ++ bare t_rparen (codes ")") ∷ [])
wrap false ts = ts

unfoldable pub emit : Level → Expr → List Token
unfolding emit_ref
emit lv (or_expr l r) =
    wrap (looser at_or lv) (emit at_or l ++ bare t_or (codes "||") ∷ emit at_and r)
emit lv (and_expr l r) =
    wrap (looser at_and lv) (emit at_and l ++ bare t_and (codes "&&") ∷ emit at_unary r)
emit lv (not_expr x) = wrap (looser at_unary lv) (bare t_not (codes "!") ∷ emit at_unary x)
emit lv (cmp_expr op l r) =
    wrap (looser at_unary lv) (emit at_primary l ++ bare (op_kind op) [] ∷ emit at_primary r)
emit lv (ref_expr segs) = emit_ref segs
emit lv (string_lit s) = bare t_string s ∷ []
emit lv (number_lit n) = bare t_number n ∷ []
emit lv (bool_lit true) = bare t_ident (codes "true") ∷ []
emit lv (bool_lit false) = bare t_ident (codes "false") ∷ []
emit lv null_lit = bare t_ident (codes "null") ∷ []

-- What the parser can give: an index fits int64, and a reference starts with a name that is no
-- literal.
abbrev pub IsSegment : Segment → Type 0
IsSegment (name s pos) = Unit
IsSegment (index n pos) = ltb n (2 ^ 63) ≡ true

abbrev pub AreSegments : List Segment → Type 0
AreSegments [] = Unit
AreSegments (s ∷ segs) = IsSegment s × AreSegments segs

abbrev pub IsRef : List Segment → Type 0
IsRef (name s pos ∷ segs) =
    (bytes_eq s (codes "true") ≡ false)
    × (bytes_eq s (codes "false") ≡ false)
    × (bytes_eq s (codes "null") ≡ false)
    × AreSegments segs
IsRef _ = true ≡ false

abbrev pub Printable : Expr → Type 0
Printable (or_expr l r) = Printable l × Printable r
Printable (and_expr l r) = Printable l × Printable r
Printable (not_expr x) = Printable x
Printable (cmp_expr op l r) = Printable l × Printable r
Printable (ref_expr segs) = IsRef segs
Printable _ = Unit
