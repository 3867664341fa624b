-- ===== src/Template/Kinds.antt =====
-- Tests on the kind of a token (template/parser.go), and the operators of comparisons.
use awf.Prelude.{Bool, true, false, Option, none, some}
use awf.Template.Syntax.{
  TokenKind, t_dot, t_rparen, t_or, t_and, t_not, t_eof, t_eq, t_neq, t_lt, t_le, t_gt, t_ge, CmpOp,
  op_eq, op_neq, op_lt, op_le, op_gt, op_ge,
}

unfoldable pub cmp_op : TokenKind → Option CmpOp
cmp_op t_eq = some op_eq
cmp_op t_neq = some op_neq
cmp_op t_lt = some op_lt
cmp_op t_le = some op_le
cmp_op t_gt = some op_gt
cmp_op t_ge = some op_ge
cmp_op _ = none

abbrev pub is_or : TokenKind → Bool
is_or t_or = true
is_or _ = false

abbrev pub is_and : TokenKind → Bool
is_and t_and = true
is_and _ = false

abbrev pub is_not : TokenKind → Bool
is_not t_not = true
is_not _ = false

abbrev pub is_dot : TokenKind → Bool
is_dot t_dot = true
is_dot _ = false

abbrev pub is_rparen : TokenKind → Bool
is_rparen t_rparen = true
is_rparen _ = false

abbrev pub is_eof : TokenKind → Bool
is_eof t_eof = true
is_eof _ = false
