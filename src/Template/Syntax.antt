-- ===== src/Template/Syntax.antt =====
-- Tokens (template/lexer.go) and trees (template/ast.go).
use awf.Prelude.{ℕ, Bytes, Bool, List}

pub data TokenKind : Type 0 where
  t_eof t_ident t_number t_string t_dot t_lparen t_rparen t_or t_and t_not : TokenKind
  t_eq t_neq t_lt t_le t_gt t_ge : TokenKind

pub record Token : Type 0 where
  pub kind : TokenKind
  pub text : Bytes
  pub pos : ℕ

-- A segment is an identifier or an index, with the position of its token.
pub data Segment : Type 0 where
  name : Bytes → ℕ → Segment
  index : ℕ → ℕ → Segment

pub data CmpOp : Type 0 where
  op_eq op_neq op_lt op_le op_gt op_ge : CmpOp

-- `ref_expr` holds a Ref, which is its segments; a number keeps its raw text.
pub data Expr : Type 0 where
  or_expr and_expr : Expr → Expr → Expr
  not_expr : Expr → Expr
  cmp_expr : CmpOp → Expr → Expr → Expr
  ref_expr : List Segment → Expr
  string_lit number_lit : Bytes → Expr
  bool_lit : Bool → Expr
  null_lit : Expr

-- A *SyntaxError has a position; `panicked` is an index out of the tokens, and `out_of_fuel` is
-- no behaviour of the source.
pub data SyntaxError : Type 0 where
  syntax_error : ℕ → SyntaxError
  panicked out_of_fuel : SyntaxError
