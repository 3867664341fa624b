-- ===== src/Template/Lexer.antt =====
-- template/lexer.go. `rest` is src[i:], and `pos` is i.
pub mod Total
use awf.Prelude.{
  ℕ, zero, suc, ◌+◌, Bytes, codes, Bool, true, false, not, ◌&&◌, ◌||◌, List, [], ◌∷◌, ◌++◌, length,
  leb, ◌==◌, if◌then◌else◌, Result, ok, err, ◌>>=◌,
}
use awf.Template.Syntax.{
  Token, TokenKind, t_eof, t_ident, t_number, t_string, t_dot, t_lparen, t_rparen, t_or, t_and,
  t_not, t_eq, t_neq, t_lt, t_le, t_gt, t_ge, SyntaxError, syntax_error, out_of_fuel,
}

unfoldable pub is_digit : ℕ → Bool
is_digit c = leb b'0' c && leb c b'9'

unfoldable pub is_ident_start : ℕ → Bool
is_ident_start c = (leb b'A' c && leb c b'Z') || (leb b'a' c && leb c b'z') || c == b'_'

unfoldable pub is_ident_cont : ℕ → Bool
unfolding is_digit is_ident_start
is_ident_cont c = is_ident_start c || is_digit c || c == b'-'

-- unicode.IsSpace on one byte taken for a rune.
unfoldable pub is_space : ℕ → Bool
is_space c = (leb 9 c && leb c 13) || c == 32 || c == 133 || c == 160

-- i < len(src) && src[i] == b
unfoldable pub next_is : ℕ → Bytes → Bool
next_is b [] = false
next_is b (c ∷ cs) = c == b

unfoldable pub next_is_digit : Bytes → Bool
unfolding is_digit
next_is_digit [] = false
next_is_digit (c ∷ cs) = is_digit c

-- The bytes of `rest` that satisfy `test`, and what is behind them.
unfoldable pub span : (ℕ → Bool) → Bytes → Bytes × Bytes
span test [] = ([], [])
span test (c ∷ cs) =
    let (taken, left) = span test cs in if test c then (c ∷ taken, left) else ([], c ∷ cs)

-- The decimals of a number: a dot counts only where a digit follows.
unfoldable pub fraction : Bytes → Bytes × Bytes
unfolding span is_digit next_is_digit
fraction [] = ([], [])
fraction (c ∷ cs) =
    let (taken, left) = span is_digit cs in
    if c == b'.' && next_is_digit cs then (c ∷ taken, left) else ([], c ∷ cs)

-- lexNumber behind the optional sign.
unfoldable pub lex_number : Bytes → Bytes × Bytes
unfolding fraction
lex_number rest =
    let (whole, left) = span is_digit rest in
    let (decimals, left') = fraction left in (whole ++ decimals, left')

-- lexString behind the opening quote: the content, the bytes used with the closing quote, and
-- what is left.
unfoldable pub lex_string : ℕ → Bytes → Bytes → ℕ → Result SyntaxError (Bytes × ℕ × Bytes)
lex_string start [] content used = err (syntax_error start)
lex_string start (c ∷ []) content used =
    if c == b'"' then ok (content, used + 1, []) else err (syntax_error start)
lex_string start (c ∷ d ∷ cs) content used =
    let escaped = lex_string start cs (content ++ d ∷ []) (used + 2) in
    let plain = lex_string start (d ∷ cs) (content ++ c ∷ []) (used + 1) in
    if c == b'"' then ok (content, used + 1, d ∷ cs) else if c == b'\\' then escaped else plain

-- One token of `used` bytes, and what is left.
abbrev token : TokenKind → Bytes → ℕ → ℕ → Bytes → Result SyntaxError (Token × ℕ × Bytes)
token k text pos used rest = ok (record { kind = k; text = text; pos = pos }, used, rest)

-- A token of one byte, or of two where the second is `=`.
abbrev or_equal :
    TokenKind → Bytes → TokenKind → Bytes → ℕ → Bytes → Result SyntaxError (Token × ℕ × Bytes)
or_equal long long_text short short_text pos [] = token short short_text pos 1 []
or_equal long long_text short short_text pos (c ∷ cs) =
    if c == b'=' then token long long_text pos 2 cs else token short short_text pos 1 (c ∷ cs)

-- Behind the first byte of a pair that has to be there.
pair : ℕ → TokenKind → Bytes → ℕ → Bytes → Result SyntaxError (Token × ℕ × Bytes)
pair b k text pos [] = err (syntax_error pos)
pair b k text pos (c ∷ cs) = if c == b then token k text pos 2 cs else err (syntax_error pos)

string_token : ℕ → Bytes → Result SyntaxError (Token × ℕ × Bytes)
string_token pos rest = do
  (content, used, left) ← lex_string pos rest [] 1
  token t_string content pos used left

number_token : Bytes → ℕ → Bytes → Result SyntaxError (Token × ℕ × Bytes)
number_token sign pos rest =
    let (number, left) = lex_number rest in
    token t_number (sign ++ number) pos (length (sign ++ number)) left

ident_token : ℕ → Bytes → Result SyntaxError (Token × ℕ × Bytes)
ident_token pos rest =
    let (name, left) = span is_ident_cont rest in token t_ident name pos (length name) left

-- The switch on the byte `c` at `pos`, with `rest` behind it.
unfoldable pub lex_token : ℕ → ℕ → Bytes → Result SyntaxError (Token × ℕ × Bytes)
unfolding pair string_token number_token ident_token
lex_token pos c rest =
    if c == b'('
    then token t_lparen (codes "(") pos 1 rest
    else if c == b')'
    then token t_rparen (codes ")") pos 1 rest
    else if c == b'.'
    then token t_dot (codes ".") pos 1 rest
    else if c == b'|' && next_is b'|' rest
    then pair b'|' t_or (codes "||") pos rest
    else if c == b'&' && next_is b'&' rest
    then pair b'&' t_and (codes "&&") pos rest
    else if c == b'!'
    then or_equal t_neq (codes "!=") t_not (codes "!") pos rest
    else if c == b'='
    then pair b'=' t_eq (codes "==") pos rest
    else if c == b'<'
    then or_equal t_le (codes "<=") t_lt (codes "<") pos rest
    else if c == b'>'
    then or_equal t_ge (codes ">=") t_gt (codes ">") pos rest
    else if c == b'"'
    then string_token pos rest
    else if c == b'-'
    then (if next_is_digit rest then number_token (codes "-") pos rest else err (syntax_error pos))
    else if is_digit c
    then number_token [] pos (c ∷ rest)
    else if is_ident_start c
    then ident_token pos (c ∷ rest)
    else err (syntax_error pos)

-- The loop of Lex.
unfoldable pub lex_loop : ℕ → ℕ → Bytes → Result SyntaxError (List Token)
lex_loop zero pos rest = err out_of_fuel
lex_loop (suc fuel) pos [] = ok (record { kind = t_eof; text = []; pos = pos } ∷ [])
lex_loop (suc fuel) pos (c ∷ rest) =
    let skipped = lex_loop fuel (pos + 1) rest in
    let lexed =
      (lex_token pos c rest >>= λ (t, used, left).
      lex_loop fuel (pos + used) left >>= λ ts. ok (t ∷ ts)) in
    if is_space c then skipped else lexed

-- Each round uses a byte or more, so a round for each byte and one more suffice.
unfoldable pub lex : Bytes → Result SyntaxError (List Token)
lex src = lex_loop (suc (length src)) 0 src
