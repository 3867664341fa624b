-- ===== src/Template/Lexer/Total.antt =====
-- The lexer (template/lexer.go) on any source: its fuel, and the EOF at the end of its tokens.
use awf.Prelude.{
  ℕ, zero, suc, ◌+◌, ◌≡◌, ◌≤◌, ◌<◌, refl, Bytes, codes, Bool, true, false, ◌&&◌, List, [], ◌∷◌,
  ◌++◌, length, ◌==◌, if◌then◌else◌, Result, ok, err, ◌>>=◌, arith, Bool-cases, inl, inr,
}
use awf.Template.Syntax.{
  Token, TokenKind, t_string, t_or, t_and, t_not, t_eq, t_neq, t_lt, t_le, t_gt, t_ge, SyntaxError,
  syntax_error,
}
use awf.Template.Lexer.{
  is_digit, is_ident_start, is_ident_cont, is_space, next_is, next_is_digit, span, fraction,
  lex_number, lex_string, token, or_equal, pair, string_token, number_token, ident_token, lex_token,
  lex_loop, lex,
}
use awf.Template.Kinds.{is_eof}

-- The last token is EOF.
abbrev pub ends_eof : List Token → Bool
ends_eof [] = false
ends_eof (t ∷ []) = is_eof t.kind
ends_eof (t ∷ u ∷ ts) = ends_eof (u ∷ ts)

-- An error of the source, not of the model.
abbrev pub IsSyntaxError : SyntaxError → Type 0
IsSyntaxError (syntax_error pos) = Unit
IsSyntaxError _ = true ≡ false

pub ends_eof-tail :
    (t : Token) (ts : List Token)
    → ends_eof (t ∷ ts) ≡ true
    → is_eof t.kind ≡ false
    → ends_eof ts ≡ true
ends_eof-tail t [] h k = absurd (cc (h, k))
ends_eof-tail t (u ∷ ts) h k = h

-- A token that is not EOF, and at most `n` bytes left.
abbrev Lexed : ℕ → Result SyntaxError (Token × ℕ × Bytes) → Type 0
Lexed n (ok (t, used, left)) = (length left ≤ n) × (is_eof t.kind ≡ false)
Lexed n (err e) = IsSyntaxError e

if-Lexed :
    (n : ℕ) (b : Bool) (x y : Result SyntaxError (Token × ℕ × Bytes))
    → (b ≡ true → Lexed n x)
    → (b ≡ false → Lexed n y)
    → Lexed n (if b then x else y)
if-Lexed n true x y h k = h refl
if-Lexed n false x y h k = k refl

length-span : (test : ℕ → Bool) (rest : Bytes) → length (span test rest).1 ≤ length rest
unfolding span
length-span test [] = omega arith
length-span test (c ∷ cs) = ground (arith, length-span test cs)

length-span_cons :
    (test : ℕ → Bool) (c : ℕ) (cs : Bytes)
    → test c ≡ true
    → length (span test (c ∷ cs)).1 ≤ length cs
unfolding span
length-span_cons test c cs h = ground (arith, h, length-span test cs)

length-fraction : (rest : Bytes) → length (fraction rest).1 ≤ length rest
unfolding fraction
length-fraction [] = omega arith
length-fraction (c ∷ cs) = ground (arith, length-span is_digit cs)

length-lex_number : (rest : Bytes) → length (lex_number rest).1 ≤ length (span is_digit rest).1
unfolding lex_number
length-lex_number rest = length-fraction (span is_digit rest).1

number_token-Lexed :
    (sign : Bytes) (pos n : ℕ) (rest : Bytes)
    → length (span is_digit rest).1 ≤ n
    → Lexed n (number_token sign pos rest)
unfolding number_token
number_token-Lexed sign pos n rest h = (omega (arith, h, length-lex_number rest), refl)

ident_token-Lexed :
    (pos c : ℕ) (cs : Bytes)
    → is_ident_start c ≡ true
    → Lexed (length cs) (ident_token pos (c ∷ cs))
unfolding ident_token is_ident_cont
ident_token-Lexed pos c cs h = (length-span_cons is_ident_cont c cs (ground (arith, h)), refl)

or_equal-Lexed :
    (long : TokenKind) (lt : Bytes) (short : TokenKind) (st : Bytes) (pos : ℕ) (rest : Bytes)
    → is_eof long ≡ false
    → is_eof short ≡ false
    → Lexed (length rest) (or_equal long lt short st pos rest)
or_equal-Lexed long lt short st pos [] h k = (omega arith, k)
or_equal-Lexed long lt short st pos (c ∷ cs) h k =
    if-Lexed (length (c ∷ cs)) (c == b'=') _ _ (λ _. (omega arith, h)) (λ _. (omega arith, k))

pair-Lexed :
    (b : ℕ) (k : TokenKind) (text : Bytes) (pos : ℕ) (rest : Bytes)
    → is_eof k ≡ false
    → Lexed (length rest) (pair b k text pos rest)
unfolding pair
pair-Lexed b k text pos [] h = tt
pair-Lexed b k text pos (c ∷ cs) h =
    if-Lexed (length (c ∷ cs)) (c == b) _ _ (λ _. (omega arith, h)) (λ _. tt)

abbrev Read : ℕ → Result SyntaxError (Bytes × ℕ × Bytes) → Type 0
Read n (ok (content, used, left)) = length left ≤ n
Read n (err e) = IsSyntaxError e

if-Read :
    (n : ℕ) (b : Bool) (x y : Result SyntaxError (Bytes × ℕ × Bytes))
    → Read n x
    → Read n y
    → Read n (if b then x else y)
if-Read n true x y h k = h
if-Read n false x y h k = k

Read-le : (m n : ℕ) (r : Result SyntaxError (Bytes × ℕ × Bytes)) → m ≤ n → Read m r → Read n r
Read-le m n (ok a) h k = omega (arith, h, k)
Read-le m n (err e) h k = k

lex_string-Read :
    (start : ℕ) (rest content : Bytes) (used : ℕ)
    → Read (length rest) (lex_string start rest content used)
unfolding lex_string
lex_string-Read start [] content used = tt
lex_string-Read start (c ∷ []) content used = if-Read 1 (c == b'"') _ _ (omega arith) tt
lex_string-Read start (c ∷ d ∷ cs) content used =
    let n = length (c ∷ d ∷ cs) in
    if-Read n (c == b'"') _ _ (omega arith) (
      if-Read n (c == b'\\') _ _
        (Read-le (length cs) n (lex_string start cs (content ++ d ∷ []) (used + 2)) (omega arith)
          (lex_string-Read start cs (content ++ d ∷ []) (used + 2)))
        (Read-le (length (d ∷ cs)) n (lex_string start (d ∷ cs) (content ++ c ∷ []) (used + 1))
          (omega arith) (lex_string-Read start (d ∷ cs) (content ++ c ∷ []) (used + 1))))

Read→Lexed :
    (n pos : ℕ) (r : Result SyntaxError (Bytes × ℕ × Bytes))
    → Read n r
    → Lexed n (r >>= λ (content, used, left). token t_string content pos used left)
Read→Lexed n pos (ok (content, used, left)) h = (h, refl)
Read→Lexed n pos (err e) h = h

string_token-Lexed : (pos : ℕ) (rest : Bytes) → Lexed (length rest) (string_token pos rest)
unfolding string_token
string_token-Lexed pos rest =
    Read→Lexed (length rest) pos (lex_string pos rest [] 1) (lex_string-Read pos rest [] 1)

lex_token-Lexed : (pos c : ℕ) (rest : Bytes) → Lexed (length rest) (lex_token pos c rest)
unfolding lex_token
lex_token-Lexed pos c rest =
    let n = length rest in
    if-Lexed n (c == b'(') _ _ (λ _. (omega arith, refl))
      λ _.
        if-Lexed n (c == b')') _ _ (λ _. (omega arith, refl))
          λ _.
            if-Lexed n (c == b'.') _ _ (λ _. (omega arith, refl))
              λ _.
                if-Lexed n (c == b'|' && next_is b'|' rest) _ _
                  (λ _. pair-Lexed b'|' t_or (codes "||") pos rest refl)
                  λ _.
                    if-Lexed n (c == b'&' && next_is b'&' rest) _ _
                      (λ _. pair-Lexed b'&' t_and (codes "&&") pos rest refl)
                      λ _.
                        if-Lexed n (c == b'!') _ _
                          (λ _.
                            or_equal-Lexed t_neq (codes "!=") t_not (codes "!") pos rest refl refl)
                          λ _.
                            if-Lexed n (c == b'=') _ _
                              (λ _. pair-Lexed b'=' t_eq (codes "==") pos rest refl)
                              λ _.
                                if-Lexed n (c == b'<') _ _
                                  (λ _.
                                    or_equal-Lexed t_le (codes "<=") t_lt (codes "<") pos rest refl
                                      refl)
                                  λ _.
                                    if-Lexed n (c == b'>') _ _
                                      (λ _.
                                        or_equal-Lexed t_ge (codes ">=") t_gt (codes ">") pos rest
                                          refl refl)
                                      λ _.
                                        if-Lexed n (c == b'"') _ _
                                          (λ _. string_token-Lexed pos rest)
                                          λ _.
                                            if-Lexed n (c == b'-') _ _
                                              (λ _.
                                                if-Lexed n (next_is_digit rest) _ _
                                                  (λ _.
                                                    number_token-Lexed (codes "-") pos n rest
                                                      (length-span is_digit rest))
                                                  (λ _. tt))
                                              λ _.
                                                if-Lexed n (is_digit c) _ _
                                                  (λ d.
                                                    number_token-Lexed [] pos n (c ∷ rest)
                                                      (length-span_cons is_digit c rest d))
                                                  λ _.
                                                    if-Lexed n (is_ident_start c) _ _
                                                      (λ s. ident_token-Lexed pos c rest s)
                                                      (λ _. tt)

-- Tokens that end with EOF, or an error of the source.
abbrev pub Ended : Result SyntaxError (List Token) → Type 0
Ended (ok ts) = ends_eof ts ≡ true
Ended (err e) = IsSyntaxError e

ends_eof-cons : (t : Token) (ts : List Token) → ends_eof ts ≡ true → ends_eof (t ∷ ts) ≡ true
ends_eof-cons t [] h = cc h
ends_eof-cons t (u ∷ ts) h = h

Ended-cons :
    (t : Token) (r : Result SyntaxError (List Token)) → Ended r → Ended (r >>= λ ts. ok (t ∷ ts))
Ended-cons t (ok ts) h = ends_eof-cons t ts h
Ended-cons t (err e) h = h

Lexed-bind :
    (n : ℕ) (r : Result SyntaxError (Token × ℕ × Bytes))
    (f : Token × ℕ × Bytes → Result SyntaxError (List Token))
    → Lexed n r
    → ((t : Token) (used : ℕ) (left : Bytes) → length left ≤ n → Ended (f (t, used, left)))
    → Ended (r >>= f)
Lexed-bind n (ok (t, used, left)) f h k = k t used left h.0
Lexed-bind n (err e) f h k = h

lex_loop-Ended : (fuel pos : ℕ) (rest : Bytes) → length rest < fuel → Ended (lex_loop fuel pos rest)
unfolding lex_loop
lex_loop-Ended zero pos rest h = absurd (omega (arith, h))
lex_loop-Ended (suc fuel) pos [] h = refl
lex_loop-Ended (suc fuel) pos (c ∷ rest) h = elim (Bool-cases (is_space c)) [
  | inl skipped ↦ rw skipped (lex_loop-Ended fuel (pos + 1) rest (omega (arith, h)))
  | inr lexed ↦ rw lexed (
      Lexed-bind (length rest) (lex_token pos c rest) _ (lex_token-Lexed pos c rest)
        (λ t used left few.
          Ended-cons t (lex_loop fuel (pos + used) left)
            (lex_loop-Ended fuel (pos + used) left (omega (arith, h, few)))))
]

-- Lexing any source gives tokens that end with EOF, or an error of the source.
pub lex-Ended : (src : Bytes) → Ended (lex src)
unfolding lex
lex-Ended src = lex_loop-Ended (suc (length src)) 0 src (omega arith)
