-- ===== src/Template/Parser/RoundTrip/Refs.antt =====
-- parseRef (template/parser.go) on a printed reference.
use awf.Prelude.{
  ℕ, zero, suc, ◌+◌, ◌%◌, ◌/◌, ◌^◌, ◌≡◌, refl, ◌∙◌, Bytes, true, false, List, [], ◌∷◌, ◌++◌, some,
  append_assoc, append-nil, ltb, ◌==◌, ok, arith, All,
}
use awf.Prelude.Decimal
use awf.Prelude.Decimal.{itoa, digits, value, value-itoa, itoa-is_digit}
use awf.Template.Kinds.{is_dot}
use awf.Template.Parser.{
  all_digits, no_bytes, digits_index, parse_index, ref_loop, ref_segment, parse_ref_tokens,
  parse_ident,
}
use awf.Template.Parser.Print.{segment_token, emit_segments, AreSegments, IsRef}
use awf.Template.Syntax.{Token, t_number, Segment, name, index, ref_expr}

abbrev AreDigits : Bytes → Type 0
AreDigits cs = All (λ c. Decimal.is_digit c ≡ true) cs

all_digits-All : (cs : Bytes) → AreDigits cs → all_digits cs ≡ true
unfolding all_digits
all_digits-All [] h = refl
all_digits-All (c ∷ cs) h = rw (h.0, all_digits-All cs h.1)

no_bytes-digits : (fuel n c : ℕ) (cs : Bytes) → no_bytes (digits fuel n (c ∷ cs)) ≡ false
unfolding digits
no_bytes-digits zero n c cs = refl
no_bytes-digits (suc fuel) n c cs =
    ground (arith, no_bytes-digits fuel (n / 10) (b'0' + n % 10) (c ∷ cs))

no_bytes-itoa : (n : ℕ) → no_bytes (itoa n) ≡ false
unfolding itoa digits
no_bytes-itoa n = ground (arith, no_bytes-digits n (n / 10) (b'0' + n % 10) [])

-- Digits have no sign.
parse_index-digits :
    (cs : Bytes) → AreDigits cs → no_bytes cs ≡ false → parse_index cs ≡ digits_index cs
unfolding parse_index
parse_index-digits [] h some_byte = absurd (cc some_byte)
parse_index-digits (c ∷ cs) h some_byte =
    let unsigned : (c == b'-') ≡ false = ground (arith, h.0) in rw unsigned

parse_index-itoa : (n : ℕ) → ltb n (2 ^ 63) ≡ true → parse_index (itoa n) ≡ some n
unfolding digits_index
parse_index-itoa n h =
    let ds = itoa-is_digit n in
    parse_index-digits (itoa n) ds (no_bytes-itoa n)
    ∙ rw (all_digits-All (itoa n) ds, no_bytes-itoa n, value-itoa n, h)

ref_segment_index :
    (segs : List Segment) (t : Token) (ts : List Token) (n : ℕ)
    → t.kind ≡ t_number
    → parse_index t.text ≡ some n
    → ref_segment segs (t ∷ ts) ≡ ref_loop (segs ++ index n t.pos ∷ []) ts
unfolding ref_loop
ref_segment_index segs t ts n k h = rw (k, ref_segment, h)

ref_loop-emit_segments :
    (segs more : List Segment) (t : Token) (ts : List Token)
    → AreSegments more
    → is_dot t.kind ≡ false
    → ref_loop segs (emit_segments more ++ t ∷ ts) ≡ ok (segs ++ more, t ∷ ts)
unfolding ref_loop emit_segments
ref_loop-emit_segments segs [] t ts h dot = rw (dot, append-nil segs)
ref_loop-emit_segments segs (name s p ∷ more) t ts h dot =
    ref_loop-emit_segments (segs ++ name s p ∷ []) more t ts h.1 dot
    ∙ rw (append_assoc segs (name s p ∷ []) more)
ref_loop-emit_segments segs (index n p ∷ more) t ts h dot =
    ref_segment_index segs (segment_token (index n p)) (emit_segments more ++ t ∷ ts) n refl
      (parse_index-itoa n h.0)
    ∙ (ref_loop-emit_segments (segs ++ index n p ∷ []) more t ts h.1 dot
        ∙ rw (append_assoc segs (index n p ∷ []) more))

pub parse_ident-emit_segments :
    (s : Bytes) (p : ℕ) (segs : List Segment) (t : Token) (ts : List Token)
    → IsRef (name s p ∷ segs)
    → is_dot t.kind ≡ false
    → parse_ident (segment_token (name s p)) (emit_segments segs ++ t ∷ ts)
      ≡ ok (ref_expr (name s p ∷ segs), t ∷ ts)
unfolding parse_ident parse_ref_tokens
parse_ident-emit_segments s p segs t ts h dot =
    rw (h.0, h.1, h.2, ref_loop-emit_segments (name s p ∷ []) segs t ts h.3 dot)
