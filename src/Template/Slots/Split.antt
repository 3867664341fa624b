-- ===== src/Template/Slots/Split.antt =====
-- The scanner (template/slots.go) on any source.
use awf.Prelude.{
  ℕ, zero, suc, ◌+◌, ◌-◌, ◌≡◌, ◌<◌, refl, sym, Bytes, true, false, [], ◌∷◌, ◌++◌, none, some,
  length, length-append, append_assoc, ◌==◌, ok, arith, inl, inr, Bool-cases, Option-cases,
}
use mathlib.Core.Path.{subst}
use awf.Template.Slots.{cut, has_pair, byte_before, add_escape, add_slot, scan_loop, scan}
use awf.Template.Slots.Chunks.{
  escape, slot_in, host_of, size, slots_at, escapes_at, Cuts, cut-Cuts, cut-prefix, escaped_text,
  unescaped_text, Refused, Outcome, escape-Outcome, slot-Outcome,
}

plain_round :
    (fuel prev pos : ℕ) (rest : Bytes)
    → cut b'{' rest ≡ none
    → scan_loop (suc fuel) prev pos rest ≡ ok ([], [])
unfolding scan_loop
plain_round fuel prev pos rest h = rw (h, scan_loop)

escape_round :
    (fuel prev pos : ℕ) (rest t after : Bytes)
    → cut b'{' rest ≡ some (t ++ b'\\' ∷ [], after)
    → (byte_before prev (t ++ b'\\' ∷ []) == b'\\') ≡ true
    → scan_loop (suc fuel) prev pos rest
      ≡ add_escape (pos + length t) (scan_loop fuel b'{' (pos + size (escape t)) after)
unfolding scan_loop
escape_round fuel prev pos rest t after h esc =
    let start : pos + length (t ++ b'\\' ∷ []) ≡ pos + length t + 1 =
      omega (arith, length-append t (b'\\' ∷ [])) in
    let here : pos + length t + 1 - 1 ≡ pos + length t = omega arith in
    let next : pos + length t + 1 + 2 ≡ pos + size (escape t) = omega arith in
    rw (h, scan_loop) (rw esc (rw (start, here, next)))

unterminated_round :
    (fuel prev pos : ℕ) (rest before after : Bytes)
    → cut b'{' rest ≡ some (before, after)
    → (byte_before prev before == b'\\') ≡ false
    → cut b'}' after ≡ none
    → Refused (scan_loop (suc fuel) prev pos rest)
unfolding scan_loop
unterminated_round fuel prev pos rest before after h unesc open' =
    (pos + length before, rw (h, scan_loop) (rw unesc (rw (open', scan_loop))))

nested_round :
    (fuel prev pos : ℕ) (rest before after inner behind : Bytes)
    → cut b'{' rest ≡ some (before, after)
    → (byte_before prev before == b'\\') ≡ false
    → cut b'}' after ≡ some (inner, behind)
    → has_pair b'{' inner ≡ true
    → Refused (scan_loop (suc fuel) prev pos rest)
unfolding scan_loop
nested_round fuel prev pos rest before after inner behind h unesc shut nested =
    (pos + length before, rw (h, scan_loop) (rw unesc (rw (shut, scan_loop) (rw nested))))

slot_round :
    (fuel prev pos : ℕ) (rest t after inner behind : Bytes)
    → cut b'{' rest ≡ some (t, after)
    → (byte_before prev t == b'\\') ≡ false
    → cut b'}' after ≡ some (inner, behind)
    → has_pair b'{' inner ≡ false
    → scan_loop (suc fuel) prev pos rest
      ≡ add_slot
          (record { start = pos + length t; end = pos + size (slot_in t inner); inner = inner })
          (scan_loop fuel b'}' (pos + size (slot_in t inner)) behind)
unfolding scan_loop
slot_round fuel prev pos rest t after inner behind h unesc shut single =
    let next : pos + length t + 2 + length inner + 2 ≡ pos + size (slot_in t inner) = omega arith in
    rw (h, scan_loop) (rw unesc (rw (shut, scan_loop) (rw single (rw next))))

has_pair-none : (b : ℕ) (xs : Bytes) → has_pair b xs ≡ false → cut b xs ≡ none
unfolding has_pair
has_pair-none b xs h = elim (Option-cases (cut b xs)) [
  | inl absent ↦ absent
  | inr (found, present) ↦
      let has : has_pair b xs ≡ true = rw (present, has_pair) in absurd (cc (h, has))
]

-- What a round leaves is scanned alike.
abbrev Later : ℕ → Bytes → Type 0
Later fuel rest =
    (prev pos : ℕ) (left : Bytes)
    → (prev == b'\\') ≡ false
    → length left < length rest
    → Outcome pos left (scan_loop fuel prev pos left)

escaped :
    (fuel prev pos : ℕ) (t after : Bytes)
    → (let rest = t ++ b'\\' ∷ b'{' ∷ b'{' ∷ after in
        cut b'{' rest ≡ some (t ++ b'\\' ∷ [], after)
        → cut b'{' (t ++ b'\\' ∷ b'{' ∷ []) ≡ none
        → (byte_before prev (t ++ b'\\' ∷ []) == b'\\') ≡ true
        → Later fuel rest
        → Outcome pos rest (scan_loop (suc fuel) prev pos rest))
escaped fuel prev pos t after h first esc later =
    let rest = t ++ b'\\' ∷ b'{' ∷ b'{' ∷ after in
    rw (escape_round fuel prev pos rest t after h esc) (
      escape-Outcome pos t after _ (cut-prefix b'{' t _ first) (
        later b'{' (pos + size (escape t)) after refl
          (omega (arith, length-append t (b'\\' ∷ b'{' ∷ b'{' ∷ after)))))

slotted :
    (fuel prev pos : ℕ) (t inner behind : Bytes)
    → (let after = inner ++ b'}' ∷ b'}' ∷ behind in
        let rest = t ++ b'{' ∷ b'{' ∷ after in
        cut b'{' rest ≡ some (t, after)
        → cut b'{' (t ++ b'{' ∷ []) ≡ none
        → (byte_before prev t == b'\\') ≡ false
        → cut b'}' after ≡ some (inner, behind)
        → cut b'}' (inner ++ b'}' ∷ []) ≡ none
        → Later fuel rest
        → Outcome pos rest (scan_loop (suc fuel) prev pos rest))
slotted fuel prev pos t inner behind h first unesc shut closer later =
    let after = inner ++ b'}' ∷ b'}' ∷ behind in
    let rest = t ++ b'{' ∷ b'{' ∷ after in
    elim (Bool-cases (has_pair b'{' inner)) [
      | inl nested ↦ inl (nested_round fuel prev pos rest t after inner behind h unesc shut nested)
      | inr single ↦ rw (slot_round fuel prev pos rest t after inner behind h unesc shut single) (
          slot-Outcome pos t inner behind _
            (first, unescaped_text prev t unesc, has_pair-none b'{' inner single, closer)
            (later b'}' (pos + size (slot_in t inner)) behind refl (
              omega (
                arith,
                length-append t (b'{' ∷ b'{' ∷ after),
                length-append inner (b'}' ∷ b'}' ∷ behind),
              ))))
    ]

opened :
    (fuel prev pos : ℕ) (t after : Bytes)
    → (let rest = t ++ b'{' ∷ b'{' ∷ after in
        cut b'{' rest ≡ some (t, after)
        → cut b'{' (t ++ b'{' ∷ []) ≡ none
        → (byte_before prev t == b'\\') ≡ false
        → Later fuel rest
        → Outcome pos rest (scan_loop (suc fuel) prev pos rest))
opened fuel prev pos t after h first unesc later = elim (Option-cases (cut b'}' after)) [
  | inl absent ↦
      inl (unterminated_round fuel prev pos (t ++ b'{' ∷ b'{' ∷ after) t after h unesc absent)
  | inr ((inner, behind), shut) ↦
      let cuts = subst (Cuts b'}' after) shut (cut-Cuts b'}' after) in
      subst
        (λ a.
          cut b'{' (t ++ b'{' ∷ b'{' ∷ a) ≡ some (t, a)
          → cut b'}' a ≡ some (inner, behind)
          → Later fuel (t ++ b'{' ∷ b'{' ∷ a)
          → Outcome pos (t ++ b'{' ∷ b'{' ∷ a)
              (scan_loop (suc fuel) prev pos (t ++ b'{' ∷ b'{' ∷ a)))
        (sym cuts.0)
        (λ h' shut' later'. slotted fuel prev pos t inner behind h' first unesc shut' cuts.1 later')
        h shut later
]

found :
    (fuel prev pos : ℕ) (before after : Bytes)
    → (let rest = before ++ b'{' ∷ b'{' ∷ after in
        (prev == b'\\') ≡ false
        → cut b'{' rest ≡ some (before, after)
        → cut b'{' (before ++ b'{' ∷ []) ≡ none
        → Later fuel rest
        → Outcome pos rest (scan_loop (suc fuel) prev pos rest))
found fuel prev pos before after other h first later =
    elim (Bool-cases (byte_before prev before == b'\\')) [
      | inr unesc ↦ opened fuel prev pos before after h first unesc later
      | inl esc ↦
          let (t, same) = escaped_text prev before other esc in
          let again = append_assoc t (b'\\' ∷ []) in
          subst
            (λ b.
              cut b'{' (b ++ b'{' ∷ b'{' ∷ after) ≡ some (b, after)
              → cut b'{' (b ++ b'{' ∷ []) ≡ none
              → (byte_before prev b == b'\\') ≡ true
              → Later fuel (b ++ b'{' ∷ b'{' ∷ after)
              → Outcome pos (b ++ b'{' ∷ b'{' ∷ after)
                  (scan_loop (suc fuel) prev pos (b ++ b'{' ∷ b'{' ∷ after)))
            (sym same)
            (rw (again (b'{' ∷ b'{' ∷ after), again (b'{' ∷ []))
              (λ h' first' esc' later'. escaped fuel prev pos t after h' first' esc' later'))
            h first esc later
    ]

scan_loop-Outcome :
    (fuel prev pos : ℕ) (rest : Bytes)
    → (prev == b'\\') ≡ false
    → length rest < fuel
    → Outcome pos rest (scan_loop fuel prev pos rest)
unfolding host_of slots_at escapes_at
scan_loop-Outcome zero prev pos rest other few = absurd (omega (arith, few))
scan_loop-Outcome (suc fuel) prev pos rest other few =
    let later : Later fuel rest = λ prev' pos' left other' less.
      scan_loop-Outcome fuel prev' pos' left other' (omega (arith, few, less)) in
    elim (Option-cases (cut b'{' rest)) [
      | inl absent ↦ inr (record {
        chunks = [];
        tail = rest;
        whole = refl;
        proper = tt;
        plain = absent;
        found = plain_round fuel prev pos rest absent;
      })
      | inr ((before, after), h) ↦
          let cuts = subst (Cuts b'{' rest) h (cut-Cuts b'{' rest) in
          subst
            (λ r.
              cut b'{' r ≡ some (before, after)
              → Later fuel r
              → Outcome pos r (scan_loop (suc fuel) prev pos r))
            (sym cuts.0) (λ h' later'. found fuel prev pos before after other h' cuts.1 later') h
            later
    ]

-- A scan refuses the source at an offset, or finds the offsets of parts that make up the source.
pub scan-Outcome : (src : Bytes) → Outcome 0 src (scan src)
unfolding scan
scan-Outcome src = scan_loop-Outcome (suc (length src)) 0 0 src refl (omega arith)
