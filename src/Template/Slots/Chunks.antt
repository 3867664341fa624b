-- ===== src/Template/Slots/Chunks.antt =====
-- The parts of a host string (template/slots.go): each escape and each slot with the text in
-- front of it.
use awf.Prelude.{
  ℕ, ◌+◌, ◌≡◌, refl, sym, ap, ◌∙◌, Bytes, true, false, ◌&&◌, List, [], ◌∷◌, ◌++◌, Option, none,
  some, length, ◌==◌, ok, err, arith, ◌⊎◌, inl, inr, Bool-cases,
}
use mathlib.Core.Path.{subst}
use awf.Template.Slots.{Slot, cut, byte_before, Scanned, add_escape, add_slot}
use awf.Template.Syntax.{syntax_error}

pub data Chunk : Type 0 where
  escape : Bytes → Chunk
  slot_in : Bytes → Bytes → Chunk

-- The chunks as the source writes them, in front of `tail`.
unfoldable pub host_of : List Chunk → Bytes → Bytes
host_of [] tail = tail
host_of (escape t ∷ cs) tail = t ++ b'\\' ∷ b'{' ∷ b'{' ∷ host_of cs tail
host_of (slot_in t inner ∷ cs) tail = t ++ b'{' ∷ b'{' ∷ (inner ++ b'}' ∷ b'}' ∷ host_of cs tail)

-- No earlier opener, none in the slot, and its closer is the first; no backslash escapes it.
abbrev pub IsChunk : Chunk → Type 0
IsChunk (escape t) = cut b'{' t ≡ none
IsChunk (slot_in t inner) =
    (cut b'{' (t ++ b'{' ∷ []) ≡ none)
    × ((byte_before 0 t == b'\\') ≡ false)
    × (cut b'{' inner ≡ none)
    × (cut b'}' (inner ++ b'}' ∷ []) ≡ none)

abbrev pub AreChunks : List Chunk → Type 0
AreChunks [] = Unit
AreChunks (c ∷ cs) = IsChunk c × AreChunks cs

abbrev pub size : Chunk → ℕ
size (escape t) = length t + 3
size (slot_in t inner) = length t + 2 + length inner + 2

-- The offsets of a host that has the chunks from `pos` on.
unfoldable pub slots_at : ℕ → List Chunk → List Slot
slots_at pos [] = []
slots_at pos (escape t ∷ cs) = slots_at (pos + size (escape t)) cs
slots_at pos (slot_in t inner ∷ cs) =
    let end = pos + size (slot_in t inner) in
    record { start = pos + length t; end = end; inner = inner } ∷ slots_at end cs

unfoldable pub escapes_at : ℕ → List Chunk → List ℕ
escapes_at pos [] = []
escapes_at pos (escape t ∷ cs) = (pos + length t) ∷ escapes_at (pos + size (escape t)) cs
escapes_at pos (slot_in t inner ∷ cs) = escapes_at (pos + size (slot_in t inner)) cs

-- Where the first pair stands, and that it is the first.
abbrev pub Cuts : ℕ → Bytes → Option (Bytes × Bytes) → Type 0
Cuts b rest none = Unit
Cuts b rest (some (before, behind)) =
    (rest ≡ before ++ b ∷ b ∷ behind) × (cut b (before ++ b ∷ []) ≡ none)

later : ℕ → Option (Bytes × Bytes) → Option (Bytes × Bytes)
later c none = none
later c (some (before, behind)) = some (c ∷ before, behind)

cut-miss :
    (b c d : ℕ) (cs : Bytes)
    → (c == b && d == b) ≡ false
    → cut b (c ∷ d ∷ cs) ≡ later c (cut b (d ∷ cs))
unfolding cut later
cut-miss b c d cs miss = rw miss (same (cut b (d ∷ cs)))
  where
    same :
        (o : Option (Bytes × Bytes))
        → elim o [ none ↦ none | some (before, behind) ↦ some (c ∷ before, behind) ] ≡ later c o
    same none = refl
    same (some (before, behind)) = refl

cut_both : (b c d : ℕ) (cs : Bytes) → (c == b && d == b) ≡ true → cut b (c ∷ d ∷ cs) ≡ some ([], cs)
unfolding cut
cut_both b c d cs hit = rw hit

Cuts-later :
    (b c d : ℕ) (cs : Bytes) (o : Option (Bytes × Bytes))
    → (c == b && d == b) ≡ false
    → Cuts b (d ∷ cs) o
    → Cuts b (c ∷ d ∷ cs) (later c o)
unfolding later
Cuts-later b c d cs none miss h = tt
Cuts-later b c d cs (some ([], behind)) miss h =
    let same : d ≡ b = cc (h.0) in
    (
      ap (λ r. c ∷ r) h.0,
      cut-miss b c b [] (subst (λ x. (c == b && x == b) ≡ false) same miss) ∙ rw (h.1, later),
    )
Cuts-later b c d cs (some (e ∷ before, behind)) miss h =
    let same : d ≡ e = cc (h.0) in
    (
      ap (λ r. c ∷ r) h.0,
      cut-miss b c e (before ++ b ∷ []) (subst (λ x. (c == b && x == b) ≡ false) same miss)
          ∙ rw (h.1, later),
    )

pub cut-Cuts : (b : ℕ) (rest : Bytes) → Cuts b rest (cut b rest)
unfolding cut
cut-Cuts b [] = tt
cut-Cuts b (c ∷ []) = tt
cut-Cuts b (c ∷ d ∷ cs) = elim (Bool-cases (c == b && d == b)) [
  | inl hit ↦ rw (cut_both b c d cs hit) (ground arith, refl)
  | inr miss ↦
      rw (cut-miss b c d cs miss) (Cuts-later b c d cs (cut b (d ∷ cs)) miss (cut-Cuts b (d ∷ cs)))
]

later-none : (c : ℕ) (o : Option (Bytes × Bytes)) → later c o ≡ none → o ≡ none
unfolding later
later-none c none h = refl
later-none c (some (before, behind)) h = absurd (cc h)

-- No pair, and none in a prefix.
pub cut-prefix : (b : ℕ) (xs ys : Bytes) → cut b (xs ++ ys) ≡ none → cut b xs ≡ none
unfolding cut later
cut-prefix b [] ys h = refl
cut-prefix b (c ∷ []) ys h = refl
cut-prefix b (c ∷ d ∷ cs) ys h = elim (Bool-cases (c == b && d == b)) [
  | inl hit ↦ absurd (cc (h, cut_both b c d (cs ++ ys) hit))
  | inr miss ↦
      let shorter =
        later-none c (cut b (d ∷ (cs ++ ys))) (sym (cut-miss b c d (cs ++ ys) miss) ∙ h) in
      cut-miss b c d cs miss ∙ rw (cut-prefix b (d ∷ cs) ys shorter, later)
]

-- A backslash in front of an opener stands at the end of the text there.
byte_before-last :
    (prev c : ℕ) (cs : Bytes)
    → (byte_before prev (c ∷ cs) == b'\\') ≡ true
    → (t : Bytes) × (c ∷ cs ≡ t ++ b'\\' ∷ [])
unfolding byte_before
byte_before-last prev c [] h = let same : c ≡ b'\\' = ground arith in ([], ap (λ x. x ∷ []) same)
byte_before-last prev c (d ∷ cs) h =
    let (t, same) = byte_before-last c d cs h in (c ∷ t, ap (λ r. c ∷ r) same)

pub escaped_text :
    (prev : ℕ) (before : Bytes)
    → (prev == b'\\') ≡ false
    → (byte_before prev before == b'\\') ≡ true
    → (t : Bytes) × (before ≡ t ++ b'\\' ∷ [])
unfolding byte_before
escaped_text prev [] other h = absurd (cc (other, h))
escaped_text prev (c ∷ cs) other h = byte_before-last prev c cs h

-- What the byte before a text is matters only where the text is empty.
pub unescaped_text :
    (prev : ℕ) (before : Bytes)
    → (byte_before prev before == b'\\') ≡ false
    → (byte_before 0 before == b'\\') ≡ false
unfolding byte_before
unescaped_text prev [] h = refl
unescaped_text prev (c ∷ cs) h = h

-- What a scan from `pos` on found of `rest`.
pub record Parts (pos : ℕ) (rest : Bytes) (r : Scanned) : Type 0 where
  pub chunks : List Chunk
  pub tail : Bytes
  pub whole : rest ≡ host_of chunks tail
  pub proper : AreChunks chunks
  pub plain : cut b'{' tail ≡ none
  pub found : r ≡ ok (slots_at pos chunks, escapes_at pos chunks)

abbrev pub Refused : Scanned → Type 0
Refused r = (at : ℕ) × (r ≡ err (syntax_error at))

abbrev pub Outcome : ℕ → Bytes → Scanned → Type 0
Outcome pos rest r = Refused r ⊎ Parts pos rest r

pub escape-Outcome :
    (pos : ℕ) (t after : Bytes) (r : Scanned)
    → cut b'{' t ≡ none
    → Outcome (pos + size (escape t)) after r
    → Outcome pos (t ++ b'\\' ∷ b'{' ∷ b'{' ∷ after) (add_escape (pos + length t) r)
unfolding host_of slots_at escapes_at
escape-Outcome pos t after r h (inl (at, refused)) = inl (at, rw refused)
escape-Outcome pos t after r h (inr p) = inr (record {
  chunks = escape t ∷ p.chunks;
  tail = p.tail;
  whole = ap (λ x. t ++ b'\\' ∷ b'{' ∷ b'{' ∷ x) p.whole;
  proper = (h, p.proper);
  plain = p.plain;
  found = rw p.found;
})

pub slot-Outcome :
    (pos : ℕ) (t inner behind : Bytes) (r : Scanned)
    → IsChunk (slot_in t inner)
    → Outcome (pos + size (slot_in t inner)) behind r
    → Outcome pos (t ++ b'{' ∷ b'{' ∷ (inner ++ b'}' ∷ b'}' ∷ behind)) (
        add_slot
          (record { start = pos + length t; end = pos + size (slot_in t inner); inner = inner })
          r)
unfolding host_of slots_at escapes_at
slot-Outcome pos t inner behind r h (inl (at, refused)) = inl (at, rw refused)
slot-Outcome pos t inner behind r h (inr p) = inr (record {
  chunks = slot_in t inner ∷ p.chunks;
  tail = p.tail;
  whole = ap (λ x. t ++ b'{' ∷ b'{' ∷ (inner ++ b'}' ∷ b'}' ∷ x)) p.whole;
  proper = (h, p.proper);
  plain = p.plain;
  found = rw p.found;
})
