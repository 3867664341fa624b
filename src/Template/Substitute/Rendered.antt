-- ===== src/Template/Substitute/Rendered.antt =====
-- The rendering of a host string by its parts (template/eval.go, Substitute).
use awf.Prelude.{
  ℕ, ◌+◌, ◌≡◌, ◌≤◌, ◌<◌, refl, ap, ◌∙◌, Bytes, List, [], ◌∷◌, ◌++◌, Option, none, some, length,
  length-append, append_assoc, append-nil, lt→ltb, Result, ok, err, ◌>>=◌, arith, ◌⊎◌, inl, inr,
}
use awf.Template.Slots.{Slot, cut, scan}
use awf.Template.Slots.Chunks.{
  Chunk, escape, slot_in, host_of, AreChunks, size, slots_at, escapes_at, Outcome,
}
use awf.Template.Slots.Split.{scan-Outcome}
use awf.Template.Substitute.{
  slice, write_up_to, render_slot, substitute_loop, substitute, with_failure, scan_failure, is_nil,
}
use awf.Template.Value.{Floats, Value, syntax_code, Failure, eval_error, Scope}
use awf.Template.Substitute.Writes.{and-false, slice-part, write_here, first_end, first_end-ge}

module _ {F : Type 0} (fl : Floats F) (marshal : Value F → Option Bytes) (scope : Scope F) where
  -- The text of each part in turn: text as it stands, an escape without its backslash, and the
  -- text of a slot.
  unfoldable pub render : ℕ → List Chunk → Bytes → Result Failure Bytes
  render pos [] tail = ok tail
  render pos (escape t ∷ cs) tail =
      render (pos + size (escape t)) cs tail >>= λ more. ok (t ++ b'{' ∷ b'{' ∷ more)
  render pos (slot_in t inner ∷ cs) tail =
      render_slot fl marshal scope (pos + length t) inner >>= λ text.
      render (pos + size (slot_in t inner)) cs tail >>= λ more. ok (t ++ (text ++ more))

  abbrev sub : Bytes → ℕ → List Slot → List ℕ → Result Failure Bytes
  sub = substitute_loop fl marshal scope

  -- What follows a write.
  after_write : Bytes → List Slot → Bytes × List ℕ → Result Failure Bytes
  after_write host [] (text, left) = ok text
  after_write host (s ∷ slots) (text, left) =
      render_slot fl marshal scope s.start s.inner >>= λ rendered.
      sub host s.end slots left >>= λ more. ok (text ++ (rendered ++ more))

  sub_write :
      (host : Bytes) (cursor : ℕ) (slots : List Slot) (escapes : List ℕ)
      → sub host cursor slots escapes
        ≡ (write_up_to host cursor (first_end host slots) escapes >>= after_write host slots)
  unfolding substitute_loop first_end after_write
  sub_write host cursor [] escapes = refl
  sub_write host cursor (s ∷ slots) escapes = refl

  -- `f` puts a text in front.
  abbrev Front : (Bytes → Bytes) → Type 0
  Front f = (x y : Bytes) → f x ++ y ≡ f (x ++ y)

  Front-render :
      (f : Bytes → Bytes) (text : Bytes) (m : Result Failure Bytes) (later : Result Failure Bytes)
      → Front f
      → (m >>= λ rendered. later >>= λ more. ok (f text ++ (rendered ++ more))) ≡ (
          (m >>= λ rendered. later >>= λ more. ok (text ++ (rendered ++ more))) >>= λ more.
          ok (f more))
  Front-render f text (err e) later h = refl
  Front-render f text (ok rendered) (err e) h = refl
  Front-render f text (ok rendered) (ok more) h = ap (λ x. Result.ok x) (h text (rendered ++ more))

  after_write-Front :
      (host : Bytes) (f : Bytes → Bytes) (slots : List Slot) (text : Bytes) (left : List ℕ)
      → Front f
      → after_write host slots (f text, left)
        ≡ (after_write host slots (text, left) >>= λ more. ok (f more))
  unfolding after_write
  after_write-Front host f [] text left h = refl
  after_write-Front host f (s ∷ slots) text left h =
      Front-render f text (render_slot fl marshal scope s.start s.inner) (sub host s.end slots left)
        h

  fused :
      (host : Bytes) (f : Bytes → Bytes) (slots : List Slot) (w : Result Failure (Bytes × List ℕ))
      → Front f
      → (◌>>=◌ {A = Bytes × List ℕ}
          (◌>>=◌ {A = Bytes × List ℕ} w (λ (more, left). ok (f more, left)))
          (after_write host slots))
        ≡ (◌>>=◌ {A = Bytes × List ℕ} w (after_write host slots) >>= λ more. ok (f more))
  fused host f slots (ok (text, left)) h = after_write-Front host f slots text left h
  fused host f slots (err e) h = refl

  past_escape :
      (host : Bytes) (cursor e : ℕ) (t : Bytes) (slots : List Slot) (escapes : List ℕ)
      → e < first_end host slots
      → slice host cursor e ≡ ok t
      → sub host cursor slots (e ∷ escapes)
        ≡ (sub host (e + 3) slots escapes >>= λ more. ok (t ++ b'{' ∷ b'{' ∷ more))
  unfolding write_up_to
  past_escape host cursor e t slots escapes h s =
      sub_write host cursor slots (e ∷ escapes)
      ∙ rw (lt→ltb e (first_end host slots) h, s)
          (fused host (λ more. t ++ b'{' ∷ b'{' ∷ more) slots
              (write_up_to host (e + 3) (first_end host slots) escapes)
              (λ x y. append_assoc t (b'{' ∷ b'{' ∷ x) y)
            ∙ rw (← sub_write host (e + 3) slots escapes))

  runs :
      (cs : List Chunk) (done tail host : Bytes) (pos : ℕ)
      → host ≡ done ++ host_of cs tail
      → pos ≡ length done
      → sub host pos (slots_at pos cs) (escapes_at pos cs) ≡ render pos cs tail
  unfolding host_of slots_at escapes_at render after_write first_end
  runs [] done tail host pos h p =
      let all : length host ≡ pos + length tail =
        omega (arith, ap length h, p, length-append done tail) in
      sub_write host pos [] []
      ∙ rw (
        all,
        write_here host pos (pos + length tail) (pos + length tail) [] (omega arith),
        slice-part done tail [] host pos (rw (append-nil tail) h) p,
      )
  runs (escape t ∷ cs) done tail host pos h p =
      let after = host_of cs tail in
      let part = t ++ b'\\' ∷ b'{' ∷ b'{' ∷ [] in
      let split : host ≡ (done ++ part) ++ after =
        h ∙ rw (append_assoc done part after, append_assoc t (b'\\' ∷ b'{' ∷ b'{' ∷ []) after) in
      let there : pos + (length t + 3) ≡ length (done ++ part) =
        omega (arith, p, length-append done part, length-append t (b'\\' ∷ b'{' ∷ b'{' ∷ [])) in
      let inside : pos + (length t + 3) + length after ≤ length host =
        omega (arith, there, ap length split, length-append (done ++ part) after) in
      let first = first_end-ge cs (pos + (length t + 3)) tail host inside in
      let next : pos + length t + 3 ≡ pos + (length t + 3) = omega arith in
      past_escape host pos (pos + length t) t (slots_at (pos + (length t + 3)) cs)
        (escapes_at (pos + (length t + 3)) cs) (omega (arith, first))
        (slice-part done t (b'\\' ∷ b'{' ∷ b'{' ∷ after) host pos h p)
      ∙ rw (next, runs cs (done ++ part) tail host (pos + (length t + 3)) split there)
  runs (slot_in t inner ∷ cs) done tail host pos h p =
      let after = host_of cs tail in
      let rest = b'{' ∷ b'{' ∷ (inner ++ b'}' ∷ b'}' ∷ after) in
      let part = t ++ b'{' ∷ b'{' ∷ (inner ++ b'}' ∷ b'}' ∷ []) in
      let split : host ≡ (done ++ part) ++ after =
        h
        ∙ rw (
          append_assoc done part after,
          append_assoc t (b'{' ∷ b'{' ∷ (inner ++ b'}' ∷ b'}' ∷ [])) after,
          append_assoc inner (b'}' ∷ b'}' ∷ []) after,
        ) in
      let end = pos + (length t + 2 + length inner + 2) in
      let there : end ≡ length (done ++ part) = omega (
        arith,
        p,
        length-append done part,
        length-append t (b'{' ∷ b'{' ∷ (inner ++ b'}' ∷ b'}' ∷ [])),
        length-append inner (b'}' ∷ b'}' ∷ []),
      ) in
      sub_write host pos (slots_at pos (slot_in t inner ∷ cs)) (escapes_at end cs)
      ∙ rw
          (
            write_here host pos (pos + length t) end cs (omega arith),
            slice-part done t rest host pos h p,
          )
          (rw (runs cs (done ++ part) tail host end split there))

  scanned :
      (cs : List Chunk) (tail host : Bytes)
      → host ≡ host_of cs tail
      → scan host ≡ ok (slots_at 0 cs, escapes_at 0 cs)
      → substitute fl marshal scope host ≡ render 0 cs tail
  unfolding substitute with_failure slots_at escapes_at host_of render
  scanned [] tail host h s = rw s (ap (λ x. Result.ok x) h)
  scanned (escape t ∷ cs) tail host h s =
      rw (s, and-false (is_nil (slots_at (0 + size (escape t)) cs)))
        (runs (escape t ∷ cs) [] tail host 0 h refl)
  scanned (slot_in t inner ∷ cs) tail host h s =
      rw s (runs (slot_in t inner ∷ cs) [] tail host 0 h refl)

  -- The parts of a host, and that its rendering is theirs.
  pub record Renders (host : Bytes) : Type 0 where
    pub chunks : List Chunk
    pub tail : Bytes
    pub whole : host ≡ host_of chunks tail
    pub proper : AreChunks chunks
    pub plain : cut b'{' tail ≡ none
    pub rendered : substitute fl marshal scope host ≡ render 0 chunks tail

  by_outcome :
      (host : Bytes)
      → Outcome 0 host (scan host)
      → ((at : ℕ) × (substitute fl marshal scope host ≡ err (eval_error syntax_code (some at))))
        ⊎ Renders host
  unfolding substitute with_failure scan_failure
  by_outcome host (inl (at, refused)) = inl (at, rw refused)
  by_outcome host (inr p) = inr (record {
    chunks = p.chunks;
    tail = p.tail;
    whole = p.whole;
    proper = p.proper;
    plain = p.plain;
    rendered = scanned p.chunks p.tail host p.whole p.found;
  })

  -- Any host is refused by the scan at an offset, or it is escapes and slots with the text between
  -- them, and its rendering is theirs: all other text as it stands, `\{{` as `{{`, and each slot,
  -- which stands behind no backslash, as its text or the first slot's error. No slice is ever out
  -- of bounds.
  pub substitute-Renders :
      (host : Bytes)
      → ((at : ℕ) × (substitute fl marshal scope host ≡ err (eval_error syntax_code (some at))))
        ⊎ Renders host
  substitute-Renders host = by_outcome host (scan-Outcome host)
