-- ===== src/Template/Substitute/Writes.antt =====
-- Slices of a host string and what is written up to an offset (template/eval.go, Substitute).
use awf.Prelude.{
  ℕ, ◌+◌, ◌-◌, ◌≡◌, ◌≤◌, refl, Bytes, Bool, true, false, ◌&&◌, List, [], ◌∷◌, ◌++◌, length,
  length-append, leb, ltb, ok, ◌>>=◌, arith, take-length_append, drop-length_append,
}
use awf.Template.Slots.{Slot}
use awf.Template.Slots.Chunks.{Chunk, escape, slot_in, host_of, size, slots_at, escapes_at}
use awf.Template.Substitute.{slice, write_up_to}

pub and-false : (b : Bool) → (b && false) ≡ false
and-false true = refl
and-false false = refl

slice-append :
    (done t rest : Bytes)
    → slice (done ++ (t ++ rest)) (length done) (length done + length t) ≡ ok t
unfolding slice
slice-append done t rest =
    let fits : leb (length done) (length done + length t) ≡ true = ground arith in
    let inside : leb (length done + length t) (length (done ++ (t ++ rest))) ≡ true =
      ground (arith, length-append done (t ++ rest), length-append t rest) in
    let less : length done + length t - length done ≡ length t = omega arith in
    rw (fits, inside, less, drop-length_append done (t ++ rest), take-length_append t rest)

pub write_here :
    (host : Bytes) (cursor end pos : ℕ) (cs : List Chunk)
    → end ≤ pos
    → write_up_to host cursor end (escapes_at pos cs)
      ≡ (slice host cursor end >>= λ text. ok (text, escapes_at pos cs))
unfolding write_up_to escapes_at
write_here host cursor end pos [] h = refl
write_here host cursor end pos (escape t ∷ cs) h =
    let behind : ltb (pos + length t) end ≡ false = ground (arith, h) in rw behind
write_here host cursor end pos (slot_in t inner ∷ cs) h =
    write_here host cursor end (pos + size (slot_in t inner)) cs (omega (arith, h))

unfoldable pub first_end : Bytes → List Slot → ℕ
first_end host [] = length host
first_end host (s ∷ slots) = s.start

pub slice-part :
    (done t rest host : Bytes) (pos : ℕ)
    → host ≡ done ++ (t ++ rest)
    → pos ≡ length done
    → slice host pos (pos + length t) ≡ ok t
slice-part done t rest host pos h p = rw (h, p) (slice-append done t rest)

-- The first slot starts behind the position, or the host ends there.
pub first_end-ge :
    (cs : List Chunk) (pos : ℕ) (tail host : Bytes)
    → pos + length (host_of cs tail) ≤ length host
    → pos ≤ first_end host (slots_at pos cs)
unfolding host_of slots_at first_end
first_end-ge [] pos tail host h = omega (arith, h)
first_end-ge (escape t ∷ cs) pos tail host h =
    let after = host_of cs tail in
    let rest =
      first_end-ge cs (pos + (length t + 3)) tail host
        (omega (arith, h, length-append t (b'\\' ∷ b'{' ∷ b'{' ∷ after))) in
    omega (arith, rest)
first_end-ge (slot_in t inner ∷ cs) pos tail host h = omega arith
