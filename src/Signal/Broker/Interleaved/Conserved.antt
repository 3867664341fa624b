-- ===== src/Signal/Broker/Interleaved/Conserved.antt =====
-- What the interleaved calls of a directory do to its files, in number (signal/broker.go).
use awf.Prelude.{
  ℕ, zero, suc, ◌+◌, ◌≡◌, refl, inl, inr, Bytes, bytes_eq, Bool, true, false, List, [], ◌∷◌, some,
  length, length-append, Bool-cases, Option-cases, arith,
}
use awf.Prelude.Map.{Map, lookup}
use awf.Signal.Paths.{signal_file_name}
use awf.Signal.Broker.{
  Files, Candidate, Match, WritePhase, ReadPhase, preparing, counting, counting_consumed, opening,
  writing, closing, sent, withdrawn, refused, looking, picking, taking, claiming, verifying, got,
  missed, failed, unlink, write_inode, open_new, withdraw, claim, write_step, read_step,
  start_write,
}
use awf.Signal.Broker.Interleaved.{
  Writer, Reader, System, Step, Reach, start, later, sends, awaits, writes, reads, ticks,
  move_writer, move_reader, tick, tick_reader, is_withdrawn, is_delivered, withdrawals, deliveries,
}

length-unlink :
    (f : Bytes) (i : ℕ) (entries : Map ℕ)
    → lookup f entries ≡ some i
    → length (unlink f entries) + 1 ≡ length entries
unfolding lookup unlink
length-unlink f i [] h = absurd (cc h)
length-unlink f i ((g, j) ∷ entries) h = elim (Bool-cases (bytes_eq g f)) [
  | inl same ↦ rw same (omega arith)
  | inr other ↦
      let there : lookup f entries ≡ some i = ground (arith, h, other) in
      rw other (omega (arith, length-unlink f i entries there))
]

length-write_inode :
    (i : ℕ) (payload : Bytes) (contents : List Bytes)
    → length (write_inode i payload contents) ≡ length contents
unfolding write_inode
length-write_inode i payload [] = refl
length-write_inode zero payload (c ∷ contents) = refl
length-write_inode (suc i) payload (c ∷ contents) =
    omega (arith, length-write_inode i payload contents)

-- A step of a writer keeps the balance of the files it created, left and took back.
abbrev Kept : Files → WritePhase → Files × WritePhase → Type 0
Kept fs p r =
    length r.0.control + is_withdrawn r.1 + length fs.contents
    ≡ length r.0.contents + length fs.control + is_withdrawn p

open_new-Kept :
    (name : Bytes) (left seq : ℕ) (fs : Files)
    → Kept fs (opening left seq) (open_new name left seq fs)
unfolding open_new is_withdrawn
open_new-Kept name left seq fs =
    elim (Option-cases (lookup (signal_file_name name seq) fs.control)) [
      | inl absent ↦ rw (absent, open_new) (omega (arith, length-append {0} fs.contents ([] ∷ [])))
      | inr (i, present) ↦ rw (present, open_new) (omega arith)
    ]

withdraw-Kept :
    (name : Bytes) (i seq : ℕ) (fs : Files) → Kept fs (writing i seq) (withdraw name seq fs)
unfolding withdraw is_withdrawn
withdraw-Kept name i seq fs = elim (Option-cases (lookup (signal_file_name name seq) fs.control)) [
  | inl absent ↦ rw (absent, withdraw) (omega arith)
  | inr (j, present) ↦
      rw (present, withdraw)
        (omega (arith, length-unlink (signal_file_name name seq) j fs.control present))
]

write_step-Kept :
    (fault : Bool) (name payload : Bytes) (fs : Files) (p : WritePhase)
    → Kept fs p (write_step fault name payload fs p)
unfolding write_step is_withdrawn
write_step-Kept true name payload fs preparing = omega arith
write_step-Kept false name payload fs preparing = omega arith
write_step-Kept fault name payload fs (counting zero) = omega arith
write_step-Kept true name payload fs (counting (suc left)) = omega arith
write_step-Kept false name payload fs (counting (suc left)) = omega arith
write_step-Kept true name payload fs (counting_consumed left high) = omega arith
write_step-Kept false name payload fs (counting_consumed left high) = omega arith
write_step-Kept true name payload fs (opening left seq) = omega arith
write_step-Kept false name payload fs (opening left seq) = open_new-Kept name left seq fs
write_step-Kept true name payload fs (writing i seq) = withdraw-Kept name i seq fs
write_step-Kept false name payload fs (writing i seq) =
    omega (arith, length-write_inode i payload fs.contents)
write_step-Kept true name payload fs (closing i seq) = omega arith
write_step-Kept false name payload fs (closing i seq) = omega arith
write_step-Kept fault name payload fs (sent seq) = omega arith
write_step-Kept fault name payload fs withdrawn = omega arith
write_step-Kept fault name payload fs (refused e) = omega arith

-- A step of a reader takes one file where it delivers, and none elsewhere.
abbrev Taken : Files → ReadPhase → Files × ReadPhase → Type 0
Taken fs p r =
    (length r.0.control + is_delivered r.1 ≡ length fs.control + is_delivered p)
    × (length r.0.contents ≡ length fs.contents)

claim-Taken :
    (name : Bytes) (c : Candidate) (payload : Bytes) (rest : List Candidate) (fs : Files)
    → Taken fs (claiming c payload rest) (claim name c payload rest fs)
unfolding claim is_delivered
claim-Taken name c payload rest fs = elim (Option-cases (lookup c.file_name fs.control)) [
  | inl absent ↦ rw (absent, claim) (omega arith, refl)
  | inr (i, present) ↦
      rw (present, claim) (omega (arith, length-unlink c.file_name i fs.control present), refl)
]

read_step-Taken :
    (fault : Bool) (match : Match) (name : Bytes) (fs : Files) (p : ReadPhase)
    → Taken fs p (read_step fault match name fs p)
unfolding read_step is_delivered
read_step-Taken true match name fs looking = (omega arith, refl)
read_step-Taken false match name fs looking = (omega arith, refl)
read_step-Taken fault match name fs (picking []) = (omega arith, refl)
read_step-Taken true match name fs (picking (c ∷ rest)) = (omega arith, refl)
read_step-Taken false match name fs (picking (c ∷ rest)) = (ground arith, refl)
read_step-Taken true match name fs (taking c payload rest) = (omega arith, refl)
read_step-Taken false match name fs (taking c payload rest) = (omega arith, refl)
read_step-Taken true match name fs (claiming c payload rest) = (omega arith, refl)
read_step-Taken false match name fs (claiming c payload rest) = claim-Taken name c payload rest fs
read_step-Taken true match name fs (verifying c rest) = (omega arith, refl)
read_step-Taken false match name fs (verifying c rest) = (ground arith, refl)
read_step-Taken fault match name fs (got d) = (omega arith, refl)
read_step-Taken fault match name fs missed = (omega arith, refl)
read_step-Taken fault match name fs (failed e) = (omega arith, refl)

move_writer-Kept :
    (i : ℕ) (fault : Bool) (fs : Files) (writers : List Writer)
    → length (move_writer i fault fs writers).0.control
        + withdrawals (move_writer i fault fs writers).1
        + length fs.contents
      ≡ length (move_writer i fault fs writers).0.contents + length fs.control + withdrawals writers
unfolding move_writer withdrawals
move_writer-Kept i fault fs [] = omega arith
move_writer-Kept zero fault fs (w ∷ writers) =
    omega (arith, write_step-Kept fault w.name w.payload fs w.phase)
move_writer-Kept (suc i) fault fs (w ∷ writers) = omega (arith, move_writer-Kept i fault fs writers)

move_reader-Taken :
    (i : ℕ) (fault : Bool) (fs : Files) (readers : List Reader)
    → (length (move_reader i fault fs readers).0.control
          + deliveries (move_reader i fault fs readers).1
        ≡ length fs.control + deliveries readers)
      × (length (move_reader i fault fs readers).0.contents ≡ length fs.contents)
unfolding move_reader deliveries
move_reader-Taken i fault fs [] = (omega arith, refl)
move_reader-Taken zero fault fs (r ∷ readers) =
    let taken = read_step-Taken fault r.match r.name fs r.phase in (omega (arith, taken), taken.1)
move_reader-Taken (suc i) fault fs (r ∷ readers) =
    let taken = move_reader-Taken i fault fs readers in (omega (arith, taken), taken.1)

is_delivered-tick : (p : ReadPhase) → is_delivered (tick p) ≡ is_delivered p
unfolding is_delivered tick
is_delivered-tick looking = refl
is_delivered-tick (picking cands) = refl
is_delivered-tick (taking c payload rest) = refl
is_delivered-tick (claiming c payload rest) = refl
is_delivered-tick (verifying c rest) = refl
is_delivered-tick (got d) = refl
is_delivered-tick missed = refl
is_delivered-tick (failed e) = refl

deliveries-tick_reader :
    (i : ℕ) (readers : List Reader) → deliveries (tick_reader i readers) ≡ deliveries readers
unfolding deliveries tick_reader
deliveries-tick_reader i [] = refl
deliveries-tick_reader zero (r ∷ readers) = omega (arith, is_delivered-tick r.phase)
deliveries-tick_reader (suc i) (r ∷ readers) = omega (arith, deliveries-tick_reader i readers)

abbrev pub Conserved : System → Type 0
Conserved s =
    length s.files.control + deliveries s.readers + withdrawals s.writers ≡ length s.files.contents

is_withdrawn-start_write : (name : Bytes) → is_withdrawn (start_write name) ≡ 0
unfolding is_withdrawn start_write
is_withdrawn-start_write name = ground arith

Step-Conserved : {s t : System} → Step s t → Conserved s → Conserved t
unfolding withdrawals deliveries is_delivered
Step-Conserved (sends s name payload) h = omega (arith, h, is_withdrawn-start_write name)
Step-Conserved (awaits s name match) h = omega (arith, h)
Step-Conserved (writes s i fault) h = omega (arith, h, move_writer-Kept i fault s.files s.writers)
Step-Conserved (reads s i fault) h =
    let taken = move_reader-Taken i fault s.files s.readers in omega (arith, h, taken)
Step-Conserved (ticks s i) h = omega (arith, h, deliveries-tick_reader i s.readers)

-- However the calls of any number of writers and readers of a directory that was empty are
-- interleaved, and whichever of them fail: the files still pending, the deliveries, and the files
-- that a failed write took back are together as many as the files ever created. It is a count: it
-- does not say whose file a failed write took back, which it removes by its name.
pub Reach-Conserved : {s : System} → Reach s → Conserved s
unfolding withdrawals deliveries
Reach-Conserved start = refl
Reach-Conserved (later r step) = Step-Conserved step (Reach-Conserved r)
