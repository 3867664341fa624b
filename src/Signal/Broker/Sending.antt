-- ===== src/Signal/Broker/Sending.antt =====
-- A WriteSignal that no other call comes between, and the poll behind it (signal/broker.go).
use awf.Prelude.{
  ℕ, zero, suc, ◌+◌, ◌^◌, ◌≡◌, ◌<◌, inl, inr, refl, sym, ◌∙◌, ap, Bytes, true, false, List, [], ◌∷◌,
  ◌++◌, none, some, All, Bool-cases, Option-cases, length, bytes_eq, bytes_eq_iff, bytes_eq_refl,
  arith,
}
use awf.Prelude.Map.{Map, lookup, insert}
use awf.Signal.Paths.{signal_file_name, parse_signal_file_name, validate_signal_name, is_decodable}
use awf.Signal.Paths.RoundTrip.{parse_signal_file_name-signal_file_name}
use awf.Signal.Broker.{
  Candidate, sorted_candidates, Files, Match, ReadPhase, got, missed, sent, writing, accepts,
  read_inode, write_inode, unlink, max_seq, open_new, write_step, start_write,
}
use awf.Signal.Broker.Names.{
  UpTo, UpTo-le, max_seq-ge, max_seq-UpTo, lookup-UpTo, parse_signal_file_name-is_decodable,
  max_seq-undecodable, Named, sorted_candidates-Named,
}
use awf.Signal.Broker.Alone.{
  Awaited, Delivers, write_alone, write_signal, try_consume, try_consume-Polled,
}

write_inode-append :
    (contents : List Bytes) (payload : Bytes)
    → write_inode (length contents) payload (contents ++ [] ∷ []) ≡ contents ++ payload ∷ []
unfolding write_inode
write_inode-append [] payload = refl
write_inode-append (c ∷ contents) payload = ap (λ cs. c ∷ cs) (write_inode-append contents payload)

read_inode-append :
    (contents : List Bytes) (payload : Bytes)
    → read_inode (length contents) (contents ++ payload ∷ []) ≡ payload
unfolding read_inode
read_inode-append [] payload = refl
read_inode-append (c ∷ contents) payload = read_inode-append contents payload

read_inode-old :
    (i : ℕ) (contents : List Bytes) (payload : Bytes)
    → i < length contents
    → read_inode i (contents ++ payload ∷ []) ≡ read_inode i contents
unfolding read_inode
read_inode-old i [] payload h = absurd (omega (arith, h))
read_inode-old zero (c ∷ contents) payload h = refl
read_inode-old (suc i) (c ∷ contents) payload h =
    read_inode-old i contents payload (omega (arith, h))

-- The highest number of a name in both directories.
abbrev pub highest : Bytes → Files → ℕ
highest name fs = max_seq name (max_seq name 0 fs.control) fs.consumed

-- The files behind a write.
abbrev pub with_signal : Bytes → Bytes → Files → Files
with_signal name payload fs = record fs {
  control = (signal_file_name name (highest name fs + 1), length fs.contents) ∷ fs.control;
  contents = fs.contents ++ payload ∷ [];
}

module _ (name payload : Bytes) (fs : Files) (decodable : is_decodable name ≡ true)
    (fits : highest name fs + 1 < 2 ^ 63) where
  reads_back :
      parse_signal_file_name (signal_file_name name (highest name fs + 1))
      ≡ some (name, highest name fs + 1)
  reads_back =
      parse_signal_file_name-signal_file_name name (highest name fs + 1) (omega arith) fits
      ∙ rw decodable

  UpTo-control : UpTo name (highest name fs) fs.control
  UpTo-control =
      UpTo-le name (max_seq name 0 fs.control) (highest name fs) fs.control
        (max_seq-ge name (max_seq name 0 fs.control) fs.consumed) (max_seq-UpTo name 0 fs.control)

  new_file : lookup (signal_file_name name (highest name fs + 1)) fs.control ≡ none
  new_file = elim (Option-cases (lookup (signal_file_name name (highest name fs + 1)) fs.control)) [
    | inl absent ↦ absent
    | inr (i, present) ↦
        let above =
          lookup-UpTo name (signal_file_name name (highest name fs + 1)) (highest name fs)
            (highest name fs + 1) i fs.control UpTo-control present reads_back in
        absurd (omega (arith, above))
  ]

  open_new-writing :
      (left : ℕ)
      → open_new name left (highest name fs + 1) fs
        ≡ (with_signal name [] fs, writing (length fs.contents) (highest name fs + 1))
  unfolding open_new
  open_new-writing left = rw (new_file, open_new)

  write_signal-sent :
      validate_signal_name name ≡ true
      → write_signal name payload fs ≡ (with_signal name payload fs, sent (highest name fs + 1))
  unfolding write_signal write_alone write_step start_write
  write_signal-sent valid =
      rw valid (rw (open_new-writing 49, write_inode-append fs.contents payload))

-- The directories name files that exist.
abbrev pub IsBound : Files → Type 0
IsBound fs = All (λ (e : Bytes × ℕ). e.1 < length fs.contents) fs.control

lookup-bound :
    (f : Bytes) (i n : ℕ) (entries : Map ℕ)
    → All (λ (e : Bytes × ℕ). e.1 < n) entries
    → lookup f entries ≡ some i
    → i < n
unfolding lookup
lookup-bound f i n [] all h = absurd (cc h)
lookup-bound f i n ((g, j) ∷ entries) all h = elim (Bool-cases (bytes_eq g f)) [
  | inl same ↦ ground (arith, h, same, all.0)
  | inr other ↦
      let later : lookup f entries ≡ some i = ground (arith, h, other) in
      lookup-bound f i n entries all.1 later
]

-- The files once the new signal has been taken.
abbrev pub taken : Bytes → Bytes → Files → Files
taken name payload fs = record fs {
  consumed = insert (signal_file_name name (highest name fs + 1)) (length fs.contents) fs.consumed;
  contents = fs.contents ++ payload ∷ [];
}

module _ (match : Match) (name payload : Bytes) (fs : Files) (decodable : is_decodable name ≡ true)
    (fits : highest name fs + 1 < 2 ^ 63) (bound : IsBound fs)
    (takes : accepts match payload ≡ true)
    (idle : (f : Bytes) (s i : ℕ) → Awaited match name fs f s i → ⊥) where
  -- The new file is the only one that the await takes.
  only_new :
      (f : Bytes) (s i : ℕ)
      → Awaited match name (with_signal name payload fs) f s i
      → (f ≡ signal_file_name name (highest name fs + 1)) × (i ≡ length fs.contents)
  unfolding lookup
  only_new f s i (there, named, accepted) =
      elim (Bool-cases (bytes_eq (signal_file_name name (highest name fs + 1)) f)) [
        | inl same ↦ (
          sym ((bytes_eq_iff (signal_file_name name (highest name fs + 1)) f).0 same),
          ground (arith, there, same),
        )
        | inr other ↦
            let old : lookup f fs.control ≡ some i = ground (arith, there, other) in
            let below = lookup-bound f i (length fs.contents) fs.control bound old in
            absurd (
              idle f s i (
                old,
                named,
                ap (accepts match) (sym (read_inode-old i fs.contents payload below)) ∙ accepted,
              ))
      ]

  new-Awaited :
      Awaited match name
        (with_signal name payload fs)
        (signal_file_name name (highest name fs + 1))
        (highest name fs + 1)
        (length fs.contents)
  unfolding lookup
  new-Awaited = (
    rw (bytes_eq_refl (signal_file_name name (highest name fs + 1))),
    reads_back name payload fs decodable fits,
    ap (accepts match) (read_inode-append fs.contents payload) ∙ takes,
  )

  delivery :
      (r : Files × ReadPhase) (f : Bytes) (s i : ℕ)
      → Delivers match name (with_signal name payload fs) r f s i
      → r ≡ (
        taken name payload fs,
        got (record { name = name; seq = highest name fs + 1; payload = payload }),
      )
  unfolding unlink
  delivery r f s i (awaited, comes) =
      let (file, inode) = only_new f s i awaited in
      let named : parse_signal_file_name (signal_file_name name (highest name fs + 1))
          ≡ some (name, s) =
        rw (← file) awaited.1 in
      let seq : s ≡ highest name fs + 1 = cc (named, reads_back name payload fs decodable fits) in
      comes
      ∙ rw (
        file,
        inode,
        seq,
        read_inode-append fs.contents payload,
        bytes_eq_refl (signal_file_name name (highest name fs + 1)),
      )

  -- A signal whose name its file can carry, and that nothing interrupts: WriteSignal gives it the
  -- next number of its name, and the poll of an await that takes it, and had nothing to take
  -- before, delivers exactly its name, its number and its payload, leaving its file in consumed/
  -- and the control directory as it was.
  pub try_consume-write_signal :
      validate_signal_name name ≡ true
      → ((write_signal name payload fs).1 ≡ sent (highest name fs + 1))
        × (try_consume match name (write_signal name payload fs).0 ≡ (
          taken name payload fs,
          got (record { name = name; seq = highest name fs + 1; payload = payload }),
        ))
  try_consume-write_signal valid = rw (write_signal-sent name payload fs decodable fits valid) (
    refl,
    elim (try_consume-Polled match name (with_signal name payload fs)) [
      | inl (nothing, passed) ↦ absurd (
          passed (signal_file_name name (highest name fs + 1)) (highest name fs + 1)
            (length fs.contents) new-Awaited)
      | inr (f, s, i, delivers, earliest) ↦ delivery _ f s i delivers
    ],
  )

-- No uninterrupted poll takes a signal whose name is empty or ends in a hyphen, whatever files are
-- there.
try_consume-undecodable :
    (match : Match) (name : Bytes) (fs : Files)
    → is_decodable name ≡ false
    → try_consume match name fs ≡ (fs, missed)
try_consume-undecodable match name fs undecodable = elim (try_consume-Polled match name fs) [
  | inl (nothing, passed) ↦ nothing
  | inr (f, s, i, (awaited, comes), earliest) ↦
      let yes' = parse_signal_file_name-is_decodable f name s awaited.1 in
      absurd (cc (yes', undecodable))
]

highest-undecodable : (name : Bytes) (fs : Files) → is_decodable name ≡ false → highest name fs ≡ 0
highest-undecodable name fs undecodable = rw (
  max_seq-undecodable name 0 fs.control undecodable,
  max_seq-undecodable name 0 fs.consumed undecodable,
)

undecodable_candidates :
    (name : Bytes) (cands : List Candidate)
    → is_decodable name ≡ false
    → All (Named name) cands
    → cands ≡ []
undecodable_candidates name [] undecodable all = refl
undecodable_candidates name (c ∷ cands) undecodable all =
    let carried = parse_signal_file_name-is_decodable c.file_name name c.seq all.0 in
    absurd (cc (carried, undecodable))

-- A name that passes validation and ends in a hyphen, where the control directory has no file of
-- that name with the number 1: an uninterrupted WriteSignal reports success with the number 1, and
-- still no scan of any directory, whatever files it has, finds a candidate of that name, and no
-- uninterrupted poll of that name takes anything, behind the write or in any other state of the
-- files.
pub write_signal-undecodable :
    (match : Match) (name payload : Bytes) (fs : Files)
    → validate_signal_name name ≡ true
    → is_decodable name ≡ false
    → lookup (signal_file_name name 1) fs.control ≡ none
    → ((write_signal name payload fs).1 ≡ sent 1)
      × ((entries : Map ℕ) → sorted_candidates name entries ≡ [])
      × (try_consume match name (write_signal name payload fs).0
          ≡ ((write_signal name payload fs).0, missed))
      × ((fs' : Files) → try_consume match name fs' ≡ (fs', missed))
unfolding write_signal write_alone write_step start_write open_new
write_signal-undecodable match name payload fs valid undecodable fresh = (
  rw valid (rw (highest-undecodable name fs undecodable) (rw (fresh, open_new))),
  λ entries.
      undecodable_candidates name (sorted_candidates name entries) undecodable
        (sorted_candidates-Named name entries),
  try_consume-undecodable match name _ undecodable,
  λ fs'. try_consume-undecodable match name fs' undecodable,
)
