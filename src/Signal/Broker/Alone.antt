-- ===== src/Signal/Broker/Alone.antt =====
-- The calls of the broker that no other call comes between (signal/broker.go).
use awf.Prelude.{
  ℕ, zero, suc, ◌+◌, ◌≡◌, ◌≤◌, ◌⊎◌, inl, inr, refl, sym, ◌∙◌, Bytes, true, false, List, [], ◌∷◌,
  none, some, All, Bool-cases, Option-cases, length, arith,
}
use awf.Prelude.Map.{lookup, insert}
use awf.Signal.Paths.{parse_signal_file_name}
use awf.Signal.Broker.{
  Files, Candidate, Delivery, Match, WritePhase, ReadPhase, looking, picking, taking, got, missed,
  accepts, eligible, claim, read_inode, unlink, sorted_candidates, read_step, write_step,
  start_write,
}
use awf.Signal.Broker.Names.{
  Ascending, Has, Named, sorted_candidates-Ascending, sorted_candidates-Named,
  sorted_candidates-Has, Present, sorted_candidates-Present,
}

-- Some calls of the file system in a row, none of which fails.
unfoldable pub read_alone : Match → Bytes → ℕ → Files → ReadPhase → Files × ReadPhase
read_alone match name zero fs p = (fs, p)
read_alone match name (suc n) fs p =
    let next = read_step false match name fs p in read_alone match name n next.0 next.1

unfoldable pub write_alone : Bytes → Bytes → ℕ → Files → WritePhase → Files × WritePhase
write_alone name payload zero fs p = (fs, p)
write_alone name payload (suc n) fs p =
    let next = write_step false name payload fs p in write_alone name payload n next.0 next.1

-- One poll of Receive or ReceiveMatching: the calls that the longest list of candidates takes.
unfoldable pub try_consume : Match → Bytes → Files → Files × ReadPhase
try_consume match name fs =
    read_alone match name (suc (length (sorted_candidates name fs.control) + 4)) fs looking

-- WriteSignal
unfoldable pub write_signal : Bytes → Bytes → Files → Files × WritePhase
write_signal name payload fs = write_alone name payload 6 fs (start_write name)

read_alone_got :
    (match : Match) (name : Bytes) (n : ℕ) (fs : Files) (d : Delivery)
    → read_alone match name n fs (got d) ≡ (fs, got d)
unfolding read_alone read_step
read_alone_got match name zero fs d = refl
read_alone_got match name (suc n) fs d = read_alone_got match name n fs d

read_alone_missed :
    (match : Match) (name : Bytes) (n : ℕ) (fs : Files)
    → read_alone match name n fs missed ≡ (fs, missed)
unfolding read_alone read_step
read_alone_missed match name zero fs = refl
read_alone_missed match name (suc n) fs = read_alone_missed match name n fs

module _ (match : Match) (name : Bytes) (fs : Files) where
  -- A file of the name, with its number, and content that the await takes.
  abbrev pub Awaited : Bytes → ℕ → ℕ → Type 0
  Awaited f s i =
      (lookup f fs.control ≡ some i)
      × (parse_signal_file_name f ≡ some (name, s))
      × (accepts match (read_inode i fs.contents) ≡ true)

  abbrev moved : Bytes → ℕ → Files
  moved f i = record fs { control = unlink f fs.control; consumed = insert f i fs.consumed }

  -- The file of a delivery, and what else the delivery did.
  abbrev pub Delivers : Files × ReadPhase → Bytes → ℕ → ℕ → Type 0
  Delivers r f s i =
      Awaited f s i
      × (r ≡ (moved f i, got (record { name = name; seq = s; payload = read_inode i fs.contents })))

  -- None of some candidates is awaited.
  abbrev Passed : List Candidate → Type 0
  Passed cands = (f : Bytes) (s i : ℕ) → Awaited f s i → Has f s cands → ⊥

  abbrev First : Files × ReadPhase → List Candidate → Type 0
  First r cands =
      ((r ≡ (fs, missed)) × Passed cands)
      ⊎ ((f : Bytes) × (s : ℕ) × (i : ℕ) × Delivers r f s i
          × ((g : Bytes) (t j : ℕ) → Awaited g t j → Has g t cands → s ≤ t))

All-Has :
    (n : ℕ) (f : Bytes) (s : ℕ) (cands : List Candidate)
    → All (λ (d : Candidate). n ≤ d.seq) cands
    → Has f s cands
    → n ≤ s
All-Has n f s [] all h = absurd h
All-Has n f s (c ∷ cands) all (inl (_, same)) = omega (arith, same, all.0)
All-Has n f s (c ∷ cands) all (inr h) = All-Has n f s cands all.1 h

module _ (match : Match) (name : Bytes) (fs : Files) where
  -- A candidate that is not awaited is passed by.
  First-skip :
      (r : Files × ReadPhase) (c : Candidate) (cands : List Candidate)
      → ((i : ℕ) → Awaited match name fs c.file_name c.seq i → ⊥)
      → First match name fs r cands
      → First match name fs r (c ∷ cands)
  First-skip r c cands skipped (inl (nothing, passed)) = inl (
    nothing,
    λ f s i awaited has. elim has [
      | inl (file, seq) ↦ skipped i (rw (file, seq) awaited)
      | inr rest ↦ passed f s i awaited rest
    ],
  )
  First-skip r c cands skipped (inr (f, s, i, delivers, earliest)) = inr (
    f,
    s,
    i,
    delivers,
    λ g t j awaited has. elim has [
      | inl (file, seq) ↦ absurd (skipped j (rw (file, seq) awaited))
      | inr rest ↦ earliest g t j awaited rest
    ],
  )

  claimed :
      (c : Candidate) (i : ℕ) (rest : List Candidate) (n : ℕ)
      → lookup c.file_name fs.control ≡ some i
      → read_alone match name (suc (suc n)) fs (taking c (read_inode i fs.contents) rest) ≡ (
        moved match name fs c.file_name i,
        got (record { name = name; seq = c.seq; payload = read_inode i fs.contents }),
      )
  unfolding read_alone read_step claim
  claimed c i rest n present = rw (present, claim) (read_alone_got match name n _ _)

  read_alone-step :
      (n : ℕ) (p q : ReadPhase)
      → read_step false match name fs p ≡ (fs, q)
      → read_alone match name (suc n) fs p ≡ read_alone match name n fs q
  unfolding read_alone
  read_alone-step n p q step = rw (step, read_alone)

  step_gone :
      (c : Candidate) (cands : List Candidate)
      → lookup c.file_name fs.control ≡ none
      → read_step false match name fs (picking (c ∷ cands)) ≡ (fs, picking cands)
  unfolding read_step
  step_gone c cands gone = rw (gone, read_step)

  step_other :
      (c : Candidate) (cands : List Candidate) (i : ℕ)
      → lookup c.file_name fs.control ≡ some i
      → accepts match (read_inode i fs.contents) ≡ false
      → read_step false match name fs (picking (c ∷ cands)) ≡ (fs, picking cands)
  unfolding read_step
  step_other c cands i present other = ground (arith, present, other)

  step_taken :
      (c : Candidate) (cands : List Candidate) (i : ℕ)
      → lookup c.file_name fs.control ≡ some i
      → accepts match (read_inode i fs.contents) ≡ true
      → read_step false match name fs (picking (c ∷ cands))
        ≡ (fs, taking c (read_inode i fs.contents) cands)
  unfolding read_step
  step_taken c cands i present takes = ground (arith, present, takes)

  picked_nothing : (n : ℕ) → read_alone match name (suc n) fs (picking []) ≡ (fs, missed)
  unfolding read_alone read_step
  picked_nothing n = read_alone_missed match name n fs

  picked :
      (cands : List Candidate) (n : ℕ)
      → length cands + 3 ≤ n
      → Ascending cands
      → All (Named name) cands
      → First match name fs (read_alone match name n fs (picking cands)) cands
  picked [] zero enough sorted named = absurd (omega (arith, enough))
  picked [] (suc n) enough sorted named = inl (picked_nothing n, λ f s i awaited h. h)
  picked (c ∷ cands) zero enough sorted named = absurd (omega (arith, enough))
  picked (c ∷ cands) (suc zero) enough sorted named = absurd (omega (arith, enough))
  picked (c ∷ cands) (suc (suc zero)) enough sorted named = absurd (omega (arith, enough))
  picked (c ∷ cands) (suc (suc (suc n))) enough sorted named =
      let later = picked cands (suc (suc n)) (omega (arith, enough)) sorted.1 named.1 in
      let step = read_alone-step (suc (suc n)) (picking (c ∷ cands)) in
      elim (Option-cases (lookup c.file_name fs.control)) [
        | inl gone ↦
            rw (step (picking cands) (step_gone c cands gone))
              (First-skip _ c cands (λ i awaited. absurd (cc (gone, awaited.0))) later)
        | inr (i, present) ↦ elim (Bool-cases (accepts match (read_inode i fs.contents))) [
          | inr other ↦ rw (step (picking cands) (step_other c cands i present other)) (
              First-skip _ c cands
                (λ j awaited.
                  let same : i ≡ j = cc (present, awaited.0) in
                  let no : true ≡ false = sym awaited.2 ∙ rw (← same) other in absurd (cc no))
                later)
          | inl takes ↦ inr (
            c.file_name,
            c.seq,
            i,
            (
              (present, named.0, takes),
              step (taking c (read_inode i fs.contents) cands) (step_taken c cands i present takes)
                  ∙ claimed c i cands n present,
            ),
            λ g t j awaited has. elim has [
              | inl (file, seq) ↦ omega (arith, seq)
              | inr rest ↦ All-Has c.seq g t cands sorted.0 rest
            ],
          )
        ]
      ]

-- What a poll comes to.
abbrev pub Polled : Match → Bytes → Files → Type 0
Polled match name fs =
    ((try_consume match name fs ≡ (fs, missed))
      × ((f : Bytes) (s i : ℕ) → Awaited match name fs f s i → ⊥))
    ⊎ ((f : Bytes) × (s : ℕ) × (i : ℕ) × Delivers match name fs (try_consume match name fs) f s i
        × ((g : Bytes) (t j : ℕ) → Awaited match name fs g t j → s ≤ t))

-- The only candidate that tryConsume looks at is the least.
First-whole :
    (name : Bytes) (fs : Files) (r : Files × ReadPhase) (cands : List Candidate)
    → Ascending cands
    → All (Named name) cands
    → All (Present fs.control) cands
    → First none name fs r (eligible none cands)
    → First none name fs r cands
unfolding eligible accepts
First-whole name fs r [] sorted named present first = first
First-whole name fs r (c ∷ cands) sorted named ((i, there), present) (inl (nothing, passed)) =
    absurd (passed c.file_name c.seq i (there, named.0, refl) (inl (refl, refl)))
First-whole name fs r (c ∷ cands) sorted named ((i, there), present)
      (inr (f, s, j, took, earliest)) =
    let least = earliest c.file_name c.seq i (there, named.0, refl) (inl (refl, refl)) in
    inr (
      f,
      s,
      j,
      took,
      λ g t k awaited has. elim has [
        | inl (file, seq) ↦ omega (arith, seq, least)
        | inr rest ↦ omega (arith, least, All-Has c.seq g t cands sorted.0 rest)
      ],
    )

try_consume-picking :
    (match : Match) (name : Bytes) (fs : Files)
    → try_consume match name fs
      ≡ read_alone match name
          (length (sorted_candidates name fs.control) + 4)
          fs
          (picking (eligible match (sorted_candidates name fs.control)))
unfolding try_consume read_alone read_step
try_consume-picking match name fs = refl

eligible-none :
    (name : Bytes) (fs : Files) (cands : List Candidate)
    → Ascending cands
    → All (Named name) cands
    → First none name fs
        (read_alone none name (length cands + 4) fs (picking (eligible none cands)))
        (eligible none cands)
unfolding eligible
eligible-none name fs [] sorted named = picked none name fs [] 4 (omega arith) tt tt
eligible-none name fs (c ∷ cands) sorted named =
    picked none name fs (c ∷ []) (length (c ∷ cands) + 4) (omega arith) (tt, tt) (named.0, tt)

eligible-picked :
    (match : Match) (name : Bytes) (fs : Files)
    → First match name fs (try_consume match name fs) (sorted_candidates name fs.control)
eligible-picked none name fs =
    let sorted = sorted_candidates-Ascending name fs.control in
    let named = sorted_candidates-Named name fs.control in
    rw (try_consume-picking none name fs) (
      First-whole name fs _ (sorted_candidates name fs.control) sorted named
        (sorted_candidates-Present name fs.control)
        (eligible-none name fs (sorted_candidates name fs.control) sorted named))
eligible-picked (some matches) name fs = rw (try_consume-picking (some matches) name fs) (
    unfold eligible in
    picked (some matches) name fs (sorted_candidates name fs.control)
      (length (sorted_candidates name fs.control) + 4) (omega arith)
      (sorted_candidates-Ascending name fs.control) (sorted_candidates-Named name fs.control))

-- One poll of an await that nothing interrupts consumes, of the signals of its name that it takes,
-- one with the least number, with the content of its file and no other file touched; where there
-- is none, it changes nothing.
pub try_consume-Polled : (match : Match) (name : Bytes) (fs : Files) → Polled match name fs
try_consume-Polled match name fs =
    let has = λ (g : Bytes) (t j : ℕ) (awaited : Awaited match name fs g t j).
      sorted_candidates-Has name g t j fs.control awaited.0 awaited.1 in
    elim (eligible-picked match name fs) [
      | inl (nothing, passed) ↦
          inl (nothing, λ f s i awaited. passed f s i awaited (has f s i awaited))
      | inr (f, s, i, took, earliest) ↦
          inr (f, s, i, took, λ g t j awaited. earliest g t j awaited (has g t j awaited))
    ]
