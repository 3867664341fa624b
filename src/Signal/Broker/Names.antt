-- ===== src/Signal/Broker/Names.antt =====
-- The numbers that nextSeq reads off, and the candidates of a name (signal/broker.go).
use awf.Prelude.{
  ℕ, ◌≡◌, ◌≤◌, ◌⊎◌, inl, inr, refl, Bytes, bytes_eq, bytes_eq_iff, bytes_eq_refl, true, false, List,
  [], ◌∷◌, some, leb, All, Bool-cases, Option-cases, arith,
}
use awf.Prelude.Map.{Map, lookup}
use awf.Signal.Paths.{parse_signal_file_name, is_decodable, parse_seq}
use awf.Signal.Broker.{Candidate, raise_seq, max_seq, insert_candidate, sorted_candidates}

-- The file names of a directory that stand for signals of a name have numbers up to `high`.
abbrev pub UpTo : Bytes → ℕ → Map ℕ → Type 0
UpTo name high entries =
    All (λ (e : Bytes × ℕ). (s : ℕ) → parse_signal_file_name e.0 ≡ some (name, s) → s ≤ high)
      entries

raise_seq-ge : (name f : Bytes) (high : ℕ) → high ≤ raise_seq name f high
unfolding raise_seq
raise_seq-ge name f high = elim (Option-cases (parse_signal_file_name f)) [
  | inl other ↦ rw (other, raise_seq) (omega arith)
  | inr ((n, s), named) ↦ rw (named, raise_seq) (ground arith)
]

raise_seq-covers :
    (name f : Bytes) (high s : ℕ)
    → parse_signal_file_name f ≡ some (name, s)
    → s ≤ raise_seq name f high
unfolding raise_seq
raise_seq-covers name f high s named =
    rw (named, raise_seq) (rw (bytes_eq_refl name) (ground arith))

pub max_seq-ge : (name : Bytes) (high : ℕ) (entries : Map ℕ) → high ≤ max_seq name high entries
unfolding max_seq
max_seq-ge name high [] = omega arith
max_seq-ge name high ((f, i) ∷ entries) =
    omega (arith, raise_seq-ge name f high, max_seq-ge name (raise_seq name f high) entries)

pub max_seq-UpTo :
    (name : Bytes) (high : ℕ) (entries : Map ℕ) → UpTo name (max_seq name high entries) entries
unfolding max_seq
max_seq-UpTo name high [] = tt
max_seq-UpTo name high ((f, i) ∷ entries) =
    let next = raise_seq name f high in
    (
      λ s named. omega (arith, raise_seq-covers name f high s named, max_seq-ge name next entries),
      max_seq-UpTo name next entries,
    )

pub UpTo-le :
    (name : Bytes) (m n : ℕ) (entries : Map ℕ) → m ≤ n → UpTo name m entries → UpTo name n entries
UpTo-le name m n [] h up = tt
UpTo-le name m n (e ∷ entries) h up = (
  λ s named. let least = up.0 s named in omega (arith, h, least),
  UpTo-le name m n entries h up.1,
)

pub lookup-UpTo :
    (name f : Bytes) (high s i : ℕ) (entries : Map ℕ)
    → UpTo name high entries
    → lookup f entries ≡ some i
    → parse_signal_file_name f ≡ some (name, s)
    → s ≤ high
unfolding lookup
lookup-UpTo name f high s i [] up h named = absurd (cc h)
lookup-UpTo name f high s i ((g, j) ∷ entries) up h named = elim (Bool-cases (bytes_eq g f)) [
  | inl same ↦ up.0 s (rw ((bytes_eq_iff g f).0 same) named)
  | inr other ↦
      let later : lookup f entries ≡ some i = ground (arith, h, other) in
      lookup-UpTo name f high s i entries up.1 later named
]

abbrev pub Ascending : List Candidate → Type 0
Ascending [] = Unit
Ascending (c ∷ cands) = All (λ (d : Candidate). c.seq ≤ d.seq) cands × Ascending cands

-- The candidates have one for a file and its number.
abbrev pub Has : Bytes → ℕ → List Candidate → Type 0
Has f s [] = ⊥
Has f s (c ∷ cands) = ((c.file_name ≡ f) × (c.seq ≡ s)) ⊎ Has f s cands

insert_candidate-All :
    (n : ℕ) (c : Candidate) (cands : List Candidate)
    → n ≤ c.seq
    → All (λ (d : Candidate). n ≤ d.seq) cands
    → All (λ (d : Candidate). n ≤ d.seq) (insert_candidate c cands)
unfolding insert_candidate
insert_candidate-All n c [] h all = (h, tt)
insert_candidate-All n c (d ∷ cands) h all = ground (arith, insert_candidate-All n c cands h all.1)

All-trans :
    (m n : ℕ) (cands : List Candidate)
    → m ≤ n
    → All (λ (d : Candidate). n ≤ d.seq) cands
    → All (λ (d : Candidate). m ≤ d.seq) cands
All-trans m n [] h all = tt
All-trans m n (d ∷ cands) h all = (omega arith, All-trans m n cands h all.1)

insert_candidate-Ascending :
    (c : Candidate) (cands : List Candidate)
    → Ascending cands
    → Ascending (insert_candidate c cands)
unfolding insert_candidate
insert_candidate-Ascending c [] h = (tt, tt)
insert_candidate-Ascending c (d ∷ cands) h = elim (Bool-cases (leb c.seq d.seq)) [
  | inl first ↦ rw first ((ground arith, All-trans c.seq d.seq cands (ground arith) h.0), h)
  | inr later ↦ rw later (
    insert_candidate-All d.seq c cands (ground arith) h.0,
    insert_candidate-Ascending c cands h.1,
  )
]

Has-insert_candidate :
    (f : Bytes) (s : ℕ) (c : Candidate) (cands : List Candidate)
    → ((c.file_name ≡ f) × (c.seq ≡ s)) ⊎ Has f s cands
    → Has f s (insert_candidate c cands)
unfolding insert_candidate
Has-insert_candidate f s c [] h = h
Has-insert_candidate f s c (d ∷ cands) h = elim (Bool-cases (leb c.seq d.seq)) [
  | inl first ↦ rw first h
  | inr later ↦ rw later (elim h [
    | inl new ↦ inr (Has-insert_candidate f s c cands (inl new))
    | inr (inl here) ↦ inl here
    | inr (inr old) ↦ inr (Has-insert_candidate f s c cands (inr old))
  ])
]

insert_candidate-Every {ℓ} :
    (P : Candidate → Type ℓ) (c : Candidate) (cands : List Candidate)
    → P c
    → All P cands
    → All P (insert_candidate c cands)
unfolding insert_candidate
insert_candidate-Every P c [] h all = (h, tt)
insert_candidate-Every P c (d ∷ cands) h all = elim (Bool-cases (leb c.seq d.seq)) [
  | inl first ↦ rw first (h, all)
  | inr later ↦ rw later (all.0, insert_candidate-Every P c cands h all.1)
]

pub sorted_candidates-Ascending :
    (name : Bytes) (entries : Map ℕ) → Ascending (sorted_candidates name entries)
unfolding sorted_candidates
sorted_candidates-Ascending name [] = tt
sorted_candidates-Ascending name ((f, i) ∷ entries) =
    let rest = sorted_candidates-Ascending name entries in
    elim (Option-cases (parse_signal_file_name f)) [
      | inl other ↦ rw (other, sorted_candidates) rest
      | inr ((n, s), named) ↦
          rw (named, sorted_candidates)
            (elim (Bool-cases (bytes_eq n name)) [
              | inr other ↦ rw other rest
              | inl same ↦ rw same (
                  insert_candidate-Ascending (record { seq = s; file_name = f })
                    (sorted_candidates name entries) rest)
            ])
    ]

-- A candidate is a file of the directory, whose name it carries.
abbrev pub Named : Bytes → Candidate → Type 0
Named name c = parse_signal_file_name c.file_name ≡ some (name, c.seq)

pub sorted_candidates-Named :
    (name : Bytes) (entries : Map ℕ) → All (Named name) (sorted_candidates name entries)
unfolding sorted_candidates
sorted_candidates-Named name [] = tt
sorted_candidates-Named name ((f, i) ∷ entries) =
    let rest = sorted_candidates-Named name entries in
    elim (Option-cases (parse_signal_file_name f)) [
      | inl other ↦ rw (other, sorted_candidates) rest
      | inr ((n, s), named) ↦
          rw (named, sorted_candidates)
            (elim (Bool-cases (bytes_eq n name)) [
              | inr other ↦ rw other rest
              | inl same ↦
                  let this : parse_signal_file_name f ≡ some (name, s) =
                    rw (← (bytes_eq_iff n name).0 same) named in
                  rw same (
                    insert_candidate-Every (Named name) (record { seq = s; file_name = f })
                      (sorted_candidates name entries) this rest)
            ])
    ]

-- Every file of the name is a candidate.
pub sorted_candidates-Has :
    (name f : Bytes) (s i : ℕ) (entries : Map ℕ)
    → lookup f entries ≡ some i
    → parse_signal_file_name f ≡ some (name, s)
    → Has f s (sorted_candidates name entries)
unfolding sorted_candidates lookup
sorted_candidates-Has name f s i [] h named = absurd (cc h)
sorted_candidates-Has name f s i ((g, j) ∷ entries) h named = elim (Bool-cases (bytes_eq g f)) [
  | inl same ↦
      let it = (bytes_eq_iff g f).0 same in
      rw it (
        rw (named, sorted_candidates)
          (rw (bytes_eq_refl name) (
            Has-insert_candidate f s (record { seq = s; file_name = f })
              (sorted_candidates name entries) (inl (refl, refl)))))
  | inr other ↦
      let rest = sorted_candidates-Has name f s i entries (ground (arith, h, other)) named in
      elim (Option-cases (parse_signal_file_name g)) [
        | inl none_there ↦ rw (none_there, sorted_candidates) rest
        | inr ((n, t), there) ↦
            rw (there, sorted_candidates)
              (elim (Bool-cases (bytes_eq n name)) [
                | inr no_match ↦ rw no_match rest
                | inl match ↦ rw match (
                    Has-insert_candidate f s (record { seq = t; file_name = g })
                      (sorted_candidates name entries) (inr rest))
              ])
      ]
]

-- A file of the directory has the candidate's name.
abbrev pub Present : Map ℕ → Candidate → Type 0
Present entries c = (i : ℕ) × (lookup c.file_name entries ≡ some i)

All-Present :
    (e : Bytes × ℕ) (entries : Map ℕ) (cands : List Candidate)
    → All (Present entries) cands
    → All (Present (e ∷ entries)) cands
unfolding lookup
All-Present e entries [] all = tt
All-Present (f, i) entries (c ∷ cands) ((j, there), all) = (
  elim (Bool-cases (bytes_eq f c.file_name)) [
    | inl same ↦ (i, rw same)
    | inr other ↦ (j, rw other there)
  ],
  All-Present (f, i) entries cands all,
)

pub sorted_candidates-Present :
    (name : Bytes) (entries : Map ℕ) → All (Present entries) (sorted_candidates name entries)
unfolding sorted_candidates lookup
sorted_candidates-Present name [] = tt
sorted_candidates-Present name ((f, i) ∷ entries) =
    let rest =
      All-Present (f, i) entries (sorted_candidates name entries)
        (sorted_candidates-Present name entries) in
    elim (Option-cases (parse_signal_file_name f)) [
      | inl other ↦ rw (other, sorted_candidates) rest
      | inr ((n, s), named) ↦
          rw (named, sorted_candidates)
            (elim (Bool-cases (bytes_eq n name)) [
              | inr other ↦ rw other rest
              | inl same ↦ rw same (
                  insert_candidate-Every (Present ((f, i) ∷ entries))
                    (record { seq = s; file_name = f }) (sorted_candidates name entries)
                    (i, rw (bytes_eq_refl f)) rest)
            ])
    ]

-- No name that its file cannot carry is read off a file.
pub parse_signal_file_name-is_decodable :
    (f name : Bytes) (s : ℕ) → parse_signal_file_name f ≡ some (name, s) → is_decodable name ≡ true
unfolding parse_signal_file_name parse_seq
parse_signal_file_name-is_decodable f name s named = ground arith

raise_seq-undecodable :
    (name f : Bytes) (high : ℕ) → is_decodable name ≡ false → raise_seq name f high ≡ high
unfolding raise_seq
raise_seq-undecodable name f high undecodable = elim (Option-cases (parse_signal_file_name f)) [
  | inl other ↦ rw (other, raise_seq)
  | inr ((n, s), named) ↦
      let good = parse_signal_file_name-is_decodable f n s named in
      let differ : bytes_eq n name ≡ false =
        ground (arith, good, undecodable, bytes_eq_iff n name) in
      rw (named, raise_seq) (rw differ)
]

-- Files that carry another name leave the count alone.
pub max_seq-undecodable :
    (name : Bytes) (high : ℕ) (entries : Map ℕ)
    → is_decodable name ≡ false
    → max_seq name high entries ≡ high
unfolding max_seq
max_seq-undecodable name high [] undecodable = refl
max_seq-undecodable name high ((f, i) ∷ entries) undecodable =
    rw (raise_seq-undecodable name f high undecodable)
      (max_seq-undecodable name high entries undecodable)
