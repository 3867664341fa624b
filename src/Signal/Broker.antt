-- ===== src/Signal/Broker.antt =====
-- signal/broker.go: the named signals of a run, as files of its control directory.
--
-- A call of the file system is one step, which `fault` makes fail; a file keeps its inode when it
-- is renamed, and a writer writes to the inode that it opened. The files of the two directories
-- are listed; a directory that is missing is an empty one. Numbers of signals stay below 2 ^ 63.
pub mod Names
pub mod Alone
pub mod Sending
pub mod Interleaved
use awf.Prelude.{
  ℕ, zero, suc, ◌+◌, Bytes, Bool, true, false, List, [], ◌∷◌, ◌++◌, Option, none, some, ltb, leb,
  if◌then◌else◌, bytes_eq, length, ◌&&◌,
}
use awf.Prelude.Map.{Map, lookup, insert}
use awf.Signal.Paths.{signal_file_name, parse_signal_file_name, validate_signal_name}

-- The names in the control directory and in consumed/, with their inodes, and what these hold.
pub record Files : Type 0 where
  pub control : Map ℕ
  pub consumed : Map ℕ
  pub contents : List Bytes

unfoldable pub read_inode : ℕ → List Bytes → Bytes
read_inode i [] = []
read_inode zero (c ∷ cs) = c
read_inode (suc i) (c ∷ cs) = read_inode i cs

unfoldable pub write_inode : ℕ → Bytes → List Bytes → List Bytes
write_inode i payload [] = []
write_inode zero payload (c ∷ cs) = payload ∷ cs
write_inode (suc i) payload (c ∷ cs) = c ∷ write_inode i payload cs

-- A directory has one entry for each name.
unfoldable pub unlink : Bytes → Map ℕ → Map ℕ
unlink f [] = []
unlink f ((g, i) ∷ entries) = if bytes_eq g f then entries else (g, i) ∷ unlink f entries

-- The body of nextSeq's loop: the number of a file that is the name's, where it is higher.
unfoldable pub raise_seq : Bytes → Bytes → ℕ → ℕ
raise_seq name f highest = elim (parse_signal_file_name f) [
  | none ↦ highest
  | some (n, seq) ↦ if bytes_eq n name && ltb highest seq then seq else highest
]

-- The loop of nextSeq over one directory.
unfoldable pub max_seq : Bytes → ℕ → Map ℕ → ℕ
max_seq name highest [] = highest
max_seq name highest ((f, i) ∷ entries) = max_seq name (raise_seq name f highest) entries

-- signal/broker.go, candidate
pub record Candidate : Type 0 where
  pub seq : ℕ
  pub file_name : Bytes

unfoldable pub insert_candidate : Candidate → List Candidate → List Candidate
insert_candidate c [] = c ∷ []
insert_candidate c (d ∷ cands) =
    if leb c.seq d.seq then c ∷ d ∷ cands else d ∷ insert_candidate c cands

-- The candidates of a name, ascending by number.
unfoldable pub sorted_candidates : Bytes → Map ℕ → List Candidate
unfolding insert_candidate
sorted_candidates name [] = []
sorted_candidates name ((f, i) ∷ entries) =
    let rest = sorted_candidates name entries in
    elim (parse_signal_file_name f) [
      | none ↦ rest
      | some (n, seq) ↦
          if bytes_eq n name
          then insert_candidate (record { seq = seq; file_name = f }) rest
          else rest
    ]

pub data WriteError : Type 0 where
  bad_name mkdir_failed read_dir_failed open_failed write_failed close_failed contended : WriteError

-- Where a call of WriteSignal stands: before its mkdir; with attempts left, before it reads the
-- control directory, and before consumed/ with the highest number so far; before it opens the
-- file of a number; with the file open, before its write and before its close; at its end. A
-- failed write removes the file, where it still is (`withdrawn`), before the error.
pub data WritePhase : Type 0 where
  preparing : WritePhase
  counting : ℕ → WritePhase
  counting_consumed : ℕ → ℕ → WritePhase
  opening : ℕ → ℕ → WritePhase
  writing closing : ℕ → ℕ → WritePhase
  sent : ℕ → WritePhase
  withdrawn : WritePhase
  refused : WriteError → WritePhase

abbrev pub max_attempts : ℕ
max_attempts = 50

unfoldable pub start_write : Bytes → WritePhase
start_write name = if validate_signal_name name then preparing else refused bad_name

-- os.OpenFile with O_EXCL
unfoldable pub open_new : Bytes → ℕ → ℕ → Files → Files × WritePhase
open_new name left seq fs = elim (lookup (signal_file_name name seq) fs.control) [
  | some _ ↦ (fs, counting left)
  | none ↦ (
    record fs {
      control = (signal_file_name name seq, length fs.contents) ∷ fs.control;
      contents = fs.contents ++ [] ∷ [];
    },
    writing (length fs.contents) seq,
  )
]

-- os.Remove behind a write that failed
unfoldable pub withdraw : Bytes → ℕ → Files → Files × WritePhase
withdraw name seq fs = elim (lookup (signal_file_name name seq) fs.control) [
  | none ↦ (fs, refused write_failed)
  | some _ ↦ (record fs { control = unlink (signal_file_name name seq) fs.control }, withdrawn)
]

-- WriteSignal, from one call of the file system to the next.
unfoldable pub write_step : Bool → Bytes → Bytes → Files → WritePhase → Files × WritePhase
write_step fault name payload fs preparing =
    (fs, if fault then refused mkdir_failed else counting max_attempts)
write_step fault name payload fs (counting zero) = (fs, refused contended)
write_step fault name payload fs (counting (suc left)) = (
  fs,
  if fault then refused read_dir_failed else counting_consumed left (max_seq name 0 fs.control),
)
write_step fault name payload fs (counting_consumed left highest) = (
  fs,
  if fault then refused read_dir_failed else opening left (max_seq name highest fs.consumed + 1),
)
write_step fault name payload fs (opening left seq) =
    if fault then (fs, refused open_failed) else open_new name left seq fs
write_step fault name payload fs (writing i seq) =
    if fault
    then withdraw name seq fs
    else (record fs { contents = write_inode i payload fs.contents }, closing i seq)
write_step fault name payload fs (closing i seq) =
    (fs, if fault then refused close_failed else sent seq)
write_step fault name payload fs (sent seq) = (fs, sent seq)
write_step fault name payload fs withdrawn = (fs, withdrawn)
write_step fault name payload fs (refused e) = (fs, refused e)

pub record Delivery : Type 0 where
  pub name : Bytes
  pub seq : ℕ
  pub payload : Bytes

pub data ReadError : Type 0 where
  bad_signal_name read_failed mkdir_consumed_failed rename_failed verify_failed : ReadError

-- Where a call of tryConsume or tryConsumeMatching stands: before it reads the directory; before
-- it reads the file of the first of its candidates; with its payload, before the mkdir of
-- consumed/ and before the rename; behind a rename that found no source; at its end.
pub data ReadPhase : Type 0 where
  looking : ReadPhase
  picking : List Candidate → ReadPhase
  taking claiming : Candidate → Bytes → List Candidate → ReadPhase
  verifying : Candidate → List Candidate → ReadPhase
  got : Delivery → ReadPhase
  missed : ReadPhase
  failed : ReadError → ReadPhase

-- The signals that an await takes: any, or those whose payload its where clause accepts. A
-- predicate that fails is one that does not match.
abbrev pub Match : Type 0
Match = Option (Bytes → Bool)

unfoldable pub accepts : Match → Bytes → Bool
accepts none payload = true
accepts (some matches) payload = matches payload

-- tryConsume looks at the earliest candidate only.
unfoldable pub eligible : Match → List Candidate → List Candidate
eligible none [] = []
eligible none (c ∷ cands) = c ∷ []
eligible (some matches) cands = cands

-- os.Rename into consumed/
unfoldable pub claim : Bytes → Candidate → Bytes → List Candidate → Files → Files × ReadPhase
claim name c payload rest fs = elim (lookup c.file_name fs.control) [
  | none ↦ (fs, verifying c rest)
  | some i ↦ (
    record fs {
      control = unlink c.file_name fs.control;
      consumed = insert c.file_name i fs.consumed;
    },
    got (record { name = name; seq = c.seq; payload = payload }),
  )
]

-- tryConsume and tryConsumeMatching, from one call of the file system to the next.
unfoldable pub read_step : Bool → Match → Bytes → Files → ReadPhase → Files × ReadPhase
unfolding accepts
read_step fault match name fs looking = (
  fs,
  if fault
      then failed read_failed
      else picking (eligible match (sorted_candidates name fs.control)),
)
read_step fault match name fs (picking []) = (fs, missed)
read_step fault match name fs (picking (c ∷ rest)) = (
  fs,
  if fault then failed read_failed else elim (lookup c.file_name fs.control) [
    | none ↦ picking rest
    | some i ↦
        let payload = read_inode i fs.contents in
        if accepts match payload then taking c payload rest else picking rest
  ],
)
read_step fault match name fs (taking c payload rest) =
    (fs, if fault then failed mkdir_consumed_failed else claiming c payload rest)
read_step fault match name fs (claiming c payload rest) =
    if fault then (fs, failed rename_failed) else claim name c payload rest fs
read_step fault match name fs (verifying c rest) = (
  fs,
  if fault then failed verify_failed else elim (lookup c.file_name fs.control) [
    | none ↦ picking rest
    | some i ↦ failed rename_failed
  ],
)
read_step fault match name fs (got d) = (fs, got d)
read_step fault match name fs missed = (fs, missed)
read_step fault match name fs (failed e) = (fs, failed e)
