-- ===== src/Signal/Broker/Interleaved.antt =====
-- Writers and readers of one control directory, interleaved call by call (signal/broker.go).
pub mod Conserved
use awf.Prelude.{
  ℕ, zero, suc, ◌+◌, ◌≡◌, refl, inl, inr, Bytes, bytes_eq, Bool, true, false, List, [], ◌∷◌, ◌++◌,
  Option, none, some, if◌then◌else◌, length, length-append, Bool-cases, Option-cases, arith,
}
use awf.Prelude.Map.{Map, lookup}
use awf.Signal.Paths.{signal_file_name}
use awf.Signal.Broker.{
  Files, Candidate, Delivery, Match, WritePhase, ReadPhase, preparing, counting, counting_consumed,
  opening, writing, closing, sent, withdrawn, refused, looking, picking, taking, claiming,
  verifying, got, missed, failed, accepts, unlink, write_inode, open_new, withdraw, claim,
  write_step, read_step, start_write,
}

-- A call of WriteSignal, and one of Receive or ReceiveMatching.
pub record Writer : Type 0 where
  pub name : Bytes
  pub payload : Bytes
  pub phase : WritePhase

pub record Reader : Type 0 where
  pub name : Bytes
  pub match : Match
  pub phase : ReadPhase

-- The next call of the file system by the writer or the reader at a place.
unfoldable pub move_writer : ℕ → Bool → Files → List Writer → Files × List Writer
move_writer i fault fs [] = (fs, [])
move_writer zero fault fs (w ∷ writers) =
    let r = write_step fault w.name w.payload fs w.phase in
    (r.0, record w { phase = r.1 } ∷ writers)
move_writer (suc i) fault fs (w ∷ writers) =
    let r = move_writer i fault fs writers in (r.0, w ∷ r.1)

unfoldable pub move_reader : ℕ → Bool → Files → List Reader → Files × List Reader
move_reader i fault fs [] = (fs, [])
move_reader zero fault fs (r ∷ readers) =
    let m = read_step fault r.match r.name fs r.phase in (m.0, record r { phase = m.1 } ∷ readers)
move_reader (suc i) fault fs (r ∷ readers) =
    let m = move_reader i fault fs readers in (m.0, r ∷ m.1)

-- The ticker fires: a poll that missed looks again.
unfoldable pub tick : ReadPhase → ReadPhase
tick missed = looking
tick p = p

unfoldable pub tick_reader : ℕ → List Reader → List Reader
unfolding tick
tick_reader i [] = []
tick_reader zero (r ∷ readers) = record r { phase = tick r.phase } ∷ readers
tick_reader (suc i) (r ∷ readers) = r ∷ tick_reader i readers

pub record System : Type 0 where
  pub files : Files
  pub writers : List Writer
  pub readers : List Reader

abbrev pub with_writers : System → Files × List Writer → System
with_writers s (fs, writers) = record s { files = fs; writers = writers }

abbrev pub with_readers : System → Files × List Reader → System
with_readers s (fs, readers) = record s { files = fs; readers = readers }

pub data Step : System → System → Type 0 where
  sends :
      (s : System) (name payload : Bytes)
      → Step s (record s {
        writers = record { name = name; payload = payload; phase = start_write name } ∷ s.writers;
      })
  awaits :
      (s : System) (name : Bytes) (match : Match)
      → Step s (record s {
        readers = record { name = name; match = match; phase = looking } ∷ s.readers;
      })
  writes :
      (s : System) (i : ℕ) (fault : Bool)
      → Step s (with_writers s (move_writer i fault s.files s.writers))
  reads :
      (s : System) (i : ℕ) (fault : Bool)
      → Step s (with_readers s (move_reader i fault s.files s.readers))
  ticks : (s : System) (i : ℕ) → Step s (record s { readers = tick_reader i s.readers })

abbrev pub quiet : System
quiet = record {
  files = record { control = []; consumed = []; contents = [] };
  writers = [];
  readers = [];
}

-- The states that a run comes through, from a directory that is empty.
pub data Reach : System → Type 0 where
  start : Reach quiet
  later : {s t : System} → Reach s → Step s t → Reach t

unfoldable pub is_withdrawn : WritePhase → ℕ
is_withdrawn withdrawn = 1
is_withdrawn p = 0

unfoldable pub is_delivered : ReadPhase → ℕ
is_delivered (got d) = 1
is_delivered p = 0

-- The writes that took their file back, and the deliveries.
unfoldable pub withdrawals : List Writer → ℕ
unfolding is_withdrawn
withdrawals [] = 0
withdrawals (w ∷ writers) = is_withdrawn w.phase + withdrawals writers

unfoldable pub deliveries : List Reader → ℕ
unfolding is_delivered
deliveries [] = 0
deliveries (r ∷ readers) = is_delivered r.phase + deliveries readers
