-- ===== src/Signal/Examples.antt =====
-- Signals of a run (signal/broker.go): one that is sent and taken, and two schedules that go wrong.
use awf.Prelude.{
  true, ℕ, ◌≡◌, refl, Bytes, codes, bytes_eq, false, [], ◌∷◌, ◌++◌, none, some, arith,
}
use awf.Prelude.Map.{Map, lookup, insert}
use awf.Prelude.Decimal.{itoa, digits, value}
use awf.Signal.Paths.{
  cut_prefix, cut_suffix, cut_last, all_digits, digits_value, atoi, is_decodable, parse_seq,
  parse_signal_file_name, signal_file_name, validate_signal_name,
}
use awf.Signal.Paths.RoundTrip.{parse_signal_file_name-signal_file_name}
use awf.Signal.Broker.{
  Files, Match, withdraw, withdrawn, got, missed, sent, accepts, read_inode, write_inode, unlink,
  raise_seq, max_seq, insert_candidate, sorted_candidates, eligible, open_new, claim, start_write,
  write_step, read_step,
}
use awf.Signal.Broker.Alone.{Polled, try_consume, try_consume-Polled, write_signal}
use awf.Signal.Broker.Sending.{taken, try_consume-write_signal, write_signal-undecodable}
use awf.Signal.Broker.Interleaved.{
  System, Reach, quiet, start, later, sends, awaits, writes, reads, with_writers, with_readers,
  move_writer, move_reader,
}
use awf.Signal.Broker.Interleaved.Conserved.{Conserved, Reach-Conserved}

abbrev go : Bytes
go = codes "go"

-- Number 2 and number 1 of a name, and a file that is no signal.
abbrev pending : Files
pending = record {
  control =
      (codes "signal-go-2.json", 0) ∷ (codes "pause.json", 1) ∷ (codes "signal-go-1.json", 2) ∷ [];
  consumed = [];
  contents = codes "b" ∷ codes "{}" ∷ codes "a" ∷ [];
}

abbrev empty : Files
empty = record { control = []; consumed = []; contents = [] }

parse_signal_file_name-signal_file_name_example :
    parse_signal_file_name (signal_file_name go 12) ≡ some (go, 12)
unfolding is_decodable
parse_signal_file_name-signal_file_name_example =
    parse_signal_file_name-signal_file_name go 12 (omega arith) (omega arith)

-- A sign and leading zeros are read as well.
reads_plus : parse_signal_file_name (codes "signal-go-+07.json") ≡ some (go, 7)
unfolding parse_signal_file_name cut_prefix cut_suffix cut_last is_decodable parse_seq atoi
    digits_value all_digits value bytes_eq
reads_plus = refl

try_consume-Polled_example : Polled none go pending
try_consume-Polled_example = try_consume-Polled none go pending

try_consume-write_signal_example :
    ((write_signal go (codes "x") empty).1 ≡ sent 1)
    × (try_consume none go (write_signal go (codes "x") empty).0
        ≡ (taken go (codes "x") empty, got (record { name = go; seq = 1; payload = codes "x" })))
unfolding max_seq accepts is_decodable validate_signal_name lookup
try_consume-write_signal_example =
    try_consume-write_signal none go (codes "x") empty refl (omega arith) tt refl
      (λ f s i awaited. cc (awaited.0)) refl

write_signal-undecodable_example :
    ((write_signal (codes "go-") [] empty).1 ≡ sent 1)
    × ((entries : Map ℕ) → sorted_candidates (codes "go-") entries ≡ [])
    × (try_consume none (codes "go-") (write_signal (codes "go-") [] empty).0
        ≡ ((write_signal (codes "go-") [] empty).0, missed))
    × ((fs' : Files) → try_consume none (codes "go-") fs' ≡ (fs', missed))
unfolding is_decodable validate_signal_name lookup
write_signal-undecodable_example =
    write_signal-undecodable none (codes "go-") [] empty refl refl refl

-- One call of the first writer, or of the first reader.
abbrev w : System → System
w s = with_writers s (move_writer 0 false s.files s.writers)

abbrev r : System → System
r s = with_readers s (move_reader 0 false s.files s.readers)

abbrev one_each : System
one_each = record quiet {
  writers = record { name = go; payload = codes "x"; phase = start_write go } ∷ [];
  readers = record { name = go; match = none; phase = awf.Signal.Broker.looking } ∷ [];
}

-- The reader comes between the writer's open and its write.
abbrev torn : System
torn = w (w (r (r (r (r (w (w (w (w one_each)))))))))

torn-Reach : Reach torn
torn-Reach =
    let one = later (later start (sends _ go (codes "x"))) (awaits _ go none) in
    let opened' =
      later (later (later (later one (writes _ 0 false)) (writes _ 0 false)) (writes _ 0 false))
        (writes _ 0 false) in
    let read =
      later (later (later (later opened' (reads _ 0 false)) (reads _ 0 false)) (reads _ 0 false))
        (reads _ 0 false) in
    later (later read (writes _ 0 false)) (writes _ 0 false)

Reach-Conserved_example : Conserved torn
Reach-Conserved_example = Reach-Conserved torn-Reach

-- The reader delivers an empty payload, and the writer reports success.
torn_read :
    (torn.readers
      ≡ record {
        name = go;
        match = none;
        phase = got (record { name = go; seq = 1; payload = [] });
      }
        ∷ [])
    × (torn.writers ≡ record { name = go; payload = codes "x"; phase = sent 1 } ∷ [])
unfolding move_writer move_reader write_step read_step start_write validate_signal_name max_seq
    raise_seq open_new lookup signal_file_name itoa digits read_inode write_inode accepts eligible
    sorted_candidates insert_candidate parse_signal_file_name cut_prefix cut_suffix cut_last
    is_decodable parse_seq atoi digits_value all_digits value bytes_eq claim unlink insert
torn_read = (refl, refl)

-- One call of the second writer.
abbrev w2 : System → System
w2 s = with_writers s (move_writer 1 false s.files s.writers)

abbrev two_writers : System
two_writers = record one_each {
  writers =
      one_each.writers ++ record { name = go; payload = codes "y"; phase = start_write go } ∷ [];
}

-- The second writer counts, and goes on only when the first one's signal has been taken.
abbrev reused : System
reused = w2 (w2 (w2 (r (r (r (r (w (w (w (w (w (w (w2 (w2 (w2 two_writers)))))))))))))))

-- Both signals have number 1.
number_reused :
    reused.writers
    ≡ record { name = go; payload = codes "x"; phase = sent 1 }
      ∷ record { name = go; payload = codes "y"; phase = sent 1 }
      ∷ []
unfolding move_writer move_reader write_step read_step start_write validate_signal_name max_seq
    raise_seq open_new lookup signal_file_name itoa digits read_inode write_inode accepts eligible
    sorted_candidates insert_candidate parse_signal_file_name cut_prefix cut_suffix cut_last
    is_decodable parse_seq atoi digits_value all_digits value bytes_eq claim unlink insert
number_reused = refl

-- The second writer counts, the first one creates its file, which a poll takes, and the second one
-- sends its signal under the same name before the write of the first one fails.
abbrev removed_by_name : System
removed_by_name =
    let done = w2 (w2 (w2 (r (r (r (r (w (w (w (w (w2 (w2 (w2 two_writers))))))))))))) in
    with_writers done (move_writer 0 true done.files done.writers)

-- The second writer has sent its signal, and the file is gone: the failed writer removed it.
other_removed :
    (removed_by_name.files.control ≡ [])
    × (removed_by_name.writers
        ≡ record { name = go; payload = codes "x"; phase = withdrawn }
          ∷ record { name = go; payload = codes "y"; phase = sent 1 }
          ∷ [])
    × (removed_by_name.readers
        ≡ record {
          name = go;
          match = none;
          phase = got (record { name = go; seq = 1; payload = [] });
        }
          ∷ [])
unfolding move_writer move_reader write_step read_step start_write validate_signal_name max_seq
    raise_seq open_new lookup signal_file_name itoa digits read_inode write_inode accepts eligible
    sorted_candidates insert_candidate parse_signal_file_name cut_prefix cut_suffix cut_last
    is_decodable parse_seq atoi digits_value all_digits value bytes_eq claim unlink insert withdraw
other_removed = (refl, refl, refl)
