-- ===== src/State/Log.antt =====
-- state/log.go: FileLog over the bytes of its file, and what opening it recovers.
--
-- A disk state is `none` where no file is, else the file's bytes. The outcome of a write is a
-- parameter of Append: `none` where all bytes land, `some n` where it fails behind `n` of them.
-- Errors of open, stat, truncate and close are not modelled.
pub mod Scan
pub mod Recovery
pub mod Sequence
use awf.Prelude.{
  ℕ, zero, suc, ◌+◌, ◌-◌, ◌%◌, ◌^◌, Bytes, List, [], ◌∷◌, ◌++◌, length, take, drop, ltb,
  if◌then◌else◌, Result, ok, err, Option, none, some, last?,
}
use awf.State.Event.{Event, Codec}
use awf.State.Frame.{encode_frame, decode_frame}

pub record FileLog : Type 0 where
  pub file : Bytes
  pub seq : ℕ
  pub epoch : ℕ

pub data LogError : Type 0 where
  marshal_failed write_failed already_exists not_exist : LogError

module _ (c : Codec) where
  -- The loop of scanFile: `rest` is buf[off:]. `none` means that the fuel ran out.
  scan_loop : ℕ → Bytes → ℕ → List Event → Option (List Event × ℕ)
  scan_loop zero rest off events = none
  scan_loop (suc fuel) [] off events = some (events, off)
  scan_loop (suc fuel) (b ∷ bs) off events = elim (decode_frame c.checksum (b ∷ bs)) [
    | err torn ↦ some (events, off)
    | ok (payload, consumed) ↦ elim (c.unmarshal payload) [
      | none ↦ some (events, off)
      | some e ↦ scan_loop fuel (drop consumed (b ∷ bs)) (off + consumed) (events ++ e ∷ [])
    ]
  ]

  -- Every record takes eight bytes or more, so a round for each byte and one more suffice.
  pub scan_file : Bytes → Option (List Event × ℕ)
  scan_file buf = scan_loop (suc (length buf)) buf 0 []

  -- The counters behind the last record, and the file without its torn tail.
  opened : Bytes → List Event × ℕ → FileLog
  opened file (events, valid_bytes) = record {
    file = if ltb valid_bytes (length file) then take valid_bytes file else file;
    seq = elim (last? events) [ none ↦ 0 | some last ↦ last.seq ];
    epoch = elim (last? events) [ none ↦ 0 | some last ↦ (last.epoch + 1) % 2 ^ 32 ];
  }

  -- openLog on the bytes that are there.
  pub open_file : Bytes → Option FileLog
  unfolding opened
  open_file file = elim (scan_file file) [ none ↦ none | some scanned ↦ some (opened file scanned) ]

  -- OpenLog creates a missing file.
  pub open_log : Option Bytes → Option FileLog
  open_log none = open_file []
  open_log (some file) = open_file file

  pub open_log_existing : Option Bytes → Result LogError (Option FileLog)
  open_log_existing none = err not_exist
  open_log_existing (some file) = ok (open_file file)

  pub open_log_exclusive : Option Bytes → Result LogError FileLog
  open_log_exclusive none = ok (record { file = []; seq = 0; epoch = 0 })
  open_log_exclusive (some file) = err already_exists

  -- lg.seq++ and lg.seq-- on uint64
  abbrev inc64 : ℕ → ℕ
  inc64 n = (n + 1) % 2 ^ 64

  abbrev dec64 : ℕ → ℕ
  dec64 n = (n + (2 ^ 64 - 1)) % 2 ^ 64

  write_frame : FileLog → Bytes → Option ℕ → FileLog × Result LogError (Unit {0})
  write_frame lg frame none = (record lg { file = lg.file ++ frame }, ok tt)
  write_frame lg frame (some n) =
      (record lg { file = lg.file ++ take n frame; seq = dec64 lg.seq }, err write_failed)

  stamp : FileLog → ℕ → Event → Event
  stamp lg now e = record e { seq = lg.seq; epoch = lg.epoch; ts = now }

  unfoldable pub append : FileLog → ℕ → Option ℕ → Event → FileLog × Result LogError (Unit {0})
  unfolding write_frame stamp
  append lg now written e =
      let lg' = record lg { seq = inc64 lg.seq } in
      elim (c.marshal (stamp lg' now e)) [
        | none ↦ (record lg' { seq = dec64 lg'.seq }, err marshal_failed)
        | some payload ↦ write_frame lg' (encode_frame c.checksum payload) written
      ]

  -- Fold, and FoldFile: the events of the file as it stands.
  pub fold : FileLog → Option (List Event)
  fold lg = elim (scan_file lg.file) [ none ↦ none | some (events, valid) ↦ some events ]
