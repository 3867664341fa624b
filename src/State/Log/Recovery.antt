-- ===== src/State/Log/Recovery.antt =====
-- Opening a log after a crash (state/log.go, openLog) and reading it (Fold).
use awf.Prelude.{
  ℕ, ◌+◌, ◌%◌, ◌^◌, ◌<◌, ◌≡◌, refl, err, ap, ◌∙◌, Bytes, List, [], ◌∷◌, ◌++◌, length, take, map,
  last?, Option, none, some, if◌then◌else◌, arith, append-nil, take-length_append, ltb,
}
use awf.State.Event.{Event, Codec, CodecLaws}
use awf.State.Frame.{encode_frame, decode_frame, short_frame}
use awf.State.Frame.RoundTrip.{length-append_bytes}
use awf.State.Frame.Torn.{decode_frame-torn, decode_frame-short}
use awf.State.Log.{FileLog, open_file, opened, fold}
use awf.State.Log.Scan.{IsWritten, scan_file-written}
use native.Mathlib.Nat.{zero-add}
use awf.State.Log.{scan_file}
use awf.State.Log.Sequence.{Numbered, Holds}

abbrev seq_behind : ℕ → Option Event → ℕ
seq_behind n none = n
seq_behind n (some e) = e.seq

-- The epoch that opening a log of these events gives.
abbrev pub next_epoch : Option Event → ℕ
next_epoch none = 0
next_epoch (some e) = (e.epoch + 1) % 2 ^ 32

seq_behind-last?_cons :
    (n m : ℕ) (e : Event) (es : List Event)
    → seq_behind n (last? (e ∷ es)) ≡ seq_behind m (last? (e ∷ es))
seq_behind-last?_cons n m e [] = refl
seq_behind-last?_cons n m e (d ∷ es) = seq_behind-last?_cons n m d es

-- The truncation of openLog.
abbrev truncated : ℕ → Bytes → Bytes
truncated valid_bytes file = if ltb valid_bytes (length file) then take valid_bytes file else file

truncated-append : (file tail : Bytes) → truncated (length file) (file ++ tail) ≡ file
truncated-append file [] = rw append-nil (ground arith)
truncated-append file (b ∷ bs) =
    ground (arith, length-append_bytes file (b ∷ bs), take-length_append file (b ∷ bs))

module _ (c : Codec) (laws : CodecLaws c) where
  seq_behind-last? :
      (n : ℕ) (es : List Event)
      → Numbered (n + 1) es
      → seq_behind n (last? (map c.wire es)) ≡ n + length es
  seq_behind-last? n [] h = omega arith
  seq_behind-last? n (e ∷ []) h = omega (arith, laws.seq-wire e, h.0)
  seq_behind-last? n (e ∷ d ∷ es) h =
      seq_behind-last?_cons n (n + 1) (c.wire d) (map c.wire es)
      ∙ omega (arith, seq_behind-last? (n + 1) (d ∷ es) h.1)

  next_epoch-last? : (es : List Event) → next_epoch (last? (map c.wire es)) ≡ next_epoch (last? es)
  next_epoch-last? [] = refl
  next_epoch-last? (e ∷ []) = ap (λ k. (k + 1) % 2 ^ 32) (laws.epoch-wire e)
  next_epoch-last? (e ∷ d ∷ es) = next_epoch-last? (d ∷ es)

  -- The log as it is opened over the frames of `es`.
  abbrev pub reopened : Bytes → List Event → FileLog
  reopened file es = record { file = file; seq = length es; epoch = next_epoch (last? es) }

  opened-written :
      (es : List Event) (file tail : Bytes)
      → Numbered 1 es
      → opened c (file ++ tail) (map c.wire es, length file) ≡ reopened file es
  unfolding opened
  opened-written es file tail h =
      let files = truncated-append file tail in
      let numbered : Numbered (0 + 1) es = rw zero-add h in
      let seqs = seq_behind-last? 0 es numbered in ground (arith, files, seqs, next_epoch-last? es)

  -- A file that holds a log and then bytes that are no record is opened as the log alone.
  pub open_file-written :
      (es : List Event) (file tail : Bytes)
      → IsWritten c es file
      → Numbered 1 es
      → decode_frame c.checksum tail ≡ err short_frame
      → open_file c (file ++ tail) ≡ some (reopened file es)
  unfolding open_file
  open_file-written es file tail w h t =
      rw (scan_file-written c laws es file tail w t, open_file)
        (ap some (opened-written es file tail h))

  -- Where a codec keeps its laws and a log holds records numbered from one, and the file ends in a
  -- strict part of one more frame, whose payload is below 4 GiB, opening it restores the log as it
  -- was: its records, its bytes and its counter, under a new epoch.
  pub open_file-torn :
      (lg : FileLog) (es : List Event) (p : Bytes) (n : ℕ)
      → Holds c lg es
      → length p < 2 ^ 32
      → n < length (encode_frame c.checksum p)
      → open_file c (lg.file ++ take n (encode_frame c.checksum p)) ≡ some (reopened lg.file es)
  open_file-torn lg es p n h small cut =
      open_file-written es lg.file (take n (encode_frame c.checksum p)) h.written h.numbered
        (decode_frame-torn c.checksum laws.checksum_bound p n small cut)

  -- Where a codec keeps its laws, opening the file of a log that holds exactly some records
  -- changes none of its bytes and goes on from their last number, under a new epoch.
  pub open_file-clean :
      (lg : FileLog) (es : List Event)
      → Holds c lg es
      → open_file c lg.file ≡ some (reopened lg.file es)
  open_file-clean lg es h = rw append-nil at (
      open_file-written es lg.file [] h.written h.numbered
        (decode_frame-short c.checksum [] (omega arith)))

  -- What is reopened holds the same records as before, so that later Appends go on numbering.
  pub reopened-Holds :
      (lg : FileLog) (es : List Event) → Holds c lg es → Holds c (reopened lg.file es) es
  reopened-Holds lg es h = record { written = h.written; numbered = h.numbered; counter = refl }

  -- Where a codec keeps its laws, Fold of a log that holds exactly some records returns them all
  -- in order, as their JSON stands for them.
  pub fold-Holds :
      (lg : FileLog) (es : List Event) → Holds c lg es → fold c lg ≡ some (map c.wire es)
  unfolding fold
  fold-Holds lg es h =
      let whole : scan_file c lg.file ≡ some (map c.wire es, length lg.file) = rw append-nil at (
        scan_file-written c laws es lg.file [] h.written
          (decode_frame-short c.checksum [] (omega arith))) in
      rw (whole, fold)
