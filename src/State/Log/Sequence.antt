-- ===== src/State/Log/Sequence.antt =====
-- Sequence numbers across appends and their failures (state/log.go, Append).
use awf.Prelude.{
  ℕ, ◌+◌, ◌%◌, ◌^◌, ◌<◌, ◌≡◌, refl, Bytes, List, [], ◌∷◌, ◌++◌, length, ok, err, take, Option, none,
  some, arith, append_assoc, append-nil, Option-cases, inl, inr, length-append,
}
use awf.State.Event.{Event, Codec}
use awf.State.Frame.{encode_frame}
use awf.State.Log.{FileLog, append, write_failed, marshal_failed}
use awf.State.Log.Scan.{IsWritten}

-- The events are numbered upwards from `n`.
abbrev pub Numbered : ℕ → List Event → Type 0
Numbered n [] = Unit
Numbered n (e ∷ es) = (e.seq ≡ n) × Numbered (n + 1) es

-- The log holds exactly these events, and its counter is at the last of them.
pub record Holds (c : Codec) (lg : FileLog) (es : List Event) : Type 0 where
  pub written : IsWritten c es lg.file
  pub numbered : Numbered 1 es
  pub counter : lg.seq ≡ length es

pub length-append_events : (xs ys : List Event) → length (xs ++ ys) ≡ length xs + length ys
length-append_events = length-append

Numbered-append :
    (n : ℕ) (es : List Event) (e : Event)
    → Numbered n es
    → e.seq ≡ n + length es
    → Numbered n (es ++ e ∷ [])
Numbered-append n [] e h q = omega arith
Numbered-append n (d ∷ es) e h q = (h.0, Numbered-append (n + 1) es e h.1 (omega arith))

IsWritten-append :
    (c : Codec) (es : List Event) (file p : Bytes) (e : Event)
    → IsWritten c es file
    → c.marshal e ≡ some p
    → IsWritten c (es ++ e ∷ []) (file ++ encode_frame c.checksum p)
IsWritten-append c [] file p e w m = (p, [], m, rw (w, append-nil), refl)
IsWritten-append c (d ∷ es) file p e w m = (
  w.0,
  w.1 ++ encode_frame c.checksum p,
  w.2,
  rw w.3 (append_assoc (encode_frame c.checksum w.0) w.1 (encode_frame c.checksum p)),
  IsWritten-append c es w.1 p e w.4 m,
)

-- The event as Append writes it.
abbrev pub stamped : FileLog → ℕ → Event → Event
stamped lg now e = record e { seq = (lg.seq + 1) % 2 ^ 64; epoch = lg.epoch; ts = now }

-- What Append does, by the JSON of the stamped event and the outcome of the write.
module _ (c : Codec) (lg : FileLog) (now : ℕ) (e : Event) where
  pub append_done :
      (p : Bytes)
      → c.marshal (stamped lg now e) ≡ some p
      → append c lg now none e ≡ (
        record lg { file = lg.file ++ encode_frame c.checksum p; seq = (lg.seq + 1) % 2 ^ 64 },
        ok tt,
      )
  unfolding append
  append_done p good = rw (good, append)

  pub append_torn :
      (p : Bytes) (n : ℕ)
      → c.marshal (stamped lg now e) ≡ some p
      → lg.seq + 1 < 2 ^ 64
      → append c lg now (some n) e
        ≡ (record lg { file = lg.file ++ take n (encode_frame c.checksum p) }, err write_failed)
  unfolding append
  append_torn p n good small = rw (good, append) (ground arith)

  pub append_unmarshalled :
      (written : Option ℕ)
      → c.marshal (stamped lg now e) ≡ none
      → lg.seq + 1 < 2 ^ 64
      → append c lg now written e ≡ (lg, err marshal_failed)
  unfolding append
  append_unmarshalled written bad small = rw (bad, append) (ground arith)

module _ (c : Codec) (lg : FileLog) (es : List Event) (now : ℕ) (e : Event)
    (h : Holds c lg es) where
  Holds-done :
      (p : Bytes)
      → length es + 1 < 2 ^ 64
      → c.marshal (stamped lg now e) ≡ some p
      → Holds c (append c lg now none e).0 (es ++ stamped lg now e ∷ [])
  Holds-done p small good = rw (append_done c lg now e p good) (record {
    written = IsWritten-append c es lg.file p (stamped lg now e) h.written good;
    numbered = Numbered-append 1 es (stamped lg now e) h.numbered (omega (arith, h.counter));
    counter = omega (arith, h.counter, length-append_events es (stamped lg now e ∷ []));
  })

  -- If a log of fewer than 2 ^ 64 - 1 records holds exactly these, numbered from one, then an
  -- Append that writes its whole frame and returns no error makes it hold one more, stamped with
  -- the next number.
  pub append-Holds :
      length es + 1 < 2 ^ 64
      → (append c lg now none e).1 ≡ ok tt
      → Holds c (append c lg now none e).0 (es ++ stamped lg now e ∷ [])
  append-Holds small done = elim (Option-cases (c.marshal (stamped lg now e))) [
    | inl bad ↦
        let same = append_unmarshalled c lg now e none bad (omega (arith, h.counter)) in
        absurd (cc (same, done))
    | inr (p, good) ↦ Holds-done p small good
  ]
