-- ===== src/State/Log/Scan.antt =====
-- The loop of scanFile (state/log.go) over framed records.
use awf.Prelude.{
  ℕ, zero, suc, ◌+◌, ◌≤◌, ◌<◌, ◌≡◌, refl, ◌∙◌, ap, Bytes, List, [], ◌∷◌, ◌++◌, length, drop, map,
  ok, err, Result-cases, none, some, arith, append_assoc, append-nil, drop-length_append, ◌≢◌,
  Option-cases, inl, inr, length-drop,
}
use awf.State.Event.{Event, Codec, CodecLaws}
use awf.State.Frame.{FrameError, encode_frame, decode_frame}
use awf.State.Frame.RoundTrip.{decode_frame-encode_frame, length-encode_frame, length-append_bytes}
use awf.State.Log.{scan_loop, scan_file}

-- A record that decodes takes its header's eight bytes at least, and no more than there are.
decode_frame_consumes :
    (checksum : Bytes → ℕ) (buf p : Bytes) (n : ℕ)
    → decode_frame checksum buf ≡ ok (p, n)
    → (8 ≤ n) × (n ≤ length buf)
unfolding decode_frame
decode_frame_consumes checksum buf p n h = ground arith

module _ (c : Codec) where
  -- One round on a record that decodes.
  scan_loop_step :
      (fuel : ℕ) (rest : Bytes) (off : ℕ) (events : List Event) (p : Bytes) (n : ℕ) (e : Event)
      → decode_frame c.checksum rest ≡ ok (p, n)
      → c.unmarshal p ≡ some e
      → scan_loop c (suc fuel) rest off events
        ≡ scan_loop c fuel (drop n rest) (off + n) (events ++ e ∷ [])
  unfolding scan_loop
  scan_loop_step fuel [] off events p n e h u =
      absurd (omega (arith, decode_frame_consumes c.checksum [] p n h))
  scan_loop_step fuel (b ∷ bs) off events p n e h u = rw (h, scan_loop, u)

  -- The round that ends the scan.
  scan_loop_stop :
      (fuel : ℕ) (rest : Bytes) (off : ℕ) (events : List Event) {x : FrameError}
      → decode_frame c.checksum rest ≡ err x
      → scan_loop c (suc fuel) rest off events ≡ some (events, off)
  unfolding scan_loop
  scan_loop_stop fuel [] off events h = refl
  scan_loop_stop fuel (b ∷ bs) off events h = rw (h, scan_loop)

  scan_loop-ne-none :
      (fuel : ℕ) (rest : Bytes) (off : ℕ) (events : List Event)
      → length rest < fuel
      → scan_loop c fuel rest off events ≢ none
  unfolding scan_loop
  scan_loop-ne-none zero rest off events h = absurd (omega arith)
  scan_loop-ne-none (suc fuel) [] off events h = cc
  scan_loop-ne-none (suc fuel) (b ∷ bs) off events h =
      elim (Result-cases (decode_frame c.checksum (b ∷ bs))) [
        | inr (x, torn) ↦ rw (torn, scan_loop) (cc)
        | inl ((p, n), held) ↦
            let used = decode_frame_consumes c.checksum (b ∷ bs) p n held in
            elim (Option-cases (c.unmarshal p)) [
              | inl bad ↦ rw (held, scan_loop, bad) (cc)
              | inr (e, good) ↦
                  rw (held, scan_loop, good)
                    (scan_loop-ne-none fuel (drop n (b ∷ bs)) (off + n) (events ++ e ∷ [])
                      (omega (arith, length-drop n (b ∷ bs))))
            ]
      ]

  -- The scan ends on any bytes: its fuel never runs out.
  pub scan_file-ne-none : (buf : Bytes) → scan_file c buf ≢ none
  unfolding scan_file
  scan_file-ne-none buf = scan_loop-ne-none (suc (length buf)) buf 0 [] (omega arith)

-- `file` holds the frames of the events, in their order.
abbrev pub IsWritten : Codec → List Event → Bytes → Type 0
IsWritten c [] file = file ≡ []
IsWritten c (e ∷ es) file =
    (p : Bytes) × (rest : Bytes) × (c.marshal e ≡ some p)
    × (file ≡ encode_frame c.checksum p ++ rest)
    × IsWritten c es rest

module _ (c : Codec) (laws : CodecLaws c) where
  scan_loop-written :
      (fuel : ℕ) (es : List Event) (file tail : Bytes) (off : ℕ) (events : List Event)
      {x : FrameError}
      → length file < fuel
      → IsWritten c es file
      → decode_frame c.checksum tail ≡ err x
      → scan_loop c fuel (file ++ tail) off events
        ≡ some (events ++ map c.wire es, off + length file)
  scan_loop-written zero es file tail off events h w t = absurd (omega arith)
  scan_loop-written (suc fuel) [] file tail off events h w t =
      rw (w, append-nil) (scan_loop_stop c fuel tail off events t ∙ ground arith)
  scan_loop-written (suc fuel) (e ∷ es) file tail off events h w t =
      let p = w.0 in
      let rest = w.1 in
      let len = length-encode_frame c.checksum p in
      let fewer : length file ≡ length (encode_frame c.checksum p) + length rest =
        ap length w.3 ∙ length-append_bytes (encode_frame c.checksum p) rest in
      let small = laws.length-marshal e p w.2 in
      rw (w.3, append_assoc)
        (scan_loop_step c fuel _ off events p (length (encode_frame c.checksum p)) (c.wire e)
            (decode_frame-encode_frame c.checksum laws.checksum_bound p (rest ++ tail) small)
            (laws.unmarshal-marshal e p w.2)
          ∙ rw drop-length_append (
              scan_loop-written fuel es rest tail (off + length (encode_frame c.checksum p))
                (events ++ c.wire e ∷ []) (omega (arith, fewer, len)) w.4 t
              ∙ rw append_assoc
                  (ground (arith, length-append_bytes (encode_frame c.checksum p) rest))))

  -- Over the frames of some events and a tail that does not decode, the scan returns those events,
  -- as their JSON stands for them, and stops where the tail begins.
  pub scan_file-written :
      (es : List Event) (file tail : Bytes) {x : FrameError}
      → IsWritten c es file
      → decode_frame c.checksum tail ≡ err x
      → scan_file c (file ++ tail) ≡ some (map c.wire es, length file)
  unfolding scan_file
  scan_file-written es file tail w t =
      scan_loop-written (suc (length (file ++ tail))) es file tail 0 []
        (omega (arith, length-append_bytes file tail)) w t
      ∙ ground arith
