-- ===== src/State/Frame/RoundTrip.antt =====
-- decodeFrame at what encodeFrame wrote (state/event.go).
use awf.Prelude.{
  ℕ, ◌+◌, ◌-◌, ◌*◌, ◌/◌, ◌%◌, ◌^◌, ◌≤◌, ◌<◌, ◌≡◌, refl, ap, Bytes, [], ◌∷◌, ◌++◌, length, take,
  drop, replicate, ltb, ◌==◌, if◌then◌else◌, Result, ok, err, arith, append_assoc, length-append,
  length-replicate, take-length_append, true, false, ==_refl, not,
}
use awf.State.Frame.{
  FrameError, short_frame, crc_mismatch, put_uint32, uint32, padding, encode_frame, decode_frame,
}

pub uint32-put_uint32 : (n : ℕ) (rest : Bytes) → n < 2 ^ 32 → uint32 (put_uint32 n ++ rest) ≡ n
unfolding uint32 put_uint32
uint32-put_uint32 n rest h = omega arith

pub padding-lt : (n : ℕ) → padding n < 8
unfolding padding
padding-lt n = ground arith

pub padding_aligns : (n : ℕ) → (n + padding n) % 8 ≡ 0
unfolding padding
padding_aligns n = ground arith

pub length-append_bytes : (xs ys : Bytes) → length (xs ++ ys) ≡ length xs + length ys
length-append_bytes = length-append

pub length-replicate_bytes : (n a : ℕ) → length (replicate n a) ≡ n
length-replicate_bytes = length-replicate

pub ruleset lengths = (arith, length-append_bytes, length-replicate_bytes)

module _ (checksum : Bytes → ℕ) where
  pub length-encode_frame :
      (p : Bytes) → length (encode_frame checksum p) ≡ 8 + length p + padding (8 + length p)
  unfolding encode_frame put_uint32
  length-encode_frame p = omega lengths

  -- decodeFrame behind a header that says `n` bytes and the checksum `c`.
  unfoldable pub decode_body : ℕ → ℕ → Bytes → Result FrameError (Bytes × ℕ)
  decode_body n c rest =
      if ltb (length rest) n
      then err short_frame
      else if not (checksum (take n rest) == c)
      then err crc_mismatch
      else if ltb (8 + length rest) (8 + n + padding (8 + n))
      then err short_frame
      else ok (take n rest, 8 + n + padding (8 + n))

  pub decode_frame-header :
      (n c : ℕ) (rest : Bytes)
      → n < 2 ^ 32
      → c < 2 ^ 32
      → decode_frame checksum (put_uint32 n ++ (put_uint32 c ++ rest)) ≡ decode_body n c rest
  unfolding decode_frame decode_body put_uint32
  decode_frame-header n c rest hn hc =
      ground (arith, uint32-put_uint32 n (put_uint32 c ++ rest) hn, uint32-put_uint32 c rest hc)

  module _ (bound : (p : Bytes) → checksum p < 2 ^ 32) where
    pub decode_frame-encode_frame_header :
        (p rest : Bytes)
        → length p < 2 ^ 32
        → decode_frame checksum (encode_frame checksum p ++ rest)
          ≡ decode_body
              (length p)
              (checksum p)
              (p ++ (replicate (padding (8 + length p)) 0 ++ rest))
    unfolding encode_frame
    decode_frame-encode_frame_header p rest h =
        let e : length p % 2 ^ 32 ≡ length p = omega arith in
        rw e (simp append_assoc (decode_frame-header (length p) (checksum p) _ h (bound p)))

    -- With a checksum of 32 bits, a framed payload below 4 GiB decodes to itself, whatever follows
    -- it, and its whole frame is consumed.
    pub decode_frame-encode_frame :
        (p rest : Bytes)
        → length p < 2 ^ 32
        → decode_frame checksum (encode_frame checksum p ++ rest)
          ≡ ok (p, length (encode_frame checksum p))
    unfolding decode_body
    decode_frame-encode_frame p rest h = rw (decode_frame-encode_frame_header p rest h) (
        rw (take-length_append, length-encode_frame)
          (ground (
            arith,
            ==_refl (checksum p),
            length-append_bytes p (replicate (padding (8 + length p)) 0 ++ rest),
            length-append_bytes (replicate (padding (8 + length p)) 0) rest,
            length-replicate_bytes (padding (8 + length p)) 0,
          )))
