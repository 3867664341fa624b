-- ===== src/State/Frame.antt =====
-- state/event.go: encodeFrame and decodeFrame.
pub mod RoundTrip
pub mod Torn
use awf.Prelude.{
  ℕ, ◌+◌, ◌-◌, ◌*◌, ◌/◌, ◌%◌, ◌^◌, Bytes, [], ◌∷◌, ◌++◌, length, take, drop, replicate, ltb, ◌==◌,
  if◌then◌else◌, Result, ok, err, not,
}

-- errShortFrame and errCRCMismatch
pub data FrameError : Type 0 where
  short_frame crc_mismatch : FrameError

abbrev pub frame_header_size : ℕ
frame_header_size = 8

abbrev pub frame_alignment : ℕ
frame_alignment = 8

-- binary.LittleEndian.PutUint32
unfoldable pub put_uint32 : ℕ → Bytes
put_uint32 n = n % 256 ∷ n / 256 % 256 ∷ n / 65536 % 256 ∷ n / 16777216 % 256 ∷ []

-- binary.LittleEndian.Uint32; the callers have tested that four bytes are there.
unfoldable pub uint32 : Bytes → ℕ
uint32 (a ∷ b ∷ c ∷ d ∷ rest) = a + 256 * b + 65536 * c + 16777216 * d
uint32 _ = 0

-- The zero bytes that bring a record of `n` bytes to the alignment.
unfoldable pub padding : ℕ → ℕ
padding n = let rem = n % frame_alignment in if rem == 0 then 0 else frame_alignment - rem

module _ (checksum : Bytes → ℕ) where
  unfoldable pub encode_frame : Bytes → Bytes
  encode_frame payload =
      let payload_len = length payload % 2 ^ 32 in
      let crc = checksum payload in
      let total = frame_header_size + length payload in
      put_uint32 payload_len ++ (put_uint32 crc ++ (payload ++ replicate (padding total) 0))

  unfoldable pub decode_frame : Bytes → Result FrameError (Bytes × ℕ)
  decode_frame buf =
      if ltb (length buf) frame_header_size
      then err short_frame
      else let payload_len = uint32 buf in
        let want_crc = uint32 (drop 4 buf) in
        if ltb (length buf - frame_header_size) payload_len
        then err short_frame
        else let end = frame_header_size + payload_len in
          let payload = take payload_len (drop frame_header_size buf) in
          if not (checksum payload == want_crc)
          then err crc_mismatch
          else let consumed = end + padding end in
            if ltb (length buf) consumed then err short_frame else ok (payload, consumed)
