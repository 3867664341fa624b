-- ===== src/State/Frame/Torn.antt =====
-- decodeFrame at a frame that was cut short (state/event.go).
use Prim.Native.Nat.{min}
use awf.Prelude.{
  ℕ, suc, zero, ◌+◌, ◌%◌, ◌^◌, ◌≤◌, ◌<◌, ◌≡◌, refl, ap, ◌∙◌, Bytes, [], ◌∷◌, ◌++◌, length, take,
  replicate, ltb, err, arith, length-take, take-length_append, ==_refl, Bool-cases, inl, inr,
}
use awf.State.Frame.{short_frame, put_uint32, padding, encode_frame, decode_frame}
use awf.State.Frame.RoundTrip.{
  decode_body, decode_frame-header, length-encode_frame, length-append_bytes,
  length-replicate_bytes,
}

take-take : (n m : ℕ) (xs : Bytes) → n ≤ m → take n (take m xs) ≡ take n xs
take-take zero m xs h = refl
take-take (suc n) zero xs h = absurd (omega arith)
take-take (suc n) (suc m) [] h = refl
take-take (suc n) (suc m) (x ∷ xs) h = ap (λ r. x ∷ r) (take-take n m xs (omega arith))

length-take_bytes : (n : ℕ) (xs : Bytes) → length (take n xs) ≡ min n (length xs)
length-take_bytes = length-take

module _ (checksum : Bytes → ℕ) where
  pub decode_frame-short :
      (buf : Bytes) → length buf < 8 → decode_frame checksum buf ≡ err short_frame
  unfolding decode_frame
  decode_frame-short buf h = ground arith

  -- The body of a frame, cut after `m` of its bytes.
  decode_body-torn :
      (p : Bytes) (m : ℕ)
      → m < length p + padding (8 + length p)
      → decode_body checksum
          (length p)
          (checksum p)
          (take m (p ++ replicate (padding (8 + length p)) 0))
        ≡ err short_frame
  unfolding decode_body
  decode_body-torn p m h =
      let body = p ++ replicate (padding (8 + length p)) 0 in
      let len = length-take_bytes m body in
      let whole = length-append_bytes p (replicate (padding (8 + length p)) 0) in
      let zeros = length-replicate_bytes (padding (8 + length p)) 0 in
      elim (Bool-cases (ltb m (length p))) [
        | inl cut ↦ ground (arith, len, whole, zeros)
        | inr held ↦
            let same : take (length p) (take m body) ≡ p =
              take-take (length p) m body (ground arith)
              ∙ take-length_append p (replicate (padding (8 + length p)) 0) in
            ground (arith, len, whole, zeros, same, ==_refl (checksum p))
      ]

  module _ (bound : (p : Bytes) → checksum p < 2 ^ 32) where
    decode_frame-torn_body :
        (p : Bytes) (m : ℕ)
        → length p < 2 ^ 32
        → m < length p + padding (8 + length p)
        → decode_frame checksum
            (take (suc (suc (suc (suc (suc (suc (suc (suc m)))))))) (encode_frame checksum p))
          ≡ err short_frame
    unfolding encode_frame put_uint32
    decode_frame-torn_body p m h hm =
        let e : length p % 2 ^ 32 ≡ length p = omega arith in
        let rest = take m (p ++ replicate (padding (8 + length p)) 0) in
        rw e (
          decode_frame-header checksum (length p) (checksum p) rest h (bound p)
          ∙ decode_body-torn p m hm)

    -- With a checksum of 32 bits, each strict prefix of the frame of a payload below 4 GiB is
    -- refused as a short frame.
    pub decode_frame-torn :
        (p : Bytes) (n : ℕ)
        → length p < 2 ^ 32
        → n < length (encode_frame checksum p)
        → decode_frame checksum (take n (encode_frame checksum p)) ≡ err short_frame
    decode_frame-torn p (suc (suc (suc (suc (suc (suc (suc (suc m)))))))) h hn =
        decode_frame-torn_body p m h (omega (arith, length-encode_frame checksum p))
    decode_frame-torn p n h hn =
        decode_frame-short _ (omega (arith, length-take_bytes n (encode_frame checksum p)))
