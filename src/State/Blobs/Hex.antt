-- ===== src/State/Blobs/Hex.antt =====
-- parseRef (state/blobs.go) at what hex.EncodeToString prints.
use awf.Prelude.{
  ℕ, ◌*◌, ◌≡◌, ◌<◌, refl, Bytes, [], ◌∷◌, ◌++◌, length, true, arith, All, ok, ◌/◌, ◌%◌,
  bytes_eq_refl,
}
use awf.State.Blobs.{
  hex_digit, encode_to_string, is_hex, all_hex, to_lower, has_prefix, parse_ref, blob_ref_prefix,
}

abbrev pub AreBytes : Bytes → Type 0
AreBytes = All (λ b. b < 256)

hex_digit-is_hex : (n : ℕ) → n < 16 → is_hex (hex_digit n) ≡ true
unfolding is_hex hex_digit
hex_digit-is_hex n h = ground arith

all_hex-encode_to_string : (bs : Bytes) → AreBytes bs → all_hex (encode_to_string bs) ≡ true
unfolding all_hex encode_to_string
all_hex-encode_to_string [] h = refl
all_hex-encode_to_string (b ∷ bs) h =
    let high = hex_digit-is_hex (b / 16) (omega arith) in
    let low = hex_digit-is_hex (b % 16) (omega arith) in
    rw (high, low) (all_hex-encode_to_string bs h.1)

to_lower-encode_to_string :
    (bs : Bytes) → AreBytes bs → to_lower (encode_to_string bs) ≡ encode_to_string bs
unfolding to_lower encode_to_string
to_lower-encode_to_string [] h = refl
to_lower-encode_to_string (b ∷ bs) h = ground (arith, to_lower-encode_to_string bs h.1)

length-encode_to_string : (bs : Bytes) → length (encode_to_string bs) ≡ 2 * length bs
unfolding encode_to_string
length-encode_to_string [] = refl
length-encode_to_string (b ∷ bs) = omega (arith, length-encode_to_string bs)

has_prefix-append : (p s : Bytes) → has_prefix (p ++ s) p ≡ true
unfolding has_prefix
has_prefix-append [] [] = refl
has_prefix-append [] (c ∷ s) = refl
has_prefix-append (c ∷ p) s = ground (arith, has_prefix-append p s)

-- The prefix and the hash of 32 bytes are a reference to that hash.
pub parse_ref-encode_to_string :
    (bs : Bytes)
    → length bs ≡ 32
    → AreBytes bs
    → parse_ref (blob_ref_prefix ++ encode_to_string bs) ≡ ok (encode_to_string bs)
unfolding parse_ref
parse_ref-encode_to_string bs len h = ground (
  arith,
  has_prefix-append blob_ref_prefix (encode_to_string bs),
  length-encode_to_string bs,
  to_lower-encode_to_string bs h,
  bytes_eq_refl (encode_to_string bs),
  all_hex-encode_to_string bs h,
)
