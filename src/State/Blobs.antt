-- ===== src/State/Blobs.antt =====
-- state/blobs.go: FSBlobs, the content-addressed store.
--
-- The directory tree is a map from the hex hash, which is a blob's file name, to its bytes. Of
-- the steps of Put that can fail, those in front of the rename leave no blob behind, and the last
-- one, the sync of the shard directory, fails with the blob in place.
pub mod Hex
pub mod Address
use awf.Prelude.{
  ℕ, suc, ◌+◌, ◌-◌, ◌/◌, ◌%◌, Bytes, codes, bytes_eq, [], ◌∷◌, ◌++◌, length, drop, Bool, true,
  false, ◌&&◌, ◌||◌, not, Option, none, some, Result, ok, err, ◌>>=◌, ltb, leb, ◌==◌, if◌then◌else◌,
}
use awf.Prelude.Map.{Map, lookup, insert}

pub data BlobError : Type 0 where
  bad_ref corruption not_exist put_failed : BlobError

abbrev pub blob_ref_prefix : Bytes
blob_ref_prefix = codes "awf-d1:sha256:"

abbrev pub blob_hash_hex_len : ℕ
blob_hash_hex_len = 64

-- hex.EncodeToString
unfoldable pub hex_digit : ℕ → ℕ
hex_digit n = if ltb n 10 then b'0' + n else b'a' + (n - 10)

unfoldable pub encode_to_string : Bytes → Bytes
unfolding hex_digit
encode_to_string [] = []
encode_to_string (b ∷ bytes) = hex_digit (b / 16) ∷ hex_digit (b % 16) ∷ encode_to_string bytes

-- What hex.DecodeString takes for a digit.
unfoldable pub is_hex : ℕ → Bool
is_hex c = (leb b'0' c && leb c b'9') || (leb b'a' c && leb c b'f') || (leb b'A' c && leb c b'F')

unfoldable pub all_hex : Bytes → Bool
unfolding is_hex
all_hex [] = true
all_hex (c ∷ cs) = is_hex c && all_hex cs

-- strings.ToLower on ASCII; what is not ASCII is no hex digit either way.
unfoldable pub to_lower : Bytes → Bytes
to_lower [] = []
to_lower (c ∷ cs) = (if leb b'A' c && leb c b'Z' then c + 32 else c) ∷ to_lower cs

-- strings.HasPrefix
unfoldable pub has_prefix : Bytes → Bytes → Bool
has_prefix s [] = true
has_prefix [] (p ∷ ps) = false
has_prefix (c ∷ cs) (p ∷ ps) = c == p && has_prefix cs ps

unfoldable pub parse_ref : Bytes → Result BlobError Bytes
unfolding has_prefix to_lower all_hex
parse_ref ref =
    let rest = drop (length blob_ref_prefix) ref in
    if not (has_prefix ref blob_ref_prefix)
    then err bad_ref
    else if not (length rest == blob_hash_hex_len)
    then err bad_ref
    else if not (bytes_eq rest (to_lower rest))
    then err bad_ref
    else if not (all_hex rest)
    then err bad_ref
    else ok rest

-- How a Put goes wrong, if it does.
pub data PutFault : Type 0 where
  no_fault before_rename after_rename : PutFault

-- `sum256` is sha256.Sum256.
module _ (sum256 : Bytes → Bytes) where
  unfoldable pub hash_hex : Bytes → Bytes
  hash_hex content = encode_to_string (sum256 content)

  unfoldable pub ref_for : Bytes → Bytes
  unfolding hash_hex
  ref_for content = blob_ref_prefix ++ hash_hex content

  write_blob : Map Bytes → Bytes → PutFault → Map Bytes × Result BlobError Bytes
  write_blob store content no_fault =
      (insert (hash_hex content) content store, ok (ref_for content))
  write_blob store content before_rename = (store, err put_failed)
  write_blob store content after_rename = (insert (hash_hex content) content store, err put_failed)

  -- A blob that is there is not written again; making the shard directory can still fail.
  unfoldable pub put : Map Bytes → Bytes → PutFault → Map Bytes × Result BlobError Bytes
  unfolding write_blob
  put store content fault = elim (lookup (hash_hex content) store) [
    | some earlier ↦ elim fault [
      | before_rename ↦ (store, err put_failed)
      | _ ↦ (store, ok (ref_for content))
    ]
    | none ↦ write_blob store content fault
  ]

  -- The content of a blob's file, checked against its name.
  checked : Bytes → Option Bytes → Result BlobError Bytes
  checked hash none = err not_exist
  checked hash (some content) =
      if bytes_eq (hash_hex content) hash then ok content else err corruption

  unfoldable pub get : Map Bytes → Bytes → Result BlobError Bytes
  unfolding checked
  get store ref = do hash ← parse_ref ref; checked hash (lookup hash store)
