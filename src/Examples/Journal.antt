-- ===== src/Examples/Journal.antt =====
-- A log of one record, framed with a small codec, and a store of one blob (state).
use awf.Prelude.{
  ℕ, ◌+◌, ◌%◌, ◌^◌, ◌≡◌, ◌≢◌, ◌<◌, refl, Bytes, codes, List, [], ◌∷◌, ◌++◌, length, take, replicate,
  map, Option, none, some, ok, arith, bytes_eq, zero, suc, ap, sym,
}
use awf.State.Event.{Event, Codec, CodecLaws}
use awf.State.Frame.{encode_frame, put_uint32, padding, decode_frame}
use awf.State.Frame.RoundTrip.{decode_frame-encode_frame}
use awf.State.Log.{FileLog, append, scan_file, open_file, fold}
use awf.State.Log.Scan.{scan_file-ne-none}
use awf.State.Log.Sequence.{Holds, stamped, append-Holds}
use awf.State.Log.Recovery.{reopened, open_file-torn, fold-Holds}
use awf.Prelude.Map.{Map, lookup}
use awf.State.Blobs.{no_fault, put, get, ref_for, hash_hex, parse_ref, encode_to_string}
use awf.State.Blobs.Hex.{AreBytes}
use awf.State.Blobs.Address.{HashLaws, NoCollision, get_addressed, get-put, get-put_keeps}

-- A record that keeps an event's number and its epoch.
abbrev sum32 : Bytes → ℕ
sum32 [] = 0
sum32 (b ∷ bs) = (b + sum32 bs) % 2 ^ 32

abbrev event_of : ℕ → ℕ → Event
event_of seq epoch = record {
  seq = seq;
  epoch = epoch;
  ts = 0;
  path = [];
  event_type = "";
  payload_ref = [];
  event_data = [];
}

abbrev pair_of : Bytes → Option Event
pair_of (a ∷ b ∷ []) = some (event_of a b)
pair_of _ = none

abbrev pairs : Codec
pairs = record {
  marshal = λ e. some (e.seq ∷ e.epoch ∷ []);
  unmarshal = pair_of;
  wire = λ e. event_of e.seq e.epoch;
  checksum = sum32;
}

sum32-lt : (p : Bytes) → sum32 p < 2 ^ 32
sum32-lt [] = omega arith
sum32-lt (b ∷ bs) = omega arith

numbers_marshalled : (e : Event) (b : Bytes) → pairs.marshal e ≡ some b → e.seq ∷ e.epoch ∷ [] ≡ b
numbers_marshalled e b h = cc h

pairs-laws : CodecLaws pairs
pairs-laws = record {
  checksum_bound = sum32-lt;
  unmarshal-marshal = λ e b h. ap pair_of (sym (numbers_marshalled e b h));
  seq-wire = λ _. refl;
  epoch-wire = λ _. refl;
  length-marshal = λ e b h. rw (sym (numbers_marshalled e b h)) (omega arith);
}

abbrev empty_log : FileLog
empty_log = record { file = []; seq = 0; epoch = 3 }

abbrev started : Event
started = record (event_of 0 0) { event_type = "run.started" }

empty_log-Holds : Holds pairs empty_log []
empty_log-Holds = record { written = refl; numbered = tt; counter = refl }

append-Holds_example :
    Holds pairs (append pairs empty_log 5 none started).0 (stamped empty_log 5 started ∷ [])
unfolding append
append-Holds_example = append-Holds pairs empty_log [] 5 started empty_log-Holds (omega arith) refl

-- The log behind that append.
abbrev one_record : FileLog
one_record = (append pairs empty_log 5 none started).0

abbrev one_event : List Event
one_event = stamped empty_log 5 started ∷ []

one_record-Holds : Holds pairs one_record one_event
unfolding append
one_record-Holds = append-Holds pairs empty_log [] 5 started empty_log-Holds (omega arith) refl

open_file-torn_example :
    open_file pairs (one_record.file ++ take 10 (encode_frame sum32 (2 ∷ 3 ∷ [])))
    ≡ some (reopened pairs pairs-laws one_record.file one_event)
unfolding encode_frame put_uint32 padding
open_file-torn_example =
    open_file-torn pairs pairs-laws one_record one_event (2 ∷ 3 ∷ []) 10 one_record-Holds
      (omega arith) (omega arith)

fold-Holds_example : fold pairs one_record ≡ some (map pairs.wire one_event)
fold-Holds_example = fold-Holds pairs pairs-laws one_record one_event one_record-Holds

scan_file-ne-none_example : scan_file pairs (1 ∷ 2 ∷ 3 ∷ []) ≢ none
scan_file-ne-none_example = scan_file-ne-none pairs (1 ∷ 2 ∷ 3 ∷ [])

decode_frame-encode_frame_example :
    decode_frame sum32 (encode_frame sum32 (7 ∷ 8 ∷ 9 ∷ []) ++ 1 ∷ 2 ∷ [])
    ≡ ok (7 ∷ 8 ∷ 9 ∷ [], length (encode_frame sum32 (7 ∷ 8 ∷ 9 ∷ [])))
decode_frame-encode_frame_example =
    decode_frame-encode_frame sum32 sum32-lt (7 ∷ 8 ∷ 9 ∷ []) (1 ∷ 2 ∷ []) (omega arith)

-- A sum of 32 bytes.
abbrev pub sum256 : Bytes → Bytes
sum256 content = replicate 32 (length content % 256)

replicate-AreBytes : (n b : ℕ) → b < 256 → AreBytes (replicate n b)
replicate-AreBytes zero b h = tt
replicate-AreBytes (suc n) b h = (h, replicate-AreBytes n b h)

pub sum256-laws : HashLaws sum256
sum256-laws = record {
  length-sum256 = λ c. refl;
  sum256-bytes = λ c. replicate-AreBytes 32 (length c % 256) (omega arith);
}

abbrev no_blobs : Map Bytes
no_blobs = []

abbrev pub hello : Bytes
hello = codes "hello"

nothing_stored : NoCollision sum256 no_blobs hello
unfolding lookup
nothing_stored earlier h = cc h

get-put_example :
    get sum256 (put sum256 no_blobs hello no_fault).0 (ref_for sum256 hello) ≡ ok hello
unfolding put lookup
get-put_example =
    get-put sum256 sum256-laws no_blobs hello (ref_for sum256 hello) no_fault nothing_stored refl

-- The store behind that Put.
abbrev one_blob : Map Bytes
one_blob = (hash_hex sum256 hello, hello) ∷ []

stored : get sum256 one_blob (ref_for sum256 hello) ≡ ok hello
unfolding get ref_for parse_ref encode_to_string bytes_eq lookup
stored = refl

get_addressed_example : ref_for sum256 hello ≡ ref_for sum256 hello
get_addressed_example = get_addressed sum256 one_blob (ref_for sum256 hello) hello stored

get-put_keeps_example :
    get sum256 (put sum256 one_blob (codes "other text") no_fault).0 (ref_for sum256 hello)
    ≡ ok hello
get-put_keeps_example =
    get-put_keeps sum256 sum256-laws one_blob (codes "other text") (ref_for sum256 hello) hello
      no_fault stored
