-- ===== src/State/Event.antt =====
-- state/event.go: the record, and what the log uses of encoding/json and hash/crc32.
use awf.Prelude.{ℕ, ◌^◌, ◌<◌, ◌≡◌, String, Bytes, Option, some, length}

-- `type` and `data` of the source. TS is a count of nanoseconds.
pub record Event : Type 0 where
  pub seq : ℕ
  pub epoch : ℕ
  pub ts : ℕ
  pub path : Bytes
  pub event_type : String
  pub payload_ref : Bytes
  pub event_data : Bytes

-- json.Marshal and json.Unmarshal at Event, and crc32.Checksum with the Castagnoli table.
-- `wire e` is the event that the JSON of `e` stands for: json.Marshal compacts `Data`.
pub record Codec : Type 0 where
  pub marshal : Event → Option Bytes
  pub unmarshal : Bytes → Option Event
  pub wire : Event → Event
  pub checksum : Bytes → ℕ

-- What the log relies on: a checksum fills 32 bits, JSON is read back as the event that it stands
-- for, with the numbers that the log assigned, and a record stays below 4 GiB.
pub record CodecLaws (c : Codec) : Type 0 where
  pub checksum_bound : (p : Bytes) → c.checksum p < 2 ^ 32
  pub unmarshal-marshal :
      (e : Event) (b : Bytes) → c.marshal e ≡ some b → c.unmarshal b ≡ some (c.wire e)
  pub seq-wire : (e : Event) → (c.wire e).seq ≡ e.seq
  pub epoch-wire : (e : Event) → (c.wire e).epoch ≡ e.epoch
  pub length-marshal : (e : Event) (b : Bytes) → c.marshal e ≡ some b → length b < 2 ^ 32
