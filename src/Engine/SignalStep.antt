-- ===== src/Engine/SignalStep.antt =====
-- engine/signal_step.go: the handler of a signal step, which awaits a named signal.
--
-- The answer of the broker (signal/broker.go, Receive and ReceiveMatching) is a parameter, and so
-- are the validation of a payload against a schema, json.Marshal and the faults of the puts.
pub mod Resumed
mod Examples
use awf.Prelude.{
  ℕ, Bytes, Bool, true, false, not, ◌&&◌, ◌||◌, List, [], Option, none, some, String, Result, ok,
  err, ◌>>=◌, if◌then◌else◌, bytes_eq,
}
use awf.Prelude.Map.{Map, lookup}
use awf.Engine.Events.{Object, SignalReceivedData, NodeCompletedData}
use awf.Engine.RunState.{
  RunState, NodeResult, SignalEntry, lookup_completed, record_completed, append_signal,
  record_signal_received_at,
}
use awf.Engine.RunState.Outcomes.{
  outcome_ok, outcome_string, outcome_retryable_failure, outcome_permanent_failure,
}
use awf.Engine.Walk.{
  World, Ended, Disk, Fault, wrapped, no_broker, unstored_payload, unreadable_payload,
  invalid_payload, await_timeout, await_cancelled, append, sync, fail_step, returned, internal,
  node_started, signal_received, node_completed,
}
use awf.Signal.Broker.{Delivery}
use awf.State.Blobs.{PutFault, put, get}

-- What an await comes to: a delivery, its timeout, the cancellation of its context, or an error of
-- the control directory.
pub data Awaited : Type 0 where
  delivered : Delivery → Awaited
  timed_out cancelled : Awaited
  broken : Fault → Awaited

-- The validation of a payload against output_schema, where one is declared.
abbrev pub Schema : Type 0
Schema = Option (Bytes → Option Object)

-- The step's signal, its schema, and the error of its where clause, if it has one.
pub record SignalStep : Type 0 where
  pub await : Bytes
  pub schema : Schema
  pub where_error : Option Fault

-- A handler's end beside the store of blobs that it leaves.
pub record SignalEnded : Type 0 where
  pub ended : Ended
  pub store : Map Bytes

-- The signal is on record: the reference of its payload, and the outputs.
pub record Received : Type 0 where
  pub world : World
  pub store : Map Bytes
  pub payload_ref : Bytes
  pub outputs : Option Object

abbrev pub Receives : Type 0
Receives = Result SignalEnded Received

abbrev pub gives_up : {A : Type 0} → Ended → Map Bytes → Result SignalEnded A
gives_up e store = err (record { ended = e; store = store })

module _ (sum256 : Bytes → Bytes) (put_fault : Map Bytes → Bytes → PutFault)
    (marshal : Object → Option Bytes) (disk : Disk) (ss : SignalStep) (path : Bytes) where
  -- Step 3: a signal that an earlier run has put on record, with its outputs from the store.
  unfoldable pub rederive : World → Map Bytes → SignalEntry → Receives
  rederive w store entry =
      let plain : Receives =
        ok (record { world = w; store = store; payload_ref = entry.payload_ref; outputs = none }) in
      elim ss.schema [
        | none ↦ plain
        | some validate ↦
            if bytes_eq entry.payload_ref []
            then plain
            else elim (get sum256 store entry.payload_ref) [
              | err e ↦ gives_up (internal unreadable_payload w) store
              | ok raw ↦ elim (validate raw) [
                | none ↦ gives_up (internal invalid_payload w) store
                | some outputs ↦ ok (record {
                  world = w;
                  store = store;
                  payload_ref = entry.payload_ref;
                  outputs = some outputs;
                })
              ]
            ]
      ]

  -- The errors of step 4.
  unfoldable pub refuse : World → Fault → Ended
  refuse w f =
      if w.rs.cancelled || (elim w.rs.paused [ none ↦ false | some pm ↦ true ])
      then internal f w
      else elim f [
        | await_cancelled ↦ fail_step disk w path outcome_retryable_failure await_cancelled
        | other ↦ internal (wrapped other) w
      ]

  -- Step 5.
  unfoldable pub validated : World → Map Bytes → Bytes → Result SignalEnded (Option Object)
  validated w store payload = elim ss.schema [
    | none ↦ ok none
    | some validate ↦ elim (validate payload) [
      | some outputs ↦ ok (some outputs)
      | none ↦ gives_up (fail_step disk w path outcome_retryable_failure invalid_payload) store
    ]
  ]

  -- A Put of step 6, and its reference.
  unfoldable pub stored : World → Map Bytes → Bytes → Result SignalEnded (Map Bytes × Bytes)
  stored w store content =
      let done = put sum256 store content (put_fault store content) in
      elim done.1 [
        | err e ↦ gives_up (internal unstored_payload w) done.0
        | ok ref ↦ ok (done.0, ref)
      ]

  -- Step 6: the canonical form of the outputs, or else the bytes of a payload that is not empty.
  unfoldable pub put_payload :
      World → Map Bytes → Bytes → Option Object → Result SignalEnded (Map Bytes × Bytes)
  unfolding stored
  put_payload w store payload (some outputs) = elim (marshal outputs) [
    | none ↦ gives_up (internal invalid_payload w) store
    | some canonical ↦ stored w store canonical
  ]
  put_payload w store payload none =
      if bytes_eq payload [] then ok (store, []) else stored w store payload

  -- Step 7a: signal.received on the log and in memory.
  unfoldable pub record_received : World → Map Bytes → ℕ → Bytes → Option Object → Receives
  record_received w store seq ref outputs =
      let data' : SignalReceivedData = record { name = ss.await; seq = seq; payload_ref = ref } in
      elim (append disk w (signal_received path data')) [
        | err f ↦ gives_up (internal (wrapped f) w) store
        | ok w' ↦ elim (sync disk w') [
          | err f ↦ gives_up (internal (wrapped f) w') store
          | ok w'' ↦
              let entry : SignalEntry = record { seq = seq; payload_ref = ref } in
              ok (record {
                world = record w'' {
                  rs = record_signal_received_at (append_signal w''.rs ss.await entry) path entry;
                };
                store = store;
                payload_ref = ref;
                outputs = outputs;
              })
        ]
      ]

  -- Steps 5 to 7a on a delivery.
  unfoldable pub accept : World → Map Bytes → Delivery → Receives
  accept w store d = validated w store d.payload >>= λ outputs.
      put_payload w store d.payload outputs >>= λ p. record_received w p.0 d.seq p.1 outputs

  -- appendNodeStarted, whose errors are ignored.
  unfoldable pub started : World → World
  started w = elim (append disk w (node_started path)) [ err f ↦ w | ok w' ↦ w' ]

  -- Steps 4 to 7a.
  unfoldable pub receive : Awaited → World → Map Bytes → Receives
  unfolding accept refuse started
  receive answer w store = elim ss.where_error [
    | some f ↦
        gives_up (fail_step disk (started w) path outcome_permanent_failure (wrapped f)) store
    | none ↦ elim answer [
      | delivered d ↦ accept (started w) store d
      | timed_out ↦
          gives_up (fail_step disk (started w) path outcome_retryable_failure await_timeout) store
      | cancelled ↦ gives_up (refuse (started w) await_cancelled) store
      | broken f ↦ gives_up (refuse (started w) f) store
    ]
  ]

  -- Steps 7b and 7c.
  unfoldable pub complete : Received → SignalEnded
  complete r =
      let data' : NodeCompletedData = record {
        outcome = outcome_string outcome_ok;
        exit_code = none;
        outputs_ref = r.payload_ref;
        stdout_ref = [];
        files = [];
        snapshot_ref = [];
        container = [];
        transcript_ref = [];
        node_key = "";
        node_subtree_digest = "";
        session_ref = [];
      } in
      let result : NodeResult = record {
        outcome = outcome_ok;
        exit_code = none;
        outputs = r.outputs;
        outputs_ref = r.payload_ref;
        stdout = none;
        stdout_ref = [];
        files = [];
        transcript = none;
        node_key = "";
        node_subtree_digest = "";
      } in
      elim (append disk r.world (node_completed path data')) [
        | err f ↦ record { ended = internal (wrapped f) r.world; store = r.store }
        | ok w' ↦ elim (sync disk w') [
          | err f ↦ record { ended = internal (wrapped f) w'; store = r.store }
          | ok w'' ↦ record {
            ended = returned outcome_ok (record w'' { rs = record_completed w''.rs path result });
            store = r.store;
          }
        ]
      ]

  unfoldable pub finish_signal : Receives → SignalEnded
  unfolding complete
  finish_signal (err e) = e
  finish_signal (ok r) = complete r

  -- runSignalStep; `broker` is what Receive comes to, where there is a broker.
  unfoldable pub run_signal_step : Option Awaited → World → Map Bytes → SignalEnded
  unfolding finish_signal rederive receive
  run_signal_step broker w store =
      let fresh : Awaited → SignalEnded = λ answer.
        finish_signal (elim (lookup path w.rs.signal_received_at) [
          | some entry ↦ rederive w store entry
          | none ↦ receive answer w store
        ]) in
      elim (lookup_completed w.rs path) [
        | some nr ↦ record { ended = returned outcome_ok w; store = store }
        | none ↦ elim broker [
          | none ↦ record { ended = internal no_broker w; store = store }
          | some answer ↦ fresh answer
        ]
      ]
