-- ===== src/Engine/SignalStep/Examples.antt =====
-- A signal step with a schema that a crash stops behind signal.received (engine/signal_step.go).
use awf.Prelude.{◌≡◌, refl, sym, ap, ◌∙◌, Bytes, codes, [], ◌∷◌, Option, none, some, ok}
use awf.Prelude.Map.{Map, lookup, insert, get_or}
use awf.Engine.Events.{Object}
use awf.Engine.RunState.{
  SignalEntry, zero_state, lookup_completed, append_signal, record_signal_received_at,
}
use awf.Engine.SignalStep.{
  delivered, timed_out, SignalStep, Received, validated, stored, put_payload, record_received,
  accept, started, receive, complete, run_signal_step,
}
use awf.Engine.SignalStep.Resumed.{OnRecord, run_signal_step-resumed}
use awf.Engine.Walk.{World, Disk, node_started, signal_received, append, sync}
use awf.Examples.Journal.{sum256, sum256-laws, hello}
use awf.Signal.Broker.{Delivery}
use awf.State.Blobs.Address.{NoCollision}
use awf.State.Blobs.{PutFault, no_fault, put, ref_for}

abbrev disk : Disk
disk = record { append_fault = λ log e. none; sync_fault = λ log. none }

abbrev faultless : Map Bytes → Bytes → PutFault
faultless s c = no_fault

abbrev outputs : Object
outputs = (codes "ok", codes "true") ∷ []

-- Any payload has these outputs, and they marshal to one text.
abbrev validate : Bytes → Option Object
validate payload = some outputs

abbrev marshal : Object → Option Bytes
marshal o = some hello

abbrev step : SignalStep
step = record { await = codes "go"; schema = some validate; where_error = none }

abbrev at : Bytes
at = codes "wait"

abbrev go_1 : Delivery
go_1 = record { name = codes "go"; seq = 1; payload = codes " {} " }

abbrev fresh : World
fresh = record { rs = zero_state; log = []; synced = 0 }

-- What receiving the signal leaves.
abbrev left : Received
unfolding record_signal_received_at append_signal insert get_or lookup ref_for
left =
    let entry : SignalEntry = record { seq = 1; payload_ref = ref_for sum256 hello } in
    record {
      world = record {
        rs = record_signal_received_at (append_signal zero_state (codes "go") entry) at entry;
        log =
            node_started at
            ∷ signal_received at
                (record { name = codes "go"; seq = 1; payload_ref = ref_for sum256 hello })
            ∷ [];
        synced = 2;
      };
      store = (put sum256 [] hello no_fault).0;
      payload_ref = ref_for sum256 hello;
      outputs = some outputs;
    }

received : receive sum256 faultless marshal disk step at (delivered go_1) fresh [] ≡ ok left
unfolding receive accept started append sync validated put_payload stored put record_received
    record_signal_received_at append_signal insert get_or lookup left ref_for
received = refl

one_text :
    (v : Bytes → Option Object) (o : Object) (c : Bytes)
    → step.schema ≡ some v
    → v go_1.payload ≡ some o
    → marshal o ≡ some c
    → (v c ≡ some o) × NoCollision sum256 [] c
unfolding lookup
one_text v o c declared valid marshalled =
    let same : validate ≡ v = cc declared in
    (
      sym (ap (λ (f : Bytes → Option Object). f c) same)
          ∙ ap (λ (f : Bytes → Option Object). f go_1.payload) same
          ∙ valid,
      λ earlier held. absurd (cc held),
    )

-- The resume's broker would time out.
run_signal_step-resumed_example :
    OnRecord sum256 sum256-laws faultless marshal disk step at
      (started sum256 faultless marshal disk step at fresh).log
      left.world
      1
      (ref_for sum256 hello)
    × (run_signal_step sum256 faultless marshal disk step at (some timed_out) left.world left.store
        ≡ complete sum256 faultless marshal disk step at left)
unfolding lookup_completed lookup left
run_signal_step-resumed_example =
    run_signal_step-resumed sum256 sum256-laws faultless marshal disk step at go_1 fresh [] left
      timed_out left.world received one_text refl refl
