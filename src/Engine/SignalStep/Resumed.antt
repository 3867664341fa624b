-- ===== src/Engine/SignalStep/Resumed.antt =====
-- A signal step that a crash stopped behind signal.received (engine/signal_step.go).
use awf.Prelude.{
  ℕ, ◌≡◌, inl, inr, refl, sym, ◌∙◌, Bytes, false, List, [], ◌∷◌, ◌++◌, Option, none, some, ok,
  ◌>>=◌, >>=-eq-ok, bytes_eq, bytes_eq_refl, Option-cases, Result-cases, length, take_whole, arith,
}
use awf.Prelude.Map.{Map, lookup, lookup-insert}
use awf.Engine.Events.{Object}
use awf.Engine.RunState.{SignalEntry, lookup_completed, append_signal, record_signal_received_at}
use awf.Engine.SignalStep.{
  Awaited, delivered, SignalStep, Received, rederive, validated, stored, put_payload,
  record_received, accept, started, receive, complete, finish_signal, run_signal_step,
}
use mathlib.Core.Path.{subst}
use awf.Engine.Walk.{World, Disk, Entry, durable, append, sync, signal_received}
use awf.Signal.Broker.{Delivery}
use awf.State.Blobs.{PutFault, put, get, parse_ref, has_prefix}
use awf.State.Blobs.Address.{HashLaws, NoCollision, get-put}

module _ (sum256 : Bytes → Bytes) (laws : HashLaws sum256)
    (put_fault : Map Bytes → Bytes → PutFault) (marshal : Object → Option Bytes) (disk : Disk)
    (ss : SignalStep) (path : Bytes) where
  -- A reference that a record can be read from again: what it stands for passes the schema with
  -- the same outputs, or there is no schema.
  abbrev Readable : Map Bytes → Bytes → Option Object → Type 0
  Readable store ref outputs =
      (w : World) (seq : ℕ)
      → rederive sum256 put_fault marshal disk ss path w store
          (record { seq = seq; payload_ref = ref })
        ≡ ok (record { world = w; store = store; payload_ref = ref; outputs = outputs })

  record_received-Received :
      (w : World) (store : Map Bytes) (seq : ℕ) (ref : Bytes) (outputs : Option Object)
      (r : Received)
      → record_received sum256 put_fault marshal disk ss path w store seq ref outputs ≡ ok r
      → (r.store ≡ store) × (r.payload_ref ≡ ref) × (r.outputs ≡ outputs)
  unfolding record_received
  record_received-Received w store seq ref outputs r h = ground (arith, h)

  -- A reference that a Put of the content gave.
  stored-get :
      (w : World) (store : Map Bytes) (content : Bytes) (p : Map Bytes × Bytes)
      → NoCollision sum256 store content
      → stored sum256 put_fault marshal disk ss path w store content ≡ ok p
      → get sum256 p.0 p.1 ≡ ok content
  unfolding stored
  stored-get w store content p fresh h =
      elim (Result-cases (put sum256 store content (put_fault store content)).1) [
        | inr (e, failed) ↦ absurd (cc (rw (failed, stored) at h))
        | inl (ref, done) ↦
            let here : stored sum256 put_fault marshal disk ss path w store content
                ≡ ok ((put sum256 store content (put_fault store content)).0, ref) =
              rw (done, stored) in
            let same : ((put sum256 store content (put_fault store content)).0, ref) ≡ p =
              cc (here, h) in
            subst (λ (q : Map Bytes × Bytes). get sum256 q.0 q.1 ≡ ok content) same
              (get-put sum256 laws store content ref (put_fault store content) fresh done)
      ]

  -- What can be read has a reference that is not empty.
  get-nonempty :
      (store : Map Bytes) (ref content : Bytes)
      → get sum256 store ref ≡ ok content
      → bytes_eq ref [] ≡ false
  unfolding get parse_ref has_prefix bytes_eq
  get-nonempty store [] content held = absurd (cc held)
  get-nonempty store (b ∷ ref) content held = refl

  Readable-plain : (store : Map Bytes) (ref : Bytes) → ss.schema ≡ none → Readable store ref none
  unfolding rederive
  Readable-plain store ref none_declared w seq = rw (none_declared, rederive)

  Readable-typed :
      (store : Map Bytes) (ref content : Bytes) (validate : Bytes → Option Object) (o : Object)
      → ss.schema ≡ some validate
      → bytes_eq ref [] ≡ false
      → get sum256 store ref ≡ ok content
      → validate content ≡ some o
      → Readable store ref (some o)
  unfolding rederive
  Readable-typed store ref content validate o declared there held valid w seq =
      rw (declared, rederive) (rw there (rw (held, rederive) (rw (valid, rederive))))

  -- The outputs of a payload marshal to bytes that validate as the same outputs, and that no other
  -- blob of the store collides with.
  abbrev pub Canonical : Map Bytes → Bytes → Type 0
  Canonical store payload =
      (validate : Bytes → Option Object) (o : Object) (c : Bytes)
      → ss.schema ≡ some validate
      → validate payload ≡ some o
      → marshal o ≡ some c
      → (validate c ≡ some o) × NoCollision sum256 store c

  recorded-Readable :
      (w : World) (store : Map Bytes) (seq : ℕ) (ref : Bytes) (outputs : Option Object)
      (r : Received)
      → record_received sum256 put_fault marshal disk ss path w store seq ref outputs ≡ ok r
      → Readable store ref outputs
      → Readable r.store r.payload_ref r.outputs
  recorded-Readable w store seq ref outputs r h readable =
      let (same_store, same_ref, same_outputs) =
        record_received-Received w store seq ref outputs r h in
      rw (same_store, same_ref, same_outputs) readable

  accept_plain :
      (w : World) (store : Map Bytes) (d : Delivery) (r : Received)
      → ss.schema ≡ none
      → accept sum256 put_fault marshal disk ss path w store d ≡ ok r
      → Readable r.store r.payload_ref r.outputs
  unfolding accept
  accept_plain w store d r undeclared h =
      let plain : validated sum256 put_fault marshal disk ss path w store d.payload ≡ ok none =
        unfold validated in rw (undeclared, validated) in
      let after = rw plain at h in
      let (p, put_done, recorded) =
        >>=-eq-ok (put_payload sum256 put_fault marshal disk ss path w store d.payload none)
          (λ p. record_received sum256 put_fault marshal disk ss path w p.0 d.seq p.1 none) after in
      recorded-Readable w p.0 d.seq p.1 none r recorded (Readable-plain p.0 p.1 undeclared)

  validated_typed :
      (w : World) (store : Map Bytes) (payload : Bytes) (outputs : Option Object)
      (validate : Bytes → Option Object)
      → ss.schema ≡ some validate
      → validated sum256 put_fault marshal disk ss path w store payload ≡ ok outputs
      → (o : Object) × (validate payload ≡ some o) × (outputs ≡ some o)
  unfolding validated
  validated_typed w store payload outputs validate declared h =
      let opened' = rw (declared, validated) at h in
      elim (Option-cases (validate payload)) [
        | inl invalid ↦ absurd (cc (rw (invalid, validated) at opened'))
        | inr (o, valid) ↦ (o, valid, cc (rw (valid, validated) at opened'))
      ]

  put_payload_typed :
      (w : World) (store : Map Bytes) (payload : Bytes) (o : Object) (p : Map Bytes × Bytes)
      → put_payload sum256 put_fault marshal disk ss path w store payload (some o) ≡ ok p
      → (c : Bytes) × (marshal o ≡ some c)
        × (stored sum256 put_fault marshal disk ss path w store c ≡ ok p)
  unfolding put_payload
  put_payload_typed w store payload o p h = elim (Option-cases (marshal o)) [
    | inl unmarshalled ↦ absurd (cc (rw (unmarshalled, put_payload) at h))
    | inr (c, marshalled) ↦ (c, marshalled, rw (marshalled, put_payload) at h)
  ]

  accept_typed :
      (w : World) (store : Map Bytes) (d : Delivery) (r : Received)
      (validate : Bytes → Option Object)
      → ss.schema ≡ some validate
      → Canonical store d.payload
      → accept sum256 put_fault marshal disk ss path w store d ≡ ok r
      → Readable r.store r.payload_ref r.outputs
  unfolding accept
  accept_typed w store d r validate declared canonical h =
      let (outputs, valid_done, rest) =
        >>=-eq-ok (validated sum256 put_fault marshal disk ss path w store d.payload)
          (λ outputs.
            put_payload sum256 put_fault marshal disk ss path w store d.payload outputs >>= λ p.
            record_received sum256 put_fault marshal disk ss path w p.0 d.seq p.1 outputs)
          h in
      let (p, put_done, recorded) =
        >>=-eq-ok (put_payload sum256 put_fault marshal disk ss path w store d.payload outputs)
          (λ p. record_received sum256 put_fault marshal disk ss path w p.0 d.seq p.1 outputs)
          rest in
      let (o, valid, typed) =
        validated_typed w store d.payload outputs validate declared valid_done in
      let (c, marshalled, put_in) =
        put_payload_typed w store d.payload o p (rw typed at put_done) in
      let (back, fresh) = canonical validate o c declared valid marshalled in
      let held = stored-get w store c p fresh put_in in
      recorded-Readable w p.0 d.seq p.1 (some o) r (rw typed at recorded)
        (Readable-typed p.0 p.1 c validate o declared (get-nonempty p.0 p.1 c held) held back)

  accept-Readable :
      (w : World) (store : Map Bytes) (d : Delivery) (r : Received)
      → Canonical store d.payload
      → accept sum256 put_fault marshal disk ss path w store d ≡ ok r
      → Readable r.store r.payload_ref r.outputs
  accept-Readable w store d r canonical h = elim (Option-cases ss.schema) [
    | inl undeclared ↦ accept_plain w store d r undeclared h
    | inr (validate, declared) ↦ accept_typed w store d r validate declared canonical h
  ]

  receive-accept :
      (d : Delivery) (w : World) (store : Map Bytes) (r : Received)
      → receive sum256 put_fault marshal disk ss path (delivered d) w store ≡ ok r
      → accept sum256 put_fault marshal disk ss path
          (started sum256 put_fault marshal disk ss path w)
          store
          d
        ≡ ok r
  unfolding receive
  receive-accept d w store r h = elim (Option-cases ss.where_error) [
    | inl fine ↦ rw (fine, receive) at h
    | inr (f, bad) ↦ absurd (cc (rw (bad, receive) at h))
  ]

  -- signal.received is on disk, and the state has it at the step's path.
  abbrev pub OnRecord : List Entry → World → ℕ → Bytes → Type 0
  OnRecord log w seq ref =
      (durable w
        ≡ log
          ++ signal_received path (record { name = ss.await; seq = seq; payload_ref = ref }) ∷ [])
      × (lookup path w.rs.signal_received_at ≡ some (record { seq = seq; payload_ref = ref }))

  record_received-OnRecord :
      (w : World) (store : Map Bytes) (seq : ℕ) (ref : Bytes) (outputs : Option Object)
      (r : Received)
      → record_received sum256 put_fault marshal disk ss path w store seq ref outputs ≡ ok r
      → OnRecord w.log r.world seq ref
  unfolding record_received append sync record_signal_received_at append_signal
  record_received-OnRecord w store seq ref outputs r h =
      let event = signal_received path (record { name = ss.await; seq = seq; payload_ref = ref }) in
      let entry : SignalEntry = record { seq = seq; payload_ref = ref } in
      elim (Option-cases (disk.append_fault w.log event)) [
        | inr (f, lost) ↦ absurd (cc (rw (lost, record_received) at h))
        | inl appended ↦ elim (Option-cases (disk.sync_fault (w.log ++ event ∷ []))) [
          | inr (f, lost) ↦
              absurd (cc (rw (lost, record_received) at (rw (appended, record_received) at h)))
          | inl synced ↦
              let end : Received = record {
                world = record {
                  rs = record_signal_received_at (append_signal w.rs ss.await entry) path entry;
                  log = w.log ++ event ∷ [];
                  synced = length (w.log ++ event ∷ []);
                };
                store = store;
                payload_ref = ref;
                outputs = outputs;
              } in
              let same : end ≡ r =
                cc (rw (synced, record_received) at (rw (appended, record_received) at h)) in
              subst (λ (z : Received). OnRecord w.log z.world seq ref) same
                (
                  take_whole (w.log ++ event ∷ []),
                  lookup-insert path path entry w.rs.signal_received_at ∙ rw (bytes_eq_refl path),
                )
        ]
      ]

  accept-OnRecord :
      (w : World) (store : Map Bytes) (d : Delivery) (r : Received)
      → accept sum256 put_fault marshal disk ss path w store d ≡ ok r
      → OnRecord w.log r.world d.seq r.payload_ref
  unfolding accept
  accept-OnRecord w store d r h =
      let (outputs, valid_done, rest) =
        >>=-eq-ok (validated sum256 put_fault marshal disk ss path w store d.payload)
          (λ outputs.
            put_payload sum256 put_fault marshal disk ss path w store d.payload outputs >>= λ p.
            record_received sum256 put_fault marshal disk ss path w p.0 d.seq p.1 outputs)
          h in
      let (p, put_done, recorded) =
        >>=-eq-ok (put_payload sum256 put_fault marshal disk ss path w store d.payload outputs)
          (λ p. record_received sum256 put_fault marshal disk ss path w p.0 d.seq p.1 outputs)
          rest in
      let (same_store, same_ref, same_outputs) =
        record_received-Received w p.0 d.seq p.1 outputs r recorded in
      subst (OnRecord w.log r.world d.seq) (sym same_ref)
        (record_received-OnRecord w p.0 d.seq p.1 outputs r recorded)

  -- Where a step receives a signal, signal.received is on disk with the signal's number, and the
  -- state has it. From then on a resume asks the broker for nothing: in any state that has this
  -- record at the step's path and no result there, and with any answer of the broker, the handler
  -- goes on exactly as the run that received the signal, with the reference and the typed outputs
  -- of the payload that was delivered, provided that the outputs' canonical form validates as the
  -- same outputs and collides with no other blob.
  pub run_signal_step-resumed :
      (d : Delivery) (w : World) (store : Map Bytes) (r : Received) (answer : Awaited) (w' : World)
      → receive sum256 put_fault marshal disk ss path (delivered d) w store ≡ ok r
      → Canonical store d.payload
      → lookup_completed w'.rs path ≡ none
      → lookup path w'.rs.signal_received_at ≡ lookup path r.world.rs.signal_received_at
      → OnRecord (started sum256 put_fault marshal disk ss path w).log r.world d.seq r.payload_ref
        × (run_signal_step sum256 put_fault marshal disk ss path (some answer) w' r.store
            ≡ complete sum256 put_fault marshal disk ss path (record r { world = w' }))
  unfolding run_signal_step
  run_signal_step-resumed d w store r answer w' received canonical pending on_record =
      let before = started sum256 put_fault marshal disk ss path w in
      let accepted = receive-accept d w store r received in
      let recorded = accept-OnRecord before store d r accepted in
      let readable = accept-Readable before store d r canonical accepted in
      (
        recorded,
        rw (pending, run_signal_step)
            (rw (on_record ∙ recorded.1, run_signal_step) (rw (readable w' d.seq, finish_signal))),
      )
