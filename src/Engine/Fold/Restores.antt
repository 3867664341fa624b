-- ===== src/Engine/Fold/Restores.antt =====
-- Commit (engine/commit.go) and the replay of what it left (engine/fold.go).
use awf.Prelude.{
  ◌≡◌, refl, sym, ap, ◌∙◌, Bytes, Bool, true, false, List, [], ◌∷◌, ◌++◌, Option, none, some,
  String, Result, ok, err, Bool-cases, inl, inr, bytes_eq_refl,
}
use mathlib.Core.Path.{subst}
use awf.Prelude.Map.{Map, lookup-insert}
use awf.Engine.Commit.{
  Product, CommitError, Refs, Keys, Committed, node_completed_data, committed_result, put_artifacts,
  finish, is_ok, commit, pick, some_bytes,
}
use awf.Engine.Commit.Steps.{Sound, Injective, After}
use awf.Engine.Commit.Durable.{Covered, Written, Reads, ReadsMarshalled, put_artifacts-Written}
use awf.Engine.Events.{Json, NodeCompletedData, Object, Transcript}
use awf.Engine.Events.Kinds.{EventKind, kind_of}
use awf.Engine.Fold.{
  fold, fold_kind, fold_node_completed, node_result, commit_node, read_object, read_ref, is_empty,
}
use awf.Engine.Fold.Prefix.{fold-append_one}
use awf.Engine.RunState.{RunState, NodeResult, lookup_completed, record_completed}
use awf.Engine.RunState.Outcomes.{
  Outcome, outcome_ok, outcome_string, parse_outcome, parse_outcome_iff,
}
use awf.State.Blobs.{PutFault, get, parse_ref, has_prefix}
use awf.State.Blobs.Address.{HashLaws}
use awf.State.Event.{Event}

-- blobs.Get, as the fold takes it.
abbrev pub get_of : (Bytes → Bytes) → Map Bytes → Bytes → Option Bytes
get_of sum256 store ref = elim (get sum256 store ref) [ ok c ↦ some c | err e ↦ none ]

-- json.Unmarshal takes back what json.Marshal gave.
pub record WireLaws (json : Json) (marshal_object : Object → Option Bytes)
    (marshal_transcript : Transcript → Option Bytes) : Type 0 where
  pub object : (a : Object) (c : Bytes) → marshal_object a ≡ some c → json.object c ≡ some (some a)
  pub transcript :
      (a : Transcript) (c : Bytes) → marshal_transcript a ≡ some c → json.transcript c ≡ some a

module _ (json : Json) (sum256 : Bytes → Bytes) (store : Map Bytes) where
  get_of_lem : (ref c : Bytes) → get sum256 store ref ≡ ok c → get_of sum256 store ref ≡ some c
  get_of_lem ref c h = rw (h, get_of)

  some_ref : (ref c : Bytes) → get sum256 store ref ≡ ok c → is_empty ref ≡ false
  unfolding get parse_ref has_prefix is_empty
  some_ref [] c h = absurd (cc h)
  some_ref (b ∷ bs) c h = refl

  read_ref-some {ℓ} :
      {A : Type ℓ} (decode : Bytes → Option A) (ref c : Bytes) (a : A)
      → get sum256 store ref ≡ ok c
      → decode c ≡ some a
      → read_ref json (get_of sum256 store) decode ref ≡ ok (some a)
  unfolding read_ref
  read_ref-some decode ref c a held decoded =
      rw (some_ref ref c held, get_of_lem ref c held, decoded)

  read_ref-none {ℓ} :
      {A : Type ℓ} (decode : Bytes → Option A) (ref : Bytes)
      → ref ≡ []
      → read_ref json (get_of sum256 store) decode ref ≡ ok none
  unfolding read_ref is_empty
  read_ref-none decode ref h = rw h

node_result-reads :
    (json : Json) (get' : Bytes → Option Bytes) (d : NodeCompletedData) (outputs : Option Object)
    (stdout : Option Bytes) (transcript : Option Transcript)
    → parse_outcome d.outcome ≡ some outcome_ok
    → read_object json get' d.outputs_ref ≡ ok outputs
    → read_ref json get' (λ raw. some raw) d.stdout_ref ≡ ok stdout
    → read_ref json get' json.transcript d.transcript_ref ≡ ok transcript
    → node_result json get' d
      ≡ ok (record {
        outcome = outcome_ok;
        exit_code = d.exit_code;
        outputs = outputs;
        outputs_ref = d.outputs_ref;
        stdout = stdout;
        stdout_ref = d.stdout_ref;
        files = d.files;
        transcript = transcript;
        node_key = d.node_key;
        node_subtree_digest = d.node_subtree_digest;
      })
unfolding node_result
node_result-reads json get' d outputs stdout transcript parsed o out tr = rw (parsed, o, out, tr)

module _ (json : Json) (sum256 : Bytes → Bytes) (laws : HashLaws sum256) (P : Bytes → Type 0)
    (injective : Injective sum256 P) (fault : Map Bytes → Bytes → PutFault)
    (marshal_object : Object → Option Bytes) (marshal_transcript : Transcript → Option Bytes)
    (wire : WireLaws json marshal_object marshal_transcript) where
  reads_object :
      (store : Map Bytes) (o : Option Object) (ref : Bytes)
      → ReadsMarshalled sum256 laws P injective fault marshal_object marshal_transcript
          marshal_object o store ref
      → read_object json (get_of sum256 store) ref ≡ ok o
  unfolding read_object
  reads_object store none ref h = rw (read_ref-none json sum256 store json.object ref h)
  reads_object store (some a) ref (c, bytes, held) =
      rw (read_ref-some json sum256 store json.object ref c (some a) held (wire.object a c bytes))

  reads_transcript :
      (store : Map Bytes) (o : Option Transcript) (ref : Bytes)
      → ReadsMarshalled sum256 laws P injective fault marshal_object marshal_transcript
          marshal_transcript o store ref
      → read_ref json (get_of sum256 store) json.transcript ref ≡ ok o
  reads_transcript store none ref h = read_ref-none json sum256 store json.transcript ref h
  reads_transcript store (some a) ref (c, bytes, held) =
      read_ref-some json sum256 store json.transcript ref c a held (wire.transcript a c bytes)

  Reads-bytes :
      (store : Map Bytes) (o : Option Bytes) (ref : Bytes)
      → Reads sum256 laws P injective fault marshal_object marshal_transcript o store ref
      → read_ref json (get_of sum256 store) (λ raw. some raw) ref ≡ ok o
  Reads-bytes store none ref h = read_ref-none json sum256 store (λ raw. some raw) ref h
  Reads-bytes store (some c) ref h =
      read_ref-some json sum256 store (λ raw. some raw) ref c c h refl

  -- The event's data materializes to what Commit returned.
  materializes :
      (p : Product) (participates : Bool) (refs : Refs) (key : String × String) (store : Map Bytes)
      → p.outcome ≡ outcome_ok
      → Written sum256 laws P injective fault marshal_object marshal_transcript p participates store
          refs
      → node_result json (get_of sum256 store) (node_completed_data p refs key)
        ≡ ok (committed_result p participates refs key)
  unfolding node_completed_data committed_result
  materializes p participates refs (key, digest) store fine (o, out, files, tr) =
      let parsed : parse_outcome (outcome_string p.outcome) ≡ some outcome_ok =
        (parse_outcome_iff (outcome_string p.outcome) p.outcome).1 refl
        ∙ ap (λ x. Option.some x) fine in
      node_result-reads json (get_of sum256 store) (node_completed_data p refs (key, digest))
        p.outputs (some_bytes p.stdout) (pick participates p.transcript) parsed
        (reads_object store p.outputs refs.outputs o)
        (Reads-bytes store (some_bytes p.stdout) refs.stdout out)
        (reads_transcript store (pick participates p.transcript) refs.transcript tr)
      ∙ ap
          (λ oc.
            Result.ok
              (record (committed_result p participates refs (key, digest)) { outcome = oc }))
          (sym fine)

  -- Behind the puts.
  finish_restores :
      (p : Product) (participates : Bool) (keys : Keys) (af sf : Bool) (s : Map Bytes)
      (r : Map Bytes × Result CommitError Refs) (nr : NodeResult)
      → p.outcome ≡ outcome_ok
      → After sum256 laws P injective s
          (Written sum256 laws P injective fault marshal_object marshal_transcript p participates)
          r
      → (finish p participates keys af sf r).result ≡ ok nr
      → (d : NodeCompletedData) × ((finish p participates keys af sf r).appended ≡ some d)
        × (node_result json (get_of sum256 (finish p participates keys af sf r).store) d ≡ ok nr)
  unfolding finish
  finish_restores p b keys af sf s (store, err e) nr fine h done = absurd (cc done)
  finish_restores p b (err e) af sf s (store, ok refs) nr fine h done = absurd (cc done)
  finish_restores p b (ok key) true sf s (store, ok refs) nr fine h done = absurd (cc done)
  finish_restores p b (ok key) false true s (store, ok refs) nr fine h done = absurd (cc done)
  finish_restores p b (ok key) false false s (store, ok refs) nr fine (sound, ext, written) done =
      let same : committed_result p b refs key ≡ nr = cc done in
      (
        node_completed_data p refs key,
        refl,
        materializes p b refs key store fine written ∙ ap (λ x. Result.ok x) same,
      )

  is_ok-outcome : (oc : Outcome) → is_ok oc ≡ true → oc ≡ outcome_ok
  unfolding is_ok
  is_ok-outcome outcome_ok h = refl
  is_ok-outcome _ h = absurd (cc h)

  commit_restores :
      (p : Product) (participates : Bool) (keys : Keys) (af sf : Bool) (s : Map Bytes)
      (nr : NodeResult)
      → Sound sum256 P s
      → Covered sum256 laws P injective fault marshal_object marshal_transcript p participates
      → (commit sum256 fault marshal_object marshal_transcript p participates keys af sf s).result
        ≡ ok nr
      → (d : NodeCompletedData) × ((commit sum256 fault marshal_object marshal_transcript p
            participates keys af sf s).appended
          ≡ some d)
        × (node_result json
              (get_of sum256
                (commit sum256 fault marshal_object marshal_transcript p participates keys af sf
                  s).store)
              d
            ≡ ok nr)
  unfolding commit
  commit_restores p b keys af sf s nr sound covered done = elim (Bool-cases (is_ok p.outcome)) [
    | inr bad ↦ absurd (cc (rw bad at done))
    | inl fine ↦
        let put = put_artifacts sum256 fault marshal_object marshal_transcript p b s in
        let written =
          put_artifacts-Written sum256 laws P injective fault marshal_object marshal_transcript p b
            covered s sound in
        rw fine (
          finish_restores p b keys af sf s put nr (is_ok-outcome p.outcome fine) written
            (rw fine at done))
  ]

replay_completed :
    (json : Json) (get' : Bytes → Option Bytes) (d0 e : Event) (es : List Event) (rs : RunState)
    (d : NodeCompletedData) (nr : NodeResult)
    → fold json get' (d0 ∷ es) ≡ ok rs
    → kind_of e.event_type ≡ EventKind.node_completed
    → json.node_completed e.event_data ≡ some d
    → node_result json get' d ≡ ok nr
    → fold json get' (d0 ∷ (es ++ e ∷ [])) ≡ ok (commit_node json get' rs e.path d nr)
unfolding fold_kind fold_node_completed
replay_completed json get' d0 e es rs d nr done kind parsed result =
    rw (fold-append_one json get' d0 e es, done, kind, parsed, result)

completed_at :
    (json : Json) (get' : Bytes → Option Bytes) (rs : RunState) (path : Bytes)
    (d : NodeCompletedData) (nr : NodeResult)
    → lookup_completed (commit_node json get' rs path d nr) path ≡ some nr
unfolding commit_node lookup_completed record_completed
completed_at json get' rs path d nr =
    lookup-insert path path nr rs.completed ∙ rw (bytes_eq_refl path)

module _ (json : Json) (sum256 : Bytes → Bytes) (laws : HashLaws sum256) (P : Bytes → Type 0)
    (injective : Injective sum256 P) (fault : Map Bytes → Bytes → PutFault)
    (marshal_object : Object → Option Bytes) (marshal_transcript : Transcript → Option Bytes)
    (wire : WireLaws json marshal_object marshal_transcript) where
  -- Where Commit returns a result, a log that replays against the store it left, with the event it
  -- appended behind, replays to a state whose record of the node is exactly that result, typed
  -- outputs, stdout and transcript included. The hash does not collide on the stored blobs and the
  -- artifacts, and JSON takes back what it marshalled.
  pub fold-commit :
      (p : Product) (participates : Bool) (keys : Keys) (append_fails sync_fails : Bool)
      (s : Map Bytes) (r : Committed) (nr : NodeResult) (d0 e : Event) (es : List Event)
      (rs : RunState)
      → Sound sum256 P s
      → Covered sum256 laws P injective fault marshal_object marshal_transcript p participates
      → commit sum256 fault marshal_object marshal_transcript p participates keys append_fails
          sync_fails s
        ≡ r
      → r.result ≡ ok nr
      → kind_of e.event_type ≡ EventKind.node_completed
      → json.node_completed e.event_data ≡ r.appended
      → fold json (get_of sum256 r.store) (d0 ∷ es) ≡ ok rs
      → (rs' : RunState) × (fold json (get_of sum256 r.store) (d0 ∷ (es ++ e ∷ [])) ≡ ok rs')
        × (lookup_completed rs' e.path ≡ some nr)
  fold-commit p participates keys af sf s r nr d0 e es rs sound covered run done kind parsed
        replayed =
      let Left : Committed → Type 0 = λ r'.
        r'.result ≡ ok nr
        → (d : NodeCompletedData) × (r'.appended ≡ some d)
          × (node_result json (get_of sum256 r'.store) d ≡ ok nr) in
      let left : Left r = subst Left run (
        commit_restores json sum256 laws P injective fault marshal_object marshal_transcript wire p
          participates keys af sf s nr sound covered) in
      let (d, appended, result) = left done in
      (
        commit_node json (get_of sum256 r.store) rs e.path d nr,
        replay_completed json (get_of sum256 r.store) d0 e es rs d nr replayed kind
            (parsed ∙ appended) result,
        completed_at json (get_of sum256 r.store) rs e.path d nr,
      )
