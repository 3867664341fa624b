-- ===== src/Engine/Commit.antt =====
-- engine/commit.go, Commit: a successful result put on disk, its blobs first.
--
-- `fault` says how each Put goes wrong, and `marshal_object` and `marshal_transcript` are
-- json.Marshal. A nil byte slice and an empty one are one value.
pub mod Steps
pub mod Durable
use awf.Prelude.{
  ℕ, Bytes, Bool, true, false, not, ◌&&◌, List, [], ◌∷◌, Option, none, some, String, Result, ok,
  err, if◌then◌else◌,
}
use awf.Prelude.Int.{ℤ}
use awf.Prelude.Map.{Map, insert}
use awf.Engine.Events.{Object, Transcript, NodeCompletedData}
use awf.Engine.RunState.{NodeResult}
use awf.Engine.RunState.Outcomes.{Outcome, outcome_ok, outcome_string}
use awf.State.Blobs.{BlobError, PutFault, put}

-- The fields of a DispatchResult that Commit reads.
pub record Product : Type 0 where
  pub outcome : Outcome
  pub exit_code : Option ℤ
  pub outputs : Option Object
  pub stdout : Bytes
  pub files : List (Bytes × Bytes)
  pub transcript : Transcript
  pub session_ref : Bytes
  pub session_transcript : Bytes
  pub snapshot_ref : Bytes
  pub container : Bytes

pub data CommitError : Type 0 where
  refused marshal_failed no_key append_failed sync_failed : CommitError
  put_error : BlobError → CommitError

-- A step over the store of blobs, which an error leaves as far as it has come.
abbrev pub Puts : Type 0 → Type 0
Puts A = Map Bytes → Map Bytes × Result CommitError A

abbrev pub pure : {A : Type 0} → A → Puts A
pure a store = (store, ok a)

abbrev pub stop : {A : Type 0} → CommitError → Puts A
stop e store = (store, err e)

abbrev pub go_on :
    {A B : Type 0}
    → (A → Puts B)
    → Map Bytes × Result CommitError A
    → Map Bytes × Result CommitError B
go_on f (store, ok a) = f a store
go_on f (store, err e) = (store, err e)

abbrev pub and_then : {A B : Type 0} → Puts A → (A → Puts B) → Puts B
and_then m f store = go_on f (m store)

abbrev pub is_blank : Bytes → Bool
is_blank [] = true
is_blank (b ∷ bs) = false

abbrev pub some_bytes : Bytes → Option Bytes
some_bytes s = if is_blank s then none else some s

-- The references that the puts give.
pub record Refs : Type 0 where
  pub outputs : Bytes
  pub stdout : Bytes
  pub files : Map Bytes
  pub transcript : Bytes
  pub session : Bytes

-- isDeterministicNode, the digest of the node and its key, where the step has them.
abbrev pub Keys : Type 0
Keys = Result CommitError (String × String)

abbrev pub lift_put : Map Bytes × Result BlobError Bytes → Map Bytes × Result CommitError Bytes
lift_put (store, ok ref) = (store, ok ref)
lift_put (store, err e) = (store, err (put_error e))

abbrev pub pick : {A : Type 0} → Bool → A → Option A
pick true a = some a
pick false a = none

unfoldable pub node_completed_data : Product → Refs → String × String → NodeCompletedData
node_completed_data p refs (key, digest) = record {
  outcome = outcome_string p.outcome;
  exit_code = p.exit_code;
  outputs_ref = refs.outputs;
  stdout_ref = refs.stdout;
  files = refs.files;
  snapshot_ref = p.snapshot_ref;
  container = p.container;
  transcript_ref = refs.transcript;
  node_key = key;
  node_subtree_digest = digest;
  session_ref = refs.session;
}

unfoldable pub committed_result : Product → Bool → Refs → String × String → NodeResult
committed_result p participates refs (key, digest) = record {
  outcome = p.outcome;
  exit_code = p.exit_code;
  outputs = p.outputs;
  outputs_ref = refs.outputs;
  stdout = some_bytes p.stdout;
  stdout_ref = refs.stdout;
  files = refs.files;
  transcript = pick participates p.transcript;
  node_key = key;
  node_subtree_digest = digest;
}

-- What Commit leaves: the store, the node.completed event if it was appended, and the return.
pub record Committed : Type 0 where
  pub store : Map Bytes
  pub appended : Option NodeCompletedData
  pub result : Result CommitError NodeResult

-- Behind the puts: the key, and the append and the sync of appendNodeCompleted.
unfoldable pub finish :
    Product → Bool → Keys → Bool → Bool → Map Bytes × Result CommitError Refs → Committed
finish p participates keys append_fails sync_fails (store, err e) = record {
  store = store;
  appended = none;
  result = err e;
}
finish p participates (err e) append_fails sync_fails (store, ok refs) = record {
  store = store;
  appended = none;
  result = err e;
}
finish p participates (ok key) true sync_fails (store, ok refs) = record {
  store = store;
  appended = none;
  result = err append_failed;
}
finish p participates (ok key) false true (store, ok refs) = record {
  store = store;
  appended = some (node_completed_data p refs key);
  result = err sync_failed;
}
finish p participates (ok key) false false (store, ok refs) = record {
  store = store;
  appended = some (node_completed_data p refs key);
  result = ok (committed_result p participates refs key);
}

unfoldable pub is_ok : Outcome → Bool
is_ok outcome_ok = true
is_ok _ = false

module _ (sum256 : Bytes → Bytes) (fault : Map Bytes → Bytes → PutFault)
    (marshal_object : Object → Option Bytes) (marshal_transcript : Transcript → Option Bytes) where
  unfoldable pub put_blob : Bytes → Puts Bytes
  put_blob content store = lift_put (put sum256 store content (fault store content))

  -- An artifact that is not there has no reference.
  unfoldable pub put_some : Option Bytes → Puts Bytes
  put_some none = pure []
  put_some (some content) = put_blob content

  -- An artifact that is marshalled first.
  unfoldable pub put_marshalled : {A : Type 0} → (A → Option Bytes) → Option A → Puts Bytes
  unfolding put_blob
  put_marshalled marshal none = pure []
  put_marshalled marshal (some a) = elim (marshal a) [
    | none ↦ stop marshal_failed
    | some bytes ↦ put_blob bytes
  ]

  unfoldable pub put_files : Map Bytes → List (Bytes × Bytes) → Puts (Map Bytes)
  unfolding put_blob
  put_files acc [] = pure acc
  put_files acc ((path, content) ∷ files) =
      and_then (put_blob content) (λ ref. put_files (insert path ref acc) files)

  unfoldable pub put_session : Product → Puts Bytes
  unfolding put_some
  put_session p =
      if is_blank p.session_ref
      then put_some (some_bytes p.session_transcript)
      else pure p.session_ref

  -- The puts in turn, each with the references so far.
  unfoldable pub with_session : Product → Bytes → Bytes → Map Bytes → Bytes → Puts Refs
  unfolding put_session
  with_session p outputs stdout files transcript = and_then (put_session p) (λ session.
      pure (record {
        outputs = outputs;
        stdout = stdout;
        files = files;
        transcript = transcript;
        session = session;
      }))

  unfoldable pub with_transcript : Product → Bool → Bytes → Bytes → Map Bytes → Puts Refs
  unfolding put_marshalled with_session
  with_transcript p participates outputs stdout files =
      and_then (put_marshalled marshal_transcript (pick participates p.transcript))
        (with_session p outputs stdout files)

  unfoldable pub with_files : Product → Bool → Bytes → Bytes → Puts Refs
  unfolding put_files with_transcript
  with_files p participates outputs stdout =
      and_then (put_files [] p.files) (with_transcript p participates outputs stdout)

  unfoldable pub with_stdout : Product → Bool → Bytes → Puts Refs
  unfolding put_some with_files
  with_stdout p participates outputs =
      and_then (put_some (some_bytes p.stdout)) (with_files p participates outputs)

  unfoldable pub put_artifacts : Product → Bool → Puts Refs
  unfolding put_marshalled with_stdout
  put_artifacts p participates =
      and_then (put_marshalled marshal_object p.outputs) (with_stdout p participates)

  unfoldable pub commit : Product → Bool → Keys → Bool → Bool → Map Bytes → Committed
  unfolding put_artifacts finish is_ok
  commit p participates keys append_fails sync_fails store =
      if is_ok p.outcome
      then finish p participates keys append_fails sync_fails (put_artifacts p participates store)
      else record { store = store; appended = none; result = err refused }
