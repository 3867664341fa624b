-- ===== src/Engine/Fold/CommitExample.antt =====
-- A commit of one text, and its replay (engine/commit.go, engine/fold.go).
use awf.Prelude.{◌≡◌, ◌++◌, refl, sym, ◌∙◌, Bytes, codes, false, [], ◌∷◌, Option, none, some, ok}
use awf.Prelude.Map.{Map, lookup}
use awf.Engine.Commit.{Product, Committed, Keys, commit, committed_result, Refs}
use awf.Engine.Commit.Steps.{Sound, Injective}
use awf.Engine.Commit.Durable.{Covered}
use awf.Engine.Events.{Json, Object, Transcript}
use awf.Engine.Events.Kinds.{kind_of}
use awf.Engine.Fold.{
  fold, fold_events, fold_kind, fold_run_started, is_run_started, is_empty, read_object,
}
use awf.Engine.Fold.Examples.{parsers, started, greeted, begun}
use awf.Engine.Fold.Restores.{WireLaws, get_of, fold-commit}
use awf.Engine.RunState.{RunState, lookup_completed}
use awf.Engine.RunState.Outcomes.{outcome_ok}
use awf.Examples.Journal.{sum256, sum256-laws, hello}
use awf.State.Blobs.{PutFault, no_fault, put, ref_for}

abbrev keep : Object → Option Bytes
keep o = none

abbrev keep_turns : Transcript → Option Bytes
keep_turns t = none

abbrev faultless : Map Bytes → Bytes → PutFault
faultless s c = no_fault

abbrev product : Product
product = record {
  outcome = outcome_ok;
  exit_code = none;
  outputs = none;
  stdout = hello;
  files = [];
  transcript = [];
  session_ref = [];
  session_transcript = [];
  snapshot_ref = [];
  container = [];
}

abbrev no_keys : Keys
no_keys = ok ("", "")

abbrev left : Committed
left = commit sum256 faultless keep keep_turns product false no_keys false false []

abbrev refs : Refs
refs = record {
  outputs = [];
  stdout = ref_for sum256 hello;
  files = [];
  transcript = [];
  session = [];
}

abbrev reader : Json
reader = record parsers { node_completed = λ raw. left.appended }

wire : WireLaws reader keep keep_turns
wire = record { object = λ a c h. absurd (cc h); transcript = λ a c h. absurd (cc h) }

one_text : Injective sum256 (λ c. c ≡ hello)
one_text c c' h k same = h ∙ sym k

none_stored : Sound sum256 (λ c. c ≡ hello) []
unfolding lookup
none_stored h x found = absurd (cc found)

covered :
    Covered sum256 sum256-laws (λ c. c ≡ hello) one_text faultless keep keep_turns product false
covered = record {
  outputs = λ a c h k. absurd (cc h);
  stdout = refl;
  files = tt;
  transcript = λ a c h k. absurd (cc h);
  session = tt;
}

committed : left.result ≡ ok (committed_result product false refs ("", ""))
unfolding commit put lookup
committed = refl

replayed : fold reader (get_of sum256 left.store) (started ∷ []) ≡ ok begun
unfolding fold fold_events fold_kind fold_run_started read_object kind_of is_run_started is_empty
replayed = refl

fold-commit_example :
    (rs' : RunState) × (fold reader (get_of sum256 left.store) (started ∷ ([] ++ greeted ∷ []))
      ≡ ok rs')
    × (lookup_completed rs' (codes "greet") ≡ some (committed_result product false refs ("", "")))
unfolding kind_of
fold-commit_example =
    fold-commit reader sum256 sum256-laws (λ c. c ≡ hello) one_text faultless keep keep_turns wire
      product false no_keys false false [] left (committed_result product false refs ("", ""))
      started greeted [] begun none_stored covered refl committed refl refl replayed
