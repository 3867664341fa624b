-- ===== src/Engine/Fold/Prefix.antt =====
-- The replay (engine/fold.go) of a log that is made of two parts.
use awf.Prelude.{
  ◌≡◌, refl, ap, ◌∙◌, Bytes, Bool, true, false, ◌||◌, List, [], ◌∷◌, ◌++◌, Option, ◌>>=◌, >>=-ok,
  Result-cases, inl, inr, Bool-cases,
}
use mathlib.Core.Path.{fun_ext}
use awf.State.Event.{Event}
use awf.Engine.Events.{Json}
use awf.Engine.Events.Kinds.{kind_of}
use awf.Engine.RunState.{RunState, zero_state}
use awf.Engine.Fold.{is_run_started, fold_kind, fold_events, fold}

-- seenRunStarted behind the events.
abbrev pub seen_behind : Bool → List Event → Bool
seen_behind seen [] = seen
seen_behind seen (e ∷ es) = seen_behind (seen || is_run_started (kind_of e.event_type)) es

seen_behind-true : (es : List Event) → seen_behind true es ≡ true
seen_behind-true [] = refl
seen_behind-true (e ∷ es) = seen_behind-true es

module _ (json : Json) (get : Bytes → Option Bytes) where
  pub fold_events-append :
      (rs : RunState) (seen : Bool) (es fs : List Event)
      → fold_events json get rs seen (es ++ fs) ≡ (
          fold_events json get rs seen es >>= λ rs'.
          fold_events json get rs' (seen_behind seen es) fs)
  unfolding fold_events
  fold_events-append rs seen [] fs = refl
  fold_events-append rs seen (e ∷ es) fs =
      elim (Result-cases (fold_kind json get (kind_of e.event_type) rs seen e)) [
        | inl (rs', step) ↦ rw step (fold_events-append rs' _ es fs)
        | inr (x, bad) ↦ rw bad
      ]

  fold_events-one :
      (rs : RunState) (seen : Bool) (e : Event)
      → fold_events json get rs seen (e ∷ []) ≡ fold_kind json get (kind_of e.event_type) rs seen e
  unfolding fold_events
  fold_events-one rs seen e = >>=-ok (fold_kind json get (kind_of e.event_type) rs seen e)

  fold_events-append_one :
      (rs : RunState) (seen : Bool) (es : List Event) (e : Event)
      → fold_events json get rs seen (es ++ e ∷ []) ≡ (
          fold_events json get rs seen es >>= λ rs'.
          fold_kind json get (kind_of e.event_type) rs' (seen_behind seen es) e)
  fold_events-append_one rs seen es e =
      fold_events-append rs seen es (e ∷ [])
      ∙ ap (λ k. fold_events json get rs seen es >>= k)
          (fun_ext λ rs'. fold_events-one rs' (seen_behind seen es) e)

  seen_behind-first :
      (d : Event) (es : List Event)
      → is_run_started (kind_of d.event_type) ≡ true
      → seen_behind false (d ∷ es) ≡ true
  seen_behind-first d es first = rw first (seen_behind-true es)

  -- Replaying a log with one more event is replaying the log and then that event.
  pub fold-append_one :
      (d e : Event) (es : List Event)
      → fold json get (d ∷ (es ++ e ∷ []))
        ≡ (fold json get (d ∷ es) >>= λ rs. fold_kind json get (kind_of e.event_type) rs true e)
  unfolding fold
  fold-append_one d e es = elim (Bool-cases (is_run_started (kind_of d.event_type))) [
    | inr other ↦ rw other
    | inl first ↦
        let seen = seen_behind-first d es first in
        let step = rw seen at (fold_events-append_one zero_state false (d ∷ es) e) in rw first step
  ]
