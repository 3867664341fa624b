-- ===== src/Engine/Condition.antt =====
-- The conditions of control nodes: EvalBoolString (template/eval.go) under the scope of the
-- engine, ictx.scope of a path, which reads the run's state.
use awf.Prelude.{Bytes, Bool, Option, Result, ok, err}
use awf.Engine.RunState.{RunState}
use awf.Engine.Walk.{Fault, template_error}
use awf.Template.Static.{eval_bool_string}
use awf.Template.Substitute.{with_failure}
use awf.Template.Value.{Floats, Value, Scope}

-- What a condition is evaluated with; the scope is a parameter.
pub record Conditions (F : Type 0) : Type 0 where
  pub floats : Floats F
  pub marshal : Value F → Option Bytes
  pub scope : RunState → Bytes → Scope F

unfoldable pub test : {F : Type 0} → Conditions F → RunState → Bytes → Bytes → Result Fault Bool
unfolding with_failure
test c rs at src = elim (eval_bool_string c.floats c.marshal (c.scope rs at) src) [
  | ok b ↦ ok b
  | err f ↦ err (template_error f)
]
