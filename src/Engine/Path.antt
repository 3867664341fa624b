-- ===== src/Engine/Path.antt =====
-- engine/path.go: the runtime addresses of nodes, which are the keys of the journal.
-- Indices are not negative.
pub mod Parent
pub mod Unique
use awf.Prelude.{
  ℕ, zero, suc, Bytes, codes, [], ◌∷◌, ◌++◌, Bool, true, false, Option, none, some, length, take,
  ◌==◌, if◌then◌else◌, bytes_eq,
}
use awf.Prelude.Decimal.{itoa}

abbrev pub iter_sep : Bytes
iter_sep = codes ".iter-"

abbrev pub attempt_sep : Bytes
attempt_sep = codes ".attempt-"

abbrev pub item_sep : Bytes
item_sep = codes ".item-"

abbrev pub round_sep : Bytes
round_sep = codes ".round-"

abbrev pub call_workflow_segment : Bytes
call_workflow_segment = codes "workflow"

unfoldable pub iter_path : Bytes → ℕ → Bytes
iter_path body_path iter = body_path ++ (iter_sep ++ itoa iter)

unfoldable pub attempt_path : Bytes → ℕ → Bytes
attempt_path gate_path attempt = gate_path ++ (attempt_sep ++ itoa attempt)

unfoldable pub item_path : Bytes → ℕ → Bytes
item_path map_path item = map_path ++ (item_sep ++ itoa item)

unfoldable pub item_step_path : Bytes → ℕ → Bytes → Bytes
item_step_path map_path item suffix =
    let p = item_path map_path item in if bytes_eq suffix [] then p else p ++ (codes "." ++ suffix)

unfoldable pub round_path : Bytes → ℕ → Bytes
round_path react_path round = react_path ++ (round_sep ++ itoa round)

unfoldable pub model_path : Bytes → Bytes
model_path round = round ++ codes ".model"

unfoldable pub tool_path : Bytes → ℕ → Bytes
tool_path round j = round ++ (codes ".tool-" ++ itoa j)

unfoldable pub call_workflow_runtime_path : Bytes → Bytes
call_workflow_runtime_path call_path =
    if bytes_eq call_path []
    then call_workflow_segment
    else call_path ++ (codes "." ++ call_workflow_segment)

unfoldable pub qualified_container_key : Bytes → Bytes → Bytes
qualified_container_key runtime_parent container =
    if bytes_eq runtime_parent [] then container else runtime_parent ++ (codes "::" ++ container)

unfoldable pub bare_run_handle_key : Bytes → Bytes
bare_run_handle_key node_path = codes "_run:" ++ node_path

-- path[i] == '.'
is_dot_at : ℕ → Bytes → Bool
is_dot_at i [] = false
is_dot_at zero (c ∷ cs) = c == b'.'
is_dot_at (suc i) (c ∷ cs) = is_dot_at i cs

-- The loop from `i = len(path) - 1` down to 0: the argument is i + 1.
parent_loop : ℕ → Bytes → Option Bytes
parent_loop zero path = none
parent_loop (suc i) path =
    let rest = parent_loop i path in if is_dot_at i path then some (take i path) else rest

-- `none` is the source's ("", false).
unfoldable pub parent_path : Bytes → Option Bytes
unfolding parent_loop is_dot_at
parent_path path = parent_loop (length path) path
