-- ===== src/Template/Substitute.antt =====
-- Rendering of host strings (template/eval.go, Substitute; template/value.go).
mod Writes
pub mod Rendered
use awf.Prelude.{
  ℕ, ◌+◌, ◌-◌, Bytes, Bool, true, false, ◌&&◌, List, [], ◌∷◌, ◌++◌, Option, none, some, length,
  take, drop, ltb, leb, ◌==◌, if◌then◌else◌, Result, ok, err, ◌>>=◌,
}
use awf.Template.Eval.{resolve_ref_value, render_scalar}
use awf.Template.Parser.{parse_ref}
use awf.Template.Slots.{Slot, scan, slots_of}
use awf.Template.Syntax.{Segment, SyntaxError, syntax_error, panicked, out_of_fuel}
use awf.Template.Value.{
  Floats, Value, null_value, bool_value, string_value, float_value, int_value, int64_value,
  number_value, list_value, map_value, opaque_value, Values, no_values, value_cons, Entries,
  no_entries, entry_cons, invalid_scalar, syntax_code, ref_unresolved, Failure, eval_error,
  syntax_failure, other_failure, slice_panic, Scope,
}

-- host[from:to]
unfoldable pub slice : Bytes → ℕ → ℕ → Result Failure Bytes
slice host from to =
    if leb from to && leb to (length host)
    then ok (take (to - from) (drop from host))
    else err slice_panic

-- writeUpTo: what it writes, and the escapes that are left. The cursor is then at `end`.
unfoldable pub write_up_to : Bytes → ℕ → ℕ → List ℕ → Result Failure (Bytes × List ℕ)
unfolding slice
write_up_to host cursor end [] = slice host cursor end >>= λ text. ok (text, [])
write_up_to host cursor end (e ∷ escapes) =
    let past = slice host cursor e >>= λ text.
    write_up_to host (e + 3) end escapes >>= λ (more, left).
    ok (text ++ b'{' ∷ b'{' ∷ more, left) in
    let here = slice host cursor end >>= λ text. ok (text, e ∷ escapes) in
    if ltb e end then past else here

-- The errors of one slot, at its offset in the host.
unfoldable pub ref_failure : ℕ → SyntaxError → Failure
ref_failure start (syntax_error pos) = eval_error syntax_code (some (start + 2 + pos))
ref_failure start panicked = syntax_failure panicked
ref_failure start out_of_fuel = syntax_failure out_of_fuel

unfoldable pub slot_failure : ℕ → Failure → Failure
slot_failure start (eval_error code offset) = eval_error code (some start)
slot_failure start slice_panic = slice_panic
slot_failure start _ = eval_error ref_unresolved (some start)

unfoldable pub scan_failure : SyntaxError → Failure
scan_failure (syntax_error pos) = eval_error syntax_code (some pos)
scan_failure e = syntax_failure e

unfoldable pub with_failure {ℓ} :
    {E : Type 0} {A : Type ℓ} → (E → Failure) → Result E A → Result Failure A
with_failure f (ok a) = ok a
with_failure f (err e) = err (f e)

abbrev pub is_nil {ℓ} : {A : Type ℓ} → List A → Bool
is_nil [] = true
is_nil (a ∷ rest) = false

-- slots[0], where it is the only slot and covers the text.
abbrev pub whole_slot : Bytes → List Slot → Option Slot
whole_slot s (slot ∷ []) = if slot.start == 0 && slot.end == length s then some slot else none
whole_slot s _ = none

module _ {F : Type 0} (fl : Floats F) (marshal : Value F → Option Bytes) (scope : Scope F) where
  -- The typed value of a slot.
  unfoldable pub slot_value : ℕ → Bytes → Result Failure (Value F)
  unfolding with_failure ref_failure slot_failure
  slot_value start inner = with_failure (ref_failure start) (parse_ref inner) >>= λ ref.
      with_failure (slot_failure start) (resolve_ref_value fl marshal scope ref)

  -- The text of a slot.
  unfoldable pub render_slot : ℕ → Bytes → Result Failure Bytes
  unfolding slot_value with_failure
  render_slot start inner = slot_value start inner >>= λ v.
      with_failure (λ e. eval_error invalid_scalar (some start)) (render_scalar fl v)

  unfoldable pub substitute_loop : Bytes → ℕ → List Slot → List ℕ → Result Failure Bytes
  unfolding write_up_to render_slot
  substitute_loop host cursor [] escapes =
      write_up_to host cursor (length host) escapes >>= λ (text, left). ok text
  substitute_loop host cursor (s ∷ slots) escapes =
      write_up_to host cursor s.start escapes >>= λ (text, left).
      render_slot s.start s.inner >>= λ rendered.
      substitute_loop host s.end slots left >>= λ more. ok (text ++ (rendered ++ more))

  unfoldable pub substitute : Bytes → Result Failure Bytes
  unfolding substitute_loop with_failure scan_failure
  substitute host = with_failure scan_failure (scan host) >>= λ (slots, escapes).
      if is_nil slots && is_nil escapes then ok host else substitute_loop host 0 slots escapes

  -- evalTemplateStringValue
  unfoldable pub eval_string_value : Bytes → Result Failure (Value F)
  unfolding substitute slots_of
  eval_string_value s = with_failure scan_failure (slots_of s) >>= λ slots.
      elim (whole_slot s slots) [
        | some slot ↦ with_failure (ref_failure slot.start) (parse_ref slot.inner) >>= λ ref.
            resolve_ref_value fl marshal scope ref
        | none ↦ substitute s >>= λ text. ok (string_value text)
      ]

  -- evalTemplateDecodedValue. The entries of a map are taken in the list's order.
  unfoldable mutual
    unfolding eval_string_value

    pub eval_value : Value F → Result Failure (Value F)
    eval_value (string_value s) = eval_string_value s
    eval_value (list_value vs) = eval_values vs >>= λ out. ok (list_value out)
    eval_value (map_value es) = eval_entries es >>= λ out. ok (map_value out)
    eval_value v = ok v

    pub eval_values : Values F → Result Failure (Values F)
    eval_values no_values = ok no_values
    eval_values (value_cons v vs) =
        eval_value v >>= λ v'. eval_values vs >>= λ out. ok (value_cons v' out)

    pub eval_entries : Entries F → Result Failure (Entries F)
    eval_entries no_entries = ok no_entries
    eval_entries (entry_cons k v es) =
        eval_value v >>= λ v'. eval_entries es >>= λ out. ok (entry_cons k v' out)
