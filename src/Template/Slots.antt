-- ===== src/Template/Slots.antt =====
-- The scanner of host strings (template/slots.go). `rest` is src[i:], `pos` is i, and `prev` is
-- src[i-1], or 0 at the start of src.
pub mod Chunks
pub mod Split
use awf.Prelude.{
  ℕ, zero, suc, ◌+◌, ◌-◌, Bytes, Bool, true, false, ◌&&◌, List, [], ◌∷◌, ◌++◌, Option, none, some,
  length, ◌==◌, if◌then◌else◌, Result, ok, err, ◌>>=◌,
}
use awf.Template.Syntax.{SyntaxError, syntax_error, out_of_fuel}

pub record Slot : Type 0 where
  pub start : ℕ
  pub end : ℕ
  pub inner : Bytes

-- strings.Index for two equal bytes: what is in front of the first such pair, and behind it.
unfoldable pub cut : ℕ → Bytes → Option (Bytes × Bytes)
cut b [] = none
cut b (c ∷ []) = none
cut b (c ∷ d ∷ cs) =
    let later : Option (Bytes × Bytes) = elim (cut b (d ∷ cs)) [
      | none ↦ none
      | some (before, behind) ↦ some (c ∷ before, behind)
    ] in
    if c == b && d == b then some ([], cs) else later

-- strings.Contains for such a pair.
unfoldable pub has_pair : ℕ → Bytes → Bool
unfolding cut
has_pair b text = elim (cut b text) [ none ↦ false | some cut_up ↦ true ]

-- src[start-1], where `before` is src[i:start].
unfoldable pub byte_before : ℕ → Bytes → ℕ
byte_before prev [] = prev
byte_before prev (c ∷ cs) = byte_before c cs

-- The slots and the offsets of the escapes.
abbrev pub Scanned : Type 0
Scanned = Result SyntaxError (List Slot × List ℕ)

abbrev pub add_escape : ℕ → Scanned → Scanned
add_escape e later = later >>= λ (slots, escapes). ok (slots, e ∷ escapes)

abbrev pub add_slot : Slot → Scanned → Scanned
add_slot s later = later >>= λ (slots, escapes). ok (s ∷ slots, escapes)

-- Each round takes two bytes at least, and fuel counts the bytes.
unfoldable pub scan_loop : ℕ → ℕ → ℕ → Bytes → Scanned
unfolding cut has_pair byte_before
scan_loop zero prev pos rest = err out_of_fuel
scan_loop (suc fuel) prev pos rest = elim (cut b'{' rest) [
  | none ↦ ok ([], [])
  | some (before, after) ↦
      let start = pos + length before in
      let escaped = add_escape (start - 1) (scan_loop fuel b'{' (start + 2) after) in
      let opened : Scanned = elim (cut b'}' after) [
        | none ↦ err (syntax_error start)
        | some (inner, behind) ↦
            let end = start + 2 + length inner + 2 in
            let slot : Slot = record { start = start; end = end; inner = inner } in
            let more = add_slot slot (scan_loop fuel b'}' end behind) in
            if has_pair b'{' inner then err (syntax_error start) else more
      ] in
      if byte_before prev before == b'\\' then escaped else opened
]

unfoldable pub scan : Bytes → Scanned
unfolding scan_loop
scan src = scan_loop (suc (length src)) 0 0 src

-- Slots
unfoldable pub slots_of : Bytes → Result SyntaxError (List Slot)
unfolding scan
slots_of src = scan src >>= λ (slots, escapes). ok slots
