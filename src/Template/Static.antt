-- ===== src/Template/Static.antt =====
-- Envelopes and static references (template/envelope.go, template/artifact_ref.go), and conditions
-- from their source (template/eval.go, EvalBoolString).
use awf.Prelude.{
  String, ℕ, Bytes, codes, bytes_eq, Bool, false, ◌&&◌, ◌||◌, List, [], ◌∷◌, Option, none, some,
  leb, ◌==◌, if◌then◌else◌, Result, ok, err, ◌>>=◌, length, take, ◌-◌,
}
use mathlib.Core.List.{reverse}
use awf.Template.Eval.{eval_bool}
use awf.Template.Parser.{parse_expr, parse_ref}
use awf.Template.Substitute.{with_failure}
use awf.Template.Syntax.{Segment, name, index}
use awf.Template.Value.{Floats, Value, Failure, syntax_failure, Scope}

-- unicode.IsSpace on one byte below 0x80, and on the bytes of a longer rune in UTF-8.
abbrev space1 : ℕ → Bool
space1 a = (leb 9 a && leb a 13) || a == 32

-- U+0085 and U+00A0
abbrev space2 : ℕ → ℕ → Bool
space2 a b = a == 194 && (b == 133 || b == 160)

-- U+1680; U+2000 to U+200A, U+2028, U+2029 and U+202F; U+205F; U+3000
abbrev space3 : ℕ → ℕ → ℕ → Bool
space3 a b c =
    (a == 225 && b == 154 && c == 128)
    || (a == 226 && b == 128 && ((leb 128 c && leb c 138) || c == 168 || c == 169 || c == 175))
    || (a == 226 && b == 129 && c == 159)
    || (a == 227 && b == 128 && c == 128)

-- A text without its leading spaces; `two` and `three` say which bytes make up a longer space.
unfoldable pub trim_front : (ℕ → ℕ → Bool) → (ℕ → ℕ → ℕ → Bool) → Bytes → Bytes
trim_front two three [] = []
trim_front two three (a ∷ []) = if space1 a then [] else a ∷ []
trim_front two three (a ∷ b ∷ []) =
    let behind = trim_front two three (b ∷ []) in
    if space1 a then behind else if two a b then [] else a ∷ b ∷ []
trim_front two three (a ∷ b ∷ c ∷ rest) =
    let one = trim_front two three (b ∷ c ∷ rest) in
    let pair = trim_front two three (c ∷ rest) in
    let triple = trim_front two three rest in
    if space1 a
    then one
    else if two a b
    then pair
    else if three a b c
    then triple
    else a ∷ b ∷ c ∷ rest

-- strings.TrimSpace
unfoldable pub trim_space : Bytes → Bytes
unfolding trim_front
trim_space s =
    reverse (
      trim_front (λ b a. space2 a b) (λ c b a. space3 a b c) (reverse (trim_front space2 space3 s)))

-- strings.HasPrefix with `{{`, and what is behind.
abbrev pub after_opener : Bytes → Option Bytes
after_opener (a ∷ b ∷ rest) = if a == b'{' && b == b'{' then some rest else none
after_opener _ = none

-- strings.HasSuffix with `}}`
abbrev pub ends_closed : Bytes → Bool
ends_closed s = elim (reverse s) [
  | [] ↦ false
  | a ∷ rest ↦ elim rest [ [] ↦ false | b ∷ more ↦ a == b'}' && b == b'}' ]
]

-- UnwrapEnvelope
unfoldable pub unwrap_envelope : Bytes → Bytes
unfolding trim_space
unwrap_envelope src =
    let s = trim_space src in
    elim (after_opener s) [
      | none ↦ src
      | some rest ↦ if ends_closed s then trim_space (take (length rest - 2) rest) else src
    ]

abbrev pub segment_is : String → Segment → Bool
segment_is text (name s p) = bytes_eq s (codes text)
segment_is text (index n p) = false

abbrev pub segment_name : Segment → Option Bytes
segment_name (name s p) = some s
segment_name (index n p) = none

abbrev artifact_parts : List Segment → Option (Bytes × Bytes)
artifact_parts (root ∷ id ∷ files ∷ file ∷ []) =
    if segment_is "step" root && segment_is "files" files
    then elim (segment_name id) [
      | none ↦ none
      | some i ↦ elim (segment_name file) [ none ↦ none | some f ↦ some (i, f) ]
    ]
    else none
artifact_parts _ = none

abbrev asset_part : List Segment → Option Bytes
asset_part (root ∷ id ∷ []) = if segment_is "asset" root then segment_name id else none
asset_part _ = none

abbrev input_file_part : List Segment → Option Bytes
input_file_part (root ∷ files ∷ file ∷ []) =
    if segment_is "input" root && segment_is "files" files then segment_name file else none
input_file_part _ = none

-- `r, err := ParseRef(strings.TrimSpace(raw))`, with `ok` false on an error.
unfoldable pub static_ref : Bytes → Option (List Segment)
unfolding trim_space parse_ref
static_ref raw = elim (parse_ref (trim_space raw)) [ ok segs ↦ some segs | err e ↦ none ]

-- ParseArtifactRef
unfoldable pub parse_artifact_ref : Bytes → Option (Bytes × Bytes)
unfolding static_ref
parse_artifact_ref raw = elim (static_ref raw) [ none ↦ none | some segs ↦ artifact_parts segs ]

-- ParseAssetRef
unfoldable pub parse_asset_ref : Bytes → Option Bytes
unfolding static_ref
parse_asset_ref raw = elim (static_ref raw) [ none ↦ none | some segs ↦ asset_part segs ]

-- ParseWorkflowInputFileRef
unfoldable pub parse_workflow_input_file_ref : Bytes → Option Bytes
unfolding static_ref
parse_workflow_input_file_ref raw = elim (static_ref raw) [
  | none ↦ none
  | some segs ↦ input_file_part segs
]

module _ {F : Type 0} (fl : Floats F) (marshal : Value F → Option Bytes) (scope : Scope F) where
  -- EvalBoolString
  unfoldable pub eval_bool_string : Bytes → Result Failure Bool
  unfolding unwrap_envelope with_failure
  eval_bool_string src =
      with_failure syntax_failure (parse_expr (unwrap_envelope src)) >>= eval_bool fl marshal scope
