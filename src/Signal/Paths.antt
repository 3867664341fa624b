-- ===== src/Signal/Paths.antt =====
-- signal/paths.go: the names of signals and of their files.
pub mod RoundTrip
use awf.Prelude.{
  ℕ, zero, suc, ◌-◌, ◌^◌, Bytes, codes, Bool, true, false, not, ◌&&◌, ◌||◌, List, [], ◌∷◌, ◌++◌,
  Option, none, some, ltb, leb, ◌==◌, if◌then◌else◌, bytes_eq, last?,
}
use awf.Prelude.Int.{ℤ, pos, negsuc}
use awf.Prelude.Decimal.{itoa, is_digit, value}

abbrev pub signal_prefix : Bytes
signal_prefix = codes "signal-"

abbrev pub signal_suffix : Bytes
signal_suffix = codes ".json"

unfoldable pub signal_file_name : Bytes → ℕ → Bytes
signal_file_name name seq = signal_prefix ++ (name ++ (codes "-" ++ (itoa seq ++ signal_suffix)))

-- strings.HasPrefix and strings.TrimPrefix
unfoldable pub cut_prefix : Bytes → Bytes → Option Bytes
cut_prefix [] s = some s
cut_prefix (p ∷ ps) [] = none
cut_prefix (p ∷ ps) (c ∷ cs) = if p == c then cut_prefix ps cs else none

-- strings.HasSuffix and strings.TrimSuffix
unfoldable pub cut_suffix : Bytes → Bytes → Option Bytes
cut_suffix suffix [] = if bytes_eq [] suffix then some [] else none
cut_suffix suffix (c ∷ cs) =
    let rest : Option Bytes = (elim (cut_suffix suffix cs) [
      | none ↦ none
      | some s ↦ some (c ∷ s)
    ]) in
    if bytes_eq (c ∷ cs) suffix then some [] else rest

-- strings.LastIndex of a '-', and the two parts that it divides.
unfoldable pub cut_last : Bytes → Option (Bytes × Bytes)
cut_last [] = none
cut_last (c ∷ cs) = elim (cut_last cs) [
  | some (before, after) ↦ some (c ∷ before, after)
  | none ↦ if c == b'-' then some ([], cs) else none
]

unfoldable pub all_digits : Bytes → Bool
all_digits [] = true
all_digits (c ∷ cs) = is_digit c && all_digits cs

-- strconv.Atoi behind its sign: the number of some digits, up to a bound.
unfoldable pub digits_value : ℕ → Bytes → Option ℕ
unfolding all_digits value
digits_value bound s =
    if not (bytes_eq s []) && all_digits s && ltb (value 0 s) bound then some (value 0 s) else none

unfoldable pub negate : ℕ → ℤ
negate zero = pos 0
negate (suc n) = negsuc n

-- strconv.Atoi
unfoldable pub atoi : Bytes → Option ℤ
unfolding digits_value negate
atoi [] = none
atoi (c ∷ cs) =
    if c == b'-'
    then elim (digits_value (suc (2 ^ 63)) cs) [ none ↦ none | some n ↦ some (negate n) ]
    else elim (digits_value (2 ^ 63) (if c == b'+' then cs else c ∷ cs)) [
      | none ↦ none
      | some n ↦ some (pos n)
    ]

-- len(name) > 0, and no '-' at its end
unfoldable pub is_decodable : Bytes → Bool
is_decodable name = elim (last? name) [ none ↦ false | some c ↦ not (c == b'-') ]

unfoldable pub parse_seq : Bytes → Bytes → Option (Bytes × ℕ)
parse_seq name seq_str = elim (atoi seq_str) [
  | none ↦ none
  | some n ↦ elim n [ negsuc _ ↦ none | pos k ↦ if ltb k 1 then none else some (name, k) ]
]

unfoldable pub parse_signal_file_name : Bytes → Option (Bytes × ℕ)
parse_signal_file_name file_name = elim (cut_prefix signal_prefix file_name) [
  | none ↦ none
  | some rest ↦ elim (cut_suffix signal_suffix rest) [
    | none ↦ none
    | some mid ↦ elim (cut_last mid) [
      | none ↦ none
      | some (name, seq_str) ↦ if is_decodable name then parse_seq name seq_str else none
    ]
  ]
]

abbrev is_letter : ℕ → Bool
is_letter c = leb b'A' c && leb c b'Z' || leb b'a' c && leb c b'z' || c == b'_'

all_name : Bytes → Bool
all_name [] = true
all_name (c ∷ cs) = (is_letter c || is_digit c || c == b'-') && all_name cs

-- ^[A-Za-z_][A-Za-z0-9_-]*$
unfoldable pub validate_signal_name : Bytes → Bool
unfolding all_name
validate_signal_name [] = false
validate_signal_name (c ∷ cs) = is_letter c && all_name cs
