-- ===== src/Signal/Paths/RoundTrip.antt =====
-- The file of a signal names the signal (signal/paths.go).
use awf.Prelude.{
  ℕ, ◌^◌, ◌≡◌, ◌≢◌, ◌≤◌, ◌<◌, refl, sym, ap, ◌∙◌, inl, inr, Bytes, true, false, [], ◌∷◌, ◌++◌,
  append_assoc, none, some, ltb, ◌==◌, ==_refl, if◌then◌else◌, bytes_eq, bytes_eq_iff,
  bytes_eq_refl, length, length-append, All, Bool-cases, arith,
}
use awf.Prelude.Int.{pos}
use awf.Prelude.Decimal.{itoa, is_digit, value, value-itoa, itoa-is_digit}
use awf.Signal.Paths.{
  signal_prefix, signal_suffix, signal_file_name, cut_prefix, cut_suffix, cut_last, all_digits,
  digits_value, atoi, is_decodable, parse_seq, parse_signal_file_name,
}

cut_prefix-append : (p s : Bytes) → cut_prefix p (p ++ s) ≡ some s
unfolding cut_prefix
cut_prefix-append [] s = refl
cut_prefix-append (c ∷ p) s = rw (==_refl c) (cut_prefix-append p s)

longer : (c : ℕ) (s suffix : Bytes) → bytes_eq (c ∷ (s ++ suffix)) suffix ≡ false
longer c s suffix = elim (Bool-cases (bytes_eq (c ∷ (s ++ suffix)) suffix)) [
  | inr no_match ↦ no_match
  | inl same ↦
      let lengths = ap length ((bytes_eq_iff (c ∷ (s ++ suffix)) suffix).0 same) in
      absurd (omega (arith, lengths, length-append s suffix))
]

cut_suffix_self : (suffix : Bytes) → cut_suffix suffix suffix ≡ some []
unfolding cut_suffix bytes_eq
cut_suffix_self [] = refl
cut_suffix_self (c ∷ cs) = rw (bytes_eq_refl (c ∷ cs))

cut_suffix-append : (suffix s : Bytes) → cut_suffix suffix (s ++ suffix) ≡ some s
unfolding cut_suffix
cut_suffix-append suffix [] = cut_suffix_self suffix
cut_suffix-append suffix (c ∷ s) = rw (longer c s suffix, cut_suffix-append suffix s)

cut_last-digits : (ds : Bytes) → All (λ c. is_digit c ≡ true) ds → cut_last ds ≡ none
unfolding cut_last
cut_last-digits [] h = refl
cut_last-digits (c ∷ cs) h =
    let dash : (c == b'-') ≡ false = ground (arith, h.0) in rw (cut_last-digits cs h.1, dash)

cut_last-append :
    (name ds : Bytes)
    → All (λ c. is_digit c ≡ true) ds
    → cut_last (name ++ (b'-' ∷ ds)) ≡ some (name, ds)
unfolding cut_last
cut_last-append [] ds h = rw (cut_last-digits ds h)
cut_last-append (c ∷ name) ds h = rw (cut_last-append name ds h)

all_digits_of : (ds : Bytes) → All (λ c. is_digit c ≡ true) ds → all_digits ds ≡ true
unfolding all_digits
all_digits_of [] h = refl
all_digits_of (c ∷ cs) h = rw (h.0, all_digits_of cs h.1)

atoi-digits :
    (ds : Bytes) (n : ℕ)
    → All (λ c. is_digit c ≡ true) ds
    → ds ≢ []
    → value 0 ds ≡ n
    → n < 2 ^ 63
    → atoi ds ≡ some (pos n)
unfolding atoi digits_value bytes_eq
atoi-digits [] n h some_digit e small = absurd (some_digit refl)
atoi-digits (c ∷ cs) n h some_digit e small =
    let minus : (c == b'-') ≡ false = ground (arith, h.0) in
    let plus : (c == b'+') ≡ false = ground (arith, h.0) in
    let fits : ltb n (2 ^ 63) ≡ true = ground (arith, small) in
    rw (minus, plus, all_digits_of (c ∷ cs) h, e, fits)

itoa-ne-nil : (n : ℕ) → 1 ≤ n → itoa n ≢ []
unfolding value
itoa-ne-nil n positive e =
    let zero_value : value 0 (itoa n) ≡ 0 = rw e in absurd (omega (arith, value-itoa n, zero_value))

atoi-itoa : (n : ℕ) → 1 ≤ n → n < 2 ^ 63 → atoi (itoa n) ≡ some (pos n)
atoi-itoa n positive small =
    atoi-digits (itoa n) n (itoa-is_digit n) (itoa-ne-nil n positive) (value-itoa n) small

parse_seq-itoa :
    (name : Bytes) (n : ℕ) → 1 ≤ n → n < 2 ^ 63 → parse_seq name (itoa n) ≡ some (name, n)
unfolding parse_seq
parse_seq-itoa name n positive small =
    let at_least : ltb n 1 ≡ false = ground (arith, positive) in
    rw (atoi-itoa n positive small, parse_seq) (rw at_least)

mid_name :
    (name ds : Bytes)
    → name ++ (b'-' ∷ (ds ++ signal_suffix)) ≡ (name ++ (b'-' ∷ ds)) ++ signal_suffix
mid_name name ds = sym (append_assoc name (b'-' ∷ ds) signal_suffix)

cut_prefix-signal_file_name :
    (name : Bytes) (seq : ℕ)
    → cut_prefix signal_prefix (signal_file_name name seq)
      ≡ some ((name ++ (b'-' ∷ itoa seq)) ++ signal_suffix)
unfolding signal_file_name
cut_prefix-signal_file_name name seq =
    cut_prefix-append signal_prefix (name ++ (b'-' ∷ (itoa seq ++ signal_suffix)))
    ∙ ap some (mid_name name (itoa seq))

-- The file name of a signal reads back as its name and number, but for a name that is empty or
-- ends in a hyphen: such a file is no signal at all to its reader.
pub parse_signal_file_name-signal_file_name :
    (name : Bytes) (seq : ℕ)
    → 1 ≤ seq
    → seq < 2 ^ 63
    → parse_signal_file_name (signal_file_name name seq)
      ≡ (if is_decodable name then some (name, seq) else none)
unfolding parse_signal_file_name
parse_signal_file_name-signal_file_name name seq positive small =
    let body = name ++ (b'-' ∷ itoa seq) in
    rw (cut_prefix-signal_file_name name seq, parse_signal_file_name)
      (rw (cut_suffix-append signal_suffix body, parse_signal_file_name)
        (rw (cut_last-append name (itoa seq) (itoa-is_digit seq), parse_signal_file_name)
          (rw (parse_seq-itoa name seq positive small))))
