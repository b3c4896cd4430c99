-- ===== src/Decimal.antt =====
-- Decimal texts of natural numbers: what Go's `fmt.Sprintf("%d")`, `strconv.FormatUint` and
-- `big.Int.String` write, and what `big.Int.SetString(s, 10)` and `strconv.ParseUint` read of
-- digits. Used for the keys and the values that datastore/redis.go keeps in Redis.
use mev_boost_relay.Prelude.{
  ℕ, zero, suc, ◌+◌, ◌-◌, ◌*◌, ◌/◌, ◌%◌, ◌^◌, ◌≤◌, ◌<◌, ◌≡◌, refl, ap, ◌∙◌, Bool, ◌&&◌, Option,
  none, some, [], ◌∷◌, inl, inr, arith, Bytes, codes, ltb, leb, All, if◌then◌else◌, Bool-cases,
}

abbrev pub is_digit : ℕ → Bool
is_digit c = leb b'0' c && leb c b'9'

-- One digit for each round, the last one first.
digits : ℕ → ℕ → Bytes → Bytes
digits zero n out = out
digits (suc fuel) n out =
    let rest = digits fuel (n / 10) ((b'0' + n % 10) ∷ out) in
    if ltb n 10 then (b'0' + n) ∷ out else rest

-- `n` rounds and one more are enough: each of them divides by ten.
unfoldable pub format : ℕ → Bytes
unfolding digits
format n = digits (suc n) n []

scan : Bytes → ℕ → Option ℕ
scan [] n = some n
scan (c ∷ s) n = if is_digit c then scan s (n * 10 + (c - b'0')) else none

-- The number that a text of digits stands for.
unfoldable pub parse : Bytes → Option ℕ
unfolding scan
parse [] = none
parse (c ∷ s) = scan (c ∷ s) 0

-- `strconv.ParseUint(s, 10, 64)`: out of range is an error.
unfoldable pub parse_uint64 : Bytes → Option ℕ
parse_uint64 s = elim (parse s) [ none ↦ none | some n ↦ if ltb n (2 ^ 64) then some n else none ]

scan-digits : (fuel n : ℕ) (out : Bytes) → n < fuel → scan (digits fuel n out) 0 ≡ scan out n
unfolding digits scan
scan-digits zero n out h = absurd (omega arith)
scan-digits (suc fuel) n out h = elim (Bool-cases (ltb n 10)) [
  | inl small ↦ rw small (ground arith)
  | inr large ↦
      rw large (scan-digits fuel (n / 10) ((b'0' + n % 10) ∷ out) (ground arith) ∙ scan-step n out)
]
  where
    scan-step : (n : ℕ) (out : Bytes) → scan ((b'0' + n % 10) ∷ out) (n / 10) ≡ scan out n
    scan-step n out =
        let e : n / 10 * 10 + (b'0' + n % 10 - b'0') ≡ n = omega arith in
        ground (arith, ap (scan out) e)

digits-ne-nil :
    (fuel n : ℕ) (out : Bytes) → n < fuel → parse (digits fuel n out) ≡ scan (digits fuel n out) 0
unfolding digits parse
digits-ne-nil zero n out h = absurd (omega arith)
digits-ne-nil (suc fuel) n out h = elim (Bool-cases (ltb n 10)) [
  | inl small ↦ rw small refl
  | inr large ↦ rw large (digits-ne-nil fuel (n / 10) ((b'0' + n % 10) ∷ out) (ground arith))
]

-- What is printed is read back.
pub parse-format : (n : ℕ) → parse (format n) ≡ some n
unfolding format scan
parse-format n = digits-ne-nil (suc n) n [] (omega arith) ∙ scan-digits (suc n) n [] (omega arith)

abbrev pub IsDigit : ℕ → Type 0
IsDigit c = (b'0' ≤ c) × (c ≤ b'9')

digits-All : (fuel n : ℕ) (out : Bytes) → All IsDigit out → All IsDigit (digits fuel n out)
unfolding digits
digits-All zero n out h = h
digits-All (suc fuel) n out h = elim (Bool-cases (ltb n 10)) [
  | inl small ↦ rw small ((ground arith, ground arith), h)
  | inr large ↦
      rw large (digits-All fuel (n / 10) ((b'0' + n % 10) ∷ out) ((omega arith, omega arith), h))
]

pub format-All : (n : ℕ) → All IsDigit (format n)
unfolding format
format-All n = digits-All (suc n) n [] tt

format_max : format (2 ^ 64 - 1) ≡ codes "18446744073709551615"
unfolding format
format_max = refl

parse_max : parse_uint64 (codes "18446744073709551616") ≡ none
unfolding parse_uint64 parse
parse_max = refl
