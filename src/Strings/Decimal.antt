-- ===== src/Strings/Decimal.antt =====
-- Printing a number in decimal and parsing it again, and the bytes of a printed number.
use jian_yu_server_lib.Base.{
  ℕ, zero, suc, ◌+◌, ◌/◌, ◌%◌, ◌^◌, ◌≤◌, ◌<◌, ◌≡◌, ◌≢◌, refl, none, [], ◌∷◌, arith, ltb, leb, ◌==◌,
  false, All, Bool-cases, inl, inr,
}
use jian_yu_server_lib.Base.Int.{pos}
use package.jian_yu_server_lib.Strings.{Str, itoa, digits_onto}
use jian_yu_server_lib.Strings.Parse.{scan_uint, parse_uint, parse_int}

abbrev pub IsDigit : ℕ → Type 0
IsDigit c = (b'0' ≤ c) × (c ≤ b'9')

digits_onto-IsDigit :
    (fuel n : ℕ) (out : Str) → All IsDigit out → All IsDigit (digits_onto fuel n out)
unfolding digits_onto
digits_onto-IsDigit zero n out h = h
digits_onto-IsDigit (suc fuel) n out h = elim (Bool-cases (ltb n 10)) [
  | inl small ↦ rw small ((omega arith, ground arith), h)
  | inr big ↦ rw big (digits_onto-IsDigit fuel (n / 10) _ ((omega arith, omega arith), h))
]

-- A printed number is all digits, and not empty.
pub itoa-IsDigit : (n : ℕ) → All IsDigit (itoa n)
unfolding itoa
itoa-IsDigit n = digits_onto-IsDigit (suc n) n [] tt

digits_onto-ne-nil : (fuel n : ℕ) (out : Str) → out ≢ [] → digits_onto fuel n out ≢ []
unfolding digits_onto
digits_onto-ne-nil zero n out h = h
digits_onto-ne-nil (suc fuel) n out h =
    ground (arith, digits_onto-ne-nil fuel (n / 10) ((b'0' + n % 10) ∷ out))

pub itoa-ne-nil : (n : ℕ) → itoa n ≢ []
unfolding itoa digits_onto
itoa-ne-nil n = ground (arith, digits_onto-ne-nil n (n / 10) ((b'0' + n % 10) ∷ []))

scan-digits_onto :
    (fuel n : ℕ) (out : Str)
    → n < fuel
    → n < 2 ^ 64
    → scan_uint (digits_onto fuel n out) 0 ≡ scan_uint out n
unfolding scan_uint digits_onto
scan-digits_onto zero n out h fits = absurd (omega arith)
scan-digits_onto (suc fuel) n out h fits =
    ground (arith, scan-digits_onto fuel (n / 10) ((b'0' + n % 10) ∷ out))

parse_uint-scan : (s : Str) → s ≢ [] → parse_uint s ≡ scan_uint s 0
unfolding parse_uint
parse_uint-scan [] h = absurd (h refl)
parse_uint-scan (c ∷ s) h = refl

-- Every uint64 is read back from its print, without an error.
pub parse_uint-itoa : (n : ℕ) → n < 2 ^ 64 → parse_uint (itoa n) ≡ record { value = n; err = none }
parse_uint-itoa n fits =
    rw (parse_uint-scan _ (itoa-ne-nil n))
      (unfold itoa scan_uint in scan-digits_onto (suc n) n [] (omega arith) fits)

parse_int_of_digits :
    (s : Str) {n : ℕ}
    → s ≢ []
    → All IsDigit s
    → n < 2 ^ 63
    → parse_uint s ≡ record { value = n; err = none }
    → parse_int s ≡ record { value = pos n; err = none }
unfolding parse_int
parse_int_of_digits [] ne d fits h = absurd (ne refl)
parse_int_of_digits (c ∷ s) {n} ne d fits h =
    let not_minus : (c == b'-') ≡ false = ground arith in
    let not_plus : (c == b'+') ≡ false = ground arith in
    let below : leb (2 ^ 63) n ≡ false = ground arith in rw (not_minus, not_plus, h, below)

-- So is every int64 that is not negative.
pub parse_int-itoa :
    (n : ℕ) → n < 2 ^ 63 → parse_int (itoa n) ≡ record { value = pos n; err = none }
parse_int-itoa n fits =
    parse_int_of_digits (itoa n) (itoa-ne-nil n) (itoa-IsDigit n) fits
      (parse_uint-itoa n (omega arith))
