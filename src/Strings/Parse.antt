-- ===== src/Strings/Parse.antt =====
-- strconv.ParseUint and strconv.ParseInt for base 10 and 64 bits: the value and the error.
use jian_yu_server_lib.Base.{
  ℕ, ◌+◌, ◌-◌, ◌*◌, ◌^◌, ◌<◌, ◌≡◌, refl, Bool, true, false, ◌||◌, Option, none, some, [], ◌∷◌,
  arith, ltb, leb, Bool-cases, inl, inr, ◌==◌, if◌then◌else◌,
}
use jian_yu_server_lib.Base.Int.{ℤ, pos, negsuc}
use package.jian_yu_server_lib.Strings.{Str, str}

pub data NumError : Type 0 where
  err_syntax err_range : NumError

pub record Parsed {ℓ} (A : Type ℓ) : Type ℓ where
  pub value : A
  pub err : Option NumError

-- The digits from the left; an overflow ends the scan before the bytes behind it are looked at.
unfoldable pub scan_uint : Str → ℕ → Parsed ℕ
scan_uint [] n = record { value = n; err = none }
scan_uint (c ∷ s) n =
    let d = c - b'0' in
    if ltb c b'0' || ltb b'9' c
    then record { value = 0; err = some err_syntax }
    else if ltb (2 ^ 64 - 1) (n * 10 + d)
    then record { value = 2 ^ 64 - 1; err = some err_range }
    else scan_uint s (n * 10 + d)

unfoldable pub parse_uint : Str → Parsed ℕ
unfolding scan_uint
parse_uint [] = record { value = 0; err = some err_syntax }
parse_uint (c ∷ s) = scan_uint (c ∷ s) 0

-- The signed value of a scanned magnitude, cut off at the ends of the int64 range.
abbrev signed : Bool → Parsed ℕ → Parsed ℤ
signed neg u = elim u.err [
  | some err_syntax ↦ record { value = pos 0; err = some err_syntax }
  | _ ↦
      if neg
      then (if ltb (2 ^ 63) u.value
          then record { value = negsuc (2 ^ 63 - 1); err = some err_range }
          else record {
            value = (if u.value == 0 then pos 0 else negsuc (u.value - 1));
            err = none;
          })
      else if leb (2 ^ 63) u.value
      then record { value = pos (2 ^ 63 - 1); err = some err_range }
      else record { value = pos u.value; err = none }
]

unfoldable pub parse_int : Str → Parsed ℤ
parse_int [] = record { value = pos 0; err = some err_syntax }
parse_int (c ∷ s) =
    if c == b'-'
    then signed true (parse_uint s)
    else if c == b'+'
    then signed false (parse_uint s)
    else signed false (parse_uint (c ∷ s))

-- A parsed unsigned number fits into 64 bits.
pub scan_uint_bounds : (s : Str) (n : ℕ) → n < 2 ^ 64 → (scan_uint s n).value < 2 ^ 64
unfolding scan_uint
scan_uint_bounds [] n h = h
scan_uint_bounds (c ∷ s) n h = ground (arith, scan_uint_bounds s (n * 10 + (c - b'0')))

pub parse_uint_bounds : (s : Str) → (parse_uint s).value < 2 ^ 64
unfolding parse_uint
parse_uint_bounds [] = omega arith
parse_uint_bounds (c ∷ s) = scan_uint_bounds (c ∷ s) 0 (omega arith)

abbrev pub InInt64 : ℤ → Type 0
InInt64 (pos n) = n < 2 ^ 63
InInt64 (negsuc n) = n < 2 ^ 63

signed-InInt64 : (neg : Bool) (u : Parsed ℕ) → InInt64 (signed neg u).value
signed-InInt64 neg u = ground arith

pub parse_int-InInt64 : (s : Str) → InInt64 (parse_int s).value
unfolding parse_int
parse_int-InInt64 [] = omega arith
parse_int-InInt64 (c ∷ s) = elim (Bool-cases (c == b'-')) [
  | inl minus ↦ rw minus (signed-InInt64 true (parse_uint s))
  | inr other ↦ elim (Bool-cases (c == b'+')) [
    | inl plus ↦ rw (other, plus) (signed-InInt64 false (parse_uint s))
    | inr digit ↦ rw (other, digit) (signed-InInt64 false (parse_uint (c ∷ s)))
  ]
]

parse_int_runs :
    (parse_int (str "-42") ≡ record { value = negsuc 41; err = none })
    × (parse_int (str "99999999999999999999x")
        ≡ record { value = pos (2 ^ 63 - 1); err = some err_range })
    × (parse_int (str "1x") ≡ record { value = pos 0; err = some err_syntax })
unfolding parse_int parse_uint str
parse_int_runs = (refl, refl, refl)
