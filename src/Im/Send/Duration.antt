-- ===== src/Im/Send/Duration.antt =====
-- The duration in the message at the end of a call.
use jian_yu_server_lib.Base.{
  ℕ, ◌+◌, ◌*◌, ◌/◌, ◌%◌, ◌^◌, ◌<◌, ◌≡◌, ◌≢◌, refl, ap, ◌∙◌, none, [], ◌∷◌, arith, All, Lacks,
}
use jian_yu_server_lib.Base.Int.{pos}
use jian_yu_server_lib.Strings.{Str, itoa, split}
use jian_yu_server_lib.Strings.Laws.{split-append, split_of_Lacks}
use jian_yu_server_lib.Strings.Parse.{parse_uint, scan_uint}
use jian_yu_server_lib.Strings.Decimal.{IsDigit, itoa-IsDigit, itoa-ne-nil, parse_uint-itoa}
use package.jian_yu_server_lib.Im.Send.Rtc.{two_digits, format_second}

two_digits-IsDigit : (n : ℕ) → All IsDigit (two_digits n)
unfolding two_digits
two_digits-IsDigit n = ground (arith, itoa-IsDigit n)

digits-Lacks : (s : Str) → All IsDigit s → Lacks b':' s
digits-Lacks [] h = tt
digits-Lacks (c ∷ s) h = (ground arith, digits-Lacks s h.1)

parse_uint-zero : (s : Str) → s ≢ [] → parse_uint (b'0' ∷ s) ≡ parse_uint s
unfolding parse_uint scan_uint
parse_uint-zero [] h = absurd (h refl)
parse_uint-zero (c ∷ s) h = refl

parse_uint-two_digits :
    (n : ℕ) → n < 2 ^ 64 → parse_uint (two_digits n) ≡ record { value = n; err = none }
unfolding two_digits
parse_uint-two_digits n h =
    ground (arith, parse_uint-itoa n, parse_uint-zero (itoa n), itoa-ne-nil n)

-- The text of a duration from 0 up and below 2 ^ 63 is its minutes and its seconds, below 60,
-- around a colon: split there and read as numbers, they give the duration back.
pub format_second-parts :
    (t : ℕ)
    → t < 2 ^ 63
    → (minutes seconds : Str) × (split (format_second (pos t)) b':' [] ≡ minutes ∷ seconds ∷ [])
      × (parse_uint minutes ≡ record { value = t / 60; err = none })
      × (parse_uint seconds ≡ record { value = t % 60; err = none })
      × ((parse_uint minutes).value * 60 + (parse_uint seconds).value ≡ t)
unfolding format_second
format_second-parts t h = (
  two_digits (t / 60),
  two_digits (t % 60),
  split-append (two_digits (t / 60)) (two_digits (t % 60)) b':' []
        (digits-Lacks _ (two_digits-IsDigit (t / 60)))
      ∙ ap (λ l. two_digits (t / 60) ∷ l)
          (split_of_Lacks (two_digits (t % 60)) b':' []
            (digits-Lacks _ (two_digits-IsDigit (t % 60)))),
  parse_uint-two_digits (t / 60) (omega arith),
  parse_uint-two_digits (t % 60) (omega arith),
  rw (parse_uint-two_digits (t / 60) (omega arith), parse_uint-two_digits (t % 60) (omega arith))
      (omega arith),
)
