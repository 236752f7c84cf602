-- ===== src/Util/Page.antt =====
-- pkg/util/page.go: page numbers from text.
use jian_yu_server_lib.Base.{ℕ, ◌<◌, ◌^◌, ◌≡◌, ◌≢◌, ◌∙◌, refl, ap, [], ◌∷◌, arith}
use jian_yu_server_lib.Strings.{Str, itoa}
use jian_yu_server_lib.Strings.Parse.{parse_uint, parse_uint_bounds}
use jian_yu_server_lib.Strings.Decimal.{itoa-ne-nil, parse_uint-itoa}

number_or : ℕ → Str → ℕ
unfolding parse_uint
number_or default [] = default
number_or default (c ∷ s) = (parse_uint (c ∷ s)).value

-- ToPageNumOrDefault: the value of a text that is no number is what ParseUint returns with its error.
unfoldable pub to_page_num_or_default : Str → Str → ℕ × ℕ
unfolding number_or
to_page_num_or_default page_index page_size = (number_or 1 page_index, number_or 10 page_size)

number_or_of_some : (d : ℕ) (s : Str) → s ≢ [] → number_or d s ≡ (parse_uint s).value
unfolding number_or
number_or_of_some d [] h = absurd (h refl)
number_or_of_some d (c ∷ s) h = refl

number_or_bounds : (d : ℕ) (s : Str) → d < 2 ^ 64 → number_or d s < 2 ^ 64
unfolding number_or
number_or_bounds d [] h = h
number_or_bounds d (c ∷ s) h = parse_uint_bounds (c ∷ s)

read_back : (d n : ℕ) → n < 2 ^ 64 → number_or d (itoa n) ≡ n
read_back d n h =
    number_or_of_some d (itoa n) (itoa-ne-nil n) ∙ ap (λ p. p.value) (parse_uint-itoa n h)

-- Two numbers of 64 bits come back, the page 1 and the size 10 for empty texts, and numbers that
-- were printed are read back.
pub to_page_num_or_default_lem :
    (page_index page_size : Str) (i s : ℕ)
    → i < 2 ^ 64
    → s < 2 ^ 64
    → ((to_page_num_or_default page_index page_size).0 < 2 ^ 64)
      × ((to_page_num_or_default page_index page_size).1 < 2 ^ 64)
      × (to_page_num_or_default [] [] ≡ (1, 10))
      × (to_page_num_or_default (itoa i) (itoa s) ≡ (i, s))
unfolding to_page_num_or_default
to_page_num_or_default_lem page_index page_size i s hi hs = (
  number_or_bounds 1 page_index (omega arith),
  number_or_bounds 10 page_size (omega arith),
  refl,
  rw (read_back 1 i hi, read_back 10 s hs) refl,
)
