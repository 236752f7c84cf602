-- ===== src/Util/Base62.antt =====
-- pkg/util/base62.go: numbers in base 62.
use jian_yu_server_lib.Base.{
  ℕ, zero, suc, ◌+◌, ◌*◌, ◌-◌, ◌/◌, ◌%◌, ◌≤◌, ◌<◌, ◌≡◌, ◌≢◌, refl, sym, ap, ◌∙◌, Bool, true, false,
  ◌&&◌, List, [], ◌∷◌, ◌++◌, All, append_assoc, append-nil, arith, ltb, leb, ◌==◌, ==_iff,
  Bool-cases, inl, inr, if◌then◌else◌,
}
use jian_yu_server_lib.Base.Int.{ℤ, pos, negsuc}
use jian_yu_server_lib.Strings.{Str, str, str_eq}
use jian_yu_server_lib.Strings.Laws.{str_eq_iff}

-- tenValue2Char: the cases 0 to 8 have no body, and Go's cases do not fall through.
unfoldable pub ten_value_to_char : ℕ → Str
ten_value_to_char ten =
    if ltb ten 9
    then []
    else if ten == 9
    then b'9' ∷ []
    else if ten == 33
    then b's' ∷ []
    else if ten == 59
    then b'S' ∷ []
    else if ltb ten 36
    then (b'a' + (ten - 10)) ∷ []
    else if ltb ten 62
    then (b'A' + (ten - 36)) ∷ []
    else []

-- Ten2Hex on a number that is not negative: the loop, and the digit after it.
unfoldable pub ten_to_hex_loop : ℕ → ℕ → Str → Str
unfolding ten_value_to_char
ten_to_hex_loop zero ten hex = hex
ten_to_hex_loop (suc fuel) ten hex =
    let rest = ten_to_hex_loop fuel (ten / 62) (ten_value_to_char (ten % 62) ++ hex) in
    if leb 62 ten then rest else if ten == 0 then hex else ten_value_to_char ten ++ hex

-- Ten2Hex. A negative number gives "": the loop is not entered, and there is no such digit.
unfoldable pub ten_to_hex : ℤ → Str
unfolding ten_to_hex_loop
ten_to_hex (pos ten) = ten_to_hex_loop (suc ten) ten []
ten_to_hex (negsuc n) = []

-- Whatever fuel is above the number gives the same.
ten_to_hex_loop_fuel :
    (f g ten : ℕ) (hex : Str)
    → ten < f
    → ten < g
    → ten_to_hex_loop f ten hex ≡ ten_to_hex_loop g ten hex
unfolding ten_to_hex_loop
ten_to_hex_loop_fuel zero g ten hex hf hg = absurd (omega arith)
ten_to_hex_loop_fuel (suc f) zero ten hex hf hg = absurd (omega arith)
ten_to_hex_loop_fuel (suc f) (suc g) ten hex hf hg =
    ground (arith, ten_to_hex_loop_fuel f g (ten / 62) (ten_value_to_char (ten % 62) ++ hex))

ten_to_hex_loop_step :
    (f ten : ℕ) (hex : Str)
    → 62 ≤ ten
    → ten_to_hex_loop (suc f) ten hex
      ≡ ten_to_hex_loop f (ten / 62) (ten_value_to_char (ten % 62) ++ hex)
unfolding ten_to_hex_loop
ten_to_hex_loop_step f ten hex h = ground arith

no_char : (d : ℕ) → d < 9 → ten_value_to_char d ≡ []
unfolding ten_value_to_char
no_char d h = ground arith

-- The digits 0 to 8 are not written: a number of two digits or more whose last digit in base 62 is
-- one of them has the text of the number without it.
pub ten_to_hex_drops :
    (n d : ℕ) → 1 ≤ n → d < 9 → ten_to_hex (pos (n * 62 + d)) ≡ ten_to_hex (pos n)
unfolding ten_to_hex
ten_to_hex_drops n d h hd =
    let quot : (n * 62 + d) / 62 ≡ n = omega arith in
    let rem : (n * 62 + d) % 62 ≡ d = omega arith in
    ten_to_hex_loop_step (n * 62 + d) (n * 62 + d) [] (omega arith)
    ∙ rw (quot, rem, no_char d hd)
        (ten_to_hex_loop_fuel (n * 62 + d) (suc n) n [] (omega arith) (omega arith))

loop_onto : (f ten : ℕ) (hex : Str) → ten_to_hex_loop f ten hex ≡ ten_to_hex_loop f ten [] ++ hex
unfolding ten_to_hex_loop
loop_onto zero ten hex = refl
loop_onto (suc f) ten hex =
    let c = ten_value_to_char (ten % 62) in
    elim (Bool-cases (leb 62 ten)) [
      | inl more ↦ rw more (
          loop_onto f (ten / 62) (c ++ hex)
          ∙ (sym (append_assoc (ten_to_hex_loop f (ten / 62) []) c hex)
              ∙ ap (λ t. t ++ hex)
                  (ap (λ x. ten_to_hex_loop f (ten / 62) [] ++ x) (sym (append-nil c))
                    ∙ sym (loop_onto f (ten / 62) (c ++ [])))))
      | inr last ↦ rw last (elim (Bool-cases (ten == 0)) [
        | inl none_left ↦ rw none_left refl
        | inr digit ↦ rw digit (sym (append_assoc (ten_value_to_char ten) [] hex))
      ])
    ]

-- The characters of the digits, as the code has them: s and S stand where x and X would.
abbrev pub characters : Str
characters = str "0123456789abcdefghijklmnopqrstuvwsyzABCDEFGHIJKLMNOPQRSTUVWSYZ"

abbrev character_at : Str → ℕ → Str
character_at [] d = []
character_at (c ∷ s) zero = c ∷ []
character_at (c ∷ s) (suc d) = character_at s d

-- What is written for a digit: its character, and nothing for 0 to 8
unfoldable pub written : ℕ → Str
written d = if ltb d 9 then [] else character_at characters d

written_below : ℕ → Bool
unfolding written ten_value_to_char str str_eq
written_below zero = true
written_below (suc d) = written_below d && str_eq (ten_value_to_char d) (written d)

written_below_lem : (n d : ℕ) → written_below n ≡ true → d < n → ten_value_to_char d ≡ written d
unfolding written_below
written_below_lem zero d h below = absurd (omega arith)
written_below_lem (suc n) d h below = elim (Bool-cases (d == n)) [
  | inl same ↦
      let e : d ≡ n = (==_iff d n).0 same in
      rw e ((str_eq_iff (ten_value_to_char n) (written n)).0 (ground arith))
  | inr other ↦
      let ne : d ≢ n = λ e. ground (arith, ==_iff d n) in
      written_below_lem n d (ground arith) (omega arith)
]

ten_value_to_char-written : (d : ℕ) → d < 62 → ten_value_to_char d ≡ written d
unfolding written_below written ten_value_to_char str str_eq
ten_value_to_char-written d h = written_below_lem 62 d refl h

ten_to_hex_digit :
    (n d : ℕ) → 1 ≤ n → d < 62 → ten_to_hex (pos (n * 62 + d)) ≡ ten_to_hex (pos n) ++ written d
unfolding ten_to_hex
ten_to_hex_digit n d h hd =
    let quot : (n * 62 + d) / 62 ≡ n = omega arith in
    let rem : (n * 62 + d) % 62 ≡ d = omega arith in
    ten_to_hex_loop_step (n * 62 + d) (n * 62 + d) [] (omega arith)
    ∙ rw (quot, rem)
        (ten_to_hex_loop_fuel (n * 62 + d) (suc n) n _ (omega arith) (omega arith)
          ∙ (loop_onto (suc n) n (ten_value_to_char d ++ [])
              ∙ ap (λ t. ten_to_hex_loop (suc n) n [] ++ t)
                  (append-nil (ten_value_to_char d) ∙ ten_value_to_char-written d hd)))

ten_to_hex_first : (d : ℕ) → 1 ≤ d → d < 62 → ten_to_hex (pos d) ≡ written d
unfolding ten_to_hex ten_to_hex_loop
ten_to_hex_first d h hd =
    let small : leb 62 d ≡ false = ground arith in
    let filled : (d == 0) ≡ false = ground (arith, ==_iff d 0) in
    rw (small, filled) (append-nil (ten_value_to_char d) ∙ ten_value_to_char-written d hd)

-- The number that digits in base 62 make after a number
abbrev pub value_of : ℕ → List ℕ → ℕ
value_of n [] = n
value_of n (d ∷ ds) = value_of (n * 62 + d) ds

abbrev pub written_all : List ℕ → Str
written_all [] = []
written_all (d ∷ ds) = written d ++ written_all ds

ten_to_hex-value_of :
    (n : ℕ) (ds : List ℕ)
    → 1 ≤ n
    → All (λ d. d < 62) ds
    → ten_to_hex (pos (value_of n ds)) ≡ ten_to_hex (pos n) ++ written_all ds
ten_to_hex-value_of n [] h all = sym (append-nil (ten_to_hex (pos n)))
ten_to_hex-value_of n (d ∷ ds) h all =
    ten_to_hex-value_of (n * 62 + d) ds (omega arith) all.1
    ∙ (ap (λ t. t ++ written_all ds) (ten_to_hex_digit n d h all.0)
        ∙ append_assoc (ten_to_hex (pos n)) (written d) (written_all ds))

-- Ten2Hex writes a number by its digits in base 62, of which the first is not 0, each by its
-- character in "0123456789abcdefghijklmnopqrstuvwsyzABCDEFGHIJKLMNOPQRSTUVWSYZ", from the first to the
-- last, but leaves out the digits 0 to 8.
pub ten_to_hex_lem :
    (d : ℕ) (ds : List ℕ)
    → 1 ≤ d
    → All (λ x. x < 62) (d ∷ ds)
    → ten_to_hex (pos (value_of d ds)) ≡ written_all (d ∷ ds)
ten_to_hex_lem d ds h all =
    ten_to_hex-value_of d ds h all.1 ∙ ap (λ t. t ++ written_all ds) (ten_to_hex_first d h all.0)
