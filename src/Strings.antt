-- ===== src/Strings.antt =====
-- Go strings: byte sequences, and the functions of the standard library's `strings`, `strconv` and
-- `fmt` that the program calls on them.
pub mod Laws
pub mod Parse
pub mod Blank
pub mod Decimal
pub mod Replace
pub mod Paths
use Prim.Native.Char.{code}
use jian_yu_server_lib.Base.{
  ℕ, zero, suc, ◌+◌, ◌-◌, ◌*◌, ◌/◌, ◌%◌, String, ◌≡◌, refl, Bool, true, false, ◌&&◌, ◌||◌, not,
  List, [], ◌∷◌, ◌++◌, ltb, leb, ◌==◌, if◌then◌else◌, length,
}

-- A Go string is its bytes.
abbrev pub Str : Type 0
Str = List ℕ

-- The UTF-8 encoding of one code point.
utf8 : ℕ → Str
utf8 c =
    if ltb c 0x80
    then c ∷ []
    else if ltb c 0x800
    then (0xc0 + c / 64) ∷ (0x80 + c % 64) ∷ []
    else if ltb c 0x10000
    then (0xe0 + c / 4096) ∷ (0x80 + c / 64 % 64) ∷ (0x80 + c % 64) ∷ []
    else (0xf0 + c / 262144) ∷ (0x80 + c / 4096 % 64) ∷ (0x80 + c / 64 % 64) ∷ (0x80 + c % 64) ∷ []

-- A string literal of the source.
unfoldable pub str : String → Str
unfolding utf8
str String.[] = []
str (String.◌∷◌ c s) = utf8 (code c) ++ str s

-- `a == b` on strings.
unfoldable pub str_eq : Str → Str → Bool
str_eq [] [] = true
str_eq [] (d ∷ t) = false
str_eq (c ∷ s) [] = false
str_eq (c ∷ s) (d ∷ t) = c == d && str_eq s t

-- strings.HasPrefix
unfoldable pub has_prefix : Str → Str → Bool
has_prefix s [] = true
has_prefix [] (d ∷ p) = false
has_prefix (c ∷ s) (d ∷ p) = c == d && has_prefix s p

-- strings.HasSuffix: some suffix of `s` is `p`.
unfoldable pub has_suffix : Str → Str → Bool
unfolding str_eq
has_suffix [] p = str_eq [] p
has_suffix (c ∷ s) p = str_eq (c ∷ s) p || has_suffix s p

-- strings.Contains
unfoldable pub contains : Str → Str → Bool
unfolding has_prefix
contains [] p = has_prefix [] p
contains (c ∷ s) p = has_prefix (c ∷ s) p || contains s p

-- Puts a byte in front of the first piece.
unfoldable pub cons_head : ℕ → List Str → List Str
cons_head c [] = (c ∷ []) ∷ []
cons_head c (p ∷ ps) = (c ∷ p) ∷ ps

-- The pieces of `s` between the occurrences of `d ∷ sep`, found from the left and not overlapping;
-- `k` bytes of an occurrence are still to be passed.
unfoldable pub pieces : ℕ → Str → Str → ℕ → List Str
unfolding cons_head has_prefix
pieces d sep [] k = [] ∷ []
pieces d sep (c ∷ s) (suc k) = pieces d sep s k
pieces d sep (c ∷ s) zero = elim (has_prefix (c ∷ s) (d ∷ sep)) [
  | true ↦ [] ∷ pieces d sep s (length sep)
  | false ↦ cons_head c (pieces d sep s zero)
]

-- strings.Split by the separator `d ∷ sep`. (The program never splits by the empty string.)
unfoldable pub split : Str → ℕ → Str → List Str
unfolding pieces
split s d sep = pieces d sep s 0

-- strings.Join
unfoldable pub join : List Str → Str → Str
join [] sep = []
join (p ∷ []) sep = p
join (p ∷ q ∷ ps) sep = p ++ (sep ++ join (q ∷ ps) sep)

-- How many bytes the white space at the head of `s` takes, 0 if there is none: the code points
-- that Unicode gives the property White_Space, as unicode.IsSpace has them.
unfoldable pub space_width : Str → ℕ
space_width [] = 0
space_width (a ∷ []) = if leb 9 a && leb a 13 || a == 32 then 1 else 0
space_width (a ∷ b ∷ []) =
    if leb 9 a && leb a 13 || a == 32
    then 1
    else if a == 0xc2 && (b == 0x85 || b == 0xa0)
    then 2
    else 0
space_width (a ∷ b ∷ c ∷ s) =
    if leb 9 a && leb a 13 || a == 32
    then 1
    else if a == 0xc2 && (b == 0x85 || b == 0xa0)
    then 2
    else if a == 0xe1 && b == 0x9a && c == 0x80
        || a == 0xe2
          && b == 0x80
          && (leb 0x80 c && leb c 0x8a || c == 0xa8 || c == 0xa9 || c == 0xaf)
        || a == 0xe2 && b == 0x81 && c == 0x9f
        || a == 0xe3 && b == 0x80 && c == 0x80
    then 3
    else 0

-- strings.TrimLeft by white space; `k` bytes of one are still to be dropped.
unfoldable pub trim_left : Str → ℕ → Str
trim_left [] k = []
trim_left (c ∷ s) (suc k) = trim_left s k
trim_left (c ∷ s) zero = elim (space_width (c ∷ s)) [ zero ↦ c ∷ s | suc k ↦ trim_left s k ]

-- `strings.TrimSpace(s) == ""`: nothing is left when the white space at the front is gone.
unfoldable pub is_blank : Str → Bool
unfolding trim_left str_eq
is_blank s = str_eq (trim_left s 0) []

-- strings.TrimRight by white space: a text is cut off where only white space is left. (No white
-- space begins in the middle of a code point.)
unfoldable pub trim_right : Str → Str
unfolding is_blank
trim_right [] = []
trim_right (c ∷ s) = let rest = trim_right s in if is_blank (c ∷ s) then [] else c ∷ rest

-- strings.TrimSpace
unfoldable pub trim_space : Str → Str
unfolding trim_left trim_right
trim_space s = trim_right (trim_left s 0)

-- The decimal digits of `n` in front of `out`. The fuel is above the number of digits.
unfoldable pub digits_onto : ℕ → ℕ → Str → Str
digits_onto zero n out = out
digits_onto (suc fuel) n out =
    let more = digits_onto fuel (n / 10) ((b'0' + n % 10) ∷ out) in
    if ltb n 10 then (b'0' + n) ∷ out else more

-- fmt.Sprintf("%d", n) for n ≥ 0, strconv.Itoa
unfoldable pub itoa : ℕ → Str
unfolding digits_onto
itoa n = digits_onto (suc n) n []

split_runs : split (str "a-|b-|-|c") b'-' (str "|") ≡ str "a" ∷ str "b" ∷ [] ∷ str "c" ∷ []
unfolding split str
split_runs = refl

utf8_runs : str "人" ≡ 0xe4 ∷ 0xba ∷ 0xba ∷ []
unfolding str
utf8_runs = refl

itoa_runs : itoa 90210 ≡ str "90210"
unfolding itoa str
itoa_runs = refl

is_blank_runs :
    (is_blank (0x20 ∷ 0x09 ∷ 0xe3 ∷ 0x80 ∷ 0x80 ∷ []) ≡ true) × (is_blank (str " x") ≡ false)
unfolding is_blank space_width str
is_blank_runs = (refl, refl)
