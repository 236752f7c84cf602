-- ===== src/Util/Random.antt =====
-- pkg/util/string.go: random names and texts. What `math/rand` draws is a parameter.
use jian_yu_server_lib.Base.{
  ℕ, zero, suc, ◌-◌, ◌<◌, ◌≡◌, ◌≢◌, refl, Bool, true, ◌&&◌, ◌||◌, not, List, [], ◌∷◌, ◌++◌, All,
  length, arith, leb, take, All-get_elem?, All-append, get_elem?-take, length-append, sym, ap, ◌∙◌,
}
use jian_yu_server_lib.Base.Outcome.{Outcome, returned, index, or_panic, ◌>>=◌}
use jian_yu_server_lib.Strings.{Str, str, str_eq}
use jian_yu_server_lib.Strings.Laws.{str_eq_iff}
use package.jian_yu_server_lib.Util.Names.{names}

-- GetRandomName, from `rand.Intn(len(names)-1)`
unfoldable pub get_random_name : (ℕ → ℕ) → Outcome Str
get_random_name intn = index names (intn (length names - 1))

-- The bytes of "0123456789abcdefghijklmnopqrstuvwxyzABCDEFGHIJKLMNOPQRSTUVWXYZ"
abbrev pub alphabet : Str
alphabet = str "0123456789abcdefghijklmnopqrstuvwxyzABCDEFGHIJKLMNOPQRSTUVWXYZ"

-- The loop of GetRandomString, `num` being what is left of it; the draws come one after another.
unfoldable pub get_random_string : (ℕ → ℕ → ℕ) → ℕ → Outcome Str
get_random_string intn zero = returned []
get_random_string intn (suc num) = get_random_string intn num >>= λ result.
    index alphabet (intn num (length alphabet)) >>= λ c. returned (result ++ (c ∷ []))

-- GetRandomSalt
unfoldable pub get_random_salt : (ℕ → ℕ → ℕ) → Outcome Str
unfolding get_random_string
get_random_salt intn = get_random_string intn 8

-- A byte of the alphabet: a digit or a letter
abbrev pub is_alphanumeric : ℕ → Bool
is_alphanumeric c = leb b'0' c && leb c b'9' || leb b'a' c && leb c b'z' || leb b'A' c && leb c b'Z'

abbrev pub IsAlphanumeric : ℕ → Type 0
IsAlphanumeric c = is_alphanumeric c ≡ true

-- Every draw is below its bound, as `rand.Intn` promises for a bound above 0.
abbrev pub InRange : (ℕ → ℕ → ℕ) → Type 0
InRange intn = (i n : ℕ) → 0 < n → intn i n < n

all_alphanumeric : Str → Bool
all_alphanumeric [] = true
all_alphanumeric (c ∷ s) = is_alphanumeric c && all_alphanumeric s

all_alphanumeric-All : (s : Str) → all_alphanumeric s ≡ true → All IsAlphanumeric s
unfolding all_alphanumeric
all_alphanumeric-All [] h = tt
all_alphanumeric-All (c ∷ s) h = (ground arith, all_alphanumeric-All s (ground arith))

alphabet-All : All IsAlphanumeric alphabet
unfolding str all_alphanumeric
alphabet-All = all_alphanumeric-All alphabet refl

length-alphabet : length alphabet ≡ 62
unfolding str
length-alphabet = refl

-- A random text of `num` characters is made without a panic, whatever is drawn, and has that many
-- characters, all of them letters or digits.
pub get_random_string_lem :
    (intn : ℕ → ℕ → ℕ) (num : ℕ)
    → InRange intn
    → (s : Str) × (get_random_string intn num ≡ returned s)
      × (length s ≡ num)
      × All IsAlphanumeric s
unfolding get_random_string
get_random_string_lem intn zero h = ([], refl, refl, tt)
get_random_string_lem intn (suc num) h =
    let (s, made, size, all) = get_random_string_lem intn num h in
    let (c, drawn, is) =
      All-get_elem? IsAlphanumeric alphabet (intn num (length alphabet)) alphabet-All
        (h num (length alphabet) (omega (arith, length-alphabet))) in
    (
      s ++ (c ∷ []),
      rw (made, drawn) refl,
      omega (arith, length-append s (c ∷ [])),
      All-append IsAlphanumeric s (c ∷ []) all (is, tt),
    )

-- The last of the names
abbrev pub last_name : Str
last_name = str "银角大王"

absent : List Str → Bool
absent [] = true
absent (n ∷ ns) = not (str_eq n last_name) && absent ns

absent-All : (ns : List Str) → absent ns ≡ true → All (λ n. n ≢ last_name) ns
unfolding absent
absent-All [] h = tt
absent-All (n ∷ ns) h = (λ e. ground (arith, str_eq_iff n last_name), absent-All ns (ground arith))

names-absent : absent (take 181 names) ≡ true
unfolding absent str_eq str
names-absent = refl

-- Whatever is drawn, a random name is one of the list, but never the last one of it.
pub get_random_name_lem :
    (intn : ℕ → ℕ)
    → intn (length names - 1) < length names - 1
    → (n : Str) × (get_random_name intn ≡ returned n) × (n ≢ last_name)
unfolding get_random_name
get_random_name_lem intn h =
    let (n, drawn, ne) =
      All-get_elem? (λ n. n ≢ last_name) (take 181 names) (intn 181)
        (absent-All (take 181 names) names-absent) h in
    (n, ap or_panic (sym (get_elem?-take 181 (intn 181) names h) ∙ drawn), ne)
