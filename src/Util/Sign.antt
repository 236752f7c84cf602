-- ===== src/Util/Sign.antt =====
-- pkg/util/sign.go: the text of a map of parameters that is signed.
use jian_yu_server_lib.Base.{
  ℕ, suc, ◌+◌, ◌-◌, ◌≡◌, refl, ap, ◌∙◌, Bool, true, false, List, [], ◌∷◌, ◌++◌, length,
  length-append, append-nil, ==_iff, arith, ltb, ◌==◌, if◌then◌else◌,
}
use jian_yu_server_lib.Base.Int.{ℤ}
use jian_yu_server_lib.Strings.{Str, str, itoa}
use jian_yu_server_lib.Im.Send.{itoa_ℤ}

-- The values of a `map[string]interface{}` by what ObjToStr does with them. What `fmt` writes for a
-- value of another type is that value's text.
pub data Value : Type 0 where
  string : Str → Value
  integer : ℤ → Value
  uint32 : ℕ → Value
  other : Str → Value

-- ObjToStr: a uint32 is printed by `%s`.
unfoldable pub obj_to_str : Value → Str
obj_to_str (string s) = s
obj_to_str (integer n) = itoa_ℤ n
obj_to_str (uint32 n) = str "%!s(uint32=" ++ (itoa n ++ str ")")
obj_to_str (other s) = s

-- `v == ""`
abbrev pub is_empty : Value → Bool
is_empty (string []) = true
is_empty v = false

-- The order of Go strings.
unfoldable pub less : Str → Str → Bool
less s [] = false
less [] (c ∷ t) = true
less (b ∷ s) (c ∷ t) =
    let rest = less s t in if ltb b c then true else if b == c then rest else false

abbrev pub Params : Type 0
Params = List (Str × Value)

-- sort.Strings on the keys, which are distinct, with their values.
unfoldable pub insert : Str × Value → Params → Params
insert p [] = p ∷ []
insert p (q ∷ ps) = let rest = insert p ps in if less p.0 q.0 then p ∷ q ∷ ps else q ∷ rest

unfoldable pub sort : Params → Params
sort [] = []
sort (p ∷ ps) = insert p (sort ps)

-- One turn of the loop: `last` is `len(keys)-1`. The text is assigned, not added to.
unfoldable pub sign_turn : ℕ → ℕ → Str → Str × Value → Str
unfolding obj_to_str
sign_turn last i sign_str (k, v) =
    if is_empty v
    then sign_str
    else k ++ (str "=" ++ (obj_to_str v ++ (if i == last then [] else str "&")))

unfoldable pub sign_loop : ℕ → ℕ → Str → Params → Str
sign_loop last i sign_str [] = sign_str
sign_loop last i sign_str (p ∷ ps) = sign_loop last (suc i) (sign_turn last i sign_str p) ps

-- The loop of GetSignStr on the sorted keys.
unfoldable pub sign_sorted : Params → Str
sign_sorted ps = sign_loop (length ps - 1) 0 [] ps

-- GetSignStr
unfoldable pub get_sign_str : Params → Str
unfolding sign_sorted sort
get_sign_str params = sign_sorted (sort params)

sign_loop-append :
    (last i : ℕ) (sign_str : Str) (ps : Params) (p : Str × Value)
    → sign_loop last i sign_str (ps ++ (p ∷ []))
      ≡ sign_turn last (i + length ps) (sign_loop last i sign_str ps) p
unfolding sign_loop
sign_loop-append last i sign_str [] p = ap (λ j. sign_turn last j sign_str p) (omega arith)
sign_loop-append last i sign_str (q ∷ ps) p =
    sign_loop-append last (suc i) (sign_turn last i sign_str q) ps p
    ∙ ap (λ j. sign_turn last j (sign_loop last i sign_str (q ∷ ps)) p) (omega arith)

sign_turn_of_last :
    (last i : ℕ) (sign_str k : Str) (v : Value)
    → i ≡ last
    → is_empty v ≡ false
    → sign_turn last i sign_str (k, v) ≡ k ++ (str "=" ++ obj_to_str v)
unfolding sign_turn
sign_turn_of_last last i sign_str k v at present =
    rw (present, (==_iff i last).1 at, append-nil (obj_to_str v)) refl

sign_sorted-append :
    (others : Params) (k : Str) (v : Value)
    → is_empty v ≡ false
    → sign_sorted (others ++ ((k, v) ∷ [])) ≡ k ++ (str "=" ++ obj_to_str v)
unfolding sign_sorted
sign_sorted-append others k v present =
    let last = length (others ++ ((k, v) ∷ [])) - 1 in
    sign_loop-append last 0 [] others (k, v)
    ∙ sign_turn_of_last last (0 + length others) (sign_loop last 0 [] others) k v
        (omega (arith, length-append others ((k, v) ∷ []))) present

-- If the greatest key has a value that is not empty, the text is that key and its value alone,
-- whatever the other parameters are.
pub get_sign_str_last :
    (params others : Params) (k : Str) (v : Value)
    → sort params ≡ others ++ ((k, v) ∷ [])
    → is_empty v ≡ false
    → get_sign_str params ≡ k ++ (str "=" ++ obj_to_str v)
unfolding get_sign_str
get_sign_str_last params others k v sorted present =
    ap sign_sorted sorted ∙ sign_sorted-append others k v present
