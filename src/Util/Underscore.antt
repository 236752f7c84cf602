-- ===== src/Util/Underscore.antt =====
-- UnderscoreName of pkg/util/string.go: a name in camel case with underscores between its words.
use jian_yu_server_lib.Base.{
  ℕ, ◌+◌, ◌-◌, ◌≡◌, refl, Bool, false, ◌&&◌, ◌||◌, [], ◌∷◌, map, All, leb, ◌==◌, if◌then◌else◌,
  arith, Bool-cases, inl, inr,
}
use jian_yu_server_lib.Strings.{Str}

-- isUpper
abbrev pub is_upper : ℕ → Bool
is_upper b = leb b'A' b && leb b b'Z'

-- isLower
abbrev pub is_lower : ℕ → Bool
is_lower b = leb b'a' b && leb b b'z'

-- isDigit
abbrev pub is_digit : ℕ → Bool
is_digit b = leb b'0' b && leb b b'9'

-- toLower
unfoldable pub to_lower : ℕ → ℕ
to_lower b = if is_upper b then b - b'A' + b'a' else b

-- Whether an underscore stands behind the byte, from it and from the bytes behind it
unfoldable pub ends_word : ℕ → Str → Bool
ends_word c [] = false
ends_word c (d ∷ []) = is_upper d && (is_lower c || is_digit c)
ends_word c (d ∷ e ∷ name) = is_upper d && (is_lower c || is_digit c || is_lower e)

-- UnderscoreName
unfoldable pub underscore_name : Str → Str
underscore_name [] = []
underscore_name (c ∷ name) =
    let rest = underscore_name name in to_lower c ∷ (if ends_word c name then b'_' ∷ rest else rest)

-- A text without its underscores
unfoldable pub erase : Str → Str
erase [] = []
erase (c ∷ s) = let rest = erase s in if c == b'_' then rest else c ∷ rest

-- An underscore name is the name in lower case with underscores put between its bytes: it has no
-- upper case letter, and without underscores the two are the same text.
pub underscore_name_lem :
    (name : Str)
    → All (λ c. is_upper c ≡ false) (underscore_name name)
      × (erase (underscore_name name) ≡ map to_lower (erase name))
unfolding underscore_name erase to_lower
underscore_name_lem [] = (tt, refl)
underscore_name_lem (c ∷ name) =
    let (lower, same) = underscore_name_lem name in
    elim (Bool-cases (ends_word c name)) [
      | inl e ↦ rw (e, same) ((ground arith, (ground arith, lower)), ground arith)
      | inr e ↦ rw (e, same) ((ground arith, lower), ground arith)
    ]
