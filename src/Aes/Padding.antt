-- ===== src/Aes/Padding.antt =====
-- Padding and its removal.
use jian_yu_server_lib.Base.{
  false, ℕ, zero, suc, ◌+◌, ◌-◌, ◌%◌, ◌≤◌, ◌<◌, ◌≡◌, refl, ap, ◌∙◌, some, [], ◌∷◌, ◌++◌, arith, ltb,
  length, length-append, length-replicate, take-append_length, get_elem?, take, replicate,
}
use jian_yu_server_lib.Base.Outcome.{returned}
use jian_yu_server_lib.Strings.{Str}
use package.jian_yu_server_lib.Aes.{
  pkcs7_padding, pkcs5_un_padding, pkcs7_un_padding, last_byte, cut,
}

get_elem?-append : (xs ys : Str) (i : ℕ) → get_elem? (xs ++ ys) (length xs + i) ≡ get_elem? ys i
get_elem?-append [] ys i = ap (get_elem? ys) (omega arith)
get_elem?-append (x ∷ xs) ys i =
    let next : suc (length xs) + i ≡ suc (length xs + i) = omega arith in
    ap (get_elem? (x ∷ (xs ++ ys))) next ∙ get_elem?-append xs ys i

get_elem?-replicate : (n i a : ℕ) → i < n → get_elem? (replicate n a) i ≡ some a
get_elem?-replicate zero i a h = absurd (omega arith)
get_elem?-replicate (suc n) zero a h = refl
get_elem?-replicate (suc n) (suc i) a h = get_elem?-replicate n i a (ground arith)

length-padded : (s : Str) (n a : ℕ) → length (s ++ replicate n a) ≡ length s + n
length-padded s n a = omega (arith, length-append s (replicate n a), length-replicate n a)

-- The last byte of a padded text is the padding's.
last_byte-padded : (s : Str) (n a : ℕ) → 1 ≤ n → last_byte (s ++ replicate n a) ≡ returned a
last_byte-padded s n a pos =
    let at : get_elem? (s ++ replicate n a) (length (s ++ replicate n a) - 1) ≡ some a =
      ap (get_elem? (s ++ replicate n a)) (omega (arith, length-padded s n a))
      ∙ (get_elem?-append s (replicate n a) (n - 1)
          ∙ get_elem?-replicate n (n - 1) a (omega arith)) in
    rw (last_byte, at) refl

take-padded : (s : Str) (n a : ℕ) → take (length (s ++ replicate n a) - n) (s ++ replicate n a) ≡ s
take-padded s n a =
    let rest : length (s ++ replicate n a) - n ≡ length s = omega (arith, length-padded s n a) in
    rw (rest, take-append_length s (replicate n a)) refl

not_short : (s : Str) (n a : ℕ) → ltb (length (s ++ replicate n a)) n ≡ false
not_short s n a = ground (arith, length-padded s n a)

cut-padded : (s : Str) (n a : ℕ) → cut (s ++ replicate n a) n ≡ returned s
cut-padded s n a = rw (cut, not_short s n a, take-padded s n a) refl

-- Padding to blocks of 16 bytes fills up the last block, with at least one byte.
pub length-pkcs7_padding :
    (s : Str) → (length (pkcs7_padding s 16) % 16 ≡ 0) × (length s < length (pkcs7_padding s 16))
unfolding pkcs7_padding
length-pkcs7_padding s =
    ground (arith, length-padded s (16 - length s % 16) ((16 - length s % 16) % 256))

padding_byte : (s : Str) → (16 - length s % 16) % 256 ≡ 16 - length s % 16
padding_byte s = omega arith

pub pkcs7_un_padding-padding : (s : Str) → pkcs7_un_padding (pkcs7_padding s 16) ≡ returned s
unfolding pkcs7_un_padding pkcs7_padding
pkcs7_un_padding-padding s =
    let n = 16 - length s % 16 in
    rw (padding_byte s, last_byte-padded s n n (omega arith)) (cut-padded s n n)

pub pkcs5_un_padding-padding : (s : Str) → pkcs5_un_padding (pkcs7_padding s 16) ≡ returned s
unfolding pkcs5_un_padding pkcs7_padding
pkcs5_un_padding-padding s =
    let n = 16 - length s % 16 in
    rw (padding_byte s, last_byte-padded s n n (omega arith), not_short s n n)
      (ap returned (take-padded s n n))
