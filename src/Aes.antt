-- ===== src/Aes.antt =====
-- pkg/util/aes.go and pkg/util/crypt/aes.go: AES in CBC mode with padding. The cipher of the standard
-- library and its base64 are parameters.
pub mod Padding
pub mod RoundTrip
mod Tests
use jian_yu_server_lib.Base.{
  ℕ, ◌+◌, ◌-◌, ◌%◌, ◌≡◌, Bool, true, ◌||◌, ◌&&◌, Option, none, some, List, [], ◌∷◌, ◌++◌, ltb, ◌==◌,
  if◌then◌else◌, length, get_elem?, take, replicate,
}
use jian_yu_server_lib.Base.Outcome.{Outcome, returned, panicked, ◌>>=◌}
use jian_yu_server_lib.Strings.{Str, str}

-- Keys of 16, 24 and 32 bytes; aes.NewCipher refuses others.
abbrev pub is_key : Str → Bool
is_key key = (length key == 16) || ((length key == 24) || (length key == 32))

-- CBC over whole blocks of 16 bytes: decryption undoes encryption, and both keep the length.
pub record Cbc : Type 0 where
  pub encrypt : Str → Str → Str → Str
  pub decrypt : Str → Str → Str → Str
  pub decrypt-encrypt :
      (key iv plain : Str)
      → is_key key ≡ true
      → length iv ≡ 16
      → length plain % 16 ≡ 0
      → decrypt key iv (encrypt key iv plain) ≡ plain
  pub length-encrypt :
      (key iv plain : Str) → length plain % 16 ≡ 0 → length (encrypt key iv plain) ≡ length plain

pub record Base64 : Type 0 where
  pub encode : Str → Str
  pub decode : Str → Option Str
  pub decode-encode : (s : Str) → decode (encode s) ≡ some s

pub data AesResult : Type 0 where
  key_size corrupt_input : AesResult
  ok : Str → AesResult

-- A Go call that panics or returns bytes and an error.
abbrev pub then_ok : Outcome AesResult → (Str → Outcome AesResult) → Outcome AesResult
then_ok panicked k = panicked
then_ok (returned (ok s)) k = k s
then_ok (returned e) k = returned e

-- What follows aes.NewCipher, or its error.
abbrev pub with_key : Str → Outcome AesResult → Outcome AesResult
with_key key rest = if is_key key then rest else returned key_size

-- PKCS5Padding and PKCS7Padding
unfoldable pub pkcs7_padding : Str → ℕ → Str
pkcs7_padding plain block_size =
    let padding = block_size - length plain % block_size in
    plain ++ replicate padding (padding % 256)

-- `data[len(data)-1]`
abbrev pub last_byte : Str → Outcome ℕ
last_byte plain = elim (get_elem? plain (length plain - 1)) [
  | none ↦ panicked
  | some n ↦ returned n
]

abbrev pub cut : Str → ℕ → Outcome Str
cut plain n = if ltb (length plain) n then panicked else returned (take (length plain - n) plain)

-- PKCS5UnPadding
unfoldable pub pkcs5_un_padding : Str → Outcome Str
pkcs5_un_padding plain = do
  un_padding ← last_byte plain
  if ltb (length plain) un_padding then returned (str "unpadding error") else cut plain un_padding

-- PKCS7UnPadding
unfoldable pub pkcs7_un_padding : Str → Outcome Str
pkcs7_un_padding plain = do un_padding ← last_byte plain; cut plain un_padding

-- `newIV[:blockSize]`
abbrev pub iv_of : Str → Outcome Str
iv_of new_iv = if ltb (length new_iv) 16 then panicked else returned (take 16 new_iv)

module _ (cbc : Cbc) where
  -- NewCBCEncrypter, NewCBCDecrypter and CryptBlocks panic at another size.
  abbrev pub blocks : (Str → Str → Str → Str) → Str → Str → Str → Outcome Str
  blocks crypt key iv plain =
      if (length iv == 16) && (length plain % 16 == 0)
      then returned (crypt key iv plain)
      else panicked

  -- AesEncrypt
  abbrev pub aes_encrypt : Str → Str → Str → (Str → ℕ → Str) → Outcome AesResult
  aes_encrypt plain key iv padding_func =
      with_key key
        (blocks cbc.encrypt key iv (padding_func plain 16) >>= λ crypted. returned (ok crypted))

  -- AesDecrypt
  abbrev pub aes_decrypt : Str → Str → Str → (Str → Outcome Str) → Outcome AesResult
  aes_decrypt crypted key iv un_padding_func = with_key key (
      blocks cbc.decrypt key iv crypted >>= λ padded.
      un_padding_func padded >>= λ plain. returned (ok plain))

  -- AesEncryptPkcs5
  abbrev pub aes_encrypt_pkcs5 : Str → Str → Str → Outcome AesResult
  aes_encrypt_pkcs5 plain key iv = aes_encrypt plain key iv pkcs7_padding

  -- AesEncryptPkcs7
  abbrev pub aes_encrypt_pkcs7 : Str → Str → Str → Outcome AesResult
  aes_encrypt_pkcs7 plain key iv = aes_encrypt plain key iv pkcs7_padding

  -- AesDecryptPkcs5
  abbrev pub aes_decrypt_pkcs5 : Str → Str → Str → Outcome AesResult
  aes_decrypt_pkcs5 crypted key iv = aes_decrypt crypted key iv pkcs5_un_padding

  -- AesDecryptPkcs7
  abbrev pub aes_decrypt_pkcs7 : Str → Str → Str → Outcome AesResult
  aes_decrypt_pkcs7 crypted key iv = aes_decrypt crypted key iv pkcs7_un_padding

  -- AesDecryptSimple
  abbrev pub aes_decrypt_simple : Str → Str → Str → Outcome AesResult
  aes_decrypt_simple = aes_decrypt_pkcs5

  -- AesEncryptSimple
  abbrev pub aes_encrypt_simple : Str → Str → Str → Outcome AesResult
  aes_encrypt_simple = aes_decrypt_pkcs5

  module _ (base64 : Base64) where
    -- AesEncryptPkcs7Base64
    abbrev pub aes_encrypt_pkcs7_base64 : Str → Str → Str → Outcome AesResult
    aes_encrypt_pkcs7_base64 plain key iv =
        then_ok (aes_encrypt plain key iv pkcs7_padding)
          (λ crypted. returned (ok (base64.encode crypted)))

    -- AesDecryptPkcs7Base64
    abbrev pub aes_decrypt_pkcs7_base64 : Str → Str → Str → Outcome AesResult
    aes_decrypt_pkcs7_base64 crypted key iv = elim (base64.decode crypted) [
      | none ↦ returned corrupt_input
      | some plain ↦ aes_decrypt plain key iv pkcs7_un_padding
    ]

    -- AseEncrypt of pkg/util/crypt
    abbrev pub ase_encrypt : Str → Str → Str → Outcome AesResult
    ase_encrypt str new_key new_iv = with_key new_key (
        iv_of new_iv >>= λ iv. blocks cbc.encrypt new_key iv (pkcs7_padding str 16) >>= λ dst.
        returned (ok (base64.encode dst)))

    -- AesDecrypt of pkg/util/crypt
    abbrev pub crypt_aes_decrypt : Str → Str → Str → Outcome AesResult
    crypt_aes_decrypt str new_key new_iv = elim (base64.decode str) [
      | none ↦ returned corrupt_input
      | some decoded ↦ with_key new_key (
          iv_of new_iv >>= λ iv. blocks cbc.decrypt new_key iv decoded >>= λ padded.
          pkcs7_un_padding padded >>= λ plain. returned (ok plain))
    ]
