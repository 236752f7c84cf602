-- ===== src/Aes/RoundTrip.antt =====
-- What is encrypted is decrypted to the same bytes.
use jian_yu_server_lib.Base.{
  ◌%◌, ◌<◌, ◌≡◌, refl, ap, ◌∙◌, sym, true, false, ◌++◌, length-append, take-append_length, arith,
  length, ltb, take,
}
use jian_yu_server_lib.Base.Outcome.{Outcome, returned}
use jian_yu_server_lib.Strings.{Str}
use package.jian_yu_server_lib.Aes.{
  Cbc, Base64, ok, is_key, with_key, blocks, pkcs7_padding, pkcs5_un_padding, pkcs7_un_padding,
  aes_encrypt_pkcs5, aes_encrypt_pkcs7, aes_decrypt_pkcs5, aes_decrypt_pkcs7,
  aes_encrypt_pkcs7_base64, aes_decrypt_pkcs7_base64, aes_encrypt, aes_decrypt, iv_of, ase_encrypt,
  crypt_aes_decrypt,
}
use package.jian_yu_server_lib.Aes.Padding.{
  length-pkcs7_padding, pkcs5_un_padding-padding, pkcs7_un_padding-padding,
}

module _ (cbc : Cbc) (key iv : Str) (good_key : is_key key ≡ true) (good_iv : length iv ≡ 16) where
  -- The encryption of some bytes.
  abbrev crypted : Str → Str
  crypted s = cbc.encrypt key iv (pkcs7_padding s 16)

  blocks_of_whole :
      (crypt : Str → Str → Str → Str) (s : Str)
      → length s % 16 ≡ 0
      → blocks cbc crypt key iv s ≡ returned (crypt key iv s)
  blocks_of_whole crypt s whole = rw (blocks, good_iv, whole) refl

  aes_encrypt_lem : (s : Str) → aes_encrypt cbc s key iv pkcs7_padding ≡ returned (ok (crypted s))
  aes_encrypt_lem s =
      rw
        (
          aes_encrypt,
          with_key,
          good_key,
          blocks_of_whole cbc.encrypt (pkcs7_padding s 16) (length-pkcs7_padding s).0,
        )
        refl

  crypted_whole : (s : Str) → length (crypted s) % 16 ≡ 0
  crypted_whole s =
      rw (cbc.length-encrypt key iv (pkcs7_padding s 16) (length-pkcs7_padding s).0)
        (length-pkcs7_padding s).0

  aes_decrypt-crypted :
      (un_padding_func : Str → Outcome Str) (s : Str)
      → un_padding_func (pkcs7_padding s 16) ≡ returned s
      → aes_decrypt cbc (crypted s) key iv un_padding_func ≡ returned (ok s)
  aes_decrypt-crypted un_padding_func s h =
      rw
        (
          aes_decrypt,
          with_key,
          good_key,
          blocks_of_whole cbc.decrypt (crypted s) (crypted_whole s),
          cbc.decrypt-encrypt key iv (pkcs7_padding s 16) good_key good_iv
              (length-pkcs7_padding s).0,
          h,
        )
        refl

  -- With a key of 16, 24 or 32 bytes and an initial vector of 16 bytes, any bytes can be encrypted,
  -- with either padding and as base64, and are decrypted to what they were; the encryption is longer
  -- than they are.
  pub aes_round_trip :
      (base64 : Base64) (s : Str)
      → (c : Str) × (aes_encrypt_pkcs5 cbc s key iv ≡ returned (ok c))
        × (length s < length c)
        × (aes_decrypt_pkcs5 cbc c key iv ≡ returned (ok s))
        × (aes_encrypt_pkcs7 cbc s key iv ≡ returned (ok c))
        × (aes_decrypt_pkcs7 cbc c key iv ≡ returned (ok s))
        × (aes_encrypt_pkcs7_base64 cbc base64 s key iv ≡ returned (ok (base64.encode c)))
        × (aes_decrypt_pkcs7_base64 cbc base64 (base64.encode c) key iv ≡ returned (ok s))
  aes_round_trip base64 s = (
    crypted s,
    aes_encrypt_lem s,
    rw (cbc.length-encrypt key iv (pkcs7_padding s 16) (length-pkcs7_padding s).0)
        (length-pkcs7_padding s).1,
    aes_decrypt-crypted pkcs5_un_padding s (pkcs5_un_padding-padding s),
    aes_encrypt_lem s,
    aes_decrypt-crypted pkcs7_un_padding s (pkcs7_un_padding-padding s),
    rw (aes_encrypt_pkcs7_base64, aes_encrypt_lem s) refl,
    rw (aes_decrypt_pkcs7_base64, base64.decode-encode (crypted s))
        (aes_decrypt-crypted pkcs7_un_padding s (pkcs7_un_padding-padding s)),
  )

  iv_of_lem : (more : Str) → iv_of (iv ++ more) ≡ returned iv
  iv_of_lem more =
      let long : ltb (length (iv ++ more)) 16 ≡ false =
        ground (arith, length-append iv more, good_iv) in
      let front : take 16 (iv ++ more) ≡ iv =
        ap (λ n. take n (iv ++ more)) (sym good_iv) ∙ take-append_length iv more in
      rw (iv_of, long, front) refl

  -- With a key of 16, 24 or 32 bytes and an initial vector of 16 bytes or more, of which they use the
  -- first 16, the two functions of pkg/util/crypt decrypt what they encrypted.
  pub crypt_round_trip :
      (base64 : Base64) (s more : Str)
      → (c : Str) × (ase_encrypt cbc base64 s key (iv ++ more) ≡ returned (ok c))
        × (crypt_aes_decrypt cbc base64 c key (iv ++ more) ≡ returned (ok s))
  crypt_round_trip base64 s more = (
    base64.encode (crypted s),
    rw
        (
          ase_encrypt,
          with_key,
          good_key,
          iv_of_lem more,
          blocks_of_whole cbc.encrypt (pkcs7_padding s 16) (length-pkcs7_padding s).0,
        )
        refl,
    rw
        (
          crypt_aes_decrypt,
          base64.decode-encode (crypted s),
          with_key,
          good_key,
          iv_of_lem more,
          blocks_of_whole cbc.decrypt (crypted s) (crypted_whole s),
          cbc.decrypt-encrypt key iv (pkcs7_padding s 16) good_key good_iv
              (length-pkcs7_padding s).0,
          pkcs7_un_padding-padding s,
        )
        refl,
  )
