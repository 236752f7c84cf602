-- ===== src/Aes/Tests.antt =====
-- The theorems at a cipher that changes nothing and at plain text for base64.
use jian_yu_server_lib.Base.{◌<◌, ◌≡◌, refl, some, [], ◌∷◌, length, replicate}
use jian_yu_server_lib.Base.Outcome.{returned, panicked}
use jian_yu_server_lib.Strings.{Str, str}
use package.jian_yu_server_lib.Aes.{
  Cbc, Base64, ok, pkcs5_un_padding, pkcs7_un_padding, aes_encrypt_pkcs5, aes_decrypt_pkcs5,
  aes_encrypt_pkcs7, aes_decrypt_pkcs7, aes_encrypt_pkcs7_base64, aes_decrypt_pkcs7_base64,
}
use package.jian_yu_server_lib.Aes.RoundTrip.{aes_round_trip}

abbrev identity : Cbc
identity = record {
  encrypt = λ key iv s. s;
  decrypt = λ key iv s. s;
  decrypt-encrypt = λ key iv s k i w. refl;
  length-encrypt = λ key iv s w. refl;
}

abbrev plain_text : Base64
plain_text = record { encode = λ s. s; decode = λ s. some s; decode-encode = λ s. refl }

abbrev secret : Str
secret = replicate 16 7

abbrev hi : Str
hi = b'h' ∷ b'i' ∷ []

aes_round_trip_example :
    (c : Str) × (aes_encrypt_pkcs5 identity hi secret secret ≡ returned (ok c))
    × (2 < length c)
    × (aes_decrypt_pkcs5 identity c secret secret ≡ returned (ok hi))
    × (aes_encrypt_pkcs7 identity hi secret secret ≡ returned (ok c))
    × (aes_decrypt_pkcs7 identity c secret secret ≡ returned (ok hi))
    × (aes_encrypt_pkcs7_base64 identity plain_text hi secret secret ≡ returned (ok c))
    × (aes_decrypt_pkcs7_base64 identity plain_text c secret secret ≡ returned (ok hi))
aes_round_trip_example = aes_round_trip identity secret secret refl refl plain_text hi

-- A wrong last byte: the one function gives a text of its own where the other panics.
un_padding_runs :
    (pkcs5_un_padding (1 ∷ 9 ∷ []) ≡ returned (str "unpadding error"))
    × (pkcs7_un_padding (1 ∷ 9 ∷ []) ≡ panicked)
unfolding pkcs5_un_padding pkcs7_un_padding str
un_padding_runs = (refl, refl)
