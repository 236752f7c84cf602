-- ===== src/Config/Fallbacks.antt =====
-- The addresses that ConfigureWithViper derives.
use jian_yu_server_lib.Base.{◌≡◌, ◌≢◌, ◌⊎◌, inl, inr, Bool-cases, false, [], ◌++◌, arith}
use jian_yu_server_lib.Strings.{Str, str, str_eq, is_blank}
use jian_yu_server_lib.Strings.Blank.{not-is_blank}
use jian_yu_server_lib.Strings.Laws.{str_eq_iff}
use package.jian_yu_server_lib.Config.Viper.{Viper}
use package.jian_yu_server_lib.Config.Constants.{file_service_minio}
use package.jian_yu_server_lib.Config.Services.{MinioConfig}
use package.jian_yu_server_lib.Config.Types.{Config}
use package.jian_yu_server_lib.Config.Urls.{or_else, configure_external, configure_minio}
use package.jian_yu_server_lib.Config.Configure.{configure_with_viper}

http_present : (rest : Str) → is_blank (str "http://" ++ rest) ≡ false
unfolding str
http_present rest = not-is_blank b'h' (omega arith) (omega arith) [] _

web_present : (base : Str) → is_blank (base ++ str "/web") ≡ false
unfolding str
web_present base = not-is_blank b'/' (omega arith) (omega arith) base _

v1_present : (base : Str) → is_blank (base ++ str "/v1") ≡ false
unfolding str
v1_present base = not-is_blank b'/' (omega arith) (omega arith) base _

or_else-present :
    (x fallback : Str) → is_blank fallback ≡ false → is_blank (or_else x fallback) ≡ false
or_else-present x fallback h = ground arith

minio_url_present :
    (v : Viper) (ip file_service : Str) (s : MinioConfig)
    → file_service ≡ file_service_minio
    → is_blank (configure_minio v file_service ip s).url ≡ false
unfolding configure_minio
minio_url_present v ip file_service s e =
    ground (arith, str_eq_iff file_service file_service_minio, http_present (ip ++ str ":9000"))

minio_present :
    (v : Viper) (ip file_service : Str) (s : MinioConfig)
    → file_service ≡ file_service_minio
    → (is_blank (configure_minio v file_service ip s).url ≡ false)
      × (is_blank (configure_minio v file_service ip s).upload_url ≡ false)
      × (is_blank (configure_minio v file_service ip s).download_url ≡ false)
unfolding configure_minio
minio_present v ip file_service s e =
    let url = minio_url_present v ip file_service s e in
    (url, or_else-present _ _ url, or_else-present _ _ url)

minio_or_other :
    (v : Viper) (ip file_service : Str) (s : MinioConfig)
    → (file_service ≢ file_service_minio)
      ⊎ ((is_blank (configure_minio v file_service ip s).url ≡ false)
          × (is_blank (configure_minio v file_service ip s).upload_url ≡ false)
          × (is_blank (configure_minio v file_service ip s).download_url ≡ false))
minio_or_other v ip file_service s = elim (Bool-cases (str_eq file_service file_service_minio)) [
  | inl e ↦ inr (minio_present v ip file_service s ((str_eq_iff _ _).0 e))
  | inr e ↦ inl (λ same. ground (arith, str_eq_iff file_service file_service_minio))
]

-- After ConfigureWithViper the BaseURL, H5BaseURL, APIBaseURL and WebLoginURL of External are not
-- blank, whatever was configured, and with minio as the file service none of minio's three addresses
-- is.
pub addresses_present :
    (v : Viper) (intranet_ip : Str) (c c' : Config)
    → c' ≡ configure_with_viper v intranet_ip c
    → (is_blank c'.external.base_url ≡ false)
      × (is_blank c'.external.h5_base_url ≡ false)
      × (is_blank c'.external.api_base_url ≡ false)
      × (is_blank c'.external.web_login_url ≡ false)
      × ((c'.file_service ≢ file_service_minio)
          ⊎ ((is_blank c'.minio.url ≡ false)
              × (is_blank c'.minio.upload_url ≡ false)
              × (is_blank c'.minio.download_url ≡ false)))
unfolding configure_with_viper configure_external configure_minio
addresses_present v intranet_ip c c' e = rw e (
  or_else-present _ _ (http_present _),
  or_else-present _ _ (web_present _),
  or_else-present _ _ (v1_present _),
  or_else-present _ _ (http_present _),
  minio_or_other v _ _ c.minio,
)
