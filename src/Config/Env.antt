-- ===== src/Config/Env.antt =====
-- The helpers of config/config.go that read environment variables; `env` is os.Getenv.
use jian_yu_server_lib.Base.{Bool, [], if◌then◌else◌}
use jian_yu_server_lib.Base.Int.{ℤ}
use jian_yu_server_lib.Strings.{Str, str, str_eq, is_blank}
use jian_yu_server_lib.Strings.Parse.{parse_int}

module _ (env : Str → Str) where
  -- GetEnv
  unfoldable pub get_env : Str → Str → Str
  get_env key default_value = if is_blank (env key) then default_value else env key

  -- GetEnvBool
  unfoldable pub get_env_bool : Str → Bool → Bool
  get_env_bool key default_value =
      if is_blank (env key) then default_value else str_eq (env key) (str "true")

  -- GetEnvInt64; an int has 64 bits, so GetEnvInt is the same. The error of the parser is dropped,
  -- its value kept.
  unfoldable pub get_env_int64 : Str → ℤ → ℤ
  get_env_int64 key default_value =
      if is_blank (env key) then default_value else (parse_int (env key)).value

  -- StringEnv: the new value of the variable that it is given a pointer to.
  unfoldable pub string_env : Str → Str → Str
  string_env v key = if str_eq (env key) [] then v else env key

  -- BoolEnv
  unfoldable pub bool_env : Bool → Str → Bool
  bool_env b key = if is_blank (env key) then b else str_eq (env key) (str "true")
