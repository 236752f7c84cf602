-- ===== src/Config/Viper.antt =====
-- config/config.go reads github.com/spf13/viper, which is a parameter, by these functions.
use jian_yu_server_lib.Base.{Bool, false, Option, none, some, [], if◌then◌else◌}
use jian_yu_server_lib.Base.Int.{ℤ, is_zero}
use jian_yu_server_lib.Strings.{Str, str_eq}

-- What a viper object says of each key. Its typed getters return the zero value for a key that is
-- not set; `get` is what cast.ToBool makes of the value, none for a key that is not set.
pub record Viper : Type 0 where
  pub string_at : Str → Str
  pub int_at : Str → ℤ
  pub int64_at : Str → ℤ
  pub duration_at : Str → ℤ
  pub get : Str → Option Bool

-- viper's GetBool is cast.ToBool of Get.
unfoldable pub bool_at : Viper → Str → Bool
bool_at v key = elim (v.get key) [ none ↦ false | some b ↦ b ]

-- getString
unfoldable pub get_string : Viper → Str → Str → Str
get_string v key default_value =
    if str_eq (v.string_at key) [] then default_value else v.string_at key

-- getBool
unfoldable pub get_bool : Viper → Str → Bool → Bool
get_bool v key default_value = elim (v.get key) [ none ↦ default_value | some b ↦ b ]

-- getInt
unfoldable pub get_int : Viper → Str → ℤ → ℤ
get_int v key default_value = if is_zero (v.int_at key) then default_value else v.int_at key

-- getInt64
unfoldable pub get_int64 : Viper → Str → ℤ → ℤ
get_int64 v key default_value = if is_zero (v.int64_at key) then default_value else v.int64_at key

-- getDuration
unfoldable pub get_duration : Viper → Str → ℤ → ℤ
get_duration v key default_value =
    if is_zero (v.duration_at key) then default_value else v.duration_at key
