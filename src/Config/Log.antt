-- ===== src/Config/Log.antt =====
-- Config.configureLog.
use jian_yu_server_lib.Base.{[], ◌∷◌, not, if◌then◌else◌}
use jian_yu_server_lib.Base.Int.{ℤ, pos, negsuc, ◌-ℤ◌, is_zero, to_int8}
use jian_yu_server_lib.Strings.{Str, str, str_eq, has_prefix, is_blank, trim_left}
use jian_yu_server_lib.Strings.Paths.{join_path}
use package.jian_yu_server_lib.Config.Viper.{Viper, bool_at}
use package.jian_yu_server_lib.Config.Constants.{debug_mode}
use package.jian_yu_server_lib.Config.Groups.{LoggerSettings}

-- zapcore.DebugLevel, zapcore.InfoLevel
abbrev pub debug_level : ℤ
debug_level = negsuc 0

abbrev pub info_level : ℤ
info_level = pos 0

-- The level, of the configured number and the mode.
unfoldable pub log_level : ℤ → Str → ℤ
unfolding to_int8 ◌-ℤ◌
log_level number mode = to_int8 (
    if is_zero number
    then (if str_eq mode debug_mode then debug_level else info_level)
    else number -ℤ pos 2)

-- The directory, of the configured text and the root directory. Only white space at the front
-- matters to the prefix of the trimmed text, a slash being none.
unfoldable pub log_dir : Str → Str → Str
unfolding join_path
log_dir text root_dir =
    let dir = if is_blank text then str "logs" else text in
    if not (has_prefix (trim_left dir 0) (b'/' ∷ [])) then join_path root_dir dir else dir

-- configureLog, which reads nothing of the old settings.
unfoldable pub configure_log : Viper → Str → Str → LoggerSettings
configure_log v mode root_dir = record {
  dir = log_dir (v.string_at (str "logger.dir")) root_dir;
  level = log_level (v.int_at (str "logger.level")) mode;
  line_num = bool_at v (str "logger.lineNum");
}
