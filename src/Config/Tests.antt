-- ===== src/Config/Tests.antt =====
-- The default configuration, read with no value and with some.
use jian_yu_server_lib.Base.{◌≢◌, ◌⊎◌, ◌&&◌, ◌≡◌, refl, none, false, [], ◌++◌, if◌then◌else◌}
use jian_yu_server_lib.Base.Int.{pos, negsuc}
use jian_yu_server_lib.Strings.{Str, str, str_eq, is_blank, space_width}
use jian_yu_server_lib.Strings.Replace.{replace_all}
use jian_yu_server_lib.Strings.Paths.{join_path}
use package.jian_yu_server_lib.Config.Viper.{Viper, get_string, bool_at}
use package.jian_yu_server_lib.Config.Constants.{debug_mode, file_service_minio}
use package.jian_yu_server_lib.Config.Types.{Config}
use package.jian_yu_server_lib.Config.Defaults.{new}
use package.jian_yu_server_lib.Config.Urls.{or_else, configure_external, configure_minio}
use package.jian_yu_server_lib.Config.Log.{log_level, log_dir, configure_log}
use package.jian_yu_server_lib.Config.Configure.{welcome, configure_with_viper}
use package.jian_yu_server_lib.Config.Plain.{configure_livekit}
use package.jian_yu_server_lib.Config.Again.{configure_again}
use package.jian_yu_server_lib.Config.Fallbacks.{addresses_present}
use package.jian_yu_server_lib.Config.Unset.{configure-unset}

abbrev no_viper : Viper
no_viper = record {
  string_at = λ k. [];
  int_at = λ k. pos 0;
  int64_at = λ k. pos 0;
  duration_at = λ k. pos 0;
  get = λ k. none;
}

-- The name of the application and the external ip are set.
abbrev small_viper : Viper
small_viper = record {
  string_at = λ k.
      if str_eq k (str "application.appName")
      then str "Jian"
      else if str_eq k (str "external.ip")
      then str "10.0.0.7"
      else [];
  int_at = λ k. pos 0;
  int64_at = λ k. pos 0;
  duration_at = λ k. pos 0;
  get = λ k. none;
}

abbrev intranet_address : Str
intranet_address = str "192.168.0.2"

abbrev no_env : Str → Str
no_env key = []

defaults : Config
defaults = new no_env

configured : Config
configured = configure_with_viper small_viper (str "192.168.0.2") defaults

configure_again_example :
    configure_with_viper small_viper (str "192.168.0.2") configured ≡ record configured {
      grpc_addr =
          get_string small_viper (str "server.grpc.port") (str "0.0.0.0" ++ configured.grpc_addr);
      welcome_message =
          welcome
            (get_string small_viper (str "welcomeMessage") configured.welcome_message)
            configured.app_name;
    }
unfolding configured
configure_again_example = configure_again small_viper (str "192.168.0.2") defaults configured refl

addresses_present_example :
    (is_blank configured.external.base_url ≡ false)
    × (is_blank configured.external.h5_base_url ≡ false)
    × (is_blank configured.external.api_base_url ≡ false)
    × (is_blank configured.external.web_login_url ≡ false)
    × ((configured.file_service ≢ file_service_minio)
        ⊎ ((is_blank configured.minio.url ≡ false)
            × (is_blank configured.minio.upload_url ≡ false)
            × (is_blank configured.minio.download_url ≡ false)))
unfolding configured
addresses_present_example =
    addresses_present small_viper (str "192.168.0.2") defaults configured refl

configure-unset_example :
    configure_with_viper no_viper intranet_address defaults ≡ record defaults {
      mode = debug_mode;
      grpc_addr = str "0.0.0.0" ++ defaults.grpc_addr;
      welcome_message = welcome defaults.welcome_message defaults.app_name;
      external =
          let ip = or_else defaults.external.ip intranet_address in
          let base_url =
            or_else defaults.external.base_url (str "http://" ++ (ip ++ str ":8090")) in
          record {
            ip = ip;
            base_url = base_url;
            h5_base_url = or_else defaults.external.h5_base_url (base_url ++ str "/web");
            api_base_url = or_else defaults.external.api_base_url (base_url ++ str "/v1");
            web_login_url =
                or_else defaults.external.web_login_url (str "http://" ++ (ip ++ str ":82"));
          };
      logger = record {
        dir = log_dir [] defaults.root_dir;
        level = log_level (pos 0) debug_mode;
        line_num = false;
      };
      minio =
          let url =
            if str_eq defaults.file_service file_service_minio && is_blank defaults.minio.url
            then str "http://" ++ (or_else defaults.external.ip intranet_address ++ str ":9000")
            else defaults.minio.url in
          record defaults.minio {
            url = url;
            upload_url = or_else defaults.minio.upload_url url;
            download_url = or_else defaults.minio.download_url url;
          };
    }
configure-unset_example =
    configure-unset no_viper (λ k. refl) (λ k. refl) (λ k. refl) (λ k. refl) (λ k. refl)
      intranet_address defaults

configured_runs :
    (configured.external.base_url ≡ str "http://10.0.0.7:8090")
    × (configured.external.h5_base_url ≡ str "http://10.0.0.7:8090/web")
    × (configured.minio.upload_url ≡ str "http://10.0.0.7:9000")
    × (configured.welcome_message ≡ str "欢迎使用Jian")
    × (configured.grpc_addr ≡ str "0.0.0.0:9009")
    × (configured.logger ≡ record { dir = str "jydata/logs"; level = negsuc 0; line_num = false })
    × (configured.livekit.room_max_count ≡ pos 9)
unfolding configured defaults new configure_with_viper configure_external configure_minio
    configure_log log_level log_dir welcome get_string bool_at str replace_all join_path str_eq
    is_blank space_width configure_livekit
configured_runs = (refl, refl, refl, refl, refl, refl, refl)
