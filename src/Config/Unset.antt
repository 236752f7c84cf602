-- ===== src/Config/Unset.antt =====
-- What ConfigureWithViper leaves as it is.
use jian_yu_server_lib.Base.{Bool, ◌≡◌, refl, none, false, ◌&&◌, [], ◌++◌, if◌then◌else◌}
use jian_yu_server_lib.Base.Int.{ℤ, pos}
use jian_yu_server_lib.Strings.{Str, str, str_eq, is_blank}
use package.jian_yu_server_lib.Config.Viper.{
  Viper, get_string, get_int, get_int64, get_duration, get_bool, bool_at,
}
use package.jian_yu_server_lib.Config.Constants.{debug_mode, file_service_minio}
use package.jian_yu_server_lib.Config.Types.{Config}
use package.jian_yu_server_lib.Config.Urls.{or_else, configure_external, configure_minio}
use package.jian_yu_server_lib.Config.Log.{log_level, log_dir, configure_log}
use package.jian_yu_server_lib.Config.Configure.{welcome, configure_with_viper}
use package.jian_yu_server_lib.Config.Plain.{
  configure_sass, configure_db, configure_cluster, configure_cache, configure_account,
  configure_wukong_im, configure_avatar, configure_short_no, configure_robot, configure_gitee,
  configure_github, configure_owt, configure_livekit, configure_register, configure_organization,
  configure_friend, configure_zinc_search, configure_group, configure_message, configure_wechat,
  configure_tracing, configure_support,
}
use package.jian_yu_server_lib.Config.PlainServices.{
  configure_oss, configure_seaweed, configure_qiniu, configure_uni_sms, configure_aliyun_sms,
  configure_aliyun_international_sms, configure_jd_sms, configure_smsbao, configure_push_apns,
  configure_push_mi, configure_push_hms, configure_push_vivo, configure_push_oppo,
  configure_push_firebase,
}

-- Where a viper object has no value for any key.
module _ (v : Viper) (no_string : (k : Str) → v.string_at k ≡ [])
    (no_int : (k : Str) → v.int_at k ≡ pos 0) (no_int64 : (k : Str) → v.int64_at k ≡ pos 0)
    (no_duration : (k : Str) → v.duration_at k ≡ pos 0)
    (no_value : (k : Str) → v.get k ≡ none) where
  get_string-unset : (k d : Str) → get_string v k d ≡ d
  unfolding get_string str_eq
  get_string-unset k d = rw (no_string k) refl

  get_int-unset : (k : Str) (d : ℤ) → get_int v k d ≡ d
  unfolding get_int
  get_int-unset k d = rw (no_int k) refl

  get_int64-unset : (k : Str) (d : ℤ) → get_int64 v k d ≡ d
  unfolding get_int64
  get_int64-unset k d = rw (no_int64 k) refl

  get_duration-unset : (k : Str) (d : ℤ) → get_duration v k d ≡ d
  unfolding get_duration
  get_duration-unset k d = rw (no_duration k) refl

  get_bool-unset : (k : Str) (d : Bool) → get_bool v k d ≡ d
  unfolding get_bool
  get_bool-unset k d = rw (no_value k, get_bool) refl

  bool_at-unset : (k : Str) → bool_at v k ≡ false
  unfolding bool_at
  bool_at-unset k = rw (no_value k, bool_at) refl

  -- A viper object without values leaves the configuration as it is, but for the mode, which becomes
  -- debug, the prefix of the address of grpc, the name in the welcome message, the logger, and the
  -- addresses that are derived where they are blank.
  pub configure-unset :
      (intranet_ip : Str) (c : Config)
      → configure_with_viper v intranet_ip c ≡ record c {
        mode = debug_mode;
        grpc_addr = str "0.0.0.0" ++ c.grpc_addr;
        welcome_message = welcome c.welcome_message c.app_name;
        external =
            let ip = or_else c.external.ip intranet_ip in
            let base_url = or_else c.external.base_url (str "http://" ++ (ip ++ str ":8090")) in
            record {
              ip = ip;
              base_url = base_url;
              h5_base_url = or_else c.external.h5_base_url (base_url ++ str "/web");
              api_base_url = or_else c.external.api_base_url (base_url ++ str "/v1");
              web_login_url = or_else c.external.web_login_url (str "http://" ++ (ip ++ str ":82"));
            };
        logger = record {
          dir = log_dir [] c.root_dir;
          level = log_level (pos 0) debug_mode;
          line_num = false;
        };
        minio =
            let url =
              if str_eq c.file_service file_service_minio && is_blank c.minio.url
              then str "http://" ++ (or_else c.external.ip intranet_ip ++ str ":9000")
              else c.minio.url in
            record c.minio {
              url = url;
              upload_url = or_else c.minio.upload_url url;
              download_url = or_else c.minio.download_url url;
            };
      }
  unfolding configure_with_viper configure_external configure_minio configure_log configure_sass
      configure_db configure_cluster configure_cache configure_account configure_wukong_im
      configure_avatar configure_short_no configure_robot configure_gitee configure_github
      configure_owt configure_livekit configure_register configure_organization configure_friend
      configure_zinc_search configure_group configure_message configure_wechat configure_tracing
      configure_support configure_oss configure_seaweed configure_qiniu configure_uni_sms
      configure_aliyun_sms configure_aliyun_international_sms configure_jd_sms configure_smsbao
      configure_push_apns configure_push_mi configure_push_hms configure_push_vivo
      configure_push_oppo configure_push_firebase
  configure-unset intranet_ip c = simp (
    no_string, no_int, get_string-unset, get_int-unset, get_int64-unset, get_duration-unset,
    get_bool-unset, bool_at-unset,
  )

-- Whatever is configured, the most members of a call on livekit, the database of ip addresses, the
-- counts of the partitions, the prefix of visitors and the address of elasticsearch stay as they
-- were, and so do addresses of the pages and the api that are not blank; blank ones are derived.
pub not_configurable :
    (v : Viper) (intranet_ip : Str) (c c' : Config)
    → c' ≡ configure_with_viper v intranet_ip c
    → (c'.livekit.room_max_count ≡ c.livekit.room_max_count)
      × (c'.ip2region ≡ c.ip2region)
      × (c'.table_partition_config ≡ c.table_partition_config)
      × (c'.visitor_uid_prefix ≡ c.visitor_uid_prefix)
      × (c'.elasticsearch_url ≡ c.elasticsearch_url)
      × (c'.external.h5_base_url
          ≡ or_else c.external.h5_base_url (c'.external.base_url ++ str "/web"))
      × (c'.external.api_base_url
          ≡ or_else c.external.api_base_url (c'.external.base_url ++ str "/v1"))
unfolding configure_with_viper configure_external configure_livekit
not_configurable v intranet_ip c c' e = rw e (refl, refl, refl, refl, refl, refl, refl)
