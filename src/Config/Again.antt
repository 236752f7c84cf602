-- ===== src/Config/Again.antt =====
-- Reading the settings from one viper object a second time.
use jian_yu_server_lib.Base.{Bool, ◌&&◌, ◌++◌, if◌then◌else◌, ◌≡◌, arith}
use jian_yu_server_lib.Base.Int.{ℤ}
use jian_yu_server_lib.Strings.{Str, str, is_blank}
use package.jian_yu_server_lib.Config.Types.{Config}
use package.jian_yu_server_lib.Config.Urls.{or_else, configure_external, configure_minio}
use package.jian_yu_server_lib.Config.Log.{configure_log}
use package.jian_yu_server_lib.Config.Configure.{welcome, configure_with_viper}
use package.jian_yu_server_lib.Config.Plain.{
  configure_sass, configure_db, configure_cluster, configure_cache, configure_account,
  configure_wukong_im, configure_avatar, configure_short_no, configure_robot, configure_gitee,
  configure_github, configure_owt, configure_livekit, configure_register, configure_organization,
  configure_friend, configure_zinc_search, configure_group, configure_message, configure_wechat,
  configure_tracing, configure_support,
}
use package.jian_yu_server_lib.Config.PlainServices.{
  configure_oss, configure_seaweed, configure_qiniu, configure_uni_sms, configure_aliyun_sms,
  configure_aliyun_international_sms, configure_jd_sms, configure_smsbao, configure_push_apns,
  configure_push_mi, configure_push_hms, configure_push_vivo, configure_push_oppo,
  configure_push_firebase,
}
use package.jian_yu_server_lib.Config.Viper.{
  Viper, get_string, get_int, get_int64, get_duration, get_bool,
}

pub get_string_twice :
    (v : Viper) (k d : Str) → get_string v k (get_string v k d) ≡ get_string v k d
unfolding get_string
get_string_twice v k d = ground arith

pub get_int_twice : (v : Viper) (k : Str) (d : ℤ) → get_int v k (get_int v k d) ≡ get_int v k d
unfolding get_int
get_int_twice v k d = ground arith

pub get_int64_twice :
    (v : Viper) (k : Str) (d : ℤ) → get_int64 v k (get_int64 v k d) ≡ get_int64 v k d
unfolding get_int64
get_int64_twice v k d = ground arith

pub get_duration_twice :
    (v : Viper) (k : Str) (d : ℤ) → get_duration v k (get_duration v k d) ≡ get_duration v k d
unfolding get_duration
get_duration_twice v k d = ground arith

pub get_bool_twice :
    (v : Viper) (k : Str) (d : Bool) → get_bool v k (get_bool v k d) ≡ get_bool v k d
unfolding get_bool
get_bool_twice v k d = ground arith

-- Reading an address with a fallback again.
or_else_twice :
    (v : Viper) (k d fallback : Str)
    → or_else (get_string v k (or_else (get_string v k d) fallback)) fallback
      ≡ or_else (get_string v k d) fallback
unfolding get_string
or_else_twice v k d fallback = ground arith

or_else_again : (d fallback : Str) → or_else (or_else d fallback) fallback ≡ or_else d fallback
or_else_again d fallback = ground arith

minio_url_twice :
    (v : Viper) (k d fallback : Str) (b : Bool)
    → (if b
          && is_blank (
              get_string v k
                (if b && is_blank (get_string v k d) then fallback else get_string v k d))
        then fallback
        else get_string v k
            (if b && is_blank (get_string v k d) then fallback else get_string v k d))
      ≡ (if b && is_blank (get_string v k d) then fallback else get_string v k d)
unfolding get_string
minio_url_twice v k d fallback b = ground arith

ruleset settings_twice = (
  get_string_twice, get_int_twice, get_int64_twice, get_duration_twice, get_bool_twice,
  or_else_twice, or_else_again, minio_url_twice,
)

-- Configuring again from the same viper object and address changes nothing but the address of grpc,
-- which gets the prefix once more where it is not set, and the welcome message, in which the name is
-- put in again.
pub configure_again :
    (v : Viper) (intranet_ip : Str) (c c' : Config)
    → c' ≡ configure_with_viper v intranet_ip c
    → configure_with_viper v intranet_ip c' ≡ record c' {
      grpc_addr = get_string v (str "server.grpc.port") (str "0.0.0.0" ++ c'.grpc_addr);
      welcome_message =
          welcome (get_string v (str "welcomeMessage") c'.welcome_message) c'.app_name;
    }
unfolding configure_with_viper configure_external configure_minio configure_log configure_sass
    configure_db configure_cluster configure_cache configure_account configure_wukong_im
    configure_avatar configure_short_no configure_robot configure_gitee configure_github
    configure_owt configure_livekit configure_register configure_organization configure_friend
    configure_zinc_search configure_group configure_message configure_wechat configure_tracing
    configure_support configure_oss configure_seaweed configure_qiniu configure_uni_sms
    configure_aliyun_sms configure_aliyun_international_sms configure_jd_sms configure_smsbao
    configure_push_apns configure_push_mi configure_push_hms configure_push_vivo configure_push_oppo
    configure_push_firebase
configure_again v intranet_ip c c' e = rw e (simp settings_twice)
