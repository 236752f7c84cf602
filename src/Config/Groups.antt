-- ===== src/Config/Groups.antt =====
-- The groups of settings in Config, the anonymous structs of config/config.go. Durations are in
-- nanoseconds.
use jian_yu_server_lib.Base.{Bool}
use jian_yu_server_lib.Base.Int.{ℤ}
use jian_yu_server_lib.Strings.{Str}
use package.jian_yu_server_lib.Config.Services.{
  ApnsPush, MiPush, HmsPush, VivoPush, OppoPush, FirebasePush,
}

pub record Sass : Type 0 where
  pub switch : Bool
  pub company_code : Str

pub record External : Type 0 where
  pub ip : Str
  pub base_url : Str
  pub h5_base_url : Str
  pub api_base_url : Str
  pub web_login_url : Str

pub record LoggerSettings : Type 0 where
  pub dir : Str
  pub level : ℤ
  pub line_num : Bool

pub record Db : Type 0 where
  pub mysql_addr : Str
  pub mysql_max_open_conns : ℤ
  pub mysql_max_idle_conns : ℤ
  pub mysql_conn_max_lifetime : ℤ
  pub migration : Bool
  pub redis_addr : Str
  pub redis_pass : Str
  pub asynctask_redis_addr : Str

pub record Cluster : Type 0 where
  pub node_id : ℤ

pub record CacheSettings : Type 0 where
  pub token_cache_prefix : Str
  pub login_device_cache_prefix : Str
  pub login_device_cache_expire : ℤ
  pub uid_token_cache_prefix : Str
  pub friend_apply_token_cache_prefix : Str
  pub friend_apply_expire : ℤ
  pub token_expire : ℤ
  pub name_cache_expire : ℤ

pub record Ip2region : Type 0 where
  pub db_path : Str

pub record Account : Type 0 where
  pub system_uid : Str
  pub file_helper_uid : Str
  pub system_group_id : Str
  pub system_group_name : Str
  pub admin_uid : Str

pub record WukongIm : Type 0 where
  pub api_url : Str
  pub manager_token : Str

pub record Avatar : Type 0 where
  pub default : Str
  pub default_count : ℤ
  pub partition : ℤ
  pub default_base_url : Str

pub record ShortNo : Type 0 where
  pub num_on : Bool
  pub num_len : ℤ
  pub edit_off : Bool

pub record Robot : Type 0 where
  pub message_expire : ℤ
  pub inline_query_timeout : ℤ
  pub event_pool_size : ℤ

pub record Gitee : Type 0 where
  pub oauth_url : Str
  pub client_id : Str
  pub client_secret : Str

pub record Github : Type 0 where
  pub oauth_url : Str
  pub client_id : Str
  pub client_secret : Str

pub record Owt : Type 0 where
  pub url : Str
  pub service_id : Str
  pub service_key : Str
  pub room_max_count : ℤ

pub record Livekit : Type 0 where
  pub off : Bool
  pub url : Str
  pub key : Str
  pub secret : Str
  pub invite_timeout_seconds : ℤ
  pub room_max_count : ℤ

pub record Register : Type 0 where
  pub off : Bool
  pub only_china : Bool
  pub sticker_add_off : Bool
  pub username_on : Bool

pub record Organization : Type 0 where
  pub import_on : Bool

pub record Friend : Type 0 where
  pub added_tips_text : Str

pub record ZincSearch : Type 0 where
  pub search_on : Bool
  pub api_url : Str
  pub zinc_username : Str
  pub zinc_password : Str
  pub sync_interval_second : ℤ
  pub sync_count : ℤ

pub record GroupSettings : Type 0 where
  pub same_day_create_max_count : ℤ
  pub create_group_verify_friend_on : Bool

pub record Push : Type 0 where
  pub content_detail_on : Bool
  pub push_pool_size : ℤ
  pub apns : ApnsPush
  pub mi : MiPush
  pub hms : HmsPush
  pub vivo : VivoPush
  pub oppo : OppoPush
  pub firebase : FirebasePush

pub record MessageSettings : Type 0 where
  pub send_message_on : Bool
  pub sync_readed_count_interval_second : ℤ

pub record Wechat : Type 0 where
  pub app_id : Str
  pub app_secret : Str

pub record Tracing : Type 0 where
  pub on : Bool
  pub addr : Str

pub record Support : Type 0 where
  pub email : Str
  pub email_smtp : Str
  pub email_pwd : Str
