-- ===== src/Config/Types.antt =====
-- type Config of config/config.go, without the viper object that it holds.
use jian_yu_server_lib.Base.{Bool}
use jian_yu_server_lib.Base.Int.{ℤ}
use jian_yu_server_lib.Strings.{Str}
use package.jian_yu_server_lib.Config.Services.{
  OssConfig, MinioConfig, SeaweedConfig, QiniuConfig, UnismsConfig, AliyunSmsConfig,
  AliyunInternationalSmsConfig, JdSmsConfig, SmsbaoConfig, TablePartitionConfig,
}
use package.jian_yu_server_lib.Config.Groups.{
  Sass, External, LoggerSettings, Db, Cluster, CacheSettings, Ip2region, Account, WukongIm, Avatar,
  ShortNo, Robot, Gitee, Github, Owt, Livekit, Register, Organization, Friend, ZincSearch,
  GroupSettings, Push, MessageSettings, Wechat, Tracing, Support,
}

pub record Config : Type 0 where
  pub mode : Str
  pub app_id : Str
  pub app_name : Str
  pub version : Str
  pub root_dir : Str
  pub addr : Str
  pub grpc_addr : Str
  pub ssl_addr : Str
  pub message_save_across_device : Bool
  pub welcome_message : Str
  pub phone_search_off : Bool
  pub online_status_on : Bool
  pub group_upgrade_when_member_count : ℤ
  pub event_pool_size : ℤ
  pub admin_pwd : Str
  pub sass : Sass
  pub external : External
  pub logger : LoggerSettings
  pub db : Db
  pub cluster : Cluster
  pub cache : CacheSettings
  pub ip2region : Ip2region
  pub account : Account
  pub file_service : Str
  pub oss : OssConfig
  pub minio : MinioConfig
  pub seaweed : SeaweedConfig
  pub qiniu : QiniuConfig
  pub sms_code : Str
  pub sms_provider : Str
  pub uni_sms : UnismsConfig
  pub aliyun_sms : AliyunSmsConfig
  pub aliyun_international_sms : AliyunInternationalSmsConfig
  pub jd_sms : JdSmsConfig
  pub smsbao : SmsbaoConfig
  pub wukong_im : WukongIm
  pub avatar : Avatar
  pub short_no : ShortNo
  pub robot : Robot
  pub gitee : Gitee
  pub github : Github
  pub owt : Owt
  pub livekit : Livekit
  pub register : Register
  pub organization : Organization
  pub friend : Friend
  pub zinc_search : ZincSearch
  pub group : GroupSettings
  pub push : Push
  pub message : MessageSettings
  pub wechat : Wechat
  pub tracing : Tracing
  pub support : Support
  pub test : Bool
  pub qr_code_info_url : Str
  pub visitor_uid_prefix : Str
  pub timing_wheel_tick : ℤ
  pub timing_wheel_size : ℤ
  pub elasticsearch_url : Str
  pub table_partition_config : TablePartitionConfig
  pub app_rsa_private_key : Str
  pub app_rsa_pub_key : Str
