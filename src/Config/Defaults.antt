-- ===== src/Config/Defaults.antt =====
-- New of config/config.go: the configuration before it is read from files.
use jian_yu_server_lib.Base.{true, false, []}
use jian_yu_server_lib.Base.Int.{pos}
use jian_yu_server_lib.Strings.{Str, str}
use package.jian_yu_server_lib.Config.Types.{Config}
use package.jian_yu_server_lib.Config.Services.{TablePartitionConfig}
use package.jian_yu_server_lib.Config.Env.{get_env_bool}
use package.jian_yu_server_lib.Config.Constants.{
  release_mode, file_service_minio, sms_provider_aliyun,
}
use package.jian_yu_server_lib.Config.DefaultGroups.{
  default_external, default_db, default_cluster, default_cache, default_ip2region, default_account,
  default_wukong_im, default_avatar, default_short_no, default_robot, default_gitee, default_github,
  default_owt, default_livekit, default_friend, default_group, default_push, default_support,
}

-- newTablePartitionConfig
abbrev pub new_table_partition_config : TablePartitionConfig
new_table_partition_config = record {
  message_table_count = pos 10;
  message_user_edit_table_count = pos 3;
  channel_offset_table_count = pos 3;
}

-- New; `env` is the environment.
unfoldable pub new : (Str → Str) → Config
new env = record {
  mode = release_mode;
  app_id = str "jianyuim";
  app_name = str "简语";
  version = [];
  root_dir = str "jydata";
  addr = str ":8000";
  grpc_addr = str ":9009";
  ssl_addr = [];
  message_save_across_device = true;
  welcome_message = str "欢迎使用{{appName}}";
  phone_search_off = false;
  online_status_on = true;
  group_upgrade_when_member_count = pos 1000;
  event_pool_size = pos 100;
  admin_pwd = [];
  sass = record { switch = false; company_code = [] };
  external = default_external;
  logger = record { dir = []; level = pos 0; line_num = false };
  db = default_db;
  cluster = default_cluster;
  cache = default_cache;
  ip2region = default_ip2region;
  account = default_account;
  file_service = file_service_minio;
  oss = record {
    oss_type = [];
    endpoint = [];
    bucket_name = [];
    bucket_url = [];
    access_key_id = [];
    access_key_secret = [];
    limit_size = pos 0;
  };
  minio = record {
    url = [];
    upload_url = [];
    download_url = [];
    access_key_id = [];
    secret_access_key = [];
  };
  seaweed = record { url = [] };
  qiniu = record { url = []; bucket_name = []; access_key = []; secret_key = [] };
  sms_code = [];
  sms_provider = sms_provider_aliyun;
  uni_sms = record { signature = []; access_key_id = []; access_key_secret = []; template_id = [] };
  aliyun_sms = record {
    access_key_id = [];
    access_key_secret = [];
    sign_name = [];
    user_register_template_code = [];
    user_forget_pwd_template_code = [];
    user_login_template_code = [];
    user_identity_template_code = [];
  };
  aliyun_international_sms = record { access_key_id = []; access_secret = []; sign_name = [] };
  jd_sms = record {
    sp_code = [];
    login_name = [];
    password = [];
    message_content = [];
    api_url = [];
  };
  smsbao = record { account = []; api_key = []; template = [] };
  wukong_im = default_wukong_im;
  avatar = default_avatar;
  short_no = default_short_no;
  robot = default_robot;
  gitee = default_gitee;
  github = default_github;
  owt = default_owt;
  livekit = default_livekit;
  register = record {
    off = false;
    only_china = false;
    sticker_add_off = false;
    username_on = false;
  };
  organization = record { import_on = false };
  friend = default_friend;
  zinc_search = record {
    search_on = false;
    api_url = [];
    zinc_username = [];
    zinc_password = [];
    sync_interval_second = pos 0;
    sync_count = pos 0;
  };
  group = default_group;
  push = default_push;
  message = record { send_message_on = false; sync_readed_count_interval_second = pos 0 };
  wechat = record { app_id = []; app_secret = [] };
  tracing = record { on = false; addr = [] };
  support = default_support;
  test = get_env_bool env (str "Test") false;
  qr_code_info_url = str "v1/qrcode/:code";
  visitor_uid_prefix = str "_vt_";
  timing_wheel_tick = pos 10000000;
  timing_wheel_size = pos 100;
  elasticsearch_url = str "http://elasticsearch:9200";
  table_partition_config = new_table_partition_config;
  app_rsa_private_key = [];
  app_rsa_pub_key = [];
}
