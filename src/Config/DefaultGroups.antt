-- ===== src/Config/DefaultGroups.antt =====
-- New of config/config.go: the groups of settings that do not start out as zero values.
use jian_yu_server_lib.Base.{true, false, []}
use jian_yu_server_lib.Base.Int.{pos}
use jian_yu_server_lib.Strings.{str}
use package.jian_yu_server_lib.Config.Groups.{
  External, Db, Cluster, CacheSettings, Ip2region, Account, WukongIm, Avatar, ShortNo, Robot, Gitee,
  Github, Owt, Livekit, Friend, GroupSettings, Push, Support,
}

-- New: External
abbrev pub default_external : External
default_external = record {
  ip = [];
  base_url = [];
  h5_base_url = [];
  api_base_url = [];
  web_login_url = [];
}

-- New: DB
abbrev pub default_db : Db
default_db = record {
  mysql_addr = str "root:demo@tcp(127.0.0.1:3306)/test?charset=utf8mb4&parseTime=true";
  mysql_max_open_conns = pos 100;
  mysql_max_idle_conns = pos 10;
  mysql_conn_max_lifetime = pos 14400000000000;
  migration = true;
  redis_addr = str "127.0.0.1:6379";
  redis_pass = [];
  asynctask_redis_addr = [];
}

-- New: Cluster
abbrev pub default_cluster : Cluster
default_cluster = record { node_id = pos 1 }

-- New: Cache
abbrev pub default_cache : CacheSettings
default_cache = record {
  token_cache_prefix = str "token:";
  login_device_cache_prefix = str "login_device:";
  login_device_cache_expire = pos 300000000000;
  uid_token_cache_prefix = str "uidtoken:";
  friend_apply_token_cache_prefix = str "friend_token:";
  friend_apply_expire = pos 1296000000000000;
  token_expire = pos 2592000000000000;
  name_cache_expire = pos 604800000000000;
}

-- New: Ip2region
abbrev pub default_ip2region : Ip2region
default_ip2region = record { db_path = str "configs/xdb/ip2region.xdb" }

-- New: Account
abbrev pub default_account : Account
default_account = record {
  system_uid = str "u_10000";
  file_helper_uid = str "fileHelper";
  system_group_id = str "g_10000";
  system_group_name = str "意见反馈群";
  admin_uid = str "admin";
}

-- New: WuKongIM
abbrev pub default_wukong_im : WukongIm
default_wukong_im = record { api_url = str "http://127.0.0.1:5001"; manager_token = [] }

-- New: Avatar
abbrev pub default_avatar : Avatar
default_avatar = record {
  default = [];
  default_count = pos 900;
  partition = pos 100;
  default_base_url = [];
}

-- New: ShortNo
abbrev pub default_short_no : ShortNo
default_short_no = record { num_on = false; num_len = pos 7; edit_off = false }

-- New: Robot
abbrev pub default_robot : Robot
default_robot = record {
  message_expire = pos 604800000000000;
  inline_query_timeout = pos 10000000000;
  event_pool_size = pos 100;
}

-- New: Gitee
abbrev pub default_gitee : Gitee
default_gitee = record {
  oauth_url = str "https://gitee.com/oauth/authorize";
  client_id = [];
  client_secret = [];
}

-- New: Github
abbrev pub default_github : Github
default_github = record {
  oauth_url = str "https://github.com/login/oauth/authorize";
  client_id = [];
  client_secret = [];
}

-- New: OWT
abbrev pub default_owt : Owt
default_owt = record { url = []; service_id = []; service_key = []; room_max_count = pos 9 }

-- New: Livekit
abbrev pub default_livekit : Livekit
default_livekit = record {
  off = false;
  url = [];
  key = [];
  secret = [];
  invite_timeout_seconds = pos 60;
  room_max_count = pos 9;
}

-- New: Friend
abbrev pub default_friend : Friend
default_friend = record { added_tips_text = str "我们已经是好友了，可以愉快的聊天了！" }

-- New: Group
abbrev pub default_group : GroupSettings
default_group = record { same_day_create_max_count = pos 10; create_group_verify_friend_on = true }

-- New: Push
abbrev pub default_push : Push
default_push = record {
  content_detail_on = true;
  push_pool_size = pos 100;
  apns = record { dev = true; topic = str "com.jianyu.im"; password = str "123456"; cert = [] };
  mi = record { package_name = []; app_id = []; app_secret = []; channel_id = [] };
  hms = record { package_name = []; app_id = []; app_secret = [] };
  vivo = record { package_name = []; app_id = []; app_key = []; app_secret = [] };
  oppo = record {
    package_name = [];
    app_id = [];
    app_key = [];
    app_secret = [];
    master_secret = [];
  };
  firebase = record { package_name = []; json_path = []; project_id = [] };
}

-- New: Support
abbrev pub default_support : Support
default_support = record { email = []; email_smtp = str "smtp.exmail.qq.com:25"; email_pwd = [] }
