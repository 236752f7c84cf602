-- ===== src/Config/Plain.antt =====
-- Config.ConfigureWithViper: the groups that are read field by field.
use jian_yu_server_lib.Strings.{str}
use package.jian_yu_server_lib.Config.Viper.{
  Viper, get_string, get_int, get_int64, get_duration, get_bool,
}
use package.jian_yu_server_lib.Config.Groups.{
  Account, Avatar, CacheSettings, Cluster, Db, Friend, Gitee, Github, GroupSettings, Livekit,
  MessageSettings, Organization, Owt, Register, Robot, Sass, ShortNo, Support, Tracing, Wechat,
  WukongIm, ZincSearch,
}

-- c.Sass
unfoldable pub configure_sass : Viper → Sass → Sass
configure_sass v s = record {
  switch = get_bool v (str "sass.switch") s.switch;
  company_code = get_string v (str "sass.companyCode") s.company_code;
}

-- c.DB
unfoldable pub configure_db : Viper → Db → Db
configure_db v s = record {
  mysql_addr = get_string v (str "database.default.dns") s.mysql_addr;
  mysql_max_open_conns = get_int v (str "database.default.maxOpenConns") s.mysql_max_open_conns;
  mysql_max_idle_conns = get_int v (str "database.default.maxIdleConns") s.mysql_max_idle_conns;
  mysql_conn_max_lifetime =
      get_duration v (str "db.mysqlConnMaxLifetime") s.mysql_conn_max_lifetime;
  migration = get_bool v (str "db.migration") s.migration;
  redis_addr = get_string v (str "redis.addr") s.redis_addr;
  redis_pass = get_string v (str "redis.password") s.redis_pass;
  asynctask_redis_addr = get_string v (str "db.asynctaskRedisAddr") s.asynctask_redis_addr;
}

-- c.Cluster
unfoldable pub configure_cluster : Viper → Cluster → Cluster
configure_cluster v s = record { node_id = get_int v (str "cluster.nodeID") s.node_id }

-- c.Cache
unfoldable pub configure_cache : Viper → CacheSettings → CacheSettings
configure_cache v s = record {
  token_cache_prefix = get_string v (str "cache.tokenCachePrefix") s.token_cache_prefix;
  login_device_cache_prefix =
      get_string v (str "cache.loginDeviceCachePrefix") s.login_device_cache_prefix;
  login_device_cache_expire =
      get_duration v (str "cache.loginDeviceCacheExpire") s.login_device_cache_expire;
  uid_token_cache_prefix = get_string v (str "cache.uidTokenCachePrefix") s.uid_token_cache_prefix;
  friend_apply_token_cache_prefix =
      get_string v (str "cache.friendApplyTokenCachePrefix") s.friend_apply_token_cache_prefix;
  friend_apply_expire = get_duration v (str "cache.friendApplyExpire") s.friend_apply_expire;
  token_expire = get_duration v (str "cache.tokenExpire") s.token_expire;
  name_cache_expire = get_duration v (str "cache.nameCacheExpire") s.name_cache_expire;
}

-- c.Account
unfoldable pub configure_account : Viper → Account → Account
configure_account v s = record {
  system_uid = get_string v (str "account.systemUID") s.system_uid;
  file_helper_uid = get_string v (str "account.fileHelperUID") s.file_helper_uid;
  system_group_id = get_string v (str "account.systemGroupID") s.system_group_id;
  system_group_name = get_string v (str "account.systemGroupName") s.system_group_name;
  admin_uid = get_string v (str "account.adminUID") s.admin_uid;
}

-- c.WuKongIM
unfoldable pub configure_wukong_im : Viper → WukongIm → WukongIm
configure_wukong_im v s = record {
  api_url = get_string v (str "im.apiURL") s.api_url;
  manager_token = get_string v (str "im.token") s.manager_token;
}

-- c.Avatar
unfoldable pub configure_avatar : Viper → Avatar → Avatar
configure_avatar v s = record {
  default = get_string v (str "avatar.default") s.default;
  default_count = get_int v (str "avatar.defaultCount") s.default_count;
  partition = get_int v (str "avatar.partition") s.partition;
  default_base_url = get_string v (str "avatar.defaultBaseURL") s.default_base_url;
}

-- c.ShortNo
unfoldable pub configure_short_no : Viper → ShortNo → ShortNo
configure_short_no v s = record {
  num_on = get_bool v (str "shortNo.numOn") s.num_on;
  num_len = get_int v (str "shortNo.numLen") s.num_len;
  edit_off = get_bool v (str "shortNo.editOff") s.edit_off;
}

-- c.Robot
unfoldable pub configure_robot : Viper → Robot → Robot
configure_robot v s = record {
  message_expire = get_duration v (str "robot.messageExpire") s.message_expire;
  inline_query_timeout = get_duration v (str "robot.inlineQueryTimeout") s.inline_query_timeout;
  event_pool_size = get_int64 v (str "robot.eventPoolSize") s.event_pool_size;
}

-- c.Gitee
unfoldable pub configure_gitee : Viper → Gitee → Gitee
configure_gitee v s = record {
  oauth_url = get_string v (str "gitee.oauthURL") s.oauth_url;
  client_id = get_string v (str "gitee.clientID") s.client_id;
  client_secret = get_string v (str "gitee.clientSecret") s.client_secret;
}

-- c.Github
unfoldable pub configure_github : Viper → Github → Github
configure_github v s = record {
  oauth_url = get_string v (str "github.oauthURL") s.oauth_url;
  client_id = get_string v (str "github.clientID") s.client_id;
  client_secret = get_string v (str "github.clientSecret") s.client_secret;
}

-- c.OWT
unfoldable pub configure_owt : Viper → Owt → Owt
configure_owt v s = record {
  url = get_string v (str "owt.url") s.url;
  service_id = get_string v (str "owt.serviceID") s.service_id;
  service_key = get_string v (str "owt.serviceKey") s.service_key;
  room_max_count =
      get_int v (str "owt.roomMaxCount") (get_int v (str "owt.roomMaxCount") s.room_max_count);
}

-- c.Livekit
unfoldable pub configure_livekit : Viper → Livekit → Livekit
configure_livekit v s = record {
  off = get_bool v (str "livekit.off") s.off;
  url = get_string v (str "sfu.url") s.url;
  key = get_string v (str "sfu.key") s.key;
  secret = get_string v (str "sfu.secret") s.secret;
  invite_timeout_seconds = get_int v (str "livekit.inviteTimeoutSeconds") s.invite_timeout_seconds;
  room_max_count = s.room_max_count;
}

-- c.Register
unfoldable pub configure_register : Viper → Register → Register
configure_register v s = record {
  off = get_bool v (str "register.off") s.off;
  only_china = get_bool v (str "register.onlyChina") s.only_china;
  sticker_add_off = get_bool v (str "register.stickerAddOff") s.sticker_add_off;
  username_on = get_bool v (str "register.usernameOn") s.username_on;
}

-- c.Organization
unfoldable pub configure_organization : Viper → Organization → Organization
configure_organization v s = record {
  import_on = get_bool v (str "organization.importOn") s.import_on;
}

-- c.Friend
unfoldable pub configure_friend : Viper → Friend → Friend
configure_friend v s = record {
  added_tips_text = get_string v (str "friend.addedTipsText") s.added_tips_text;
}

-- c.ZincSearch
unfoldable pub configure_zinc_search : Viper → ZincSearch → ZincSearch
configure_zinc_search v s = record {
  search_on = get_bool v (str "zincSearch.searchOn") s.search_on;
  api_url = get_string v (str "zincSearch.apiURL") s.api_url;
  zinc_username = get_string v (str "zincSearch.username") s.zinc_username;
  zinc_password = get_string v (str "zincSearch.password") s.zinc_password;
  sync_interval_second = get_int v (str "zincSearch.syncIntervalSecond") s.sync_interval_second;
  sync_count = get_int v (str "zincSearch.syncCount") s.sync_count;
}

-- c.Group
unfoldable pub configure_group : Viper → GroupSettings → GroupSettings
configure_group v s = record {
  same_day_create_max_count =
      get_int v (str "group.sameDayCreateMaxCount") s.same_day_create_max_count;
  create_group_verify_friend_on =
      get_bool v (str "group.createGroupVerifyFriendOn") s.create_group_verify_friend_on;
}

-- c.Message
unfoldable pub configure_message : Viper → MessageSettings → MessageSettings
configure_message v s = record {
  send_message_on = get_bool v (str "message.sendMessageOn") s.send_message_on;
  sync_readed_count_interval_second =
      get_int v (str "message.syncReadedCountIntervalSecond") s.sync_readed_count_interval_second;
}

-- c.Wechat
unfoldable pub configure_wechat : Viper → Wechat → Wechat
configure_wechat v s = record {
  app_id = get_string v (str "wechat.appID") s.app_id;
  app_secret = get_string v (str "wechat.appSecret") s.app_secret;
}

-- c.Tracing
unfoldable pub configure_tracing : Viper → Tracing → Tracing
configure_tracing v s = record {
  on = get_bool v (str "tracing.on") s.on;
  addr = get_string v (str "tracing.addr") s.addr;
}

-- c.Support
unfoldable pub configure_support : Viper → Support → Support
configure_support v s = record {
  email = get_string v (str "support.email") s.email;
  email_smtp = get_string v (str "support.emailSmtp") s.email_smtp;
  email_pwd = get_string v (str "support.emailPwd") s.email_pwd;
}
