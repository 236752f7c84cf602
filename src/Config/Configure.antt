-- ===== src/Config/Configure.antt =====
-- Config.ConfigureWithViper: the settings at the top, the pushes, and all of it.
use jian_yu_server_lib.Base.{◌++◌, if◌then◌else◌}
use jian_yu_server_lib.Strings.{Str, str, is_blank}
use jian_yu_server_lib.Strings.Replace.{replace_all}
use package.jian_yu_server_lib.Config.Viper.{Viper, get_string, get_int, get_int64, get_bool}
use package.jian_yu_server_lib.Config.Constants.{debug_mode}
use package.jian_yu_server_lib.Config.Groups.{Push}
use package.jian_yu_server_lib.Config.Types.{Config}
use package.jian_yu_server_lib.Config.Urls.{configure_external, configure_minio}
use package.jian_yu_server_lib.Config.Log.{configure_log}
use package.jian_yu_server_lib.Config.Plain.{
  configure_sass, configure_db, configure_cluster, configure_cache, configure_account,
  configure_wukong_im, configure_avatar, configure_short_no, configure_robot, configure_gitee,
  configure_github, configure_owt, configure_livekit, configure_register, configure_organization,
  configure_friend, configure_zinc_search, configure_group, configure_message, configure_wechat,
  configure_tracing, configure_support,
}
use package.jian_yu_server_lib.Config.PlainServices.{
  configure_oss, configure_seaweed, configure_qiniu, configure_uni_sms, configure_aliyun_sms,
  configure_aliyun_international_sms, configure_jd_sms, configure_smsbao, configure_push_apns,
  configure_push_mi, configure_push_hms, configure_push_vivo, configure_push_oppo,
  configure_push_firebase,
}

-- The welcome message, with the name of the application put in.
unfoldable pub welcome : Str → Str → Str
welcome message app_name =
    if is_blank message then message else replace_all message b'{' (str "{appName}}") app_name

-- The basic settings.
unfoldable pub configure_basic : Viper → Config → Config
configure_basic v c =
    let app_name = get_string v (str "application.appName") c.app_name in
    record c {
      mode = get_string v (str "application.environment") debug_mode;
      app_id = get_string v (str "appID") c.app_id;
      app_name = app_name;
      root_dir = get_string v (str "rootDir") c.root_dir;
      version = get_string v (str "version") c.version;
      addr = get_string v (str "server.http.port") c.addr;
      grpc_addr = get_string v (str "server.grpc.port") (str "0.0.0.0" ++ c.grpc_addr);
      ssl_addr = get_string v (str "sslAddr") c.ssl_addr;
      message_save_across_device =
          get_bool v (str "messageSaveAcrossDevice") c.message_save_across_device;
      welcome_message = welcome (get_string v (str "welcomeMessage") c.welcome_message) app_name;
      phone_search_off = get_bool v (str "application.phoneSearchOff") c.phone_search_off;
      online_status_on = get_bool v (str "onlineStatusOn") c.online_status_on;
      group_upgrade_when_member_count =
          get_int v (str "groupUpgradeWhenMemberCount") c.group_upgrade_when_member_count;
      event_pool_size = get_int64 v (str "eventPoolSize") c.event_pool_size;
      admin_pwd = get_string v (str "adminPwd") c.admin_pwd;
    }

-- c.Push
unfoldable pub configure_push : Viper → Push → Push
configure_push v s = record {
  content_detail_on = get_bool v (str "push.contentDetailOn") s.content_detail_on;
  push_pool_size = get_int64 v (str "push.pushPoolSize") s.push_pool_size;
  apns = configure_push_apns v s.apns;
  mi = configure_push_mi v s.mi;
  hms = configure_push_hms v s.hms;
  vivo = configure_push_vivo v s.vivo;
  oppo = configure_push_oppo v s.oppo;
  firebase = configure_push_firebase v s.firebase;
}

-- ConfigureWithViper, with the address that getIntranetIP finds. The groups read nothing of each
-- other but what is passed here.
unfoldable pub configure_with_viper : Viper → Str → Config → Config
unfolding configure_basic configure_push
configure_with_viper v intranet_ip c =
    let b = configure_basic v c in
    let external = configure_external v intranet_ip c.external in
    let file_service = get_string v (str "fileService") c.file_service in
    record b {
      external = external;
      logger = configure_log v b.mode b.root_dir;
      file_service = file_service;
      minio = configure_minio v file_service external.ip c.minio;
      sms_code = get_string v (str "smsCode") c.sms_code;
      sms_provider = get_string v (str "smsProvider") c.sms_provider;
      push = configure_push v c.push;
      sass = configure_sass v c.sass;
      db = configure_db v c.db;
      cluster = configure_cluster v c.cluster;
      cache = configure_cache v c.cache;
      account = configure_account v c.account;
      wukong_im = configure_wukong_im v c.wukong_im;
      avatar = configure_avatar v c.avatar;
      short_no = configure_short_no v c.short_no;
      robot = configure_robot v c.robot;
      gitee = configure_gitee v c.gitee;
      github = configure_github v c.github;
      owt = configure_owt v c.owt;
      livekit = configure_livekit v c.livekit;
      register = configure_register v c.register;
      organization = configure_organization v c.organization;
      friend = configure_friend v c.friend;
      zinc_search = configure_zinc_search v c.zinc_search;
      group = configure_group v c.group;
      message = configure_message v c.message;
      wechat = configure_wechat v c.wechat;
      tracing = configure_tracing v c.tracing;
      support = configure_support v c.support;
      oss = configure_oss v c.oss;
      seaweed = configure_seaweed v c.seaweed;
      qiniu = configure_qiniu v c.qiniu;
      uni_sms = configure_uni_sms v c.uni_sms;
      aliyun_sms = configure_aliyun_sms v c.aliyun_sms;
      aliyun_international_sms = configure_aliyun_international_sms v c.aliyun_international_sms;
      jd_sms = configure_jd_sms v c.jd_sms;
      smsbao = configure_smsbao v c.smsbao;
    }
