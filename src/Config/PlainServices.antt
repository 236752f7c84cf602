-- ===== src/Config/PlainServices.antt =====
-- Config.ConfigureWithViper: the services that are read field by field.
use jian_yu_server_lib.Strings.{str}
use package.jian_yu_server_lib.Config.Viper.{Viper, get_string, get_int, get_bool}
use package.jian_yu_server_lib.Config.Services.{
  AliyunInternationalSmsConfig, AliyunSmsConfig, ApnsPush, FirebasePush, HmsPush, JdSmsConfig,
  MiPush, OppoPush, OssConfig, QiniuConfig, SeaweedConfig, SmsbaoConfig, UnismsConfig, VivoPush,
}

-- c.OSS
unfoldable pub configure_oss : Viper → OssConfig → OssConfig
configure_oss v s = record {
  oss_type = get_string v (str "oss.type") s.oss_type;
  endpoint = get_string v (str "oss.endpoint") s.endpoint;
  bucket_name = get_string v (str "oss.bucketName") s.bucket_name;
  bucket_url = get_string v (str "oss.bucketUrl") s.bucket_url;
  access_key_id = get_string v (str "oss.accessKeyId") s.access_key_id;
  access_key_secret = get_string v (str "oss.accessKeySecret") s.access_key_secret;
  limit_size = get_int v (str "oss.limitSize") s.limit_size;
}

-- c.Seaweed
unfoldable pub configure_seaweed : Viper → SeaweedConfig → SeaweedConfig
configure_seaweed v s = record { url = get_string v (str "seaweed.url") s.url }

-- c.Qiniu
unfoldable pub configure_qiniu : Viper → QiniuConfig → QiniuConfig
configure_qiniu v s = record {
  url = get_string v (str "qiniu.url") s.url;
  bucket_name = get_string v (str "qiniu.bucketName") s.bucket_name;
  access_key = get_string v (str "qiniu.accessKey") s.access_key;
  secret_key = get_string v (str "qiniu.secretKey") s.secret_key;
}

-- c.UniSMS
unfoldable pub configure_uni_sms : Viper → UnismsConfig → UnismsConfig
configure_uni_sms v s = record {
  signature = get_string v (str "uniSMS.signature") s.signature;
  access_key_id = get_string v (str "uniSMS.accessKeyID") s.access_key_id;
  access_key_secret = get_string v (str "uniSMS.accessKeySecret") s.access_key_secret;
  template_id = get_string v (str "uniSMS.templateId") s.template_id;
}

-- c.AliyunSMS
unfoldable pub configure_aliyun_sms : Viper → AliyunSmsConfig → AliyunSmsConfig
configure_aliyun_sms v s = record {
  access_key_id = get_string v (str "aliyunSMS.accessKeyId") s.access_key_id;
  access_key_secret = get_string v (str "aliyunSMS.accessKeySecret") s.access_key_secret;
  sign_name = get_string v (str "aliyunSMS.signName") s.sign_name;
  user_register_template_code =
      get_string v (str "aliyunSMS.userRegisterTemplateCode") s.user_register_template_code;
  user_forget_pwd_template_code =
      get_string v (str "aliyunSMS.userForgetPwdTemplateCode") s.user_forget_pwd_template_code;
  user_login_template_code =
      get_string v (str "aliyunSMS.userLoginTemplateCode") s.user_login_template_code;
  user_identity_template_code =
      get_string v (str "aliyunSMS.userIdentityTemplateCode") s.user_identity_template_code;
}

-- c.AliyunInternationalSMS
unfoldable pub configure_aliyun_international_sms :
    Viper → AliyunInternationalSmsConfig → AliyunInternationalSmsConfig
configure_aliyun_international_sms v s = record {
  access_key_id = get_string v (str "aliyunInternationalSMS.accessKeyID") s.access_key_id;
  access_secret = get_string v (str "aliyunInternationalSMS.accessSecret") s.access_secret;
  sign_name = get_string v (str "aliyunInternationalSMS.signName") s.sign_name;
}

-- c.JdSMS
unfoldable pub configure_jd_sms : Viper → JdSmsConfig → JdSmsConfig
configure_jd_sms v s = record {
  sp_code = get_string v (str "jdSMS.spCode") s.sp_code;
  login_name = get_string v (str "jdSMS.loginName") s.login_name;
  password = get_string v (str "jdSMS.passWord") s.password;
  message_content = get_string v (str "jdSMS.messageContent") s.message_content;
  api_url = get_string v (str "jdSMS.apiUrl") s.api_url;
}

-- c.Smsbao
unfoldable pub configure_smsbao : Viper → SmsbaoConfig → SmsbaoConfig
configure_smsbao v s = record {
  account = get_string v (str "smsbao.account") s.account;
  api_key = get_string v (str "smsbao.apiKey") s.api_key;
  template = get_string v (str "smsbao.template") s.template;
}

-- c.Push.APNS
unfoldable pub configure_push_apns : Viper → ApnsPush → ApnsPush
configure_push_apns v s = record {
  dev = get_bool v (str "push.apns.dev") s.dev;
  topic = get_string v (str "push.apns.topic") s.topic;
  password = get_string v (str "push.apns.password") s.password;
  cert = get_string v (str "push.apns.cert") s.cert;
}

-- c.Push.MI
unfoldable pub configure_push_mi : Viper → MiPush → MiPush
configure_push_mi v s = record {
  package_name = get_string v (str "push.mi.packageName") s.package_name;
  app_id = get_string v (str "push.mi.appID") s.app_id;
  app_secret = get_string v (str "push.mi.appSecret") s.app_secret;
  channel_id = get_string v (str "push.mi.channelID") s.channel_id;
}

-- c.Push.HMS
unfoldable pub configure_push_hms : Viper → HmsPush → HmsPush
configure_push_hms v s = record {
  package_name = get_string v (str "push.hms.packageName") s.package_name;
  app_id = get_string v (str "push.hms.appID") s.app_id;
  app_secret = get_string v (str "push.hms.appSecret") s.app_secret;
}

-- c.Push.VIVO
unfoldable pub configure_push_vivo : Viper → VivoPush → VivoPush
configure_push_vivo v s = record {
  package_name = get_string v (str "push.vivo.packageName") s.package_name;
  app_id = get_string v (str "push.vivo.appID") s.app_id;
  app_key = get_string v (str "push.vivo.appKey") s.app_key;
  app_secret = get_string v (str "push.vivo.appSecret") s.app_secret;
}

-- c.Push.OPPO
unfoldable pub configure_push_oppo : Viper → OppoPush → OppoPush
configure_push_oppo v s = record {
  package_name = get_string v (str "push.oppo.packageName") s.package_name;
  app_id = get_string v (str "push.oppo.appID") s.app_id;
  app_key = get_string v (str "push.oppo.appKey") s.app_key;
  app_secret = get_string v (str "push.oppo.appSecret") s.app_secret;
  master_secret = get_string v (str "push.oppo.masterSecret") s.master_secret;
}

-- c.Push.FIREBASE
unfoldable pub configure_push_firebase : Viper → FirebasePush → FirebasePush
configure_push_firebase v s = record {
  package_name = get_string v (str "push.firebase.packageName") s.package_name;
  json_path = get_string v (str "push.firebase.jsonPath") s.json_path;
  project_id = get_string v (str "push.firebase.projectId") s.project_id;
}
