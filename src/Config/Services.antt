-- ===== src/Config/Services.antt =====
-- The struct types of config/config.go that the configuration of a service has.
use jian_yu_server_lib.Base.{Bool}
use jian_yu_server_lib.Base.Int.{ℤ}
use jian_yu_server_lib.Strings.{Str}

pub record TablePartitionConfig : Type 0 where
  pub message_table_count : ℤ
  pub message_user_edit_table_count : ℤ
  pub channel_offset_table_count : ℤ

pub record AliyunSmsConfig : Type 0 where
  pub access_key_id : Str
  pub access_key_secret : Str
  pub sign_name : Str
  pub user_register_template_code : Str
  pub user_forget_pwd_template_code : Str
  pub user_login_template_code : Str
  pub user_identity_template_code : Str

pub record OssConfig : Type 0 where
  pub oss_type : Str
  pub endpoint : Str
  pub bucket_name : Str
  pub bucket_url : Str
  pub access_key_id : Str
  pub access_key_secret : Str
  pub limit_size : ℤ

pub record MinioConfig : Type 0 where
  pub url : Str
  pub upload_url : Str
  pub download_url : Str
  pub access_key_id : Str
  pub secret_access_key : Str

pub record SeaweedConfig : Type 0 where
  pub url : Str

pub record QiniuConfig : Type 0 where
  pub url : Str
  pub bucket_name : Str
  pub access_key : Str
  pub secret_key : Str

pub record JdSmsConfig : Type 0 where
  pub sp_code : Str
  pub login_name : Str
  pub password : Str
  pub message_content : Str
  pub api_url : Str

pub record UnismsConfig : Type 0 where
  pub signature : Str
  pub access_key_id : Str
  pub access_key_secret : Str
  pub template_id : Str

pub record SmsbaoConfig : Type 0 where
  pub account : Str
  pub api_key : Str
  pub template : Str

pub record AliyunInternationalSmsConfig : Type 0 where
  pub access_key_id : Str
  pub access_secret : Str
  pub sign_name : Str

pub record ApnsPush : Type 0 where
  pub dev : Bool
  pub topic : Str
  pub password : Str
  pub cert : Str

pub record HmsPush : Type 0 where
  pub package_name : Str
  pub app_id : Str
  pub app_secret : Str

pub record MiPush : Type 0 where
  pub package_name : Str
  pub app_id : Str
  pub app_secret : Str
  pub channel_id : Str

pub record OppoPush : Type 0 where
  pub package_name : Str
  pub app_id : Str
  pub app_key : Str
  pub app_secret : Str
  pub master_secret : Str

pub record VivoPush : Type 0 where
  pub package_name : Str
  pub app_id : Str
  pub app_key : Str
  pub app_secret : Str

pub record FirebasePush : Type 0 where
  pub package_name : Str
  pub json_path : Str
  pub project_id : Str
