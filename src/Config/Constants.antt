-- ===== src/Config/Constants.antt =====
-- The values of Mode, FileService and SMSProvider in config/config.go.
use jian_yu_server_lib.Strings.{Str, str}

-- DebugMode, ReleaseMode, BenchMode
abbrev pub debug_mode : Str
debug_mode = str "debug"

abbrev pub release_mode : Str
release_mode = str "release"

abbrev pub bench_mode : Str
bench_mode = str "bench"

-- FileServiceAliyunOSS, FileServiceSeaweedFS, FileServiceMinio, FileServiceQiniu
abbrev pub file_service_aliyun_oss : Str
file_service_aliyun_oss = str "aliyunOSS"

abbrev pub file_service_seaweed_fs : Str
file_service_seaweed_fs = str "seaweedFS"

abbrev pub file_service_minio : Str
file_service_minio = str "minio"

abbrev pub file_service_qiniu : Str
file_service_qiniu = str "qiniu"

-- SMSProviderAliyun, SMSProviderUniSms, SMSProviderJdSms, SMSProviderSmsbao
abbrev pub sms_provider_aliyun : Str
sms_provider_aliyun = str "aliyun"

abbrev pub sms_provider_uni_sms : Str
sms_provider_uni_sms = str "unisms"

abbrev pub sms_provider_jd_sms : Str
sms_provider_jd_sms = str "jdsms"

abbrev pub sms_provider_smsbao : Str
sms_provider_smsbao = str "smsbao"
