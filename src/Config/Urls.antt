-- ===== src/Config/Urls.antt =====
-- Config.ConfigureWithViper: the addresses that are derived from others where they are blank.
use jian_yu_server_lib.Base.{◌&&◌, ◌++◌, if◌then◌else◌}
use jian_yu_server_lib.Strings.{Str, str, str_eq, is_blank}
use package.jian_yu_server_lib.Config.Viper.{Viper, get_string}
use package.jian_yu_server_lib.Config.Constants.{file_service_minio}
use package.jian_yu_server_lib.Config.Groups.{External}
use package.jian_yu_server_lib.Config.Services.{MinioConfig}

-- `if strings.TrimSpace(x) == "" { x = fallback }`
abbrev pub or_else : Str → Str → Str
or_else x fallback = if is_blank x then fallback else x

-- c.External; the addresses of the pages and of the api are not read.
unfoldable pub configure_external : Viper → Str → External → External
configure_external v intranet_ip s =
    let ip = or_else (get_string v (str "external.ip") s.ip) intranet_ip in
    let base_url =
      or_else (get_string v (str "external.baseURL") s.base_url)
        (str "http://" ++ (ip ++ str ":8090")) in
    record {
      ip = ip;
      base_url = base_url;
      h5_base_url = or_else s.h5_base_url (base_url ++ str "/web");
      api_base_url = or_else s.api_base_url (base_url ++ str "/v1");
      web_login_url =
          or_else (get_string v (str "external.webLoginURL") s.web_login_url)
            (str "http://" ++ (ip ++ str ":82"));
    }

-- c.Minio, for the file service and the external ip.
unfoldable pub configure_minio : Viper → Str → Str → MinioConfig → MinioConfig
configure_minio v file_service ip s =
    let read = get_string v (str "minio.url") s.url in
    let url =
      if str_eq file_service file_service_minio && is_blank read
      then str "http://" ++ (ip ++ str ":9000")
      else read in
    record {
      url = url;
      upload_url = or_else (get_string v (str "minio.uploadURL") s.upload_url) url;
      download_url = or_else (get_string v (str "minio.downloadURL") s.download_url) url;
      access_key_id = get_string v (str "minio.accessKeyID") s.access_key_id;
      secret_access_key = get_string v (str "minio.secretAccessKey") s.secret_access_key;
    }
