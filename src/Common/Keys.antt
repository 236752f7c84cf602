-- ===== src/Common/Keys.antt =====
-- common/constant.go: the constants that are keys of stored values, and other texts.
use jian_yu_server_lib.Base.{◌++◌}
use jian_yu_server_lib.Strings.{Str, str}

-- The keys of the sequences
pub data SeqKey : Type 0 where
  group_member_seq_key group_setting_seq_key group_seq_key user_setting_seq_key user_seq_key
        friend_seq_key message_extra_seq_key message_reaction_seq_key robot_seq_key
        robot_event_seq_key sensitive_words_key reminders_key sync_conversation_extra_key
        prohibit_word_key :
      SeqKey

unfoldable pub seq_key : SeqKey → Str
seq_key group_member_seq_key = str "groupMember"
seq_key group_setting_seq_key = str "groupSetting"
seq_key group_seq_key = str "group"
seq_key user_setting_seq_key = str "userSetting"
seq_key user_seq_key = str "user"
seq_key friend_seq_key = str "friend"
seq_key message_extra_seq_key = str "messageExtra"
seq_key message_reaction_seq_key = str "messageReaction"
seq_key robot_seq_key = str "robot"
seq_key robot_event_seq_key = str "robotEventSeq:"
seq_key sensitive_words_key = str "sensitiveWords"
seq_key reminders_key = str "reminders"
seq_key sync_conversation_extra_key = str "syncConversationExtra"
seq_key prohibit_word_key = str "ProhibitWord"

-- The attributes of a group
pub data GroupAttr : Type 0 where
  group_attr_key_name group_attr_key_notice group_attr_key_forbidden group_attr_key_invite
        group_attr_key_forbidden_add_friend group_attr_key_status group_allow_view_history_msg
        group_allow_member_pinned_message :
      GroupAttr

unfoldable pub group_attr_key : GroupAttr → Str
group_attr_key group_attr_key_name = str "name"
group_attr_key group_attr_key_notice = str "notice"
group_attr_key group_attr_key_forbidden = str "forbidden"
group_attr_key group_attr_key_invite = str "invite"
group_attr_key group_attr_key_forbidden_add_friend = str "forbidden_add_friend"
group_attr_key group_attr_key_status = str "status"
group_attr_key group_allow_view_history_msg = str "allow_view_history_msg"
group_attr_key group_allow_member_pinned_message = str "allow_member_pinned_message"

-- The prefixes of cache keys
pub data CachePrefix : Type 0 where
  user_device_token_prefix user_voip_device_token_prefix user_device_badge_prefix
        qrcode_cache_prefix auth_code_cache_prefix device_cache_uuid_prefix :
      CachePrefix

unfoldable pub cache_prefix : CachePrefix → Str
cache_prefix user_device_token_prefix = str "userDeviceToken:"
cache_prefix user_voip_device_token_prefix = str "userVoipDeviceToken:"
cache_prefix user_device_badge_prefix = str "userDeviceBadge"
cache_prefix qrcode_cache_prefix = str "qrcode:"
cache_prefix auth_code_cache_prefix = str "authcode:"
cache_prefix device_cache_uuid_prefix = str "deviceCacheUUID:"

-- AuthCodeType
pub data AuthCodeType : Type 0 where
  auth_code_type_join_group auth_code_type_group_member_invite auth_code_type_scan_login :
      AuthCodeType

unfoldable pub auth_code_type : AuthCodeType → Str
auth_code_type auth_code_type_join_group = str "joinGroup"
auth_code_type auth_code_type_group_member_invite = str "groupMemberInvite"
auth_code_type auth_code_type_scan_login = str "scanLogin"

-- DeviceType
pub data DeviceType : Type 0 where
  device_type_ios device_type_mi device_type_hms device_type_firebase device_type_oppo
        device_type_vivo :
      DeviceType

unfoldable pub device_type : DeviceType → Str
device_type device_type_ios = str "IOS"
device_type device_type_mi = str "MI"
device_type device_type_hms = str "HMS"
device_type device_type_firebase = str "FIREBASE"
device_type device_type_oppo = str "OPPO"
device_type device_type_vivo = str "VIVO"

-- QRCodeType
pub data QrcodeType : Type 0 where
  qrcode_type_group qrcode_type_scan_login : QrcodeType

unfoldable pub qrcode_type : QrcodeType → Str
qrcode_type qrcode_type_group = str "group"
qrcode_type qrcode_type_scan_login = str "scanLogin"

-- ScanLoginStatus
pub data ScanLoginStatus : Type 0 where
  scan_login_status_expired scan_login_status_wait_scan scan_login_status_scanned
        scan_login_status_authed :
      ScanLoginStatus

unfoldable pub scan_login_status : ScanLoginStatus → Str
scan_login_status scan_login_status_expired = str "expired"
scan_login_status scan_login_status_wait_scan = str "waitScan"
scan_login_status scan_login_status_scanned = str "scanned"
scan_login_status scan_login_status_authed = str "authed"

-- AppLanguage.ToString
pub data AppLanguage : Type 0 where
  china_language english_language : AppLanguage

unfoldable pub language_text : AppLanguage → Str
language_text china_language = str "cn"
language_text english_language = str "en"

-- MarshalJSON of a type of QR codes: its text between quotes
unfoldable pub marshal_qrcode_type : QrcodeType → Str
unfolding qrcode_type
marshal_qrcode_type q = str "\"" ++ (qrcode_type q ++ str "\"")
