-- ===== src/Common/Codes.antt =====
-- common/constant.go: the constants that are numbers.
use jian_yu_server_lib.Base.{ℕ}

-- ChannelType
pub data ChannelType : Type 0 where
  channel_type_none channel_type_person channel_type_group channel_type_customer_service
        channel_type_community channel_type_community_topic channel_type_info :
      ChannelType

-- Uint8 of a channel type
unfoldable pub channel_type_uint8 : ChannelType → ℕ
channel_type_uint8 channel_type_none = 0
channel_type_uint8 channel_type_person = 1
channel_type_uint8 channel_type_group = 2
channel_type_uint8 channel_type_customer_service = 3
channel_type_uint8 channel_type_community = 4
channel_type_uint8 channel_type_community_topic = 5
channel_type_uint8 channel_type_info = 6

-- GroupMemberStatus
pub data GroupMemberStatus : Type 0 where
  group_member_status_normal group_member_status_blacklist : GroupMemberStatus

unfoldable pub member_status : GroupMemberStatus → ℕ
member_status group_member_status_normal = 1
member_status group_member_status_blacklist = 2

-- GroupMemberRole
pub data GroupMemberRole : Type 0 where
  group_member_role_creater group_member_role_manager group_member_role_normal : GroupMemberRole

unfoldable pub member_role : GroupMemberRole → ℕ
member_role group_member_role_creater = 1
member_role group_member_role_manager = 2
member_role group_member_role_normal = 0

-- GroupAllowViewHistoryMsgStatus
pub data GroupAllowViewHistoryMsgStatus : Type 0 where
  group_allow_view_history_msg_disabled group_allow_view_history_msg_enabled :
      GroupAllowViewHistoryMsgStatus

unfoldable pub view_history_status : GroupAllowViewHistoryMsgStatus → ℕ
view_history_status group_allow_view_history_msg_disabled = 0
view_history_status group_allow_view_history_msg_enabled = 1

-- VercodeType
pub data VercodeType : Type 0 where
  user group_member qrcode friend mail_list invitation_code : VercodeType

unfoldable pub vercode_type : VercodeType → ℕ
vercode_type user = 1
vercode_type group_member = 2
vercode_type qrcode = 3
vercode_type friend = 4
vercode_type mail_list = 5
vercode_type invitation_code = 6

-- UserStatus
pub data UserStatus : Type 0 where
  user_available user_disable : UserStatus

unfoldable pub user_status : UserStatus → ℕ
user_status user_available = 1
user_status user_disable = 0
