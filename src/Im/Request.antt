-- ===== src/Im/Request.antt =====
-- The requests of config/msg.go, field by field, and the bodies that are posted.
use jian_yu_server_lib.Base.{ℕ, Bool, Option, List}
use jian_yu_server_lib.Base.Int.{ℤ}
use jian_yu_server_lib.Strings.{Str}
use jian_yu_server_lib.Im.Json.{Json, Fields}

pub record UserBaseVo : Type 0 where
  pub uid : Str
  pub name : Str

pub record MsgHeader : Type 0 where
  pub no_persist : ℕ
  pub red_dot : ℕ
  pub sync_once : ℕ

pub record MsgSendReq : Type 0 where
  pub header : MsgHeader
  pub setting : ℕ
  pub from_uid : Str
  pub channel_id : Str
  pub channel_type : ℕ
  pub stream_no : Str
  pub subscribers : List Str
  pub payload : Json

pub record MsgSendBatch : Type 0 where
  pub header : MsgHeader
  pub from_uid : Str
  pub subscribers : List Str
  pub payload : Json

pub record MsgSendResp : Type 0 where
  pub message_id : ℤ
  pub client_msg_no : Str
  pub message_seq : ℕ

-- `param` is none for a nil map.
pub record MsgCmdReq : Type 0 where
  pub no_persist : Bool
  pub from_uid : Str
  pub channel_id : Str
  pub channel_type : ℕ
  pub subscribers : List Str
  pub cmd : Str
  pub param : Option Fields

pub record MsgFriendApplyReq : Type 0 where
  pub apply_uid : Str
  pub apply_name : Str
  pub to_uid : Str
  pub remark : Str
  pub token : Str

pub record MsgFriendSureReq : Type 0 where
  pub to_uid : Str
  pub from_uid : Str
  pub from_name : Str

pub record MsgFriendDeleteReq : Type 0 where
  pub from_uid : Str
  pub to_uid : Str

pub record MsgRevokeReq : Type 0 where
  pub from_uid : Str
  pub operator : Str
  pub operator_name : Str
  pub channel_id : Str
  pub channel_type : ℕ
  pub message_id : ℤ

pub record ChannelReq : Type 0 where
  pub channel_id : Str
  pub channel_type : ℕ

pub record ChannelCreateReq : Type 0 where
  pub channel_id : Str
  pub channel_type : ℕ
  pub ban : ℤ
  pub large : ℤ
  pub subscribers : List Str

pub record ChannelInfoCreateReq : Type 0 where
  pub channel_id : Str
  pub channel_type : ℕ
  pub ban : ℤ
  pub large : ℤ

-- ChannelBlacklistReq and ChannelWhitelistReq
pub record ChannelUidsReq : Type 0 where
  pub channel : ChannelReq
  pub uids : List Str

pub record SubscriberAddReq : Type 0 where
  pub channel_id : Str
  pub channel_type : ℕ
  pub reset : ℤ
  pub subscribers : List Str

pub record SubscriberRemoveReq : Type 0 where
  pub channel_id : Str
  pub channel_type : ℕ
  pub subscribers : List Str

pub record ClearConversationUnreadReq : Type 0 where
  pub uid : Str
  pub channel_id : Str
  pub channel_type : ℕ
  pub unread : ℤ
  pub message_seq : ℕ

pub record DeleteConversationReq : Type 0 where
  pub uid : Str
  pub channel_id : Str
  pub channel_type : ℕ

pub record SyncackReq : Type 0 where
  pub uid : Str
  pub last_message_seq : ℕ

pub record MessageRevokeReq : Type 0 where
  pub channel_id : Str
  pub channel_type : ℕ
  pub message_ids : List ℕ

pub record UpdateImTokenReq : Type 0 where
  pub uid : Str
  pub token : Str
  pub device_flag : ℕ
  pub device_level : ℕ

pub record MsgSyncReq : Type 0 where
  pub uid : Str
  pub message_seq : ℕ
  pub limit : ℤ

pub record SyncChannelMessageReq : Type 0 where
  pub login_uid : Str
  pub device_uuid : Str
  pub channel_id : Str
  pub channel_type : ℕ
  pub start_message_seq : ℕ
  pub end_message_seq : ℕ
  pub limit : ℤ
  pub pull_mode : ℤ

pub record MessageStreamStartReq : Type 0 where
  pub header : MsgHeader
  pub client_msg_no : Str
  pub from_uid : Str
  pub channel_id : Str
  pub channel_type : ℕ
  pub payload : Json

pub record MessageStreamEndReq : Type 0 where
  pub stream_no : Str
  pub channel_id : Str
  pub channel_type : ℕ

-- What is sent: a struct of the source, or a value that is made on the spot.
pub data Body : Type 0 where
  send : MsgSendReq → Body
  send_batch : MsgSendBatch → Body
  channel_create : ChannelCreateReq → Body
  channel_info : ChannelInfoCreateReq → Body
  channel_uids : ChannelUidsReq → Body
  subscriber_add : SubscriberAddReq → Body
  subscriber_remove : SubscriberRemoveReq → Body
  clear_unread : ClearConversationUnreadReq → Body
  delete_conversation : DeleteConversationReq → Body
  sync_ack : SyncackReq → Body
  message_revoke : MessageRevokeReq → Body
  channel_delete : ChannelReq → Body
  message_sync : MsgSyncReq → Body
  channel_message_sync : SyncChannelMessageReq → Body
  stream_start : MessageStreamStartReq → Body
  stream_end : MessageStreamEndReq → Body
  value : Json → Body
  query : Json → Body
