-- ===== src/Im/Send.antt =====
-- Messages to persons and channels: SendMessage and what is built on it in config/msg.go,
-- config/msg_channel.go and config/msg_rtc.go.
pub mod Laws
pub mod Rtc
pub mod Duration
use jian_yu_server_lib.Base.{
  ℕ, String, ◌-◌, ◌+◌, ◌%◌, ◌^◌, ◌≡◌, refl, Bool, true, false, Option, none, some, List, [], ◌∷◌,
  ◌++◌, ◌==◌, if◌then◌else◌,
}
use jian_yu_server_lib.Base.Int.{ℤ, pos, negsuc}
use jian_yu_server_lib.Strings.{Str, str, itoa}
use jian_yu_server_lib.Im.Json.{Json, string, number, fields, Fields, end, field, object, nat}
use jian_yu_server_lib.Im.ContentType
use jian_yu_server_lib.Im.ContentType.{ContentType, int}
use jian_yu_server_lib.Im.Setting.{Setting, to_uint8}
use jian_yu_server_lib.Im.Request.{
  MsgHeader, MsgSendReq, MsgSendBatch, MsgSendResp, MsgCmdReq, MsgFriendApplyReq, MsgFriendSureReq,
  MsgFriendDeleteReq, MsgRevokeReq, ChannelReq, Body, send, send_batch,
}
use jian_yu_server_lib.Im.Client.{
  Response, Server, Result, ok, err, ◌>>=◌, ◌>>◌, answer, handler_im_error, post_checked,
}

-- common.ChannelType
abbrev pub channel_type_person : ℕ
channel_type_person = 1

abbrev pub channel_type_group : ℕ
channel_type_group = 2

-- `uint32(n)`
abbrev to_uint32 : ℤ → ℕ
to_uint32 (pos n) = n % 2 ^ 32
to_uint32 (negsuc n) = 2 ^ 32 - 1 - n % 2 ^ 32

-- The result of a successful SendMessageWithResult.
sent : Response → MsgSendResp
sent resp = record {
  message_id = resp.gjson_message_id;
  client_msg_no = resp.gjson_client_msg_no;
  message_seq = to_uint32 resp.gjson_message_seq;
}

-- SendMessageWithResult
unfoldable pub send_message_with_result : Server → MsgSendReq → Result MsgSendResp
unfolding sent handler_im_error
send_message_with_result server req = do
  resp ← answer (server (str "/message/send") (send req))
  handler_im_error resp
  ok (sent resp)

-- SendMessage
unfoldable pub send_message : Server → MsgSendReq → Result (Unit {0})
unfolding send_message_with_result
send_message server req = do _ ← send_message_with_result server req; ok tt

-- SendMessageBatch
unfoldable pub send_message_batch : Server → MsgSendBatch → Result (Unit {0})
unfolding post_checked
send_message_batch server req = post_checked server (str "/message/sendbatch") (send_batch req)

-- The header of a message that each recipient syncs once.
abbrev once : MsgHeader
once = record { no_persist = 0; red_dot = 0; sync_once = 1 }

-- The message of SendFriendApply
unfoldable pub friend_apply_message : MsgFriendApplyReq → MsgSendReq
unfolding int
friend_apply_message req = record {
  header = once;
  setting = 0;
  from_uid = [];
  channel_id = req.to_uid;
  channel_type = channel_type_person;
  stream_no = [];
  subscribers = [];
  payload = object (
      ("apply_uid", string req.apply_uid)
      ∷ ("apply_name", string req.apply_name)
      ∷ ("to_uid", string req.to_uid)
      ∷ ("remark", string req.remark)
      ∷ ("token", string req.token)
      ∷ ("type", nat (int ContentType.friend_apply))
      ∷ []);
}

-- SendFriendApply
unfoldable pub send_friend_apply : Server → MsgFriendApplyReq → Result (Unit {0})
unfolding friend_apply_message send_message
send_friend_apply server req = send_message server (friend_apply_message req)

-- The message of SendFriendSure
unfoldable pub friend_sure_message : MsgFriendSureReq → MsgSendReq
unfolding int
friend_sure_message req = record {
  header = once;
  setting = 0;
  from_uid = [];
  channel_id = req.to_uid;
  channel_type = channel_type_person;
  stream_no = [];
  subscribers = [];
  payload = object (
      ("sure_uid", string req.from_uid)
      ∷ ("sure_name", string req.from_name)
      ∷ ("to_uid", string req.to_uid)
      ∷ ("content", string (str "你们已经是好友了，可以愉快的聊天了！"))
      ∷ ("type", nat (int ContentType.friend_sure))
      ∷ []);
}

-- SendFriendSure
unfoldable pub send_friend_sure : Server → MsgFriendSureReq → Result (Unit {0})
unfolding friend_sure_message send_message
send_friend_sure server req = send_message server (friend_sure_message req)

-- The payload of SendCMD: "param" stands in it only if there are parameters.
unfoldable pub cmd_payload : MsgCmdReq → Fields
unfolding int
cmd_payload req = field "cmd" (string req.cmd) (
    field "type" (nat (int ContentType.cmd))
      (elim req.param [ none ↦ end | some param ↦ field "param" (fields param) end ]))

-- The message of SendCMD. The request's `NoPersist` is not looked at.
unfoldable pub cmd_message : MsgCmdReq → MsgSendReq
unfolding cmd_payload to_uint8
cmd_message req = record {
  header = record { no_persist = 1; red_dot = 0; sync_once = 1 };
  setting = to_uint8 (record { receipt = false; no_update_conversation = true; signal = false });
  from_uid = req.from_uid;
  channel_id = req.channel_id;
  channel_type = req.channel_type;
  stream_no = [];
  subscribers = req.subscribers;
  payload = fields (cmd_payload req);
}

-- SendCMD
unfoldable pub send_cmd : Server → MsgCmdReq → Result (Unit {0})
unfolding cmd_message send_message
send_cmd server req = send_message server (cmd_message req)

-- SendFriendDelete
unfoldable pub send_friend_delete : Server → MsgFriendDeleteReq → Result (Unit {0})
unfolding send_cmd
send_friend_delete server req = send_cmd server (record {
  no_persist = false;
  from_uid = [];
  channel_id = req.from_uid;
  channel_type = channel_type_person;
  subscribers = [];
  cmd = str "friendDeleted";
  param = some (field "uid" (string req.to_uid) end);
})

abbrev pub itoa_ℤ : ℤ → Str
itoa_ℤ (pos n) = itoa n
itoa_ℤ (negsuc n) = b'-' ∷ itoa (n + 1)

-- SendRevoke
unfoldable pub send_revoke : Server → MsgRevokeReq → Result (Unit {0})
unfolding send_cmd
send_revoke server req = send_cmd server (record {
  no_persist = false;
  from_uid = req.from_uid;
  channel_id = req.channel_id;
  channel_type = req.channel_type;
  subscribers = [];
  cmd = str "messageRevoke";
  param = some (field "message_id" (string (itoa_ℤ req.message_id)) end);
})

-- SendTyping
unfoldable pub send_typing : Server → Str → ℕ → Str → Result (Unit {0})
unfolding send_cmd
send_typing server channel_id channel_type from_uid = send_cmd server (record {
  no_persist = true;
  from_uid = [];
  channel_id = channel_id;
  channel_type = channel_type;
  subscribers = [];
  cmd = str "typing";
  param = some (
      field "from_uid" (string from_uid)
        (field "channel_id" (string channel_id) (field "channel_type" (nat channel_type) end)));
})

-- SendChannelUpdateWithFromUID
unfoldable pub send_channel_update_with_from_uid :
    Server → ChannelReq → ChannelReq → Str → Result (Unit {0})
unfolding send_cmd
send_channel_update_with_from_uid server channel update_channel from_uid = send_cmd server (record {
  no_persist = false;
  from_uid = from_uid;
  channel_id = channel.channel_id;
  channel_type = channel.channel_type;
  subscribers = [];
  cmd = str "channelUpdate";
  param = some (
      field "channel_id" (string update_channel.channel_id)
        (field "channel_type" (nat update_channel.channel_type) end));
})

-- SendChannelUpdate
unfoldable pub send_channel_update : Server → ChannelReq → ChannelReq → Result (Unit {0})
unfolding send_channel_update_with_from_uid
send_channel_update server channel update_channel =
    send_channel_update_with_from_uid server channel update_channel []

-- SendChannelUpdateToGroup
unfoldable pub send_channel_update_to_group : Server → Str → Result (Unit {0})
unfolding send_channel_update_with_from_uid
send_channel_update_to_group server group_no =
    let channel : ChannelReq = record {
      channel_id = group_no;
      channel_type = channel_type_group;
    } in
    send_channel_update_with_from_uid server channel channel []

-- SendChannelUpdateToUser
unfoldable pub send_channel_update_to_user : Server → Str → ChannelReq → Result (Unit {0})
unfolding send_channel_update_with_from_uid
send_channel_update_to_user server uid channel =
    send_channel_update_with_from_uid server
      (record { channel_id = uid; channel_type = channel_type_person }) channel []
