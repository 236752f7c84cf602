-- ===== src/Im/Tests.antt =====
-- Concrete messages and requests to the IM server.
use jian_yu_server_lib.Base.{ℕ, ◌⊎◌, ◌≡◌, refl, true, Option, none, some, [], ◌∷◌}
use jian_yu_server_lib.Base.Int.{pos, negsuc}
use jian_yu_server_lib.Strings.{str, itoa, str_eq, join}
use jian_yu_server_lib.Im.Json.{Json, null, object, string, field, end}
use jian_yu_server_lib.Im.Request.{
  UserBaseVo, MsgCmdReq, ChannelUidsReq, ClearConversationUnreadReq, DeleteConversationReq,
  MessageStreamStartReq, send, channel_uids, stream_start,
}
use jian_yu_server_lib.Im.Client.{Response, Server}
use jian_yu_server_lib.Im.Send.Rtc.{format_second}
use jian_yu_server_lib.Im.Admin.Laws.{Accepted}
use jian_yu_server_lib.Im.Group.{
  MsgGroupCreateReq, MsgGroupMembersReq, number_members, number_member, numbered,
}

durations_run :
    (format_second (pos 754) ≡ str "12:34")
    × (format_second (pos 6005) ≡ str "100:05")
    × (format_second (negsuc 4) ≡ str "00:0-5")
unfolding format_second itoa str
durations_run = (refl, refl, refl)

abbrev ann : UserBaseVo
ann = record { uid = str "u1"; name = str "Ann" }

abbrev bob : UserBaseVo
bob = record { uid = str "u2"; name = str "Bob" }

abbrev cat : UserBaseVo
cat = record { uid = str "u3"; name = str "Cat" }

abbrev new_group : MsgGroupCreateReq
new_group = record {
  creator = str "u1";
  creator_name = str "Ann";
  group_no = str "g1";
  version = pos 7;
  members = bob ∷ ann ∷ cat ∷ [];
}

abbrev added : MsgGroupMembersReq
added = record {
  operator = str "u1";
  operator_name = str "Ann";
  group_no = str "g1";
  members = bob ∷ cat ∷ [];
}

-- The creator of the group has no number.
new_group_runs : join (numbered new_group).params (str ",") ≡ str "{0},{1}"
unfolding numbered number_members number_member itoa str str_eq join
new_group_runs = refl

abbrev typing : MsgCmdReq
typing = record {
  no_persist = true;
  from_uid = [];
  channel_id = str "u2";
  channel_type = 1;
  subscribers = [];
  cmd = str "typing";
  param = some (field "from_uid" (string (str "u1")) end);
}

abbrev answered : ℕ → Option Json → Response
answered status_code body = record {
  status_code = status_code;
  body = body;
  gjson_message_id = pos 0;
  gjson_message_seq = pos 0;
  gjson_client_msg_no = [];
}

-- A server that refuses messages, that accepts whatever changes a channel, and that cannot be
-- reached for anything else.
abbrev server : Server
server url body = elim body [
  | send req ↦ some (answered 400 (some (object (("msg", string (str "no")) ∷ []))))
  | channel_uids req ↦ some (answered 200 none)
  | stream_start req ↦ some (answered 200 (some (object [])))
  | _ ↦ none
]

abbrev blocked : ChannelUidsReq
blocked = record {
  channel = record { channel_id = str "g1"; channel_type = 2 };
  uids = str "u3" ∷ [];
}

abbrev Done : Type 0
Done = Accepted (some (answered 200 none))

abbrev read : ClearConversationUnreadReq
read = record {
  uid = str "u1";
  channel_id = str "g1";
  channel_type = 2;
  unread = pos 0;
  message_seq = 9;
}

abbrev forget : DeleteConversationReq
forget = record { uid = str "u1"; channel_id = str "g1"; channel_type = 2 }

abbrev Lost : Type 0
Lost = (◌≡◌ {A = Option Response} none none) ⊎ Accepted none

abbrev stream : MessageStreamStartReq
stream = record {
  header = record { no_persist = 0; red_dot = 0; sync_once = 0 };
  client_msg_no = str "c1";
  from_uid = str "u1";
  channel_id = str "u2";
  channel_type = 1;
  payload = null;
}
