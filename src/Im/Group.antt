-- ===== src/Im/Group.antt =====
-- Group notices of config/msg_group.go: the loops that number the members, and the messages.
pub mod Members
pub mod Notice
use jian_yu_server_lib.Base.{
  ℕ, suc, ◌+◌, String, ◌≡◌, List, [], ◌∷◌, ◌++◌, map, length, if◌then◌else◌,
}
use jian_yu_server_lib.Base.Int.{ℤ}
use jian_yu_server_lib.Strings.{Str, str, itoa, join, str_eq}
use jian_yu_server_lib.Im.Json.{Json, string, number, list, object, nat}
use jian_yu_server_lib.Im.ContentType
use jian_yu_server_lib.Im.ContentType.{int}
use jian_yu_server_lib.Im.Request.{UserBaseVo, MsgSendReq}
use jian_yu_server_lib.Im.Client.{Server, Result}
use jian_yu_server_lib.Im.Send.{channel_type_group, send_message}

pub record MsgGroupCreateReq : Type 0 where
  pub creator : Str
  pub creator_name : Str
  pub group_no : Str
  pub version : ℤ
  pub members : List UserBaseVo

-- MsgGroupMemberAddReq and MsgGroupMemberRemoveReq
pub record MsgGroupMembersReq : Type 0 where
  pub operator : Str
  pub operator_name : Str
  pub group_no : Str
  pub members : List UserBaseVo

-- `fmt.Sprintf("{%d}", i)`
abbrev pub placeholder : ℕ → Str
placeholder i = b'{' ∷ (itoa i ++ (b'}' ∷ []))

abbrev pub user : UserBaseVo → Json
user u = object (("uid", string u.uid) ∷ ("name", string u.name) ∷ [])

abbrev pub users : List UserBaseVo → Json
users us = list (map user us)

-- What the loop over the members of a new group carries.
pub record Numbered : Type 0 where
  pub i : ℕ
  pub params : List Str
  pub new_members : List UserBaseVo

-- One turn of the loop in SendGroupCreate and SendUnableAddDestoryAccountInGroup: the creator is
-- passed over.
unfoldable pub number_member : Str → Numbered → UserBaseVo → Numbered
number_member creator st member = if str_eq member.uid creator then st else record {
  i = suc st.i;
  params = st.params ++ (placeholder st.i ∷ []);
  new_members = st.new_members ++ (member ∷ []);
}

-- The loop.
unfoldable pub number_members : Str → Numbered → List UserBaseVo → Numbered
number_members creator st [] = st
number_members creator st (member ∷ members) =
    number_members creator (number_member creator st member) members

unfoldable pub numbered : MsgGroupCreateReq → Numbered
numbered req =
    number_members req.creator (record { i = 0; params = []; new_members = [] }) req.members

-- `for index := range members` in SendGroupMemberAdd and SendGroupMemberRemove.
unfoldable pub index_members : ℕ → List UserBaseVo → List Str
index_members index [] = []
index_members index (member ∷ members) = placeholder index ∷ index_members (suc index) members

-- A message to a group that is stored and counted as unread.
unfoldable pub group_message : Str → Json → MsgSendReq
group_message group_no payload = record {
  header = record { no_persist = 0; red_dot = 1; sync_once = 0 };
  setting = 0;
  from_uid = [];
  channel_id = group_no;
  channel_type = channel_type_group;
  stream_no = [];
  subscribers = [];
  payload = payload;
}

-- The message of SendGroupCreate
unfoldable pub group_create_message : MsgGroupCreateReq → MsgSendReq
unfolding group_message int
group_create_message req =
    let st = numbered req in
    group_message req.group_no (
      object (
        ("creator", string req.creator)
        ∷ ("creator_name", string req.creator_name)
        ∷ (
          "content",
          string (req.creator_name ++ (str "邀请" ++ (join st.params (str ",") ++ str "加入群聊"))),
        )
        ∷ ("version", number req.version)
        ∷ ("extra", users st.new_members)
        ∷ ("type", nat (int ContentType.group_create))
        ∷ []))

-- SendGroupCreate
unfoldable pub send_group_create : Server → MsgGroupCreateReq → Result (Unit {0})
unfolding group_create_message send_message
send_group_create server req = send_message server (group_create_message req)

-- The message of SendUnableAddDestoryAccountInGroup
unfoldable pub unable_add_destory_account_message : MsgGroupCreateReq → MsgSendReq
unfolding group_message int
unable_add_destory_account_message req =
    let st = numbered req in
    group_message req.group_no (
      object (
        ("content", string (str "用户" ++ (join st.params (str ",") ++ str "已注销，无法添加到群聊")))
        ∷ ("extra", users st.new_members)
        ∷ ("type", nat (int ContentType.tip))
        ∷ []))

-- SendUnableAddDestoryAccountInGroup
unfoldable pub send_unable_add_destory_account_in_group :
    Server → MsgGroupCreateReq → Result (Unit {0})
unfolding unable_add_destory_account_message send_message
send_unable_add_destory_account_in_group server req =
    send_message server (unable_add_destory_account_message req)

-- The message of SendGroupMemberAdd
unfoldable pub group_member_add_message : MsgGroupMembersReq → MsgSendReq
unfolding group_message int index_members
group_member_add_message req = group_message req.group_no (
    object (
      ("from_uid", string req.operator)
      ∷ ("from_name", string req.operator_name)
      ∷ (
        "content",
        string (
            req.operator_name
            ++ (str "邀请" ++ (join (index_members 0 req.members) (str ",") ++ str "加入群聊"))),
      )
      ∷ ("extra", users req.members)
      ∷ ("type", nat (int ContentType.group_member_add))
      ∷ []))

-- SendGroupMemberAdd
unfoldable pub send_group_member_add : Server → MsgGroupMembersReq → Result (Unit {0})
unfolding group_member_add_message send_message
send_group_member_add server req = send_message server (group_member_add_message req)

-- The message of SendGroupMemberRemove
unfoldable pub group_member_remove_message : MsgGroupMembersReq → MsgSendReq
unfolding group_message int index_members
group_member_remove_message req = group_message req.group_no (
    object (
      (
        "content",
        string (
            req.operator_name
            ++ (str "将" ++ (join (index_members 0 req.members) (str ",") ++ str "移除群聊"))),
      )
      ∷ ("extra", users req.members)
      ∷ ("type", nat (int ContentType.group_member_remove))
      ∷ []))

-- SendGroupMemberRemove
unfoldable pub send_group_member_remove : Server → MsgGroupMembersReq → Result (Unit {0})
unfolding group_member_remove_message send_message
send_group_member_remove server req = send_message server (group_member_remove_message req)
