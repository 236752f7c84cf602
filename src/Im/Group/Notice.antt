-- ===== src/Im/Group/Notice.antt =====
-- The other group notices of config/msg_group.go.
use text.Mathlib.Text.{◌==◌ as same}
use jian_yu_server_lib.Base.{
  String, Bool, true, false, Option, none, some, List, [], ◌∷◌, ◌++◌, map, if◌then◌else◌,
}
use jian_yu_server_lib.Base.Int.{ℤ}
use jian_yu_server_lib.Strings.{Str, str, str_eq}
use jian_yu_server_lib.Im.Json.{Json, null, string, list, object, nat, texts, field, end}
use jian_yu_server_lib.Im.ContentType
use jian_yu_server_lib.Im.ContentType.{int}
use jian_yu_server_lib.Im.Setting.{to_uint8}
use jian_yu_server_lib.Im.Request.{UserBaseVo, MsgSendReq}
use jian_yu_server_lib.Im.Client.{Server, Result, ok}
use package.jian_yu_server_lib.Im.Send.{channel_type_group, send_message, send_cmd, itoa_ℤ}
use package.jian_yu_server_lib.Im.Group.{MsgGroupMembersReq, group_message, user}

-- A `map[string]string`, none for nil. Of slices, as of those in a payload, nil is not told from an
-- empty one.
abbrev pub Data : Type 0
Data = Option (List (String × Str))

pub record MsgGroupUpdateReq : Type 0 where
  pub group_no : Str
  pub operator : Str
  pub operator_name : Str
  pub attr : String
  pub values : Data

find : String → List (String × Str) → Str
find key [] = []
find key (entry ∷ rest) = if same entry.0 key then entry.1 else find key rest

-- `data[key]`: a missing key gives "".
unfoldable pub value_at : String → Data → Str
unfolding find
value_at key none = []
value_at key (some entries) = find key entries

abbrev is_one : Str → Bool
is_one s = str_eq s (str "1")

quoted : Str → Str
quoted s = b'"' ∷ (s ++ (b'"' ∷ []))

-- What the `switch` of SendGroupUpdate puts behind "{0}".
unfoldable pub update_text : String → Data → Str
unfolding value_at quoted
update_text attr values =
    if same attr "name"
    then str "修改群名为" ++ quoted (value_at "name" values)
    else if same attr "notice"
    then (if str_eq (value_at "notice" values) []
        then str "清空了群公告"
        else str "修改群公告为" ++ quoted (value_at "notice" values))
    else if same attr "forbidden"
    then (if is_one (value_at "forbidden" values) then str "开启了群禁言" else str "关闭了群禁言")
    else if same attr "invite"
    then (if is_one (value_at "invite" values)
        then str "已启用“群聊邀请确认”，群成员需群主或管理员确认才能邀请朋友进群。"
        else str "已恢复默认进群方式。")
    else if same attr "status"
    then (if is_one (value_at "status" values) then str "解禁了该群" else str "封禁了该群")
    else []

entry_json : String × Str → String × Json
entry_json entry = (entry.0, string entry.1)

-- The data as JSON: null for a nil map.
data_json : Data → Json
unfolding entry_json
data_json none = null
data_json (some entries) = object (map entry_json entries)

one_user : Str → Str → Json
one_user uid name = list (user (record { uid = uid; name = name }) ∷ [])

-- The message of SendGroupUpdate
unfoldable pub group_update_message : MsgGroupUpdateReq → MsgSendReq
unfolding group_message update_text data_json one_user int
group_update_message req = group_message req.group_no (
    object (
      ("content", string (str "{0}" ++ update_text req.attr req.values))
      ∷ ("extra", one_user req.operator req.operator_name)
      ∷ ("data", data_json req.values)
      ∷ ("type", nat (int ContentType.group_update))
      ∷ []))

-- SendGroupUpdate
unfoldable pub send_group_update : Server → MsgGroupUpdateReq → Result (Unit {0})
unfolding group_update_message send_message
send_group_update server req = send_message server (group_update_message req)

-- SendGroupUpgrade, with the configured `GroupUpgradeWhenMemberCount`.
unfoldable pub send_group_upgrade : Server → ℤ → Str → Result (Unit {0})
unfolding group_message int send_message
send_group_upgrade server count group_no = send_message server (
    group_message group_no (
      object (
        ("content", string (str "群成员超过" ++ (itoa_ℤ count ++ str "，将自动升级为超级群")))
        ∷ ("type", nat (int ContentType.group_upgrade))
        ∷ [])))

-- The loop of SendGroupMemberBeRemove.
unfoldable pub uids_of : List UserBaseVo → List Str
uids_of [] = []
uids_of (member ∷ members) = member.uid ∷ uids_of members

-- The message of SendGroupMemberBeRemove
unfoldable pub group_member_be_remove_message : MsgGroupMembersReq → MsgSendReq
unfolding to_uint8 uids_of one_user int
group_member_be_remove_message req = record {
  header = record { no_persist = 0; red_dot = 1; sync_once = 0 };
  setting = to_uint8 (record { receipt = false; no_update_conversation = true; signal = false });
  from_uid = [];
  channel_id = req.group_no;
  channel_type = channel_type_group;
  stream_no = [];
  subscribers = uids_of req.members;
  payload = object (
      ("content", string (str "你被{0}移除群聊"))
      ∷ ("visibles", texts (uids_of req.members))
      ∷ ("extra", one_user req.operator req.operator_name)
      ∷ ("type", nat (int ContentType.group_member_be_remove))
      ∷ []);
}

-- SendGroupMemberBeRemove: without members nothing is sent.
unfoldable pub send_group_member_be_remove : Server → MsgGroupMembersReq → Result (Unit {0})
unfolding group_member_be_remove_message send_message
send_group_member_be_remove server req = elim req.members [
  | [] ↦ ok tt
  | _ ∷ _ ↦ send_message server (group_member_be_remove_message req)
]

pub record MsgGroupMemberScanJoin : Type 0 where
  pub group_no : Str
  pub generator : Str
  pub generator_name : Str
  pub scaner : Str
  pub scaner_name : Str

-- SendGroupMemberScanJoin
unfoldable pub send_group_member_scan_join : Server → MsgGroupMemberScanJoin → Result (Unit {0})
unfolding group_message int send_message
send_group_member_scan_join server req = send_message server (
    group_message req.group_no (
      object (
        ("content", string (str "“{0}”通过“{1}”的二维码加入群聊"))
        ∷ (
          "extra",
          list (
              user (record { uid = req.scaner; name = req.scaner_name })
              ∷ user (record { uid = req.generator; name = req.generator_name })
              ∷ []),
        )
        ∷ ("type", nat (int ContentType.group_member_scan_join))
        ∷ [])))

pub record MsgGroupTransferGrouper : Type 0 where
  pub group_no : Str
  pub old_grouper : Str
  pub old_grouper_name : Str
  pub new_grouper : Str
  pub new_grouper_name : Str

-- SendGroupTransferGrouper
unfoldable pub send_group_transfer_grouper : Server → MsgGroupTransferGrouper → Result (Unit {0})
unfolding group_message one_user int send_message
send_group_transfer_grouper server req = send_message server (
    group_message req.group_no (
      object (
        ("content", string (str "“{0}”已成为新群主"))
        ∷ ("extra", one_user req.new_grouper req.new_grouper_name)
        ∷ ("type", nat (int ContentType.group_transfer_grouper))
        ∷ [])))

pub record MsgGroupMemberInviteReq : Type 0 where
  pub group_no : Str
  pub invite_no : Str
  pub inviter : Str
  pub inviter_name : Str
  pub num : ℤ
  pub subscribers : List Str

-- SendGroupMemberInviteReq
unfoldable pub send_group_member_invite_req : Server → MsgGroupMemberInviteReq → Result (Unit {0})
unfolding group_message one_user int send_message
send_group_member_invite_req server req = send_message server (
    group_message req.group_no (
      object (
        ("content", string (str "“{0}“想邀请" ++ (itoa_ℤ req.num ++ str "位朋友加入群聊")))
        ∷ ("extra", one_user req.inviter req.inviter_name)
        ∷ ("invite_no", string req.invite_no)
        ∷ ("type", nat (int ContentType.group_member_invite))
        ∷ ("visibles", texts req.subscribers)
        ∷ [])))

-- SendGroupExit
unfoldable pub send_group_exit : Server → Str → Str → Str → List Str → Result (Unit {0})
unfolding group_message one_user int send_message
send_group_exit server group_no uid name visible_uids = send_message server (
    group_message group_no (
      object (
        ("content", string (str "“{0}“退出群聊"))
        ∷ ("type", nat (int ContentType.group_member_quit))
        ∷ ("extra", one_user uid name)
        ∷ ("visibles", texts visible_uids)
        ∷ [])))

-- SendGroupMemberUpdate
unfoldable pub send_group_member_update : Server → Str → Result (Unit {0})
unfolding send_cmd
send_group_member_update server group_no = send_cmd server (record {
  no_persist = false;
  from_uid = [];
  channel_id = group_no;
  channel_type = channel_type_group;
  subscribers = [];
  cmd = str "memberUpdate";
  param = some (field "group_no" (string group_no) end);
})
