-- ===== src/Im/ContentType.antt =====
-- The content types of common/msg.go and what they are called.
use jian_yu_server_lib.Base.{ℕ, ◌≡◌, refl, Option, none, some, some, ◌==◌, if◌then◌else◌}
use jian_yu_server_lib.Strings.{Str, str, itoa}

pub data ContentType : Type 0 where
  text image gif voice video location card file red_pack transfer multiple_forward : ContentType
  vector_sticker emoji_sticker rich_text invite_join_organization : ContentType
  content_error signal_error cmd tip friend_apply group_create group_member_add : ContentType
  group_member_remove friend_sure group_update revoke_message group_member_scan_join : ContentType
  group_transfer_grouper group_member_invite red_pack_open trade_system_notify : ContentType
  group_member_be_remove group_member_quit group_upgrade : ContentType
  hotline_assign_to hotline_solved hotline_reopen video_call_result : ContentType

-- Int
unfoldable pub int : ContentType → ℕ
int text = 1
int image = 2
int gif = 3
int voice = 4
int video = 5
int location = 6
int card = 7
int file = 8
int red_pack = 9
int transfer = 10
int multiple_forward = 11
int vector_sticker = 12
int emoji_sticker = 13
int rich_text = 14
int invite_join_organization = 16
int content_error = 97
int signal_error = 98
int cmd = 99
int tip = 2000
int friend_apply = 1000
int group_create = 1001
int group_member_add = 1002
int group_member_remove = 1003
int friend_sure = 1004
int group_update = 1005
int revoke_message = 1006
int group_member_scan_join = 1007
int group_transfer_grouper = 1008
int group_member_invite = 1009
int red_pack_open = 1011
int trade_system_notify = 1012
int group_member_be_remove = 1020
int group_member_quit = 1021
int group_upgrade = 1022
int hotline_assign_to = 1200
int hotline_solved = 1201
int hotline_reopen = 1202
int video_call_result = 9989

-- GetDisplayText
unfoldable pub get_display_text : ℕ → Str
unfolding int
get_display_text content_type =
    if content_type == int text
    then str "文本消息"
    else if content_type == int image
    then str "图片消息"
    else if content_type == int gif
    then str "GIF"
    else if content_type == int voice
    then str "语音"
    else if content_type == int video
    then str "视频"
    else if content_type == int location
    then str "位置"
    else if content_type == int card
    then str "名片"
    else if content_type == int file
    then str "文件"
    else if content_type == int multiple_forward
    then str "合并转发消息"
    else if content_type == int vector_sticker
    then str "贴纸"
    else if content_type == int emoji_sticker
    then str "emoji"
    else if content_type == int rich_text
    then str "富文本消息"
    else str "未知消息类型"

-- String
unfoldable pub to_string : ContentType → Str
unfolding int
to_string text = str "Text"
to_string image = str "Image"
to_string gif = str "GIF"
to_string voice = str "Voice"
to_string cmd = str "CMD"
to_string friend_apply = str "FriendApply"
to_string group_create = str "GroupCreate"
to_string group_member_add = str "GroupMemberAdd"
to_string group_member_remove = str "GroupMemberRemove"
to_string friend_sure = str "FriendSure"
to_string group_update = str "GroupUpdate"
to_string revoke_message = str "RevokeMessage"
to_string c = itoa (int c)

-- The type of a code.
of_int : ℕ → Option ContentType
of_int n =
    if n == 1
    then some text
    else if n == 2
    then some image
    else if n == 3
    then some gif
    else if n == 4
    then some voice
    else if n == 5
    then some video
    else if n == 6
    then some location
    else if n == 7
    then some card
    else if n == 8
    then some file
    else if n == 9
    then some red_pack
    else if n == 10
    then some transfer
    else if n == 11
    then some multiple_forward
    else if n == 12
    then some vector_sticker
    else if n == 13
    then some emoji_sticker
    else if n == 14
    then some rich_text
    else if n == 16
    then some invite_join_organization
    else if n == 97
    then some content_error
    else if n == 98
    then some signal_error
    else if n == 99
    then some cmd
    else if n == 2000
    then some tip
    else if n == 1000
    then some friend_apply
    else if n == 1001
    then some group_create
    else if n == 1002
    then some group_member_add
    else if n == 1003
    then some group_member_remove
    else if n == 1004
    then some friend_sure
    else if n == 1005
    then some group_update
    else if n == 1006
    then some revoke_message
    else if n == 1007
    then some group_member_scan_join
    else if n == 1008
    then some group_transfer_grouper
    else if n == 1009
    then some group_member_invite
    else if n == 1011
    then some red_pack_open
    else if n == 1012
    then some trade_system_notify
    else if n == 1020
    then some group_member_be_remove
    else if n == 1021
    then some group_member_quit
    else if n == 1022
    then some group_upgrade
    else if n == 1200
    then some hotline_assign_to
    else if n == 1201
    then some hotline_solved
    else if n == 1202
    then some hotline_reopen
    else if n == 9989
    then some video_call_result
    else none

of_int-int : (c : ContentType) → of_int (int c) ≡ some c
unfolding of_int int
of_int-int text = refl
of_int-int image = refl
of_int-int gif = refl
of_int-int voice = refl
of_int-int video = refl
of_int-int location = refl
of_int-int card = refl
of_int-int file = refl
of_int-int red_pack = refl
of_int-int transfer = refl
of_int-int multiple_forward = refl
of_int-int vector_sticker = refl
of_int-int emoji_sticker = refl
of_int-int rich_text = refl
of_int-int invite_join_organization = refl
of_int-int content_error = refl
of_int-int signal_error = refl
of_int-int cmd = refl
of_int-int tip = refl
of_int-int friend_apply = refl
of_int-int group_create = refl
of_int-int group_member_add = refl
of_int-int group_member_remove = refl
of_int-int friend_sure = refl
of_int-int group_update = refl
of_int-int revoke_message = refl
of_int-int group_member_scan_join = refl
of_int-int group_transfer_grouper = refl
of_int-int group_member_invite = refl
of_int-int red_pack_open = refl
of_int-int trade_system_notify = refl
of_int-int group_member_be_remove = refl
of_int-int group_member_quit = refl
of_int-int group_upgrade = refl
of_int-int hotline_assign_to = refl
of_int-int hotline_solved = refl
of_int-int hotline_reopen = refl
of_int-int video_call_result = refl

-- No two content types share a code.
pub int_injective : (c d : ContentType) → int c ≡ int d → c ≡ d
int_injective c d e = cc (e, of_int-int c, of_int-int d)
