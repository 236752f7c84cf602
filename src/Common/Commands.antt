-- ===== src/Common/Commands.antt =====
-- common/constant.go: the names of the commands that clients are sent.
use jian_yu_server_lib.Strings.{Str, str}

-- The commands
pub data Cmd : Type 0 where
  cmd_channel_update cmd_group_member_update cmd_conversation_unread_clear cmd_group_avatar_update
        cmd_community_avatar_update cmd_community_cover_update cmd_conversation_delete
        cmd_friend_request cmd_friend_accept cmd_friend_deleted cmd_user_avatar_update cmd_typing
        cmd_online_status cmd_moment_msg cmd_sync_message_extra cmd_sync_message_reaction
        cmd_pc_quit cmd_conversation_deleted cmd_sync_reminders cmd_sync_conversation_extra
        cmd_organization_info_update cmd_quit_organization cmd_join_organization
        cmd_sync_pinned_message cmd_message_erase :
      Cmd

unfoldable pub cmd_name : Cmd → Str
cmd_name cmd_channel_update = str "channelUpdate"
cmd_name cmd_group_member_update = str "memberUpdate"
cmd_name cmd_conversation_unread_clear = str "unreadClear"
cmd_name cmd_group_avatar_update = str "groupAvatarUpdate"
cmd_name cmd_community_avatar_update = str "communityAvatarUpdate"
cmd_name cmd_community_cover_update = str "communityCoverUpdate"
cmd_name cmd_conversation_delete = str "conversationDelete"
cmd_name cmd_friend_request = str "friendRequest"
cmd_name cmd_friend_accept = str "friendAccept"
cmd_name cmd_friend_deleted = str "friendDeleted"
cmd_name cmd_user_avatar_update = str "userAvatarUpdate"
cmd_name cmd_typing = str "typing"
cmd_name cmd_online_status = str "onlineStatus"
cmd_name cmd_moment_msg = str "momentMsg"
cmd_name cmd_sync_message_extra = str "syncMessageExtra"
cmd_name cmd_sync_message_reaction = str "syncMessageReaction"
cmd_name cmd_pc_quit = str "pcQuit"
cmd_name cmd_conversation_deleted = str "conversationDeleted"
cmd_name cmd_sync_reminders = str "syncReminders"
cmd_name cmd_sync_conversation_extra = str "syncConversationExtra"
cmd_name cmd_organization_info_update = str "organizationInfoUpdate"
cmd_name cmd_quit_organization = str "quitOrganization"
cmd_name cmd_join_organization = str "joinOrganization"
cmd_name cmd_sync_pinned_message = str "syncPinnedMessage"
cmd_name cmd_message_erase = str "messageEerase"
