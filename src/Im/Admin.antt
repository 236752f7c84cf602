-- ===== src/Im/Admin.antt =====
-- Requests to the IM server about users, channels, conversations and stored messages:
-- config/msg.go and config/stream.go.
pub mod Laws
use jian_yu_server_lib.Base.{ℕ, String, Bool, Option, none, some, List, [], ◌∷◌, map, if◌then◌else◌}
use jian_yu_server_lib.Base.Int.{ℤ}
use jian_yu_server_lib.Base.Outcome.{Outcome, returned, panicked}
use jian_yu_server_lib.Strings.{Str, str, itoa}
use jian_yu_server_lib.Im.Json.{
  Json, null, string, number, fields, list, object, nat, texts, lookup,
}
use jian_yu_server_lib.Im.Request
use jian_yu_server_lib.Im.Request.{
  ChannelReq, ChannelCreateReq, ChannelInfoCreateReq, ChannelUidsReq, SubscriberAddReq,
  SubscriberRemoveReq, ClearConversationUnreadReq, DeleteConversationReq, SyncackReq,
  MessageRevokeReq, UpdateImTokenReq, MsgSyncReq, SyncChannelMessageReq, MessageStreamStartReq,
  MessageStreamEndReq, Body,
}
use jian_yu_server_lib.Im.Client.{
  Server, Response, Result, ok, err, ImError, decode, nil_result, ◌>>=◌, ◌>>◌, answer,
  handler_im_error, status_only, read_json, post_checked, post_decoded,
}

-- UpdateIMToken
unfoldable pub update_im_token : Server → UpdateImTokenReq → Result Json
unfolding post_decoded
update_im_token server req = post_decoded server (str "/user/token") (
    Body.value (
      object (
        ("uid", string req.uid)
        ∷ ("token", string req.token)
        ∷ ("device_level", nat req.device_level)
        ∷ ("device_flag", nat req.device_flag)
        ∷ [])))

-- QuitUserDevice; the flag -1 stands for every device.
unfoldable pub quit_user_device : Server → Str → ℤ → Result (Unit {0})
unfolding status_only
quit_user_device server uid device_flag = do
  resp ← answer (
      server (str "/user/device_quit")
        (Body.value (object (("uid", string uid) ∷ ("device_flag", number device_flag) ∷ []))))
  status_only resp

-- IMCreateOrUpdateChannelInfo
unfoldable pub im_create_or_update_channel_info : Server → ChannelInfoCreateReq → Result (Unit {0})
im_create_or_update_channel_info server req =
    post_checked server (str "/channel/info") (Body.channel_info req)

-- IMAddSystemUids
unfoldable pub im_add_system_uids : Server → List Str → Result (Unit {0})
im_add_system_uids server uids =
    post_checked server (str "/user/systemuids_add")
      (Body.value (object (("uids", texts uids) ∷ [])))

-- IMRemoveSystemUids
unfoldable pub im_remove_system_uids : Server → List Str → Result (Unit {0})
im_remove_system_uids server uids =
    post_checked server (str "/user/systemuids_remove")
      (Body.value (object (("uids", texts uids) ∷ [])))

-- IMCreateOrUpdateChannel
unfoldable pub im_create_or_update_channel : Server → ChannelCreateReq → Result (Unit {0})
im_create_or_update_channel server req =
    post_checked server (str "/channel") (Body.channel_create req)

-- IMBlacklistAdd
unfoldable pub im_blacklist_add : Server → ChannelUidsReq → Result (Unit {0})
im_blacklist_add server req =
    post_checked server (str "/channel/blacklist_add") (Body.channel_uids req)

-- IMBlacklistSet
unfoldable pub im_blacklist_set : Server → ChannelUidsReq → Result (Unit {0})
im_blacklist_set server req =
    post_checked server (str "/channel/blacklist_set") (Body.channel_uids req)

-- IMBlacklistRemove
unfoldable pub im_blacklist_remove : Server → ChannelUidsReq → Result (Unit {0})
im_blacklist_remove server req =
    post_checked server (str "/channel/blacklist_remove") (Body.channel_uids req)

-- IMWhitelistAdd
unfoldable pub im_whitelist_add : Server → ChannelUidsReq → Result (Unit {0})
im_whitelist_add server req =
    post_checked server (str "/channel/whitelist_add") (Body.channel_uids req)

-- IMWhitelistSet
unfoldable pub im_whitelist_set : Server → ChannelUidsReq → Result (Unit {0})
im_whitelist_set server req =
    post_checked server (str "/channel/whitelist_set") (Body.channel_uids req)

-- IMWhitelistRemove
unfoldable pub im_whitelist_remove : Server → ChannelUidsReq → Result (Unit {0})
im_whitelist_remove server req =
    post_checked server (str "/channel/whitelist_remove") (Body.channel_uids req)

-- IMAddSubscriber
unfoldable pub im_add_subscriber : Server → SubscriberAddReq → Result (Unit {0})
unfolding status_only
im_add_subscriber server req = do
  resp ← answer (server (str "/channel/subscriber_add") (Body.subscriber_add req))
  status_only resp

-- IMRemoveSubscriber
unfoldable pub im_remove_subscriber : Server → SubscriberRemoveReq → Result (Unit {0})
im_remove_subscriber server req =
    post_checked server (str "/channel/subscriber_remove") (Body.subscriber_remove req)

-- IMGetConversations
unfoldable pub im_get_conversations : Server → Str → Result Json
im_get_conversations server uid =
    post_decoded server (str "/conversations") (Body.query (object (("uid", string uid) ∷ [])))

-- Post, where a transport error is taken for success.
post_lenient : Server → Str → Body → Result (Unit {0})
unfolding handler_im_error
post_lenient server url body = elim (server url body) [
  | none ↦ ok tt
  | some resp ↦ handler_im_error resp
]

-- IMClearConversationUnread
unfoldable pub im_clear_conversation_unread :
    Server → ClearConversationUnreadReq → Result (Unit {0})
unfolding post_lenient
im_clear_conversation_unread server req =
    post_lenient server (str "/conversations/setUnread") (Body.clear_unread req)

-- IMDeleteConversation
unfoldable pub im_delete_conversation : Server → DeleteConversationReq → Result (Unit {0})
unfolding post_lenient
im_delete_conversation server req =
    post_lenient server (str "/conversations/delete") (Body.delete_conversation req)

-- Channel of the request of IMSyncUserConversation
abbrev channel_json : ChannelReq → Json
channel_json channel =
    object
      (("channel_id", string channel.channel_id) ∷ ("channel_type", nat channel.channel_type) ∷ [])

-- IMSyncUserConversation
unfoldable pub im_sync_user_conversation :
    Server → Str → ℤ → ℤ → Str → List ChannelReq → Result Json
im_sync_user_conversation server uid version msg_count last_msg_seqs larges =
    post_decoded server (str "/conversation/sync") (
      Body.value (
        object (
          ("uid", string uid)
          ∷ ("version", number version)
          ∷ ("last_msg_seqs", string last_msg_seqs)
          ∷ ("msg_count", number msg_count)
          ∷ ("larges", list (map channel_json larges))
          ∷ [])))

-- IMGetChannelMaxSeq
unfoldable pub im_get_channel_max_seq : Server → Str → ℕ → Result Json
im_get_channel_max_seq server channel_id channel_type =
    post_decoded server (str "/channel/max_message_seq") (
      Body.query (
        object
          (("channel_id", string channel_id) ∷ ("channel_type", string (itoa channel_type)) ∷ [])))

-- IMGetWithChannelAndSeqs
unfoldable pub im_get_with_channel_and_seqs : Server → Str → ℕ → Str → List ℕ → Result Json
im_get_with_channel_and_seqs server channel_id channel_type login_uid seqs =
    post_decoded server (str "/messages") (
      Body.value (
        object (
          ("channel_id", string channel_id)
          ∷ ("channel_type", nat channel_type)
          ∷ ("message_seqs", list (map nat seqs))
          ∷ ("login_uid", string login_uid)
          ∷ [])))

-- IMSyncChannelMessage
unfoldable pub im_sync_channel_message : Server → SyncChannelMessageReq → Result Json
im_sync_channel_message server req =
    post_decoded server (str "/channel/messagesync") (Body.channel_message_sync req)

-- IMSyncMessage
unfoldable pub im_sync_message : Server → MsgSyncReq → Result Json
im_sync_message server req = post_decoded server (str "/message/sync") (Body.message_sync req)

-- IMSyncMessageAck
unfoldable pub im_sync_message_ack : Server → SyncackReq → Result (Unit {0})
im_sync_message_ack server req = post_checked server (str "/message/syncack") (Body.sync_ack req)

-- IMRevokeMessage
unfoldable pub im_revoke_message : Server → MessageRevokeReq → Result (Unit {0})
im_revoke_message server req = post_checked server (str "/message/revoke") (Body.message_revoke req)

-- IMDelChannel
unfoldable pub im_del_channel : Server → ChannelReq → Result (Unit {0})
im_del_channel server req = post_checked server (str "/channel/delete") (Body.channel_delete req)

-- IMSearchUserMessages and IMSearchMessages, whose requests are passed on as they are.
unfoldable pub im_search_user_messages : Server → Json → Result Json
im_search_user_messages server req =
    post_decoded server (str "/plugins/wk.plugin.search/usersearch") (Body.value req)

unfoldable pub im_search_messages : Server → Json → Result Json
im_search_messages server req = post_decoded server (str "/messages") (Body.value req)

-- IMSOnlineStatus: in test mode no request is made, and the result is the nil list.
unfoldable pub ims_online_status : Bool → Server → List Str → Result Json
ims_online_status test server uids =
    if test
    then ok null
    else post_decoded server (str "/user/onlinestatus") (Body.value (texts uids))

-- `v.(string)`
abbrev as_text : Option Json → Outcome (Result Str)
as_text (some (string s)) = returned (ok s)
as_text o = panicked

-- What IMStreamStart makes of a decoded result: `resultMap["stream_no"].(string)` panics when there
-- is no string there.
unfoldable pub stream_no_of : Json → Outcome (Result Str)
unfolding lookup
stream_no_of null = returned (err nil_result)
stream_no_of (fields fs) = as_text (lookup "stream_no" fs)
stream_no_of j = returned (err decode)

-- IMStreamStart
unfoldable pub im_stream_start : Server → MessageStreamStartReq → Outcome (Result Str)
unfolding post_decoded stream_no_of
im_stream_start server req =
    elim (post_decoded server (str "/streammessage/start") (Body.stream_start req)) [
      | err e ↦ returned (err e)
      | ok j ↦ stream_no_of j
    ]

-- IMStreamEnd
unfoldable pub im_stream_end : Server → MessageStreamEndReq → Result (Unit {0})
im_stream_end server req = post_checked server (str "/streammessage/end") (Body.stream_end req)
