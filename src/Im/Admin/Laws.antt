-- ===== src/Im/Admin/Laws.antt =====
-- When the requests of config/msg.go and config/stream.go succeed.
use jian_yu_server_lib.Base.{
  Option-cases, refl, ap, ◌∙◌, ◌≡◌, not, ◌↔◌, ◌⊎◌, inl, inr, Option, none, some, arith, Bool, true,
  false, ◌==◌, ◌&&◌,
}
use jian_yu_server_lib.Strings.{Str, str}
use jian_yu_server_lib.Base.Outcome.{panicked}
use jian_yu_server_lib.Im.Json.{Json, null, number, array, string, fields, lookup}
use jian_yu_server_lib.Im.Request.{
  ChannelUidsReq, MessageStreamStartReq, ClearConversationUnreadReq, DeleteConversationReq, Body,
  MsgSendReq,
}
use jian_yu_server_lib.Im.Client.{
  Server, Response, ok, handler_im_error, post_checked, post_decoded,
}
use jian_yu_server_lib.Im.Send.{send_message_with_result, send_message}
use package.jian_yu_server_lib.Im.Admin.{
  im_stream_start, as_text, stream_no_of, im_blacklist_add, im_blacklist_set, im_blacklist_remove,
  im_whitelist_add, im_whitelist_set, im_whitelist_remove, im_clear_conversation_unread,
  im_delete_conversation, post_lenient,
}

-- The server answered, with status 200.
abbrev pub Accepted : Option Response → Type 0
Accepted reply = (resp : Response) × (reply ≡ some resp) × (resp.status_code ≡ 200)

some_injective : (resp r : Response) → some resp ≡ some r → resp ≡ r
some_injective resp r h = cc

-- What an answer with status 200 decides, the accepted answer decides.
Accepted-iff {ℓ} :
    {P : Type ℓ} (resp : Response) → (P ↔ (resp.status_code ≡ 200)) → P ↔ Accepted (some resp)
Accepted-iff resp same = (
  λ h. (resp, refl, same.0 h),
  λ (r, e, h). same.1 (ap (λ x. x.status_code) (some_injective resp r e) ∙ h),
)

lenient_iff {ℓ} :
    {P : Type ℓ} (resp : Response)
    → (P ↔ Accepted (some resp))
    → P ↔ ((◌≡◌ {A = Option Response} (some resp) none) ⊎ Accepted (some resp))
lenient_iff resp same = (λ h. inr (same.0 h), λ h. elim h [ inl e ↦ absurd cc | inr a ↦ same.1 a ])

handler_im_error_iff :
    (resp : Response) → (handler_im_error resp ≡ ok tt) ↔ (resp.status_code ≡ 200)
unfolding handler_im_error
handler_im_error_iff resp = ground arith

post_checked_iff :
    (server : Server) (url : Str) (body : Body)
    → (post_checked server url body ≡ ok tt) ↔ Accepted (server url body)
unfolding post_checked
post_checked_iff server url body = elim (Option-cases (server url body)) [
  | inl e ↦ rw e (ground arith)
  | inr (resp, e) ↦ rw e (Accepted-iff resp (handler_im_error_iff resp))
]

post_lenient_iff :
    (server : Server) (url : Str) (body : Body)
    → (post_lenient server url body ≡ ok tt)
      ↔ ((server url body ≡ none) ⊎ Accepted (server url body))
unfolding post_lenient
post_lenient_iff server url body = elim (Option-cases (server url body)) [
  | inl e ↦ rw e (ground arith)
  | inr (resp, e) ↦
      rw (post_lenient, e) (lenient_iff resp (Accepted-iff resp (handler_im_error_iff resp)))
]

-- Each change of a channel's blacklist or whitelist reports success exactly if the IM server
-- answered it with status 200, at the path of that change.
pub channel_uids_iff :
    (server : Server) (req : ChannelUidsReq)
    → ((im_blacklist_add server req ≡ ok tt)
        ↔ Accepted (server (str "/channel/blacklist_add") (Body.channel_uids req)))
      × ((im_blacklist_set server req ≡ ok tt)
          ↔ Accepted (server (str "/channel/blacklist_set") (Body.channel_uids req)))
      × ((im_blacklist_remove server req ≡ ok tt)
          ↔ Accepted (server (str "/channel/blacklist_remove") (Body.channel_uids req)))
      × ((im_whitelist_add server req ≡ ok tt)
          ↔ Accepted (server (str "/channel/whitelist_add") (Body.channel_uids req)))
      × ((im_whitelist_set server req ≡ ok tt)
          ↔ Accepted (server (str "/channel/whitelist_set") (Body.channel_uids req)))
      × ((im_whitelist_remove server req ≡ ok tt)
          ↔ Accepted (server (str "/channel/whitelist_remove") (Body.channel_uids req)))
unfolding im_blacklist_add im_blacklist_set im_blacklist_remove im_whitelist_add im_whitelist_set
    im_whitelist_remove
channel_uids_iff server req = (
  post_checked_iff server _ _,
  post_checked_iff server _ _,
  post_checked_iff server _ _,
  post_checked_iff server _ _,
  post_checked_iff server _ _,
  post_checked_iff server _ _,
)

-- Clearing the unread count of a conversation, and deleting it, report success if the IM server
-- answered with status 200, and also if no request reached it.
pub conversation_iff :
    (server : Server) (clear : ClearConversationUnreadReq) (delete : DeleteConversationReq)
    → ((im_clear_conversation_unread server clear ≡ ok tt) ↔ (
        (server (str "/conversations/setUnread") (Body.clear_unread clear) ≡ none)
        ⊎ Accepted (server (str "/conversations/setUnread") (Body.clear_unread clear))))
      × ((im_delete_conversation server delete ≡ ok tt) ↔ (
          (server (str "/conversations/delete") (Body.delete_conversation delete) ≡ none)
          ⊎ Accepted (server (str "/conversations/delete") (Body.delete_conversation delete))))
unfolding im_clear_conversation_unread im_delete_conversation
conversation_iff server clear delete = (post_lenient_iff server _ _, post_lenient_iff server _ _)

-- SendMessage reports success exactly if the IM server answered it with status 200.
pub send_message_iff :
    (server : Server) (req : MsgSendReq)
    → (send_message server req ≡ ok tt) ↔ Accepted (server (str "/message/send") (Body.send req))
unfolding send_message send_message_with_result handler_im_error
send_message_iff server req = elim (Option-cases (server (str "/message/send") (Body.send req))) [
  | inl e ↦ rw e (ground arith)
  | inr (resp, e) ↦ rw e (Accepted-iff resp (ground arith))
]

-- There is a value, and it is a string.
abbrev pub is_text : Option Json → Bool
is_text (some (string s)) = true
is_text o = false

as_text_iff : (o : Option Json) → (as_text o ≡ panicked) ↔ (is_text o ≡ false)
as_text_iff none = ground arith
as_text_iff (some (string s)) = ground arith
as_text_iff (some null) = ground arith
as_text_iff (some (Json.bool b)) = ground arith
as_text_iff (some (number n)) = ground arith
as_text_iff (some (Json.decimal text)) = ground arith
as_text_iff (some (array js)) = ground arith
as_text_iff (some (fields fs)) = ground arith

-- A JSON object without a string as its "stream_no".
abbrev pub no_stream_no : Option Json → Bool
no_stream_no (some (fields fs)) = not (is_text (lookup "stream_no" fs))
no_stream_no o = false

stream_no_of_iff : (j : Json) → (stream_no_of j ≡ panicked) ↔ (no_stream_no (some j) ≡ true)
unfolding stream_no_of
stream_no_of_iff (fields fs) = ground (arith, as_text_iff (lookup "stream_no" fs))
stream_no_of_iff null = ground arith
stream_no_of_iff (string s) = ground arith
stream_no_of_iff (Json.bool b) = ground arith
stream_no_of_iff (number n) = ground arith
stream_no_of_iff (Json.decimal text) = ground arith
stream_no_of_iff (array js) = ground arith

-- An answer with status 200 whose body is such an object.
abbrev pub starts_nothing : Option Response → Bool
starts_nothing none = false
starts_nothing (some resp) = (resp.status_code == 200) && no_stream_no resp.body

-- Starting a stream panics exactly if the IM server answers with status 200 and a JSON object that
-- has no string as its "stream_no"; any other answer, and none, gives a number or an error.
pub im_stream_start_panics_iff :
    (server : Server) (req : MessageStreamStartReq)
    → (im_stream_start server req ≡ panicked)
      ↔ (starts_nothing (server (str "/streammessage/start") (Body.stream_start req)) ≡ true)
unfolding im_stream_start post_decoded
im_stream_start_panics_iff server req =
    elim (Option-cases (server (str "/streammessage/start") (Body.stream_start req))) [
      | inl e ↦ rw e (ground arith)
      | inr (resp, e) ↦ elim (Option-cases resp.body) [
        | inl b ↦ rw (e, b) (ground (arith, handler_im_error_iff resp))
        | inr (j, b) ↦ rw (e, b) (ground (arith, stream_no_of_iff j, handler_im_error_iff resp))
      ]
    ]
