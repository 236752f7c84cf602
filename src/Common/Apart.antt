-- ===== src/Common/Apart.antt =====
-- No two sequences have one key, and no two kinds of cache entries.
use mathlib.Core.Option.{some-injective}
use jian_yu_server_lib.Base.{
  ◌≡◌, refl, sym, ap, ◌∙◌, Option, none, some, List, [], ◌∷◌, ◌++◌, ◌↔◌, drop, if◌then◌else◌,
}
use jian_yu_server_lib.Strings.{Str, str, str_eq, has_prefix}
use jian_yu_server_lib.Common.Keys.{
  SeqKey, seq_key, CachePrefix, cache_prefix, group_member_seq_key, group_setting_seq_key,
  group_seq_key, user_setting_seq_key, user_seq_key, friend_seq_key, message_extra_seq_key,
  message_reaction_seq_key, robot_seq_key, robot_event_seq_key, sensitive_words_key, reminders_key,
  sync_conversation_extra_key, prohibit_word_key, user_device_token_prefix,
  user_voip_device_token_prefix, user_device_badge_prefix, qrcode_cache_prefix,
  auth_code_cache_prefix, device_cache_uuid_prefix,
}
use jian_yu_server_lib.Common.Commands.{
  Cmd, cmd_name, cmd_channel_update, cmd_group_member_update, cmd_conversation_unread_clear,
  cmd_group_avatar_update, cmd_community_avatar_update, cmd_community_cover_update,
  cmd_conversation_delete, cmd_friend_request, cmd_friend_accept, cmd_friend_deleted,
  cmd_user_avatar_update, cmd_typing, cmd_online_status, cmd_moment_msg, cmd_sync_message_extra,
  cmd_sync_message_reaction, cmd_pc_quit, cmd_conversation_deleted, cmd_sync_reminders,
  cmd_sync_conversation_extra, cmd_organization_info_update, cmd_quit_organization,
  cmd_join_organization, cmd_sync_pinned_message, cmd_message_erase,
}

-- The first of some constants whose text is `s`
unfoldable find_named {ℓ} : {A : Type ℓ} → (A → Str) → List A → Str → Option A
unfolding str_eq
find_named name [] s = none
find_named name (a ∷ rest) s =
    let found = find_named name rest s in if str_eq (name a) s then some a else found

-- The first of some constants whose text `s` begins with
unfoldable find_prefix {ℓ} : {A : Type ℓ} → (A → Str) → List A → Str → Option A
unfolding has_prefix
find_prefix name [] s = none
find_prefix name (a ∷ rest) s =
    let found = find_prefix name rest s in if has_prefix s (name a) then some a else found

abbrev all_seq_keys : List SeqKey
all_seq_keys =
    group_member_seq_key ∷ group_setting_seq_key ∷ group_seq_key ∷ user_setting_seq_key
    ∷ user_seq_key ∷ friend_seq_key ∷ message_extra_seq_key ∷ message_reaction_seq_key
    ∷ robot_seq_key ∷ robot_event_seq_key ∷ sensitive_words_key ∷ reminders_key
    ∷ sync_conversation_extra_key ∷ prohibit_word_key ∷ []

seq_key-find_named : (k : SeqKey) → find_named seq_key all_seq_keys (seq_key k) ≡ some k
unfolding find_named seq_key str
seq_key-find_named group_member_seq_key = refl
seq_key-find_named group_setting_seq_key = refl
seq_key-find_named group_seq_key = refl
seq_key-find_named user_setting_seq_key = refl
seq_key-find_named user_seq_key = refl
seq_key-find_named friend_seq_key = refl
seq_key-find_named message_extra_seq_key = refl
seq_key-find_named message_reaction_seq_key = refl
seq_key-find_named robot_seq_key = refl
seq_key-find_named robot_event_seq_key = refl
seq_key-find_named sensitive_words_key = refl
seq_key-find_named reminders_key = refl
seq_key-find_named sync_conversation_extra_key = refl
seq_key-find_named prohibit_word_key = refl

abbrev all_cmd_names : List Cmd
all_cmd_names =
    cmd_channel_update ∷ cmd_group_member_update ∷ cmd_conversation_unread_clear
    ∷ cmd_group_avatar_update ∷ cmd_community_avatar_update ∷ cmd_community_cover_update
    ∷ cmd_conversation_delete ∷ cmd_friend_request ∷ cmd_friend_accept ∷ cmd_friend_deleted
    ∷ cmd_user_avatar_update ∷ cmd_typing ∷ cmd_online_status ∷ cmd_moment_msg
    ∷ cmd_sync_message_extra ∷ cmd_sync_message_reaction ∷ cmd_pc_quit ∷ cmd_conversation_deleted
    ∷ cmd_sync_reminders ∷ cmd_sync_conversation_extra ∷ cmd_organization_info_update
    ∷ cmd_quit_organization ∷ cmd_join_organization ∷ cmd_sync_pinned_message ∷ cmd_message_erase
    ∷ []

cmd_name-find_named : (k : Cmd) → find_named cmd_name all_cmd_names (cmd_name k) ≡ some k
unfolding find_named cmd_name str
cmd_name-find_named cmd_channel_update = refl
cmd_name-find_named cmd_group_member_update = refl
cmd_name-find_named cmd_conversation_unread_clear = refl
cmd_name-find_named cmd_group_avatar_update = refl
cmd_name-find_named cmd_community_avatar_update = refl
cmd_name-find_named cmd_community_cover_update = refl
cmd_name-find_named cmd_conversation_delete = refl
cmd_name-find_named cmd_friend_request = refl
cmd_name-find_named cmd_friend_accept = refl
cmd_name-find_named cmd_friend_deleted = refl
cmd_name-find_named cmd_user_avatar_update = refl
cmd_name-find_named cmd_typing = refl
cmd_name-find_named cmd_online_status = refl
cmd_name-find_named cmd_moment_msg = refl
cmd_name-find_named cmd_sync_message_extra = refl
cmd_name-find_named cmd_sync_message_reaction = refl
cmd_name-find_named cmd_pc_quit = refl
cmd_name-find_named cmd_conversation_deleted = refl
cmd_name-find_named cmd_sync_reminders = refl
cmd_name-find_named cmd_sync_conversation_extra = refl
cmd_name-find_named cmd_organization_info_update = refl
cmd_name-find_named cmd_quit_organization = refl
cmd_name-find_named cmd_join_organization = refl
cmd_name-find_named cmd_sync_pinned_message = refl
cmd_name-find_named cmd_message_erase = refl

abbrev all_cache_prefixes : List CachePrefix
all_cache_prefixes =
    user_device_token_prefix ∷ user_voip_device_token_prefix ∷ user_device_badge_prefix
    ∷ qrcode_cache_prefix ∷ auth_code_cache_prefix ∷ device_cache_uuid_prefix ∷ []

-- The kind of a cache key is read off its front.
cache_prefix-find_prefix :
    (p : CachePrefix) (x : Str)
    → find_prefix cache_prefix all_cache_prefixes (cache_prefix p ++ x) ≡ some p
unfolding find_prefix cache_prefix str
cache_prefix-find_prefix user_device_token_prefix x = refl
cache_prefix-find_prefix user_voip_device_token_prefix x = refl
cache_prefix-find_prefix user_device_badge_prefix x = refl
cache_prefix-find_prefix qrcode_cache_prefix x = refl
cache_prefix-find_prefix auth_code_cache_prefix x = refl
cache_prefix-find_prefix device_cache_uuid_prefix x = refl

append_cancel : (a x y : Str) → a ++ x ≡ a ++ y → x ≡ y
append_cancel [] x y e = e
append_cancel (c ∷ a) x y e = append_cancel a x y (ap (drop 1) e)

prefix_of_key : (p q : CachePrefix) (x y : Str) → cache_prefix p ++ x ≡ cache_prefix q ++ y → p ≡ q
prefix_of_key p q x y e = some-injective _ _ (
    sym (cache_prefix-find_prefix p x)
    ∙ (ap (find_prefix cache_prefix all_cache_prefixes) e ∙ cache_prefix-find_prefix q y))

-- Different kinds of sequences have different keys, different commands have different names, and
-- cache keys are equal only for one kind of entry with equal texts behind the prefix.
pub keys_apart :
    (k l : SeqKey) (c d : Cmd) (p q : CachePrefix) (x y : Str)
    → ((seq_key k ≡ seq_key l) ↔ (k ≡ l))
      × ((cmd_name c ≡ cmd_name d) ↔ (c ≡ d))
      × ((cache_prefix p ++ x ≡ cache_prefix q ++ y) ↔ ((p ≡ q) × (x ≡ y)))
keys_apart k l c d p q x y = (
  (
    λ e. some-injective _ _ (
        sym (seq_key-find_named k)
        ∙ (ap (find_named seq_key all_seq_keys) e ∙ seq_key-find_named l)),
    λ e. ap seq_key e,
  ),
  (
    λ e. some-injective _ _ (
        sym (cmd_name-find_named c)
        ∙ (ap (find_named cmd_name all_cmd_names) e ∙ cmd_name-find_named d)),
    λ e. ap cmd_name e,
  ),
  (
    λ e.
        let same = prefix_of_key p q x y e in
        (same, append_cancel (cache_prefix q) x y (ap (λ r. cache_prefix r ++ x) (sym same) ∙ e)),
    λ (same, rest). ap (λ r. cache_prefix r ++ x) same ∙ ap (λ t. cache_prefix q ++ t) rest,
  ),
)
