-- ===== src/Common/Tests.antt =====
-- Keys of the cache that look alike.
use jian_yu_server_lib.Base.{◌≡◌, ◌↔◌, refl, ◌++◌}
use jian_yu_server_lib.Strings.{str}
use jian_yu_server_lib.Common.Keys.{
  seq_key, group_seq_key, group_member_seq_key, cache_prefix, user_device_token_prefix,
  user_device_badge_prefix, marshal_qrcode_type, qrcode_type, qrcode_type_group,
}
use jian_yu_server_lib.Common.Commands.{cmd_name, cmd_typing, cmd_online_status}
use jian_yu_server_lib.Common.Apart.{keys_apart}

keys_apart_example :
    ((seq_key group_seq_key ≡ seq_key group_member_seq_key)
      ↔ (group_seq_key ≡ group_member_seq_key))
    × ((cmd_name cmd_typing ≡ cmd_name cmd_online_status) ↔ (cmd_typing ≡ cmd_online_status))
    × ((cache_prefix user_device_badge_prefix ++ str "u7"
          ≡ cache_prefix user_device_token_prefix ++ str "u7")
        ↔ ((user_device_badge_prefix ≡ user_device_token_prefix) × (str "u7" ≡ str "u7")))
keys_apart_example =
    keys_apart group_seq_key group_member_seq_key cmd_typing cmd_online_status
      user_device_badge_prefix user_device_token_prefix (str "u7") (str "u7")

marshal_runs : marshal_qrcode_type qrcode_type_group ≡ str "\"group\""
unfolding marshal_qrcode_type qrcode_type str
marshal_runs = refl
