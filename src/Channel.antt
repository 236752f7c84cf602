-- ===== src/Channel.antt =====
-- Channel identities: common/msg.go (fake person channels), config/config.go (visitor and customer
-- service channels, avatar paths), pkg/util/hash.go.
pub mod FakeId
pub mod Service
mod Tests
use Prim.Native.Nat.{bit_xor}
use mathlib.Core.List.{foldl}
use jian_yu_server_lib.Base.{
  ℕ, zero, suc, ◌+◌, ◌/◌, ◌%◌, ◌≡◌, refl, Bool, true, false, not, List, [], ◌∷◌, ◌++◌, ltb, ◌==◌,
  if◌then◌else◌,
}
use jian_yu_server_lib.Base.Outcome.{Outcome, returned, panicked, index, ◌>>=◌}
use jian_yu_server_lib.Strings.{Str, str, str_eq, has_prefix, has_suffix, contains, split, itoa}

-- One bit, one byte and a whole string of hash/crc32's ChecksumIEEE.
abbrev crc_bit : ℕ → ℕ
crc_bit x = if x % 2 == 1 then bit_xor (x / 2) 0xedb88320 else x / 2

crc_rounds : ℕ → ℕ → ℕ
crc_rounds zero x = x
crc_rounds (suc n) x = crc_rounds n (crc_bit x)

checksum_ieee : Str → ℕ
unfolding crc_rounds
checksum_ieee s = bit_xor (foldl (λ crc b. crc_rounds 8 (bit_xor crc b)) 0xffffffff s) 0xffffffff

-- util.HashCrc32
pub hash_crc32 : Str → ℕ
unfolding checksum_ieee
hash_crc32 s = checksum_ieee s

-- GetFakeChannelIDWith
unfoldable pub get_fake_channel_id_with : Str → Str → Str
get_fake_channel_id_with from_uid to_uid =
    if ltb (hash_crc32 to_uid) (hash_crc32 from_uid)
    then from_uid ++ (b'@' ∷ to_uid)
    else to_uid ++ (b'@' ∷ from_uid)

-- IsFakeChannel
unfoldable pub is_fake_channel : Str → Bool
is_fake_channel channel_id = contains channel_id (b'@' ∷ [])

-- The choice between the two parts of a fake id.
abbrev pub other_part : Str → Str → List Str → Str
other_part fake_channel_id uid (a ∷ b ∷ []) = if str_eq a uid then b else a
other_part fake_channel_id uid parts = fake_channel_id

-- GetToChannelIDWithFakeChannelID
unfoldable pub get_to_channel_id_with_fake_channel_id : Str → Str → Str
get_to_channel_id_with_fake_channel_id fake_channel_id uid =
    other_part fake_channel_id uid (split fake_channel_id b'@' [])

-- IsVisitorChannel
unfoldable pub is_visitor_channel : Str → Bool
unfolding str has_suffix
is_visitor_channel uid = has_suffix uid (str "@ht")

-- IsVisitor; the argument in front is the configured VisitorUIDPrefix
unfoldable pub is_visitor : Str → Str → Bool
unfolding has_prefix
is_visitor visitor_uid_prefix uid = has_prefix uid visitor_uid_prefix

-- ComposeCustomerServiceChannelID
unfoldable pub compose_customer_service_channel_id : Str → Str → Str
compose_customer_service_channel_id vid channel_id = vid ++ (b'|' ∷ channel_id)

-- The part of the split id at an index, `""` and false without a separator.
unfoldable pub customer_service_part : ℕ → Str → Outcome (Str × Bool)
customer_service_part i channel_id =
    if not (contains channel_id (b'|' ∷ []))
    then returned ([], false)
    else do part ← index (split channel_id b'|' []) i; returned (part, true)

-- GetCustomerServiceChannelID
unfoldable pub get_customer_service_channel_id : Str → Outcome (Str × Bool)
unfolding customer_service_part
get_customer_service_channel_id = customer_service_part 1

-- GetCustomerServiceVisitorUID
unfoldable pub get_customer_service_visitor_uid : Str → Outcome (Str × Bool)
unfolding customer_service_part
get_customer_service_visitor_uid = customer_service_part 0

-- `crc32.ChecksumIEEE(id) % uint32(Partition)`, which panics on a zero divisor. The conversion of
-- the configured int, here a number that is not negative, keeps its low 32 bits.
unfoldable pub avatar_id : ℕ → Str → Outcome ℕ
avatar_id partition id =
    let divisor = partition % 4294967296 in
    if divisor == 0 then panicked else returned (hash_crc32 id % divisor)

-- The paths of GetGroupAvatarFilePath, GetCommunityAvatarFilePath, GetCommunityCoverFilePath.
unfoldable pub avatar_path : Str → Str → ℕ → Str → Outcome Str
avatar_path folder suffix partition id = do
  bucket ← avatar_id partition id
  returned (folder ++ (b'/' ∷ (itoa bucket ++ (b'/' ∷ (id ++ suffix)))))

unfoldable pub get_group_avatar_file_path : ℕ → Str → Outcome Str
unfolding avatar_path
get_group_avatar_file_path = avatar_path (str "group") (str ".png")

unfoldable pub get_community_avatar_file_path : ℕ → Str → Outcome Str
unfolding avatar_path
get_community_avatar_file_path = avatar_path (str "community") (str ".png")

unfoldable pub get_community_cover_file_path : ℕ → Str → Outcome Str
unfolding avatar_path
get_community_cover_file_path = avatar_path (str "community") (str "_cover.png")

crc32_runs : hash_crc32 (str "123456789") ≡ 0xcbf43926
unfolding hash_crc32 str
crc32_runs = refl
