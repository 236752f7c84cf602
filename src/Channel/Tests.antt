-- ===== src/Channel/Tests.antt =====
-- Runs of the channel functions, and the theorems about them at concrete ids.
use jian_yu_server_lib.Base.{◌≡◌, ◌≢◌, ◌⊎◌, refl, ◌∷◌, [], arith}
use jian_yu_server_lib.Strings.{Str}
use jian_yu_server_lib.Channel.{
  hash_crc32, get_fake_channel_id_with, get_to_channel_id_with_fake_channel_id,
}
use jian_yu_server_lib.Channel.FakeId.{to_channel-fake, fake_injective}

abbrev alice : Str
alice = b'a' ∷ b'l' ∷ []

abbrev bob : Str
bob = b'b' ∷ b'o' ∷ []

to_channel-fake_example :
    (get_to_channel_id_with_fake_channel_id (get_fake_channel_id_with alice bob) alice ≡ bob)
    × (get_to_channel_id_with_fake_channel_id (get_fake_channel_id_with alice bob) bob ≡ alice)
to_channel-fake_example = to_channel-fake alice bob (omega arith) (omega arith)

alice-ne-bob : alice ≢ bob
alice-ne-bob e = ground arith

fake_injective_example : ((alice ≡ bob) × (bob ≡ alice)) ⊎ ((alice ≡ alice) × (bob ≡ bob))
unfolding get_fake_channel_id_with hash_crc32
fake_injective_example =
    fake_injective alice bob bob alice (omega arith) (omega arith) (omega arith) (omega arith) refl
