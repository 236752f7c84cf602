-- ===== src/Im/Setting.antt =====
-- The setting byte of a message: Setting, ToUint8 and SettingFromUint8 of config/msg.go.
use Prim.Native.Nat.{bit_and, bit_or}
use jian_yu_server_lib.Base.{
  false, ℕ, zero, suc, ◌*◌, ◌/◌, ◌%◌, ◌<◌, ◌≡◌, refl, Bool, true, if◌then◌else◌, arith, ltb, ◌==◌,
  ==_iff, if◌then◌else◌,
}

pub record Setting : Type 0 where
  pub receipt : Bool
  pub no_update_conversation : Bool
  pub signal : Bool

abbrev pub encode_bool : Bool → ℕ
encode_bool b = if b then 1 else 0

-- ToUint8: the shifted bits joined by `|`, cut off to a byte.
unfoldable pub to_uint8 : Setting → ℕ
to_uint8 s =
    bit_or (bit_or (encode_bool s.receipt * 128) (encode_bool s.no_update_conversation * 64))
      (encode_bool s.signal * 32)
    % 256

-- SettingFromUint8
unfoldable pub setting_from_uint8 : ℕ → Setting
setting_from_uint8 v = record {
  receipt = ltb 0 (bit_and (v / 128) 1);
  no_update_conversation = ltb 0 (bit_and (v / 64) 1);
  signal = ltb 0 (bit_and (v / 32) 1);
}

-- Every setting is read back from its byte.
pub from-to_uint8 : (s : Setting) → setting_from_uint8 (to_uint8 s) ≡ s
unfolding setting_from_uint8 to_uint8
from-to_uint8 s = ground arith

-- The test holds of `n` numbers, from 0 up.
every : (ℕ → Bool) → ℕ → Bool
every test zero = true
every test (suc n) = if test n then every test n else false

every_lem : (test : ℕ → Bool) (n v : ℕ) → v < n → every test n ≡ true → test v ≡ true
unfolding every
every_lem test zero v small h = absurd (omega arith)
every_lem test (suc n) v small h = ground (arith, every_lem test n v)

bytes_checked : every (λ v. to_uint8 (setting_from_uint8 v) == v / 32 * 32) 256 ≡ true
unfolding every setting_from_uint8 to_uint8
bytes_checked = refl

-- A byte that is read as a setting and written again keeps its three high bits; the low five, which
-- no setting uses, are cleared.
pub to-from_uint8 : (v : ℕ) → v < 256 → to_uint8 (setting_from_uint8 v) ≡ v / 32 * 32
to-from_uint8 v h = (==_iff _ _).0 (every_lem _ 256 v h bytes_checked)
