-- ===== src/Im/Message.antt =====
-- MessageResp of config/msg.go: the payload of a message that the IM server delivers, decoded on
-- first use, and the checks and texts of small requests.
pub mod Payload
mod Tests
use jian_yu_server_lib.Base.{
  ℕ, ◌-◌, ◌^◌, ◌≤◌, ◌<◌, ◌≡◌, ◌≢◌, ◌↔◌, ◌⊎◌, inl, inr, refl, sym, Bool, true, false, Option, none,
  some, List, [], ◌∷◌, ◌++◌, ltb, leb, ◌==◌, if◌then◌else◌, arith,
}
use jian_yu_server_lib.Base.Int.{ℤ, pos, negsuc}
use jian_yu_server_lib.Base.Outcome.{Outcome, returned, panicked}
use jian_yu_server_lib.Strings.{Str, str, itoa, is_blank}
use package.jian_yu_server_lib.Im.Json.{Json, null, number, decimal, fields, Fields, lookup}
use package.jian_yu_server_lib.Im.Request.{MsgHeader, SyncackReq}

-- DeviceLevel
pub data DeviceLevel : Type 0 where
  device_level_slave device_level_master : DeviceLevel

-- DeviceFlag
pub data DeviceFlag : Type 0 where
  app web pc : DeviceFlag

-- Uint8
unfoldable pub uint8 : DeviceFlag → ℕ
uint8 app = 0
uint8 web = 1
uint8 pc = 2

pub record StreamItemResp : Type 0 where
  pub stream_seq : ℕ
  pub client_msg_no : Str
  pub blob : List ℕ

-- A message. `payload` is the first JSON value of its bytes, `none` where they begin with none;
-- `payload_map` is `none` for a nil map.
pub record MessageResp : Type 0 where
  pub header : MsgHeader
  pub setting : ℕ
  pub message_id_str : Str
  pub message_id : ℤ
  pub message_seq : ℕ
  pub client_msg_no : Str
  pub expire : ℕ
  pub from_uid : Str
  pub to_uid : Str
  pub channel_id : Str
  pub channel_type : ℕ
  pub timestamp : ℤ
  pub payload : Option Json
  pub stream_no : Str
  pub streams : List StreamItemResp
  pub is_deleted : ℤ
  pub voice_status : ℤ
  pub payload_map : Option Fields

abbrev pub with_payload_map : MessageResp → Option Fields → MessageResp
with_payload_map m o = record {
  header = m.header;
  setting = m.setting;
  message_id_str = m.message_id_str;
  message_id = m.message_id;
  message_seq = m.message_seq;
  client_msg_no = m.client_msg_no;
  expire = m.expire;
  from_uid = m.from_uid;
  to_uid = m.to_uid;
  channel_id = m.channel_id;
  channel_type = m.channel_type;
  timestamp = m.timestamp;
  payload = m.payload;
  stream_no = m.stream_no;
  streams = m.streams;
  is_deleted = m.is_deleted;
  voice_status = m.voice_status;
  payload_map = o;
}

-- ReadJsonByByte into a map: `none` is an error, and the value `null` leaves the map nil.
unfoldable pub read_map : Option Json → Option (Option Fields)
read_map (some (fields fs)) = some (some fs)
read_map (some null) = some none
read_map o = none

-- GetPayloadMap: the map or `none` for an error, and the message afterwards
unfoldable pub get_payload_map : MessageResp → Option (Option Fields) × MessageResp
unfolding read_map
get_payload_map m = elim m.payload_map [
  | some fs ↦ (some (some fs), m)
  | none ↦ elim (read_map m.payload) [ none ↦ (none, m) | some o ↦ (some o, with_payload_map m o) ]
]

-- `Int64()` of a number without fraction and exponent: out of range it is cut off. One that has any
-- gives 0, with an error.
unfoldable pub int64 : ℤ → ℤ
int64 (pos n) = if ltb n (2 ^ 63) then pos n else pos (2 ^ 63 - 1)
int64 (negsuc n) = if ltb n (2 ^ 63) then negsuc n else negsuc (2 ^ 63 - 1)

-- `payloadMap["type"].(json.Number).Int64()`
unfoldable pub type_of : Option Json → Outcome ℤ
unfolding int64
type_of (some (number n)) = returned (int64 n)
type_of (some (decimal text)) = returned (pos 0)
type_of o = panicked

-- What GetContentType makes of the map
unfoldable pub content_type : Option (Option Fields) → Outcome ℤ
unfolding type_of lookup
content_type none = returned (pos 0)
content_type (some none) = panicked
content_type (some (some fs)) = type_of (lookup "type" fs)

-- GetContentType, with the message afterwards
unfoldable pub get_content_type : MessageResp → Outcome ℤ × MessageResp
unfolding get_payload_map content_type
get_content_type m = (content_type (get_payload_map m).0, (get_payload_map m).1)

-- SyncackReq.String
unfoldable pub syncack_string : SyncackReq → Str
syncack_string s = str "UID: " ++ (s.uid ++ (str " LastMessageSeq: " ++ itoa s.last_message_seq))

pub data SyncackError : Type 0 where
  uid_empty message_seq_zero : SyncackError

-- SyncackReq.Check; `none` is a nil error.
unfoldable pub check : SyncackReq → Option SyncackError
check s =
    if is_blank s.uid
    then some uid_empty
    else if s.last_message_seq == 0
    then some message_seq_zero
    else none

-- MsgHeader.String
unfoldable pub header_string : MsgHeader → Str
header_string h =
    str "NoPersist:"
    ++ (itoa h.no_persist
        ++ (str " RedDot:" ++ (itoa h.red_dot ++ (str " SyncOnce:" ++ itoa h.sync_once))))
