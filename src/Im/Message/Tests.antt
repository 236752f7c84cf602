-- ===== src/Im/Message/Tests.antt =====
-- Messages with payloads of different kinds.
use jian_yu_server_lib.Base.{◌≡◌, ◌≢◌, ◌↔◌, inl, refl, true, Option, none, some, [], ◌∷◌}
use jian_yu_server_lib.Base.Int.{pos}
use jian_yu_server_lib.Base.Outcome.{returned, panicked}
use jian_yu_server_lib.Strings.{str, itoa}
use jian_yu_server_lib.Im.Json.{Json, null, bool, decimal, string, object, nat, lookup}
use jian_yu_server_lib.Im.Message.{
  MessageResp, read_map, get_payload_map, get_content_type, content_type, type_of, int64,
  header_string,
}
use jian_yu_server_lib.Im.Message.Payload.{
  IsDecoded, NoNumber, type_value, get_payload_map_lem, get_content_type_panics_iff,
}

abbrev message : Option Json → MessageResp
message payload = record {
  header = record { no_persist = 0; red_dot = 1; sync_once = 0 };
  setting = 0;
  message_id_str = str "9";
  message_id = pos 9;
  message_seq = 1;
  client_msg_no = [];
  expire = 0;
  from_uid = str "u1";
  to_uid = [];
  channel_id = str "u2";
  channel_type = 1;
  timestamp = pos 0;
  payload = payload;
  stream_no = [];
  streams = [];
  is_deleted = pos 0;
  voice_status = pos 0;
  payload_map = none;
}

abbrev said : Option Json
said = some (object (("type", nat 1) ∷ ("content", string (str "hi")) ∷ []))

abbrev untyped : Option Json
untyped = some (object (("type", string (str "1")) ∷ []))

abbrev flagged : Option Json
flagged = some (object (("type", nat 1) ∷ ("type", bool true) ∷ []))

abbrev halved : Option Json
halved = some (object (("type", bool true) ∷ ("type", decimal (str "1.5")) ∷ []))

content_types_run :
    ((get_content_type (message said)).0 ≡ returned (pos 1))
    × ((get_content_type (message none)).0 ≡ returned (pos 0))
    × ((get_content_type (message (some null))).0 ≡ panicked)
    × ((get_content_type (message flagged)).0 ≡ panicked)
    × ((get_content_type (message halved)).0 ≡ returned (pos 0))
unfolding get_content_type get_payload_map read_map content_type type_of int64 lookup
content_types_run = (refl, refl, refl, refl, refl)

header_runs : header_string (message none).header ≡ str "NoPersist:0 RedDot:1 SyncOnce:0"
unfolding header_string str itoa
header_runs = refl

get_payload_map_lem_example :
    ((get_payload_map (message said)).0 ≡ read_map said)
    × IsDecoded (get_payload_map (message said)).1
    × (get_payload_map (get_payload_map (message said)).1 ≡ get_payload_map (message said))
get_payload_map_lem_example = get_payload_map_lem (message said) (inl refl)

get_content_type_panics_iff_example :
    ((get_content_type (message untyped)).0 ≡ panicked)
    ↔ ((read_map untyped ≢ none) × NoNumber (type_value (read_map untyped)))
get_content_type_panics_iff_example = get_content_type_panics_iff (message untyped) (inl refl)
