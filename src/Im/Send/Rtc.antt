-- ===== src/Im/Send/Rtc.antt =====
-- config/msg_rtc.go: the message at the end of a call.
use jian_yu_server_lib.Base.{ℕ, ◌+◌, ◌/◌, ◌%◌, ltb, [], ◌∷◌, ◌++◌, if◌then◌else◌}
use jian_yu_server_lib.Base.Int.{ℤ, pos, negsuc}
use jian_yu_server_lib.Strings.{Str, str, itoa}
use jian_yu_server_lib.Im.Json.{string, number, object, nat}
use jian_yu_server_lib.Im.ContentType
use jian_yu_server_lib.Im.ContentType.{int}
use jian_yu_server_lib.Im.Request.{MsgSendReq}
use jian_yu_server_lib.Im.Client.{Server, Result}
use package.jian_yu_server_lib.Im.Send.{channel_type_person, send_message}

pub data RtcCallType : Type 0 where
  audio video : RtcCallType

pub data RtcResultType : Type 0 where
  cancel hangup missed refuse : RtcResultType

pub record P2pRtcMessageReq : Type 0 where
  pub from_uid : Str
  pub to_uid : Str
  pub call_type : RtcCallType
  pub result_type : RtcResultType
  pub second : ℤ

abbrev call_code : RtcCallType → ℕ
call_code audio = 0
call_code video = 1

abbrev result_code : RtcResultType → ℕ
result_code cancel = 0
result_code hangup = 1
result_code missed = 2
result_code refuse = 3

-- One part of a duration, with a zero in front of what is below ten.
unfoldable pub two_digits : ℕ → Str
two_digits n = if ltb n 10 then b'0' ∷ itoa n else itoa n

-- The part of a negative duration: Go's quotient and remainder keep the sign, and what is below ten
-- gets the zero in front of it.
minus_digits : ℕ → Str
minus_digits n = b'0' ∷ (if ltb 0 n then b'-' ∷ itoa n else itoa n)

-- formatSecond
unfoldable pub format_second : ℤ → Str
unfolding two_digits minus_digits
format_second (pos t) = two_digits (t / 60) ++ (b':' ∷ two_digits (t % 60))
format_second (negsuc t) = minus_digits ((t + 1) / 60) ++ (b':' ∷ minus_digits ((t + 1) % 60))

-- The text of SendRTCCallResult
unfoldable pub call_result_content : RtcResultType → ℤ → Str
unfolding format_second
call_result_content cancel second = str "通话取消"
call_result_content missed second = str "未接听"
call_result_content refuse second = str "通话拒绝"
call_result_content hangup second = str "通话时长：" ++ format_second second

-- The message of SendRTCCallResult
unfoldable pub call_result_message : P2pRtcMessageReq → MsgSendReq
unfolding call_result_content int
call_result_message req = record {
  header = record { no_persist = 0; red_dot = 1; sync_once = 0 };
  setting = 0;
  from_uid = req.from_uid;
  channel_id = req.to_uid;
  channel_type = channel_type_person;
  stream_no = [];
  subscribers = [];
  payload = object (
      ("type", nat (int ContentType.video_call_result))
      ∷ ("content", string (call_result_content req.result_type req.second))
      ∷ ("second", number req.second)
      ∷ ("call_type", nat (call_code req.call_type))
      ∷ ("result_type", nat (result_code req.result_type))
      ∷ []);
}

-- SendRTCCallResult
unfoldable pub send_rtc_call_result : Server → P2pRtcMessageReq → Result (Unit {0})
unfolding call_result_message send_message
send_rtc_call_result server req = send_message server (call_result_message req)
