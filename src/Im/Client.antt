-- ===== src/Im/Client.antt =====
-- One request to the IM server and what its answer is taken for (pkg/network/network.go and the
-- error handling of config/msg.go). The server and the HTTP library are a function from requests to
-- responses.
use jian_yu_server_lib.Base.{ℕ, Option, none, some, ◌==◌, if◌then◌else◌}
use jian_yu_server_lib.Base.Int.{ℤ}
use jian_yu_server_lib.Strings.{Str}
use jian_yu_server_lib.Im.Json.{Json, null, fields, lookup}
use jian_yu_server_lib.Im.Request.{Body}

-- A response: its status, its body as JSON, `none` if that does not parse, and what gjson, which is
-- a parameter, reads in the body's text at three keys of its "data", by Int and by String.
pub record Response : Type 0 where
  pub status_code : ℕ
  pub body : Option Json
  pub gjson_message_id : ℤ
  pub gjson_message_seq : ℤ
  pub gjson_client_msg_no : Str

-- network.Post and network.Get: `none` is a transport error.
abbrev pub Server : Type 0
Server = Str → Body → Option Response

pub data ImError : Type 0 where
  transport : ImError
  decode : ImError
  failed_with : Json → ImError
  failed_status : ℕ → ImError
  nil_result : ImError

-- A call that fails or returns a value.
pub data Result {ℓ} (A : Type ℓ) : Type ℓ where
  err : ImError → Result A
  ok : A → Result A

infixl 5 ◌>>=◌ ◌>>◌
abbrev pub ◌>>=◌ {ℓ κ} : {A : Type ℓ} {B : Type κ} → Result A → (A → Result B) → Result B
err e >>= f = err e
ok a >>= f = f a

abbrev pub ◌>>◌ {ℓ} : {B : Type ℓ} → Result (Unit {0}) → Result B → Result B
err e >> k = err e
ok a >> k = k

-- The answer, or the transport error.
abbrev pub answer : Option Response → Result Response
answer none = err transport
answer (some resp) = ok resp

-- What is said of an answer with status 400: the server's message, if the body is a JSON object
-- that has one. A body that is no object is an error of its own; `null` is an empty map.
unfoldable pub bad_request : Response → ImError
unfolding lookup
bad_request resp = elim resp.body [
  | none ↦ decode
  | some null ↦ failed_status resp.status_code
  | some (fields fs) ↦ elim (lookup "msg" fs) [
    | none ↦ failed_status resp.status_code
    | some null ↦ failed_status resp.status_code
    | some msg ↦ failed_with msg
  ]
  | some _ ↦ decode
]

-- handlerIMError; SendMessageBatch and SendMessageWithResult repeat it with another text.
unfoldable pub handler_im_error : Response → Result (Unit {0})
unfolding bad_request
handler_im_error resp =
    if resp.status_code == 200
    then ok tt
    else if resp.status_code == 400
    then err (bad_request resp)
    else err (failed_status resp.status_code)

-- `if resp.StatusCode != http.StatusOK { return … }`
unfoldable pub status_only : Response → Result (Unit {0})
status_only resp = if resp.status_code == 200 then ok tt else err (failed_status resp.status_code)

-- util.ReadJsonByByte into the result. Here the result is the JSON value; that it fits the type of
-- the Go result is not modelled.
abbrev pub read_json : Response → Result Json
read_json resp = elim resp.body [ none ↦ err decode | some j ↦ ok j ]

-- Post, then handlerIMError.
unfoldable pub post_checked : Server → Str → Body → Result (Unit {0})
unfolding handler_im_error
post_checked server url body = do resp ← answer (server url body); handler_im_error resp

-- Post or Get, then handlerIMError, then the decoded result.
unfoldable pub post_decoded : Server → Str → Body → Result Json
unfolding handler_im_error
post_decoded server url body = do
  resp ← answer (server url body)
  handler_im_error resp
  read_json resp
