-- ===== src/Im/Send/Laws.antt =====
-- What a command looks like on the wire.
use jian_yu_server_lib.Base.{◌≡◌, refl, Bool, true, false, Option, none, some}
use jian_yu_server_lib.Im.Json.{Json, at, lookup, Fields, end, field, string, nat, fields}
use jian_yu_server_lib.Im.ContentType
use jian_yu_server_lib.Im.ContentType.{int}
use jian_yu_server_lib.Im.Setting.{setting_from_uint8, from-to_uint8}
use jian_yu_server_lib.Im.Request.{MsgCmdReq}
use jian_yu_server_lib.Im.Client.{Server}
use package.jian_yu_server_lib.Im.Send.{cmd_message, cmd_payload, send_cmd}

abbrev params_of : Option Fields → Fields
params_of p = elim p [ none ↦ end | some param ↦ field "param" (fields param) end ]

payload_fields :
    (c k : Json) (p : Option Fields)
    → (lookup "cmd" (field "cmd" c (field "type" k (params_of p))) ≡ some c)
      × (lookup "type" (field "cmd" c (field "type" k (params_of p))) ≡ some k)
      × (lookup "param" (field "cmd" c (field "type" k (params_of p)))
          ≡ elim p [ none ↦ none | some param ↦ some (fields param) ])
unfolding lookup
payload_fields c k none = (refl, refl, refl)
payload_fields c k (some param) = (refl, refl, refl)

-- The message of a command is never stored, is synced once, and has the setting that leaves the
-- conversation list alone; its payload has the request's command, and "param" exactly if the request
-- has parameters.
pub cmd_message_fields :
    (req : MsgCmdReq)
    → ((cmd_message req).header ≡ record { no_persist = 1; red_dot = 0; sync_once = 1 })
      × (setting_from_uint8 (cmd_message req).setting
          ≡ record { receipt = false; no_update_conversation = true; signal = false })
      × (at "cmd" (cmd_message req).payload ≡ some (string req.cmd))
      × (at "type" (cmd_message req).payload ≡ some (nat (int ContentType.cmd)))
      × (at "param" (cmd_message req).payload
          ≡ elim req.param [ none ↦ none | some param ↦ some (fields param) ])
unfolding cmd_message cmd_payload lookup
cmd_message_fields req =
    let (cmd, type, param) =
      payload_fields (string req.cmd) (nat (int ContentType.cmd)) req.param in
    (refl, from-to_uint8 _, cmd, type, param)

-- Whether a command is sent as one to be stored does not depend on the request's `NoPersist`: two
-- requests that differ in nothing else are the same call.
pub send_cmd_of_no_persist :
    (server : Server) (req : MsgCmdReq) (b : Bool)
    → send_cmd server (record {
      no_persist = b;
      from_uid = req.from_uid;
      channel_id = req.channel_id;
      channel_type = req.channel_type;
      subscribers = req.subscribers;
      cmd = req.cmd;
      param = req.param;
    })
      ≡ send_cmd server req
unfolding send_cmd cmd_message cmd_payload
send_cmd_of_no_persist server req b = refl
