-- ===== src/Examples/Requests.antt =====
-- The handlers of commands and tunnels.
use codeless_workspace.Gateway.Auth.Scope.{check_device}
use codeless_workspace.Base.{◌≡◌, refl, none, arith, Text, codes, find_row, count_rows}
use codeless_workspace.Examples.{text_json, no_details, gateway_state, owner, device}
use codeless_workspace.Gateway.Error.{ok}
use codeless_workspace.Gateway.Schema.{User}
use codeless_workspace.Gateway.Db.CmdOutbox.{unacked, has_cmd_id}
use codeless_workspace.Gateway.Api.Cmd.{SendCmd, send, is_empty}
use codeless_workspace.Gateway.Api.Cmd.Gates.{Refused, handlers_foreign, send_lem}

-- An owner of another organisation.
abbrev stranger : User
stranger = record owner { org_id = 2 }

abbrev order : SendCmd Text
order = record { payload = codes "x"; expires_in_ms = none; content_type = none }

handlers_foreign_example :
    Refused gateway_state
      (send text_json no_details stranger 1 (codes "go") order (codes "b") 5 0 gateway_state)
unfolding find_row
handlers_foreign_example =
    (handlers_foreign text_json no_details stranger gateway_state 1 refl).0 (codes "go") order
      (codes "b") 5 0

send_lem_example :
    (send text_json no_details owner 1 (codes "go") order (codes "b") 5 0 gateway_state).0
    ≡ ok (codes "b")
unfolding check_device find_row is_empty count_rows unacked has_cmd_id
send_lem_example =
    (send_lem text_json no_details owner gateway_state device (codes "go") order (codes "x")
      (codes "b") 5 0 refl refl refl refl (omega arith) (omega arith) refl refl).0
