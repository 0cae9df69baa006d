-- ===== src/Examples/Protocol.antt =====
-- Keys, ids and names of the protocol.
use codeless_workspace.Base.{◌≡◌, ◌↔◌, some, arith, codes}
use codeless_workspace.Examples.{device_zid, device_zid-IsCanonical, default-Lacks}
use codeless_workspace.Proto.Zid.{new, lower, ok}
use codeless_workspace.Proto.Zid.Canonical.{IsCanonical, new_iff}
use codeless_workspace.Proto.Keyexpr.{msg_event, msg_log, parse_msg_keyexpr, event, log}
use codeless_workspace.Proto.Keyexpr.RoundTrip.{parse_msg-msg_event}

parse_msg-msg_event_example :
    (parse_msg_keyexpr (msg_event (codes "default") device_zid (codes "a.b"))
      ≡ some (codes "default", device_zid, event, codes "a.b"))
    × (parse_msg_keyexpr (msg_log (codes "default") device_zid (codes "a.b"))
        ≡ some (codes "default", device_zid, log, codes "a.b"))
parse_msg-msg_event_example =
    parse_msg-msg_event (codes "default") device_zid default-Lacks device_zid-IsCanonical
      (codes "a.b") (omega arith)

new_iff_example :
    (new (codes "AB12") ≡ ok device_zid)
    ↔ (IsCanonical (lower (codes "AB12")) × (codes "ab12" ≡ lower (codes "AB12")))
new_iff_example = new_iff (codes "AB12") device_zid
