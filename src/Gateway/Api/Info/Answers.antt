-- ===== src/Gateway/Api/Info/Answers.antt =====
-- The gateway's question and the agent's answer about a device.
use codeless_workspace.Agent.Info.{serve_info, keyed}
use codeless_workspace.Base.{
  ℕ, ◌≡◌, refl, Option, none, some, List, ◌==◌, if◌then◌else◌, Text, ◌=t◌, =t_refl, find_row,
}
use codeless_workspace.Gateway.Api.Calls.{Answer, closed, timed_out, replied}
use codeless_workspace.Gateway.Api.Info.{info_handler, respond_info, decoded_info, answered_info}
use codeless_workspace.Gateway.Db.Devices.{in_org}
use codeless_workspace.Gateway.Error.{ok}
use codeless_workspace.Gateway.Schema.{User, Device, Org, Database}
use codeless_workspace.Proto.AgentInfo.{InfoWire}
use codeless_workspace.Proto.Keyexpr.{info}
use codeless_workspace.Proto.Zid.{new, to_option, Zid}
use codeless_workspace.Gateway.Db.Devices
use codeless_workspace.Gateway.Db.Orgs

-- A query that reaches one queryable: its reply, if the keys agree.
abbrev pub reaches : Option (Text × Text) → Text → Answer
reaches none ke = timed_out
reaches (some (key, bytes)) ke = if ke =t key then replied (some bytes) else closed

-- A caller of the device's organisation is answered with what the agent of that device says of
-- itself, its version, its allowed ports and its uptime, if the agent runs under the organisation's
-- slug and the device's id; nothing changes.
pub info_handler-serve_info :
    (wire : InfoWire) (caller : User) (id : ℕ) (d : Device) (o : Org) (zid : Zid) (version : Text)
    (ports : List ℕ) (uptime : ℕ) (bytes : Text) (s : Database)
    → find_row (in_org caller.org_id id) s.devices ≡ some d
    → find_row (λ (p : Org). p.id == caller.org_id) s.orgs ≡ some o
    → to_option (new d.zid) ≡ some zid
    → wire.encode
        (record { zid = zid.as_str; version = version; allowed_ports = ports; uptime_s = uptime })
      ≡ some bytes
    → info_handler wire (reaches (serve_info wire o.slug zid version ports uptime)) caller id s ≡ (
      ok (
          answered_info (record {
            zid = zid.as_str;
            version = version;
            allowed_ports = ports;
            uptime_s = uptime;
          })),
      s,
    )
unfolding info_handler Devices.get_in_org Orgs.get serve_info keyed respond_info decoded_info
info_handler-serve_info wire caller id d o zid version ports uptime bytes s own home parsed
      encoded =
    rw (own, home, parsed, encoded, =t_refl (info o.slug zid), wire.decode-encode _ encoded) refl
