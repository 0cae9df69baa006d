-- ===== src/Agent/Info.antt =====
-- hackline/crates/hackline-agent/src/info.rs
use codeless_workspace.Base.{ℕ, Option, none, some, List, Text}
use codeless_workspace.Proto.AgentInfo.{InfoWire}
use codeless_workspace.Proto.Keyexpr.{info}
use codeless_workspace.Proto.Zid.{Zid}

unfoldable pub keyed : Text → Option Text → Option (Text × Text)
keyed ke none = none
keyed ke (some bytes) = some (ke, bytes)

-- One query of `serve`: the reply with its key, if the info can be encoded.
unfoldable pub serve_info : InfoWire → Text → Zid → Text → List ℕ → ℕ → Option (Text × Text)
unfolding keyed
serve_info wire org zid version allowed_ports uptime_s = keyed (info org zid) (
    wire.encode (record {
      zid = zid.as_str;
      version = version;
      allowed_ports = allowed_ports;
      uptime_s = uptime_s;
    }))
