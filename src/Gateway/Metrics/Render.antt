-- ===== src/Gateway/Metrics/Render.antt =====
-- The text of hackline/crates/hackline-gateway/src/metrics.rs, and api/metrics.rs, which asks for it.
use codeless_workspace.Base.{ℕ, List, [], ◌∷◌, ◌++◌, Text, codes, ℤ, pos}
use codeless_workspace.Gateway.Api.AuditLog.{show_i64}
use codeless_workspace.Gateway.Db.CmdOutbox.{pending_depth_by_device}
use codeless_workspace.Gateway.Exec.{Exec, ◌>>=◌, pure}
use codeless_workspace.Gateway.Metrics.{Metrics, entry_t, set_audit_rows}
use codeless_workspace.Gateway.Schema.{User, Database}
use codeless_workspace.Proto.Keyexpr.{digits}
use codeless_workspace.Gateway.Db.Audit

-- `{n}` of a `u64`, which has at most twenty digits
unfoldable pub show_u64 : ℕ → Text
unfolding digits
show_u64 n = digits 20 n

abbrev pub newline : Text
newline = 10 ∷ []

abbrev pub quoted : Text → Text
quoted s = 34 ∷ (s ++ 34 ∷ [])

-- The two lines that open a family.
unfoldable pub opens : Text → Text → Text → Text
opens name help kind =
    codes "# HELP "
    ++ (name
        ++ (codes " "
            ++ (help
                ++ (newline ++ (codes "# TYPE " ++ (name ++ (codes " " ++ (kind ++ newline))))))))

-- A line of a family with one label, or with two.
unfoldable pub line : Text → Text → Text × ℕ → Text
unfolding show_u64
line name label (key, v) =
    name
    ++ (codes "{"
        ++ (label ++ (codes "=" ++ (quoted key ++ (codes "} " ++ (show_u64 v ++ newline))))))

unfoldable pub line_pair : Text → Text → Text → (Text × Text) × ℕ → Text
unfolding show_u64
line_pair name label other ((a, b), v) =
    name
    ++ (codes "{"
        ++ (label
            ++ (codes "="
                ++ (quoted a
                    ++ (codes ","
                        ++ (other
                            ++ (codes "="
                                ++ (quoted b ++ (codes "} " ++ (show_u64 v ++ newline))))))))))

unfoldable pub lines_of : {A : Type 0} → (A → Text) → List A → Text
lines_of f [] = []
lines_of f (x ∷ xs) = f x ++ lines_of f xs

-- A family of one value.
unfoldable pub single_line : Text → ℤ → Text
unfolding show_i64
single_line name v = name ++ (codes " " ++ (show_i64 v ++ newline))

unfoldable pub render : List (Text × ℕ) → Metrics → Text
unfolding opens line line_pair lines_of single_line
render cmd_outbox_depth m =
    opens (codes "hackline_devices_online")
      (codes "Devices currently observed via Zenoh liveliness.") (codes "gauge")
    ++ (single_line (codes "hackline_devices_online") m.devices_online
        ++ (opens (codes "hackline_tunnel_sessions_total")
              (codes "Bridged TCP sessions completed, by kind and outcome.") (codes "counter")
            ++ (lines_of
                  (line_pair (codes "hackline_tunnel_sessions_total") (codes "kind")
                    (codes "outcome"))
                  m.tunnel_sessions_total
                ++ (opens (codes "hackline_tunnel_active")
                      (codes "Currently active bridged sessions, by kind.") (codes "gauge")
                    ++ (lines_of (line (codes "hackline_tunnel_active") (codes "kind"))
                          m.tunnel_active
                        ++ (opens (codes "hackline_tunnel_bytes_total")
                              (codes "Bytes pumped through the tunnel plane, by direction.")
                              (codes "counter")
                            ++ (lines_of
                                  (line (codes "hackline_tunnel_bytes_total") (codes "direction"))
                                  m.tunnel_bytes_total
                                ++ (opens (codes "hackline_cmd_outbox_depth")
                                      (codes "Pending (un-acked) cmd_outbox rows per device.")
                                      (codes "gauge")
                                    ++ (lines_of
                                          (line (codes "hackline_cmd_outbox_depth")
                                            (codes "device"))
                                          cmd_outbox_depth
                                        ++ (opens (codes "hackline_cmd_total")
                                              (codes "Cmd lifecycle transitions, by outcome.")
                                              (codes "counter")
                                            ++ (lines_of
                                                  (line (codes "hackline_cmd_total")
                                                    (codes "outcome"))
                                                  m.cmd_total
                                                ++ (opens (codes "hackline_events_received_total")
                                                      (codes
                                                        "Message-plane events received via fan-in.")
                                                      (codes "counter")
                                                    ++ (lines_of
                                                          (line
                                                            (codes "hackline_events_received_total")
                                                            (codes "topic"))
                                                          m.events_received_total
                                                        ++ (opens
                                                            (codes "hackline_logs_received_total")
                                                            (codes
                                                            "Message-plane logs received via fan-in.")
                                                            (codes "counter")
                                                            ++ (lines_of
                                                            (line
                                                            (codes "hackline_logs_received_total")
                                                            (codes "level"))
                                                            m.logs_received_total
                                                            ++ (opens
                                                            (codes "hackline_api_calls_total")
                                                            (codes
                                                            "Synchronous api/* RPC calls, by topic and outcome.")
                                                            (codes "counter")
                                                            ++ (lines_of
                                                            (line_pair
                                                            (codes "hackline_api_calls_total")
                                                            (codes "topic") (codes "outcome"))
                                                            m.api_calls_total
                                                            ++ (opens (codes "hackline_audit_rows")
                                                            (codes "Total rows in the audit table.")
                                                            (codes "gauge")
                                                            ++ single_line
                                                            (codes "hackline_audit_rows")
                                                            m.audit_rows))))))))))))))))))

-- The counts by device, in the order of the map's keys, which are texts.
unfoldable pub by_name : List (ℕ × ℕ) → List (Text × ℕ)
unfolding entry_t show_u64
by_name [] = []
by_name ((device_id, n) ∷ rest) = entry_t (show_u64 device_id) (λ _. n) (by_name rest)

-- api::metrics::handler: the answer, and the metrics with the number of audit entries
unfoldable pub handler : User → Metrics → Exec Database (Text × Metrics)
unfolding Audit.count pending_depth_by_device by_name set_audit_rows render
handler user m = do
  rows ← Audit.count
  depths ← pending_depth_by_device
  pure (render (by_name depths) (set_audit_rows (pos rows) m), set_audit_rows (pos rows) m)
