-- ===== src/Lib.antt =====
-- hackline: a gateway that carries commands, events, logs and tunnels between operators and devices
-- of several organisations, over a Zenoh session and a SQLite database.
--
-- The program's parts and their models:
-- - Proto is the crate hackline/crates/hackline-proto. Proto/Keyexpr has the builders and parsers of
--   keyexpr.rs (under is the prefix `hackline/<org>/<zid>/` that each builder writes), Proto/Zid the
--   ids of zid.rs, Proto/Msg the envelopes, log levels and command results of msg.rs, Proto/Connect the
--   exchange of connect.rs.
-- - Core is the crate hackline/crates/hackline-core: Core/Bridge the two pumps of run_bridge in
--   src/bridge.rs, on reads, puts, samples and writes with their outcomes; its Handshake accept_bridge
--   of the agent and initiate_bridge_io_with_id of the gateway. The samples are those that arrived: a
--   put that precedes the subscription of the other side reaches nobody, and the agent subscribes only
--   after its reply. Core/Bridge/Bytes and Gateway/Tunnel/HttpRouter/Forwarded take the number of such
--   puts as an argument.
-- - Agent is the crate hackline/crates/hackline-agent: Agent/Startup the checks of src/config.rs and
--   src/diag/mod.rs and what main opens in which order, Agent/Diag the ring of src/diag/state.rs with
--   the events that src/connect.rs puts there, Agent/Info the reply of src/info.rs.
-- - Gateway is the crate hackline/crates/hackline-gateway. Gateway/Exec is the shape of every model
--   of a function that may fail: a state goes in, a result and a state come out, and a transaction
--   that fails gives back the state it began with. Gateway/Error is error.rs.
-- - Gateway/Schema is migrations/: a Database record with one list of rows for each table. Its Inserts
--   have the INSERT of each table with its UNIQUE, CHECK and FOREIGN KEY tests (those of the messages
--   and the outbox stand with their repositories), and its Deletes the deletions with their cascades.
--   Base/Sql has what a statement does to a list of rows.
-- - Gateway/Db has the repositories of src/db: CmdOutbox, Devices, Orgs, Users, Tunnels, Claim, Audit,
--   and Messages for both events.rs and logs.rs; Token is src/auth/token.rs. The consume of Claim is a
--   test and then a transaction, two steps that another claim may come between.
-- - Gateway/Auth has the extractor of src/auth/middleware.rs and check_device of src/auth/scope.rs.
-- - Gateway/FanIn, Gateway/Delivery and Gateway/Liveliness are what src/msg_fanin.rs,
--   src/cmd_delivery.rs and src/liveliness.rs do with one sample, and the drain of the outbox: they
--   parse a key with Proto, act on the repositories, and answer with what they publish.
-- - Gateway/Delivery/Tasks has the two tasks of src/cmd_delivery.rs beside the handlers of commands:
--   one step for a database closure of a handler, an acknowledgement, a wake-up, a look at the outbox,
--   or one row of a drain.
-- - Gateway/Metrics is src/metrics.rs, its maps as entries in the order of the keys, and its Render the
--   text with the handler of src/api/metrics.rs.
-- - Gateway/State is src/state.rs as the handlers use it: the database, the events told to the tunnel
--   manager, whether the pusher of commands was woken, and the cache of Gateway/RttCache
--   (src/rtt_cache.rs and the wrapper in src/api/devices/health_probe.rs).
-- - Gateway/Api has the handlers of src/api, each with its checks, its repository calls and its audit
--   entries in the order of the source: Cmd, Devices, Tunnels, Users, Orgs and Claim by their folders,
--   AuditLog of audit, History the lists of events and logs, Streams their live streams with the matcher
--   in Glob, Calls of api_call, Fleet devices/list_health.rs and Info devices/info.rs.
-- - Gateway/Migrations is the runner of src/db/migrations.rs, and Gateway/Config the choice of the TLS
--   mode in src/config.rs.
-- - Gateway/Tunnel has the manager of src/tunnel/manager.rs, a connection of src/tunnel/http_router.rs
--   from its Host header (Bridged has the bridge and the session), and the record that
--   run_bridged_connection of src/tunnel/tcp_listener.rs leaves of a connection.
-- - Base has what these share, and Examples the theorems at concrete inputs.
--
-- Conventions. Text is a list of UTF-8 bytes, and in the host router of code points, as there text
-- is decoded from bytes, and encoded again where a host is compared with the column of a tunnel.
-- Rows stand in rowid order; a rowid is one more than the greatest in use, as SQLite gives them
-- without AUTOINCREMENT. Times and ids that the database or the clock supplies are natural numbers;
-- what a caller or a device supplies as an i64 (limits, cursors, ports, timestamps in an envelope)
-- is an integer. A time is an argument, and so are fresh ids and random bytes. Every loop runs over
-- a list of rows, bytes, reads, events or migrations, and needs no fuel; the printing of a number
-- runs over the most digits that it can have (5 for a u16, 19 for an i64, 20 for a u64).
--
-- Parameters, for code that is not of the repository: serde_json (Gateway/Json), uuid (Proto/Uuid),
-- the digest and base64 of tokens (Gateway/Db/Token), the GLOB operator of SQLite for a caller's
-- topic filter, the JSON texts of audit details (Gateway/Api/Detail), the Zenoh put and the derived
-- codecs of envelopes (Wire of Gateway/Delivery), of the connect exchange (ConnectWire of
-- Proto/Connect), of device calls (Queries of Gateway/Api/Calls) and of info replies (InfoWire of
-- Proto/AgentInfo), and the socket addresses of the standard library (Addresses of Agent/Startup).
--
-- Not modelled: the accept loops and subscribing tasks, TLS and ACME, the routing table, the rest of
-- the gateway's configuration, the effect of V006 on existing data, the calls that the other parts
-- make of the metrics, overflow of the 64-bit rowids, clocks and byte counters, failures of the
-- connection pool and of the disk; and the crates hackline-cli, hackline-client and ai-runner, the
-- last a vendored copy of another project's.
pub mod Base
pub mod Proto
pub mod Core
pub mod Agent
pub mod Gateway
pub mod Examples
