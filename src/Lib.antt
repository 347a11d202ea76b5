-- ===== src/Lib.antt =====
-- A model of mcp-log-server: the parts that move and judge logs, with the theorems that make them
-- correct.
--
-- The program has three processes. The MCP server (src/) collects logs into snapshot files, filters
-- and analyses them. The socket app (socket-app/) is the only one that talks to Docker: it answers
-- one JSON request per line, checks the parameters of a fixed list of operations, and pages long
-- logs through spool files. The fail2ban socket app (fail2ban-socket-app/) does the same for
-- fail2ban.
--
-- The files:
--   Prelude: Python's tests, dicts, exceptions, integers, JSON values, UTF-8, and the matching of
--     regular expressions.
--   SocketApp.Spool: LogTransferSpool of socket-app/src/socket_app/adapters.py. The state is the
--     dict of transfers and the files of the directory. Valid has the invariant; Create, Cleanup,
--     Paging and Turn what the operations do.
--   SocketApp.Registry: SocketOperationRegistry of services.py and dispatch_request of
--     dispatcher.py, both in socket-app/src/socket_app. A request is turned into a typed call.
--   SocketApp.Server: _build_response of socket-app/src/socket_app/server.py.
--   SocketApp.Adapter: container_logs and container_logs_page of DockerSdkAdapter.
--   Collection.DockerPages: the reader of those pages, src/services/log_collection.py. Transfer
--     joins the two ends.
--   Filtering: LogFilteringService of src/services/log_filtering.py. Extract reads a line, Noise
--     judges it, Cut shortens it, Candidates bounds what is stored, View is the loop over the files.
--     View.Origin says which lines are kept, and Cut.Replace decodes with replacement characters.
--   Analysis.Routes: the bounded route candidates of src/services/log_analysis.py, which are a
--     space-saving summary. Analysis.Activity: the scans over the proxy events and the report.
--     Analysis.Groups: group_snapshot_errors. Values and Requests read a parsed line, Normalize and
--     Semantics make the summary and the fingerprint of an error, Classify judges a line, and
--     Sources selects and reads the files. Analysis.Probes: the report on probes and bans.
--     Analysis.Bundle and Analysis.Ingress: the incident bundle and the proxy diagnostics.
--   Snapshots: select_snapshot_read_chunk of src/services/log_snapshots.py, with the checks of the
--     range in src/tools/snapshots.py. Ranges has how the reads of one file fit together, Numbers
--     how they are numbered.
--     Snapshots.Grep is grep_snapshot of the same file: Selected has the files that are searched
--     and Available what is asked of them,
--     Printed what is made of the output of grep, and Tool is grep_log_snapshot.
--   Access.Projects: src/services/project_authorization.py. Access.Manifests: the validators of
--     src/manifests/models.py. Access.HostPaths: src/services/host_path_service.py, where Confined
--     has the allowlist and Operations what is returned. Access.Storage: src/storage.py.
--     Access.Paths: pathlib's paths, as texts.
--   Fail2ban: fail2ban-socket-app/src/fail2ban_socket_app. Client is adapters.py, Requests the
--     services, the dispatcher and the response. The commands that were run are the state.
--   Tests: runs at small inputs.
--
-- Operations are functions from a state to a result and a state. Exceptions are the errors of
-- Result. What the program calls and does not contain (Docker, base64, JSON decoding, the Unicode
-- tables, hashes, clocks, random names, files, the host's file system) is a parameter. Clocks count
-- ticks, and an operation reads each clock once. JSON values are those that can be written: floats
-- that are not finite and lone surrogates, which json.loads accepts, are left out.
--
-- The loop over the pages runs on fuel, one for each turn. A page that continues its transfer has at
-- least one byte: fuel above the bytes of the stream and one is enough to read it, and fuel above the
-- spool's limit on bytes is enough whatever is answered. The turns of the sample run on as many turns
-- as lines are asked for, and one.
--
-- Not modelled: the asyncio server loops, the database, the MCP framework, the command line, the
-- inspection reports and Docker inventories, the lookup of snapshots, and the
-- loading of manifests. LogTransferSpool.create takes no lock in the source; here it is one step.
pub mod Prelude
pub mod SocketApp
pub mod Collection
pub mod Filtering
pub mod Analysis
pub mod Snapshots
pub mod Access
pub mod Fail2ban
pub mod Tests
