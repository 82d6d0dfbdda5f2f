-- ===== src/Lib.antt =====
-- The audit logging service: an append-only log whose entries are chained by hashes, kept in a
-- file, written and read over HTTP by clients that a registry knows.
--
-- The parts, and how they interact. A request comes to a route (Server.Router,
-- cmd/server/router.go and the middleware of cmd/server/auth.go). requireAuth takes the token from
-- its header and asks the client registry (Server.Registry, cmd/server/clientstore_postgres.go);
-- tokens and roles are in Server.Auth (cmd/server/auth.go). A write is stamped with the caller's
-- id and goes to the store's Append. A read is parsed and bounded by Server.Query and
-- Server.Cursor (cmd/server/query.go), scoped to the caller, and goes to the store's QueryLogs.
-- The store is Server.FileStore or Server.PostgresStore (cmd/server/main.go) behind the interface
-- Server.Router.Store; Server.PostgresStore.Pages holds QueryLogs against Server.Window. Server.Chain is the hash chain and the test of one link in
-- verifyChainUnsafe; Server.Chain.Tamper says what a head hash pins down. Server.Config is
-- loadConfig, and Server.Start is main up to the listener. Server.Window is the abstract
-- specification of a page, Server.Paging the client that follows cursors as docs/querying.md
-- tells it to, and Server.FileStore.Pages that client over the file store.
--
-- Server.ClientsCli is the administration of the registry from the command line
-- (cmd/server/clients_cli.go).
--
-- Client is clients/go-lib/client.go, the library that writes entries with retries.
--
-- Forwarder is cmd/log-forwarder. Forwarder.Config holds its settings (config.go).
-- Forwarder.Follower reads the log file and cuts it into lines (readAvailable of follower.go), with
-- Bytes as the machine it is held against, Chunks and Reads for the comparison, Offsets for the
-- offsets, Progress for what has been handed on, Stored for the
-- checkpoint that the saves leave, Changes for opening, truncation, rotation and the
-- loop of Run, and Restart for a second start; Forwarder.Checkpoint is the file with the position (checkpoint.go). Each line goes to
-- Forwarder.Handler, the callback of main.go, with Trace for what becomes of a line and Stored for its
-- checkpoint file: Forwarder.Parser makes an event of it (parser.go),
-- Forwarder.Delivery a request and, where the client gives up, a dead letter (delivery.go), and
-- Forwarder.Metrics counts (metrics.go). Forwarder.Start is main up to the follower, and
-- Forwarder.Integrity the verifier that asks the service at every tick (integrity.go).
--
-- Dashboard is cmd/security-dashboard: Dashboard.Checks the checks, their parsers and the totals of
-- a scan (checks.go), Dashboard.Tasks the schedule of the manual tasks and the command that records
-- one (tasks.go), Dashboard.Render the headline and the groups of the page (render.go), and
-- Dashboard.Init the command that proposes checks (init.go): Stack and Detect the project that it
-- looks at, Proposal and Proposals the checks for a stack, Merge what is added to a config, Audit the
-- findings and the exit code of --check, Raw the members of config.json and their text, and World,
-- Seeds, Load and Run runInit, with Load.Start for the config that it starts from and Run.Check for
-- --check.
-- Dashboard.Runs is the recorded runs and Dashboard.Command the command with its flags in
-- Dashboard.Flags (main.go), Dashboard.Config the types of config.json, Dashboard.Page the view, the
-- badge and the files that render writes (render.go, badge.go).
--
-- How state and operations correspond. FileStore holds last_hash, last_index and the content of
-- its file; append, verify, query_logs and new_file_store are the methods of these names, as
-- functions of the store, with what the operating system answers as an argument (AppendEnv,
-- OpenEnv). Each method holds the mutex, so a run is a sequence of calls. In Server.FileStore,
-- Scan is about the scanner's lines, Verify about verifyChainUnsafe, Open about NewFileStore,
-- Coherent about what Append keeps, Query about QueryLogs and Laws about the contract. The
-- Postgres store is the list of its rows, with each SQL statement as the function that it means.
-- The registry is a list of rows; each SQL statement is the function that it means. Handlers give
-- the response and the store behind it. The follower's fields are the record Follower; the callback
-- and the save are functions of a state (Sink), which Forwarder.Handler fills with the client, the
-- metrics and the files. What the operating system answers comes in as streams of reads and as records
-- (Poll, Look, Calls, Letters, Shell). A line of the log is a list of bytes; the parser is given the
-- text that it stands for.
--
-- Texts are lists of code points, and bytes are counted where the code counts bytes (Text). Go's
-- int and int64 are Common.Int.ℤ, uint64 is a number with its wrap-around written out.
--
-- What is a parameter: encoding/json and crypto/sha256 (Server.Codec, with what the code relies on
-- as IsJson and IsDigest), the tables of unicode (Text.Fold.Unicode), the verb %q, filepath.Join,
-- the clock, the packages flag, regexp, text/tabwriter and time, the random source, and the errors of
-- the operating system and of the database.
--
-- Bounds and fuel. The scanner's buffer is 1 MiB, so a line must be shorter. Reading page by page
-- takes one request more than there are entries to come. A number of 64 bits has at most 20
-- digits, the fuel of format_uint. The client's loop is over the attempts that are left. The loop over
-- the pending bytes takes at least one of them in each round, so their number is the fuel of drain.
--
-- Not modelled: the listener of cmd/server with its timeouts, the metrics server of cmd/log-forwarder, which serves the
-- counters, and the lines that its main logs; of cmd/security-dashboard the HTML template and the lines
-- that are only printed; the Node clients are another language.
pub mod Common
pub mod Text
pub mod Json
pub mod Server
pub mod Client
pub mod Forwarder
pub mod Dashboard
pub mod Tests
