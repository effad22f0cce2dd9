-- ===== src/Lib.antt =====
-- Verification of herdr-tokens, a plugin daemon that polls a Herdr session's snapshot and writes, for
-- each workspace, tokens that say what its agents do.
--
-- The parts and how they interact. `cmd/herdr-tokens` is the program: `start` spawns `daemon`, which
-- takes a lock, writes a PID file and runs the loop of `internal/daemon`. Each round of the loop asks
-- `internal/herdrapi` for a snapshot and hands it to `internal/controller`, which compares the tokens
-- that `internal/derive` wants with those that the snapshot shows and reports the ones to write
-- through the client. `internal/config` holds the settings. `cmd/schema-check` runs the closed fixture
-- schema of `internal/herdrapi/schema.go` over captured snapshots.
--
-- Which file models what; a definition has the name of its function in lower case with underscores:
--   Config      internal/config/config.go: Default, HeartbeatAge, Validate, Load
--   Wire        internal/herdrapi/types.go: the records of a snapshot
--   Decimal     strconv.Itoa and strconv.Atoi, which derive.go and daemon.go call
--   Derive      internal/derive/derive.go: StatusToken, Desired
--   Controller  internal/controller/controller.go: New, Tracked, Invalidate, Reconcile; `visit` is one
--               round of its loop and `prune` the loop that forgets what is gone
--   Daemon      internal/daemon/daemon.go, run: `attempted` is what a round does, `rounds` the loop
--   Process     internal/daemon/daemon.go: StateFile, WritePID, ReadPID, SocketPath, AcquireLock
--   Client      internal/herdrapi/client.go: call, Snapshot, ReportWorkspaceMetadata; Client.Watcher has
--               the goroutine of call that moves a connection's deadline when its context ends
--   Json        encoding/json, which client.go, schema.go and main.go call: Json.Print and Json.Parse the
--               text of a value and its reading, Json.Marshal the text of a map with its keys sorted,
--               Json.Any the decoding into an `any`
--   Wire.Decode the decoding of a snapshot into the structs of types.go
--   Regexp      the regular expressions of schema.go and their matcher
--   Schema      internal/herdrapi/schema.go: the checkers; Schema.TokenRules and Schema.Tables hold
--               its rules and tables and ValidateFixture
--   SchemaCheck cmd/schema-check/main.go
--   Cli         cmd/herdr-tokens/main.go: main, preview, runDaemon, start, stop, as exit codes and
--               effects in order
--   Lifecycle   the same commands run by several processes on one socket, as a step relation;
--               Lifecycle.Commands plays the effects of the commands of Cli as its steps
--   Plugin      the loop with its client and its controller, as `run` wires them; Plugin.Herdr says
--               what is assumed of the server (`IsHerdr`), and Plugin.Server is a server to try it on
--   Order       the order on strings by which encoding/json and sort.Strings sort
--   Dict        Go's maps with string keys; Prelude has the shared names, lists, integers, results
-- The modules below each of these hold its theorems, and a module named Samples its runs.
--
-- How it is modelled. State is passed explicitly: a controller is its record of last writes, a loop is
-- its variables, and what lies behind an interface (the server, the connection, the file system) is a
-- `World` that an operation takes and gives. A Go error is a value that keeps what its message shows.
-- A time or a duration is an integer of nanoseconds; the int64 arithmetic that can leave its range is
-- wrapped (`wrap64`) or saturated (`sub_time`) as Go does it, and the rest is bounded by Validate. A
-- map is a list of entries, in some iteration order, on which no theorem depends.
--
-- Bounds and fuel. `itoa` counts on its argument, of which a number's digits need no more. `parse` has
-- twice the length of its text, and two, as fuel; each step of it either reads a character or turns to
-- the parts of a value just opened, so that this is enough for every text. Go's limit of 10,000 nested
-- brackets is left out. Every other loop is a recursion on the list it walks: workspaces, agents, the
-- entries of a map, the turns of the daemon's loop. A turn is the environment's part of a round, so
-- that a run is as long as its list.
--
-- Arguments of the definitions, with what is assumed of them where a theorem needs it: the TOML
-- decoder, time.ParseDuration and the file (`Loader`), the connection and the context (`Transport`,
-- with the law `IsHerdr`), the server behind the reports (`Reporter`, with the law `Server`), the operating system, sha256 and
-- path/filepath (`System`), and the answers that a command gets (`Answers`).
--
-- Not modelled: the log and the text of messages; the reuse of a slice's elements by a struct decode
-- when an object repeats a key that holds a list; bytes that are no UTF-8; scripts and hooks.
pub mod Prelude
pub mod Dict
pub mod Order
pub mod Config
pub mod Wire
pub mod Decimal
pub mod Derive
pub mod Controller
pub mod Daemon
pub mod Json
pub mod Regexp
pub mod Schema
pub mod SchemaCheck
pub mod Client
pub mod Process
pub mod Cli
pub mod Lifecycle
pub mod Plugin
