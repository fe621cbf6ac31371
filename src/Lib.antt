-- ===== src/Lib.antt =====
-- The syna server's record of what its clients synchronise, and the theorems that make it correct.
--
-- The program: clients (internal/client) keep directories and files of several devices in step.
-- They encrypt everything they send and talk to a server (internal/server), which stores, per
-- workspace, an ordered log of events, the snapshots that let a client start without the whole log,
-- and the encrypted objects that both refer to. internal/server/db is the server's database layer:
-- it accepts or refuses each event, numbers it, serves pages of the log, accepts snapshots, computes
-- the retained floor below which events may go, prunes, purges workspaces, and keeps login
-- challenges and sessions. internal/server/api calls it for each HTTP request.
--
-- The files:
--   Prelude      the shared names, Boolean tests on the native numbers, lists, Go's results
--   Table        SQL statements over lists of rows, with their laws
--   Protocol     internal/common/protocol/types.go
--   Server       internal/server
--     Schema       db/migrations.go and db/db.go: the tables, and the empty database
--     Errors       the error values of the db package
--     Objects      db/objects.go, db/refs.go and the statement of objectstore/store.go
--     Workspaces   db/workspace.go
--     Events       db/events.go: Checks, Writes, Submit (SubmitEvent) and Fetch (FetchEvents)
--     Snapshots    db/snapshots.go: SaveSnapshot
--     Maintenance  db/maintenance.go: Prune
--     Purge        db/purge.go: WorkspacePurgeObjects and PurgeWorkspace
--     Sessions     db/sessions.go
--     Metrics      db/metrics.go
--     Accepted     what an accepted event passed and wrote
--     Refs         the stored reference counts against the references
--     Order        the numbers of events
--     Retention    pruning and fetching
--     Unsynced     the operations that touch neither counts nor the log
--     History      the step relation of all operations, reachability and its invariants
--     Conflicts    two writers of one path
--     Floor        the retained floor
--     Paging       pages of the log
--     Isolation    purging one workspace next to others
--     Access       challenges and sessions
--   Hub          internal/server/hub/hub.go, the subscribers of a workspace's events: Defs, Numbered
--                  (their numbers), Joined, Apart, Groups and Published
--   Api          internal/server/api
--     Replies      response.go and the answers of internal/common/protocol/types.go
--     Login        session.go, and the transcript of internal/common/crypto/crypto.go
--     Requests     auth.go, events.go, snapshots.go and bootstrap.go
--     Proved       what a finished login has proved
--     Replayed     a finished login that is sent again
--     Bootstrapped the cursor of a bootstrap
--     Limits       the size of a page
--   Paths        internal/common/paths/paths.go: Defs, Inside (remote paths), Overlaps (roots)
--   Client       internal/client
--     World        what the client calls outside the repository, and the payloads it is given
--     Applier      applier/applier.go: Defs (the checks), Events (ApplyEvent), Targets and
--                  Applied
--     Daemon       daemon/daemon.go: Roots (the roots of a device), Events (consumeRemoteEvent),
--                  Ignored (the tests of local changes against ignore rules, the renewal of a
--                  session), CatchUp (a round of bootstrapOrCatchUp with the server's pages);
--                  Consumed, Cursor, Rounds and Replayed
--     Uploader     uploader/uploader.go: Defs, and Fetched, with the applier of another device
--     Snapshots    daemon/snapshot_apply.go, and the names of daemon/conflict.go:
--                  Defs (a file), Entries (applySnapshot) and Kept
--     Submit       connector/connector.go and daemon/daemon.go: a refused submission
--     State        state/db.go, the database of a device: Schema, Nulls (empty values as NULL),
--                  Workspace, Roots, Entries, Pending (the queue), Ignores and Warnings; RoundTrip
--                  (rows), Mapped (entries as a map), Tasks and Queue (the queue over time) and
--                  Retry (when it is tried again)
--     Bootstrap    daemon/daemon.go: Defs (bootstrap up to its catch-up), Sync (bootstrapOrCatchUp
--                  with its bootstraps), Removed, Ended, Passed and, with the server's answer,
--                  Resumed and Floored
--   Tests        concrete runs
--
-- How code corresponds to the model. A function of the Go code keeps its name, in antt's spelling;
-- one that the code writes as one long function is split at its statements, and each part names
-- its lines. A database is a record of tables, a table a list of rows, newest first; a statement is
-- select, find, any, count, update, delete, upsert or an insert of Table, by the documented meaning
-- of SQL, and a UNIQUE or PRIMARY KEY clause is a theorem. The AUTOINCREMENT counter of `events` is a
-- field, the cascade of a foreign key is written out where a row is deleted. A transaction that
-- returns an error leaves the database as it was: an operation returns the new database or an error.
--
-- Numbers. A sequence number or a count is a natural number; one that a client sends is an integer
-- of any sign; sizes and modes in the payload of a device are natural numbers. No bound of 64 bits
-- is modelled: each is a counter that grows by one. Times are nanoseconds, as natural numbers;
-- `created_at <= now - retention` is written `created_at + retention <= now`. Each call reads the
-- clock once, as the argument `now`. Byte strings are texts, with their number of bytes as an
-- argument where the code reads it. SHA-256, Ed25519, Base64, strconv and random bytes are
-- arguments of the operations that call them. A handler takes the decoded body of its request and
-- returns a status with a body; a channel of the hub is a list of at most 32 messages, and a mutex
-- makes its section one step. Publish, which releases the mutex before it unsubscribes the slow
-- subscribers, is one step as well: no other call is modelled between its two parts.
--
-- A device's database is modelled in the same way. There a time is the number of nanoseconds since
-- the zero value of Go's `time.Time`, which is stored as NULL; the format of a time and SQLite's LIKE
-- are arguments. Where rows that were created at one instant are ordered by that instant alone, the
-- model takes the least id.
--
-- What the client asks of the system, the network and the cryptography is a record `World`: the
-- answers may differ from round to round and from event to event. What a device does on the disk is
-- a list of operations that its functions return, with the directories and the temporary file of a
-- download, or, for a snapshot, the files that it leaves. The list of a call that fails is not kept.
--
-- Fuel. bootstrapOrCatchUp loops until it returns, and where the server tells it to resync it calls
-- bootstrap, which calls it again; the model counts the rounds and the bootstraps down together and is
-- told how many they may be, which a theorem shows to be enough. Every other definition is structural.
--
-- Not modelled: errors of SQLite and of the disk; ORDER BY root_id and object_id; the
-- migration of old databases; the object files and their transfer; HTTP, JSON and WebSocket
-- transport, and configuration; the watch loop, the roots of the watcher with the warnings that
-- adding one writes or clears, the scans, the resolution of rejected edits of
-- the client's daemon, its scanner and watcher; the command-line programs.
pub mod Prelude
pub mod Table
pub mod Protocol
pub mod Server
pub mod Hub
pub mod Api
pub mod Paths
pub mod Client
pub mod Tests
