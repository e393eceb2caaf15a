-- ===== src/Lib.antt =====
-- Crosscode keeps the uncommitted files of a team's checkouts in step. A daemon in each checkout
-- watches the files; its sync engine turns an edit into a sync unit (a file version), the daemon
-- publishes it to the service, the service appends it to the change log of the room (a project and
-- a branch), and the other daemons fetch or are sent the change and hand it to their engine, which
-- applies it, merges it, defers it, or raises a conflict.
--
-- The files. Core models packages/core/src/index.ts: the patterns of `redactPath` (Core/Redact) on
-- a matcher for the regular expressions that they use (Core/Regex); Core/Nested has their theorems.
-- Paths models packages/sync/src/paths.ts, with Paths/Safety. Protocol models the file version, the
-- change and the conflict of packages/protocol/src/sync.ts. Host is the world outside: the file
-- system of a checkout, the program `git`, `node:buffer`, the clock and the random identifiers are
-- its fields; Host/Laws names what is relied on of them, and Host/Memory is a host that satisfies
-- it. Git, Merge and Shadow model git.ts, merge.ts and shadow.ts of packages/sync/src;
-- Shadow/Overlay, Shadow/Flush and Shadow/Rebase have the theorems. Engine models
-- packages/sync/src/engine.ts: its fields (Engine/State), the calls on the file system
-- (Engine/Tree), `publish` (Engine/Publish, with what one path leaves settled in
-- Engine/Publish/Path), `receive` with the apply rule (Engine/Apply; its effects are in
-- Engine/Apply/Effect, their proofs by branch in Engine/Apply/Now and Engine/Apply/Receive),
-- conflicts (Engine/Conflict), deferral (Engine/Deferral), and the operations on HEAD
-- (Engine/Head). Engine/Frozen is any sequence of these calls, with what each does to the conflicts
-- in Engine/Conflict/Frozen, Engine/Apply/Frozen, Engine/Publish/Frozen and Engine/Deferral/Frozen.
-- Service models apps/service/src/store.ts: the change log (Service/Changes), the device codes
-- (Service/Devices) and the codes that people type (Service/UserCodes), projects, members and
-- invites (Service/Invites), replicas (Service/Replicas), users (Service/Users), and with legal.ts
-- the acceptances (Service/Legal). Service/Limiter is the rate limiter of apps/service/src/http.ts,
-- and Service/Http the rest of that file: a request is an action on the tables
-- (Service/Http/Action, with rules for what an action shows in Service/Http/Action/Meets), Address
-- and Body are what is read off it, Schemas what the schemas of packages/protocol/src/sync.ts
-- accept, and Routes the routes, up to `handleRequest` in Routes/Handle; Consent, Publish and
-- Guards have the theorems. Service/Gateway is apps/service/src/ws.ts, with the handshake in
-- Service/Gateway/Subscribe; Delivery, Replay, Presence and Stale have the theorems.
-- Service/Gateway/Live is one subscriber while others publish, a step relation over the log, the
-- broadcasts that are due and the connection: Received, Pages and Steps lead to the theorem in
-- Complete. Daemon models how apps/daemon/src/sync-daemon.ts receives changes and catches up;
-- Daemon/Cursor and Daemon/Skip have its theorems. Daemon/Checkout is what the same file publishes,
-- the pause, and how it follows git; its theorems are in Daemon/Checkout/Pause and
-- Daemon/Checkout/Head. Daemon/Client is the stream of apps/daemon/src/sync-service-client.ts,
-- events on sockets and timers, with its theorems in Daemon/Client/Recovery (on the invariant of
-- Recovery/Alive) and Daemon/Client/Polls, and bounds of its delay in Daemon/Client/Backoff. Cli
-- models what the command line writes into the configuration of other programs: apps/cli/src/json-
-- file.ts (Cli/Json, Cli/JsonFile) and the entry of the MCP server of apps/cli/src/mcp-config.ts
-- (Cli/McpConfig), with their theorems in Cli/JsonFile/Atomic and Cli/McpConfig/Merged.
-- Service/Rows is the search that the tables share. Prelude has what they share, and Examples runs
-- them on small inputs.
--
-- How the model reads the code. A method of a class is a function of its record of fields that
-- returns the record; a promise is its result, since the engine's operations on one path are
-- chained by `serialize` and the daemon's tasks by `enqueue`, so that one ends before the next.
-- Interleavings of the engine's operations on different paths are not modelled. A string is the
-- list of its UTF-16 code units, `Map` and `Set` are lists in insertion order, bytes are lists of
-- numbers, and an error that is thrown is a flag or an absent result. A call of Host whose result
-- has no place for a failure is one that does not throw: what is shown of the engine is about runs
-- in which the file system and the object store do not fail, and of the daemon's tasks about runs
-- in which nothing throws but the requests, the operations on HEAD and the flush. Lower-casing is
-- that of ASCII. One request is served at a time, at one instant of the clock; in the service a
-- JSON value is known by the shape that a schema asks for, and the schema of a response is taken to
-- accept it. Identifiers are compared as they are spelled, which for a uuid is the one spelling
-- that the database prints. A table of the store is a list of rows or a dictionary by its primary
-- key, a statement of SQL is the search or the change that it asks for, and a transaction is one
-- function, because it holds a lock.
--
-- The pages of a replay are the list of the logs that they read, one for each; a theorem says how
-- many are enough. Recursion is on lists, with two exceptions that take a number: the printing of a
-- number has as many steps as the number plus one, and a catch-up has the 100 pages that the source
-- allows it.
--
-- Not modelled: sockets, processes, timers, the other commands of the command line, the agent's
-- tools, the web site, the texts of errors, and the statements of the store on privileges.
pub mod Prelude
pub mod Core
pub mod Paths
pub mod Protocol
pub mod Host
pub mod Git
pub mod Merge
pub mod Shadow
pub mod Engine
pub mod Service
pub mod Daemon
pub mod Cli
pub mod Examples
