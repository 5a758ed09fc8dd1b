-- ===== src/Lib.antt =====
-- Verification of the jamsesh portal and router: the finalize lock of a session, the policy checks of a
-- push, the pkt-line code of the git endpoint, the auto-merger with its worker, the event log, the leases of
-- sessions, the websocket tickets, the bearer tokens, and the hash ring, hint
-- cache and session-id extraction of the router.
--
-- A session is a shared git repository with a row in a database. Members push to refs of their own
-- through the git endpoint (internal/portal/githttp), which reads the command list of a push and hands
-- it to the policy checks (internal/portal/prereceive); a refused push is answered by a report in
-- side-band packets. At the end one member takes the finalize lock, curates the result under it, and
-- marks the session shipped (internal/portal/finalize). Behind an accepted push the auto-merger
-- (internal/portal/automerger) merges the new commit into the draft of the session. What happens in a
-- session goes to its event log (internal/portal/events), which clients follow over a websocket that
-- they open with a ticket (internal/portal/wsgateway). Clients are known by tokens
-- (internal/portal/tokens). With several portals one of them holds the lease of a session
-- (internal/portal/lease), and a router in front of them (internal/router) sends the requests of a
-- session to one of them, by a consistent hash or by a hint that it remembers.
--
-- Prelude: shared names, Boolean tests and list functions on native numbers, 64-bit sizes as integers.
-- Go/Maps: maps with string keys, as lists of entries.
-- Go/Strings: package strings. A string is the list of its bytes; case and white space are the ASCII ones.
--
-- Finalize: internal/portal/finalize.
--   Expiry      lock_check.go. Times are nanoseconds.
--   Store       the queries of internal/db/sqlitestore that the handlers use, on lists of rows. The
--               partial unique index of db/schema/sqlite.sql is the guard of insert_lock.
--   Protocol    membership.go, the answers and events, and which store calls of a request fail.
--   Acquire     lock_acquire.go. `acquire_preflight` is everything up to WithTx, `acquire_commit` the
--               transaction and the answer, so that a run may put other requests between them.
--   Patch, Release, Ship   lock_patch.go, lock_release.go, mark_shipped.go.
--   Escape      escape.go.
--   Uniqueness, Takeover, Lifecycle, Exclusion, Ending, Quoting   the theorems.
-- An identifier is a number and 0 is the empty one; the clock and the new identifier are arguments. An
-- `Outage` says which calls of the store fail in a request, and theorems that speak of every Outage speak of
-- every error path. Selections are stored as JSON by a parameter (encoding/json). The member list of
-- mark-shipped's answer and the OpenAPI projections are not modelled. A session's status is one of the
-- four of the schema.
--
-- Prereceive: internal/portal/prereceive.
--   Repo        the parameters: a repository (go-git), globs (doublestar) and the JSON decoder, and the
--               outcome of a call that may panic.
--   Refs, Scope, Trailers, Commits, Validate   the files of these names; size.go and playground_caps.go
--               are in Validate. A rejection keeps its code and details, not its message.
--   Traversal, Namespace, Accepted, Acceptance, TrailerFormat, Gaps   the theorems.
--
-- Githttp: internal/portal/githttp/pktline.go.
--   Pktline     reading and writing. A reader is the list of the bytes it has left. `read_command_list`
--               gives the loop one round per byte and one more, and a round takes at least four bytes; the
--               hexadecimal writer is given twelve digits beyond four, enough for a 64-bit length.
--   Framing, Report, Commands   a reader of packets to compare with, and the theorems.
--
-- Router: internal/router.
--   Ring        ring/ring.go. FNV, the decimal form of a number and sort.Slice are parameters; the atomic
--               pointer is the snapshot that a call works on.
--   Cache       cache/hint.go. The clock is an argument of each call.
--   Extract     extract/extract.go.
--   Search, Successor, Recency, Shapes   the theorems.
--
-- Automerger: internal/portal/automerger.
--   Repo        the parameters: the object store of a repository, whose writes may fail, with its laws;
--               git merge-file and diff. A hash is a number. go-git's diffs and commits are arguments.
--   Heuristics, Diff, Additions   heuristics.go. bufio.Scanner stops at a line longer than its buffer.
--   Conflicts   conflicts.go.
--   Merge, Tree, Run   merge.go: the changes of a path and the loop over the paths; flattenTree and
--               buildTree; resolveConflicts and Merge. A range over a map visits a list of its keys.
--   Whitespace, Placement, Walk, Union, Range, Script, Parsed, Resolved   the theorems on the
--               heuristics. A printed diff is built from a script of kept and added lines, and its headers
--               from decimal numerals.
--   Outcome, Paths, Loop, Applied, Verdict, Answers, Refined, Combined   the specification of a
--               three-way merge and the theorems on Merge, without renames where trees are compared.
--
-- Worker: internal/portal/automerger/worker.go.
--   Queue       dispatch, enqueue, the goroutine of each session and Stop as steps that interleave. What
--               stands under the mutex is one step. The idle timer may fire whenever its goroutine waits;
--               the queue's bound is an argument. `accepted` and `started` record what was queued and what
--               processEvent was called for.
--   Owners, Order, Outcome, Stop   the theorems.
--
-- Applier: internal/portal/automerger/outcomes.go and addressing.go, and processEvent of worker.go.
--   Address     addressing.go. The commits of the walk and their changes are go-git's, an argument.
--   Message     composeMergeMessage.
--   Emit        emitWithRetry: three attempts on the log of Events.
--   Apply       Apply on a portal: a repository (a parameter), conflict_events with the queries of
--               internal/db/sqlitestore/conflict_events.sql.go, the log and the counters.
--   Process     processEvent: the reads, Merge of Automerger/Run, and Apply.
--   Applied     what applySuccess promises.
--   Lines, Readback, Delivery, Success, Closing, Isolation, Owner, Addressees   the theorems.
--
-- Lease: internal/portal/lease/postgres.go, with the queries of internal/db/pgstore/leases.sql.go.
--   Cluster     the calls of Acquire and Release of all pods as steps that interleave: the advisory lock,
--               the fencing token and the row go over different connections, and a connection may end at
--               any time. A call that answers an error has been done or not, and a best-effort unlock too.
--               Postgres's advisory locks are a parameter.
--   Exclusion, Fencing   the theorems.
--
-- Events: internal/portal/events/log.go, with the queries of events.sql.go and presence.sql.go in
-- internal/db/sqlitestore.
--   Log         the transactions of Emit, EmitBatch and UpdatePresence, the fan-out and ListSince. `down`
--               says which calls of the store fail, and whether a commit that answers an error was done. The
--               numbers have no upper bound here; they are 64-bit in the tables.
--   Gapless, Transaction, History, Paging   the theorems. A reader of pages has fuel: as many pages as the
--               table has rows.
--
-- Wsgateway: internal/portal/wsgateway/tickets.go.
--   Tickets     Issue, Consume and a sweep of the janitor.
--   SingleUse   the theorems.
--
-- Tokens: internal/portal/tokens/service_impl.go, with the queries of oauth_tokens.sql.go, accounts.sql.go
-- and playground_extra.go in internal/db/sqlitestore.
--   Tables      accounts and oauth_tokens, with their unique columns and references.
--   Service     the calls of the service. SHA-256 is a parameter. A call has its readings of the clock, its
--               random tokens and the failures of its queries as an argument, each by its number.
--   Runs        calls one behind the other.
--   Edits, Minting, Rotation, Changes   what the calls do to the rows of oauth_tokens.
--   Spent, Ownership, Validity   the theorems.
--
-- Not modelled: the HTTP handlers around these parts, generated code, the router's proxy and discovery,
-- the playground, and the tables that no modelled handler touches.
pub mod Prelude
pub mod Go
pub mod Finalize
pub mod Prereceive
pub mod Githttp
pub mod Router
pub mod Automerger
pub mod Events
pub mod Lease
pub mod Wsgateway
pub mod Worker
pub mod Applier
pub mod Tokens
