-- ===== src/Lib.antt =====
-- The client side of a local-first todo application: a task list that keeps a full copy of a
-- workspace on the device, applies every edit to that copy at once, queues the edit, and exchanges
-- the queue for the server's changes whenever it can reach the server.
--
-- Parts and files:
--   Domain/Types      packages/domain/src/types.ts: the synced objects and the commands.
--   Domain/Order      packages/domain/src/helpers.ts: nextSortOrder, spacedOrders, reorderUpdates.
--   Domain/Dates      packages/domain/src/dates.ts: calendar arithmetic.
--   Domain/Lists      packages/domain/src/taskLists.ts: the predicates of the smart lists; their orders
--                     and selectList in Lists/Select.
--   Domain/Projects   packages/domain/src/projects.ts.
--   Domain/Threads    packages/domain/src/comments.ts and attachments.ts.
--   Domain/Relocation packages/domain/src/relocation.ts.
--   Domain/Memberships packages/domain/src/memberships.ts.
--   Domain/Search     packages/domain/src/search.ts.
--   Domain/Move       packages/domain/src/move.ts: the arguments of a move into a project or section.
--   Domain/Roles      packages/domain/src/roles.ts.
--   Sync/Recurrence   packages/sync-client/src/recurrence.ts: parseRrule (Recurrence/Rrule),
--                     nextOccurrence, rollForward.
--   Sync/Replica      packages/sync-client/src/replica.ts; the stored form in Replica/Stored.
--   Sync/Apply        packages/sync-client/src/apply.ts: applyCommand, a function for each command
--                     in Apply/Projects, Apply/Tasks and Apply/Labels; what the moves and cascades
--                     leave is in Apply/Moved, Apply/Appended, Apply/Cascade and Apply/ProjectCascade.
--   Sync/Rewrite      packages/sync-client/src/rewrite.ts: temporary ids become real ones.
--   Sync/Protocol     what the sync endpoint answers, and how a request fails.
--   Sync/Client       packages/sync-client/src/client.ts: the variables of createSyncClient are the
--                     record Client (Client/State), its functions are functions on it: retries and
--                     status in Client/Retry, batch sizes in Client/Batch, applyResponse in
--                     Client/Response, storage in Client/Storage, mutate in Client/Mutate, flush,
--                     pull and loseAccess in Client/Engine. Client/Steps has their interleavings;
--                     Client/Durable, Client/Closed, Client/Retry/Heeded and Client/Batch/Flight have the
--                     invariants of its runs, Client/Drain the rounds of one flush.
--   Parser            packages/nl-parser/src: title.ts (Parser/Title), collect and resolve
--                     (Parser/Resolve) and parseQuickAdd (Parser/Parse) of index.ts, compose.ts
--                     (Parser/FirstDay and Parser/Compose), target.ts and dateMath.ts. It feeds the arguments of `task_add`.
--   Api               packages/api-client/src/index.ts: the tokens of a session, as they are stored and
--                     removed by setTokens, clearTokens and logout (Api/Session), and refresh under
--                     its lock (Api/Refresh).
--   App               apps/web/src/lib/drag.ts (App/Drag), whose drops become edits of the client;
--                     apps/web/src/lib/historyOp.ts with url.ts and useUrlSync.ts (App/History);
--                     apps/mobile/src/lib/reminderPlan.ts (App/Reminders).
--   Dict              JavaScript's Map with text keys, in insertion order.
--
-- How the code is read:
--   An assignment to the fields of an object in a map writes the object back under its key. A loop
--   over `values()` is a map over the entries, or a recursion where it carries a set along.
--   The `args` of a command have the types that docs/api/CONTRACT.md gives them (section 5.4); other
--   values are not modelled. Positions are integers, as the server's column is.
--   A calendar date is the number of its eight digits; the years are 100 to 9999, and instants lie
--   in or after 1970. A stamp such as `updated_at` is a text that is only copied.
--   `flush` and `pull` are cut at their requests: between a request and its answer any other step
--   may run. `exclusive` lets one request at a time be in flight, so a client has one Flight. The
--   storage writes of one step are taken together, so a kill falls between two steps; only in the
--   purge after a loss of access is every intermediate storage looked at, by `loss_writes`. Writes
--   succeed: the handlers of a failed write (of the queue, the replica or the notice) are left out.
--   JSON texts are taken as what they encode, or as corrupt.
--   `Array.prototype.sort` is a stable insertion sort (Prelude/Sort). Ids and stamps are ASCII texts, so
--   their order by code points is the engine's. A quick-add text is the list of its UTF-16 units; a
--   matcher of the grammar is what it finds in a text, and its regular expressions, lower casing and
--   the local time zone are parameters.
--   The clock, random numbers and fresh ids are arguments. Nothing runs on fuel but the scan of
--   `nextOccurrence`, whose 64 rounds are the source's own limit.
--
-- Not modelled: the notification of subscribers and the promises of `idle` and `writesSettled`
-- (no state beside the promises), the browser's event listeners, the matchers of the
-- parser's grammar, the HTTP routes of the REST client and the lock of its refresh, the user
-- interfaces but for the rules under App, and the server.
pub mod Prelude
pub mod Dict
pub mod Domain
pub mod Api
pub mod Parser
pub mod Sync
pub mod App
