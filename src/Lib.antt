-- ===== src/Lib.antt =====
-- AgentWaypoint: an API through which a user works with coding agents and terminals on a host. This
-- library models the parts of apps/api/src/modules that keep state of their own, and a part of apps/web.
--
-- The parts and their files:
--   Terminals        terminals/terminals.service.ts and terminals/terminal-lifecycle.ts: the terminals of a
--                    session, the connections to each, the one connection that types, output, closing,
--                    and the sweep of terminals that nobody looks at. `Service` is TerminalsService with the
--                    map `resources` of the lifecycle. Terminals/Create is `create`, Terminals/Attach the
--                    methods of a connection with `output`, Terminals/Close `close`, `sweep`, `onModuleDestroy`,
--                    `assertDeletable` and `discard`. Terminals/Step is the relation of the calls, the
--                    sweep, the processes, the deletions and the shutdown, Terminals/System adds the
--                    creations, cut at their waits. `new_system` is the service when it is made.
--   Approvals        turns/approval-queue.service.ts: approvals of a turn are shown one at a time, with a timer
--                    that accepts them. `Queue` is the service with the database. Approvals/Publish has
--                    `enqueueApprovalRequest`, `tryPublishNext`, `publish` and the case
--                    `turn.approval.resolved` of turns/turns.service.ts, Approvals/Pause `pauseTimer`,
--                    `resumeTimer`, `fireAutoApprove` and `recoverTimers`. Approvals/Calls is any run of them.
--   History          turns/message-history.ts: `projectMessageEvent` turns the events of a turn into messages,
--                    inputs and rows of the outbox. History/Project has a child for the end of a turn, the
--                    inputs of the user and the items of the assistant each.
--   Timeline         turns/timeline-event-payload.ts and turns/diff-payload.ts: summaries of events for a list,
--                    and the references by which the details are asked for.
--   ContextStream    turns/context-update-stream.ts: which changes of the remaining context are sent.
--   TurnConfig       turns/turns.service.ts, the functions at its end: the settings of a turn, decisions, and
--                    the merging of text events.
--   Turns            turns/turns.service.ts: `Service` is TurnsService with the approvals, the database and what
--                    waits to be stored. Turns/Keys has the keys that events wait under, Turns/Append
--                    `appendEventNow`, `coalesceEvent` and the flushes, Turns/Context the snapshots of the context
--                    that is left, Turns/Content the text of the assistant, Turns/Ends the end of a turn and `failTurn`,
--                    Turns/Ingest `ingestRunnerEventNow` with a function for each of its cases, Turns/Requests
--                    `createTurnWithResolvedSession` and `cancelTurnForUser`, Turns/Steering `steerTurnForUser` and
--                    `queueConfirmedInput`. Turns/Ingest/Runs is any
--                    run of events, timers and stops, Turns/Requests/Exclusive adds the requests of users.
--   WebHistory       apps/web/src/app/history-messages.ts: the messages and inputs that the web application holds, as
--                    pages and events arrive.
--   Store            the tables of apps/api/prisma/schema.prisma that these parts share.
--   Common           numbers, lists, texts as UTF-16 units, and JSON values.
--   Examples         the theorems at concrete states.
-- The approval queue appends to the events of a turn and wakes the outbox; the history is projected from
-- those events; the ingestion of the runner's events drives both; the deletion of sessions and projects asks the lifecycle of the terminals.
--
-- How code becomes definitions: a method is a function from the state to the state, with what it does
-- outside (messages, the process) as a list of effects. A method that waits is cut at its waits: what
-- waits is data (`Task`, `Closing`, `Plan`), and another step goes on with it. An exception is `err`
-- or `none`. A transaction is one function, and leaves the store alone where it is undone. Identifiers are
-- numbers that are only compared, moments are milliseconds, a number of JSON is kept in thousandths. A
-- Set or Map is a list in order of insertion. Recursion is structural, or on
-- fuel: `number_text` has one more than its number, which has no more digits than that, and the loops that
-- flush what waits have two rounds, one that stores and one that finds nothing (`Fault.unfinished` stands
-- for a loop that goes on). In Turns an action takes the state to a state and, where it throws, a fault: what was
-- written before stays. Calls for one turn follow one another, as `ingestionQueues` and `eventWriteQueues` have it,
-- and a timer ends between two calls, not within one. `failTurn` after a failed dispatch is not
-- under `ingestionQueues`: the model has it whole and in parts that events come between, but no part of it within the
-- ingestion of an event. The cursor of the runner is kept in thousandths, as JSON's
-- numbers are; a cursor in a batch that waits counts as 0 where it is not a number. An identifier from `randomUUID` is not
-- one in use. The process of a terminal, its screen and the `send` of its connections do not throw in a task of the
-- output's tail.
--
-- Parameters: what the screen package serialises, and the answers of the host on paths and folders; whether the
-- settings allow a new turn, whether a backend keeps the history of messages, and how the runner answers a
-- cancellation or an input.
--
-- Not modelled: of turns/turns.service.ts the streams of the runner with their retries, and the reading of
-- events and details; sessions, projects, authentication, channels, settings and the backends of the runner;
-- the gateway, the network and the processes of terminals; the rest of the web application. Of a command's environment nothing
-- is modelled.
pub mod Common
pub mod Terminals
pub mod Store
pub mod Approvals
pub mod History
pub mod Timeline
pub mod ContextStream
pub mod TurnConfig
pub mod Turns
pub mod WebHistory
pub mod Examples
