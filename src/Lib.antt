-- ===== src/Lib.antt =====
-- A verification library for jawstack, a framework for command-driven resources, and for its content
-- operations application.
--
-- A resource is changed by commands. `executeCommand` (packages/core/src/index.ts) resolves who
-- asks, finds the command, checks roles and input, answers a repeated request from what it has
-- recorded, reads the row, lets the command's `decide` compute a decision, and commits the next row
-- with its activity, events, projections and idempotency record in one step. The content operations
-- application (apps/content-operations/src) is a resource of that kind: its commands load a content
-- item, check it against its schema, and end in `finish`.
--
-- Core: `Core.Types` and `Core.Commands` hold the records of packages/core/src/index.ts,
-- `Core.Store` is InMemoryStore with InMemoryUnitOfWork.commit, and `Core.Executor` is
-- executeCommand, cut where it waits for the store: `prepare` looks for a recorded answer in one
-- state of the store and reads the row in another, and `finish_prepared` commits to a third, so that
-- others may commit between any two of them; `execute_command` is the case in which nobody does.
-- What the source types as `unknown` is the type `J`. The maps of the store are association lists
-- (`Base.Maps`). The auth provider, `safeParse` of an input schema, the identifier generators and
-- the comparison of two inputs' JSON texts are fields of the records that the source passes them in.
-- `Core.WorkRequests` is the work request resource that the same file comes with: its five commands,
-- without their roles, which the executor checks.
--
-- Content: `Content.Types` is the data of apps/content-operations/src/shared/contracts.ts and
-- assets.ts, `Content.Schema`, `Content.ReviewSchema` and `Content.StateSchema` their schemas as
-- Boolean tests, `Content.Facts` the event payloads. `Content.Projections` is domain/projections.ts,
-- `Content.Resource` the helpers of domain/resources.ts, `Content.Recovery`
-- shared/publication-recovery.ts, and `Content.Publishing` with `Content.Publishing.Commands`
-- domain/publication-commands.ts. `Content.Publishing.Transitions` is the publication cycle as a
-- relation, the specification that the commands refine. `Content.Lifecycle` and
-- `Content.Lifecycle.Assets` are the other commands of domain/resources.ts. `Content.Editorial` is
-- the state machine of a content item over all of these commands, with its moves as a relation, and
-- `Content.Editorial.Calls` sequences of calls, each on the row that the accepted ones before it
-- wrote.
--
-- `Content.Materials` is what projectors keep of the facts of a content item: the review task
-- resource of domain/resources.ts, the asset resource of domain/asset-resource.ts, and `materialize`
-- of application/workers.ts for reviews.
--
-- Workflow: `Workflow.Failures` is the ledger of failed deliveries: `Workflow.Failures.Protocol` and
-- `Workflow.Failures.Ledger` are createFailureProtocol of
-- packages/core/src/workflow/failure-records.ts and the commit of failure-memory.ts, and
-- `Workflow.Failures.Service` is createWorkflowFailureService of failures.ts over that store: its
-- retrying `update` is told what others do to the memory between its steps and which answers of its
-- commits are lost. The digests, the sizes of JSON texts, and the application's `normalizePayload`
-- and `validateEvent` are fields of `Protocol`; that a normalized event comes through again is the
-- hypothesis `IsSettled`. `Workflow.Delivery` is `handle` and `collect` of
-- packages/core/src/workflow/delivery.ts, as `deliver` on the map of their markers (`collect` has
-- its own), with the check and write of createMemoryWorkflowMarkers; what the failure service and
-- the handlers answer is data of a call, and calls do not overlap. `Workflow.Pump` is
-- createWorkflowPump of pump.ts: `Workflow.Pump.Admission` takes events from the outbox into jobs,
-- `Workflow.Pump` runs a job, and `Workflow.Pump.Drains` makes passes; the outbox, the answers of
-- the delivery, the clock and the signal are data of a pass. `Jobs` is
-- apps/content-operations/src/application/job-store.ts.
--
-- Representation: a string that is only compared is a number (`Text`), 0 for the blank one; an
-- instant is its milliseconds, whose order is that of canonical ISO texts; numbers are native and no
-- operation modelled here can overflow a safe integer without the check that the source makes. An
-- error is its code; messages and display titles are left out. A ZodError or TypeError inside a
-- command is the code that the executor turns it into, `runtime.internal`. The byte budgets of the
-- schemas, which measure JSON texts, are the parameter `fits`, a test on the states and payloads
-- that have one (`Sized`), and fields of `Protocol` for the ledger. Checks of the shape of a string
-- (a UUID, a digest, valid Unicode) have no counterpart. The recursions are all structural, so no
-- fuel is needed.
--
-- Not modelled: the adapters to AWS, the infrastructure definitions, the web clients, the command
-- line tools and the generated projects, which are I/O; of the core, queries, definitions, the
-- manifest, the lists of failures, the driver of the pump and the workflow runtime; of the
-- application, the workers other than the materializing of reviews.
pub mod Base
pub mod Core
pub mod Content
pub mod Jobs
pub mod Workflow
