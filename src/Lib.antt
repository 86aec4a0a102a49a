-- ===== src/Lib.antt =====
-- TrustGate: a marketplace in which requesters publish tasks, executors bid for them with collateral
-- in escrow, and a worker releases or a timer confiscates what is locked.
--
-- The server of src/ answers HTTP requests (src/controllers), keeps tasks and bids
-- (src/repositories), runs an auction (src/services/auctionService.ts), and writes what happened to
-- a transactional outbox. The worker (src/services/workerService.ts) copies the outbox to a Redis
-- stream, takes entries from it, and handles two kinds of events: a requested completion, for which
-- it releases the milestone of the escrow, and a published result, for which it calls a webhook. A
-- timer (src/services/timeoutService.ts) confiscates the collateral of abandoned tasks.
--
-- What is modelled where:
--   Money        src/utils/money.ts, src/services/listingFee.ts
--   Models       src/models/task.ts, src/models/bid.ts, src/presenters
--   Schema       src/models/bidSchema.ts, src/models/taskSchema.ts
--   Retry        src/utils/retry.ts
--   Webhook      src/services/webhookService.ts
--   Charge       src/services/mppChargeService.ts
--   Table        keyed rows, for the repositories
--   Outbox       src/repositories/outboxRepository.ts
--   Consumption  src/repositories/eventConsumptionRepository.ts
--   Json         the canonical JSON of src/services/executorResultService.ts
--   Server       the state of the server, its surroundings, src/services/outboxService.ts, and the
--                form of a handler
--                Server.Columns is the rows that migrations/0001_init.sql, taskRepository.ts and
--                bidRepository.ts make of new tasks and bids
--   Http         what the middlewares read of a request
--   Redis        the commands of Redis that the middlewares send, as an interface with laws
--   Auth         src/middlewares/signatureAuth.ts, src/controllers/authController.ts
--   Idempotency  src/middlewares/idempotency.ts, src/repositories/idempotencyRepository.ts
--   Auction      src/services/auctionService.ts
--   Bids         src/controllers/bidController.ts, src/services/policyService.ts
--   Tasks        src/controllers/taskController.ts, publishTask of src/services/taskFeedService.ts
--   Executors    src/controllers/executorController.ts, src/repositories/executorRepository.ts
--   Results      src/controllers/executorResultController.ts,
--                src/services/executorResultService.ts, src/repositories/taskResultRepository.ts
--   Timeout      src/services/timeoutService.ts
--   Publisher    src/services/outboxPublisher.ts
--   Consumer     src/services/eventConsumer.ts
--   Worker       src/services/workerService.ts; Worker.Loop is its tick
--   Safety       src/config/safetyFeatures.ts
--   Escrow       src/services/escrowService.ts and the escrow of
--                src/services/mockExternalServices.ts
--   App          the routes of src/app.ts with their middlewares, src/middlewares/adminAuth.ts;
--                App.Startup is what src/app.ts and src/server.ts check before they start
--   Market       the steps of all handlers together: the tables of tasks and bids, and the moves
--                that the life of a task allows
--   Prelude, Samples  shared names, lemmas and the values of the tests
--
-- A handler reads and writes a World and either answers or goes on (Server.Action); an error of a
-- service is a value. An operation of a repository is one step. The answers of Redis, of the
-- escrow provider, of the registry, of the token contract and of `fetch`, the UUIDs, the clock and
-- `Date.parse` are parameters (Server.Env, Worker.WorkerEnv), and every call of the escrow provider
-- and every transfer of a listing fee is recorded in the World. A handler and a tick are taken as one
-- instant, and handlers as running one after another. Amounts are bigints, and numbers of the source that count
-- are natural numbers. No loop needs fuel but that of `withRetry`, which counts down the rounds that
-- are left, as many as there are attempts.
--
-- With a database, which every network but local requires, a new task, bid, executor or result is
-- refused where its amounts do not fit a bigint or a column does not take its text, its deadline or its
-- payload, and deadlines and payloads are read back as their columns hold them; what timestamptz, text
-- and jsonb columns take is a parameter. Rows that were read are taken again as they are.
--
-- Nonces and counters of failures live in a Store of Redis, of which only the laws of its commands are
-- used; Auth.Memory is one that keeps them. A request passes a route in one step, and the response of
-- a handler is stored under its idempotency key in that step.
--
-- The market is a step relation on the state (Market.Step): a run of a handler, of the timeout
-- service, or of the worker on an event is one step, and whatever leaves the two tables is one more.
-- That a UUID is not in use when it is drawn for a task or a bid is asked of the steps that draw one.
-- What the steps do is stated once more, without the code, as the changes of Market.Change.
--
-- Not modelled: health checks, metrics, logs and API documents, the stream of the feed, the paid read
-- of results (src/config/x402.ts) and the clients of Stellar, MPP and x402, migrations, the SQL texts,
-- lost connections and other failures of the database, the schedule of the timer and of the worker,
-- floating point (the split of a confiscated collateral); nor the contracts, the frontend, the video and the scripts.
pub mod Prelude
pub mod Models
pub mod Money
pub mod Retry
pub mod Webhook
pub mod Table
pub mod Outbox
pub mod Consumption
pub mod Json
pub mod Server
pub mod Schema
pub mod Http
pub mod Idempotency
pub mod Redis
pub mod Auth
pub mod Auction
pub mod Bids
pub mod Tasks
pub mod Executors
pub mod Results
pub mod Timeout
pub mod Publisher
pub mod Consumer
pub mod Charge
pub mod Safety
pub mod Escrow
pub mod Worker
pub mod Market
pub mod App
pub mod Samples
