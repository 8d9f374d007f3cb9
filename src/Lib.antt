-- ===== src/Lib.antt =====
-- Send Flow, the backend of an email sending service: campaigns and transactional requests become
-- messages, workers hand the messages to a mail provider, and the provider's events (delivery,
-- bounce, complaint, delay, rejection) come back and change the messages.
--
-- The parts modelled, and the files:
-- * `Prelude` has what the others share: lists and searches in them, lists without two elements of
--   one key, strings, comparisons, and how a test of a `Bool` is read.
-- * `Effect` is how a handler runs: `M` passes the database on from call to call, a call may fail
--   as `Env.fault` says for its number, and `within_tx` puts the database back when its body fails
--   (internal/platform/transaction/transaction.go, `WithinTx`), or when its commit answers an error,
--   unless `Env.kept` says that the commit was done all the same. `within_tx_leaving` is the same
--   around a body that also writes past the transaction. `Effect/Rules` has what is kept by a
--   composition of calls, `Effect/Outcomes` what a run that returned has done, `Effect/Leaves` what
--   a run leaves, told with its answer.
-- * `Strings` is what the code uses of Go's package strings.
-- * `Events` is internal/platform/events/envelope.go: `NewEnvelope`, `Validate`, `Marshal`.
-- * `Batching` is internal/platform/batching/pipeline.go: `Options` has the options, `Pipeline` the
--   goroutines of `Run` as steps on the state that they share, in every order.
-- * `Delivery/Status` is the state machine of internal/modules/delivery/domain/message.go:
--   `CanTransitionToStatus`, `ClassifyProviderEvent`, `IsTerminal`. `Delivery/Message` has its
--   records, `NewMessage` and `ValidateQueuedMessage`, `Delivery/Contracts` the payloads of
--   internal/modules/delivery/contracts/events.go.
-- * `Delivery/Store` has the tables and the statements on them, read off the SQL of
--   internal/modules/delivery/infrastructure/postgres/repository.go and
--   message_event_repository.go.
-- * `Delivery/ProviderEvent` is internal/modules/delivery/app/process/provider_event.go: `Execute`
--   is `execute` of `Handler`, the switch over the target status `change_for` of `Changes`, the
--   transaction's writes `perform` of `Writes`.
-- * `Delivery/Due` is internal/modules/delivery/app/process/due.go: `Claim` has `ProcessDueMessages`
--   and `ProcessDueMessagesAllWorkspaces`, `Process` and `Send` have `processMessage` before and from
--   the loading of the attachments, `Retry` has `handleTemporaryFailure`, `Accepted` has
--   `persistAcceptedState`, and `Data` what they share, with `computeRetryDelay`. The data that goes
--   to the ports is in `Delivery/Sending`.
-- * `Delivery/Accept` is internal/modules/delivery/app/send/accept.go: `Validate` has
--   `validateSendInput`, `explodeRecipients` and the canonical form, `Idempotency` has
--   `handleIdempotency` and `loadExistingRequestResult`, `Write` the body of the transaction, and
--   `Handler` has `Execute` and the storage of attachments. `Rows` has the statements that it runs.
--   It is a client of the message repository, which is the port `insert_messages`;
--   `Delivery/Insert` is that repository's `CreateMany` and `Delivery/Listing` its `List`
--   (internal/modules/delivery/infrastructure/postgres/repository.go), `Listing/Newest` its order
--   `Listing/Filters` what its filters ask, and `Listing/Pages` what a client reads that follows its
--   cursors.
-- * `Campaign` is internal/modules/campaign/domain/campaign.go. `Campaign/Draft`, `Change` and
--   `Schedule` are the handlers of internal/modules/campaign/app/draft: create.go and update.go;
--   pause.go, resume.go and cancel.go, each cut where it has read the campaign; schedule.go.
--   `Campaign/Store` has the statements of campaign/infrastructure/postgres/repository.go, and
--   `Campaign/Command` the command bus of app/cqrs.go.
-- * `Webhooks` is internal/modules/webhooks/domain/webhook.go, with the headers' sanitizing of
--   internal/platform/httpheaders/sanitize.go. `Webhooks/Store` has the statements of
--   webhooks/infrastructure/postgres/repository.go, `Deliver`, `Process` and `Retry` the handlers of
--   app/delivery (deliver.go, process.go, retry.go), `Source` app/source/handle.go, `Config` the
--   handlers of app/config, of which an update and a rotation are cut where they have read the
--   configuration, and `Worker` the loop of internal/apps/worker/due_webhook_consumer.go with the
--   commands that write deliveries. `Reads` has the queries (app/delivery/list.go and
--   get.go, app/config/list.go). `Valid` and `Handlers` have what the
--   theorems of `Stuck` rest on.
-- * `Identity/Access` is internal/modules/identity/domain/access.go: permissions as bits of a mask.
--
-- How the model stands to the code:
-- * Every call of a repository, a port or the generator of identifiers has a number, and
--   `Env.fault` may give an error for it: a theorem over every `Env` covers a failure at any call.
--   Commits of other workers between a handler's first read and its transaction are the function
--   `Ports.others` on the database. The transaction itself runs alone: it reads its row with a lock.
-- * A commit that answers an error may have been done. A theorem that says what is left after an error
--   of such a transaction has the hypothesis `CommitsTold`, that this does not happen. A rollback of
--   the provider event's transaction leaves the suppression entry, since the suppression module's
--   repository writes through the pool and not through the transaction.
-- * An error is a sentinel, that `errors.Is` compares, with a message. A time is a number, and zero
--   is Go's zero time. The log is left out. A context is never cancelled.
-- * The worker's loop of three tries is the recursion of `tries` on the number that is left; the
--   pauses between tries are left out. The other loops are recursions on lists. The batching
--   pipeline, which runs one processor, is a loop over the claimed messages; its options are
--   `pipeline_options`.
-- * The steps of the pipeline are those of runs in which the reader, the processor and the writer of
--   the caller succeed and no context is cancelled. Each send to a channel, each addition to a counter, each write of a batch
--   and each release of a token is a step of its own; the computation of an output is one with the
--   receipt of its item.
-- * The lock server, the answers of the sender, suppression and content modules, the attachments'
--   storage and the mail provider are parameters of the worker (`DuePorts`). `rand.Float64` is a
--   numerator over 2 ^ 53, and the delay that it is put into is rounded down once.
-- * The other requests that come in while one is accepted are seen through `Env.fault`: a call may
--   answer that there is no row, or that a key is taken, whatever the table holds. A refund that the
--   quota enforcer is asked for is recorded when it is asked for, since its answer is only logged. An
--   entry of the cache that has expired is a fault of its reading.
-- * `strings.ToLower`, `mail.ParseAddress`, SHA-256, the length of a text in bytes and its cutting
--   are parameters of the acceptance (`AcceptPorts`), and so are the sender, content and suppression
--   modules and the quota enforcer. An attachment's digest has at least twelve characters. A server
--   that runs an `INSERT` is a parameter of `CreateMany`, with the hypothesis that it refuses nulls
--   in the columns that are declared NOT NULL. Listed rows are ordered by their identifiers'
--   characters where their times are equal.
-- * URLs, addresses and the name service are a parameter of the webhooks' validation (`Network`), the
--   HTTP client, the signature, the secrets and the server's refusals one of their handlers
--   (`WebhookPorts`); what the client posted is a table of the model. The searches for a configuration
--   or a delivery, the listings and the subscriptions go through the read pool, which may lag behind
--   the tables that are written: what it shows of them is the function `WebhookPorts.read_pool`.
-- * A mask of permissions is a number; its 27 bits fit the source's `int64`.
-- * The access checker, the sender, content and audience modules, and the server's refusal of an
--   `INSERT`, are parameters of the campaign handlers (`CampaignPorts`). A status column has one of
--   the six statuses that the code writes.
-- * JSON encoding is a parameter, a function that may fail, and so is the suppression module, which
--   may answer anything to a signal.
--
-- Not modelled: the HTTP servers, configuration, Kafka, Redis, the SQL engine, templates, the listings
-- of campaigns, the sessions and invitations of identity, and the modules of the
-- other business areas (access, analytics, audience, audit, content, ingestion, notification,
-- operations, sender, suppression, tracking), which meet these parts through ports and the outbox
-- only.
pub mod Prelude
pub mod Effect
pub mod Events
pub mod Batching
pub mod Delivery
pub mod Campaign
pub mod Webhooks
pub mod Identity
pub mod Strings
