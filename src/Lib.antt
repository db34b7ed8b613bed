-- ===== src/Lib.antt =====
-- Verification library of the account manager: the event channel between the account manager and
-- the video cloud, the outbox of emails, and the users with their tokens, sessions and cache.
--
-- The program and how its parts interact. A request of an operator makes a device operation and a
-- message in the outbox table. The outbox worker claims messages that are due, builds an envelope
-- from each, validates it, hands it to a message broker and records the outcome in the rows of the
-- message and of the operation. The video cloud answers on a second stream: the inbox worker stores
-- each message in the inbox table, validates it, and records its outcome together with the
-- operation's result and what it changes in the row of the device. An administrator can requeue
-- messages that have failed. Emails have an outbox of their own, with a worker that claims them for
-- a time, sends them, and retries, expires or dead-letters what it cannot send.
-- Users prove their address, log in and change a password by tokens that are sent in such emails and
-- can be used once, and hold sessions by refresh tokens. The API reads users through a cache in
-- Redis, which the operations on users bring up to date.
--
-- Which file models what:
--   Common: Go's errors, integers and times, and lists and options over the native numbers.
--     A time is a number of nanoseconds from an origin before every time that RFC 3339 can denote,
--     and an offset; durations are whole nanoseconds.
--   Channel: internal/channel/channel.go. Channel/Types has the envelope and the fourteen payloads,
--     Channel/Routes the map messageSpecs, Channel/Text and Channel/Fields the tests on single
--     values, Channel/Payloads each payload's Validate, Channel/Envelopes ValidateAndDecode.
--   Model: the rows of internal/model/model.go.
--   Broker: the transient errors of internal/broker/broker.go.
--   Store: transactions on the device tables, which are lists of rows in Store/Tables. Store/Rows
--     has look-ups and updates by a key, Store/Selection what WHERE and ORDER BY make of a list.
--     Store/Claim is ClaimOutboxMessagesReady of internal/store/device_messages.go, Store/Outbox is
--     RecordOutboxPublishTransition of internal/store/outbox_worker.go, Store/Requeue the two
--     transactions RequeueOutboxMessage and RequeueInboxMessage of internal/store/lifecycle_admin.go,
--     Store/Projection is internal/store/device_projection.go. Store/Inbox/Create is
--     CreateOrGetInboxMessage of internal/store/device_messages.go with the CHECK clauses of the
--     table, Store/Inbox/Process is RecordInboxProcessTransition of internal/store/inbox_worker.go.
--     Store/Operations and Store/Messages are the rest of internal/store/device_messages.go: the
--     creation of operations and of outbox messages, the listing, and the updates.
--   Worker/Outbox: RunOnce of internal/worker/outbox/service.go and what it calls. It is written over
--     a record of the operations that the worker uses; Worker/Outbox/Deployment fills that record
--     with the store's transactions, as cmd/outbox-worker/main.go does for an event broker, and
--     Worker/Outbox/Loop is Run, a function of the rounds that it gets to make.
--   Worker/Inbox: internal/worker/inbox/service.go over the store's transactions, as
--     cmd/inbox-worker/main.go puts them together: Transitions has buildTransitionForPayload,
--     Messages processMessage, which first chooses a transition and then records it, Rounds
--     RunOnce, and Loop NewService and Run, a function of the rounds that it gets to make.
--   Email, Model/Email: internal/emaildelivery/crypto.go and delivery_error.go, and
--     internal/model/email_outbox.go: payloads, their encryption, and a row of the table of emails.
--   Store/Email: internal/store/email_outbox.go. Diagram has the states of an email as a step
--     relation and the statements as another, Refinement what every sequence of them keeps, Leases
--     what a claim gives.
--   Worker/Email: internal/worker/emailoutbox/service.go: a delivery and what it
--     records (Deliveries), its delay (Delays), and RunOnce and Run in Worker/Email/Loop, with the
--     goroutines in any order (Schedules) and every round as statements (Rounds, Liveness).
--     Run is a function of the rounds that it gets to make. The time until a retry is computed on
--     whole numbers, which float64 represents for a base below 2^53 nanoseconds, and the jitter is
--     added as int64 adds; what a product beyond int64 converts to is left open. The random number
--     of each retry is an argument of its own.
--   Model/User, Store/Accounts: users, tokens and sessions in internal/store/store.go, with
--     ActivateUserFromVerifiedSocialEmail of internal/store/developer_brand_clouds.go.
--     Store/Accounts itself reads users (GetUser and the other three), Members has
--     ensureNotLastActiveOwnerTx, Tokens makes and consumes the tokens sent by mail, Sessions has the
--     refresh tokens, and Passwords the operations that verify an address, change a password, disable
--     or enable a user. Uses puts the transactions that touch tokens into one type.
--   UserCache: internal/usercache. Cache is the interface cacheStore for users of the platform with
--     the laws that its client relies on, Accounts the Store of store.go over such a cache and over
--     Store/Accounts, with the warnings that it logs; Accounts/Coherence says what it means for
--     the cache to agree with the table. Resp is writeRESPCommand and readRESP of redis.go on bytes.
--     readRESP takes as fuel the depth of its calls, for which more than the bytes of the input is
--     enough. Redis is RedisCache of redis.go for users of the platform: Server says what it relies
--     on, Keys, Entries, Scans and Quiet are about its keys, entries, deletions and errors.
--     deleteByPattern takes as fuel the turns for which the context of its call lasts.
--   Tests: the theorems at concrete values, and in Channel/Envelopes/Tests an envelope that is
--     accepted.
--
-- A method of Go that returns an error is a function into Result. A method that changes the tables
-- takes and returns them; a transaction that fails returns no tables, since it is rolled back. Every
-- loop is structural recursion on a list or a count, so that no fuel is needed but in
-- readRESP and deleteByPattern.
--
-- Parameters: encoding/json and the lower case of letters beyond ASCII are the record Codec,
-- whose decode is strict as DisallowUnknownFields makes it, and, for the inbox, maps, base64 and
-- UTF-8 are the record Encoding. The broker, the clock and the cancellation of the context are
-- functions of a state that is left open. No law is assumed of them.
-- For emails, the record Cipher is crypto/cipher and encoding/json, and the record Mailer the mail
-- service, Renderer.Render, the texts of errors, the texts that the database takes and the faults
-- that a round meets; a Schedule orders the goroutines and their results.
-- For users, unicode.ToLower on a character, of which two laws are named where they are used; for the
-- wire, the number of bytes that make allocates at most; and for RedisCache, redisCommand on a state
-- of the server and the connections, with the documented behaviour of GET, SET, DEL and SCAN as the
-- laws IsServer, and encoding/json with the laws IsJson.
--
-- Not modelled: faults of the database; two transactions at the same time, where the row locks make
-- the ones modelled here run one after the other and SKIP LOCKED leaves out rows that another claim
-- holds; the columns that the database fills in (id and updated_at), but for updated_at of users,
-- which the trigger of migrations/004 sets; the triggers deletion_job_fence (migrations/061), which
-- refuses changes for an organization whose cloud is being deleted, those of migrations/051, which
-- end the holds of an activation, and of migrations/076, which keep the last administrator; its rounding of times to
-- microseconds; a jsonb column that returns a value other than the one stored; uuids in another
-- than the canonical spelling, which PostgreSQL takes for equal; the wording of errors; the wording
-- and the delivery of emails, which are parameters of their worker, and the counts for its metrics;
-- the adapter that calls the video cloud over HTTP within Publish and changes the tables itself.
-- Rows that compare equal under ORDER BY keep their order in the table, where the database leaves
-- it open. Of internal/usercache: Register, SignupDeveloper and ProvisionBrandCloudAccount, the end
-- users, RetireTenantIdentity and the dialling in redisCommand; an id that is not in the form of an uuid,
-- which PostgreSQL refuses and the model does not find; two calls at the same time.
pub mod Common
pub mod Channel
pub mod Email
pub mod Model
pub mod Broker
pub mod Store
pub mod UserCache
pub mod Worker
pub mod Tests
