-- ===== src/Lib.antt =====
-- The backend of an image converter: services that share databases, queues and an object store.
--
-- - apps/notifications sends security e-mails through Amazon SES and follows their fate. A command
--   claims a row of `email_deliveries`, submits it once, and records the answer; provider feedback
--   arrives through a queue, in any order and more than once, and changes the delivery and the rows
--   of `email_destinations` of the address; an operator may recover a suppressed address.
-- - apps/conversion-api takes batches of images, checks their uploads, admits them within the
--   quotas of a plan, puts requests in an outbox for the workers, applies the workers' events, and
--   expires files and batches.
-- - apps/conversion-worker takes requests from queues by priority, within a number of slots, compresses
--   the images, and publishes what became of them as events for the API.
-- - apps/auth keeps users and sessions, whose refresh tokens it rotates, and limits failed logins.
--
-- The files:
--
-- - Prelude: the shared names, and the database's statements on a table as a list of rows:
--   `update_many`, `find_many`, `find_unique`, `count_where`, `order_by`.
-- - Notifications/Feedback: feedback/ses-feedback-policy.ts, with the events of
--   feedback/ses-feedback-parser.ts; Notifications/Revision: `newerEventFilters` of
--   feedback/ses-feedback-transitions.ts. Paths in this list are under
--   apps/notifications/src/app, apps/conversion-api/src/app and apps/conversion-worker/src/app.
-- - Notifications/Delivery: `recordProviderAcceptance` and `applyDeliveryTransition`.
-- - Notifications/Destination: the rows of an address; Suppress, Nonterminal and Transition are
--   `suppressDestinationAliases`, `convergeNonterminalAliases` and `applyDestinationTransition`;
--   Recovery is operations/email-recovery.service.ts.
-- - Notifications/Command: the transactions of delivery/security-email.service.ts, with the leases
--   of delivery/delivery-lease.ts; Steps is a step relation with the statements on the table of
--   the commands, the submissions, the sweep of stale claims and the feedback. The deletion of old
--   rows by operations/email-retention.service.ts is not a step.
-- - Conversion: the tables; Rollup is lifecycle/batch-rollup.ts, Retention is
--   lifecycle/retention.service.ts, Events is events/worker-event-processor.service.ts, Uploads is
--   `createBatch` and `completeUploads`, Quota and Admission are `admitReadyFiles` of
--   admission/admission.service.ts. Steps has the statements as a step relation; an admission is
--   its transaction, with a row of the batch that was read at any time before.
-- - Auth/Session: the tables of sessions and refresh tokens; Token, Create, Refresh and Logout are
--   the functions of apps/auth/src/app/session/services/session.service.ts and
--   session-token.service.ts, with the deletion of session-cleanup.service.ts. Steps has the
--   statements of the requests as a step relation, to which Refines relates a whole refresh; Replay
--   is about tokens that were spent before. bcrypt's comparison is a parameter.
-- - Auth/LoginAttempts: auth/password/login-attempt.service.ts of apps/auth, on the keys of Redis.
-- - Text: strings as lists of code units, and `split`.
-- - Worker/Image: pipeline/image-compressor.service.ts; Jpeg is `rewriteJpegMetadata`, Walks is
--   `carriesOnlyAllowedTypes`, Webp is `stripWebpMetadata`, Compress is `compress` with its encoders.
--   The library sharp is a parameter.
-- - Worker/Handle: `handle` of queue/queue-consumer.service.ts as the list of its calls, with the
--   services it calls as parameters; Conversion/Messages: the messages between worker and API, with
--   `parseConversionRequest` and `parseWorkerEvent` of events/worker-events.consumer.ts. JSON is a
--   library: the parsers stand on the fields of the parsed object.
-- - Worker/Slots: `acquire` and `release` of queue/queue-consumer.service.ts.
-- - Tests: the theorems at concrete rows.
--
-- A transaction is a function on tables; an exception, which undoes it, is `none` or an error without
-- tables. Statements that are not in one transaction are steps of their own, so that steps of other
-- processes stand between them. Clocks, random identifiers, digests and the answers of the object
-- store are parameters. Identifiers, digests and object keys are compared whole and stand as numbers
-- or by their parts; times are milliseconds, and all numbers are natural. The loops over
-- image containers run on fuel, one round for each byte and one more, which is enough since each round
-- goes on by a byte at least; the other loops go over finite lists.
--
-- Not modelled: the retention of e-mail rows, the wait loop and the deadlines of a command, the decoder of SES events, the poll loops,
-- the outbox publisher, access tokens, registration and passwords of apps/auth, the GraphQL gateway,
-- configuration, and the clients of AWS, Redis and PostgreSQL, which are libraries. A failed write of
-- an audit event is not modelled.
pub mod Prelude
pub mod Text
pub mod Auth
pub mod Notifications
pub mod Conversion
pub mod Worker
pub mod Tests
