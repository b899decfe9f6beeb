-- ===== src/Lib.antt =====
-- email-to-telegram takes mail over HTTP from a forwarding worker and delivers it to Telegram chats.
-- An alias (`email_addresses`) names a chat, an optional topic and an owner. Mail for an alias passes
-- the allow rules and the owner's quota, is written as a delivery log, and is sent; a worker retries
-- what failed. Chats move: an owner moves an alias, and Telegram gives a group another id when it
-- becomes a supergroup.
--
-- The tables are one record of lists (Store.Rows: src/db/schema/), in which a row keeps the columns
-- that the code below reads or writes. A transaction of the source is one step, a function from the
-- tables to the tables; the advisory locks that it takes are the reason that it is one. An `update ...
-- where` is `update_where`, an `insert ... on conflict` is `upsert` or `insert_new` (Base.Tables). Ids,
-- times in milliseconds and byte counts are natural numbers; a chat's id is an integer. UUIDs are
-- numbers, and where the code draws one it is an argument.
--
--   Base       Boolean tests, lists, tables, texts, chat ids.
--   Store      src/db/repos/: Users (users.ts, aliases.ts, allowRules.ts, inboundDomains.ts), Usage
--              (usage.ts, storageUsage.ts), Logs (deliveryLogs.ts, deliveryAttempts.ts and
--              src/email/dedup.ts), Routing (aliasRouting.ts).
--   Billing    Plans (src/billing/plans.ts), Limits (src/billing/limits.ts), Webhooks and Events
--              (src/billing/webhooks.ts: the data and its tests, and the handlers), Manual
--              (src/billing/manual.ts with src/db/repos/manualBillingEvents.ts), Notices
--              (src/billing/quotaNotifier.ts with src/db/repos/quotaNotifications.ts).
--   Email      AllowRules (src/email/allowRuleEvaluator.ts), Inbound (src/email/inboundRouting.ts and
--              src/email/pipeline/types.ts), Queue (src/email/pipeline/queue.ts), Outcome
--              (src/email/deliveryRoute.ts, src/billing/usageRefund.ts), Deliver
--              (src/email/pipeline/deliver.ts), Retry (`retryDelivery` of src/email/retry.ts), Worker
--              (its `runRetryWorker`), Runner (its `createRetryRunner`).
--   Telegram   Errors (src/telegram/errorClassifier.ts), ChatMigration
--              (src/telegram/chatMigration.ts with src/db/repos/chats.ts), Sender
--              (src/telegram/sender.ts), Session (src/telegram/session.ts), OrphanProbe
--              (src/telegram/orphanProbe.ts and orphanRecovery.ts) on Cache, MoveTarget
--              (src/telegram/moveTarget.ts), Authorization
--              (src/telegram/authorization.ts).
--   Activation Slots and NoticeQueue (src/activation/noticeQueue.ts with src/activation/bounds.ts).
--   Utils      RateLimit, InFlight and RetryAsync (src/utils/rateLimit.ts, inFlight.ts, retryAsync.ts).
--   Examples   Concrete tables and answers, on which the theorems are applied.
--
-- `queue_inbound_email` is `queueInboundEmail`: it finds the alias, evaluates the allow rules and runs
-- `queue_transaction`, which checks the quota (`check_inbound_limit_for_plan`), duplicates
-- (`is_duplicate`) and the hourly rate, and then inserts the log and charges the owner.
-- `deliver_queued_email` is `deliverQueuedEmail`, whose world also says what other transactions do
-- between its looks at the alias. `retry_delivery` is `retryDelivery`: it reads the route, sends,
-- writes the attempt with the status that the error's class gives it (`retry_disposition_for_error`),
-- refunds the owner where it closes the delivery, and repairs the routes where Telegram says that the
-- chat migrated. `run_retry_worker` claims the deliveries that need a retry and runs it on each.
-- `process_stripe_webhook_event` is `processStripeWebhookEvent`, from the decoded event on and where no
-- statement throws; `run_webhook` is it with a statement that may, which rolls it back; and
-- `grant_manual_user_plan` is `grantManualUserPlan`, which writes to the same tables.
-- `send_telegram_message` and `send_telegram_photos` are the sends whose results the deliveries get.
--
-- The classes that keep their state in memory (the rate limiter, the tracker of running work, the slots
-- and the queue of notices, the sessions, the cache of reachable chats) are values with a function per method. What calls them, in
-- whatever order, is a list of events with the clock's readings, or a relation `Reaches` whose
-- constructors are the calls.
--
-- Code outside the repository is an argument. `toLowerCase` and `trim` are the fields of `TextOps`;
-- what mailparser and mailauth return is in `Env`, and what Telegram answers during an attempt is in
-- `RetryWorld`. Nothing is assumed of them but, for the allow rules, that normalising a normalised
-- text changes nothing. The length of a text in a grant and the regular expression of
-- `isDestinationOrAuthFailure` are functions that are passed in. `includes` is the library's search in a string.
--
-- The loops are over lists, but for the groups of photos, whose fuel is the number of photos: every
-- group takes one or more. Numbers do not overflow: the source uses bigint
-- or counts far below 2^53, and its database checks.
--
-- Not modelled: rendering, storage and its encryption, the Telegram menus, the HTTP handlers, the
-- checkout, the recovery of pending files, metrics and logs. A statement
-- of the database that fails is modelled for the write after the first send (`persisted`), for an
-- attempt of the worker that throws before it writes (`throws`) and for the transaction of an event of
-- Stripe (`throws`); any other step of the model is a transaction that went through. `lock_order` is
-- the list of users to lock; the advisory locks are not modelled. A log's time of receipt, in the
-- source the default `now()` of its column, is the clock that the checks of its transaction read.
pub mod Activation
pub mod Base
pub mod Billing
pub mod Email
pub mod Examples
pub mod Store
pub mod Telegram
pub mod Utils
