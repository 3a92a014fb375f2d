-- ===== src/Lib.antt =====
-- A verification library for the Notary Day backend: scheduling, booking and invoicing for mobile
-- notaries.
--
-- The program. A notary keeps jobs (appointments), each with a life cycle, and a booking page, where
-- clients ask for a time; an approved request becomes a job. A complete job makes a journal entry and
-- an invoice. "Can I take this?" (CITT) rates an offered job by its profit and by its neighbours in
-- the schedule. The services share one Postgres database and put their slow work (mails, documents,
-- calendars) on queues.
--
-- Files.
-- - Common: Boolean tests, lists, texts and integers over the native numbers.
-- - Schema: prisma/schema.prisma. Schema/Enums and Schema/Rows are the enums and the rows,
--   Schema/Monad the database as a state, the messages that leave the program (`Effect`), HTTP errors
--   and the monad of a request, in which a failure keeps what was written before it; `transaction`
--   undoes it.
-- - Tables: the queries that services share, and src/modules/users/user-settings.service.ts.
-- - Profitability: src/common/utils/profitability.util.ts and eta-window.util.ts.
-- - Jobs: src/modules/jobs/jobs.service.ts. Jobs.antt has `updateStatus`, Jobs/Editing `create`,
--   Jobs/Updating `update` and `remove`; Jobs/Lifecycle states the diagram of the statuses,
--   Jobs/Stamps follows sequences of requests, Jobs/Keys the idempotency key, Jobs/Windows the end
--   times, Jobs/Removal the soft deletion of jobs.
-- - Journal: `createForCompletedJob` of src/modules/journal/journal.service.ts.
-- - Invoices: src/modules/invoices/invoices.service.ts. Invoices.antt has `generate`,
--   Invoices/Numbers the numbering, Invoices/Edits the other operations; Invoices/Frame, Sequence,
--   Meeting, Issue, Locks and Totals are about them. Invoices/Worker is the worker that makes the
--   documents and sends the mails (src/workers/invoice.processor.ts) with its cron job
--   (src/workers/invoice-retry-cron.service.ts); Invoices/Attempts follows the row of an invoice
--   through an attempt, and Invoices/Mails, Retries, Stranded and Documents are about the worker.
-- - Booking: src/modules/booking/booking.service.ts. Booking.antt has the blocks of time,
--   Booking/Slots `computeSlots`, Booking/Requests `create`, Booking/Review `approve`, `decline` and
--   `cancel`, Booking/Alternatives `suggestAlternatives`; Booking/Conflicts, Offers, Offered,
--   Suggested and Approval are about them.
-- - Citt: src/modules/citt/citt.service.ts, with `runCheck` in Citt/Check; its verdicts and its
--   answers are the subject of Citt/Verdicts, Neighbours and Answers.
-- - Users: src/modules/users/users.service.ts and the signing defaults of user-settings.service.ts,
--   which Users/Defaults is about. Auth: src/modules/auth/auth.service.ts; Auth/Passwords,
--   Registering, Closing and Closed are about it. The functions of bcrypt and of jsonwebtoken are a
--   record of parameters (`Library`); the theorems that need it suppose that bcrypt accepts a text
--   against its own hash.
-- - Planner: src/modules/planner/planner.service.ts with the solver's client
--   src/common/services/ors.service.ts. Planner.antt has the solver's routes, the time order and the
--   check of an order, Planner/Today `getToday`, Planner/Optimise `optimise` and `applyRoute`,
--   Planner/Gaps `findGaps`; Planner/Conflicts, Feasible, TimeOrder and Gaps/Fitting are about them.
-- - Billing: src/modules/billing/billing.service.ts. Billing.antt has the handlers of the events and
--   the worker (src/workers/billing-webhook.processor.ts), Billing/Webhook the controller;
--   Billing/Delivery and Billing/Processing are about them.
-- - Marketing: the mailing of campaigns, src/workers/marketing and src/modules/marketing, on a
--   database of its own. Marketing.antt has the rows, Marketing/Sending `send`, Marketing/Ticks the
--   cron jobs, Marketing/Campaigns `pause`, `resume` and `cancel`, Marketing/Suppressing the
--   suppressions and the events of the providers, Marketing/Csv the exports; Marketing/Claims, Kept,
--   Suppressed, Stopping, Resuming, Gates, Pacing and CsvReading are about them.
-- - Examples: runs on concrete rows.
--
-- Conventions. Identifiers are numbers. Times are milliseconds, money is in cents, distances are in
-- hundredths of a mile, rates in 1/10000 dollar a mile: the scales of the Decimal columns, so sums are
-- exact; an amount before its rounding is in micro-dollars. Geocoding, routes and the clock are
-- parameters (`Env`). A request runs as one step, with these exceptions, in which what other requests
-- write meanwhile is a parameter (`other_calls`): between reading the last invoice number and the
-- insert (`generate`), between the look for the key of a job and its insert (`create` of the jobs),
-- before the transaction of `approve`, and in the invoice that `updateStatus` asks for. The gap
-- between the read of a job and its write (`updateStatus`, `update`) is not opened, nor are those of
-- the other services. An aborted serializable transaction of a booking is a parameter (`aborted`).
--
-- Bounds. `generate` tries five numbers, as the source does. `computeSlots` runs on fuel: one round
-- for each half hour of the window and one more, which is enough since a start beyond the window ends
-- it. The digits of a number run on the number itself as fuel.
--
-- The services call the workers through messages (`outbox`): a theorem about a worker takes its calls
-- in any order. A theorem that follows one row asks that no other row has its identifier, which is the
-- primary key.
--
-- Not modelled: the imports of jobs and leads, calendars, the black list of session tokens, expenses,
-- reports and administration, the editing, scheduling and dispatch of campaigns, the calendar,
-- reminder and notification workers; the texts of mails and reasons, the drawing of documents; caches.
-- Floating point is replaced by the exact value. Failed calls of queues, which the source logs and
-- forgets, are taken to succeed, except in Billing/Webhook, where the request fails with them; writes
-- of the database succeed.
pub mod Common
pub mod Schema
pub mod Tables
pub mod Profitability
pub mod Journal
pub mod Invoices
pub mod Jobs
pub mod Booking
pub mod Citt
pub mod Users
pub mod Auth
pub mod Planner
pub mod Billing
pub mod Marketing
pub mod Examples
